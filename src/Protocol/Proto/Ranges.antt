-- ===== src/Protocol/Proto/Ranges.antt =====
-- The ranges of the int32 and int64 fields of src/aduib_rpc/proto/aduib_rpc_v2.proto: protobuf raises
-- ValueError where src/aduib_rpc/utils/grpc_v2_utils.py gives a field a number out of its range.
use aduib_rpc.Prelude.{
  Bool, List, Option, [], if◌then◌else◌, ltb, negsuc, none, pos, some, true, ℤ, ◌&&◌, ◌∷◌,
}
use aduib_rpc.Protocol.Proto.{
  ProtoRequestMetadata, ProtoResponseMetadata, ProtoRetryConfig, ProtoQosConfig, ProtoRequest,
  Payload, result_payload, error_payload, no_payload, ProtoResponse,
}

unfoldable pub is_int32 : ℤ → Bool
is_int32 (pos n) = ltb n 2147483648
is_int32 (negsuc n) = ltb n 2147483648

unfoldable pub is_int64 : ℤ → Bool
is_int64 (pos n) = ltb n 9223372036854775808
is_int64 (negsuc n) = ltb n 9223372036854775808

unfoldable pub if_given : {A : Type 0} → (A → Bool) → Option A → Bool
if_given f none = true
if_given f (some a) = f a

unfoldable pub every : {A : Type 0} → (A → Bool) → List A → Bool
every f [] = true
every f (a ∷ rest) = f a && every f rest

unfoldable pub metadata_fits : ProtoRequestMetadata → Bool
unfolding is_int32 is_int64 if_given
metadata_fits m =
    is_int64 (pos m.timestamp_ms) && if_given (λ n. is_int32 (pos n)) m.long_task_timeout

unfoldable pub retry_fits : ProtoRetryConfig → Bool
unfolding is_int32 is_int64 every
retry_fits r =
    is_int32 r.max_attempts
    && (is_int64 r.initial_delay_ms
        && (is_int64 r.max_delay_ms && every (λ c. is_int32 (pos c)) r.retryable_codes))

unfoldable pub qos_fits : ProtoQosConfig → Bool
unfolding is_int64 if_given retry_fits
qos_fits q = if_given (λ n. is_int64 (pos n)) q.timeout_ms && if_given retry_fits q.retry

unfoldable pub request_fits : {S : Type 0} → ProtoRequest S → Bool
unfolding if_given metadata_fits qos_fits
request_fits r = if_given metadata_fits r.metadata && if_given qos_fits r.qos

unfoldable pub response_metadata_fits : ProtoResponseMetadata → Bool
unfolding is_int64
response_metadata_fits m = is_int64 (pos m.timestamp_ms) && is_int64 (pos m.duration_ms)

unfoldable pub payload_fits : {P : Type 0} → Payload P → Bool
unfolding is_int32
payload_fits (result_payload p) = true
payload_fits (error_payload e) = is_int32 (pos e.code)
payload_fits no_payload = true

unfoldable pub response_fits : {P : Type 0} → ProtoResponse P → Bool
unfolding if_given response_metadata_fits payload_fits
response_fits r = payload_fits r.payload && if_given response_metadata_fits r.metadata

-- A message whose numbers fit.
unfoldable pub in_range : {A : Type 0} → (A → Bool) → A → Option A
in_range fits a = if fits a then some a else none
