-- ===== src/Protocol/Proto/Sendable.antt =====
-- Which messages src/aduib_rpc/utils/grpc_v2_utils.py can send: those with objects in the fields that
-- are declared as Any, and with numbers for which src/aduib_rpc/proto/aduib_rpc_v2.proto has a place.
use aduib_rpc.Prelude.{
  Bool, Option, ap, false, none, or_empty, pos, refl, some, true, ◌&&◌, ◌||◌, ◌≡◌,
}
use mathlib.Core.Path.{ap₂}
use mathlib.Core.Option as Opt
use aduib_rpc.Protocol.Messages.{
  RequestMetadata, ResponseMetadata, QosConfig, RpcError, AduibRpcRequest, AduibRpcResponse, Loose,
  typed, untyped, is_success,
}
use aduib_rpc.Protocol.Proto.{Libraries, Payload}
use aduib_rpc.Protocol.Proto.Ranges.{
  is_int32, is_int64, if_given, every, request_fits, metadata_fits, retry_fits, qos_fits,
  response_fits, response_metadata_fits, payload_fits,
}
use aduib_rpc.Protocol.Proto.ToProto
use aduib_rpc.Protocol.Proto.ToProto.{request_with, with_payload}
use aduib_rpc.Resilience.RetryPolicy.{RetryPolicy}

-- An object, and one of which something holds.
pub is_object : {A : Type 0} → (A → Bool) → Option (Loose A) → Bool
is_object f none = true
is_object f (some (typed a)) = f a
is_object f (some untyped) = false

pub metadata_sendable : RequestMetadata → Bool
unfolding is_int32 is_int64 if_given
metadata_sendable m =
    is_int64 (pos m.timestamp_ms) && if_given (λ n. is_int32 (pos n)) m.long_task_timeout

retry_sendable : RetryPolicy → Bool
unfolding is_int32 is_int64 every
retry_sendable r =
    is_int32 r.max_attempts
    && (is_int64 r.initial_delay_ms
        && (is_int64 r.max_delay_ms && every (λ c. is_int32 (pos c)) (or_empty r.retryable_codes)))

qos_sendable : QosConfig → Bool
unfolding is_int64 if_given retry_sendable
qos_sendable q = if_given (λ n. is_int64 (pos n)) q.timeout_ms && if_given retry_sendable q.retry

unfoldable pub is_sendable : {V : Type 0} → AduibRpcRequest V → Bool
unfolding if_given metadata_sendable is_object qos_sendable
is_sendable r = if_given metadata_sendable r.metadata && is_object qos_sendable r.qos

response_metadata_sendable : ResponseMetadata → Bool
unfolding is_int64
response_metadata_sendable m =
    is_int64 (pos m.timestamp_ms) && is_int64 (pos (Opt.get_or m.duration_ms 0))

unfoldable pub error_sendable : {V : Type 0} → Option (RpcError V) → Bool
unfolding is_int32
error_sendable none = true
error_sendable (some e) = is_int32 (pos e.code)

unfoldable pub response_sendable : {V : Type 0} → AduibRpcResponse V → Bool
unfolding is_object response_metadata_sendable
response_sendable r =
    (is_success r || error_sendable r.error) && is_object response_metadata_sendable r.metadata

and_false : (b : Bool) → (b && false) ≡ false
and_false true = refl
and_false false = refl

pub untyped_request :
    {V : Type 0} (r : AduibRpcRequest V) → is_sendable (record r { qos = some untyped }) ≡ false
unfolding is_sendable is_object
untyped_request r = and_false (if_given metadata_sendable r.metadata)

pub untyped_response :
    {V : Type 0} (r : AduibRpcResponse V)
    → response_sendable (record r { metadata = some untyped }) ≡ false
unfolding response_sendable is_object is_success
untyped_response r = and_false (is_success r || error_sendable r.error)

if_given-map :
    {A B : Type 0} (f : B → Bool) (g : A → B) (h : A → Bool)
    → ((a : A) → f (g a) ≡ h a)
    → (o : Option A) → if_given f (Opt.map g o) ≡ if_given h o
unfolding if_given
if_given-map f g h e none = refl
if_given-map f g h e (some a) = e a

module _ {V S P : Type 0} (x : Libraries V S P) where
  metadata_lem :
      (m : RequestMetadata) → metadata_fits (ToProto.request_metadata x m) ≡ metadata_sendable m
  unfolding metadata_fits metadata_sendable ToProto.request_metadata
  metadata_lem m = refl

  retry_lem : (r : RetryPolicy) → retry_fits (ToProto.retry_config r) ≡ retry_sendable r
  unfolding retry_fits retry_sendable ToProto.retry_config
  retry_lem r = refl

  qos_lem : (q : QosConfig) → qos_fits (ToProto.qos_config x q) ≡ qos_sendable q
  unfolding qos_fits qos_sendable ToProto.qos_config
  qos_lem q =
      ap (λ b. if_given (λ n. is_int64 (pos n)) q.timeout_ms && b)
        (if_given-map retry_fits ToProto.retry_config retry_sendable retry_lem q.retry)

  object_lem :
      (q : Option QosConfig)
      → if_given qos_fits (Opt.map (ToProto.qos_config x) q)
        ≡ is_object qos_sendable (Opt.map typed q)
  unfolding if_given is_object
  object_lem none = refl
  object_lem (some q) = qos_lem q

  pub request_fits_lem :
      (r : AduibRpcRequest V) (q : Option QosConfig)
      → request_fits (request_with x r q) ≡ is_sendable (record r { qos = Opt.map typed q })
  unfolding request_fits is_sendable request_with
  request_fits_lem r q =
      ap₂ (λ b c. b && c)
        (if_given-map metadata_fits (ToProto.request_metadata x) metadata_sendable metadata_lem
          r.metadata)
        (object_lem q)

  response_object_lem :
      (m : Option ResponseMetadata)
      → if_given response_metadata_fits (Opt.map ToProto.response_metadata m)
        ≡ is_object response_metadata_sendable (Opt.map typed m)
  unfolding if_given is_object response_metadata_fits response_metadata_sendable
      ToProto.response_metadata
  response_object_lem none = refl
  response_object_lem (some m) = refl

  pub response_fits_lem :
      (r : AduibRpcResponse V) (p : Payload P) (m : Option ResponseMetadata)
      → payload_fits p ≡ (is_success r || error_sendable r.error)
      → response_fits (with_payload x r p m)
        ≡ response_sendable (record r { metadata = Opt.map typed m })
  unfolding response_fits response_sendable with_payload is_success
  response_fits_lem r p m f = ap₂ (λ b c. b && c) f (response_object_lem m)
