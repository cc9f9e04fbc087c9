-- ===== src/Protocol/Proto/RoundTrip.antt =====
-- What a request keeps on its way through protobuf: src/aduib_rpc/utils/grpc_v2_utils.py.
pub mod Responses
pub mod TaskMessages
use aduib_rpc.Prelude.{
  Bool, List, Option, ap, false, if◌then◌else◌, ◌>>=◌, non_empty, none, or_empty, pos, refl, some,
  traverse, true, ◌≡◌, map-map_opt,
}
use Prim.Native.String.{String}
use mathlib.Core.Path.{ap₂}
use mathlib.Core.Option as Opt
use aduib_rpc.Protocol.Messages.{
  TraceContext, AuthContext, RequestMetadata, QosConfig, AduibRpcRequest, Loose, typed, untyped,
}
use aduib_rpc.Protocol.Proto.{Libraries}
use aduib_rpc.Protocol.Proto.FromProto
use aduib_rpc.Protocol.Proto.FromProto.{int_or, default_retry}
use aduib_rpc.Protocol.Proto.ToProto
use aduib_rpc.Protocol.Proto.ToProto.{fill_struct, request_with}
use aduib_rpc.Protocol.Wire
use aduib_rpc.Protocol.Wire.{member_value, no_value}
use aduib_rpc.Protocol.Wire.Enums.{without_basic, enums_round_trip}
use aduib_rpc.Protocol.Wire.Enums as WireEnums
use aduib_rpc.Protocol.Wire.Priority.{priority_round_trip}
use aduib_rpc.Protocol.Wire.Priority as PriorityWire
use aduib_rpc.Resilience.RetryPolicy.{RetryPolicy}

-- A collection that is empty is read as None.
abbrev pub kept_items : {A : Type 0} → Option (List A) → Option (List A)
kept_items xs = non_empty (or_empty xs)

abbrev pub kept_trace : TraceContext → TraceContext
kept_trace t = record t { baggage = kept_items t.baggage }

-- BASIC and the type of the principal are lost.
abbrev pub kept_auth : AuthContext → AuthContext
kept_auth a = record a {
  scheme = without_basic a.scheme;
  principal_type = none;
  roles = kept_items a.roles;
}

abbrev pub kept_metadata : RequestMetadata → RequestMetadata
kept_metadata m = record m { auth = Opt.map kept_auth m.auth; headers = kept_items m.headers }

-- A zero is read as the default; the strategy, the jitter and the circuit breaker are lost.
abbrev pub kept_retry : RetryPolicy → RetryPolicy
unfolding default_retry
kept_retry r = record default_retry {
  max_attempts = int_or r.max_attempts (pos 3);
  initial_delay_ms = int_or r.initial_delay_ms (pos 100);
  max_delay_ms = int_or r.max_delay_ms (pos 10000);
  backoff_multiplier = int_or r.backoff_multiplier (pos 2);
  retryable_codes = kept_items r.retryable_codes;
}

-- Whether QoS is enabled is lost.
abbrev pub kept_qos : QosConfig → QosConfig
kept_qos q = record q {
  enabled = false;
  idempotency_ttl_s = 300;
  retry = Opt.map kept_retry q.retry;
}

-- What is kept of such a field.
abbrev pub kept_loose : {A : Type 0} → (A → A) → Option (Loose A) → Option (Loose A)
kept_loose keep none = none
kept_loose keep (some (typed a)) = some (typed (keep a))
kept_loose keep (some untyped) = none

module _ {V S P : Type 0} (x : Libraries V S P) where
  -- What pydantic has tested of a trace context.
  abbrev pub IsTrace : Option TraceContext → Type 0
  IsTrace none = Unit
  IsTrace (some t) = (x.is_trace_id t.trace_id ≡ true) × (x.is_span_id t.span_id ≡ true)

  abbrev pub kept_request : AduibRpcRequest V → AduibRpcRequest V
  kept_request r = record r {
    id = some (Opt.get_or r.id "");
    payload = Opt.map (λ v. x.struct_to_dict (fill_struct x v x.empty_struct)) r.payload;
    supported_versions = none;
    trace_context = Opt.map kept_trace r.trace_context;
    metadata = Opt.map kept_metadata r.metadata;
    qos = kept_loose kept_qos r.qos;
    meta = none;
  }

  pub trace_context_lem :
      (t : Option TraceContext)
      → IsTrace t
      → traverse (FromProto.trace_context x) (Opt.map ToProto.trace_context t)
        ≡ some (Opt.map kept_trace t)
  unfolding FromProto.trace_context ToProto.trace_context
  trace_context_lem none h = refl
  trace_context_lem (some t) h = rw (h.0, h.1)

  auth_context_lem :
      (a : AuthContext) → FromProto.auth_context x (ToProto.auth_context x a) ≡ kept_auth a
  unfolding FromProto.auth_context ToProto.auth_context Wire.from_wire
  auth_context_lem a =
      ap (λ s. record (kept_auth a) { scheme = s })
        (enums_round_trip x.lower x.parse_int no_value no_value (member_value a.scheme)).2

  request_metadata_lem :
      (m : RequestMetadata)
      → FromProto.request_metadata x (ToProto.request_metadata x m) ≡ kept_metadata m
  unfolding FromProto.request_metadata ToProto.request_metadata
  request_metadata_lem m =
      ap (λ a. record (kept_metadata m) { auth = a }) (map-map_opt _ _ _ auth_context_lem m.auth)

  retry_policy_lem :
      (r : RetryPolicy) → FromProto.retry_policy (ToProto.retry_config r) ≡ kept_retry r
  unfolding FromProto.retry_policy ToProto.retry_config default_retry
  retry_policy_lem r = refl

  qos_config_lem : (q : QosConfig) → FromProto.qos_config x (ToProto.qos_config x q) ≡ kept_qos q
  unfolding FromProto.qos_config ToProto.qos_config
  qos_config_lem q =
      ap₂ (λ p r. record (kept_qos q) { priority = p; retry = r })
        (priority_round_trip x.lower x.parse_int (member_value q.priority))
        (map-map_opt _ _ _ retry_policy_lem q.retry)

  -- The optional parts of a request.
  payload_part :
      (v : Option V)
      → Opt.map x.struct_to_dict (Opt.map (λ v. fill_struct x v x.empty_struct) v)
        ≡ Opt.map (λ v. x.struct_to_dict (fill_struct x v x.empty_struct)) v
  payload_part v = map-map_opt _ _ _ (λ v. refl) v

  metadata_part :
      (m : Option RequestMetadata)
      → Opt.map (FromProto.request_metadata x) (Opt.map (ToProto.request_metadata x) m)
        ≡ Opt.map kept_metadata m
  metadata_part m = map-map_opt _ _ _ request_metadata_lem m

  qos_part :
      (q : Option QosConfig)
      → Opt.map (λ c. typed (FromProto.qos_config x c)) (Opt.map (ToProto.qos_config x) q)
        ≡ Opt.map (λ c. typed (kept_qos c)) q
  qos_part q = map-map_opt _ _ _ (λ c. ap typed (qos_config_lem c)) q

  -- What arrives of a message.
  received :
      (r : AduibRpcRequest V) (q : Option QosConfig)
      → r.aduib_rpc ≡ "2.0"
      → IsTrace r.trace_context
      → FromProto.request x (request_with x r q)
        ≡ some (record (kept_request r) { qos = Opt.map (λ c. typed (kept_qos c)) q })
  unfolding FromProto.request request_with
  received r q v t =
      rw (v, trace_context_lem r.trace_context t)
        (λ i. some (record (kept_request r) {
          aduib_rpc = "2.0";
          payload = payload_part r.payload i;
          metadata = metadata_part r.metadata i;
          qos = qos_part q i;
        }))

  pub received_if :
      {A B : Type 0} (b : Bool) (p : A) (f : A → Option B) (s : B)
      → f p ≡ some s
      → ((if b then some p else none) >>= f) ≡ (if b then some s else none)
  received_if true p f s e = e
  received_if false p f s e = refl
