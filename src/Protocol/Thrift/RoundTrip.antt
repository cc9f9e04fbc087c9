-- ===== src/Protocol/Thrift/RoundTrip.antt =====
-- What the messages keep on their way through Thrift: src/aduib_rpc/utils/thrift_v2_utils.py. Where
-- that is what they keep through protobuf it is said by the same functions.
pub mod Answers
use aduib_rpc.Prelude.{
  List, Option, [], ap, if◌then◌else◌, map, map-map, map-map_opt, non_empty, none, or_empty, refl,
  some, text_or, traverse, true, ◌∙◌, ◌∷◌, ◌≡◌, Bool, false, require, ◌>>=◌,
}
use Prim.Native.String.{String}
use mathlib.Core.Path.{ap₂}
use mathlib.Core.Option as Opt
use aduib_rpc.Protocol.Messages.{
  TraceContext, AuthContext, RequestMetadata, DebugInfo, QosConfig, ErrorDetail, RpcError,
  AduibRpcRequest, Loose, typed, untyped, typed_of,
}
use aduib_rpc.Protocol.Proto.FromProto.{default_retry}
use aduib_rpc.Protocol.Proto.RoundTrip.{
  kept_items, kept_trace, kept_auth, kept_metadata, kept_retry, kept_qos, kept_loose,
}
use aduib_rpc.Protocol.Thrift.{Json}
use aduib_rpc.Protocol.Thrift.FromThrift
use aduib_rpc.Protocol.Thrift.FromThrift.{safe_json_loads, value_entries}
use aduib_rpc.Protocol.Thrift.ToThrift
use aduib_rpc.Protocol.Thrift.ToThrift.{json_dumps_safe, dumped_dict, request_with}
use aduib_rpc.Protocol.Wire
use aduib_rpc.Protocol.Wire.{member_value, no_value}
use aduib_rpc.Protocol.Wire.Enums.{enums_round_trip}
use aduib_rpc.Protocol.Wire.Priority.{priority_round_trip}
use aduib_rpc.Resilience.RetryPolicy.{RetryPolicy}

pub or_empty-non_empty : {A : Type 0} (xs : List A) → or_empty (non_empty xs) ≡ xs
or_empty-non_empty [] = refl
or_empty-non_empty (x ∷ xs) = refl

pub kept_twice : {A : Type 0} (xs : Option (List A)) → kept_items (kept_items xs) ≡ kept_items xs
kept_twice xs = ap non_empty (or_empty-non_empty (or_empty xs))

-- Where a field that is declared as Any holds an object, if it holds anything.
abbrev pub is_typed : {A : Type 0} → Option (Loose A) → Bool
is_typed none = true
is_typed (some (typed a)) = true
is_typed (some untyped) = false

accepted :
    {A : Type 0} (b : Bool) (r s : A)
    → r ≡ s
    → (require b >>= λ _. some r) ≡ (if b then some s else none)
accepted true r s e = ap some e
accepted false r s e = refl

module _ {V : Type 0} (x : Json V) where
  -- What pydantic has tested of a trace context.
  abbrev pub IsTraced : Option TraceContext → Type 0
  IsTraced none = Unit
  IsTraced (some t) = (x.is_trace_id t.trace_id ≡ true) × (x.is_span_id t.span_id ≡ true)

  -- A value as JSON gives it back: as an empty dict where it cannot be written or read.
  abbrev pub reread : Option V → V
  reread v = safe_json_loads x (json_dumps_safe x v)

  abbrev pub kept_data : Option V → V
  kept_data v =
      safe_json_loads x (text_or (json_dumps_safe x (some (Opt.get_or v x.empty_dict))) "{}")

  abbrev pub kept_call : AduibRpcRequest V → AduibRpcRequest V
  kept_call r = record r {
    id = some (Opt.get_or r.id "");
    payload = some (kept_data r.payload);
    supported_versions = none;
    trace_context = Opt.map kept_trace r.trace_context;
    metadata = Opt.map kept_metadata r.metadata;
    qos = kept_loose kept_qos r.qos;
    meta = none;
  }

  -- Of an error the number of its details is kept, but nothing of what they say, and of its debug
  -- information that there was some.
  abbrev pub emptied_detail : ErrorDetail V
  emptied_detail = record { kind = ""; field = none; reason = ""; metadata = none }

  abbrev pub emptied : RpcError V → RpcError V
  emptied e = record e {
    name = text_or e.name "UNKNOWN";
    details = non_empty (map (λ d. emptied_detail) (or_empty e.details));
    debug =
        Opt.map (λ d. record { stack_trace = none; internal_message = none; timestamp_ms = 0 })
          e.debug;
  }

  pub traced_lem :
      (t : Option TraceContext)
      → IsTraced t
      → traverse (FromThrift.trace_context x) (Opt.map ToThrift.trace_context t)
        ≡ some (Opt.map kept_trace t)
  unfolding FromThrift.trace_context ToThrift.trace_context
  traced_lem none h = refl
  traced_lem (some t) h = rw (h.0, h.1)

  auth_lem : (a : AuthContext) → FromThrift.auth_context x (ToThrift.auth_context x a) ≡ kept_auth a
  unfolding FromThrift.auth_context ToThrift.auth_context Wire.from_wire
  auth_lem a =
      ap₂ (λ s r. record (kept_auth a) { scheme = s; roles = r })
        (enums_round_trip x.lower x.parse_int no_value no_value (member_value a.scheme)).2
        (kept_twice a.roles)

  metadata_lem :
      (m : RequestMetadata)
      → FromThrift.request_metadata x (ToThrift.request_metadata x m) ≡ kept_metadata m
  unfolding FromThrift.request_metadata ToThrift.request_metadata
  metadata_lem m =
      ap₂ (λ a h. record (kept_metadata m) { auth = a; headers = h })
        (map-map_opt _ _ _ auth_lem m.auth) (kept_twice m.headers)

  retry_lem : (r : RetryPolicy) → FromThrift.retry_policy (ToThrift.retry_config r) ≡ kept_retry r
  unfolding FromThrift.retry_policy ToThrift.retry_config default_retry
  retry_lem r =
      ap (λ c. record (kept_retry r) { retryable_codes = c }) (kept_twice r.retryable_codes)

  qos_lem : (q : QosConfig) → FromThrift.qos_config x (ToThrift.qos_config x q) ≡ kept_qos q
  unfolding FromThrift.qos_config ToThrift.qos_config
  qos_lem q =
      ap₂ (λ p r. record (kept_qos q) { priority = p; retry = r })
        (priority_round_trip x.lower x.parse_int (member_value q.priority))
        (map-map_opt _ _ _ retry_lem q.retry)

  metadata_part :
      (m : Option RequestMetadata)
      → Opt.map (FromThrift.request_metadata x) (Opt.map (ToThrift.request_metadata x) m)
        ≡ Opt.map kept_metadata m
  metadata_part m = map-map_opt _ _ _ metadata_lem m

  qos_part :
      (q : Option QosConfig)
      → Opt.map (λ c. typed (FromThrift.qos_config x c)) (Opt.map (ToThrift.qos_config x) q)
        ≡ Opt.map (λ c. typed (kept_qos c)) q
  qos_part q = map-map_opt _ _ _ (λ c. ap typed (qos_lem c)) q

  request_received :
      (r : AduibRpcRequest V) (q : Option QosConfig)
      → r.aduib_rpc ≡ "2.0"
      → IsTraced r.trace_context
      → FromThrift.request x (request_with x r q) ≡ (
          if x.is_dict (kept_data r.payload)
          then some (record (kept_call r) { qos = Opt.map (λ c. typed (kept_qos c)) q })
          else none)
  unfolding FromThrift.request request_with
  request_received r q v t =
      rw (v, traced_lem r.trace_context t)
        (accepted (x.is_dict (kept_data r.payload)) _ _ (λ i. record (kept_call r) {
          aduib_rpc = "2.0";
          metadata = metadata_part r.metadata i;
          qos = qos_part q i;
        }))

  by_qos :
      (r : AduibRpcRequest V) (q : Option (Loose QosConfig))
      → r.aduib_rpc ≡ "2.0"
      → IsTraced r.trace_context
      → (Opt.map (request_with x r) (traverse typed_of q) >>= FromThrift.request x) ≡ (
          if is_typed q
          then if x.is_dict (kept_data r.payload)
            then some (record (kept_call r) { qos = kept_loose kept_qos q })
            else none
          else none)
  unfolding typed_of
  by_qos r none v t = request_received r none v t
  by_qos r (some (typed c)) v t = request_received r (some c) v t
  by_qos r (some untyped) v t = refl

  -- A request of version 2.0 with the identifiers of a W3C trace, if any, is sent over Thrift
  -- exactly if its QoS settings, if any, are a QosConfig, and arrives as over gRPC, but its data
  -- always as a dict: what JSON gives back of it, the empty dict for none. It is refused where that
  -- is no dict.
  pub request_over_thrift :
      (r : AduibRpcRequest V)
      → r.aduib_rpc ≡ "2.0"
      → IsTraced r.trace_context
      → (ToThrift.request x r >>= FromThrift.request x) ≡ (
          if is_typed r.qos
          then if x.is_dict (kept_data r.payload) then some (kept_call r) else none
          else none)
  unfolding ToThrift.request
  request_over_thrift r v t = by_qos r r.qos v t

  detail_lem :
      (d : ErrorDetail V)
      → FromThrift.error_detail x (ToThrift.error_detail x (dumped_dict d)) ≡ emptied_detail
  unfolding FromThrift.error_detail ToThrift.error_detail value_entries
  detail_lem d = refl

  debug_part :
      (d : Option DebugInfo)
      → Opt.map FromThrift.debug_info (Opt.map (λ d. ToThrift.debug_info (dumped_dict d)) d)
        ≡ Opt.map (λ d. record { stack_trace = none; internal_message = none; timestamp_ms = 0 }) d
  unfolding FromThrift.debug_info ToThrift.debug_info
  debug_part d = map-map_opt _ _ _ (λ d. refl) d

  details_part :
      (ds : List (ErrorDetail V))
      → map
          (FromThrift.error_detail x)
          (or_empty (non_empty (map (λ d. ToThrift.error_detail x (dumped_dict d)) ds)))
        ≡ map (λ d. emptied_detail) ds
  details_part ds =
      ap (map (FromThrift.error_detail x)) (or_empty-non_empty _) ∙ map-map _ _ _ detail_lem ds

  -- An error that is sent over Thrift keeps its code, its name unless that is empty, and its
  -- message, but its details and its debug information arrive empty: they are dumped to dicts
  -- before their attributes are read.
  pub rpc_error_over_thrift :
      (e : RpcError V) → FromThrift.rpc_error x (ToThrift.rpc_error x e) ≡ emptied e
  unfolding FromThrift.rpc_error ToThrift.rpc_error
  rpc_error_over_thrift e = λ i. record (emptied e) {
    details = non_empty (details_part (or_empty e.details) i);
    debug = debug_part e.debug i;
  }
