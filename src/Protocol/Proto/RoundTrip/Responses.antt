-- ===== src/Protocol/Proto/RoundTrip/Responses.antt =====
-- What a response and an error keep on their way through protobuf: src/aduib_rpc/utils/grpc_v2_utils.py.
use aduib_rpc.Prelude.{
  List, Option, ap, arith, if◌then◌else◌, map, non_empty, none, or_empty, refl, some, text_or,
  ◌>>=◌, ◌≡◌, Bool, false, true, ◌∙◌, ◌||◌, sym, traverse, map-map, map-map_opt,
}
use Prim.Native.String.{String}
use mathlib.Core.Path.{ap₂}
use mathlib.Core.Option as Opt
use aduib_rpc.Protocol.Messages.{
  AduibRpcResponse, RpcError, ErrorDetail, ResponseMetadata, DebugInfo, is_success, Loose, typed,
  untyped, typed_of,
}
use aduib_rpc.Protocol.Proto.{Libraries, Payload, result_payload}
use aduib_rpc.Protocol.Proto.FromProto
use aduib_rpc.Protocol.Proto.FromProto.{payload_result, payload_error}
use aduib_rpc.Protocol.Proto.ToProto
use aduib_rpc.Protocol.Proto.ToProto.{bare_error, response_payload, with_payload}
use aduib_rpc.Protocol.Proto.Ranges.{in_range, response_fits, payload_fits}
use aduib_rpc.Protocol.Proto.Sendable.{
  response_sendable, error_sendable, response_fits_lem, untyped_response,
}
use aduib_rpc.Protocol.Proto.RoundTrip.{
  IsTrace, kept_trace, trace_context_lem, kept_loose, received_if,
}
use aduib_rpc.Protocol.Wire
use aduib_rpc.Protocol.Wire.Enums.{enums_round_trip}
use aduib_rpc.Protocol.Wire.{member_value, no_value}

abbrev pub kept_response_metadata : ResponseMetadata → ResponseMetadata
kept_response_metadata m = record m { duration_ms = some (Opt.get_or m.duration_ms 0) }

text_or_twice : (t d : String) → text_or (text_or t d) d ≡ text_or t d
text_or_twice t d = ground arith

module _ {V S P : Type 0} (x : Libraries V S P) where
  -- Values in the metadata of an error are texts.
  abbrev pub kept_values : Option (List (String × V)) → Option (List (String × V))
  kept_values m = non_empty (map (λ kv. (kv.0, x.text_value (x.text_of kv.1))) (or_empty m))

  abbrev pub kept_detail : ErrorDetail V → ErrorDetail V
  kept_detail d = record d { metadata = kept_values d.metadata }

  abbrev pub kept_error : RpcError V → RpcError V
  kept_error e = record e {
    name = text_or e.name "UNKNOWN";
    details = non_empty (map kept_detail (or_empty e.details));
  }

  pub values_lem :
      (m : List (String × V))
      → FromProto.value_entries x (ToProto.text_entries x m)
        ≡ map (λ kv. (kv.0, x.text_value (x.text_of kv.1))) m
  unfolding FromProto.value_entries ToProto.text_entries
  values_lem m = map-map _ _ _ (λ kv. refl) m

  detail_lem :
      (d : ErrorDetail V) → FromProto.error_detail x (ToProto.error_detail x d) ≡ kept_detail d
  unfolding FromProto.error_detail ToProto.error_detail
  detail_lem d = ap (λ m. record d { metadata = non_empty m }) (values_lem (or_empty d.metadata))

  debug_lem : (d : DebugInfo) → FromProto.debug_info (ToProto.debug_info d) ≡ d
  unfolding FromProto.debug_info ToProto.debug_info
  debug_lem d = refl

  debug_part :
      (d : Option DebugInfo) → Opt.map FromProto.debug_info (Opt.map ToProto.debug_info d) ≡ d
  debug_part none = refl
  debug_part (some d) = ap some (debug_lem d)

  details_part :
      (ds : List (ErrorDetail V))
      → map (FromProto.error_detail x) (map (ToProto.error_detail x) ds) ≡ map kept_detail ds
  details_part ds = map-map _ _ _ detail_lem ds

  -- An error keeps its code, its message, its debug information and its details, whose metadata
  -- become texts; only an empty name is replaced.
  pub rpc_error_round_trip :
      (e : RpcError V) → FromProto.rpc_error x (ToProto.rpc_error x e) ≡ kept_error e
  unfolding FromProto.rpc_error ToProto.rpc_error
  rpc_error_round_trip e = λ i. record e {
    name = text_or_twice e.name "UNKNOWN" i;
    details = non_empty (details_part (or_empty e.details) i);
    debug = debug_part e.debug i;
  }

  -- What `response` sends of an error.
  abbrev pub bare : RpcError V → RpcError V
  bare e = record e { name = text_or e.name "UNKNOWN"; details = none; debug = none }

  abbrev pub kept_payload : AduibRpcResponse V → Option V → Option (RpcError V) → AduibRpcResponse V
  kept_payload r result error = record r {
    id = some (Opt.get_or r.id "");
    result = result;
    error = error;
    negotiated_version = none;
    trace_context = Opt.map kept_trace r.trace_context;
    metadata = kept_loose kept_response_metadata r.metadata;
  }

  abbrev pub kept_response : AduibRpcResponse V → Option (AduibRpcResponse V)
  kept_response r =
      if is_success r
      then Opt.map (λ p. kept_payload r (x.value_to_dict p) none) (x.parse_value r.result)
      else some (kept_payload r none (Opt.map bare r.error))

  metadata_part :
      (m : Option ResponseMetadata)
      → Opt.map (λ m. typed (FromProto.response_metadata m)) (Opt.map ToProto.response_metadata m)
        ≡ Opt.map (λ m. typed (kept_response_metadata m)) m
  unfolding FromProto.response_metadata ToProto.response_metadata
  metadata_part m = map-map_opt _ _ _ (λ m. refl) m

  sent_error :
      (e : Option (RpcError V))
      → (payload_result x (bare_error x e) ≡ none)
        × (payload_error x (bare_error x e) ≡ Opt.map bare e)
  unfolding payload_result payload_error bare_error FromProto.rpc_error
  sent_error none = (refl, refl)
  sent_error (some e) = (refl, refl)

  received :
      (r : AduibRpcResponse V) (p : Payload P) (m : Option ResponseMetadata)
      → r.aduib_rpc ≡ "2.0"
      → IsTrace x r.trace_context
      → FromProto.response x (with_payload x r p m)
        ≡ some (record (kept_payload r (payload_result x p) (payload_error x p)) {
          metadata = Opt.map (λ m. typed (kept_response_metadata m)) m;
        })
  unfolding FromProto.response with_payload Wire.from_wire
  received r p m v t =
      rw (v, trace_context_lem x r.trace_context t)
        (λ i. some (record (kept_payload r (payload_result x p) (payload_error x p)) {
          aduib_rpc = "2.0";
          status =
              (enums_round_trip x.lower x.parse_int (member_value r.status) no_value no_value).0 i;
          metadata = metadata_part m i;
        }))

  kept_ap :
      (r : AduibRpcResponse V) (m : Option ResponseMetadata) {a b : Option V}
      {e f : Option (RpcError V)}
      → a ≡ b
      → e ≡ f
      → some (record (kept_payload r a e) {
        metadata = Opt.map (λ m. typed (kept_response_metadata m)) m;
      })
        ≡ some (record (kept_payload r b f) {
          metadata = Opt.map (λ m. typed (kept_response_metadata m)) m;
        })
  kept_ap r m p q =
      ap₂
        (λ a e. some (record (kept_payload r a e) {
          metadata = Opt.map (λ m. typed (kept_response_metadata m)) m;
        }))
        p q

  -- What is sent of a payload, and what arrives of it.
  by_metadata :
      (r : AduibRpcResponse V) (p : Payload P) (m : Option (Loose ResponseMetadata)) (a : Option V)
      (e : Option (RpcError V))
      → r.aduib_rpc ≡ "2.0"
      → IsTrace x r.trace_context
      → payload_result x p ≡ a
      → payload_error x p ≡ e
      → payload_fits p ≡ (is_success r || error_sendable r.error)
      → ((traverse typed_of m >>= λ m. in_range response_fits (with_payload x r p m))
          >>= FromProto.response x)
        ≡ (if response_sendable (record r { metadata = m })
            then some
                (record (kept_payload r a e) { metadata = kept_loose kept_response_metadata m })
            else none)
  unfolding in_range typed_of response_sendable
  by_metadata r p none a e v t pa pe f =
      rw (sym (response_fits_lem x r p none f))
        (received_if x _ _ _ _ (received r p none v t ∙ kept_ap r none pa pe))
  by_metadata r p (some (typed m)) a e v t pa pe f =
      rw (sym (response_fits_lem x r p (some m) f))
        (received_if x _ _ _ _ (received r p (some m) v t ∙ kept_ap r (some m) pa pe))
  by_metadata r p (some untyped) a e v t pa pe f = rw (untyped_response r) refl

  nothing_either : {A : Type 0} (b : Bool) → ◌≡◌ {A = Option A} none (if b then none else none)
  nothing_either true = refl
  nothing_either false = refl

  error_fits : (e : Option (RpcError V)) → payload_fits (bare_error x e) ≡ error_sendable e
  unfolding payload_fits bare_error error_sendable
  error_fits none = refl
  error_fits (some e) = refl

  received_either :
      (r : AduibRpcResponse V) (b : Bool) (q : Option P)
      → is_success r ≡ b
      → r.aduib_rpc ≡ "2.0"
      → IsTrace x r.trace_context
      → (((if b then Opt.map result_payload q else some (bare_error x r.error)) >>= λ p.
            traverse typed_of r.metadata >>= λ m. in_range response_fits (with_payload x r p m))
          >>= FromProto.response x)
        ≡ (if response_sendable r
            then if b
              then Opt.map (λ p. kept_payload r (x.value_to_dict p) none) q
              else some (kept_payload r none (Opt.map bare r.error))
            else none)
  unfolding payload_result payload_error payload_fits
  received_either r true none o v t = nothing_either (response_sendable r)
  received_either r true (some p) o v t =
      by_metadata r (result_payload p) r.metadata _ _ v t refl refl (rw o refl)
  received_either r false q o v t =
      let (result, error) = sent_error r.error in
      by_metadata r (bare_error x r.error) r.metadata _ _ v t result error
        (rw o (error_fits r.error))

  -- A response of version 2.0 with the identifiers of a W3C trace, if any, is sent exactly if its
  -- metadata, if any, is a ResponseMetadata, its times and the code of its error fit in their
  -- fields, and the result of a success is JSON. It arrives as `kept_response`: a success with its
  -- result as JSON, and anything else without its result, and with its error bare of details and
  -- debug information.
  pub response_round_trip :
      (r : AduibRpcResponse V)
      → r.aduib_rpc ≡ "2.0"
      → IsTrace x r.trace_context
      → (ToProto.response x r >>= FromProto.response x)
        ≡ (if response_sendable r then kept_response r else none)
  unfolding ToProto.response response_payload
  response_round_trip r v t = received_either r (is_success r) (x.parse_value r.result) refl v t
