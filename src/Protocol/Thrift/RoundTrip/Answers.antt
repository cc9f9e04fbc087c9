-- ===== src/Protocol/Thrift/RoundTrip/Answers.antt =====
-- What answers and tasks keep on their way through Thrift: src/aduib_rpc/utils/thrift_v2_utils.py.
use aduib_rpc.Prelude.{
  Bool, List, Option, ap, false, if◌then◌else◌, map, map-map, map-map_opt, non_empty, none,
  or_empty, refl, some, traverse, true, ◌>>=◌, ◌∙◌, ◌≡◌,
}
use Prim.Native.String.{String}
use mathlib.Core.Option as Opt
use aduib_rpc.Protocol.Messages.{
  ResponseMetadata, TaskProgress, RpcError, AduibRpcResponse, TaskMessage, is_success, Loose, typed,
  untyped, typed_of,
}
use aduib_rpc.Protocol.Proto.RoundTrip.{kept_items, kept_trace, kept_loose}
use aduib_rpc.Protocol.Proto.RoundTrip.Responses.{kept_response_metadata}
use aduib_rpc.Protocol.Thrift.{Json, ThriftResponsePayload}
use aduib_rpc.Protocol.Thrift.FromThrift
use aduib_rpc.Protocol.Thrift.FromThrift.{
  safe_json_loads, payload_result, payload_error, result_unless, value_entries,
}
use aduib_rpc.Protocol.Thrift.RoundTrip.{
  or_empty-non_empty, kept_twice, IsTraced, reread, emptied, traced_lem, rpc_error_over_thrift,
  is_typed,
}
use aduib_rpc.Protocol.Thrift.ToThrift
use aduib_rpc.Protocol.Thrift.ToThrift.{
  json_dumps_safe, response_payload, unknown_error, coerce_str_map, response_with,
}
use aduib_rpc.Protocol.Wire
use aduib_rpc.Protocol.Wire.{member_value, no_value}
use aduib_rpc.Protocol.Wire.Enums.{enums_round_trip}
use aduib_rpc.Protocol.Wire.Priority.{priority_round_trip}
use aduib_rpc.Tasks.Types.{from_wire-to_wire}

module _ {V : Type 0} (x : Json V) where
  abbrev pub kept_answer : AduibRpcResponse V → Option V → Option (RpcError V) → AduibRpcResponse V
  kept_answer r result error = record r {
    id = some (Opt.get_or r.id "");
    result = result;
    error = error;
    negotiated_version = none;
    trace_context = Opt.map kept_trace r.trace_context;
    metadata = kept_loose kept_response_metadata r.metadata;
  }

  -- What is sent for an error that is missing.
  abbrev pub no_error_given : RpcError V
  no_error_given = record { code = 0; name = "UNKNOWN"; message = ""; details = none; debug = none }

  response_metadata_part :
      (m : Option ResponseMetadata)
      → Opt.map (λ m. typed (FromThrift.response_metadata m)) (Opt.map ToThrift.response_metadata m)
        ≡ Opt.map (λ m. typed (kept_response_metadata m)) m
  unfolding FromThrift.response_metadata ToThrift.response_metadata
  response_metadata_part m = map-map_opt _ _ _ (λ m. refl) m

  payload_lem :
      (r : AduibRpcResponse V) (b : Bool) (p : ThriftResponsePayload)
      → p ≡ (
          if b
          then record { result_json = some (json_dumps_safe x r.result); error = none }
          else record {
            result_json = none;
            error = some (ToThrift.rpc_error x (Opt.get_or r.error no_error_given));
          })
      → (payload_result x (some p) ≡ (if b then some (reread x r.result) else none))
        × (payload_error x (some p)
            ≡ (if b then none else some (emptied x (Opt.get_or r.error no_error_given))))
  unfolding payload_result payload_error result_unless
  payload_lem r true p e =
      (ap (λ q. payload_result x (some q)) e, ap (λ q. payload_error x (some q)) e)
  payload_lem r false p e = (
    ap (λ q. payload_result x (some q)) e,
    ap (λ q. payload_error x (some q)) e
        ∙ ap some (rpc_error_over_thrift x (Opt.get_or r.error no_error_given)),
  )

  -- The response as it arrives.
  abbrev pub answered : AduibRpcResponse V → AduibRpcResponse V
  answered r =
      kept_answer r (if is_success r then some (reread x r.result) else none)
        (if is_success r then none else some (emptied x (Opt.get_or r.error no_error_given)))

  response_received :
      (r : AduibRpcResponse V) (m : Option ResponseMetadata)
      → r.aduib_rpc ≡ "2.0"
      → IsTraced x r.trace_context
      → FromThrift.response x (response_with x r m)
        ≡ some
            (record (answered r) { metadata = Opt.map (λ m. typed (kept_response_metadata m)) m })
  unfolding FromThrift.response response_with Wire.from_wire response_payload unknown_error
      is_success
  response_received r m v t =
      let parts = payload_lem r (is_success r) (response_payload x r) refl in
      rw (v, traced_lem x r.trace_context t)
        (λ i. some (record (kept_answer r (parts.0 i) (parts.1 i)) {
          aduib_rpc = "2.0";
          status =
              (enums_round_trip x.lower x.parse_int (member_value r.status) no_value no_value).0 i;
          metadata = response_metadata_part m i;
        }))

  by_metadata :
      (r : AduibRpcResponse V) (m : Option (Loose ResponseMetadata))
      → r.aduib_rpc ≡ "2.0"
      → IsTraced x r.trace_context
      → (Opt.map (response_with x r) (traverse typed_of m) >>= FromThrift.response x) ≡ (
          if is_typed m
          then some (record (answered r) { metadata = kept_loose kept_response_metadata m })
          else none)
  unfolding typed_of
  by_metadata r none v t = response_received r none v t
  by_metadata r (some (typed m)) v t = response_received r (some m) v t
  by_metadata r (some untyped) v t = refl

  -- A response of version 2.0 with the identifiers of a W3C trace, if any, is converted to Thrift
  -- exactly if its metadata, if any, is a ResponseMetadata. It comes back from there, a success with
  -- its result as JSON gives it back, and anything else without its result and with its error,
  -- emptied, or else with an error of code 0.
  pub response_over_thrift :
      (r : AduibRpcResponse V)
      → r.aduib_rpc ≡ "2.0"
      → IsTraced x r.trace_context
      → (ToThrift.response_to_thrift x r >>= FromThrift.response x)
        ≡ (if is_typed r.metadata then some (answered r) else none)
  unfolding ToThrift.response_to_thrift
  response_over_thrift r v t = by_metadata r r.metadata v t

  -- A task record as it arrives.
  abbrev pub kept_record : TaskMessage V → TaskMessage V
  kept_record r = record r {
    result = Opt.map (λ v. reread x (some v)) r.result;
    error = Opt.map (emptied x) r.error;
    metadata = non_empty (map (λ kv. (kv.0, x.text_value (x.text_of kv.1))) (or_empty r.metadata));
    tags = kept_items r.tags;
  }

  progress_part :
      (p : Option TaskProgress)
      → Opt.map FromThrift.task_progress (Opt.map ToThrift.task_progress p) ≡ p
  unfolding FromThrift.task_progress ToThrift.task_progress
  progress_part none = refl
  progress_part (some p) = refl

  result_part :
      (v : Option V)
      → Opt.map (safe_json_loads x) (Opt.map (λ v. json_dumps_safe x (some v)) v)
        ≡ Opt.map (λ v. reread x (some v)) v
  result_part v = map-map_opt _ _ _ (λ v. refl) v

  error_part :
      (e : Option (RpcError V))
      → Opt.map (FromThrift.rpc_error x) (Opt.map (ToThrift.rpc_error x) e) ≡ Opt.map (emptied x) e
  error_part e = map-map_opt _ _ _ (rpc_error_over_thrift x) e

  values_part :
      (m : List (String × V))
      → value_entries x (or_empty (non_empty (coerce_str_map x m)))
        ≡ map (λ kv. (kv.0, x.text_value (x.text_of kv.1))) m
  unfolding value_entries coerce_str_map
  values_part m =
      ap (value_entries x) (or_empty-non_empty (coerce_str_map x m)) ∙ map-map _ _ _ (λ kv. refl) m

  -- A task record arrives over Thrift with everything but its result and its error as it was, up to
  -- texts for the values of metadata: its result as JSON gives it back, its error emptied.
  pub task_record_over_thrift :
      (r : TaskMessage V) → FromThrift.task_record x (ToThrift.task_record x r) ≡ kept_record r
  unfolding FromThrift.task_record ToThrift.task_record Wire.from_wire
  task_record_over_thrift r = λ i. record (kept_record r) {
    status = from_wire-to_wire x.lower x.parse_int (member_value r.status) i;
    priority = priority_round_trip x.lower x.parse_int (member_value r.priority) i;
    result = result_part r.result i;
    error = error_part r.error i;
    progress = progress_part r.progress i;
    metadata = non_empty (values_part (or_empty r.metadata) i);
    tags = kept_twice r.tags i;
  }
