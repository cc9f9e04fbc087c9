-- ===== src/Tests/Thrift.antt =====
-- src/aduib_rpc/utils/thrift_v2_utils.py on concrete messages, whose values are texts.
use aduib_rpc.Prelude.{[], if◌then◌else◌, none, refl, same_text, some, true, ◌>>=◌, ◌∷◌, ◌≡◌}
use Prim.Native.String.{String}
use mathlib.Core.Option as Opt
use aduib_rpc.Protocol.Messages.{AduibRpcRequest, AduibRpcResponse, TaskMessage, RpcError}
use aduib_rpc.Protocol.Thrift.{Json}
use aduib_rpc.Protocol.Thrift.FromThrift
use aduib_rpc.Protocol.Thrift.FromThrift.{safe_json_loads}
use aduib_rpc.Protocol.Thrift.ToThrift
use aduib_rpc.Protocol.Thrift.ToThrift.{json_dumps_safe}
use aduib_rpc.Protocol.Thrift.RoundTrip.{kept_data, is_typed}
use aduib_rpc.Protocol.Thrift.RoundTrip.Answers.{answered, response_over_thrift}
use aduib_rpc.Protocol.Wire.Enums.{partial}
use aduib_rpc.Protocol.Wire.Priority.{high}
use aduib_rpc.Tasks.Types.{failed}

abbrev json : Json String
json = record {
  dumps = λ v. some (Opt.get_or v "null");
  unserializable = "{\"_unserializable\": true}";
  loads = λ t. some t;
  empty_dict = "{}";
  is_dict = λ v. same_text v "{}";
  text_of = λ v. v;
  text_value = λ t. t;
  lower = λ t. t;
  parse_int = λ t. none;
  is_trace_id = λ t. true;
  is_span_id = λ t. true;
}

abbrev call : AduibRpcRequest String
call = record {
  aduib_rpc = "2.0";
  id = some "7";
  method = "rpc.v2/users/get";
  name = none;
  payload = none;
  supported_versions = none;
  trace_context = none;
  metadata = none;
  qos = none;
  meta = none;
}

-- No data arrive as an empty dict.
data_created : kept_data json none ≡ "{}"
unfolding safe_json_loads json_dumps_safe
data_created = refl

abbrev failure : RpcError String
failure = record {
  code = 2003;
  name = "INVALID_FIELD_VALUE";
  message = "m";
  details =
      some (record { kind = "k"; field = some "age"; reason = "negative"; metadata = none } ∷ []);
  debug = none;
}

abbrev answer : AduibRpcResponse String
answer = record {
  aduib_rpc = "2.0";
  id = some "7";
  status = partial;
  result = some "half";
  error = none;
  negotiated_version = none;
  trace_context = none;
  metadata = none;
}

response_over_thrift_example :
    (ToThrift.response_to_thrift json answer >>= FromThrift.response json)
    ≡ (if is_typed answer.metadata then some (answered json answer) else none)
response_over_thrift_example = response_over_thrift json answer refl tt

abbrev task : TaskMessage String
task = record {
  task_id = "t";
  parent_task_id = none;
  status = failed;
  priority = high;
  created_at_ms = 1;
  scheduled_at_ms = none;
  started_at_ms = some 2;
  completed_at_ms = some 3;
  attempt = 1;
  max_attempts = 3;
  next_retry_at_ms = none;
  result = none;
  error = some failure;
  progress = none;
  metadata = some [];
  tags = some ("a" ∷ []);
}
