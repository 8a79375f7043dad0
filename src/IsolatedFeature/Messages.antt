-- ===== src/IsolatedFeature/Messages.antt =====
-- kestrel_sdk/isolated_feature/protocol.py: JSON-RPC messages and their frames.
pub mod RoundTrip
pub mod Sound
pub mod Decoded
use kestrel_sovereign_sdk.Prelude.{
  Bool, true, false, Option, none, some, Text, codes, text_eq, Result, Check, ok, err,
  protocol_error, value_error, recursion_error, ◌>>=◌, ◌>>◌, raise_if, not, if◌then◌else◌,
}
use kestrel_sovereign_sdk.IsolatedFeature.Values.{
  Value, null, string, integer, boolean, dict, Fields, end, field, Key, named, get, has, or_null,
  require_str, require_int, Codec, Loaded, loaded, unicode_decode_error, json_decode_error,
  digit_limit_error, nesting_error,
}

abbrev pub jsonrpc_version : Text
jsonrpc_version = codes "2.0"

-- An `id`, a `code`, `data` and a `result` are values of any type.
pub record JsonRpcRequest : Type 0 where
  pub method : Text
  pub params : Fields
  pub id : Value
  pub jsonrpc : Text

pub record JsonRpcNotification : Type 0 where
  pub method : Text
  pub params : Fields
  pub jsonrpc : Text

pub record JsonRpcError : Type 0 where
  pub code : Value
  pub message : Text
  pub error_data : Value

pub record JsonRpcResponse : Type 0 where
  pub id : Value
  pub result : Value
  pub error : Option JsonRpcError
  pub jsonrpc : Text

pub data JsonRpcMessage : Type 0 where
  request : JsonRpcRequest → JsonRpcMessage
  notification : JsonRpcNotification → JsonRpcMessage
  response : JsonRpcResponse → JsonRpcMessage

-- `if self.params: data["params"] = self.params`
unfoldable pub params_field : Fields → Fields
params_field end = end
params_field params = field (named (codes "params")) (dict params) end

unfoldable pub request_fields : JsonRpcRequest → Fields
unfolding params_field
request_fields m = field (named (codes "jsonrpc")) (string m.jsonrpc) (
    field (named (codes "id")) m.id
      (field (named (codes "method")) (string m.method) (params_field m.params)))

unfoldable pub notification_fields : JsonRpcNotification → Fields
unfolding params_field
notification_fields m =
    field (named (codes "jsonrpc")) (string m.jsonrpc)
      (field (named (codes "method")) (string m.method) (params_field m.params))

-- `if self.data is not None: data["data"] = self.data`
unfoldable pub data_field : Value → Fields
data_field null = end
data_field v = field (named (codes "data")) v end

unfoldable pub error_fields : JsonRpcError → Fields
unfolding data_field
error_fields e =
    field (named (codes "code")) e.code
      (field (named (codes "message")) (string e.message) (data_field e.error_data))

unfoldable pub outcome_field : Option JsonRpcError → Value → Fields
unfolding error_fields
outcome_field none result = field (named (codes "result")) result end
outcome_field (some e) result = field (named (codes "error")) (dict (error_fields e)) end

unfoldable pub response_fields : JsonRpcResponse → Fields
unfolding outcome_field
response_fields m =
    field (named (codes "jsonrpc")) (string m.jsonrpc)
      (field (named (codes "id")) m.id (outcome_field m.error m.result))

unfoldable pub to_dict : JsonRpcMessage → Value
unfolding request_fields notification_fields response_fields
to_dict (request m) = dict (request_fields m)
to_dict (notification m) = dict (notification_fields m)
to_dict (response m) = dict (response_fields m)

unfoldable pub parse_id : Value → Result Value
parse_id null = ok null
parse_id (string s) = ok (string s)
parse_id (integer n) = ok (integer n)
parse_id (boolean b) = ok (boolean b)
parse_id _ = err (protocol_error "JSON-RPC id must be a string, integer, or null")

-- `raw.get("params", {})`, where None counts as empty
unfoldable pub params_value : Option Value → Result Fields
params_value none = ok end
params_value (some null) = ok end
params_value (some (dict params)) = ok params
params_value _ = err (protocol_error "JSON-RPC params must be an object")

-- `raw.get("jsonrpc") == JSONRPC_VERSION`
unfoldable pub declares_version : Option Value → Bool
declares_version (some (string v)) = text_eq v jsonrpc_version
declares_version _ = false

-- `if "id" in raw`
unfoldable pub decode_identified : Text → Fields → Option Value → Result JsonRpcMessage
unfolding parse_id
decode_identified method params none =
    ok (notification (record { method = method; params = params; jsonrpc = jsonrpc_version }))
decode_identified method params (some raw_id) = do
  id ← parse_id raw_id
  ok (request (record { method = method; params = params; id = id; jsonrpc = jsonrpc_version }))

unfoldable pub decode_call : Fields → Result JsonRpcMessage
unfolding decode_identified params_value require_str get
decode_call raw = do
  method ← require_str raw (codes "method")
  params ← params_value (get (codes "params") raw)
  decode_identified method params (get (codes "id") raw)

unfoldable pub decode_error : Value → Value → Result JsonRpcMessage
unfolding parse_id require_str require_int or_null
decode_error raw_id (dict error) = do
  id ← parse_id raw_id
  code ← require_int error (codes "code")
  message ← require_str error (codes "message")
  ok (
      response (record {
        id = id;
        result = null;
        error = some (record {
          code = code;
          message = message;
          error_data = or_null (get (codes "data") error);
        });
        jsonrpc = jsonrpc_version;
      }))
decode_error raw_id _ = err (protocol_error "JSON-RPC error must be an object")

unfoldable pub decode_result : Value → Option Value → Result JsonRpcMessage
unfolding parse_id
decode_result raw_id none = err (protocol_error "JSON-RPC response requires result or error")
decode_result raw_id (some result) = do
  id ← parse_id raw_id
  ok (response (record { id = id; result = result; error = none; jsonrpc = jsonrpc_version }))

-- `if "error" in raw`
unfoldable pub decode_answer : Fields → Value → Option Value → Result JsonRpcMessage
unfolding get decode_error decode_result
decode_answer raw raw_id none = decode_result raw_id (get (codes "result") raw)
decode_answer raw raw_id (some error) = decode_error raw_id error

-- `if "id" not in raw`
unfoldable pub decode_reply : Fields → Option Value → Result JsonRpcMessage
unfolding get decode_answer
decode_reply raw none = err (protocol_error "JSON-RPC response requires id")
decode_reply raw (some raw_id) = decode_answer raw raw_id (get (codes "error") raw)

unfoldable pub decode_response : Fields → Result JsonRpcMessage
unfolding get decode_reply
decode_response raw = decode_reply raw (get (codes "id") raw)

unfoldable pub decode_value : Value → Result JsonRpcMessage
unfolding declares_version get has decode_call decode_response
decode_value (dict raw) =
    raise_if (not (declares_version (get (codes "jsonrpc") raw)))
      (protocol_error "JSON-RPC frame must declare jsonrpc='2.0'")
    >> (if has (codes "method") raw then decode_call raw else decode_response raw)
decode_value _ = err (protocol_error "JSON-RPC frame must be an object")

unfoldable pub decode_loaded : Loaded → Result JsonRpcMessage
unfolding decode_value
decode_loaded (loaded v) = decode_value v
decode_loaded unicode_decode_error = err (value_error "UnicodeDecodeError")
decode_loaded json_decode_error = err (protocol_error "invalid JSON-RPC frame")
decode_loaded digit_limit_error =
    err (value_error "Exceeds the limit for integer string conversion")
decode_loaded nesting_error = err recursion_error

unfoldable pub encode_message : {Frame : Type 0} → Codec Frame → JsonRpcMessage → Result Frame
unfolding to_dict
encode_message codec m = codec.dumps (to_dict m)

unfoldable pub decode_message : {Frame : Type 0} → Codec Frame → Frame → Result JsonRpcMessage
unfolding decode_loaded
decode_message codec line = decode_loaded (codec.loads line)
