-- ===== src/IsolatedFeature/Messages/RoundTrip.antt =====
-- kestrel_sdk/isolated_feature/protocol.py: a message survives its frame.
use kestrel_sovereign_sdk.Prelude.{
  ◌<◌, true, Option, none, some, [], ◌∷◌, Text, text_eq, ok, ◌≡◌, refl, arith, length, codes,
}
use kestrel_sovereign_sdk.IsolatedFeature.Values.{
  or_null, Value, null, string, integer, boolean, dict, Fields, end, field, get, has, is_key,
  require_str, require_int, nonempty_text, int_value, is_int, Codec, CodecLaws, is_json,
}
use kestrel_sovereign_sdk.IsolatedFeature.Messages.{
  jsonrpc_version, JsonRpcError, JsonRpcMessage, request, notification, response, params_field,
  request_fields, notification_fields, data_field, error_fields, outcome_field, response_fields,
  to_dict, parse_id, params_value, declares_version, decode_identified, decode_call, decode_error,
  decode_result, decode_answer, decode_reply, decode_response, decode_value, decode_loaded,
  encode_message, decode_message,
}

-- `self.id` is a `JsonRpcId`.
unfoldable pub IsId : Value → Type 0
IsId null = Unit
IsId (string s) = Unit
IsId (integer n) = Unit
IsId (boolean b) = Unit
IsId v = ⊥

pub parse_id-accepts : (v : Value) → IsId v → parse_id v ≡ ok v
unfolding IsId parse_id
parse_id-accepts null i = refl
parse_id-accepts (string s) i = refl
parse_id-accepts (integer n) i = refl
parse_id-accepts (boolean b) i = refl
parse_id-accepts v i = absurd i

unfoldable pub IsError : JsonRpcError → Type 0
IsError e = (is_int e.code ≡ true) × (0 < length e.message)

unfoldable pub OutcomeWellFormed : Option JsonRpcError → Value → Type 0
unfolding IsError
OutcomeWellFormed none result = Unit
OutcomeWellFormed (some e) result = IsError e × (result ≡ null)

-- The types that the message classes declare, with a method and an error message that say
-- something, and a result only where there is no error.
unfoldable pub WellFormed : JsonRpcMessage → Type 0
unfolding OutcomeWellFormed
WellFormed (request m) = (0 < length m.method) × IsId m.id × (m.jsonrpc ≡ jsonrpc_version)
WellFormed (notification m) = (0 < length m.method) × (m.jsonrpc ≡ jsonrpc_version)
WellFormed (response m) =
    IsId m.id × OutcomeWellFormed m.error m.result × (m.jsonrpc ≡ jsonrpc_version)

request_decodes :
    (method : Text) (params : Fields) (id : Value) (jsonrpc : Text)
    → 0 < length method
    → IsId id
    → jsonrpc ≡ jsonrpc_version
    → decode_value (
        dict (
          request_fields (record { method = method; params = params; id = id; jsonrpc = jsonrpc })))
      ≡ ok (request (record { method = method; params = params; id = id; jsonrpc = jsonrpc }))
unfolding decode_value request_fields declares_version has get is_key text_eq decode_call
    decode_identified require_str nonempty_text params_value params_field
request_decodes [] params id jsonrpc n i v = absurd (omega (arith, n))
request_decodes (c ∷ method) end id jsonrpc n i v = rw v (simp (parse_id-accepts id i))
request_decodes (c ∷ method) (field k x rest) id jsonrpc n i v = rw v (simp (parse_id-accepts id i))

notification_decodes :
    (method : Text) (params : Fields) (jsonrpc : Text)
    → 0 < length method
    → jsonrpc ≡ jsonrpc_version
    → decode_value (
        dict (notification_fields (record { method = method; params = params; jsonrpc = jsonrpc })))
      ≡ ok (notification (record { method = method; params = params; jsonrpc = jsonrpc }))
unfolding decode_value notification_fields declares_version has get is_key text_eq decode_call
    decode_identified require_str nonempty_text params_value params_field
notification_decodes [] params jsonrpc n v = absurd (omega (arith, n))
notification_decodes (c ∷ method) end jsonrpc n v = rw v refl
notification_decodes (c ∷ method) (field k x rest) jsonrpc n v = rw v refl

result_decodes :
    (id result : Value) (jsonrpc : Text)
    → IsId id
    → jsonrpc ≡ jsonrpc_version
    → decode_value (
        dict
          (response_fields (record { id = id; result = result; error = none; jsonrpc = jsonrpc })))
      ≡ ok (response (record { id = id; result = result; error = none; jsonrpc = jsonrpc }))
unfolding decode_value response_fields declares_version has get is_key text_eq decode_response
    decode_reply decode_answer decode_result outcome_field
result_decodes id result jsonrpc i v = rw v (simp (parse_id-accepts id i))

data_decodes : (v : Value) → or_null (get (codes "data") (data_field v)) ≡ v
unfolding or_null get is_key text_eq data_field
data_decodes null = refl
data_decodes v = refl

error_decodes :
    (id code : Value) (message : Text) (error_data : Value) (jsonrpc : Text)
    → IsId id
    → is_int code ≡ true
    → 0 < length message
    → jsonrpc ≡ jsonrpc_version
    → decode_value (
        dict (
          response_fields (record {
            id = id;
            result = null;
            error = some (record { code = code; message = message; error_data = error_data });
            jsonrpc = jsonrpc;
          })))
      ≡ ok (
          response (record {
            id = id;
            result = null;
            error = some (record { code = code; message = message; error_data = error_data });
            jsonrpc = jsonrpc;
          }))
unfolding decode_value response_fields declares_version has get is_key text_eq decode_response
    decode_reply decode_answer decode_error outcome_field error_fields require_str require_int
    nonempty_text int_value
error_decodes id code [] error_data jsonrpc i c n v = absurd (omega (arith, n))
error_decodes id code (m ∷ message) error_data jsonrpc i c n v =
    rw v (simp (parse_id-accepts id i, c, data_decodes error_data))

response_decodes :
    (id result : Value) (error : Option JsonRpcError) (jsonrpc : Text)
    → IsId id
    → OutcomeWellFormed error result
    → jsonrpc ≡ jsonrpc_version
    → decode_value (
        dict
          (response_fields (record { id = id; result = result; error = error; jsonrpc = jsonrpc })))
      ≡ ok (response (record { id = id; result = result; error = error; jsonrpc = jsonrpc }))
unfolding OutcomeWellFormed IsError
response_decodes id result none jsonrpc i w v = result_decodes id result jsonrpc i v
response_decodes id result (some e) jsonrpc i ((int, n), r) v =
    rw r (error_decodes id e.code e.message e.error_data jsonrpc i int n v)

decode_value-to_dict : (m : JsonRpcMessage) → WellFormed m → decode_value (to_dict m) ≡ ok m
unfolding WellFormed to_dict
decode_value-to_dict (request m) (n, i, v) = request_decodes m.method m.params m.id m.jsonrpc n i v
decode_value-to_dict (notification m) (n, v) = notification_decodes m.method m.params m.jsonrpc n v
decode_value-to_dict (response m) (i, w, v) = response_decodes m.id m.result m.error m.jsonrpc i w v

-- A well-formed message, whose parts JSON represents exactly and which is within the interpreter's
-- limits, has a frame, and decoding the frame gives the message back, where `json.loads` reads what
-- `json.dumps` writes.
pub decode_message-encode_message :
    {Frame : Type 0} (codec : Codec Frame) (laws : CodecLaws codec) (m : JsonRpcMessage)
    → WellFormed m
    → is_json (to_dict m) ≡ true
    → codec.fits (to_dict m) ≡ true
    → (f : Frame) × (encode_message codec m ≡ ok f) × (decode_message codec f ≡ ok m)
unfolding encode_message decode_message decode_loaded
decode_message-encode_message codec laws m w json fits =
    let (f, written) = laws.dumps_returns (to_dict m) json fits in
    (f, written, rw (laws.loads_dumps (to_dict m) f json written) (decode_value-to_dict m w))
