-- ===== src/IsolatedFeature/Messages/Decoded.antt =====
-- kestrel_sdk/isolated_feature/protocol.py, `decode_message`: a frame decodes exactly to what it says.
use kestrel_sovereign_sdk.Prelude.{
  not, Option, none, some, Text, ok, ◌≡◌, ◌↔◌, refl, arith, codes, raise_if, raise_if_iff,
  protocol_error, Ensures, Ensures-ok, Ensures-err, Ensures-bind, >>=-eq-ok, subst, sym, ap, ◌∙◌,
  inl, inr, Bool-cases, if◌then◌else◌,
}
use kestrel_sovereign_sdk.IsolatedFeature.Values.{
  Value, string, dict, Fields, get, has, require_str, require_int, Codec, Loaded, loaded,
  unicode_decode_error, json_decode_error, digit_limit_error, nesting_error,
}
use kestrel_sovereign_sdk.IsolatedFeature.Messages.{
  jsonrpc_version, JsonRpcError, JsonRpcMessage, request, notification, response, parse_id,
  params_value, declares_version, decode_identified, decode_call, decode_error, decode_result,
  decode_answer, decode_reply, decode_response, decode_value, decode_loaded, decode_message,
}
use kestrel_sovereign_sdk.IsolatedFeature.Messages.RoundTrip.{IsId, parse_id-accepts}
use kestrel_sovereign_sdk.IsolatedFeature.Messages.Sound.{
  IsText, IsCall, IsErrorObject, IsOutcome, Says, IsFrameOf, nonempty_text_iff, parse_id-returns,
  int_value-returns, int_value-accepts, params_value_iff, or_null_iff, declares_version_iff,
  has-get, get-has,
}

module _ (raw : Fields) where
  identified-Says :
      (method : Text) (params : Fields) (o : Option Value)
      → IsCall raw method params
      → get (codes "id") raw ≡ o
      → Ensures (Says raw) (decode_identified method params o)
  unfolding decode_identified Says
  identified-Says method params none call e = Ensures-ok (Says raw) _ (call, e, refl)
  identified-Says method params (some raw_id) call e =
      Ensures-bind (Says raw) (parse_id raw_id) _ (λ id i.
        let (same, typed) = parse_id-returns raw_id i in
        Ensures-ok (Says raw) _ (call, e ∙ ap (λ x. some x) same, typed, refl))

  call-Says : Ensures (Says raw) (decode_call raw)
  unfolding decode_call require_str IsCall
  call-Says = Ensures-bind (Says raw) (require_str raw (codes "method")) _ (λ method e.
      Ensures-bind (Says raw) (params_value (get (codes "params") raw)) _ (λ params p.
        identified-Says method params (get (codes "id") raw)
          (
            (nonempty_text_iff (get (codes "method") raw) _ method).0 e,
            (params_value_iff (get (codes "params") raw) params).0 p,
          )
          refl))

  error-Says :
      (raw_id error : Value)
      → get (codes "method") raw ≡ none
      → get (codes "id") raw ≡ some raw_id
      → get (codes "error") raw ≡ some error
      → Ensures (Says raw) (decode_error raw_id error)
  unfolding decode_error Says require_str require_int IsOutcome IsErrorObject
  error-Says raw_id (dict error) m i e = Ensures-bind (Says raw) (parse_id raw_id) _ (λ id parsed.
      Ensures-bind (Says raw) (require_int error (codes "code")) _ (λ code c.
        Ensures-bind (Says raw) (require_str error (codes "message")) _ (λ message t.
          let (same, typed) = parse_id-returns raw_id parsed in
          let coded = int_value-returns (get (codes "code") error) c in
          Ensures-ok (Says raw) _ (
            m,
            i ∙ ap (λ x. some x) same,
            typed,
            (
              (
                error,
                e,
                (
                  coded.0,
                  coded.1,
                  (nonempty_text_iff (get (codes "message") error) _ message).0 t,
                  (or_null_iff (get (codes "data") error) _).0 refl,
                ),
              ),
              refl,
            ),
            refl,
          ))))
  error-Says raw_id error m i e = Ensures-err (Says raw) _

  result-Says :
      (raw_id : Value) (o : Option Value)
      → get (codes "method") raw ≡ none
      → get (codes "id") raw ≡ some raw_id
      → get (codes "error") raw ≡ none
      → get (codes "result") raw ≡ o
      → Ensures (Says raw) (decode_result raw_id o)
  unfolding decode_result Says IsOutcome
  result-Says raw_id none m i e r = Ensures-err (Says raw) _
  result-Says raw_id (some result) m i e r =
      Ensures-bind (Says raw) (parse_id raw_id) _ (λ id parsed.
        let (same, typed) = parse_id-returns raw_id parsed in
        Ensures-ok (Says raw) _ (m, i ∙ ap (λ x. some x) same, typed, (e, r), refl))

  answer-Says :
      (raw_id : Value) (o : Option Value)
      → get (codes "method") raw ≡ none
      → get (codes "id") raw ≡ some raw_id
      → get (codes "error") raw ≡ o
      → Ensures (Says raw) (decode_answer raw raw_id o)
  unfolding decode_answer
  answer-Says raw_id none m i e = result-Says raw_id (get (codes "result") raw) m i e refl
  answer-Says raw_id (some error) m i e = error-Says raw_id error m i e

  reply-Says :
      (o : Option Value)
      → get (codes "method") raw ≡ none
      → get (codes "id") raw ≡ o
      → Ensures (Says raw) (decode_reply raw o)
  unfolding decode_reply
  reply-Says none m i = Ensures-err (Says raw) _
  reply-Says (some raw_id) m i = answer-Says raw_id (get (codes "error") raw) m i refl

  by_method-Says :
      Ensures (Says raw) (if has (codes "method") raw then decode_call raw else decode_response raw)
  unfolding decode_response
  by_method-Says = elim (Bool-cases (has (codes "method") raw)) [
    | inl called ↦ rw called call-Says
    | inr answered ↦
        rw answered (reply-Says (get (codes "id") raw) (has-get (codes "method") raw answered) refl)
  ]

  -- What an object says is what it decodes to.
  call_decodes :
      (method : Text) (params : Fields)
      → IsCall raw method params
      → decode_call raw ≡ decode_identified method params (get (codes "id") raw)
  unfolding decode_call require_str IsCall
  call_decodes method params (m, p) =
      rw
        (
          (nonempty_text_iff (get (codes "method") raw) "must be a non-empty string" method).1 m,
          (params_value_iff (get (codes "params") raw) params).1 p,
        )
        refl

  response_decodes :
      (id result : Value) (error : Option JsonRpcError)
      → get (codes "id") raw ≡ some id
      → IsId id
      → IsOutcome raw error result
      → decode_response raw
        ≡ ok (
            response
              (record { id = id; result = result; error = error; jsonrpc = jsonrpc_version }))
  unfolding decode_response decode_reply decode_answer decode_result decode_error require_str
      require_int IsOutcome IsErrorObject
  response_decodes id result none i typed (e, r) = rw (i, e, r, parse_id-accepts id typed) refl
  response_decodes id result (some error) i typed ((fields, e, (code, int, message, given)), r) =
      rw
        (
          i,
          e,
          r,
          parse_id-accepts id typed,
          code,
          int_value-accepts error.code int,
          (nonempty_text_iff (get (codes "message") fields) "must be a non-empty string"
                error.message).1
              message,
          (or_null_iff (get (codes "data") fields) error.error_data).1 given,
        )
        refl

  frame_decodes :
      (m : JsonRpcMessage)
      → Says raw m
      → (if has (codes "method") raw then decode_call raw else decode_response raw) ≡ ok m
  unfolding Says decode_identified IsCall IsText has
  frame_decodes (request m) (call, i, typed, v) = rw (get-has (codes "method") raw call.0.0) (
      call_decodes m.method m.params call
      ∙ rw (i, parse_id-accepts m.id typed)
          (ap (λ x. ok (request (record m { jsonrpc = x }))) (sym v)))
  frame_decodes (notification m) (call, i, v) = rw (get-has (codes "method") raw call.0.0) (
      call_decodes m.method m.params call
      ∙ rw i (ap (λ x. ok (notification (record m { jsonrpc = x }))) (sym v)))
  frame_decodes (response m) (answered, i, typed, outcome, v) =
      rw (answered, has)
        (response_decodes m.id m.result m.error i typed outcome
          ∙ ap (λ x. ok (response (record m { jsonrpc = x }))) (sym v))

decode_loaded_iff :
    (l : Loaded) (m : JsonRpcMessage)
    → (decode_loaded l ≡ ok m) ↔ (
        (raw : Fields) × (l ≡ loaded (dict raw))
        × (get (codes "jsonrpc") raw ≡ some (string jsonrpc_version))
        × Says raw m)
unfolding decode_loaded decode_value
decode_loaded_iff (loaded (dict raw)) m = (
  λ h.
      let (u, version, rest) =
        >>=-eq-ok (raise_if (not (declares_version (get (codes "jsonrpc") raw))) _) _ h in
      (
        raw,
        refl,
        (declares_version_iff (get (codes "jsonrpc") raw)).0 (
            ground (
              arith,
              (raise_if_iff (not (declares_version (get (codes "jsonrpc") raw)))
                    (protocol_error "JSON-RPC frame must declare jsonrpc='2.0'")).0
                  version,
            )),
        (by_method-Says raw).holds m rest,
      ),
  λ h.
      let (given, e, version, says) = h in
      let same : given ≡ raw = cc in
      let said =
        subst (λ x. (get (codes "jsonrpc") x ≡ some (string jsonrpc_version)) × Says x m) same
          (version, says) in
      rw ((declares_version_iff (get (codes "jsonrpc") raw)).1 said.0) (frame_decodes raw m said.1),
)
decode_loaded_iff (loaded v) m = (λ h. cc, λ h. cc (h.1))
decode_loaded_iff unicode_decode_error m = (λ h. cc, λ h. cc (h.1))
decode_loaded_iff json_decode_error m = (λ h. cc, λ h. cc (h.1))
decode_loaded_iff digit_limit_error m = (λ h. cc, λ h. cc (h.1))
decode_loaded_iff nesting_error m = (λ h. cc, λ h. cc (h.1))

-- A frame decodes to a message if and only if `json.loads` reads an object from it that declares
-- version 2.0 and says that message: with a method, a call of a non-empty name whose params are an
-- object, or empty where they are None or missing, a request where there is an id and a notification
-- where there is none; without a method, a response with an id and either an error, which is an
-- object with an integer or Boolean code and a non-empty message, or else a result. An id is a text,
-- an integer, a Boolean or None.
pub decode_message_iff :
    {Frame : Type 0} (codec : Codec Frame) (line : Frame) (m : JsonRpcMessage)
    → (decode_message codec line ≡ ok m) ↔ IsFrameOf codec line m
unfolding decode_message IsFrameOf
decode_message_iff codec line m = decode_loaded_iff (codec.loads line) m
