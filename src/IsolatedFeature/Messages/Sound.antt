-- ===== src/IsolatedFeature/Messages/Sound.antt =====
-- kestrel_sdk/isolated_feature/protocol.py: which frames decode, and to which message.
use kestrel_sovereign_sdk.Prelude.{
  ◌<◌, Bool, true, false, Option, none, some, [], ◌∷◌, Text, String, ok, ◌≡◌, ◌↔◌, refl, arith,
  length, codes, sym, ap, inl, inr, Bool-cases, text_eq_iff, returns_by,
}
use kestrel_sovereign_sdk.IsolatedFeature.Values.{
  Value, null, boolean, integer, string, dict, Fields, end, get, has, or_null, nonempty_text,
  int_value, is_int, Codec, loaded,
}
use kestrel_sovereign_sdk.IsolatedFeature.Messages.{
  jsonrpc_version, JsonRpcError, JsonRpcMessage, request, notification, response, parse_id,
  params_value, declares_version,
}
use kestrel_sovereign_sdk.IsolatedFeature.Messages.RoundTrip.{IsId}

-- A boolean is an `int` of Python's.
unfoldable pub IsInteger : Value → Type 0
IsInteger (integer n) = Unit
IsInteger (boolean b) = Unit
IsInteger v = ⊥

unfoldable pub IsText : Option Value → Text → Type 0
IsText o s = (o ≡ some (string s)) × (0 < length s)

-- No params, and None for them, are empty ones.
unfoldable pub IsParams : Option Value → Fields → Type 0
IsParams none params = params ≡ end
IsParams (some null) params = params ≡ end
IsParams (some (dict given)) params = params ≡ given
IsParams (some v) params = ⊥

unfoldable pub IsData : Option Value → Value → Type 0
IsData none v = v ≡ null
IsData (some given) v = v ≡ given

unfoldable pub IsCall : Fields → Text → Fields → Type 0
unfolding IsText IsParams
IsCall raw method params =
    IsText (get (codes "method") raw) method × IsParams (get (codes "params") raw) params

unfoldable pub IsErrorObject : Fields → JsonRpcError → Type 0
unfolding IsText IsInteger IsData
IsErrorObject fields e =
    (get (codes "code") fields ≡ some e.code)
    × IsInteger e.code
    × IsText (get (codes "message") fields) e.message
    × IsData (get (codes "data") fields) e.error_data

-- The error, where there is one, or else the result.
unfoldable pub IsOutcome : Fields → Option JsonRpcError → Value → Type 0
unfolding IsErrorObject
IsOutcome raw none result =
    (get (codes "error") raw ≡ none) × (get (codes "result") raw ≡ some result)
IsOutcome raw (some e) result =
    ((fields : Fields) × (get (codes "error") raw ≡ some (dict fields)) × IsErrorObject fields e)
    × (result ≡ null)

-- What an object of JSON-RPC 2.0 says.
unfoldable pub Says : Fields → JsonRpcMessage → Type 0
unfolding IsCall IsOutcome IsId
Says raw (request m) =
    IsCall raw m.method m.params
    × (get (codes "id") raw ≡ some m.id)
    × IsId m.id
    × (m.jsonrpc ≡ jsonrpc_version)
Says raw (notification m) =
    IsCall raw m.method m.params × (get (codes "id") raw ≡ none) × (m.jsonrpc ≡ jsonrpc_version)
Says raw (response m) =
    (get (codes "method") raw ≡ none)
    × (get (codes "id") raw ≡ some m.id)
    × IsId m.id
    × IsOutcome raw m.error m.result
    × (m.jsonrpc ≡ jsonrpc_version)

unfoldable pub IsFrameOf : {Frame : Type 0} → Codec Frame → Frame → JsonRpcMessage → Type 0
unfolding Says
IsFrameOf codec line m =
    (raw : Fields) × (codec.loads line ≡ loaded (dict raw))
    × (get (codes "jsonrpc") raw ≡ some (string jsonrpc_version))
    × Says raw m

pub nonempty_text_iff :
    (o : Option Value) (message : String) (s : Text) → (nonempty_text o message ≡ ok s) ↔ IsText o s
unfolding nonempty_text IsText
nonempty_text_iff none message s = (λ h. cc, λ h. cc (h.0))
nonempty_text_iff (some (string [])) message s = ground arith
nonempty_text_iff (some (string (c ∷ t))) message s = ground arith
nonempty_text_iff (some v) message s = (λ h. cc, λ h. cc (h.0))

pub parse_id-returns : (v : Value) {w : Value} → parse_id v ≡ ok w → (v ≡ w) × IsId w
unfolding parse_id IsId
parse_id-returns null h = returns_by (λ x. (null ≡ x) × IsId x) h (refl, tt)
parse_id-returns (string s) h = returns_by (λ x. (string s ≡ x) × IsId x) h (refl, tt)
parse_id-returns (integer n) h = returns_by (λ x. (integer n ≡ x) × IsId x) h (refl, tt)
parse_id-returns (boolean b) h = returns_by (λ x. (boolean b ≡ x) × IsId x) h (refl, tt)
parse_id-returns v h = cc

integer_of : (v : Value) → (is_int v ≡ true) ↔ IsInteger v
unfolding is_int IsInteger
integer_of (integer n) = (λ h. tt, λ h. refl)
integer_of (boolean b) = (λ h. tt, λ h. refl)
integer_of v = (λ h. cc, λ h. absurd h)

pub int_value-returns :
    (o : Option Value) {w : Value} → int_value o ≡ ok w → (o ≡ some w) × IsInteger w
unfolding int_value
int_value-returns none h = cc
int_value-returns (some v) h = elim (Bool-cases (is_int v)) [
  | inl int ↦
      returns_by (λ x. (some v ≡ some x) × IsInteger x) (rw int at h) (refl, (integer_of v).0 int)
  | inr other ↦ cc (rw other at h)
]

pub int_value-accepts : (v : Value) → IsInteger v → int_value (some v) ≡ ok v
unfolding int_value
int_value-accepts v int = rw ((integer_of v).1 int) refl

pub params_value_iff :
    (o : Option Value) (params : Fields) → (params_value o ≡ ok params) ↔ IsParams o params
unfolding params_value IsParams
params_value_iff none params = (λ h. cc, λ h. cc)
params_value_iff (some null) params = (λ h. cc, λ h. cc)
params_value_iff (some (dict given)) params = (λ h. cc, λ h. cc)
params_value_iff (some v) params = (λ h. cc, λ h. absurd h)

pub or_null_iff : (o : Option Value) (v : Value) → (or_null o ≡ v) ↔ IsData o v
unfolding or_null IsData
or_null_iff none v = (λ h. sym h, λ h. sym h)
or_null_iff (some given) v = (λ h. sym h, λ h. sym h)

pub declares_version_iff :
    (o : Option Value) → (declares_version o ≡ true) ↔ (o ≡ some (string jsonrpc_version))
unfolding declares_version
declares_version_iff none = (λ h. cc, λ h. cc)
declares_version_iff (some (string v)) =
    let same = text_eq_iff v jsonrpc_version in
    (λ h. ap (λ x. some (string x)) (same.0 h), λ h. same.1 (cc))
declares_version_iff (some v) = (λ h. cc, λ h. cc)

pub has-get : (k : Text) (fields : Fields) → has k fields ≡ false → get k fields ≡ none
unfolding has
has-get k fields h = absent (get k fields) h
  where
    absent :
        (o : Option Value)
        → elim o as (λ _. Bool) [ none ↦ false | some _ ↦ true ] ≡ false
        → o ≡ none
    absent none h = refl
    absent (some v) h = cc

pub get-has : (k : Text) (fields : Fields) {v : Value} → get k fields ≡ some v → has k fields ≡ true
unfolding has
get-has k fields e = rw (e, has) refl
