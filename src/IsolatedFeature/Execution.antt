-- ===== src/IsolatedFeature/Execution.antt =====
-- kestrel_sdk/isolated_feature/protocol.py: execution metadata of a tool call. A `Datetime` is a
-- Python datetime without a zone or with a fixed offset.
pub mod Lookups
pub mod RoundTrip
use kestrel_sovereign_sdk.Prelude.{
  ℕ, ◌+◌, ◌≤◌, ℤ, pos, negsuc, Bool, true, false, ◌||◌, not, Option, none, some, List, [], ◌∷◌,
  ◌++◌, Text, codes, contains, Result, Check, ok, err, protocol_error, value_error, ◌>>=◌, ◌>>◌,
  raise_if, if◌then◌else◌, ltb, between, ◌==◌, ◌≡◌,
}
use kestrel_sovereign_sdk.IsolatedFeature.Values.{
  Value, null, boolean, integer, string, dict, Fields, end, field, Key, named, get, or_null, only,
  optional_field, text_value,
}

abbrev pub tool_execution_context_version : ℤ
tool_execution_context_version = pos 1

abbrev pub max_tool_execution_context_bytes : ℕ
max_tool_execution_context_bytes = 4096

abbrev pub max_context_identifier_bytes : ℕ
max_context_identifier_bytes = 512

abbrev pub max_trigger_kind_bytes : ℕ
max_trigger_kind_bytes = 64

abbrev pub supported_trigger_kinds : List Text
supported_trigger_kinds =
    codes "scheduler" ∷ codes "event" ∷ codes "agent" ∷ codes "manual" ∷ codes "api" ∷ []

abbrev pub trigger_names : List Text
trigger_names =
    codes "kind"
    ∷ codes "id"
    ∷ codes "source_id"
    ∷ codes "triggered_at"
    ∷ codes "scheduled_for"
    ∷ []

abbrev pub context_names : List Text
context_names =
    codes "version"
    ∷ codes "invocation_id"
    ∷ codes "idempotency_key"
    ∷ codes "attempt"
    ∷ codes "trigger"
    ∷ []

-- The bytes of a code point in UTF-8.
unfoldable pub byte_length : ℕ → ℕ
byte_length c = if ltb c 0x80 then 1 else if ltb c 0x800 then 2 else if ltb c 0x10000 then 3 else 4

-- `len(value.encode("utf-8"))`, which a surrogate makes a UnicodeEncodeError
unfoldable pub utf8_length : Text → Result ℕ
unfolding byte_length
utf8_length [] = ok 0
utf8_length (c ∷ s) =
    if between 0xD800 0xDFFF c
    then err (value_error "UnicodeEncodeError")
    else utf8_length s >>= λ n. ok (byte_length c + n)

-- `len(value.encode("utf-8")) > maximum`
unfoldable pub check_size : Text → ℕ → Check
unfolding utf8_length
check_size s maximum = do
  n ← utf8_length s
  raise_if (ltb maximum n) (protocol_error "exceeds the size limit")

unfoldable pub require_context_string : Value → ℕ → Result Text
unfolding check_size
require_context_string (string (c ∷ s)) maximum = do check_size (c ∷ s) maximum; ok (c ∷ s)
require_context_string _ maximum = err (protocol_error "must be a non-empty string")

unfoldable pub optional_context_string : Value → Result (Option Text)
unfolding require_context_string
optional_context_string null = ok none
optional_context_string v = do
  s ← require_context_string v max_context_identifier_bytes
  ok (some s)

-- `value.replace("Z", "+00:00")`
unfoldable pub replace_z : Text → Text
replace_z [] = []
replace_z (c ∷ s) = if c == 0x5A then codes "+00:00" ++ replace_z s else c ∷ replace_z s

-- Python's datetimes and `json` module, as this code uses them.
pub record Runtime (Datetime : Type 0) : Type 0 where
  -- `value.tzinfo is not None and value.utcoffset() is not None`
  pub is_aware : Datetime → Bool
  pub isoformat : Datetime → Text
  -- `none` is a ValueError
  pub fromisoformat : Text → Option Datetime
  -- `len(json.dumps(data, separators=(",", ":")).encode("utf-8"))`
  pub dumps_length : Value → Result ℕ

pub record ToolExecutionTrigger (Datetime : Type 0) : Type 0 where
  pub kind : Text
  pub id : Option Text
  pub source_id : Option Text
  pub triggered_at : Option Datetime
  pub scheduled_for : Option Datetime

pub record ToolExecutionContext (Datetime : Type 0) : Type 0 where
  pub invocation_id : Text
  pub attempt : ℤ
  pub trigger : ToolExecutionTrigger Datetime
  pub idempotency_key : Option Text
  pub version : ℤ

unfoldable pub is_version_one : ℤ → Bool
is_version_one (pos n) = n == 1
is_version_one (negsuc n) = false

unfoldable pub is_positive : ℤ → Bool
is_positive (pos n) = ltb 0 n
is_positive (negsuc n) = false

-- A field that holds a text or None.
unfoldable pub text_or_none : Option Text → Value
unfolding text_value
text_or_none o = or_null (text_value o)

-- `isinstance(kind, str)`
unfoldable pub kind_text : Value → Result Text
kind_text (string s) = ok s
kind_text _ = err (protocol_error "trigger requires kind")

-- `isinstance(value, int)` and not a `bool`
unfoldable pub integer_of : Value → Result ℤ
integer_of (integer n) = ok n
integer_of _ = err (protocol_error "requires an integer")

module _ {Datetime : Type 0} (runtime : Runtime Datetime) where
  unfoldable pub require_aware_timestamp : Datetime → Result Datetime
  require_aware_timestamp d =
      if runtime.is_aware d then ok d else err (protocol_error "must include a timezone")

  -- `fromisoformat`, with its ValueError turned into a ProtocolError
  unfoldable pub aware_of : Option Datetime → Result (Option Datetime)
  unfolding require_aware_timestamp
  aware_of none = err (protocol_error "must be an RFC 3339 timestamp")
  aware_of (some d) = do aware ← require_aware_timestamp d; ok (some aware)

  unfoldable pub parse_timestamp : Value → Result (Option Datetime)
  unfolding check_size replace_z aware_of
  parse_timestamp null = ok none
  parse_timestamp (string s) = do
    check_size s max_context_identifier_bytes
    aware_of (runtime.fromisoformat (replace_z s))
  parse_timestamp _ = err (protocol_error "must be an RFC 3339 timestamp")

  -- `if self.triggered_at is not None: _require_aware_timestamp(…)`
  unfoldable pub check_timestamp : Option Datetime → Check
  unfolding require_aware_timestamp
  check_timestamp none = ok tt
  check_timestamp (some d) = require_aware_timestamp d >> ok tt

  -- `ToolExecutionTrigger.__post_init__`
  unfoldable pub check_trigger : ToolExecutionTrigger Datetime → Check
  unfolding check_size optional_context_string check_timestamp text_or_none
  check_trigger t = do
    raise_if (not (contains supported_trigger_kinds t.kind))
        (protocol_error "trigger kind is not supported")
    check_size t.kind max_trigger_kind_bytes
    optional_context_string (text_or_none t.id)
    optional_context_string (text_or_none t.source_id)
    check_timestamp t.triggered_at
    check_timestamp t.scheduled_for

  unfoldable pub time_value : Option Datetime → Option Value
  time_value none = none
  time_value (some d) = some (string (runtime.isoformat d))

  unfoldable pub trigger_fields : ToolExecutionTrigger Datetime → Fields
  unfolding optional_field text_value time_value
  trigger_fields t = field (named (codes "kind")) (string t.kind) (
      optional_field (codes "id") (text_value t.id) (
        optional_field (codes "source_id") (text_value t.source_id) (
          optional_field (codes "triggered_at") (time_value t.triggered_at)
            (optional_field (codes "scheduled_for") (time_value t.scheduled_for) end))))

  -- The constructor.
  unfoldable pub new_trigger :
      ToolExecutionTrigger Datetime → Result (ToolExecutionTrigger Datetime)
  unfolding check_trigger
  new_trigger t = check_trigger t >> ok t

  unfoldable pub trigger_from_dict : Value → Result (ToolExecutionTrigger Datetime)
  unfolding only get or_null kind_text optional_context_string parse_timestamp
  trigger_from_dict (dict fields) = do
    raise_if (not (only trigger_names fields))
        (protocol_error "trigger contains reserved or unknown fields")
    kind ← kind_text (or_null (get (codes "kind") fields))
    id ← optional_context_string (or_null (get (codes "id") fields))
    source_id ← optional_context_string (or_null (get (codes "source_id") fields))
    triggered_at ← parse_timestamp (or_null (get (codes "triggered_at") fields))
    scheduled_for ← parse_timestamp (or_null (get (codes "scheduled_for") fields))
    new_trigger (record {
      kind = kind;
      id = id;
      source_id = source_id;
      triggered_at = triggered_at;
      scheduled_for = scheduled_for;
    })
  trigger_from_dict _ = err (protocol_error "trigger must be an object")

  unfoldable pub context_fields : ToolExecutionContext Datetime → Fields
  unfolding optional_field text_value trigger_fields
  context_fields c = field (named (codes "version")) (integer c.version) (
      field (named (codes "invocation_id")) (string c.invocation_id) (
        field (named (codes "attempt")) (integer c.attempt) (
          field (named (codes "trigger")) (dict (trigger_fields c.trigger))
            (optional_field (codes "idempotency_key") (text_value c.idempotency_key) end))))

  unfoldable pub check_encoded : Value → Check
  check_encoded v = do
    n ← runtime.dumps_length v
    raise_if (ltb max_tool_execution_context_bytes n)
        (protocol_error "tool execution context exceeds the size limit")

  -- `ToolExecutionContext.__post_init__`
  unfoldable pub check_context : ToolExecutionContext Datetime → Check
  unfolding is_version_one require_context_string optional_context_string text_or_none is_positive
      check_encoded context_fields
  check_context c = do
    raise_if (not (is_version_one c.version)) (protocol_error "unsupported version")
    require_context_string (string c.invocation_id) max_context_identifier_bytes
    optional_context_string (text_or_none c.idempotency_key)
    raise_if (not (is_positive c.attempt)) (protocol_error "attempt must be a positive integer")
    check_encoded (dict (context_fields c))

  unfoldable pub new_context :
      ToolExecutionContext Datetime → Result (ToolExecutionContext Datetime)
  unfolding check_context
  new_context c = check_context c >> ok c

  unfoldable pub context_from_dict : Value → Result (ToolExecutionContext Datetime)
  unfolding check_encoded only get or_null integer_of require_context_string trigger_from_dict
      optional_context_string
  context_from_dict (dict fields) = do
    check_encoded (dict fields)
    raise_if (not (only context_names fields))
        (protocol_error "contains reserved or unknown fields")
    version ← integer_of (or_null (get (codes "version") fields))
    invocation_id ←
        require_context_string (or_null (get (codes "invocation_id") fields))
          max_context_identifier_bytes
    attempt ← integer_of (or_null (get (codes "attempt") fields))
    trigger ← trigger_from_dict (or_null (get (codes "trigger") fields))
    idempotency_key ← optional_context_string (or_null (get (codes "idempotency_key") fields))
    new_context (record {
      invocation_id = invocation_id;
      attempt = attempt;
      trigger = trigger;
      idempotency_key = idempotency_key;
      version = version;
    })
  context_from_dict _ = err (protocol_error "tool execution context must be an object")

-- What the documentation of `datetime` says of a fixed offset.
pub record RuntimeLaws {Datetime : Type 0} (runtime : Runtime Datetime) : Type 0 where
  pub isoformat_size :
      (d : Datetime) → check_size (runtime.isoformat d) max_context_identifier_bytes ≡ ok tt
  pub fromisoformat-isoformat :
      (d : Datetime)
      → runtime.is_aware d ≡ true
      → runtime.fromisoformat (replace_z (runtime.isoformat d)) ≡ some d
