-- ===== src/IsolatedFeature/Values.antt =====
-- kestrel_sdk/isolated_feature/protocol.py: Python values as `json.loads` returns them and as
-- callers pass them, and the lookups that read them. A `float` is its IEEE 754 bits.
use kestrel_sovereign_sdk.Prelude.{
  ℕ, ℤ, ◌/◌, ◌%◌, ◌^◌, Bool, true, false, ◌&&◌, not, Option, none, some, List, [], ◌∷◌, Text,
  String, text_eq, contains, Result, ok, err, protocol_error, ◌==◌, between, if◌then◌else◌, all,
  ◌≡◌,
}

-- A key of a `dict` is a text or another object.
pub data Key : Type 0 where
  named : Text → Key
  unnamed : Key

mutual
  pub data Value : Type 0 where
    null : Value
    boolean : Bool → Value
    integer : ℤ → Value
    float : ℕ → Value
    string : Text → Value
    list : Items → Value
    dict : Fields → Value
    -- an object of any other type
    foreign : Value

  pub data Items : Type 0 where
    nil : Items
    cons : Value → Items → Items

  pub data Fields : Type 0 where
    end : Fields
    field : Key → Value → Fields → Fields

unfoldable pub is_key : Text → Key → Bool
is_key k (named j) = text_eq j k
is_key k unnamed = false

-- `data.get(key)`, or `none` without the key
unfoldable pub get : Text → Fields → Option Value
unfolding is_key
get k end = none
get k (field j v rest) = if is_key k j then some v else get k rest

-- `get` with the default None
unfoldable pub or_null : Option Value → Value
or_null none = null
or_null (some v) = v

-- `key in data`
unfoldable pub has : Text → Fields → Bool
unfolding get
has k fields = elim (get k fields) [ none ↦ false | some _ ↦ true ]

-- `not set(data).difference(names)`
unfoldable pub only : List Text → Fields → Bool
only names end = true
only names (field (named k) v rest) = contains names k && only names rest
only names (field unnamed v rest) = false

-- `if value is not None: data[key] = value`, at the end of the keys
unfoldable pub optional_field : Text → Option Value → Fields → Fields
optional_field k none rest = rest
optional_field k (some v) rest = field (named k) v rest

unfoldable pub text_value : Option Text → Option Value
text_value none = none
text_value (some s) = some (string s)

-- `isinstance(value, str) and value`
unfoldable pub nonempty_text : Option Value → String → Result Text
nonempty_text (some (string (c ∷ s))) message = ok (c ∷ s)
nonempty_text _ message = err (protocol_error message)

unfoldable pub require_str : Fields → Text → Result Text
unfolding nonempty_text get
require_str fields k = nonempty_text (get k fields) "must be a non-empty string"

-- None and a missing key are alike.
unfoldable pub optional_text : Option Value → Result (Option Text)
optional_text none = ok none
optional_text (some null) = ok none
optional_text (some (string (c ∷ s))) = ok (some (c ∷ s))
optional_text _ = err (protocol_error "must be a non-empty string when provided")

unfoldable pub optional_str : Fields → Text → Result (Option Text)
unfolding optional_text get
optional_str fields k = optional_text (get k fields)

-- `isinstance(value, int)`, of which `bool` is a subclass
unfoldable pub is_int : Value → Bool
is_int (integer n) = true
is_int (boolean b) = true
is_int _ = false

unfoldable pub int_value : Option Value → Result Value
unfolding is_int
int_value none = err (protocol_error "must be an integer")
int_value (some v) = if is_int v then ok v else err (protocol_error "must be an integer")

unfoldable pub require_int : Fields → Text → Result Value
unfolding int_value get
require_int fields k = int_value (get k fields)

-- `all(isinstance(item, str) for item in value)`, and the texts
unfoldable pub texts_of : Items → Option (List Text)
texts_of nil = some []
texts_of (cons (string s) rest) = elim (texts_of rest) [ none ↦ none | some ss ↦ some (s ∷ ss) ]
texts_of (cons _ rest) = none

-- `list(texts)`
unfoldable pub items_of : List Text → Items
items_of [] = nil
items_of (s ∷ ss) = cons (string s) (items_of ss)

unfoldable pub str_list_value : Option Value → Result (List Text)
unfolding texts_of
str_list_value none = ok []
str_list_value (some null) = ok []
str_list_value (some (list xs)) = elim (texts_of xs) [
  | none ↦ err (protocol_error "must be a list of strings when provided")
  | some ss ↦ ok ss
]
str_list_value _ = err (protocol_error "must be a list of strings when provided")

unfoldable pub optional_str_list : Fields → Text → Result (List Text)
unfolding str_list_value get
optional_str_list fields k = str_list_value (get k fields)

-- `math.isfinite`: the exponent is not all ones.
unfoldable pub is_finite : ℕ → Bool
is_finite bits = not (bits / 2 ^ 52 % 2 ^ 11 == 2047)

unfoldable pub no_surrogates : Text → Bool
no_surrogates s = all (λ c. not (between 0xD800 0xDFFF c)) s

-- The values that JSON represents exactly: finite numbers, texts without surrogates, and distinct
-- text keys.
unfoldable mutual
  pub is_json : Value → Bool
  is_json null = true
  is_json (boolean b) = true
  is_json (integer n) = true
  is_json (float bits) = is_finite bits
  is_json (string s) = no_surrogates s
  is_json (list xs) = all_json xs
  is_json (dict fields) = fields_json fields
  is_json foreign = false

  pub all_json : Items → Bool
  all_json nil = true
  all_json (cons x xs) = is_json x && all_json xs

  pub fields_json : Fields → Bool
  fields_json end = true
  fields_json (field (named k) v rest) =
      no_surrogates k && (not (has k rest) && (is_json v && fields_json rest))
  fields_json (field unnamed v rest) = false

-- What `json.loads(line.decode("utf-8"))` does with a frame; the last is its RecursionError.
pub data Loaded : Type 0 where
  loaded : Value → Loaded
  unicode_decode_error json_decode_error : Loaded
  -- the plain ValueError of an integer with too many digits
  digit_limit_error : Loaded
  nesting_error : Loaded

-- The encoder and decoder of Python's `json` module with UTF-8, on frames of a type of their own.
-- `fits` is the interpreter's limits on nesting and on the digits of an integer.
pub record Codec (Frame : Type 0) : Type 0 where
  pub fits : Value → Bool
  -- `(json.dumps(data, separators=(",", ":")) + "\n").encode("utf-8")`
  pub dumps : Value → Result Frame
  pub loads : Frame → Loaded

-- What their documentation says: what is written is read back, and only JSON is read.
pub record CodecLaws {Frame : Type 0} (codec : Codec Frame) : Type 0 where
  pub dumps_returns :
      (v : Value) → is_json v ≡ true → codec.fits v ≡ true → (f : Frame) × (codec.dumps v ≡ ok f)
  pub loads_dumps :
      (v : Value) (f : Frame) → is_json v ≡ true → codec.dumps v ≡ ok f → codec.loads f ≡ loaded v
