-- ===== src/IsolatedFeature/Ingress.antt =====
-- kestrel_sdk/isolated_feature/protocol.py: the private calls of a host into a feature: names,
-- payloads and the capability that advertises them.
pub mod Slugs
pub mod Payloads
use kestrel_sovereign_sdk.Prelude.{
  ℕ, suc, ℤ, pos, Bool, true, false, ◌&&◌, ◌||◌, not, Option, none, some, List, [], ◌∷◌, Text,
  codes, Result, Check, ok, err, protocol_error, ◌>>=◌, ◌>>◌, raise_if, if◌then◌else◌, ltb, between,
  ◌==◌, all, length, contains,
}
use kestrel_sovereign_sdk.Validation.Texts.{has_duplicates}
use kestrel_sovereign_sdk.IsolatedFeature.Values.{
  Value, null, boolean, integer, float, string, list, dict, foreign, Items, nil, cons, Fields, end,
  field, Key, named, unnamed, get, has, or_null, only, texts_of, items_of, is_finite,
}
use kestrel_sovereign_sdk.IsolatedFeature.Execution.{integer_of, is_version_one}

abbrev pub max_host_ingress_name_bytes : ℕ
max_host_ingress_name_bytes = 64

abbrev pub max_host_ingress_payload_bytes : ℕ
max_host_ingress_payload_bytes = 65536

abbrev pub max_host_ingress_payload_depth : ℕ
max_host_ingress_payload_depth = 32

-- `[a-z]` and `[a-z0-9]`
unfoldable pub is_lower : ℕ → Bool
is_lower c = between 0x61 0x7A c

unfoldable pub is_slug_char : ℕ → Bool
unfolding is_lower
is_slug_char c = is_lower c || between 0x30 0x39 c

-- The rest of `[a-z][a-z0-9]*(?:-[a-z0-9]+)*\Z`: after a character of a word, or after a dash.
unfoldable mutual
  pub in_word : Text → Bool
  in_word [] = true
  in_word (c ∷ s) = (is_slug_char c && in_word s) || (c == 0x2D && after_dash s)

  pub after_dash : Text → Bool
  after_dash [] = false
  after_dash (c ∷ s) = is_slug_char c && in_word s

-- `_HOST_INGRESS_NAME.fullmatch(value)`
unfoldable pub is_slug : Text → Bool
unfolding is_lower in_word
is_slug [] = false
is_slug (c ∷ s) = is_lower c && in_word s

-- `value.isascii()`
unfoldable pub is_ascii : Text → Bool
is_ascii s = all (λ c. ltb c 0x80) s

unfoldable pub validate_host_ingress_name : Value → Result Text
unfolding is_ascii is_slug
validate_host_ingress_name (string s) = do
  raise_if (not (is_ascii s)) (protocol_error "host ingress name must be a lowercase slug")
  raise_if (ltb max_host_ingress_name_bytes (length s))
      (protocol_error "host ingress name exceeds the size limit")
  raise_if (not (is_slug s)) (protocol_error "host ingress name must be a lowercase slug")
  ok s
validate_host_ingress_name _ = err (protocol_error "host ingress name must be a lowercase slug")

abbrev pub check_depth : ℕ → Check
check_depth depth =
    raise_if (ltb max_host_ingress_payload_depth depth)
      (protocol_error "host ingress payload exceeds the nesting limit")

abbrev pub invalid_json : Check
invalid_json = err (protocol_error "host ingress payload must be valid JSON")

-- `_validate_host_ingress_json`
unfoldable mutual
  pub validate_json : ℕ → Value → Check
  validate_json depth null = check_depth depth
  validate_json depth (boolean b) = check_depth depth
  validate_json depth (integer n) = check_depth depth
  validate_json depth (string s) = check_depth depth
  validate_json depth (float bits) =
      check_depth depth
      >> raise_if (not (is_finite bits)) (protocol_error "host ingress payload must be valid JSON")
  validate_json depth (list xs) = check_depth depth >> validate_items (suc depth) xs
  validate_json depth (dict fields) = check_depth depth >> validate_entries (suc depth) fields
  validate_json depth foreign = check_depth depth >> invalid_json

  pub validate_items : ℕ → Items → Check
  validate_items depth nil = ok tt
  validate_items depth (cons x xs) = validate_json depth x >> validate_items depth xs

  pub validate_entries : ℕ → Fields → Check
  validate_entries depth end = ok tt
  validate_entries depth (field (named k) x rest) =
      validate_json depth x >> validate_entries depth rest
  validate_entries depth (field unnamed x rest) = invalid_json

unfoldable pub check_payload_size : Option ℕ → Check
check_payload_size none = invalid_json
check_payload_size (some n) =
    raise_if (ltb max_host_ingress_payload_bytes n)
      (protocol_error "host ingress payload exceeds the size limit")

-- `encoded_size` is the length of `json.dumps(value, separators=(",", ":"), ensure_ascii=True,
-- allow_nan=False).encode("utf-8")`, and `none` one of the exceptions caught there.
unfoldable pub validate_host_ingress_payload : (Value → Option ℕ) → Value → Result Value
unfolding validate_json check_payload_size
validate_host_ingress_payload encoded_size value = do
  validate_json 0 value
  check_payload_size (encoded_size value)
  ok value

pub record HostIngressCapabilities : Type 0 where
  pub names : List Text
  pub version : ℤ

-- `for name in self.names: validate_host_ingress_name(name)`
unfoldable pub validate_names : List Text → Check
unfolding validate_host_ingress_name
validate_names [] = ok tt
validate_names (s ∷ ss) = validate_host_ingress_name (string s) >> validate_names ss

unfoldable pub is_nonempty : List Text → Bool
is_nonempty [] = false
is_nonempty (s ∷ ss) = true

-- `__post_init__`
unfoldable pub check_capabilities : HostIngressCapabilities → Check
unfolding is_version_one is_nonempty has_duplicates validate_names
check_capabilities c = do
  raise_if (not (is_version_one c.version)) (protocol_error "unsupported version")
  raise_if (not (is_nonempty c.names)) (protocol_error "capability requires names")
  raise_if (has_duplicates c.names) (protocol_error "names must be unique")
  validate_names c.names

unfoldable pub capabilities_fields : HostIngressCapabilities → Fields
unfolding items_of
capabilities_fields c =
    field (named (codes "version")) (integer c.version)
      (field (named (codes "names")) (list (items_of c.names)) end)

abbrev pub capability_names : List Text
capability_names = codes "version" ∷ codes "names" ∷ []

-- `set(data) == {"version", "names"}`
unfoldable pub has_exactly_names : Fields → Bool
unfolding only has
has_exactly_names fields =
    only capability_names fields && (has (codes "version") fields && has (codes "names") fields)

unfoldable pub names_of : Value → Result (List Text)
unfolding texts_of
names_of (list xs) = elim (texts_of xs) [
  | none ↦ err (protocol_error "names must be a list of strings")
  | some ss ↦ ok ss
]
names_of _ = err (protocol_error "names must be a list of strings")

unfoldable pub capabilities_from_dict : Value → Result HostIngressCapabilities
unfolding has_exactly_names get or_null integer_of names_of check_capabilities
capabilities_from_dict (dict fields) = do
  raise_if (not (has_exactly_names fields)) (protocol_error "capability requires version and names")
  version ← integer_of (or_null (get (codes "version") fields))
  names ← names_of (or_null (get (codes "names") fields))
  check_capabilities (record { names = names; version = version })
  ok (record { names = names; version = version })
capabilities_from_dict _ = err (protocol_error "capability requires version and names")

unfoldable pub supports : HostIngressCapabilities → Text → Bool
unfolding is_version_one contains
supports c name = is_version_one c.version && contains c.names name
