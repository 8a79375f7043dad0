-- ===== src/Operator/Hrefs.antt =====
-- kestrel_sdk/operator/runs.py, `_authorized_artifact_href`: the links of artifacts. `urlsplit`,
-- `unquote`, `str.lower`, `str.isalnum` and `IPv6Address` are Python's.
pub mod Accepted
pub mod Hosts
pub mod Signed
use kestrel_sovereign_sdk.Prelude.{
  ℕ, zero, suc, Bool, true, false, ◌&&◌, ◌||◌, not, Option, none, some, List, [], ◌∷◌, ◌++◌, Text,
  codes, Check, Result, ok, err, value_error, ◌>>=◌, ◌>>◌, raise_if, ◌≡◌, ◌≢◌, refl, arith, ltb,
  leb, between, ◌==◌, if◌then◌else◌, all, any, length, text_eq, text_eq_iff, after_prefix,
  after_prefix-some, >>=-eq-ok, raise_if_iff, subst, ap,
}
use kestrel_sovereign_sdk.Validation.Tokens.{is_stable_token}
use kestrel_sovereign_sdk.Validation.Texts.{is_empty}
use kestrel_sovereign_sdk.Operator.Percent.{validate_percent_encoding}

pub record UrlParts : Type 0 where
  pub scheme : Text
  pub username : Option Text
  pub password : Option Text
  pub hostname : Option Text
  pub port : Option ℕ
  pub path : Text
  pub query : Text
  pub fragment : Text

-- `none` from `urlsplit` is its ValueError, or that of the port.
pub record UrlFunctions : Type 0 where
  pub urlsplit : Text → Option UrlParts
  pub unquote : Text → Text
  pub lower : Text → Text
  pub is_alnum_character : ℕ → Bool
  pub is_ipv6_address : Text → Bool

abbrev pub has : ℕ → Text → Bool
has c = any (λ d. d == c)

-- `str.split(separator)`: the pieces, the first one apart.
unfoldable pub split_first : ℕ → Text → Text × List Text
split_first separator [] = ([], [])
split_first separator (c ∷ s) =
    let rest = split_first separator s in
    if c == separator then ([], rest.0 ∷ rest.1) else (c ∷ rest.0, rest.1)

abbrev pub split : ℕ → Text → List Text
split separator s = (split_first separator s).0 ∷ (split_first separator s).1

abbrev pub last_is : (ℕ → Bool) → Text → Bool
last_is p [] = false
last_is p (c ∷ []) = p c
last_is p (c ∷ d ∷ s) = last_is p (d ∷ s)

-- `value[:-1] if value.endswith(".") else value`
unfoldable pub without_last_dot : Text → Text
without_last_dot [] = []
without_last_dot (c ∷ []) = if c == b'.' then [] else c ∷ []
without_last_dot (c ∷ d ∷ s) = c ∷ without_last_dot (d ∷ s)

unfoldable pub unsafe_url_character : ℕ → Bool
unsafe_url_character c = ltb c 33 || ltb 126 c

unfoldable pub ascii_url : Text → Check
ascii_url value =
    raise_if (has 92 value || any unsafe_url_character value)
      (value_error "href contains unsafe characters")

-- `/authorized/artifacts/`
abbrev pub artifacts_path : Text
artifacts_path = codes "/authorized/artifacts/"

-- `_CANONICAL_ARTIFACT_PATH.fullmatch(value)` and its group
unfoldable pub canonical_group : Text → Option Text
canonical_group value = elim (after_prefix artifacts_path value) [
  | none ↦ none
  | some token ↦ if is_stable_token token then some token else none
]

abbrev pub starts_with_slash : Text → Bool
starts_with_slash [] = false
starts_with_slash (c ∷ s) = c == b'/'

module _ (py : UrlFunctions) where
  open py use {urlsplit, unquote, lower, is_alnum_character, is_ipv6_address}

  unfoldable pub safe_label : Text → Bool
  safe_label [] = false
  safe_label (c ∷ s) =
      leb (length (c ∷ s)) 63
      && is_alnum_character c
      && last_is is_alnum_character (c ∷ s)
      && all (λ d. is_alnum_character d || d == b'-') (c ∷ s)

  unfoldable pub safe_hostname : Text → Bool
  safe_hostname value =
      if ltb 253 (length value) || has b'%' value
      then false
      else if has b':' value
      then is_ipv6_address value
      else let hostname = without_last_dot value in
        not (is_empty hostname) && all safe_label (split b'.' hostname)

  -- `for _ in range(rounds)`, with its `else` clause
  unfoldable pub decode_path : ℕ → Text → Result Text
  decode_path zero path = err (value_error "href contains excessive path encoding")
  decode_path (suc rounds) path =
      let next = decode_path rounds (unquote path) in
      if text_eq (unquote path) path then ok path else next

  abbrev pub bad_port : Option ℕ → Bool
  bad_port none = false
  bad_port (some p) = not (between 1 65535 p)

  abbrev pub bad_hostname : Option Text → Bool
  bad_hostname none = true
  bad_hostname (some h) = is_empty h || not (safe_hostname h)

  abbrev pub is_present : Option Text → Bool
  is_present none = false
  is_present (some t) = true

  unfoldable pub bad_parts : UrlParts → Bool
  bad_parts p =
      not (text_eq (lower p.scheme) (codes "https"))
      || bad_hostname p.hostname
      || is_present p.username
      || is_present p.password
      || not (is_empty p.fragment)
      || not (starts_with_slash p.path)
      || is_empty p.query
      || bad_port p.port

  unfoldable pub unsafe_path : Text → Bool
  unsafe_path path =
      has 92 path
      || any (λ s. text_eq s (codes ".") || text_eq s (codes "..")) (split b'/' path)
      || any unsafe_url_character path

  unfoldable pub check_absolute : Option UrlParts → Check
  check_absolute none = err (value_error "href must be a valid signed HTTPS URL")
  check_absolute (some p) = do
    raise_if (bad_parts p) (value_error "absolute href must be a signed HTTPS URL")
    validate_percent_encoding true "href path" p.path
    validate_percent_encoding false "href query" p.query
    decoded_path ← decode_path 4 p.path
    raise_if (unsafe_path decoded_path) (value_error "href contains an unsafe path")

  unfoldable pub check_relative : Option Text → Text → Text → Check
  check_relative (some group) value artifact_id =
      raise_if (not (text_eq group artifact_id))
        (value_error "canonical artifact href must use artifact_id")
  check_relative none value artifact_id =
      if starts_with_slash value
      then err (value_error "relative href must use the canonical artifact endpoint")
      else check_absolute (urlsplit value)

  unfoldable pub authorized_artifact_href : Text → Text → Result Text
  authorized_artifact_href value artifact_id = do
    raise_if (is_empty value || ltb 4096 (length value))
        (value_error "href must be a bounded authorized artifact URL")
    ascii_url value
    check_relative (canonical_group value) value artifact_id
    ok value
