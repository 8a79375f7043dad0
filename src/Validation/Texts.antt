-- ===== src/Validation/Texts.antt =====
-- kestrel_sdk/_validation.py: texts that may cross a browser boundary. `str.strip` is Python's.
use kestrel_sovereign_sdk.Prelude.{
  ℕ, ◌≤◌, Bool, true, false, List, [], ◌∷◌, ◌++◌, String, Text, Result, ok, value_error, ◌>>=◌,
  ◌>>◌, raise_if, ◌≡◌, ◌≢◌, ◌↔◌, refl, arith, ltb, All, all, any, length, text_eq, text_eq_refl,
  not, ◌||◌, ◌&&◌, contains,
}
use kestrel_sovereign_sdk.Validation.Codepoints.{unsafe_browser_codepoint, printable-safe}
use kestrel_sovereign_sdk.Validation.Tokens.{
  Token, is_alnum, is_inner, Token-characters, stable_token, is_stable_token,
}

abbrev pub is_empty : Text → Bool
is_empty [] = true
is_empty (c ∷ s) = false

unfoldable pub browser_safe_string : Text → String → ℕ → Bool → Result Text
browser_safe_string value field_name max_length allow_empty = do
  raise_if ((not allow_empty && is_empty value) || ltb max_length (length value))
      (value_error field_name)
  raise_if (any unsafe_browser_codepoint value) (value_error field_name)
  ok value

-- `str.strip()`: a text that neither starts nor ends with white space is left as it is.
pub record Strip : Type 0 where
  pub is_space : ℕ → Bool
  pub strip : Text → Text
  pub strip_one : (c : ℕ) → is_space c ≡ false → strip (c ∷ []) ≡ c ∷ []
  pub strip_ends :
      (c : ℕ) (inner : Text) (d : ℕ)
      → is_space c ≡ false
      → is_space d ≡ false
      → strip (c ∷ (inner ++ d ∷ [])) ≡ c ∷ (inner ++ d ∷ [])
  pub alnum_not_space : (c : ℕ) → is_alnum c ≡ true → is_space c ≡ false

module _ (py : Strip) where
  unfoldable pub non_empty_text : Text → String → Result Text
  non_empty_text value field_name = do
    raise_if (is_empty (py.strip value) || ltb 256 (length value)) (value_error field_name)
    raise_if (not (text_eq value (py.strip value))) (value_error field_name)
    browser_safe_string value field_name 256 true

  strip-Token : (s : Text) → Token s → py.strip s ≡ s
  strip-Token s (Token.single c h) = py.strip_one c (py.alnum_not_space c h)
  strip-Token s (Token.group c inner d first inside bounded closed t e) =
      rw e (py.strip_ends c inner d (py.alnum_not_space c first) (py.alnum_not_space d closed))

inner_safe : (c : ℕ) → is_inner c ≡ true → unsafe_browser_codepoint c ≡ false
inner_safe c h = let (lo, hi) = inner_printable c h in printable-safe c lo hi
  where
    inner_printable : (c : ℕ) → is_inner c ≡ true → (32 ≤ c) × (c ≤ 126)
    inner_printable c h = unfold is_inner is_alnum in ground arith

inner_texts_safe :
    (s : Text) → All (λ x. is_inner x ≡ true) s → any unsafe_browser_codepoint s ≡ false
inner_texts_safe [] h = refl
inner_texts_safe (c ∷ s) h = rw (inner_safe c h.0) (inner_texts_safe s h.1)

-- `browser_safe_string` returns the text itself exactly when it is no longer than the bound, is not
-- empty unless that is allowed, and has no unsafe code point.
pub browser_safe_string_iff :
    (s : Text) (name : String) (limit : ℕ) (allow_empty : Bool)
    → (browser_safe_string s name limit allow_empty ≡ ok s) ↔ (
        (length s ≤ limit)
        × (any unsafe_browser_codepoint s ≡ false)
        × (allow_empty ≡ false → s ≢ []))
unfolding browser_safe_string
browser_safe_string_iff [] name limit true = ground arith
browser_safe_string_iff [] name limit false = ground arith
browser_safe_string_iff (c ∷ s) name limit true = ground arith
browser_safe_string_iff (c ∷ s) name limit false = ground arith

not_empty : (s : Text) → Token s → s ≢ []
not_empty s (Token.single c h) = λ e. cc
not_empty s (Token.group c inner d first inside bounded closed t e) = λ p. cc

not_empty-is_empty : (s : Text) → s ≢ [] → is_empty s ≡ false
not_empty-is_empty [] h = absurd (h refl)
not_empty-is_empty (c ∷ s) h = refl

-- A text of the token pattern passes the browser boundary and, with a `str.strip` as documented,
-- `non_empty_text`, unchanged: it is not empty, has no outer white space, and is at most 256 safe
-- characters.
pub Token-safe :
    (py : Strip) (s : Text) (name : String)
    → Token s
    → (browser_safe_string s name 256 false ≡ ok s) × (non_empty_text py s name ≡ ok s)
unfolding non_empty_text
Token-safe py s name t =
    let (inside, bounded) = Token-characters s t in
    let safe = inner_texts_safe s inside in
    let strict = (browser_safe_string_iff s name 256 false).1 (bounded, safe, λ _. not_empty s t) in
    let lax = (browser_safe_string_iff s name 256 true).1 (bounded, safe, λ h. cc) in
    (
      strict,
      rw
          (
            strip-Token py s t,
            text_eq_refl s,
            not_empty-is_empty s (not_empty s t),
            within (length s) bounded,
          )
          lax,
    )
  where
    within : (n : ℕ) → n ≤ 256 → ltb 256 n ≡ false
    within n h = ground arith

-- A frozenset is a list of which only membership is asked.
unfoldable pub frozen_tokens : List Text → String → Result (List Text)
frozen_tokens [] field_name = ok []
frozen_tokens (v ∷ vs) field_name = do
  t ← stable_token v field_name
  ts ← frozen_tokens vs field_name
  ok (t ∷ ts)

-- `unique_tuple`, of texts.
unfoldable pub has_duplicates : List Text → Bool
has_duplicates [] = false
has_duplicates (v ∷ vs) = contains vs v || has_duplicates vs

unfoldable pub unique_tuple : List Text → String → Result (List Text)
unfolding has_duplicates
unique_tuple values field_name = do
  raise_if (has_duplicates values) (value_error field_name)
  ok values

-- `frozen_tokens` succeeds exactly on stable tokens, and then returns what it was given.
pub frozen_tokens_iff :
    (vs : List Text) (name : String)
    → (frozen_tokens vs name ≡ ok vs) ↔ (all is_stable_token vs ≡ true)
unfolding frozen_tokens stable_token
frozen_tokens_iff [] name = (λ _. refl, λ _. refl)
frozen_tokens_iff (v ∷ vs) name = ground (arith, frozen_tokens_iff vs name)
