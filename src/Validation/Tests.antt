-- ===== src/Validation/Tests.antt =====
-- kestrel_sdk/_validation.py, on concrete texts.
use kestrel_sovereign_sdk.Prelude.{
  ℕ, Bool, true, false, ◌||◌, [], ◌∷◌, ◌++◌, Text, codes, ok, ◌≡◌, ◌↔◌, refl, arith, between,
  if◌then◌else◌,
}
use kestrel_sovereign_sdk.Validation.Tokens.{
  is_alnum, is_stable_token, stable_token, Token, stable_token_iff,
}
use kestrel_sovereign_sdk.Validation.Texts.{Strip, browser_safe_string, non_empty_text, Token-safe}

abbrev launch_token : Text
launch_token = codes "run.launch"

stable_token_iff_example :
    (stable_token launch_token "action" ≡ ok launch_token) ↔ Token launch_token
stable_token_iff_example = stable_token_iff launch_token "action"

-- White space of ASCII
unfoldable is_space : ℕ → Bool
is_space c = between 9 13 c || between 28 32 c

unfoldable lstrip : Text → Text
lstrip [] = []
lstrip (c ∷ s) = let rest = lstrip s in if is_space c then rest else c ∷ s

keep_last : ℕ → Text → Text
keep_last c [] = if is_space c then [] else c ∷ []
keep_last c (d ∷ s) = c ∷ d ∷ s

unfoldable rstrip : Text → Text
rstrip [] = []
rstrip (c ∷ s) = keep_last c (rstrip s)

unfoldable strip_ascii : Text → Text
strip_ascii s = rstrip (lstrip s)

keep_last-append : (c : ℕ) (s : Text) (d : ℕ) → keep_last c (s ++ d ∷ []) ≡ c ∷ (s ++ d ∷ [])
unfolding keep_last
keep_last-append c [] d = refl
keep_last-append c (e ∷ s) d = refl

rstrip-append : (s : Text) (d : ℕ) → is_space d ≡ false → rstrip (s ++ d ∷ []) ≡ s ++ d ∷ []
unfolding rstrip keep_last
rstrip-append [] d h = rw h
rstrip-append (c ∷ s) d h = rw (rstrip-append s d h) (keep_last-append c s d)

lstrip-cons : (c : ℕ) (s : Text) → is_space c ≡ false → lstrip (c ∷ s) ≡ c ∷ s
unfolding lstrip
lstrip-cons c s h = rw h

strip_ascii-ends :
    (c : ℕ) (inner : Text) (d : ℕ)
    → is_space c ≡ false
    → is_space d ≡ false
    → strip_ascii (c ∷ (inner ++ d ∷ [])) ≡ c ∷ (inner ++ d ∷ [])
unfolding strip_ascii
strip_ascii-ends c inner d hc hd =
    rw (lstrip-cons c (inner ++ d ∷ []) hc) (rstrip-append (c ∷ inner) d hd)

strip_ascii-one : (c : ℕ) → is_space c ≡ false → strip_ascii (c ∷ []) ≡ c ∷ []
unfolding strip_ascii
strip_ascii-one c h = rw (lstrip-cons c [] h) (rstrip-append [] c h)

is_alnum-is_space : (c : ℕ) → is_alnum c ≡ true → is_space c ≡ false
unfolding is_alnum is_space
is_alnum-is_space c h = ground arith

abbrev ascii : Strip
ascii = record {
  is_space = is_space;
  strip = strip_ascii;
  strip_one = strip_ascii-one;
  strip_ends = strip_ascii-ends;
  alnum_not_space = is_alnum-is_space;
}

Token-safe_example :
    (browser_safe_string launch_token "key" 256 false ≡ ok launch_token)
    × (non_empty_text ascii launch_token "key" ≡ ok launch_token)
Token-safe_example =
    Token-safe ascii launch_token "key"
      ((stable_token_iff launch_token "key").0 (unfold stable_token is_stable_token in refl))
