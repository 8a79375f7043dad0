-- ===== src/Validation/Tokens.antt =====
-- kestrel_sdk/_validation.py: stable tokens, `^[A-Za-z0-9](?:[A-Za-z0-9._:@-]{0,254}[A-Za-z0-9])?$`.
use kestrel_sovereign_sdk.Prelude.{
  ℕ, zero, suc, ◌≤◌, Bool, true, false, ◌&&◌, ◌||◌, [], ◌∷◌, ◌++◌, String, Text, Result, ok, err,
  value_error, ◌≡◌, ◌↔◌, refl, arith, ◌==◌, between, if◌then◌else◌, All, length, length-append,
  and_true, ap,
}

unfoldable pub is_alnum : ℕ → Bool
is_alnum c = between b'A' b'Z' c || between b'a' b'z' c || between b'0' b'9' c

unfoldable pub is_inner : ℕ → Bool
unfolding is_alnum
is_inner c = is_alnum c || c == b'.' || c == b'_' || c == b':' || c == b'@' || c == b'-'

-- The optional group: at most `n` inner characters, and a last one.
token_tail : ℕ → Text → Bool
token_tail n [] = false
token_tail n (c ∷ []) = is_alnum c
token_tail zero (c ∷ d ∷ s) = false
token_tail (suc n) (c ∷ d ∷ s) = is_inner c && token_tail n (d ∷ s)

-- `_STABLE_TOKEN.fullmatch(value)`
unfoldable pub is_stable_token : Text → Bool
unfolding token_tail is_alnum is_inner
is_stable_token [] = false
is_stable_token (c ∷ []) = is_alnum c
is_stable_token (c ∷ d ∷ s) = is_alnum c && token_tail 254 (d ∷ s)

unfoldable pub stable_token : Text → String → Result Text
unfolding is_stable_token
stable_token value field_name =
    if is_stable_token value then ok value else err (value_error field_name)

-- The pattern, as a set of texts.
pub data Token : Text → Type 0 where
  single : (c : ℕ) → is_alnum c ≡ true → Token (c ∷ [])
  group :
      (c : ℕ) (inner : Text) (d : ℕ)
      → is_alnum c ≡ true
      → All (λ x. is_inner x ≡ true) inner
      → length inner ≤ 254
      → is_alnum d ≡ true
      → (s : Text) → s ≡ c ∷ (inner ++ d ∷ [])
      → Token s

record Tail (n : ℕ) (s : Text) : Type 0 where
  inner : Text
  last : ℕ
  splits : s ≡ inner ++ last ∷ []
  inside : All (λ x. is_inner x ≡ true) inner
  bounded : length inner ≤ n
  closed : is_alnum last ≡ true

token_tail-Tail : (n : ℕ) (s : Text) → token_tail n s ≡ true → Tail n s
unfolding token_tail
token_tail-Tail n [] h = cc
token_tail-Tail n (c ∷ []) h = record {
  inner = [];
  last = c;
  splits = refl;
  inside = tt;
  bounded = omega arith;
  closed = h;
}
token_tail-Tail zero (c ∷ d ∷ s) h = cc
token_tail-Tail (suc n) (c ∷ d ∷ s) h =
    let (here, there) = and_true (is_inner c) (token_tail n (d ∷ s)) h in
    let t = token_tail-Tail n (d ∷ s) there in
    record {
      inner = c ∷ t.inner;
      last = t.last;
      splits = ap (λ r. c ∷ r) t.splits;
      inside = (here, t.inside);
      bounded = omega (arith, t.bounded);
      closed = t.closed;
    }

token_tail-append :
    (n : ℕ) (inner : Text) (d : ℕ)
    → All (λ x. is_inner x ≡ true) inner
    → length inner ≤ n
    → is_alnum d ≡ true
    → token_tail n (inner ++ d ∷ []) ≡ true
unfolding token_tail
token_tail-append n [] d inside bounded closed = closed
token_tail-append zero (c ∷ s) d inside bounded closed = absurd (omega arith)
token_tail-append (suc n) (c ∷ []) d inside bounded closed = rw (inside.0) closed
token_tail-append (suc n) (c ∷ e ∷ s) d inside bounded closed =
    rw (inside.0) (token_tail-append n (e ∷ s) d inside.1 (omega arith) closed)

is_stable_token-Token : (s : Text) → is_stable_token s ≡ true → Token s
unfolding is_stable_token
is_stable_token-Token [] h = cc
is_stable_token-Token (c ∷ []) h = Token.single c h
is_stable_token-Token (c ∷ d ∷ s) h =
    let (first, rest) = and_true (is_alnum c) (token_tail 254 (d ∷ s)) h in
    let t = token_tail-Tail 254 (d ∷ s) rest in
    Token.group c t.inner t.last first t.inside t.bounded t.closed (c ∷ d ∷ s)
      (ap (λ r. c ∷ r) t.splits)

-- The first character of a text of two or more.
cons_tail :
    (c : ℕ) (t : Text)
    → is_alnum c ≡ true
    → token_tail 254 t ≡ true
    → is_stable_token (c ∷ t) ≡ true
unfolding is_stable_token token_tail
cons_tail c [] first rest = cc
cons_tail c (d ∷ t) first rest = rw first rest

pub Token-is_stable_token : (s : Text) → Token s → is_stable_token s ≡ true
unfolding is_stable_token
Token-is_stable_token s (Token.single c h) = h
Token-is_stable_token s (Token.group c inner d first inside bounded closed t e) =
    rw e (cons_tail c (inner ++ d ∷ []) first (token_tail-append 254 inner d inside bounded closed))

-- `stable_token` accepts exactly the texts of the pattern, and returns them as they are.
pub stable_token_iff : (s : Text) (name : String) → (stable_token s name ≡ ok s) ↔ Token s
unfolding stable_token
stable_token_iff s name = (
  λ h. is_stable_token-Token s (accepted (is_stable_token s) h),
  λ t. rw (Token-is_stable_token s t),
)
  where
    accepted : (b : Bool) → (if b then ok s else err (value_error name)) ≡ ok s → b ≡ true
    accepted true h = refl
    accepted false h = cc

alnum_inner : (c : ℕ) → is_alnum c ≡ true → is_inner c ≡ true
unfolding is_inner
alnum_inner c h = rw h

All-append : (P : ℕ → Type 0) (xs ys : Text) → All P xs → All P ys → All P (xs ++ ys)
All-append P [] ys h k = k
All-append P (x ∷ xs) ys h k = (h.0, All-append P xs ys h.1 k)

-- Every character of a token is one of the pattern's, and there are at most 256.
pub Token-characters : (s : Text) → Token s → All (λ x. is_inner x ≡ true) s × (length s ≤ 256)
Token-characters s (Token.single c h) = ((alnum_inner c h, tt), omega arith)
Token-characters s (Token.group c inner d first inside bounded closed t e) = rw e (
  (
    alnum_inner c first,
    All-append (λ x. is_inner x ≡ true) inner (d ∷ []) inside (alnum_inner d closed, tt),
  ),
  omega (arith, length-append inner (d ∷ [])),
)
