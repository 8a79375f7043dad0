-- ===== src/IsolatedFeature/Ingress/Slugs.antt =====
-- kestrel_sdk/isolated_feature/protocol.py: the names that the slug pattern describes.
use kestrel_sovereign_sdk.Prelude.{
  ℕ, ◌≤◌, Bool, true, false, Bool-cases, ◌&&◌, ◌||◌, List, [], ◌∷◌, ◌++◌, Text, ok, All, length,
  ◌≡◌, ◌↔◌, inl, inr, refl, arith, ltb, ◌==◌, ap, sym, ◌∙◌, subst, and_true, ==_iff,
}
use kestrel_sovereign_sdk.IsolatedFeature.Values.{string}
use kestrel_sovereign_sdk.IsolatedFeature.Ingress.{
  is_lower, is_slug_char, in_word, after_dash, is_slug, is_ascii, validate_host_ingress_name,
}

-- `-word-word…`
pub dashed : List Text → Text
dashed [] = []
dashed (w ∷ ws) = 0x2D ∷ w ++ dashed ws

-- `[a-z0-9]+`
pub IsWord : Text → Type 0
IsWord [] = ⊥
IsWord (c ∷ s) = All (λ x. is_slug_char x ≡ true) (c ∷ s)

-- `[a-z][a-z0-9]*(?:-[a-z0-9]+)*`
pub record Slug (s : Text) : Type 0 where
  pub first : ℕ
  pub rest : Text
  pub words : List Text
  pub parts : s ≡ first ∷ rest ++ dashed words
  pub first_lower : is_lower first ≡ true
  pub rest_characters : All (λ x. is_slug_char x ≡ true) rest
  pub words_nonempty : All IsWord words

-- What may follow a character of a word.
record Tail (s : Text) : Type 0 where
  rest : Text
  words : List Text
  parts : s ≡ rest ++ dashed words
  rest_characters : All (λ x. is_slug_char x ≡ true) rest
  words_nonempty : All IsWord words

or_right : (a b : Bool) → a ≡ false → (a || b) ≡ true → b ≡ true
or_right a b no_left h = ground (arith, no_left, h)

more : (c : ℕ) (s : Text) → is_slug_char c ≡ true → Tail s → Tail (c ∷ s)
more c s char t = record {
  rest = c ∷ t.rest;
  words = t.words;
  parts = ap (λ x. c ∷ x) t.parts;
  rest_characters = (char, t.rest_characters);
  words_nonempty = t.words_nonempty;
}

new_word : (c d : ℕ) (s : Text) → c ≡ 0x2D → is_slug_char d ≡ true → Tail s → Tail (c ∷ d ∷ s)
unfolding dashed IsWord
new_word c d s dash char t = record {
  rest = [];
  words = (d ∷ t.rest) ∷ t.words;
  parts = ap (λ x. x ∷ d ∷ s) dash ∙ ap (λ x. 0x2D ∷ d ∷ x) t.parts;
  rest_characters = tt;
  words_nonempty = ((char, t.rest_characters), t.words_nonempty);
}

in_word-Tail : (s : Text) → in_word s ≡ true → Tail s
unfolding in_word dashed
in_word-Tail [] h = record {
  rest = [];
  words = [];
  parts = refl;
  rest_characters = tt;
  words_nonempty = tt;
}
in_word-Tail (c ∷ []) h = more c [] (ground (arith, h)) (in_word-Tail [] refl)
in_word-Tail (c ∷ d ∷ s) h = elim (Bool-cases (is_slug_char c && in_word (d ∷ s))) [
  | inl char ↦ more c (d ∷ s) (and_true _ _ char).0 (in_word-Tail (d ∷ s) (and_true _ _ char).1)
  | inr other ↦
      let (dash, word) = and_true (c == 0x2D) (after_dash (d ∷ s)) (or_right _ _ other h) in
      let (char, tail) = and_true (is_slug_char d) (in_word s) word in
      new_word c d s ((==_iff c 0x2D).0 dash) char (in_word-Tail s tail)
]

Tail-in_word :
    (rest : Text) (words : List Text)
    → All (λ x. is_slug_char x ≡ true) rest
    → All IsWord words
    → in_word (rest ++ dashed words) ≡ true
unfolding in_word dashed IsWord is_slug_char is_lower
Tail-in_word [] [] r w = refl
Tail-in_word [] ([] ∷ words) r w = absurd w.0
Tail-in_word [] ((c ∷ s) ∷ words) r w = simp (w.0.0, Tail-in_word s words w.0.1 w.1)
Tail-in_word (c ∷ rest) words r w = simp (r.0, Tail-in_word rest words r.1 w)

-- The pattern's automaton accepts exactly the slugs.
is_slug_iff : (s : Text) → (is_slug s ≡ true) ↔ Slug s
unfolding is_slug
is_slug_iff [] = (λ h. cc, λ p. cc p.parts)
is_slug_iff (c ∷ s) = (
  λ h.
      let (lower, tail) = and_true (is_lower c) (in_word s) h in
      let t = in_word-Tail s tail in
      record {
        first = c;
        rest = t.rest;
        words = t.words;
        parts = ap (λ x. c ∷ x) t.parts;
        first_lower = lower;
        rest_characters = t.rest_characters;
        words_nonempty = t.words_nonempty;
      },
  λ p.
      subst (λ x. is_slug x ≡ true) (sym p.parts)
        (simp (p.first_lower, Tail-in_word p.rest p.words p.rest_characters p.words_nonempty)),
)

is_slug_char-ascii : (c : ℕ) → is_slug_char c ≡ true → ltb c 0x80 ≡ true
unfolding is_slug_char is_lower
is_slug_char-ascii c h = ground (arith, h)

in_word-ascii : (s : Text) → in_word s ≡ true → is_ascii s ≡ true
unfolding in_word is_ascii
in_word-ascii [] h = refl
in_word-ascii (c ∷ []) h = ground (arith, h, is_slug_char-ascii c)
in_word-ascii (c ∷ d ∷ s) h =
    ground
      (arith, h, is_slug_char-ascii c, is_slug_char-ascii d, in_word-ascii (d ∷ s), in_word-ascii s)

is_slug-ascii : (s : Text) → is_slug s ≡ true → is_ascii s ≡ true
unfolding is_slug is_ascii is_lower
is_slug-ascii [] h = refl
is_slug-ascii (c ∷ s) h = ground (arith, h, in_word-ascii s)

-- A name of a host's private call is accepted, unchanged, if and only if it is a text of words of
-- lower-case ASCII letters and digits, joined by single dashes, that begins with a letter and has
-- at most 64 characters.
pub validate_host_ingress_name_iff :
    (s : Text) → (validate_host_ingress_name (string s) ≡ ok s) ↔ (Slug s × (length s ≤ 64))
unfolding validate_host_ingress_name
validate_host_ingress_name_iff s = ground (arith, is_slug_iff s, is_slug-ascii s)
