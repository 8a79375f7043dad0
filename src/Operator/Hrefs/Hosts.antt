-- ===== src/Operator/Hrefs/Hosts.antt =====
-- kestrel_sdk/operator/runs.py, `_safe_hostname`: what an accepted host is.
use kestrel_sovereign_sdk.Prelude.{
  ℕ, ◌≤◌, Bool, true, false, ◌&&◌, ◌||◌, not, List, [], ◌∷◌, ◌++◌, Text, ◌≡◌, ◌≢◌, ◌⊎◌, inl, inr,
  refl, sym, arith, ltb, leb, ◌==◌, all, any, All, length, Bool-cases, ap, ◌∙◌,
}
use kestrel_sovereign_sdk.Validation.Texts.{is_empty}
use kestrel_sovereign_sdk.Operator.Hrefs.{
  UrlFunctions, has, split, split_first, last_is, without_last_dot, safe_label, safe_hostname,
}

pub All-of_all :
    {A : Type 0} (p : A → Bool) (P : A → Type 0) (xs : List A)
    → ((x : A) → p x ≡ true → P x)
    → all p xs ≡ true
    → All P xs
All-of_all p P [] rule h = tt
All-of_all p P (x ∷ xs) rule h =
    (rule x (ground (arith, h)), All-of_all p P xs rule (ground (arith, h)))

pub All-of_any :
    {A : Type 0} (p : A → Bool) (P : A → Type 0) (xs : List A)
    → ((x : A) → p x ≡ false → P x)
    → any p xs ≡ false
    → All P xs
All-of_any p P [] rule h = tt
All-of_any p P (x ∷ xs) rule h =
    (rule x (ground (arith, h)), All-of_any p P xs rule (ground (arith, h)))

pub joined : ℕ → Text → List Text → Text
joined separator first [] = first
joined separator first (piece ∷ rest) = first ++ separator ∷ joined separator piece rest

joined-cons :
    (separator c : ℕ) (first : Text) (rest : List Text)
    → joined separator (c ∷ first) rest ≡ c ∷ joined separator first rest
unfolding joined
joined-cons separator c first [] = refl
joined-cons separator c first (piece ∷ rest) = refl

-- The pieces of a split, joined, are the text.
joined-split :
    (separator : ℕ) (s : Text)
    → joined separator (split_first separator s).0 (split_first separator s).1 ≡ s
unfolding joined split_first
joined-split separator [] = refl
joined-split separator (c ∷ s) = elim (Bool-cases (c == separator)) [
  | inl is ↦
      rw is
        (ap (λ x. separator ∷ x) (joined-split separator s) ∙ ap (λ x. x ∷ s) (ground (arith, is)))
  | inr other ↦ rw other (joined-cons separator c _ _ ∙ ap (λ x. c ∷ x) (joined-split separator s))
]

without_dot : (h : Text) → (without_last_dot h ≡ h) ⊎ (h ≡ without_last_dot h ++ b'.' ∷ [])
unfolding without_last_dot
without_dot [] = inl refl
without_dot (c ∷ []) = elim (Bool-cases (c == b'.')) [
  | inl is ↦ inr (rw is (ap (λ x. x ∷ []) (ground (arith, is))))
  | inr other ↦ inl (rw other refl)
]
without_dot (c ∷ d ∷ s) = elim (without_dot (d ∷ s)) [
  | inl same ↦ inl (ap (λ x. c ∷ x) same)
  | inr cut ↦ inr (ap (λ x. c ∷ x) cut)
]

last_of :
    (p : ℕ → Bool) (s : Text)
    → last_is p s ≡ true
    → (before : Text) × (c : ℕ) × (s ≡ before ++ c ∷ []) × (p c ≡ true)
last_of p [] h = cc
last_of p (c ∷ []) h = ([], c, refl, h)
last_of p (c ∷ d ∷ s) h =
    let (before, last, e, holds) = last_of p (d ∷ s) h in
    (c ∷ before, last, ap (λ x. c ∷ x) e, holds)

module _ (py : UrlFunctions) where
  open py use {urlsplit, unquote, lower, is_alnum_character, is_ipv6_address}

  -- At most 63 letters, digits and hyphens, with a letter or digit at either end.
  pub record IsLabel (label : Text) : Type 0 where
    pub bounded : length label ≤ 63
    pub first : (c : ℕ) × (rest : Text) × (label ≡ c ∷ rest) × (is_alnum_character c ≡ true)
    pub last :
        (before : Text) × (c : ℕ) × (label ≡ before ++ c ∷ []) × (is_alnum_character c ≡ true)
    pub characters : All (λ c. (is_alnum_character c ≡ true) ⊎ (c ≡ b'-')) label

  -- Labels with dots between them, and perhaps one at the end.
  pub record IsName (h : Text) : Type 0 where
    pub label : Text
    pub labels : List Text
    pub written : (joined b'.' label labels ≡ h) ⊎ (h ≡ joined b'.' label labels ++ b'.' ∷ [])
    pub valid : All IsLabel (label ∷ labels)

  pub record IsHost (h : Text) : Type 0 where
    pub bounded : length h ≤ 253
    pub unescaped : All (λ c. c ≢ b'%') h
    pub address_or_name : (is_ipv6_address h ≡ true) ⊎ (All (λ c. c ≢ b':') h × IsName h)

  safe_label-IsLabel : (label : Text) → safe_label py label ≡ true → IsLabel label
  unfolding safe_label
  safe_label-IsLabel [] h = cc
  safe_label-IsLabel (c ∷ s) h = record {
    bounded = ground (arith, h);
    first = (c, s, refl, ground (arith, h));
    last = last_of is_alnum_character (c ∷ s) (ground (arith, h));
    characters =
        All-of_all _ _ (c ∷ s) (λ d k. allowed d k)
          (all_of (all (λ d. is_alnum_character d || d == b'-') (c ∷ s)) h);
  }
    where
      allowed :
          (d : ℕ)
          → (is_alnum_character d || d == b'-') ≡ true
          → (is_alnum_character d ≡ true) ⊎ (d ≡ b'-')
      allowed d k = ground (arith, k)

      all_of :
          (b : Bool)
          → (leb (length (c ∷ s)) 63
              && is_alnum_character c
              && last_is is_alnum_character (c ∷ s)
              && b)
            ≡ true
          → b ≡ true
      all_of b k = ground (arith, k)

  labels-IsName :
      (h : Text) → all (safe_label py) (split b'.' (without_last_dot h)) ≡ true → IsName h
  labels-IsName h safe = record {
    label = (split_first b'.' (without_last_dot h)).0;
    labels = (split_first b'.' (without_last_dot h)).1;
    written = elim (without_dot h) [
      | inl same ↦ inl (joined-split b'.' (without_last_dot h) ∙ same)
      | inr cut ↦
          inr (cut ∙ ap (λ x. x ++ b'.' ∷ []) (sym (joined-split b'.' (without_last_dot h))))
    ];
    valid = All-of_all _ _ (split b'.' (without_last_dot h)) safe_label-IsLabel safe;
  }

  pub without : (c : ℕ) (s : Text) → has c s ≡ false → All (λ d. d ≢ c) s
  without c s = All-of_any (λ d. d == c) (λ d. d ≢ c) s (λ d k. ground (arith, k))

  pub safe_hostname-IsHost : (h : Text) → safe_hostname py h ≡ true → IsHost h
  unfolding safe_hostname
  safe_hostname-IsHost h safe = elim (Bool-cases (ltb 253 (length h) || has b'%' h)) [
    | inl bad ↦ cc (rw bad at safe)
    | inr good ↦ record {
      bounded = ground (arith, good);
      unescaped = without b'%' h (ground (arith, good));
      address_or_name = elim (Bool-cases (has b':' h)) [
        | inl colon ↦ inl (rw (good, colon) at safe)
        | inr no_colon ↦
            let name = (rw (good, no_colon) at safe) in
            inr (
              without b':' h no_colon,
              labels-IsName h (second (not (is_empty (without_last_dot h))) _ name),
            )
      ];
    }
  ]
    where
      second : (a b : Bool) → (a && b) ≡ true → b ≡ true
      second a b k = ground (arith, k)
