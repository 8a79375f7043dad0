-- ===== src/Payers/Refused.antt =====
-- kestrel_sdk/payer_policy.py: the error of a policy that the support matrix refuses.
use kestrel_sovereign_sdk.Prelude.{
  ℕ, zero, suc, ◌<◌, ◌==◌, true, false, Bool-cases, Text, ◌≡◌, ◌≢◌, ◌⊎◌, inl, inr, refl, sym, ap,
  subst, ◌∙◌, arith,
}
use kestrel_sovereign_sdk.Payers.Matrix.{
  ResourceClass, PayerKind, SupportStatus, status_for, is_ready_status, is_offerable,
}
use kestrel_sovereign_sdk.Payers.Policies.{
  PayerPolicy, Verdict, unsupported, ◌andthen◌, validate_spec, validate_specs,
  validate_against_matrix, iter_specs,
}
use kestrel_sovereign_sdk.Payers.Accepted.{spec_for}

-- The order of the classes.
unfoldable pub rank : ResourceClass → ℕ
rank ResourceClass.llm = 0
rank ResourceClass.storage = 1
rank ResourceClass.compute = 2
rank ResourceClass.tools = 3
rank ResourceClass.comms = 4

pub Offered : {Usd : Type 0} → PayerPolicy Usd → ResourceClass → Type 0
Offered p r = is_offerable r (spec_for p r).vendor (spec_for p r).kind ≡ true

-- What an error says of a policy: the first class whose spec may not be offered.
pub record FirstRefused {Usd : Type 0} (p : PayerPolicy Usd) (r : ResourceClass) (v : Text)
    (k : PayerKind) (s : SupportStatus) : Type 0 where
  pub vendor_reported : v ≡ (spec_for p r).vendor
  pub kind_reported : k ≡ (spec_for p r).kind
  pub status_reported : s ≡ status_for r v k
  pub unready : s ≢ SupportStatus.ready
  pub offered_before : (c : ResourceClass) → rank c < rank r → Offered p c

unsupported-injective :
    {r c : ResourceClass} {v w : Text} {k l : PayerKind} {s t : SupportStatus}
    → unsupported c w l t ≡ unsupported r v k s
    → (c ≡ r) × (w ≡ v) × (l ≡ k) × (t ≡ s)
unsupported-injective h = (cc, cc, cc, cc)

class_at : ℕ → ResourceClass
class_at n = elim n [
  | zero ↦ ResourceClass.llm
  | suc zero ↦ ResourceClass.storage
  | suc (suc zero) ↦ ResourceClass.compute
  | suc (suc (suc zero)) ↦ ResourceClass.tools
  | other ↦ ResourceClass.comms
]

class_at-rank : (c : ResourceClass) → class_at (rank c) ≡ c
unfolding rank class_at
class_at-rank ResourceClass.llm = refl
class_at-rank ResourceClass.storage = refl
class_at-rank ResourceClass.compute = refl
class_at-rank ResourceClass.tools = refl
class_at-rank ResourceClass.comms = refl

rank-injective : (c d : ResourceClass) → rank c ≡ rank d → c ≡ d
rank-injective c d e = sym (class_at-rank c) ∙ ap class_at e ∙ class_at-rank d

module _ {Usd : Type 0} (p : PayerPolicy Usd) where
  abbrev Before : ℕ → Type 0
  Before n = (c : ResourceClass) → rank c < n → Offered p c

  one_more : (c : ResourceClass) → Before (rank c) → Offered p c → Before (suc (rank c))
  one_more c before offered d less = elim (Bool-cases (rank d == rank c)) [
    | inl same ↦ subst (Offered p) (rank-injective c d (ground (arith, same))) offered
    | inr other ↦ before d (ground (arith, other, less))
  ]

  -- The check of one class, where those before it may be offered.
  step :
      (c : ResourceClass) (rest : Verdict) {r : ResourceClass} {v : Text} {k : PayerKind}
      {s : SupportStatus}
      → Before (rank c)
      → (validate_spec (spec_for p c) c andthen rest) ≡ unsupported r v k s
      → FirstRefused p r v k s ⊎ (Before (suc (rank c)) × (rest ≡ unsupported r v k s))
  unfolding validate_spec is_offerable Offered
  step c rest {r} {v} {k} {s} before h =
      elim (Bool-cases (is_ready_status (status_for c (spec_for p c).vendor (spec_for p c).kind))) [
        | inl ready ↦ inr (one_more c before ready, rw ready at h)
        | inr refused ↦
            let (class, vendor, kind, status) = unsupported-injective (rw refused at h) in
            inl (refused_at class vendor kind status refused)
      ]
    where
      refused_at :
          c ≡ r
          → (spec_for p c).vendor ≡ v
          → (spec_for p c).kind ≡ k
          → status_for c (spec_for p c).vendor (spec_for p c).kind ≡ s
          → is_ready_status (status_for c (spec_for p c).vendor (spec_for p c).kind) ≡ false
          → FirstRefused p r v k s
      refused_at class vendor kind status refused = record {
        vendor_reported = sym vendor ∙ ap (λ x. (spec_for p x).vendor) class;
        kind_reported = sym kind ∙ ap (λ x. (spec_for p x).kind) class;
        status_reported =
            sym status
            ∙ ap (λ x. status_for x (spec_for p c).vendor (spec_for p c).kind) class
            ∙ ap (λ x. status_for r x (spec_for p c).kind) vendor
            ∙ ap (λ x. status_for r v x) kind;
        unready = λ e. cc (sym refused ∙ ap is_ready_status (status ∙ e));
        offered_before = subst (λ x. Before (rank x)) class before;
      }

  -- The error of a policy that the matrix refuses names the first class, in the order llm, storage,
  -- compute, tools, comms, whose own spec in the policy may not be offered, with that spec's vendor
  -- and kind and with their status for the class, which is not READY; every class before it may be
  -- offered.
  pub validate_against_matrix-unsupported :
      (r : ResourceClass) (v : Text) (k : PayerKind) (s : SupportStatus)
      → validate_against_matrix p ≡ unsupported r v k s
      → FirstRefused p r v k s
  unfolding validate_against_matrix validate_specs iter_specs spec_for rank
  validate_against_matrix-unsupported r v k s h =
      elim (step ResourceClass.llm _ (λ c less. absurd (omega (arith, less))) h) [
        | inl found ↦ found
        | inr (before, h1) ↦ elim (step ResourceClass.storage _ before h1) [
          | inl found ↦ found
          | inr (before2, h2) ↦ elim (step ResourceClass.compute _ before2 h2) [
            | inl found ↦ found
            | inr (before3, h3) ↦ elim (step ResourceClass.tools _ before3 h3) [
              | inl found ↦ found
              | inr (before4, h4) ↦ elim (step ResourceClass.comms _ before4 h4) [
                | inl found ↦ found
                | inr (_, h5) ↦ cc
              ]
            ]
          ]
        ]
      ]
