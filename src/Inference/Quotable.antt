-- ===== src/Inference/Quotable.antt =====
-- kestrel_sdk/llm/inference_lease.py: what a capability promises of the quotes of its provider.
use kestrel_sovereign_sdk.Prelude.{
  ℕ, zero, suc, ◌+◌, Bool, true, some, List, [], ◌∷◌, Text, ok, ◌≡◌, ◌⊎◌, inl, inr, refl, arith,
  text_eq_refl, any, contains, get_elem?, aware, Bool-cases,
}
use kestrel_sovereign_sdk.Inference.Constraints.{
  Decimal, privacy_satisfies, InferenceLeaseRequest, InferenceProviderCapability, satisfies,
  InferenceLeaseQuote, validate_quote_for,
}
use kestrel_sovereign_sdk.Inference.Honored.{
  AllowedRegion, privacy_satisfies_iff, validate_quote_for_iff, satisfies_iff,
}

any-get_elem? :
    {A : Type 0} (p : A → Bool) (xs : List A)
    → any p xs ≡ true
    → (i : ℕ) × (x : A) × (get_elem? xs i ≡ some x) × (p x ≡ true)
any-get_elem? p [] h = cc
any-get_elem? p (x ∷ xs) h = elim (Bool-cases (p x)) [
  | inl holds ↦ (zero, x, refl, holds)
  | inr fails ↦
      let (i, y, at, holds) = any-get_elem? p xs (ground (arith, h, fails)) in (suc i, y, at, holds)
]

any-contains :
    (p : Text → Bool) (xs : List Text)
    → any p xs ≡ true
    → (x : Text) × (contains xs x ≡ true) × (p x ≡ true)
unfolding contains
any-contains p [] h = cc
any-contains p (x ∷ xs) h = elim (Bool-cases (p x)) [
  | inl holds ↦ (x, rw (text_eq_refl x), holds)
  | inr fails ↦
      let (y, member, holds) = any-contains p xs (ground (arith, h, fails)) in
      (y, ground (arith, member), holds)
]

allowed :
    (home : Text) (p : Text → Bool) (rs : List Text)
    → (rs ≡ []) ⊎ (any p rs ≡ true)
    → (g : Text) × AllowedRegion rs g × ((rs ≡ []) ⊎ (p g ≡ true))
allowed home p [] h = (home, tt, inl refl)
allowed home p (r ∷ rs) (inl e) = cc
allowed home p (r ∷ rs) (inr h) =
    let (g, member, holds) = any-contains p (r ∷ rs) h in (g, member, inr holds)

-- A capability is no empty promise: for a request that it satisfies, at any instant, and under any
-- quote ID, provider name and home region, there is a quote in its runtime, with one of its privacy modes and, unless the caller allows every region, in
-- one of its regions, that is accepted for the request.
pub satisfies-validate_quote_for :
    (c : InferenceProviderCapability) (r : InferenceLeaseRequest)
    (quote_id provider_name home : Text) (now clock : ℕ)
    → satisfies c r ≡ true
    → (q : InferenceLeaseQuote) × (q.quote_id ≡ quote_id)
      × (q.provider_name ≡ provider_name)
      × (i : ℕ) × (get_elem? c.privacy i ≡ some q.privacy)
      × (q.runtime ≡ c.runtime)
      × ((r.allowed_regions ≡ []) ⊎ (contains c.regions q.region ≡ true))
      × (validate_quote_for q r (some (aware now)) clock ≡ ok tt)
satisfies-validate_quote_for c r quote_id provider_name home now clock h =
    let (runtime, modes, _, _, regions) = (satisfies_iff c r).0 h in
    let (i, mode, at, exposed) =
      any-get_elem? (λ p. privacy_satisfies p r.privacy) c.privacy modes in
    let (g, region, provided) = allowed home (contains c.regions) r.allowed_regions regions in
    let free : Decimal = record { coefficient = 0; places = 0 } in
    let q : InferenceLeaseQuote = record {
      quote_id = quote_id;
      request_id = r.request_id;
      provider_name = provider_name;
      runtime = c.runtime;
      region = g;
      privacy = mode;
      hourly_cost_usd = free;
      estimated_total_cost_usd = free;
      estimated_ready_seconds = 0;
      expires_at = now + 1;
    } in
    (
      q,
      refl,
      refl,
      i,
      at,
      refl,
      provided,
      (validate_quote_for_iff q r now clock).1 (record {
        request_id = refl;
        runtime = runtime;
        privacy = (privacy_satisfies_iff mode r.privacy).0 exposed;
        region = region;
        hourly_cost = omega arith;
        total_cost = omega arith;
        ready_in_time = omega arith;
        unexpired = omega arith;
      }),
    )
