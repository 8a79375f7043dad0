-- ===== src/Inference/Honored.antt =====
-- kestrel_sdk/llm/inference_lease.py: what an accepted quote or lease honours.
use kestrel_sovereign_sdk.Prelude.{
  ℕ, ◌+◌, ◌*◌, ◌^◌, ◌≤◌, ◌<◌, true, false, ◌&&◌, not, Option, none, some, List, [], ◌∷◌, Text, ok,
  ◌≡◌, ◌↔◌, ◌⊎◌, arith, text_eq_iff, contains, all, any, aware, aware_datetime,
}
use kestrel_sovereign_sdk.Inference.Constraints.{
  Decimal, exceeds, InferencePrivacy, privacy_exposure, privacy_satisfies, InferenceLeaseRequest,
  InferenceProviderCapability, satisfies, InferenceLeaseQuote, is_nil, current_time,
  validate_quote_for,
}
use kestrel_sovereign_sdk.Inference.Leases.{
  InferenceRoute, InferenceLease, present, is_terminal, is_ready_lease, is_failed, is_expired,
  other_model, check_lifecycle, region_refused, cost_refused, validate_lease_for,
}

-- At most as much money.
abbrev pub AtMost : Decimal → Decimal → Type 0
AtMost a b = a.coefficient * 10 ^ b.places ≤ b.coefficient * 10 ^ a.places

-- At most as exposed.
abbrev pub NoMoreExposed : InferencePrivacy → InferencePrivacy → Type 0
NoMoreExposed p q = privacy_exposure p ≤ privacy_exposure q

-- A region that the caller allows; a caller who names none allows all.
abbrev pub AllowedRegion : List Text → Text → Type 0
AllowedRegion [] r = Unit
AllowedRegion (a ∷ rs) r = contains (a ∷ rs) r ≡ true

exceeds_iff : (a b : Decimal) → (exceeds a b ≡ false) ↔ AtMost a b
unfolding exceeds
exceeds_iff a b = ground arith

pub privacy_satisfies_iff :
    (p q : InferencePrivacy) → (privacy_satisfies p q ≡ true) ↔ NoMoreExposed p q
unfolding privacy_satisfies
privacy_satisfies_iff p q = ground arith

AllowedRegion-iff :
    (rs : List Text) (r : Text)
    → ((not (is_nil rs) && not (contains rs r)) ≡ false) ↔ AllowedRegion rs r
AllowedRegion-iff [] r = ground arith
AllowedRegion-iff (a ∷ rs) r = ground arith

pub record AcceptableQuote (q : InferenceLeaseQuote) (r : InferenceLeaseRequest) (now : ℕ)
    : Type 0 where
  pub request_id : q.request_id ≡ r.request_id
  pub runtime : q.runtime ≡ r.runtime
  pub privacy : NoMoreExposed q.privacy r.privacy
  pub region : AllowedRegion r.allowed_regions q.region
  pub hourly_cost : AtMost q.hourly_cost_usd r.max_hourly_cost_usd
  pub total_cost : AtMost q.estimated_total_cost_usd r.max_total_cost_usd
  pub ready_in_time : q.estimated_ready_seconds ≤ r.ready_deadline_seconds
  pub unexpired : now < q.expires_at

-- At an instant, a quote is accepted for a request exactly when it is the request's, of its runtime,
-- no more exposed than it permits, in a region that it allows, within both costs and the readiness
-- deadline, and not expired.
pub validate_quote_for_iff :
    (q : InferenceLeaseQuote) (r : InferenceLeaseRequest) (now clock : ℕ)
    → (validate_quote_for q r (some (aware now)) clock ≡ ok tt) ↔ AcceptableQuote q r now
unfolding validate_quote_for current_time aware_datetime
validate_quote_for_iff q r now clock = ground (
  arith,
  text_eq_iff q.request_id r.request_id,
  text_eq_iff q.runtime r.runtime,
  privacy_satisfies_iff q.privacy r.privacy,
  AllowedRegion-iff r.allowed_regions q.region,
  exceeds_iff q.hourly_cost_usd r.max_hourly_cost_usd,
  exceeds_iff q.estimated_total_cost_usd r.max_total_cost_usd,
)

-- A region that is known and allowed.
abbrev pub InAllowedRegion : Option Text → List Text → Type 0
InAllowedRegion none rs = ⊥
InAllowedRegion (some r) rs = AllowedRegion rs r

-- A cost that is known and within two bounds.
abbrev pub WithinCosts : Option Decimal → Decimal → Decimal → Type 0
WithinCosts none a b = ⊥
WithinCosts (some c) a b = AtMost c a × AtMost c b

region_refused_iff :
    (o : Option Text) (rs : List Text) → (region_refused o rs ≡ false) ↔ InAllowedRegion o rs
unfolding region_refused
region_refused_iff none rs = ground arith
region_refused_iff (some r) rs = AllowedRegion-iff rs r

cost_refused_iff :
    (o : Option Decimal) (a b : Decimal) → (cost_refused o a b ≡ false) ↔ WithinCosts o a b
unfolding cost_refused
cost_refused_iff none a b = ground arith
cost_refused_iff (some c) a b = ground (arith, exceeds_iff c a, exceeds_iff c b)

pub record Honors (l : InferenceLease) (r : InferenceLeaseRequest) (q : InferenceLeaseQuote)
    : Type 0 where
  pub request_id : l.request_id ≡ r.request_id
  pub owner_id : l.owner_id ≡ r.owner_id
  pub quote_id : l.quote_id ≡ q.quote_id
  pub provider_name : l.provider_name ≡ q.provider_name
  pub model : l.model ≡ r.model
  pub runtime : l.runtime ≡ r.runtime
  pub privacy : NoMoreExposed l.privacy r.privacy
  pub region : InAllowedRegion l.region r.allowed_regions
  pub hourly_cost : WithinCosts l.hourly_cost_usd r.max_hourly_cost_usd q.hourly_cost_usd
  pub total_cost :
      WithinCosts l.estimated_total_cost_usd r.max_total_cost_usd q.estimated_total_cost_usd
  pub deadline :
      l.expires_at
      ≤ r.requested_at + (r.ready_deadline_seconds + r.expected_session_seconds) * 1_000_000

-- A lease is accepted for a request and a quote exactly when it is the request's and its owner's,
-- with the quote's ID and provider, of the model and the runtime, no more exposed than permitted, in
-- a known region that is allowed, with known costs within the caller's and the quote's, and with an
-- expiry no later than the request's deadlines after its instant.
pub validate_lease_for_iff :
    (l : InferenceLease) (r : InferenceLeaseRequest) (q : InferenceLeaseQuote)
    → (validate_lease_for l r q ≡ ok tt) ↔ Honors l r q
unfolding validate_lease_for
validate_lease_for_iff l r q = ground (
  arith,
  text_eq_iff l.request_id r.request_id,
  text_eq_iff l.owner_id r.owner_id,
  text_eq_iff l.quote_id q.quote_id,
  text_eq_iff l.provider_name q.provider_name,
  text_eq_iff l.model r.model,
  text_eq_iff l.runtime r.runtime,
  privacy_satisfies_iff l.privacy r.privacy,
  region_refused_iff l.region r.allowed_regions,
  cost_refused_iff l.hourly_cost_usd r.max_hourly_cost_usd q.hourly_cost_usd,
  cost_refused_iff l.estimated_total_cost_usd r.max_total_cost_usd q.estimated_total_cost_usd,
)

-- A route of the lease's model, if there is one.
abbrev pub RoutesTo : Option InferenceRoute → Text → Type 0
RoutesTo none m = Unit
RoutesTo (some r) m = r.model ≡ m

other_model_iff : (o : Option InferenceRoute) (m : Text) → (other_model o m ≡ false) ↔ RoutesTo o m
unfolding other_model
other_model_iff none m = ground arith
other_model_iff (some r) m = ground (arith, text_eq_iff r.model m)

pub record Lifecycle (l : InferenceLease) : Type 0 where
  pub updated : l.created_at ≤ l.updated_at
  pub lasts : l.created_at < l.expires_at
  pub routed : present l.route ≡ is_ready_lease l.state
  pub model : RoutesTo l.route l.model
  pub failed : present l.failure ≡ is_failed l.state
  pub usable : is_ready_lease l.state ≡ true → l.updated_at < l.expires_at
  pub ended : is_expired l.state ≡ true → l.expires_at ≤ l.updated_at

-- The checks across the fields of a lease pass exactly when it was updated no earlier than it was
-- created and expires later, has a route exactly in the ready state, to its model, has a failure
-- exactly in the failed state, and is past its expiry if expired and before it if ready.
pub check_lifecycle_iff : (l : InferenceLease) → (check_lifecycle l ≡ ok tt) ↔ Lifecycle l
unfolding check_lifecycle
check_lifecycle_iff l = ground (arith, other_model_iff l.route l.model)

-- A lease that passes the checks and in whose state no more work may make it ready has no route.
pub is_terminal-no_route :
    (l : InferenceLease) → check_lifecycle l ≡ ok tt → is_terminal l.state ≡ true → l.route ≡ none
unfolding is_terminal
is_terminal-no_route l h t =
    let life = (check_lifecycle_iff l).0 h in ground (arith, life.routed, t)

-- A capability suits a request exactly when it has the request's runtime, some privacy mode no more
-- exposed than permitted, enough concurrency, every capability that is asked for, and one of the
-- allowed regions unless none is named.
pub satisfies_iff :
    (c : InferenceProviderCapability) (r : InferenceLeaseRequest)
    → (satisfies c r ≡ true) ↔ (
        (c.runtime ≡ r.runtime)
        × (any (λ p. privacy_satisfies p r.privacy) c.privacy ≡ true)
        × (r.expected_concurrency ≤ c.max_concurrency)
        × (all (contains c.capabilities) r.capabilities ≡ true)
        × ((r.allowed_regions ≡ []) ⊎ (any (contains c.regions) r.allowed_regions ≡ true)))
unfolding satisfies
satisfies_iff c r = ground (arith, text_eq_iff c.runtime r.runtime)
