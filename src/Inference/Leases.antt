-- ===== src/Inference/Leases.antt =====
-- kestrel_sdk/llm/inference_lease.py: leases, their life cycle and what they are checked against.
use kestrel_sovereign_sdk.Prelude.{
  ℕ, ◌+◌, ◌-◌, ◌*◌, Bool, true, false, ◌&&◌, ◌||◌, not, Option, none, some, List, Text, value_error,
  inference_lease_constraint_error, inference_lease_ownership_error, ◌>>◌, Check, raise_if, text_eq,
  ltb, leb, contains,
}
use kestrel_sovereign_sdk.Inference.Constraints.{
  Decimal, exceeds, InferencePrivacy, privacy_satisfies, InferenceLeaseRequest, InferenceLeaseQuote,
  is_nil,
}

pub data InferenceLeaseState : Type 0 where
  pending ready failed releasing released expired : InferenceLeaseState

unfoldable pub is_terminal : InferenceLeaseState → Bool
is_terminal InferenceLeaseState.failed = true
is_terminal InferenceLeaseState.released = true
is_terminal InferenceLeaseState.expired = true
is_terminal _ = false

abbrev pub is_ready_lease : InferenceLeaseState → Bool
is_ready_lease InferenceLeaseState.ready = true
is_ready_lease _ = false

abbrev pub is_failed : InferenceLeaseState → Bool
is_failed InferenceLeaseState.failed = true
is_failed _ = false

abbrev pub is_expired : InferenceLeaseState → Bool
is_expired InferenceLeaseState.expired = true
is_expired _ = false

-- The part of a route that a lease is checked against; the secrets are not looked at.
pub record InferenceRoute : Type 0 where
  pub endpoint : Text
  pub model : Text

pub record InferenceLeaseFailure : Type 0 where
  pub code : Text
  pub message : Text
  pub retryable : Bool

pub record InferenceLease : Type 0 where
  pub lease_id : Text
  pub quote_id : Text
  pub request_id : Text
  pub owner_id : Text
  pub provider_name : Text
  pub state : InferenceLeaseState
  pub model : Text
  pub runtime : Text
  pub privacy : InferencePrivacy
  pub created_at : ℕ
  pub updated_at : ℕ
  pub expires_at : ℕ
  pub region : Option Text
  pub hourly_cost_usd : Option Decimal
  pub estimated_total_cost_usd : Option Decimal
  pub route : Option InferenceRoute
  pub failure : Option InferenceLeaseFailure

abbrev pub present {ℓ} : {A : Type ℓ} → Option A → Bool
present none = false
present (some a) = true

unfoldable pub other_model : Option InferenceRoute → Text → Bool
other_model none model = false
other_model (some r) model = not (text_eq r.model model)

-- The checks across fields at the end of `InferenceLease.__post_init__`
unfoldable pub check_lifecycle : InferenceLease → Check
check_lifecycle self = do
  raise_if (ltb self.updated_at self.created_at)
      (value_error "updated_at cannot precede created_at")
  raise_if (leb self.expires_at self.created_at) (value_error "expires_at must follow created_at")
  raise_if (is_ready_lease self.state && not (present self.route))
      (value_error "a ready lease requires a route")
  raise_if (not (is_ready_lease self.state) && present self.route)
      (value_error "only a ready lease may carry a route")
  raise_if (other_model self.route self.model) (value_error "route model must match lease model")
  raise_if (is_ready_lease self.state && leb self.expires_at self.updated_at)
      (value_error "a ready lease must not already be expired")
  raise_if (is_expired self.state && ltb self.updated_at self.expires_at)
      (value_error "an expired lease must have reached its expiry")
  raise_if (is_failed self.state && not (present self.failure))
      (value_error "a failed lease requires a failure")
  raise_if (not (is_failed self.state) && present self.failure)
      (value_error "only a failed lease may carry a failure")

unfoldable pub assert_owner : InferenceLease → Text → Check
assert_owner self owner_id =
    raise_if (not (text_eq self.owner_id owner_id)) inference_lease_ownership_error

-- `region is None or (allowed and region not in allowed)`
unfoldable pub region_refused : Option Text → List Text → Bool
region_refused none allowed = true
region_refused (some r) allowed = not (is_nil allowed) && not (contains allowed r)

-- `cost is None or cost > maximum or cost > quoted`
unfoldable pub cost_refused : Option Decimal → Decimal → Decimal → Bool
cost_refused none maximum quoted = true
cost_refused (some c) maximum quoted = exceeds c maximum || exceeds c quoted

-- `InferenceLease.validate_for`
unfoldable pub validate_lease_for :
    InferenceLease → InferenceLeaseRequest → InferenceLeaseQuote → Check
validate_lease_for self request quote = do
  raise_if
      (not (text_eq self.request_id request.request_id)
        || not (text_eq self.owner_id request.owner_id))
      (inference_lease_constraint_error "lease request or owner does not match")
  raise_if (not (text_eq self.quote_id quote.quote_id))
      (inference_lease_constraint_error "lease quote_id does not match quote")
  raise_if (not (text_eq self.provider_name quote.provider_name))
      (inference_lease_constraint_error "lease provider does not match quote")
  raise_if (not (text_eq self.model request.model) || not (text_eq self.runtime request.runtime))
      (inference_lease_constraint_error "lease model or runtime does not match")
  raise_if (not (privacy_satisfies self.privacy request.privacy))
      (inference_lease_constraint_error "lease privacy is weaker than requested")
  raise_if (region_refused self.region request.allowed_regions)
      (inference_lease_constraint_error "lease region is not allowed")
  raise_if (cost_refused self.hourly_cost_usd request.max_hourly_cost_usd quote.hourly_cost_usd)
      (inference_lease_constraint_error "lease exceeds quoted or maximum hourly cost")
  raise_if
      (cost_refused self.estimated_total_cost_usd request.max_total_cost_usd
        quote.estimated_total_cost_usd)
      (inference_lease_constraint_error "lease exceeds quoted or maximum total cost")
  raise_if
      (ltb ((request.ready_deadline_seconds + request.expected_session_seconds) * 1_000_000)
        (self.expires_at - request.requested_at))
      (inference_lease_constraint_error "lease expiry exceeds request session deadline")
