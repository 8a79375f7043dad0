-- ===== src/Inference/Constraints.antt =====
-- kestrel_sdk/llm/inference_lease.py: requests, capabilities and quotes. The records hold the values
-- as `__post_init__` leaves them. Instants are microseconds of UTC.
use kestrel_sovereign_sdk.Prelude.{
  ℕ, ◌*◌, ◌^◌, Bool, true, false, ◌&&◌, ◌||◌, not, Option, none, some, List, [], ◌∷◌, Text, Result,
  ok, inference_lease_constraint_error, ◌>>=◌, ◌>>◌, Check, raise_if, text_eq, if◌then◌else◌, ltb,
  leb, all, any, contains, DateTime, aware_datetime,
}

-- A Decimal that `_money` accepts, finite and not negative: coefficient / 10 ^ places. Decimals
-- compare by value, so a positive exponent is part of the coefficient.
pub record Decimal : Type 0 where
  pub coefficient : ℕ
  pub places : ℕ

-- `a > b`
unfoldable pub exceeds : Decimal → Decimal → Bool
exceeds a b = ltb (b.coefficient * 10 ^ a.places) (a.coefficient * 10 ^ b.places)

pub data InferencePrivacy : Type 0 where
  private_network authenticated_endpoint public_endpoint : InferencePrivacy

-- `_PRIVACY_EXPOSURE`
unfoldable pub privacy_exposure : InferencePrivacy → ℕ
privacy_exposure InferencePrivacy.private_network = 0
privacy_exposure InferencePrivacy.authenticated_endpoint = 1
privacy_exposure InferencePrivacy.public_endpoint = 2

unfoldable pub privacy_satisfies : InferencePrivacy → InferencePrivacy → Bool
privacy_satisfies delivered permitted =
    leb (privacy_exposure delivered) (privacy_exposure permitted)

pub record InferenceLeaseRequest : Type 0 where
  pub request_id : Text
  pub owner_id : Text
  pub model : Text
  pub runtime : Text
  pub max_hourly_cost_usd : Decimal
  pub max_total_cost_usd : Decimal
  pub privacy : InferencePrivacy
  pub capabilities : List Text
  pub allowed_regions : List Text
  pub expected_concurrency : ℕ
  pub expected_session_seconds : ℕ
  pub idle_ttl_seconds : ℕ
  pub ready_deadline_seconds : ℕ
  pub requested_at : ℕ

pub record InferenceProviderCapability : Type 0 where
  pub runtime : Text
  pub privacy : List InferencePrivacy
  pub capabilities : List Text
  pub regions : List Text
  pub max_concurrency : ℕ

abbrev pub is_nil : List Text → Bool
is_nil [] = true
is_nil (x ∷ xs) = false

unfoldable pub satisfies : InferenceProviderCapability → InferenceLeaseRequest → Bool
satisfies self request =
    if not (text_eq self.runtime request.runtime)
      || not (any (λ p. privacy_satisfies p request.privacy) self.privacy)
    then false
    else if ltb self.max_concurrency request.expected_concurrency
    then false
    else if not (all (contains self.capabilities) request.capabilities)
    then false
    else if is_nil request.allowed_regions
    then true
    else any (contains self.regions) request.allowed_regions

pub record InferenceLeaseQuote : Type 0 where
  pub quote_id : Text
  pub request_id : Text
  pub provider_name : Text
  pub runtime : Text
  pub region : Text
  pub privacy : InferencePrivacy
  pub hourly_cost_usd : Decimal
  pub estimated_total_cost_usd : Decimal
  pub estimated_ready_seconds : ℕ
  pub expires_at : ℕ

-- `_validate_aware_timestamp("now", now or _utc_now())`
unfoldable pub current_time : Option DateTime → ℕ → Result ℕ
current_time none clock = ok clock
current_time (some at) clock = aware_datetime at "now"

-- `InferenceLeaseQuote.validate_for`, with the clock for a `now` that is not given
unfoldable pub validate_quote_for :
    InferenceLeaseQuote → InferenceLeaseRequest → Option DateTime → ℕ → Check
validate_quote_for self request now clock = do
  current ← current_time now clock
  raise_if (not (text_eq self.request_id request.request_id))
      (inference_lease_constraint_error "quote request_id does not match request")
  raise_if (not (text_eq self.runtime request.runtime))
      (inference_lease_constraint_error "quote runtime does not match request")
  raise_if (not (privacy_satisfies self.privacy request.privacy))
      (inference_lease_constraint_error "quote privacy is weaker than requested")
  raise_if
      (not (is_nil request.allowed_regions) && not (contains request.allowed_regions self.region))
      (inference_lease_constraint_error "quote region is not allowed")
  raise_if (exceeds self.hourly_cost_usd request.max_hourly_cost_usd)
      (inference_lease_constraint_error "quote exceeds maximum hourly cost")
  raise_if (exceeds self.estimated_total_cost_usd request.max_total_cost_usd)
      (inference_lease_constraint_error "quote exceeds maximum total cost")
  raise_if (ltb request.ready_deadline_seconds self.estimated_ready_seconds)
      (inference_lease_constraint_error "quote exceeds readiness deadline")
  raise_if (leb self.expires_at current) (inference_lease_constraint_error "quote is expired")
