-- ===== src/Inference/Tests.antt =====
-- kestrel_sdk/llm/inference_lease.py, on a concrete request, quote and lease.
use kestrel_sovereign_sdk.Prelude.{
  true, none, some, [], ◌∷◌, codes, ok, ◌≡◌, ℕ, text_eq, get_elem?, ◌↔◌, ◌⊎◌, refl, contains, aware,
}
use kestrel_sovereign_sdk.Inference.Constraints.{
  Decimal, InferencePrivacy, privacy_satisfies, privacy_exposure, InferenceLeaseRequest,
  InferenceProviderCapability, satisfies, InferenceLeaseQuote, validate_quote_for,
}
use kestrel_sovereign_sdk.Inference.Quotable.{satisfies-validate_quote_for}
use kestrel_sovereign_sdk.Inference.Leases.{
  InferenceLeaseState, InferenceLease, check_lifecycle, validate_lease_for, other_model,
}
use kestrel_sovereign_sdk.Inference.Honored.{
  AcceptableQuote, validate_quote_for_iff, Honors, validate_lease_for_iff,
}

-- one dollar and a half
abbrev price : Decimal
price = record { coefficient = 150; places = 2 }

abbrev session : InferenceLeaseRequest
session = record {
  request_id = codes "r1";
  owner_id = codes "o1";
  model = codes "m";
  runtime = codes "vllm";
  max_hourly_cost_usd = price;
  max_total_cost_usd = price;
  privacy = InferencePrivacy.authenticated_endpoint;
  capabilities = [];
  allowed_regions = codes "eu" ∷ [];
  expected_concurrency = 1;
  expected_session_seconds = 900;
  idle_ttl_seconds = 300;
  ready_deadline_seconds = 900;
  requested_at = 0;
}

abbrev offer : InferenceLeaseQuote
offer = record {
  quote_id = codes "q1";
  request_id = codes "r1";
  provider_name = codes "p";
  runtime = codes "vllm";
  region = codes "eu";
  privacy = InferencePrivacy.private_network;
  hourly_cost_usd = price;
  estimated_total_cost_usd = price;
  estimated_ready_seconds = 60;
  expires_at = 1_000_000;
}

abbrev capacity : InferenceProviderCapability
capacity = record {
  runtime = codes "vllm";
  privacy = InferencePrivacy.private_network ∷ [];
  capabilities = [];
  regions = codes "eu" ∷ [];
  max_concurrency = 2;
}

abbrev failed_lease : InferenceLease
failed_lease = record {
  lease_id = codes "l1";
  quote_id = codes "q1";
  request_id = codes "r1";
  owner_id = codes "o1";
  provider_name = codes "p";
  state = InferenceLeaseState.failed;
  model = codes "m";
  runtime = codes "vllm";
  privacy = InferencePrivacy.private_network;
  created_at = 1;
  updated_at = 2;
  expires_at = 3;
  region = some (codes "eu");
  hourly_cost_usd = some price;
  estimated_total_cost_usd = some price;
  route = none;
  failure = some (record { code = codes "x"; message = codes "no capacity"; retryable = true });
}

validate_quote_for_iff_example :
    (validate_quote_for offer session (some (aware 5)) 7 ≡ ok tt) ↔ AcceptableQuote offer session 5
validate_quote_for_iff_example = validate_quote_for_iff offer session 5 7

validate_lease_for_iff_example :
    (validate_lease_for failed_lease session offer ≡ ok tt) ↔ Honors failed_lease session offer
validate_lease_for_iff_example = validate_lease_for_iff failed_lease session offer

failed_lease_checked : check_lifecycle failed_lease ≡ ok tt
unfolding check_lifecycle other_model
failed_lease_checked = refl

satisfies-capacity : satisfies capacity session ≡ true
unfolding satisfies privacy_satisfies privacy_exposure text_eq contains
satisfies-capacity = refl

satisfies-validate_quote_for_example :
    (q : InferenceLeaseQuote) × (q.quote_id ≡ codes "q9")
    × (q.provider_name ≡ codes "p")
    × (i : ℕ) × (get_elem? capacity.privacy i ≡ some q.privacy)
    × (q.runtime ≡ capacity.runtime)
    × ((session.allowed_regions ≡ []) ⊎ (contains capacity.regions q.region ≡ true))
    × (validate_quote_for q session (some (aware 5)) 7 ≡ ok tt)
satisfies-validate_quote_for_example =
    satisfies-validate_quote_for capacity session (codes "q9") (codes "p") (codes "eu") 5 7
      satisfies-capacity
