-- ===== src/ComputerUse/Acquisition.antt =====
-- kestrel_sdk/computer_use/acquisition.py: the checkpoint of one acquisition attempt. The digests of
-- requests and quotes, and SHA-256, are of libraries: parameters.
pub mod Kept
pub mod Steps
pub mod Custody
pub mod Progress
pub mod Preparation
mod Tests
use kestrel_sovereign_sdk.Prelude.{
  ℕ, ◌+◌, ◌≤◌, ◌<◌, Bool, true, false, ◌&&◌, ◌||◌, not, Option, none, some, List, [], ◌∷◌, ◌++◌,
  Text, String, codes, Result, ok, err, value_error, resource_conflict, ◌>>=◌, ◌>>◌, Check,
  raise_if, ◌≡◌, ◌↔◌, refl, arith, text_eq, text_eq_iff, if◌then◌else◌, ltb, leb, between, length,
  ◌==◌, zero, suc, ◌/◌, ◌%◌,
}
use kestrel_sovereign_sdk.ComputerUse.Resources.{
  identifier, option_eq, ResourceScope, check_scope, scope_eq,
}
use kestrel_sovereign_sdk.ComputerUse.Environments.{
  Location, location_eq, EnvironmentRequest, EnvironmentQuote, EnvironmentLease, LeaseState,
  is_released, is_some, xor_bool, image_digest, validate_lease, validate_request, validate_quote,
}

abbrev pub max_acquisition_create_bytes : ℕ
max_acquisition_create_bytes = 524288

abbrev pub max_acquisition_identity_bytes : ℕ
max_acquisition_identity_bytes = 131072

pub record EnvironmentAcquisitionPreparation : Type 0 where
  pub create_payload : List ℕ
  pub worker_identity : List ℕ

-- `bounded_bytes`
unfoldable pub validate_preparation : EnvironmentAcquisitionPreparation → Check
validate_preparation p = do
  raise_if (not (between 1 max_acquisition_create_bytes (length p.create_payload)))
      (value_error "acquisition preparation exceeds private byte bounds")
  raise_if (not (between 1 max_acquisition_identity_bytes (length p.worker_identity)))
      (value_error "acquisition preparation exceeds private byte bounds")

-- `n.to_bytes(k, "big")`, for a number that fits
unfoldable pub to_bytes : ℕ → ℕ → List ℕ
to_bytes zero n = []
to_bytes (suc k) n = to_bytes k (n / 256) ++ n % 256 ∷ []

-- The bytes that the digest hashes.
unfoldable pub preparation_bytes : EnvironmentAcquisitionPreparation → List ℕ
preparation_bytes p =
    codes "kestrel-environment-preparation-v1"
    ++ 0
      ∷ (to_bytes 8 (length p.create_payload)
          ++ (p.create_payload ++ (to_bytes 8 (length p.worker_identity) ++ p.worker_identity)))

pub data CheckpointState : Type 0 where
  unprepared prepared dispatching accepted unknown : CheckpointState

pub record Checkpoint (Usd : Type 0) : Type 0 where
  pub attempt_id : Text
  pub request_id : Text
  pub request_sha256 : Text
  pub quote_id : Text
  pub quote_sha256 : Text
  pub scope : ResourceScope
  pub provider_id : Text
  pub location : Location
  pub expires_at : ℕ
  pub sequence : ℕ
  pub state : CheckpointState
  pub preparation_sha256 : Option Text
  pub lease : Option (EnvironmentLease Usd)

abbrev pub is_unprepared : CheckpointState → Bool
is_unprepared CheckpointState.unprepared = true
is_unprepared _ = false

abbrev pub is_prepared : CheckpointState → Bool
is_prepared CheckpointState.prepared = true
is_prepared _ = false

abbrev pub is_accepted : CheckpointState → Bool
is_accepted CheckpointState.accepted = true
is_accepted _ = false

-- `state in {"unprepared", "prepared", "dispatching"}`
abbrev pub is_undispatched : CheckpointState → Bool
is_undispatched CheckpointState.accepted = false
is_undispatched CheckpointState.unknown = false
is_undispatched _ = true

-- `state in {"dispatching", "accepted", "unknown"}`
abbrev pub has_begun : CheckpointState → Bool
has_begun CheckpointState.unprepared = false
has_begun CheckpointState.prepared = false
has_begun _ = true

unfoldable pub optional_digest : Option Text → Check
optional_digest none = ok tt
optional_digest (some d) = image_digest d

module _ {Usd : Type 0} where
  abbrev pub has_resource : Option (EnvironmentLease Usd) → Bool
  has_resource none = false
  has_resource (some l) = is_some l.provider_resource_id

  -- The lease's part of `correlated_facts`, and its own validation.
  unfoldable pub correlated_lease : Checkpoint Usd → Option (EnvironmentLease Usd) → Check
  correlated_lease c none = ok tt
  correlated_lease c (some l) = do
    raise_if
        (not (
          text_eq l.request_id c.request_id
          && text_eq l.quote_id c.quote_id
          && scope_eq l.scope c.scope
          && text_eq l.provider_id c.provider_id
          && location_eq l.location c.location))
        (value_error "checkpoint lease differs from original acquisition")
    raise_if (is_released l.state)
        (value_error "physical release is recorded by the canonical lease lifecycle")
    raise_if (ltb c.expires_at l.expires_at)
        (value_error "native fact extends the original acquisition expiry")

  unfoldable pub correlated_facts : Checkpoint Usd → Check
  correlated_facts c = do
    raise_if (xor_bool (is_unprepared c.state) (not (is_some c.preparation_sha256)))
        (value_error "checkpoint preparation state does not match original digest")
    raise_if (is_undispatched c.state && is_some c.lease)
        (value_error "undispatched checkpoint cannot claim native acceptance")
    raise_if (is_accepted c.state && not (has_resource c.lease))
        (value_error "accepted checkpoint requires original native resource custody")
    correlated_lease c c.lease

  unfoldable pub optional_lease : Option (EnvironmentLease Usd) → Check
  optional_lease none = ok tt
  optional_lease (some l) = validate_lease l

  -- `EnvironmentAcquisitionCheckpoint.model_validate`
  unfoldable pub validate_fields : Checkpoint Usd → Check
  validate_fields c = do
    identifier c.attempt_id
    identifier c.request_id
    image_digest c.request_sha256
    identifier c.quote_id
    image_digest c.quote_sha256
    check_scope c.scope
    identifier c.provider_id
    optional_digest c.preparation_sha256
    optional_lease c.lease

  unfoldable pub validate_checkpoint : Checkpoint Usd → Result (Checkpoint Usd)
  validate_checkpoint c = do validate_fields c; correlated_facts c; ok c

  -- A native fact may not replace what is known of the lease: its identity, its expiry, and the
  -- resource, once there is one.
  unfoldable pub replaces_custody :
      Option (EnvironmentLease Usd) → Option (EnvironmentLease Usd) → Bool
  replaces_custody none new = false
  replaces_custody (some o) none = false
  replaces_custody (some o) (some l) =
      not (text_eq l.lease_id o.lease_id && l.expires_at == o.expires_at)
      || (is_some o.provider_resource_id
          && not (option_eq l.provider_resource_id o.provider_resource_id))

  -- `if lease is None: lease = original.lease else: lease = EnvironmentLease.model_validate(lease)`
  unfoldable pub retained :
      Option (EnvironmentLease Usd)
      → Option (EnvironmentLease Usd)
      → Result (Option (EnvironmentLease Usd))
  retained original none = ok original
  retained original (some l) = do validate_lease l; ok (some l)

  unfoldable pub native_fact :
      CheckpointState → Option (EnvironmentLease Usd) → Checkpoint Usd → Result (Checkpoint Usd)
  native_fact state lease self = do
    original ← validate_checkpoint self
    raise_if (not (has_begun original.state))
        (resource_conflict "native fact has no original dispatch custody")
    kept ← retained original.lease lease
    raise_if (replaces_custody original.lease kept)
        (resource_conflict "native fact replaces original resource custody")
    validate_checkpoint
        (record original { state = state; lease = kept; sequence = original.sequence + 1 })

  unfoldable pub record_accepted : EnvironmentLease Usd → Checkpoint Usd → Result (Checkpoint Usd)
  record_accepted lease = native_fact CheckpointState.accepted (some lease)

  unfoldable pub record_unknown :
      Option (EnvironmentLease Usd) → Checkpoint Usd → Result (Checkpoint Usd)
  record_unknown lease = native_fact CheckpointState.unknown lease

  unfoldable pub dispatched : Checkpoint Usd → Result (Checkpoint Usd)
  dispatched self = do
    original ← validate_checkpoint self
    raise_if (not (is_prepared original.state))
        (resource_conflict "original acquisition has already begun or is unprepared")
    ok (record original { state = CheckpointState.dispatching; sequence = original.sequence + 1 })

module _ (sha256 : List ℕ → Text) where
  unfoldable pub preparation_digest : EnvironmentAcquisitionPreparation → Result Text
  preparation_digest p = do validate_preparation p; ok (sha256 (preparation_bytes p))

  module _ {Usd : Type 0} where
    -- A preparation that is there must be the same one; the checkpoint is then left as it is.
    unfoldable pub prepare_with : Option Text → Text → Checkpoint Usd → Result (Checkpoint Usd)
    prepare_with (some d) digest original = do
      raise_if (not (text_eq d digest))
          (resource_conflict "acquisition preparation differs from original bytes")
      ok original
    prepare_with none digest original = ok (record original {
      state = CheckpointState.prepared;
      preparation_sha256 = some digest;
      sequence = original.sequence + 1;
    })

    unfoldable pub prepare :
        EnvironmentAcquisitionPreparation → Checkpoint Usd → Result (Checkpoint Usd)
    prepare preparation self = do
      original ← validate_checkpoint self
      digest ← preparation_digest preparation
      prepare_with original.preparation_sha256 digest original

-- The digests of a request and of a quote: JSON text, hashed.
module _ {Usd : Type 0} (request_digest : EnvironmentRequest Usd → Text)
    (quote_digest : EnvironmentQuote Usd → Text) where
  unfoldable pub from_original :
      Text → EnvironmentRequest Usd → EnvironmentQuote Usd → Result (Checkpoint Usd)
  from_original attempt_id request quote = do
    validate_request request
    validate_quote quote
    raise_if
        (not (
          text_eq quote.request_id request.request_id
          && text_eq quote.request_sha256 (request_digest request)
          && scope_eq quote.scope request.scope
          && text_eq quote.provider_id request.provider_id
          && location_eq quote.location request.location))
        (resource_conflict "acquisition quote differs from original request")
    validate_checkpoint (record {
      attempt_id = attempt_id;
      request_id = request.request_id;
      request_sha256 = request_digest request;
      quote_id = quote.quote_id;
      quote_sha256 = quote_digest quote;
      scope = request.scope;
      provider_id = request.provider_id;
      location = request.location;
      expires_at = request.expires_at;
      sequence = 0;
      state = CheckpointState.unprepared;
      preparation_sha256 = none;
      lease = none;
    })

  -- The loop over the names of the facts that never change.
  unfoldable pub same_original : Checkpoint Usd → Checkpoint Usd → Bool
  same_original a b =
      text_eq a.attempt_id b.attempt_id
      && text_eq a.request_id b.request_id
      && text_eq a.request_sha256 b.request_sha256
      && text_eq a.quote_id b.quote_id
      && text_eq a.quote_sha256 b.quote_sha256
      && scope_eq a.scope b.scope
      && text_eq a.provider_id b.provider_id
      && location_eq a.location b.location
      && a.expires_at == b.expires_at

  unfoldable pub require_original :
      Checkpoint Usd → EnvironmentRequest Usd → EnvironmentQuote Usd → Check
  require_original self request quote = do
    original ← validate_checkpoint self
    expected ← from_original original.attempt_id request quote
    raise_if (not (same_original original expected))
        (resource_conflict "checkpoint differs from original acquisition")
