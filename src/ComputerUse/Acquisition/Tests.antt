-- ===== src/ComputerUse/Acquisition/Tests.antt =====
-- kestrel_sdk/computer_use/acquisition.py: one acquisition, from its first row to an accepted lease.
use kestrel_sovereign_sdk.Prelude.{
  ℕ, true, false, none, some, List, [], ◌∷◌, Text, codes, ok, err, resource_conflict, ◌≡◌, refl,
  text_eq, after_prefix,
}
use kestrel_sovereign_sdk.Validation.Tokens.{stable_token, is_stable_token, is_alnum}
use kestrel_sovereign_sdk.ComputerUse.Resources.{
  ResourceScope, identifier, optional_identifier, check_scope, scope_eq, option_eq,
}
use kestrel_sovereign_sdk.ComputerUse.Environments.{
  Location, Surface, ComputerCapability, EnvironmentRequest, EnvironmentQuote, EnvironmentLease,
  LeaseState, is_image_digest, image_digest, validate_lease, physical_release, check_resource_id,
  is_released, is_ready, location_eq, bounded_lifetime, validate_request, validate_quote,
  same_provider, has, is_pinned_image, image_rest, is_digest_suffix, is_image_character,
}
use kestrel_sovereign_sdk.ComputerUse.Acquisition.{
  EnvironmentAcquisitionPreparation, validate_preparation, preparation_digest, CheckpointState,
  Checkpoint, optional_digest, optional_lease, correlated_lease, correlated_facts, validate_fields,
  validate_checkpoint, retained, replaces_custody, native_fact, record_accepted, dispatched,
  prepare, prepare_with, from_original, require_original,
}
use kestrel_sovereign_sdk.ComputerUse.Acquisition.Kept.{Keeps, IsValid}
use kestrel_sovereign_sdk.ComputerUse.Acquisition.Custody.{
  Transition, Reachable, reachable-Keeps, dispatch_once, accepted_custody,
  reachable-require_original,
}
use kestrel_sovereign_sdk.ComputerUse.Acquisition.Progress.{prepare-dispatched}
use kestrel_sovereign_sdk.ComputerUse.Acquisition.Preparation.{preparation_bytes-injective}

-- a digest
abbrev a64 : Text
a64 = codes "aaaaaaaaaaaaaaaaaaaaaaaaaaaaaaaaaaaaaaaaaaaaaaaaaaaaaaaaaaaaaaaa"

a64_hex : is_image_digest a64 ≡ true
unfolding is_image_digest
a64_hex = refl

abbrev constant_digest : List ℕ → Text
constant_digest bytes = a64

constant_digest-hex : (bytes : List ℕ) → is_image_digest (constant_digest bytes) ≡ true
constant_digest-hex bytes = a64_hex

abbrev tenant : ResourceScope
tenant = record { tenant_id = codes "t1"; principal_id = codes "p1"; agent_id = none }

abbrev first_row : Checkpoint ℕ
first_row = record {
  attempt_id = codes "a1";
  request_id = codes "r1";
  request_sha256 = a64;
  quote_id = codes "q1";
  quote_sha256 = a64;
  scope = tenant;
  provider_id = codes "aws";
  location = Location.remote;
  expires_at = 9_000_000;
  sequence = 0;
  state = CheckpointState.unprepared;
  preparation_sha256 = none;
  lease = none;
}

abbrev prepared_row : Checkpoint ℕ
prepared_row = record first_row {
  sequence = 1;
  state = CheckpointState.prepared;
  preparation_sha256 = some a64;
}

abbrev dispatching_row : Checkpoint ℕ
dispatching_row = record prepared_row { sequence = 2; state = CheckpointState.dispatching }

abbrev machine : EnvironmentLease ℕ
machine = record {
  lease_id = codes "l1";
  request_id = codes "r1";
  quote_id = codes "q1";
  scope = tenant;
  provider_id = codes "aws";
  location = Location.remote;
  state = LeaseState.ready;
  expires_at = 8_000_000;
  provider_resource_id = some (codes "arn:1");
  released_at = none;
  actual_cost_usd = none;
}

abbrev accepted_row : Checkpoint ℕ
accepted_row = record dispatching_row {
  sequence = 3;
  state = CheckpointState.accepted;
  lease = some machine;
}

abbrev payload : EnvironmentAcquisitionPreparation
payload = record { create_payload = 1 ∷ []; worker_identity = 2 ∷ 3 ∷ [] }

payload_bounded : validate_preparation payload ≡ ok tt
unfolding validate_preparation
payload_bounded = refl

first_valid : validate_checkpoint first_row ≡ ok first_row
unfolding validate_checkpoint validate_fields identifier stable_token is_stable_token image_digest
    is_image_digest check_scope optional_identifier optional_digest optional_lease correlated_facts
    correlated_lease
first_valid = refl

prepares_first : prepare constant_digest payload first_row ≡ ok prepared_row
unfolding prepare prepare_with preparation_digest validate_preparation validate_checkpoint
    validate_fields identifier stable_token is_stable_token image_digest is_image_digest check_scope
    optional_identifier optional_digest optional_lease correlated_facts correlated_lease
prepares_first = refl

dispatches_prepared : dispatched prepared_row ≡ ok dispatching_row
unfolding dispatched validate_checkpoint validate_fields identifier stable_token is_stable_token
    image_digest is_image_digest check_scope optional_identifier optional_digest optional_lease
    correlated_facts correlated_lease
dispatches_prepared = refl

accepts_machine : record_accepted machine dispatching_row ≡ ok accepted_row
unfolding record_accepted native_fact retained replaces_custody validate_lease physical_release
    check_resource_id is_released is_ready location_eq scope_eq option_eq text_eq
    validate_checkpoint validate_fields identifier stable_token is_stable_token image_digest
    is_image_digest check_scope optional_identifier optional_digest optional_lease correlated_facts
    correlated_lease
accepts_machine = refl

dispatching_to_accepted : Reachable constant_digest dispatching_row accepted_row
dispatching_to_accepted =
    Reachable.after Reachable.stored (Transition.accepts machine accepts_machine)

first_to_accepted : Reachable constant_digest first_row accepted_row
first_to_accepted =
    Reachable.after
      (Reachable.after
        (Reachable.after Reachable.stored (Transition.prepares payload prepares_first))
        (Transition.dispatches dispatches_prepared))
      (Transition.accepts machine accepts_machine)

reachable-Keeps_example : Keeps first_row accepted_row × IsValid accepted_row
reachable-Keeps_example =
    reachable-Keeps constant_digest constant_digest-hex first_valid first_to_accepted

dispatch_once_example :
    dispatched accepted_row
    ≡ err (resource_conflict "original acquisition has already begun or is unprepared")
dispatch_once_example =
    dispatch_once constant_digest constant_digest-hex prepared_row dispatches_prepared
      dispatching_to_accepted

accepted_custody_example :
    (r : Text) × (machine.provider_resource_id ≡ some r)
    × (m : EnvironmentLease ℕ) × (accepted_row.lease ≡ some m)
    × (m.lease_id ≡ machine.lease_id)
    × (m.expires_at ≡ machine.expires_at)
    × (m.provider_resource_id ≡ some r)
accepted_custody_example =
    accepted_custody constant_digest constant_digest-hex machine dispatching_row accepts_machine
      Reachable.stored

preparation_bytes-injective_example : payload ≡ payload
preparation_bytes-injective_example =
    preparation_bytes-injective payload payload payload_bounded payload_bounded refl

abbrev wanted : EnvironmentRequest ℕ
wanted = record {
  request_id = codes "r1";
  scope = tenant;
  provider_id = codes "aws";
  profile_id = codes "f1";
  image = codes "img@sha256:aaaaaaaaaaaaaaaaaaaaaaaaaaaaaaaaaaaaaaaaaaaaaaaaaaaaaaaaaaaaaaaa";
  surface = Surface.browser;
  required_capabilities = ComputerCapability.screenshot ∷ [];
  location = Location.remote;
  requested_at = 0;
  expires_at = 9_000_000;
  idle_ttl_seconds = 2;
  ready_timeout_seconds = 3;
  max_hourly_cost_usd = 1;
  max_total_cost_usd = 1;
  region = none;
}

abbrev offered : EnvironmentQuote ℕ
offered = record {
  quote_id = codes "q1";
  request_id = codes "r1";
  request_sha256 = a64;
  scope = tenant;
  provider_id = codes "aws";
  location = Location.remote;
  region = none;
  expires_at = 5_000_000;
  hourly_cost_usd = 1;
  estimated_total_cost_usd = 1;
  capabilities = record {
    provider_id = codes "aws";
    location = Location.remote;
    surfaces = Surface.browser ∷ [];
    operations = ComputerCapability.screenshot ∷ [];
    profile_persistence = false;
    cpu_only = true;
  };
}

first_from_original : from_original (λ _. a64) (λ _. a64) (codes "a1") wanted offered ≡ ok first_row
unfolding from_original validate_request validate_quote same_provider bounded_lifetime has
    is_pinned_image image_rest is_digest_suffix after_prefix is_image_character is_alnum location_eq
    scope_eq option_eq text_eq validate_checkpoint validate_fields identifier stable_token
    is_stable_token image_digest is_image_digest check_scope optional_identifier optional_digest
    optional_lease correlated_facts correlated_lease
first_from_original = refl

reachable-require_original_example :
    require_original (λ _. a64) (λ _. a64) accepted_row wanted offered ≡ ok tt
reachable-require_original_example =
    reachable-require_original constant_digest constant_digest-hex (λ _. a64) (λ _. a64)
      (codes "a1") wanted offered first_from_original first_to_accepted

prepare-dispatched_example :
    (d : Checkpoint ℕ) × (e : Checkpoint ℕ) × (prepare constant_digest payload first_row ≡ ok d)
    × (d.preparation_sha256 ≡ some a64)
    × (dispatched d ≡ ok e)
    × (e.state ≡ CheckpointState.dispatching)
prepare-dispatched_example =
    prepare-dispatched constant_digest constant_digest-hex payload first_row first_valid refl
      payload_bounded
