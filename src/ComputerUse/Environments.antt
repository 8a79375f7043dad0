-- ===== src/ComputerUse/Environments.antt =====
-- kestrel_sdk/computer_use/models.py: requests, quotes and leases of environments. `Usd` is the
-- type of money, Python's `Decimal`. Instants are microseconds.
use kestrel_sovereign_sdk.Prelude.{
  ℕ, ◌*◌, ◌-◌, Bool, true, false, ◌&&◌, ◌||◌, not, Option, none, some, List, [], ◌∷◌, Text, ok,
  value_error, ◌>>◌, Check, raise_if, ◌≡◌, ◌↔◌, arith, text_eq, if◌then◌else◌, ltb, leb, between,
  max, length, ◌==◌, any, after_prefix, codes,
}
use kestrel_sovereign_sdk.Validation.Tokens.{is_alnum}
use kestrel_sovereign_sdk.ComputerUse.Resources.{
  identifier, optional_identifier, ResourceScope, check_scope,
}

pub data Location : Type 0 where
  local remote : Location

unfoldable pub location_eq : Location → Location → Bool
location_eq Location.local Location.local = true
location_eq Location.remote Location.remote = true
location_eq _ _ = false

pub location_eq_iff : (a b : Location) → (location_eq a b ≡ true) ↔ (a ≡ b)
unfolding location_eq
location_eq_iff a b = ground arith

pub data Surface : Type 0 where
  browser desktop : Surface

pub data ComputerCapability : Type 0 where
  screenshot click typing key scroll wait navigate : ComputerCapability
  accessibility dom clipboard files exec takeover : ComputerCapability

-- The position in the `Literal`, by which capabilities are compared.
unfoldable pub position : ComputerCapability → ℕ
position ComputerCapability.screenshot = 0
position ComputerCapability.click = 1
position ComputerCapability.typing = 2
position ComputerCapability.key = 3
position ComputerCapability.scroll = 4
position ComputerCapability.wait = 5
position ComputerCapability.navigate = 6
position ComputerCapability.accessibility = 7
position ComputerCapability.dom = 8
position ComputerCapability.clipboard = 9
position ComputerCapability.files = 10
position ComputerCapability.exec = 11
position ComputerCapability.takeover = 12

-- `capability in capabilities`
unfoldable pub has : List ComputerCapability → ComputerCapability → Bool
unfolding position
has cs c = any (λ d. position d == position c) cs

-- microseconds of a second
abbrev pub second : ℕ
second = 1_000_000

pub record EnvironmentCapabilities : Type 0 where
  pub provider_id : Text
  pub location : Location
  pub surfaces : List Surface
  pub operations : List ComputerCapability
  pub profile_persistence : Bool
  pub cpu_only : Bool

pub record EnvironmentRequest (Usd : Type 0) : Type 0 where
  pub request_id : Text
  pub scope : ResourceScope
  pub provider_id : Text
  pub profile_id : Text
  pub image : Text
  pub surface : Surface
  pub required_capabilities : List ComputerCapability
  pub location : Location
  pub requested_at : ℕ
  pub expires_at : ℕ
  pub idle_ttl_seconds : ℕ
  pub ready_timeout_seconds : ℕ
  pub max_hourly_cost_usd : Usd
  pub max_total_cost_usd : Usd
  pub region : Option Text

pub record EnvironmentQuote (Usd : Type 0) : Type 0 where
  pub quote_id : Text
  pub request_id : Text
  pub request_sha256 : Text
  pub scope : ResourceScope
  pub provider_id : Text
  pub location : Location
  pub region : Option Text
  pub expires_at : ℕ
  pub hourly_cost_usd : Usd
  pub estimated_total_cost_usd : Usd
  pub capabilities : EnvironmentCapabilities

pub data LeaseState : Type 0 where
  pending ready unknown failed releasing released : LeaseState

pub record EnvironmentLease (Usd : Type 0) : Type 0 where
  pub lease_id : Text
  pub request_id : Text
  pub quote_id : Text
  pub scope : ResourceScope
  pub provider_id : Text
  pub location : Location
  pub state : LeaseState
  pub expires_at : ℕ
  pub provider_resource_id : Option Text
  pub released_at : Option ℕ
  pub actual_cost_usd : Option Usd

abbrev pub is_some {ℓ} : {A : Type ℓ} → Option A → Bool
is_some none = false
is_some (some a) = true

-- `[a-f0-9]{64}`
unfoldable pub is_image_digest : Text → Bool
is_image_digest s =
    length s == 64 && not (any (λ c. not (between b'a' b'f' c || between b'0' b'9' c)) s)

unfoldable pub image_digest : Text → Check
image_digest s = raise_if (not (is_image_digest s)) (value_error "image digest")

-- `^[A-Za-z0-9][A-Za-z0-9._:/-]*@sha256:[a-f0-9]{64}$`, of at most 2048 characters; the part before
-- the first `@` has none.
unfoldable pub is_image_character : ℕ → Bool
is_image_character c = is_alnum c || c == b'.' || c == b'_' || c == b':' || c == b'/' || c == b'-'

unfoldable pub is_digest_suffix : Option Text → Bool
is_digest_suffix none = false
is_digest_suffix (some s) = is_image_digest s

unfoldable pub image_rest : Text → Bool
image_rest [] = false
image_rest (c ∷ s) =
    if c == b'@'
    then is_digest_suffix (after_prefix (codes "sha256:") s)
    else is_image_character c && image_rest s

unfoldable pub is_pinned_image : Text → Bool
is_pinned_image [] = false
is_pinned_image (c ∷ s) = is_alnum c && image_rest s && leb (length (c ∷ s)) 2048

unfoldable pub is_released : LeaseState → Bool
is_released LeaseState.released = true
is_released _ = false

unfoldable pub is_ready : LeaseState → Bool
is_ready LeaseState.ready = true
is_ready _ = false

abbrev pub xor_bool : Bool → Bool → Bool
xor_bool true b = not b
xor_bool false b = b

-- `Field(min_length=1, max_length=2048)`
unfoldable pub check_resource_id : Option Text → Check
check_resource_id none = ok tt
check_resource_id (some t) = raise_if (not (between 1 2048 (length t))) (value_error "resource id")

module _ {Usd : Type 0} where
  -- The validator `bounded_lifetime`, which runs behind the fields' own checks.
  unfoldable pub bounded_lifetime : EnvironmentRequest Usd → Check
  bounded_lifetime r = do
    raise_if (leb r.expires_at r.requested_at)
        (value_error "environment expiry must follow requested_at")
    raise_if
        (ltb (r.expires_at - r.requested_at)
          (max r.idle_ttl_seconds r.ready_timeout_seconds * second))
        (value_error "idle/readiness timeout exceeds environment lifetime")
    raise_if (not (has r.required_capabilities ComputerCapability.screenshot))
        (value_error "visual computer use requires screenshot capability")

  -- `EnvironmentRequest.model_validate`
  unfoldable pub validate_request : EnvironmentRequest Usd → Check
  validate_request r = do
    identifier r.request_id
    check_scope r.scope
    identifier r.provider_id
    identifier r.profile_id
    raise_if (not (is_pinned_image r.image)) (value_error "image")
    raise_if (r.idle_ttl_seconds == 0) (value_error "idle_ttl_seconds")
    raise_if (r.ready_timeout_seconds == 0) (value_error "ready_timeout_seconds")
    optional_identifier r.region
    bounded_lifetime r

  -- `EnvironmentQuote.same_provider`
  unfoldable pub same_provider : EnvironmentQuote Usd → Check
  same_provider q =
      raise_if
        (not (
          text_eq q.provider_id q.capabilities.provider_id
          && location_eq q.location q.capabilities.location))
        (value_error "quote and capabilities identify different providers")

  -- `EnvironmentLease.physical_release`
  unfoldable pub physical_release : EnvironmentLease Usd → Check
  physical_release l = do
    raise_if (xor_bool (is_released l.state) (is_some l.released_at))
        (value_error "released requires confirmed physical release time")
    raise_if (is_ready l.state && not (is_some l.provider_resource_id))
        (value_error "ready requires an owned provider resource")

  -- `EnvironmentLease.model_validate`: the fields, then the validator.
  unfoldable pub validate_lease : EnvironmentLease Usd → Check
  validate_lease l = do
    identifier l.lease_id
    identifier l.request_id
    identifier l.quote_id
    check_scope l.scope
    identifier l.provider_id
    check_resource_id l.provider_resource_id
    physical_release l

  unfoldable pub validate_quote : EnvironmentQuote Usd → Check
  validate_quote q = do
    identifier q.quote_id
    identifier q.request_id
    image_digest q.request_sha256
    check_scope q.scope
    identifier q.provider_id
    optional_identifier q.region
    identifier q.capabilities.provider_id
    same_provider q
