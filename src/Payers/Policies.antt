-- ===== src/Payers/Policies.antt =====
-- kestrel_sdk/payer_policy.py: `PayerSpec`, `PayerPolicy` and their checks. `Usd` is the type of
-- money, Python's `Decimal`, and `negative` the test `amount < 0` of `Field(ge=0)`.
use kestrel_sovereign_sdk.Prelude.{
  Bool, true, false, ◌&&◌, not, Option, none, some, List, [], ◌∷◌, Text, codes, Check, raise_if,
  ◌>>◌, value_error, if◌then◌else◌, ok, ltb, length,
}
use kestrel_sovereign_sdk.Payers.Matrix.{
  ResourceClass, PayerKind, SupportStatus, status_for, is_ready_status,
}

pub record PayerSpec (Usd : Type 0) : Type 0 where
  pub vendor : Text
  pub kind : PayerKind
  pub master_did : Option Text
  pub monthly_cap_usd : Option Usd

-- `kind in kinds_requiring_master`
unfoldable pub requires_master : PayerKind → Bool
requires_master PayerKind.user_master_provisioned = true
requires_master PayerKind.sponsor = true
requires_master _ = false

unfoldable pub is_byok : PayerKind → Bool
is_byok PayerKind.user_byok = true
is_byok _ = false

unfoldable pub is_set {ℓ} : {A : Type ℓ} → Option A → Bool
is_set none = false
is_set (some _) = true

-- `not self.master_did`: None and the empty text are false.
unfoldable pub truthy : Option Text → Bool
truthy none = false
truthy (some did) = ltb 0 (length did)

-- `Field(default=None, ge=0)`
unfoldable pub check_cap : {Usd : Type 0} → (Usd → Bool) → Option Usd → Check
check_cap negative none = ok tt
check_cap negative (some cap) = raise_if (negative cap) (value_error "monthly_cap_usd")

unfoldable pub check_master_did : {Usd : Type 0} → PayerSpec Usd → Check
unfolding requires_master is_byok is_set truthy
check_master_did spec =
    raise_if (requires_master spec.kind && not (truthy spec.master_did))
      (value_error "requires `master_did`")
    >> raise_if (not (requires_master spec.kind) && is_set spec.master_did)
        (value_error "must NOT set `master_did`")
    >> raise_if (is_byok spec.kind && is_set spec.monthly_cap_usd)
        (value_error "must NOT set `monthly_cap_usd`")

-- The construction of a `PayerSpec`: the constraints of its fields, then its validator.
unfoldable pub check_spec : {Usd : Type 0} → (Usd → Bool) → PayerSpec Usd → Check
unfolding check_cap check_master_did
check_spec negative spec =
    raise_if (not (ltb 0 (length spec.vendor))) (value_error "vendor")
    >> check_cap negative spec.monthly_cap_usd
    >> check_master_did spec

-- `UnsupportedCombinationError` as a value: it carries what was tried and its status.
pub data Verdict : Type 0 where
  accepted : Verdict
  unsupported : ResourceClass → Text → PayerKind → SupportStatus → Verdict

infixl 5 ◌andthen◌
abbrev pub ◌andthen◌ : Verdict → Verdict → Verdict
accepted andthen next = next
unsupported r v k s andthen next = unsupported r v k s

unfoldable pub matrix_status : {Usd : Type 0} → PayerSpec Usd → ResourceClass → SupportStatus
matrix_status spec r = status_for r spec.vendor spec.kind

unfoldable pub validate_spec : {Usd : Type 0} → PayerSpec Usd → ResourceClass → Verdict
unfolding matrix_status is_ready_status
validate_spec spec r =
    if is_ready_status (status_for r spec.vendor spec.kind)
    then accepted
    else unsupported r spec.vendor spec.kind (status_for r spec.vendor spec.kind)

pub record PayerPolicy (Usd : Type 0) : Type 0 where
  pub llm : PayerSpec Usd
  pub storage : PayerSpec Usd
  pub compute : PayerSpec Usd
  pub tools : PayerSpec Usd
  pub comms : PayerSpec Usd

unfoldable pub iter_specs : {Usd : Type 0} → PayerPolicy Usd → List (ResourceClass × PayerSpec Usd)
iter_specs p =
    (ResourceClass.llm, p.llm)
    ∷ (ResourceClass.storage, p.storage)
    ∷ (ResourceClass.compute, p.compute)
    ∷ (ResourceClass.tools, p.tools)
    ∷ (ResourceClass.comms, p.comms)
    ∷ []

-- `for resource_class, spec in specs: spec.validate_against_matrix(resource_class)`
unfoldable pub validate_specs : {Usd : Type 0} → List (ResourceClass × PayerSpec Usd) → Verdict
unfolding validate_spec
validate_specs [] = accepted
validate_specs ((r, spec) ∷ rest) = validate_spec spec r andthen validate_specs rest

unfoldable pub validate_against_matrix : {Usd : Type 0} → PayerPolicy Usd → Verdict
unfolding validate_specs iter_specs
validate_against_matrix p = validate_specs (iter_specs p)

-- `PayerSpec(vendor=vendor, kind=PayerKind.HOST_ENV)`
abbrev pub host_env_spec : (Usd : Type 0) → Text → PayerSpec Usd
host_env_spec Usd vendor = record {
  vendor = vendor;
  kind = PayerKind.host_env;
  master_did = none;
  monthly_cap_usd = none;
}

abbrev pub host_env_default : (Usd : Type 0) → PayerPolicy Usd
host_env_default Usd = record {
  llm = host_env_spec Usd (codes "openrouter");
  storage = host_env_spec Usd (codes "lighthouse");
  compute = host_env_spec Usd (codes "*");
  tools = host_env_spec Usd (codes "*");
  comms = host_env_spec Usd (codes "*");
}
