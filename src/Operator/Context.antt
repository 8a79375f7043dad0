-- ===== src/Operator/Context.antt =====
-- kestrel_sdk/operator/context.py: authorization facts with a lifetime. An object is made from its
-- arguments by `operator_context`, which is `__post_init__`; instants are microseconds.
use kestrel_sovereign_sdk.Prelude.{
  ℕ, ◌+◌, ◌-◌, ◌≤◌, ◌<◌, Bool, true, ◌&&◌, ◌||◌, Option, none, some, List, Text, String, Result,
  Check, ok, value_error, operator_authorization_error, ◌>>=◌, ◌>>◌, raise_if, ◌≡◌, ◌↔◌, arith, ltb,
  leb, not, contains, text_eq, text_eq_iff, DateTime, aware, aware_datetime,
}
use kestrel_sovereign_sdk.Validation.Tokens.{is_stable_token, stable_token}
use kestrel_sovereign_sdk.Validation.Texts.{frozen_tokens}

-- one hour
abbrev pub max_operator_context_lifetime : ℕ
max_operator_context_lifetime = 3_600_000_000

pub record OperatorContextArgs : Type 0 where
  pub principal_id : Text
  pub tenant_id : Text
  pub granted_actions : List Text
  pub granted_capabilities : List Text
  pub permitted_boundary_ids : List Text
  pub correlation_id : Text
  pub issued_at : DateTime
  pub expires_at : DateTime
  pub acting_agent_id : Option Text

pub record OperatorContext : Type 0 where
  pub principal_id : Text
  pub tenant_id : Text
  pub granted_actions : List Text
  pub granted_capabilities : List Text
  pub permitted_boundary_ids : List Text
  pub correlation_id : Text
  pub issued_at : ℕ
  pub expires_at : ℕ
  pub acting_agent_id : Option Text

-- `if value is not None: stable_token(value, …)`
unfoldable pub optional_token : Option Text → String → Result (Option Text)
unfolding stable_token
optional_token none field_name = ok none
optional_token (some v) field_name = do t ← stable_token v field_name; ok (some t)

check_lifetime : ℕ → ℕ → Check
check_lifetime issued expires = do
  raise_if (leb expires issued) (value_error "expires_at must be after issued_at")
  raise_if (ltb max_operator_context_lifetime (expires - issued))
      (value_error "operator context validity must not exceed one hour")

unfoldable pub operator_context : OperatorContextArgs → Result OperatorContext
unfolding check_lifetime optional_token
operator_context a = do
  principal ← stable_token a.principal_id "principal_id"
  tenant ← stable_token a.tenant_id "tenant_id"
  correlation ← stable_token a.correlation_id "correlation_id"
  agent ← optional_token a.acting_agent_id "acting_agent_id"
  issued ← aware_datetime a.issued_at "issued_at"
  expires ← aware_datetime a.expires_at "expires_at"
  check_lifetime issued expires
  actions ← frozen_tokens a.granted_actions "granted_actions"
  capabilities ← frozen_tokens a.granted_capabilities "granted_capabilities"
  boundaries ← frozen_tokens a.permitted_boundary_ids "permitted_boundary_ids"
  ok (record {
    principal_id = principal;
    tenant_id = tenant;
    granted_actions = actions;
    granted_capabilities = capabilities;
    permitted_boundary_ids = boundaries;
    correlation_id = correlation;
    issued_at = issued;
    expires_at = expires;
    acting_agent_id = agent;
  })

-- `_contains_valid`
unfoldable pub contains_valid : List Text → Text → Bool
contains_valid values candidate = is_stable_token candidate && contains values candidate

module _ (self : OperatorContext) where
  unfoldable pub allows_action : Text → Bool
  unfolding contains_valid
  allows_action action = contains_valid self.granted_actions action

  unfoldable pub allows_capability : Text → Bool
  unfolding contains_valid
  allows_capability capability = contains_valid self.granted_capabilities capability

  unfoldable pub allows_boundary : Text → Bool
  unfolding contains_valid
  allows_boundary boundary_id = contains_valid self.permitted_boundary_ids boundary_id

  unfoldable pub matches_tenant : Text → Bool
  matches_tenant tenant_id = is_stable_token tenant_id && text_eq tenant_id self.tenant_id

  unfoldable pub require_action : Text → Check
  require_action action =
      raise_if (not (allows_action action))
        (operator_authorization_error "operator action is not granted")

  unfoldable pub require_capability : Text → Check
  require_capability capability =
      raise_if (not (allows_capability capability))
        (operator_authorization_error "operator capability is not granted")

  unfoldable pub require_boundary : Text → Check
  require_boundary boundary_id =
      raise_if (not (allows_boundary boundary_id))
        (operator_authorization_error "operator boundary is not permitted")

  unfoldable pub require_tenant : Text → Check
  require_tenant tenant_id =
      raise_if (not (matches_tenant tenant_id))
        (operator_authorization_error "operator tenant does not match")

  -- `now` is `datetime.now(UTC)`, for a call without `at`.
  unfoldable pub require_fresh : ℕ → Option DateTime → Check
  require_fresh now at = do
    instant ← (elim at [ none ↦ ok now | some t ↦ aware_datetime t "at" ])
    raise_if (ltb instant self.issued_at || leb self.expires_at instant)
        (operator_authorization_error "operator context is not fresh")

-- What every context that was made satisfies.
pub record IsValid (c : OperatorContext) : Type 0 where
  pub principal : is_stable_token c.principal_id ≡ true
  pub tenant : is_stable_token c.tenant_id ≡ true
  pub correlation : is_stable_token c.correlation_id ≡ true
  pub positive : c.issued_at < c.expires_at
  pub bounded : c.expires_at ≤ c.issued_at + max_operator_context_lifetime

-- A context that was made has stable identities and lives for more than no time and at most an hour.
pub operator_context-IsValid :
    (a : OperatorContextArgs) {c : OperatorContext} → operator_context a ≡ ok c → IsValid c
unfolding operator_context stable_token aware_datetime
operator_context-IsValid a h = ground arith

-- The values that a set grants: the stable tokens among its members.
abbrev pub Grants : List Text → Text → Type 0
Grants values candidate = (is_stable_token candidate ≡ true) × (contains values candidate ≡ true)

module _ (self : OperatorContext) where
  pub require_action_iff :
      (action : Text) → (require_action self action ≡ ok tt) ↔ Grants self.granted_actions action
  unfolding require_action allows_action
  require_action_iff action = ground arith

  pub require_capability_iff :
      (capability : Text)
      → (require_capability self capability ≡ ok tt) ↔ Grants self.granted_capabilities capability
  unfolding require_capability allows_capability
  require_capability_iff capability = ground arith

  pub require_boundary_iff :
      (boundary_id : Text)
      → (require_boundary self boundary_id ≡ ok tt) ↔ Grants self.permitted_boundary_ids boundary_id
  unfolding require_boundary allows_boundary
  require_boundary_iff boundary_id = ground arith

  pub matches_tenant_iff :
      (tenant_id : Text)
      → (matches_tenant self tenant_id ≡ true)
        ↔ ((is_stable_token tenant_id ≡ true) × (tenant_id ≡ self.tenant_id))
  unfolding matches_tenant
  matches_tenant_iff tenant_id = ground (arith, text_eq_iff tenant_id self.tenant_id)

  pub require_tenant_iff :
      (tenant_id : Text)
      → (require_tenant self tenant_id ≡ ok tt)
        ↔ ((is_stable_token tenant_id ≡ true) × (tenant_id ≡ self.tenant_id))
  unfolding require_tenant
  require_tenant_iff tenant_id = ground (arith, matches_tenant_iff tenant_id)

  pub require_fresh_iff :
      (now instant : ℕ)
      → (require_fresh self now (some (aware instant)) ≡ ok tt)
        ↔ ((self.issued_at ≤ instant) × (instant < self.expires_at))
  unfolding require_fresh aware_datetime
  require_fresh_iff now instant = ground arith

-- A context that was made is fresh for at most an hour after it was issued, and never before.
pub fresh_within_hour :
    (a : OperatorContextArgs) (c : OperatorContext) (now instant : ℕ)
    → operator_context a ≡ ok c
    → require_fresh c now (some (aware instant)) ≡ ok tt
    → (c.issued_at ≤ instant) × (instant < c.issued_at + max_operator_context_lifetime)
fresh_within_hour a c now instant made fresh =
    let v = operator_context-IsValid a made in
    let (lo, hi) = (require_fresh_iff c now instant).0 fresh in (lo, omega (arith, v.bounded))
