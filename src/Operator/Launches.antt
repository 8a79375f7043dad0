-- ===== src/Operator/Launches.antt =====
-- kestrel_sdk/operator/runs.py and targets.py: the request that creates a durable run, and who may
-- make it.
use kestrel_sovereign_sdk.Prelude.{
  ℕ, ◌≤◌, ◌<◌, true, Option, none, some, Text, codes, Result, Check, ok, err, value_error,
  operator_authorization_error, ◌>>◌, raise_if, ◌≡◌, ◌↔◌, refl, arith, not, contains, text_eq,
  text_eq_iff, DateTime, aware,
}
use kestrel_sovereign_sdk.Validation.Tokens.{is_stable_token, stable_token}
use kestrel_sovereign_sdk.Operator.Context.{
  OperatorContext, require_action, require_capability, require_boundary, require_tenant,
  require_fresh, Grants, require_action_iff, require_capability_iff, require_boundary_iff,
  require_tenant_iff, require_fresh_iff,
}

abbrev pub run_launch_action : Text
run_launch_action = codes "run.launch"

pub data RunSource : Type 0 where
  manual agent : RunSource

pub record ExecutionTargetReference : Type 0 where
  pub target_id : Text
  pub boundary_id : Text
  pub capability : Text

-- The constructor is `execution_target_reference`: the object with the given fields, if it is valid.
unfoldable pub execution_target_reference :
    ExecutionTargetReference → Result ExecutionTargetReference
execution_target_reference self = do
  stable_token self.target_id "target_id"
  stable_token self.boundary_id "boundary_id"
  stable_token self.capability "capability"
  ok self

pub record RunLaunch : Type 0 where
  pub run_id : Text
  pub kind : Text
  pub source : RunSource
  pub initiated_by : Text
  pub tenant_id : Text
  pub target : ExecutionTargetReference
  pub idempotency_key : Text
  pub orchestrator : Option Text

-- A manual run has no orchestrator, and an agent's run has one.
unfoldable pub check_orchestrator : RunSource → Option Text → Check
check_orchestrator RunSource.manual (some o) =
    err (value_error "a manual run must not specify an orchestrator")
check_orchestrator RunSource.manual none = ok tt
check_orchestrator RunSource.agent none =
    err (value_error "an agent run must specify an orchestrator")
check_orchestrator RunSource.agent (some o) = do stable_token o "orchestrator"; ok tt

-- `RunLaunch.__post_init__`
unfoldable pub run_launch : RunLaunch → Result RunLaunch
unfolding check_orchestrator stable_token
run_launch self = do
  stable_token self.run_id "run_id"
  stable_token self.kind "kind"
  stable_token self.initiated_by "initiated_by"
  stable_token self.tenant_id "tenant_id"
  stable_token self.idempotency_key "idempotency_key"
  check_orchestrator self.source self.orchestrator
  ok self

-- The namespace of a launch's idempotency key, for the tenant of the authenticated context.
unfoldable pub launch_idempotency_scope : RunLaunch → Text → Result (Text × Text × Text)
launch_idempotency_scope self tenant_id = do
  stable_token tenant_id "trusted tenant_id"
  ok (tenant_id, run_launch_action, self.idempotency_key)

-- Source attribution, at the end of `RunLaunch.authorize`.
unfoldable pub check_source : RunSource → Text → Text → Option Text → Check
check_source RunSource.manual initiated_by principal_id (some a) =
    err (operator_authorization_error "agent-mediated runs must use agent source provenance")
check_source RunSource.manual initiated_by principal_id none =
    raise_if (not (text_eq initiated_by principal_id))
      (operator_authorization_error "manual run source does not match")
check_source RunSource.agent initiated_by principal_id none =
    err (operator_authorization_error "agent run source does not match")
check_source RunSource.agent initiated_by principal_id (some a) =
    raise_if (not (text_eq initiated_by a))
      (operator_authorization_error "agent run source does not match")

unfoldable pub authorize_launch : RunLaunch → OperatorContext → ℕ → Option DateTime → Check
authorize_launch self context now at = do
  require_fresh context now at
  require_action context run_launch_action
  require_tenant context self.tenant_id
  require_boundary context self.target.boundary_id
  require_capability context self.target.capability
  check_source self.source self.initiated_by context.principal_id context.acting_agent_id

-- The run is attributed to whoever makes it: the principal, or the agent that acts for it.
abbrev pub Attributed : RunSource → Text → Text → Option Text → Type 0
Attributed RunSource.manual by principal acting = (acting ≡ none) × (by ≡ principal)
Attributed RunSource.agent by principal acting = acting ≡ some by

check_source-Attributed :
    (source : RunSource) (by principal : Text) (acting : Option Text)
    → (check_source source by principal acting ≡ ok tt) ↔ Attributed source by principal acting
unfolding check_source
check_source-Attributed RunSource.manual by p none = ground (arith, text_eq_iff by p)
check_source-Attributed RunSource.manual by p (some a) = ground arith
check_source-Attributed RunSource.agent by p none = ground arith
check_source-Attributed RunSource.agent by p (some a) = ground (arith, text_eq_iff by a)

-- What a launch needs of the context, at an instant.
pub record MayLaunch (launch : RunLaunch) (c : OperatorContext) (instant : ℕ) : Type 0 where
  pub issued : c.issued_at ≤ instant
  pub unexpired : instant < c.expires_at
  pub action : contains c.granted_actions run_launch_action ≡ true
  pub tenant : launch.tenant_id ≡ c.tenant_id
  pub boundary : Grants c.permitted_boundary_ids launch.target.boundary_id
  pub capability : Grants c.granted_capabilities launch.target.capability
  pub attributed : Attributed launch.source launch.initiated_by c.principal_id c.acting_agent_id

run_launch_action_token : is_stable_token run_launch_action ≡ true
unfolding is_stable_token
run_launch_action_token = refl

-- For a launch with a stable tenant, as each one that was made has, authorization at an instant
-- succeeds exactly when the context is fresh, grants the launch action, is of the launch's tenant,
-- grants the boundary and the capability of its target, and the run is attributed to the principal
-- of a context with no acting agent, or to the agent that acts.
pub authorize_launch-MayLaunch :
    (launch : RunLaunch) (c : OperatorContext) (now instant : ℕ)
    → is_stable_token launch.tenant_id ≡ true
    → (authorize_launch launch c now (some (aware instant)) ≡ ok tt) ↔ MayLaunch launch c instant
unfolding authorize_launch
authorize_launch-MayLaunch launch c now instant token = ground (
  arith,
  require_fresh_iff c now instant,
  require_action_iff c run_launch_action,
  run_launch_action_token,
  require_tenant_iff c launch.tenant_id,
  require_boundary_iff c launch.target.boundary_id,
  require_capability_iff c launch.target.capability,
  check_source-Attributed launch.source launch.initiated_by c.principal_id c.acting_agent_id,
)
