-- ===== src/Operator/Records.antt =====
-- kestrel_sdk/operator/runs.py: the record of an accepted run, its stages and attempts, and the
-- authorization of what is done with it.
use kestrel_sovereign_sdk.Prelude.{
  ℕ, ◌≤◌, ◌<◌, Bool, true, false, Option, none, some, Text, Result, Check, ok, err, value_error,
  run_not_found_error, ◌>>=◌, ◌>>◌, raise_if, ◌≡◌, ◌↔◌, arith, not, ltb, DateTime, aware, naive,
  aware_datetime,
}
use kestrel_sovereign_sdk.Validation.Tokens.{is_stable_token, stable_token}
use kestrel_sovereign_sdk.Validation.Texts.{Strip, non_empty_text}
use kestrel_sovereign_sdk.Operator.Context.{
  OperatorContext, Grants, matches_tenant, require_action, require_capability, require_boundary,
  require_fresh, require_tenant, require_action_iff, require_capability_iff, require_boundary_iff,
  require_fresh_iff, matches_tenant_iff,
}
use kestrel_sovereign_sdk.Operator.Launches.{RunLaunch, run_launch_action, authorize_launch}

pub data RunState : Type 0 where
  queued running paused succeeded failed cancelled : RunState

unfoldable pub is_terminal : RunState → Bool
is_terminal RunState.succeeded = true
is_terminal RunState.failed = true
is_terminal RunState.cancelled = true
is_terminal _ = false

pub record RunRecord : Type 0 where
  pub launch : RunLaunch
  pub state : RunState
  pub accepted_at : ℕ
  pub state_changed_at : ℕ
  pub sequence : ℕ

-- `accepted_at if state_changed_at is None else _aware_datetime(…)`
unfoldable pub changed_at : ℕ → Option DateTime → Result ℕ
changed_at accepted none = ok accepted
changed_at accepted (some t) = aware_datetime t "state_changed_at"

-- `RunRecord.__post_init__`; the sequence is a non-negative integer.
unfoldable pub run_record : RunLaunch → RunState → DateTime → Option DateTime → ℕ → Result RunRecord
run_record launch state accepted_at state_changed_at sequence = do
  accepted ← aware_datetime accepted_at "accepted_at"
  changed ← changed_at accepted state_changed_at
  raise_if (ltb changed accepted) (value_error "state_changed_at must not precede accepted_at")
  ok (record {
    launch = launch;
    state = state;
    accepted_at = accepted;
    state_changed_at = changed;
    sequence = sequence;
  })

unfoldable pub authorize_record : RunRecord → OperatorContext → Text → ℕ → Option DateTime → Check
authorize_record self context action now at = do
  stable_token action "action"
  raise_if (not (matches_tenant context self.launch.tenant_id)) run_not_found_error
  require_fresh context now at
  require_action context action
  require_boundary context self.launch.target.boundary_id
  require_capability context self.launch.target.capability

pub record RunStage : Type 0 where
  pub run_id : Text
  pub stage_id : Text
  pub kind : Text
  pub state : RunState

unfoldable pub run_stage : RunStage → Result RunStage
run_stage self = do
  stable_token self.run_id "run_id"
  stable_token self.stage_id "stage_id"
  stable_token self.kind "kind"
  ok self

pub record RunAttempt : Type 0 where
  pub run_id : Text
  pub stage_id : Text
  pub attempt_id : Text
  pub attempt : ℕ

unfoldable pub run_attempt : RunAttempt → Result RunAttempt
run_attempt self = do
  stable_token self.run_id "run_id"
  stable_token self.stage_id "stage_id"
  stable_token self.attempt_id "attempt_id"
  raise_if (ltb self.attempt 1) (value_error "attempt must be at least 1")
  ok self

pub record ExternalEngineJobLink : Type 0 where
  pub run_id : Text
  pub stage_id : Text
  pub attempt_id : Text
  pub engine : Text
  pub external_job_id : Text

unfoldable pub external_engine_job_link :
    Strip → ExternalEngineJobLink → Result ExternalEngineJobLink
external_engine_job_link py self = do
  stable_token self.run_id "run_id"
  stable_token self.stage_id "stage_id"
  stable_token self.attempt_id "attempt_id"
  stable_token self.engine "engine"
  non_empty_text py self.external_job_id "external_job_id"
  ok self

-- A record that was made never changed state before it was accepted, and one with no change of
-- state is as of its acceptance.
pub run_record_ordered :
    (launch : RunLaunch) (state : RunState) (accepted_at : DateTime) (changed : Option DateTime)
    (sequence : ℕ) {r : RunRecord}
    → run_record launch state accepted_at changed sequence ≡ ok r
    → (r.accepted_at ≤ r.state_changed_at) × (changed ≡ none → r.state_changed_at ≡ r.accepted_at)
unfolding run_record changed_at aware_datetime
run_record_ordered launch state accepted_at changed sequence h = (ground arith, ground arith)

-- What an operation on a run needs of the context, at an instant.
pub record MayOperate (r : RunRecord) (c : OperatorContext) (action : Text) (instant : ℕ)
    : Type 0 where
  pub issued : c.issued_at ≤ instant
  pub unexpired : instant < c.expires_at
  pub tenant : r.launch.tenant_id ≡ c.tenant_id
  pub granted : Grants c.granted_actions action
  pub boundary : Grants c.permitted_boundary_ids r.launch.target.boundary_id
  pub capability : Grants c.granted_capabilities r.launch.target.capability

-- For a run with a stable tenant, an operation is authorized at an instant exactly when the context
-- is fresh, is of the run's tenant, and grants the action, the boundary and the capability.
pub authorize_record-MayOperate :
    (r : RunRecord) (c : OperatorContext) (action : Text) (now instant : ℕ)
    → is_stable_token r.launch.tenant_id ≡ true
    → (authorize_record r c action now (some (aware instant)) ≡ ok tt)
      ↔ MayOperate r c action instant
unfolding authorize_record stable_token
authorize_record-MayOperate r c action now instant token = ground (
  arith,
  matches_tenant_iff c r.launch.tenant_id,
  require_fresh_iff c now instant,
  require_action_iff c action,
  require_boundary_iff c r.launch.target.boundary_id,
  require_capability_iff c r.launch.target.capability,
)

-- No oracle: for a stable action, `RunNotFoundError` is raised exactly for a run that is not of the
-- context's tenant, whatever else is true of the run and the context.
pub authorize_record_not_found :
    (r : RunRecord) (c : OperatorContext) (action : Text) (now : ℕ) (at : Option DateTime)
    → is_stable_token action ≡ true
    → (authorize_record r c action now at ≡ err run_not_found_error)
      ↔ (matches_tenant c r.launch.tenant_id ≡ false)
unfolding authorize_record stable_token require_fresh require_action require_boundary
    require_capability aware_datetime
authorize_record_not_found r c action now none token = ground arith
authorize_record_not_found r c action now (some (naive t)) token = ground arith
authorize_record_not_found r c action now (some (aware t)) token = ground arith

-- Who may launch a run may, at that instant, operate on its record under the launch action: the
-- record asks no more of the context than the launch did.
pub authorize_record-authorize_launch :
    (r : RunRecord) (c : OperatorContext) (now : ℕ) (at : Option DateTime)
    → authorize_launch r.launch c now at ≡ ok tt
    → authorize_record r c run_launch_action now at ≡ ok tt
unfolding authorize_launch authorize_record stable_token require_tenant
authorize_record-authorize_launch r c now at h = ground arith
