-- ===== src/Operator/Controls.antt =====
-- kestrel_sdk/operator/runs.py: the control verbs of an existing run.
use kestrel_sovereign_sdk.Prelude.{
  ℕ, true, Option, none, some, Text, codes, Result, Check, ok, err, value_error, ◌>>◌, ◌≡◌, ◌↔◌,
  ◌≢◌, arith, DateTime,
}
use kestrel_sovereign_sdk.Validation.Tokens.{is_stable_token, stable_token}
use kestrel_sovereign_sdk.Operator.Context.{OperatorContext, require_action, require_fresh}
use kestrel_sovereign_sdk.Operator.Records.{RunRecord, authorize_record}

pub data RunControlAction : Type 0 where
  pause resume cancel retry : RunControlAction

-- `_RUN_CONTROL_AUTHORIZATION_ACTIONS`
unfoldable pub required_action : RunControlAction → Text
required_action RunControlAction.pause = codes "run.pause"
required_action RunControlAction.resume = codes "run.resume"
required_action RunControlAction.cancel = codes "run.cancel"
required_action RunControlAction.retry = codes "run.retry"

pub record RunControl : Type 0 where
  pub run_id : Text
  pub action : RunControlAction
  pub idempotency_key : Text
  pub stage_id : Option Text
  pub expected_sequence : Option ℕ

-- A stage is named for a retry, and for nothing else.
unfoldable pub check_stage : RunControlAction → Option Text → Check
check_stage RunControlAction.retry none = err (value_error "stage_id is required for retry")
check_stage RunControlAction.retry (some s) = do stable_token s "stage_id"; ok tt
check_stage _ none = ok tt
check_stage _ (some s) = err (value_error "stage_id is allowed only for retry")

-- `RunControl.__post_init__`; an expected sequence is a non-negative integer.
unfoldable pub run_control : RunControl → Result RunControl
run_control self = do
  stable_token self.run_id "run_id"
  stable_token self.idempotency_key "idempotency_key"
  check_stage self.action self.stage_id
  ok self

abbrev pub ControlScope : Type 0
ControlScope = Text × Text × Text × Option Text × Text

unfoldable pub control_idempotency_scope : RunControl → Text → Result ControlScope
control_idempotency_scope self tenant_id = do
  stable_token tenant_id "tenant_id"
  ok (tenant_id, self.run_id, required_action self.action, self.stage_id, self.idempotency_key)

-- The check before the run is looked up.
unfoldable pub authorize_control : RunControl → OperatorContext → ℕ → Option DateTime → Check
authorize_control self context now at = do
  require_fresh context now at
  require_action context (required_action self.action)

-- Each action has its own authorization: no grant for one control serves for another.
pub required_action-injective :
    (a b : RunControlAction) → required_action a ≡ required_action b → a ≡ b
unfolding required_action
required_action-injective a b h = ground arith

-- A control that was made names a stage exactly if it is a retry.
pub run_control-stage :
    (c : RunControl) {d : RunControl}
    → run_control c ≡ ok d
    → (d.action ≡ RunControlAction.retry) ↔ (d.stage_id ≢ none)
unfolding run_control check_stage stable_token
run_control-stage c h = ground arith

-- Two controls share an idempotency scope exactly when they are of one tenant and agree on the run,
-- the action, the stage and the key; the expected sequence is no part of it.
pub control_idempotency_scope_iff :
    (c d : RunControl) (s t : Text)
    → is_stable_token s ≡ true
    → is_stable_token t ≡ true
    → (control_idempotency_scope c s ≡ control_idempotency_scope d t) ↔ (
        (s ≡ t)
        × (c.run_id ≡ d.run_id)
        × (c.action ≡ d.action)
        × (c.stage_id ≡ d.stage_id)
        × (c.idempotency_key ≡ d.idempotency_key))
unfolding control_idempotency_scope stable_token
control_idempotency_scope_iff c d s t hs ht =
    ground (arith, required_action-injective c.action d.action)

-- What the resolved record authorizes for a control's action, the check before the lookup does not
-- refuse: that check turns away nobody who could apply the control.
pub authorize_control-authorize_record :
    (c : RunControl) (r : RunRecord) (x : OperatorContext) (now : ℕ) (at : Option DateTime)
    → authorize_record r x (required_action c.action) now at ≡ ok tt
    → authorize_control c x now at ≡ ok tt
unfolding authorize_control authorize_record
authorize_control-authorize_record c r x now at h = ground arith
