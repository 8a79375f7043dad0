-- ===== src/ComputerUse/HumanControl/Tests.antt =====
-- kestrel_sdk/computer_use/human_control.py: one click of a human, and a retirement.
use kestrel_sovereign_sdk.Prelude.{none, [], ◌∷◌, Text, codes, ok, ◌≡◌, ◌↔◌, refl, text_eq, aware}
use kestrel_sovereign_sdk.ComputerUse.Resources.{ResourceScope, scope_eq, option_eq}
use kestrel_sovereign_sdk.ComputerUse.Environments.{Surface, ComputerCapability, has, position}
use kestrel_sovereign_sdk.ComputerUse.Sessions.{
  ComputerSession, SessionState, Controller, MouseButton, ComputerAction, is_paused, is_human, kind,
}
use kestrel_sovereign_sdk.ComputerUse.HumanControl.{
  HumanControlRequest, HumanControlLease, HumanLeaseState, HumanScreenFrame, HumanActionRequest,
  HumanControlRevocation, HumanControlRevocationTombstone, aware_now, require_session, is_active,
  exceeds_screen, require_request, require_active, require_frame_lease, require_action_lease,
  require_target,
}
use kestrel_sovereign_sdk.ComputerUse.HumanControl.Binding.{
  MayAct, require_action_lease-MayAct, accepted_input_bound,
}

abbrev tenant : ResourceScope
tenant = record { tenant_id = codes "t1"; principal_id = codes "p1"; agent_id = none }

abbrev paused_session : ComputerSession
paused_session = record {
  session_id = codes "s1";
  scope = tenant;
  lease_id = codes "l1";
  driver_id = codes "d1";
  surface = Surface.browser;
  capabilities =
      ComputerCapability.screenshot ∷ ComputerCapability.click ∷ ComputerCapability.takeover ∷ [];
  state = SessionState.paused;
  controller = Controller.human;
  control_epoch = 4;
  expires_at = 100_000_000;
}

-- the session behind a close
abbrev closed_session : ComputerSession
closed_session = record paused_session {
  state = SessionState.closed;
  controller = Controller.nobody;
  control_epoch = 5;
}

abbrev constant_digest : HumanControlRequest → Text
constant_digest r = codes "digest"

abbrev control : HumanControlRequest
control = record {
  control_id = codes "c1";
  scope = tenant;
  session_id = codes "s1";
  lease_id = codes "l1";
  driver_id = codes "d1";
  consumer_id = codes "u1";
  control_epoch = 4;
  issued_at = 10;
  expires_at = 90_000_000;
  capabilities = ComputerCapability.screenshot ∷ ComputerCapability.click ∷ [];
  max_frame_age_seconds = 5;
}

abbrev lease : HumanControlLease
lease = record {
  request = control;
  request_sha256 = codes "digest";
  state = HumanLeaseState.active;
  accepted_at = 20;
  revoked_at = none;
}

abbrev screen : HumanScreenFrame
screen = record {
  control_id = codes "c1";
  consumer_id = codes "u1";
  frame = record {
    observation_id = codes "o1";
    session_id = codes "s1";
    control_epoch = 4;
    observed_at = 30;
    width = 800;
    height = 600;
    image_sha256 = [];
  };
}

abbrev input : HumanActionRequest
input = record {
  control_id = codes "c1";
  consumer_id = codes "u1";
  action = record {
    action_id = codes "a1";
    session_id = codes "s1";
    observation_id = codes "o1";
    control_epoch = 4;
    not_after = 60;
    action = ComputerAction.click 799 599 MouseButton.left;
  };
}

input_accepted :
    require_action_lease constant_digest input lease paused_session screen (aware 40) ≡ ok tt
unfolding require_action_lease require_frame_lease require_active require_request require_session
    aware_now text_eq scope_eq option_eq is_paused is_human has position is_active kind
    exceeds_screen
input_accepted = refl

require_action_lease-MayAct_example :
    (require_action_lease constant_digest input lease paused_session screen (aware 40) ≡ ok tt)
    ↔ MayAct constant_digest input lease paused_session screen 40
require_action_lease-MayAct_example =
    require_action_lease-MayAct constant_digest input lease paused_session screen 40

accepted_input_bound_example :
    (paused_session.session_id ≡ paused_session.session_id)
    × (paused_session.control_epoch ≡ paused_session.control_epoch)
    × (lease.request.control_id ≡ lease.request.control_id)
    × (lease.request.consumer_id ≡ lease.request.consumer_id)
    × (screen.frame.observation_id ≡ screen.frame.observation_id)
accepted_input_bound_example =
    accepted_input_bound constant_digest input lease lease paused_session paused_session screen
      screen 40 40 input_accepted input_accepted

abbrev retirement : HumanControlRevocation
retirement = record {
  request_id = codes "v1";
  control_id = codes "c1";
  session_id = codes "s1";
  consumer_id = codes "u1";
  control_epoch = 4;
}

retirement_accepted : require_target constant_digest retirement lease paused_session ≡ ok tt
unfolding require_target require_request text_eq scope_eq option_eq
retirement_accepted = refl

abbrev fence : HumanControlRevocationTombstone
fence = record {
  request = retirement;
  scope = tenant;
  lease_id = codes "l1";
  driver_id = codes "d1";
  fenced_at = 50;
}
