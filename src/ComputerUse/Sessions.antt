-- ===== src/ComputerUse/Sessions.antt =====
-- kestrel_sdk/computer_use/models.py: sessions, frames, actions and receipts. The types are those
-- of the fields; the checks are the models' own validators. Instants are microseconds.
use kestrel_sovereign_sdk.Prelude.{
  ℕ, ◌*◌, ℤ, Bool, true, false, ◌&&◌, not, List, Option, Text, ok, value_error, ◌>>◌, Check,
  raise_if, ◌≡◌, ◌↔◌, arith, ltb, between, length, text_eq,
}
use kestrel_sovereign_sdk.ComputerUse.Resources.{ResourceScope}
use kestrel_sovereign_sdk.ComputerUse.Environments.{Surface, ComputerCapability}

pub data SessionState : Type 0 where
  ready paused unknown closing closed : SessionState

pub data Controller : Type 0 where
  agent human nobody : Controller

pub record ComputerSession : Type 0 where
  pub session_id : Text
  pub scope : ResourceScope
  pub lease_id : Text
  pub driver_id : Text
  pub surface : Surface
  pub capabilities : List ComputerCapability
  pub state : SessionState
  pub controller : Controller
  pub control_epoch : ℕ
  pub expires_at : ℕ

unfoldable pub is_ready_session : SessionState → Bool
is_ready_session SessionState.ready = true
is_ready_session _ = false

unfoldable pub is_paused : SessionState → Bool
is_paused SessionState.paused = true
is_paused _ = false

unfoldable pub is_agent : Controller → Bool
is_agent Controller.agent = true
is_agent _ = false

unfoldable pub is_human : Controller → Bool
is_human Controller.human = true
is_human _ = false

-- `ComputerSession.controller_state`
unfoldable pub controller_state : ComputerSession → Check
controller_state self = do
  raise_if (is_ready_session self.state && not (is_agent self.controller))
      (value_error "ready sessions require the agent controller")
  raise_if (not (is_ready_session self.state) && is_agent self.controller)
      (value_error "agent input is fenced outside ready state")
  raise_if (is_human self.controller && not (is_paused self.state))
      (value_error "human control requires paused state")

-- The validator of controllers accepts a session exactly when the agent controls it in the ready
-- state and in no other, and a human only in the paused state.
pub controller_state_iff :
    (s : ComputerSession)
    → (controller_state s ≡ ok tt) ↔ (
        ((s.state ≡ SessionState.ready) ↔ (s.controller ≡ Controller.agent))
        × (s.controller ≡ Controller.human → s.state ≡ SessionState.paused))
unfolding controller_state is_ready_session is_paused is_agent is_human
controller_state_iff s = ground arith

pub record ScreenFrame : Type 0 where
  pub observation_id : Text
  pub session_id : Text
  pub control_epoch : ℕ
  pub observed_at : ℕ
  pub width : ℕ
  pub height : ℕ
  pub image_sha256 : Text

-- The bounds of the fields, then `ScreenFrame.bounded_pixels`
unfoldable pub bounded_pixels : ScreenFrame → Check
bounded_pixels self = do
  raise_if (not (between 1 16384 self.width)) (value_error "width")
  raise_if (not (between 1 16384 self.height)) (value_error "height")
  raise_if (ltb 16777216 (self.width * self.height))
      (value_error "screen frame exceeds pixel limit")

-- The pixels, as bytes, beside their frame.
pub record ScreenObservation : Type 0 where
  pub frame : ScreenFrame
  pub image : List ℕ

-- `ScreenObservation.verified_payload`, where `sha256` gives the hexadecimal digest of bytes
unfoldable pub verified_payload : (List ℕ → Text) → ScreenObservation → Check
verified_payload sha256 self = do
  raise_if (not (between 1 (32 * 1024 * 1024) (length self.image)))
      (value_error "observation image must contain at most 32 MiB")
  raise_if (not (text_eq (sha256 self.image) self.frame.image_sha256))
      (value_error "observation image does not match the frame digest")

pub data MouseButton : Type 0 where
  left middle right : MouseButton

pub data ComputerAction : Type 0 where
  click : ℕ → ℕ → MouseButton → ComputerAction
  type_text : Text → ComputerAction
  key : Text → ComputerAction
  scroll : ℤ → ℤ → ComputerAction
  wait : ℕ → ComputerAction
  navigate : Text → ComputerAction

-- `kind`, the discriminator of the union, as a capability
unfoldable pub kind : ComputerAction → ComputerCapability
kind (ComputerAction.click x y b) = ComputerCapability.click
kind (ComputerAction.type_text t) = ComputerCapability.typing
kind (ComputerAction.key k) = ComputerCapability.key
kind (ComputerAction.scroll x y) = ComputerCapability.scroll
kind (ComputerAction.wait m) = ComputerCapability.wait
kind (ComputerAction.navigate u) = ComputerCapability.navigate

pub record ActionRequest : Type 0 where
  pub action_id : Text
  pub session_id : Text
  pub observation_id : Text
  pub control_epoch : ℕ
  pub not_after : ℕ
  pub action : ComputerAction

pub data ActionOutcome : Type 0 where
  completed denied unknown : ActionOutcome

pub record ActionReceipt : Type 0 where
  pub action_id : Text
  pub session_id : Text
  pub observation_id : Text
  pub control_epoch : ℕ
  pub outcome : ActionOutcome
  pub recorded_at : ℕ
  pub reason_code : Option Text
