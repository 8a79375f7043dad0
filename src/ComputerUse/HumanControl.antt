-- ===== src/ComputerUse/HumanControl.antt =====
-- kestrel_sdk/computer_use/human_control.py: the human's lease, frames, actions and retirement. The
-- digest of a request is JSON text, hashed by a library: a parameter.
pub mod Binding
mod Tests
use kestrel_sovereign_sdk.Prelude.{
  ℕ, ◌*◌, ◌-◌, ◌≤◌, ◌<◌, Bool, true, false, ◌&&◌, ◌||◌, not, Option, none, some, List, Text, Result,
  ok, err, value_error, ◌>>=◌, ◌>>◌, Check, raise_if, ◌≡◌, ◌↔◌, arith, text_eq, text_eq_iff,
  if◌then◌else◌, ltb, leb, min, ◌==◌, all, DateTime, naive, aware,
}
use kestrel_sovereign_sdk.ComputerUse.Resources.{ResourceScope, scope_eq}
use kestrel_sovereign_sdk.ComputerUse.Environments.{
  ComputerCapability, has, position, is_some, xor_bool, second,
}
use kestrel_sovereign_sdk.ComputerUse.Sessions.{
  ComputerSession, ComputerAction, click, ScreenFrame, ScreenObservation, ActionRequest,
  ActionReceipt, is_paused, is_human, kind,
}

pub record HumanControlRequest : Type 0 where
  pub control_id : Text
  pub scope : ResourceScope
  pub session_id : Text
  pub lease_id : Text
  pub driver_id : Text
  pub consumer_id : Text
  pub control_epoch : ℕ
  pub issued_at : ℕ
  pub expires_at : ℕ
  pub capabilities : List ComputerCapability
  pub max_frame_age_seconds : ℕ

-- `_aware(at)`, and the instant that `at` is
unfoldable pub aware_now : DateTime → Result ℕ
aware_now (naive t) = err (value_error "a trusted timezone-aware current time is required")
aware_now (aware i) = ok i

-- `HumanControlRequest.bounded_request`
unfoldable pub bounded_request : HumanControlRequest → Check
bounded_request self = do
  raise_if
      (leb self.expires_at self.issued_at
        || ltb (self.expires_at - self.issued_at) (self.max_frame_age_seconds * second))
      (value_error "human frame/lifetime bounds are inconsistent")
  raise_if (not (has self.capabilities ComputerCapability.screenshot))
      (value_error "human control requires screenshot capability")

unfoldable pub require_session : HumanControlRequest → ComputerSession → DateTime → Check
require_session self session at = do
  now ← aware_now at
  raise_if
      (not (
        scope_eq self.scope session.scope
        && text_eq self.session_id session.session_id
        && text_eq self.lease_id session.lease_id
        && text_eq self.driver_id session.driver_id
        && self.control_epoch == session.control_epoch))
      (value_error "human lease belongs to another owner/session/epoch")
  raise_if (not (is_paused session.state) || not (is_human session.controller))
      (value_error "human control requires a paused human session")
  raise_if
      (not (has session.capabilities ComputerCapability.takeover)
        || not (all (has session.capabilities) self.capabilities))
      (value_error "human capabilities exceed the admitted session")
  raise_if
      (not (
        leb self.issued_at now
        && ltb now self.expires_at
        && leb self.expires_at session.expires_at))
      (value_error "human lease is outside its fixed lifetime")

pub data HumanLeaseState : Type 0 where
  active revoking revoked unknown : HumanLeaseState

unfoldable pub is_active : HumanLeaseState → Bool
is_active HumanLeaseState.active = true
is_active _ = false

unfoldable pub is_revoked : HumanLeaseState → Bool
is_revoked HumanLeaseState.revoked = true
is_revoked _ = false

pub record HumanControlLease : Type 0 where
  pub request : HumanControlRequest
  pub request_sha256 : Text
  pub state : HumanLeaseState
  pub accepted_at : ℕ
  pub revoked_at : Option ℕ

unfoldable pub precedes : Option ℕ → ℕ → Bool
precedes none n = false
precedes (some m) n = ltb m n

pub record HumanScreenFrame : Type 0 where
  pub control_id : Text
  pub consumer_id : Text
  pub frame : ScreenFrame

pub record HumanScreenObservation : Type 0 where
  pub control_id : Text
  pub consumer_id : Text
  pub observation : ScreenObservation

unfoldable pub frame_record : HumanScreenObservation → HumanScreenFrame
frame_record self = record {
  control_id = self.control_id;
  consumer_id = self.consumer_id;
  frame = self.observation.frame;
}

pub record HumanActionRequest : Type 0 where
  pub control_id : Text
  pub consumer_id : Text
  pub action : ActionRequest

pub record HumanActionReceipt : Type 0 where
  pub control_id : Text
  pub consumer_id : Text
  pub receipt : ActionReceipt

pub record HumanControlRevocation : Type 0 where
  pub request_id : Text
  pub control_id : Text
  pub session_id : Text
  pub consumer_id : Text
  pub control_epoch : ℕ

pub record HumanControlRevocationTombstone : Type 0 where
  pub request : HumanControlRevocation
  pub scope : ResourceScope
  pub lease_id : Text
  pub driver_id : Text
  pub fenced_at : ℕ

-- `isinstance(action, Click)`, and the point is not on the screen
unfoldable pub exceeds_screen : ComputerAction → ScreenFrame → Bool
exceeds_screen (ComputerAction.click x y button) frame = leb frame.width x || leb frame.height y
exceeds_screen _ frame = false

-- `HumanActionReceipt.require_request`
unfoldable pub require_action_request : HumanActionReceipt → HumanActionRequest → Check
require_action_request self request =
    raise_if
      (not (
        text_eq self.control_id request.control_id
        && text_eq self.consumer_id request.consumer_id
        && text_eq self.receipt.action_id request.action.action_id
        && text_eq self.receipt.session_id request.action.session_id
        && text_eq self.receipt.observation_id request.action.observation_id
        && self.receipt.control_epoch == request.action.control_epoch))
      (value_error "human receipt belongs to another original action")

-- The control, session, consumer and epoch of two retirements are the same.
unfoldable pub same_target : HumanControlRevocation → HumanControlRevocation → Bool
same_target a b =
    text_eq a.control_id b.control_id
    && text_eq a.session_id b.session_id
    && text_eq a.consumer_id b.consumer_id
    && a.control_epoch == b.control_epoch

-- `HumanControlRevocationTombstone.require_revocation`
unfoldable pub require_revocation :
    HumanControlRevocationTombstone → HumanControlRevocation → ComputerSession → Check
require_revocation self request session = do
  raise_if
      (not (
        scope_eq self.scope session.scope
        && text_eq self.lease_id session.lease_id
        && text_eq self.driver_id session.driver_id
        && text_eq request.session_id session.session_id))
      (value_error "human pre-open fence differs from the original retirement target")
  if same_target request self.request
      then raise_if (not (text_eq request.request_id self.request.request_id))
          (value_error "human pre-open fence belongs to another revocation request ID")
      else err (value_error "human pre-open fence differs from the original retirement target")

module _ (digest : HumanControlRequest → Text) where
  -- `HumanControlLease.correlated_acceptance`
  unfoldable pub correlated_acceptance : HumanControlLease → Check
  correlated_acceptance self = do
    raise_if (not (text_eq self.request_sha256 (digest self.request)))
        (value_error "human lease does not match the original request digest")
    raise_if
        (not (
          leb self.request.issued_at self.accepted_at
          && ltb self.accepted_at self.request.expires_at))
        (value_error "human lease acceptance is outside the requested lifetime")
    raise_if (xor_bool (is_revoked self.state) (is_some self.revoked_at))
        (value_error "revoked requires confirmed input retirement time")
    raise_if (precedes self.revoked_at self.accepted_at)
        (value_error "input retirement precedes acceptance")

  unfoldable pub require_request : HumanControlLease → HumanControlRequest → Check
  require_request self request =
      raise_if
        (not (
          text_eq (digest request) self.request_sha256
          && text_eq self.request_sha256 (digest self.request)))
        (value_error "human control request differs from the accepted binding")

  unfoldable pub require_active : HumanControlLease → ComputerSession → DateTime → Check
  require_active self session at = do
    require_request self self.request
    require_session self.request session at
    now ← aware_now at
    raise_if (not (is_active self.state) || ltb now self.accepted_at)
        (value_error "human lease is not active")

  -- `HumanScreenFrame.require_lease`
  unfoldable pub require_frame_lease :
      HumanScreenFrame → HumanControlLease → ComputerSession → DateTime → Check
  require_frame_lease self lease session at = do
    require_active lease session at
    now ← aware_now at
    raise_if
        (not (
          text_eq self.control_id lease.request.control_id
          && text_eq self.consumer_id lease.request.consumer_id
          && text_eq self.frame.session_id lease.request.session_id
          && self.frame.control_epoch == lease.request.control_epoch))
        (value_error "human observation belongs to another consumer/session/epoch")
    raise_if (not (leb lease.accepted_at self.frame.observed_at && leb self.frame.observed_at now))
        (value_error "human observation is outside the accepted lease")
    raise_if (leb (lease.request.max_frame_age_seconds * second) (now - self.frame.observed_at))
        (value_error "human observation is stale")

  -- `HumanScreenObservation.require_lease`
  unfoldable pub require_observation_lease :
      HumanScreenObservation → HumanControlLease → ComputerSession → DateTime → Check
  unfolding frame_record require_frame_lease
  require_observation_lease self lease session at =
      require_frame_lease (frame_record self) lease session at

  -- `HumanActionRequest.require_lease`
  unfoldable pub require_action_lease :
      HumanActionRequest → HumanControlLease → ComputerSession → HumanScreenFrame → DateTime → Check
  require_action_lease self lease session screen at = do
    require_frame_lease screen lease session at
    now ← aware_now at
    raise_if
        (not (
          text_eq self.control_id lease.request.control_id
          && text_eq self.consumer_id lease.request.consumer_id))
        (value_error "human action belongs to another consumer lease")
    raise_if
        (not (
          text_eq self.action.session_id lease.request.session_id
          && self.action.control_epoch == lease.request.control_epoch
          && text_eq self.action.observation_id screen.frame.observation_id))
        (value_error "human action belongs to another observation/session/epoch")
    raise_if (not (has lease.request.capabilities (kind self.action.action)))
        (value_error "human action exceeds the consumer capabilities")
    raise_if
        (not (
          ltb now self.action.not_after
          && leb self.action.not_after (min lease.request.expires_at session.expires_at)
          && leb (self.action.not_after - screen.frame.observed_at)
              (lease.request.max_frame_age_seconds * second)))
        (value_error "human action deadline exceeds current frame/lease bounds")
    raise_if (exceeds_screen self.action.action screen.frame)
        (value_error "human click exceeds the observed screen")

  -- `HumanControlRevocation.require_target`
  unfoldable pub require_target :
      HumanControlRevocation → HumanControlLease → ComputerSession → Check
  require_target self lease session = do
    require_request lease lease.request
    raise_if
        (not (
          scope_eq lease.request.scope session.scope
          && text_eq lease.request.session_id session.session_id
          && text_eq lease.request.lease_id session.lease_id
          && text_eq lease.request.driver_id session.driver_id))
        (value_error "human retirement belongs to another owner/session")
    raise_if
        (not (
          text_eq self.control_id lease.request.control_id
          && text_eq self.session_id lease.request.session_id
          && text_eq self.consumer_id lease.request.consumer_id
          && self.control_epoch == lease.request.control_epoch))
        (value_error "human retirement differs from the original consumer lease")
