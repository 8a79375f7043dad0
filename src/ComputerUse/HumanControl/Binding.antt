-- ===== src/ComputerUse/HumanControl/Binding.antt =====
-- kestrel_sdk/computer_use/human_control.py: what an accepted frame, action or retirement is bound to.
use kestrel_sovereign_sdk.Prelude.{
  ℕ, ◌*◌, ◌-◌, ◌≤◌, ◌<◌, true, false, Text, ok, ◌≡◌, ◌↔◌, sym, ◌∙◌, arith, text_eq_iff, all, aware,
}
use kestrel_sovereign_sdk.ComputerUse.Resources.{scope_eq_iff}
use kestrel_sovereign_sdk.ComputerUse.Environments.{ComputerCapability, has, second}
use kestrel_sovereign_sdk.ComputerUse.Sessions.{
  ComputerSession, SessionState, Controller, ComputerAction, ScreenFrame, is_paused, is_human, kind,
}
use kestrel_sovereign_sdk.ComputerUse.HumanControl.{
  HumanControlRequest, HumanControlLease, HumanLeaseState, HumanScreenFrame, HumanActionRequest,
  HumanControlRevocation, HumanControlRevocationTombstone, aware_now, require_session,
  require_request, require_active, require_frame_lease, require_action_lease, require_target,
  require_revocation, same_target, is_active, exceeds_screen,
}

-- The session that a request is for, live at an instant.
pub record Live (r : HumanControlRequest) (s : ComputerSession) (now : ℕ) : Type 0 where
  pub scope : r.scope ≡ s.scope
  pub session_id : r.session_id ≡ s.session_id
  pub lease_id : r.lease_id ≡ s.lease_id
  pub driver_id : r.driver_id ≡ s.driver_id
  pub control_epoch : r.control_epoch ≡ s.control_epoch
  pub state : s.state ≡ SessionState.paused
  pub controller : s.controller ≡ Controller.human
  pub takeover : has s.capabilities ComputerCapability.takeover ≡ true
  pub admitted : all (has s.capabilities) r.capabilities ≡ true
  pub issued : r.issued_at ≤ now
  pub unexpired : now < r.expires_at
  pub bounded : r.expires_at ≤ s.expires_at

is_paused_iff : (s : SessionState) → (is_paused s ≡ true) ↔ (s ≡ SessionState.paused)
unfolding is_paused
is_paused_iff s = ground arith

is_human_iff : (c : Controller) → (is_human c ≡ true) ↔ (c ≡ Controller.human)
unfolding is_human
is_human_iff c = ground arith

is_active_iff : (s : HumanLeaseState) → (is_active s ≡ true) ↔ (s ≡ HumanLeaseState.active)
unfolding is_active
is_active_iff s = ground arith

require_session_iff :
    (r : HumanControlRequest) (s : ComputerSession) (now : ℕ)
    → (require_session r s (aware now) ≡ ok tt) ↔ Live r s now
unfolding require_session aware_now
require_session_iff r s now = ground (
  arith,
  scope_eq_iff r.scope s.scope,
  text_eq_iff r.session_id s.session_id,
  text_eq_iff r.lease_id s.lease_id,
  text_eq_iff r.driver_id s.driver_id,
  is_paused_iff s.state,
  is_human_iff s.controller,
)

module _ (digest : HumanControlRequest → Text) where
  -- A lease that is in force: for the live session, active, accepted before the instant, and with
  -- the digest of its own request.
  pub record InForce (l : HumanControlLease) (s : ComputerSession) (now : ℕ) : Type 0 where
    pub bound : l.request_sha256 ≡ digest l.request
    pub live : Live l.request s now
    pub state : l.state ≡ HumanLeaseState.active
    pub accepted : l.accepted_at ≤ now

  require_active_iff :
      (l : HumanControlLease) (s : ComputerSession) (now : ℕ)
      → (require_active digest l s (aware now) ≡ ok tt) ↔ InForce l s now
  unfolding require_active require_request aware_now
  require_active_iff l s now = ground (
    arith,
    text_eq_iff (digest l.request) l.request_sha256,
    text_eq_iff l.request_sha256 (digest l.request),
    require_session_iff l.request s now,
    is_active_iff l.state,
  )

  -- A frame that the holder of the lease may act on: of the lease, observed while it is in force,
  -- and younger than the oldest frame the request allows.
  pub record Fresh (f : HumanScreenFrame) (l : HumanControlLease) (s : ComputerSession) (now : ℕ)
      : Type 0 where
    pub in_force : InForce l s now
    pub control_id : f.control_id ≡ l.request.control_id
    pub consumer_id : f.consumer_id ≡ l.request.consumer_id
    pub session_id : f.frame.session_id ≡ l.request.session_id
    pub control_epoch : f.frame.control_epoch ≡ l.request.control_epoch
    pub since_accepted : l.accepted_at ≤ f.frame.observed_at
    pub observed : f.frame.observed_at ≤ now
    pub young : now - f.frame.observed_at < l.request.max_frame_age_seconds * second

  require_frame_lease_iff :
      (f : HumanScreenFrame) (l : HumanControlLease) (s : ComputerSession) (now : ℕ)
      → (require_frame_lease digest f l s (aware now) ≡ ok tt) ↔ Fresh f l s now
  unfolding require_frame_lease aware_now
  require_frame_lease_iff f l s now = ground (
    arith,
    require_active_iff l s now,
    text_eq_iff f.control_id l.request.control_id,
    text_eq_iff f.consumer_id l.request.consumer_id,
    text_eq_iff f.frame.session_id l.request.session_id,
  )

  -- A point of the screen; an action that is no click has none.
  abbrev pub OnScreen : ComputerAction → ScreenFrame → Type 0
  OnScreen (ComputerAction.click x y button) f = (x < f.width) × (y < f.height)
  OnScreen _ f = Unit

  exceeds_screen-OnScreen :
      (a : ComputerAction) (f : ScreenFrame) → (exceeds_screen a f ≡ false) ↔ OnScreen a f
  unfolding exceeds_screen
  exceeds_screen-OnScreen (ComputerAction.click x y button) f = ground arith
  exceeds_screen-OnScreen (ComputerAction.type_text t) f = ground arith
  exceeds_screen-OnScreen (ComputerAction.key k) f = ground arith
  exceeds_screen-OnScreen (ComputerAction.scroll x y) f = ground arith
  exceeds_screen-OnScreen (ComputerAction.wait m) f = ground arith
  exceeds_screen-OnScreen (ComputerAction.navigate u) f = ground arith

  -- What human input needs: a fresh frame of its own lease, whose observation it names, a capability
  -- of the lease, a deadline ahead that neither the lease, the session nor the age of the frame
  -- passes, and a point on that frame.
  pub record MayAct (h : HumanActionRequest) (l : HumanControlLease) (s : ComputerSession)
      (f : HumanScreenFrame) (now : ℕ) : Type 0 where
    pub fresh : Fresh f l s now
    pub control_id : h.control_id ≡ l.request.control_id
    pub consumer_id : h.consumer_id ≡ l.request.consumer_id
    pub session_id : h.action.session_id ≡ l.request.session_id
    pub control_epoch : h.action.control_epoch ≡ l.request.control_epoch
    pub observation_id : h.action.observation_id ≡ f.frame.observation_id
    pub capability : has l.request.capabilities (kind h.action.action) ≡ true
    pub ahead : now < h.action.not_after
    pub in_lease : h.action.not_after ≤ l.request.expires_at
    pub in_session : h.action.not_after ≤ s.expires_at
    pub in_frame :
        h.action.not_after - f.frame.observed_at ≤ l.request.max_frame_age_seconds * second
    pub on_screen : OnScreen h.action.action f.frame

  -- Human input is accepted at an instant exactly when everything that `MayAct` lists holds.
  pub require_action_lease-MayAct :
      (h : HumanActionRequest) (l : HumanControlLease) (s : ComputerSession) (f : HumanScreenFrame)
      (now : ℕ)
      → (require_action_lease digest h l s f (aware now) ≡ ok tt) ↔ MayAct h l s f now
  unfolding require_action_lease aware_now
  require_action_lease-MayAct h l s f now = ground (
    arith,
    require_frame_lease_iff f l s now,
    text_eq_iff h.control_id l.request.control_id,
    text_eq_iff h.consumer_id l.request.consumer_id,
    text_eq_iff h.action.session_id l.request.session_id,
    text_eq_iff h.action.observation_id f.frame.observation_id,
    exceeds_screen-OnScreen h.action.action f.frame,
  )

  -- One input that is accepted twice, at whatever instants, leases and snapshots of sessions, is
  -- accepted in one session, controller epoch, control lease, consumer and observation: a session of
  -- a later epoch accepts no input of an earlier one.
  pub accepted_input_bound :
      (h : HumanActionRequest) (l l' : HumanControlLease) (s s' : ComputerSession)
      (f f' : HumanScreenFrame) (now now' : ℕ)
      → require_action_lease digest h l s f (aware now) ≡ ok tt
      → require_action_lease digest h l' s' f' (aware now') ≡ ok tt
      → (s'.session_id ≡ s.session_id)
        × (s'.control_epoch ≡ s.control_epoch)
        × (l'.request.control_id ≡ l.request.control_id)
        × (l'.request.consumer_id ≡ l.request.consumer_id)
        × (f'.frame.observation_id ≡ f.frame.observation_id)
  accepted_input_bound h l l' s s' f f' now now' e e' =
      let a = (require_action_lease-MayAct h l s f now).0 e in
      let b = (require_action_lease-MayAct h l' s' f' now').0 e' in
      let live = a.fresh.in_force.live in
      let live' = b.fresh.in_force.live in
      (
        sym live'.session_id ∙ sym b.session_id ∙ a.session_id ∙ live.session_id,
        sym live'.control_epoch ∙ sym b.control_epoch ∙ a.control_epoch ∙ live.control_epoch,
        sym b.control_id ∙ a.control_id,
        sym b.consumer_id ∙ a.consumer_id,
        sym b.observation_id ∙ a.observation_id,
      )

  -- A retirement that correlates with a lease and one snapshot of a session also does so with every
  -- other snapshot of the same owner, session, resource and driver, whatever its state, epoch,
  -- capabilities and expiry.
  pub require_target-kept :
      (r : HumanControlRevocation) (l : HumanControlLease) (s s' : ComputerSession)
      → require_target digest r l s ≡ ok tt
      → s'.scope ≡ s.scope
      → s'.session_id ≡ s.session_id
      → s'.lease_id ≡ s.lease_id
      → s'.driver_id ≡ s.driver_id
      → require_target digest r l s' ≡ ok tt
  unfolding require_target
  require_target-kept r l s s' h scope session lease driver = ground (
    arith,
    h,
    scope,
    session,
    lease,
    driver,
    scope_eq_iff l.request.scope s.scope,
    scope_eq_iff l.request.scope s'.scope,
    text_eq_iff l.request.session_id s.session_id,
    text_eq_iff l.request.session_id s'.session_id,
    text_eq_iff l.request.lease_id s.lease_id,
    text_eq_iff l.request.lease_id s'.lease_id,
    text_eq_iff l.request.driver_id s.driver_id,
    text_eq_iff l.request.driver_id s'.driver_id,
  )

same_target_iff :
    (a b : HumanControlRevocation)
    → (same_target a b ≡ true) ↔ (
        (a.control_id ≡ b.control_id)
        × (a.session_id ≡ b.session_id)
        × (a.consumer_id ≡ b.consumer_id)
        × (a.control_epoch ≡ b.control_epoch))
unfolding same_target
same_target_iff a b = ground (
  arith,
  text_eq_iff a.control_id b.control_id,
  text_eq_iff a.session_id b.session_id,
  text_eq_iff a.consumer_id b.consumer_id,
)

-- A pre-open fence answers a retirement exactly when the session is its owner's, on its resource and
-- driver, and the retirement is the one that it records, its request ID included.
pub require_revocation_iff :
    (t : HumanControlRevocationTombstone) (r : HumanControlRevocation) (s : ComputerSession)
    → (require_revocation t r s ≡ ok tt) ↔ (
        (t.scope ≡ s.scope)
        × (t.lease_id ≡ s.lease_id)
        × (t.driver_id ≡ s.driver_id)
        × (r.session_id ≡ s.session_id)
        × (r ≡ t.request))
unfolding require_revocation
require_revocation_iff t r s = ground (
  arith,
  scope_eq_iff t.scope s.scope,
  text_eq_iff t.lease_id s.lease_id,
  text_eq_iff t.driver_id s.driver_id,
  text_eq_iff r.session_id s.session_id,
  same_target_iff r t.request,
  text_eq_iff r.request_id t.request.request_id,
)
