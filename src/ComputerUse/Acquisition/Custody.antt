-- ===== src/ComputerUse/Acquisition/Custody.antt =====
-- kestrel_sdk/computer_use/acquisition.py: the sequences of transitions that a host stores, and
-- what they keep of the original acquisition.
use kestrel_sovereign_sdk.Prelude.{
  ℕ, ◌+◌, true, false, ◌&&◌, not, Option, none, some, List, Text, ok, err, resource_conflict, ◌>>=◌,
  ◌>>◌, raise_if, ◌≡◌, refl, sym, ap, ◌∙◌, arith, text_eq, text_eq_iff, >>=-eq-ok, subst,
  ok-injective,
}
use kestrel_sovereign_sdk.ComputerUse.Resources.{scope_eq, scope_eq_iff}
use kestrel_sovereign_sdk.ComputerUse.Environments.{
  EnvironmentRequest, EnvironmentQuote, EnvironmentLease, is_image_digest, location_eq,
  location_eq_iff, validate_lease, validate_request, validate_quote, is_some,
}
use kestrel_sovereign_sdk.ComputerUse.Acquisition.{
  EnvironmentAcquisitionPreparation, CheckpointState, accepted, Checkpoint, is_prepared, has_begun,
  validate_checkpoint, native_fact, record_accepted, record_unknown, dispatched, prepare,
  from_original, same_original, require_original, retained, replaces_custody,
}
use kestrel_sovereign_sdk.ComputerUse.Acquisition.Kept.{
  TextKept, LeaseKept, IsValid, validated-same, SameOriginal, Keeps, Keeps-refl, Keeps-trans,
}
use kestrel_sovereign_sdk.ComputerUse.Acquisition.Steps.{
  dispatched-Keeps, native_fact-Keeps, prepare-Keeps, correlated_facts_iff,
}

module _ (sha256 : List ℕ → Text) {Usd : Type 0} where
  -- One method that returns a new row.
  pub data Transition : Checkpoint Usd → Checkpoint Usd → Type 0 where
    prepares :
        (p : EnvironmentAcquisitionPreparation) {a b : Checkpoint Usd}
        → prepare sha256 p a ≡ ok b
        → Transition a b
    dispatches : {a b : Checkpoint Usd} → dispatched a ≡ ok b → Transition a b
    accepts :
        (l : EnvironmentLease Usd) {a b : Checkpoint Usd}
        → record_accepted l a ≡ ok b
        → Transition a b
    reports :
        (l : Option (EnvironmentLease Usd)) {a b : Checkpoint Usd}
        → record_unknown l a ≡ ok b
        → Transition a b

  -- The rows that a host stores one after the other; a method that raises stores nothing.
  pub data Reachable : Checkpoint Usd → Checkpoint Usd → Type 0 where
    stored : {a : Checkpoint Usd} → Reachable a a
    after : {a b c : Checkpoint Usd} → Reachable a b → Transition b c → Reachable a c

has_resource-some : (o : Option Text) → is_some o ≡ true → (r : Text) × (o ≡ some r)
has_resource-some (some r) h = (r, refl)
has_resource-some none h = cc

begun-not-prepared : (s : CheckpointState) → has_begun s ≡ true → is_prepared s ≡ false
begun-not-prepared s h = ground arith

module _ {Usd : Type 0} where
  dispatched-begun :
      (c : Checkpoint Usd)
      → IsValid c
      → has_begun c.state ≡ true
      → dispatched c
        ≡ err (resource_conflict "original acquisition has already begun or is unprepared")
  unfolding dispatched
  dispatched-begun c v b =
      ap
        (λ m. m >>= λ (o : Checkpoint Usd).
          raise_if (not (is_prepared o.state))
            (resource_conflict "original acquisition has already begun or is unprepared")
          >> ok (record o { state = CheckpointState.dispatching; sequence = o.sequence + 1 }))
        v
      ∙ ap
          (λ t.
            raise_if (not t)
              (resource_conflict "original acquisition has already begun or is unprepared")
            >> ok (record c { state = CheckpointState.dispatching; sequence = c.sequence + 1 }))
          (begun-not-prepared c.state b)

  native_fact-lease :
      (state : CheckpointState) (l : EnvironmentLease Usd) (a : Checkpoint Usd) {b : Checkpoint Usd}
      → native_fact state (some l) a ≡ ok b
      → b.lease ≡ some l
  unfolding native_fact retained
  native_fact-lease state l a {b} h =
      let (c1, _, rest) = >>=-eq-ok (validate_checkpoint a) _ h in
      let (_, _, rest1) = >>=-eq-ok (raise_if (not (has_begun c1.state)) _) _ rest in
      let (kept, retains, rest2) = >>=-eq-ok (retained c1.lease (some l)) _ rest1 in
      let (_, _, last) = >>=-eq-ok (raise_if (replaces_custody c1.lease kept) _) _ rest2 in
      let (_, _, returned) = >>=-eq-ok (validate_lease l) _ retains in
      let (_, _, result) = validated-same _ last in
      ap (λ (x : Checkpoint Usd). x.lease) result ∙ sym (ok-injective returned)

  accepted_resource :
      (b : Checkpoint Usd) (l : EnvironmentLease Usd)
      → IsValid b
      → b.state ≡ accepted
      → b.lease ≡ some l
      → (r : Text) × (l.provider_resource_id ≡ some r)
  accepted_resource b l valid state holds =
      let (_, facts, _) = validated-same b valid in
      let (_, _, custody, _) = (correlated_facts_iff b).0 facts in
      has_resource-some l.provider_resource_id (ground (arith, custody, state, holds))

  lease_kept :
      (l : EnvironmentLease Usd) (o : Option (EnvironmentLease Usd)) (r : Text)
      → l.provider_resource_id ≡ some r
      → LeaseKept (some l) o
      → (m : EnvironmentLease Usd) × (o ≡ some m)
        × (m.lease_id ≡ l.lease_id)
        × (m.expires_at ≡ l.expires_at)
        × (m.provider_resource_id ≡ some r)
  lease_kept l none r known h = absurd h
  lease_kept l (some m) r known h =
      (m, refl, h.0, h.1, subst (λ o. TextKept o m.provider_resource_id) known h.2)

  from_original-IsValid :
      (request_digest : EnvironmentRequest Usd → Text) (quote_digest : EnvironmentQuote Usd → Text)
      (attempt_id : Text) (request : EnvironmentRequest Usd) (quote : EnvironmentQuote Usd)
      {a : Checkpoint Usd}
      → from_original request_digest quote_digest attempt_id request quote ≡ ok a
      → IsValid a × (a.attempt_id ≡ attempt_id)
  unfolding from_original
  from_original-IsValid rd qd attempt_id request quote {a} h =
      let (_, _, rest) = >>=-eq-ok (validate_request request) _ h in
      let (_, _, rest1) = >>=-eq-ok (validate_quote quote) _ rest in
      let (_, _, last) =
        >>=-eq-ok
          (raise_if
            (not (
              text_eq quote.request_id request.request_id
              && text_eq quote.request_sha256 (rd request)
              && scope_eq quote.scope request.scope
              && text_eq quote.provider_id request.provider_id
              && location_eq quote.location request.location))
            _)
          _ rest1 in
      let (_, _, same) = validated-same _ last in
      (
        subst (λ x. validate_checkpoint x ≡ ok a) (sym same) last,
        ap (λ (x : Checkpoint Usd). x.attempt_id) same,
      )

  same_original-SameOriginal :
      (request_digest : EnvironmentRequest Usd → Text) (quote_digest : EnvironmentQuote Usd → Text)
      (a c : Checkpoint Usd)
      → SameOriginal a c
      → same_original request_digest quote_digest c a ≡ true
  unfolding same_original
  same_original-SameOriginal rd qd a c s = ground (
    arith,
    s.attempt_id,
    s.request_id,
    s.request_sha256,
    s.quote_id,
    s.quote_sha256,
    s.scope,
    s.provider_id,
    s.location,
    s.expires_at,
    text_eq_iff c.attempt_id a.attempt_id,
    text_eq_iff c.request_id a.request_id,
    text_eq_iff c.request_sha256 a.request_sha256,
    text_eq_iff c.quote_id a.quote_id,
    text_eq_iff c.quote_sha256 a.quote_sha256,
    scope_eq_iff c.scope a.scope,
    text_eq_iff c.provider_id a.provider_id,
    location_eq_iff c.location a.location,
  )

module _ (sha256 : List ℕ → Text)
    (sha256-hex : (bytes : List ℕ) → is_image_digest (sha256 bytes) ≡ true) {Usd : Type 0} where
  Transition-Keeps : {a b : Checkpoint Usd} → Transition sha256 a b → Keeps a b × IsValid b
  unfolding record_accepted record_unknown
  Transition-Keeps (Transition.prepares p {a} h) =
      let (k, v, _) = prepare-Keeps sha256 sha256-hex p a h in (k, v)
  Transition-Keeps (Transition.dispatches {a} h) = let (k, v, _, _) = dispatched-Keeps a h in (k, v)
  Transition-Keeps (Transition.accepts l {a} h) =
      let (k, v, _) = native_fact-Keeps CheckpointState.accepted (some l) a refl h in (k, v)
  Transition-Keeps (Transition.reports l {a} h) =
      let (k, v, _) = native_fact-Keeps CheckpointState.unknown l a refl h in (k, v)

  -- When the digest of a preparation is 64 hexadecimal digits, each row that is reached from a valid
  -- one is valid, and keeps what the first one knows: the identity of the acquisition and its
  -- expiry, the digest of its preparation, that the dispatch has begun, and the lease with its
  -- identity, its expiry and its resource; and the sequence number does not decrease.
  pub reachable-Keeps :
      {a b : Checkpoint Usd} → IsValid a → Reachable sha256 a b → Keeps a b × IsValid b
  reachable-Keeps {a} v Reachable.stored = (Keeps-refl a, v)
  reachable-Keeps v (Reachable.after r t) =
      let (k, _) = reachable-Keeps v r in let (l, w) = Transition-Keeps t in (Keeps-trans k l, w)

  -- When the digest of a preparation is 64 hexadecimal digits: behind a dispatch, no row that is
  -- reached can be dispatched again; the method raises ResourceConflict.
  pub dispatch_once :
      (a : Checkpoint Usd) {b c : Checkpoint Usd}
      → dispatched a ≡ ok b
      → Reachable sha256 b c
      → dispatched c
        ≡ err (resource_conflict "original acquisition has already begun or is unprepared")
  dispatch_once a {b} {c} h r =
      let (_, valid, _, state) = dispatched-Keeps a h in
      let (keeps, valid_c) = reachable-Keeps valid r in
      dispatched-begun c valid_c (keeps.begun (ap has_begun state))

  -- When the digest of a preparation is 64 hexadecimal digits: once a lease was accepted, the
  -- provider gave it a resource, and every row that is reached holds that lease, with the same
  -- identity, expiry and resource.
  pub accepted_custody :
      (l : EnvironmentLease Usd) (a : Checkpoint Usd) {b c : Checkpoint Usd}
      → record_accepted l a ≡ ok b
      → Reachable sha256 b c
      → (r : Text) × (l.provider_resource_id ≡ some r)
        × (m : EnvironmentLease Usd) × (c.lease ≡ some m)
        × (m.lease_id ≡ l.lease_id)
        × (m.expires_at ≡ l.expires_at)
        × (m.provider_resource_id ≡ some r)
  unfolding record_accepted
  accepted_custody l a {b} {c} h reached =
      let (_, valid, state) = native_fact-Keeps CheckpointState.accepted (some l) a refl h in
      let holds = native_fact-lease CheckpointState.accepted l a h in
      let (r, resource) = accepted_resource b l valid state holds in
      let (keeps, _) = reachable-Keeps valid reached in
      let (m, same, id, expires, kept) =
        lease_kept l c.lease r resource (subst (λ o. LeaseKept o c.lease) holds keeps.lease) in
      (r, resource, m, same, id, expires, kept)

  -- Whoever holds the request and the quote recognises the acquisition in every row that is reached
  -- from its first one, when the digest of a preparation is 64 hexadecimal digits.
  pub reachable-require_original :
      (request_digest : EnvironmentRequest Usd → Text) (quote_digest : EnvironmentQuote Usd → Text)
      (attempt_id : Text) (request : EnvironmentRequest Usd) (quote : EnvironmentQuote Usd)
      {a c : Checkpoint Usd}
      → from_original request_digest quote_digest attempt_id request quote ≡ ok a
      → Reachable sha256 a c
      → require_original request_digest quote_digest c request quote ≡ ok tt
  unfolding require_original
  reachable-require_original rd qd attempt_id request quote {a} {c} h reached =
      let (valid, attempt) = from_original-IsValid rd qd attempt_id request quote h in
      let (keeps, valid_c) = reachable-Keeps valid reached in
      let known = keeps.original.attempt_id ∙ attempt in
      ap
        (λ m. m >>= λ original.
          from_original rd qd original.attempt_id request quote >>= λ expected.
          raise_if (not (same_original rd qd original expected))
            (resource_conflict "checkpoint differs from original acquisition"))
        valid_c
      ∙ ap
          (λ m. m >>= λ expected.
            raise_if (not (same_original rd qd c expected))
              (resource_conflict "checkpoint differs from original acquisition"))
          (ap (λ t. from_original rd qd t request quote) known ∙ h)
      ∙ ap
          (λ t. raise_if (not t) (resource_conflict "checkpoint differs from original acquisition"))
          (same_original-SameOriginal rd qd a c keeps.original)
