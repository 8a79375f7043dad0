-- ===== src/ComputerUse/Acquisition/Steps.antt =====
-- kestrel_sdk/computer_use/acquisition.py: what one transition of a checkpoint keeps.
use kestrel_sovereign_sdk.Prelude.{
  ℕ, ◌+◌, Bool, true, false, ◌&&◌, not, Option, none, some, List, Text, Result, ok, ◌>>=◌, ◌>>◌,
  raise_if, ◌≡◌, ◌↔◌, refl, sym, ap, ◌∙◌, arith, text_eq, text_eq_iff, >>=-eq-ok, raise_if_iff,
  returns_by, subst, ok-injective,
}
use kestrel_sovereign_sdk.ComputerUse.Resources.{identifier, check_scope}
use kestrel_sovereign_sdk.ComputerUse.Environments.{
  EnvironmentLease, is_some, is_image_digest, image_digest, xor_bool,
}
use kestrel_sovereign_sdk.ComputerUse.Acquisition.{
  EnvironmentAcquisitionPreparation, preparation_bytes, validate_preparation, CheckpointState,
  unprepared, prepared, dispatching, Checkpoint, is_unprepared, is_prepared, is_undispatched,
  has_begun, is_accepted, has_resource, correlated_facts, correlated_lease, validate_fields,
  validate_checkpoint, replaces_custody, retained, native_fact, dispatched, preparation_digest,
  prepare_with, prepare, optional_digest, optional_lease,
}
use kestrel_sovereign_sdk.ComputerUse.Acquisition.Kept.{
  TextKept, TextKept-refl, IsValid, validated-same, LeaseKept-refl, Keeps, Keeps-refl,
  retained-LeaseKept, changed-Keeps,
}

is_prepared-state : (s : CheckpointState) → is_prepared s ≡ true → s ≡ prepared
is_prepared-state s h = ground arith

not-false : (b : Bool) → not b ≡ false → b ≡ true
not-false b h = ground arith

optional_digest-set :
    (digest : Text)
    → is_image_digest digest ≡ true
    → optional_digest none ≡ optional_digest (some digest)
unfolding optional_digest image_digest
optional_digest-set digest hex = ground arith

is_unprepared-state :
    (s : CheckpointState) (o : Option Text)
    → o ≡ none
    → xor_bool (is_unprepared s) (not (is_some o)) ≡ false
    → s ≡ unprepared
is_unprepared-state s o unset h = ground arith

module _ {Usd : Type 0} where
  pub native_fact-Keeps :
      (state : CheckpointState) (new : Option (EnvironmentLease Usd)) (c : Checkpoint Usd)
      {d : Checkpoint Usd}
      → has_begun state ≡ true
      → native_fact state new c ≡ ok d
      → Keeps c d × IsValid d × (d.state ≡ state)
  unfolding native_fact
  native_fact-Keeps state new c {d} begins h =
      let (c1, valid, rest) = >>=-eq-ok (validate_checkpoint c) _ h in
      let (_, started, rest1) = >>=-eq-ok (raise_if (not (has_begun c1.state)) _) _ rest in
      let (kept, retains, rest2) = >>=-eq-ok (retained c1.lease new) _ rest1 in
      let (_, custody, last) = >>=-eq-ok (raise_if (replaces_custody c1.lease kept) _) _ rest2 in
      let (_, _, same) = validated-same c valid in
      let (fields, facts, result) = validated-same _ last in
      let keeps =
        changed-Keeps c1 state c1.preparation_sha256 kept (TextKept-refl c1.preparation_sha256)
          (retained-LeaseKept c1.lease new retains
            ((raise_if_iff (replaces_custody c1.lease kept) _).0 custody))
          (λ _. begins) in
      (
        subst (λ x. Keeps x d) same (subst (Keeps c1) (sym result) keeps),
        subst (λ x. validate_checkpoint x ≡ ok d) (sym result) last,
        ap (λ (x : Checkpoint Usd). x.state) result,
      )

  -- The facts of a lease do not look at the state, the preparation or the sequence.
  correlated_lease-changed :
      (c : Checkpoint Usd) (state : CheckpointState) (digest : Option Text) (n : ℕ)
      (l : Option (EnvironmentLease Usd))
      → correlated_lease (record c { state = state; preparation_sha256 = digest; sequence = n }) l
        ≡ correlated_lease c l
  unfolding correlated_lease
  correlated_lease-changed c state digest n none = refl
  correlated_lease-changed c state digest n (some l) = refl

  pub correlated_facts_iff :
      (c : Checkpoint Usd)
      → (correlated_facts c ≡ ok tt) ↔ (
          (xor_bool (is_unprepared c.state) (not (is_some c.preparation_sha256)) ≡ false)
          × ((is_undispatched c.state && is_some c.lease) ≡ false)
          × ((is_accepted c.state && not (has_resource c.lease)) ≡ false)
          × (correlated_lease c c.lease ≡ ok tt))
  unfolding correlated_facts
  correlated_facts_iff c = ground arith

  IsValid-iff :
      (c : Checkpoint Usd)
      → IsValid c ↔ ((validate_fields c ≡ ok tt) × (correlated_facts c ≡ ok tt))
  unfolding validate_checkpoint
  IsValid-iff c = (
    λ h. let (fields, facts, _) = validated-same c h in (fields, facts),
    λ h. ap (λ m. m >> (correlated_facts c >> ok c)) h.0 ∙ ap (λ m. m >> ok c) h.1,
  )

  pub validated_then :
      {B : Type 0} (c : Checkpoint Usd) (f : Checkpoint Usd → Result B) {b : B}
      → (validate_checkpoint c >>= f) ≡ ok b
      → IsValid c × (f c ≡ ok b)
  validated_then c f {b} h =
      let (c1, valid, rest) = >>=-eq-ok (validate_checkpoint c) f h in
      let (_, _, same) = validated-same c valid in
      (valid ∙ ap ok same, subst (λ x. f x ≡ ok b) same rest)

  -- What a dispatch makes of a checkpoint.
  dispatched_from : Checkpoint Usd → Checkpoint Usd
  dispatched_from c = record c { state = CheckpointState.dispatching; sequence = c.sequence + 1 }

  dispatched_from-IsValid :
      (c : Checkpoint Usd) → IsValid c → is_prepared c.state ≡ true → IsValid (dispatched_from c)
  unfolding dispatched_from validate_fields
  dispatched_from-IsValid c valid ready =
      let (fields, facts) = (IsValid-iff c).0 valid in
      let (digest, undispatched, _, lease) = (correlated_facts_iff c).0 facts in
      let state = is_prepared-state c.state ready in
      (IsValid-iff (dispatched_from c)).1 (
        fields,
        (correlated_facts_iff (dispatched_from c)).1 (
          ground (arith, digest, state),
          ground (arith, undispatched, state),
          refl,
          correlated_lease-changed c CheckpointState.dispatching c.preparation_sha256
                (c.sequence + 1) c.lease
              ∙ lease,
        ),
      )

  -- A dispatch keeps what is known, and is the one step from prepared to dispatching.
  pub dispatched-Keeps :
      (c : Checkpoint Usd) {d : Checkpoint Usd}
      → dispatched c ≡ ok d
      → Keeps c d × IsValid d × (c.state ≡ prepared) × (d.state ≡ dispatching)
  unfolding dispatched dispatched_from
  dispatched-Keeps c {d} h =
      let (valid, rest) = validated_then c _ h in
      let (_, ready, last) = >>=-eq-ok (raise_if (not (is_prepared c.state)) _) _ rest in
      let prepared_state = (raise_if_iff (not (is_prepared c.state)) _).0 ready in
      let is_ready = not-false (is_prepared c.state) prepared_state in
      returns_by (λ d. Keeps c d × IsValid d × (c.state ≡ prepared) × (d.state ≡ dispatching)) last
        (
          changed-Keeps c CheckpointState.dispatching c.preparation_sha256 c.lease
              (TextKept-refl c.preparation_sha256) (LeaseKept-refl c.lease) (λ _. refl),
          dispatched_from-IsValid c valid is_ready,
          is_prepared-state c.state is_ready,
          refl,
        )

  -- What a preparation makes of a checkpoint that has none.
  prepared_from : Checkpoint Usd → Text → Checkpoint Usd
  prepared_from c digest = record c {
    state = CheckpointState.prepared;
    preparation_sha256 = some digest;
    sequence = c.sequence + 1;
  }

  prepared_from-fields :
      (c : Checkpoint Usd) (digest : Text)
      → c.preparation_sha256 ≡ none
      → is_image_digest digest ≡ true
      → validate_fields c ≡ ok tt
      → validate_fields (prepared_from c digest) ≡ ok tt
  unfolding prepared_from validate_fields
  prepared_from-fields c digest unset hex h =
      subst
        (λ m.
          (do
            identifier c.attempt_id
            identifier c.request_id
            image_digest c.request_sha256
            identifier c.quote_id
            image_digest c.quote_sha256
            check_scope c.scope
            identifier c.provider_id
            m
            optional_lease c.lease)
          ≡ ok tt)
        (ap optional_digest unset ∙ optional_digest-set digest hex) h

  prepared_from-IsValid :
      (c : Checkpoint Usd) (digest : Text)
      → IsValid c
      → c.preparation_sha256 ≡ none
      → is_image_digest digest ≡ true
      → IsValid (prepared_from c digest)
  unfolding prepared_from
  prepared_from-IsValid c digest valid unset hex =
      let (fields, facts) = (IsValid-iff c).0 valid in
      let (agree, undispatched, _, lease) = (correlated_facts_iff c).0 facts in
      let state = is_unprepared-state c.state c.preparation_sha256 unset agree in
      (IsValid-iff (prepared_from c digest)).1 (
        prepared_from-fields c digest unset hex fields,
        (correlated_facts_iff (prepared_from c digest)).1 (
          refl,
          ground (arith, undispatched, state),
          refl,
          correlated_lease-changed c CheckpointState.prepared (some digest) (c.sequence + 1) c.lease
              ∙ lease,
        ),
      )

-- SHA-256 of bytes, in hexadecimal: 64 lower-case digits.
module _ {Usd : Type 0} (sha256 : List ℕ → Text)
    (sha256-hex : (bytes : List ℕ) → is_image_digest (sha256 bytes) ≡ true) where
  prepare_with-Keeps :
      (c : Checkpoint Usd) (o : Option Text) (bytes : List ℕ) {d : Checkpoint Usd}
      → c.preparation_sha256 ≡ o
      → IsValid c
      → prepare_with sha256 o (sha256 bytes) c ≡ ok d
      → Keeps c d × IsValid d × (d.preparation_sha256 ≡ some (sha256 bytes))
  unfolding prepare_with prepared_from
  prepare_with-Keeps c none bytes unset valid h =
      let (fields, facts) = (IsValid-iff c).0 valid in
      let (agree, _, _, _) = (correlated_facts_iff c).0 facts in
      let state = is_unprepared-state c.state c.preparation_sha256 unset agree in
      returns_by (λ d. Keeps c d × IsValid d × (d.preparation_sha256 ≡ some (sha256 bytes))) h
        (
          changed-Keeps c CheckpointState.prepared (some (sha256 bytes)) c.lease
              (subst (λ o. TextKept o (some (sha256 bytes))) (sym unset) tt)
              (LeaseKept-refl c.lease) (λ begun. ground (arith, begun, state)),
          prepared_from-IsValid c (sha256 bytes) valid unset (sha256-hex bytes),
          refl,
        )
  prepare_with-Keeps c (some e) bytes known valid h =
      let (_, agrees, last) = >>=-eq-ok (raise_if (not (text_eq e (sha256 bytes))) _) _ h in
      let same = (raise_if_iff (not (text_eq e (sha256 bytes))) _).0 agrees in
      let digests = (text_eq_iff e (sha256 bytes)).0 (not-false (text_eq e (sha256 bytes)) same) in
      returns_by (λ d. Keeps c d × IsValid d × (d.preparation_sha256 ≡ some (sha256 bytes))) last
        (Keeps-refl c, valid, known ∙ ap some digests)

  -- A preparation that is accepted is the checkpoint's from then on, by its digest.
  pub prepare-Keeps :
      (p : EnvironmentAcquisitionPreparation) (c : Checkpoint Usd) {d : Checkpoint Usd}
      → prepare sha256 p c ≡ ok d
      → Keeps c d × IsValid d × (d.preparation_sha256 ≡ some (sha256 (preparation_bytes p)))
  unfolding prepare preparation_digest
  prepare-Keeps p c {d} h =
      let (valid, rest) = validated_then c _ h in
      let (digest, hashes, last) = >>=-eq-ok (preparation_digest sha256 p) _ rest in
      let (_, _, same) = >>=-eq-ok (validate_preparation p) _ hashes in
      prepare_with-Keeps c c.preparation_sha256 (preparation_bytes p) refl valid (
        subst (λ x. prepare_with sha256 c.preparation_sha256 x c ≡ ok d) (sym (ok-injective same))
          last)
