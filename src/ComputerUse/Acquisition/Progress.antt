-- ===== src/ComputerUse/Acquisition/Progress.antt =====
-- kestrel_sdk/computer_use/acquisition.py: a first row is not stuck.
use kestrel_sovereign_sdk.Prelude.{
  ℕ, ◌+◌, true, false, not, Option, none, some, List, Text, ok, resource_conflict, ◌>>=◌, ◌>>◌,
  raise_if, ◌≡◌, refl, ap, ◌∙◌, arith,
}
use kestrel_sovereign_sdk.ComputerUse.Environments.{is_image_digest, is_some, xor_bool}
use kestrel_sovereign_sdk.ComputerUse.Acquisition.{
  EnvironmentAcquisitionPreparation, validate_preparation, preparation_bytes, preparation_digest,
  CheckpointState, unprepared, dispatching, Checkpoint, is_unprepared, is_prepared, prepare,
  prepare_with, dispatched,
}
use kestrel_sovereign_sdk.ComputerUse.Acquisition.Kept.{IsValid, validated-same}
use kestrel_sovereign_sdk.ComputerUse.Acquisition.Steps.{correlated_facts_iff, prepare-Keeps}

unprepared-no_digest :
    (s : CheckpointState) (o : Option Text)
    → s ≡ unprepared
    → xor_bool (is_unprepared s) (not (is_some o)) ≡ false
    → o ≡ none
unprepared-no_digest s o state h = ground arith

module _ (sha256 : List ℕ → Text) {Usd : Type 0} where
  -- What a first preparation makes of a row.
  abbrev pub prepared_row : EnvironmentAcquisitionPreparation → Checkpoint Usd → Checkpoint Usd
  prepared_row p c = record c {
    state = CheckpointState.prepared;
    preparation_sha256 = some (sha256 (preparation_bytes p));
    sequence = c.sequence + 1;
  }

  prepare-prepared_row :
      (p : EnvironmentAcquisitionPreparation) (c : Checkpoint Usd)
      → IsValid c
      → c.preparation_sha256 ≡ none
      → validate_preparation p ≡ ok tt
      → prepare sha256 p c ≡ ok (prepared_row p c)
  unfolding prepare preparation_digest prepare_with
  prepare-prepared_row p c valid unset bounded =
      ap
        (λ m. m >>= λ (o : Checkpoint Usd).
          preparation_digest sha256 p >>= λ d. prepare_with sha256 o.preparation_sha256 d o)
        valid
      ∙ ap
          (λ m. (m >> ok (sha256 (preparation_bytes p))) >>= λ d.
            prepare_with sha256 c.preparation_sha256 d c)
          bounded
      ∙ ap (λ o. prepare_with sha256 o (sha256 (preparation_bytes p)) c) unset

module _ (sha256 : List ℕ → Text)
    (sha256-hex : (bytes : List ℕ) → is_image_digest (sha256 bytes) ≡ true) {Usd : Type 0} where
  -- When the digest of a preparation is 64 hexadecimal digits: a valid row that is unprepared takes
  -- every preparation within the byte bounds, and the row that results can be dispatched.
  pub prepare-dispatched :
      (p : EnvironmentAcquisitionPreparation) (c : Checkpoint Usd)
      → IsValid c
      → c.state ≡ unprepared
      → validate_preparation p ≡ ok tt
      → (d : Checkpoint Usd) × (e : Checkpoint Usd) × (prepare sha256 p c ≡ ok d)
        × (d.preparation_sha256 ≡ some (sha256 (preparation_bytes p)))
        × (dispatched d ≡ ok e)
        × (e.state ≡ dispatching)
  unfolding dispatched
  prepare-dispatched p c valid state bounded =
      let (_, facts, _) = validated-same c valid in
      let (agree, _, _, _) = (correlated_facts_iff c).0 facts in
      let unset = unprepared-no_digest c.state c.preparation_sha256 state agree in
      let prepares = prepare-prepared_row sha256 p c valid unset bounded in
      let (_, valid_d, _) = prepare-Keeps sha256 sha256-hex p c prepares in
      let d = prepared_row sha256 p c in
      (
        d,
        record d { state = CheckpointState.dispatching; sequence = d.sequence + 1 },
        prepares,
        refl,
        ap
            (λ m. m >>= λ (o : Checkpoint Usd).
              raise_if (not (is_prepared o.state))
                (resource_conflict "original acquisition has already begun or is unprepared")
              >> ok (record o { state = CheckpointState.dispatching; sequence = o.sequence + 1 }))
            valid_d,
        refl,
      )
