-- ===== src/ComputerUse/Acquisition/Kept.antt =====
-- kestrel_sdk/computer_use/acquisition.py: what a checkpoint keeps of an earlier one.
use kestrel_sovereign_sdk.Prelude.{
  ◌+◌, ◌≤◌, Bool, true, false, ◌&&◌, ◌||◌, not, Option, none, some, Text, ok, ◌≡◌, refl, sym, ◌∙◌,
  arith, text_eq, text_eq_iff, >>=-eq-ok, returns_by, subst, ok-injective, ◌==◌,
}
use kestrel_sovereign_sdk.ComputerUse.Resources.{option_eq}
use kestrel_sovereign_sdk.ComputerUse.Environments.{EnvironmentLease, is_some, validate_lease}
use kestrel_sovereign_sdk.ComputerUse.Acquisition.{
  CheckpointState, Checkpoint, has_begun, correlated_facts, validate_fields, validate_checkpoint,
  replaces_custody, retained,
}

-- A digest or an identity that is known stays.
abbrev pub TextKept : Option Text → Option Text → Type 0
TextKept none new = Unit
TextKept (some d) new = new ≡ some d

pub TextKept-refl : (o : Option Text) → TextKept o o
TextKept-refl none = tt
TextKept-refl (some d) = refl

TextKept-trans : (a b c : Option Text) → TextKept a b → TextKept b c → TextKept a c
TextKept-trans none b c h k = tt
TextKept-trans (some d) none c h k = cc
TextKept-trans (some d) (some e) c h k = k ∙ h

TextKept-of_same : (r s : Option Text) → (is_some r && not (option_eq s r)) ≡ false → TextKept r s
unfolding option_eq
TextKept-of_same none s h = tt
TextKept-of_same (some t) none h = cc
TextKept-of_same (some t) (some u) h = ground (arith, text_eq_iff u t)

or_false : (a b : Bool) → (a || b) ≡ false → (a ≡ false) × (b ≡ false)
or_false a b h = ground arith

module _ {Usd : Type 0} where
  -- A checkpoint that `model_validate` accepts.
  abbrev pub IsValid : Checkpoint Usd → Type 0
  IsValid c = validate_checkpoint c ≡ ok c

  pub validated-same :
      (c : Checkpoint Usd) {d : Checkpoint Usd}
      → validate_checkpoint c ≡ ok d
      → (validate_fields c ≡ ok tt) × (correlated_facts c ≡ ok tt) × (d ≡ c)
  unfolding validate_checkpoint
  validated-same c h =
      let (_, fields, rest) = >>=-eq-ok (validate_fields c) _ h in
      let (_, facts, last) = >>=-eq-ok (correlated_facts c) _ rest in
      (fields, facts, sym (ok-injective last))

  -- A lease that is known stays: the same lease, the same expiry, and the resource once it is known.
  abbrev pub LeaseKept : Option (EnvironmentLease Usd) → Option (EnvironmentLease Usd) → Type 0
  LeaseKept none new = Unit
  LeaseKept (some o) none = ⊥
  LeaseKept (some o) (some l) =
      (l.lease_id ≡ o.lease_id)
      × (l.expires_at ≡ o.expires_at)
      × TextKept o.provider_resource_id l.provider_resource_id

  -- The facts of the original acquisition.
  pub record SameOriginal (a b : Checkpoint Usd) : Type 0 where
    pub attempt_id : b.attempt_id ≡ a.attempt_id
    pub request_id : b.request_id ≡ a.request_id
    pub request_sha256 : b.request_sha256 ≡ a.request_sha256
    pub quote_id : b.quote_id ≡ a.quote_id
    pub quote_sha256 : b.quote_sha256 ≡ a.quote_sha256
    pub scope : b.scope ≡ a.scope
    pub provider_id : b.provider_id ≡ a.provider_id
    pub location : b.location ≡ a.location
    pub expires_at : b.expires_at ≡ a.expires_at

  pub record Keeps (a b : Checkpoint Usd) : Type 0 where
    pub original : SameOriginal a b
    pub sequence : a.sequence ≤ b.sequence
    pub digest : TextKept a.preparation_sha256 b.preparation_sha256
    pub lease : LeaseKept a.lease b.lease
    pub begun : has_begun a.state ≡ true → has_begun b.state ≡ true

  pub LeaseKept-refl : (o : Option (EnvironmentLease Usd)) → LeaseKept o o
  LeaseKept-refl none = tt
  LeaseKept-refl (some l) = (refl, refl, TextKept-refl l.provider_resource_id)

  pub Keeps-refl : (c : Checkpoint Usd) → Keeps c c
  Keeps-refl c = record {
    original = record {
      attempt_id = refl;
      request_id = refl;
      request_sha256 = refl;
      quote_id = refl;
      quote_sha256 = refl;
      scope = refl;
      provider_id = refl;
      location = refl;
      expires_at = refl;
    };
    sequence = omega arith;
    digest = TextKept-refl c.preparation_sha256;
    lease = LeaseKept-refl c.lease;
    begun = λ h. h;
  }

  LeaseKept-trans :
      (a b c : Option (EnvironmentLease Usd)) → LeaseKept a b → LeaseKept b c → LeaseKept a c
  LeaseKept-trans none b c h k = tt
  LeaseKept-trans (some o) none c h k = absurd h
  LeaseKept-trans (some o) (some l) none h k = k
  LeaseKept-trans (some o) (some l) (some m) h k = (
    k.0 ∙ h.0,
    k.1 ∙ h.1,
    TextKept-trans o.provider_resource_id l.provider_resource_id m.provider_resource_id h.2 k.2,
  )

  pub Keeps-trans : {a b c : Checkpoint Usd} → Keeps a b → Keeps b c → Keeps a c
  Keeps-trans {a} {b} {c} h k = record {
    original = record {
      attempt_id = k.original.attempt_id ∙ h.original.attempt_id;
      request_id = k.original.request_id ∙ h.original.request_id;
      request_sha256 = k.original.request_sha256 ∙ h.original.request_sha256;
      quote_id = k.original.quote_id ∙ h.original.quote_id;
      quote_sha256 = k.original.quote_sha256 ∙ h.original.quote_sha256;
      scope = k.original.scope ∙ h.original.scope;
      provider_id = k.original.provider_id ∙ h.original.provider_id;
      location = k.original.location ∙ h.original.location;
      expires_at = k.original.expires_at ∙ h.original.expires_at;
    };
    sequence = omega (arith, h.sequence, k.sequence);
    digest =
        TextKept-trans a.preparation_sha256 b.preparation_sha256 c.preparation_sha256 h.digest
          k.digest;
    lease = LeaseKept-trans a.lease b.lease c.lease h.lease k.lease;
    begun = λ s. k.begun (h.begun s);
  }

  some-LeaseKept :
      (o l : EnvironmentLease Usd)
      → replaces_custody (some o) (some l) ≡ false
      → LeaseKept (some o) (some l)
  unfolding replaces_custody
  some-LeaseKept o l h =
      let (same, resource) =
        or_false (not (text_eq l.lease_id o.lease_id && l.expires_at == o.expires_at))
          (is_some o.provider_resource_id
            && not (option_eq l.provider_resource_id o.provider_resource_id))
          h in
      (
        ground (arith, text_eq_iff l.lease_id o.lease_id, same),
        ground (arith, same),
        TextKept-of_same o.provider_resource_id l.provider_resource_id resource,
      )

  pub retained-LeaseKept :
      (o new : Option (EnvironmentLease Usd)) {kept : Option (EnvironmentLease Usd)}
      → retained o new ≡ ok kept
      → replaces_custody o kept ≡ false
      → LeaseKept o kept
  unfolding retained
  retained-LeaseKept o none {kept} h k = returns_by (LeaseKept o) h (LeaseKept-refl o)
  retained-LeaseKept none (some l) h k = tt
  retained-LeaseKept (some o) (some l) {kept} h k =
      let (_, _, returned) = >>=-eq-ok (validate_lease l) _ h in
      let same = ok-injective returned in
      subst (LeaseKept (some o)) same
        (some-LeaseKept o l (subst (λ x. replaces_custody (some o) x ≡ false) (sym same) k))

  -- What a change of the checkpoint's own fields keeps.
  pub changed-Keeps :
      (c : Checkpoint Usd) (state : CheckpointState) (digest : Option Text)
      (lease : Option (EnvironmentLease Usd))
      → TextKept c.preparation_sha256 digest
      → LeaseKept c.lease lease
      → (has_begun c.state ≡ true → has_begun state ≡ true)
      → Keeps c (record c {
        state = state;
        preparation_sha256 = digest;
        lease = lease;
        sequence = c.sequence + 1;
      })
  changed-Keeps c state digest lease d l b = record {
    original = record {
      attempt_id = refl;
      request_id = refl;
      request_sha256 = refl;
      quote_id = refl;
      quote_sha256 = refl;
      scope = refl;
      provider_id = refl;
      location = refl;
      expires_at = refl;
    };
    sequence = omega arith;
    digest = d;
    lease = l;
    begun = b;
  }
