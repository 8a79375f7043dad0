-- ===== src/Payers/Accepted.antt =====
-- kestrel_sdk/payer_policy.py: what a constructed spec is, and which policies the matrix accepts.
use kestrel_sovereign_sdk.Prelude.{
  ℕ, ◌&&◌, Error, raise_if, Bool, true, false, Option, none, some, Text, ◌≡◌, ◌↔◌, ◌⊎◌, inl, inr,
  refl, arith, ok, length, ◌<◌, not, ltb, both_iff, raise_if_iff,
}
use kestrel_sovereign_sdk.Payers.Matrix.{
  ResourceClass, PayerKind, is_offerable, supported_kinds_for, offers,
}
use kestrel_sovereign_sdk.Payers.Policies.{
  PayerSpec, PayerPolicy, Verdict, accepted, unsupported, ◌andthen◌, validate_spec, validate_specs,
  validate_against_matrix, iter_specs, check_spec, check_cap, check_master_did, requires_master,
  is_byok, is_set, truthy,
}
use kestrel_sovereign_sdk.Payers.Offers.{supported_kinds_for_iff}

-- Who funds the agent is named exactly when another principal's account does.
pub MasterNamed : {Usd : Type 0} → PayerSpec Usd → Type 0
MasterNamed spec =
    ((requires_master spec.kind ≡ true)
      × ((did : Text) × (spec.master_did ≡ some did) × (0 < length did)))
    ⊎ ((requires_master spec.kind ≡ false) × (spec.master_did ≡ none))

-- What the fields of a spec promise each other.
pub record IsValidSpec {Usd : Type 0} (negative : Usd → Bool) (spec : PayerSpec Usd) : Type 0 where
  pub vendor_named : 0 < length spec.vendor
  pub cap_positive : (cap : Usd) → spec.monthly_cap_usd ≡ some cap → negative cap ≡ false
  pub master_named : MasterNamed spec
  pub byok_uncapped : spec.kind ≡ PayerKind.user_byok → spec.monthly_cap_usd ≡ none

check_cap_iff :
    {Usd : Type 0} (negative : Usd → Bool) (o : Option Usd)
    → (check_cap negative o ≡ ok tt) ↔ ((cap : Usd) → o ≡ some cap → negative cap ≡ false)
unfolding check_cap
check_cap_iff negative none = (λ h cap e. cc, λ h. refl)
check_cap_iff negative (some cap) = (
  λ h x e. ground (arith, raise_if_iff (negative cap) _),
  λ h. ground (arith, h cap refl, raise_if_iff (negative cap) _),
)

named_iff :
    (b : Bool) (did : Option Text)
    → (((b && not (truthy did)) ≡ false) × ((not b && is_set did) ≡ false)) ↔ (
        ((b ≡ true) × ((d : Text) × (did ≡ some d) × (0 < length d)))
        ⊎ ((b ≡ false) × (did ≡ none)))
unfolding truthy is_set
named_iff b none = ground arith
named_iff true (some d) = (
  λ h. inl (refl, (d, refl, ground arith)),
  λ n. elim n [ inl (_, (x, e, lettered)) ↦ ground arith | inr (e, _) ↦ cc ],
)
named_iff false (some d) = (λ h. cc, λ n. elim n [ inl (e, _) ↦ cc | inr (_, e) ↦ cc ])

byok_iff :
    {A : Type 0} (k : PayerKind) (cap : Option A)
    → ((is_byok k && is_set cap) ≡ false) ↔ (k ≡ PayerKind.user_byok → cap ≡ none)
unfolding is_byok is_set
byok_iff PayerKind.user_byok none = ground arith
byok_iff PayerKind.user_byok (some cap) = (λ h. cc, λ h. cc (h refl))
byok_iff PayerKind.unpaid cap = (λ h e. cc, λ h. refl)
byok_iff k cap = (λ h e. cc, λ h. refl)

check_master_did_iff :
    {Usd : Type 0} (spec : PayerSpec Usd)
    → (check_master_did spec ≡ ok tt)
      ↔ (MasterNamed spec × (spec.kind ≡ PayerKind.user_byok → spec.monthly_cap_usd ≡ none))
unfolding check_master_did MasterNamed
check_master_did_iff spec =
    let named = named_iff (requires_master spec.kind) spec.master_did in
    let byok = byok_iff spec.kind spec.monthly_cap_usd in
    (
      λ h.
          let (checked, capped) = (both_iff _ _).0 h in
          let (missing, extra) = (both_iff _ _).0 checked in
          (
            named.0 ((raise_if_iff _ _).0 missing, (raise_if_iff _ _).0 extra),
            byok.0 ((raise_if_iff _ _).0 capped),
          ),
      λ n.
          let (missing, extra) = named.1 n.0 in
          (both_iff _ _).1 (
            (both_iff _ _).1 ((raise_if_iff _ _).1 missing, (raise_if_iff _ _).1 extra),
            (raise_if_iff _ _).1 (byok.1 n.1),
          ),
    )

nonempty_iff : (n : ℕ) (e : Error) → (raise_if (not (ltb 0 n)) e ≡ ok tt) ↔ (0 < n)
nonempty_iff n e = ground arith

-- A `PayerSpec` is constructed if and only if its vendor is named, its cap is not negative, a
-- funding principal is named exactly for the kinds that another master account pays, and no cap is
-- set where the key is the user's own.
pub check_spec_iff :
    {Usd : Type 0} (negative : Usd → Bool) (spec : PayerSpec Usd)
    → (check_spec negative spec ≡ ok tt) ↔ IsValidSpec negative spec
unfolding check_spec
check_spec_iff negative spec =
    let cap = check_cap_iff negative spec.monthly_cap_usd in
    let master = check_master_did_iff spec in
    (
      λ h.
          let (fields, validated) = (both_iff _ _).0 h in
          let (vendor, capped) = (both_iff _ _).0 fields in
          record {
            vendor_named = (nonempty_iff (length spec.vendor) _).0 vendor;
            cap_positive = cap.0 capped;
            master_named = (master.0 validated).0;
            byok_uncapped = (master.0 validated).1;
          },
      λ v. (both_iff _ _).1 (
        (both_iff _ _).1
            ((nonempty_iff (length spec.vendor) _).1 v.vendor_named, cap.1 v.cap_positive),
        master.1 (v.master_named, v.byok_uncapped),
      ),
    )

-- The spec of a class.
unfoldable pub spec_for : {Usd : Type 0} → PayerPolicy Usd → ResourceClass → PayerSpec Usd
spec_for p ResourceClass.llm = p.llm
spec_for p ResourceClass.storage = p.storage
spec_for p ResourceClass.compute = p.compute
spec_for p ResourceClass.tools = p.tools
spec_for p ResourceClass.comms = p.comms

validate_spec_iff :
    {Usd : Type 0} (spec : PayerSpec Usd) (r : ResourceClass)
    → (validate_spec spec r ≡ accepted) ↔ (is_offerable r spec.vendor spec.kind ≡ true)
unfolding validate_spec is_offerable
validate_spec_iff spec r = ground arith

andthen_iff : (a b : Verdict) → ((a andthen b) ≡ accepted) ↔ ((a ≡ accepted) × (b ≡ accepted))
andthen_iff accepted b = ground arith
andthen_iff (unsupported r v k s) b = ground arith

offered_iff :
    {Usd : Type 0} (spec : PayerSpec Usd) (r : ResourceClass)
    → (validate_spec spec r ≡ accepted)
      ↔ (offers (supported_kinds_for r spec.vendor) spec.kind ≡ true)
offered_iff spec r =
    ground (arith, validate_spec_iff spec r, supported_kinds_for_iff r spec.vendor spec.kind)

-- A policy passes the support matrix if and only if, for every class of resource, the kind of its
-- spec is one of those that the wizard lists for the class and the vendor.
pub validate_against_matrix_iff :
    {Usd : Type 0} (p : PayerPolicy Usd)
    → (validate_against_matrix p ≡ accepted) ↔ (
        (r : ResourceClass)
        → offers (supported_kinds_for r (spec_for p r).vendor) (spec_for p r).kind ≡ true)
unfolding validate_against_matrix validate_specs iter_specs spec_for
validate_against_matrix_iff p =
    let llm = offered_iff p.llm ResourceClass.llm in
    let storage = offered_iff p.storage ResourceClass.storage in
    let compute = offered_iff p.compute ResourceClass.compute in
    let tools = offered_iff p.tools ResourceClass.tools in
    let comms = offered_iff p.comms ResourceClass.comms in
    (
      λ h r.
          let (first, rest) = (andthen_iff _ _).0 h in
          let (second, rest) = (andthen_iff _ _).0 rest in
          let (third, rest) = (andthen_iff _ _).0 rest in
          let (fourth, rest) = (andthen_iff _ _).0 rest in
          elim r
            as (λ x.
              offers (supported_kinds_for x (spec_for p x).vendor) (spec_for p x).kind ≡ true) [
                | ResourceClass.llm ↦ llm.0 first
                | ResourceClass.storage ↦ storage.0 second
                | ResourceClass.compute ↦ compute.0 third
                | ResourceClass.tools ↦ tools.0 fourth
                | ResourceClass.comms ↦ comms.0 ((andthen_iff _ _).0 rest).0
              ],
      λ h. ground (
        arith,
        llm.1 (h ResourceClass.llm),
        storage.1 (h ResourceClass.storage),
        compute.1 (h ResourceClass.compute),
        tools.1 (h ResourceClass.tools),
        comms.1 (h ResourceClass.comms),
      ),
    )
