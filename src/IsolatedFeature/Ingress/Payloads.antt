-- ===== src/IsolatedFeature/Ingress/Payloads.antt =====
-- kestrel_sdk/isolated_feature/protocol.py: the payloads that are accepted.
use kestrel_sovereign_sdk.Prelude.{
  ℕ, suc, ◌+◌, ◌≤◌, max, Bool, true, false, ◌&&◌, Option, none, some, ok, ◌>>◌, both_iff, and_true,
  Check, ◌≡◌, ◌↔◌, refl, arith,
}
use kestrel_sovereign_sdk.IsolatedFeature.Values.{
  Value, null, boolean, integer, float, string, list, dict, foreign, Items, nil, cons, Fields, end,
  field, named, unnamed, is_finite,
}
use kestrel_sovereign_sdk.IsolatedFeature.Ingress.{
  validate_json, validate_items, validate_entries, check_depth, check_payload_size,
  validate_host_ingress_payload,
}

-- JSON with finite numbers and text keys.
unfoldable mutual
  pub is_strict : Value → Bool
  is_strict (float bits) = is_finite bits
  is_strict (list xs) = strict_items xs
  is_strict (dict fields) = strict_fields fields
  is_strict foreign = false
  is_strict _ = true

  pub strict_items : Items → Bool
  strict_items nil = true
  strict_items (cons x xs) = is_strict x && strict_items xs

  pub strict_fields : Fields → Bool
  strict_fields end = true
  strict_fields (field (named k) x rest) = is_strict x && strict_fields rest
  strict_fields (field unnamed x rest) = false

-- How deep the values of a container nest, the container's own level not counted.
unfoldable mutual
  pub nesting : Value → ℕ
  nesting (list xs) = items_nesting xs
  nesting (dict fields) = fields_nesting fields
  nesting _ = 0

  pub items_nesting : Items → ℕ
  items_nesting nil = 0
  items_nesting (cons x xs) = max (suc (nesting x)) (items_nesting xs)

  pub fields_nesting : Fields → ℕ
  fields_nesting end = 0
  fields_nesting (field k x rest) = max (suc (nesting x)) (fields_nesting rest)

check_depth_iff : (d : ℕ) → (check_depth d ≡ ok tt) ↔ (d ≤ 32)
check_depth_iff d = ground arith

-- A container's values are checked where its own level passes.
container_iff :
    (d : ℕ) (strict : Bool) (n : ℕ) (values : Check)
    → (d ≤ 32 → (values ≡ ok tt) ↔ ((strict ≡ true) × (d + n ≤ 32)))
    → ((check_depth d >> values) ≡ ok tt) ↔ ((strict ≡ true) × (d + n ≤ 32))
container_iff d strict n values inner =
    let split = both_iff (check_depth d) values in
    let level = check_depth_iff d in
    (
      λ h. (inner (level.0 (split.0 h).0)).0 (split.0 h).1,
      λ p. let le : d ≤ 32 = omega (arith, p.1) in split.1 (level.1 le, (inner le).1 p),
    )

-- A value, and the ones after it.
pair_iff :
    (d n m : ℕ) (a b : Bool) (x xs : Check)
    → (x ≡ ok tt) ↔ ((a ≡ true) × (suc d + n ≤ 32))
    → (xs ≡ ok tt) ↔ ((b ≡ true) × (d + m ≤ 32))
    → ((x >> xs) ≡ ok tt) ↔ (((a && b) ≡ true) × (d + max (suc n) m ≤ 32))
pair_iff d n m a b x xs first rest =
    let split = both_iff x xs in
    (
      λ h.
          let p = first.0 (split.0 h).0 in
          let q = rest.0 (split.0 h).1 in (ground (arith, p.0, q.0), omega (arith, p.1, q.1)),
      λ p.
          let (l, r) = and_true a b p.0 in
          split.1 (first.1 (l, omega (arith, p.1)), rest.1 (r, omega (arith, p.1))),
    )

check_payload_size_iff :
    (o : Option ℕ) → (check_payload_size o ≡ ok tt) ↔ ((n : ℕ) × (o ≡ some n) × (n ≤ 65536))
unfolding check_payload_size
check_payload_size_iff none = (λ h. cc, λ (n, e, le). cc e)
check_payload_size_iff (some n) =
    (λ h. (n, refl, ground arith), λ (m, e, le). ground (arith, le, e))

mutual
  unfolding validate_json is_strict nesting

  validate_json_iff :
      (d : ℕ) (v : Value)
      → (validate_json d v ≡ ok tt) ↔ ((is_strict v ≡ true) × (d + nesting v ≤ 32))
  validate_json_iff d null = ground arith
  validate_json_iff d (boolean b) = ground arith
  validate_json_iff d (integer n) = ground arith
  validate_json_iff d (string s) = ground arith
  validate_json_iff d (float bits) = ground arith
  validate_json_iff d (list xs) =
      container_iff d (strict_items xs) (items_nesting xs) _ (validate_items_iff d xs)
  validate_json_iff d (dict fields) =
      container_iff d (strict_fields fields) (fields_nesting fields) _
        (validate_fields_iff d fields)
  validate_json_iff d foreign = ground arith

  validate_items_iff :
      (d : ℕ) (xs : Items)
      → d ≤ 32
      → (validate_items (suc d) xs ≡ ok tt)
        ↔ ((strict_items xs ≡ true) × (d + items_nesting xs ≤ 32))
  validate_items_iff d nil le = ground arith
  validate_items_iff d (cons x xs) le =
      pair_iff d (nesting x) (items_nesting xs) (is_strict x) (strict_items xs) _ _
        (validate_json_iff (suc d) x) (validate_items_iff d xs le)

  validate_fields_iff :
      (d : ℕ) (fields : Fields)
      → d ≤ 32
      → (validate_entries (suc d) fields ≡ ok tt)
        ↔ ((strict_fields fields ≡ true) × (d + fields_nesting fields ≤ 32))
  validate_fields_iff d end le = ground arith
  validate_fields_iff d (field (named k) x rest) le =
      pair_iff d (nesting x) (fields_nesting rest) (is_strict x) (strict_fields rest) _ _
        (validate_json_iff (suc d) x) (validate_fields_iff d rest le)
  validate_fields_iff d (field unnamed x rest) le = ground arith

-- A payload is accepted, unchanged, if and only if it is JSON with finite numbers and text keys, it
-- nests at most 32 containers deep, and it encodes to at most 64 KiB.
pub validate_host_ingress_payload_iff :
    (encoded_size : Value → Option ℕ) (v : Value)
    → (validate_host_ingress_payload encoded_size v ≡ ok v) ↔ (
        (is_strict v ≡ true)
        × (nesting v ≤ 32)
        × ((n : ℕ) × (encoded_size v ≡ some n) × (n ≤ 65536)))
unfolding validate_host_ingress_payload
validate_host_ingress_payload_iff encoded_size v =
    ground (arith, validate_json_iff 0 v, check_payload_size_iff (encoded_size v))
