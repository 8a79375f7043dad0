-- ===== src/ComputerUse/Acquisition/Preparation.antt =====
-- kestrel_sdk/computer_use/acquisition.py: the bytes that the digest of a preparation hashes.
use kestrel_sovereign_sdk.Prelude.{
  ℕ, zero, suc, ◌/◌, ◌%◌, ◌^◌, ◌≤◌, ◌<◌, List, [], ◌∷◌, ◌++◌, codes, ok, ◌≡◌, ◌↔◌, refl, sym, ◌∙◌,
  ap, arith, length, length-append,
}
use kestrel_sovereign_sdk.ComputerUse.Acquisition.{
  EnvironmentAcquisitionPreparation, to_bytes, preparation_bytes, validate_preparation,
}

length-to_bytes : (k n : ℕ) → length (to_bytes k n) ≡ k
unfolding to_bytes
length-to_bytes zero n = refl
length-to_bytes (suc k) n =
    omega (arith, length-append (to_bytes k (n / 256)) (n % 256 ∷ []), length-to_bytes k (n / 256))

-- Two lists of one length before equal rests: the parts are equal.
append-split :
    (a b : List ℕ) {c d : List ℕ} → length a ≡ length b → (a ++ c) ≡ (b ++ d) → (a ≡ b) × (c ≡ d)
append-split [] [] h e = (refl, e)
append-split (x ∷ a) (y ∷ b) {c} {d} h e =
    let same : x ≡ y = cc in
    let tails : (a ++ c) ≡ (b ++ d) = cc in
    let (t, rest) = append-split a b (omega (arith, h)) tails in
    (ap (λ z. z ∷ a) same ∙ ap (λ u. y ∷ u) t, rest)
append-split [] (y ∷ b) h e = ground (arith, h)
append-split (x ∷ a) [] h e = ground (arith, h)

to_bytes-injective : (k n m : ℕ) → n < 256 ^ k → m < 256 ^ k → to_bytes k n ≡ to_bytes k m → n ≡ m
unfolding to_bytes
to_bytes-injective zero n m h g e = omega (arith, h, g)
to_bytes-injective (suc k) n m h g e =
    let (front, last) =
      append-split (to_bytes k (n / 256)) (to_bytes k (m / 256))
        (length-to_bytes k (n / 256) ∙ sym (length-to_bytes k (m / 256))) e in
    let high =
      to_bytes-injective k (n / 256) (m / 256) (omega (arith, h)) (omega (arith, g)) front in
    let low : n % 256 ≡ m % 256 = cc in omega (arith, high, low)

-- A field with its length before it, at the front of equal bytes.
framed-split :
    (a b : List ℕ) {c d : List ℕ}
    → length a ≤ 524288
    → length b ≤ 524288
    → (to_bytes 8 (length a) ++ (a ++ c)) ≡ (to_bytes 8 (length b) ++ (b ++ d))
    → (a ≡ b) × (c ≡ d)
framed-split a b h g e =
    let (size, rest) =
      append-split (to_bytes 8 (length a)) (to_bytes 8 (length b))
        (length-to_bytes 8 (length a) ∙ sym (length-to_bytes 8 (length b))) e in
    append-split a b
      (to_bytes-injective 8 (length a) (length b) (omega (arith, h)) (omega (arith, g)) size) rest

validate_preparation_iff :
    (p : EnvironmentAcquisitionPreparation)
    → (validate_preparation p ≡ ok tt) ↔ (
        (1 ≤ length p.create_payload)
        × (length p.create_payload ≤ 524288)
        × (1 ≤ length p.worker_identity)
        × (length p.worker_identity ≤ 131072))
unfolding validate_preparation
validate_preparation_iff p = ground arith

-- Two preparations that keep the byte bounds and give SHA-256 the same bytes are the same: no bytes
-- can pass from the payload to the identity.
pub preparation_bytes-injective :
    (p q : EnvironmentAcquisitionPreparation)
    → validate_preparation p ≡ ok tt
    → validate_preparation q ≡ ok tt
    → preparation_bytes p ≡ preparation_bytes q
    → p ≡ q
unfolding preparation_bytes
preparation_bytes-injective p q h g e =
    let (_, pc, _, pw) = (validate_preparation_iff p).0 h in
    let (_, qc, _, qw) = (validate_preparation_iff q).0 g in
    let tag = codes "kestrel-environment-preparation-v1" in
    let (_, framed) = append-split (tag ++ 0 ∷ []) (tag ++ 0 ∷ []) refl e in
    let (payload, rest) = framed-split p.create_payload q.create_payload pc qc framed in
    let (_, identity) =
      append-split (to_bytes 8 (length p.worker_identity)) (to_bytes 8 (length q.worker_identity))
        (length-to_bytes 8 (length p.worker_identity)
          ∙ sym (length-to_bytes 8 (length q.worker_identity)))
        rest in
    ground (arith, payload, identity)
