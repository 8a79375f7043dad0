-- ===== src/FrozenJson/Walk/Size.antt =====
-- kestrel_sdk/_frozen_json.py: the size that the walk accumulates against the canonical encoding.
use kestrel_sovereign_sdk.Prelude.{
  ℕ, ◌+◌, some, List, ◌++◌, ok, ◌>>=◌, raise_if, >>=-eq-ok, returns_by, ◌≡◌, refl, subst, ap, ◌∙◌,
  arith, length, length-append,
}
use kestrel_sovereign_sdk.FrozenJson.Values.{
  Scalar, null, boolean, number, string, Frozen, leaf, Config, Encoding, encoded,
  unicode_encode_error, digits_value_error,
}
use kestrel_sovereign_sdk.FrozenJson.Canonical.{thaw_json, after, ◌⨾◌, compact}
use kestrel_sovereign_sdk.FrozenJson.Walk.{
  State, add_bytes, add_node, add_key, add_scalar, freeze_scalar, enter, add_encoding,
  add_scalar_to, validated,
}

-- The encoding succeeds, with so many bytes.
pub record EncodesTo (e : Encoding) (n : ℕ) : Type 0 where
  pub bytes : List ℕ
  pub encodes : e ≡ encoded bytes
  pub measured : length bytes ≡ n

pub EncodesTo-after :
    (bs : List ℕ) {e : Encoding} {n : ℕ} → EncodesTo e n → EncodesTo (after bs e) (length bs + n)
EncodesTo-after bs h = record {
  bytes = bs ++ h.bytes;
  encodes = rw h.encodes;
  measured = length-append bs h.bytes ∙ ap (λ t. length bs + t) h.measured;
}

pub EncodesTo-then :
    {e f : Encoding} {m n : ℕ} → EncodesTo e m → EncodesTo f n → EncodesTo (e ⨾ f) (m + n)
EncodesTo-then h k = record {
  bytes = h.bytes ++ k.bytes;
  encodes = rw (h.encodes, k.encodes);
  measured = length-append h.bytes k.bytes ∙ omega (arith, h.measured, k.measured);
}

pub EncodesTo-cast : {e : Encoding} {m n : ℕ} → m ≡ n → EncodesTo e m → EncodesTo e n
EncodesTo-cast p h = record { bytes = h.bytes; encodes = h.encodes; measured = h.measured ∙ p }

module _ {N : Type 0} (c : Config N) where
  pub size-add_bytes :
      (count : ℕ) (w : State) {w' : State} {n : ℕ}
      → add_bytes c count w ≡ ok w'
      → w.size ≡ some n
      → w'.size ≡ some (n + count)
  unfolding add_bytes
  size-add_bytes count w e sz = ground arith

  pub size-add_node : (w : State) {w' : State} → add_node c w ≡ ok w' → w'.size ≡ w.size
  unfolding add_node
  size-add_node w e = ground arith

  pub size-add_key : (w : State) {w' : State} → add_key c w ≡ ok w' → w'.size ≡ w.size
  unfolding add_key
  size-add_key w e = ground arith

  pub size-enter : (a : ℕ) (w : State) {w' : State} → enter c a w ≡ ok w' → w'.size ≡ w.size
  unfolding enter
  size-enter a w e = ground arith

  -- What one step adds to the size is the length of the encoding `e`.
  abbrev pub Adds : Encoding → State → ℕ → Type 0
  Adds e w' n = (k : ℕ) × (w'.size ≡ some (n + k)) × EncodesTo e k

  size-add_encoding :
      (e : Encoding) (w : State) {w' : State} {n : ℕ}
      → add_encoding c e w ≡ ok w'
      → w.size ≡ some n
      → Adds e w' n
  unfolding add_encoding
  size-add_encoding (encoded bytes) w h sz = (
    length bytes,
    size-add_bytes (length bytes) w h sz,
    record { bytes = bytes; encodes = refl; measured = refl },
  )
  size-add_encoding unicode_encode_error w h sz = cc
  size-add_encoding digits_value_error w h sz = cc

  pub size-add_scalar :
      (s : Scalar N) (w : State) {w' : State} {n : ℕ}
      → add_scalar c s w ≡ ok w'
      → w.size ≡ some n
      → Adds (c.dumps_scalar s) w' n
  unfolding add_scalar
  size-add_scalar s w {w'} h sz =
      size-add_encoding (c.dumps_scalar s) w (subst (λ o. add_scalar_to c o s w ≡ ok w') sz h) sz

  -- A step returns a frozen value and adds the length of its encoding.
  abbrev pub AddsJson : ℕ → Frozen N × State → Type 0
  AddsJson n r = Adds (compact c.dumps_scalar (thaw_json r.0)) r.1 n

  size-leaf :
      (s : Scalar N) (w : State) {r : Frozen N × State} {n : ℕ}
      → (add_scalar c s w >>= λ w'. ok (leaf s, w')) ≡ ok r
      → w.size ≡ some n
      → AddsJson n r
  unfolding thaw_json compact
  size-leaf s w {r} {n} h sz =
      let (w1, added, returned) = >>=-eq-ok (add_scalar c s w) (λ w'. ok (leaf s, w')) h in
      returns_by (AddsJson n) returned (size-add_scalar s w added sz)

  pub size-freeze_scalar :
      (s : Scalar N) (w : State) {r : Frozen N × State} {n : ℕ}
      → freeze_scalar c s w ≡ ok r
      → w.size ≡ some n
      → AddsJson n r
  unfolding freeze_scalar
  size-freeze_scalar null w h sz = size-leaf null w h sz
  size-freeze_scalar (boolean b) w h sz = size-leaf (boolean b) w h sz
  size-freeze_scalar (string s) w h sz =
      let (s', _, stored) = >>=-eq-ok (validated c.validate_string s) _ h in
      size-leaf (string s') w stored sz
  size-freeze_scalar (number x) w h sz =
      let (_, _, rest) = >>=-eq-ok (raise_if (c.is_nonfinite x) _) _ h in
      let (x', _, stored) = >>=-eq-ok (validated c.validate_number x) _ rest in
      size-leaf (number x') w stored sz
