-- ===== src/FrozenJson/Walk/Keeps.antt =====
-- kestrel_sdk/_frozen_json.py: a property of the walk's state that each of its steps keeps is kept
-- by a freeze; so the bounds of `JSONLimits` hold after it.
use kestrel_sovereign_sdk.Prelude.{
  ℕ, zero, suc, ◌≤◌, Bool, true, false, Option, none, some, List, [], ◌∷◌, Result, ok, ◌>>=◌,
  raise_if, >>=-eq-ok, returns_by, ◌≡◌, arith, get_elem?, if◌then◌else◌,
}
use kestrel_sovereign_sdk.FrozenJson.Values.{
  Scalar, null, boolean, number, string, Value, scalar, ref, Container, mapping, sequence, Heap,
  Frozen, leaf, Items, nil, Fields, end, Config, Encoding, encoded, unicode_encode_error,
  digits_value_error, append_item, set_field,
}
use kestrel_sovereign_sdk.FrozenJson.Walk.{
  State, add_bytes, add_node, add_key, add_scalar, add_scalar_to, add_encoding, validated,
  freeze_scalar, enter, leave, freeze_items, freeze_entries, freeze_container, freeze, dispatch,
  exceeds,
}

-- `P` holds after each step that counts.
pub record Kept {N : Type 0} (c : Config N) (P : State → Type 0) : Type 0 where
  pub bytes : (count : ℕ) (w w' : State) → add_bytes c count w ≡ ok w' → P w → P w'
  pub node : (w w' : State) → add_node c w ≡ ok w' → P w → P w'
  pub key : (w w' : State) → add_key c w ≡ ok w' → P w → P w'

-- It holds inside a container, and behind it.
record KeptAround {N : Type 0} (c : Config N) (P : State → Type 0) : Type 0 where
  entered : (a : ℕ) (w w' : State) → enter c a w ≡ ok w' → P w → P w'
  left : (a : ℕ) (w : State) → P w → P (leave c a w)

module _ {N : Type 0} (c : Config N) {P : State → Type 0} (keep : Kept c P) where
  open keep use {bytes, node, key}

  Kept-add_scalar_to :
      (o : Option ℕ) (s : Scalar N) (w : State) {w' : State}
      → add_scalar_to c o s w ≡ ok w'
      → P w
      → P w'
  unfolding add_scalar_to
  Kept-add_scalar_to none s w h p = returns_by P h p
  Kept-add_scalar_to (some n) s w h p = from (c.dumps_scalar s) h
    where
      from : {w' : State} (d : Encoding) → add_encoding c d w ≡ ok w' → P w'
      from (encoded bs) h' = bytes _ w _ h' p
      from unicode_encode_error h' = cc
      from digits_value_error h' = cc

  pub Kept-add_scalar :
      (s : Scalar N) (w : State) {w' : State} → add_scalar c s w ≡ ok w' → P w → P w'
  unfolding add_scalar
  Kept-add_scalar s w h p = Kept-add_scalar_to w.size s w h p

  Kept-leaf :
      (s : Scalar N) (w : State) {r : Frozen N × State}
      → (add_scalar c s w >>= λ w'. ok (leaf s, w')) ≡ ok r
      → P w
      → P r.1
  Kept-leaf s w h p =
      let (w1, added, returned) = >>=-eq-ok (add_scalar c s w) _ h in
      returns_by (λ r. P r.1) returned (Kept-add_scalar s w added p)

  pub Kept-freeze_scalar :
      (s : Scalar N) (w : State) {r : Frozen N × State} → freeze_scalar c s w ≡ ok r → P w → P r.1
  unfolding freeze_scalar
  Kept-freeze_scalar null w h p = Kept-leaf null w h p
  Kept-freeze_scalar (boolean b) w h p = Kept-leaf (boolean b) w h p
  Kept-freeze_scalar (string s) w h p =
      let (s', _, stored) = >>=-eq-ok (validated c.validate_string s) _ h in
      Kept-leaf (string s') w stored p
  Kept-freeze_scalar (number x) w h p =
      let (_, _, rest) = >>=-eq-ok (raise_if (c.is_nonfinite x) _) _ h in
      let (x', _, stored) = >>=-eq-ok (validated c.validate_number x) _ rest in
      Kept-leaf (number x') w stored p

  module _ (rec : Value N → State → Result (Frozen N × State))
      (keeps : (v : Value N) (w : State) (r : Frozen N × State)
        → rec v w ≡ ok r
        → P w
        → P r.1) where
    Kept-separator :
        (first : Bool) (w : State) {w' : State}
        → (if first then ok w else add_bytes c 1 w) ≡ ok w'
        → P w
        → P w'
    Kept-separator true w h p = returns_by P h p
    Kept-separator false w h p = bytes 1 w _ h p

    pub Kept-freeze_items :
        (first : Bool) (acc : Items N) (xs : List (Value N)) (w : State) {r : Items N × State}
        → freeze_items c rec first acc xs w ≡ ok r
        → P w
        → P r.1
    unfolding freeze_items
    Kept-freeze_items first acc [] w h p = returns_by (λ r. P r.1) h p
    Kept-freeze_items first acc (x ∷ xs) w h p =
        let (w1, separated, rest1) = >>=-eq-ok (if first then ok w else add_bytes c 1 w) _ h in
        let (r2, frozen, rest2) = >>=-eq-ok (rec x w1) _ rest1 in
        Kept-freeze_items false (append_item acc r2.0) xs r2.1 rest2
          (keeps x w1 r2 frozen (Kept-separator first w separated p))

    pub Kept-freeze_entries :
        (first : Bool) (acc : Fields N) (es : List (Value N × Value N)) (w : State)
        {r : Fields N × State}
        → freeze_entries c rec first acc es w ≡ ok r
        → P w
        → P r.1
    unfolding freeze_entries
    Kept-freeze_entries first acc [] w h p = returns_by (λ r. P r.1) h p
    Kept-freeze_entries first acc ((raw, item) ∷ es) w h p =
        let (k, _, rest) = >>=-eq-ok (c.validate_key raw) _ h in
        let (w1, counted, rest1) = >>=-eq-ok (add_key c w) _ rest in
        let (w2, named, rest2) = >>=-eq-ok (add_scalar c (string k) w1) _ rest1 in
        let (w3, marked, rest3) = >>=-eq-ok (add_bytes c (if first then 1 else 2) w2) _ rest2 in
        let (r4, frozen, rest4) = >>=-eq-ok (rec item w3) _ rest3 in
        Kept-freeze_entries false (set_field k r4.0 acc) es r4.1 rest4 (
          keeps item w3 r4 frozen
            (bytes _ w2 w3 marked (Kept-add_scalar (string k) w1 named (key w w1 counted p))))

module _ {N : Type 0} (c : Config N) {P : State → Type 0} (keep : Kept c P)
    (around : KeptAround c P) where
  open keep use {bytes, node}
  open around use {entered, left}

  module _ (rec : Value N → State → Result (Frozen N × State))
      (keeps : (v : Value N) (w : State) (r : Frozen N × State)
        → rec v w ≡ ok r
        → P w
        → P r.1) where
    Kept-freeze_container :
        (a : ℕ) (o : Option (Container N)) (w : State) {r : Frozen N × State}
        → freeze_container c rec a o w ≡ ok r
        → P w
        → P r.1
    unfolding freeze_container
    Kept-freeze_container a none w h p = cc
    Kept-freeze_container a (some (mapping es)) w h p =
        let (w1, came, rest1) = >>=-eq-ok (enter c a w) _ h in
        let (w2, opened, rest2) = >>=-eq-ok (add_bytes c 2 w1) _ rest1 in
        let (r3, looped, rest3) = >>=-eq-ok (freeze_entries c rec true end es w2) _ rest2 in
        returns_by (λ r. P r.1) rest3
          (left a r3.1 (
            Kept-freeze_entries c keep rec keeps true end es w2 looped
              (bytes 2 w1 w2 opened (entered a w w1 came p))))
    Kept-freeze_container a (some (sequence xs)) w h p =
        let (w1, came, rest1) = >>=-eq-ok (enter c a w) _ h in
        let (w2, opened, rest2) = >>=-eq-ok (add_bytes c 2 w1) _ rest1 in
        let (r3, looped, rest3) = >>=-eq-ok (freeze_items c rec true nil xs w2) _ rest2 in
        returns_by (λ r. P r.1) rest3
          (left a r3.1 (
            Kept-freeze_items c keep rec keeps true nil xs w2 looped
              (bytes 2 w1 w2 opened (entered a w w1 came p))))

  Kept-freeze :
      (heap : Heap N) (fuel depth : ℕ) (v : Value N) (w : State) {r : Frozen N × State}
      → freeze c heap fuel depth v w ≡ ok r
      → P w
      → P r.1
  unfolding freeze dispatch
  Kept-freeze heap zero depth v w h p = cc
  Kept-freeze heap (suc fuel) depth (scalar s) w h p =
      let (_, _, rest) = >>=-eq-ok (raise_if (exceeds c.limits.max_depth depth) _) _ h in
      let (w1, noded, rest1) = >>=-eq-ok (add_node c w) _ rest in
      Kept-freeze_scalar c keep s w1 rest1 (node w w1 noded p)
  Kept-freeze heap (suc fuel) depth (ref a) w h p =
      let (_, _, rest) = >>=-eq-ok (raise_if (exceeds c.limits.max_depth depth) _) _ h in
      let (w1, noded, rest1) = >>=-eq-ok (add_node c w) _ rest in
      Kept-freeze_container (freeze c heap fuel (suc depth))
        (λ v' w' r' h' p'. Kept-freeze heap fuel (suc depth) v' w' h' p') a (get_elem? heap a) w1
        rest1 (node w w1 noded p)

-- `n` is within a bound that is set.
abbrev pub AtMost : ℕ → Option ℕ → Type 0
AtMost n none = Unit
AtMost n (some limit) = n ≤ limit

abbrev pub SizeAtMost : Option ℕ → Option ℕ → Type 0
SizeAtMost none limit = Unit
SizeAtMost (some n) limit = AtMost n limit

pub record IsWithin {N : Type 0} (c : Config N) (w : State) : Type 0 where
  pub nodes : AtMost w.nodes c.limits.max_nodes
  pub keys : AtMost w.keys c.limits.max_keys
  pub size : SizeAtMost w.size c.limits.max_encoded_bytes

IsWithin-Kept : {N : Type 0} (c : Config N) → Kept c (IsWithin c)
unfolding add_bytes add_node add_key
IsWithin-Kept c = record {
  bytes = λ count w w' h p. ground arith;
  node = λ w w' h p. ground arith;
  key = λ w w' h p. ground arith;
}

IsWithin-KeptAround : {N : Type 0} (c : Config N) → KeptAround c (IsWithin c)
unfolding enter leave
IsWithin-KeptAround c = record {
  entered = λ a w w' h p. ground arith;
  left = λ a w p. record { nodes = p.nodes; keys = p.keys; size = p.size };
}

-- A freeze that starts within the limits ends within them.
pub freeze-IsWithin :
    {N : Type 0} (c : Config N) (heap : Heap N) (fuel depth : ℕ) (v : Value N) (w : State)
    {r : Frozen N × State}
    → freeze c heap fuel depth v w ≡ ok r
    → IsWithin c w
    → IsWithin c r.1
freeze-IsWithin c heap fuel depth v w h p =
    Kept-freeze c (IsWithin-Kept c) (IsWithin-KeptAround c) heap fuel depth v w h p
