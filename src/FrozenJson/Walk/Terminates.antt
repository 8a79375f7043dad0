-- ===== src/FrozenJson/Walk/Terminates.antt =====
-- kestrel_sdk/_frozen_json.py: the cycle check and the depth bound end every walk before the
-- interpreter's stack is used up.
use kestrel_sovereign_sdk.Prelude.{
  ℕ, zero, suc, ◌+◌, ◌≤◌, ◌<◌, Bool, true, false, Option, none, some, List, [], ◌∷◌, Text, Result,
  ok, err, recursion_error, ◌>>=◌, raise_if, Error, json_limit_error, ◌≡◌, ◌≢◌, refl, arith,
  get_elem?, length, if◌then◌else◌,
}
use kestrel_sovereign_sdk.FrozenJson.Values.{
  Scalar, null, boolean, number, string, Value, scalar, ref, Container, mapping, sequence, Heap,
  Frozen, Items, nil, Fields, end, Config, append_item, set_field,
}
use kestrel_sovereign_sdk.FrozenJson.Walk.{
  State, add_bytes, add_node, add_key, add_scalar, validated, freeze_scalar, enter, mem,
  freeze_items, freeze_entries, freeze_container, freeze, dispatch, exceeds,
}
use kestrel_sovereign_sdk.FrozenJson.Walk.Keeps.{Kept-add_scalar}
use kestrel_sovereign_sdk.FrozenJson.Walk.Ancestors.{
  HasAncestors, HasAncestors-Kept, enter-HasAncestors, freeze-HasAncestors,
}

-- The computation does not end in a RecursionError.
abbrev pub Returns {ℓ} : {A : Type ℓ} → Result A → Type ℓ
Returns {A = A} m = m ≢ err recursion_error

pub Returns-bind {ℓ κ} :
    {A : Type ℓ} {B : Type κ} (m : Result A) (f : A → Result B)
    → Returns m
    → ((a : A) → m ≡ ok a → Returns (f a))
    → Returns (m >>= f)
Returns-bind (ok a) f h k = k a refl
Returns-bind (err e) f h k = λ p. h (cc)

-- How many of the identities below `n` are not among the ancestors.
abbrev pub free : ℕ → List ℕ → ℕ
free zero above = 0
free (suc n) above = (if mem n above then 0 else 1) + free n above

free-cons-le : (n a : ℕ) (above : List ℕ) → free n (a ∷ above) ≤ free n above
free-cons-le zero a above = omega arith
free-cons-le (suc n) a above = ground (arith, free-cons-le n a above)

-- Entering a container that is not on the path uses up one.
free-cons-lt :
    (n a : ℕ) (above : List ℕ) → a < n → mem a above ≡ false → free n (a ∷ above) < free n above
free-cons-lt zero a above h new = elim h [ ]
free-cons-lt (suc n) a above h new = ground (arith, free-cons-le n a above, free-cons-lt n a above)

pub free-le : (n : ℕ) (above : List ℕ) → free n above ≤ n
free-le zero above = omega arith
free-le (suc n) above = ground (arith, free-le n above)

get_elem?-lt {ℓ} :
    {A : Type ℓ} (xs : List A) (i : ℕ) {a : A} → get_elem? xs i ≡ some a → i < length xs
get_elem?-lt [] i h = cc
get_elem?-lt (x ∷ xs) zero h = omega arith
get_elem?-lt (x ∷ xs) (suc i) h = omega (arith, get_elem?-lt xs i h)

-- The caller's validators raise no RecursionError.
pub record ValidatorsReturn {N : Type 0} (c : Config N) : Type 0 where
  pub keys : (v : Value N) → Returns (c.validate_key v)
  pub strings : (s : Text) → Returns (validated c.validate_string s)
  pub numbers : (n : N) → Returns (validated c.validate_number n)

module _ {N : Type 0} (c : Config N) (validators : ValidatorsReturn c) where
  raise_if-Returns : (b : Bool) (s : _) → Returns (raise_if b (json_limit_error s))
  raise_if-Returns b s = λ p. ground arith

  add_bytes-Returns : (count : ℕ) (w : State) → Returns (add_bytes c count w)
  unfolding add_bytes
  add_bytes-Returns count w = λ p. ground arith

  add_node-Returns : (w : State) → Returns (add_node c w)
  unfolding add_node
  add_node-Returns w = λ p. ground arith

  add_key-Returns : (w : State) → Returns (add_key c w)
  unfolding add_key
  add_key-Returns w = λ p. ground arith

  enter-Returns : (a : ℕ) (w : State) → Returns (enter c a w)
  unfolding enter
  enter-Returns a w = λ p. ground arith

  add_scalar-Returns : (s : Scalar N) (w : State) → Returns (add_scalar c s w)
  unfolding add_scalar add_bytes
  add_scalar-Returns s w = λ p. ground arith

  stored-Returns :
      {A : Type 0} (s : Scalar N) (w : State) (f : State → A)
      → Returns (add_scalar c s w >>= λ w'. ok (f w'))
  stored-Returns s w f =
      Returns-bind (add_scalar c s w) (λ w'. ok (f w')) (add_scalar-Returns s w) (λ _ _ p. cc)

  freeze_scalar-Returns : (s : Scalar N) (w : State) → Returns (freeze_scalar c s w)
  unfolding freeze_scalar
  freeze_scalar-Returns null w = stored-Returns null w _
  freeze_scalar-Returns (boolean b) w = stored-Returns (boolean b) w _
  freeze_scalar-Returns (string s) w =
      Returns-bind (validated c.validate_string s) _ (validators.strings s)
        (λ s' _. stored-Returns (string s') w _)
  freeze_scalar-Returns (number x) w =
      Returns-bind (raise_if (c.is_nonfinite x) _) _ (raise_if-Returns (c.is_nonfinite x) _) (λ _ _.
        Returns-bind (validated c.validate_number x) _ (validators.numbers x)
          (λ x' _. stored-Returns (number x') w _))

  module _ (rec : Value N → State → Result (Frozen N × State)) (above : List ℕ)
      (keeps : (v : Value N) (w : State) (r : Frozen N × State)
        → rec v w ≡ ok r
        → HasAncestors c above w
        → HasAncestors c above r.1)
      (returns : (v : Value N) (w : State) → HasAncestors c above w → Returns (rec v w)) where
    open (HasAncestors-Kept c above) use {bytes, key}

    separator-Returns :
        (first : Bool) (w : State) → Returns (if first then ok w else add_bytes c 1 w)
    separator-Returns true w = λ p. cc
    separator-Returns false w = add_bytes-Returns 1 w

    separator-keeps :
        (first : Bool) (w w' : State)
        → (if first then ok w else add_bytes c 1 w) ≡ ok w'
        → HasAncestors c above w
        → HasAncestors c above w'
    separator-keeps true w w' h p = ground arith
    separator-keeps false w w' h p = bytes 1 w w' h p

    freeze_items-Returns :
        (first : Bool) (acc : Items N) (xs : List (Value N)) (w : State)
        → HasAncestors c above w
        → Returns (freeze_items c rec first acc xs w)
    unfolding freeze_items
    freeze_items-Returns first acc [] w p = λ e. cc
    freeze_items-Returns first acc (x ∷ xs) w p =
        Returns-bind (if first then ok w else add_bytes c 1 w) _ (separator-Returns first w)
          (λ w1 h1.
            let p1 = separator-keeps first w w1 h1 p in
            Returns-bind (rec x w1) _ (returns x w1 p1) (λ r2 h2.
              freeze_items-Returns false (append_item acc r2.0) xs r2.1 (keeps x w1 r2 h2 p1)))

    freeze_entries-Returns :
        (first : Bool) (acc : Fields N) (es : List (Value N × Value N)) (w : State)
        → HasAncestors c above w
        → Returns (freeze_entries c rec first acc es w)
    unfolding freeze_entries
    freeze_entries-Returns first acc [] w p = λ e. cc
    freeze_entries-Returns first acc ((raw, item) ∷ es) w p =
        Returns-bind (c.validate_key raw) _ (validators.keys raw) (λ k _.
          Returns-bind (add_key c w) _ (add_key-Returns w) (λ w1 h1.
            Returns-bind (add_scalar c (string k) w1) _ (add_scalar-Returns (string k) w1) (λ w2 h2.
              Returns-bind (add_bytes c (if first then 1 else 2) w2) _ (add_bytes-Returns _ w2)
                (λ w3 h3.
                  let p3 = bytes _ w2 w3 h3 (
                    Kept-add_scalar c (HasAncestors-Kept c above) (string k) w1 h2
                      (key w w1 h1 p)) in
                  Returns-bind (rec item w3) _ (returns item w3 p3) (λ r4 h4.
                    freeze_entries-Returns false (set_field k r4.0 acc) es r4.1
                      (keeps item w3 r4 h4 p3))))))

  abbrev KeepsAncestors : (Value N → State → Result (Frozen N × State)) → Type 0
  KeepsAncestors rec =
      (above : List ℕ) (v : Value N) (w : State) (r : Frozen N × State)
      → rec v w ≡ ok r
      → HasAncestors c above w
      → HasAncestors c above r.1

  within_depth :
      (depth limit : ℕ) (e : Error)
      → c.limits.max_depth ≡ some limit
      → raise_if (exceeds c.limits.max_depth depth) e ≡ ok tt
      → depth ≤ limit
  within_depth depth limit e bound h = ground arith

  container-Returns :
      (rec : Value N → State → Result (Frozen N × State))
      → KeepsAncestors rec
      → (a : ℕ) (o : Option (Container N)) (above : List ℕ) (w : State)
      → ((x : Container N)
          → o ≡ some x
          → mem a above ≡ false
          → (v : Value N) (w' : State) → HasAncestors c (a ∷ above) w'
          → Returns (rec v w'))
      → HasAncestors c above w
      → Returns (freeze_container c rec a o w)
  unfolding freeze_container
  container-Returns rec keeps a none above w returns p = λ e. cc
  container-Returns rec keeps a (some (mapping es)) above w returns p =
      Returns-bind (enter c a w) _ (enter-Returns a w) (λ w1 h1.
        Returns-bind (add_bytes c 2 w1) _ (add_bytes-Returns 2 w1) (λ w2 h2.
          let (new, p1) = enter-HasAncestors c a above w h1 p in
          let p2 = (HasAncestors-Kept c (a ∷ above)).bytes 2 w1 w2 h2 p1 in
          Returns-bind (freeze_entries c rec true end es w2) _
            (freeze_entries-Returns rec (a ∷ above) (keeps (a ∷ above)) (returns _ refl new) true
              end es w2 p2)
            (λ _ _ e. cc)))
  container-Returns rec keeps a (some (sequence xs)) above w returns p =
      Returns-bind (enter c a w) _ (enter-Returns a w) (λ w1 h1.
        Returns-bind (add_bytes c 2 w1) _ (add_bytes-Returns 2 w1) (λ w2 h2.
          let (new, p1) = enter-HasAncestors c a above w h1 p in
          let p2 = (HasAncestors-Kept c (a ∷ above)).bytes 2 w1 w2 h2 p1 in
          Returns-bind (freeze_items c rec true nil xs w2) _
            (freeze_items-Returns rec (a ∷ above) (keeps (a ∷ above)) (returns _ refl new) true nil
              xs w2 p2)
            (λ _ _ e. cc)))

  module _ (heap : Heap N) where
    -- Fuel beyond the number of containers that are not on the path is enough.
    pub freeze-Returns :
        (fuel depth : ℕ) (above : List ℕ) (v : Value N) (w : State)
        → free (length heap) above < fuel
        → HasAncestors c above w
        → Returns (freeze c heap fuel depth v w)
    unfolding freeze dispatch
    freeze-Returns zero depth above v w enough p = elim enough [ ]
    freeze-Returns (suc fuel) depth above (scalar s) w enough p =
        Returns-bind (raise_if (exceeds c.limits.max_depth depth) _) _
          (raise_if-Returns (exceeds c.limits.max_depth depth) _)
          (λ _ _.
            Returns-bind (add_node c w) _ (add_node-Returns w) (λ w1 _. freeze_scalar-Returns s w1))
    freeze-Returns (suc fuel) depth above (ref a) w enough p =
        Returns-bind (raise_if (exceeds c.limits.max_depth depth) _) _
          (raise_if-Returns (exceeds c.limits.max_depth depth) _)
          (λ _ _. Returns-bind (add_node c w) _ (add_node-Returns w) (λ w1 h1.
            let p1 = (HasAncestors-Kept c above).node w w1 h1 p in
            container-Returns (freeze c heap fuel (suc depth))
              (λ above' v' w' r' h' p'.
                freeze-HasAncestors c heap fuel (suc depth) above' v' w' r' h' p')
              a (get_elem? heap a) above w1
              (λ x found new v' w' p'.
                freeze-Returns fuel (suc depth) (a ∷ above) v' w'
                  (omega
                    (arith, free-cons-lt (length heap) a above (get_elem?-lt heap a found) new))
                  p')
              p1))

    -- So is fuel for the levels that the depth bound leaves, and one more.
    pub freeze-Returns_of_depth :
        (limit fuel depth : ℕ) (above : List ℕ) (v : Value N) (w : State)
        → c.limits.max_depth ≡ some limit
        → limit + 2 ≤ fuel + depth
        → 0 < fuel
        → HasAncestors c above w
        → Returns (freeze c heap fuel depth v w)
    unfolding freeze dispatch
    freeze-Returns_of_depth limit zero depth above v w bound enough some_fuel p = elim some_fuel [ ]
    freeze-Returns_of_depth limit (suc fuel) depth above (scalar s) w bound enough some_fuel p =
        Returns-bind (raise_if (exceeds c.limits.max_depth depth) _) _
          (raise_if-Returns (exceeds c.limits.max_depth depth) _)
          (λ _ _.
            Returns-bind (add_node c w) _ (add_node-Returns w) (λ w1 _. freeze_scalar-Returns s w1))
    freeze-Returns_of_depth limit (suc fuel) depth above (ref a) w bound enough some_fuel p =
        Returns-bind (raise_if (exceeds c.limits.max_depth depth) _) _
          (raise_if-Returns (exceeds c.limits.max_depth depth) _)
          (λ _ shallow. Returns-bind (add_node c w) _ (add_node-Returns w) (λ w1 h1.
            container-Returns (freeze c heap fuel (suc depth))
              (λ above' v' w' r' h' p'.
                freeze-HasAncestors c heap fuel (suc depth) above' v' w' r' h' p')
              a (get_elem? heap a) above w1
              (λ x found new v' w' p'.
                freeze-Returns_of_depth limit fuel (suc depth) (a ∷ above) v' w' bound (omega arith)
                  (omega (arith, within_depth depth limit _ bound shallow)) p')
              ((HasAncestors-Kept c above).node w w1 h1 p)))
