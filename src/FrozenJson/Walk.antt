-- ===== src/FrozenJson/Walk.antt =====
-- kestrel_sdk/_frozen_json.py, `_Walk` and `freeze_json`. The fuel of `freeze` stands for the
-- calls that the interpreter's stack has room for: without any left it raises RecursionError.
pub mod Size
pub mod Exact
pub mod Keeps
pub mod Ancestors
pub mod Terminates
mod Tests
use kestrel_sovereign_sdk.Prelude.{
  ℕ, zero, suc, ◌+◌, Bool, true, false, ◌||◌, Option, none, some, List, [], ◌∷◌, Text, Result, ok,
  err, ◌>>=◌, ◌>>◌, raise_if, json_limit_error, json_type_error, recursion_error, ltb, ◌==◌,
  if◌then◌else◌, length, get_elem?,
}
use kestrel_sovereign_sdk.FrozenJson.Values.{
  Scalar, number, string, Value, scalar, ref, Container, mapping, sequence, Heap, Frozen, leaf,
  tuple, proxy, Items, nil, Fields, end, Config, Encoding, encoded, unicode_encode_error,
  digits_value_error, append_item, set_field,
}

-- The mutable fields of `_Walk`.
pub record State : Type 0 where
  pub nodes : ℕ
  pub keys : ℕ
  pub size : Option ℕ
  pub ancestors : List ℕ

-- `limit is not None and n > limit`
abbrev pub exceeds : Option ℕ → ℕ → Bool
exceeds none n = false
exceeds (some limit) n = ltb limit n

abbrev pub mem : ℕ → List ℕ → Bool
mem a [] = false
mem a (b ∷ bs) = a == b || mem a bs

-- `set.discard`
pub discard : ℕ → List ℕ → List ℕ
discard a [] = []
discard a (b ∷ bs) = let rest = discard a bs in if a == b then rest else b ∷ rest

-- `value = validate(value, path)` if there is a validator
pub validated {ℓ} : {A : Type ℓ} → Option (A → Result A) → A → Result A
validated none a = ok a
validated (some validate) a = validate a

-- `str` is the only key without a validator.
pub require_str_key : {N : Type 0} → Value N → Result Text
require_str_key (scalar (string s)) = ok s
require_str_key _ = err (json_type_error "key")

module _ {N : Type 0} (c : Config N) where
  add_bytes_to : Option ℕ → ℕ → State → Result State
  add_bytes_to none count w = ok w
  add_bytes_to (some n) count w = do
    let w' = record w { size = some (n + count) }
    raise_if (exceeds c.limits.max_encoded_bytes (n + count)) (json_limit_error "bytes")
    ok w'

  pub add_bytes : ℕ → State → Result State
  unfolding add_bytes_to
  add_bytes count w = add_bytes_to w.size count w

  pub add_node : State → Result State
  add_node w = do
    let w' = record w { nodes = w.nodes + 1 }
    raise_if (exceeds c.limits.max_nodes (w.nodes + 1)) (json_limit_error "nodes")
    ok w'

  pub add_key : State → Result State
  add_key w = do
    let w' = record w { keys = w.keys + 1 }
    raise_if (exceeds c.limits.max_keys (w.keys + 1)) (json_limit_error "keys")
    ok w'

  add_encoding : Encoding → State → Result State
  add_encoding (encoded bytes) w = add_bytes (length bytes) w
  add_encoding unicode_encode_error w = err (json_limit_error "text")
  add_encoding digits_value_error w = err (json_limit_error "number")

  add_scalar_to : Option ℕ → Scalar N → State → Result State
  unfolding add_encoding
  add_scalar_to none s w = ok w
  add_scalar_to (some n) s w = add_encoding (c.dumps_scalar s) w

  pub add_scalar : Scalar N → State → Result State
  unfolding add_scalar_to
  add_scalar s w = add_scalar_to w.size s w

  -- The scalar cases of `freeze`.
  pub freeze_scalar : Scalar N → State → Result (Frozen N × State)
  freeze_scalar (string s) w = do
    s' ← validated c.validate_string s
    w' ← add_scalar (string s') w
    ok (leaf (string s'), w')
  freeze_scalar (number n) w = do
    raise_if (c.is_nonfinite n) (json_limit_error "number")
    n' ← validated c.validate_number n
    w' ← add_scalar (number n') w
    ok (leaf (number n'), w')
  freeze_scalar s w = do w' ← add_scalar s w; ok (leaf s, w')

  pub enter : ℕ → State → Result State
  enter a w = do
    raise_if (mem a w.ancestors) (json_limit_error "cycle")
    ok (record w { ancestors = a ∷ w.ancestors })

  -- `finally: self.ancestors.discard(id(value))`. A walk that raised is not read again.
  pub leave : ℕ → State → State
  leave a w = record w { ancestors = discard a w.ancestors }

  -- The loops take `rec`, which is `freeze` one level further down.
  pub freeze_items :
      (Value N → State → Result (Frozen N × State))
      → Bool
      → Items N
      → List (Value N)
      → State
      → Result (Items N × State)
  freeze_items rec first frozen [] w = ok (frozen, w)
  freeze_items rec first frozen (x ∷ xs) w = do
    w1 ← (if first then ok w else add_bytes 1 w)
    (x', w2) ← rec x w1
    freeze_items rec false (append_item frozen x') xs w2

  pub freeze_entries :
      (Value N → State → Result (Frozen N × State))
      → Bool
      → Fields N
      → List (Value N × Value N)
      → State
      → Result (Fields N × State)
  freeze_entries rec first frozen [] w = ok (frozen, w)
  freeze_entries rec first frozen ((raw_key, item) ∷ rest) w = do
    key ← c.validate_key raw_key
    w1 ← add_key w
    w2 ← add_scalar (string key) w1
    w3 ← add_bytes (if first then 1 else 2) w2
    (item', w4) ← rec item w3
    freeze_entries rec false (set_field key item' frozen) rest w4

  -- `_freeze_mapping`, `_freeze_sequence`, and the TypeError for any other object
  pub freeze_container :
      (Value N → State → Result (Frozen N × State))
      → ℕ
      → Option (Container N)
      → State
      → Result (Frozen N × State)
  freeze_container rec a none w = err (json_type_error "type")
  freeze_container rec a (some (mapping entries)) w = do
    w1 ← enter a w
    w2 ← add_bytes 2 w1
    (fields, w3) ← freeze_entries rec true end entries w2
    ok (proxy fields, leave a w3)
  freeze_container rec a (some (sequence items)) w = do
    w1 ← enter a w
    w2 ← add_bytes 2 w1
    (frozen, w3) ← freeze_items rec true nil items w2
    ok (tuple frozen, leave a w3)

  module _ (heap : Heap N) where
    dispatch :
        (Value N → State → Result (Frozen N × State)) → Value N → State → Result (Frozen N × State)
    dispatch rec (scalar s) w = freeze_scalar s w
    dispatch rec (ref a) w = freeze_container rec a (get_elem? heap a) w

    unfoldable pub freeze : ℕ → ℕ → Value N → State → Result (Frozen N × State)
    unfolding dispatch
    freeze zero depth value w = err recursion_error
    freeze (suc fuel) depth value w = do
      raise_if (exceeds c.limits.max_depth depth) (json_limit_error "depth")
      w' ← add_node w
      dispatch (freeze fuel (suc depth)) value w'

-- `self.size = 0 if limits.max_encoded_bytes is not None else None`
abbrev pub start_size : Option ℕ → Option ℕ
start_size none = none
start_size (some n) = some 0

abbrev pub start : {N : Type 0} → Config N → State
start c = record {
  nodes = 0;
  keys = 0;
  size = start_size c.limits.max_encoded_bytes;
  ancestors = [];
}

pub record FrozenJson (N : Type 0) : Type 0 where
  pub value : Frozen N
  pub encoded_bytes : Option ℕ

unfoldable pub freeze_json : {N : Type 0} → Config N → Heap N → ℕ → Value N → Result (FrozenJson N)
freeze_json c heap fuel value = do
  (frozen, w) ← freeze c heap fuel 0 value (start c)
  ok (record { value = frozen; encoded_bytes = w.size })
