-- ===== src/FrozenJson/Values.antt =====
-- kestrel_sdk/_frozen_json.py, the data: caller-supplied Python values as a graph of containers
-- with identities, and the immutable trees that a freeze returns. `N` is the type of Python's
-- `int | float`, a parameter.
use kestrel_sovereign_sdk.Prelude.{
  ℕ, Bool, true, Option, List, Text, Result, if◌then◌else◌, text_eq,
}

pub data Scalar (N : Type 0) : Type 0 where
  null : Scalar N
  boolean : Bool → Scalar N
  number : N → Scalar N
  string : Text → Scalar N

-- A container is a reference by its `id()`.
pub data Value (N : Type 0) : Type 0 where
  scalar : Scalar N → Value N
  ref : ℕ → Value N

pub data Container (N : Type 0) : Type 0 where
  mapping : List (Value N × Value N) → Container N
  sequence : List (Value N) → Container N

-- The mappings, lists and tuples that exist, by their identities `0, 1, …`. A reference beyond
-- the list is an object of any other type.
abbrev pub Heap : Type 0 → Type 0
Heap N = List (Container N)

-- `ImmutableJSON`: scalars, tuples, and read-only mappings in insertion order.
mutual
  pub data Frozen (N : Type 0) : Type 0 where
    leaf : Scalar N → Frozen N
    tuple : Items N → Frozen N
    proxy : Fields N → Frozen N

  pub data Items (N : Type 0) : Type 0 where
    nil : Items N
    cons : Frozen N → Items N → Items N

  pub data Fields (N : Type 0) : Type 0 where
    end : Fields N
    field : Text → Frozen N → Fields N → Fields N

pub record JsonLimits : Type 0 where
  pub max_depth : Option ℕ
  pub max_nodes : Option ℕ
  pub max_keys : Option ℕ
  pub max_encoded_bytes : Option ℕ

-- What `json.dumps(…).encode("utf-8")` does with one scalar: the bytes, or the exception.
pub data Encoding : Type 0 where
  encoded : List ℕ → Encoding
  unicode_encode_error : Encoding
  digits_value_error : Encoding

-- The arguments of `freeze_json`, and the functions of Python that it calls.
pub record Config (N : Type 0) : Type 0 where
  pub limits : JsonLimits
  pub validate_key : Value N → Result Text
  pub validate_string : Option (Text → Result Text)
  pub validate_number : Option (N → Result N)
  -- `isinstance(value, float) and not math.isfinite(value)`
  pub is_nonfinite : N → Bool
  pub dumps_scalar : Scalar N → Encoding

module _ {N : Type 0} where
  unfoldable pub append_item : Items N → Frozen N → Items N
  append_item nil x = cons x nil
  append_item (cons y ys) x = cons y (append_item ys x)

  -- `frozen[key] = item`: a key that is there keeps its place.
  unfoldable pub set_field : Text → Frozen N → Fields N → Fields N
  set_field k x end = field k x end
  set_field k x (field j y rest) =
      if text_eq j k then field j x rest else field j y (set_field k x rest)

  unfoldable pub has_field : Text → Fields N → Bool
  has_field k end = Bool.false
  has_field k (field j y rest) = if text_eq j k then true else has_field k rest
