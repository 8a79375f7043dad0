-- ===== src/FrozenJson/Canonical.antt =====
-- kestrel_sdk/_frozen_json.py: `thaw_json` and `canonical_json_bytes`. `json.dumps` is Python's: a
-- parameter, of which `compact` says what its documentation says of `separators=(",", ":")`.
use kestrel_sovereign_sdk.Prelude.{
  ℕ, Bool, true, false, List, [], ◌∷◌, ◌++◌, Text, ◌≡◌, if◌then◌else◌,
}
use kestrel_sovereign_sdk.FrozenJson.Values.{
  Scalar, string, Frozen, leaf, tuple, proxy, Items, nil, cons, Fields, end, field, Encoding,
  encoded, unicode_encode_error, digits_value_error,
}

-- Plain `dict` and `list` trees.
mutual
  pub data Plain (N : Type 0) : Type 0 where
    atom : Scalar N → Plain N
    array : Elements N → Plain N
    dict : Entries N → Plain N

  pub data Elements (N : Type 0) : Type 0 where
    no_elements : Elements N
    element : Plain N → Elements N → Elements N

  pub data Entries (N : Type 0) : Type 0 where
    no_entries : Entries N
    entry : Text → Plain N → Entries N → Entries N

unfoldable mutual
  pub thaw_json : {N : Type 0} → Frozen N → Plain N
  thaw_json (leaf s) = atom s
  thaw_json (tuple xs) = array (thaw_items xs)
  thaw_json (proxy fs) = dict (thaw_fields fs)

  pub thaw_items : {N : Type 0} → Items N → Elements N
  thaw_items nil = no_elements
  thaw_items (cons x xs) = element (thaw_json x) (thaw_items xs)

  pub thaw_fields : {N : Type 0} → Fields N → Entries N
  thaw_fields end = no_entries
  thaw_fields (field k x fs) = entry k (thaw_json x) (thaw_fields fs)

-- The first exception ends the encoding.
abbrev pub after : List ℕ → Encoding → Encoding
after bytes (encoded rest) = encoded (bytes ++ rest)
after bytes unicode_encode_error = unicode_encode_error
after bytes digits_value_error = digits_value_error

infixr 60 ◌⨾◌
abbrev pub ◌⨾◌ : Encoding → Encoding → Encoding
(encoded bytes) ⨾ e = after bytes e
unicode_encode_error ⨾ e = unicode_encode_error
digits_value_error ⨾ e = digits_value_error

abbrev pub comma : Bool → List ℕ
comma first = if first then [] else b',' ∷ []

module _ {N : Type 0} (dumps_scalar : Scalar N → Encoding) where
  unfoldable mutual
    pub compact : Plain N → Encoding
    compact (atom s) = dumps_scalar s
    compact (array xs) = after (b'[' ∷ []) (compact_elements true xs)
    compact (dict es) = after (b'{' ∷ []) (compact_entries true es)

    pub compact_elements : Bool → Elements N → Encoding
    compact_elements first no_elements = encoded (b']' ∷ [])
    compact_elements first (element x xs) =
        after (comma first) (compact x ⨾ compact_elements false xs)

    pub compact_entries : Bool → Entries N → Encoding
    compact_entries first no_entries = encoded (b'}' ∷ [])
    compact_entries first (entry k x es) =
        after (comma first)
          (dumps_scalar (string k) ⨾ after (b':' ∷ []) (compact x ⨾ compact_entries false es))

-- `json.dumps(value, ensure_ascii=False, allow_nan=False, separators=(",", ":")).encode("utf-8")`
pub record JsonDumps {N : Type 0} (dumps_scalar : Scalar N → Encoding) : Type 0 where
  pub dumps : Plain N → Encoding
  pub dumps_compact : (j : Plain N) → dumps j ≡ compact dumps_scalar j

unfoldable pub canonical_json_bytes :
    {N : Type 0} {dumps_scalar : Scalar N → Encoding} → JsonDumps dumps_scalar → Frozen N → Encoding
canonical_json_bytes json value = json.dumps (thaw_json value)
