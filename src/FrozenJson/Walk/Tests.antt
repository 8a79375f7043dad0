-- ===== src/FrozenJson/Walk/Tests.antt =====
-- kestrel_sdk/_frozen_json.py: runs of `freeze_json`, and its theorems at a concrete value.
use kestrel_sovereign_sdk.Prelude.{
  ℕ, zero, suc, ◌+◌, true, false, none, some, [], ◌∷◌, codes, ok, err, json_limit_error,
  recursion_error, ◌≡◌, ◌≢◌, refl, arith, get_elem?, text_eq,
}
use kestrel_sovereign_sdk.FrozenJson.Values.{
  Scalar, null, boolean, number, string, scalar, ref, mapping, sequence, Heap, leaf, tuple, proxy,
  nil, cons, end, field, Config, Encoding, encoded, unicode_encode_error, append_item, set_field,
}
use kestrel_sovereign_sdk.FrozenJson.Canonical.{JsonDumps, compact}
use kestrel_sovereign_sdk.FrozenJson.Walk.{
  require_str_key, FrozenJson, freeze, freeze_json, dispatch, freeze_container, freeze_entries,
  freeze_items, freeze_scalar, enter, leave, discard, add_node, add_key, add_bytes, add_scalar,
  validated,
}
use kestrel_sovereign_sdk.FrozenJson.Walk.Exact.{HasDistinctKeys}
use kestrel_sovereign_sdk.FrozenJson.Walk.Terminates.{ValidatorsReturn}
use kestrel_sovereign_sdk.FrozenJson.Freeze.{
  Measured, freeze_json-Measured, freeze_json_returns, freeze_json_returns_of_depth,
}

-- An encoder of the scalars that the tests use: one-digit numbers, and texts of plain ASCII.
abbrev dumps_test : Scalar ℕ → Encoding
dumps_test null = encoded (codes "null")
dumps_test (boolean true) = encoded (codes "true")
dumps_test (boolean false) = encoded (codes "false")
dumps_test (number n) = encoded ((48 + n) ∷ [])
dumps_test (string []) = unicode_encode_error
dumps_test (string (c ∷ s)) = encoded (34 ∷ c ∷ 34 ∷ [])

abbrev test_config : Config ℕ
test_config = record {
  limits = record {
    max_depth = some 3;
    max_nodes = none;
    max_keys = some 4;
    max_encoded_bytes = some 30;
  };
  validate_key = require_str_key;
  validate_string = none;
  validate_number = none;
  is_nonfinite = λ n. false;
  dumps_scalar = dumps_test;
}

abbrev test_dumps : JsonDumps dumps_test
test_dumps = record { dumps = compact dumps_test; dumps_compact = λ j. refl }

-- `{"a": [7, null], "b": true}`
abbrev tree : Heap ℕ
tree =
    mapping (
      (scalar (string (codes "a")), ref 1)
      ∷ (scalar (string (codes "b")), scalar (boolean true))
      ∷ [])
    ∷ sequence (scalar (number 7) ∷ scalar null ∷ [])
    ∷ []

abbrev frozen_tree : FrozenJson ℕ
frozen_tree = record {
  value = proxy (
      field (codes "a") (tuple (cons (leaf (number 7)) (cons (leaf null) nil)))
        (field (codes "b") (leaf (boolean true)) end));
  encoded_bytes = some 23;
}

freeze_tree : freeze_json test_config tree 9 (ref 0) ≡ ok frozen_tree
unfolding freeze_json freeze dispatch freeze_container freeze_entries freeze_items freeze_scalar
    enter leave discard add_node add_key add_bytes add_scalar validated require_str_key append_item
    set_field text_eq
freeze_tree = refl

tree_distinct : (a : ℕ) → HasDistinctKeys test_config (get_elem? tree a)
unfolding require_str_key
tree_distinct zero = (λ key h. ((λ e. ground arith), tt), ((λ key h. tt), tt))
tree_distinct (suc zero) = tt
tree_distinct (suc (suc a)) = tt

freeze_json-Measured_example : Measured test_config tree test_dumps 30 frozen_tree
freeze_json-Measured_example =
    freeze_json-Measured test_config tree test_dumps 9 30 (ref 0) tree_distinct refl freeze_tree

test_validators : ValidatorsReturn test_config
unfolding require_str_key validated
test_validators = record { keys = λ v e. ground arith; strings = λ s e. cc; numbers = λ n e. cc }

-- A list that holds itself.
abbrev loop : Heap ℕ
loop = sequence (ref 0 ∷ []) ∷ []

freeze_loop : freeze_json test_config loop 9 (ref 0) ≡ err (json_limit_error "cycle")
unfolding freeze_json freeze dispatch freeze_container freeze_entries freeze_items freeze_scalar
    enter leave discard add_node add_key add_bytes add_scalar validated require_str_key append_item
    set_field text_eq
freeze_loop = refl

freeze_json_returns_example : freeze_json test_config loop 2 (ref 0) ≢ err recursion_error
freeze_json_returns_example =
    freeze_json_returns test_config loop 2 (ref 0) test_validators (omega arith)

freeze_json_returns_of_depth_example : freeze_json test_config loop 5 (ref 0) ≢ err recursion_error
freeze_json_returns_of_depth_example =
    freeze_json_returns_of_depth test_config loop 3 5 (ref 0) test_validators refl (omega arith)
