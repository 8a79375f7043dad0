-- ===== src/IsolatedFeature/Execution/Lookups.antt =====
-- kestrel_sdk/isolated_feature/protocol.py: reading back an optional field of a `dict`.
use kestrel_sovereign_sdk.Prelude.{
  ℕ, true, false, Option, none, some, List, [], ◌∷◌, Text, ok, text_eq, text_eq_refl, contains, ◌≡◌,
  refl, >>=-eq-ok,
}
use kestrel_sovereign_sdk.IsolatedFeature.Values.{
  Value, string, Fields, get, or_null, only, is_key, optional_field, text_value,
}
use kestrel_sovereign_sdk.IsolatedFeature.Execution.{
  require_context_string, optional_context_string, check_size, max_context_identifier_bytes,
  text_or_none,
}

pub get_same :
    (k : Text) (o : Option Value) (rest : Fields)
    → get k rest ≡ none
    → get k (optional_field k o rest) ≡ o
unfolding get is_key optional_field
get_same k none rest absent = absent
get_same k (some v) rest absent = simp (text_eq_refl k)

pub get_other :
    (k j : Text) (o : Option Value) (rest : Fields)
    → text_eq j k ≡ false
    → get k (optional_field j o rest) ≡ get k rest
unfolding get is_key optional_field
get_other k j none rest other = refl
get_other k j (some v) rest other = simp other

pub only-optional_field :
    (names : List Text) (k : Text) (o : Option Value) (rest : Fields)
    → contains names k ≡ true
    → only names (optional_field k o rest) ≡ only names rest
unfolding only optional_field
only-optional_field names k none rest known = refl
only-optional_field names k (some v) rest known = simp known

-- A text that passes is returned as it is.
pub require_context_string-same :
    (s t : Text) (n : ℕ)
    → require_context_string (string s) n ≡ ok t
    → require_context_string (string s) n ≡ ok s
unfolding require_context_string
require_context_string-same [] t n h = cc
require_context_string-same (c ∷ s) t n h =
    let (u, sized, _) = >>=-eq-ok (check_size (c ∷ s) n) _ h in simp sized

pub optional_context_string-same :
    (o p : Option Text)
    → optional_context_string (text_or_none o) ≡ ok p
    → optional_context_string (text_or_none o) ≡ ok o
unfolding optional_context_string text_or_none text_value or_null
optional_context_string-same none p h = refl
optional_context_string-same (some s) p h =
    let (t, bounded, _) =
      >>=-eq-ok (require_context_string (string s) max_context_identifier_bytes) _ h in
    simp (require_context_string-same s t max_context_identifier_bytes bounded)
