-- ===== src/IsolatedFeature/Metadata/RoundTrip.antt =====
-- kestrel_sdk/isolated_feature/protocol.py: tool metadata and transitions survive their `dict`.
use kestrel_sovereign_sdk.Prelude.{
  ◌<◌, Bool-cases, Option, none, some, List, [], ◌∷◌, Text, text_eq, codes, ok, ◌≡◌, refl, ap, ◌∙◌,
  arith, inl, inr, if◌then◌else◌, length,
}
use kestrel_sovereign_sdk.IsolatedFeature.Values.{
  Value, string, items_of, texts_of, Fields, end, get, is_key, optional_field, text_value,
  nonempty_text, require_str, optional_text, optional_str, str_list_value, optional_str_list,
}
use kestrel_sovereign_sdk.IsolatedFeature.Metadata.{
  ToolMetadata, tags_value, metadata_fields, schema_value, schema_of, metadata_from_dict,
  ConfigTransitionCapabilities, transition_fields, transition_from_dict,
}

-- The first of two values.
first : Option Value → Option Value → Option Value
first none o = o
first (some v) o = some v

first-none : (o : Option Value) → first o none ≡ o
unfolding first
first-none none = refl
first-none (some v) = refl

get-optional_field :
    (k j : Text) (o : Option Value) (rest : Fields)
    → get k (optional_field j o rest) ≡ (if text_eq j k then first o (get k rest) else get k rest)
unfolding get is_key optional_field first
get-optional_field k j none rest = elim (Bool-cases (text_eq j k)) [
  | inl e ↦ simp e
  | inr e ↦ simp e
]
get-optional_field k j (some v) rest = refl

-- A chain of optional fields, and what it holds at a key.
chain : List (Text × Option Value) → Fields
chain [] = end
chain ((j, o) ∷ rest) = optional_field j o (chain rest)

pick : Text → List (Text × Option Value) → Option Value
pick k [] = none
pick k ((j, o) ∷ rest) = if text_eq j k then first o (pick k rest) else pick k rest

get-chain : (k : Text) (xs : List (Text × Option Value)) → get k (chain xs) ≡ pick k xs
unfolding chain pick get
get-chain k [] = refl
get-chain k ((j, o) ∷ rest) =
    get-optional_field k j o (chain rest)
    ∙ ap (λ x. if text_eq j k then first o x else x) (get-chain k rest)

abbrev IsSaid : Option Text → Type 0
IsSaid none = Unit
IsSaid (some s) = 0 < length s

optional_text-text_value : (o : Option Text) → IsSaid o → optional_text (text_value o) ≡ ok o
unfolding optional_text text_value
optional_text-text_value none h = refl
optional_text-text_value (some []) h = absurd (omega (arith, h))
optional_text-text_value (some (c ∷ s)) h = refl

texts_of-items_of : (ss : List Text) → texts_of (items_of ss) ≡ some ss
unfolding texts_of items_of
texts_of-items_of [] = refl
texts_of-items_of (s ∷ ss) = simp (texts_of-items_of ss)

str_list_value-tags_value : (ss : List Text) → str_list_value (tags_value ss) ≡ ok ss
unfolding str_list_value tags_value
str_list_value-tags_value [] = refl
str_list_value-tags_value (s ∷ ss) = simp (texts_of-items_of (s ∷ ss))

require_str-field :
    (s : Text) → 0 < length s → nonempty_text (some (string s)) "must be a non-empty string" ≡ ok s
unfolding nonempty_text
require_str-field [] h = absurd (omega (arith, h))
require_str-field (c ∷ s) h = refl

module _ (m : ToolMetadata) where
  -- The optional fields.
  optionals : List (Text × Option Value)
  optionals =
      (codes "skill_id", text_value m.skill_id)
      ∷ (codes "version", text_value m.version)
      ∷ (codes "capability_tags", tags_value m.capability_tags)
      ∷ (codes "permission_tags", tags_value m.permission_tags)
      ∷ (codes "category", text_value m.category)
      ∷ (codes "command_prefix", text_value m.command_prefix)
      ∷ []

  get_skill_id : get (codes "skill_id") (metadata_fields m) ≡ text_value m.skill_id
  unfolding metadata_fields get is_key text_eq optionals chain pick
  get_skill_id = get-chain (codes "skill_id") optionals ∙ first-none _

  get_version : get (codes "version") (metadata_fields m) ≡ text_value m.version
  unfolding metadata_fields get is_key text_eq optionals chain pick
  get_version = get-chain (codes "version") optionals ∙ first-none _

  get_capability_tags :
      get (codes "capability_tags") (metadata_fields m) ≡ tags_value m.capability_tags
  unfolding metadata_fields get is_key text_eq optionals chain pick
  get_capability_tags = get-chain (codes "capability_tags") optionals ∙ first-none _

  get_permission_tags :
      get (codes "permission_tags") (metadata_fields m) ≡ tags_value m.permission_tags
  unfolding metadata_fields get is_key text_eq optionals chain pick
  get_permission_tags = get-chain (codes "permission_tags") optionals ∙ first-none _

  get_category : get (codes "category") (metadata_fields m) ≡ text_value m.category
  unfolding metadata_fields get is_key text_eq optionals chain pick
  get_category = get-chain (codes "category") optionals ∙ first-none _

  get_command_prefix :
      get (codes "command_prefix") (metadata_fields m) ≡ text_value m.command_prefix
  unfolding metadata_fields get is_key text_eq optionals chain pick
  get_command_prefix = get-chain (codes "command_prefix") optionals ∙ first-none _

  get_schema :
      schema_of (
        schema_value
          (get (codes "input_schema") (metadata_fields m))
          (get (codes "inputSchema") (metadata_fields m)))
      ≡ ok m.input_schema
  unfolding metadata_fields get is_key text_eq schema_of schema_value
  get_schema = refl

  get_name : get (codes "name") (metadata_fields m) ≡ some (string m.name)
  unfolding metadata_fields get is_key text_eq
  get_name = refl

  get_description : get (codes "description") (metadata_fields m) ≡ some (string m.description)
  unfolding metadata_fields get is_key text_eq
  get_description = refl

-- Its texts say something, where they are there.
pub record IsPrintable (m : ToolMetadata) : Type 0 where
  pub name_said : 0 < length m.name
  pub description_said : 0 < length m.description
  pub skill_id_said : IsSaid m.skill_id
  pub version_said : IsSaid m.version
  pub category_said : IsSaid m.category
  pub command_prefix_said : IsSaid m.command_prefix

-- Tool metadata is read back from its `dict` as it was, if its name, its description and those
-- optional texts that are set are not empty.
pub metadata_from_dict-metadata_fields :
    (m : ToolMetadata) → IsPrintable m → metadata_from_dict (metadata_fields m) ≡ ok m
unfolding metadata_from_dict require_str optional_str optional_str_list
metadata_from_dict-metadata_fields m p = simp (
  get_schema m,
  get_name m,
  require_str-field m.name p.name_said,
  get_description m,
  require_str-field m.description p.description_said,
  get_skill_id m,
  optional_text-text_value m.skill_id p.skill_id_said,
  get_version m,
  optional_text-text_value m.version p.version_said,
  get_capability_tags m,
  str_list_value-tags_value m.capability_tags,
  get_permission_tags m,
  str_list_value-tags_value m.permission_tags,
  get_category m,
  optional_text-text_value m.category p.category_said,
  get_command_prefix m,
  optional_text-text_value m.command_prefix p.command_prefix_said,
)

-- The negotiated capability survives as well.
pub transition_from_dict-transition_fields :
    (c : ConfigTransitionCapabilities) → transition_from_dict (transition_fields c) ≡ ok c
unfolding transition_from_dict transition_fields is_key text_eq
transition_from_dict-transition_fields c = refl
