-- ===== src/IsolatedFeature/Metadata.antt =====
-- kestrel_sdk/isolated_feature/protocol.py: the metadata of a tool, and the negotiation of
-- configuration transitions.
pub mod RoundTrip
use kestrel_sovereign_sdk.Prelude.{
  Bool, true, false, ◌||◌, not, Option, none, some, List, [], ◌∷◌, Text, text_eq, codes, Result, ok,
  err, protocol_error, type_error, ◌>>=◌, if◌then◌else◌,
}
use kestrel_sovereign_sdk.IsolatedFeature.Values.{
  Value, boolean, string, list, dict, Fields, end, field, Key, named, get, or_null, optional_field,
  text_value, require_str, optional_str, optional_str_list, items_of,
}

pub record ToolMetadata : Type 0 where
  pub name : Text
  pub description : Text
  pub input_schema : Fields
  pub skill_id : Option Text
  pub version : Option Text
  pub capability_tags : List Text
  pub permission_tags : List Text
  pub category : Option Text
  pub command_prefix : Option Text

-- `if tags: data[key] = list(tags)`
unfoldable pub tags_value : List Text → Option Value
unfolding items_of
tags_value [] = none
tags_value (s ∷ ss) = some (list (items_of (s ∷ ss)))

unfoldable pub metadata_fields : ToolMetadata → Fields
unfolding optional_field text_value tags_value
metadata_fields m = field (named (codes "name")) (string m.name) (
    field (named (codes "description")) (string m.description) (
      field (named (codes "input_schema")) (dict m.input_schema) (
        optional_field (codes "skill_id") (text_value m.skill_id) (
          optional_field (codes "version") (text_value m.version) (
            optional_field (codes "capability_tags") (tags_value m.capability_tags) (
              optional_field (codes "permission_tags") (tags_value m.permission_tags) (
                optional_field (codes "category") (text_value m.category)
                  (optional_field (codes "command_prefix") (text_value m.command_prefix) end))))))))

-- `data.get("input_schema", data.get("inputSchema"))`
unfoldable pub schema_value : Option Value → Option Value → Value
unfolding or_null
schema_value none other = or_null other
schema_value (some v) other = v

-- `isinstance(input_schema, dict)`
unfoldable pub schema_of : Value → Result Fields
schema_of (dict fields) = ok fields
schema_of _ = err (protocol_error "tool metadata requires input_schema")

unfoldable pub metadata_from_dict : Fields → Result ToolMetadata
unfolding get schema_value schema_of require_str optional_str optional_str_list
metadata_from_dict fields = do
  input_schema ←
      schema_of
        (schema_value (get (codes "input_schema") fields) (get (codes "inputSchema") fields))
  name ← require_str fields (codes "name")
  description ← require_str fields (codes "description")
  skill_id ← optional_str fields (codes "skill_id")
  version ← optional_str fields (codes "version")
  capability_tags ← optional_str_list fields (codes "capability_tags")
  permission_tags ← optional_str_list fields (codes "permission_tags")
  category ← optional_str fields (codes "category")
  command_prefix ← optional_str fields (codes "command_prefix")
  ok (record {
    name = name;
    description = description;
    input_schema = input_schema;
    skill_id = skill_id;
    version = version;
    capability_tags = capability_tags;
    permission_tags = permission_tags;
    category = category;
    command_prefix = command_prefix;
  })

pub record ConfigTransitionCapabilities : Type 0 where
  pub supports_live_apply : Bool

unfoldable pub transition_fields : ConfigTransitionCapabilities → Fields
transition_fields c =
    field (named (codes "prepare")) (boolean true)
      (field (named (codes "supports_live_apply")) (boolean c.supports_live_apply) end)

-- `data.get("supports_live_apply", False)`, which must be a `bool`
unfoldable pub live_apply : Option Value → Result Bool
live_apply none = ok false
live_apply (some (boolean b)) = ok b
live_apply _ = err (protocol_error "supports_live_apply must be a boolean")

-- `data.get("prepare") is True`
unfoldable pub prepares : Option Value → Bool
prepares (some (boolean b)) = b
prepares _ = false

unfoldable pub transition_from_dict : Fields → Result ConfigTransitionCapabilities
unfolding get live_apply prepares
transition_from_dict fields =
    if prepares (get (codes "prepare") fields)
    then (live_apply (get (codes "supports_live_apply") fields) >>= λ b.
        ok (record { supports_live_apply = b }))
    else err (protocol_error "config_transition capability requires prepare=true")

-- `restart` and `applied` are the supported actions.
unfoldable pub is_action : Text → Bool
is_action s = text_eq s (codes "restart") || text_eq s (codes "applied")

pub record ConfigTransitionResult : Type 0 where
  pub action : Text

unfoldable pub result_fields : ConfigTransitionResult → Fields
result_fields r = field (named (codes "action")) (string r.action) end

unfoldable pub action_of : Value → Result ConfigTransitionResult
unfolding is_action
action_of (string s) =
    if is_action s
    then ok (record { action = s })
    else err (protocol_error "config transition result requires a supported action")
-- A list or dict has no hash.
action_of (list xs) = err (type_error "unhashable type")
action_of (dict fields) = err (type_error "unhashable type")
action_of _ = err (protocol_error "config transition result requires a supported action")

unfoldable pub result_from_dict : Fields → Result ConfigTransitionResult
unfolding action_of get or_null
result_from_dict fields = action_of (or_null (get (codes "action") fields))
