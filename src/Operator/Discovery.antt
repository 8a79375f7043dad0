-- ===== src/Operator/Discovery.antt =====
-- kestrel_sdk/operator/discovery.py: versioned identities of services, and the requirements that
-- they satisfy. A constructor's `__post_init__` is a check of its record.
pub mod Compatible
mod Tests
use kestrel_sovereign_sdk.Prelude.{
  ℕ, Bool, true, false, ◌&&◌, ◌||◌, not, Option, none, some, List, [], ◌∷◌, Text, text_eq, contains,
  Result, Check, ok, err, value_error, ◌>>=◌, ◌>>◌, raise_if, if◌then◌else◌, ltb, leb, ◌==◌, any,
  map,
}
use kestrel_sovereign_sdk.Validation.Tokens.{stable_token}
use kestrel_sovereign_sdk.Validation.Texts.{has_duplicates}
use kestrel_sovereign_sdk.Validation.Versions.{semantic_version, semantic_version_parts}

pub data ServiceScope : Type 0 where
  host agent : ServiceScope

-- `a is b`
unfoldable pub scope_is : ServiceScope → ServiceScope → Bool
scope_is ServiceScope.host ServiceScope.host = true
scope_is ServiceScope.agent ServiceScope.agent = true
scope_is _ _ = false

pub record CapabilityDescriptor : Type 0 where
  pub name : Text
  pub version : Text

unfoldable pub check_capability : CapabilityDescriptor → Check
unfolding stable_token semantic_version
check_capability c = stable_token c.name "name" >> semantic_version c.version true false >> ok tt

pub record ServiceDescriptor : Type 0 where
  pub name : Text
  pub version : Text
  pub scope : ServiceScope
  pub capabilities : List CapabilityDescriptor

-- Two capabilities with one name are refused, equal ones among them.
unfoldable pub check_descriptor : ServiceDescriptor → Check
unfolding stable_token semantic_version has_duplicates
check_descriptor d =
    stable_token d.name "name"
    >> semantic_version d.version true false
    >> raise_if (has_duplicates (map (λ (c : CapabilityDescriptor). c.name) d.capabilities))
        (value_error "capability names must be unique within a service")

unfoldable pub validate_scope_agent : ServiceScope → Option Text → Check
unfolding stable_token
validate_scope_agent ServiceScope.agent none =
    err (value_error "agent_id is required for agent-scoped services")
validate_scope_agent ServiceScope.agent (some agent_id) = stable_token agent_id "agent_id" >> ok tt
validate_scope_agent ServiceScope.host none = ok tt
validate_scope_agent ServiceScope.host (some agent_id) =
    err (value_error "agent_id is not allowed for host-scoped services")

pub record ServiceReference : Type 0 where
  pub name : Text
  pub version : Text
  pub scope : ServiceScope
  pub agent_id : Option Text

unfoldable pub check_reference : ServiceReference → Check
unfolding stable_token semantic_version validate_scope_agent
check_reference r =
    stable_token r.name "name"
    >> semantic_version r.version true false
    >> validate_scope_agent r.scope r.agent_id

pub record ServiceRequirement : Type 0 where
  pub name : Text
  pub minimum_version : Text
  pub scope : ServiceScope
  pub agent_id : Option Text

unfoldable pub check_requirement : ServiceRequirement → Check
unfolding stable_token semantic_version validate_scope_agent
check_requirement r =
    stable_token r.name "name"
    >> semantic_version r.minimum_version false false
    >> validate_scope_agent r.scope r.agent_id

-- `candidate >= required`, of tuples
unfoldable pub tuple_at_least : ℕ × ℕ × ℕ → ℕ × ℕ × ℕ → Bool
tuple_at_least (a, b, c) (x, y, z) = ltb x a || (x == a && (ltb y b || (y == b && leb z c)))

unfoldable pub same_compatibility_line : ℕ × ℕ × ℕ → ℕ × ℕ × ℕ → Bool
same_compatibility_line (a, b, c) (x, y, z) = a == x && (not (x == 0) || b == y)

unfoldable pub compatible : ℕ × ℕ × ℕ → ℕ × ℕ × ℕ → Bool
unfolding tuple_at_least same_compatibility_line
compatible candidate required =
    same_compatibility_line candidate required && tuple_at_least candidate required

-- The comparison of the release tuples.
unfoldable pub version_accepts : Text → Text → Result Bool
unfolding semantic_version_parts compatible
version_accepts minimum_version version = do
  required ← semantic_version_parts minimum_version
  candidate ← semantic_version_parts version
  ok (compatible candidate required)

-- `"-" in version`
unfoldable pub has_dash : Text → Bool
has_dash s = any (λ c. c == 0x2D) s

unfoldable pub accepts : ServiceRequirement → ServiceDescriptor → Result Bool
unfolding scope_is has_dash version_accepts
accepts r d =
    if not (text_eq d.name r.name) || not (scope_is d.scope r.scope)
    then ok false
    else if has_dash d.version
    then ok false
    else version_accepts r.minimum_version d.version

-- The service is an opaque object, never None here.
pub record ServiceRegistration : Type 0 where
  pub descriptor : ServiceDescriptor
  pub owner : Text
  pub agent_id : Option Text

unfoldable pub check_registration : ServiceRegistration → Check
unfolding stable_token validate_scope_agent
check_registration r =
    stable_token r.owner "owner" >> validate_scope_agent r.descriptor.scope r.agent_id

-- `reference`, before the constructor's checks
unfoldable pub reference : ServiceRegistration → ServiceReference
reference r = record {
  name = r.descriptor.name;
  version = r.descriptor.version;
  scope = r.descriptor.scope;
  agent_id = r.agent_id;
}
