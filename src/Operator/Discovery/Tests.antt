-- ===== src/Operator/Discovery/Tests.antt =====
-- kestrel_sdk/operator/discovery.py, on concrete services and versions.
use kestrel_sovereign_sdk.Prelude.{true, none, [], codes, text_eq, ok, ◌≡◌, refl}
use kestrel_sovereign_sdk.Validation.Versions.{match_version, semantic_version_parts}
use kestrel_sovereign_sdk.Operator.Discovery.{
  ServiceScope, ServiceDescriptor, check_descriptor, ServiceRequirement, check_requirement, accepts,
}
use kestrel_sovereign_sdk.Operator.Discovery.Compatible.{accepts-accepts}

full_version : semantic_version_parts (codes "1.20.3-rc.1+build.05") ≡ ok (1, 20, 3)
unfolding semantic_version_parts
full_version = refl

leading_zero : match_version (codes "01.2.3") ≡ none
unfolding match_version
leading_zero = refl

abbrev needs : ServiceRequirement
needs = record {
  name = codes "runs";
  minimum_version = codes "1.2.0";
  scope = ServiceScope.host;
  agent_id = none;
}

abbrev offers_1_2 : ServiceDescriptor
offers_1_2 = record {
  name = codes "runs";
  version = codes "1.2.9";
  scope = ServiceScope.host;
  capabilities = [];
}

abbrev needs_more : ServiceRequirement
needs_more = record needs { minimum_version = codes "1.2.9" }

abbrev offers_1_10 : ServiceDescriptor
offers_1_10 = record offers_1_2 { version = codes "1.10.0" }

accepts-accepts_example : accepts needs offers_1_10 ≡ ok true
unfolding accepts text_eq
accepts-accepts_example =
    accepts-accepts needs needs_more offers_1_2 offers_1_10 refl refl refl refl refl

-- Both are well-formed.
checked : (check_requirement needs ≡ ok tt) × (check_descriptor offers_1_2 ≡ ok tt)
unfolding check_requirement check_descriptor
checked = (refl, refl)
