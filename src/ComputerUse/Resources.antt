-- ===== src/ComputerUse/Resources.antt =====
-- kestrel_sdk/resources.py: identifiers and owners.
use kestrel_sovereign_sdk.Prelude.{
  Bool, true, false, ◌&&◌, Option, none, some, Text, ok, ◌>>◌, Check, ◌≡◌, ◌↔◌, arith, text_eq,
  text_eq_iff,
}
use kestrel_sovereign_sdk.Validation.Tokens.{stable_token}

-- `Identifier`: a text that `stable_token` accepts
unfoldable pub identifier : Text → Check
identifier value = do stable_token value "identifier"; ok tt

unfoldable pub optional_identifier : Option Text → Check
optional_identifier none = ok tt
optional_identifier (some t) = identifier t

pub record ResourceScope : Type 0 where
  pub tenant_id : Text
  pub principal_id : Text
  pub agent_id : Option Text

unfoldable pub check_scope : ResourceScope → Check
check_scope s = do identifier s.tenant_id; identifier s.principal_id; optional_identifier s.agent_id

-- `==` of values that may be None
unfoldable pub option_eq : Option Text → Option Text → Bool
option_eq none none = true
option_eq none (some b) = false
option_eq (some a) none = false
option_eq (some a) (some b) = text_eq a b

pub option_eq_iff : (a b : Option Text) → (option_eq a b ≡ true) ↔ (a ≡ b)
unfolding option_eq
option_eq_iff none none = ground arith
option_eq_iff none (some b) = ground arith
option_eq_iff (some a) none = ground arith
option_eq_iff (some a) (some b) = ground (arith, text_eq_iff a b)

unfoldable pub scope_eq : ResourceScope → ResourceScope → Bool
scope_eq s t =
    text_eq s.tenant_id t.tenant_id
    && text_eq s.principal_id t.principal_id
    && option_eq s.agent_id t.agent_id

pub scope_eq_iff : (s t : ResourceScope) → (scope_eq s t ≡ true) ↔ (s ≡ t)
unfolding scope_eq
scope_eq_iff s t = ground (
  arith,
  text_eq_iff s.tenant_id t.tenant_id,
  text_eq_iff s.principal_id t.principal_id,
  option_eq_iff s.agent_id t.agent_id,
)
