-- ===== src/Payers/Tests.antt =====
-- kestrel_sdk/payer_policy.py, on concrete specs and policies. Money is a number of cents.
use kestrel_sovereign_sdk.Prelude.{
  ℕ, Bool, true, false, none, some, codes, ok, ◌≡◌, ◌↔◌, refl, text_eq,
}
use kestrel_sovereign_sdk.Payers.Matrix.{
  ResourceClass, PayerKind, SupportStatus, is_offerable, offers, supported_kinds_for, status_for,
}
use kestrel_sovereign_sdk.Payers.Policies.{
  PayerSpec, PayerPolicy, accepted, unsupported, check_spec, validate_against_matrix,
  host_env_default, host_env_spec,
}
use kestrel_sovereign_sdk.Payers.Offers.{Supported, is_offerable_iff}
use kestrel_sovereign_sdk.Payers.Accepted.{
  IsValidSpec, check_spec_iff, spec_for, validate_against_matrix_iff,
}
use kestrel_sovereign_sdk.Payers.Refused.{FirstRefused, validate_against_matrix-unsupported}

abbrev never : ℕ → Bool
never amount = false

abbrev sponsored : PayerSpec ℕ
sponsored = record {
  vendor = codes "openrouter";
  kind = PayerKind.sponsor;
  master_did = some (codes "did:x");
  monthly_cap_usd = some 500;
}

-- Storage that the agent's wallet would pay at a vendor without wallets.
abbrev refused : PayerPolicy ℕ
refused = record {
  llm = sponsored;
  storage = record {
    vendor = codes "local-disk";
    kind = PayerKind.self_wallet;
    master_did = none;
    monthly_cap_usd = none;
  };
  compute = host_env_spec ℕ (codes "vast");
  tools = host_env_spec ℕ (codes "tavily");
  comms = host_env_spec ℕ (codes "twilio");
}

default_accepted : validate_against_matrix (host_env_default ℕ) ≡ accepted
unfolding validate_against_matrix status_for text_eq
default_accepted = refl

sponsored_constructed : check_spec never sponsored ≡ ok tt
unfolding check_spec
sponsored_constructed = refl

refused_unsupported :
    validate_against_matrix refused
    ≡ unsupported ResourceClass.storage
        (codes "local-disk")
        PayerKind.self_wallet
        SupportStatus.not_applicable
unfolding validate_against_matrix status_for text_eq
refused_unsupported = refl

is_offerable_iff_example :
    (is_offerable ResourceClass.llm (codes "openrouter") PayerKind.sponsor ≡ true)
    ↔ Supported ResourceClass.llm (codes "openrouter") PayerKind.sponsor
is_offerable_iff_example = is_offerable_iff ResourceClass.llm (codes "openrouter") PayerKind.sponsor

check_spec_iff_example : (check_spec never sponsored ≡ ok tt) ↔ IsValidSpec never sponsored
check_spec_iff_example = check_spec_iff never sponsored

validate_against_matrix_iff_example : (validate_against_matrix refused ≡ accepted) ↔ (
    (r : ResourceClass)
    → offers (supported_kinds_for r (spec_for refused r).vendor) (spec_for refused r).kind ≡ true)
validate_against_matrix_iff_example = validate_against_matrix_iff refused

validate_against_matrix-unsupported_example :
    FirstRefused refused ResourceClass.storage
      (codes "local-disk")
      PayerKind.self_wallet
      SupportStatus.not_applicable
validate_against_matrix-unsupported_example =
    validate_against_matrix-unsupported refused ResourceClass.storage (codes "local-disk")
      PayerKind.self_wallet SupportStatus.not_applicable refused_unsupported
