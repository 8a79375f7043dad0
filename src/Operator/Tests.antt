-- ===== src/Operator/Tests.antt =====
-- kestrel_sdk/operator: one context, launch, record, control, page and href.
use kestrel_sovereign_sdk.Prelude.{
  true, false, ◌++◌, none, some, [], ◌∷◌, codes, ok, err, run_not_found_error, ◌≡◌, ◌↔◌, refl,
  text_eq, contains, after_prefix, aware, aware_datetime,
}
use kestrel_sovereign_sdk.Validation.Tokens.{stable_token, is_stable_token, is_alnum}
use kestrel_sovereign_sdk.Validation.Texts.{frozen_tokens}
use kestrel_sovereign_sdk.Operator.Context.{
  OperatorContextArgs, OperatorContext, operator_context, optional_token, require_fresh,
  matches_tenant, contains_valid, allows_action, allows_boundary, allows_capability, require_action,
  require_capability, require_boundary, require_tenant,
}
use kestrel_sovereign_sdk.Operator.Launches.{
  RunSource, RunLaunch, run_launch_action, authorize_launch, check_source, MayLaunch,
  authorize_launch-MayLaunch,
}
use kestrel_sovereign_sdk.Operator.Records.{
  RunState, RunRecord, authorize_record, MayOperate, authorize_record-MayOperate,
  authorize_record_not_found, authorize_record-authorize_launch, run_record, changed_at,
}
use kestrel_sovereign_sdk.Operator.Controls.{RunControlAction, RunControl, required_action}
use kestrel_sovereign_sdk.Operator.Pages.{RunPage}
use kestrel_sovereign_sdk.Operator.Percent.{
  validate_percent_encoding, Encoded, validate_percent_encoding_iff,
}
use kestrel_sovereign_sdk.Operator.Hrefs.{
  UrlParts, UrlFunctions, authorized_artifact_href, artifacts_path, ascii_url, unsafe_url_character,
  canonical_group, check_relative, check_absolute, bad_parts, safe_hostname, safe_label,
  decode_path, unsafe_path, without_last_dot, split_first,
}
use kestrel_sovereign_sdk.Operator.Hrefs.Accepted.{relative_href_canonical}
use kestrel_sovereign_sdk.Operator.Hrefs.Signed.{absolute_href_signed, SignedUrl}

abbrev arguments : OperatorContextArgs
arguments = record {
  principal_id = codes "p1";
  tenant_id = codes "t1";
  granted_actions = codes "run.launch" ∷ codes "run.pause" ∷ [];
  granted_capabilities = codes "gpu" ∷ [];
  permitted_boundary_ids = codes "b1" ∷ [];
  correlation_id = codes "c1";
  issued_at = aware 10;
  expires_at = aware 1000;
  acting_agent_id = none;
}

abbrev context : OperatorContext
context = record {
  principal_id = codes "p1";
  tenant_id = codes "t1";
  granted_actions = codes "run.launch" ∷ codes "run.pause" ∷ [];
  granted_capabilities = codes "gpu" ∷ [];
  permitted_boundary_ids = codes "b1" ∷ [];
  correlation_id = codes "c1";
  issued_at = 10;
  expires_at = 1000;
  acting_agent_id = none;
}

context_made : operator_context arguments ≡ ok context
unfolding operator_context optional_token stable_token is_stable_token aware_datetime frozen_tokens
context_made = refl

context_fresh : require_fresh context 7 (some (aware 20)) ≡ ok tt
unfolding require_fresh aware_datetime
context_fresh = refl

abbrev launch : RunLaunch
launch = record {
  run_id = codes "r1";
  kind = codes "train";
  source = RunSource.manual;
  initiated_by = codes "p1";
  tenant_id = codes "t1";
  target = record { target_id = codes "x1"; boundary_id = codes "b1"; capability = codes "gpu" };
  idempotency_key = codes "k1";
  orchestrator = none;
}

t1_token : is_stable_token (codes "t1") ≡ true
unfolding is_stable_token
t1_token = refl

t2_token : is_stable_token (codes "t2") ≡ true
unfolding is_stable_token
t2_token = refl

authorize_launch-MayLaunch_example :
    (authorize_launch launch context 7 (some (aware 20)) ≡ ok tt) ↔ MayLaunch launch context 20
authorize_launch-MayLaunch_example = authorize_launch-MayLaunch launch context 7 20 t1_token

launch_authorized : authorize_launch launch context 7 (some (aware 20)) ≡ ok tt
unfolding authorize_launch require_fresh require_action require_tenant require_boundary
    require_capability allows_action allows_boundary allows_capability contains_valid matches_tenant
    check_source aware_datetime text_eq contains is_stable_token
launch_authorized = refl

abbrev run : RunRecord
run = record {
  launch = launch;
  state = RunState.running;
  accepted_at = 15;
  state_changed_at = 18;
  sequence = 2;
}

authorize_record-MayOperate_example :
    (authorize_record run context (codes "run.pause") 7 (some (aware 20)) ≡ ok tt)
    ↔ MayOperate run context (codes "run.pause") 20
authorize_record-MayOperate_example =
    authorize_record-MayOperate run context (codes "run.pause") 7 20 t1_token

authorize_record_not_found_example :
    (authorize_record run context (codes "t2") 7 none ≡ err run_not_found_error)
    ↔ (matches_tenant context (codes "t1") ≡ false)
authorize_record_not_found_example =
    authorize_record_not_found run context (codes "t2") 7 none t2_token

authorize_record-authorize_launch_example :
    authorize_record run context run_launch_action 7 (some (aware 20)) ≡ ok tt
authorize_record-authorize_launch_example =
    authorize_record-authorize_launch run context 7 (some (aware 20)) launch_authorized

run_accepted : run_record launch RunState.running (aware 15) (some (aware 18)) 2 ≡ ok run
unfolding run_record changed_at aware_datetime
run_accepted = refl

abbrev pausing : RunControl
pausing = record {
  run_id = codes "r1";
  action = RunControlAction.pause;
  idempotency_key = codes "k2";
  stage_id = none;
  expected_sequence = some 2;
}

pause_authorized :
    authorize_record run context (required_action RunControlAction.pause) 7 (some (aware 20))
    ≡ ok tt
unfolding authorize_record required_action stable_token require_fresh require_action
    require_boundary require_capability allows_action allows_boundary allows_capability
    contains_valid matches_tenant aware_datetime text_eq contains is_stable_token
pause_authorized = refl

abbrev page : RunPage
page = record { records = run ∷ []; next_cursor = some (codes "abc") }

validate_percent_encoding_iff_example :
    (validate_percent_encoding true "href path" (codes "/a%41") ≡ ok tt)
    ↔ Encoded true (codes "/a%41")
validate_percent_encoding_iff_example =
    validate_percent_encoding_iff true "href path" (codes "/a%41")

-- Functions of Python at the texts of these tests: one URL splits, and nothing is encoded.
abbrev signed_url : UrlParts
signed_url = record {
  scheme = codes "https";
  username = none;
  password = none;
  hostname = some (codes "cdn.example");
  port = none;
  path = codes "/a1";
  query = codes "sig=1";
  fragment = [];
}

abbrev plain_urls : UrlFunctions
plain_urls = record {
  urlsplit = λ value. some signed_url;
  unquote = λ s. s;
  lower = λ s. s;
  is_alnum_character = λ c. is_alnum c;
  is_ipv6_address = λ s. false;
}

canonical_accepted :
    authorized_artifact_href plain_urls (codes "/authorized/artifacts/a1") (codes "a1")
    ≡ ok (codes "/authorized/artifacts/a1")
unfolding authorized_artifact_href ascii_url unsafe_url_character canonical_group after_prefix
    is_stable_token check_relative text_eq
canonical_accepted = refl

relative_href_canonical_example :
    (codes "/authorized/artifacts/a1" ≡ artifacts_path ++ codes "a1")
    × (is_stable_token (codes "a1") ≡ true)
relative_href_canonical_example =
    relative_href_canonical plain_urls (codes "/authorized/artifacts/a1") (codes "a1") refl
      canonical_accepted

signed_accepted :
    authorized_artifact_href plain_urls (codes "https://cdn.example/a1?sig=1") (codes "a1")
    ≡ ok (codes "https://cdn.example/a1?sig=1")
unfolding authorized_artifact_href ascii_url unsafe_url_character canonical_group after_prefix
    is_stable_token check_relative text_eq check_absolute bad_parts safe_hostname safe_label
    decode_path unsafe_path without_last_dot split_first validate_percent_encoding is_alnum
signed_accepted = refl

absolute_href_signed_example : (p : UrlParts) × (some signed_url ≡ some p) × SignedUrl plain_urls p
absolute_href_signed_example =
    absolute_href_signed plain_urls (codes "https://cdn.example/a1?sig=1") (codes "a1") refl
      signed_accepted
