-- ===== src/IsolatedFeature/Execution/RoundTrip.antt =====
-- kestrel_sdk/isolated_feature/protocol.py: execution metadata survives its `dict`.
use kestrel_sovereign_sdk.Prelude.{
  true, Bool-cases, not, Option, none, some, codes, text_eq, contains, ok, raise_if, >>=-eq-ok,
  both_iff, protocol_error, ◌≡◌, refl, arith, inl, inr, ◌∙◌,
}
use kestrel_sovereign_sdk.IsolatedFeature.Values.{
  string, dict, end, get, or_null, only, is_key, text_value,
}
use kestrel_sovereign_sdk.IsolatedFeature.Execution.{
  Runtime, RuntimeLaws, ToolExecutionTrigger, ToolExecutionContext, supported_trigger_kinds,
  trigger_names, context_names, max_trigger_kind_bytes, max_context_identifier_bytes, check_size,
  require_context_string, optional_context_string, text_or_none, require_aware_timestamp, aware_of,
  parse_timestamp, check_timestamp, check_trigger, time_value, trigger_fields, kind_text,
  new_trigger, trigger_from_dict, context_fields, check_encoded, check_context, integer_of,
  new_context, context_from_dict, is_version_one, is_positive,
}
use kestrel_sovereign_sdk.IsolatedFeature.Execution.Lookups.{
  get_same, get_other, only-optional_field, require_context_string-same,
  optional_context_string-same,
}

module _ {Datetime : Type 0} (runtime : Runtime Datetime) where
  -- What `__post_init__` of a trigger checked.
  record IsTrigger (t : ToolExecutionTrigger Datetime) : Type 0 where
    id_bounded : optional_context_string (text_or_none t.id) ≡ ok t.id
    source_id_bounded : optional_context_string (text_or_none t.source_id) ≡ ok t.source_id
    triggered_aware : check_timestamp runtime t.triggered_at ≡ ok tt
    scheduled_aware : check_timestamp runtime t.scheduled_for ≡ ok tt

  check_trigger-IsTrigger :
      (t : ToolExecutionTrigger Datetime) → check_trigger runtime t ≡ ok tt → IsTrigger t
  unfolding check_trigger
  check_trigger-IsTrigger t h =
      let (_, _, h1) =
        >>=-eq-ok
          (raise_if (not (contains supported_trigger_kinds t.kind))
            (protocol_error "trigger kind is not supported"))
          _ h in
      let (_, _, h2) = >>=-eq-ok (check_size t.kind max_trigger_kind_bytes) _ h1 in
      let (id, i, h3) = >>=-eq-ok (optional_context_string (text_or_none t.id)) _ h2 in
      let (source_id, s, h4) =
        >>=-eq-ok (optional_context_string (text_or_none t.source_id)) _ h3 in
      let (triggered, scheduled) = (both_iff _ _).0 h4 in
      record {
        id_bounded = optional_context_string-same t.id id i;
        source_id_bounded = optional_context_string-same t.source_id source_id s;
        triggered_aware = triggered;
        scheduled_aware = scheduled;
      }

  parse_timestamp-same :
      RuntimeLaws runtime
      → (o : Option Datetime) → check_timestamp runtime o ≡ ok tt
      → parse_timestamp runtime (or_null (time_value runtime o)) ≡ ok o
  unfolding parse_timestamp or_null time_value check_timestamp require_aware_timestamp aware_of
  parse_timestamp-same laws none h = refl
  parse_timestamp-same laws (some d) h = elim (Bool-cases (runtime.is_aware d)) [
    | inl aware ↦ simp (laws.isoformat_size d, laws.fromisoformat-isoformat d aware, aware)
    | inr naive ↦ ground (arith, naive)
  ]

  module _ (t : ToolExecutionTrigger Datetime) where
    get_scheduled_for :
        get (codes "scheduled_for") (trigger_fields runtime t) ≡ time_value runtime t.scheduled_for
    unfolding trigger_fields get is_key text_eq
    get_scheduled_for =
        get_other _ (codes "id") (text_value t.id) _ refl
        ∙ get_other _ (codes "source_id") (text_value t.source_id) _ refl
        ∙ get_other _ (codes "triggered_at") (time_value runtime t.triggered_at) _ refl
        ∙ get_same _ (time_value runtime t.scheduled_for) end refl

    get_triggered_at :
        get (codes "triggered_at") (trigger_fields runtime t) ≡ time_value runtime t.triggered_at
    unfolding trigger_fields get is_key text_eq
    get_triggered_at =
        get_other _ (codes "id") (text_value t.id) _ refl
        ∙ get_other _ (codes "source_id") (text_value t.source_id) _ refl
        ∙ get_same _ (time_value runtime t.triggered_at) _
            (get_other _ (codes "scheduled_for") (time_value runtime t.scheduled_for) end refl)

    get_source_id : get (codes "source_id") (trigger_fields runtime t) ≡ text_value t.source_id
    unfolding trigger_fields get is_key text_eq
    get_source_id =
        get_other _ (codes "id") (text_value t.id) _ refl
        ∙ get_same _ (text_value t.source_id) _ (
            get_other _ (codes "triggered_at") (time_value runtime t.triggered_at) _ refl
            ∙ get_other _ (codes "scheduled_for") (time_value runtime t.scheduled_for) end refl)

    get_kind : kind_text (or_null (get (codes "kind") (trigger_fields runtime t))) ≡ ok t.kind
    unfolding trigger_fields get is_key text_eq kind_text or_null
    get_kind = refl

    get_id : get (codes "id") (trigger_fields runtime t) ≡ text_value t.id
    unfolding trigger_fields get is_key text_eq
    get_id = get_same _ (text_value t.id) _ (
        get_other _ (codes "source_id") (text_value t.source_id) _ refl
        ∙ get_other _ (codes "triggered_at") (time_value runtime t.triggered_at) _ refl
        ∙ get_other _ (codes "scheduled_for") (time_value runtime t.scheduled_for) end refl)

    only-trigger_names : only trigger_names (trigger_fields runtime t) ≡ true
    unfolding trigger_fields only contains text_eq
    only-trigger_names =
        only-optional_field trigger_names (codes "id") (text_value t.id) _ refl
        ∙ only-optional_field trigger_names (codes "source_id") (text_value t.source_id) _ refl
        ∙ only-optional_field trigger_names (codes "triggered_at")
            (time_value runtime t.triggered_at) _ refl
        ∙ only-optional_field trigger_names (codes "scheduled_for")
            (time_value runtime t.scheduled_for) end refl

  new_trigger-same :
      (t : ToolExecutionTrigger Datetime)
      → check_trigger runtime t ≡ ok tt
      → new_trigger runtime t ≡ ok t
  unfolding new_trigger
  new_trigger-same t h = simp h

  trigger_from_dict-trigger_fields :
      RuntimeLaws runtime
      → (t : ToolExecutionTrigger Datetime) → check_trigger runtime t ≡ ok tt
      → trigger_from_dict runtime (dict (trigger_fields runtime t)) ≡ ok t
  unfolding trigger_from_dict text_or_none
  trigger_from_dict-trigger_fields laws t h =
      let checked = check_trigger-IsTrigger t h in
      simp
        (
          only-trigger_names t,
          get_kind t,
          get_id t,
          get_source_id t,
          get_triggered_at t,
          get_scheduled_for t,
          checked.id_bounded,
          checked.source_id_bounded,
          parse_timestamp-same laws t.triggered_at checked.triggered_aware,
          parse_timestamp-same laws t.scheduled_for checked.scheduled_aware,
        )
        (new_trigger-same t h)

  -- What `__post_init__` of a context checked.
  record IsContext (c : ToolExecutionContext Datetime) : Type 0 where
    invocation_bounded :
        require_context_string (string c.invocation_id) max_context_identifier_bytes
        ≡ ok c.invocation_id
    key_bounded : optional_context_string (text_or_none c.idempotency_key) ≡ ok c.idempotency_key
    size_bounded : check_encoded runtime (dict (context_fields runtime c)) ≡ ok tt

  check_context-IsContext :
      (c : ToolExecutionContext Datetime) → check_context runtime c ≡ ok tt → IsContext c
  unfolding check_context
  check_context-IsContext c h =
      let (_, _, h1) =
        >>=-eq-ok (raise_if (not (is_version_one c.version)) (protocol_error "unsupported version"))
          _ h in
      let (id, i, h2) =
        >>=-eq-ok (require_context_string (string c.invocation_id) max_context_identifier_bytes) _
          h1 in
      let (key, k, h3) =
        >>=-eq-ok (optional_context_string (text_or_none c.idempotency_key)) _ h2 in
      let (_, _, h4) =
        >>=-eq-ok
          (raise_if (not (is_positive c.attempt))
            (protocol_error "attempt must be a positive integer"))
          _ h3 in
      record {
        invocation_bounded = require_context_string-same c.invocation_id id _ i;
        key_bounded = optional_context_string-same c.idempotency_key key k;
        size_bounded = h4;
      }

  new_context-same :
      (c : ToolExecutionContext Datetime)
      → check_context runtime c ≡ ok tt
      → new_context runtime c ≡ ok c
  unfolding new_context
  new_context-same c h = simp h

  module _ (c : ToolExecutionContext Datetime) where
    only-context_names : only context_names (context_fields runtime c) ≡ true
    unfolding context_fields only contains text_eq
    only-context_names =
        only-optional_field context_names (codes "idempotency_key") (text_value c.idempotency_key)
          end refl

    get_version :
        integer_of (or_null (get (codes "version") (context_fields runtime c))) ≡ ok c.version
    unfolding context_fields get is_key text_eq integer_of or_null
    get_version = refl

    get_invocation_id :
        or_null (get (codes "invocation_id") (context_fields runtime c)) ≡ string c.invocation_id
    unfolding context_fields get is_key text_eq or_null
    get_invocation_id = refl

    get_attempt :
        integer_of (or_null (get (codes "attempt") (context_fields runtime c))) ≡ ok c.attempt
    unfolding context_fields get is_key text_eq integer_of or_null
    get_attempt = refl

    get_trigger :
        or_null (get (codes "trigger") (context_fields runtime c))
        ≡ dict (trigger_fields runtime c.trigger)
    unfolding context_fields get is_key text_eq or_null
    get_trigger = refl

    get_idempotency_key :
        get (codes "idempotency_key") (context_fields runtime c) ≡ text_value c.idempotency_key
    unfolding context_fields get is_key text_eq
    get_idempotency_key = get_same _ (text_value c.idempotency_key) end refl

-- A context that its constructor accepts, with a trigger that its constructor accepts, is read back
-- from its `dict` as it was, where `fromisoformat` reads what `isoformat` writes.
pub context_from_dict-context_fields :
    {Datetime : Type 0} (runtime : Runtime Datetime) (laws : RuntimeLaws runtime)
    (c : ToolExecutionContext Datetime)
    → check_trigger runtime c.trigger ≡ ok tt
    → check_context runtime c ≡ ok tt
    → context_from_dict runtime (dict (context_fields runtime c)) ≡ ok c
unfolding context_from_dict text_or_none
context_from_dict-context_fields runtime laws c t h =
    let checked = check_context-IsContext runtime c h in
    simp
      (
        checked.size_bounded,
        only-context_names runtime c,
        get_version runtime c,
        get_invocation_id runtime c,
        checked.invocation_bounded,
        get_attempt runtime c,
        get_trigger runtime c,
        trigger_from_dict-trigger_fields runtime laws c.trigger t,
        get_idempotency_key runtime c,
        checked.key_bounded,
      )
      (new_context-same runtime c h)
