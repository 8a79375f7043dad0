-- ===== src/IsolatedFeature/Tests.antt =====
-- kestrel_sdk/isolated_feature/protocol.py, on concrete messages. Frames are the values themselves,
-- and there are two instants, midnight and noon.
use kestrel_sovereign_sdk.Prelude.{
  ℕ, pos, Bool, true, false, none, some, [], ◌∷◌, Text, text_eq, codes, contains, ok, err,
  value_error, if◌then◌else◌, ◌≡◌, ◌↔◌, ◌≤◌, refl, length, arith,
}
use kestrel_sovereign_sdk.IsolatedFeature.Values.{
  Value, null, string, integer, list, dict, items_of, end, field, named, is_json, no_surrogates,
  has, or_null, Codec, CodecLaws, loaded,
}
use kestrel_sovereign_sdk.IsolatedFeature.Messages.{
  jsonrpc_version, JsonRpcMessage, request, to_dict, encode_message, decode_message,
}
use kestrel_sovereign_sdk.IsolatedFeature.Messages.RoundTrip.{
  WellFormed, IsId, decode_message-encode_message,
}
use kestrel_sovereign_sdk.IsolatedFeature.Messages.Sound.{IsFrameOf}
use kestrel_sovereign_sdk.IsolatedFeature.Messages.Decoded.{decode_message_iff}
use kestrel_sovereign_sdk.IsolatedFeature.Execution.{
  Runtime, RuntimeLaws, ToolExecutionContext, check_size, replace_z, max_context_identifier_bytes,
  check_trigger, check_context, context_from_dict, context_fields,
}
use kestrel_sovereign_sdk.IsolatedFeature.Execution.RoundTrip.{context_from_dict-context_fields}
use kestrel_sovereign_sdk.IsolatedFeature.Metadata.{
  ToolMetadata, metadata_fields, metadata_from_dict,
}
use kestrel_sovereign_sdk.IsolatedFeature.Metadata.RoundTrip.{
  IsPrintable, metadata_from_dict-metadata_fields,
}
use kestrel_sovereign_sdk.IsolatedFeature.Ingress.{
  validate_host_ingress_name, validate_host_ingress_payload,
}
use kestrel_sovereign_sdk.IsolatedFeature.Ingress.Slugs.{Slug, validate_host_ingress_name_iff}
use kestrel_sovereign_sdk.IsolatedFeature.Ingress.Payloads.{
  is_strict, nesting, validate_host_ingress_payload_iff,
}

abbrev plain : Codec Value
plain = record {
  fits = λ v. true;
  dumps = λ v. if is_json v then ok v else err (value_error "not JSON");
  loads = λ f. loaded f;
}

plain_laws : CodecLaws plain
plain_laws = record {
  dumps_returns = λ v json fits. (v, simp json);
  loads_dumps = λ v f json written. ground (arith, json, written);
}

abbrev health : JsonRpcMessage
health = request (record {
  method = codes "health";
  params = field (named (codes "deep")) null end;
  id = integer (pos 7);
  jsonrpc = jsonrpc_version;
})

health-WellFormed : WellFormed health
unfolding WellFormed IsId
health-WellFormed = (omega arith, tt, refl)

health-is_json : is_json (to_dict health) ≡ true
unfolding is_json to_dict no_surrogates has text_eq
health-is_json = refl

decode_message-encode_message_example :
    (f : Value) × (encode_message plain health ≡ ok f) × (decode_message plain f ≡ ok health)
decode_message-encode_message_example =
    decode_message-encode_message plain plain_laws health health-WellFormed health-is_json refl

decoded_health : decode_message plain (to_dict health) ≡ ok health
unfolding decode_message to_dict text_eq
decoded_health = refl

decode_message_iff_example :
    (decode_message plain (to_dict health) ≡ ok health) ↔ IsFrameOf plain (to_dict health) health
decode_message_iff_example = decode_message_iff plain (to_dict health) health

-- Midnight is `false`, noon is `true`.
abbrev written : Bool → Text
written false = codes "2026-06-17T00:00:00+00:00"
written true = codes "2026-06-17T12:00:00+00:00"

abbrev two_instants : Runtime Bool
two_instants = record {
  is_aware = λ d. true;
  isoformat = written;
  fromisoformat = λ s.
      if text_eq s (written false)
      then some false
      else if text_eq s (written true)
      then some true
      else none;
  dumps_length = λ v. ok 200;
}

written_size : (d : Bool) → check_size (written d) max_context_identifier_bytes ≡ ok tt
unfolding check_size
written_size false = refl
written_size true = refl

written_read : (d : Bool) → two_instants.fromisoformat (replace_z (written d)) ≡ some d
unfolding replace_z text_eq
written_read false = refl
written_read true = refl

two_instants_laws : RuntimeLaws two_instants
two_instants_laws = record {
  isoformat_size = written_size;
  fromisoformat-isoformat = λ d aware. written_read d;
}

abbrev scheduled : ToolExecutionContext Bool
scheduled = record {
  invocation_id = codes "inv-1";
  attempt = pos 2;
  trigger = record {
    kind = codes "scheduler";
    id = some (codes "occurrence-1");
    source_id = none;
    triggered_at = some true;
    scheduled_for = some false;
  };
  idempotency_key = some (codes "key-1");
  version = pos 1;
}

scheduled_trigger : check_trigger two_instants scheduled.trigger ≡ ok tt
unfolding check_trigger contains text_eq or_null
scheduled_trigger = refl

scheduled_context : check_context two_instants scheduled ≡ ok tt
unfolding check_context or_null
scheduled_context = refl

context_from_dict-context_fields_example :
    context_from_dict two_instants (dict (context_fields two_instants scheduled)) ≡ ok scheduled
context_from_dict-context_fields_example =
    context_from_dict-context_fields two_instants two_instants_laws scheduled scheduled_trigger
      scheduled_context

validate_host_ingress_name_iff_example :
    (validate_host_ingress_name (string (codes "poll-now")) ≡ ok (codes "poll-now"))
    ↔ (Slug (codes "poll-now") × (length (codes "poll-now") ≤ 64))
validate_host_ingress_name_iff_example = validate_host_ingress_name_iff (codes "poll-now")

-- A list of texts, and a size that is too large by one.
abbrev pages : Value
pages = list (items_of (codes "a" ∷ codes "b" ∷ []))

validate_host_ingress_payload_iff_example :
    (validate_host_ingress_payload (λ v. some 65_537) pages ≡ ok pages) ↔ (
      (is_strict pages ≡ true)
      × (nesting pages ≤ 32)
      × ((n : ℕ) × (some 65_537 ≡ some n) × (n ≤ 65536)))
validate_host_ingress_payload_iff_example =
    validate_host_ingress_payload_iff (λ v. some 65_537) pages

abbrev search_tool : ToolMetadata
search_tool = record {
  name = codes "search";
  description = codes "Find pages";
  input_schema = field (named (codes "type")) (string (codes "object")) end;
  skill_id = none;
  version = some (codes "1.0.0");
  capability_tags = codes "read" ∷ codes "web" ∷ [];
  permission_tags = [];
  category = none;
  command_prefix = some (codes "/find");
}

search_tool-IsPrintable : IsPrintable search_tool
search_tool-IsPrintable = record {
  name_said = omega arith;
  description_said = omega arith;
  skill_id_said = tt;
  version_said = omega arith;
  category_said = tt;
  command_prefix_said = omega arith;
}

metadata_from_dict-metadata_fields_example :
    metadata_from_dict (metadata_fields search_tool) ≡ ok search_tool
metadata_from_dict-metadata_fields_example =
    metadata_from_dict-metadata_fields search_tool search_tool-IsPrintable
