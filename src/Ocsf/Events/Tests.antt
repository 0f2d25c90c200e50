-- ===== src/Ocsf/Events/Tests.antt =====
-- A receipt with two sources and one denied action, its events, and witnesses.
use provenex_core.Prelude.{
  ℕ, ◌≡◌, refl, true, false, none, some, List, [], ◌∷◌, ◌++◌, map, Result, ok, is_ok, value_of,
  ok-value_of, pos, ◌||◌, sink_closed_error,
}
use provenex_core.Text.{Text, codes}
use provenex_core.Value.{
  Value, text, bool, end, number, dict, seq, items, Fields, to_fields, entry_of, contains, elements,
  entries, get, get_key, put, put_key, same_key, truthy, update, value_eq,
}
use provenex_core.Rules.Sample.{runtime}
use provenex_core.Index.{stale}
use provenex_core.Policy.{should_block, default_policy, pass}
use provenex_core.Receipt.{source_dict, receipt_dict, SourceRecord, ProvenanceReceipt}
use provenex_core.Streaming.{ReceiptSink, returned, raised}
use provenex_core.Streaming.Retry.{Logged}
use provenex_core.Ocsf.{
  Host, OcsfOptions, OcsfEvent, is_source_blocked, actor_from_receipt, add_label, add_rules,
  add_step_kind, attach_decision, attach_policy, base_event, build_metadata, iso8601_to_epoch_ms,
  label_if, policy_section, section_of, time_entries,
}
use provenex_core.Ocsf.Events.{
  receipt_to_ocsf, OcsfCarrier, OcsfAdapter, adapter_publish, adapter_close, action_event, blame,
  decision_table, decisions_by, finding_for_blocked_source, finding_for_denied_action, lookup,
  receipt_to_api_activity, receipt_to_application_activity, resource_from_source,
  service_from_action, source_event,
}
use provenex_core.Ocsf.Events.Reported.{Reported, receipt_to_ocsf-Reported}
use provenex_core.Ocsf.Events.Delivered.{
  is_source_blocked-should_block, adapter_publish-log, carriers,
}

abbrev host : Host
host = record {
  runtime = runtime;
  str = λ v. codes "object";
  lower_other = λ c. c ∷ [];
  milliseconds = λ t. pos t;
  now = 0;
}

abbrev options : OcsfOptions
options = record { include_trajectory_correlator = true; extra_metadata = to_fields [] }

abbrev source : Text → Text → Value
source fingerprint outcome = dict (
    to_fields (
      entry_of "fingerprint" (text fingerprint)
      ∷ entry_of "verification_outcome" (text outcome)
      ∷ []))

abbrev denial : Value
denial = dict (
    to_fields (entry_of "action_index" (number 0) ∷ entry_of "decision" (text (codes "deny")) ∷ []))

abbrev policy : Value
policy = dict (
    to_fields (
      entry_of "verification" (dict (to_fields (entry_of "block_stale" (bool true) ∷ [])))
      ∷ entry_of "tool_call_control"
          (dict (to_fields (entry_of "decisions" (seq (items (denial ∷ []))) ∷ [])))
      ∷ []))

abbrev parsed : Fields
parsed = to_fields (
    entry_of "issuer" (text (codes "provenex-core/0.7.2"))
    ∷ entry_of "sources" (
        seq
          (items (source (codes "f") (codes "STALE") ∷ source (codes "g") (codes "VERIFIED") ∷ [])))
    ∷ entry_of "policy" policy
    ∷ entry_of "actions"
        (seq (items (dict (to_fields (entry_of "action_index" (number 0) ∷ [])) ∷ [])))
    ∷ [])

abbrev class_of : OcsfEvent → ℕ
class_of e = e.kind.class_uid

abbrev run : Result (List OcsfEvent)
run = receipt_to_ocsf host options parsed

runs : is_ok run ≡ true
unfolding receipt_to_ocsf policy_section truthy get to_fields elements is_source_blocked value_eq
    finding_for_blocked_source base_event add_step_kind update add_rules attach_policy lookup
    receipt_to_application_activity attach_decision finding_for_denied_action action_event blame
    decision_table decisions_by receipt_to_api_activity resource_from_source service_from_action
    source_event actor_from_receipt add_label build_metadata iso8601_to_epoch_ms label_if section_of
    time_entries contains entries get_key put put_key same_key
runs = refl

classes : map class_of (value_of run runs) ≡ 2004 ∷ 6005 ∷ 2004 ∷ []
unfolding receipt_to_ocsf policy_section truthy get to_fields elements is_source_blocked value_eq
    finding_for_blocked_source base_event add_step_kind update add_rules attach_policy lookup
    receipt_to_application_activity attach_decision finding_for_denied_action action_event blame
    decision_table decisions_by receipt_to_api_activity resource_from_source service_from_action
    source_event actor_from_receipt add_label build_metadata iso8601_to_epoch_ms label_if section_of
    time_entries contains entries get_key put put_key same_key
classes = refl

receipt_to_ocsf-Reported_example : Reported host options parsed (value_of run runs)
receipt_to_ocsf-Reported_example =
    receipt_to_ocsf-Reported host options parsed (value_of run runs) (ok-value_of run runs)

abbrev collecting : ReceiptSink OcsfCarrier (List OcsfCarrier)
collecting = record { publish = λ s c. returned (s ++ c ∷ []); close = λ s. returned s }

collecting-Logged : Logged collecting (λ s. s)
collecting-Logged = record { taken = λ s c h. refl; refused = λ s c h. cc }

abbrev adapter : OcsfAdapter (List OcsfCarrier)
adapter = record { downstream = []; options = options; closed = false }

adapter_publish-log_example :
    ((is_ok (adapter_publish collecting host adapter parsed (codes "prx_1")).result ≡ true)
      → (false ≡ false)
        × (es : List OcsfEvent) × (receipt_to_ocsf host options parsed ≡ ok es)
        × ((adapter_publish collecting host adapter parsed (codes "prx_1")).state.downstream
            ≡ [] ++ carriers collecting (λ s. s) collecting-Logged (codes "prx_1") es))
    × (adapter_publish collecting host (adapter_close collecting adapter) parsed (codes "prx_1")
        ≡ raised sink_closed_error (adapter_close collecting adapter))
adapter_publish-log_example =
    adapter_publish-log collecting (λ s. s) collecting-Logged host adapter parsed (codes "prx_1")

abbrev stale_source : SourceRecord
stale_source = record {
  chunk_index = 0;
  fingerprint = codes "f";
  document_id = none;
  document_version = none;
  ingested_at = none;
  chunk_offset = none;
  chunk_length = none;
  authorized = none;
  verification_outcome = stale;
  normalization_applied = [];
  leaf_index = none;
  inclusion_proof = none;
  claims = [];
  content_source = none;
}

abbrev written : ProvenanceReceipt
written = record {
  receipt_id = codes "prx_1";
  issued_at = codes "2026";
  output_hash = codes "sha256:00";
  sources = stale_source ∷ [];
  policy = record (default_policy none) { block_stale = true };
  summary = record {
    total_chunks = 1;
    verified_count = 0;
    stale_count = 1;
    unauthorized_count = 0;
    unverified_count = 0;
    tampered_count = 0;
    action_counts = none;
    status = pass;
  };
  signature_algorithm = none;
  signature_value = none;
  transparency_log = none;
  trajectory = none;
  access_control = none;
  actions = [];
  tool_call_control = none;
  caller_hash = some (codes "caller");
}

abbrev value_fields : Value → Fields
value_fields (dict fs) = fs
value_fields _ = end

is_source_blocked-should_block_example :
    is_source_blocked host (receipt_dict written) (value_fields (source_dict stale_source)) none
    ≡ ok (should_block written.policy stale || false)
unfolding source_dict
is_source_blocked-should_block_example =
    is_source_blocked-should_block host written stale_source
      (value_fields (source_dict stale_source)) none refl
