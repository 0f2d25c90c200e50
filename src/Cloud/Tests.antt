-- ===== src/Cloud/Tests.antt =====
-- The keys and the attributes of sample receipts, and a witness with a client that counts calls.
use provenex_core.Prelude.{
  ℕ, suc, ◌≡◌, refl, true, false, List, [], ◌∷◌, Result, ok, is_ok, value_of, ok-value_of, pos, All,
  key_error,
}
use provenex_core.Text.{codes, decimal}
use provenex_core.Value.{
  text, dict, seq, items, Fields, to_fields, entry_of, contains, elements, entries, get, get_key,
  put, put_key, same_key, truthy, update, value_eq,
}
use provenex_core.Rules.Sample.{runtime}
use provenex_core.Streaming.{returned, raised}
use provenex_core.Ocsf.{
  Host, OcsfOptions, OcsfEvent, actor_from_receipt, add_label, add_rules, add_step_kind,
  attach_decision, attach_policy, base_event, build_metadata, is_source_blocked,
  iso8601_to_epoch_ms, label_if, policy_section, section_of, time_entries,
}
use provenex_core.Ocsf.Events.{
  receipt_to_ocsf, action_event, blame, decision_table, decisions_by, finding_for_blocked_source,
  finding_for_denied_action, lookup, receipt_to_api_activity, receipt_to_application_activity,
  resource_from_source, service_from_action, source_event,
}
use provenex_core.Cloud.{PubSubClient, PubSubSink, pubsub_publish, receipt_key, pubsub_attributes}
use provenex_core.Cloud.Attributes.{carrier_of, pubsub_publish-events}

abbrev host : Host
host = record {
  runtime = runtime;
  str = λ v. codes "object";
  lower_other = λ c. c ∷ [];
  milliseconds = λ t. pos t;
  now = 0;
}

abbrev options : OcsfOptions
options = record { include_trajectory_correlator = true; extra_metadata = to_fields [] }

key_of_hour :
    receipt_key
      (codes "provenex")
      (record { year = 2026; month = 3; day = 1; hour = 17 })
      (codes "prx_1")
    ≡ codes "provenex/2026/03/01/17/prx_1.json"
unfolding decimal
key_of_hour = refl

abbrev parsed : Fields
parsed = to_fields (
    entry_of "receipt_id" (text (codes "prx_1"))
    ∷ entry_of "caller_hash" (text (codes "c"))
    ∷ entry_of "sources" (
        seq (
          items (
            dict (
              to_fields (
                entry_of "fingerprint" (text (codes "f"))
                ∷ entry_of "verification_outcome" (text (codes "VERIFIED"))
                ∷ []))
            ∷ [])))
    ∷ [])

attributes_of_receipt :
    pubsub_attributes host parsed
    ≡ ok (
        to_fields (
          entry_of "receipt_id" (text (codes "prx_1"))
          ∷ entry_of "caller_hash" (text (codes "c"))
          ∷ []))
unfolding pubsub_attributes get same_key to_fields truthy
attributes_of_receipt = refl

abbrev counting : PubSubClient ℕ
counting = record { send = λ n t b a. returned (suc n); wait_result = λ n. returned n }

abbrev sink : PubSubSink ℕ
sink = record { publisher = 0; topic_path = codes "t"; wait = true; closed = false }

abbrev run : Result (List OcsfEvent)
run = receipt_to_ocsf host options parsed

runs : is_ok run ≡ true
unfolding receipt_to_ocsf policy_section truthy get to_fields elements is_source_blocked value_eq
    finding_for_blocked_source base_event add_step_kind update add_rules attach_policy lookup
    receipt_to_application_activity attach_decision finding_for_denied_action action_event blame
    decision_table decisions_by receipt_to_api_activity resource_from_source service_from_action
    source_event actor_from_receipt add_label build_metadata iso8601_to_epoch_ms label_if section_of
    time_entries contains entries get_key put put_key same_key
runs = refl

pubsub_publish-events_example :
    All
      (λ e.
        pubsub_publish counting host sink
          (carrier_of host options parsed counting sink (codes "prx_1") (codes "{}") e)
        ≡ raised key_error sink)
      (value_of run runs)
pubsub_publish-events_example =
    pubsub_publish-events host options parsed counting sink (codes "prx_1") (codes "{}")
      (value_of run runs) refl (ok-value_of run runs)
