-- ===== src/Admission/Tests.antt =====
-- A call that is denied under its policy, with the parameters redacted, and witnesses.
use provenex_core.Verify.{decision_dict, optionally_advance}
use provenex_core.Receipt.Signing.{compute_caller_hash, hash_output}
use provenex_core.Index.Sqlite.{canonical_payload}
use provenex_core.Receipt.Builder.{add_action, add_source, finalize, sign_receipt, summarize}
use provenex_core.Rules.Duration.{parse_duration, parse_iso8601}
use provenex_core.Rules.Resolve.{
  chunk_attribute, request_attribute, resolve_parts, resolve_path, tool_attribute, walk,
  when_matches,
}
use provenex_core.Rules.Constraint.{
  applied, check_all, check_constraint, check_entry, check_operators, decide,
}
use provenex_core.ToolCall.{build_tool_call_inputs, evaluate_tool_call, parameters_hash}
use provenex_core.Prelude.{
  ◌≡◌, refl, true, none, some, [], ◌∷◌, Result, ok, is_ok, value_of, ok-value_of,
}
use provenex_core.Text.{Text, codes, has_char, hex, split, utf8}
use provenex_core.Value.{
  dict, contains, elements, entries, get, get_key, pop, put, same_key, set_default, to_fields,
  value_eq,
}
use provenex_core.Rules.{deny, value_hash, canonical_bytes}
use provenex_core.Rules.Admits.{Decided}
use provenex_core.Rules.Sample.{runtime, request, mail_call}
use provenex_core.Policy.{default_policy, overall_status}
use provenex_core.Access.Sample.{mail, mail_evaluator}
use provenex_core.ToolCall.Guarded.{call_subject}
use provenex_core.Unified.{
  UnifiedPolicy, native_tool_evaluator, unified, coerce_policy, control_metadata,
}
use provenex_core.Receipt.{
  ProvenanceReceipt, action_dict, claim_dict, policy_dict, receipt_dict, source_dict, summary_dict,
  unsigned_entries, verification_dict,
}
use provenex_core.Streaming.{ReceiptSink, returned, no_sink, safe_publish}
use provenex_core.Admission.{
  AdmissionOptions, AdmissionResult, admission_check, tool_call_denied, enforce_admission,
  action_decision, tool_decision,
}
use provenex_core.Admission.Enforced.{
  recorded_action, admission_check-records, enforce_admission-Decided,
}

abbrev guarded : UnifiedPolicy
guarded = record {
  verification = default_policy none;
  access_control = none;
  tool_call_control = some (native_tool_evaluator runtime mail_evaluator);
}

abbrev options : AdmissionOptions
options = record {
  policy = unified guarded;
  signer = none;
  trajectory = none;
  step_kind = none;
  agent_id = none;
  output_text = [];
  redact_parameters = true;
  redact_inputs = true;
  caller_hash_salt = none;
}

abbrev quiet : ReceiptSink ProvenanceReceipt (Unit {0})
quiet = record { publish = λ s c. returned s; close = λ s. returned s }

abbrev checks : Result (AdmissionResult runtime quiet)
checks =
    admission_check runtime quiet mail_call request options no_sink (codes "prx_1") (codes "2026")

returns : is_ok checks ≡ true
unfolding optionally_advance admission_check safe_publish coerce_policy tool_decision
    action_decision parameters_hash evaluate_tool_call build_tool_call_inputs decide when_matches
    resolve_path resolve_parts walk chunk_attribute request_attribute tool_attribute check_all
    check_entry check_constraint check_operators applied parse_iso8601 value_eq contains get get_key
    put same_key set_default entries to_fields value_hash canonical_bytes parse_duration utf8 hex
    split has_char finalize sign_receipt summarize overall_status add_source add_action
    canonical_payload hash_output compute_caller_hash receipt_dict unsigned_entries pop
    control_metadata decision_dict elements claim_dict source_dict action_dict policy_dict
    summary_dict verification_dict
returns = refl

admission_check-records_example :
    (hash : Text) × (value_hash runtime (dict mail_call.parameters) ≡ ok hash)
    × ((value_of checks returns).receipt.actions
        ≡ recorded_action runtime quiet mail_call true hash ∷ [])
unfolding coerce_policy
admission_check-records_example =
    admission_check-records runtime quiet guarded mail_call request options no_sink (codes "prx_1")
      (codes "2026") {a = value_of checks returns} refl (ok-value_of checks returns)

enforces :
    enforce_admission runtime quiet mail_call request options no_sink (codes "prx_1") (codes "2026")
    ≡ ok (tool_call_denied (value_of checks returns))
unfolding enforce_admission optionally_advance admission_check safe_publish coerce_policy
    tool_decision action_decision parameters_hash evaluate_tool_call build_tool_call_inputs decide
    when_matches resolve_path resolve_parts walk chunk_attribute request_attribute tool_attribute
    check_all check_entry check_constraint check_operators applied parse_iso8601 value_eq contains
    get get_key put same_key set_default entries to_fields value_hash canonical_bytes parse_duration
    utf8 hex split has_char finalize sign_receipt summarize overall_status add_source add_action
    canonical_payload hash_output compute_caller_hash receipt_dict unsigned_entries pop
    control_metadata decision_dict elements claim_dict source_dict action_dict policy_dict
    summary_dict verification_dict
enforces = refl

enforce_admission-Decided_example :
    Decided runtime deny
      (call_subject mail_call request)
      (mail ∷ [])
      deny
      (value_of checks returns).rules_fired
unfolding coerce_policy
enforce_admission-Decided_example =
    enforce_admission-Decided runtime quiet guarded mail_evaluator mail_call request options no_sink
      (codes "prx_1") (codes "2026") {out = tool_call_denied (value_of checks returns)} refl refl
      enforces
