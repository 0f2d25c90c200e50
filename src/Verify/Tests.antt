-- ===== src/Verify/Tests.antt =====
-- Two chunks, one of which the evaluator denies, and a witness.
use provenex_core.Receipt.Signing.{compute_caller_hash, hash_output}
use provenex_core.Index.Sqlite.{canonical_payload}
use provenex_core.Receipt.Builder.{add_action, add_source, finalize, sign_receipt, summarize}
use provenex_core.Rules.{canonical_bytes, value_hash}
use provenex_core.Rules.Duration.{parse_duration, parse_iso8601}
use provenex_core.Rules.Resolve.{
  chunk_attribute, request_attribute, resolve_parts, resolve_path, tool_attribute, walk,
  when_matches,
}
use provenex_core.Rules.Constraint.{
  applied, check_all, check_constraint, check_entry, check_operators, decide,
}
use provenex_core.Access.{build_inputs, evaluate}
use provenex_core.Prelude.{
  ◌≡◌, refl, true, false, not, none, some, List, [], ◌∷◌, Result, ok, is_ok, value_of, ok-value_of,
  nat_eq, list_eq,
}
use provenex_core.Text.{Text, codes, hex, utf8, split, has_char}
use provenex_core.Value.{
  text, Fields, end, contains, elements, entries, get, get_key, pop, put, same_key, set_default,
  to_fields, value_eq,
}
use provenex_core.Rules.Sample.{runtime, request, entry}
use provenex_core.Index.{ProvenanceIndex, IndexEntry, verified}
use provenex_core.Policy.{default_policy, overall_status}
use provenex_core.Access.Sample.{evaluator}
use provenex_core.Unified.{
  UnifiedPolicy, native_evaluator, unified, coerce_policy, control_metadata,
}
use provenex_core.Receipt.{
  ProvenanceReceipt, action_dict, claim_dict, policy_dict, receipt_dict, source_dict, summary_dict,
  unsigned_entries, verification_dict,
}
use provenex_core.Streaming.{ReceiptSink, returned, no_sink, safe_publish}
use provenex_core.Verify.{
  string_item, ChunksArgument, many_chunks, coerce_chunks, ChunkFingerprinter, VerifyOptions,
  VerifiedChunks, verify_chunks, build_chunk_context, decision_dict, emit, verify_each, verify_one,
}
use provenex_core.Verify.Gate.{select, lets_through, outcomes, verdicts, verify_chunks-select}

abbrev row : IndexEntry
row = record {
  fingerprint = codes "f";
  document_id = codes "d";
  document_version = codes "v";
  ingested_at = codes "2025";
  chunk_offset = 0;
  chunk_length = 1;
  authorized = true;
  superseded = false;
  signature = [];
}

-- An index in which everything is found and verified.
abbrev full_index : ProvenanceIndex
full_index = record {
  State = Unit {0};
  add = λ s a. ok s;
  lookup = λ s f. some row;
  set_authorization = λ s d b. s;
  supersede = λ s d v. (s, 0);
  verify = λ s f. ok verified;
}

abbrev fingerprinter : ChunkFingerprinter
fingerprinter = record { chunk_fingerprint = λ s. s; applied_steps = λ s. ok [] }

abbrev guarded : UnifiedPolicy
guarded = record {
  verification = default_policy none;
  access_control = some (native_evaluator runtime evaluator);
  tool_call_control = none;
}

abbrev options : VerifyOptions
options = record {
  signer = none;
  policy = unified guarded;
  trajectory = none;
  step_kind = none;
  agent_id = none;
  output_text = [];
  request_context = some request;
  chunk_metadata = some (entry "residency" (text (codes "EU")) end ∷ end ∷ []);
  chunk_metadata_binding = codes "at_ingest";
  caller_hash_salt = none;
  content_source = none;
}

abbrev quiet : ReceiptSink ProvenanceReceipt (Unit {0})
quiet = record { publish = λ s c. returned s; close = λ s. returned s }

abbrev chunks : ChunksArgument
chunks = many_chunks (string_item (codes "a") ∷ string_item (codes "b") ∷ [])

abbrev run : Result (VerifiedChunks runtime full_index fingerprinter quiet)
run =
    verify_chunks runtime full_index fingerprinter quiet tt chunks options no_sink (codes "prx_1")
      (codes "2026")

runs : is_ok run ≡ true
unfolding verify_chunks emit safe_publish coerce_policy coerce_chunks verify_each verify_one
    build_chunk_context evaluate build_inputs decide when_matches resolve_path resolve_parts walk
    chunk_attribute request_attribute tool_attribute check_all check_entry check_constraint
    check_operators applied parse_iso8601 value_eq contains get get_key put same_key set_default
    entries to_fields value_hash canonical_bytes parse_duration utf8 hex split has_char finalize
    sign_receipt summarize overall_status add_source add_action canonical_payload hash_output
    compute_caller_hash receipt_dict unsigned_entries pop control_metadata decision_dict elements
    claim_dict source_dict action_dict policy_dict summary_dict verification_dict
runs = refl

-- The chunk without a tag is blocked.
blocks_untagged : (value_of run runs).blocked ≡ codes "b" ∷ []
unfolding verify_chunks emit safe_publish coerce_policy coerce_chunks verify_each verify_one
    build_chunk_context evaluate build_inputs decide when_matches resolve_path resolve_parts walk
    chunk_attribute request_attribute tool_attribute check_all check_entry check_constraint
    check_operators applied parse_iso8601 value_eq contains get get_key put same_key set_default
    entries to_fields value_hash canonical_bytes parse_duration utf8 hex split has_char finalize
    sign_receipt summarize overall_status add_source add_action canonical_payload hash_output
    compute_caller_hash receipt_dict unsigned_entries pop control_metadata decision_dict elements
    claim_dict source_dict action_dict policy_dict summary_dict verification_dict
blocks_untagged = refl

abbrev pairs : List (Text × Fields)
pairs = (codes "a", entry "residency" (text (codes "EU")) end) ∷ (codes "b", end) ∷ []

verify_chunks-select_example :
    ((value_of run runs).kept
      ≡ select (lets_through runtime full_index fingerprinter tt guarded options) pairs)
    × (((value_of run runs).blocked
          ≡ select
              (λ c. not (lets_through runtime full_index fingerprinter tt guarded options c))
              pairs)
        × (outcomes runtime full_index fingerprinter tt guarded options
              (value_of run runs).receipt.sources
            ≡ verdicts runtime full_index fingerprinter tt guarded options pairs))
unfolding coerce_policy coerce_chunks
verify_chunks-select_example =
    verify_chunks-select runtime full_index fingerprinter tt guarded options quiet chunks
      (codes "a" ∷ codes "b" ∷ []) no_sink (codes "prx_1") (codes "2026") {v = value_of run runs}
      refl refl (ok-value_of run runs)
