-- ===== src/Receipt/Tests.antt =====
-- A receipt with one source and one denied action, and witnesses.
use provenex_core.Prelude.{
  ℕ, String, ◌≡◌, refl, ◌⊎◌, true, Option, none, some, List, [], ◌∷◌, ◌++◌, ok,
}
use provenex_core.Text.{codes, hex, utf8}
use provenex_core.Value.{
  Value, text, dict, Fields, end, get, pop, to_fields, entry_of, seq, items, elements, same_key,
  value_eq, truthy,
}
use provenex_core.Index.{stale}
use provenex_core.Policy.{default_policy, fail, overall_status}
use provenex_core.Rules.{Runtime, canonical_bytes}
use provenex_core.Rules.Sample.{runtime}
use provenex_core.Receipt.{
  Summary, ProvenanceReceipt, receipt_dict, signature_block, unsigned_entries,
}
use provenex_core.Receipt.Signing.{
  hmac_signer, canonical_payload, hash_output, verify_receipt_signature, default_verify,
  compare_digest,
}
use provenex_core.Receipt.Builder.{ReceiptBuilder, summarize, Finish, finalize, sign_receipt}
use provenex_core.Receipt.Verified.{HmacCollision, finalize_verifies, verify-tampered}
use provenex_core.Receipt.Counts.{IsSummary, summarize_lem}

-- An interpreter whose HMAC is constant.
abbrev plain : Runtime
plain = record runtime { hmac_hex = λ secret payload. codes "ab" }

abbrev secret : List ℕ
secret = 1 ∷ []

abbrev builder : ReceiptBuilder
builder = record {
  policy = default_policy none;
  sources =
      record {
        chunk_index = 0;
        fingerprint = codes "f";
        document_id = none;
        document_version = none;
        ingested_at = none;
        chunk_offset = none;
        chunk_length = none;
        authorized = none;
        verification_outcome = stale;
        normalization_applied = [];
        leaf_index = none;
        inclusion_proof = none;
        claims = [];
        content_source = none;
      }
      ∷ [];
  actions =
      record {
        action_index = 0;
        action_name = codes "mail";
        operation = codes "send";
        parameters_hash = codes "h";
        parameters = none;
        target_system = none;
        invocation_id = none;
      }
      ∷ [];
}

abbrev control : Option Fields
control = some (
    to_fields (
      entry_of "decisions"
        (seq (items (dict (to_fields (entry_of "decision" (text (codes "deny")) ∷ [])) ∷ [])))
      ∷ []))

abbrev counts : Summary
counts = record {
  total_chunks = 1;
  verified_count = 0;
  stale_count = 1;
  unauthorized_count = 0;
  unverified_count = 0;
  tampered_count = 0;
  action_counts = some (record { total_actions = 1; actions_allowed = 0; actions_denied = 1 });
  status = fail;
}

counted : summarize builder control ≡ ok counts
unfolding summarize get to_fields elements overall_status same_key
counted = refl

summarize_lem_example : IsSummary builder control counts
summarize_lem_example = summarize_lem builder control {c = counts} counted

abbrev finish : Finish
finish = record {
  receipt_id = codes "prx_1";
  now = codes "2026";
  output_text = codes "answer";
  transparency_log = none;
  trajectory = none;
  access_control = none;
  tool_call_control = control;
  caller_hash = none;
}

abbrev receipt : ProvenanceReceipt
receipt = record {
  receipt_id = codes "prx_1";
  issued_at = codes "2026";
  output_hash = codes "sha256:" ++ hex (utf8 (codes "answer"));
  sources = builder.sources;
  policy = default_policy none;
  summary = counts;
  signature_algorithm = some (codes "hmac-sha256");
  signature_value = some (codes "ab");
  transparency_log = none;
  trajectory = none;
  access_control = none;
  actions = builder.actions;
  tool_call_control = control;
  caller_hash = none;
}

finished : finalize plain builder (some (hmac_signer plain secret)) finish ≡ ok receipt
unfolding finalize summarize sign_receipt get to_fields elements overall_status same_key
    canonical_payload canonical_bytes hash_output utf8 hex receipt_dict unsigned_entries pop
finished = refl

finalize_verifies_example :
    verify_receipt_signature plain (hmac_signer plain secret) (receipt_dict receipt) ≡ ok true
finalize_verifies_example =
    finalize_verifies plain secret builder finish {c = receipt} (λ payload. refl) finished

-- Two receipts with the block of one signature.
abbrev block : Value
block = signature_block (codes "hmac-sha256") (some (codes "ab"))

abbrev numbered : String → Fields
numbered n = to_fields (entry_of "receipt_id" (text (codes n)) ∷ entry_of "signature" block ∷ [])

verify-tampered_example :
    (canonical_bytes plain (dict (pop (codes "signature") (numbered "2")))
      ≡ canonical_bytes plain (dict (pop (codes "signature") (numbered "1"))))
    ⊎ HmacCollision plain secret
unfolding verify_receipt_signature get to_fields provenex_core.Value.truthy
    provenex_core.Value.value_eq canonical_bytes default_verify compare_digest
verify-tampered_example =
    verify-tampered plain secret (numbered "1") (numbered "2") block refl refl refl refl
