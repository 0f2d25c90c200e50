-- ===== src/Receipt.antt =====
-- The receipts of provenex/core/receipt.py: records, builder, signing and verification. The fresh
-- id and the clock's answer are arguments.
pub mod Signing
pub mod Builder
pub mod Verified
pub mod Tally
pub mod Counts
pub mod Finalized
mod Tests
use provenex_core.Prelude.{
  ℕ, String, zero, suc, ◌+◌, Bool, true, false, ◌&&◌, ◌||◌, Option, none, some, List, [], ◌∷◌, ◌++◌,
  map, length, if◌then◌else◌, ◌==◌, nat_eq, list_eq, ltb, Result, ok, err, ◌>>=◌, type_error,
  attribute_error,
}
use provenex_core.Text.{Text, codes, utf8}
use provenex_core.Value.{
  Value, null, bool, int, text, seq, dict, Items, nil, cons, Fields, end, field, Key, to_fields,
  get, pop, or_null, optional_text, number, items, texts, entry_of, entry_if, or_none_value,
  elements, value_eq, truthy,
}
use provenex_core.Rules.{Runtime}
use provenex_core.Index.{
  VerificationOutcome, verified, stale, unauthorized, unverified, tampered, IndexEntry,
}
use provenex_core.Policy.{VerificationPolicy, Status, pass, partial, fail, overall_status}
use provenex_core.Trajectory.{TrajectoryContext, Field, text_field, number_field, list_field}

pub record ReceiptSigner : Type 0 where
  pub algorithm : Text
  pub sign : List ℕ → Result Text
  pub verify : List ℕ → Text → Result Bool

pub record Claim : Type 0 where
  pub claim_type : Text
  pub asserted_by : Text
  pub claim_value : Value
  pub reason : Option Text

pub record SourceRecord : Type 0 where
  pub chunk_index : ℕ
  pub fingerprint : Text
  pub document_id : Option Text
  pub document_version : Option Text
  pub ingested_at : Option Text
  pub chunk_offset : Option ℕ
  pub chunk_length : Option ℕ
  pub authorized : Option Bool
  pub verification_outcome : VerificationOutcome
  pub normalization_applied : List Text
  pub leaf_index : Option ℕ
  pub inclusion_proof : Option (List Text)
  pub claims : List Claim
  pub content_source : Option Text

pub record ActionRecord : Type 0 where
  pub action_index : ℕ
  pub action_name : Text
  pub operation : Text
  pub parameters_hash : Text
  pub parameters : Option Fields
  pub target_system : Option Text
  pub invocation_id : Option Text

pub record ActionCounts : Type 0 where
  pub total_actions : ℕ
  pub actions_allowed : ℕ
  pub actions_denied : ℕ

-- The dictionary that `_summary` makes.
pub record Summary : Type 0 where
  pub total_chunks : ℕ
  pub verified_count : ℕ
  pub stale_count : ℕ
  pub unauthorized_count : ℕ
  pub unverified_count : ℕ
  pub tampered_count : ℕ
  pub action_counts : Option ActionCounts
  pub status : Status

pub record ProvenanceReceipt : Type 0 where
  pub receipt_id : Text
  pub issued_at : Text
  pub output_hash : Text
  pub sources : List SourceRecord
  pub policy : VerificationPolicy
  pub summary : Summary
  pub signature_algorithm : Option Text
  pub signature_value : Option Text
  pub transparency_log : Option Fields
  pub trajectory : Option (List (Text × Field))
  pub access_control : Option Fields
  pub actions : List ActionRecord
  pub tool_call_control : Option Fields
  pub caller_hash : Option Text

-- Claim.to_dict
unfoldable pub claim_dict : Claim → Value
claim_dict c = dict (
    to_fields (
      entry_of "type" (text c.claim_type) ∷ entry_of "asserted_by" (text c.asserted_by) ∷ []
      ++ elim c.claim_value [ null ↦ [] | _ ↦ entry_of "value" c.claim_value ∷ [] ]
      ++ entry_if "reason" text c.reason))

abbrev pub outcome_value : VerificationOutcome → String
outcome_value verified = "VERIFIED"
outcome_value stale = "STALE"
outcome_value unauthorized = "UNAUTHORIZED"
outcome_value unverified = "UNVERIFIED"
outcome_value tampered = "TAMPERED"

abbrev pub if_any {ℓ} : {A : Type ℓ} → String → (A → Value) → List A → List (Key × Value)
if_any k f [] = []
if_any k f (x ∷ xs) = entry_of k (seq (items (map f (x ∷ xs)))) ∷ []

-- SourceRecord.to_dict
unfoldable pub source_dict : SourceRecord → Value
unfolding claim_dict
source_dict s = dict (
    to_fields (
      entry_of "chunk_index" (number s.chunk_index)
        ∷ entry_of "fingerprint" (text s.fingerprint)
        ∷ entry_of "document_id" (optional_text s.document_id)
        ∷ entry_of "document_version" (optional_text s.document_version)
        ∷ entry_of "ingested_at" (optional_text s.ingested_at)
        ∷ entry_of "chunk_offset" (or_none_value number s.chunk_offset)
        ∷ entry_of "chunk_length" (or_none_value number s.chunk_length)
        ∷ entry_of "authorized" (or_none_value bool s.authorized)
        ∷ entry_of "verification_outcome" (text (codes (outcome_value s.verification_outcome)))
        ∷ entry_of "normalization_applied" (texts s.normalization_applied)
        ∷ []
      ++ entry_if "leaf_index" number s.leaf_index
      ++ entry_if "inclusion_proof" texts s.inclusion_proof
      ++ if_any "claims" claim_dict s.claims
      ++ entry_if "content_source" text s.content_source))

-- ActionRecord.to_dict
unfoldable pub action_dict : ActionRecord → Value
action_dict a = dict (
    to_fields (
      entry_of "action_index" (number a.action_index)
        ∷ entry_of "name" (text a.action_name)
        ∷ entry_of "operation" (text a.operation)
        ∷ entry_of "parameters_hash" (text a.parameters_hash)
        ∷ entry_of "parameters" (or_none_value dict a.parameters)
        ∷ []
      ++ entry_if "target_system" text a.target_system
      ++ entry_if "invocation_id" text a.invocation_id))

abbrev pub status_value : Status → String
status_value pass = "PASS"
status_value partial = "PARTIAL"
status_value fail = "FAIL"

abbrev action_entries : Option ActionCounts → List (Key × Value)
action_entries none = []
action_entries (some a) =
    entry_of "total_actions" (number a.total_actions)
    ∷ entry_of "actions_allowed" (number a.actions_allowed)
    ∷ entry_of "actions_denied" (number a.actions_denied)
    ∷ []

unfoldable pub summary_dict : Summary → Value
summary_dict s = dict (
    to_fields (
      entry_of "total_chunks" (number s.total_chunks)
        ∷ entry_of "verified" (number s.verified_count)
        ∷ entry_of "stale" (number s.stale_count)
        ∷ entry_of "unauthorized" (number s.unauthorized_count)
        ∷ entry_of "unverified" (number s.unverified_count)
        ∷ entry_of "tampered" (number s.tampered_count)
        ∷ []
      ++ action_entries s.action_counts
      ++ entry_of "overall_status" (text (codes (status_value s.status))) ∷ []))

unfoldable pub verification_dict : VerificationPolicy → Value
verification_dict p = dict (
    to_fields (
      entry_of "block_stale" (bool p.block_stale)
      ∷ entry_of "block_unauthorized" (bool p.block_unauthorized)
      ∷ entry_of "block_unverified" (bool p.block_unverified)
      ∷ entry_of "block_tampered" (bool p.block_tampered)
      ∷ entry_of "flag_stale" (bool p.flag_stale)
      ∷ entry_of "flag_unauthorized" (bool p.flag_unauthorized)
      ∷ entry_of "flag_unverified" (bool p.flag_unverified)
      ∷ entry_of "flag_tampered" (bool p.flag_tampered)
      ∷ []))

unfoldable pub policy_dict : ProvenanceReceipt → Value
unfolding verification_dict
policy_dict c = dict (
    to_fields (
      entry_of "verification" (verification_dict c.policy) ∷ []
      ++ entry_if "access_control" dict c.access_control
      ++ entry_if "tool_call_control" dict c.tool_call_control))

abbrev field_value : Field → Value
field_value (text_field s) = text s
field_value (number_field n) = number n
field_value (list_field ss) = texts ss

abbrev pub trajectory_dict : List (Text × Field) → Value
trajectory_dict es = dict (to_fields (map (λ e. (Key.name e.0, field_value e.1)) es))

abbrev schema_version : String
schema_version = "2.3.0"

abbrev issuer : String
issuer = "provenex-core/0.7.2"

abbrev pub identity_entries : ProvenanceReceipt → List (Key × Value)
identity_entries c =
    entry_of "receipt_id" (text c.receipt_id)
    ∷ entry_of "schema_version" (text (codes schema_version))
    ∷ entry_of "issued_at" (text c.issued_at)
    ∷ entry_of "issuer" (text (codes issuer))
    ∷ []

abbrev output_dict : Text → Value
output_dict hash = dict (
    to_fields
      (entry_of "hash" (text hash) ∷ entry_of "hash_algorithm" (text (codes "sha256")) ∷ []))

abbrev pub body_entries : ProvenanceReceipt → List (Key × Value)
body_entries c =
    entry_of "output" (output_dict c.output_hash)
    ∷ entry_of "sources" (seq (items (map source_dict c.sources)))
    ∷ entry_of "policy" (policy_dict c)
    ∷ entry_of "summary" (summary_dict c.summary)
    ∷ []

-- The entries of a receipt but the signature.
unfoldable pub unsigned_entries : ProvenanceReceipt → List (Key × Value)
unsigned_entries c =
    identity_entries c
    ++ entry_if "caller_hash" text c.caller_hash
    ++ body_entries c
    ++ if_any "actions" action_dict c.actions
    ++ entry_if "transparency_log" dict c.transparency_log
    ++ entry_if "trajectory" trajectory_dict c.trajectory

abbrev pub signature_block : Text → Option Text → Value
signature_block algorithm value = dict (
    to_fields (entry_of "algorithm" (text algorithm) ∷ entry_of "value" (optional_text value) ∷ []))

abbrev pub signature_entries : Option Text → Option Text → List (Key × Value)
signature_entries none value = []
signature_entries (some algorithm) value =
    entry_of "signature" (signature_block algorithm value) ∷ []

-- ProvenanceReceipt.to_dict
unfoldable pub receipt_dict : ProvenanceReceipt → Fields
receipt_dict c =
    to_fields (unsigned_entries c ++ signature_entries c.signature_algorithm c.signature_value)
