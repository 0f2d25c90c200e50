-- ===== src/Receipt/Builder.antt =====
-- `ReceiptBuilder`: sources and actions are collected, then counted and signed.
use provenex_core.Prelude.{
  ℕ, suc, Bool, false, Option, none, some, List, [], ◌∷◌, ◌++◌, map, length, if◌then◌else◌, ◌==◌,
  nat_eq, list_eq, ltb, Result, ok, err, ◌>>=◌, type_error, attribute_error,
}
use mathlib.Core.Option
use provenex_core.Text.{Text, codes}
use provenex_core.Value.{Value, text, dict, seq, Fields, end, field, get, elements}
use provenex_core.Rules.{Runtime}
use provenex_core.Index.{
  VerificationOutcome, verified, stale, unauthorized, unverified, tampered, IndexEntry,
}
use provenex_core.Policy.{VerificationPolicy, Status, pass, partial, fail, overall_status}
use provenex_core.Trajectory.{TrajectoryContext, to_dict}
use provenex_core.Receipt.{
  ReceiptSigner, Claim, SourceRecord, ActionRecord, ActionCounts, Summary, ProvenanceReceipt,
}
use provenex_core.Receipt.Signing.{canonical_payload, hash_output}

pub record ReceiptBuilder : Type 0 where
  pub policy : VerificationPolicy
  pub sources : List SourceRecord
  pub actions : List ActionRecord

abbrev pub new_builder : VerificationPolicy → ReceiptBuilder
new_builder p = record { policy = p; sources = []; actions = [] }

-- The arguments of `add_source`.
pub record NewSource : Type 0 where
  pub fingerprint : Text
  pub outcome : VerificationOutcome
  pub entry : Option IndexEntry
  pub normalization_applied : List Text
  pub leaf_index : Option ℕ
  pub inclusion_proof : Option (List Text)
  pub claims : List Claim
  pub content_source : Option Text

abbrev pub source_record : ℕ → NewSource → SourceRecord
source_record i a = record {
  chunk_index = i;
  fingerprint = a.fingerprint;
  document_id = Option.map (λ e. e.document_id) a.entry;
  document_version = Option.map (λ e. e.document_version) a.entry;
  ingested_at = Option.map (λ e. e.ingested_at) a.entry;
  chunk_offset = Option.map (λ e. e.chunk_offset) a.entry;
  chunk_length = Option.map (λ e. e.chunk_length) a.entry;
  authorized = Option.map (λ e. e.authorized) a.entry;
  verification_outcome = a.outcome;
  normalization_applied = a.normalization_applied;
  leaf_index = a.leaf_index;
  inclusion_proof = a.inclusion_proof;
  claims = a.claims;
  content_source = a.content_source;
}

unfoldable pub add_source : ReceiptBuilder → NewSource → ReceiptBuilder
add_source b a = record b { sources = b.sources ++ source_record (length b.sources) a ∷ [] }

-- The arguments of `add_action`.
pub record NewAction : Type 0 where
  pub action_name : Text
  pub operation : Text
  pub parameters_hash : Text
  pub parameters : Option Fields
  pub target_system : Option Text
  pub invocation_id : Option Text

abbrev pub action_record : ℕ → NewAction → ActionRecord
action_record i a = record {
  action_index = i;
  action_name = a.action_name;
  operation = a.operation;
  parameters_hash = a.parameters_hash;
  parameters = a.parameters;
  target_system = a.target_system;
  invocation_id = a.invocation_id;
}

unfoldable pub add_action : ReceiptBuilder → NewAction → ReceiptBuilder × ℕ
add_action b a =
    let i = length b.actions in (record b { actions = b.actions ++ action_record i a ∷ [] }, i)

abbrev pub no_sources : ℕ → Option ActionCounts → Status → Summary
no_sources n a s = record {
  total_chunks = n;
  verified_count = 0;
  stale_count = 0;
  unauthorized_count = 0;
  unverified_count = 0;
  tampered_count = 0;
  action_counts = a;
  status = s;
}

-- counts[outcome] += 1
pub increment : VerificationOutcome → Summary → Summary
increment verified c = record c { verified_count = suc c.verified_count }
increment stale c = record c { stale_count = suc c.stale_count }
increment unauthorized c = record c { unauthorized_count = suc c.unauthorized_count }
increment unverified c = record c { unverified_count = suc c.unverified_count }
increment tampered c = record c { tampered_count = suc c.tampered_count }

pub count_sources : List SourceRecord → Summary → Summary
unfolding increment
count_sources [] c = c
count_sources (s ∷ ss) c = count_sources ss (increment s.verification_outcome c)

abbrev pub is_deny : Option Value → Bool
is_deny (some (text s)) = s == codes "deny"
is_deny _ = false

-- The loop over the decisions: how many allow and how many deny.
pub count_decisions : List Value → ℕ → ℕ → Result (ℕ × ℕ)
count_decisions [] allowed denied = ok (allowed, denied)
count_decisions (dict d ∷ ds) allowed denied =
    let denies = is_deny (get (codes "decision") d) in
    count_decisions ds (if denies then allowed else suc allowed)
      (if denies then suc denied else denied)
count_decisions (_ ∷ ds) allowed denied = err attribute_error

-- A container of decisions that is no list is not iterated here.
pub decision_values : Option Value → Result (List Value)
decision_values none = ok []
decision_values (some (seq vs)) = ok (elements vs)
decision_values (some _) = err type_error

pub action_counts_of : List ActionRecord → Option Fields → Result (Option ActionCounts)
unfolding count_decisions decision_values
action_counts_of [] control = ok none
action_counts_of (a ∷ as') none = ok (
    some (record {
      total_actions = length (a ∷ as');
      actions_allowed = length (a ∷ as');
      actions_denied = 0;
    }))
action_counts_of (a ∷ as') (some control) = do
  decisions ← decision_values (get (codes "decisions") control)
  (allowed, denied) ← count_decisions decisions 0 0
  ok (
      some (record {
        total_actions = length (a ∷ as');
        actions_allowed = allowed;
        actions_denied = denied;
      }))

pub any_denied : Option ActionCounts → Bool
any_denied none = false
any_denied (some c) = ltb 0 c.actions_denied

-- FAIL beats PARTIAL beats PASS.
pub combine : Status → Bool → Status
combine fail denied = fail
combine partial denied = if denied then fail else partial
combine pass denied = if denied then fail else pass

-- `_summary`
unfoldable pub summarize : ReceiptBuilder → Option Fields → Result Summary
unfolding count_sources action_counts_of any_denied combine
summarize b control = do
  counts ← action_counts_of b.actions control
  let chunk_status = overall_status (map (λ s. s.verification_outcome) b.sources) b.policy
  ok (
      count_sources b.sources
        (no_sources (length b.sources) counts (combine chunk_status (any_denied counts))))

-- `dict(d) if d else None`
abbrev pub unless_empty : Option Fields → Option Fields
unless_empty none = none
unless_empty (some end) = none
unless_empty (some (field k v fs)) = some (field k v fs)

-- The arguments of `finalize`, with the fresh id and the time.
pub record Finish : Type 0 where
  pub receipt_id : Text
  pub now : Text
  pub output_text : Text
  pub transparency_log : Option Fields
  pub trajectory : Option TrajectoryContext
  pub access_control : Option Fields
  pub tool_call_control : Option Fields
  pub caller_hash : Option Text

module _ (r : Runtime) where
  abbrev pub unsigned_receipt : ReceiptBuilder → Finish → Summary → ProvenanceReceipt
  unsigned_receipt b a counts = record {
    receipt_id = a.receipt_id;
    issued_at = a.now;
    output_hash = hash_output r a.output_text;
    sources = b.sources;
    policy = b.policy;
    summary = counts;
    signature_algorithm = none;
    signature_value = none;
    transparency_log = unless_empty a.transparency_log;
    trajectory = Option.map to_dict a.trajectory;
    access_control = unless_empty a.access_control;
    actions = b.actions;
    tool_call_control = unless_empty a.tool_call_control;
    caller_hash = a.caller_hash;
  }

  -- The algorithm is on the receipt when its payload is taken.
  unfoldable pub sign_receipt : Option ReceiptSigner → ProvenanceReceipt → Result ProvenanceReceipt
  sign_receipt none c = ok c
  sign_receipt (some signer) c = do
    let named = record c { signature_algorithm = some signer.algorithm }
    payload ← canonical_payload r named
    value ← signer.sign payload
    ok (record named { signature_value = some value })

  unfoldable pub finalize :
      ReceiptBuilder → Option ReceiptSigner → Finish → Result ProvenanceReceipt
  finalize b signer a = do
    counts ← summarize b a.tool_call_control
    sign_receipt signer (unsigned_receipt b a counts)
