-- ===== src/Verify.antt =====
-- The verification of retrieved chunks of provenex/core/verify.py, over any index, evaluator, signer
-- and sink.
pub mod Gate
mod Tests
use provenex_core.Prelude.{
  ℕ, String, Bool, true, false, not, ◌||◌, Option, none, some, List, [], ◌∷◌, ◌++◌, map, length,
  if◌then◌else◌, ◌==◌, nat_eq, list_eq, Result, ok, err, ◌>>=◌, ◌>>◌, type_error, value_error,
}
use mathlib.Core.Option
use provenex_core.Text.{Text, codes}
use provenex_core.Value.{
  Value, null, text, dict, Fields, end, Key, name, get, to_fields, entry_of, entry_if, texts,
  or_none_value,
}
use provenex_core.Rules.{Runtime, ChunkContext, RequestContext, Choice, allow, deny}
use provenex_core.Index.{VerificationOutcome, IndexEntry, ProvenanceIndex}
use provenex_core.Policy.{VerificationPolicy, should_block}
use provenex_core.Access.{PolicyDecision}
use provenex_core.Unified.{
  Evaluator, UnifiedPolicy, PolicyArgument, coerce_policy, control_metadata,
}
use provenex_core.Trajectory.{TrajectoryContext, NextStep, next_step, or_none}
use provenex_core.Receipt.{ReceiptSigner, ProvenanceReceipt}
use provenex_core.Receipt.Signing.{compute_caller_hash}
use provenex_core.Receipt.Builder.{
  ReceiptBuilder, new_builder, NewSource, add_source, Finish, finalize,
}
use provenex_core.Streaming.{ReceiptSink, SinkArgument, safe_publish}

-- An item of a retrieval result: a string, an object with one of the three attributes, a
-- dictionary, or anything else.
pub data Item : Type 0 where
  string_item : Text → Item
  document : Text → Item
  dictionary : Fields → Item
  other_item : Item

pub data ChunksArgument : Type 0 where
  one_chunk : Text → ChunksArgument
  many_chunks : List Item → ChunksArgument
  other_chunks : ChunksArgument

-- The first of the keys that holds a string.
pub first_text : List Text → Fields → Result Text
first_text [] d = err type_error
first_text (k ∷ ks) d =
    let rest = first_text ks d in elim (get k d) [ some (text s) ↦ ok s | _ ↦ rest ]

abbrev text_keys : List Text
text_keys = codes "page_content" ∷ codes "content" ∷ codes "text" ∷ []

item_text : Item → Result Text
unfolding first_text
item_text (string_item s) = ok s
item_text (document s) = ok s
item_text (dictionary d) = first_text text_keys d
item_text other_item = err type_error

item_texts : List Item → Result (List Text)
unfolding item_text
item_texts [] = ok []
item_texts (i ∷ is) = do s ← item_text i; rest ← item_texts is; ok (s ∷ rest)

unfoldable pub coerce_chunks : ChunksArgument → Result (List Text)
unfolding item_texts
coerce_chunks (one_chunk s) = ok (s ∷ [])
coerce_chunks (many_chunks is) = item_texts is
coerce_chunks other_chunks = err type_error

unfoldable pub build_chunk_context : Text → Option IndexEntry → Fields → ChunkContext
build_chunk_context fingerprint entry metadata = record {
  fingerprint = fingerprint;
  document_id = Option.map (λ e. e.document_id) entry;
  document_version = Option.map (λ e. e.document_version) entry;
  ingested_at = Option.map (λ e. e.ingested_at) entry;
  metadata = metadata;
  content_source = none;
}

-- What `verify_chunks` asks of a fingerprinter.
pub record ChunkFingerprinter : Type 0 where
  pub chunk_fingerprint : Text → Text
  pub applied_steps : Text → Result (List Text)

abbrev pub choice_value : Choice → String
choice_value allow = "allow"
choice_value deny = "deny"

-- PolicyDecision.to_dict
unfoldable pub decision_dict : Text → PolicyDecision → Value
decision_dict fingerprint d = dict (
    to_fields (
      entry_of "chunk_fingerprint" (text fingerprint)
        ∷ entry_of "decision" (text (codes (choice_value d.decision)))
        ∷ entry_of "rules_fired" (texts d.rules_fired)
        ∷ entry_of "inputs_hash" (text d.inputs_hash)
        ∷ entry_of "inputs" (or_none_value (λ v. v) d.inputs)
        ∷ []
      ++ entry_if "metadata_binding" dict d.metadata_binding))

-- The keyword arguments of `verify_chunks`.
pub record VerifyOptions : Type 0 where
  pub signer : Option ReceiptSigner
  pub policy : PolicyArgument
  pub trajectory : Option TrajectoryContext
  pub step_kind : Option Text
  pub agent_id : Option Text
  pub output_text : Text
  pub request_context : Option RequestContext
  pub chunk_metadata : Option (List Fields)
  pub chunk_metadata_binding : Text
  pub caller_hash_salt : Option (List ℕ)
  pub content_source : Option Text

-- The chunks with their metadata, `{}` where there is none.
abbrev pub with_metadata : List Text → List Fields → List (Text × Fields)
with_metadata [] ms = []
with_metadata (t ∷ ts) [] = (t, end) ∷ with_metadata ts []
with_metadata (t ∷ ts) (m ∷ ms) = (t, m) ∷ with_metadata ts ms

abbrev pub or_no_metadata : Option (List Fields) → List Fields
or_no_metadata none = []
or_no_metadata (some ms) = ms

-- What the loop over the chunks collects.
pub record Collected : Type 0 where
  pub builder : ReceiptBuilder
  pub kept : List Text
  pub blocked : List Text
  pub decisions : List Value

-- What is collected before the first chunk.
abbrev pub nothing : UnifiedPolicy → Collected
nothing p = record { builder = new_builder p.verification; kept = []; blocked = []; decisions = [] }

-- The overrides of one emission; the cursor itself stays as it is.
abbrev pub emission :
    Option Text → Option Text → Option Text → TrajectoryContext → TrajectoryContext
emission step_kind agent_id session_id t = record t {
  step_kind = or_none step_kind t.step_kind;
  agent_id = or_none agent_id t.agent_id;
  session_id = or_none session_id t.session_id;
}

-- The cursor after a receipt.
abbrev pub advance :
    Option Text → Option Text → ProvenanceReceipt → TrajectoryContext → Result TrajectoryContext
advance agent_id session_id receipt t = next_step t (record {
  parent_receipts = some (some receipt.receipt_id ∷ []);
  parent_step_ids = none;
  step_kind = none;
  agent_id = or_none agent_id t.agent_id;
  session_id = or_none session_id t.session_id;
})

unfoldable pub optionally_advance :
    Option Text
    → Option Text
    → ProvenanceReceipt
    → Option TrajectoryContext
    → Result (Option TrajectoryContext)
optionally_advance agent_id session_id receipt none = ok none
optionally_advance agent_id session_id receipt (some t) =
    advance agent_id session_id receipt t >>= λ t'. ok (some t')

abbrev pub session_of : Option RequestContext → Option Text
session_of none = none
session_of (some q) = q.session_id

abbrev pub is_given {ℓ} : {A : Type ℓ} → Option A → Bool
is_given none = false
is_given (some a) = true

pub guard_that : Bool → Result (Unit {0})
guard_that true = ok tt
guard_that false = err value_error

pub metadata_fits : Option (List Fields) → List Text → Bool
metadata_fits none ts = true
metadata_fits (some ms) ts = length ms == length ts

pub binding_known : Text → Bool
binding_known b = b == codes "at_ingest" || b == codes "at_evaluate"

module _ (r : Runtime) (ix : ProvenanceIndex) (fp : ChunkFingerprinter) where
  abbrev binding_fields : Text → Fields
  binding_fields binding = to_fields (
      entry_of "chunk_metadata" (text binding)
      ∷ entry_of "request_context" (text (codes "at_evaluate"))
      ∷ [])

  -- The access-control half for one chunk: the record of the decision, if an evaluator is set.
  pub access_decision :
      Option (Evaluator ChunkContext)
      → Option RequestContext
      → ChunkContext
      → Result (Option PolicyDecision)
  access_decision none request c = ok none
  access_decision (some e) none c = ok none
  access_decision (some e) (some q) c = e.decide_on c q >>= λ d. ok (some d)

  pub blocks_access : Option PolicyDecision → Bool
  blocks_access none = false
  blocks_access (some d) = elim d.decision [ allow ↦ false | deny ↦ true ]

  abbrev recorded : Text → Text → Option PolicyDecision → List Value
  recorded fingerprint binding none = []
  recorded fingerprint binding (some d) =
      decision_dict fingerprint (record d { metadata_binding = some (binding_fields binding) }) ∷ []

  -- What a chunk adds, for its outcome, its entry and the decision on it.
  abbrev pub collect :
      UnifiedPolicy
      → VerifyOptions
      → Text
      → Option IndexEntry
      → VerificationOutcome
      → List Text
      → Option PolicyDecision
      → Collected
      → Collected
  collect p o chunk entry outcome applied decision s =
      let fingerprint = fp.chunk_fingerprint chunk in
      let blocks = should_block p.verification outcome || blocks_access decision in
      let source : NewSource = record {
        fingerprint = fingerprint;
        outcome = outcome;
        entry = entry;
        normalization_applied = applied;
        leaf_index = none;
        inclusion_proof = none;
        claims = [];
        content_source = o.content_source;
      } in
      record {
        builder = add_source s.builder source;
        kept = if blocks then s.kept else s.kept ++ chunk ∷ [];
        blocked = if blocks then s.blocked ++ chunk ∷ [] else s.blocked;
        decisions = s.decisions ++ recorded fingerprint o.chunk_metadata_binding decision;
      }

  -- One round of the loop.
  unfoldable pub verify_one :
      ix.State → UnifiedPolicy → VerifyOptions → Text × Fields → Collected → Result Collected
  unfolding access_decision blocks_access
  verify_one db p o (chunk, metadata) s = do
    let fingerprint = fp.chunk_fingerprint chunk
    outcome ← ix.verify db fingerprint
    let entry = ix.lookup db fingerprint
    applied ← fp.applied_steps chunk
    decision ←
        access_decision p.access_control o.request_context
          (build_chunk_context fingerprint entry metadata)
    ok (collect p o chunk entry outcome applied decision s)

  unfoldable pub verify_each :
      ix.State → UnifiedPolicy → VerifyOptions → List (Text × Fields) → Collected → Result Collected
  verify_each db p o [] s = ok s
  verify_each db p o (c ∷ cs) s = do s' ← verify_one db p o c s; verify_each db p o cs s'

  pub caller_hash_of : Option RequestContext → Option (List ℕ) → Result (Option Text)
  caller_hash_of none salt = ok none
  caller_hash_of (some q) salt = compute_caller_hash r q.caller salt >>= λ h. ok (some h)

  module _ {Sink : Type 0} (api : ReceiptSink ProvenanceReceipt Sink) where
    pub record VerifiedChunks : Type 0 where
      pub kept : List Text
      pub blocked : List Text
      pub receipt : ProvenanceReceipt
      pub next_trajectory : Option TrajectoryContext
      pub sink : SinkArgument api

    -- The end of `verify_chunks`, after the loop: the receipt, the sink and the next cursor.
    unfoldable pub emit :
        UnifiedPolicy
        → VerifyOptions
        → SinkArgument api
        → Text
        → Text
        → Collected
        → Result VerifiedChunks
    unfolding caller_hash_of optionally_advance
    emit p o sink fresh_id now s = do
      let session = session_of o.request_context
      hash ← caller_hash_of o.request_context o.caller_hash_salt
      receipt ← finalize r s.builder o.signer (record {
        receipt_id = fresh_id;
        now = now;
        output_text = o.output_text;
        transparency_log = none;
        trajectory = Option.map (emission o.step_kind o.agent_id session) o.trajectory;
        access_control = Option.map (λ e. control_metadata e s.decisions) p.access_control;
        tool_call_control = none;
        caller_hash = hash;
      })
      (sink', warnings) ← safe_publish api sink receipt
      next ← optionally_advance o.agent_id session receipt o.trajectory
      ok (record {
        kept = s.kept;
        blocked = s.blocked;
        receipt = receipt;
        next_trajectory = next;
        sink = sink';
      })

    -- `verify_chunks`, with a fresh id and the time
    unfoldable pub verify_chunks :
        ix.State
        → ChunksArgument
        → VerifyOptions
        → SinkArgument api
        → Text
        → Text
        → Result VerifiedChunks
    unfolding guard_that metadata_fits binding_known
    verify_chunks db chunks o sink fresh_id now = do
      p ← coerce_policy o.policy
      texts ← coerce_chunks chunks
      guard_that (not (is_given p.access_control) || is_given o.request_context)
      guard_that (metadata_fits o.chunk_metadata texts)
      guard_that (binding_known o.chunk_metadata_binding)
      s ← verify_each db p o (with_metadata texts (or_no_metadata o.chunk_metadata)) (nothing p)
      emit p o sink fresh_id now s

    abbrev or_given : Option Text → String → Option Text
    or_given none default = some (codes default)
    or_given (some s) default = some s

    -- `verify_memory`
    unfoldable pub verify_memory :
        ix.State
        → ChunksArgument
        → VerifyOptions
        → SinkArgument api
        → Text
        → Text
        → Result VerifiedChunks
    verify_memory db chunks o sink fresh_id now =
        verify_chunks db chunks
          (record o {
            step_kind = or_given o.step_kind "memory_read";
            content_source = or_given o.content_source "memory_store";
          })
          sink fresh_id now
