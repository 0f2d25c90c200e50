-- ===== src/Verify/Gate.antt =====
-- The chunks that are kept are those that both halves of the policy let through.
use provenex_core.Prelude.{
  ◌≡◌, refl, sym, ap, subst, ◌∙◌, inl, inr, Bool, true, false, not, ◌||◌, Option, List, [], ◌∷◌,
  ◌++◌, map, if◌then◌else◌, Bool-cases, Result, ok, err, >>=-eq-ok, ok-injective,
}
use mathlib.Core.List.{append_assoc, append-nil}
use provenex_core.Text.{Text}
use provenex_core.Value.{Fields}
use provenex_core.Rules.{Runtime}
use provenex_core.Index.{VerificationOutcome, ProvenanceIndex}
use provenex_core.Policy.{should_block}
use provenex_core.Access.{PolicyDecision}
use provenex_core.Unified.{UnifiedPolicy, coerce_policy}
use provenex_core.Receipt.{SourceRecord, ProvenanceReceipt}
use provenex_core.Receipt.Builder.{add_source, finalize}
use provenex_core.Receipt.Finalized.{finalize-body}
use provenex_core.Streaming.{ReceiptSink, SinkArgument, safe_publish}
use provenex_core.Verify.{
  ChunksArgument, coerce_chunks, build_chunk_context, ChunkFingerprinter, VerifyOptions,
  with_metadata, or_no_metadata, Collected, collect, access_decision, blocks_access, verify_one,
  verify_each, VerifiedChunks, verify_chunks, emit, nothing, guard_that, metadata_fits,
  binding_known, is_given, caller_hash_of, optionally_advance, session_of,
}

-- The texts that pass a test, and those that do not.
abbrev pub select : (Text × Fields → Bool) → List (Text × Fields) → List Text
select f [] = []
select f (c ∷ cs) = if f c then c.0 ∷ select f cs else select f cs

select_append :
    (f : Text × Fields → Bool) (c : Text × Fields) (cs : List (Text × Fields)) (xs : List Text)
    → (if f c then xs ++ c.0 ∷ [] else xs) ++ select f cs ≡ xs ++ select f (c ∷ cs)
select_append f c cs xs = elim (Bool-cases (f c)) [
  | inl e ↦ rw e (append_assoc xs (c.0 ∷ []) (select f cs))
  | inr e ↦ rw e refl
]

module _ (r : Runtime) (ix : ProvenanceIndex) (fp : ChunkFingerprinter) (db : ix.State)
    (p : UnifiedPolicy) (o : VerifyOptions) where
  abbrev pub decided_of : Text × Fields → Result (Option PolicyDecision)
  decided_of (chunk, metadata) =
      let fingerprint = fp.chunk_fingerprint chunk in
      access_decision r ix fp p.access_control o.request_context
        (build_chunk_context fingerprint (ix.lookup db fingerprint) metadata)

  abbrev pub open_for : Result VerificationOutcome → Result (Option PolicyDecision) → Bool
  open_for (ok outcome) (ok d) =
      not (should_block p.verification outcome || blocks_access r ix fp d)
  open_for (ok outcome) (err e) = false
  open_for (err e) d = false

  -- The index's outcome is not one that the policy blocks, and the evaluator, if any, allows.
  abbrev pub lets_through : Text × Fields → Bool
  lets_through c = open_for (ix.verify db (fp.chunk_fingerprint c.0)) (decided_of c)

  abbrev pub outcomes : List SourceRecord → List (Result VerificationOutcome)
  outcomes ss = map (λ s. ok s.verification_outcome) ss

  abbrev pub verdicts : List (Text × Fields) → List (Result VerificationOutcome)
  verdicts cs = map (λ c. ix.verify db (fp.chunk_fingerprint c.0)) cs

  -- One more chunk: it is kept or blocked, and its outcome is on the list.
  abbrev Sorted : Text × Fields → Collected → Collected → Type 0
  Sorted c s s' =
      (s'.kept ≡ (if lets_through c then s.kept ++ c.0 ∷ [] else s.kept))
      × ((s'.blocked ≡ (if not (lets_through c) then s.blocked ++ c.0 ∷ [] else s.blocked))
          × (outcomes s'.builder.sources ≡ outcomes s.builder.sources ++ verdicts (c ∷ [])))

  if-not {ℓ} : {A : Type ℓ} (b : Bool) (x y : A) → (if b then x else y) ≡ (if not b then y else x)
  if-not true x y = refl
  if-not false x y = refl

  if-double_negation {ℓ} :
      {A : Type ℓ} (b : Bool) (x y : A) → (if b then x else y) ≡ (if not (not b) then x else y)
  if-double_negation true x y = refl
  if-double_negation false x y = refl

  outcomes-append :
      (ss : List SourceRecord) (s : SourceRecord)
      → outcomes (ss ++ s ∷ []) ≡ outcomes ss ++ ok s.verification_outcome ∷ []
  outcomes-append [] s = refl
  outcomes-append (x ∷ ss) s = ap (λ l. ok x.verification_outcome ∷ l) (outcomes-append ss s)

  collect-Sorted :
      (chunk : Text) (metadata : Fields) (s : Collected) (outcome : VerificationOutcome)
      (applied : List Text) (d : Option PolicyDecision)
      → ix.verify db (fp.chunk_fingerprint chunk) ≡ ok outcome
      → decided_of (chunk, metadata) ≡ ok d
      → Sorted
          (chunk, metadata)
          s
          (collect r ix fp p o chunk
            (ix.lookup db (fp.chunk_fingerprint chunk))
            outcome
            applied
            d
            s)
  unfolding add_source
  collect-Sorted chunk metadata s outcome applied d eo ed =
      let blocks = should_block p.verification outcome || blocks_access r ix fp d in
      let through : lets_through (chunk, metadata) ≡ not blocks = rw (eo, ed) refl in
      (
        if-not blocks s.kept (s.kept ++ chunk ∷ [])
            ∙ ap (λ b. if b then s.kept ++ chunk ∷ [] else s.kept) (sym through),
        (
          if-double_negation blocks (s.blocked ++ chunk ∷ []) s.blocked
              ∙ ap (λ b. if not b then s.blocked ++ chunk ∷ [] else s.blocked) (sym through),
          outcomes-append s.builder.sources _
              ∙ ap (λ x. outcomes s.builder.sources ++ x ∷ []) (sym eo),
        ),
      )

  verify_one-Sorted :
      (c : Text × Fields) (s : Collected) {s' : Collected}
      → verify_one r ix fp db p o c s ≡ ok s'
      → Sorted c s s'
  unfolding verify_one
  verify_one-Sorted (chunk, metadata) s {s'} h =
      let (outcome, eo, h1) = >>=-eq-ok (ix.verify db (fp.chunk_fingerprint chunk)) _ h in
      let (applied, _, h2) = >>=-eq-ok (fp.applied_steps chunk) _ h1 in
      let (d, ed, h3) = >>=-eq-ok (decided_of (chunk, metadata)) _ h2 in
      subst (Sorted (chunk, metadata) s) (ok-injective h3)
        (collect-Sorted chunk metadata s outcome applied d eo ed)

  verify_each-select :
      (cs : List (Text × Fields)) (s : Collected) {s' : Collected}
      → verify_each r ix fp db p o cs s ≡ ok s'
      → (s'.kept ≡ s.kept ++ select lets_through cs)
        × ((s'.blocked ≡ s.blocked ++ select (λ c. not (lets_through c)) cs)
            × (outcomes s'.builder.sources ≡ outcomes s.builder.sources ++ verdicts cs))
  unfolding verify_each
  verify_each-select [] s {s'} h =
      subst
        (λ t.
          (t.kept ≡ s.kept ++ [])
          × ((t.blocked ≡ s.blocked ++ [])
              × (outcomes t.builder.sources ≡ outcomes s.builder.sources ++ [])))
        (ok-injective h)
        (
          sym (append-nil s.kept),
          (sym (append-nil s.blocked), sym (append-nil (outcomes s.builder.sources))),
        )
  verify_each-select (c ∷ cs) s h =
      let (m, e, k) = >>=-eq-ok (verify_one r ix fp db p o c s) _ h in
      let (k1, (b1, o1)) = verify_one-Sorted c s e in
      let (k2, (b2, o2)) = verify_each-select cs m k in
      (
        k2 ∙ ap (λ l. l ++ select lets_through cs) k1 ∙ select_append lets_through c cs s.kept,
        (
          b2
              ∙ ap (λ l. l ++ select (λ x. not (lets_through x)) cs) b1
              ∙ select_append (λ x. not (lets_through x)) c cs s.blocked,
          o2
              ∙ ap (λ l. l ++ verdicts cs) o1
              ∙ append_assoc (outcomes s.builder.sources) (verdicts (c ∷ [])) (verdicts cs),
        ),
      )

  emit-keeps :
      {Sink : Type 0} (api : ReceiptSink ProvenanceReceipt Sink) (sink : SinkArgument api)
      (fresh_id now : Text) (s : Collected) {v : VerifiedChunks r ix fp api}
      → emit r ix fp api p o sink fresh_id now s ≡ ok v
      → (v.kept ≡ s.kept) × ((v.blocked ≡ s.blocked) × (v.receipt.sources ≡ s.builder.sources))
  unfolding emit
  emit-keeps api sink fresh_id now s h =
      let session = session_of o.request_context in
      let (hash, _, h7) =
        >>=-eq-ok (caller_hash_of r ix fp o.request_context o.caller_hash_salt) _ h in
      let (c, ec, h8) = >>=-eq-ok (finalize r s.builder o.signer _) _ h7 in
      let (sw, _, h9) = >>=-eq-ok (safe_publish api sink c) _ h8 in
      let (next, _, h10) = >>=-eq-ok (optionally_advance o.agent_id session c o.trajectory) _ h9 in
      subst
        (λ v.
          (v.kept ≡ s.kept) × ((v.blocked ≡ s.blocked) × (v.receipt.sources ≡ s.builder.sources)))
        (ok-injective h10) (refl, (refl, (finalize-body r s.builder o.signer _ ec).0))

  -- What a call that returns has collected.
  verify_chunks-emit :
      {Sink : Type 0} (api : ReceiptSink ProvenanceReceipt Sink) (chunks : ChunksArgument)
      (texts : List Text) (sink : SinkArgument api) (fresh_id now : Text)
      {v : VerifiedChunks r ix fp api}
      → coerce_policy o.policy ≡ ok p
      → coerce_chunks chunks ≡ ok texts
      → verify_chunks r ix fp api db chunks o sink fresh_id now ≡ ok v
      → (s : Collected) × (verify_each r ix fp db p o
            (with_metadata texts (or_no_metadata o.chunk_metadata))
            (nothing p)
          ≡ ok s)
        × (emit r ix fp api p o sink fresh_id now s ≡ ok v)
  unfolding verify_chunks
  verify_chunks-emit api chunks texts sink fresh_id now {v} cp ct h =
      let ms = or_no_metadata o.chunk_metadata in
      let h1 = rw (cp, ct) at h in
      let (_, _, h3) =
        >>=-eq-ok (guard_that (not (is_given p.access_control) || is_given o.request_context)) _
          h1 in
      let (_, _, h4) = >>=-eq-ok (guard_that (metadata_fits o.chunk_metadata texts)) _ h3 in
      let (_, _, h5) = >>=-eq-ok (guard_that (binding_known o.chunk_metadata_binding)) _ h4 in
      >>=-eq-ok (verify_each r ix fp db p o (with_metadata texts ms) (nothing p)) _ h5

  -- The chunks that `verify_chunks` keeps are those, in order, whose outcome the policy does not
  -- block and which the evaluator, if any, allows; it blocks the others, and the receipt lists the
  -- outcome of every chunk.
  pub verify_chunks-select :
      {Sink : Type 0} (api : ReceiptSink ProvenanceReceipt Sink) (chunks : ChunksArgument)
      (texts : List Text) (sink : SinkArgument api) (fresh_id now : Text)
      {v : VerifiedChunks r ix fp api}
      → coerce_policy o.policy ≡ ok p
      → coerce_chunks chunks ≡ ok texts
      → verify_chunks r ix fp api db chunks o sink fresh_id now ≡ ok v
      → (v.kept ≡ select lets_through (with_metadata texts (or_no_metadata o.chunk_metadata)))
        × ((v.blocked
              ≡ select
                  (λ c. not (lets_through c))
                  (with_metadata texts (or_no_metadata o.chunk_metadata)))
            × (outcomes v.receipt.sources
                ≡ verdicts (with_metadata texts (or_no_metadata o.chunk_metadata))))
  verify_chunks-select api chunks texts sink fresh_id now {v} cp ct h =
      let cs = with_metadata texts (or_no_metadata o.chunk_metadata) in
      let (s, es, em) = verify_chunks-emit api chunks texts sink fresh_id now cp ct h in
      let (kept, (blocked, listed)) = verify_each-select cs (nothing p) es in
      let (k, (b, l)) = emit-keeps api sink fresh_id now s em in
      (k ∙ kept, (b ∙ blocked, ap outcomes l ∙ listed))
