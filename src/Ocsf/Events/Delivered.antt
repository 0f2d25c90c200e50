-- ===== src/Ocsf/Events/Delivered.antt =====
-- What OCSFAdapter of provenex/export/ocsf.py hands to its downstream sink, and the agreement of
-- `_is_source_blocked` with the policy of a receipt.
use mathlib.Core.List.{append_assoc, append-nil}
use provenex_core.Prelude.{
  sink_closed_error, String, ◌≡◌, refl, sym, ap, ◌∙◌, Bool, true, false, Option, none, some, List,
  [], ◌∷◌, ◌++◌, ◌||◌, Result, ok, err, is_ok, Bool-cases, inl, inr,
}
use provenex_core.Text.{Text, codes}
use provenex_core.Value.{
  Value, null, text, Fields, dict, get, same_key, to_fields, truthy, value_eq,
}
use provenex_core.Policy.{should_block}
use provenex_core.Index.{VerificationOutcome, verified, stale, unauthorized, unverified, tampered}
use provenex_core.Receipt.{
  ProvenanceReceipt, SourceRecord, source_dict, receipt_dict, outcome_value, verification_dict,
  policy_dict, unsigned_entries,
}
use provenex_core.Streaming.{ReceiptSink, Published, and_then, raised}
use provenex_core.Streaming.Retry.{Logged}
use provenex_core.Ocsf.{
  Host, OcsfOptions, OcsfEvent, event_dict, read, denies, is_source_blocked, policy_section,
  section_of,
}
use provenex_core.Ocsf.Events.{
  OcsfCarrier, OcsfAdapter, forward, adapter_publish, adapter_close, receipt_to_ocsf,
}

value_read : String → Value → Value
value_read k (dict fs) = read k fs
value_read k _ = null

outcome_read :
    (s : SourceRecord) (fs : Fields)
    → source_dict s ≡ dict fs
    → read "verification_outcome" fs ≡ text (codes (outcome_value s.verification_outcome))
unfolding value_read source_dict get same_key to_fields
outcome_read s fs e = sym (ap (value_read "verification_outcome") e)

verification_read :
    (h : Host) (c : ProvenanceReceipt) (caller : Option Text)
    → c.caller_hash ≡ caller
    → policy_section h "verification" (receipt_dict c) ≡ ok (verification_dict c.policy)
unfolding policy_section section_of receipt_dict unsigned_entries policy_dict get same_key to_fields
    truthy
verification_read h c none e = rw e refl
verification_read h c (some s) e = rw e refl

blocked_at :
    (h : Host) (c : ProvenanceReceipt) (fs : Fields) (d : Option Fields) (o : VerificationOutcome)
    → read "verification_outcome" fs ≡ text (codes (outcome_value o))
    → is_source_blocked h (receipt_dict c) fs d ≡ ok (should_block c.policy o || denies h d)
unfolding is_source_blocked should_block value_eq verification_dict get same_key to_fields truthy
blocked_at h c fs d verified e = rw e refl
blocked_at h c fs d stale e = rw e (rw (verification_read h c c.caller_hash refl) refl)
blocked_at h c fs d unauthorized e = rw e (rw (verification_read h c c.caller_hash refl) refl)
blocked_at h c fs d unverified e = rw e (rw (verification_read h c c.caller_hash refl) refl)
blocked_at h c fs d tampered e = rw e (rw (verification_read h c c.caller_hash refl) refl)

-- `_is_source_blocked`, asked of a source and a receipt as `to_dict` writes them, answers what the
-- receipt's verification policy says of the source's outcome, or the decision's denial.
pub is_source_blocked-should_block :
    (h : Host) (c : ProvenanceReceipt) (s : SourceRecord) (fs : Fields) (d : Option Fields)
    → source_dict s ≡ dict fs
    → is_source_blocked h (receipt_dict c) fs d
      ≡ ok (should_block c.policy s.verification_outcome || denies h d)
is_source_blocked-should_block h c s fs d e =
    blocked_at h c fs d s.verification_outcome (outcome_read s fs e)

and_then-is_ok {ℓ} :
    {S : Type ℓ} (p : Published S) (k : S → Published S)
    → is_ok (and_then p k).result ≡ true
    → (is_ok p.result ≡ true) × (and_then p k ≡ k p.state)
unfolding and_then
and_then-is_ok p k h = elim (Bool-cases (is_ok p.result)) [
  | inl t ↦ (t, (rw t refl))
  | inr f ↦ absurd (cc (rw f at h))
]

module _ {ℓ} {Sink : Type ℓ} (api : ReceiptSink OcsfCarrier Sink) (log : Sink → List OcsfCarrier)
    (logged : Logged api log) where
  abbrev carrier : Text → OcsfEvent → OcsfCarrier
  carrier parent_id e = record { event = event_dict e; receipt_id = parent_id }

  abbrev pub carriers : Text → List OcsfEvent → List OcsfCarrier
  carriers parent_id [] = []
  carriers parent_id (e ∷ es) = carrier parent_id e ∷ carriers parent_id es

  forward-log :
      (s : Sink) (es : List OcsfEvent) (parent_id : Text)
      → is_ok (forward api s es parent_id).result ≡ true
      → log (forward api s es parent_id).state ≡ log s ++ carriers parent_id es
  unfolding forward
  forward-log s [] parent_id h = sym (append-nil (log s))
  forward-log s (e ∷ es) parent_id h =
      let p = api.publish s (carrier parent_id e) in
      let (t, q) = and_then-is_ok p (λ sink. forward api sink es parent_id) h in
      let ih = forward-log p.state es parent_id (sym (ap (λ x. is_ok x.result) q) ∙ h) in
      ap (λ x. log x.state) q
      ∙ ih
      ∙ ap (λ l. l ++ carriers parent_id es) (logged.taken s (carrier parent_id e) t)
      ∙ append_assoc (log s) (carrier parent_id e ∷ []) (carriers parent_id es)

  -- Where a publish of an adapter returns, the adapter was open, the receipt has a list of events,
  -- and the downstream has taken exactly those events, in their order and under the receipt's id.
  -- The downstream logs what it takes. After `close` every publish raises and changes nothing.
  pub adapter_publish-log :
      (h : Host) (a : OcsfAdapter Sink) (receipt : Fields) (parent_id : Text)
      → ((is_ok (adapter_publish api h a receipt parent_id).result ≡ true)
          → (a.closed ≡ false)
            × (es : List OcsfEvent) × (receipt_to_ocsf h a.options receipt ≡ ok es)
            × (log (adapter_publish api h a receipt parent_id).state.downstream
                ≡ log a.downstream ++ carriers parent_id es))
        × (adapter_publish api h (adapter_close api a) receipt parent_id
            ≡ raised sink_closed_error (adapter_close api a))
  unfolding adapter_publish adapter_close
  adapter_publish-log h a receipt parent_id = (published, shut)
    where
      answered :
          (m : Result (List OcsfEvent))
          → receipt_to_ocsf h a.options receipt ≡ m
          → a.closed ≡ false
          → is_ok (adapter_publish api h a receipt parent_id).result ≡ true
          → (es : List OcsfEvent) × (receipt_to_ocsf h a.options receipt ≡ ok es)
            × (log (adapter_publish api h a receipt parent_id).state.downstream
                ≡ log a.downstream ++ carriers parent_id es)
      answered (err x) e f k = let k1 = rw f at k in absurd (cc (rw e at k1))
      answered (ok es) e f k =
          let k1 = rw f at k in
          (es, e, rw f (rw e (forward-log a.downstream es parent_id (rw e at k1))))

      published :
          is_ok (adapter_publish api h a receipt parent_id).result ≡ true
          → (a.closed ≡ false)
            × (es : List OcsfEvent) × (receipt_to_ocsf h a.options receipt ≡ ok es)
            × (log (adapter_publish api h a receipt parent_id).state.downstream
                ≡ log a.downstream ++ carriers parent_id es)
      published k = elim (Bool-cases a.closed) [
        | inl t ↦ absurd (cc (rw t at k))
        | inr f ↦
            let (es, p, q) = answered (receipt_to_ocsf h a.options receipt) refl f k in
            (f, es, p, q)
      ]

      shut_at :
          (b : Bool) (sink : Sink) (o : OcsfOptions)
          → adapter_publish api h
              (adapter_close api (record { downstream = sink; options = o; closed = b }))
              receipt
              parent_id
            ≡ raised sink_closed_error
                (adapter_close api (record { downstream = sink; options = o; closed = b }))
      shut_at true sink o = refl
      shut_at false sink o = refl

      shut :
          adapter_publish api h (adapter_close api a) receipt parent_id
          ≡ raised sink_closed_error (adapter_close api a)
      shut = shut_at a.closed a.downstream a.options
