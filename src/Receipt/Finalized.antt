-- ===== src/Receipt/Finalized.antt =====
-- What `finalize` takes over from the builder and its arguments.
use provenex_core.Prelude.{◌≡◌, refl, sym, subst, Option, none, some, ok, >>=-eq-ok, ok-injective}
use provenex_core.Rules.{Runtime}
use provenex_core.Receipt.{ReceiptSigner, ProvenanceReceipt}
use provenex_core.Receipt.Signing.{canonical_payload}
use provenex_core.Receipt.Builder.{
  ReceiptBuilder, Finish, summarize, unsigned_receipt, sign_receipt, finalize,
}

-- The parts of a receipt that signing leaves as they are.
abbrev SameBody : ProvenanceReceipt → ProvenanceReceipt → Type 0
SameBody c d =
    (d.sources ≡ c.sources)
    × ((d.actions ≡ c.actions) × ((d.summary ≡ c.summary) × (d.receipt_id ≡ c.receipt_id)))

sign_receipt-SameBody :
    (r : Runtime) (signer : Option ReceiptSigner) (c : ProvenanceReceipt) {d : ProvenanceReceipt}
    → sign_receipt r signer c ≡ ok d
    → SameBody c d
unfolding sign_receipt
sign_receipt-SameBody r none c h = subst (SameBody c) (ok-injective h) (refl, (refl, (refl, refl)))
sign_receipt-SameBody r (some signer) c h =
    let (payload, _, k) =
      >>=-eq-ok (canonical_payload r (record c { signature_algorithm = some signer.algorithm })) _
        h in
    let (value, _, m) = >>=-eq-ok (signer.sign payload) _ k in
    subst (SameBody c) (ok-injective m) (refl, (refl, (refl, refl)))

pub finalize-body :
    (r : Runtime) (b : ReceiptBuilder) (signer : Option ReceiptSigner) (a : Finish)
    {c : ProvenanceReceipt}
    → finalize r b signer a ≡ ok c
    → (c.sources ≡ b.sources)
      × ((c.actions ≡ b.actions)
          × ((summarize b a.tool_call_control ≡ ok c.summary) × (c.receipt_id ≡ a.receipt_id)))
unfolding finalize
finalize-body r b signer a h =
    let (counts, e, k) = >>=-eq-ok (summarize b a.tool_call_control) _ h in
    let (s, (t, (u, v))) = sign_receipt-SameBody r signer (unsigned_receipt r b a counts) k in
    (s, (t, (subst (λ x. summarize b a.tool_call_control ≡ ok x) (sym u) e, v)))
