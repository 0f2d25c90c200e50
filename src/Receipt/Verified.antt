-- ===== src/Receipt/Verified.antt =====
-- A receipt that was signed verifies, and what verifies under one signature is one receipt.
use provenex_core.Prelude.{
  ℕ, String, ◌≡◌, ◌≢◌, refl, sym, ap, subst, ◌∙◌, ◌⊎◌, inl, inr, Bool, true, false, ◌&&◌, Option,
  none, some, List, [], ◌∷◌, ◌++◌, All, All-append, ok, err, >>=-eq-ok, ok-injective, Bool-cases,
  ==_refl, ==→eq, ◌==◌, nat_eq, list_eq, if◌then◌else◌, type_error,
}
use provenex_core.Text.{Text, codes}
use provenex_core.Value.{
  Value, text, dict, Fields, Key, name, to_fields, get, pop, or_null, same_key, entry_if, value_eq,
  truthy,
}
use provenex_core.Rules.{Runtime, canonical_bytes}
use provenex_core.Receipt.{
  ProvenanceReceipt, ActionRecord, unsigned_entries, signature_entries, receipt_dict,
  signature_block, policy_dict, trajectory_dict, action_dict, identity_entries, body_entries,
  if_any,
}
use provenex_core.Receipt.Signing.{
  is_ascii, compare_digest, default_verify, hmac_signer, canonical_payload, check_value,
  check_block, verify_receipt_signature,
}
use provenex_core.Receipt.Builder.{
  ReceiptBuilder, Finish, summarize, unsigned_receipt, sign_receipt, finalize,
}

abbrev signature_key : Text
signature_key = codes "signature"

abbrev Lacks : List (Key × Value) → Type 0
Lacks es = All (λ e. same_key e.0 (name signature_key) ≡ false) es

pop-last :
    (es : List (Key × Value)) (v w : Value)
    → pop signature_key (to_fields (es ++ (name signature_key, v) ∷ []))
      ≡ pop signature_key (to_fields (es ++ (name signature_key, w) ∷ []))
unfolding pop to_fields same_key
pop-last [] v w = refl
pop-last ((k, x) ∷ es) v w = rw (pop-last es v w)

get-last :
    (es : List (Key × Value)) (v : Value)
    → Lacks es
    → get signature_key (to_fields (es ++ (name signature_key, v) ∷ [])) ≡ some v
unfolding get to_fields same_key
get-last [] v h = refl
get-last ((k, x) ∷ es) v h = rw h.0 (get-last es v h.1)

entry_if-Lacks {ℓ} :
    {A : Type ℓ} (k : String) (f : A → Value) (o : Option A)
    → same_key (name (codes k)) (name signature_key) ≡ false
    → Lacks (entry_if k f o)
entry_if-Lacks k f none h = tt
entry_if-Lacks k f (some a) h = (h, tt)

if_any-Lacks : (actions : List ActionRecord) → Lacks (if_any "actions" action_dict actions)
unfolding same_key
if_any-Lacks [] = tt
if_any-Lacks (a ∷ as') = (refl, tt)

unsigned_entries-Lacks : (c : ProvenanceReceipt) → Lacks (unsigned_entries c)
unfolding unsigned_entries same_key
unsigned_entries-Lacks c =
    let P : Key × Value → Type 0 = λ e. same_key e.0 (name signature_key) ≡ false in
    let A = identity_entries c in
    let X = entry_if "caller_hash" text c.caller_hash in
    let B = body_entries c in
    let Y = if_any "actions" action_dict c.actions in
    let Z = entry_if "transparency_log" dict c.transparency_log in
    let W = entry_if "trajectory" trajectory_dict c.trajectory in
    All-append P (A ++ X ++ B ++ Y ++ Z) W
      (All-append P (A ++ X ++ B ++ Y) Z
        (All-append P (A ++ X ++ B) Y
          (All-append P (A ++ X) B
            (All-append P A X (refl, (refl, (refl, (refl, tt))))
              (entry_if-Lacks "caller_hash" text c.caller_hash refl))
            (refl, (refl, (refl, (refl, tt)))))
          (if_any-Lacks c.actions))
        (entry_if-Lacks "transparency_log" dict c.transparency_log refl))
      (entry_if-Lacks "trajectory" trajectory_dict c.trajectory refl)

module _ (r : Runtime) (secret : List ℕ) where
  -- A digest of HMAC-SHA256 in hexadecimal is ASCII.
  abbrev pub HasAsciiDigests : Type 0
  HasAsciiDigests = (payload : List ℕ) → is_ascii (r.hmac_hex secret payload) ≡ true

  own_digest :
      (payload : List ℕ)
      → HasAsciiDigests
      → default_verify (λ p. ok (r.hmac_hex secret p)) payload (r.hmac_hex secret payload) ≡ ok true
  unfolding default_verify compare_digest
  own_digest payload ascii =
      rw (ascii payload) (ap (λ b. ok b) (==_refl (r.hmac_hex secret payload)))

  abbrev hmac_sha256 : Text
  hmac_sha256 = codes "hmac-sha256"

  abbrev signed : ProvenanceReceipt → List ℕ → ProvenanceReceipt
  signed c payload = record c {
    signature_algorithm = some hmac_sha256;
    signature_value = some (r.hmac_hex secret payload);
  }

  entries_verify :
      (es : List (Key × Value)) (payload : List ℕ) (value : Option Text)
      → HasAsciiDigests
      → Lacks es
      → canonical_bytes r
          (dict (pop signature_key (to_fields (es ++ signature_entries (some hmac_sha256) value))))
        ≡ ok payload
      → verify_receipt_signature r (hmac_signer r secret) (
          to_fields (es ++ signature_entries (some hmac_sha256) (some (r.hmac_hex secret payload))))
        ≡ ok true
  unfolding verify_receipt_signature truthy value_eq to_fields get same_key
  entries_verify es payload value ascii lacks h =
      let mac = some (r.hmac_hex secret payload) in
      rw (get-last es (signature_block hmac_sha256 mac) lacks) (
        rw (pop-last es (signature_block hmac_sha256 mac) (signature_block hmac_sha256 value))
          (rw h (own_digest payload ascii)))

  signed_verifies :
      (c : ProvenanceReceipt) (payload : List ℕ)
      → HasAsciiDigests
      → canonical_payload r (record c { signature_algorithm = some hmac_sha256 }) ≡ ok payload
      → verify_receipt_signature r (hmac_signer r secret) (receipt_dict (signed c payload))
        ≡ ok true
  unfolding canonical_payload receipt_dict unsigned_entries policy_dict
  signed_verifies c payload ascii h =
      entries_verify (unsigned_entries c) payload c.signature_value ascii (unsigned_entries-Lacks c)
        h

  -- A receipt that finalize signed with HMAC verifies with the same secret.
  pub finalize_verifies :
      (b : ReceiptBuilder) (a : Finish) {c : ProvenanceReceipt}
      → HasAsciiDigests
      → finalize r b (some (hmac_signer r secret)) a ≡ ok c
      → verify_receipt_signature r (hmac_signer r secret) (receipt_dict c) ≡ ok true
  unfolding finalize sign_receipt
  finalize_verifies b a {c} ascii h =
      let (counts, _, k) = >>=-eq-ok (summarize b a.tool_call_control) _ h in
      let (payload, p, m) =
        >>=-eq-ok
          (canonical_payload r
            (record (unsigned_receipt r b a counts) { signature_algorithm = some hmac_sha256 }))
          _ k in
      subst (λ c'. verify_receipt_signature r (hmac_signer r secret) (receipt_dict c') ≡ ok true)
        (ok-injective m) (signed_verifies (unsigned_receipt r b a counts) payload ascii p)

  -- Two payloads with one MAC.
  pub record HmacCollision : Type 0 where
    pub one : List ℕ
    pub another : List ℕ
    pub different : one ≢ another
    pub same_mac : r.hmac_hex secret one ≡ r.hmac_hex secret another

  compare_true : (s t : Text) → compare_digest s t ≡ ok true → s ≡ t
  unfolding compare_digest
  compare_true s t h = elim (Bool-cases (is_ascii s && is_ascii t)) [
    | inl e ↦ ==→eq s t (ok-injective (rw e at h))
    | inr e ↦ absurd (cc (rw e at h))
  ]

  abbrev claimed : Value → Text
  claimed (text s) = s
  claimed _ = []

  falsy-mac :
      (payload : List ℕ) (b : Bool)
      → (if b then err type_error else default_verify (λ p. ok (r.hmac_hex secret p)) payload [])
        ≡ ok true
      → r.hmac_hex secret payload ≡ []
  unfolding default_verify
  falsy-mac payload true h = absurd (cc h)
  falsy-mac payload false h = compare_true _ _ h

  check_value-mac :
      (payload : List ℕ) (v : Value)
      → check_value r (hmac_signer r secret) payload v ≡ ok true
      → r.hmac_hex secret payload ≡ claimed v
  unfolding verify_receipt_signature default_verify
  check_value-mac payload (text s) h = compare_true (r.hmac_hex secret payload) s h
  check_value-mac payload v h = falsy-mac payload (truthy r.other_truth v) h

  abbrev block_value : Value → Text
  block_value (dict sig) = claimed (or_null (get (codes "value") sig))
  block_value _ = []

  -- The payload that the signature of a receipt was checked against.
  abbrev Authentic : Fields → Value → Type 0
  Authentic d sig =
      (payload : List ℕ) × (canonical_bytes r (dict (pop signature_key d)) ≡ ok payload)
      × (r.hmac_hex secret payload ≡ block_value sig)

  check_block-Authentic :
      (d : Fields) (sig : Value)
      → check_block r (hmac_signer r secret) d sig ≡ ok true
      → Authentic d sig
  unfolding verify_receipt_signature
  check_block-Authentic d (dict sig) h =
      elim (Bool-cases
        (value_eq r.other_eq (or_null (get (codes "algorithm") sig)) (text hmac_sha256))) [
          | inl e ↦
              let (payload, p, k) =
                >>=-eq-ok (canonical_bytes r (dict (pop signature_key d))) _ (rw e at h) in
              (payload, p, check_value-mac payload (or_null (get (codes "value") sig)) k)
          | inr e ↦ absurd (cc (rw e at h))
        ]
  check_block-Authentic d sig h = absurd (cc h)

  verify-Authentic :
      (d : Fields) (sig : Value)
      → get signature_key d ≡ some sig
      → verify_receipt_signature r (hmac_signer r secret) d ≡ ok true
      → Authentic d sig
  unfolding verify_receipt_signature
  verify-Authentic d sig g h = elim (Bool-cases (truthy r.other_truth sig)) [
    | inl e ↦ check_block-Authentic d sig (rw e at (rw g at h))
    | inr e ↦ absurd (cc (rw e at (rw g at h)))
  ]

  -- Receipts with one signature block that both verify have the same payload, which is all but the
  -- block, unless two payloads with one MAC are at hand.
  pub verify-tampered :
      (d e : Fields) (sig : Value)
      → get signature_key d ≡ some sig
      → get signature_key e ≡ some sig
      → verify_receipt_signature r (hmac_signer r secret) d ≡ ok true
      → verify_receipt_signature r (hmac_signer r secret) e ≡ ok true
      → (canonical_bytes r (dict (pop signature_key e))
          ≡ canonical_bytes r (dict (pop signature_key d)))
        ⊎ HmacCollision
  verify-tampered d e sig g g' h h' =
      let (p, c, m) = verify-Authentic d sig g h in
      let (p', c', m') = verify-Authentic e sig g' h' in
      elim (Bool-cases (p' == p)) [
        | inl same ↦ inl (c' ∙ ap (λ x. ok x) (==→eq p' p same) ∙ sym c)
        | inr n ↦ inr (record {
          one = p';
          another = p;
          different = λ q. cc (n, ==_refl p, q);
          same_mac = m' ∙ sym m;
        })
      ]
