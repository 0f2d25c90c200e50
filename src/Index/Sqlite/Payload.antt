-- ===== src/Index/Sqlite/Payload.antt =====
-- The signed payload tells all six fields apart, so that a row cannot be altered under its signature.
use provenex_core.Prelude.{
  ℕ, ◌≡◌, ◌≢◌, refl, sym, ◌∙◌, ap, false, some, List, ◌∷◌, ◌++◌, ◌⊎◌, inl, inr, arith, ok,
  >>=-eq-ok, ok-injective, ◌==◌, nat_eq, list_eq, Bool-cases,
}
use provenex_core.Text.{Text, has_char, utf8, decimal, join, text_eq_iff}
use provenex_core.Text.Utf8.{AllChars, utf8-injective}
use provenex_core.Text.Decimal.{decimal-injective, has_char-decimal}
use provenex_core.Text.Lines.{append-separator, AllChars-append, AllChars-decimal}
use provenex_core.Index.{VerificationOutcome, tampered}
use provenex_core.Index.Sqlite.{
  Document, Row, Signed, row_fields, entry, validate_signing_field, payload_text, canonical_payload,
  judge, verify_entry,
}
use provenex_core.Index.Sqlite.Invariant.{IsSigned}

-- The texts of the fields are made of code points.
pub record HasChars (f : Signed) : Type 0 where
  pub fingerprint : AllChars f.fingerprint
  pub document_id : AllChars f.document_id
  pub document_version : AllChars f.document_version
  pub ingested_at : AllChars f.ingested_at

-- What the payload's validation ensures.
record OneLine (f : Signed) (payload : List ℕ) : Type 0 where
  pub fingerprint : has_char 10 f.fingerprint ≡ false
  pub document_id : has_char 10 f.document_id ≡ false
  pub document_version : has_char 10 f.document_version ≡ false
  pub ingested_at : has_char 10 f.ingested_at ≡ false
  pub bytes : utf8 (payload_text f) ≡ payload

valid-one_line : (s : Text) → validate_signing_field s ≡ ok tt → has_char 10 s ≡ false
unfolding validate_signing_field
valid-one_line s h = ground arith

canonical_payload-OneLine :
    (f : Signed) (payload : List ℕ) → canonical_payload f ≡ ok payload → OneLine f payload
unfolding canonical_payload
canonical_payload-OneLine f payload h =
    let (_, a, h₁) = >>=-eq-ok (validate_signing_field f.fingerprint) _ h in
    let (_, b, h₂) = >>=-eq-ok (validate_signing_field f.document_id) _ h₁ in
    let (_, c, h₃) = >>=-eq-ok (validate_signing_field f.document_version) _ h₂ in
    let (_, d, h₄) = >>=-eq-ok (validate_signing_field f.ingested_at) _ h₃ in
    record {
      fingerprint = valid-one_line f.fingerprint a;
      document_id = valid-one_line f.document_id b;
      document_version = valid-one_line f.document_version c;
      ingested_at = valid-one_line f.ingested_at d;
      bytes = ok-injective h₄;
    }

-- A line and what follows it are code points.
AllChars-line : (s t : Text) → AllChars s → AllChars t → AllChars (s ++ 10 ∷ t)
AllChars-line s t h k = AllChars-append s (10 ∷ t) h (omega arith, k)

AllChars-payload_text : (f : Signed) → HasChars f → AllChars (payload_text f)
unfolding join
AllChars-payload_text f h = AllChars-line _ _ h.fingerprint (
    AllChars-line _ _ h.document_id (
      AllChars-line _ _ h.document_version (
        AllChars-line _ _ h.ingested_at
          (AllChars-line _ _ (AllChars-decimal f.chunk_offset) (AllChars-decimal f.chunk_length)))))

-- Two sets of fields with one payload are the same.
canonical_payload-injective :
    (f g : Signed) (payload : List ℕ)
    → HasChars f
    → HasChars g
    → canonical_payload f ≡ ok payload
    → canonical_payload g ≡ ok payload
    → f ≡ g
unfolding join
canonical_payload-injective f g payload hf hg ef eg =
    let a = canonical_payload-OneLine f payload ef in
    let b = canonical_payload-OneLine g payload eg in
    let texts =
      utf8-injective (payload_text f) (payload_text g) (AllChars-payload_text f hf)
        (AllChars-payload_text g hg) (a.bytes ∙ sym b.bytes) in
    let (e₁, r₁) =
      append-separator 10 f.fingerprint g.fingerprint _ _ a.fingerprint b.fingerprint texts in
    let (e₂, r₂) =
      append-separator 10 f.document_id g.document_id _ _ a.document_id b.document_id r₁ in
    let (e₃, r₃) =
      append-separator 10 f.document_version g.document_version _ _ a.document_version
        b.document_version r₂ in
    let (e₄, r₄) =
      append-separator 10 f.ingested_at g.ingested_at _ _ a.ingested_at b.ingested_at r₃ in
    let (e₅, e₆) =
      append-separator 10 (decimal f.chunk_offset) (decimal g.chunk_offset) _ _
        (has_char-decimal f.chunk_offset 10 (omega arith))
        (has_char-decimal g.chunk_offset 10 (omega arith)) r₄ in
    cc (
      e₁,
      e₂,
      e₃,
      e₄,
      decimal-injective f.chunk_offset g.chunk_offset e₅,
      decimal-injective f.chunk_length g.chunk_length e₆,
    )

module _ (mac : List ℕ → List ℕ → Text) (secret : List ℕ) where
  -- Two payloads with one MAC.
  pub record MacCollision : Type 0 where
    pub one : List ℕ
    pub other : List ℕ
    pub different : one ≢ other
    pub same_mac : mac secret one ≡ mac secret other

  judge-mac :
      (row : Row) (d : Document) (payload : List ℕ)
      → judge mac secret (entry row d) payload ≢ tampered
      → mac secret payload ≡ row.signature
  unfolding judge entry
  judge-mac row d payload h = elim (Bool-cases (mac secret payload == row.signature)) [
    | inl e ↦ (text_eq_iff (mac secret payload) row.signature).0 e
    | inr e ↦ absurd (h (rw e refl))
  ]

  -- A row that keeps the signature of a signed row, and that `verify` does not answer TAMPERED for,
  -- has the six signed fields of that row, unless two payloads with one MAC are at hand.
  pub verify_entry-tampered :
      (row row' : Row) (d : Document) (o : VerificationOutcome)
      → IsSigned mac secret row
      → HasChars (row_fields row)
      → HasChars (row_fields row')
      → row'.signature ≡ row.signature
      → verify_entry mac secret (some (entry row' d)) ≡ ok o
      → o ≢ tampered
      → (row_fields row' ≡ row_fields row) ⊎ MacCollision
  unfolding verify_entry entry
  verify_entry-tampered row row' d o s h h' q e n =
      let (payload, c, j) = >>=-eq-ok (canonical_payload (row_fields row')) _ e in
      let m = judge-mac row' d payload (λ t. n (sym (ok-injective j) ∙ t)) in
      elim (Bool-cases (payload == s.payload)) [
        | inl p ↦ inl (
            canonical_payload-injective (row_fields row') (row_fields row) s.payload h' h
              (c ∙ ap (λ x. ok x) ((text_eq_iff payload s.payload).0 p)) s.canonical)
        | inr p ↦ inr (record {
          one = payload;
          other = s.payload;
          different = λ same. ground (arith, p, (text_eq_iff payload s.payload).1 same);
          same_mac = m ∙ q ∙ s.mac_of;
        })
      ]
