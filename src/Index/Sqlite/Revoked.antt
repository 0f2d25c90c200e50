-- ===== src/Index/Sqlite/Revoked.antt =====
-- A revoked document and a superseded version: what `verify` answers after the call.
use mathlib.Core.List.{Memᴰ}
use provenex_core.Prelude.{
  ℕ, ◌≡◌, ◌≢◌, refl, sym, ◌∙◌, ap, false, some, List, arith, ok, nat_eq, list_eq, Option-cases, inl,
  inr,
}
use provenex_core.Text.{Text, text_eq_iff}
use provenex_core.Index.{verified}
use provenex_core.Index.Sqlite.{
  Document, Row, Db, find_document, update_documents, set_authorization, supersede, verify,
}
use provenex_core.Index.Sqlite.Tables.{find_document-update_documents}
use provenex_core.Index.Sqlite.Verdict.{Reach, authorization, supersession, verify-Verified}

-- What an update of one document leaves at its own id.
find_document-updated :
    (k : Text) (f : Document → Document) (ds : List Document) (d : Document)
    → ((x : Document) → (f x).document_id ≡ x.document_id)
    → find_document k (update_documents k f ds) ≡ some d
    → (x : Document) × (f x ≡ d)
find_document-updated k f ds d keep h = elim (Option-cases (find_document k ds)) [
  | inl n ↦
      absurd (
        ground
          (arith, h, n, find_document-update_documents k k f ds keep, (text_eq_iff k k).1 refl))
  | inr (x, e) ↦ (
    x,
    ground (arith, h, e, find_document-update_documents k k f ds keep, (text_eq_iff k k).1 refl),
  )
]

module _ (mac : List ℕ → List ℕ → Text) (secret : List ℕ) where
  -- After any calls and then the revocation of a document, a fingerprint that verifies as VERIFIED
  -- has a row of another document.
  pub set_authorization-verify :
      (db : Db) (id fp : Text)
      → Reach mac secret db
      → verify mac secret (set_authorization db id false) fp ≡ ok verified
      → (row : Row) × Memᴰ row (set_authorization db id false).fingerprints
        × (row.fingerprint ≡ fp)
        × (row.document_id ≢ id)
  unfolding set_authorization
  set_authorization-verify db id fp r h =
      let v =
        verify-Verified mac secret (set_authorization db id false) fp (authorization id false r)
          h in
      (
        v.row,
        v.listed,
        v.about,
        λ same.
            let (x, e) =
              find_document-updated id (λ d. record d { authorized = false }) db.documents
                v.document (λ d. refl)
                (ap (λ k. find_document k (set_authorization db id false).documents) (sym same)
                  ∙ v.found) in
            cc (ap (λ d. d.authorized) e, v.allowed),
      )

  -- After any calls and then the supersession of a document by a version, a fingerprint that
  -- verifies as VERIFIED has a row of another document or of that version.
  pub supersede-verify :
      (db : Db) (id version fp : Text)
      → Reach mac secret db
      → verify mac secret (supersede db id version).0 fp ≡ ok verified
      → (row : Row) × Memᴰ row (supersede db id version).0.fingerprints
        × (row.fingerprint ≡ fp)
        × (row.document_id ≡ id → row.document_version ≡ version)
  unfolding supersede
  supersede-verify db id version fp r h =
      let v =
        verify-Verified mac secret (supersede db id version).0 fp (supersession id version r) h in
      (
        v.row,
        v.listed,
        v.about,
        λ same.
            let (x, e) =
              find_document-updated id (λ d. record d { current_version = version }) db.documents
                v.document (λ d. refl)
                (ap (λ k. find_document k (supersede db id version).0.documents) (sym same)
                  ∙ v.found) in
            sym v.current ∙ sym (ap (λ d. d.current_version) e),
      )
