-- ===== src/Index/Sqlite/Fresh.antt =====
-- A chunk that is added is the one that is found: `add` followed by `verify`.
use provenex_core.Prelude.{
  ℕ, ◌≡◌, refl, ◌∙◌, ap, false, some, List, [], ◌∷◌, ◌++◌, arith, ok, nat_eq, list_eq,
  if◌then◌else◌, Bool-cases, inl, inr, subst, ==_refl,
}
use provenex_core.Text.{Text}
use provenex_core.Index.{Addition, verified, unauthorized}
use provenex_core.Index.Sqlite.{
  Document, Row, Db, add, lookup, verify, verify_entry, judge, entry, matches, has_key,
  insert_or_ignore, upsert_document, find_document, store_addition, new_row,
}
use provenex_core.Index.Sqlite.Invariant.{Upserted, upsert_document-Upserted, add-Added}
use provenex_core.Index.Sqlite.Naming.{IsNamed, has_fingerprint, has_fingerprint-upsert}
use provenex_core.Index.Sqlite.Verdict.{Reach, Reach-IsSound}

has_key-absent :
    (row : Row) (rows : List Row)
    → has_fingerprint row.fingerprint rows ≡ false
    → has_key row rows ≡ false
unfolding has_key has_fingerprint
has_key-absent row [] h = refl
has_key-absent row (r ∷ rows) h = ground (arith, has_key-absent row rows)

matches-append_absent :
    (ds : List Document) (row : Row) (d : Document) (rows : List Row)
    → has_fingerprint row.fingerprint rows ≡ false
    → find_document row.document_id ds ≡ some d
    → matches ds row.fingerprint (rows ++ row ∷ []) ≡ entry row d ∷ []
unfolding matches has_fingerprint
matches-append_absent ds row d [] h f = rw (==_refl row.fingerprint, f) refl
matches-append_absent ds row d (r ∷ rows) h f = ground (arith, matches-append_absent ds row d rows)

module _ (mac : List ℕ → List ℕ → Text) (secret : List ℕ) where
  store_addition-lookup :
      (a : Addition) (signature : Text) (db : Db)
      → has_fingerprint a.fingerprint db.fingerprints ≡ false
      → (u : Upserted mac secret a
          (upsert_document a (find_document a.document_id db.documents) db))
      → lookup (store_addition a signature db) a.fingerprint
        ≡ some (entry (new_row a signature) u.document)
  unfolding lookup insert_or_ignore
  store_addition-lookup a signature db h u =
      let db' = upsert_document a (find_document a.document_id db.documents) db in
      let absent : has_fingerprint a.fingerprint db'.fingerprints ≡ false =
        has_fingerprint-upsert a.fingerprint a (find_document a.document_id db.documents) db ∙ h in
      rw
        (
          has_key-absent (new_row a signature) db'.fingerprints absent,
          matches-append_absent db'.documents (new_row a signature) u.document db'.fingerprints
              absent u.found,
        )
        refl

  judge_new :
      (a : Addition) (payload : List ℕ) (d : Document)
      → d.authorized ≡ a.authorized
      → judge mac secret (entry (new_row a (mac secret payload)) d) payload
        ≡ (if a.authorized then verified else unauthorized)
  unfolding judge entry
  judge_new a payload d e = ground (arith, e, ==_refl {A = Text} (mac secret payload))

  -- A chunk whose fingerprint was not in the index verifies, once its addition has succeeded, as
  -- VERIFIED if it was added as authorized, and else as UNAUTHORIZED.
  pub add-verify :
      (db db' : Db) (a : Addition)
      → Reach mac secret db
      → (IsNamed db a.fingerprint → ⊥)
      → add mac secret db a ≡ ok db'
      → verify mac secret db' a.fingerprint ≡ ok (if a.authorized then verified else unauthorized)
  unfolding verify verify_entry IsNamed
  add-verify db db' a r n e =
      let w = add-Added mac secret db db' a e in
      let u = upsert_document-Upserted mac secret a db (Reach-IsSound mac secret r) in
      let absent : has_fingerprint a.fingerprint db.fingerprints ≡ false =
        elim (Bool-cases (has_fingerprint a.fingerprint db.fingerprints)) [
          | inl y ↦ absurd (n y)
          | inr y ↦ y
        ] in
      subst
        (λ d.
          verify_entry mac secret (lookup d a.fingerprint)
          ≡ ok (if a.authorized then verified else unauthorized))
        w.stored
        (rw (store_addition-lookup a (mac secret w.payload) db absent u)
          (rw w.canonical (ap (λ o. ok o) (judge_new a w.payload u.document u.authorization))))
