-- ===== src/Index/Sqlite/Naming.antt =====
-- The fingerprints that have a row: what the Bloom layer asks of the SQLite index.
use provenex_core.Prelude.{
  ℕ, ◌≡◌, refl, sym, ◌⊎◌, inl, inr, Bool, true, false, Option, none, some, ◌||◌, List, [], ◌∷◌,
  ◌++◌, ok, Bool-cases, arith, ◌==◌, nat_eq, list_eq, subst,
}
use provenex_core.Text.{Text}
use provenex_core.Index.{Addition}
use provenex_core.Index.Bloom.{BloomFilterIndex, Tracks}
use provenex_core.Index.Sqlite.{
  Document, Row, Db, empty_db, sqlite_index, add, lookup, verify, verify_entry, matches,
  first_of_order, supersede_rows, set_authorization, supersede, insert_or_ignore, has_key,
  upsert_document, store_addition, new_row, find_document,
}
use provenex_core.Index.Sqlite.Invariant.{add-Added}
use provenex_core.Index.Sqlite.Tables.{text_eq_iff}

unfoldable pub has_fingerprint : Text → List Row → Bool
has_fingerprint fp [] = false
has_fingerprint fp (row ∷ rows) = row.fingerprint == fp || has_fingerprint fp rows

unfoldable pub IsNamed : Db → Text → Type 0
IsNamed db fp = has_fingerprint fp db.fingerprints ≡ true

has_fingerprint-supersede_rows :
    (fp id v : Text) (rows : List Row)
    → has_fingerprint fp (supersede_rows id v rows) ≡ has_fingerprint fp rows
unfolding has_fingerprint supersede_rows
has_fingerprint-supersede_rows fp id v [] = refl
has_fingerprint-supersede_rows fp id v (row ∷ rows) =
    ground (arith, has_fingerprint-supersede_rows fp id v rows)

pub has_fingerprint-append :
    (fp : Text) (rows : List Row) (row : Row)
    → has_fingerprint fp (rows ++ row ∷ []) ≡ (has_fingerprint fp rows || row.fingerprint == fp)
unfolding has_fingerprint
has_fingerprint-append fp [] row = ground arith
has_fingerprint-append fp (r ∷ rows) row = ground (arith, has_fingerprint-append fp rows row)

pub has_fingerprint-upsert :
    (fp : Text) (a : Addition) (d : Option Document) (db : Db)
    → has_fingerprint fp (upsert_document a d db).fingerprints ≡ has_fingerprint fp db.fingerprints
unfolding upsert_document
has_fingerprint-upsert fp a none db = refl
has_fingerprint-upsert fp a (some d) db =
    ground
      (arith, has_fingerprint-supersede_rows fp a.document_id a.document_version db.fingerprints)

named-added :
    (a : Addition) (signature : Text) (db : Db) (fp : Text)
    → has_fingerprint fp (store_addition a signature db).fingerprints ≡ true
    → (has_fingerprint fp db.fingerprints ≡ true) ⊎ (fp ≡ a.fingerprint)
unfolding insert_or_ignore
named-added a signature db fp h =
    let db' = upsert_document a (find_document a.document_id db.documents) db in
    let u = has_fingerprint-upsert fp a (find_document a.document_id db.documents) db in
    elim (Bool-cases (has_key (new_row a signature) db'.fingerprints)) [
      | inl e ↦ inl (ground (arith, u))
      | inr e ↦ elim (Bool-cases (a.fingerprint == fp)) [
        | inl f ↦ inr (sym ((text_eq_iff a.fingerprint fp).0 f))
        | inr f ↦
            inl
              (ground (arith, u, has_fingerprint-append fp db'.fingerprints (new_row a signature)))
      ]
    ]

pub matches-absent :
    (db : Db) (fp : Text) (rows : List Row)
    → has_fingerprint fp rows ≡ false
    → matches db.documents fp rows ≡ []
unfolding has_fingerprint matches
matches-absent db fp [] h = refl
matches-absent db fp (row ∷ rows) h = ground (arith, matches-absent db fp rows)

module _ (mac : List ℕ → List ℕ → Text) (secret : List ℕ) (filter : BloomFilterIndex) where
  lookup-absent : (db : Db) (fp : Text) → (IsNamed db fp → ⊥) → lookup db fp ≡ none
  unfolding IsNamed lookup first_of_order
  lookup-absent db fp h = elim (Bool-cases (has_fingerprint fp db.fingerprints)) [
    | inl e ↦ absurd (h e)
    | inr e ↦ rw (matches-absent db fp db.fingerprints e) refl
  ]

  named-of_add :
      (db db' : Db) (a : Addition) (fp : Text)
      → add mac secret db a ≡ ok db'
      → IsNamed db' fp
      → IsNamed db fp ⊎ (fp ≡ a.fingerprint)
  unfolding IsNamed
  named-of_add db db' a fp e n =
      let w = add-Added mac secret db db' a e in
      named-added a (mac secret w.payload) db fp
        (subst (λ d. has_fingerprint fp d.fingerprints ≡ true) (sym w.stored) n)

  -- The SQLite index finds nothing for a fingerprint that has no row, and only `add` makes rows, of
  -- its own fingerprint.
  pub sqlite_index-Tracks : Tracks (sqlite_index mac secret) filter IsNamed
  unfolding IsNamed verify verify_entry set_authorization supersede add
  sqlite_index-Tracks = record {
    absent = λ db fp h. (rw (lookup-absent db fp h) refl, lookup-absent db fp h);
    added = λ db db' a fp e n. named-of_add db db' a fp e n;
    authorized = λ db id b fp n. n;
    superseded = λ db id v fp n. cc (has_fingerprint-supersede_rows fp id v db.fingerprints, n);
  }

pub empty_db-names_nothing : (fp : Text) → IsNamed empty_db fp → ⊥
unfolding IsNamed has_fingerprint
empty_db-names_nothing fp h = cc
