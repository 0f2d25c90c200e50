-- ===== src/Index/Sqlite/Invariant.antt =====
-- What holds of the tables after any calls: each row has its document, is signed, and is current
-- unless it is marked superseded.
use provenex_core.Prelude.{
  ℕ, ◌≡◌, refl, Bool, true, false, none, some, List, [], ◌∷◌, ◌++◌, arith, ◌==◌, nat_eq, list_eq,
  if◌then◌else◌, Bool-cases, Option-cases, inl, inr, All, All-append, All-map, All-imp, ok,
  >>=-eq-ok, ok-injective, subst,
}
use provenex_core.Text.{Text, codes, starts_with}
use provenex_core.Index.{Addition}
use provenex_core.Index.Sqlite.{
  Document, Row, Db, canonical_payload, find_document, row_fields, update_documents, supersede_rows,
  outdated, insert_or_ignore, has_key, upsert_document, new_fields, store_addition, add,
  set_authorization, supersede, empty_db,
}
use provenex_core.Index.Sqlite.Tables.{
  text_eq_iff, find_document-update_documents, find_document-append,
}

-- The row's document is in the table, and is at the row's version unless the row is superseded.
pub record IsCurrent (ds : List Document) (row : Row) : Type 0 where
  pub document : Document
  pub found : find_document row.document_id ds ≡ some document
  pub current : row.superseded ≡ false → document.current_version ≡ row.document_version

-- An update that keeps ids and versions keeps the rows current.
IsCurrent-keep :
    (id : Text) (f : Document → Document) (ds : List Document) (row : Row)
    → ((d : Document) → (f d).document_id ≡ d.document_id)
    → ((d : Document) → (f d).current_version ≡ d.current_version)
    → IsCurrent ds row
    → IsCurrent (update_documents id f ds) row
IsCurrent-keep id f ds row keep same c = record {
  document = if id == row.document_id then f c.document else c.document;
  found = ground (arith, c.found, find_document-update_documents id row.document_id f ds keep);
  current = λ s. ground (arith, c.current s, same c.document);
}

abbrev mark : Text → Text → Row → Row
mark id version row = if outdated id version row then record row { superseded = true } else row

-- A move of a document to a new version, with the other versions' rows marked.
IsCurrent-move :
    (id version : Text) (f : Document → Document) (ds : List Document) (row : Row)
    → ((d : Document) → (f d).document_id ≡ d.document_id)
    → ((d : Document) → (f d).current_version ≡ version)
    → IsCurrent ds row
    → IsCurrent (update_documents id f ds) (mark id version row)
IsCurrent-move id version f ds row keep new c = record {
  document = if id == row.document_id then f c.document else c.document;
  found = ground (arith, c.found, find_document-update_documents id row.document_id f ds keep);
  current = λ s. ground (
    arith,
    c.current,
    new c.document,
    text_eq_iff row.document_id id,
    text_eq_iff id row.document_id,
    text_eq_iff row.document_version version,
  );
}

IsCurrent-append :
    (ds : List Document) (d : Document) (row : Row)
    → find_document d.document_id ds ≡ none
    → IsCurrent ds row
    → IsCurrent (ds ++ d ∷ []) row
IsCurrent-append ds d row fresh c = record {
  document = c.document;
  found = ground (
    arith,
    c.found,
    find_document-append row.document_id ds d fresh,
    text_eq_iff d.document_id row.document_id,
  );
  current = c.current;
}

module _ (mac : List ℕ → List ℕ → Text) (secret : List ℕ) where
  -- The row carries the MAC of its own fields.
  pub record IsSigned (row : Row) : Type 0 where
    pub payload : List ℕ
    pub canonical : canonical_payload (row_fields row) ≡ ok payload
    pub mac_of : row.signature ≡ mac secret payload

  pub record IsSound (db : Db) : Type 0 where
    pub current : All (IsCurrent db.documents) db.fingerprints
    pub signed : All IsSigned db.fingerprints

  pub empty_db-IsSound : IsSound empty_db
  empty_db-IsSound = record { current = tt; signed = tt }

  -- The tables after the document row of an addition is written.
  pub record Upserted (a : Addition) (db : Db) : Type 0 where
    pub document : Document
    pub found : find_document a.document_id db.documents ≡ some document
    pub version : document.current_version ≡ a.document_version
    pub authorization : document.authorized ≡ a.authorized
    pub rows : All (IsCurrent db.documents) db.fingerprints
    pub marks : All IsSigned db.fingerprints

  IsSigned-mark : (id version : Text) (row : Row) → IsSigned row → IsSigned (mark id version row)
  IsSigned-mark id version row s = elim (Bool-cases (outdated id version row)) [
    | inl e ↦ rw e (record { payload = s.payload; canonical = s.canonical; mac_of = s.mac_of })
    | inr e ↦ rw e s
  ]

  abbrev new_document : Addition → Document
  new_document a = record {
    document_id = a.document_id;
    authorized = a.authorized;
    current_version = a.document_version;
  }

  upsert_document-new :
      (a : Addition) (db : Db)
      → find_document a.document_id db.documents ≡ none
      → IsSound db
      → Upserted a (upsert_document a none db)
  unfolding upsert_document
  upsert_document-new a db e s = record {
    document = new_document a;
    found = ground (
      arith,
      find_document-append a.document_id db.documents (new_document a) e,
      text_eq_iff a.document_id a.document_id,
    );
    version = refl;
    authorization = refl;
    rows = All-imp _ _ db.fingerprints (λ row c. IsCurrent-append db.documents _ row e c) s.current;
    marks = s.signed;
  }

  upsert_document-same :
      (a : Addition) (d : Document) (db : Db)
      → find_document a.document_id db.documents ≡ some d
      → (d.current_version == a.document_version) ≡ true
      → IsSound db
      → Upserted a (upsert_document a (some d) db)
  unfolding upsert_document
  upsert_document-same a d db e v s = rw v (record {
    document = record d { authorized = a.authorized };
    found = ground (
      arith,
      e,
      find_document-update_documents a.document_id a.document_id
          (λ d. record d { authorized = a.authorized }) db.documents (λ d. refl),
      text_eq_iff a.document_id a.document_id,
    );
    version = (text_eq_iff _ _).0 v;
    authorization = refl;
    rows =
        All-imp _ _ db.fingerprints
          (λ row c. IsCurrent-keep a.document_id _ db.documents row (λ d. refl) (λ d. refl) c)
          s.current;
    marks = s.signed;
  })

  upsert_document-moved :
      (a : Addition) (d : Document) (db : Db)
      → find_document a.document_id db.documents ≡ some d
      → (d.current_version == a.document_version) ≡ false
      → IsSound db
      → Upserted a (upsert_document a (some d) db)
  unfolding upsert_document supersede_rows
  upsert_document-moved a d db e v s = rw v (record {
    document = record d { current_version = a.document_version; authorized = a.authorized };
    found = ground (
      arith,
      e,
      find_document-update_documents a.document_id a.document_id
          (λ d. record d { current_version = a.document_version; authorized = a.authorized })
          db.documents (λ d. refl),
      text_eq_iff a.document_id a.document_id,
    );
    version = refl;
    authorization = refl;
    rows =
        All-map _ _ _ db.fingerprints
          (λ row c.
            IsCurrent-move a.document_id a.document_version _ db.documents row (λ d. refl)
              (λ d. refl) c)
          s.current;
    marks = All-map _ _ _ db.fingerprints (IsSigned-mark a.document_id a.document_version) s.signed;
  })

  pub upsert_document-Upserted :
      (a : Addition) (db : Db)
      → IsSound db
      → Upserted a (upsert_document a (find_document a.document_id db.documents) db)
  upsert_document-Upserted a db s = elim (Option-cases (find_document a.document_id db.documents)) [
    | inl e ↦ rw e (upsert_document-new a db e s)
    | inr (d, e) ↦ rw e (elim (Bool-cases (d.current_version == a.document_version)) [
      | inl v ↦ upsert_document-same a d db e v s
      | inr v ↦ upsert_document-moved a d db e v s
    ])
  ]

  insert_or_ignore-All :
      (P : Row → Type 0) (row : Row) (rows : List Row)
      → P row
      → All P rows
      → All P (insert_or_ignore row rows)
  unfolding insert_or_ignore
  insert_or_ignore-All P row rows p h = elim (Bool-cases (has_key row rows)) [
    | inl e ↦ rw e h
    | inr e ↦ rw e (All-append P rows (row ∷ []) h (p, tt))
  ]

  store_addition-IsSound :
      (a : Addition) (payload : List ℕ) (db : Db)
      → canonical_payload (new_fields a) ≡ ok payload
      → IsSound db
      → IsSound (store_addition a (mac secret payload) db)
  store_addition-IsSound a payload db c s =
      let u = upsert_document-Upserted a db s in
      record {
        current =
            insert_or_ignore-All _ _ _
              (record { document = u.document; found = u.found; current = λ _. u.version }) u.rows;
        signed =
            insert_or_ignore-All _ _ _ (record { payload = payload; canonical = c; mac_of = refl })
              u.marks;
      }

  -- What an addition that succeeds did.
  pub record Added (db : Db) (a : Addition) (db' : Db) : Type 0 where
    pub payload : List ℕ
    pub canonical : canonical_payload (new_fields a) ≡ ok payload
    pub stored : store_addition a (mac secret payload) db ≡ db'

  pub add-Added : (db db' : Db) (a : Addition) → add mac secret db a ≡ ok db' → Added db a db'
  unfolding add
  add-Added db db' a e = elim (Bool-cases (starts_with a.fingerprint (codes "sha256:"))) [
    | inr p ↦ cc (rw p at e)
    | inl p ↦ elim (Bool-cases (starts_with a.document_version (codes "sha256:"))) [
      | inr q ↦ cc (rw (p, q) at e)
      | inl q ↦
          let (payload, c, d) =
            >>=-eq-ok (canonical_payload (new_fields a))
              (λ m. ok (store_addition a (mac secret m) db)) (rw (p, q) at e) in
          record { payload = payload; canonical = c; stored = ok-injective d }
    ]
  ]

  -- An addition that succeeds keeps the tables sound.
  pub add-IsSound :
      (db db' : Db) (a : Addition) → IsSound db → add mac secret db a ≡ ok db' → IsSound db'
  unfolding add
  add-IsSound db db' a s e =
      let w = add-Added db db' a e in
      subst IsSound w.stored (store_addition-IsSound a w.payload db w.canonical s)

  pub set_authorization-IsSound :
      (db : Db) (id : Text) (authorized : Bool)
      → IsSound db
      → IsSound (set_authorization db id authorized)
  unfolding set_authorization
  set_authorization-IsSound db id authorized s = record {
    current =
        All-imp _ _ db.fingerprints
          (λ row c. IsCurrent-keep id _ db.documents row (λ d. refl) (λ d. refl) c) s.current;
    signed = s.signed;
  }

  pub supersede-IsSound :
      (db : Db) (id version : Text) → IsSound db → IsSound (supersede db id version).0
  unfolding supersede supersede_rows
  supersede-IsSound db id version s = record {
    current =
        All-map _ _ _ db.fingerprints
          (λ row c. IsCurrent-move id version _ db.documents row (λ d. refl) (λ d. refl) c)
          s.current;
    signed = All-map _ _ _ db.fingerprints (IsSigned-mark id version) s.signed;
  }
