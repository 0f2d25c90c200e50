-- ===== src/Index/Sqlite.antt =====
-- The SQLite index of provenex/index/sqlite_index.py. The two tables are lists of rows, and each
-- SQL statement is a function on them. The rows of a tie in ORDER BY come in table order.
pub mod Tables
pub mod Revoked
pub mod Fresh
pub mod Payload
mod Tests
pub mod Invariant
pub mod Verdict
pub mod Lookup
pub mod Naming
use provenex_core.Prelude.{
  ℕ, ◌+◌, Bool, true, false, not, ◌&&◌, ◌||◌, Option, none, some, List, [], ◌∷◌, ◌++◌, map, Result,
  ok, err, value_error, ◌>>=◌, ◌>>◌, ◌==◌, nat_eq, list_eq, if◌then◌else◌,
}
use provenex_core.Text.{Text, codes, utf8, decimal, starts_with, has_char, join, text_ltb}
use provenex_core.Index.{
  VerificationOutcome, verified, stale, unauthorized, unverified, tampered, IndexEntry, Addition,
  ProvenanceIndex,
}

pub record Document : Type 0 where
  pub document_id : Text
  pub authorized : Bool
  pub current_version : Text

pub record Row : Type 0 where
  pub fingerprint : Text
  pub document_id : Text
  pub document_version : Text
  pub ingested_at : Text
  pub chunk_offset : ℕ
  pub chunk_length : ℕ
  pub superseded : Bool
  pub signature : Text

pub record Db : Type 0 where
  pub documents : List Document
  pub fingerprints : List Row

abbrev pub empty_db : Db
empty_db = record { documents = []; fingerprints = [] }

-- `_validate_signing_field`: newline, carriage return and null are refused.
pub validate_signing_field : Text → Result (Unit {0})
validate_signing_field s =
    if has_char 10 s || has_char 13 s || has_char 0 s then err value_error else ok tt

pub record Signed : Type 0 where
  pub fingerprint : Text
  pub document_id : Text
  pub document_version : Text
  pub ingested_at : Text
  pub chunk_offset : ℕ
  pub chunk_length : ℕ

abbrev pub payload_text : Signed → Text
payload_text f = join 10 (
    f.fingerprint
    ∷ f.document_id
    ∷ f.document_version
    ∷ f.ingested_at
    ∷ decimal f.chunk_offset
    ∷ decimal f.chunk_length
    ∷ [])

unfoldable pub canonical_payload : Signed → Result (List ℕ)
unfolding validate_signing_field
canonical_payload f = do
  validate_signing_field f.fingerprint
  validate_signing_field f.document_id
  validate_signing_field f.document_version
  validate_signing_field f.ingested_at
  ok (utf8 (payload_text f))

-- SELECT … FROM documents WHERE document_id = ?
unfoldable pub find_document : Text → List Document → Option Document
find_document id [] = none
find_document id (d ∷ ds) = if d.document_id == id then some d else find_document id ds

-- UPDATE documents SET … WHERE document_id = ?
pub update_documents : Text → (Document → Document) → List Document → List Document
update_documents id f = map (λ d. if d.document_id == id then f d else d)

abbrev pub outdated : Text → Text → Row → Bool
outdated id version row = row.document_id == id && not (row.document_version == version)

-- UPDATE fingerprints SET superseded = 1 WHERE document_id = ? AND document_version != ?
pub supersede_rows : Text → Text → List Row → List Row
supersede_rows id version =
    map (λ row. if outdated id version row then record row { superseded = true } else row)

pub count_outdated : Text → Text → List Row → ℕ
count_outdated id version [] = 0
count_outdated id version (row ∷ rows) =
    (if outdated id version row then 1 else 0) + count_outdated id version rows

abbrev pub same_key : Row → Row → Bool
same_key a b =
    a.fingerprint == b.fingerprint
    && a.document_id == b.document_id
    && a.document_version == b.document_version

unfoldable pub has_key : Row → List Row → Bool
has_key row [] = false
has_key row (r ∷ rows) = same_key r row || has_key row rows

-- INSERT OR IGNORE INTO fingerprints
unfoldable pub insert_or_ignore : Row → List Row → List Row
unfolding has_key
insert_or_ignore row rows = if has_key row rows then rows else rows ++ row ∷ []

-- The document row of an addition: inserted, moved to a new version, or given its authorization.
pub upsert_document : Addition → Option Document → Db → Db
unfolding update_documents supersede_rows
upsert_document a none db = record db {
  documents =
      db.documents
      ++ record {
        document_id = a.document_id;
        authorized = a.authorized;
        current_version = a.document_version;
      }
        ∷ [];
}
upsert_document a (some existing) db =
    if existing.current_version == a.document_version
    then record db {
      documents =
          update_documents a.document_id (λ d. record d { authorized = a.authorized }) db.documents;
    }
    else record {
      documents =
          update_documents a.document_id
            (λ d. record d { current_version = a.document_version; authorized = a.authorized })
            db.documents;
      fingerprints = supersede_rows a.document_id a.document_version db.fingerprints;
    }

-- ORDER BY f.superseded ASC, f.ingested_at DESC
abbrev pub comes_before : IndexEntry → IndexEntry → Bool
comes_before a b =
    let newer = text_ltb b.ingested_at a.ingested_at in
    if a.superseded
    then (if b.superseded then newer else false)
    else if b.superseded
    then true
    else newer

pub entry : Row → Document → IndexEntry
entry row d = record {
  fingerprint = row.fingerprint;
  document_id = row.document_id;
  document_version = row.document_version;
  ingested_at = row.ingested_at;
  chunk_offset = row.chunk_offset;
  chunk_length = row.chunk_length;
  authorized = d.authorized;
  superseded = row.superseded;
  signature = row.signature;
}

add_entry : Row → Option Document → List IndexEntry → List IndexEntry
unfolding entry
add_entry row none es = es
add_entry row (some d) es = entry row d ∷ es

-- SELECT … FROM fingerprints f JOIN documents d … WHERE f.fingerprint = ?
pub matches : List Document → Text → List Row → List IndexEntry
unfolding add_entry find_document
matches ds fp [] = []
matches ds fp (row ∷ rows) =
    let rest = matches ds fp rows in
    if row.fingerprint == fp then add_entry row (find_document row.document_id ds) rest else rest

pub better : IndexEntry → Option IndexEntry → IndexEntry
better e none = e
better e (some b) = if comes_before b e then b else e

-- ORDER BY … LIMIT 1
pub first_of_order : List IndexEntry → Option IndexEntry
unfolding better
first_of_order [] = none
first_of_order (e ∷ es) = some (better e (first_of_order es))

pub lookup : Db → Text → Option IndexEntry
unfolding matches first_of_order
lookup db fp = first_of_order (matches db.documents fp db.fingerprints)

pub set_authorization : Db → Text → Bool → Db
unfolding update_documents
set_authorization db id authorized = record db {
  documents = update_documents id (λ d. record d { authorized = authorized }) db.documents;
}

pub supersede : Db → Text → Text → Db × ℕ
unfolding update_documents supersede_rows count_outdated
supersede db id new_version = (
  record {
    documents = update_documents id (λ d. record d { current_version = new_version }) db.documents;
    fingerprints = supersede_rows id new_version db.fingerprints;
  },
  count_outdated id new_version db.fingerprints,
)

abbrev pub signed_fields : IndexEntry → Signed
signed_fields e = record {
  fingerprint = e.fingerprint;
  document_id = e.document_id;
  document_version = e.document_version;
  ingested_at = e.ingested_at;
  chunk_offset = e.chunk_offset;
  chunk_length = e.chunk_length;
}

abbrev pub row_fields : Row → Signed
row_fields row = record {
  fingerprint = row.fingerprint;
  document_id = row.document_id;
  document_version = row.document_version;
  ingested_at = row.ingested_at;
  chunk_offset = row.chunk_offset;
  chunk_length = row.chunk_length;
}

-- The fields that an addition signs.
abbrev pub new_fields : Addition → Signed
new_fields a = record {
  fingerprint = a.fingerprint;
  document_id = a.document_id;
  document_version = a.document_version;
  ingested_at = a.now;
  chunk_offset = a.chunk_offset;
  chunk_length = a.chunk_length;
}

abbrev pub new_row : Addition → Text → Row
new_row a signature = record {
  fingerprint = a.fingerprint;
  document_id = a.document_id;
  document_version = a.document_version;
  ingested_at = a.now;
  chunk_offset = a.chunk_offset;
  chunk_length = a.chunk_length;
  superseded = false;
  signature = signature;
}

-- The two statements of `add` that change rows.
abbrev pub store_addition : Addition → Text → Db → Db
store_addition a signature db =
    let db' = upsert_document a (find_document a.document_id db.documents) db in
    record db' { fingerprints = insert_or_ignore (new_row a signature) db'.fingerprints }

-- `mac secret payload` is HMAC-SHA256 in hexadecimal, for any function in its place.
module _ (mac : List ℕ → List ℕ → Text) (secret : List ℕ) where
  unfoldable pub add : Db → Addition → Result Db
  unfolding upsert_document insert_or_ignore canonical_payload
  add db a =
      if not (starts_with a.fingerprint (codes "sha256:"))
      then err value_error
      else if not (starts_with a.document_version (codes "sha256:"))
      then err value_error
      else canonical_payload (new_fields a) >>= λ payload.
          ok (store_addition a (mac secret payload) db)

  pub judge : IndexEntry → List ℕ → VerificationOutcome
  judge e payload =
      if not (mac secret payload == e.signature)
      then tampered
      else if not e.authorized
      then unauthorized
      else if e.superseded
      then stale
      else verified

  pub verify_entry : Option IndexEntry → Result VerificationOutcome
  unfolding canonical_payload judge
  verify_entry none = ok unverified
  verify_entry (some e) = canonical_payload (signed_fields e) >>= λ payload. ok (judge e payload)

  pub verify : Db → Text → Result VerificationOutcome
  unfolding lookup verify_entry
  verify db fp = verify_entry (lookup db fp)

  -- The class as an implementation of the interface.
  abbrev pub sqlite_index : ProvenanceIndex
  sqlite_index = record {
    State = Db;
    add = add;
    lookup = lookup;
    set_authorization = set_authorization;
    supersede = supersede;
    verify = verify;
  }
