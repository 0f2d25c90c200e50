-- ===== src/Index/Sqlite/Tests.antt =====
-- Runs of the index on concrete additions, with a MAC that writes out its key and its message.
use mathlib.Core.List.{Memᴰ}
use provenex_core.Prelude.{
  ℕ, ◌≡◌, ◌≢◌, refl, true, false, List, [], ◌∷◌, ◌++◌, Result, ok, err, Returns, ◌⊎◌, arith,
}
use provenex_core.Text.{Text, codes, utf8, has_char, starts_with, join, decimal}
use provenex_core.Index.{Addition, verified, stale, unauthorized, unverified, tampered}
use provenex_core.Index.Sqlite.{
  Document, Row, Db, empty_db, add, verify, verify_entry, judge, entry, set_authorization,
  supersede, row_fields, new_fields, payload_text, canonical_payload,
}
use provenex_core.Index.Sqlite.Invariant.{IsSound, IsSigned}
use provenex_core.Index.Sqlite.Naming.{IsNamed, has_fingerprint}
use provenex_core.Index.Sqlite.Fresh.{add-verify}
use provenex_core.Index.Sqlite.Revoked.{set_authorization-verify}
use provenex_core.Index.Sqlite.Payload.{HasChars, MacCollision, verify_entry-tampered}
use provenex_core.Index.Sqlite.Verdict.{
  Reach, created, added, Reach-IsSound, Verified, verify-Verified, verify-not-tampered,
}

abbrev toy_mac : List ℕ → List ℕ → Text
toy_mac secret payload = secret ++ payload

abbrev key : List ℕ
key = 7 ∷ []

abbrev first_version : Addition
first_version = record {
  fingerprint = codes "sha256:a";
  document_id = codes "d";
  document_version = codes "sha256:1";
  chunk_offset = 0;
  chunk_length = 10;
  authorized = true;
  now = codes "2024";
}

abbrev second_version : Addition
second_version = record first_version {
  document_version = codes "sha256:2";
  fingerprint = codes "sha256:b";
  now = codes "2025";
}

abbrev or_empty_db : Result Db → Db
or_empty_db (ok db) = db
or_empty_db (err e) = empty_db

db_one : Db
unfolding add
db_one = or_empty_db (add toy_mac key empty_db first_version)

db_two : Db
unfolding add db_one
db_two = or_empty_db (add toy_mac key db_one second_version)

db_one-Reach : Reach toy_mac key db_one
unfolding db_one add provenex_core.Text.starts_with provenex_core.Text.has_char
db_one-Reach = added first_version created refl

db_two-Reach : Reach toy_mac key db_two
unfolding db_two add provenex_core.Text.starts_with provenex_core.Text.has_char
db_two-Reach = added second_version db_one-Reach refl

verified_run : verify toy_mac key db_two (codes "sha256:b") ≡ ok verified
unfolding verify db_two provenex_core.Text.starts_with provenex_core.Text.has_char
    provenex_core.Text.utf8 provenex_core.Text.join provenex_core.Text.decimal
verified_run = refl

stale_run : verify toy_mac key db_two (codes "sha256:a") ≡ ok stale
unfolding verify db_two provenex_core.Text.starts_with provenex_core.Text.has_char
    provenex_core.Text.utf8 provenex_core.Text.join provenex_core.Text.decimal
stale_run = refl

unauthorized_run :
    verify toy_mac key (set_authorization db_two (codes "d") false) (codes "sha256:b")
    ≡ ok unauthorized
unfolding verify db_two set_authorization provenex_core.Text.starts_with provenex_core.Text.has_char
    provenex_core.Text.utf8 provenex_core.Text.join provenex_core.Text.decimal
unauthorized_run = refl

unverified_run : verify toy_mac key db_two (codes "sha256:c") ≡ ok unverified
unfolding verify db_two provenex_core.Text.starts_with provenex_core.Text.has_char
unverified_run = refl

other_key_run : verify toy_mac (8 ∷ []) db_two (codes "sha256:b") ≡ ok tampered
unfolding verify db_two provenex_core.Text.starts_with provenex_core.Text.has_char
other_key_run = refl

Reach-IsSound_example : IsSound toy_mac key db_two
Reach-IsSound_example = Reach-IsSound toy_mac key db_two-Reach

verify-Verified_example : Verified toy_mac key db_two (codes "sha256:b")
verify-Verified_example =
    verify-Verified toy_mac key db_two (codes "sha256:b") db_two-Reach verified_run

verify-not-tampered_example :
    Returns (λ o. o ≢ tampered) (verify toy_mac key db_two (codes "sha256:a"))
verify-not-tampered_example = verify-not-tampered toy_mac key db_two (codes "sha256:a") db_two-Reach

-- The first version is added again after the second: its row stays marked as superseded.
db_three : Db
unfolding db_two add
db_three = or_empty_db (add toy_mac key db_two first_version)

readded_run : verify toy_mac key db_three (codes "sha256:a") ≡ ok stale
unfolding verify db_three starts_with has_char utf8 join decimal
readded_run = refl

set_authorization-verify_example :
    (row : Row) × Memᴰ row (set_authorization db_two (codes "e") false).fingerprints
    × (row.fingerprint ≡ codes "sha256:b")
    × (row.document_id ≢ codes "e")
unfolding verify db_two set_authorization starts_with has_char utf8 join decimal
set_authorization-verify_example =
    set_authorization-verify toy_mac key db_two (codes "e") (codes "sha256:b") db_two-Reach refl

false-ne-true : false ≡ true → ⊥
false-ne-true h = cc

add-verify_example : verify toy_mac key db_two (codes "sha256:b") ≡ ok verified
unfolding IsNamed has_fingerprint db_one db_two add starts_with has_char
    provenex_core.Index.Sqlite.find_document
add-verify_example =
    add-verify toy_mac key db_one db_two second_version db_one-Reach false-ne-true refl

abbrev signed_row : Row
signed_row = record {
  fingerprint = codes "sha256:a";
  document_id = codes "d";
  document_version = codes "sha256:1";
  ingested_at = codes "2024";
  chunk_offset = 0;
  chunk_length = 10;
  superseded = false;
  signature = key ++ utf8 (payload_text (new_fields first_version));
}

signed_row-IsSigned : IsSigned toy_mac key signed_row
unfolding canonical_payload has_char
signed_row-IsSigned = record {
  payload = utf8 (payload_text (new_fields first_version));
  canonical = refl;
  mac_of = refl;
}

signed_row-HasChars : HasChars (row_fields signed_row)
signed_row-HasChars = record {
  fingerprint = ground arith;
  document_id = ground arith;
  document_version = ground arith;
  ingested_at = ground arith;
}

abbrev some_document : Document
some_document = record {
  document_id = codes "d";
  authorized = false;
  current_version = codes "sha256:1";
}

verify_entry-tampered_example :
    (row_fields (record signed_row { superseded = true }) ≡ row_fields signed_row)
    ⊎ MacCollision toy_mac key
unfolding verify_entry canonical_payload has_char judge entry utf8 join decimal
verify_entry-tampered_example =
    verify_entry-tampered toy_mac key signed_row (record signed_row { superseded = true })
      some_document unauthorized signed_row-IsSigned signed_row-HasChars signed_row-HasChars refl
      refl (λ h. cc)
