-- ===== src/Index/MerkleSqlite/Tests.antt =====
-- A run of the transparency log over small functions in the place of SHA-256 and HMAC.
use provenex_core.Prelude.{
  ℕ, ◌+◌, ◌*◌, ◌%◌, ◌≡◌, refl, true, some, none, List, [], ◌∷◌, ◌++◌, Result, ok, err, Returns,
  key_error,
}
use provenex_core.Text.{Text, codes, starts_with, has_char}
use provenex_core.Index.{Addition}
use provenex_core.Merkle.{Bytes, size, append}
use provenex_core.Index.Sqlite.{empty_db, add, find_document}
use provenex_core.Index.MerkleSqlite.{
  MerkleIndex, open_index, merkle_add, index_of, merkle_inclusion_proof, tree_size,
}
use provenex_core.Index.Sqlite.Verdict.{created}
use provenex_core.Index.MerkleSqlite.Log.{Reach, opened, added}
use provenex_core.Index.MerkleSqlite.Adds.{Logs, merkle_add-Logs}
use provenex_core.Index.MerkleSqlite.Proofs.{
  open_index-same, Convinces, merkle_inclusion_proof-Convinces,
}

abbrev toy_digest : Bytes → ℕ
toy_digest [] = 7
toy_digest (b ∷ bs) = (b + 1 + 3 * toy_digest bs) % 251

abbrev toy_hash : Bytes → Bytes
toy_hash bs = toy_digest bs ∷ []

abbrev log_mac : List ℕ → List ℕ → Text
log_mac secret payload = secret ++ payload

abbrev log_key : List ℕ
log_key = 7 ∷ []

abbrev chunk_a : Addition
chunk_a = record {
  fingerprint = codes "sha256:a";
  document_id = codes "d";
  document_version = codes "sha256:1";
  chunk_offset = 0;
  chunk_length = 10;
  authorized = true;
  now = codes "2024";
}

abbrev chunk_b : Addition
chunk_b = record chunk_a { fingerprint = codes "sha256:b"; chunk_offset = 10 }

abbrev opened_log : MerkleIndex
opened_log = open_index toy_hash log_mac log_key empty_db []

abbrev or_opened : Result MerkleIndex → MerkleIndex
or_opened (ok s) = s
or_opened (err e) = opened_log

log_one : MerkleIndex
unfolding merkle_add
log_one = or_opened (merkle_add toy_hash log_mac log_key opened_log chunk_a)

log_two : MerkleIndex
unfolding merkle_add log_one
log_two = or_opened (merkle_add toy_hash log_mac log_key log_one chunk_b)

log_one-Reach : Reach toy_hash log_mac log_key log_one
unfolding merkle_add log_one add open_index find_document starts_with has_char
log_one-Reach = added chunk_a (opened created) refl

log_two-Reach : Reach toy_hash log_mac log_key log_two
unfolding merkle_add log_one log_two add open_index find_document starts_with has_char size append
log_two-Reach = added chunk_b log_one-Reach refl

two_leaves : tree_size toy_hash log_mac log_key log_two ≡ 2
unfolding tree_size log_two size add starts_with has_char open_index find_document append
two_leaves = refl

open_index-same_example :
    ((open_index toy_hash log_mac log_key log_two.base log_two.merkle_leaves).tree.leaf_hashes
      ≡ log_two.tree.leaf_hashes)
    × ((open_index toy_hash log_mac log_key log_two.base log_two.merkle_leaves).leaf_index_by_fp
        ≡ log_two.leaf_index_by_fp)
open_index-same_example = open_index-same toy_hash log_mac log_key log_two-Reach

merkle_inclusion_proof-Convinces_example :
    ((i : ℕ)
      → index_of log_two.leaf_index_by_fp (codes "sha256:b") ≡ some i
      → Returns
          (Convinces toy_hash log_mac log_key log_two (codes "sha256:b") i)
          (merkle_inclusion_proof toy_hash log_mac log_key log_two (codes "sha256:b")))
    × (index_of log_two.leaf_index_by_fp (codes "sha256:b") ≡ none
        → merkle_inclusion_proof toy_hash log_mac log_key log_two (codes "sha256:b")
          ≡ err key_error)
merkle_inclusion_proof-Convinces_example =
    merkle_inclusion_proof-Convinces toy_hash log_mac log_key log_two-Reach (codes "sha256:b")

b_is_logged : index_of log_two.leaf_index_by_fp (codes "sha256:b") ≡ some 1
unfolding log_two index_of add starts_with has_char open_index find_document size append
b_is_logged = refl

merkle_add-Logs_example :
    Returns
      (Logs toy_hash log_mac log_key log_one chunk_b log_two.base)
      (merkle_add toy_hash log_mac log_key log_one chunk_b)
unfolding merkle_add log_one log_two add open_index find_document starts_with has_char size append
merkle_add-Logs_example =
    merkle_add-Logs toy_hash log_mac log_key chunk_b log_two.base log_one-Reach refl
