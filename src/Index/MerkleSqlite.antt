-- ===== src/Index/MerkleSqlite.antt =====
-- The SQLite index with a transparency log, provenex/index/merkle_sqlite_index.py. The rows of
-- `merkle_leaves` are in the order of their insertion, which is that of `leaf_index`.
mod Tests
pub mod Log
pub mod Proofs
pub mod Adds
use provenex_core.Prelude.{
  ℕ, Bool, true, false, Option, none, some, List, [], ◌∷◌, ◌++◌, map, Result, ok, err, Error,
  key_error, type_error, integrity_error, ◌>>=◌, ◌==◌, nat_eq, list_eq, if◌then◌else◌, ◌&&◌, ◌||◌,
  ℤ, pos,
}
use provenex_core.Text.{Text, codes, hex}
use provenex_core.Index.{Addition}
use provenex_core.Merkle.{Bytes, MerkleTree, empty_tree, size, append, root, inclusion_proof}
use provenex_core.Index.Sqlite.{Row, Db, empty_db, canonical_payload, Signed, add, row_fields}

-- A row of `merkle_leaves`.
pub record LeafRow : Type 0 where
  pub leaf_index : ℕ
  pub fingerprint : Text
  pub leaf_bytes : Bytes

pub record MerkleIndex : Type 0 where
  pub base : Db
  pub merkle_leaves : List LeafRow
  pub tree : MerkleTree
  pub leaf_index_by_fp : List (Text × ℕ)

-- The dictionary `_leaf_index_by_fp`, its newest entry first.
pub index_of : List (Text × ℕ) → Text → Option ℕ
index_of [] fp = none
index_of ((f, i) ∷ rest) fp = if f == fp then some i else index_of rest fp

abbrev pub hex_form : Bytes → Text
hex_form b = codes "sha256:" ++ hex b

-- SELECT … FROM fingerprints WHERE fingerprint = ? AND document_id = ? AND document_version = ?
pub find_row : Addition → List Row → Option Row
find_row a [] = none
find_row a (row ∷ rows) =
    if row.fingerprint == a.fingerprint
      && row.document_id == a.document_id
      && row.document_version == a.document_version
    then some row
    else find_row a rows

-- SELECT leaf_bytes FROM merkle_leaves WHERE leaf_index = ?
pub find_leaf : List LeafRow → ℕ → Option LeafRow
find_leaf [] i = none
find_leaf (leaf ∷ leaves) i = if leaf.leaf_index == i then some leaf else find_leaf leaves i

pub is_some {ℓ} : {A : Type ℓ} → Option A → Bool
is_some none = false
is_some (some a) = true

pub or_raise {ℓ} : {A : Type ℓ} → Error → Option A → Result A
or_raise e none = err e
or_raise e (some a) = ok a

module _ (sha256 : Bytes → Bytes) (mac : List ℕ → List ℕ → Text) (secret : List ℕ) where
  -- `_rebuild_tree_from_disk`, from the tree and the dictionary so far
  pub rebuild : List LeafRow → MerkleTree × List (Text × ℕ) → MerkleTree × List (Text × ℕ)
  rebuild [] (t, d) = (t, d)
  rebuild (leaf ∷ leaves) (t, d) =
      rebuild leaves ((append sha256 t leaf.leaf_bytes).0, (leaf.fingerprint, leaf.leaf_index) ∷ d)

  -- `__init__` on a database that holds these rows
  pub open_index : Db → List LeafRow → MerkleIndex
  unfolding rebuild
  open_index db leaves =
      let (t, d) = rebuild leaves (empty_tree, []) in
      record { base = db; merkle_leaves = leaves; tree = t; leaf_index_by_fp = d }

  -- The log entry of a row just written. A second row of one index violates the primary key.
  pub log_row : MerkleIndex → Text → Bytes → Result MerkleIndex
  unfolding find_leaf is_some
  log_row s fp leaf_bytes =
      let i = size s.tree in
      if is_some (find_leaf s.merkle_leaves i)
      then err integrity_error
      else ok (record s {
        merkle_leaves =
            s.merkle_leaves
            ++ record { leaf_index = i; fingerprint = fp; leaf_bytes = leaf_bytes } ∷ [];
        tree = (append sha256 s.tree leaf_bytes).0;
        leaf_index_by_fp = (fp, i) ∷ s.leaf_index_by_fp;
      })

  pub merkle_add : MerkleIndex → Addition → Result MerkleIndex
  unfolding find_row is_some log_row or_raise
  merkle_add s a =
      let existed = is_some (find_row a s.base.fingerprints) in
      add mac secret s.base a >>= λ db.
      if existed
      then ok (record s { base = db })
      else or_raise type_error (find_row a db.fingerprints) >>= λ row.
          canonical_payload (row_fields row) >>= λ leaf_bytes.
          log_row (record s { base = db }) a.fingerprint leaf_bytes

  pub tree_size : MerkleIndex → ℕ
  tree_size s = size s.tree

  pub tree_root : MerkleIndex → Result (Text × MerkleIndex)
  tree_root s = root sha256 s.tree >>= λ (h, t). ok (hex_form h, record s { tree = t })

  -- The leaf, its index, and the audit path; the path also before it is printed.
  pub merkle_inclusion_proof : MerkleIndex → Text → Result ((Bytes × ℕ × List Text) × MerkleIndex)
  unfolding index_of find_leaf or_raise
  merkle_inclusion_proof s fp = or_raise key_error (index_of s.leaf_index_by_fp fp) >>= λ i.
      inclusion_proof sha256 s.tree (pos i) >>= λ (p, t).
      or_raise type_error (find_leaf s.merkle_leaves i) >>= λ leaf.
      ok ((leaf.leaf_bytes, i, map hex_form p), record s { tree = t })
