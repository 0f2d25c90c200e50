-- ===== src/Index/MerkleSqlite/Log.antt =====
-- The log against its disk rows: what the index keeps in memory is what a new process would
-- rebuild, and an added fingerprint has a proof that verifies.
use mathlib.Core.Option.{some-injective}
use mathlib.Core.List.{map-append}
use provenex_core.Prelude.{
  ℕ, zero, suc, ◌+◌, ◌≤◌, ◌≡◌, refl, sym, ◌∙◌, inl, inr, none, some, List, [], ◌∷◌, ◌++◌, map, ok,
  >>=-eq-ok, ok-injective, Bool-cases, arith, ◌==◌, nat_eq, list_eq, get_elem?, length, length-map,
  get_elem?-append_left, get_elem?-append_end, subst, type_error,
}
use provenex_core.Text.{Text}
use provenex_core.Index.{Addition}
use provenex_core.Merkle.{Bytes, MerkleTree, empty_tree, size, hash_leaf, append}
use provenex_core.Merkle.Memo.{nil-IsTrue}
use provenex_core.Merkle.State.{IsValid, append-IsValid}
use provenex_core.Prelude.{Bool}
use provenex_core.Index.Sqlite.{
  Db, add, set_authorization, supersede, canonical_payload, row_fields,
}
use provenex_core.Index.Sqlite.Verdict
use provenex_core.Index.Sqlite.Tables.{text_eq_iff}
use provenex_core.Index.MerkleSqlite.{
  LeafRow, MerkleIndex, index_of, find_leaf, find_row, is_some, or_raise, rebuild, open_index,
  log_row, merkle_add, tree_root, merkle_inclusion_proof,
}

-- The rows are numbered from `n` on.
pub IsNumbered : ℕ → List LeafRow → Type 0
IsNumbered n [] = Unit
IsNumbered n (leaf ∷ leaves) = (leaf.leaf_index ≡ n) × IsNumbered (suc n) leaves

IsNumbered-append :
    (n : ℕ) (leaves : List LeafRow) (leaf : LeafRow)
    → IsNumbered n leaves
    → leaf.leaf_index ≡ n + length leaves
    → IsNumbered n (leaves ++ leaf ∷ [])
unfolding IsNumbered
IsNumbered-append n [] leaf h e = (omega (arith, e), tt)
IsNumbered-append n (l ∷ leaves) leaf h e =
    (h.0, IsNumbered-append (suc n) leaves leaf h.1 (omega (arith, e)))

-- A number past the rows is free.
find_leaf-past :
    (n : ℕ) (leaves : List LeafRow) (i : ℕ)
    → IsNumbered n leaves
    → n + length leaves ≤ i
    → find_leaf leaves i ≡ none
unfolding IsNumbered find_leaf
find_leaf-past n [] i h b = refl
find_leaf-past n (l ∷ leaves) i h b =
    ground (arith, h.0, find_leaf-past (suc n) leaves i h.1 (omega (arith, b)))

pub find_leaf-at :
    (n : ℕ) (leaves : List LeafRow) (i : ℕ) (leaf : LeafRow)
    → IsNumbered n leaves
    → get_elem? leaves i ≡ some leaf
    → find_leaf leaves (n + i) ≡ some leaf
unfolding IsNumbered find_leaf
find_leaf-at n [] i leaf h g = cc
find_leaf-at n (l ∷ leaves) zero leaf h g = ground (arith, h.0)
find_leaf-at n (l ∷ leaves) (suc i) leaf h g =
    ground (arith, h.0, find_leaf-at (suc n) leaves i leaf h.1 g)

module _ (sha256 : Bytes → Bytes) (mac : List ℕ → List ℕ → Text) (secret : List ℕ) where
  rebuild-append :
      (leaves : List LeafRow) (leaf : LeafRow) (td : MerkleTree × List (Text × ℕ))
      → rebuild sha256 mac secret (leaves ++ leaf ∷ []) td ≡ (
        (append sha256 (rebuild sha256 mac secret leaves td).0 leaf.leaf_bytes).0,
        (leaf.fingerprint, leaf.leaf_index) ∷ (rebuild sha256 mac secret leaves td).1,
      )
  unfolding rebuild
  rebuild-append [] leaf td = refl
  rebuild-append (l ∷ leaves) leaf td = rebuild-append leaves leaf _

  -- What the index holds in memory agrees with the rows on disk.
  pub record IsConsistent (s : MerkleIndex) : Type 0 where
    pub numbered : IsNumbered 0 s.merkle_leaves
    pub hashes : s.tree.leaf_hashes ≡ map (λ l. hash_leaf sha256 l.leaf_bytes) s.merkle_leaves
    pub valid : IsValid sha256 s.tree
    pub rebuilt :
        (rebuild sha256 mac secret s.merkle_leaves (empty_tree, [])).0.leaf_hashes
        ≡ s.tree.leaf_hashes
    pub dictionary :
        (rebuild sha256 mac secret s.merkle_leaves (empty_tree, [])).1 ≡ s.leaf_index_by_fp
    pub indexed :
        (fp : Text) (i : ℕ)
        → index_of s.leaf_index_by_fp fp ≡ some i
        → (leaf : LeafRow) × (get_elem? s.merkle_leaves i ≡ some leaf) × (leaf.fingerprint ≡ fp)

  pub length-hashes : (s : MerkleIndex) → IsConsistent s → size s.tree ≡ length s.merkle_leaves
  unfolding size
  length-hashes s c = rw c.hashes (length-map s.merkle_leaves _)

  abbrev pub logged : MerkleIndex → Text → Bytes → MerkleIndex
  logged s fp leaf_bytes = record s {
    merkle_leaves =
        s.merkle_leaves
        ++ record { leaf_index = size s.tree; fingerprint = fp; leaf_bytes = leaf_bytes } ∷ [];
    tree = (append sha256 s.tree leaf_bytes).0;
    leaf_index_by_fp = (fp, size s.tree) ∷ s.leaf_index_by_fp;
  }

  -- The primary key of `merkle_leaves` is never violated.
  pub log_row-returns :
      (s : MerkleIndex) (fp : Text) (leaf_bytes : Bytes)
      → IsConsistent s
      → log_row sha256 mac secret s fp leaf_bytes ≡ ok (logged s fp leaf_bytes)
  unfolding log_row is_some
  log_row-returns s fp leaf_bytes c =
      rw
        (find_leaf-past 0 s.merkle_leaves (size s.tree) c.numbered
          (omega (arith, length-hashes s c)))
        refl

  logged-indexed :
      (s : MerkleIndex) (fp : Text) (leaf_bytes : Bytes)
      → IsConsistent s
      → (f : Text) (i : ℕ) → index_of (logged s fp leaf_bytes).leaf_index_by_fp f ≡ some i
      → (leaf : LeafRow) × (get_elem? (logged s fp leaf_bytes).merkle_leaves i ≡ some leaf)
        × (leaf.fingerprint ≡ f)
  unfolding index_of
  logged-indexed s fp leaf_bytes c f i e = elim (Bool-cases (fp == f)) [
    | inl q ↦
        let leaf : LeafRow = record {
          leaf_index = size s.tree;
          fingerprint = fp;
          leaf_bytes = leaf_bytes;
        } in
        let at : size s.tree ≡ i = some-injective _ _ (rw q at e) in
        (
          leaf,
          subst (λ k. get_elem? (s.merkle_leaves ++ leaf ∷ []) k ≡ some leaf)
              (sym (length-hashes s c) ∙ at) (get_elem?-append_end s.merkle_leaves leaf),
          (text_eq_iff fp f).0 q,
        )
    | inr q ↦
        let (leaf, g, n) = c.indexed f i (rw q at e) in
        (leaf, get_elem?-append_left s.merkle_leaves _ i leaf g, n)
  ]

  logged-IsConsistent :
      (s : MerkleIndex) (fp : Text) (leaf_bytes : Bytes)
      → IsConsistent s
      → IsConsistent (logged s fp leaf_bytes)
  unfolding append size
  logged-IsConsistent s fp leaf_bytes c =
      let leaf : LeafRow = record {
        leaf_index = size s.tree;
        fingerprint = fp;
        leaf_bytes = leaf_bytes;
      } in
      let n = length-hashes s c in
      record {
        numbered = IsNumbered-append 0 s.merkle_leaves leaf c.numbered (omega (arith, n));
        hashes = rw (c.hashes, map-append) refl;
        valid = append-IsValid sha256 s.tree leaf_bytes;
        rebuilt = rw (rebuild-append s.merkle_leaves leaf (empty_tree, []), c.rebuilt) refl;
        dictionary = rw (rebuild-append s.merkle_leaves leaf (empty_tree, []), c.dictionary) refl;
        indexed = logged-indexed s fp leaf_bytes c;
      }

  pub with_base :
      (s : MerkleIndex) (db : Db) → IsConsistent s → IsConsistent (record s { base = db })
  with_base s db c = record {
    numbered = c.numbered;
    hashes = c.hashes;
    valid = c.valid;
    rebuilt = c.rebuilt;
    dictionary = c.dictionary;
    indexed = c.indexed;
  }

  pub with_tree :
      (s : MerkleIndex) (t : MerkleTree)
      → IsConsistent s
      → t.leaf_hashes ≡ s.tree.leaf_hashes
      → IsValid sha256 t
      → IsConsistent (record s { tree = t })
  with_tree s t c e v = record {
    numbered = c.numbered;
    hashes = e ∙ c.hashes;
    valid = v;
    rebuilt = c.rebuilt ∙ sym e;
    dictionary = c.dictionary;
    indexed = c.indexed;
  }

  -- The calls of the index, from a database without a log that calls of the base index led to.
  pub data Reach : MerkleIndex → Type 0 where
    opened : {db : Db} → Verdict.Reach mac secret db → Reach (open_index sha256 mac secret db [])
    added :
        {s s' : MerkleIndex} (a : Addition)
        → Reach s
        → merkle_add sha256 mac secret s a ≡ ok s'
        → Reach s'
    authorization :
        {s : MerkleIndex} (id : Text) (b : Bool)
        → Reach s
        → Reach (record s { base = set_authorization s.base id b })
    supersession :
        {s : MerkleIndex} (id version : Text)
        → Reach s
        → Reach (record s { base = (supersede s.base id version).0 })
    rooted :
        {s s' : MerkleIndex} {h : Text}
        → Reach s
        → tree_root sha256 mac secret s ≡ ok (h, s')
        → Reach s'
    proved :
        {s s' : MerkleIndex} {out : Bytes × ℕ × List Text} (fp : Text)
        → Reach s
        → merkle_inclusion_proof sha256 mac secret s fp ≡ ok (out, s')
        → Reach s'

  pub opened-IsConsistent : (db : Db) → IsConsistent (open_index sha256 mac secret db [])
  unfolding open_index rebuild index_of IsNumbered
  opened-IsConsistent db = record {
    numbered = tt;
    hashes = refl;
    valid = nil-IsTrue sha256 [];
    rebuilt = refl;
    dictionary = refl;
    indexed = λ f i e. cc;
  }

  pub added-IsConsistent :
      (s s' : MerkleIndex) (a : Addition)
      → IsConsistent s
      → merkle_add sha256 mac secret s a ≡ ok s'
      → IsConsistent s'
  unfolding merkle_add
  added-IsConsistent s s' a c e =
      let (db, h, k) = >>=-eq-ok (add mac secret s.base a) _ e in
      let c' = with_base s db c in
      elim (Bool-cases (is_some (find_row a s.base.fingerprints))) [
        | inl q ↦ subst IsConsistent (ok-injective (rw q at k)) c'
        | inr q ↦
            let (row, r, k₁) =
              >>=-eq-ok (or_raise type_error (find_row a db.fingerprints)) _ (rw q at k) in
            let (bytes, p, k₂) = >>=-eq-ok (canonical_payload (row_fields row)) _ k₁ in
            subst IsConsistent
              (ok-injective
                (sym (log_row-returns (record s { base = db }) a.fingerprint bytes c') ∙ k₂))
              (logged-IsConsistent (record s { base = db }) a.fingerprint bytes c')
      ]
