-- ===== src/Index/MerkleSqlite/Proofs.antt =====
-- After any calls: a new process rebuilds the same log, and every fingerprint of the log has a
-- proof that verifies.
use provenex_core.Prelude.{
  ℕ, ◌+◌, ◌<◌, ◌≡◌, refl, ap, true, none, some, List, map, ok, err, Returns, returns, Returns-value,
  Returns-at, >>=-eq-ok, ok-injective, Option-cases, inl, inr, arith, nat_eq, list_eq, get_elem?,
  get_elem?-map, lt-length_of_get_elem?, subst, pos, key_error, type_error,
}
use provenex_core.Text.{Text}
use provenex_core.Merkle.{Bytes, size, hash_leaf, root, inclusion_proof, verify_inclusion_proof}
use provenex_core.Merkle.State.{root-IsRoot, inclusion_proof-IsProof}
use provenex_core.Merkle.Complete.{verify-inclusion_proof}
use provenex_core.Index.Sqlite.{set_authorization, supersede}
use provenex_core.Index.MerkleSqlite.{
  LeafRow, MerkleIndex, index_of, find_leaf, or_raise, open_index, tree_size, tree_root,
  merkle_inclusion_proof, hex_form,
}
use provenex_core.Index.MerkleSqlite.Log.{
  IsConsistent, Reach, opened, authorization, supersession, with_base, added, rooted, proved,
  opened-IsConsistent, added-IsConsistent, with_tree, length-hashes, find_leaf-at,
}

module _ (sha256 : Bytes → Bytes) (mac : List ℕ → List ℕ → Text) (secret : List ℕ) where
  abbrev Consistent : MerkleIndex → Type 0
  Consistent s = IsConsistent sha256 mac secret s

  rooted-IsConsistent :
      (s s' : MerkleIndex) (h : Text)
      → Consistent s
      → tree_root sha256 mac secret s ≡ ok (h, s')
      → Consistent s'
  unfolding tree_root
  rooted-IsConsistent s s' h c e =
      let (out, r, k) = >>=-eq-ok (root sha256 s.tree) _ e in
      let w = Returns-at (root-IsRoot sha256 s.tree c.valid) r in
      subst Consistent (ap (λ p. p.1) (ok-injective k))
        (with_tree sha256 mac secret s out.1 c w.leaves w.valid)

  -- An index that the dictionary holds is that of a leaf.
  indexed-lt :
      (s : MerkleIndex) (fp : Text) (i : ℕ)
      → Consistent s
      → index_of s.leaf_index_by_fp fp ≡ some i
      → i < size s.tree
  indexed-lt s fp i c e =
      let (leaf, g, n) = c.indexed fp i e in
      omega (arith, lt-length_of_get_elem? s.merkle_leaves i g, length-hashes sha256 mac secret s c)

  proved-IsConsistent :
      (s s' : MerkleIndex) (out : Bytes × ℕ × List Text) (fp : Text)
      → Consistent s
      → merkle_inclusion_proof sha256 mac secret s fp ≡ ok (out, s')
      → Consistent s'
  unfolding merkle_inclusion_proof or_raise
  proved-IsConsistent s s' out fp c e = elim (Option-cases (index_of s.leaf_index_by_fp fp)) [
    | inl n ↦ cc (rw n at e)
    | inr (i, n) ↦
        let (pt, r, k) = >>=-eq-ok (inclusion_proof sha256 s.tree (pos i)) _ (rw n at e) in
        let w =
          Returns-at (inclusion_proof-IsProof sha256 s.tree i c.valid (indexed-lt s fp i c n)) r in
        let (leaf, f, m) = >>=-eq-ok (or_raise type_error (find_leaf s.merkle_leaves i)) _ k in
        subst Consistent (ap (λ p. p.1) (ok-injective m))
          (with_tree sha256 mac secret s pt.1 c w.leaves w.valid)
  ]

  pub Reach-IsConsistent : {s : MerkleIndex} → Reach sha256 mac secret s → Consistent s
  Reach-IsConsistent (opened {db} r) = opened-IsConsistent sha256 mac secret db
  Reach-IsConsistent (authorization {s} id b r) =
      with_base sha256 mac secret s (set_authorization s.base id b) (Reach-IsConsistent r)
  Reach-IsConsistent (supersession {s} id version r) =
      with_base sha256 mac secret s (supersede s.base id version).0 (Reach-IsConsistent r)
  Reach-IsConsistent (added {s} {s'} a r e) =
      added-IsConsistent sha256 mac secret s s' a (Reach-IsConsistent r) e
  Reach-IsConsistent (rooted {s} {s'} {h} r e) = rooted-IsConsistent s s' h (Reach-IsConsistent r) e
  Reach-IsConsistent (proved {s} {s'} {out} fp r e) =
      proved-IsConsistent s s' out fp (Reach-IsConsistent r) e

  -- After any calls, a new process that opens the database has the same leaf hashes and the same
  -- dictionary as the one that wrote it.
  pub open_index-same :
      {s : MerkleIndex}
      → Reach sha256 mac secret s
      → ((open_index sha256 mac secret s.base s.merkle_leaves).tree.leaf_hashes
          ≡ s.tree.leaf_hashes)
        × ((open_index sha256 mac secret s.base s.merkle_leaves).leaf_index_by_fp
            ≡ s.leaf_index_by_fp)
  unfolding open_index
  open_index-same r = let c = Reach-IsConsistent r in (c.rebuilt, c.dictionary)

  -- An answer of `inclusion_proof` that convinces: its leaf is the fingerprint's, and its printed
  -- path is one that verifies against the tree's root.
  pub record Convinces (s : MerkleIndex) (fp : Text) (i : ℕ)
      (out : (Bytes × ℕ × List Text) × MerkleIndex) : Type 0 where
    pub leaf : LeafRow
    pub path : List Bytes
    pub head : Bytes
    pub of_log : get_elem? s.merkle_leaves i ≡ some leaf
    pub about : leaf.fingerprint ≡ fp
    pub answer : out.0 ≡ (leaf.leaf_bytes, i, map hex_form path)
    pub rooted : Returns (λ (h, t). h ≡ head) (root sha256 out.1.tree)
    pub verifies :
        verify_inclusion_proof sha256 leaf.leaf_bytes
          (pos i)
          (pos (tree_size sha256 mac secret s))
          path
          head
        ≡ true

  Convinces-of :
      (s : MerkleIndex) (fp : Text) (i : ℕ)
      → Consistent s
      → index_of s.leaf_index_by_fp fp ≡ some i
      → Returns (Convinces s fp i) (merkle_inclusion_proof sha256 mac secret s fp)
  unfolding merkle_inclusion_proof or_raise tree_size
  Convinces-of s fp i c n =
      let (leaf, g, m) = c.indexed fp i n in
      let (pt, r, w) =
        Returns-value (inclusion_proof-IsProof sha256 s.tree i c.valid (indexed-lt s fp i c n)) in
      let (ht, q, z) = Returns-value (root-IsRoot sha256 pt.1 w.valid) in
      let hashed : get_elem? s.tree.leaf_hashes i ≡ some (hash_leaf sha256 leaf.leaf_bytes) =
        rw (c.hashes, get_elem?-map, g) refl in
      let v = verify-inclusion_proof sha256 s.tree i leaf.leaf_bytes c.valid hashed in
      let at_zero : 0 + i ≡ i = omega arith in
      let f =
        subst (λ k. find_leaf s.merkle_leaves k ≡ some leaf) at_zero
          (find_leaf-at 0 s.merkle_leaves i leaf c.numbered g) in
      rw (n, r, f)
        (returns (record {
          leaf = leaf;
          path = pt.0;
          head = ht.0;
          of_log = g;
          about = m;
          answer = refl;
          rooted = rw q (returns refl);
          verifies = Returns-at v (rw (r, q) refl);
        }))

  missing-raises :
      (s : MerkleIndex) (fp : Text)
      → index_of s.leaf_index_by_fp fp ≡ none
      → merkle_inclusion_proof sha256 mac secret s fp ≡ err key_error
  unfolding merkle_inclusion_proof or_raise
  missing-raises s fp n = rw n refl

  -- After any calls: `inclusion_proof` returns for a fingerprint of the log, with the bytes of
  -- the leaf that the dictionary names, which is the fingerprint's, and a path that
  -- `verify_inclusion_proof` accepts against the root that `root` then returns, and raises KeyError
  -- for every other fingerprint.
  pub merkle_inclusion_proof-Convinces :
      {s : MerkleIndex}
      → Reach sha256 mac secret s
      → (fp : Text)
      → ((i : ℕ)
          → index_of s.leaf_index_by_fp fp ≡ some i
          → Returns (Convinces s fp i) (merkle_inclusion_proof sha256 mac secret s fp))
        × (index_of s.leaf_index_by_fp fp ≡ none
            → merkle_inclusion_proof sha256 mac secret s fp ≡ err key_error)
  merkle_inclusion_proof-Convinces {s} r fp =
      (λ i n. Convinces-of s fp i (Reach-IsConsistent r) n, λ n. missing-raises s fp n)
