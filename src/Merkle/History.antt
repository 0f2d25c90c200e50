-- ===== src/Merkle/History.antt =====
-- A tree after any sequence of calls.
use mathlib.Core.List.{append-nil, append_assoc, map-append}
use native.Mathlib.Decide.{dec_lt}
use provenex_core.Prelude.{
  ◌≡◌, refl, ◌∙◌, List, [], ◌∷◌, ◌++◌, map, ℤ, pos, negsuc, Result, ok, err, Returns-value,
}
use provenex_core.Merkle.{
  Bytes, MerkleTree, empty_tree, size, append, root, inclusion_proof, hash_leaf,
}
use provenex_core.Merkle.Memo.{nil-IsTrue}
use provenex_core.Merkle.State.{
  IsValid, root-IsRoot, inclusion_proof-IsProof, inclusion_proof-out_of_range,
  inclusion_proof-negative,
}

pub data Call : Type 0 where
  append_leaf : Bytes → Call
  ask_root : Call
  ask_proof : ℤ → Call

abbrev pub appended : List Call → List Bytes
appended [] = []
appended (append_leaf leaf ∷ calls) = leaf ∷ appended calls
appended (ask_root ∷ calls) = appended calls
appended (ask_proof i ∷ calls) = appended calls

-- A call that raises leaves the tree as it was.
left_by {ℓ} : {A : Type ℓ} → MerkleTree → Result (A × MerkleTree) → MerkleTree
left_by t (ok (a, t')) = t'
left_by t (err e) = t

module _ (sha256 : Bytes → Bytes) where
  pub call : MerkleTree → Call → MerkleTree
  unfolding left_by
  call t (append_leaf leaf) = (append sha256 t leaf).0
  call t ask_root = left_by t (root sha256 t)
  call t (ask_proof i) = left_by t (inclusion_proof sha256 t i)

  pub run : MerkleTree → List Call → MerkleTree
  unfolding call
  run t [] = t
  run t (c ∷ calls) = run (call t c) calls

  -- The memo is true, and the leaf hashes are those of `leaves`.
  pub record Holds (leaves : List Bytes) (t : MerkleTree) : Type 0 where
    pub valid : IsValid sha256 t
    pub hashes : t.leaf_hashes ≡ map (hash_leaf sha256) leaves

  call-append :
      (leaves : List Bytes) (t : MerkleTree) (leaf : Bytes)
      → Holds leaves t
      → Holds (leaves ++ leaf ∷ []) (append sha256 t leaf).0
  unfolding append
  call-append leaves t leaf h = record {
    valid = nil-IsTrue sha256 _;
    hashes = rw (h.hashes, map-append);
  }

  call-root :
      (leaves : List Bytes) (t : MerkleTree)
      → Holds leaves t
      → Holds leaves (left_by t (root sha256 t))
  unfolding left_by
  call-root leaves t h =
      let ((r, t'), e, w) = Returns-value (root-IsRoot sha256 t h.valid) in
      rw e (record { valid = w.valid; hashes = w.leaves ∙ h.hashes })

  call-proof :
      (leaves : List Bytes) (t : MerkleTree) (i : ℤ)
      → Holds leaves t
      → Holds leaves (left_by t (inclusion_proof sha256 t i))
  unfolding left_by
  call-proof leaves t (negsuc i) h = rw (inclusion_proof-negative sha256 t i) h
  call-proof leaves t (pos i) h = elim (dec_lt i (size t)) [
    | no out ↦ rw (inclusion_proof-out_of_range sha256 t i out) h
    | yes b ↦
        let ((r, t'), e, w) = Returns-value (inclusion_proof-IsProof sha256 t i h.valid b) in
        rw e (record { valid = w.valid; hashes = w.leaves ∙ h.hashes })
  ]

  run-Holds :
      (leaves : List Bytes) (t : MerkleTree) (calls : List Call)
      → Holds leaves t
      → Holds (leaves ++ appended calls) (run t calls)
  unfolding run
  run-Holds leaves t [] h = rw append-nil h
  run-Holds leaves t (append_leaf leaf ∷ calls) h =
      rw (← append_assoc leaves (leaf ∷ []) (appended calls))
        (run-Holds (leaves ++ leaf ∷ []) _ calls (call-append leaves t leaf h))
  run-Holds leaves t (ask_root ∷ calls) h = run-Holds leaves _ calls (call-root leaves t h)
  run-Holds leaves t (ask_proof i ∷ calls) h = run-Holds leaves _ calls (call-proof leaves t i h)

  -- After any calls on a new tree, the memo holds true hashes only, and the leaves are exactly the
  -- leaves that were appended, in order: a later append never leaves a stale hash behind.
  pub run-empty_tree : (calls : List Call) → Holds (appended calls) (run empty_tree calls)
  run-empty_tree calls =
      run-Holds [] empty_tree calls (record { valid = nil-IsTrue sha256 []; hashes = refl })
