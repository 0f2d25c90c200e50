-- ===== src/Merkle/State.antt =====
-- The tree as an object: its operations keep the memo true, and its root is the RFC 6962 hash.
use provenex_core.Prelude.{
  ℕ, ◌<◌, ◌≡◌, refl, false, List, [], pos, negsuc, arith, length, leb, ◌==◌, nat_eq, err,
  index_error, Returns, returns, Returns-bind, inl, inr, Bool-cases,
}
use provenex_core.Merkle.{Bytes, MerkleTree, size, append, root, inclusion_proof}
use provenex_core.Merkle.Spec.{Mth, AuditPath}
use provenex_core.Merkle.Memo.{IsTrue, nil-IsTrue, mth-Hashed}
use provenex_core.Merkle.Paths.{proof-Audited}

module _ (sha256 : Bytes → Bytes) where
  abbrev pub IsValid : MerkleTree → Type 0
  IsValid t = IsTrue sha256 t.leaf_hashes t.mth_cache

  -- What `root` answers: the hash of all leaves, or that of the empty string.
  pub record IsRoot (t : MerkleTree) (out : Bytes × MerkleTree) : Type 0 where
    pub of_none : size t ≡ 0 → out.0 ≡ sha256 []
    pub of_some : 0 < size t → Mth sha256 t.leaf_hashes 0 (size t) out.0
    pub leaves : out.1.leaf_hashes ≡ t.leaf_hashes
    pub valid : IsValid out.1

  pub root-IsRoot : (t : MerkleTree) → IsValid t → Returns (IsRoot t) (root sha256 t)
  unfolding root size
  root-IsRoot t v = elim (Bool-cases (size t == 0)) [
    | inl e ↦ rw e (
        returns (record {
          of_none = λ _. refl;
          of_some = λ p. absurd (ground arith);
          leaves = refl;
          valid = v;
        }))
    | inr e ↦ rw e (
        Returns-bind
          (mth-Hashed sha256 (length t.leaf_hashes) t.leaf_hashes 0 (length t.leaf_hashes)
            (length t.leaf_hashes) t.mth_cache (omega arith) (omega arith) (ground arith)
            (omega arith) v)
          λ (h, c) u. returns (record {
            of_none = λ z. absurd (ground arith);
            of_some = λ _. u.hash;
            leaves = refl;
            valid = u.memo;
          }))
  ]

  pub record IsProof (t : MerkleTree) (i : ℕ) (out : List Bytes × MerkleTree) : Type 0 where
    pub path : AuditPath sha256 t.leaf_hashes 0 (size t) i out.0
    pub leaves : out.1.leaf_hashes ≡ t.leaf_hashes
    pub valid : IsValid out.1

  pub inclusion_proof-IsProof :
      (t : MerkleTree) (i : ℕ)
      → IsValid t
      → i < size t
      → Returns (IsProof t i) (inclusion_proof sha256 t (pos i))
  unfolding inclusion_proof size
  inclusion_proof-IsProof t i v b =
      let e : leb (length t.leaf_hashes) i ≡ false = ground arith in
      rw e (
        Returns-bind
          (proof-Audited sha256 (length t.leaf_hashes) t.leaf_hashes i 0 (length t.leaf_hashes)
            (length t.leaf_hashes) i t.mth_cache (omega arith) (omega arith) b (omega arith)
            (omega arith) v)
          λ (p, c) u. returns (record { path = u.path; leaves = refl; valid = u.memo }))

  pub append-IsValid : (t : MerkleTree) (leaf : Bytes) → IsValid (append sha256 t leaf).0
  unfolding append
  append-IsValid t leaf = nil-IsTrue sha256 _

  pub inclusion_proof-out_of_range :
      (t : MerkleTree) (i : ℕ) → ¬ (i < size t) → inclusion_proof sha256 t (pos i) ≡ err index_error
  unfolding inclusion_proof
  inclusion_proof-out_of_range t i b = ground arith

  pub inclusion_proof-negative :
      (t : MerkleTree) (i : ℕ) → inclusion_proof sha256 t (negsuc i) ≡ err index_error
  unfolding inclusion_proof
  inclusion_proof-negative t i = refl
