-- ===== src/Merkle/Complete.antt =====
-- Every proof that the tree hands out is accepted against its root, and is short.
use mathlib.Core.Option.{some-injective}
use provenex_core.Prelude.{
  ℕ, ◌+◌, ◌-◌, ◌*◌, ◌^◌, ◌≤◌, ◌<◌, ◌≡◌, ap, sym, subst, ◌∙◌, true, some, List, [], ◌∷◌, pos, arith,
  length, get_elem?, length-append, lt-length_of_get_elem?, nat_eq, list_eq, ==_refl, ok, ◌>>=◌,
  Returns, returns, Returns-bind, Returns-map,
}
use provenex_core.Merkle.{
  Bytes, MerkleTree, size, root, inclusion_proof, hash_leaf, verify_inclusion_proof, walk,
}
use provenex_core.Merkle.Split.{pow_suc}
use provenex_core.Merkle.Spec.{Mth, AuditPath, alone, left, right, Mth-unique, Mth-leaf, Mth-Halves}
use provenex_core.Merkle.Climb.{Climb, here, from_left, from_right, at, lt-pow}
use provenex_core.Merkle.Loop.{walk_edge, SplitsAt-lt}
use provenex_core.Merkle.State.{IsValid, root-IsRoot, inclusion_proof-IsProof}

module _ (sha256 : Bytes → Bytes) where
  -- The hashes along a path and those of the tree are the same.
  AuditPath-Climb :
      (hs : List Bytes) {lo n m : ℕ} {p : List Bytes} {g h : Bytes}
      → AuditPath sha256 hs lo n m p
      → Mth sha256 hs lo n h
      → m < n
      → get_elem? hs (lo + m) ≡ some g
      → Climb sha256 n m p g h
  AuditPath-Climb hs {m} (alone e q) t b f =
      let z : m ≡ 0 = omega arith in
      here e z q
        (some-injective _ _ (sym (Mth-leaf sha256 hs e t) ∙ ap (get_elem? hs) (omega arith) ∙ f))
  AuditPath-Climb hs (left d q y s l k z e) t b f =
      let w = Mth-Halves sha256 hs d s t in
      from_left d q w.x y s l (AuditPath-Climb hs k w.lower l f) e
        (rw (Mth-unique sha256 hs z w.upper) w.join)
  AuditPath-Climb hs (right d q x s l k z e) t b f =
      let w = Mth-Halves sha256 hs d s t in
      from_right d q x w.y s l
        (AuditPath-Climb hs k w.upper (omega arith) (ap (get_elem? hs) (omega arith) ∙ f)) e
        (rw (Mth-unique sha256 hs z w.lower) w.join)

  -- The loop, started on a leaf of a tree with root `h`, ends at `h` with nothing left to climb.
  pub walk-path :
      (hs : List Bytes) {n m : ℕ} {p : List Bytes} {g h : Bytes}
      → AuditPath sha256 hs 0 n m p
      → Mth sha256 hs 0 n h
      → m < n
      → get_elem? hs m ≡ some g
      → walk sha256 p (at g (n - 1) m) ≡ some (at h 0 0)
  walk-path hs {n} {m} a t b f =
      let c = AuditPath-Climb hs a t b (ap (get_elem? hs) (omega arith) ∙ f) in
      let (e, w) =
        walk_edge sha256 0 n (n - 1) m c (omega (arith, lt-pow n)) (omega arith) (omega arith) in
      let z : 0 * 2 ^ e ≡ 0 = omega arith in rw z at w

  -- For every leaf of a tree with a true memo, the proof that `inclusion_proof` returns is accepted
  -- by `verify_inclusion_proof` against the root that `root` returns next; both calls return.
  pub verify-inclusion_proof :
      (t : MerkleTree) (i : ℕ) (leaf : Bytes)
      → IsValid sha256 t
      → get_elem? t.leaf_hashes i ≡ some (hash_leaf sha256 leaf)
      → Returns
          (λ (p, h). verify_inclusion_proof sha256 leaf (pos i) (pos (size t)) p h ≡ true)
          (inclusion_proof sha256 t (pos i) >>= λ (p, t₁). root sha256 t₁ >>= λ (h, t₂). ok (p, h))
  unfolding verify_inclusion_proof size
  verify-inclusion_proof t i leaf v f =
      let b : i < length t.leaf_hashes = lt-length_of_get_elem? t.leaf_hashes i f in
      Returns-bind (inclusion_proof-IsProof sha256 t i v b) λ (p, t₁) u.
        Returns-bind (root-IsRoot sha256 t₁ u.valid) λ (h, t₂) w.
          let r : Mth sha256 t.leaf_hashes 0 (length t.leaf_hashes) h =
            subst (λ hs. 0 < length hs → Mth sha256 hs 0 (length hs) h) u.leaves w.of_some
              (omega arith) in
          let c = walk-path t.leaf_hashes u.path r b f in
          returns (rw c (ground (arith, ==_refl {A = Bytes} h)))

  length-path :
      (hs : List Bytes) {lo n m : ℕ} {p : List Bytes}
      → AuditPath sha256 hs lo n m p
      → (L : ℕ) → n ≤ 2 ^ L
      → length p ≤ L
  length-path hs (alone e q) L b = rw q (omega arith)
  length-path hs (left d q y s l k z e) L b = rw e (
      omega (
        arith,
        length-append {0} q (y ∷ []),
        length-path hs k d (omega arith),
        SplitsAt-lt d L _ s b,
      ))
  length-path hs (right d q x s l k z e) L b = rw e (
      omega (
        arith,
        length-append {0} q (x ∷ []),
        length-path hs k d (omega (arith, s.above, pow_suc d)),
        SplitsAt-lt d L _ s b,
      ))

  -- A proof against a tree of at most 2 ^ L leaves has at most L hashes.
  pub length-inclusion_proof :
      (t : MerkleTree) (i L : ℕ)
      → IsValid sha256 t
      → i < size t
      → size t ≤ 2 ^ L
      → Returns (λ (p, t₁). length p ≤ L) (inclusion_proof sha256 t (pos i))
  length-inclusion_proof t i L v b l =
      Returns-map (inclusion_proof-IsProof sha256 t i v b)
        λ out u. length-path t.leaf_hashes u.path L l
