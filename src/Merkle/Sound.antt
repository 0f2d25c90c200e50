-- ===== src/Merkle/Sound.antt =====
-- What an accepted proof shows: the leaf is in the tree, or a collision of the hash is at hand.
use mathlib.Core.Option.{some-injective}
use mathlib.Core.List.{tail}
use native.Mathlib.Decide.{ℕ_discrete, dec_lt}
use provenex_core.Prelude.{
  ℕ, ◌-◌, ◌<◌, ◌≡◌, ◌≢◌, refl, ap, sym, ◌∙◌, true, false, Option, none, some, List, [], ◌∷◌, pos,
  arith, length, get_elem?, append-cancel_left, append-cancel_right, ◌%◌, ◌/◌, ◌||◌, Bool,
  lt-length_of_get_elem?, ok, Returns-at, Returns-value, ◌==◌, nat_eq, list_eq, ==→eq, Bool-cases,
  if◌then◌else◌, ◌⊎◌, inl, inr,
}
use provenex_core.Merkle.{
  Bytes, MerkleTree, size, root, hash_leaf, hash_node, verify_inclusion_proof, Walk, step, unwind,
  walk, accepts,
}
use provenex_core.Merkle.Climb.{at}
use provenex_core.Merkle.State.{IsValid, root-IsRoot, inclusion_proof-IsProof}
use provenex_core.Merkle.Complete.{walk-path}

Bytes-discrete : Discrete Bytes
Bytes-discrete = hlevel ℕ_discrete

module _ (sha256 : Bytes → Bytes) where
  -- Two inputs with one hash.
  pub record Collision : Type 0 where
    pub first : Bytes
    pub second : Bytes
    pub differ : first ≢ second
    pub agree : sha256 first ≡ sha256 second

  eq_or_Collision : (x y : Bytes) → sha256 x ≡ sha256 y → (x ≡ y) ⊎ Collision
  eq_or_Collision x y e = elim (Bytes-discrete x y) [
    | yes p ↦ inl p
    | no n ↦ inr (record { first = x; second = y; differ = n; agree = e })
  ]

  -- One round of the loop: the counters decide the side and the next counters.
  record Round (sn r : ℕ) : Type 0 where
    sibling_first : Bool
    next_sn : ℕ
    next_r : ℕ
    goes :
        (fn s : Bytes)
        → step sha256 (at fn sn r) s
          ≡ some (
              at
                (if sibling_first then hash_node sha256 s fn else hash_node sha256 fn s)
                next_sn
                next_r)

  round : (sn r : ℕ) → 0 < sn → Round sn r
  unfolding step
  round sn r h = elim (Bool-cases (r % 2 == 1 || r == sn)) [
    | inl e ↦ record {
      sibling_first = true;
      next_sn = (unwind r r sn).1 / 2;
      next_r = (unwind r r sn).0 / 2;
      goes = λ fn s. ground (arith, e, h);
    }
    | inr e ↦ record {
      sibling_first = false;
      next_sn = sn / 2;
      next_r = r / 2;
      goes = λ fn s. ground (arith, e, h);
    }
  ]

  stuck : (fn s : Bytes) (sn r : ℕ) → sn ≡ 0 → step sha256 (at fn sn r) s ≡ none
  unfolding step
  stuck fn s sn r e = ground arith

  -- Digests of equal length that hash alike with some sibling are equal, or collide.
  unhash :
      (b : Bool) (fn fn' s s' : Bytes)
      → length fn ≡ length fn'
      → (if b then hash_node sha256 s fn else hash_node sha256 fn s)
        ≡ (if b then hash_node sha256 s' fn' else hash_node sha256 fn' s')
      → (fn ≡ fn') ⊎ Collision
  unfolding hash_node
  unhash true fn fn' s s' l e = elim (eq_or_Collision _ _ e) [
    | inl p ↦ inl (append-cancel_right s fn s' fn' l (cc)).1
    | inr c ↦ inr c
  ]
  unhash false fn fn' s s' l e = elim (eq_or_Collision _ _ e) [
    | inl p ↦ inl (append-cancel_left fn s fn' s' l (cc)).0
    | inr c ↦ inr c
  ]

  -- Every digest has the same length.
  abbrev pub HasLength : ℕ → Type 0
  HasLength k = (b : Bytes) → length (sha256 b) ≡ k

  length-node :
      (k : ℕ)
      → HasLength k
      → (b : Bool) (fn s : Bytes)
      → length (if b then hash_node sha256 s fn else hash_node sha256 fn s) ≡ k
  unfolding hash_node
  length-node k fixed true fn s = fixed _
  length-node k fixed false fn s = fixed _

  -- Two runs from the same counters that end with `sn` at 0 and one hash began with one hash.
  same_start :
      (k : ℕ)
      → HasLength k
      → (p p' : List Bytes) (fn fn' : Bytes) (sn r : ℕ) (w w' : Walk) → length fn ≡ k
      → length fn' ≡ k
      → walk sha256 p (at fn sn r) ≡ some w
      → walk sha256 p' (at fn' sn r) ≡ some w'
      → w.sn ≡ 0
      → w'.sn ≡ 0
      → w.fn ≡ w'.fn
      → (fn ≡ fn') ⊎ Collision
  unfolding walk
  same_start k fixed [] [] fn fn' sn r w w' l l' e e' z z' q = inl (cc)
  same_start k fixed [] (s' ∷ p') fn fn' sn r w w' l l' e e' z z' q =
      cc (rw (stuck fn' s' sn r (ap (λ (v : Walk). v.sn) (some-injective _ _ e) ∙ z), walk) at e')
  same_start k fixed (s ∷ p) [] fn fn' sn r w w' l l' e e' z z' q =
      cc (rw (stuck fn s sn r (ap (λ (v : Walk). v.sn) (some-injective _ _ e') ∙ z'), walk) at e)
  same_start k fixed (s ∷ p) (s' ∷ p') fn fn' sn r w w' l l' e e' z z' q = elim (dec_lt 0 sn) [
    | no zero_sn ↦ cc (rw (stuck fn s sn r (omega arith), walk) at e)
    | yes more ↦
        let c = round sn r more in
        let go = rw (c.goes fn s, walk) at e in
        let go' = rw (c.goes fn' s', walk) at e' in
        elim (same_start k fixed p p' _ _ c.next_sn c.next_r w w'
          (length-node k fixed c.sibling_first fn s) (length-node k fixed c.sibling_first fn' s') go
          go' z z' q) [
            | inl same ↦ unhash c.sibling_first fn fn' s s' (l ∙ sym l') same
            | inr collision ↦ inr collision
          ]
  ]

  -- An accepted run ended at the expected root with `sn` at 0.
  accepts-inv :
      (h : Bytes) (o : Option Walk)
      → accepts h o ≡ true
      → (w : Walk) × (o ≡ some w) × (w.fn ≡ h) × (w.sn ≡ 0)
  unfolding accepts
  accepts-inv h none e = cc
  accepts-inv h (some w) e = (w, refl, ==→eq w.fn h (ground arith), ground arith)

  verify-inv :
      (leaf : Bytes) (i n : ℕ) (p : List Bytes) (h : Bytes)
      → verify_inclusion_proof sha256 leaf (pos i) (pos n) p h ≡ true
      → accepts h (walk sha256 p (at (hash_leaf sha256 leaf) (n - 1) i)) ≡ true
  unfolding verify_inclusion_proof
  verify-inv leaf i n p h e = ground arith

  length-leaf : (k : ℕ) → HasLength k → (leaf : Bytes) → length (hash_leaf sha256 leaf) ≡ k
  unfolding hash_leaf
  length-leaf k fixed leaf = fixed _

  leaf_or_Collision : (x y : Bytes) → hash_leaf sha256 x ≡ hash_leaf sha256 y → (x ≡ y) ⊎ Collision
  unfolding hash_leaf
  leaf_or_Collision x y e = elim (eq_or_Collision (0 ∷ x) (0 ∷ y) e) [
    | inl p ↦ inl (ap tail p)
    | inr collision ↦ inr collision
  ]

  -- Where digests have one length: if the tree holds `leaf` at place `i` and has root `h`, then any
  -- proof, of any leaf, that is accepted for that place and root is about `leaf`, unless two
  -- different inputs with one hash are at hand.
  pub verify_sound :
      (k : ℕ)
      → HasLength k
      → (t : MerkleTree) (i : ℕ) (leaf leaf' h : Bytes) (p' : List Bytes) (t' : MerkleTree)
      → IsValid sha256 t
      → get_elem? t.leaf_hashes i ≡ some (hash_leaf sha256 leaf)
      → root sha256 t ≡ ok (h, t')
      → verify_inclusion_proof sha256 leaf' (pos i) (pos (size t)) p' h ≡ true
      → (leaf' ≡ leaf) ⊎ Collision
  unfolding size
  verify_sound k fixed t i leaf leaf' h p' t' v f r a =
      let b : i < length t.leaf_hashes = lt-length_of_get_elem? t.leaf_hashes i f in
      let w = Returns-at (root-IsRoot sha256 t v) r in
      let ((p, t₁), _, u) = Returns-value (inclusion_proof-IsProof sha256 t i v b) in
      let honest = walk-path sha256 t.leaf_hashes u.path (w.of_some (omega arith)) b f in
      let (w', ran, root', stop) =
        accepts-inv h _ (verify-inv leaf' i (length t.leaf_hashes) p' h a) in
      elim (same_start k fixed p' p _ _ _ i w' (at h 0 0) (length-leaf k fixed leaf')
        (length-leaf k fixed leaf) ran honest stop refl root') [
          | inr collision ↦ inr collision
          | inl same ↦ leaf_or_Collision leaf' leaf same
        ]
