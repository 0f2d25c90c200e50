-- ===== src/Merkle/Tests.antt =====
-- Runs and instances over a small hash: the sum of the bytes and their number, modulo 251.
use provenex_core.Prelude.{
  ℕ, ◌+◌, ◌*◌, ◌%◌, ◌≡◌, refl, true, false, [], ◌∷◌, pos, ok, ◌>>=◌, Returns, ◌⊎◌,
}
use provenex_core.Merkle.{
  Bytes, Entry, MerkleTree, empty_tree, size, root, inclusion_proof, hash_leaf, hash_node,
  verify_inclusion_proof, mth, largest_pow2_lt, cached, walk, step,
}
use provenex_core.Merkle.State.{IsValid}
use provenex_core.Merkle.Memo.{nil-IsTrue}
use provenex_core.Merkle.Complete.{verify-inclusion_proof}
use provenex_core.Merkle.Sound.{verify_sound, Collision}
use provenex_core.Merkle.History.{append_leaf, ask_root, ask_proof, run, Holds, run-empty_tree}

abbrev digest : Bytes → ℕ
digest [] = 7
digest (b ∷ bs) = (b + 1 + 3 * digest bs) % 251

abbrev toy : Bytes → Bytes
toy bs = digest bs ∷ []

-- Seven leaves, so that the last levels are not full.
abbrev seven : MerkleTree
seven = record {
  leaf_hashes =
      toy (0 ∷ 10 ∷ [])
      ∷ toy (0 ∷ 11 ∷ [])
      ∷ toy (0 ∷ 12 ∷ [])
      ∷ toy (0 ∷ 13 ∷ [])
      ∷ toy (0 ∷ 14 ∷ [])
      ∷ toy (0 ∷ 15 ∷ [])
      ∷ toy (0 ∷ 16 ∷ [])
      ∷ [];
  mth_cache = [];
}

splits : largest_pow2_lt 7 ≡ 4
unfolding largest_pow2_lt
splits = refl

seven-IsValid : IsValid toy seven
seven-IsValid = nil-IsTrue toy seven.leaf_hashes

verify-inclusion_proof_example :
    Returns
      (λ (p, h). verify_inclusion_proof toy (16 ∷ []) (pos 6) (pos (size seven)) p h ≡ true)
      (inclusion_proof toy seven (pos 6) >>= λ (p, t₁). root toy t₁ >>= λ (h, t₂). ok (p, h))
verify-inclusion_proof_example =
    verify-inclusion_proof toy seven 6 (16 ∷ []) seven-IsValid (unfold hash_leaf in refl)

run-empty_tree_example : Holds toy ((1 ∷ []) ∷ (2 ∷ []) ∷ []) (
    run toy empty_tree
      (append_leaf (1 ∷ []) ∷ ask_root ∷ append_leaf (2 ∷ []) ∷ ask_proof (pos 0) ∷ []))
run-empty_tree_example =
    run-empty_tree toy
      (append_leaf (1 ∷ []) ∷ ask_root ∷ append_leaf (2 ∷ []) ∷ ask_proof (pos 0) ∷ [])

abbrev three : MerkleTree
three = record {
  leaf_hashes = toy (0 ∷ 10 ∷ []) ∷ toy (0 ∷ 11 ∷ []) ∷ toy (0 ∷ 12 ∷ []) ∷ [];
  mth_cache = [];
}

entry : ℕ → ℕ → ℕ → Entry
entry lo hi h = record { lo = lo; hi = hi; hash = h ∷ [] }

root_of_three :
    root toy three
    ≡ ok (
      41 ∷ [],
      record three {
        mth_cache =
            entry 0 3 41 ∷ entry 2 3 103 ∷ entry 0 2 139 ∷ entry 1 2 100 ∷ entry 0 1 97 ∷ [];
      },
    )
unfolding root mth size largest_pow2_lt cached hash_node entry
root_of_three = refl

accepted :
    verify_inclusion_proof toy (12 ∷ []) (pos 2) (pos (size three)) ((139 ∷ []) ∷ []) (41 ∷ [])
    ≡ true
unfolding verify_inclusion_proof walk step size hash_leaf hash_node
accepted = refl

rejected : verify_inclusion_proof toy (13 ∷ []) (pos 2) (pos 3) ((139 ∷ []) ∷ []) (41 ∷ []) ≡ false
unfolding verify_inclusion_proof walk step hash_leaf hash_node
rejected = refl

verify_sound_example : (◌≡◌ {A = Bytes} (12 ∷ []) (12 ∷ [])) ⊎ Collision toy
verify_sound_example =
    verify_sound toy 1 (λ b. refl) three 2 (12 ∷ []) (12 ∷ []) (41 ∷ []) ((139 ∷ []) ∷ []) _
      (nil-IsTrue toy three.leaf_hashes) (unfold hash_leaf in refl) root_of_three accepted
