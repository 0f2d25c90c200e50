-- ===== src/Merkle.antt =====
-- The RFC 6962 transparency log of provenex/core/merkle.py.
pub mod Split
pub mod Paths
pub mod Climb
pub mod State
pub mod Complete
pub mod Sound
mod Tests
pub mod History
pub mod Loop
pub mod Memo
pub mod Spec
use provenex_core.Prelude.{
  ℕ, zero, suc, ◌+◌, ◌-◌, ◌/◌, ◌%◌, ◌^◌, Bool, true, false, not, ◌&&◌, ◌||◌, Option, none, some,
  List, [], ◌∷◌, ◌++◌, ℤ, pos, negsuc, Result, ok, err, index_error, recursion_error, ◌>>=◌, ltb,
  leb, ◌==◌, nat_eq, list_eq, if◌then◌else◌, length, get_elem?,
}

abbrev pub Bytes : Type 0
Bytes = List ℕ

-- n.bit_length(): the fuel `n` is enough, since each round halves the number.
bit_count : ℕ → ℕ → ℕ
bit_count zero n = 0
bit_count (suc fuel) n = let rest = suc (bit_count fuel (n / 2)) in if n == 0 then 0 else rest

pub bit_length : ℕ → ℕ
unfolding bit_count
bit_length n = bit_count n n

-- Largest power of two strictly less than `n`, for n > 1.
pub largest_pow2_lt : ℕ → ℕ
unfolding bit_length
largest_pow2_lt n = 2 ^ (bit_length (n - 1) - 1)

-- The memo of subtree hashes, keyed by half-open ranges; later entries come first.
pub record Entry : Type 0 where
  pub lo : ℕ
  pub hi : ℕ
  pub hash : Bytes

abbrev pub Cache : Type 0
Cache = List Entry

pub cached : Cache → ℕ → ℕ → Option Bytes
cached [] lo hi = none
cached (e ∷ c) lo hi = if e.lo == lo && e.hi == hi then some e.hash else cached c lo hi

pub record MerkleTree : Type 0 where
  pub leaf_hashes : List Bytes
  pub mth_cache : Cache

abbrev pub empty_tree : MerkleTree
empty_tree = record { leaf_hashes = []; mth_cache = [] }

unfoldable pub size : MerkleTree → ℕ
size t = length t.leaf_hashes

-- list[i], which raises on a missing index
leaf_at : List Bytes → ℕ → Result Bytes
leaf_at hs i = elim (get_elem? hs i) [ none ↦ err index_error | some h ↦ ok h ]

-- `while (r & 1) == 0 and r != 0`, on fuel
unwind : ℕ → ℕ → ℕ → ℕ × ℕ
unwind zero r sn = (r, sn)
unwind (suc fuel) r sn =
    let rest = unwind fuel (r / 2) (sn / 2) in if r % 2 == 0 && not (r == 0) then rest else (r, sn)

-- The variables of the verifier's loop.
pub record Walk : Type 0 where
  pub fn : Bytes
  pub sn : ℕ
  pub r : ℕ

-- `fn == root and sn == 0`
pub accepts : Bytes → Option Walk → Bool
accepts expected none = false
accepts expected (some w) = w.fn == expected && w.sn == 0

-- Everything below is for any hash function in the place of SHA-256.
module _ (sha256 : Bytes → Bytes) where
  pub hash_leaf : Bytes → Bytes
  hash_leaf leaf = sha256 (0 ∷ leaf)

  pub hash_node : Bytes → Bytes → Bytes
  hash_node left right = sha256 (1 ∷ (left ++ right))

  unfoldable pub append : MerkleTree → Bytes → MerkleTree × ℕ
  append t leaf =
      (record { leaf_hashes = t.leaf_hashes ++ hash_leaf leaf ∷ []; mth_cache = [] }, size t)

  -- `_mth`: the hash of the leaves lo .. hi - 1, with the memo before and after.
  pub mth : ℕ → List Bytes → ℕ → ℕ → Cache → Result (Bytes × Cache)
  unfolding leaf_at
  mth zero hs lo hi c = err recursion_error
  mth (suc fuel) hs lo hi c = elim (cached c lo hi) [
    | some h ↦ ok (h, c)
    | none ↦ elim (hi - lo == 1) [
      | true ↦ leaf_at hs lo >>= λ h. ok (h, record { lo = lo; hi = hi; hash = h } ∷ c)
      | false ↦ mth fuel hs lo (lo + largest_pow2_lt (hi - lo)) c >>= λ (x, c₁).
          mth fuel hs (lo + largest_pow2_lt (hi - lo)) hi c₁ >>= λ (y, c₂).
          ok (hash_node x y, record { lo = lo; hi = hi; hash = hash_node x y } ∷ c₂)
    ]
  ]

  -- `root`: recursion at most as deep as the tree has leaves.
  pub root : MerkleTree → Result (Bytes × MerkleTree)
  root t =
      if size t == 0
      then ok (sha256 [], t)
      else mth (size t) t.leaf_hashes 0 (size t) t.mth_cache >>= λ (h, c).
          ok (h, record t { mth_cache = c })

  pub proof : ℕ → List Bytes → ℕ → ℕ → ℕ → Cache → Result (List Bytes × Cache)
  proof zero hs m lo hi c = err recursion_error
  proof (suc fuel) hs m lo hi c = elim (leb (hi - lo) 1) [
    | true ↦ ok ([], c)
    | false ↦ elim (ltb m (lo + largest_pow2_lt (hi - lo))) [
      | true ↦ proof fuel hs m lo (lo + largest_pow2_lt (hi - lo)) c >>= λ (p, c₁).
          mth fuel hs (lo + largest_pow2_lt (hi - lo)) hi c₁ >>= λ (s, c₂). ok (p ++ s ∷ [], c₂)
      | false ↦ proof fuel hs m (lo + largest_pow2_lt (hi - lo)) hi c >>= λ (p, c₁).
          mth fuel hs lo (lo + largest_pow2_lt (hi - lo)) c₁ >>= λ (s, c₂). ok (p ++ s ∷ [], c₂)
    ]
  ]

  pub inclusion_proof : MerkleTree → ℤ → Result (List Bytes × MerkleTree)
  inclusion_proof t (negsuc i) = err index_error
  inclusion_proof t (pos i) =
      if leb (size t) i
      then err index_error
      else proof (size t) t.leaf_hashes i 0 (size t) t.mth_cache >>= λ (p, c).
          ok (p, record t { mth_cache = c })

  -- One round of the loop over the proof, and the loop; `none` is `return False`.
  pub step : Walk → Bytes → Option Walk
  unfolding unwind
  step w sibling =
      if w.sn == 0
      then none
      else if w.r % 2 == 1 || w.r == w.sn
      then (let (r, sn) = unwind w.r w.r w.sn in
          some (record { fn = hash_node sibling w.fn; sn = sn / 2; r = r / 2 }))
      else some (record { fn = hash_node w.fn sibling; sn = w.sn / 2; r = w.r / 2 })

  pub walk : List Bytes → Walk → Option Walk
  walk [] w = some w
  walk (sibling ∷ siblings) w = elim (step w sibling) [ none ↦ none | some w' ↦ walk siblings w' ]

  pub verify_inclusion_proof : Bytes → ℤ → ℤ → List Bytes → Bytes → Bool
  unfolding accepts
  verify_inclusion_proof leaf (pos i) (pos n) siblings expected =
      if n == 0 || leb n i
      then false
      else accepts expected (walk siblings (record { fn = hash_leaf leaf; sn = n - 1; r = i }))
  verify_inclusion_proof leaf _ _ siblings expected = false
