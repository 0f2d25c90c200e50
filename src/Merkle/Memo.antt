-- ===== src/Merkle/Memo.antt =====
-- `_mth` with its memo returns the RFC 6962 hash, and keeps the memo true.
use provenex_core.Prelude.{
  ℕ, zero, suc, ◌+◌, ◌-◌, ◌^◌, ◌≤◌, ◌<◌, ◌≡◌, refl, subst, inl, inr, true, false, ◌&&◌, none, some,
  List, [], ◌∷◌, arith, length, get_elem?, ◌==◌, nat_eq, ==→eq, Bool-cases, Option-cases, ok, ◌>>=◌,
  Returns, returns, Returns-bind,
}
use mathlib.Core.Path.{subst₂}
use native.Mathlib.Decide.{dec_lt}
use mathlib.Core.Option.{some-injective}
use provenex_core.Merkle.{Bytes, Cache, cached, leaf_at, hash_node, largest_pow2_lt, mth}
use provenex_core.Merkle.Split.{SplitsAt, largest_pow2_lt_lem, pow_pos}
use provenex_core.Merkle.Spec.{Mth, one, split}

leaf_at_lem :
    (hs : List Bytes) (i : ℕ)
    → i < length hs
    → Returns (λ h. get_elem? hs i ≡ some h) (leaf_at hs i)
unfolding leaf_at
leaf_at_lem [] i h = absurd (omega arith)
leaf_at_lem (x ∷ hs) zero h = returns refl
leaf_at_lem (x ∷ hs) (suc i) h = leaf_at_lem hs i (omega arith)

module _ (sha256 : Bytes → Bytes) where
  -- Every hash in the memo is the hash of its range.
  pub record IsTrue (hs : List Bytes) (c : Cache) : Type 0 where
    pub at_range : (lo n : ℕ) (h : Bytes) → cached c lo (lo + n) ≡ some h → Mth sha256 hs lo n h

  pub nil-IsTrue : (hs : List Bytes) → IsTrue hs []
  unfolding cached
  nil-IsTrue hs = record { at_range = λ lo n h e. cc }

  -- The hash of a range, and a memo that is still true.
  pub record Hashed (hs : List Bytes) (lo n : ℕ) (out : Bytes × Cache) : Type 0 where
    pub hash : Mth sha256 hs lo n out.0
    pub memo : IsTrue hs out.1

  cons-at :
      (hs : List Bytes) (c : Cache) (lo n : ℕ) (h : Bytes)
      → Mth sha256 hs lo n h
      → IsTrue hs c
      → (lo' n' : ℕ) (h' : Bytes)
      → cached (record { lo = lo; hi = lo + n; hash = h } ∷ c) lo' (lo' + n') ≡ some h'
      → Mth sha256 hs lo' n' h'
  unfolding cached
  cons-at hs c lo n h m t lo' n' h' e = elim (Bool-cases (lo == lo' && lo + n == lo' + n')) [
    | inl same ↦
        let e₁ : lo ≡ lo' = ==→eq lo lo' (ground arith) in
        let e₂ : n ≡ n' = ground arith in
        let e₃ : h ≡ h' = some-injective _ _ (rw same at e) in
        subst (λ k. Mth sha256 hs lo' n' k) e₃ (subst₂ (λ a b. Mth sha256 hs a b h) e₁ e₂ m)
    | inr other ↦ t.at_range lo' n' h' (rw other at e)
  ]

  remember :
      (hs : List Bytes) (c : Cache) (lo hi n : ℕ) (h : Bytes)
      → hi ≡ lo + n
      → Mth sha256 hs lo n h
      → IsTrue hs c
      → Hashed hs lo n (h, record { lo = lo; hi = hi; hash = h } ∷ c)
  remember hs c lo hi n h e m t =
      rw e (record { hash = m; memo = record { at_range = cons-at hs c lo n h m t } })

  mth_leaf :
      (fuel : ℕ) (hs : List Bytes) (lo hi : ℕ) (c : Cache)
      → cached c lo hi ≡ none
      → (hi - lo == 1) ≡ true
      → mth sha256 (suc fuel) hs lo hi c
        ≡ (leaf_at hs lo >>= λ h. ok (h, record { lo = lo; hi = hi; hash = h } ∷ c))
  unfolding mth
  mth_leaf fuel hs lo hi c miss e = rw (miss, mth) (rw (e, mth))

  mth_node :
      (fuel : ℕ) (hs : List Bytes) (lo hi : ℕ) (c : Cache) (k : ℕ)
      → cached c lo hi ≡ none
      → (hi - lo == 1) ≡ false
      → largest_pow2_lt (hi - lo) ≡ k
      → mth sha256 (suc fuel) hs lo hi c ≡ (
          mth sha256 fuel hs lo (lo + k) c >>= λ (x, c₁).
          mth sha256 fuel hs (lo + k) hi c₁ >>= λ (y, c₂).
          ok (hash_node sha256 x y, record { lo = lo; hi = hi; hash = hash_node sha256 x y } ∷ c₂))
  unfolding mth
  mth_node fuel hs lo hi c k miss e p = rw (miss, mth) (rw (e, mth) (rw (← p)))

  mth_hit :
      (fuel : ℕ) (hs : List Bytes) (lo hi : ℕ) (c : Cache) (h : Bytes)
      → cached c lo hi ≡ some h
      → mth sha256 (suc fuel) hs lo hi c ≡ ok (h, c)
  unfolding mth
  mth_hit fuel hs lo hi c h e = rw (e, mth)

  abbrev HashesWith : ℕ → List Bytes → Type 0
  HashesWith fuel hs =
      (lo hi n : ℕ) (c : Cache)
      → hi ≡ lo + n
      → n ≤ fuel
      → 0 < n
      → hi ≤ length hs
      → IsTrue hs c
      → Returns (Hashed hs lo n) (mth sha256 fuel hs lo hi c)

  Hashed-leaf :
      (fuel : ℕ) (hs : List Bytes) (lo hi n : ℕ) (c : Cache)
      → hi ≡ lo + n
      → hi ≤ length hs
      → IsTrue hs c
      → cached c lo hi ≡ none
      → n ≡ 1
      → Returns (Hashed hs lo n) (mth sha256 (suc fuel) hs lo hi c)
  Hashed-leaf fuel hs lo hi n c e q t miss single =
      let width : hi - lo ≡ 1 = omega arith in
      rw (mth_leaf fuel hs lo hi c miss (rw width)) (
        Returns-bind (leaf_at_lem hs lo (omega arith))
          λ h g. returns (remember hs c lo hi n h e (one single g) t))

  Hashed-node :
      (fuel : ℕ) (hs : List Bytes) (lo hi n : ℕ) (c : Cache)
      → HashesWith fuel hs
      → hi ≡ lo + n
      → n ≤ suc fuel
      → hi ≤ length hs
      → IsTrue hs c
      → cached c lo hi ≡ none
      → 1 < n
      → (d : ℕ) → largest_pow2_lt n ≡ 2 ^ d
      → SplitsAt d n
      → Returns (Hashed hs lo n) (mth sha256 (suc fuel) hs lo hi c)
  Hashed-node fuel hs lo hi n c ih e f q t miss two d k s =
      let width : hi - lo ≡ n = omega arith in
      rw (mth_node fuel hs lo hi c (2 ^ d) miss (ground arith) (rw width k)) (
        Returns-bind
          (ih lo (lo + 2 ^ d) (2 ^ d) c refl (omega (arith, s.below)) (pow_pos d)
            (omega (arith, s.below)) t)
          λ (x, c₁) u.
            Returns-bind
              (ih (lo + 2 ^ d) hi (n - 2 ^ d) c₁ (omega (arith, s.below)) (omega (arith, pow_pos d))
                (omega (arith, s.below)) q u.memo)
              λ (y, c₂) v.
                returns (remember hs c₂ lo hi n _ e (split d x y s u.hash v.hash refl) v.memo))

  -- With fuel for the number of leaves, `_mth` returns the hash of its range.
  pub mth-Hashed : (fuel : ℕ) (hs : List Bytes) → HashesWith fuel hs
  mth-Hashed zero hs lo hi n c e f p q t = absurd (omega arith)
  mth-Hashed (suc fuel) hs lo hi n c e f p q t = elim (Option-cases (cached c lo hi)) [
    | inr (h, found) ↦
        rw (mth_hit fuel hs lo hi c h found)
          (returns (record { hash = t.at_range lo n h (rw e at found); memo = t }))
    | inl miss ↦ elim (dec_lt 1 n) [
      | no single ↦ Hashed-leaf fuel hs lo hi n c e q t miss (omega arith)
      | yes two ↦
          let w = largest_pow2_lt_lem n two in
          Hashed-node fuel hs lo hi n c (mth-Hashed fuel hs) e f q t miss two w.0 w.1 w.2
    ]
  ]
