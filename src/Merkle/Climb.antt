-- ===== src/Merkle/Climb.antt =====
-- The loop of `verify_inclusion_proof`, run over the audit path of a tree.
use native.Mathlib.Nat.{add-zero, add-suc}
use provenex_core.Prelude.{
  ℕ, zero, suc, ◌+◌, ◌-◌, ◌*◌, ◌/◌, ◌%◌, ◌^◌, ◌≤◌, ◌<◌, ◌≡◌, ◌≢◌, refl, inl, inr, List, [], ◌∷◌,
  ◌++◌, arith, some, nat_eq, Option-cases,
}
use provenex_core.Merkle.{Bytes, hash_node, unwind, Walk, step, walk}
use provenex_core.Merkle.Split.{SplitsAt, pow_pos, pow_suc}

unwind-even : (fuel r x : ℕ) → r ≡ x * 2 → 0 < x → unwind (suc fuel) r r ≡ unwind fuel x x
unfolding unwind
unwind-even fuel r x e p =
    let h : r / 2 ≡ x = omega arith in let z : 0 < r = omega arith in rw h (ground arith)

pub pow_suc_mul : (A e : ℕ) → A * 2 ^ suc e ≡ A * 2 ^ e * 2
pow_suc_mul A e = rw (pow_suc e) (omega arith)

pub odd_mul_pos : (A e : ℕ) → A % 2 ≡ 1 → 0 < A * 2 ^ e
odd_mul_pos A e odd = grind (arith, pow_pos e)

unwind-odd : (fuel r sn : ℕ) → r % 2 ≡ 1 → unwind fuel r sn ≡ (r, sn)
unfolding unwind
unwind-odd zero r sn odd = refl
unwind-odd (suc fuel) r sn odd = ground arith

-- Shifting an odd multiple of 2 ^ e stops at the odd factor.
unwind_lem : (fuel e A r : ℕ) → e ≤ fuel → A % 2 ≡ 1 → r ≡ A * 2 ^ e → unwind fuel r r ≡ (A, A)
unwind_lem fuel zero A r f odd p = let q : r ≡ A = omega arith in rw q (unwind-odd fuel A A odd)
unwind_lem zero (suc e) A r f odd p = elim f [ ]
unwind_lem (suc fuel) (suc e) A r f odd p =
    rw (unwind-even fuel r (A * 2 ^ e) (rw (← pow_suc_mul A e) p) (odd_mul_pos A e odd))
      (unwind_lem fuel e A (A * 2 ^ e) (omega arith) odd refl)

pub pow_add : (d e : ℕ) → 2 ^ (d + e) ≡ 2 ^ d * 2 ^ e
pow_add d zero = rw add-zero (omega arith)
pow_add d (suc e) = rw (add-suc, pow_suc (d + e), pow_add d e, pow_suc e) (omega arith)

pub lt-pow : (n : ℕ) → n < 2 ^ n
lt-pow zero = omega arith
lt-pow (suc n) = omega (arith, lt-pow n, pow_suc n)

fuel_for : (A e r : ℕ) → A % 2 ≡ 1 → r ≡ A * 2 ^ e → e ≤ r
fuel_for A e r odd p = grind (arith, lt-pow e)

abbrev pub at : Bytes → ℕ → ℕ → Walk
at fn sn r = record { fn = fn; sn = sn; r = r }

-- An audit path as the verifier climbs it: from the leaf hash `g` at place `m` of `n` leaves to the
-- hash `h` of all of them.
module _ (sha256 : Bytes → Bytes) where
  pub data Climb : ℕ → ℕ → List Bytes → Bytes → Bytes → Type 0 where
    here :
        {n m : ℕ} {p : List Bytes} {g h : Bytes} → n ≡ 1 → m ≡ 0 → p ≡ [] → h ≡ g → Climb n m p g h
    from_left :
        {n m : ℕ} {p : List Bytes} {g h : Bytes} (d : ℕ) (q : List Bytes) (x y : Bytes)
        → SplitsAt d n
        → m < 2 ^ d
        → Climb (2 ^ d) m q g x
        → p ≡ q ++ y ∷ []
        → h ≡ hash_node sha256 x y
        → Climb n m p g h
    from_right :
        {n m : ℕ} {p : List Bytes} {g h : Bytes} (d : ℕ) (q : List Bytes) (x y : Bytes)
        → SplitsAt d n
        → 2 ^ d ≤ m
        → Climb (n - 2 ^ d) (m - 2 ^ d) q g y
        → p ≡ q ++ x ∷ []
        → h ≡ hash_node sha256 x y
        → Climb n m p g h

  pub step-left :
      (fn s : Bytes) (sn r : ℕ)
      → 0 < sn
      → r % 2 ≡ 0
      → r ≢ sn
      → step sha256 (at fn sn r) s ≡ some (at (hash_node sha256 fn s) (sn / 2) (r / 2))
  unfolding step
  step-left fn s sn r p e ne = ground arith

  pub step-odd :
      (fn s : Bytes) (sn r : ℕ)
      → 0 < sn
      → r % 2 ≡ 1
      → step sha256 (at fn sn r) s ≡ some (at (hash_node sha256 s fn) (sn / 2) (r / 2))
  unfolding step
  step-odd fn s sn r p e = ground (arith, unwind-odd r r sn e)

  pub step-edge :
      (fn s : Bytes) (r e A : ℕ)
      → A % 2 ≡ 1
      → r ≡ A * 2 ^ e
      → step sha256 (at fn r r) s ≡ some (at (hash_node sha256 s fn) (A / 2) (A / 2))
  unfolding step
  step-edge fn s r e A odd p =
      let u : unwind r r r ≡ (A, A) = unwind_lem r e A r (fuel_for A e r odd p) odd p in
      let z : 0 < r = rw p (odd_mul_pos A e odd) in ground (arith, u)

  pub walk-append :
      (p : List Bytes) (s : Bytes) (w w' : Walk)
      → walk sha256 p w ≡ some w'
      → walk sha256 (p ++ s ∷ []) w ≡ step sha256 w' s
  unfolding walk
  walk-append [] s w w' e = ground arith
  walk-append (x ∷ p) s w w' e = elim (Option-cases (step sha256 w x)) [
    | inl stop ↦ cc (rw (stop, walk) at e)
    | inr (v, go) ↦ rw (go, walk) (walk-append p s v w' (rw (go, walk) at e))
  ]
