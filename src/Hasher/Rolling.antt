-- ===== src/Hasher/Rolling.antt =====
-- Rolling a window by one codepoint: the hash is that of the new window primed afresh.
use native.Mathlib.Nat.{
  mod-add-mod, add-mod-mod, add-mul-mod_self_left, mod-add-div, pow-suc, pow-zero, mod-lt,
}
use provenex_core.Prelude.{
  ℕ, zero, suc, ◌+◌, ◌-◌, ◌*◌, ◌/◌, ◌%◌, ◌^◌, ◌<◌, ◌≤◌, ◌≡◌, refl, sym, ◌∙◌, ap, true, false, List,
  [], ◌∷◌, ◌++◌, Result, arith, length, length-append, Returns, returns, ◌>>=◌, ◌==◌, nat_eq, ltb,
  ==_refl,
}
use provenex_core.Hasher.{
  base, modulus, RollingHasher, pow_mod, create, hash_from, prime, sub_mod, roll,
}

split_product : (r q a b m : ℕ) → r + m * q ≡ a → r * b + m * (q * b) ≡ a * b
split_product r q a b m e = omega (arith, ap (λ (t : ℕ). t * b) e)

mul-mod_left_lem : (a b m : ℕ) → (a % m * b) % m ≡ (a * b) % m
mul-mod_left_lem a b m =
    sym (add-mul-mod_self_left (a % m * b) m (a / m * b))
    ∙ ap (λ x. x % m) (split_product (a % m) (a / m) a b m (mod-add-div a m))

pow_mod_lem : (b n m : ℕ) → pow_mod b n m ≡ b ^ n % m
unfolding pow_mod
pow_mod_lem b zero m = ap (λ x. x % m) (sym (pow-zero b))
pow_mod_lem b (suc n) m =
    ap (λ x. (x * b) % m) (pow_mod_lem b n m)
    ∙ mul-mod_left_lem (b ^ n) b m
    ∙ ap (λ x. x % m) (sym (pow-suc b n))

-- A step of Horner's rule reads its hash modulo m.
step-mod : (h b c m : ℕ) → (h % m * b + c) % m ≡ (h * b + c) % m
step-mod h b c m =
    sym (mod-add-mod (h % m * b) m c)
    ∙ ap (λ x. (x + c) % m) (mul-mod_left_lem h b m)
    ∙ mod-add-mod (h * b) m c

regroup : (h cp p x : ℕ) → (h * base + cp) * p + x ≡ h * (p * base) + ((0 + cp) * p + x)
regroup h cp p x = omega arith

-- A start value counts with the power of the base.
hash_from-start :
    (h : ℕ) (cps : List ℕ)
    → hash_from h cps % modulus ≡ (h * base ^ length cps + hash_from 0 cps) % modulus
unfolding hash_from
hash_from-start h [] = omega arith
hash_from-start h (cp ∷ cps) =
    let p = base ^ length cps in
    let x = hash_from 0 cps in
    hash_from-start ((h * base + cp) % modulus) cps
    ∙ step-mod (h * base + cp) p x modulus
    ∙ ap (λ y. y % modulus) (regroup h cp p x)
    ∙ ap (λ q. (h * q + ((0 + cp) * p + x)) % modulus) (sym (pow-suc base (length cps)))
    ∙ sym (add-mod-mod (h * base ^ suc (length cps)) ((0 + cp) * p + x) modulus)
    ∙ ap (λ y. (h * base ^ suc (length cps) + y) % modulus)
        (sym (step-mod (0 + cp) p x modulus) ∙ sym (hash_from-start ((0 + cp) % modulus) cps))
    ∙ add-mod-mod (h * base ^ suc (length cps)) (hash_from ((0 + cp) % modulus) cps) modulus

hash_from-append :
    (h : ℕ) (cps : List ℕ) (c : ℕ)
    → hash_from h (cps ++ c ∷ []) ≡ (hash_from h cps * base + c) % modulus
unfolding hash_from
hash_from-append h [] c = refl
hash_from-append h (cp ∷ cps) c = hash_from-append ((h * base + cp) % modulus) cps c

whole_turns : (a b c m : ℕ) → 0 < m → b + c + (m - b % m) ≡ c + m * (b / m + 1)
whole_turns a b c m p = omega (arith, mod-add-div b m, mod-lt b p)

-- Subtraction modulo m.
sub_mod-cancel : (a b c m : ℕ) → 0 < m → a % m ≡ (b + c) % m → sub_mod a b m ≡ c % m
unfolding sub_mod
sub_mod-cancel a b c m p e =
    sym (mod-add-mod a m (m - b % m))
    ∙ ap (λ x. (x + (m - b % m)) % m) e
    ∙ mod-add-mod (b + c) m (m - b % m)
    ∙ ap (λ x. x % m) (whole_turns a b c m p)
    ∙ add-mul-mod_self_left c m (b / m + 1)

-- The hasher stands on the window `w`.
pub record IsPrimed (w : List ℕ) (r : RollingHasher) : Type 0 where
  pub size : r.window_size ≡ length w
  pub top : r.top_power ≡ pow_mod base (length w - 1) modulus
  pub hash : r.value ≡ hash_from 0 w
  pub set_up : r.primed ≡ true

step-mod_right : (a y x m : ℕ) → (a * (y % m) + x) % m ≡ (a * y + x) % m
step-mod_right a y x m =
    ap (λ z. (z + x) % m) (commute a (y % m))
    ∙ step-mod y a x m
    ∙ ap (λ z. (z + x) % m) (commute y a)
  where
    commute : (a b : ℕ) → a * b ≡ b * a
    commute a b = omega arith

-- What is left of the hash without the oldest codepoint.
drop_oldest :
    (out : ℕ) (mid : List ℕ)
    → sub_mod (hash_from 0 (out ∷ mid)) (out * pow_mod base (length mid) modulus) modulus
      ≡ hash_from 0 mid % modulus
unfolding hash_from
drop_oldest out mid =
    let x = hash_from 0 mid in
    let p = base ^ length mid in
    sub_mod-cancel (hash_from ((0 + out) % modulus) mid) (out * pow_mod base (length mid) modulus) x
      modulus (omega arith)
      (hash_from-start ((0 + out) % modulus) mid
        ∙ step-mod (0 + out) p x modulus
        ∙ ap (λ z. (z * p + x) % modulus) (from_zero out)
        ∙ sym (step-mod_right out p x modulus)
        ∙ ap (λ t. (out * t + x) % modulus) (sym (pow_mod_lem base (length mid) modulus)))
  where
    from_zero : (n : ℕ) → 0 + n ≡ n
    from_zero n = omega arith

-- A hasher of the window's size returns from `prime`, and stands on the window.
pub prime-IsPrimed :
    (w : List ℕ) → 1 ≤ length w → Returns (IsPrimed w) (create (length w) >>= λ r. prime r w)
unfolding create prime
prime-IsPrimed w h =
    let small : ltb (length w) 1 ≡ false = ground arith in
    let same : (length w == length w) ≡ true = ==_refl (length w) in
    rw (small, same) (returns (record { size = refl; top = refl; hash = refl; set_up = refl }))

-- The start of a computation on a text of the hasher's size.
pub create-prime {ℓ} :
    {B : Type ℓ} (w : List ℕ) (n : ℕ) (k : RollingHasher → Result B)
    → n ≡ length w
    → 1 ≤ n
    → (r : RollingHasher) × IsPrimed w r × ((create n >>= λ r₀. prime r₀ w >>= k) ≡ k r)
unfolding create prime
create-prime w n k e h =
    let small : ltb n 1 ≡ false = ground arith in
    let same : (length w == n) ≡ true = rw e (==_refl (length w)) in
    (
      record {
        window_size = n;
        top_power = pow_mod base (n - 1) modulus;
        value = hash_from 0 w;
        primed = true;
      },
      record {
        size = e;
        top = ap (λ m. pow_mod base (m - 1) modulus) e;
        hash = refl;
        set_up = refl;
      },
      rw (small, same) refl,
    )

rolled_value :
    (out inn : ℕ) (mid : List ℕ)
    → (sub_mod (hash_from 0 (out ∷ mid)) (out * pow_mod base (length mid) modulus) modulus * base
          + inn)
        % modulus
      ≡ hash_from 0 (mid ++ inn ∷ [])
rolled_value out inn mid =
    ap (λ h. (h * base + inn) % modulus) (drop_oldest out mid)
    ∙ step-mod (hash_from 0 mid) base inn modulus
    ∙ sym (hash_from-append 0 mid inn)

-- Rolled by one codepoint, a hasher on `out ∷ mid` returns and stands on `mid` with the new
-- codepoint at its end: its value is the one that priming with that window gives.
pub roll-IsPrimed :
    (out inn : ℕ) (mid : List ℕ) (r : RollingHasher)
    → IsPrimed (out ∷ mid) r
    → Returns (IsPrimed (mid ++ inn ∷ [])) (roll r out inn)
unfolding roll
roll-IsPrimed out inn mid r p =
    let top : r.top_power ≡ pow_mod base (length mid) modulus =
      p.top ∙ ap (λ n. pow_mod base n modulus) (one_less (length mid)) in
    let len : length (mid ++ inn ∷ []) ≡ length mid + 1 = length-append mid (inn ∷ []) in
    simp p.set_up (
      returns (record {
        size = omega (arith, p.size, len);
        top = top ∙ ap (λ n. pow_mod base n modulus) (omega (arith, len));
        hash = rw (top, p.hash) (rolled_value out inn mid);
        set_up = refl;
      }))
  where
    one_less : (n : ℕ) → suc n - 1 ≡ n
    one_less n = omega arith
