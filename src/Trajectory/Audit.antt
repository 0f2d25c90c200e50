-- ===== src/Trajectory/Audit.antt =====
-- The audit returns.
use mathlib.Core.Option.{some-injective}
use mathlib.Core.List.{append_assoc}
use provenex_core.Prelude.{
  ℕ, zero, suc, ◌+◌, ◌<◌, ◌≤◌, ◌≡◌, ◌≢◌, refl, sym, ◌∙◌, ==_refl, Returns-map, Bool, true, false,
  Option, none, some, List, [], ◌∷◌, ◌++◌, ◌⊎◌, subst, All, arith, length, Returns, returns,
  Returns-bind, Bool-cases, Result, ok, err, ◌>>=◌, key_error, Returns-value, Option-cases, inl,
  inr, ◌==◌, nat_eq, list_eq, if◌then◌else◌,
}
use provenex_core.Text.{Text, text_eq_iff}
use provenex_core.Trajectory.{
  Receipt, dict_set, distinct, ids_of, audit_trajectory_dag, audit_blocks, structural_checks,
  index_blocks, blocks, Block, ById, dict_get, Color, white, gray, black, Colors, set_color, Frame,
  visit, work, visit_all, ParsedBlock, required, parents_of,
}

is_white : Color → Bool
is_white white = true
is_white gray = false
is_white black = false

-- What is still to do in the nodes not reached, and in the frames of the stack.
weight : Colors → ById → ℕ
weight color [] = 0
weight color ((k, b) ∷ d) =
    (if is_white (color k) then suc (length b.parent_step_ids) else 0) + weight color d

frames : List Frame → ℕ
frames [] = 0
frames ((node, ps) ∷ stack) = suc (length ps) + frames stack

weight-le_work : (color : Colors) (d : ById) → weight color d + 1 ≤ work d
unfolding weight work
weight-le_work color [] = omega arith
weight-le_work color ((k, b) ∷ d) = ground (arith, weight-le_work color d)

-- A node that is coloured gray or black weighs nothing.
weight-set_color :
    (color : Colors) (p : Text) (c : Color) (d : ById)
    → is_white c ≡ false
    → weight (set_color p c color) d ≤ weight color d
unfolding weight set_color
weight-set_color color p c [] h = omega arith
weight-set_color color p c ((k, b) ∷ d) h = ground (arith, weight-set_color color p c d h)

weight-reached :
    (color : Colors) (p : Text) (b : Block) (d : ById)
    → is_white (color p) ≡ true
    → dict_get p d ≡ some b
    → weight (set_color p gray color) d + suc (length b.parent_step_ids) ≤ weight color d
unfolding weight set_color dict_get is_white
weight-reached color p b [] w g = absurd (cc g)
weight-reached color p b ((k, b') ∷ d) w g = elim (Bool-cases (k == p)) [
  | inl e ↦
      let kp = (text_eq_iff k p).0 e in
      let pk = (text_eq_iff p k).1 (sym kp) in
      let bb = some-injective _ _ (rw e at g) in
      let lighter = weight-set_color color p gray d refl in
      rw (kp, ==_refl p, w, bb) (omega (arith, lighter))
  | inr e ↦
      let n = weight-reached color p b d w (rw e at g) in
      let other = (text_eq_iff p k).0 in ground (arith, n, e, other, (text_eq_iff k p).1)
]

pub color_cases : (c : Color) → (c ≡ white) ⊎ ((c ≡ gray) ⊎ (c ≡ black))
color_cases white = inl refl
color_cases gray = inr (inl refl)
color_cases black = inr (inr refl)

set_color_same : (p : Text) (c : Color) (color : Colors) → set_color p c color p ≡ c
unfolding set_color
set_color_same p c color = rw (==_refl p) refl

-- The loop returns on fuel that covers the work left.
visit-Returns :
    (fuel : ℕ) (d : ById) (color : Colors) (stack : List Frame)
    → weight color d + frames stack < fuel
    → Returns (λ (c, cycle). weight c d ≤ weight color d) (visit fuel d color stack)
unfolding visit frames is_white
visit-Returns zero d color stack h = absurd (omega (arith, h))
visit-Returns (suc fuel) d color [] h = returns (omega arith)
visit-Returns (suc fuel) d color ((node, []) ∷ stack) h =
    let lighter = weight-set_color color node black d refl in
    Returns-map
      (visit-Returns fuel d (set_color node black color) stack (omega (arith, h, lighter)))
      (λ (c, cycle) k. omega (arith, k, lighter))
visit-Returns (suc fuel) d color ((node, p ∷ ps) ∷ stack) h = elim (Option-cases (dict_get p d)) [
  | inl g ↦ rw (visit, g) (visit-Returns fuel d color ((node, ps) ∷ stack) (omega (arith, h)))
  | inr (b, g) ↦ elim (color_cases (color p)) [
    | inl w ↦
        let lighter = weight-reached color p b d (rw w refl) g in
        rw (visit, g, w)
          (Returns-map
            (visit-Returns fuel d (set_color p gray color)
              ((p, b.parent_step_ids) ∷ (node, ps) ∷ stack) (omega (arith, h, lighter)))
            (λ (c, cycle) k. omega (arith, k, lighter)))
    | inr (inl w) ↦ rw (visit, g, w) (returns (omega arith))
    | inr (inr w) ↦
        rw (visit, g, w) (visit-Returns fuel d color ((node, ps) ∷ stack) (omega (arith, h)))
  ]
]

-- Every entry's key is found.
pub dict_get-entry :
    (before : ById) (start : Text) (b : Block) (starts : ById)
    → dict_get start (before ++ (start, b) ∷ starts) ≢ none
unfolding dict_get
dict_get-entry [] start b starts n = cc (rw (==_refl start) at n)
dict_get-entry ((k, b') ∷ before) start b starts n = elim (Bool-cases (k == start)) [
  | inl e ↦ cc (rw e at n)
  | inr e ↦ dict_get-entry before start b starts (rw e at n)
]

-- The search returns for every dictionary: the steps given to each start are enough.
pub visit_all-Returns :
    (d before starts : ById) (color : Colors)
    → d ≡ before ++ starts
    → Returns (λ _. Unit {0}) (visit_all d starts color)
unfolding visit_all frames is_white
visit_all-Returns d before [] color e = returns tt
visit_all-Returns d before ((start, b) ∷ starts) color e =
    let e' = e ∙ sym (append_assoc before ((start, b) ∷ []) starts) in
    elim (color_cases (color start)) [
      | inl w ↦ elim (Option-cases (dict_get start d)) [
        | inl g ↦
            absurd (dict_get-entry before start b starts (subst (λ x. dict_get start x ≡ none) e g))
        | inr (b', g) ↦
            let lighter = weight-reached color start b' d (rw w refl) g in
            let all = weight-le_work color d in
            rw (visit_all, w, g)
              (Returns-bind
                (visit-Returns (work d) d (set_color start gray color)
                  ((start, b'.parent_step_ids) ∷ []) (omega (arith, all, lighter)))
                (λ (c, cycle) k. elim (Option-cases cycle) [
                  | inl n ↦ rw n (visit_all-Returns d (before ++ (start, b) ∷ []) starts c e')
                  | inr (p, n) ↦ rw n (returns tt)
                ]))
      ]
      | inr (inl w) ↦
          rw (visit_all, w) (visit_all-Returns d (before ++ (start, b) ∷ []) starts color e')
      | inr (inr w) ↦
          rw (visit_all, w) (visit_all-Returns d (before ++ (start, b) ∷ []) starts color e')
    ]

HasId : Option Text × Block → Type 0
HasId (r, b) = (id : Text) × (r ≡ some id)

index_blocks-Returns :
    (rs : List (Option Text × Block)) (d : ById)
    → All HasId rs
    → Returns (λ _. Unit {0}) (index_blocks rs d)
unfolding index_blocks HasId
index_blocks-Returns [] d h = returns tt
index_blocks-Returns ((none, b) ∷ rs) d h = absurd (cc (h.0.1))
index_blocks-Returns ((some id, b) ∷ rs) d h = index_blocks-Returns rs (dict_set id b d) h.1

-- The block has both keys.
unfoldable pub HasKeys : ParsedBlock → Type 0
HasKeys b =
    ((id : Text) × (b.trajectory_id ≡ some id))
    × ((parents : List Text) × (b.parent_step_ids ≡ some parents))

IsComplete : Option Text × ParsedBlock → Type 0
IsComplete (r, b) = ((id : Text) × (r ≡ some id)) × HasKeys b

ids_of-Returns :
    (rs : List (Option Text × ParsedBlock))
    → All IsComplete rs
    → Returns (λ _. Unit {0}) (ids_of rs)
unfolding ids_of required IsComplete HasKeys
ids_of-Returns [] h = returns tt
ids_of-Returns ((r, b) ∷ rs) h =
    rw h.0.1.0.1 (Returns-bind (ids_of-Returns rs h.1) λ ids _. returns tt)

parents_of-Returns :
    (rs : List (Option Text × ParsedBlock))
    → All IsComplete rs
    → Returns (All HasId) (parents_of rs)
unfolding parents_of required IsComplete HasKeys HasId
parents_of-Returns [] h = returns tt
parents_of-Returns ((r, b) ∷ rs) h =
    rw h.0.1.1.1 (Returns-bind (parents_of-Returns rs h.1) λ entries k. returns (h.0.0, k))

structural_checks-Returns :
    (count : ℕ) (id : Text) (rs : List (Option Text × ParsedBlock))
    → All IsComplete rs
    → Returns
        (λ r. (r.receipt_count ≡ count) × (length r.checks ≡ 5))
        (structural_checks count id rs)
unfolding structural_checks
structural_checks-Returns count id rs h = Returns-bind (parents_of-Returns rs h) λ entries k.
    Returns-bind (index_blocks-Returns entries [] k) λ d _.
      Returns-bind (visit_all-Returns d [] d (λ k. white) refl) λ cycle _. returns (refl, refl)

audit_blocks-Returns :
    (count : ℕ) (rs : List (Option Text × ParsedBlock)) (ids : List Text)
    → All IsComplete rs
    → Returns (λ r. r.receipt_count ≡ count) (audit_blocks count rs ids)
unfolding audit_blocks
audit_blocks-Returns count rs [] h = returns refl
audit_blocks-Returns count rs (id ∷ []) h =
    Returns-map (structural_checks-Returns count id rs h) (λ r k. k.0)
audit_blocks-Returns count rs (x ∷ y ∷ ids) h = returns refl

-- The receipt has an id, and its block, if it has one that is not empty, has both keys.
unfoldable pub IsAuditable : Receipt → Type 0
IsAuditable r =
    ((id : Text) × (r.receipt_id ≡ some id))
    × ((b : ParsedBlock) → r.trajectory ≡ some b → HasKeys b)

blocks-IsComplete :
    (receipts : List Receipt) (rs : List (Option Text × ParsedBlock))
    → All IsAuditable receipts
    → blocks receipts ≡ some rs
    → All IsComplete rs
unfolding blocks IsAuditable IsComplete
blocks-IsComplete [] rs h e = subst (All IsComplete) (some-injective _ _ e) tt
blocks-IsComplete (r ∷ receipts) rs h e = elim (Option-cases r.trajectory) [
  | inl n ↦ absurd (cc (rw n at e))
  | inr (b, n) ↦ elim (Option-cases (blocks receipts)) [
    | inl m ↦ absurd (cc (rw (n, m) at e))
    | inr (bs, m) ↦
        subst (All IsComplete) (some-injective _ _ (rw (n, m) at e))
          ((h.0.0, h.0.1 b n), blocks-IsComplete receipts bs h.1 m)
  ]
]

-- The call returns a value that satisfies `P`, or raises KeyError.
data Ends {ℓ κ} {A : Type ℓ} (P : A → Type κ) : Result A → Type (ℓ ⊔ κ) where
  ended : {a : A} → P a → Ends P (ok a)
  missing : Ends P (err key_error)

module _ {ℓ κ} {A : Type ℓ} {P : A → Type κ} where
  Ends-cases : {m : Result A} → Ends P m → Returns P m ⊎ (m ≡ err key_error)
  Ends-cases (ended p) = inl (returns p)
  Ends-cases missing = inr refl

  Ends-Returns : {m : Result A} → Returns P m → Ends P m
  Ends-Returns (returns p) = ended p

  Ends-bind {ℓ' κ'} :
      {B : Type ℓ'} {Q : B → Type κ'} {m : Result B} {f : B → Result A}
      → Ends Q m
      → ((b : B) → Ends P (f b))
      → Ends P (m >>= f)
  Ends-bind (ended q) k = k _
  Ends-bind missing k = missing

required-Ends {ℓ} : {A : Type ℓ} (o : Option A) → Ends (λ _. Unit {0}) (required o)
unfolding required
required-Ends none = missing
required-Ends (some a) = ended tt

index_blocks-Ends :
    (rs : List (Option Text × Block)) (d : ById) → Ends (λ _. Unit {0}) (index_blocks rs d)
unfolding index_blocks
index_blocks-Ends [] d = ended tt
index_blocks-Ends ((none, b) ∷ rs) d = missing
index_blocks-Ends ((some id, b) ∷ rs) d = index_blocks-Ends rs (dict_set id b d)

ids_of-Ends : (rs : List (Option Text × ParsedBlock)) → Ends (λ _. Unit {0}) (ids_of rs)
unfolding ids_of
ids_of-Ends [] = ended tt
ids_of-Ends ((r, b) ∷ rs) =
    Ends-bind (required-Ends b.trajectory_id) λ id. Ends-bind (ids_of-Ends rs) λ ids. ended tt

parents_of-Ends : (rs : List (Option Text × ParsedBlock)) → Ends (λ _. Unit {0}) (parents_of rs)
unfolding parents_of
parents_of-Ends [] = ended tt
parents_of-Ends ((r, b) ∷ rs) =
    Ends-bind (required-Ends b.parent_step_ids)
      λ parents. Ends-bind (parents_of-Ends rs) λ entries. ended tt

audit_blocks-Ends :
    (count : ℕ) (rs : List (Option Text × ParsedBlock)) (ids : List Text)
    → Ends (λ r. r.receipt_count ≡ count) (audit_blocks count rs ids)
unfolding audit_blocks structural_checks
audit_blocks-Ends count rs [] = ended refl
audit_blocks-Ends count rs (id ∷ []) = Ends-bind (parents_of-Ends rs) λ entries.
    Ends-bind (index_blocks-Ends entries [])
      λ d. Ends-bind (Ends-Returns (visit_all-Returns d [] d (λ k. white) refl)) λ cycle. ended refl
audit_blocks-Ends count rs (x ∷ y ∷ ids) = ended refl

audit_trajectory_dag-Ends :
    (receipts : List Receipt)
    → Ends (λ r. r.receipt_count ≡ length receipts) (audit_trajectory_dag receipts)
unfolding audit_trajectory_dag
audit_trajectory_dag-Ends receipts = elim (Option-cases (blocks receipts)) [
  | inl n ↦ rw (audit_trajectory_dag, n) (ended refl)
  | inr (rs, n) ↦
      rw (audit_trajectory_dag, n)
        (Ends-bind (ids_of-Ends rs) (λ ids. audit_blocks-Ends (length receipts) rs (distinct ids)))
]

complete_audit-Returns :
    (receipts : List Receipt)
    → All IsAuditable receipts
    → Returns (λ r. r.receipt_count ≡ length receipts) (audit_trajectory_dag receipts)
unfolding audit_trajectory_dag
complete_audit-Returns receipts h = elim (Option-cases (blocks receipts)) [
  | inl n ↦ rw (audit_trajectory_dag, n) (returns refl)
  | inr (rs, n) ↦
      let complete = blocks-IsComplete receipts rs h n in
      rw (audit_trajectory_dag, n)
        (Returns-bind (ids_of-Returns rs complete)
          (λ ids _. audit_blocks-Returns (length receipts) rs (distinct ids) complete))
]

-- The audit ends on every list of parsed receipts, cyclic or not: it returns, with the number of the
-- receipts, or it raises KeyError, and then some receipt has no id, or a block that is not empty and
-- lacks trajectory_id or parent_step_ids.
pub audit_trajectory_dag-Returns :
    (receipts : List Receipt)
    → Returns (λ r. r.receipt_count ≡ length receipts) (audit_trajectory_dag receipts)
      ⊎ ((audit_trajectory_dag receipts ≡ err key_error) × (All IsAuditable receipts → ⊥))
audit_trajectory_dag-Returns receipts = elim (Ends-cases (audit_trajectory_dag-Ends receipts)) [
  | inl r ↦ inl r
  | inr e ↦
      inr (e, λ h. let (a, k, _) = Returns-value (complete_audit-Returns receipts h) in absurd (cc))
]
