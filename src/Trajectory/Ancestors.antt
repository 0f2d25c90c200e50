-- ===== src/Trajectory/Ancestors.antt =====
-- The ancestors that receipts list, and their dictionary by id.
use mathlib.Core.List.{Memᴰ}
use mathlib.Core.Option.{some-injective}
use provenex_core.Prelude.{
  ◌≡◌, ◌≢◌, refl, sym, list_beq_iff, arith, ◌∙◌, ap, false, Option, none, some, List, [], ◌∷◌, ◌⊎◌,
  inl, inr, ok, Bool-cases, ◌==◌, nat_eq, list_eq, ==_refl, subst, ok-injective, if◌then◌else◌,
}
use provenex_core.Text.{Text, text_eq_iff}
use provenex_core.Trajectory.{Block, ById, dict_get, dict_set, index_blocks}
use provenex_core.Trajectory.Graph.{Edge, Reaches, one, more}

-- `y` is a parent that a receipt of id `x` lists.
pub record Lists (entries : List (Option Text × Block)) (x y : Text) : Type 0 where
  pub block : Block
  pub entry : Memᴰ (some x, block) entries
  pub parent : Memᴰ y block.parent_step_ids

-- `y` is an ancestor of `x`: a path of at least one parent.
pub data Ancestor (entries : List (Option Text × Block)) : Text → Text → Type 0 where
  parent : {x y : Text} → Lists entries x y → Ancestor entries x y
  beyond : {x y z : Text} → Lists entries x y → Ancestor entries y z → Ancestor entries x z

-- Two receipts have one id and list different parents.
pub record IsRepeated (entries : List (Option Text × Block)) : Type 0 where
  pub repeated : Text
  pub first : Block
  pub second : Block
  pub has_first : Memᴰ (some repeated, first) entries
  pub has_second : Memᴰ (some repeated, second) entries
  pub differ : first.parent_step_ids ≢ second.parent_step_ids

get-dict_set : (k : Text) (b : Block) (d : ById) → dict_get k (dict_set k b d) ≡ some b
unfolding dict_get dict_set
get-dict_set k b [] = rw (==_refl k) refl
get-dict_set k b ((k', b') ∷ d) = elim (Bool-cases (k' == k)) [
  | inl e ↦ rw (e, e) refl
  | inr e ↦ rw (e, e) (get-dict_set k b d)
]

get-dict_set_other :
    (k x : Text) (b : Block) (d : ById)
    → (k == x) ≡ false
    → dict_get x (dict_set k b d) ≡ dict_get x d
unfolding dict_get dict_set
get-dict_set_other k x b [] n = rw n refl
get-dict_set_other k x b ((k', b') ∷ d) n = elim (Bool-cases (k' == k)) [
  | inl e ↦ let same = (text_eq_iff k' k).0 e in rw (same, ==_refl k, n) refl
  | inr e ↦ rw e (ap (λ o. if k' == x then some b' else o) (get-dict_set_other k x b d n))
]

-- What the dictionary had is kept, or replaced by a later entry of the same id.
index_blocks-keeps :
    (es : List (Option Text × Block)) (d d' : ById) (x : Text) (b : Block)
    → index_blocks es d ≡ ok d'
    → dict_get x d ≡ some b
    → (b' : Block) × (dict_get x d' ≡ some b') × (Memᴰ (some x, b') es ⊎ (b' ≡ b))
unfolding index_blocks
index_blocks-keeps [] d d' x b i g = (b, ap (dict_get x) (sym (ok-injective i)) ∙ g, inr refl)
index_blocks-keeps ((none, c) ∷ es) d d' x b i g = absurd (cc i)
index_blocks-keeps ((some k, c) ∷ es) d d' x b i g = elim (Bool-cases (k == x)) [
  | inl e ↦
      let same = (text_eq_iff k x).0 e in
      let got = subst (λ y. dict_get y (dict_set k c d) ≡ some c) same (get-dict_set k c d) in
      let (b', g', m) = index_blocks-keeps es (dict_set k c d) d' x c i got in
      (b', g', inl (elim m [ inl l ↦ Memᴰ.tail l | inr q ↦ Memᴰ.head (rw (same, q) refl) ]))
  | inr e ↦
      let (b', g', m) =
        index_blocks-keeps es (dict_set k c d) d' x b i (get-dict_set_other k x c d e ∙ g) in
      (b', g', elim m [ inl l ↦ inl (Memᴰ.tail l) | inr q ↦ inr q ])
]

entry_parts :
    {x y : Text} {b c : Block}
    → ◌≡◌ {A = Option Text × Block} (some x, b) (some y, c)
    → (x ≡ y) × (b ≡ c)
entry_parts e = (some-injective _ _ (ap (λ p. p.0) e), ap (λ p. p.1) e)

-- Every entry's id is found, with the block of an entry of that id.
index_blocks-finds :
    (es : List (Option Text × Block)) (d d' : ById) (x : Text) (b : Block)
    → index_blocks es d ≡ ok d'
    → Memᴰ (some x, b) es
    → (b' : Block) × (dict_get x d' ≡ some b') × Memᴰ (some x, b') es
unfolding index_blocks
index_blocks-finds [] d d' x b i m = elim m [ ]
index_blocks-finds ((none, c) ∷ es) d d' x b i m = absurd (cc i)
index_blocks-finds ((some k, c) ∷ es) d d' x b i (Memᴰ.head e) =
    let (same, block) = entry_parts e in
    let got = subst (λ y. dict_get y (dict_set k c d) ≡ some c) (sym same) (get-dict_set k c d) in
    let (b', g, m) = index_blocks-keeps es (dict_set k c d) d' x c i got in
    (b', g, elim m [ inl l ↦ Memᴰ.tail l | inr q ↦ Memᴰ.head (rw (same, q) refl) ])
index_blocks-finds ((some k, c) ∷ es) d d' x b i (Memᴰ.tail m) =
    let (b', g, n) = index_blocks-finds es (dict_set k c d) d' x b i m in (b', g, Memᴰ.tail n)

parents_cases : (b c : Block) → (b ≡ c) ⊎ (b.parent_step_ids ≢ c.parent_step_ids)
parents_cases b c =
    let (same, eq) = list_beq_iff b.parent_step_ids c.parent_step_ids in
    elim (Bool-cases (b.parent_step_ids == c.parent_step_ids)) [
      | inl e ↦ inl (ap (λ ps. record { parent_step_ids = ps }) (same e))
      | inr e ↦ inr (λ q. ground (arith, e, eq q))
    ]

module _ (entries : List (Option Text × Block)) (d : ById)
    (indexed : index_blocks entries [] ≡ ok d)
    (known : (x y : Text) → Lists entries x y → (b : Block) × (dict_get y d ≡ some b)) where
  Lists-Edge : {x y : Text} → Lists entries x y → Edge d x y ⊎ IsRepeated entries
  Lists-Edge {x} {y} l =
      let (b, g, m) = index_blocks-finds entries [] d x l.block indexed l.entry in
      let (target, k) = known x y l in
      elim (parents_cases b l.block) [
        | inl q ↦ inl (record {
          block = l.block;
          target = target;
          found = g ∙ ap some q;
          parent = l.parent;
          known = k;
        })
        | inr n ↦ inr (record {
          repeated = x;
          first = b;
          second = l.block;
          has_first = m;
          has_second = l.entry;
          differ = n;
        })
      ]

  pub Ancestor-Reaches : {x y : Text} → Ancestor entries x y → Reaches d x y ⊎ IsRepeated entries
  Ancestor-Reaches (parent l) = elim (Lists-Edge l) [ inl e ↦ inl (one e) | inr r ↦ inr r ]
  Ancestor-Reaches (beyond l a) = elim (Lists-Edge l) [
    | inl e ↦ elim (Ancestor-Reaches a) [ inl p ↦ inl (more e p) | inr r ↦ inr r ]
    | inr r ↦ inr r
  ]
