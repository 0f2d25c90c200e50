-- ===== src/Trajectory/Coherent.antt =====
-- What a passing audit says of the receipts.
use mathlib.Core.List.{Memᴰ}
use provenex_core.Prelude.{
  ℕ, ◌≡◌, refl, sym, ◌∙◌, ap, true, Option, none, some, List, [], ◌∷◌, arith, ok, ok-injective,
  Option-cases, inl, inr, subst, All, >>=-eq-ok, ◌==◌, nat_eq, list_eq, Bool-cases, Returns-at,
  length,
}
use provenex_core.Text.{Text, text_eq_iff}
use provenex_core.Trajectory.{
  Block, ById, Receipt, TrajectoryAuditResult, blocks, index_blocks, has_block, all_found,
  none_dangling, visit_all, white, is_none, has_root, all_hold, member, distinct, ids_of,
  structural_checks, audit_blocks, audit_trajectory_dag, ParsedBlock, parents_of, dict_get,
}
use provenex_core.Trajectory.Ancestors.{Lists, Ancestor, IsRepeated, Ancestor-Reaches}
use provenex_core.Trajectory.Graph.{Reaches}
use provenex_core.Trajectory.Detects.{visit_all-detects}

member-single : (x id : Text) → member x (id ∷ []) ≡ true → x ≡ id
unfolding member
member-single x id h = elim (Bool-cases (x == id)) [
  | inl e ↦ (text_eq_iff x id).0 e
  | inr e ↦ cc (rw e at h)
]

distinct-nil : (xs : List Text) → distinct xs ≡ [] → xs ≡ []
unfolding distinct member
distinct-nil [] h = refl
distinct-nil (x ∷ xs) h = elim (Bool-cases (member x (distinct xs))) [
  | inl e ↦ cc (subst (λ l. member x l ≡ true) (rw e at h) e)
  | inr e ↦ cc (rw e at h)
]

same_parts : {x y : Text} {xs ys : List Text} → x ∷ xs ≡ y ∷ ys → (x ≡ y) × (xs ≡ ys)
same_parts e = (cc, cc)

-- One distinct text means that all are that text.
distinct-single : (xs : List Text) (id : Text) → distinct xs ≡ id ∷ [] → All (λ x. x ≡ id) xs
unfolding distinct
distinct-single [] id h = tt
distinct-single (x ∷ xs) id h = elim (Bool-cases (member x (distinct xs))) [
  | inl e ↦
      let rest : distinct xs ≡ id ∷ [] = rw e at h in
      (member-single x id (subst (λ l. member x l ≡ true) rest e), distinct-single xs id rest)
  | inr e ↦
      let (first, rest) = same_parts (rw e at h) in
      (first, subst (All (λ y. y ≡ id)) (sym (distinct-nil xs rest)) tt)
]

all_found-All :
    (d : ById) (ps : List Text) → all_found d ps ≡ true → All (λ p. has_block d p ≡ true) ps
unfolding all_found
all_found-All d [] h = tt
all_found-All d (p ∷ ps) h = (ground (arith, h), all_found-All d ps (ground (arith, h)))

-- Every parent of the receipt is in the dictionary.
pub Resolved : ById → Option Text × Block → Type 0
Resolved d e = All (λ p. has_block d p ≡ true) e.1.parent_step_ids

none_dangling-All :
    (d : ById) (rs : List (Option Text × Block)) → none_dangling d rs ≡ true → All (Resolved d) rs
unfolding none_dangling Resolved
none_dangling-All d [] h = tt
none_dangling-All d ((r, b) ∷ rs) h = (
  all_found-All d b.parent_step_ids (ground (arith, h)),
  none_dangling-All d rs (ground (arith, h)),
)

has_root-Memᴰ :
    (rs : List (Option Text × Block))
    → has_root rs ≡ true
    → (e : Option Text × Block) × Memᴰ e rs × (e.1.parent_step_ids ≡ [])
unfolding has_root
has_root-Memᴰ [] h = absurd (cc h)
has_root-Memᴰ ((r, b) ∷ rs) h = elim (Bool-cases (length b.parent_step_ids == 0)) [
  | inl e ↦ ((r, b), Memᴰ.head refl, no_parents b.parent_step_ids e)
  | inr e ↦ let (x, m, n) = has_root-Memᴰ rs (rw e at h) in (x, Memᴰ.tail m, n)
]
  where
    no_parents : (ps : List Text) → (length ps == 0) ≡ true → ps ≡ []
    no_parents [] h = refl
    no_parents (p ∷ ps) h = ground (arith, h)

-- The receipts form a trajectory: their blocks share one id, every parent is in their dictionary,
-- some receipt is a root, no receipt of the dictionary, which is the last of its id, is its own
-- ancestor. Only where two receipts of one id list different parents is any receipt its own ancestor.
pub record IsCoherent (receipts : List Receipt) : Type 0 where
  pub parsed : List (Option Text × ParsedBlock)
  pub ids : List Text
  pub entries : List (Option Text × Block)
  pub by_id : ById
  pub id : Text
  pub all_blocks : blocks receipts ≡ some parsed
  pub ids_read : ids_of parsed ≡ ok ids
  pub parents_read : parents_of parsed ≡ ok entries
  pub indexed : index_blocks entries [] ≡ ok by_id
  pub shared : All (λ x. x ≡ id) ids
  pub resolved : All (Resolved by_id) entries
  pub rooted : (e : Option Text × Block) × Memᴰ e entries × (e.1.parent_step_ids ≡ [])
  pub acyclic : (x : Text) → Reaches by_id x x → ⊥
  pub own_ancestor : (x : Text) → Ancestor entries x x → IsRepeated entries

is_none_lem : (o : Option Text) → is_none o ≡ true → o ≡ none
unfolding is_none
is_none_lem none h = refl
is_none_lem (some x) h = cc

All-Memᴰ :
    (P : Option Text × Block → Type 0) (es : List (Option Text × Block)) (e : Option Text × Block)
    → All P es
    → Memᴰ e es
    → P e
All-Memᴰ P [] e h m = elim m [ ]
All-Memᴰ P (x ∷ es) e h (Memᴰ.head q) = subst P (sym q) h.0
All-Memᴰ P (x ∷ es) e h (Memᴰ.tail m) = All-Memᴰ P es e h.1 m

found_parent :
    (d : ById) (ps : List Text) (y : Text)
    → All (λ p. has_block d p ≡ true) ps
    → Memᴰ y ps
    → (b : Block) × (dict_get y d ≡ some b)
unfolding has_block
found_parent d [] y h m = elim m [ ]
found_parent d (p ∷ ps) y h (Memᴰ.head q) = elim (Option-cases (dict_get p d)) [
  | inl n ↦ let first = h.0 in absurd (cc (rw (has_block, n) at first))
  | inr (b, g) ↦ (b, ap (λ z. dict_get z d) q ∙ g)
]
found_parent d (p ∷ ps) y h (Memᴰ.tail m) = found_parent d ps y h.1 m

lookup_listed :
    (d : ById) (es : List (Option Text × Block))
    → All (Resolved d) es
    → (x y : Text) → Lists es x y
    → (b : Block) × (dict_get y d ≡ some b)
unfolding Resolved
lookup_listed d es h x y l =
    found_parent d l.block.parent_step_ids y (All-Memᴰ (Resolved d) es (some x, l.block) h l.entry)
      l.parent

structural_checks-IsCoherent :
    (receipts : List Receipt) (count : ℕ) (id : Text) (parsed : List (Option Text × ParsedBlock))
    (ids : List Text) (r : TrajectoryAuditResult)
    → blocks receipts ≡ some parsed
    → ids_of parsed ≡ ok ids
    → distinct ids ≡ id ∷ []
    → structural_checks count id parsed ≡ ok r
    → r.holds ≡ true
    → IsCoherent receipts
unfolding structural_checks all_hold
structural_checks-IsCoherent receipts count id parsed ids r b ir u h t =
    let (rs, pr, h₀) = >>=-eq-ok (parents_of parsed) _ h in
    let (d, i, h₁) = >>=-eq-ok (index_blocks rs []) _ h₀ in
    let (cycle, v, h₂) = >>=-eq-ok (visit_all d d (λ k. white)) _ h₁ in
    let holds = ap (λ x. x.holds) (ok-injective h₂) ∙ t in
    let clean =
      (Returns-at (visit_all-detects d) v).1 (is_none_lem cycle (ground (arith, holds))) in
    let found = none_dangling-All d rs (ground (arith, holds)) in
    record {
      parsed = parsed;
      ids = ids;
      entries = rs;
      by_id = d;
      id = id;
      all_blocks = b;
      ids_read = ir;
      parents_read = pr;
      indexed = i;
      shared = distinct-single ids id u;
      resolved = found;
      rooted = has_root-Memᴰ rs (ground (arith, holds));
      acyclic = clean;
      own_ancestor = λ x a. elim (Ancestor-Reaches rs d i (lookup_listed d rs found) a) [
        | inl p ↦ absurd (clean x p)
        | inr r ↦ r
      ];
    }

audit_blocks-IsCoherent :
    (receipts : List Receipt) (count : ℕ) (parsed : List (Option Text × ParsedBlock))
    (ids unique : List Text) (r : TrajectoryAuditResult)
    → blocks receipts ≡ some parsed
    → ids_of parsed ≡ ok ids
    → distinct ids ≡ unique
    → audit_blocks count parsed unique ≡ ok r
    → r.holds ≡ true
    → IsCoherent receipts
unfolding audit_blocks
audit_blocks-IsCoherent receipts count rs ids [] r b i u h t =
    absurd (cc (ap (λ x. x.holds) (ok-injective h) ∙ t))
audit_blocks-IsCoherent receipts count rs ids (id ∷ []) r b i u h t =
    structural_checks-IsCoherent receipts count id rs ids r b i u h t
audit_blocks-IsCoherent receipts count rs ids (x ∷ y ∷ us) r b i u h t =
    absurd (cc (ap (λ x. x.holds) (ok-injective h) ∙ t))

-- Receipts that pass the audit form a trajectory: they share one trajectory_id, every parent is in
-- the dictionary by id, some receipt is a root, and no receipt of the dictionary, which is the last
-- of its id, is its own ancestor. Through the parents that any of the receipts lists, a receipt is
-- its own ancestor only where two receipts of one id list different parents.
pub audit_trajectory_dag-IsCoherent :
    (receipts : List Receipt) (r : TrajectoryAuditResult)
    → audit_trajectory_dag receipts ≡ ok r
    → r.holds ≡ true
    → IsCoherent receipts
unfolding audit_trajectory_dag
audit_trajectory_dag-IsCoherent receipts r h t = elim (Option-cases (blocks receipts)) [
  | inl n ↦ absurd (cc (ap (λ x. x.holds) (ok-injective (rw (audit_trajectory_dag, n) at h)) ∙ t))
  | inr (rs, n) ↦
      let (ids, i, k) = >>=-eq-ok (ids_of rs) _ (rw (audit_trajectory_dag, n) at h) in
      audit_blocks-IsCoherent receipts (length receipts) rs ids (distinct ids) r n i refl k t
]
