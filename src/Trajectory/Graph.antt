-- ===== src/Trajectory/Graph.antt =====
-- The graph of parents, and what the colours of the search say about it.
use mathlib.Core.List.{Memᴰ}
use provenex_core.Prelude.{
  ◌≡◌, ◌≢◌, refl, sym, ◌∙◌, ◌⊎◌, inl, inr, some, arith, ◌==◌, nat_eq, list_eq, Bool-cases, ==_refl,
  subst,
}
use provenex_core.Text.{Text, text_eq_iff}
use provenex_core.Trajectory.{Block, ById, dict_get, Color, black, Colors, set_color}

-- `y` is a parent of `x`, and both are in the dictionary.
pub record Edge (d : ById) (x y : Text) : Type 0 where
  pub block : Block
  pub target : Block
  pub found : dict_get x d ≡ some block
  pub parent : Memᴰ y block.parent_step_ids
  pub known : dict_get y d ≡ some target

-- A path of at least one edge.
pub data Reaches (d : ById) : Text → Text → Type 0 where
  one : {x y : Text} → Edge d x y → Reaches d x y
  more : {x y z : Text} → Edge d x y → Reaches d y z → Reaches d x z

pub Reaches-then : {d : ById} {x y z : Text} → Reaches d x y → Reaches d y z → Reaches d x z
Reaches-then (one e) r = more e r
Reaches-then (more e q) r = more e (Reaches-then q r)

pub set_color-same : (k : Text) (c : Color) (color : Colors) → set_color k c color k ≡ c
unfolding set_color
set_color-same k c color = rw (==_refl k) refl

pub set_color-other :
    (k x : Text) (c : Color) (color : Colors) → (k ≢ x) → set_color k c color x ≡ color x
unfolding set_color
set_color-other k x c color n = elim (Bool-cases (k == x)) [
  | inl e ↦ absurd (n ((text_eq_iff k x).0 e))
  | inr e ↦ rw e refl
]

pub text_cases : (k x : Text) → (k ≡ x) ⊎ (k ≢ x)
text_cases k x = elim (Bool-cases (k == x)) [
  | inl e ↦ inl ((text_eq_iff k x).0 e)
  | inr e ↦ inr (λ q. ground (arith, e, (text_eq_iff k x).1 q))
]

-- Whoever a black node has for parent is black.
unfoldable pub Closed : ById → Colors → Type 0
Closed d color = (x y : Text) → color x ≡ black → Edge d x y → color y ≡ black

unfoldable pub Acyclic : ById → Colors → Type 0
Acyclic d color = (x : Text) → color x ≡ black → Reaches d x x → ⊥

pub Reaches-black :
    {d : ById} (color : Colors) {x y : Text}
    → Closed d color
    → color x ≡ black
    → Reaches d x y
    → color y ≡ black
unfolding Closed
Reaches-black color c b (one {x} {y} e) = c x y b e
Reaches-black color c b (more {x} {y} e r) = Reaches-black color c (c x y b e) r

-- A node whose parents are all black can be coloured black: it is on no cycle.
finished-no_cycle :
    (d : ById) (color : Colors) (x : Text)
    → Closed d color
    → color x ≢ black
    → ((y : Text) → Edge d x y → color y ≡ black)
    → Reaches d x x
    → ⊥
finished-no_cycle d color x c n all (one e) = n (all x e)
finished-no_cycle d color x c n all (more {y = y} e r) = n (Reaches-black color c (all y e) r)

pub Closed-finished :
    (d : ById) (color : Colors) (x : Text)
    → Closed d color
    → ((y : Text) → Edge d x y → color y ≡ black)
    → Closed d (set_color x black color)
unfolding Closed
Closed-finished d color x c all u y b e = elim (text_cases x y) [
  | inl q ↦ subst (λ z. set_color x black color z ≡ black) q (set_color-same x black color)
  | inr q ↦ set_color-other x y black color q ∙ (elim (text_cases x u) [
    | inl p ↦ all y (subst (λ z. Edge d z y) (sym p) e)
    | inr p ↦ c u y (sym (set_color-other x u black color p) ∙ b) e
  ])
]

pub Acyclic-finished :
    (d : ById) (color : Colors) (x : Text)
    → Closed d color
    → Acyclic d color
    → color x ≢ black
    → ((y : Text) → Edge d x y → color y ≡ black)
    → Acyclic d (set_color x black color)
unfolding Acyclic
Acyclic-finished d color x c a n all u b r = elim (text_cases x u) [
  | inl p ↦ finished-no_cycle d color x c n all (subst (λ z. Reaches d z z) (sym p) r)
  | inr p ↦ a u (sym (set_color-other x u black color p) ∙ b) r
]
