-- ===== src/Trajectory/Search.antt =====
-- The invariant of the search: the gray nodes are the stack, each a parent of the one below it, and
-- the black ones are closed under parents and on no cycle.
use mathlib.Core.List.{Memᴰ, append_assoc}
use provenex_core.Prelude.{
  ◌≡◌, ◌≢◌, refl, sym, ◌∙◌, ◌⊎◌, inl, inr, Option, none, some, List, [], ◌∷◌, ◌++◌, subst, All,
  All-imp, All-append,
}
use provenex_core.Text.{Text}
use provenex_core.Trajectory.{Block, ById, dict_get, gray, black, Colors, Frame}
use provenex_core.Trajectory.Graph.{Edge, Reaches, one, Reaches-then, Closed, Acyclic}

module _ (d : ById) where
  -- A parent that was looked at is black, or is the node above, or is not in the dictionary.
  abbrev pub Seen : Colors → Option Text → Text → Type 0
  Seen color above y = (b : Block) → dict_get y d ≡ some b → (color y ≡ black) ⊎ (above ≡ some y)

  pub record FrameOk (color : Colors) (above : Option Text) (node : Text) (ps : List Text)
      : Type 0 where
    pub block : Block
    pub found : dict_get node d ≡ some block
    pub done : List Text
    pub split : done ++ ps ≡ block.parent_step_ids
    pub seen : All (Seen color above) done
    pub shade : color node ≡ gray
    pub link : (a : Text) → above ≡ some a → Edge d node a

  abbrev pub Apart : Text → List Frame → Type 0
  Apart k stack = All (λ f. f.0 ≢ k) stack

  pub data Stacked (color : Colors) : Option Text → List Frame → Type 0 where
    bottom : {above : Option Text} → Stacked color above []
    frame :
        {above : Option Text} {node : Text} {ps : List Text} {stack : List Frame}
        → FrameOk color above node ps
        → Apart node stack
        → Stacked color (some node) stack
        → Stacked color above ((node, ps) ∷ stack)

  unfoldable pub OnStack : Text → List Frame → Type 0
  OnStack x [] = ⊥
  OnStack x ((node, ps) ∷ stack) = (x ≡ node) ⊎ OnStack x stack

  pub record Searching (color : Colors) (stack : List Frame) : Type 0 where
    pub stacked : Stacked color none stack
    pub grays : (x : Text) → color x ≡ gray → OnStack x stack
    pub closed : Closed d color
    pub acyclic : Acyclic d color

  -- A change of colour at `k` alone, that leaves black what is black.
  pub record Recolored (k : Text) (color color' : Colors) : Type 0 where
    pub blacks : (y : Text) → color y ≡ black → color' y ≡ black
    pub others : (y : Text) → y ≢ k → color' y ≡ color y

  pub FrameOk-Recolored :
      (k : Text) (color color' : Colors) (above : Option Text) (node : Text) (ps : List Text)
      → Recolored k color color'
      → node ≢ k
      → FrameOk color above node ps
      → FrameOk color' above node ps
  FrameOk-Recolored k color color' above node ps r n f = record {
    block = f.block;
    found = f.found;
    done = f.done;
    split = f.split;
    seen =
        All-imp _ _ f.done (λ y s b g. elim (s b g) [ inl e ↦ inl (r.blacks y e) | inr e ↦ inr e ])
          f.seen;
    shade = r.others node n ∙ f.shade;
    link = f.link;
  }

  pub Stacked-Recolored :
      (k : Text) (color color' : Colors) (above : Option Text) (stack : List Frame)
      → Recolored k color color'
      → Apart k stack
      → Stacked color above stack
      → Stacked color' above stack
  Stacked-Recolored k color color' above [] r a bottom = bottom
  Stacked-Recolored k color color' above ((node, ps) ∷ stack) r a (frame f p s) =
      frame (FrameOk-Recolored k color color' above node ps r a.0 f) p
        (Stacked-Recolored k color color' (some node) stack r a.1 s)

  -- Nodes of another colour than gray are apart from the stack.
  pub Stacked-Apart :
      (k : Text) (color : Colors) (above : Option Text) (stack : List Frame)
      → color k ≢ gray
      → Stacked color above stack
      → Apart k stack
  Stacked-Apart k color above [] n bottom = tt
  Stacked-Apart k color above ((node, ps) ∷ stack) n (frame f p s) =
      (λ e. n (subst (λ z. color z ≡ gray) e f.shade), Stacked-Apart k color (some node) stack n s)

  -- A node of the stack reaches what stands above the stack.
  pub OnStack-Reaches :
      (color : Colors) (above : Option Text) (stack : List Frame) (x a : Text)
      → Stacked color above stack
      → OnStack x stack
      → above ≡ some a
      → Reaches d x a
  unfolding OnStack
  OnStack-Reaches color above [] x a bottom o e = absurd o
  OnStack-Reaches color above ((node, ps) ∷ stack) x a (frame f p s) (inl q) e =
      subst (λ z. Reaches d z a) (sym q) (one (f.link a e))
  OnStack-Reaches color above ((node, ps) ∷ stack) x a (frame f p s) (inr o) e =
      Reaches-then (OnStack-Reaches color (some node) stack x node s o refl) (one (f.link a e))

  Memᴰ-middle : (xs : List Text) (y : Text) (zs : List Text) → Memᴰ y (xs ++ y ∷ zs)
  Memᴰ-middle [] y zs = Memᴰ.head refl
  Memᴰ-middle (x ∷ xs) y zs = Memᴰ.tail (Memᴰ-middle xs y zs)

  pub next_Edge :
      (color : Colors) (above : Option Text) (node p : Text) (ps : List Text) (b : Block)
      → FrameOk color above node (p ∷ ps)
      → dict_get p d ≡ some b
      → Edge d node p
  next_Edge color above node p ps b f g = record {
    block = f.block;
    target = b;
    found = f.found;
    parent = subst (λ l. Memᴰ p l) f.split (Memᴰ-middle f.done p ps);
    known = g;
  }

  -- The next parent of the frame on top was looked at.
  pub FrameOk-next :
      (color : Colors) (above : Option Text) (node p : Text) (ps : List Text)
      → (f : FrameOk color none node (p ∷ ps)) → Seen color above p
      → ((a : Text) → above ≡ some a → Edge d node a)
      → FrameOk color above node ps
  FrameOk-next color above node p ps f s l = record {
    block = f.block;
    found = f.found;
    done = f.done ++ p ∷ [];
    split = append_assoc f.done (p ∷ []) ps ∙ f.split;
    seen =
        All-append _ f.done (p ∷ [])
          (All-imp _ _ f.done (λ y t b g. elim (t b g) [ inl e ↦ inl e | inr e ↦ absurd (cc e) ])
            f.seen)
          (s, tt);
    shade = f.shade;
    link = l;
  }
