-- ===== src/Trajectory/Cycles.antt =====
-- The steps of the search keep its invariant; it finds a cycle exactly when the graph has one.
use mathlib.Core.Option.{some-injective}
use mathlib.Core.List.{Memᴰ, append-nil}
use provenex_core.Prelude.{
  ◌≡◌, ◌≢◌, refl, sym, ◌∙◌, ap, inl, inr, none, some, List, [], ◌∷◌, subst, All, All-imp,
}
use provenex_core.Text.{Text}
use provenex_core.Trajectory.{
  Block, ById, dict_get, Color, white, gray, black, Colors, set_color, Frame,
}
use provenex_core.Trajectory.Graph.{
  Edge, set_color-same, set_color-other, text_cases, Closed, Acyclic, Closed-finished,
  Acyclic-finished,
}
use provenex_core.Trajectory.Search.{
  Seen, FrameOk, Apart, Stacked, bottom, frame, OnStack, Searching, Recolored, Stacked-Recolored,
  Stacked-Apart, next_Edge, FrameOk-next, FrameOk-Recolored,
}

gray-ne-black : {c : Color} → c ≡ gray → c ≢ black
gray-ne-black e f = cc

white-ne-gray : {c : Color} → c ≡ white → c ≢ gray
white-ne-gray e f = cc

All-at {ℓ} : (P : Text → Type ℓ) (xs : List Text) (x : Text) → All P xs → Memᴰ x xs → P x
All-at P [] x h m = elim m [ ]
All-at P (y ∷ xs) x h (Memᴰ.head e) = subst P (sym e) h.0
All-at P (y ∷ xs) x h (Memᴰ.tail m) = All-at P xs x h.1 m

module _ (d : ById) where
  pub Searching-skip :
      (color : Colors) (node p : Text) (ps : List Text) (stack : List Frame)
      → Searching d color ((node, p ∷ ps) ∷ stack)
      → Seen d color none p
      → Searching d color ((node, ps) ∷ stack)
  unfolding OnStack
  Searching-skip color node p ps stack s k = elim s.stacked [
    | frame f a r ↦ record {
      stacked = frame (FrameOk-next d color none node p ps f k (λ a e. cc)) a r;
      grays = s.grays;
      closed = s.closed;
      acyclic = s.acyclic;
    }
  ]

  -- What a change of colour at a node that is not black keeps.
  pub recolored :
      (color : Colors) (k : Text) (c : Color)
      → color k ≢ black
      → Recolored d k color (set_color k c color)
  recolored color k c n = record {
    blacks = λ y e. elim (text_cases k y) [
      | inl q ↦ absurd (n (subst (λ z. color z ≡ black) (sym q) e))
      | inr q ↦ set_color-other k y c color q ∙ e
    ];
    others = λ y q. set_color-other k y c color (λ e. q (sym e));
  }

  pub was_black : (color : Colors) (k x : Text) → set_color k gray color x ≡ black → color x ≡ black
  was_black color k x e = elim (text_cases k x) [
    | inl q ↦ absurd (
        gray-ne-black (subst (λ z. set_color k gray color z ≡ gray) q (set_color-same k gray color))
          e)
    | inr q ↦ sym (set_color-other k x gray color q) ∙ e
  ]

  pub pushed_frame :
      (color : Colors) (p : Text) (b : Block)
      → dict_get p d ≡ some b
      → FrameOk d (set_color p gray color) none p b.parent_step_ids
  pushed_frame color p b g = record {
    block = b;
    found = g;
    done = [];
    split = refl;
    seen = tt;
    shade = set_color-same p gray color;
    link = λ a e. cc;
  }

  -- A white parent is coloured gray and put on the stack.
  pub Searching-push :
      (color : Colors) (node p : Text) (ps : List Text) (stack : List Frame) (b : Block)
      → Searching d color ((node, p ∷ ps) ∷ stack)
      → dict_get p d ≡ some b
      → color p ≡ white
      → Searching d (set_color p gray color) ((p, b.parent_step_ids) ∷ (node, ps) ∷ stack)
  unfolding OnStack Closed Acyclic
  Searching-push color node p ps stack b s g w = elim s.stacked [
    | frame f a r ↦
        let rec = recolored color p gray (λ e. cc (w, e)) in
        let apart =
          Stacked-Apart d p color none ((node, p ∷ ps) ∷ stack) (white-ne-gray w) s.stacked in
        let lower =
          FrameOk-next d color (some p) node p ps f (λ b' g'. inr refl)
            (λ x e.
              subst (λ z. Edge d node z) (some-injective _ _ e)
                (next_Edge d color none node p ps b f g)) in
        record {
          stacked = frame (pushed_frame color p b g) apart (
              frame
                (FrameOk-Recolored d p color (set_color p gray color) (some p) node ps rec apart.0
                  lower)
                a
                (Stacked-Recolored d p color (set_color p gray color) (some node) stack rec apart.1
                  r));
          grays = λ x e. elim (text_cases p x) [
            | inl q ↦ inl (sym q)
            | inr q ↦ inr (s.grays x (sym (set_color-other p x gray color q) ∙ e))
          ];
          closed = λ x y e edge. rec.blacks y (s.closed x y (was_black color p x e) edge);
          acyclic = λ x e. s.acyclic x (was_black color p x e);
        }
  ]

  -- Every parent of a node whose frame has none left is black.
  all_parents-black :
      (color : Colors) (node y : Text)
      → FrameOk d color none node []
      → Edge d node y
      → color y ≡ black
  all_parents-black color node y f e =
      let same = some-injective _ _ (sym e.found ∙ f.found) in
      let listed =
        subst (λ l. Memᴰ y l) (ap (λ b. b.parent_step_ids) same ∙ sym f.split ∙ append-nil f.done)
          e.parent in
      elim (All-at (Seen d color none) f.done y f.seen listed e.target e.known) [
        | inl q ↦ q
        | inr q ↦ absurd (cc q)
      ]

  uncovered :
      (color : Colors) (k : Text) (stack : List Frame)
      → Recolored d k color (set_color k black color)
      → Apart d k stack
      → Stacked d color (some k) stack
      → Stacked d (set_color k black color) none stack
  uncovered color k [] r a bottom = bottom
  uncovered color k ((node, ps) ∷ stack) r a (frame f p s) =
      frame
        (record {
          block = f.block;
          found = f.found;
          done = f.done;
          split = f.split;
          seen =
              All-imp _ _ f.done
                (λ y t b g. inl (elim (t b g) [
                  | inl e ↦ r.blacks y e
                  | inr e ↦
                      subst (λ z. set_color k black color z ≡ black) (some-injective _ _ e)
                        (set_color-same k black color)
                ]))
                f.seen;
          shade = r.others node a.0 ∙ f.shade;
          link = λ x e. cc;
        })
        p (Stacked-Recolored d k color (set_color k black color) (some node) stack r a.1 s)

  finished_grays :
      (color : Colors) (node : Text) (stack : List Frame) (x : Text)
      → ((y : Text) → color y ≡ gray → OnStack d y ((node, []) ∷ stack))
      → set_color node black color x ≡ gray
      → OnStack d x stack
  unfolding OnStack
  finished_grays color node stack x g e = elim (text_cases node x) [
    | inl q ↦ absurd (
        gray-ne-black e
          (subst (λ z. set_color node black color z ≡ black) q (set_color-same node black color)))
    | inr q ↦ elim (g x (sym (set_color-other node x black color q) ∙ e)) [
      | inl p ↦ absurd (q (sym p))
      | inr o ↦ o
    ]
  ]

  -- The node on top is coloured black and taken off.
  pub Searching-finish :
      (color : Colors) (node : Text) (stack : List Frame)
      → Searching d color ((node, []) ∷ stack)
      → Searching d (set_color node black color) stack
  unfolding OnStack
  Searching-finish color node stack s = elim s.stacked [
    | frame f a r ↦
        let rec = recolored color node black (gray-ne-black f.shade) in
        let all : (y : Text) → Edge d node y → color y ≡ black =
          λ y e. all_parents-black color node y f e in
        record {
          stacked = uncovered color node stack rec a r;
          grays = λ x e. finished_grays color node stack x s.grays e;
          closed = Closed-finished d color node s.closed all;
          acyclic = Acyclic-finished d color node s.closed s.acyclic (gray-ne-black f.shade) all;
        }
  ]
