-- ===== src/Trajectory/Detects.antt =====
-- The search answers with a node of a cycle when there is a cycle, and with none when there is none.
use mathlib.Core.Option.{some-injective}
use provenex_core.Prelude.{
  ℕ, zero, suc, ◌≡◌, ◌≢◌, refl, sym, ◌∙◌, inl, inr, Option, none, some, List, [], ◌∷◌, ok,
  ok-injective, Option-cases, subst, All, >>=-eq-ok, ◌==◌, nat_eq, list_eq, Bool-cases, Returns,
  returns, Returns-value,
}
use provenex_core.Text.{Text, text_eq_iff}
use provenex_core.Trajectory.{
  Block, ById, dict_get, Color, white, gray, black, Colors, set_color, Frame, visit, visit_all,
  work,
}
use provenex_core.Trajectory.Graph.{
  Edge, Reaches, one, more, Reaches-then, set_color-same, set_color-other, text_cases, Closed,
  Acyclic,
}
use provenex_core.Trajectory.Audit.{color_cases, visit_all-Returns}
use provenex_core.Trajectory.Search.{bottom, frame, OnStack, Searching, OnStack-Reaches, next_Edge}
use provenex_core.Trajectory.Cycles.{
  Searching-skip, Searching-push, Searching-finish, recolored, was_black, pushed_frame,
}

module _ (d : ById) where
  -- What the loop's answer says.
  pub record Answer (color : Colors) (out : Colors × Option Text) : Type 0 where
    pub cyclic : (p : Text) → out.1 ≡ some p → Reaches d p p
    pub clean : out.1 ≡ none → Searching d out.0 []
    pub keeps : (x : Text) → color x ≢ white → out.0 x ≢ white

  -- A gray parent closes a cycle.
  gray_parent :
      (color : Colors) (node p : Text) (ps : List Text) (stack : List Frame) (b : Block)
      → Searching d color ((node, p ∷ ps) ∷ stack)
      → dict_get p d ≡ some b
      → color p ≡ gray
      → Reaches d p p
  unfolding OnStack
  gray_parent color node p ps stack b s g w = elim s.stacked [
    | frame f a r ↦
        let e = next_Edge d color none node p ps b f g in
        elim (s.grays p w) [
          | inl q ↦ one (subst (λ z. Edge d z p) (sym q) e)
          | inr o ↦ Reaches-then (OnStack-Reaches d color (some node) stack p node r o refl) (one e)
        ]
  ]

  Answer-recolored :
      (color : Colors) (k : Text) (c : Color) (out : Colors × Option Text)
      → c ≢ white
      → Answer (set_color k c color) out
      → Answer color out
  Answer-recolored color k c out n a = record {
    cyclic = a.cyclic;
    clean = a.clean;
    keeps = λ x w. a.keeps x (λ e. elim (text_cases k x) [
      | inl q ↦ n (sym (subst (λ z. set_color k c color z ≡ c) q (set_color-same k c color)) ∙ e)
      | inr q ↦ w (sym (set_color-other k x c color q) ∙ e)
    ]);
  }

  visit-Answer :
      (fuel : ℕ) (color : Colors) (stack : List Frame) (out : Colors × Option Text)
      → Searching d color stack
      → visit fuel d color stack ≡ ok out
      → Answer color out
  unfolding visit
  visit-Answer zero color stack out s h = absurd (cc h)
  visit-Answer (suc fuel) color [] out s h =
      subst (Answer color) (ok-injective h)
        (record { cyclic = λ p e. cc; clean = λ _. s; keeps = λ x w. w })
  visit-Answer (suc fuel) color ((node, []) ∷ stack) out s h =
      Answer-recolored color node black out (λ e. cc)
        (visit-Answer fuel (set_color node black color) stack out
          (Searching-finish d color node stack s) h)
  visit-Answer (suc fuel) color ((node, p ∷ ps) ∷ stack) out s h =
      elim (Option-cases (dict_get p d)) [
        | inl g ↦
            visit-Answer fuel color ((node, ps) ∷ stack) out
              (Searching-skip d color node p ps stack s (λ b e. absurd (cc (g, e))))
              (rw (visit, g) at h)
        | inr (b, g) ↦ elim (color_cases (color p)) [
          | inl w ↦
              Answer-recolored color p gray out (λ e. cc)
                (visit-Answer fuel (set_color p gray color)
                  ((p, b.parent_step_ids) ∷ (node, ps) ∷ stack) out
                  (Searching-push d color node p ps stack b s g w) (rw (visit, g, w) at h))
          | inr (inl w) ↦ subst (Answer color) (ok-injective (rw (visit, g, w) at h)) (record {
            cyclic = λ q e.
                subst (λ z. Reaches d z z) (some-injective _ _ e)
                  (gray_parent color node p ps stack b s g w);
            clean = λ e. cc;
            keeps = λ x k. k;
          })
          | inr (inr w) ↦
              visit-Answer fuel color ((node, ps) ∷ stack) out
                (Searching-skip d color node p ps stack s (λ b' e. inl w)) (rw (visit, g, w) at h)
        ]
      ]

  Searching-start :
      (color : Colors) (start : Text) (b : Block)
      → Searching d color []
      → dict_get start d ≡ some b
      → color start ≡ white
      → Searching d (set_color start gray color) ((start, b.parent_step_ids) ∷ [])
  unfolding OnStack Closed Acyclic
  Searching-start color start b s g w =
      let rec = recolored d color start gray (λ e. cc (w, e)) in
      record {
        stacked = frame (pushed_frame d color start b g) tt bottom;
        grays = λ x e. elim (text_cases start x) [
          | inl q ↦ inl (sym q)
          | inr q ↦ absurd (s.grays x (sym (set_color-other start x gray color q) ∙ e))
        ];
        closed = λ x y e edge. rec.blacks y (s.closed x y (was_black d color start x e) edge);
        acyclic = λ x e. s.acyclic x (was_black d color start x e);
      }

  -- What the answer of the whole search says: with none, a colouring in which the nodes started
  -- from are no longer white.
  pub record Found (color : Colors) (starts : ById) (cycle : Option Text) : Type 0 where
    pub cyclic : (p : Text) → cycle ≡ some p → Reaches d p p
    pub clean :
        cycle ≡ none
        → (c : Colors) × Searching d c []
          × ((x : Text) → color x ≢ white → c x ≢ white)
          × All (λ e. c e.0 ≢ white) starts

  Found-passed :
      (color : Colors) (start : Text) (b : Block) (starts : ById) (cycle : Option Text)
      → color start ≢ white
      → Found color starts cycle
      → Found color ((start, b) ∷ starts) cycle
  Found-passed color start b starts cycle n r = record {
    cyclic = r.cyclic;
    clean = λ e. let (c, s, k, a) = r.clean e in (c, s, k, (k start n, a));
  }

  -- A start that was searched without finding a cycle.
  Found-searched :
      (color c : Colors) (start : Text) (b : Block) (starts : ById) (cycle : Option Text)
      → ((x : Text) → set_color start gray color x ≢ white → c x ≢ white)
      → Found c starts cycle
      → Found color ((start, b) ∷ starts) cycle
  Found-searched color c start b starts cycle kept r = record {
    cyclic = r.cyclic;
    clean = λ e.
        let (c', s, k, a) = r.clean e in
        (
          c',
          s,
          λ x n. k x (
              kept x (λ w. elim (text_cases start x) [
                | inl q ↦ absurd (
                    cc (
                      subst (λ z. set_color start gray color z ≡ gray) q
                          (set_color-same start gray color),
                      w,
                    ))
                | inr q ↦ n (sym (set_color-other start x gray color q) ∙ w)
              ])),
          (k start (kept start (λ w. absurd (cc (set_color-same start gray color, w)))), a),
        );
  }

  visit_all-Found :
      (starts : ById) (color : Colors) (cycle : Option Text)
      → Searching d color []
      → visit_all d starts color ≡ ok cycle
      → Found color starts cycle
  unfolding visit_all
  visit_all-Found [] color cycle s h =
      subst (Found color []) (ok-injective h)
        (record { cyclic = λ p e. cc; clean = λ _. (color, s, λ x w. w, tt) })
  visit_all-Found ((start, b) ∷ starts) color cycle s h = elim (color_cases (color start)) [
    | inl w ↦ elim (Option-cases (dict_get start d)) [
      | inl g ↦ absurd (cc (rw (visit_all, w, g) at h))
      | inr (b', g) ↦
          let ((c, found), v, k) =
            >>=-eq-ok
              (visit (work d) d (set_color start gray color) ((start, b'.parent_step_ids) ∷ [])) _
              (rw (visit_all, w, g) at h) in
          let a =
            visit-Answer (work d) (set_color start gray color) _ (c, found)
              (Searching-start color start b' s g w) v in
          elim (Option-cases found) [
            | inr (p, n) ↦
                let q = ok-injective (rw n at k) in
                record { cyclic = λ x e. a.cyclic x (n ∙ q ∙ e); clean = λ e. cc (q, e) }
            | inl n ↦
                Found-searched color c start b starts cycle a.keeps
                  (visit_all-Found starts c cycle (a.clean n) (rw n at k))
          ]
    ]
    | inr (inl w) ↦
        Found-passed color start b starts cycle (λ e. cc (w, e))
          (visit_all-Found starts color cycle s (rw (visit_all, w) at h))
    | inr (inr w) ↦
        Found-passed color start b starts cycle (λ e. cc (w, e))
          (visit_all-Found starts color cycle s (rw (visit_all, w) at h))
  ]

  first-Edge : {x z : Text} → Reaches d x z → (y : Text) × Edge d x y
  first-Edge (one {x} {y} e) = (y, e)
  first-Edge (more {x} {y} e r) = (y, e)

  settled : (c : Color) → c ≢ white → (c ≡ gray → ⊥) → c ≡ black
  settled white n g = absurd (n refl)
  settled gray n g = absurd (g refl)
  settled black n g = refl

  start-Searching : Searching d (λ k. white) []
  unfolding Closed Acyclic
  start-Searching = record {
    stacked = bottom;
    grays = λ x e. absurd (cc e);
    closed = λ x y e edge. absurd (cc e);
    acyclic = λ x e. absurd (cc e);
  }

  -- A key of the dictionary is among the starts.
  dict_get-All :
      (P : Text → Type 0) (starts : ById) (x : Text) (b : Block)
      → All (λ e. P e.0) starts
      → dict_get x starts ≡ some b
      → P x
  unfolding dict_get
  dict_get-All P [] x b h g = absurd (cc g)
  dict_get-All P ((k, b') ∷ starts) x b h g = elim (Bool-cases (k == x)) [
    | inl e ↦ subst P ((text_eq_iff k x).0 e) h.0
    | inr e ↦ dict_get-All P starts x b h.1 (rw e at g)
  ]

  -- The search returns for every dictionary. A node that it answers is on a cycle of parents, and
  -- when it answers none, no node is.
  pub visit_all-detects :
      Returns
        (λ cycle.
          ((p : Text) → cycle ≡ some p → Reaches d p p)
          × (cycle ≡ none → (x : Text) → Reaches d x x → ⊥))
        (visit_all d d (λ k. white))
  unfolding OnStack Acyclic
  visit_all-detects =
      let (cycle, e, _) = Returns-value (visit_all-Returns d [] d (λ k. white) refl) in
      let f = visit_all-Found d (λ k. white) cycle start-Searching e in
      rw e (
        returns (
          f.cyclic,
          λ n x r.
              let (c, s, k, a) = f.clean n in
              let (y, edge) = first-Edge r in
              s.acyclic x
                (settled (c x) (dict_get-All (λ y. c y ≢ white) d x edge.block a edge.found)
                  (s.grays x))
                r,
        ))
