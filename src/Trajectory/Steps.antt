-- ===== src/Trajectory/Steps.antt =====
-- What a step inherits, and what its dictionary holds.
use mathlib.Core.Option
use provenex_core.Prelude.{
  ◌+◌, ◌≡◌, refl, sym, ap, ◌∙◌, arith, Result, ◌>>=◌, Option, none, some, List, [], ◌∷◌, ◌++◌, ok,
  >>=-eq-ok, ok-injective, ◌==◌, nat_eq, list_eq, if◌then◌else◌, length,
}
use provenex_core.Text.{Text, codes}
use provenex_core.Trajectory.{
  TrajectoryContext, NextStep, next_step, receipt_ids, or_empty, Field, text_field, number_field,
  list_field, to_dict, optional_field,
}

pub dict_value : Text → List (Text × Field) → Option Field
dict_value k [] = none
dict_value k ((k', v) ∷ d) = if k' == k then some v else dict_value k d

optional_lem :
    (k a s : Option Text)
    → let d =
        optional_field (codes "step_kind") k
        ++ optional_field (codes "agent_id") a
        ++ optional_field (codes "session_id") s in
      (dict_value (codes "step_kind") d ≡ Option.map text_field k)
      × (dict_value (codes "agent_id") d ≡ Option.map text_field a)
      × (dict_value (codes "session_id") d ≡ Option.map text_field s)
unfolding dict_value optional_field
optional_lem none none none = (refl, refl, refl)
optional_lem none none (some s) = (refl, refl, refl)
optional_lem none (some a) none = (refl, refl, refl)
optional_lem none (some a) (some s) = (refl, refl, refl)
optional_lem (some k) none none = (refl, refl, refl)
optional_lem (some k) none (some s) = (refl, refl, refl)
optional_lem (some k) (some a) none = (refl, refl, refl)
optional_lem (some k) (some a) (some s) = (refl, refl, refl)

-- The dictionary of a step holds each of its seven fields under the field's name, and leaves out an
-- optional one exactly when it is None.
pub to_dict_lem :
    (t : TrajectoryContext)
    → (dict_value (codes "trajectory_id") (to_dict t) ≡ some (text_field t.trajectory_id))
      × (dict_value (codes "step_index") (to_dict t) ≡ some (number_field t.step_index))
      × (dict_value (codes "parent_step_ids") (to_dict t) ≡ some (list_field t.parent_step_ids))
      × (dict_value (codes "trajectory_started_at") (to_dict t)
          ≡ some (text_field t.trajectory_started_at))
      × (dict_value (codes "step_kind") (to_dict t) ≡ Option.map text_field t.step_kind)
      × (dict_value (codes "agent_id") (to_dict t) ≡ Option.map text_field t.agent_id)
      × (dict_value (codes "session_id") (to_dict t) ≡ Option.map text_field t.session_id)
unfolding to_dict dict_value optional_field
to_dict_lem t =
    let (k, a, s) = optional_lem t.step_kind t.agent_id t.session_id in
    (refl, refl, refl, refl, k, a, s)

-- The step after each of the calls in turn.
unfoldable pub next_steps : TrajectoryContext → List NextStep → Result TrajectoryContext
next_steps t [] = ok t
next_steps t (a ∷ calls) = next_step t a >>= λ t'. next_steps t' calls

next_step-keeps :
    (t t' : TrajectoryContext) (a : NextStep)
    → next_step t a ≡ ok t'
    → (t'.trajectory_id ≡ t.trajectory_id)
      × (t'.trajectory_started_at ≡ t.trajectory_started_at)
      × (t'.step_index ≡ t.step_index + 1)
unfolding next_step
next_step-keeps t t' a e =
    let (parents, r, k) = >>=-eq-ok (receipt_ids (or_empty a.parent_receipts)) _ e in
    let q = ok-injective k in
    (
      sym (ap (λ x. x.trajectory_id) q),
      sym (ap (λ x. x.trajectory_started_at) q),
      sym (ap (λ x. x.step_index) q),
    )

-- Any number of steps on, a trajectory has its id and its start, and its index counts the steps.
pub next_steps-keep :
    (t t' : TrajectoryContext) (calls : List NextStep)
    → next_steps t calls ≡ ok t'
    → (t'.trajectory_id ≡ t.trajectory_id)
      × (t'.trajectory_started_at ≡ t.trajectory_started_at)
      × (t'.step_index ≡ t.step_index + length calls)
unfolding next_steps
next_steps-keep t t' [] e =
    let q = ok-injective e in
    (ground (arith, q), ground (arith, q), omega (arith, ap (λ x. x.step_index) q))
next_steps-keep t t' (a ∷ calls) e =
    let (u, r, k) = >>=-eq-ok (next_step t a) _ e in
    let one = next_step-keeps t u a r in
    let rest = next_steps-keep u t' calls k in
    (rest.0 ∙ one.0, rest.1 ∙ one.1, omega (arith, rest.2, one.2))
