-- ===== src/Trajectory/Tests.antt =====
-- A trajectory of two steps, and audits of a chain and of a cycle.
use provenex_core.Prelude.{
  ◌≡◌, refl, sym, ap, key_error, ◌⊎◌, Bool, true, false, Option, none, some, List, [], ◌∷◌, Result,
  ok, err, Returns, All,
}
use mathlib.Core.Option.{some-injective}
use provenex_core.Text.{Text, codes}
use provenex_core.Trajectory.{
  TrajectoryContext, NextStep, next_step, Receipt, TrajectoryAuditResult, audit_trajectory_dag,
}
use provenex_core.Trajectory.{
  check, has_trajectory_block, shared_trajectory_id, no_dangling_parents, dag_acyclic,
  has_root_step, ById, visit_all, white,
}
use provenex_core.Trajectory.Graph.{Reaches}
use provenex_core.Trajectory.Detects.{visit_all-detects}
use provenex_core.Trajectory.Coherent.{IsCoherent, audit_trajectory_dag-IsCoherent}
use provenex_core.Trajectory.Audit.{IsAuditable, HasKeys, audit_trajectory_dag-Returns}

abbrev root_step : TrajectoryContext
root_step = record {
  trajectory_id = codes "trj_1";
  step_index = 0;
  trajectory_started_at = codes "2024";
  parent_step_ids = [];
  step_kind = none;
  agent_id = some (codes "a");
  session_id = none;
}

abbrev call : NextStep
call = record {
  parent_receipts = some (some (codes "r0") ∷ []);
  parent_step_ids = some (codes "r1" ∷ []);
  step_kind = some (codes "tool_call");
  agent_id = none;
  session_id = none;
}

abbrev or_root : Result TrajectoryContext → TrajectoryContext
or_root (ok t) = t
or_root (err e) = root_step

second_step : TrajectoryContext
unfolding next_step
second_step = or_root (next_step root_step call)

third_step : TrajectoryContext
unfolding next_step second_step
third_step = or_root (next_step second_step call)

abbrev receipt : Text → List Text → Receipt
receipt id parents = record {
  receipt_id = some id;
  trajectory =
      some (record { trajectory_id = some (codes "trj_1"); parent_step_ids = some parents });
}

abbrev chain : List Receipt
chain = receipt (codes "r0") [] ∷ receipt (codes "r1") (codes "r0" ∷ []) ∷ []

abbrev cycle : List Receipt
cycle =
    receipt (codes "r0") []
    ∷ receipt (codes "r1") (codes "r2" ∷ [])
    ∷ receipt (codes "r2") (codes "r1" ∷ codes "r0" ∷ [])
    ∷ []

receipt-IsAuditable : (id : Text) (parents : List Text) → IsAuditable (receipt id parents)
unfolding IsAuditable HasKeys
receipt-IsAuditable id parents = (
  (id, refl),
  λ b e. (
    (codes "trj_1", sym (ap (λ x. x.trajectory_id) (some-injective _ _ e))),
    (parents, sym (ap (λ x. x.parent_step_ids) (some-injective _ _ e))),
  ),
)

audit_trajectory_dag-Returns_example :
    Returns (λ r. r.receipt_count ≡ 3) (audit_trajectory_dag cycle)
    ⊎ ((audit_trajectory_dag cycle ≡ err key_error) × (All IsAuditable cycle → ⊥))
audit_trajectory_dag-Returns_example = audit_trajectory_dag-Returns cycle

cycle-IsAuditable : All IsAuditable cycle
cycle-IsAuditable =
    (receipt-IsAuditable _ _, (receipt-IsAuditable _ _, (receipt-IsAuditable _ _, tt)))

-- A block without parent_step_ids.
bare_block-raises :
    audit_trajectory_dag (
      record {
        receipt_id = some (codes "r0");
        trajectory = some (record { trajectory_id = some (codes "trj_1"); parent_step_ids = none });
      }
      ∷ [])
    ≡ err key_error
unfolding audit_trajectory_dag
bare_block-raises = refl

abbrev passes : Result TrajectoryAuditResult → Option Bool
passes (ok r) = some r.holds
passes (err e) = none

passes-chain : passes (audit_trajectory_dag chain) ≡ some true
unfolding audit_trajectory_dag
passes-chain = refl

passes-cycle : passes (audit_trajectory_dag cycle) ≡ some false
unfolding audit_trajectory_dag
passes-cycle = refl

-- The first receipt is its own parent, and the second has its id: the dictionary has the second.
passes-repeated_id :
    passes
      (audit_trajectory_dag (receipt (codes "r1") (codes "r1" ∷ []) ∷ receipt (codes "r1") [] ∷ []))
    ≡ some true
unfolding audit_trajectory_dag
passes-repeated_id = refl

abbrev chain_result : TrajectoryAuditResult
chain_result = record {
  holds = true;
  trajectory_id = some (codes "trj_1");
  receipt_count = 2;
  checks =
      check has_trajectory_block true
      ∷ check shared_trajectory_id true
      ∷ check no_dangling_parents true
      ∷ check dag_acyclic true
      ∷ check has_root_step true
      ∷ [];
}

audit_trajectory_dag-IsCoherent_example : IsCoherent chain
unfolding audit_trajectory_dag
audit_trajectory_dag-IsCoherent_example =
    audit_trajectory_dag-IsCoherent chain chain_result refl refl

abbrev cycle_dict : ById
cycle_dict =
    (codes "r1", record { parent_step_ids = codes "r2" ∷ [] })
    ∷ (codes "r2", record { parent_step_ids = codes "r1" ∷ [] })
    ∷ []

visit_all-detects_example :
    Returns
      (λ found.
        ((p : Text) → found ≡ some p → Reaches cycle_dict p p)
        × (found ≡ none → (x : Text) → Reaches cycle_dict x x → ⊥))
      (visit_all cycle_dict cycle_dict (λ k. white))
visit_all-detects_example = visit_all-detects cycle_dict
