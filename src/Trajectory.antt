-- ===== src/Trajectory.antt =====
-- The trajectory steps and the audit of provenex/core/trajectory.py. The messages of the checks are
-- not modelled. A fresh id and the clock's answer are arguments.
mod Tests
pub mod Steps
pub mod Coherent
pub mod Ancestors
pub mod Detects
pub mod Cycles
pub mod Search
pub mod Graph
pub mod Audit
use provenex_core.Prelude.{
  ℕ, zero, suc, ◌+◌, Bool, true, false, not, ◌&&◌, Option, none, some, List, [], ◌∷◌, ◌++◌, Result,
  ok, err, type_error, key_error, recursion_error, ◌>>=◌, ◌==◌, nat_eq, list_eq, if◌then◌else◌,
  length,
}
use provenex_core.Text.{Text, codes}

pub record TrajectoryContext : Type 0 where
  pub trajectory_id : Text
  pub step_index : ℕ
  pub trajectory_started_at : Text
  pub parent_step_ids : List Text
  pub step_kind : Option Text
  pub agent_id : Option Text
  pub session_id : Option Text

-- The ids of the receipts; a receipt without a string for its id raises TypeError.
pub receipt_ids : List (Option Text) → Result (List Text)
receipt_ids [] = ok []
receipt_ids (none ∷ rs) = err type_error
receipt_ids (some id ∷ rs) = receipt_ids rs >>= λ ids. ok (id ∷ ids)

pub or_none {ℓ} : {A : Type ℓ} → Option A → Option A → Option A
or_none none b = b
or_none (some a) b = some a

pub or_empty {ℓ} : {A : Type ℓ} → Option (List A) → List A
or_empty none = []
or_empty (some xs) = xs

-- The arguments of `next_step`.
pub record NextStep : Type 0 where
  pub parent_receipts : Option (List (Option Text))
  pub parent_step_ids : Option (List Text)
  pub step_kind : Option Text
  pub agent_id : Option Text
  pub session_id : Option Text

pub next_step : TrajectoryContext → NextStep → Result TrajectoryContext
unfolding receipt_ids or_none or_empty
next_step t a = receipt_ids (or_empty a.parent_receipts) >>= λ parents. ok (record {
  trajectory_id = t.trajectory_id;
  step_index = t.step_index + 1;
  trajectory_started_at = t.trajectory_started_at;
  parent_step_ids = parents ++ or_empty a.parent_step_ids;
  step_kind = a.step_kind;
  agent_id = or_none a.agent_id t.agent_id;
  session_id = or_none a.session_id t.session_id;
})

pub start_trajectory : Text → Text → Option Text → Option Text → Option Text → TrajectoryContext
start_trajectory fresh_id now agent_id step_kind session_id = record {
  trajectory_id = fresh_id;
  step_index = 0;
  trajectory_started_at = now;
  parent_step_ids = [];
  step_kind = step_kind;
  agent_id = agent_id;
  session_id = session_id;
}

-- A value of the dictionary that `to_dict` makes.
pub data Field : Type 0 where
  text_field : Text → Field
  number_field : ℕ → Field
  list_field : List Text → Field

pub optional_field : Text → Option Text → List (Text × Field)
optional_field key none = []
optional_field key (some v) = (key, text_field v) ∷ []

pub to_dict : TrajectoryContext → List (Text × Field)
unfolding optional_field
to_dict t =
    ((codes "trajectory_id", text_field t.trajectory_id)
      ∷ (codes "step_index", number_field t.step_index)
      ∷ (codes "parent_step_ids", list_field t.parent_step_ids)
      ∷ (codes "trajectory_started_at", text_field t.trajectory_started_at)
      ∷ [])
    ++ optional_field (codes "step_kind") t.step_kind
    ++ optional_field (codes "agent_id") t.agent_id
    ++ optional_field (codes "session_id") t.session_id

-- A trajectory block that is not empty, as it was parsed: each of the two keys may be missing.
pub record ParsedBlock : Type 0 where
  pub trajectory_id : Option Text
  pub parent_step_ids : Option (List Text)

-- A parsed receipt: its id, if it has one, and its trajectory block, if it has one that is not
-- empty. Its values have the types that `to_dict` writes.
pub record Receipt : Type 0 where
  pub receipt_id : Option Text
  pub trajectory : Option ParsedBlock

-- A block whose parents were found.
pub record Block : Type 0 where
  pub parent_step_ids : List Text

pub data CheckName : Type 0 where
  has_trajectory_block shared_trajectory_id no_dangling_parents dag_acyclic has_root_step :
      CheckName

pub record TrajectoryCheck : Type 0 where
  pub name : CheckName
  pub holds : Bool

pub record TrajectoryAuditResult : Type 0 where
  pub holds : Bool
  pub trajectory_id : Option Text
  pub receipt_count : ℕ
  pub checks : List TrajectoryCheck

-- The receipts' blocks, when none lacks one.
pub blocks : List Receipt → Option (List (Option Text × ParsedBlock))
blocks [] = some []
blocks (r ∷ rs) = elim r.trajectory [
  | none ↦ none
  | some b ↦ elim (blocks rs) [ none ↦ none | some bs ↦ some ((r.receipt_id, b) ∷ bs) ]
]

pub member : Text → List Text → Bool
member x [] = false
member x (y ∷ ys) = if x == y then true else member x ys

-- set(…), as a list without repetitions
pub distinct : List Text → List Text
unfolding member
distinct [] = []
distinct (x ∷ xs) = let rest = distinct xs in if member x rest then rest else x ∷ rest

-- A dictionary from receipt ids to blocks, in the order of first insertion.
abbrev pub ById : Type 0
ById = List (Text × Block)

pub dict_set : Text → Block → ById → ById
dict_set k b [] = (k, b) ∷ []
dict_set k b ((k', b') ∷ d) = if k' == k then (k', b) ∷ d else (k', b') ∷ dict_set k b d

pub dict_get : Text → ById → Option Block
dict_get k [] = none
dict_get k ((k', b) ∷ d) = if k' == k then some b else dict_get k d

-- `{r["receipt_id"]: r for r in receipts_list}`, from the dictionary so far
pub index_blocks : List (Option Text × Block) → ById → Result ById
unfolding dict_set
index_blocks [] d = ok d
index_blocks ((none, b) ∷ rs) d = err key_error
index_blocks ((some id, b) ∷ rs) d = index_blocks rs (dict_set id b d)

pub has_block : ById → Text → Bool
unfolding dict_get
has_block d k = elim (dict_get k d) [ none ↦ false | some b ↦ true ]

pub all_found : ById → List Text → Bool
unfolding has_block
all_found d [] = true
all_found d (p ∷ ps) = has_block d p && all_found d ps

pub none_dangling : ById → List (Option Text × Block) → Bool
unfolding all_found
none_dangling d [] = true
none_dangling d ((id, b) ∷ rs) = all_found d b.parent_step_ids && none_dangling d rs

pub data Color : Type 0 where
  white gray black : Color

abbrev pub Colors : Type 0
Colors = Text → Color

pub set_color : Text → Color → Colors → Colors
set_color k c color x = if k == x then c else color x

abbrev pub Frame : Type 0
Frame = Text × List Text

-- The loop `while stack`: the node on top and the parents left to look at. It answers the colours
-- and the node through which a cycle runs, if one was met.
pub visit : ℕ → ById → Colors → List Frame → Result (Colors × Option Text)
unfolding set_color dict_get
visit zero d color stack = err recursion_error
visit (suc fuel) d color [] = ok (color, none)
visit (suc fuel) d color ((node, []) ∷ stack) = visit fuel d (set_color node black color) stack
visit (suc fuel) d color ((node, p ∷ ps) ∷ stack) = elim (dict_get p d) [
  | none ↦ visit fuel d color ((node, ps) ∷ stack)
  | some b ↦ elim (color p) [
    | gray ↦ ok (color, some p)
    | white ↦ visit fuel d (set_color p gray color) ((p, b.parent_step_ids) ∷ (node, ps) ∷ stack)
    | black ↦ visit fuel d color ((node, ps) ∷ stack)
  ]
]

-- Steps enough for all nodes and edges of the dictionary.
pub work : ById → ℕ
work [] = 1
work ((k, b) ∷ d) = suc (length b.parent_step_ids) + work d

-- The loop `for start in by_id`, over the entries left.
pub visit_all : ById → ById → Colors → Result (Option Text)
unfolding visit set_color work
visit_all d [] color = ok none
visit_all d ((start, _) ∷ starts) color = elim (color start) [
  | white ↦ elim (dict_get start d) [
    | none ↦ err key_error
    | some b ↦
        visit (work d) d (set_color start gray color) ((start, b.parent_step_ids) ∷ [])
        >>= λ (c, cycle). elim cycle [ some p ↦ ok (some p) | none ↦ visit_all d starts c ]
  ]
  | gray ↦ visit_all d starts color
  | black ↦ visit_all d starts color
]

pub is_none {ℓ} : {A : Type ℓ} → Option A → Bool
is_none none = true
is_none (some a) = false

pub has_root : List (Option Text × Block) → Bool
has_root [] = false
has_root ((id, b) ∷ rs) = if length b.parent_step_ids == 0 then true else has_root rs

abbrev pub check : CheckName → Bool → TrajectoryCheck
check name holds = record { name = name; holds = holds }

pub all_hold : List TrajectoryCheck → Bool
all_hold [] = true
all_hold (c ∷ cs) = c.holds && all_hold cs

-- `d[k]`
pub required {ℓ} : {A : Type ℓ} → Option A → Result A
required none = err key_error
required (some a) = ok a

-- `r["trajectory"]["parent_step_ids"]` of every receipt. The source reads them after the dictionary
-- is made; what is missing raises KeyError either way.
pub parents_of : List (Option Text × ParsedBlock) → Result (List (Option Text × Block))
unfolding required
parents_of [] = ok []
parents_of ((id, b) ∷ rs) = required b.parent_step_ids >>= λ parents.
    parents_of rs >>= λ entries. ok ((id, record { parent_step_ids = parents }) ∷ entries)

-- The checks once the receipts share the id.
pub structural_checks : ℕ → Text → List (Option Text × ParsedBlock) → Result TrajectoryAuditResult
unfolding parents_of index_blocks none_dangling visit_all is_none has_root all_hold
structural_checks count id parsed = parents_of parsed >>= λ rs. index_blocks rs [] >>= λ by_id.
    visit_all by_id by_id (λ k. white) >>= λ cycle_through.
    let checks =
      check has_trajectory_block true
      ∷ check shared_trajectory_id true
      ∷ check no_dangling_parents (none_dangling by_id rs)
      ∷ check dag_acyclic (is_none cycle_through)
      ∷ check has_root_step (has_root rs)
      ∷ [] in
    ok (record {
      holds = all_hold checks;
      trajectory_id = some id;
      receipt_count = count;
      checks = checks;
    })

-- `r["trajectory"]["trajectory_id"]` of every receipt
pub ids_of : List (Option Text × ParsedBlock) → Result (List Text)
unfolding required
ids_of [] = ok []
ids_of ((r, b) ∷ rs) = required b.trajectory_id >>= λ id. ids_of rs >>= λ ids. ok (id ∷ ids)

pub audit_blocks : ℕ → List (Option Text × ParsedBlock) → List Text → Result TrajectoryAuditResult
unfolding structural_checks
audit_blocks count rs (id ∷ []) = structural_checks count id rs
audit_blocks count rs _ = ok (record {
  holds = false;
  trajectory_id = none;
  receipt_count = count;
  checks = check has_trajectory_block true ∷ check shared_trajectory_id false ∷ [];
})

pub audit_trajectory_dag : List Receipt → Result TrajectoryAuditResult
unfolding blocks audit_blocks ids_of distinct
audit_trajectory_dag receipts = elim (blocks receipts) [
  | none ↦ ok (record {
    holds = false;
    trajectory_id = none;
    receipt_count = length receipts;
    checks = check has_trajectory_block false ∷ [];
  })
  | some rs ↦ ids_of rs >>= λ ids. audit_blocks (length receipts) rs (distinct ids)
]
