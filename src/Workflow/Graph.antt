-- ===== src/Workflow/Graph.antt =====
-- `validateWorkflowGraph` of packages/kernel/src/schema.ts: the issues that the check of a workflow
-- definition adds for its steps and their dependencies.
use parallelplay.Prelude.{
  ℕ, zero, suc, Bool, true, false, not, Option, none, some, List, [], ◌∷◌, ◌++◌, String, Map, get,
  set, any, filter, length, same, get_or, if◌then◌else◌,
}
use parallelplay.Model.{WorkflowStep}

-- `set.has(id)`
abbrev pub member : String → List String → Bool
member id ids = any (same id) ids

-- `set.add(id)`: a member keeps its place.
abbrev pub insert : String → List String → List String
insert id ids = if member id ids then ids else ids ++ id ∷ []

-- The issues, with the indices in their paths.
pub data Issue : Type 0 where
  duplicate_step : ℕ → String → Issue
  unknown_dependency self_dependency : ℕ → String → Issue
  cyclic_graph : Issue

-- The first loop: duplicates, against the identifiers of the steps before.
unfoldable pub duplicate_issues : ℕ → List String → List WorkflowStep → List Issue
duplicate_issues index seen [] = []
duplicate_issues index seen (step ∷ steps) =
    let rest = duplicate_issues (suc index) (insert step.id seen) steps in
    if member step.id seen then duplicate_step index step.id ∷ rest else rest

unfoldable pub collect_ids : List String → List WorkflowStep → List String
collect_ids seen [] = seen
collect_ids seen (step ∷ steps) = collect_ids (insert step.id seen) steps

-- The set `stepIds` after the first loop.
unfoldable pub step_ids : List WorkflowStep → List String
unfolding collect_ids
step_ids steps = collect_ids [] steps

abbrev issue_if : Bool → Issue → List Issue
issue_if true issue = issue ∷ []
issue_if false issue = []

-- The body of the second loop, for one step.
unfoldable pub dependency_issues : ℕ → List String → String → List String → List Issue
dependency_issues index ids step_id [] = []
dependency_issues index ids step_id (dependency ∷ dependencies) =
    issue_if (not (member dependency ids)) (unknown_dependency index dependency)
    ++ issue_if (same dependency step_id) (self_dependency index dependency)
    ++ dependency_issues index ids step_id dependencies

unfoldable pub all_dependency_issues : ℕ → List String → List WorkflowStep → List Issue
unfolding dependency_issues
all_dependency_issues index ids [] = []
all_dependency_issues index ids (step ∷ steps) =
    dependency_issues index ids step.id step.depends_on
    ++ all_dependency_issues (suc index) ids steps

abbrev pub Dependencies : Type 0
Dependencies = Map (List String)

unfoldable pub collect_dependencies : Dependencies → List WorkflowStep → Dependencies
collect_dependencies m [] = m
collect_dependencies m (step ∷ steps) = collect_dependencies (set step.id step.depends_on m) steps

-- `dependencies.get(stepId) ?? []`
abbrev pub dependencies_of : Dependencies → String → List String
dependencies_of dependencies id = get_or (get id dependencies) []

-- The sets that `visit` shares: the steps under way, and the steps that are done.
pub record Marks : Type 0 where
  pub visiting : List String
  pub visited : List String

-- `visit` answers true, or false with what it leaves in the sets.
pub data Walk : Type 0 where
  cycle : Walk
  clear : Marks → Walk
  out_of_fuel : Walk

-- `for (const d of ids) if (visit(d)) return true;`
unfoldable pub visit_each : (String → Marks → Walk) → List String → Marks → Walk
visit_each visit [] marks = clear marks
visit_each visit (id ∷ ids) marks = elim (visit id marks) [
  | cycle ↦ cycle
  | clear marks' ↦ visit_each visit ids marks'
  | out_of_fuel ↦ out_of_fuel
]

abbrev pub enter : String → Marks → Marks
enter id marks = record marks { visiting = id ∷ marks.visiting }

-- `visiting.delete(stepId); visited.add(stepId);`
abbrev pub leave : String → Marks → Marks
leave id marks = record {
  visiting = filter (λ other. not (same id other)) marks.visiting;
  visited = id ∷ marks.visited;
}

abbrev pub finish : String → Walk → Walk
finish id cycle = cycle
finish id (clear marks) = clear (leave id marks)
finish id out_of_fuel = out_of_fuel

unfoldable pub visit : ℕ → Dependencies → String → Marks → Walk
unfolding visit_each
visit zero dependencies id marks = out_of_fuel
visit (suc fuel) dependencies id marks =
    let below =
      visit_each (visit fuel dependencies) (dependencies_of dependencies id) (enter id marks) in
    if member id marks.visiting
    then cycle
    else if member id marks.visited
    then clear marks
    else finish id below

unfoldable pub report : List Issue → Walk → Option (List Issue)
report issues cycle = some (issues ++ cyclic_graph ∷ [])
report issues (clear marks) = some issues
report issues out_of_fuel = none

abbrev pub unmarked : Marks
unmarked = record { visiting = []; visited = [] }

-- The last loop, which leaves off at the first cycle.
unfoldable pub walk_all : ℕ → List WorkflowStep → Walk
unfolding visit visit_each collect_dependencies
walk_all fuel steps =
    visit_each (visit fuel (collect_dependencies [] steps)) (step_ids steps) unmarked

-- All issues in order. A walk goes no deeper than there are steps, and one more for a name that
-- is no step's.
unfoldable pub validate_workflow_graph : List WorkflowStep → Option (List Issue)
unfolding duplicate_issues all_dependency_issues walk_all report
validate_workflow_graph steps =
    report (duplicate_issues 0 [] steps ++ all_dependency_issues 0 (step_ids steps) steps)
      (walk_all (suc (length steps)) steps)
