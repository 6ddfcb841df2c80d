-- ===== src/Workflow/Validation.antt =====
-- What `validateWorkflowGraph` of packages/kernel/src/schema.ts accepts, against a description of
-- workflow graphs that does not speak of the search.
use parallelplay.Prelude.{
  append-eq-nil, suc, ◌≡◌, ◌↔◌, refl, subst, Bool, true, false, some, List, [], ◌∷◌, String, length,
  same, same→eq, arith, Bool-cases, inl, inr,
}
use parallelplay.Model.{WorkflowStep}
use parallelplay.Workflow.Graph.{
  Issue, Walk, cycle, clear, out_of_fuel, cyclic_graph, member, unmarked, duplicate_issues,
  step_ids, collect_dependencies, walk_all, validate_workflow_graph, report,
}
use parallelplay.Workflow.Walks.{
  Route, direct, onward, depends_on, Ordered, Ordered-map, Ordered-acyclic,
}
use parallelplay.Workflow.Room.{room-start}
use parallelplay.Workflow.Search.{edge, Finds, visit-Finds, visit_each-Finds}
use parallelplay.Workflow.Issues.{
  Fresh, Settled, duplicate_issues-inv, duplicate_issues-nil, all_dependency_issues-inv,
  all_dependency_issues-nil,
}
use parallelplay.Workflow.Steps.{
  is_step, Distinct, member-step_ids, depends_on-is_step, member-dependencies_of, Route-map,
}

-- Identifiers name one step each, dependencies are steps, and no step depends on itself, whether
-- directly or by way of others.
pub record IsWorkflowGraph (steps : List WorkflowStep) : Type 0 where
  pub distinct : Distinct steps
  pub known : (a b : String) → depends_on steps a b ≡ true → is_step steps b ≡ true
  pub acyclic : (a : String) → ¬ Route (depends_on steps) a a

module _ (steps : List WorkflowStep) where
  abbrev found_edges : String → String → Bool
  found_edges = edge (collect_dependencies [] steps)

  -- The walk from every step comes back with what it found.
  walk_all-Finds :
      Finds
        (collect_dependencies [] steps)
        unmarked
        (step_ids steps)
        (walk_all (suc (length steps)) steps)
  unfolding walk_all Ordered
  walk_all-Finds =
      let few = room-start steps in
      visit_each-Finds (collect_dependencies [] steps) _ (step_ids steps) unmarked
        (λ id m there steady order.
          visit-Finds (collect_dependencies [] steps) (suc (length steps)) id m
            (rw steady (omega arith)) order (λ v h. absurd (cc (rw steady at h))))
        tt

  to_found : Distinct steps → {a b : String} → Route (depends_on steps) a b → Route found_edges a b
  to_found d = Route-map λ x y h. rw (member-dependencies_of steps x y d) h

  from_found :
      Distinct steps → {a b : String} → Route found_edges a b → Route (depends_on steps) a b
  from_found d = Route-map λ x y h. rw (← member-dependencies_of steps x y d) h

  Route-is_step : {a b : String} → Route (depends_on steps) a b → is_step steps a ≡ true
  Route-is_step (direct h) = depends_on-is_step steps _ _ h
  Route-is_step (onward p h) = Route-is_step p

  report-returns :
      (w : Walk) (issues : List Issue)
      → Finds (collect_dependencies [] steps) unmarked (step_ids steps) w
      → (all_issues : List Issue) × (report issues w ≡ some all_issues)
  unfolding report Finds
  report-returns cycle issues found = (_, refl)
  report-returns (clear marks) issues found = (_, refl)
  report-returns out_of_fuel issues found = absurd found

  -- The check of a workflow comes back with its issues, whatever the steps: the search for cycles
  -- ends within its fuel.
  pub validate_workflow_graph-returns :
      (issues : List Issue) × (validate_workflow_graph steps ≡ some issues)
  unfolding validate_workflow_graph
  validate_workflow_graph-returns = report-returns _ _ walk_all-Finds

  report-inv :
      (w : Walk) (issues : List Issue)
      → Finds (collect_dependencies [] steps) unmarked (step_ids steps) w
      → report issues w ≡ some []
      → (issues ≡ []) × ((x : String) → is_step steps x ≡ true → ¬ Route found_edges x x)
  unfolding report Finds
  report-inv cycle issues found h =
      let (_, e) = append-eq-nil issues (cyclic_graph ∷ []) cc in absurd cc
  report-inv (clear marks) issues found h = (
    cc,
    λ x there.
        Ordered-acyclic found_edges marks.visited x found.0.ordered
          (found.1 x (rw (member-step_ids x steps) there)),
  )
  report-inv out_of_fuel issues found h = absurd found

  accepted-IsWorkflowGraph : validate_workflow_graph steps ≡ some [] → IsWorkflowGraph steps
  unfolding validate_workflow_graph Settled
  accepted-IsWorkflowGraph h =
      let (quiet, acyclic) = report-inv _ _ walk_all-Finds h in
      let (first, second) = append-eq-nil (duplicate_issues 0 [] steps) _ quiet in
      let (d, fresh) = duplicate_issues-inv 0 [] steps first in
      let settled = all_dependency_issues-inv 0 (step_ids steps) steps second in
      record {
        distinct = d;
        known = λ a b e. rw (← member-step_ids b steps) ((settled a b e).0);
        acyclic = λ a p. acyclic a (Route-is_step p) (to_found d p);
      }

  report-nil :
      (w : Walk)
      → Finds (collect_dependencies [] steps) unmarked (step_ids steps) w
      → ((a : String) → ¬ Route found_edges a a)
      → report [] w ≡ some []
  unfolding report Finds
  report-nil cycle (a, p) acyclic = absurd (acyclic a p)
  report-nil (clear marks) found acyclic = refl
  report-nil out_of_fuel found acyclic = absurd found

  IsWorkflowGraph-accepted : IsWorkflowGraph steps → validate_workflow_graph steps ≡ some []
  unfolding validate_workflow_graph Settled Fresh
  IsWorkflowGraph-accepted g =
      let other : (a b : String) → depends_on steps a b ≡ true → same b a ≡ false = λ a b e.
        elim (Bool-cases (same b a)) [
          | inl hit ↦
              absurd (
                g.acyclic a (direct (subst (λ x. depends_on steps a x ≡ true) (same→eq b a hit) e)))
          | inr miss ↦ miss
        ] in
      rw
        (
          duplicate_issues-nil 0 [] steps g.distinct (λ x e. refl),
          all_dependency_issues-nil 0 (step_ids steps) steps
              (λ a b e. (rw (member-step_ids b steps) (g.known a b e), other a b e)),
        )
        (report-nil _ walk_all-Finds λ a p. g.acyclic a (from_found g.distinct p))

  walk-order :
      (w : Walk)
      → Distinct steps
      → Finds (collect_dependencies [] steps) unmarked (step_ids steps) w
      → report [] w ≡ some []
      → (order : List String) × Ordered found_edges order
        × ((x : String) → is_step steps x ≡ true → member x order ≡ true)
  unfolding report Finds
  walk-order cycle d found h = absurd cc
  walk-order (clear marks) d found h =
      (marks.visited, found.0.ordered, λ x there. found.1 x (rw (member-step_ids x steps) there))
  walk-order out_of_fuel d found h = absurd found

  -- The steps of a workflow graph can be put in an order in which dependencies come first.
  pub IsWorkflowGraph-order :
      IsWorkflowGraph steps
      → (order : List String) × Ordered (depends_on steps) order
        × ((x : String) → is_step steps x ≡ true → member x order ≡ true)
  IsWorkflowGraph-order g =
      let (order, o, all) =
        walk-order (walk_all (suc (length steps)) steps) g.distinct walk_all-Finds
          (report-nil _ walk_all-Finds λ a p. g.acyclic a (from_found g.distinct p)) in
      (
        order,
        Ordered-map (λ x y e. rw (member-dependencies_of steps x y g.distinct) e) order o,
        all,
      )

  -- The check of a workflow finds no issue exactly where the steps make a workflow graph:
  -- identifiers name one step each, every dependency is a step, and no chain of dependencies leads
  -- from a step back to itself.
  pub validate_workflow_graph_iff :
      (validate_workflow_graph steps ≡ some []) ↔ IsWorkflowGraph steps
  validate_workflow_graph_iff = (accepted-IsWorkflowGraph, IsWorkflowGraph-accepted)
