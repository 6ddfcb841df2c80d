-- ===== src/Examples/Workflows.antt =====
-- Examples on workflow graphs: a workflow of two steps, a cycle, and a schedule.
use parallelplay.Prelude.{
  ◌≡◌, ◌↔◌, refl, none, some, List, [], ◌∷◌, String, get, set, same, decimal, join, Bool-cases, inl,
  inr, subst, arith,
}
use mathlib.Core.List.{Memᴰ}
use parallelplay.Canonical.{Json}
use parallelplay.Evolve.{workflow_key}
use parallelplay.Model.{
  ProjectionState, WorkflowState, WorkflowStep, RunStatus, JobStatus, JobSchedule, ObjectFormat,
  job_event, run_event, job_scheduled, run_scheduled,
}
use parallelplay.Decide.{
  Accepted, ok, ResultKind, ScheduleJob, by_step, schedule_steps, schedule_step, run_schedule,
  job_schedule, check_schedulable, check_schedule, is_mismatch, distinct, check_steps, check_step,
  timeout_fits, dependency_jobs,
}
use parallelplay.Workflow.Graph.{
  Issue, unknown_dependency, cyclic_graph, duplicate_step, validate_workflow_graph,
  duplicate_issues, all_dependency_issues, walk_all, report, visit, visit_each, step_ids,
  collect_ids, collect_dependencies, dependency_issues,
}
use parallelplay.Workflow.Validation.{
  IsWorkflowGraph, validate_workflow_graph-returns, validate_workflow_graph_iff,
}
use parallelplay.Workflow.Schedules.{IsValidWorkflow}
use parallelplay.Workflow.Starting.{ValidWorkflows, run_schedule-starts}
use parallelplay.Examples.Setting.{
  plain_host, ready_state, a_definition, a_workflow, a_policy, a_run,
}

abbrev step : String → List String → WorkflowStep
step id depends_on = record {
  id = id;
  capability = "build";
  depends_on = depends_on;
  execution = none;
  capabilities = none;
  verification = some (record { timeout_ms = 1000; document = Json.null });
}

abbrev two_steps : List WorkflowStep
two_steps = step "ship" ("build" ∷ []) ∷ step "build" [] ∷ []

two_steps_accepted : validate_workflow_graph two_steps ≡ some []
unfolding validate_workflow_graph duplicate_issues all_dependency_issues walk_all report visit
    visit_each step_ids collect_ids collect_dependencies dependency_issues same get set
two_steps_accepted = refl

-- Three steps in a ring, the last of them with a dependency that is no step, and the first named
-- twice.
ring_refused :
    validate_workflow_graph (
      step "a" ("b" ∷ [])
      ∷ step "b" ("c" ∷ [])
      ∷ step "c" ("a" ∷ "d" ∷ [])
      ∷ step "a" ("b" ∷ [])
      ∷ [])
    ≡ some (duplicate_step 3 "a" ∷ unknown_dependency 2 "d" ∷ cyclic_graph ∷ [])
unfolding validate_workflow_graph duplicate_issues all_dependency_issues walk_all report visit
    visit_each step_ids collect_ids collect_dependencies dependency_issues same get set
ring_refused = refl

validate_workflow_graph-returns_example :
    (issues : List Issue) × (validate_workflow_graph two_steps ≡ some issues)
validate_workflow_graph-returns_example = validate_workflow_graph-returns two_steps

validate_workflow_graph_iff_example :
    (validate_workflow_graph two_steps ≡ some []) ↔ IsWorkflowGraph two_steps
validate_workflow_graph_iff_example = validate_workflow_graph_iff two_steps

abbrev ship_workflow : WorkflowState
ship_workflow = record a_workflow { definition = record (a_definition 1) { steps = two_steps } }

-- The run is created and not yet scheduled.
abbrev created_state : ProjectionState
created_state = record ready_state {
  workflows = ("workflow:1", ship_workflow) ∷ [];
  runs = ("run", record a_run { status = RunStatus.created }) ∷ [];
  jobs = [];
  source_revisions =
      (
        "revision",
        record {
          revision_id = "revision";
          repository_id = "repository";
          object_format = ObjectFormat.sha1;
          commit_oid = "commit";
          tree_oid = "tree";
          storage_ref = "ref";
          revision_digest = "digest";
        },
      )
      ∷ [];
}

abbrev scheduled_job : String → String → ScheduleJob
scheduled_job job_id step_id = record {
  job_id = job_id;
  step_id = step_id;
  policy = a_policy;
  source_revision_id = some "revision";
}

abbrev both_jobs : List ScheduleJob
both_jobs = scheduled_job "first" "build" ∷ scheduled_job "second" "ship" ∷ []

abbrev schedule_of : String → WorkflowStep → List String → JobSchedule
schedule_of job_id s ids = job_schedule plain_host "run" s (scheduled_job job_id s.id) ids

abbrev scheduled : Accepted
scheduled = record {
  events =
      job_event (job_scheduled (schedule_of "second" (step "ship" ("build" ∷ [])) ("first" ∷ [])))
      ∷ job_event (job_scheduled (schedule_of "first" (step "build" []) []))
      ∷ run_event (run_scheduled "run")
      ∷ [];
  result_kind = ResultKind.run;
  result_id = "run";
}

accepted_schedule : run_schedule plain_host created_state "run" both_jobs ≡ ok scheduled
unfolding run_schedule check_schedulable check_schedule is_mismatch distinct check_steps check_step
    timeout_fits by_step schedule_steps schedule_step dependency_jobs workflow_key decimal join same
    get set
accepted_schedule = refl

created_state-ValidWorkflows : ValidWorkflows created_state
unfolding ValidWorkflows IsValidWorkflow get
created_state-ValidWorkflows key w h = elim (Bool-cases (same "workflow:1" key)) [
  | inl hit ↦
      let own : ship_workflow ≡ w = ground (arith, hit, h) in
      subst IsValidWorkflow own
        ((validate_workflow_graph_iff two_steps).0 two_steps_accepted, λ e. cc)
  | inr miss ↦ absurd (cc (rw miss at h))
]

run_schedule-starts_example :
    (schedule : JobSchedule) × Memᴰ (job_event (job_scheduled schedule)) scheduled.events
    × (schedule.initial_status ≡ JobStatus.ready)
run_schedule-starts_example =
    run_schedule-starts plain_host created_state "run" both_jobs scheduled
      created_state-ValidWorkflows accepted_schedule
