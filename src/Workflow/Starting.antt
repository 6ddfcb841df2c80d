-- ===== src/Workflow/Starting.antt =====
-- `run.schedule` of packages/kernel/src/domain.ts where the registered workflows passed the check of
-- packages/kernel/src/schema.ts.
use mathlib.Core.List.Memᴰ
use mathlib.Core.List.{Memᴰ}
use parallelplay.Prelude.{
  ◌≡◌, refl, Bool, true, false, not, Option, none, some, List, [], ◌∷◌, ◌++◌, String, Uuid, get,
  any, is_some, arith,
}
use parallelplay.Canonical.{Host}
use parallelplay.Evolve.{workflow_key}
use parallelplay.Model.{
  ProjectionState, WorkflowState, WorkflowStep, JobStatus, JobSchedule, run_event, job_event,
  job_scheduled, run_scheduled,
}
use parallelplay.Decide.{
  Result, ok, failure, thrown, DomainErrorCode, Accepted, ◌>>=◌, >>=-eq-ok, found, fail_if, accept,
  run, ScheduleJob, by_step, check_steps, check_schedule, check_schedulable, is_mismatch,
  verification_required, schedule_mismatch, schedule_steps, run_schedule, run_not_found,
  workflow_not_found,
}
use parallelplay.Lifecycle.Fencing.{found-inv}
use parallelplay.Workflow.Roots.{IsWorkflowGraph-root}
use parallelplay.Workflow.Schedules.{IsValidWorkflow, Begins, schedules}

-- No exception leaves the computation.
unfoldable Quiet {ℓ} : {A : Type ℓ} → Result A → Type 0
Quiet (ok value) = Unit
Quiet (failure code message) = Unit
Quiet (thrown message) = ⊥

Quiet->>= {ℓ κ} :
    {A : Type ℓ} {B : Type κ} (m : Result A) (next : A → Result B)
    → Quiet m
    → ((value : A) → m ≡ ok value → Quiet (next value))
    → Quiet (m >>= next)
unfolding Quiet
Quiet->>= (ok value) next q rest = rest value refl
Quiet->>= (failure code message) next q rest = tt
Quiet->>= (thrown message) next q rest = q

Quiet-fail_if : (b : Bool) (c : DomainErrorCode) (m : String) → Quiet (fail_if b c m)
unfolding Quiet
Quiet-fail_if true c m = tt
Quiet-fail_if false c m = tt

Quiet-found {ℓ} :
    {A : Type ℓ} (o : Option A) (c : DomainErrorCode) (m : String) → Quiet (found o c m)
unfolding Quiet
Quiet-found none c m = tt
Quiet-found (some a) c m = tt

Quiet-ok {ℓ} : {A : Type ℓ} (value : A) → Quiet (ok value)
unfolding Quiet
Quiet-ok value = tt

ruleset quiet = (Quiet->>=, Quiet-fail_if, Quiet-found, Quiet-ok)

-- The registered workflows are as the schema lets them in.
unfoldable pub ValidWorkflows : ProjectionState → Type 0
ValidWorkflows state =
    (key : String) (w : WorkflowState) → get key state.workflows ≡ some w → IsValidWorkflow w

module _ (host : Host) (state : ProjectionState) (run_id : Uuid) (jobs : List ScheduleJob) where
  check_schedule-steps :
      (w : WorkflowState) (u : Unit {0})
      → check_schedule state w.definition jobs ≡ ok u
      → check_steps state (by_step jobs []) w.definition.steps ≡ ok u
  unfolding check_schedule
  check_schedule-steps w u h =
      let (v, first, rest) =
        >>=-eq-ok
          (fail_if (any (λ (s : WorkflowStep). not (is_some s.verification)) w.definition.steps)
            verification_required "Fresh schedules require verification-enabled workflow steps")
          _ h in
      let (v', second, last) =
        >>=-eq-ok
          (fail_if (is_mismatch state w.definition jobs) schedule_mismatch
            "Schedule must contain one unique job for every workflow step")
          _ rest in
      last

  -- Among the events of the schedule is that of a step without dependencies.
  begins :
      (w : WorkflowState) (r : Uuid) (u : Unit {0}) (a : Accepted)
      → IsValidWorkflow w
      → check_steps state (by_step jobs []) w.definition.steps ≡ ok u
      → (schedule_steps host r (by_step jobs []) w.definition.steps >>= λ events.
          accept (events ++ run_event (run_scheduled r) ∷ []) run r)
        ≡ ok a
      → (schedule : JobSchedule) × Memᴰ (job_event (job_scheduled schedule)) a.events
        × (schedule.initial_status ≡ JobStatus.ready)
  unfolding IsValidWorkflow Begins
  begins w r u a valid checked h =
      let (events, runs, each) = schedules host state r jobs w.definition.steps u valid.0 checked in
      let (root, there, free) = IsWorkflowGraph-root w.definition.steps valid.0 valid.1 in
      let (schedule, inside, first) = each root there in
      let all : events ++ run_event (run_scheduled r) ∷ [] ≡ a.events = ground (arith, runs, h) in
      (
        schedule,
        rw (← all) (Memᴰ.append_left (run_event (run_scheduled r) ∷ []) inside),
        first.1 free,
      )

  -- An accepted schedule can begin at once: where the registered workflows have passed the check of
  -- their graphs and have a step, one of the jobs that it adds to the run is ready.
  pub run_schedule-starts :
      (a : Accepted)
      → ValidWorkflows state
      → run_schedule host state run_id jobs ≡ ok a
      → (schedule : JobSchedule) × Memᴰ (job_event (job_scheduled schedule)) a.events
        × (schedule.initial_status ≡ JobStatus.ready)
  unfolding run_schedule ValidWorkflows
  run_schedule-starts a valid h =
      let (r, e, h1) =
        >>=-eq-ok (found (get run_id state.runs) run_not_found "Run does not exist") _ h in
      let (u, e', h2) = >>=-eq-ok (check_schedulable state r) _ h1 in
      let (w, here, h3) =
        >>=-eq-ok
          (found (get (workflow_key r.workflow_id r.workflow_version) state.workflows)
            workflow_not_found "Workflow version does not exist")
          _ h2 in
      let (v, checked, h4) = >>=-eq-ok (check_schedule state w.definition jobs) _ h3 in
      begins w r.run_id v a (valid _ w (found-inv _ _ _ w here)) (check_schedule-steps w v checked)
        h4
