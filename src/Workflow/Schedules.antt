-- ===== src/Workflow/Schedules.antt =====
-- `run.schedule` of packages/kernel/src/domain.ts on a workflow that passed the check of
-- packages/kernel/src/schema.ts: its lookups find what they need, and a job is ready at once.
use mathlib.Core.List.{Memᴰ}
use parallelplay.Prelude.{
  ◌≡◌, ◌≢◌, refl, ap, true, some, List, [], ◌∷◌, String, Uuid, Map, get, same_refl, arith,
  Option-cases, inl, inr,
}
use parallelplay.Canonical.{Host}
use parallelplay.Model.{
  ProjectionState, WorkflowState, WorkflowStep, JobStatus, JobSchedule, DomainEvent, job_event,
  job_scheduled,
}
use parallelplay.Decide.{
  ok, >>=-eq-ok, ScheduleJob, by_step, check_step, check_steps, dependency_jobs, job_schedule,
  schedule_step, schedule_steps,
}
use parallelplay.Workflow.Graph.{member}
use parallelplay.Workflow.Validation.{IsWorkflowGraph}
use parallelplay.Workflow.Roots.{step-of, mem-depends_on}

-- A workflow as the schema lets it in: at least one step, in a graph.
unfoldable pub IsValidWorkflow : WorkflowState → Type 0
IsValidWorkflow w = IsWorkflowGraph w.definition.steps × (w.definition.steps ≢ [])

module _ (host : Host) (state : ProjectionState) (run_id : Uuid) (jobs : Map ScheduleJob) where
  check_steps-jobs :
      (steps : List WorkflowStep) (u : Unit {0})
      → check_steps state jobs steps ≡ ok u
      → (s : WorkflowStep) → Memᴰ s steps
      → (j : ScheduleJob) × (get s.id jobs ≡ some j)
  unfolding check_steps
  check_steps-jobs [] u h s there = elim there [ ]
  check_steps-jobs (t ∷ steps) u h s (Memᴰ.head e) = elim (Option-cases (get t.id jobs)) [
    | inl missing ↦ absurd (cc (rw missing at h))
    | inr (j, here) ↦ (j, rw (ap (λ (x : WorkflowStep). x.id) e) here)
  ]
  check_steps-jobs (t ∷ steps) u h s (Memᴰ.tail there) =
      let (v, first, rest) = >>=-eq-ok (check_step state jobs t) _ h in
      check_steps-jobs steps u rest s there

  dependency_jobs-runs :
      (ds : List String)
      → ((d : String) → member d ds ≡ true → (j : ScheduleJob) × (get d jobs ≡ some j))
      → (ids : List Uuid) × (dependency_jobs jobs ds ≡ ok ids)
  unfolding dependency_jobs
  dependency_jobs-runs [] finds = ([], refl)
  dependency_jobs-runs (d ∷ ds) finds =
      let (j, e) = finds d (ground (arith, same_refl d)) in
      let (ids, rest) = dependency_jobs-runs ds (λ x h. finds x (ground arith)) in
      (j.job_id ∷ ids, rw (e, rest) refl)

  -- The job of a step that depends on nothing is ready.
  unfoldable pub Begins : WorkflowStep → JobSchedule → Type 0
  Begins s schedule =
      (schedule.run_id ≡ run_id) × (s.depends_on ≡ [] → schedule.initial_status ≡ JobStatus.ready)

  schedule_step-runs :
      (s : WorkflowStep) (j : ScheduleJob)
      → get s.id jobs ≡ some j
      → ((d : String) → member d s.depends_on ≡ true → (k : ScheduleJob) × (get d jobs ≡ some k))
      → (schedule : JobSchedule) × (schedule_step host run_id jobs s ≡ ok schedule)
        × Begins s schedule
  unfolding schedule_step Begins job_schedule
  schedule_step-runs s j e finds =
      let (ids, runs) = dependency_jobs-runs s.depends_on finds in
      (job_schedule host run_id s j ids, rw (e, runs) refl, (refl, λ nothing. rw nothing refl))

  schedule_steps-runs :
      (steps : List WorkflowStep)
      → ((s : WorkflowStep)
          → Memᴰ s steps
          → (schedule : JobSchedule) × (schedule_step host run_id jobs s ≡ ok schedule)
            × Begins s schedule)
      → (events : List DomainEvent) × (schedule_steps host run_id jobs steps ≡ ok events)
        × ((s : WorkflowStep)
            → Memᴰ s steps
            → (schedule : JobSchedule) × Memᴰ (job_event (job_scheduled schedule)) events
              × Begins s schedule)
  unfolding schedule_steps
  schedule_steps-runs [] runs = ([], refl, λ s there. elim there [ ])
  schedule_steps-runs (t ∷ steps) runs =
      let (schedule, one, begins) = runs t (Memᴰ.head refl) in
      let (events, rest, each) = schedule_steps-runs steps (λ s there. runs s (Memᴰ.tail there)) in
      (
        job_event (job_scheduled schedule) ∷ events,
        rw (one, rest) refl,
        λ s there. pick s schedule events begins each there,
      )
    where
      pick :
          (s : WorkflowStep) (schedule : JobSchedule) (events : List DomainEvent)
          → Begins t schedule
          → ((s : WorkflowStep)
              → Memᴰ s steps
              → (schedule : JobSchedule) × Memᴰ (job_event (job_scheduled schedule)) events
                × Begins s schedule)
          → Memᴰ s (t ∷ steps)
          → (result : JobSchedule) × Memᴰ
              (job_event (job_scheduled result))
              (job_event (job_scheduled schedule) ∷ events)
            × Begins s result
      pick s schedule events begins each (Memᴰ.head e) = (schedule, Memᴰ.head refl, rw e begins)
      pick s schedule events begins each (Memᴰ.tail there) =
          let (result, inside, b) = each s there in (result, Memᴰ.tail inside, b)

module _ (host : Host) (state : ProjectionState) (run_id : Uuid) (jobs : List ScheduleJob) where
  -- Once the checks have passed, every step gets its schedule.
  pub schedules :
      (steps : List WorkflowStep) (u : Unit {0})
      → IsWorkflowGraph steps
      → check_steps state (by_step jobs []) steps ≡ ok u
      → (events : List DomainEvent) × (schedule_steps host run_id (by_step jobs []) steps
          ≡ ok events)
        × ((s : WorkflowStep)
            → Memᴰ s steps
            → (schedule : JobSchedule) × Memᴰ (job_event (job_scheduled schedule)) events
              × Begins host state run_id (by_step jobs []) s schedule)
  schedules steps u g checked =
      let finds = check_steps-jobs host state run_id (by_step jobs []) steps u checked in
      schedule_steps-runs host state run_id (by_step jobs []) steps λ s there.
        let (j, e) = finds s there in
        schedule_step-runs host state run_id (by_step jobs []) s j e λ d h.
          let (t, there', own) =
            step-of steps d (g.known s.id d (mem-depends_on steps s d there h)) in
          rw (← own) (finds t there')
