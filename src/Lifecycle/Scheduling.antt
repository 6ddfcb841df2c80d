-- ===== src/Lifecycle/Scheduling.antt =====
-- A run's schedule opens the attempt budgets of its jobs.
use parallelplay.Prelude.{
  ℕ, ◌≤◌, ◌≡◌, Option, none, some, List, [], ◌∷◌, String, Uuid, Map, All, get, set, get-set, same,
  arith, Bool-cases, inl, inr,
}
use parallelplay.Canonical.{Host}
use parallelplay.Evolve.{job_change, new_job}
use parallelplay.Model.{
  ProjectionState, Stamp, DomainEvent, JobState, WorkflowStep, JobSchedule, run_event,
  attempt_event, job_event, job_scheduled,
}
use parallelplay.Decide.{
  ok, required, ScheduleJob, by_step, schedule_step, schedule_steps, dependency_jobs,
}
use parallelplay.Lifecycle.Views.{job_view, evolve-JobsMove, append_inputs-keeps}
use parallelplay.Lifecycle.Budget.{BudgetHolds, Within}
use parallelplay.Lifecycle.Spending.{Keeps}
use parallelplay.Lifecycle.Accepting.{Ensures, Ensures-inv, Ensures->>=, Ensures-ok}

-- A job of a schedule may start at least one attempt.
abbrev pub MayStart : ScheduleJob → Type 0
MayStart j = 1 ≤ j.policy.max_attempts

abbrev StartsAll : Map ScheduleJob → Type 0
StartsAll m = (k : Uuid) (j : ScheduleJob) → get k m ≡ some j → MayStart j

pub by_step-StartsAll :
    (jobs : List ScheduleJob) (m : Map ScheduleJob)
    → All MayStart jobs
    → StartsAll m
    → StartsAll (by_step jobs m)
unfolding by_step
by_step-StartsAll [] m h b = b
by_step-StartsAll (j ∷ js) m h b = by_step-StartsAll js (set j.step_id j m) h.1 λ k i e.
    elim (Bool-cases (same j.step_id k)) [
      | inl hit ↦
          let one : j ≡ i = ground (arith, get-set j.step_id k j m, e, hit) in rw (← one) h.0
      | inr miss ↦ b k i (ground (arith, get-set j.step_id k j m, e, miss))
    ]

pub empty-StartsAll : StartsAll []
unfolding get
empty-StartsAll k j h = ground (arith, h)

-- An event of a schedule.
abbrev pub Opening : DomainEvent → Type 0
Opening (job_event (job_scheduled d)) = 1 ≤ d.policy.max_attempts
Opening (run_event e) = Unit
Opening _ = ⊥

required-inv {ℓ} :
    {A : Type ℓ} (o : Option A) (m : String) (a : A) → required o m ≡ ok a → o ≡ some a
required-inv none m a h = cc
required-inv (some x) m a h = ground arith

schedule_step-MayStart :
    (host : Host) (run_id : Uuid) (jobs : Map ScheduleJob) (step : WorkflowStep)
    → StartsAll jobs
    → Ensures (λ (d : JobSchedule). 1 ≤ d.policy.max_attempts) (schedule_step host run_id jobs step)
unfolding schedule_step
schedule_step-MayStart host run_id jobs step starts =
    Ensures->>= _ (required (get step.id jobs) "Missing validated job") _ λ job e.
      Ensures->>= _ (dependency_jobs jobs step.depends_on) _
        λ ids f. Ensures-ok _ _ (starts step.id job (required-inv _ _ job e))

pub schedule_steps-Opening :
    (host : Host) (run_id : Uuid) (jobs : Map ScheduleJob) (steps : List WorkflowStep)
    → StartsAll jobs
    → Ensures (All Opening) (schedule_steps host run_id jobs steps)
unfolding schedule_steps
schedule_steps-Opening host run_id jobs [] starts = Ensures-ok _ [] tt
schedule_steps-Opening host run_id jobs (s ∷ ss) starts =
    Ensures->>= _ (schedule_step host run_id jobs s) _ λ d e.
      Ensures->>= _ (schedule_steps host run_id jobs ss) _ λ events f. Ensures-ok _ _ (
        Ensures-inv _ _ d (schedule_step-MayStart host run_id jobs s starts) e,
        Ensures-inv _ _ events (schedule_steps-Opening host run_id jobs ss starts) f,
      )

view-Opening :
    (t : Stamp) (e : DomainEvent) (i : Uuid) (o : Option JobState)
    → Opening e
    → Within o
    → Within (job_view t e i o)
unfolding job_view job_change new_job
view-Opening t (job_event (job_scheduled d)) i none g h = ground arith
view-Opening t (job_event (job_scheduled d)) i (some j) g h = ground arith
view-Opening t (job_event _) i o g h = elim g [ ]
view-Opening t (attempt_event _) i o g h = elim g [ ]
view-Opening t (run_event e) i o g h = h
view-Opening t _ i o g h = elim g [ ]

pub openings-Keeps :
    (host : Host) (now : ℕ) (s : ProjectionState) (es : List DomainEvent)
    → BudgetHolds s
    → All Opening es
    → Keeps host now s es
openings-Keeps host now s es b g log log' s' q =
    append_inputs-keeps BudgetHolds Opening host
      (λ t e u u' opening p step.
        let (keyed', moves) = evolve-JobsMove host t e u u' p.0 step in
        (keyed', λ i. rw (moves i) (view-Opening t e i (get i u.jobs) opening (p.1 i))))
      now es log log' s s' g b q
