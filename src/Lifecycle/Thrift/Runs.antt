-- ===== src/Lifecycle/Thrift/Runs.antt =====
-- Verifications, claims, cancellations and schedules keep every job within its attempt budget.
use parallelplay.Prelude.{
  ◌==◌, ℕ, ◌≡◌, Bool, true, false, not, some, List, [], ◌∷◌, ◌++◌, String, Uuid, All, All-append,
  get, has, values,
}
use parallelplay.Canonical.{Host}
use parallelplay.Evolve.{workflow_key}
use parallelplay.Model.{
  ProjectionState, DomainEvent, SourceRevision, WorkflowDefinition, run_event, run_scheduled,
}
use parallelplay.Decide.{
  ResultKind, accept, found, FailureReason, fail_if, verification_complete,
  verification_execution_fail, find_verifying, run_schedule, run_cancel, cancellation_for_run,
  run_create, program_create, workflow_register, source_revision_register, job_lease_acquire,
  job_not_found, outbox_not_found, completion_events, AcquireJobLease, CompleteVerification,
  VerificationLease, ScheduleJob, schedule_steps, by_step, Verifying,
}
use parallelplay.Decide.{
  program_already_exists, workflow_version_conflict, next_version, verification_not_found,
  verification_not_active, run_not_found, workflow_not_found, verifying, job_packet, is_open_job,
  CancelReason,
}
use parallelplay.Kernel.{}
use parallelplay.Lifecycle.Budget.{BudgetHolds, AllAllowed}
use parallelplay.Lifecycle.Spending.{
  found-own, failure_transition_events-AllAllowed, verdict_events-AllAllowed, endings-AllAllowed,
}
use parallelplay.Lifecycle.Charging.{acquire_events-Keeps}
use parallelplay.Lifecycle.Scheduling.{
  MayStart, Opening, by_step-StartsAll, empty-StartsAll, schedule_steps-Opening, openings-Keeps,
}
use parallelplay.Lifecycle.Fencing.{job_lease_acquire-inv, found-inv}
use parallelplay.Lifecycle.Endings.{Ending, cancel_jobs-Ending, legacy_cancellations-Ending}
use parallelplay.Lifecycle.Accepting.{
  Ensures, Ensures-elim, Ensures-inv, Ensures->>=, Ensures->>, Ensures-ok,
}
use parallelplay.Lifecycle.Thrift.Leases.{Thrifty, Thrifty-allowed}
use parallelplay.Lifecycle.Thrift.Attempts.{}

module _ (host : Host) (now : ℕ) (s : ProjectionState) (b : BudgetHolds s) where
  pub find_verifying-found :
      (p : VerificationLease) (timed : Bool)
      → Ensures (λ (x : Verifying). get p.job_id s.jobs ≡ some x.job) (find_verifying s p timed now)
  unfolding find_verifying
  find_verifying-found p timed =
      Ensures->>= _
        (found (get p.verification_id s.verifications) verification_not_found
          "Verification does not exist")
        _
        λ v e. Ensures->> _ _ _ (
          Ensures->>= _ (found (get p.job_id s.jobs) job_not_found "Job does not exist") _ λ j f.
            Ensures->> _ _ _ (
              Ensures->>= _
                (found (get p.outbox_id s.outbox) outbox_not_found
                  "Verification outbox message does not exist")
                _
                λ o g. Ensures->> _ _ _ (
                  Ensures->>= _
                    (found (verifying (get p.attempt_id s.attempts)) verification_not_active
                      "Verification is not active for this attempt")
                    _ λ a h. Ensures->> _ _ _ (Ensures-ok _ _ (found-inv _ _ _ j f)))))

  pub completion_events-AllAllowed :
      (p : CompleteVerification) (x : Verifying) (digest : String)
      → AllAllowed s (completion_events host s p x digest)
  unfolding completion_events
  completion_events-AllAllowed p x digest = (
    (λ i. tt),
    (
      (λ i. tt),
      (
        (λ i. tt),
        (
          (λ i. tt),
          verdict_events-AllAllowed host s x.job p.result.outcome p.result.failure_reason b,
        ),
      ),
    ),
  )

  pub verification_complete-Thrifty :
      (p : CompleteVerification) → Thrifty host now s b (verification_complete host s p now)
  unfolding verification_complete
  verification_complete-Thrifty p = Ensures->>= _ (find_verifying s p.lease true now) _ λ x e.
      Ensures->> _ _ _ (Thrifty-allowed host now s b _ _ _ (completion_events-AllAllowed p x _))

  pub verification_execution_fail-Thrifty :
      (p : VerificationLease) (detail : String)
      → Thrifty host now s b (verification_execution_fail host s p detail now)
  unfolding verification_execution_fail
  verification_execution_fail-Thrifty p detail =
      Ensures->>= _ (find_verifying s p false now) _ λ x e. Thrifty-allowed host now s b _ _ _ (
        (λ i. tt),
        failure_transition_events-AllAllowed host s x.job x.attempt FailureReason.timed_out now
            (some detail) (some x.outbox.outbox_id)
            (found-own s p.job_id x.job b.0 (Ensures-inv _ _ x (find_verifying-found p false) e)),
      )

  pub job_lease_acquire-Thrifty :
      (p : AcquireJobLease) → Thrifty host now s b (job_lease_acquire host s p now)
  job_lease_acquire-Thrifty p = Ensures-elim (job_lease_acquire host s p now) λ a h.
      let (j, r, e, checked, events) = job_lease_acquire-inv host s p now a h in
      rw events (
        acquire_events-Keeps host now s p r j (job_packet s j) b (found-own s p.job_id j b.0 e)
          checked)

  pub run_cancel-Thrifty :
      (k : Uuid) (reason : String) → Thrifty host now s b (run_cancel host s k reason)
  unfolding run_cancel cancellation_for_run
  run_cancel-Thrifty k reason = Ensures->>= _ (cancellation_for_run host s k reason) _ λ events e.
      Thrifty-allowed host now s b _ _ _ (
        endings-AllAllowed s events (
          Ensures-inv (All Ending) _ events
            (Ensures->>= _ (found (get k s.runs) run_not_found "Run does not exist") _ λ r f.
              Ensures->> _ _ _ (
                Ensures-ok _ _ (
                  All-append Ending _ _
                    (legacy_cancellations-Ending r.run_id reason (values s.attempts))
                    (All-append Ending _ _
                      (cancel_jobs-Ending host s CancelReason.operator_cancelled
                        (is_open_job r.run_id) (values s.jobs) [])
                      (tt, tt)))))
            e))

  pub Thrifty-openings :
      (k : Uuid) (events : List DomainEvent)
      → All Opening events
      → Thrifty host now s b (accept (events ++ run_event (run_scheduled k) ∷ []) ResultKind.run k)
  Thrifty-openings k events h =
      Ensures-ok _ _ (openings-Keeps host now s _ b (All-append Opening events _ h (tt, tt)))

  pub run_schedule-Thrifty :
      (k : Uuid) (jobs : List ScheduleJob)
      → All MayStart jobs
      → Thrifty host now s b (run_schedule host s k jobs)
  unfolding run_schedule
  run_schedule-Thrifty k jobs may =
      Ensures->>= _ (found (get k s.runs) run_not_found "Run does not exist") _ λ r e.
        Ensures->> _ _ _ (
          Ensures->>= _
            (found (get (workflow_key r.workflow_id r.workflow_version) s.workflows)
              workflow_not_found "Workflow version does not exist")
            _
            λ w f. Ensures->> _ _ _ (
              Ensures->>= _ (schedule_steps host r.run_id (by_step jobs []) w.definition.steps) _
                λ events g. Thrifty-openings r.run_id events (
                  Ensures-inv _ _ events
                    (schedule_steps-Opening host r.run_id (by_step jobs []) w.definition.steps
                      (by_step-StartsAll jobs [] may empty-StartsAll))
                    g)))

  pub run_create-Thrifty :
      (k p w : Uuid) (version : ℕ) → Thrifty host now s b (run_create s k p w version)
  unfolding run_create
  run_create-Thrifty k p w version =
      Ensures->> _ _ _ (Thrifty-allowed host now s b _ _ _ ((λ i. tt), tt))

  pub program_create-Thrifty :
      (p : Uuid) (name : String) → Thrifty host now s b (program_create s p name)
  unfolding program_create
  program_create-Thrifty p name =
      Ensures->> _ (fail_if (has p s.programs) program_already_exists "Program already exists") _
        (Thrifty-allowed host now s b _ _ _ ((λ i. tt), tt))

  pub workflow_register-Thrifty :
      (d : WorkflowDefinition) → Thrifty host now s b (workflow_register host s d)
  unfolding workflow_register
  workflow_register-Thrifty d =
      Ensures->> _
        (fail_if (not (d.version == next_version s d.workflow_id)) workflow_version_conflict
          "Workflow versions must be registered sequentially")
        _ (Thrifty-allowed host now s b _ _ _ ((λ i. tt), tt))

  pub source_revision_register-Thrifty :
      (v : SourceRevision) → Thrifty host now s b (source_revision_register host s v)
  unfolding source_revision_register
  source_revision_register-Thrifty v =
      Ensures->> _ _ _ (Thrifty-allowed host now s b _ _ _ ((λ i. tt), tt))
