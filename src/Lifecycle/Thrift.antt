-- ===== src/Lifecycle/Thrift.antt =====
-- Every command keeps every job within its attempt budget.
mod Leases
mod Attempts
mod Runs
use parallelplay.Prelude.{
  ◌==◌, ℕ, ◌≡◌, refl, Bool, true, false, not, ◌&&◌, Option, none, some, List, [], ◌∷◌, ◌++◌, String,
  Uuid, All, All-append, get, has, values, Bool-cases, Option-cases, if◌then◌else◌, inl, inr,
}
use parallelplay.Canonical.{Host}
use parallelplay.Evolve.{workflow_key}
use parallelplay.Model.{
  ProjectionState, DomainEvent, JobState, AttemptState, OutboxState, RunState, WorkflowState,
  VerifierContract, SourceRevision, WorkflowDefinition, run_event, run_scheduled,
  is_terminal_attempt,
}
use parallelplay.Decide.{
  Decision, Accepted, ResultKind, ok, accept, found, FailureReason, attempt_not_found, fail_if,
  job_lease_renew, job_lease_release, outbox_lease_acquire, outbox_delivery_succeed,
  outbox_delivery_fail, attempt_observe, attempt_timeout, active_lease_attempt, observe_success,
  request_verification, unverified_success, verification_request_events, verification_complete,
  verification_execution_fail, find_verifying, run_schedule, run_cancel, cancellation_for_run,
  run_create, program_create, workflow_register, source_revision_register, job_lease_acquire,
  validate_job_lease, validate_outbox_lease, is_available, job_not_found, outbox_not_found,
  delivery_events, started_events, delivery_failure_events, undelivered_events, is_dead_letter,
  is_cancel, completion_events, enqueue, cancel_id, AcquireJobLease, ObserveAttempt,
  CompleteVerification, VerificationLease, ScheduleJob, schedule_steps, by_step, Verifying,
}
use parallelplay.Decide.{
  is_start, program_already_exists, workflow_version_conflict, next_version, outbox_not_claimable,
  verification_required, verification_not_found, verification_not_active, run_not_found,
  workflow_not_found, verifying, job_packet, is_open_job, CancelReason, is_over,
  failure_transition_events,
}
use parallelplay.Kernel.{
  Command, decide, register_source, create_program, register_workflow, create_run, schedule_run,
  cancel_run, allocate_attempt, cancel_attempt, acquire_job, renew_job, release_job,
  observe_attempt, time_out_attempt, complete_verification, fail_verification, acquire_outbox,
  succeed_delivery, fail_delivery, Log, append_inputs,
}
use parallelplay.Lifecycle.Budget.{BudgetHolds, AllAllowed}
use parallelplay.Lifecycle.Spending.{
  Keeps, allowed-Keeps, found-own, failure_transition_events-AllAllowed, success_events-AllAllowed,
  verdict_events-AllAllowed, endings-AllAllowed,
}
use parallelplay.Lifecycle.Charging.{acquire_events-Keeps}
use parallelplay.Lifecycle.Scheduling.{
  MayStart, Opening, by_step-StartsAll, empty-StartsAll, schedule_steps-Opening, openings-Keeps,
}
use parallelplay.Lifecycle.Fencing.{job_lease_acquire-inv, found-inv}
use parallelplay.Lifecycle.Endings.{Ending, cancel_jobs-Ending, legacy_cancellations-Ending}
use parallelplay.Lifecycle.Accepting.{
  Ensures, Ensures-elim, Ensures-inv, Ensures->>=, Ensures->>, Ensures-ok, Ensures-failure,
}
use parallelplay.Lifecycle.Thrift.Leases.{
  Thrifty, Thrifty-allowed, job_lease_renew-Thrifty, job_lease_release-Thrifty,
  outbox_lease_acquire-Thrifty, started_events-AllAllowed, outbox_delivery_succeed-Thrifty,
  undelivered_events-AllAllowed, outbox_delivery_fail-Thrifty,
}
use parallelplay.Lifecycle.Thrift.Attempts.{
  active_lease_attempt-found, failure-Thrifty, attempt_timeout-Thrifty, unverified_success-Thrifty,
  verification_request_events-AllAllowed, request_verification-Thrifty, observe_success-Thrifty,
  outcome-Thrifty, attempt_observe-Thrifty,
}
use parallelplay.Lifecycle.Thrift.Runs.{
  find_verifying-found, completion_events-AllAllowed, verification_complete-Thrifty,
  verification_execution_fail-Thrifty, job_lease_acquire-Thrifty, run_cancel-Thrifty,
  Thrifty-openings, run_schedule-Thrifty, run_create-Thrifty, program_create-Thrifty,
  workflow_register-Thrifty, source_revision_register-Thrifty,
}

-- What `JobPolicySchema` demands of the jobs of a schedule.
abbrev pub WellFormed : Command → Type 0
WellFormed (schedule_run k jobs) = All MayStart jobs
WellFormed _ = Unit

module _ (host : Host) (now : ℕ) (s : ProjectionState) (b : BudgetHolds s) where
  decide-Thrifty : (c : Command) → WellFormed c → Thrifty host now s b (decide host s c now)
  unfolding decide
  decide-Thrifty (register_source v) h = source_revision_register-Thrifty host now s b v
  decide-Thrifty (create_program p name) h = program_create-Thrifty host now s b p name
  decide-Thrifty (register_workflow d) h = workflow_register-Thrifty host now s b d
  decide-Thrifty (create_run k p w version) h = run_create-Thrifty host now s b k p w version
  decide-Thrifty (schedule_run k jobs) h = run_schedule-Thrifty host now s b k jobs h
  decide-Thrifty (cancel_run k reason) h = run_cancel-Thrifty host now s b k reason
  decide-Thrifty (allocate_attempt a k) h = Ensures-failure _ _ _
  decide-Thrifty (cancel_attempt a reason) h = Ensures-failure _ _ _
  decide-Thrifty (acquire_job p) h = job_lease_acquire-Thrifty host now s b p
  decide-Thrifty (renew_job k o n d) h = job_lease_renew-Thrifty host now s b k o n d
  decide-Thrifty (release_job k o n) h = job_lease_release-Thrifty host now s b k o n
  decide-Thrifty (observe_attempt p) h = attempt_observe-Thrifty host now s b p
  decide-Thrifty (time_out_attempt k a o n) h = attempt_timeout-Thrifty host now s b k a o n
  decide-Thrifty (complete_verification p) h = verification_complete-Thrifty host now s b p
  decide-Thrifty (fail_verification p detail) h =
      verification_execution_fail-Thrifty host now s b p detail
  decide-Thrifty (acquire_outbox k o d) h = outbox_lease_acquire-Thrifty host now s b k o d
  decide-Thrifty (succeed_delivery k o n x) h = outbox_delivery_succeed-Thrifty host now s b k o n x
  decide-Thrifty (fail_delivery k o n x) h = outbox_delivery_fail-Thrifty host now s b k o n x

-- Every accepted command, of all that are modelled, keeps every job within its attempt budget: if
-- before it the jobs stand under their identifiers and each has started no more attempts than its
-- policy allows, and fewer while it is blocked, ready or waiting to retry, then the same holds once
-- the command's events are applied. The jobs of a schedule may each start at least one attempt.
pub decide-BudgetHolds :
    (host : Host) (now : ℕ) (s s' : ProjectionState) (c : Command) (a : Accepted) (log log' : Log)
    → BudgetHolds s
    → WellFormed c
    → decide host s c now ≡ ok a
    → append_inputs host now a.events log s ≡ some (log', s')
    → BudgetHolds s'
decide-BudgetHolds host now s s' c a log log' b well accepted q =
    Ensures-inv _ (decide host s c now) a (decide-Thrifty host now s b c well) accepted log log' s'
      q
