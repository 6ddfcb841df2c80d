-- ===== src/Kernel/Commands.antt =====
-- The commands of the execution kernel and the `switch` of `decide`, packages/kernel/src/domain.ts.
use parallelplay.Prelude.{ℕ, List, String, Uuid}
use parallelplay.Canonical.{Host}
use parallelplay.Model.{ProjectionState, WorkflowDefinition, SourceRevision}
use parallelplay.Decide.{
  Decision, failure, command_retired, ScheduleJob, AcquireJobLease, ObserveAttempt,
  CompleteVerification, VerificationLease, source_revision_register, program_create,
  workflow_register, run_create, run_schedule, run_cancel, job_lease_acquire, job_lease_renew,
  job_lease_release, attempt_observe, attempt_timeout, verification_complete,
  verification_execution_fail, outbox_lease_acquire, outbox_delivery_succeed, outbox_delivery_fail,
}

pub data Command : Type 0 where
  register_source : SourceRevision → Command
  create_program : (program_id : Uuid) (name : String) → Command
  register_workflow : WorkflowDefinition → Command
  create_run : (run_id program_id workflow_id : Uuid) (workflow_version : ℕ) → Command
  schedule_run : (run_id : Uuid) (jobs : List ScheduleJob) → Command
  cancel_run : (run_id : Uuid) (reason : String) → Command
  allocate_attempt : (attempt_id run_id : Uuid) → Command
  cancel_attempt : (attempt_id : Uuid) (reason : String) → Command
  acquire_job : AcquireJobLease → Command
  renew_job : (job_id owner_id : Uuid) (fencing_token lease_duration_ms : ℕ) → Command
  release_job : (job_id owner_id : Uuid) (fencing_token : ℕ) → Command
  observe_attempt : ObserveAttempt → Command
  time_out_attempt : (job_id attempt_id owner_id : Uuid) (fencing_token : ℕ) → Command
  complete_verification : CompleteVerification → Command
  fail_verification : VerificationLease → (detail : String) → Command
  acquire_outbox : (outbox_id owner_id : Uuid) (lease_duration_ms : ℕ) → Command
  succeed_delivery :
      (outbox_id owner_id : Uuid) (fencing_token : ℕ) (external_effect_id : String) → Command
  fail_delivery : (outbox_id owner_id : Uuid) (fencing_token : ℕ) (error : String) → Command

unfoldable pub decide : Host → ProjectionState → Command → ℕ → Decision
decide host s (register_source value) now = source_revision_register host s value
decide host s (create_program program_id name) now = program_create s program_id name
decide host s (register_workflow definition) now = workflow_register host s definition
decide host s (create_run run_id program_id workflow_id workflow_version) now =
    run_create s run_id program_id workflow_id workflow_version
decide host s (schedule_run run_id jobs) now = run_schedule host s run_id jobs
decide host s (cancel_run run_id reason) now = run_cancel host s run_id reason
decide host s (allocate_attempt attempt_id run_id) now =
    failure command_retired "Manual attempt commands were retired in legacy"
decide host s (cancel_attempt attempt_id reason) now =
    failure command_retired "Manual attempt commands were retired in legacy"
decide host s (acquire_job p) now = job_lease_acquire host s p now
decide host s (renew_job job_id owner_id fencing_token lease_duration_ms) now =
    job_lease_renew s job_id owner_id fencing_token lease_duration_ms now
decide host s (release_job job_id owner_id fencing_token) now =
    job_lease_release s job_id owner_id fencing_token now
decide host s (observe_attempt p) now = attempt_observe host s p now
decide host s (time_out_attempt job_id attempt_id owner_id fencing_token) now =
    attempt_timeout host s job_id attempt_id owner_id fencing_token now
decide host s (complete_verification p) now = verification_complete host s p now
decide host s (fail_verification p detail) now = verification_execution_fail host s p detail now
decide host s (acquire_outbox outbox_id owner_id lease_duration_ms) now =
    outbox_lease_acquire s outbox_id owner_id lease_duration_ms now
decide host s (succeed_delivery outbox_id owner_id fencing_token external_effect_id) now =
    outbox_delivery_succeed host s outbox_id owner_id fencing_token external_effect_id now
decide host s (fail_delivery outbox_id owner_id fencing_token error) now =
    outbox_delivery_fail host s outbox_id owner_id fencing_token error now
