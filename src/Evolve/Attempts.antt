-- ===== src/Evolve/Attempts.antt =====
-- The attempt events of `evolve`, packages/kernel/src/model.ts.
use parallelplay.Prelude.{
  ℕ, Option, none, some, String, Uuid, Map, set, amend, get_or, Bool, true, false, if◌then◌else◌,
}
use parallelplay.Model.{
  AttemptStatus, AttemptState, AttemptEvent, Stamp, TerminationReason, attempt_allocated,
  attempt_cancelled, attempt_started, attempt_running, attempt_verification_requested,
  attempt_finished,
}

new_attempt : Uuid → Option Uuid → Uuid → ℕ → AttemptStatus → Stamp → AttemptState
new_attempt attempt_id job_id run_id ordinal status stamp = record {
  attempt_id = attempt_id;
  run_id = run_id;
  job_id = job_id;
  ordinal = ordinal;
  status = status;
  allocated_at = stamp.occurred_at;
  started_at = none;
  deadline_at = none;
  external_run_id = none;
  driver_cursor = 0;
  cumulative_usage = none;
  candidate_revision_id = none;
  driver_receipt_id = none;
  finished_at = none;
  cancelled_at = none;
  cancellation_reason = none;
  termination_reason = none;
  version = stamp.stream_version;
}

abbrev is_cancelled : AttemptStatus → Bool
is_cancelled AttemptStatus.cancelled = true
is_cancelled _ = false

-- The text of a reason, as the source's literal spells it.
unfoldable pub reason_text : TerminationReason → String
reason_text TerminationReason.completed = "completed"
reason_text TerminationReason.driver_error = "driver_error"
reason_text TerminationReason.timed_out = "timed_out"
reason_text TerminationReason.operator_cancelled = "operator_cancelled"
reason_text TerminationReason.run_failed = "run_failed"
reason_text TerminationReason.verification_failed = "verification_failed"
reason_text TerminationReason.verification_invalid = "verification_invalid"
reason_text TerminationReason.approval_required = "approval_required"
reason_text TerminationReason.protocol_invalid = "protocol_invalid"
reason_text TerminationReason.capability_violation = "capability_violation"

amend_attempt : Uuid → (AttemptState → AttemptState) → Map AttemptState → Option (Map AttemptState)
amend_attempt = amend (λ a. a.attempt_id)

-- What each event does to the attempts; `AttemptStarted` also writes its job (Evolve/Jobs.antt).
unfoldable pub evolve_attempt : Stamp → AttemptEvent → Map AttemptState → Option (Map AttemptState)
unfolding new_attempt amend_attempt
evolve_attempt t (attempt_allocated attempt_id run_id ordinal) attempts =
    some (
      set attempt_id (new_attempt attempt_id none run_id ordinal AttemptStatus.allocated t)
        attempts)
evolve_attempt t (attempt_cancelled attempt_id run_id reason) attempts =
    amend_attempt attempt_id
      (λ a. record a {
        status = AttemptStatus.cancelled;
        finished_at = some t.occurred_at;
        cancelled_at = some t.occurred_at;
        cancellation_reason = some reason;
        termination_reason = some TerminationReason.operator_cancelled;
        version = t.stream_version;
      })
      attempts
evolve_attempt t (attempt_started attempt_id job_id run_id ordinal deadline_at) attempts =
    let a = new_attempt attempt_id (some job_id) run_id ordinal AttemptStatus.starting t in
    some (
      set attempt_id (record a { started_at = some t.occurred_at; deadline_at = some deadline_at })
        attempts)
evolve_attempt t (attempt_running attempt_id job_id run_id external_run_id) attempts =
    amend_attempt attempt_id
      (λ a. record a {
        status = AttemptStatus.running;
        external_run_id = some external_run_id;
        version = t.stream_version;
      })
      attempts
evolve_attempt t (attempt_verification_requested attempt_id job_id run_id verification_id)
      attempts =
    amend_attempt attempt_id
      (λ a. record a { status = AttemptStatus.verifying; version = t.stream_version }) attempts
evolve_attempt t (attempt_finished attempt_id job_id run_id status reason detail) attempts =
    amend_attempt attempt_id
      (λ a. record a {
        status = status;
        finished_at = some t.occurred_at;
        cancelled_at = if is_cancelled status then some t.occurred_at else none;
        cancellation_reason =
            if is_cancelled status then some (get_or detail (reason_text reason)) else none;
        termination_reason = some reason;
        version = t.stream_version;
      })
      attempts
