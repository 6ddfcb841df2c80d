-- ===== src/Decide/Reasons.antt =====
-- Why `cancellationEvents` and `failureTransitionEvents` of packages/kernel/src/domain.ts are called.
use parallelplay.Model.{TerminationReason, AttemptStatus}

pub data CancelReason : Type 0 where
  operator_cancelled run_failed : CancelReason

abbrev pub cancel_reason : CancelReason → TerminationReason
cancel_reason CancelReason.operator_cancelled = TerminationReason.operator_cancelled
cancel_reason CancelReason.run_failed = TerminationReason.run_failed

pub data FailureReason : Type 0 where
  driver_error timed_out : FailureReason

abbrev pub failure_reason : FailureReason → TerminationReason
failure_reason FailureReason.driver_error = TerminationReason.driver_error
failure_reason FailureReason.timed_out = TerminationReason.timed_out

abbrev pub failure_status : FailureReason → AttemptStatus
failure_status FailureReason.driver_error = AttemptStatus.failed
failure_status FailureReason.timed_out = AttemptStatus.timed_out
