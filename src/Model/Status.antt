-- ===== src/Model/Status.antt =====
-- The enumerations of packages/kernel/src/schema.ts, and the terminal sets of domain.ts.
use parallelplay.Prelude.{Bool, true, false}

pub data RunStatus : Type 0 where
  created scheduled running succeeded failed cancelled : RunStatus

pub data AttemptStatus : Type 0 where
  allocated starting running verifying succeeded failed timed_out cancelled : AttemptStatus
  approval_required : AttemptStatus

pub data JobStatus : Type 0 where
  blocked ready active retry_wait succeeded failed cancelled : JobStatus

pub data OutboxStatus : Type 0 where
  pending leased delivered obsolete dead_letter : OutboxStatus

pub data VerificationStatus : Type 0 where
  requested passed failed invalid cancelled : VerificationStatus

-- What a verifier reports.
pub data Outcome : Type 0 where
  passed failed invalid : Outcome

pub data TerminationReason : Type 0 where
  completed driver_error timed_out operator_cancelled run_failed : TerminationReason
  verification_failed verification_invalid approval_required : TerminationReason
  protocol_invalid capability_violation : TerminationReason

pub data Driver : Type 0 where
  fake generic_command : Driver

pub data Producer : Type 0 where
  agent verifier : Producer

pub data ObjectFormat : Type 0 where
  sha1 sha256 : ObjectFormat

-- TERMINAL_RUNS.has(status)
abbrev pub is_terminal_run : RunStatus → Bool
is_terminal_run RunStatus.succeeded = true
is_terminal_run RunStatus.failed = true
is_terminal_run RunStatus.cancelled = true
is_terminal_run _ = false

-- TERMINAL_JOBS.has(status)
abbrev pub is_terminal_job : JobStatus → Bool
is_terminal_job JobStatus.succeeded = true
is_terminal_job JobStatus.failed = true
is_terminal_job JobStatus.cancelled = true
is_terminal_job _ = false

-- TERMINAL_ATTEMPTS.has(status); `approval_required` is no member.
abbrev pub is_terminal_attempt : AttemptStatus → Bool
is_terminal_attempt AttemptStatus.succeeded = true
is_terminal_attempt AttemptStatus.failed = true
is_terminal_attempt AttemptStatus.timed_out = true
is_terminal_attempt AttemptStatus.cancelled = true
is_terminal_attempt _ = false
