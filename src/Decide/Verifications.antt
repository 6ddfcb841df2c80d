-- ===== src/Decide/Verifications.antt =====
-- `verification.complete` and `verification.execution.fail` of `decide`, packages/kernel/src/domain.ts.
use parallelplay.Prelude.{
  ℕ, ◌+◌, Bool, true, false, not, ◌&&◌, ◌||◌, Option, none, some, List, [], ◌∷◌, String, Uuid, get,
  has, length, same, same_option, ltb, ◌==◌, is_some, get_or,
}
use parallelplay.Canonical.{Host}
use parallelplay.Evidence.{
  artifact_manifest_digest, verification_result_digest, verification_receipt_digest,
  receipt_identity, canonical_artifact_entries,
}
use parallelplay.Model.{
  ProjectionState, JobState, AttemptState, AttemptStatus, OutboxState, OutboxEffect,
  VerificationState, VerificationResult, ArtifactEntry, Producer, Outcome, TerminationReason,
  DomainEvent, verification_run, artifact_manifest_recorded, verification_event,
  verification_receipt_recorded, outbox_event, outbox_delivered, outbox_obsoleted, attempt_event,
  attempt_finished,
}
use parallelplay.Decide.Answers.{
  Result, Decision, ok, ◌>>=◌, ◌>>◌, fail_if, found, accept, job, verification, job_not_found,
  outbox_not_found, verification_not_found, verification_not_active, evidence_digest_mismatch,
  artifact_manifest_conflict,
}
use parallelplay.Decide.Leases.{has_elapsed, validate_job_lease, validate_outbox_lease}
use parallelplay.Decide.Reasons.{FailureReason}
use parallelplay.Decide.Failures.{failure_transition_events, fail_run_events, is_requested, truthy}
use parallelplay.Decide.Attempts.{success_events}

-- The identifiers and leases that both commands carry.
pub record VerificationLease : Type 0 where
  pub verification_id : Uuid
  pub outbox_id : Uuid
  pub job_id : Uuid
  pub attempt_id : Uuid
  pub owner_id : Uuid
  pub job_fencing_token : ℕ
  pub outbox_fencing_token : ℕ

pub record CompleteVerification : Type 0 where
  pub lease : VerificationLease
  pub open lease use *
  pub artifact_manifest_id : Uuid
  pub result : VerificationResult
  pub result_digest : String
  pub receipt_digest : String
  pub entries : List ArtifactEntry

-- `attempt?.status === "verifying"`
unfoldable pub verifying : Option AttemptState → Option AttemptState
verifying none = none
verifying (some a) = elim a.status [ AttemptStatus.verifying ↦ some a | _ ↦ none ]

runs_verification : OutboxEffect → Uuid → Bool
runs_verification (verification_run e) verification_id = same e.verification_id verification_id
runs_verification _ verification_id = false

pub record Verifying : Type 0 where
  pub verification : VerificationState
  pub job : JobState
  pub outbox : OutboxState
  pub attempt : AttemptState

-- The entities of a verification in progress, found and checked in the order of the code; the
-- deadline is looked at by `verification.complete` alone.
unfoldable pub find_verifying : ProjectionState → VerificationLease → Bool → ℕ → Result Verifying
unfolding verifying runs_verification
find_verifying state p deadline_matters now = do
  v ←
      found (get p.verification_id state.verifications) verification_not_found
        "Verification does not exist"
  fail_if (not (is_requested v.status)) verification_not_active "Verification is already terminal"
  j ← found (get p.job_id state.jobs) job_not_found "Job does not exist"
  validate_job_lease j p.owner_id p.job_fencing_token now
  o ←
      found (get p.outbox_id state.outbox) outbox_not_found
        "Verification outbox message does not exist"
  validate_outbox_lease o p.owner_id p.outbox_fencing_token now
  a ←
      found (verifying (get p.attempt_id state.attempts)) verification_not_active
        "Verification is not active for this attempt"
  fail_if
      ((deadline_matters && has_elapsed a.deadline_at now)
        || not (same_option j.active_attempt_id a.attempt_id)
        || not (same v.attempt_id a.attempt_id)
        || not (same v.job_id j.job_id)
        || not (same o.attempt_id a.attempt_id)
        || not (runs_verification o.effect v.verification_id))
      verification_not_active "Verification is not active for this attempt"
  ok (record { verification = v; job = j; outbox = o; attempt = a })

total_size : List ArtifactEntry → ℕ
total_size [] = 0
total_size (e ∷ es) = e.size + total_size es

repeats : String → List ArtifactEntry → Bool
repeats path [] = false
repeats path (f ∷ fs) = same path f.path || repeats path fs

-- `new Set(paths).size !== entries.length`
has_duplicate : List ArtifactEntry → Bool
unfolding repeats
has_duplicate [] = false
has_duplicate (e ∷ es) = repeats e.path es || has_duplicate es

-- An identifier in use, too many entries or bytes, or a path twice.
unfoldable pub is_invalid_manifest : ProjectionState → CompleteVerification → Bool
unfolding total_size has_duplicate
is_invalid_manifest state p =
    has p.artifact_manifest_id state.artifact_manifests
    || ltb 256 (length p.entries)
    || ltb 268435456 (total_size p.entries)
    || has_duplicate p.entries

unfoldable pub differs : String → String → Bool
differs a b = not (same a b)

unfoldable pub is_zero : Option ℕ → Bool
is_zero none = false
is_zero (some n) = n == 0

-- Whether the result's outcome goes with its exit code and reason.
unfoldable pub outcome_contradicts : Bool → VerificationResult → Bool
unfolding is_zero
outcome_contradicts mutated r = elim r.outcome [
  | Outcome.passed ↦ mutated || not (is_zero r.exit_code) || is_some r.failure_reason
  | Outcome.failed ↦
      mutated || not (is_some r.exit_code) || is_zero r.exit_code || not (is_some r.failure_reason)
  | Outcome.invalid ↦ not (is_some r.failure_reason)
]

unfoldable pub contradicts_evidence : Host → VerificationResult → Bool
unfolding differs
contradicts_evidence host r =
    let mutated =
      differs r.source_status_before_digest r.source_status_after_digest
      || differs r.contract_digest_before r.contract_digest_after in
    differs r.environment_digest r.contract_digest_before
    || differs r.source_status_before_digest (host.sha256 "")
    || outcome_contradicts mutated r

abbrev pub verdict_status : Outcome → AttemptStatus
verdict_status Outcome.passed = AttemptStatus.succeeded
verdict_status _ = AttemptStatus.failed

abbrev verdict_reason : Outcome → TerminationReason
verdict_reason Outcome.passed = TerminationReason.completed
verdict_reason Outcome.failed = TerminationReason.verification_failed
verdict_reason Outcome.invalid = TerminationReason.verification_invalid

abbrev verdict_text : Outcome → String
verdict_text Outcome.passed = "passed"
verdict_text Outcome.failed = "failed"
verdict_text Outcome.invalid = "invalid"

-- What the verdict does to the job and its run.
unfoldable pub verdict_events :
    Host → ProjectionState → JobState → Outcome → Option String → List DomainEvent
verdict_events host state j Outcome.passed reason = success_events state j
verdict_events host state j Outcome.failed reason =
    fail_run_events host state j (get_or reason (verdict_text Outcome.failed))
verdict_events host state j Outcome.invalid reason =
    fail_run_events host state j (get_or reason (verdict_text Outcome.invalid))

unfoldable pub completion_events :
    Host → ProjectionState → CompleteVerification → Verifying → String → List DomainEvent
unfolding total_size
completion_events host state p x receipt_digest =
    artifact_manifest_recorded (record {
      artifact_manifest_id = p.artifact_manifest_id;
      run_id = x.job.run_id;
      job_id = x.job.job_id;
      attempt_id = x.attempt.attempt_id;
      source_revision_id = x.verification.source_revision_id;
      producer = Producer.verifier;
      entries = canonical_artifact_entries p.entries;
      manifest_digest = artifact_manifest_digest host p.entries;
      total_bytes = total_size p.entries;
    })
    ∷ verification_event (
        verification_receipt_recorded (record {
          verification_id = x.verification.verification_id;
          run_id = x.job.run_id;
          job_id = x.job.job_id;
          attempt_id = x.attempt.attempt_id;
          artifact_manifest_id = p.artifact_manifest_id;
          status = p.result.outcome;
          result = p.result;
          result_digest = verification_result_digest host p.result;
          receipt_digest = receipt_digest;
          exit_code = p.result.exit_code;
          failure_reason = p.result.failure_reason;
        }))
    ∷ outbox_event (outbox_delivered x.outbox.outbox_id x.outbox.run_id receipt_digest)
    ∷ attempt_event (
        attempt_finished x.attempt.attempt_id x.job.job_id x.job.run_id
          (verdict_status p.result.outcome) (verdict_reason p.result.outcome)
          (truthy p.result.failure_reason))
    ∷ verdict_events host state x.job p.result.outcome p.result.failure_reason

-- The digest that a receipt of this verification must carry.
unfoldable pub expected_receipt_digest : Host → CompleteVerification → VerificationState → String
expected_receipt_digest host p v = verification_receipt_digest host (
    receipt_identity v p.artifact_manifest_id (artifact_manifest_digest host p.entries)
      (verification_result_digest host p.result))

-- The manifest, the digests of the evidence and the outcome, in the order of the code.
unfoldable pub check_evidence :
    Host → ProjectionState → CompleteVerification → VerificationState → Result (Unit {0})
unfolding is_invalid_manifest differs
check_evidence host state p v = do
  fail_if (is_invalid_manifest state p) artifact_manifest_conflict
      "Artifact manifest is invalid or reused"
  fail_if
      (differs p.result.artifact_manifest_digest (artifact_manifest_digest host p.entries)
        || differs p.result_digest (verification_result_digest host p.result)
        || differs p.receipt_digest (expected_receipt_digest host p v))
      evidence_digest_mismatch "Verification evidence digest is invalid"
  fail_if (contradicts_evidence host p.result) evidence_digest_mismatch
      "Verification outcome contradicts its evidence"

unfoldable pub verification_complete : Host → ProjectionState → CompleteVerification → ℕ → Decision
verification_complete host state p now = do
  x ← find_verifying state p.lease true now
  check_evidence host state p x.verification
  accept (completion_events host state p x (expected_receipt_digest host p x.verification))
      verification x.verification.verification_id

-- The command's reason is always `timed_out`.
unfoldable pub verification_execution_fail :
    Host → ProjectionState → VerificationLease → String → ℕ → Decision
verification_execution_fail host state p detail now = do
  x ← find_verifying state p false now
  accept
      (outbox_event (outbox_obsoleted x.outbox.outbox_id x.outbox.run_id "timed_out")
        ∷ failure_transition_events host state x.job x.attempt FailureReason.timed_out now
            (some detail) (some x.outbox.outbox_id))
      job x.job.job_id
