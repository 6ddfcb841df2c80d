-- ===== src/Decide/Leases.antt =====
-- The lease checks of packages/kernel/src/domain.ts, and its instants.
use parallelplay.Prelude.{
  ℕ, ◌+◌, Bool, true, not, ◌||◌, Option, none, some, Uuid, same_option, leb, ◌==◌,
}
use parallelplay.Model.{JobState, OutboxState}
use parallelplay.Decide.Answers.{
  Result, ◌>>◌, fail_if, job_lease_conflict, job_lease_expired, outbox_lease_conflict,
  outbox_lease_expired,
}

abbrev pub add_milliseconds : ℕ → ℕ → ℕ
add_milliseconds timestamp milliseconds = timestamp + milliseconds

abbrev pub at_or_before : ℕ → ℕ → Bool
at_or_before timestamp now = leb timestamp now

-- `!expiresAt || atOrBefore(expiresAt, now)`
abbrev pub has_elapsed : Option ℕ → ℕ → Bool
has_elapsed none now = true
has_elapsed (some t) now = at_or_before t now

unfoldable pub validate_job_lease : JobState → Uuid → ℕ → ℕ → Result (Unit {0})
validate_job_lease job owner_id fencing_token now = do
  fail_if
      (not (same_option job.lease_owner_id owner_id)
        || not (job.lease_fencing_token == fencing_token))
      job_lease_conflict "Job lease owner or fencing token does not match"
  fail_if (has_elapsed job.lease_expires_at now) job_lease_expired "Job lease has expired"

unfoldable pub validate_outbox_lease : OutboxState → Uuid → ℕ → ℕ → Result (Unit {0})
validate_outbox_lease outbox owner_id fencing_token now = do
  fail_if
      (not (same_option outbox.lease_owner_id owner_id)
        || not (outbox.lease_fencing_token == fencing_token))
      outbox_lease_conflict "Outbox lease owner or fencing token does not match"
  fail_if (has_elapsed outbox.lease_expires_at now) outbox_lease_expired "Outbox lease has expired"
