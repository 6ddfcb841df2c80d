-- ===== src/Decide/Outbox.antt =====
-- The outbox commands of `decide`, packages/kernel/src/domain.ts.
use parallelplay.Prelude.{
  ℕ, ◌+◌, Bool, true, false, not, ◌&&◌, Option, none, some, List, [], ◌∷◌, String, Uuid, get, has,
  length, leb, if◌then◌else◌,
}
use parallelplay.Canonical.{Host}
use parallelplay.Model.{
  ProjectionState, JobState, AttemptState, OutboxState, OutboxStatus, OutboxEffect,
  TerminationReason, DomainEvent, is_terminal_attempt, agent_start, outbox_event, attempt_event,
  outbox_obsoleted, outbox_lease_acquired, outbox_delivered, outbox_delivery_failed,
  attempt_running,
}
use parallelplay.Decide.Answers.{
  Decision, ◌>>=◌, ◌>>◌, fail_if, found, accept, outbox, outbox_not_found, outbox_not_claimable,
}
use parallelplay.Decide.Leases.{add_milliseconds, at_or_before, validate_outbox_lease}
use parallelplay.Decide.Reasons.{FailureReason}
use parallelplay.Decide.Failures.{
  enqueue, cancel_id, cancel_effect, failure_transition_events, delay_after, is_cancel,
}

-- A leased message whose lease has run out, or a pending one whose time has come.
unfoldable pub is_available : ℕ → OutboxState → Bool
is_available now o = elim o.status [
  | OutboxStatus.leased ↦ elim o.lease_expires_at [ none ↦ false | some t ↦ at_or_before t now ]
  | OutboxStatus.pending ↦ at_or_before o.available_at now
  | _ ↦ false
]

abbrev pub is_over : Option AttemptState → Bool
is_over none = true
is_over (some a) = is_terminal_attempt a.status

unfoldable pub outbox_lease_acquire : ProjectionState → Uuid → Uuid → ℕ → ℕ → Decision
outbox_lease_acquire state outbox_id owner_id lease_duration_ms now = do
  o ← found (get outbox_id state.outbox) outbox_not_found "Outbox message does not exist"
  fail_if (not (is_available now o)) outbox_not_claimable "Outbox message is not available"
  if not (is_cancel o.effect) && is_over (get o.attempt_id state.attempts)
      then accept (outbox_event (outbox_obsoleted o.outbox_id o.run_id "Attempt is terminal") ∷ [])
          outbox o.outbox_id
      else accept
          (outbox_event (
              outbox_lease_acquired o.outbox_id o.run_id owner_id (o.lease_fencing_token + 1)
                (add_milliseconds now lease_duration_ms) (o.delivery_attempts + 1))
            ∷ [])
          outbox o.outbox_id

abbrev late_reason : Option TerminationReason → TerminationReason
late_reason (some TerminationReason.timed_out) = TerminationReason.timed_out
late_reason _ = TerminationReason.operator_cancelled

-- The driver has started: the attempt runs, or is cancelled there if it ended meanwhile.
unfoldable pub started_events :
    Host → ProjectionState → String → Option AttemptState → Option JobState → List DomainEvent
started_events host state external_id none j = []
started_events host state external_id (some a) none = []
started_events host state external_id (some a) (some j) =
    if not (is_terminal_attempt a.status)
    then attempt_event (attempt_running a.attempt_id j.job_id j.run_id external_id) ∷ []
    else if has (cancel_id host a) state.outbox
    then []
    else enqueue (cancel_id host a) j a
        (cancel_effect external_id (late_reason a.termination_reason) j a)
      ∷ []

abbrev pub is_start : OutboxEffect → Bool
is_start (agent_start e) = true
is_start _ = false

unfoldable pub delivery_events : Host → ProjectionState → OutboxState → String → List DomainEvent
unfolding started_events
delivery_events host state o external_id =
    outbox_event (outbox_delivered o.outbox_id o.run_id external_id)
    ∷ (if is_start o.effect
        then started_events host state external_id (get o.attempt_id state.attempts)
            (get o.job_id state.jobs)
        else [])

unfoldable pub outbox_delivery_succeed :
    Host → ProjectionState → Uuid → Uuid → ℕ → String → ℕ → Decision
outbox_delivery_succeed host state outbox_id owner_id fencing_token external_id now = do
  o ← found (get outbox_id state.outbox) outbox_not_found "Outbox message does not exist"
  validate_outbox_lease o owner_id fencing_token now
  accept (delivery_events host state o external_id) outbox o.outbox_id

-- `deliveryAttempts >= retryDelaysMs.length + 1`
abbrev pub is_dead_letter : OutboxState → Bool
is_dead_letter o = leb (length o.retry_delays_ms + 1) o.delivery_attempts

-- The attempt of a message that is given up fails.
unfoldable pub undelivered_events :
    Host
    → ProjectionState
    → OutboxState
    → String
    → ℕ
    → Option AttemptState
    → Option JobState
    → List DomainEvent
undelivered_events host state o error now none j = []
undelivered_events host state o error now (some a) none = []
undelivered_events host state o error now (some a) (some j) =
    if is_terminal_attempt a.status
    then []
    else failure_transition_events host state j a FailureReason.driver_error now (some error)
        (some o.outbox_id)

unfoldable pub delivery_failure_events :
    Host → ProjectionState → OutboxState → String → ℕ → List DomainEvent
unfolding undelivered_events
delivery_failure_events host state o error now =
    outbox_event (
      outbox_delivery_failed o.outbox_id o.run_id
        (if is_dead_letter o
          then none
          else some (add_milliseconds now (delay_after o.retry_delays_ms o.delivery_attempts)))
        (is_dead_letter o) error)
    ∷ (if is_dead_letter o && not (is_cancel o.effect)
        then undelivered_events host state o error now (get o.attempt_id state.attempts)
            (get o.job_id state.jobs)
        else [])

unfoldable pub outbox_delivery_fail :
    Host → ProjectionState → Uuid → Uuid → ℕ → String → ℕ → Decision
outbox_delivery_fail host state outbox_id owner_id fencing_token error now = do
  o ← found (get outbox_id state.outbox) outbox_not_found "Outbox message does not exist"
  validate_outbox_lease o owner_id fencing_token now
  accept (delivery_failure_events host state o error now) outbox o.outbox_id
