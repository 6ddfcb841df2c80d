-- ===== src/Decide/Failures.antt =====
-- `outboxEnqueued`, `cancellationEvents`, `failureTransitionEvents` and `cancellationForRun` of
-- packages/kernel/src/domain.ts: the events that end attempts, jobs and runs.
use Prim.Native.Nat.{ℕ, zero, suc}
use Prim.Native.String.{String, slice}
use parallelplay.Prelude.{
  Bool, true, false, not, ◌&&◌, ◌||◌, Option, none, some, List, [], ◌∷◌, ◌++◌, Uuid, Map, get, has,
  values, any, find, get_elem?, get_or, same, same_option, join, ltb, if◌then◌else◌,
}
use parallelplay.Canonical.{Host}
use parallelplay.Evolve.{reason_text}
use parallelplay.Model.{
  ProjectionState, JobState, AttemptState, OutboxState, OutboxEffect, OutboxStatus,
  VerificationState, VerificationStatus, AttemptStatus, TerminationReason, DomainEvent,
  agent_cancel, run_event, attempt_event, job_event, outbox_event, verification_event,
  attempt_finished, attempt_cancelled, outbox_obsoleted, outbox_enqueued, verification_cancelled,
  job_cancelled, job_failed, job_retry_scheduled, run_failed, run_cancelled, is_terminal_attempt,
  is_terminal_job, is_terminal_run,
}
use parallelplay.Decide.Answers.{
  Result, ok, ◌>>=◌, ◌>>◌, fail_if, found, run_not_found, run_terminal,
}
use parallelplay.Decide.Leases.{add_milliseconds}
use parallelplay.Decide.Reasons.{
  CancelReason, cancel_reason, FailureReason, failure_reason, failure_status,
}

-- OUTBOX_RETRY_DELAYS
abbrev pub outbox_retry_delays : List ℕ
outbox_retry_delays = 250 ∷ 1000 ∷ 5000 ∷ 10000 ∷ 30000 ∷ 30000 ∷ 30000 ∷ []

-- A UUID of the first 32 hexadecimal digits of a hash, with version digit 5 and variant digit 8.
unfoldable pub deterministic_uuid : Host → String → Uuid
deterministic_uuid host seed =
    let hash = host.sha256 seed in
    let value =
      join (slice hash 0 12) (join "5" (join (slice hash 13 16) (join "8" (slice hash 17 32)))) in
    join (slice value 0 8) (
      join "-" (
        join (slice value 8 12) (
          join "-" (
            join (slice value 12 16)
              (join "-" (join (slice value 16 20) (join "-" (slice value 20 32))))))))

-- The identifier of the message that cancels an attempt in its driver.
unfoldable pub cancel_id : Host → AttemptState → Uuid
cancel_id host attempt = deterministic_uuid host (join attempt.attempt_id ":agent.cancel")

unfoldable pub enqueue : Uuid → JobState → AttemptState → OutboxEffect → DomainEvent
enqueue outbox_id job attempt effect = outbox_event (
    outbox_enqueued outbox_id job.run_id job.job_id attempt.attempt_id outbox_id effect
      outbox_retry_delays)

abbrev pub is_cancel : OutboxEffect → Bool
is_cancel (agent_cancel c) = true
is_cancel _ = false

abbrev pub is_open : OutboxStatus → Bool
is_open OutboxStatus.pending = true
is_open OutboxStatus.leased = true
is_open _ = false

-- An open message of an attempt that is no cancellation and not the one left out.
abbrev pub is_superseded : Uuid → Option Uuid → OutboxState → Bool
is_superseded attempt_id excluded o =
    same o.attempt_id attempt_id
    && not (same_option excluded o.outbox_id)
    && not (is_cancel o.effect)
    && is_open o.status

unfoldable pub obsolete_events : Uuid → Option Uuid → String → List OutboxState → List DomainEvent
obsolete_events attempt_id excluded reason [] = []
obsolete_events attempt_id excluded reason (o ∷ os) =
    let rest = obsolete_events attempt_id excluded reason os in
    if is_superseded attempt_id excluded o
    then outbox_event (outbox_obsoleted o.outbox_id o.run_id reason) ∷ rest
    else rest

abbrev pub is_requested : VerificationStatus → Bool
is_requested VerificationStatus.requested = true
is_requested _ = false

unfoldable pub cancelled_verification : String → Uuid → Option VerificationState → List DomainEvent
cancelled_verification reason run_id none = []
cancelled_verification reason run_id (some v) =
    verification_event (verification_cancelled v.verification_id run_id reason) ∷ []

-- The cancellation of an attempt's requested verification, if it has one.
unfoldable pub verification_events : Map VerificationState → Uuid → Uuid → String → List DomainEvent
unfolding cancelled_verification
verification_events verifications attempt_id run_id reason =
    cancelled_verification reason run_id
      (find (λ v. same v.attempt_id attempt_id && is_requested v.status) (values verifications))

abbrev pub cancel_effect : String → TerminationReason → JobState → AttemptState → OutboxEffect
cancel_effect external_run_id reason job attempt = agent_cancel (record {
  external_run_id = external_run_id;
  reason = reason;
  attempt_id = attempt.attempt_id;
  job_id = job.job_id;
  run_id = job.run_id;
})

-- The events for the driver, and the identifiers that they took.
unfoldable pub driver_cancel :
    Host
    → ProjectionState
    → JobState
    → AttemptState
    → Option String
    → List Uuid
    → List DomainEvent × List Uuid
driver_cancel host state job attempt none generated = ([], generated)
driver_cancel host state job attempt (some external_run_id) generated =
    let outbox_id = cancel_id host attempt in
    if has outbox_id state.outbox || any (same outbox_id) generated then ([], generated) else (
      enqueue outbox_id job attempt
            (cancel_effect external_run_id TerminationReason.operator_cancelled job attempt)
          ∷ [],
      outbox_id ∷ generated,
    )

unfoldable pub active_attempt : ProjectionState → JobState → Option AttemptState
active_attempt state job = elim job.active_attempt_id [
  | none ↦ none
  | some id ↦ get id state.attempts
]

unfoldable pub attempt_cancellation :
    Host
    → ProjectionState
    → JobState
    → CancelReason
    → List Uuid
    → AttemptState
    → List DomainEvent × List Uuid
unfolding driver_cancel
attempt_cancellation host state job reason generated attempt =
    let why = reason_text (cancel_reason reason) in
    let (cancels, generated') =
      driver_cancel host state job attempt attempt.external_run_id generated in
    if is_terminal_attempt attempt.status then ([], generated) else (
      attempt_event (
            attempt_finished attempt.attempt_id job.job_id job.run_id AttemptStatus.cancelled
              (cancel_reason reason) (some why))
          ∷ (obsolete_events attempt.attempt_id none why (values state.outbox)
              ++ (verification_events state.verifications attempt.attempt_id job.run_id why
                  ++ cancels)),
      generated',
    )

unfoldable pub active_cancellation :
    Host
    → ProjectionState
    → JobState
    → CancelReason
    → List Uuid
    → Option AttemptState
    → List DomainEvent × List Uuid
active_cancellation host state job reason generated none = ([], generated)
active_cancellation host state job reason generated (some attempt) =
    attempt_cancellation host state job reason generated attempt

unfoldable pub cancellation_events :
    Host → ProjectionState → JobState → CancelReason → List Uuid → List DomainEvent × List Uuid
unfolding active_attempt attempt_cancellation active_cancellation
cancellation_events host state job reason generated =
    let (events, generated') =
      active_cancellation host state job reason generated (active_attempt state job) in
    (
      events
          ++ job_event (job_cancelled job.job_id job.run_id (reason_text (cancel_reason reason)))
            ∷ [],
      generated',
    )

-- The loop that cancels each chosen job, in the order of the map.
unfoldable pub cancel_jobs :
    Host
    → ProjectionState
    → CancelReason
    → (JobState → Bool)
    → List JobState
    → List Uuid
    → List DomainEvent
cancel_jobs host state reason chosen [] generated = []
cancel_jobs host state reason chosen (j ∷ js) generated =
    let (events, generated') =
      if chosen j then cancellation_events host state j reason generated else ([], generated) in
    events ++ cancel_jobs host state reason chosen js generated'

-- `delays[count - 1] ?? 0`
abbrev pub delay_after : List ℕ → ℕ → ℕ
delay_after delays zero = 0
delay_after delays (suc i) = get_or (get_elem? delays i) 0

unfoldable pub timeout_cancel :
    Host
    → ProjectionState
    → JobState
    → AttemptState
    → FailureReason
    → Option String
    → List DomainEvent
timeout_cancel host state job attempt FailureReason.driver_error external = []
timeout_cancel host state job attempt FailureReason.timed_out none = []
timeout_cancel host state job attempt FailureReason.timed_out (some external_run_id) =
    if has (cancel_id host attempt) state.outbox
    then []
    else enqueue (cancel_id host attempt) job attempt
        (cancel_effect external_run_id TerminationReason.timed_out job attempt)
      ∷ []

-- A job of the run of another job, itself not ended.
abbrev pub is_open_sibling : JobState → JobState → Bool
is_open_sibling job other =
    same other.run_id job.run_id
    && not (same other.job_id job.job_id)
    && not (is_terminal_job other.status)

-- A failed job, and with it the rest of its run.
unfoldable pub fail_run_events : Host → ProjectionState → JobState → String → List DomainEvent
fail_run_events host state job reason =
    job_event (job_failed job.job_id job.run_id reason)
    ∷ (cancel_jobs host state CancelReason.run_failed (is_open_sibling job) (values state.jobs) []
        ++ run_event (run_failed job.run_id reason) ∷ [])

-- `...(detail ? { detail } : {})`: an empty text is no detail.
abbrev pub truthy : Option String → Option String
truthy none = none
truthy (some s) = if same s "" then none else some s

unfoldable pub failure_transition_events :
    Host
    → ProjectionState
    → JobState
    → AttemptState
    → FailureReason
    → ℕ
    → Option String
    → Option Uuid
    → List DomainEvent
unfolding timeout_cancel
failure_transition_events host state job attempt reason now detail excluded =
    let why = reason_text (failure_reason reason) in
    attempt_event (
      attempt_finished attempt.attempt_id job.job_id job.run_id (failure_status reason)
        (failure_reason reason) (truthy detail))
    ∷ (obsolete_events attempt.attempt_id excluded why (values state.outbox)
        ++ (verification_events state.verifications attempt.attempt_id job.run_id why
            ++ (timeout_cancel host state job attempt reason attempt.external_run_id
                ++ (if ltb job.attempt_count job.policy.max_attempts
                    then job_event (
                        job_retry_scheduled job.job_id job.run_id
                          (add_milliseconds now
                            (delay_after job.policy.retry_delays_ms job.attempt_count))
                          why)
                      ∷ []
                    else fail_run_events host state job (get_or detail why)))))

abbrev pub is_allocated : AttemptStatus → Bool
is_allocated AttemptStatus.allocated = true
is_allocated _ = false

-- An attempt allocated before jobs existed, still open.
abbrev pub is_legacy_active : Uuid → AttemptState → Bool
is_legacy_active run_id a =
    same a.run_id run_id && elim a.job_id [ none ↦ true | some id ↦ false ] && is_allocated a.status

unfoldable pub legacy_cancellations : Uuid → String → List AttemptState → List DomainEvent
legacy_cancellations run_id reason [] = []
legacy_cancellations run_id reason (a ∷ rest) =
    let others = legacy_cancellations run_id reason rest in
    if is_legacy_active run_id a
    then attempt_event (attempt_cancelled a.attempt_id run_id reason) ∷ others
    else others

-- A job of the run that is not ended.
abbrev pub is_open_job : Uuid → JobState → Bool
is_open_job run_id job = same job.run_id run_id && not (is_terminal_job job.status)

unfoldable pub cancellation_for_run :
    Host → ProjectionState → Uuid → String → Result (List DomainEvent)
unfolding legacy_cancellations
cancellation_for_run host state run_id reason = do
  run ← found (get run_id state.runs) run_not_found "Run does not exist"
  fail_if (is_terminal_run run.status) run_terminal "Run is already terminal"
  ok (
      legacy_cancellations run.run_id reason (values state.attempts)
      ++ (cancel_jobs host state CancelReason.operator_cancelled (is_open_job run.run_id)
            (values state.jobs) []
          ++ run_event (run_cancelled run.run_id reason) ∷ []))
