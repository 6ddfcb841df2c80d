-- ===== src/Lifecycle/Endings.antt =====
-- The events that end attempts, messages, verifications and jobs: what the lists of
-- packages/kernel/src/domain.ts for cancellation and failure consist of.
use parallelplay.Prelude.{
  inl, inr, Bool, Option, none, some, List, [], ◌∷◌, String, Uuid, Map, All, All-append, values,
  find, has, any, same, ◌&&◌, ◌||◌, Bool-cases,
}
use parallelplay.Canonical.{Host}
use parallelplay.Model.{
  ProjectionState, DomainEvent, JobState, AttemptState, OutboxState, VerificationState, JobEvent,
  AttemptEvent, RunEvent, run_event, attempt_event, job_event, outbox_event, verification_event,
  attempt_finished, attempt_cancelled, job_cancelled, job_failed, run_failed, run_cancelled,
  is_terminal_attempt,
}
use parallelplay.Decide.{
  CancelReason, FailureReason, cancel_id, enqueue, obsolete_events, verification_events,
  cancelled_verification, driver_cancel, active_attempt, active_cancellation, attempt_cancellation,
  cancellation_events, cancel_jobs, timeout_cancel, fail_run_events, legacy_cancellations,
  is_superseded, is_requested, is_legacy_active, is_open_sibling,
}

abbrev EndingJob : JobEvent → Type 0
EndingJob (job_cancelled k r x) = Unit
EndingJob (job_failed k r x) = Unit
EndingJob _ = ⊥

abbrev EndingAttempt : AttemptEvent → Type 0
EndingAttempt (attempt_finished a k r s x d) = Unit
EndingAttempt (attempt_cancelled a r x) = Unit
EndingAttempt _ = ⊥

abbrev EndingRun : RunEvent → Type 0
EndingRun (run_failed r x) = Unit
EndingRun (run_cancelled r x) = Unit
EndingRun _ = ⊥

-- An event that puts no job or attempt to work.
abbrev pub Ending : DomainEvent → Type 0
Ending (job_event e) = EndingJob e
Ending (attempt_event e) = EndingAttempt e
Ending (run_event e) = EndingRun e
Ending (outbox_event e) = Unit
Ending (verification_event e) = Unit
Ending _ = ⊥

pub obsolete_events-Ending :
    (attempt_id : Uuid) (excluded : Option Uuid) (reason : String) (os : List OutboxState)
    → All Ending (obsolete_events attempt_id excluded reason os)
unfolding obsolete_events
obsolete_events-Ending a x reason [] = tt
obsolete_events-Ending a x reason (o ∷ os) = elim (Bool-cases (is_superseded a x o)) [
  | inl e ↦ rw e (tt, obsolete_events-Ending a x reason os)
  | inr e ↦ rw e (obsolete_events-Ending a x reason os)
]

cancelled_verification-Ending :
    (reason : String) (run_id : Uuid) (o : Option VerificationState)
    → All Ending (cancelled_verification reason run_id o)
unfolding cancelled_verification
cancelled_verification-Ending reason run_id none = tt
cancelled_verification-Ending reason run_id (some v) = (tt, tt)

pub verification_events-Ending :
    (vs : Map VerificationState) (attempt_id run_id : Uuid) (reason : String)
    → All Ending (verification_events vs attempt_id run_id reason)
unfolding verification_events
verification_events-Ending vs attempt_id run_id reason =
    cancelled_verification-Ending reason run_id
      (find (λ v. same v.attempt_id attempt_id && is_requested v.status) (values vs))

driver_cancel-Ending :
    (host : Host) (s : ProjectionState) (j : JobState) (a : AttemptState) (external : Option String)
    (generated : List Uuid)
    → All Ending (driver_cancel host s j a external generated).0
unfolding driver_cancel enqueue
driver_cancel-Ending host s j a none generated = tt
driver_cancel-Ending host s j a (some x) generated =
    elim (Bool-cases (has (cancel_id host a) s.outbox || any (same (cancel_id host a)) generated)) [
      | inl e ↦ rw e tt
      | inr e ↦ rw e (tt, tt)
    ]

attempt_cancellation-Ending :
    (host : Host) (s : ProjectionState) (j : JobState) (why : CancelReason) (generated : List Uuid)
    (a : AttemptState)
    → All Ending (attempt_cancellation host s j why generated a).0
unfolding attempt_cancellation
attempt_cancellation-Ending host s j why generated a =
    elim (Bool-cases (is_terminal_attempt a.status)) [
      | inl e ↦ rw e tt
      | inr e ↦ rw e (
        tt,
        All-append Ending _ _ (obsolete_events-Ending _ _ _ (values s.outbox)) (
            All-append Ending _ _ (verification_events-Ending s.verifications _ _ _)
              (driver_cancel-Ending host s j a a.external_run_id generated)),
      )
    ]

active_cancellation-Ending :
    (host : Host) (s : ProjectionState) (j : JobState) (why : CancelReason) (generated : List Uuid)
    (o : Option AttemptState)
    → All Ending (active_cancellation host s j why generated o).0
unfolding active_cancellation
active_cancellation-Ending host s j why generated none = tt
active_cancellation-Ending host s j why generated (some a) =
    attempt_cancellation-Ending host s j why generated a

cancellation_events-Ending :
    (host : Host) (s : ProjectionState) (j : JobState) (why : CancelReason) (generated : List Uuid)
    → All Ending (cancellation_events host s j why generated).0
unfolding cancellation_events
cancellation_events-Ending host s j why generated =
    All-append Ending _ _ (active_cancellation-Ending host s j why generated (active_attempt s j))
      (tt, tt)

pub cancel_jobs-Ending :
    (host : Host) (s : ProjectionState) (why : CancelReason) (chosen : JobState → Bool)
    (js : List JobState) (generated : List Uuid)
    → All Ending (cancel_jobs host s why chosen js generated)
unfolding cancel_jobs
cancel_jobs-Ending host s why chosen [] generated = tt
cancel_jobs-Ending host s why chosen (j ∷ js) generated = elim (Bool-cases (chosen j)) [
  | inl e ↦ rw e (
      All-append Ending _ _ (cancellation_events-Ending host s j why generated)
        (cancel_jobs-Ending host s why chosen js (cancellation_events host s j why generated).1))
  | inr e ↦ rw e (cancel_jobs-Ending host s why chosen js generated)
]

pub fail_run_events-Ending :
    (host : Host) (s : ProjectionState) (j : JobState) (reason : String)
    → All Ending (fail_run_events host s j reason)
unfolding fail_run_events
fail_run_events-Ending host s j reason = (
  tt,
  All-append Ending _ _
      (cancel_jobs-Ending host s CancelReason.run_failed (is_open_sibling j) (values s.jobs) [])
      (tt, tt),
)

pub timeout_cancel-Ending :
    (host : Host) (s : ProjectionState) (j : JobState) (a : AttemptState) (why : FailureReason)
    (external : Option String)
    → All Ending (timeout_cancel host s j a why external)
unfolding timeout_cancel enqueue
timeout_cancel-Ending host s j a FailureReason.driver_error external = tt
timeout_cancel-Ending host s j a FailureReason.timed_out none = tt
timeout_cancel-Ending host s j a FailureReason.timed_out (some x) =
    elim (Bool-cases (has (cancel_id host a) s.outbox)) [ inl e ↦ rw e tt | inr e ↦ rw e (tt, tt) ]

pub legacy_cancellations-Ending :
    (run_id : Uuid) (reason : String) (attempts : List AttemptState)
    → All Ending (legacy_cancellations run_id reason attempts)
unfolding legacy_cancellations
legacy_cancellations-Ending run_id reason [] = tt
legacy_cancellations-Ending run_id reason (a ∷ rest) =
    elim (Bool-cases (is_legacy_active run_id a)) [
      | inl e ↦ rw e (tt, legacy_cancellations-Ending run_id reason rest)
      | inr e ↦ rw e (legacy_cancellations-Ending run_id reason rest)
    ]
