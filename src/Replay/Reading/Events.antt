-- ===== src/Replay/Reading/Events.antt =====
-- The events of cancellations, failures and successes read back as they were stored, where the texts
-- in them do.
use parallelplay.Prelude.{
  ◌≡◌, refl, ℕ, Bool, false, ◌||◌, Option, none, some, List, [], ◌∷◌, String, Uuid, Map, All,
  All-append, has, values, any, get_or, same, trim, utf16_length, ltb, Bool-cases, inl, inr,
}
use parallelplay.Canonical.{Host}
use parallelplay.Evolve.{reason_text}
use parallelplay.Model.{
  ProjectionState, JobState, AttemptState, OutboxState, VerificationState, DomainEvent,
  is_terminal_attempt, AttemptStatus, TerminationReason, job_event, job_cancelled,
  job_retry_scheduled, attempt_event, attempt_finished,
}
use parallelplay.Decide.{
  CancelReason, FailureReason, cancel_reason, failure_reason, obsolete_events, is_superseded,
  cancelled_verification, verification_events, driver_cancel, cancel_id, enqueue,
  attempt_cancellation, active_cancellation, active_attempt, cancellation_events, cancel_jobs,
  timeout_cancel, fail_run_events, is_open_sibling, failure_transition_events, truthy,
  legacy_cancellations, is_legacy_active, success_events, unblock_events, is_unblocked_by,
  run_is_done,
}
use parallelplay.Kernel.{
  parse_payload, parse_run, parse_attempt, parse_job, parse_outbox, parse_verification, parse_text,
  parse_given, parse_short, parse_optional, parse_enum,
}
use parallelplay.Replay.Transactions.{ReadsBack}

-- A text is of the length that a schema allows, and trimmed.
abbrev pub IsTidy : ℕ → String → Type 0
IsTidy max text = parse_text max text ≡ some text

abbrev pub IsTidyOption : Option String → Type 0
IsTidyOption none = Unit
IsTidyOption (some text) = IsTidy 1000 text

-- A tidy text is trimmed, not empty and not too long.
IsTidy-inv :
    (max : ℕ) (text : String)
    → IsTidy max text
    → (same text "" ≡ false) × (ltb max (utf16_length text) ≡ false)
unfolding parse_text parse_given parse_short
IsTidy-inv max text h = elim (Bool-cases (same (trim text) "")) [
  | inl blank ↦ absurd (cc (rw blank at h))
  | inr given ↦ elim (Bool-cases (ltb max (utf16_length (trim text)))) [
    | inl long ↦ absurd (cc (rw (given, long) at h))
    | inr fits ↦
        let whole : trim text ≡ text = cc (rw (given, fits) at h) in
        (rw whole at given, rw whole at fits)
  ]
]

pub IsTidy-short : (max : ℕ) (text : String) → IsTidy max text → parse_short max text ≡ some text
unfolding parse_short
IsTidy-short max text h = rw ((IsTidy-inv max text h).1) refl

pub IsTidy-given : (max : ℕ) (text : String) → IsTidy max text → parse_given max text ≡ some text
unfolding parse_given parse_short
IsTidy-given max text h = let (given, fits) = IsTidy-inv max text h in rw (given, fits) refl

pub truthy-IsTidy : (detail : Option String) → IsTidyOption detail → IsTidyOption (truthy detail)
truthy-IsTidy none h = tt
truthy-IsTidy (some d) h = elim (Bool-cases (same d "")) [ inl e ↦ rw e tt | inr e ↦ rw e h ]

-- Every reason of a cancellation or a failure is tidy.
cancel_text-IsTidy : (reason : CancelReason) → IsTidy 1000 (reason_text (cancel_reason reason))
unfolding parse_text parse_given parse_short trim utf16_length same reason_text
cancel_text-IsTidy CancelReason.operator_cancelled = refl
cancel_text-IsTidy CancelReason.run_failed = refl

failure_text-IsTidy : (reason : FailureReason) → IsTidy 1000 (reason_text (failure_reason reason))
unfolding parse_text parse_given parse_short trim utf16_length same reason_text
failure_text-IsTidy FailureReason.driver_error = refl
failure_text-IsTidy FailureReason.timed_out = refl

module _ (host : Host) where
  abbrev pub AllReadBack : List DomainEvent → Type 0
  AllReadBack es = All (ReadsBack host) es

  obsolete_events-ReadBack :
      (a : Uuid) (excluded : Option Uuid) (reason : String) (os : List OutboxState)
      → IsTidy 1000 reason
      → AllReadBack (obsolete_events a excluded reason os)
  unfolding obsolete_events parse_payload parse_outbox
  obsolete_events-ReadBack a excluded reason [] tidy = tt
  obsolete_events-ReadBack a excluded reason (o ∷ os) tidy =
      let rest = obsolete_events-ReadBack a excluded reason os tidy in
      elim (Bool-cases (is_superseded a excluded o)) [
        | inl e ↦ rw e (rw tidy refl, rest)
        | inr e ↦ rw e rest
      ]

  verification_events-ReadBack :
      (m : Map VerificationState) (a r : Uuid) (reason : String)
      → IsTidy 1000 reason
      → AllReadBack (verification_events m a r reason)
  unfolding verification_events
  verification_events-ReadBack m a r reason tidy = cancelled _
    where
      cancelled : (v : Option VerificationState) → AllReadBack (cancelled_verification reason r v)
      cancelled none = unfold cancelled_verification in tt
      cancelled (some v) =
          unfold cancelled_verification parse_payload parse_verification in (rw tidy refl, tt)

  driver_cancel-ReadBack :
      (s : ProjectionState) (j : JobState) (a : AttemptState) (x : Option String) (ids : List Uuid)
      → AllReadBack (driver_cancel host s j a x ids).0
  unfolding driver_cancel enqueue parse_payload parse_outbox
  driver_cancel-ReadBack s j a none ids = tt
  driver_cancel-ReadBack s j a (some x) ids =
      elim (Bool-cases (has (cancel_id host a) s.outbox || any (same (cancel_id host a)) ids)) [
        | inl e ↦ rw e tt
        | inr e ↦ rw e (refl, tt)
      ]

  active_cancellation-ReadBack :
      (s : ProjectionState) (j : JobState) (reason : CancelReason) (ids : List Uuid)
      (a : Option AttemptState)
      → AllReadBack (active_cancellation host s j reason ids a).0
  unfolding active_cancellation attempt_cancellation parse_payload parse_attempt parse_optional
  active_cancellation-ReadBack s j reason ids none = tt
  active_cancellation-ReadBack s j reason ids (some a) =
      let why = reason_text (cancel_reason reason) in
      let tidy = cancel_text-IsTidy reason in
      elim (Bool-cases (is_terminal_attempt a.status)) [
        | inl e ↦ rw e tt
        | inr e ↦ rw e (
          rw (IsTidy-short 1000 why tidy) refl,
          All-append _ _ _ (obsolete_events-ReadBack a.attempt_id none why (values s.outbox) tidy) (
              All-append _ _ _
                (verification_events-ReadBack s.verifications a.attempt_id j.run_id why tidy)
                (driver_cancel-ReadBack s j a a.external_run_id ids)),
        )
      ]

  cancelled_job :
      (id r : Uuid) (reason : CancelReason)
      → ReadsBack host (job_event (job_cancelled id r (reason_text (cancel_reason reason))))
  unfolding parse_payload parse_job parse_enum same reason_text
  cancelled_job id r CancelReason.operator_cancelled = refl
  cancelled_job id r CancelReason.run_failed = refl

  pub cancel_jobs-ReadBack :
      (s : ProjectionState) (reason : CancelReason) (chosen : JobState → Bool) (js : List JobState)
      (ids : List Uuid)
      → AllReadBack (cancel_jobs host s reason chosen js ids)
  unfolding cancel_jobs cancellation_events
  cancel_jobs-ReadBack s reason chosen [] ids = tt
  cancel_jobs-ReadBack s reason chosen (j ∷ js) ids = elim (Bool-cases (chosen j)) [
    | inl e ↦ rw e (
        All-append _ _ _
          (All-append _ _ _ (active_cancellation-ReadBack s j reason ids (active_attempt s j))
            (cancelled_job j.job_id j.run_id reason, tt))
          (cancel_jobs-ReadBack s reason chosen js _))
    | inr e ↦ rw e (cancel_jobs-ReadBack s reason chosen js ids)
  ]

  pub fail_run_events-ReadBack :
      (s : ProjectionState) (j : JobState) (reason : String)
      → IsTidy 1000 reason
      → AllReadBack (fail_run_events host s j reason)
  unfolding fail_run_events parse_payload parse_job parse_run
  fail_run_events-ReadBack s j reason tidy = (
    rw tidy refl,
    All-append _ _ _
        (cancel_jobs-ReadBack s CancelReason.run_failed (is_open_sibling j) (values s.jobs) [])
        (rw tidy refl, tt),
  )

  timeout_cancel-ReadBack :
      (s : ProjectionState) (j : JobState) (a : AttemptState) (reason : FailureReason)
      (x : Option String)
      → AllReadBack (timeout_cancel host s j a reason x)
  unfolding timeout_cancel enqueue parse_payload parse_outbox
  timeout_cancel-ReadBack s j a FailureReason.driver_error x = tt
  timeout_cancel-ReadBack s j a FailureReason.timed_out none = tt
  timeout_cancel-ReadBack s j a FailureReason.timed_out (some x) =
      elim (Bool-cases (has (cancel_id host a) s.outbox)) [
        | inl e ↦ rw e tt
        | inr e ↦ rw e (refl, tt)
      ]

  retry_event :
      (id r : Uuid) (at : ℕ) (reason : FailureReason)
      → ReadsBack host
          (job_event (job_retry_scheduled id r at (reason_text (failure_reason reason))))
  unfolding parse_payload parse_job parse_enum same reason_text
  retry_event id r at FailureReason.driver_error = refl
  retry_event id r at FailureReason.timed_out = refl

  -- A tidy detail, or none, makes a tidy reason.
  reason-IsTidy :
      (detail : Option String) (why : String)
      → IsTidyOption detail
      → IsTidy 1000 why
      → IsTidy 1000 (get_or detail why)
  reason-IsTidy none why h tidy = tidy
  reason-IsTidy (some d) why h tidy = h

  pub finished-ReadsBack :
      (a j r : Uuid) (status : AttemptStatus) (reason : TerminationReason) (detail : Option String)
      → IsTidyOption detail
      → ReadsBack host (attempt_event (attempt_finished a j r status reason detail))
  unfolding parse_payload parse_attempt parse_optional
  finished-ReadsBack a j r status reason none h = refl
  finished-ReadsBack a j r status reason (some d) h = rw (IsTidy-short 1000 d h) refl

  pub failure_transition_events-ReadBack :
      (s : ProjectionState) (j : JobState) (a : AttemptState) (reason : FailureReason) (now : ℕ)
      (detail : Option String) (excluded : Option Uuid)
      → IsTidyOption detail
      → AllReadBack (failure_transition_events host s j a reason now detail excluded)
  unfolding failure_transition_events
  failure_transition_events-ReadBack s j a reason now detail excluded h =
      let why = reason_text (failure_reason reason) in
      let tidy = failure_text-IsTidy reason in
      (
        finished-ReadsBack a.attempt_id j.job_id j.run_id _ _ (truthy detail)
            (truthy-IsTidy detail h),
        All-append _ _ _ (obsolete_events-ReadBack a.attempt_id excluded why (values s.outbox) tidy)
            (All-append _ _ _
              (verification_events-ReadBack s.verifications a.attempt_id j.run_id why tidy)
              (All-append _ _ _ (timeout_cancel-ReadBack s j a reason a.external_run_id)
                (elim (Bool-cases (ltb j.attempt_count j.policy.max_attempts)) [
                  | inl e ↦ rw e (retry_event j.job_id j.run_id _ reason, tt)
                  | inr e ↦ rw e (
                      fail_run_events-ReadBack s j (get_or detail why)
                        (reason-IsTidy detail why h tidy))
                ]))),
      )

  pub legacy_cancellations-ReadBack :
      (r : Uuid) (reason : String) (attempts : List AttemptState)
      → IsTidy 1000 reason
      → AllReadBack (legacy_cancellations r reason attempts)
  unfolding legacy_cancellations parse_payload parse_attempt
  legacy_cancellations-ReadBack r reason [] tidy = tt
  legacy_cancellations-ReadBack r reason (a ∷ rest) tidy =
      let others = legacy_cancellations-ReadBack r reason rest tidy in
      elim (Bool-cases (is_legacy_active r a)) [
        | inl e ↦ rw e (rw tidy refl, others)
        | inr e ↦ rw e others
      ]

  unblock_events-ReadBack :
      (m : Map JobState) (j : JobState) (cs : List JobState) → AllReadBack (unblock_events m j cs)
  unfolding unblock_events parse_payload parse_job
  unblock_events-ReadBack m j [] = tt
  unblock_events-ReadBack m j (c ∷ cs) =
      let rest = unblock_events-ReadBack m j cs in
      elim (Bool-cases (is_unblocked_by m j c)) [ inl e ↦ rw e (refl, rest) | inr e ↦ rw e rest ]

  pub success_events-ReadBack :
      (s : ProjectionState) (j : JobState) → AllReadBack (success_events s j)
  unfolding success_events parse_payload parse_job parse_run
  success_events-ReadBack s j = (
    refl,
    All-append _ _ _ (unblock_events-ReadBack s.jobs j (values s.jobs))
        (elim (Bool-cases (run_is_done (values s.jobs) j)) [
          | inl e ↦ rw e (refl, tt)
          | inr e ↦ rw e tt
        ]),
  )
