-- ===== src/Replay/Reading/Commands.antt =====
-- Every command whose texts are trimmed and of the length that the events' schemas allow is accepted
-- with events that read back as they were stored.
use parallelplay.Prelude.{
  trim, utf16_length, ◌≡◌, refl, ℕ, true, false, Option, none, some, List, [], ◌∷◌, String, Uuid,
  Map, All, All-append, get, values, same, same_refl, Bool-cases, Option-cases, inl, inr,
  if◌then◌else◌,
}
use parallelplay.Canonical.{Host, canonical_digest}
use parallelplay.Evolve.{workflow_key}
use parallelplay.Model.{
  ProjectionState, JobState, AttemptState, RunState, WorkflowState, WorkflowDefinition,
  WorkflowStep, Outcome, VerificationState, VerifierContract,
}
use parallelplay.Decide.{
  Accepted, ResultKind, accept, found, FailureReason, CancelReason, ok, attempt_observe,
  attempt_timeout, active_lease_attempt, observe_success, request_verification, unverified_success,
  verification_request_events, verification_complete, verification_execution_fail, find_verifying,
  run_schedule, run_cancel, cancellation_for_run, run_create, program_create, workflow_register,
  source_revision_register, run_not_found, workflow_not_found, verification_required, is_open_job,
  completion_events, verdict_events, enqueue, ObserveAttempt, CompleteVerification,
  VerificationLease, ScheduleJob, Verifying, schedule_steps, schedule_step, by_step,
  expected_receipt_digest, verifies, failure_transition_events, truthy,
}
use parallelplay.Kernel.{
  Command, decide, register_source, create_program, register_workflow, create_run, schedule_run,
  cancel_run, allocate_attempt, cancel_attempt, acquire_job, renew_job, release_job,
  observe_attempt, time_out_attempt, complete_verification, fail_verification, acquire_outbox,
  succeed_delivery, fail_delivery, parse_payload, parse_run, parse_attempt, parse_job, parse_outbox,
  parse_verification, parse_text, parse_given, parse_short, parse_optional,
}
use parallelplay.Lifecycle.Accepting.{
  Ensures, Ensures-inv, Ensures->>=, Ensures->>, Ensures-ok, Ensures-failure,
}
use parallelplay.Replay.Transactions.{ReadsBack}
use parallelplay.Replay.Reading.Events.{
  IsTidy, IsTidyOption, IsTidy-given, truthy-IsTidy, AllReadBack, finished-ReadsBack,
  fail_run_events-ReadBack, failure_transition_events-ReadBack, legacy_cancellations-ReadBack,
  cancel_jobs-ReadBack, success_events-ReadBack,
}
use parallelplay.Replay.Reading.Leases.{
  Legible, Legible-accept, job_lease_acquire-Legible, job_lease_renew-Legible,
  job_lease_release-Legible, outbox_lease_acquire-Legible, outbox_delivery_succeed-Legible,
  outbox_delivery_fail-Legible,
}

-- The texts of a command, as the schemas of its events want them: the command's own schema trims them,
-- but for the detail of `attempt.observe` and the reason of a failed verification. The digest of a
-- verification's receipt, which stands for the message's effect, is one of the platform's.
abbrev pub IsLegible : Host → Command → Type 0
IsLegible host (create_program p name) = IsTidy 160 name
IsLegible host (cancel_run k reason) = IsTidy 1000 reason
IsLegible host (observe_attempt p) = IsTidyOption p.detail
IsLegible host (complete_verification p) =
    IsTidyOption p.result.failure_reason
    × ((v : VerificationState) → IsTidy 500 (expected_receipt_digest host p v))
IsLegible host (fail_verification p detail) = IsTidy 1000 detail
IsLegible host (succeed_delivery k o n x) = IsTidy 500 x
IsLegible host (fail_delivery k o n x) = IsTidy 1000 x
IsLegible host _ = Unit

module _ (host : Host) (now : ℕ) (s : ProjectionState) where
  failure-Legible :
      (j : JobState) (a : AttemptState) (why : FailureReason) (detail : Option String)
      (kind : ResultKind)
      → IsTidyOption detail
      → Legible host now s
          (accept (failure_transition_events host s j a why now detail none) kind j.job_id)
  failure-Legible j a why detail kind h =
      Legible-accept host now s _ _ _
        (failure_transition_events-ReadBack host s j a why now detail none h)

  attempt_timeout-Legible :
      (k a o : Uuid) (n : ℕ) → Legible host now s (attempt_timeout host s k a o n now)
  unfolding attempt_timeout
  attempt_timeout-Legible k a o n =
      Ensures->>= _ (active_lease_attempt s k a o n now) _
        λ (j, x) e. Ensures->> _ _ _ (failure-Legible j x FailureReason.timed_out none _ tt)

  unverified_success-Legible :
      (j : JobState) (a : AttemptState) (detail : Option String)
      → IsTidyOption detail
      → Legible host now s (unverified_success s j a detail)
  unfolding unverified_success
  unverified_success-Legible j a detail h = Legible-accept host now s _ _ _ (
    finished-ReadsBack host a.attempt_id j.job_id j.run_id _ _ (truthy detail)
        (truthy-IsTidy detail h),
    success_events-ReadBack host s j,
  )

  verification_request_events-ReadBack :
      (j : JobState) (a : AttemptState) (r : RunState) (w : WorkflowState) (v o revision : Uuid)
      (contract : VerifierContract) (digest : String)
      → AllReadBack host (verification_request_events j a r w v o revision contract digest)
  unfolding verification_request_events enqueue parse_payload parse_attempt parse_verification
      parse_outbox
  verification_request_events-ReadBack j a r w v o revision contract digest =
      (refl, (refl, (refl, tt)))

  request_verification-Legible :
      (j : JobState) (a : AttemptState) (p : ObserveAttempt) (revision : Uuid)
      (contract : VerifierContract) (digest : String)
      → Legible host now s (request_verification s j a p revision contract digest)
  unfolding request_verification
  request_verification-Legible j a p revision contract digest =
      Ensures->>= _
        (found p.verification_id verification_required
          "Successful execution requires verification identifiers")
        _
        λ v f.
          Ensures->>= _
            (found p.verification_outbox_id verification_required
              "Successful execution requires verification identifiers")
            _
            λ o g. Ensures->> _ _ _ (
              Ensures->>= _ (found (get j.run_id s.runs) run_not_found "Run does not exist") _
                λ r h.
                  Ensures->>= _
                    (found (get (workflow_key r.workflow_id r.workflow_version) s.workflows)
                      workflow_not_found "Workflow version does not exist")
                    _
                    λ w k.
                      Legible-accept host now s _ _ _
                        (verification_request_events-ReadBack j a r w v o revision contract digest))

  observe_success-Legible :
      (j : JobState) (a : AttemptState) (p : ObserveAttempt)
      → IsTidyOption p.detail
      → Legible host now s (observe_success s j a p)
  unfolding observe_success
  observe_success-Legible j a p h = elim (Option-cases (verifies j)) [
    | inl e ↦ rw (observe_success, e) (unverified_success-Legible j a p.detail h)
    | inr ((revision, contract, digest), e) ↦
        rw (observe_success, e) (request_verification-Legible j a p revision contract digest)
  ]

  outcome-Legible :
      (p : ObserveAttempt) (j : JobState) (a : AttemptState)
      → IsTidyOption p.detail
      → Legible host now s (
          if p.succeeded
          then observe_success s j a p
          else accept
              (failure_transition_events host s j a FailureReason.driver_error now p.detail none)
              ResultKind.job
              j.job_id)
  unfolding observe_success
  outcome-Legible p j a h = elim (Bool-cases p.succeeded) [
    | inl won ↦ rw won (observe_success-Legible j a p h)
    | inr lost ↦ rw lost (failure-Legible j a FailureReason.driver_error p.detail ResultKind.job h)
  ]

  attempt_observe-Legible :
      (p : ObserveAttempt)
      → IsTidyOption p.detail
      → Legible host now s (attempt_observe host s p now)
  unfolding attempt_observe
  attempt_observe-Legible p h =
      Ensures->>= _ (active_lease_attempt s p.job_id p.attempt_id p.owner_id p.fencing_token now) _
        λ (j, x) e. Ensures->> _ _ _ (Ensures->> _ _ _ (outcome-Legible p j x h))

  verdict_events-ReadBack :
      (j : JobState) (outcome : Outcome) (reason : Option String)
      → IsTidyOption reason
      → AllReadBack host (verdict_events host s j outcome reason)
  unfolding verdict_events parse_text parse_given parse_short trim utf16_length same
  verdict_events-ReadBack j Outcome.passed reason h = success_events-ReadBack host s j
  verdict_events-ReadBack j Outcome.failed none h = fail_run_events-ReadBack host s j "failed" refl
  verdict_events-ReadBack j Outcome.failed (some r) h = fail_run_events-ReadBack host s j r h
  verdict_events-ReadBack j Outcome.invalid none h =
      fail_run_events-ReadBack host s j "invalid" refl
  verdict_events-ReadBack j Outcome.invalid (some r) h = fail_run_events-ReadBack host s j r h

  given-optional :
      (reason : Option String)
      → IsTidyOption reason
      → parse_optional (parse_given 1000) reason ≡ some reason
  unfolding parse_optional
  given-optional none h = refl
  given-optional (some r) h = rw (IsTidy-given 1000 r h) refl

  completion_events-ReadBack :
      (p : CompleteVerification) (x : Verifying) (digest : String)
      → IsTidyOption p.result.failure_reason
      → IsTidy 500 digest
      → AllReadBack host (completion_events host s p x digest)
  unfolding completion_events parse_payload parse_verification parse_outbox
  completion_events-ReadBack p x digest h tidy = (
    refl,
    (
      rw (given-optional p.result.failure_reason h) refl,
      (
        rw tidy refl,
        (
          finished-ReadsBack host x.attempt.attempt_id x.job.job_id x.job.run_id _ _
              (truthy p.result.failure_reason) (truthy-IsTidy p.result.failure_reason h),
          verdict_events-ReadBack x.job p.result.outcome p.result.failure_reason h,
        ),
      ),
    ),
  )

  verification_complete-Legible :
      (p : CompleteVerification)
      → IsLegible host (complete_verification p)
      → Legible host now s (verification_complete host s p now)
  unfolding verification_complete
  verification_complete-Legible p h = Ensures->>= _ (find_verifying s p.lease true now) _ λ x e.
      Ensures->> _ _ _ (
        Legible-accept host now s _ _ _ (completion_events-ReadBack p x _ h.0 (h.1 x.verification)))

  verification_execution_fail-Legible :
      (p : VerificationLease) (detail : String)
      → IsTidy 1000 detail
      → Legible host now s (verification_execution_fail host s p detail now)
  unfolding verification_execution_fail parse_payload parse_outbox parse_text parse_given
      parse_short trim utf16_length same
  verification_execution_fail-Legible p detail h =
      Ensures->>= _ (find_verifying s p false now) _ λ x e. Legible-accept host now s _ _ _ (
        refl,
        failure_transition_events-ReadBack host s x.job x.attempt FailureReason.timed_out now
            (some detail) (some x.outbox.outbox_id) h,
      )

  run_cancel-Legible :
      (k : Uuid) (reason : String)
      → IsTidy 1000 reason
      → Legible host now s (run_cancel host s k reason)
  unfolding run_cancel cancellation_for_run parse_payload parse_run
  run_cancel-Legible k reason h = Ensures->>= _ (cancellation_for_run host s k reason) _ λ events e.
      Legible-accept host now s _ _ _ (
        Ensures-inv (AllReadBack host) _ events
          (Ensures->>= _ (found (get k s.runs) run_not_found "Run does not exist") _ λ r f.
            Ensures->> _ _ _ (
              Ensures-ok _ _ (
                All-append _ _ _
                  (legacy_cancellations-ReadBack host r.run_id reason (values s.attempts) h)
                  (All-append _ _ _
                    (cancel_jobs-ReadBack host s CancelReason.operator_cancelled
                      (is_open_job r.run_id) (values s.jobs) [])
                    (rw h refl, tt)))))
          e)

  schedule_steps-ReadBack :
      (k : Uuid) (jobs : Map ScheduleJob) (steps : List WorkflowStep)
      → Ensures (AllReadBack host) (schedule_steps host k jobs steps)
  unfolding schedule_steps parse_payload parse_job
  schedule_steps-ReadBack k jobs [] = Ensures-ok _ _ tt
  schedule_steps-ReadBack k jobs (step ∷ steps) =
      let rest = schedule_steps-ReadBack k jobs steps in
      Ensures->>= _ (schedule_step host k jobs step) _ λ d e.
        Ensures->>= _ (schedule_steps host k jobs steps) _
          λ events f. Ensures-ok _ _ (refl, Ensures-inv _ _ events rest f)

  run_schedule-Legible :
      (k : Uuid) (jobs : List ScheduleJob) → Legible host now s (run_schedule host s k jobs)
  unfolding run_schedule parse_payload parse_run
  run_schedule-Legible k jobs =
      Ensures->>= _ (found (get k s.runs) run_not_found "Run does not exist") _ λ r e.
        Ensures->> _ _ _ (
          Ensures->>= _
            (found (get (workflow_key r.workflow_id r.workflow_version) s.workflows)
              workflow_not_found "Workflow version does not exist")
            _
            λ w f. Ensures->> _ _ _ (
              Ensures->>= _ (schedule_steps host r.run_id (by_step jobs []) w.definition.steps) _
                λ events g. Legible-accept host now s _ _ _ (
                  All-append _ _ _
                    (Ensures-inv _ _ events
                      (schedule_steps-ReadBack r.run_id (by_step jobs []) w.definition.steps) g)
                    (refl, tt))))

  register-Legible : (d : WorkflowDefinition) → Legible host now s (workflow_register host s d)
  unfolding workflow_register parse_payload
  register-Legible d =
      Ensures->> _ _ _ (
        Legible-accept host now s _ _ _
          (rw (same_refl (canonical_digest host d.document)) refl, tt))

  create-Legible :
      (p : Uuid) (name : String) → IsTidy 160 name → Legible host now s (program_create s p name)
  unfolding program_create parse_payload
  create-Legible p name h = Ensures->> _ _ _ (Legible-accept host now s _ _ _ (rw h refl, tt))

  decide-Legible : (c : Command) → IsLegible host c → Legible host now s (decide host s c now)
  unfolding decide source_revision_register run_create parse_payload parse_run
  decide-Legible (register_source v) h =
      Ensures->> _ _ _ (Legible-accept host now s _ _ _ (refl, tt))
  decide-Legible (create_program p name) h = create-Legible p name h
  decide-Legible (register_workflow d) h = register-Legible d
  decide-Legible (create_run k p w version) h =
      Ensures->> _ _ _ (Legible-accept host now s _ _ _ (refl, tt))
  decide-Legible (schedule_run k jobs) h = run_schedule-Legible k jobs
  decide-Legible (cancel_run k reason) h = run_cancel-Legible k reason h
  decide-Legible (allocate_attempt a k) h = Ensures-failure _ _ _
  decide-Legible (cancel_attempt a reason) h = Ensures-failure _ _ _
  decide-Legible (acquire_job p) h = job_lease_acquire-Legible host now s p
  decide-Legible (renew_job k o n d) h = job_lease_renew-Legible host now s k o n d
  decide-Legible (release_job k o n) h = job_lease_release-Legible host now s k o n
  decide-Legible (observe_attempt p) h = attempt_observe-Legible p h
  decide-Legible (time_out_attempt k a o n) h = attempt_timeout-Legible k a o n
  decide-Legible (complete_verification p) h = verification_complete-Legible p h
  decide-Legible (fail_verification p detail) h = verification_execution_fail-Legible p detail h
  decide-Legible (acquire_outbox k o d) h = outbox_lease_acquire-Legible host now s k o d
  decide-Legible (succeed_delivery k o n x) h = outbox_delivery_succeed-Legible host now s k o n x h
  decide-Legible (fail_delivery k o n x) h = outbox_delivery_fail-Legible host now s k o n x h

-- What is stored can be read back: if the texts of a command, of all that are modelled, and the digest
-- of the receipt of the verification that it completes, are trimmed and of the length that the
-- schemas of the events allow, every event with which it is accepted is read back by `loadEvents` as
-- it was stored, whatever the state.
pub decide-ReadBack :
    (host : Host) (now : ℕ) (s : ProjectionState) (c : Command) (a : Accepted)
    → IsLegible host c
    → decide host s c now ≡ ok a
    → All (ReadsBack host) a.events
decide-ReadBack host now s c a h accepted =
    Ensures-inv _ (decide host s c now) a (decide-Legible host now s c h) accepted
