-- ===== src/Replay/Reading/Leases.antt =====
-- The commands of leases and deliveries are accepted with events that read back as they were stored,
-- where their texts do.
use parallelplay.Prelude.{
  trim, utf16_length, refl, ℕ, not, ◌&&◌, Option, none, some, List, String, Uuid, get, has, same,
  Bool-cases, inl, inr,
}
use parallelplay.Canonical.{Host}
use parallelplay.Model.{
  ProjectionState, JobState, AttemptState, OutboxState, RunState, DomainEvent, ContextPacketState,
  is_terminal_attempt,
}
use parallelplay.Decide.{
  Decision, Accepted, ResultKind, accept, found, fail_if, FailureReason, job_lease_acquire,
  job_lease_renew, job_lease_release, outbox_lease_acquire, outbox_delivery_succeed,
  outbox_delivery_fail, validate_job_lease, validate_outbox_lease, is_available, job_not_found,
  outbox_not_found, outbox_not_claimable, job_not_claimable, is_over, is_cancel, is_start,
  is_dead_letter, is_scheduled, is_resuming, delivery_events, started_events,
  delivery_failure_events, undelivered_events, enqueue, cancel_id, acquire_events, start_events,
  open_run, job_packet, AcquireJobLease,
}
use parallelplay.Kernel.{
  parse_payload, parse_run, parse_attempt, parse_job, parse_outbox, parse_text, parse_given,
  parse_short,
}
use parallelplay.Lifecycle.Accepting.{Ensures, Ensures->>=, Ensures->>, Ensures-ok}
use parallelplay.Replay.Reading.Events.{IsTidy, AllReadBack, failure_transition_events-ReadBack}

module _ (host : Host) (now : ℕ) (s : ProjectionState) where
  abbrev pub Legible : Decision → Type 0
  Legible d = Ensures (λ (a : Accepted). AllReadBack host a.events) d

  pub Legible-accept :
      (es : List DomainEvent) (kind : ResultKind) (id : String)
      → AllReadBack host es
      → Legible (accept es kind id)
  Legible-accept es kind id h = Ensures-ok _ _ h

  pub job_lease_renew-Legible : (k o : Uuid) (n d : ℕ) → Legible (job_lease_renew s k o n d now)
  unfolding job_lease_renew parse_payload parse_job
  job_lease_renew-Legible k o n d =
      Ensures->>= _ (found (get k s.jobs) job_not_found "Job does not exist") _
        λ j e. Ensures->>= _ (validate_job_lease j o n now) _ λ u f. Legible-accept _ _ _ (refl, tt)

  pub job_lease_release-Legible : (k o : Uuid) (n : ℕ) → Legible (job_lease_release s k o n now)
  unfolding job_lease_release parse_payload parse_job
  job_lease_release-Legible k o n =
      Ensures->>= _ (found (get k s.jobs) job_not_found "Job does not exist") _
        λ j e. Ensures->>= _ (validate_job_lease j o n now) _ λ u f. Legible-accept _ _ _ (refl, tt)

  acquire_events-ReadBack :
      (r : RunState) (j : JobState) (p : AcquireJobLease) (packet : Option ContextPacketState)
      → AllReadBack host (acquire_events r j p packet now)
  unfolding acquire_events start_events enqueue parse_payload parse_run parse_job parse_attempt
      parse_outbox
  acquire_events-ReadBack r j p packet = elim (Bool-cases (is_scheduled r.status)) [
    | inl e ↦ elim (Bool-cases (is_resuming j)) [
      | inl f ↦ rw (e, f) (refl, (refl, tt))
      | inr f ↦ rw (e, f) (refl, (refl, (refl, (refl, tt))))
    ]
    | inr e ↦ elim (Bool-cases (is_resuming j)) [
      | inl f ↦ rw (e, f) (refl, tt)
      | inr f ↦ rw (e, f) (refl, (refl, (refl, tt)))
    ]
  ]

  pub job_lease_acquire-Legible : (p : AcquireJobLease) → Legible (job_lease_acquire host s p now)
  unfolding job_lease_acquire
  job_lease_acquire-Legible p =
      Ensures->>= _ (found (get p.job_id s.jobs) job_not_found "Job does not exist") _ λ j e.
        Ensures->>= _
          (found (open_run (get j.run_id s.runs)) job_not_claimable
            "Job belongs to a terminal or missing run")
          _
          λ r f. Ensures->> _ _ _ (
            Ensures->> _ _ _
              (Legible-accept _ _ _ (acquire_events-ReadBack r j p (job_packet s j))))

  pub outbox_lease_acquire-Legible :
      (k o : Uuid) (d : ℕ) → Legible (outbox_lease_acquire s k o d now)
  unfolding outbox_lease_acquire parse_payload parse_outbox parse_text parse_given parse_short same
      trim utf16_length
  outbox_lease_acquire-Legible k o d =
      Ensures->>= _ (found (get k s.outbox) outbox_not_found "Outbox message does not exist") _
        λ m e.
          Ensures->> _
            (fail_if (not (is_available now m)) outbox_not_claimable
              "Outbox message is not available")
            _
            (elim (Bool-cases (not (is_cancel m.effect) && is_over (get m.attempt_id s.attempts))) [
              | inl over ↦ rw over (Legible-accept _ _ _ (refl, tt))
              | inr going ↦ rw going (Legible-accept _ _ _ (refl, tt))
            ])

  started_events-ReadBack :
      (x : String) (a : Option AttemptState) (j : Option JobState)
      → IsTidy 500 x
      → AllReadBack host (started_events host s x a j)
  unfolding started_events enqueue parse_payload parse_attempt parse_outbox
  started_events-ReadBack x none j tidy = tt
  started_events-ReadBack x (some a) none tidy = tt
  started_events-ReadBack x (some a) (some j) tidy =
      elim (Bool-cases (is_terminal_attempt a.status)) [
        | inl over ↦ elim (Bool-cases (has (cancel_id host a) s.outbox)) [
          | inl there ↦ rw (over, there) tt
          | inr missing ↦ rw (over, missing) (refl, tt)
        ]
        | inr going ↦ rw going (rw tidy refl, tt)
      ]

  pub outbox_delivery_succeed-Legible :
      (k o : Uuid) (n : ℕ) (x : String)
      → IsTidy 500 x
      → Legible (outbox_delivery_succeed host s k o n x now)
  unfolding outbox_delivery_succeed delivery_events parse_payload parse_outbox
  outbox_delivery_succeed-Legible k o n x tidy =
      Ensures->>= _ (found (get k s.outbox) outbox_not_found "Outbox message does not exist") _
        λ m e. Ensures->>= _ (validate_outbox_lease m o n now) _ λ u f. Legible-accept _ _ _ (
          rw tidy refl,
          elim (Bool-cases (is_start m.effect)) [
            | inl start ↦
                rw start (
                  started_events-ReadBack x (get m.attempt_id s.attempts) (get m.job_id s.jobs)
                    tidy)
            | inr other ↦ rw other tt
          ],
        )

  undelivered_events-ReadBack :
      (m : OutboxState) (error : String) (a : Option AttemptState) (j : Option JobState)
      → IsTidy 1000 error
      → AllReadBack host (undelivered_events host s m error now a j)
  unfolding undelivered_events
  undelivered_events-ReadBack m error none j tidy = tt
  undelivered_events-ReadBack m error (some a) none tidy = tt
  undelivered_events-ReadBack m error (some a) (some j) tidy =
      elim (Bool-cases (is_terminal_attempt a.status)) [
        | inl over ↦ rw over tt
        | inr going ↦ rw going (
            failure_transition_events-ReadBack host s j a FailureReason.driver_error now
              (some error) (some m.outbox_id) tidy)
      ]

  pub outbox_delivery_fail-Legible :
      (k o : Uuid) (n : ℕ) (x : String)
      → IsTidy 1000 x
      → Legible (outbox_delivery_fail host s k o n x now)
  unfolding outbox_delivery_fail delivery_failure_events parse_payload parse_outbox
  outbox_delivery_fail-Legible k o n x tidy =
      Ensures->>= _ (found (get k s.outbox) outbox_not_found "Outbox message does not exist") _
        λ m e. Ensures->>= _ (validate_outbox_lease m o n now) _ λ u f. Legible-accept _ _ _ (
          rw tidy refl,
          elim (Bool-cases (is_dead_letter m && not (is_cancel m.effect))) [
            | inl dead ↦ rw dead (
                undelivered_events-ReadBack m x (get m.attempt_id s.attempts) (get m.job_id s.jobs)
                  tidy)
            | inr again ↦ rw again tt
          ],
        )
