-- ===== src/Lifecycle/Thrift/Leases.antt =====
-- The lease and delivery commands keep every job within its attempt budget.
use parallelplay.Prelude.{
  ℕ, ◌≡◌, refl, not, ◌&&◌, Option, none, some, List, String, Uuid, get, has, Bool-cases, inl, inr,
}
use parallelplay.Canonical.{Host}
use parallelplay.Model.{
  ProjectionState, DomainEvent, JobState, AttemptState, OutboxState, is_terminal_attempt,
}
use parallelplay.Decide.{
  Decision, Accepted, ResultKind, accept, found, FailureReason, fail_if, job_lease_renew,
  job_lease_release, outbox_lease_acquire, outbox_delivery_succeed, outbox_delivery_fail,
  validate_job_lease, validate_outbox_lease, is_available, job_not_found, outbox_not_found,
  delivery_events, started_events, delivery_failure_events, undelivered_events, is_dead_letter,
  is_cancel, enqueue, cancel_id,
}
use parallelplay.Decide.{is_start, outbox_not_claimable, is_over}
use parallelplay.Kernel.{}
use parallelplay.Lifecycle.Budget.{BudgetHolds, AllAllowed}
use parallelplay.Lifecycle.Spending.{
  Keeps, allowed-Keeps, found-own, failure_transition_events-AllAllowed,
}
use parallelplay.Lifecycle.Scheduling.{}
use parallelplay.Lifecycle.Accepting.{Ensures, Ensures->>=, Ensures->>, Ensures-ok}

module _ (host : Host) (now : ℕ) (s : ProjectionState) (b : BudgetHolds s) where
  abbrev pub Thrifty : Decision → Type 0
  Thrifty d = Ensures (λ (a : Accepted). Keeps host now s a.events) d

  pub Thrifty-allowed :
      (es : List DomainEvent) (kind : ResultKind) (id : String)
      → AllAllowed s es
      → Thrifty (accept es kind id)
  Thrifty-allowed es kind id h = Ensures-ok _ _ (allowed-Keeps host now s es b h)

  pub job_lease_renew-Thrifty : (k o : Uuid) (n d : ℕ) → Thrifty (job_lease_renew s k o n d now)
  unfolding job_lease_renew
  job_lease_renew-Thrifty k o n d =
      Ensures->>= _ (found (get k s.jobs) job_not_found "Job does not exist") _ λ j e.
        Ensures->>= _ (validate_job_lease j o n now) _ λ u f. Thrifty-allowed _ _ _ ((λ i. tt), tt)

  pub job_lease_release-Thrifty : (k o : Uuid) (n : ℕ) → Thrifty (job_lease_release s k o n now)
  unfolding job_lease_release
  job_lease_release-Thrifty k o n =
      Ensures->>= _ (found (get k s.jobs) job_not_found "Job does not exist") _ λ j e.
        Ensures->>= _ (validate_job_lease j o n now) _ λ u f. Thrifty-allowed _ _ _ ((λ i. tt), tt)

  pub outbox_lease_acquire-Thrifty :
      (k o : Uuid) (d : ℕ) → Thrifty (outbox_lease_acquire s k o d now)
  unfolding outbox_lease_acquire
  outbox_lease_acquire-Thrifty k o d =
      Ensures->>= _ (found (get k s.outbox) outbox_not_found "Outbox message does not exist") _
        λ m e.
          Ensures->> _
            (fail_if (not (is_available now m)) outbox_not_claimable
              "Outbox message is not available")
            _
            (elim (Bool-cases (not (is_cancel m.effect) && is_over (get m.attempt_id s.attempts))) [
              | inl over ↦ rw over (Thrifty-allowed _ _ _ ((λ i. tt), tt))
              | inr going ↦ rw going (Thrifty-allowed _ _ _ ((λ i. tt), tt))
            ])

  pub started_events-AllAllowed :
      (external_id : String) (a : Option AttemptState) (j : Option JobState)
      → AllAllowed s (started_events host s external_id a j)
  unfolding started_events enqueue
  started_events-AllAllowed x none j = tt
  started_events-AllAllowed x (some a) none = tt
  started_events-AllAllowed x (some a) (some j) = elim (Bool-cases (is_terminal_attempt a.status)) [
    | inl over ↦ elim (Bool-cases (has (cancel_id host a) s.outbox)) [
      | inl there ↦ rw (over, there) tt
      | inr missing ↦ rw (over, missing) ((λ i. tt), tt)
    ]
    | inr going ↦ rw going ((λ i. tt), tt)
  ]

  pub outbox_delivery_succeed-Thrifty :
      (k o : Uuid) (n : ℕ) (x : String) → Thrifty (outbox_delivery_succeed host s k o n x now)
  unfolding outbox_delivery_succeed delivery_events
  outbox_delivery_succeed-Thrifty k o n x =
      Ensures->>= _ (found (get k s.outbox) outbox_not_found "Outbox message does not exist") _
        λ m e. Ensures->>= _ (validate_outbox_lease m o n now) _ λ u f. Thrifty-allowed _ _ _ (
          (λ i. tt),
          elim (Bool-cases (is_start m.effect)) [
            | inl start ↦
                rw start
                  (started_events-AllAllowed x (get m.attempt_id s.attempts) (get m.job_id s.jobs))
            | inr other ↦ rw other tt
          ],
        )

  pub undelivered_events-AllAllowed :
      (m : OutboxState) (error : String) (k : Uuid) (a : Option AttemptState) (j : Option JobState)
      → get k s.jobs ≡ j
      → AllAllowed s (undelivered_events host s m error now a j)
  unfolding undelivered_events
  undelivered_events-AllAllowed m error k none j e = tt
  undelivered_events-AllAllowed m error k (some a) none e = tt
  undelivered_events-AllAllowed m error k (some a) (some j) e =
      elim (Bool-cases (is_terminal_attempt a.status)) [
        | inl over ↦ rw over tt
        | inr going ↦ rw going (
            failure_transition_events-AllAllowed host s j a FailureReason.driver_error now
              (some error) (some m.outbox_id) (found-own s k j b.0 e))
      ]

  pub outbox_delivery_fail-Thrifty :
      (k o : Uuid) (n : ℕ) (x : String) → Thrifty (outbox_delivery_fail host s k o n x now)
  unfolding outbox_delivery_fail delivery_failure_events
  outbox_delivery_fail-Thrifty k o n x =
      Ensures->>= _ (found (get k s.outbox) outbox_not_found "Outbox message does not exist") _
        λ m e. Ensures->>= _ (validate_outbox_lease m o n now) _ λ u f. Thrifty-allowed _ _ _ (
          (λ i. tt),
          elim (Bool-cases (is_dead_letter m && not (is_cancel m.effect))) [
            | inl dead ↦ rw dead (
                undelivered_events-AllAllowed m x m.job_id (get m.attempt_id s.attempts)
                  (get m.job_id s.jobs) refl)
            | inr again ↦ rw again tt
          ],
        )
