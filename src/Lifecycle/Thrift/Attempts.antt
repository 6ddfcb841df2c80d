-- ===== src/Lifecycle/Thrift/Attempts.antt =====
-- The reports of an attempt keep every job within its attempt budget.
use parallelplay.Prelude.{
  ℕ, ◌≡◌, Option, none, some, String, Uuid, get, Bool-cases, Option-cases, if◌then◌else◌, inl, inr,
}
use parallelplay.Canonical.{Host}
use parallelplay.Evolve.{workflow_key}
use parallelplay.Model.{
  ProjectionState, JobState, AttemptState, RunState, WorkflowState, VerifierContract,
}
use parallelplay.Decide.{
  ResultKind, accept, found, FailureReason, attempt_not_found, attempt_observe, attempt_timeout,
  active_lease_attempt, observe_success, request_verification, unverified_success,
  verification_request_events, validate_job_lease, job_not_found, enqueue, ObserveAttempt,
}
use parallelplay.Decide.{
  verification_required, run_not_found, workflow_not_found, failure_transition_events,
}
use parallelplay.Kernel.{}
use parallelplay.Lifecycle.Budget.{BudgetHolds, AllAllowed}
use parallelplay.Lifecycle.Spending.{
  found-own, failure_transition_events-AllAllowed, success_events-AllAllowed,
}
use parallelplay.Lifecycle.Scheduling.{}
use parallelplay.Lifecycle.Fencing.{found-inv}
use parallelplay.Lifecycle.Accepting.{Ensures, Ensures-inv, Ensures->>=, Ensures->>, Ensures-ok}
use parallelplay.Lifecycle.Thrift.Leases.{Thrifty, Thrifty-allowed}

module _ (host : Host) (now : ℕ) (s : ProjectionState) (b : BudgetHolds s) where
  pub active_lease_attempt-found :
      (k a o : Uuid) (n : ℕ)
      → Ensures
          (λ (x : JobState × AttemptState). get k s.jobs ≡ some x.0)
          (active_lease_attempt s k a o n now)
  unfolding active_lease_attempt
  active_lease_attempt-found k a o n =
      Ensures->>= _ (found (get k s.jobs) job_not_found "Job does not exist") _ λ j e.
        Ensures->>= _ (validate_job_lease j o n now) _ λ u f.
          Ensures->>= _ (found (get a s.attempts) attempt_not_found "Attempt does not exist") _
            λ x g. Ensures->> _ _ _ (Ensures->> _ _ _ (Ensures-ok _ (j, x) (found-inv _ _ _ j e)))

  pub failure-Thrifty :
      (k : Uuid) (j : JobState) (a : AttemptState) (why : FailureReason) (detail : Option String)
      (kind : ResultKind)
      → get k s.jobs ≡ some j
      → Thrifty host now s b
          (accept (failure_transition_events host s j a why now detail none) kind j.job_id)
  failure-Thrifty k j a why detail kind e =
      Thrifty-allowed host now s b _ _ _ (
        failure_transition_events-AllAllowed host s j a why now detail none (found-own s k j b.0 e))

  pub attempt_timeout-Thrifty :
      (k a o : Uuid) (n : ℕ) → Thrifty host now s b (attempt_timeout host s k a o n now)
  unfolding attempt_timeout
  attempt_timeout-Thrifty k a o n = Ensures->>= _ (active_lease_attempt s k a o n now) _ λ (j, x) e.
      Ensures->> _ _ _ (
        failure-Thrifty k j x FailureReason.timed_out none _
          (Ensures-inv _ _ (j, x) (active_lease_attempt-found k a o n) e))

  pub unverified_success-Thrifty :
      (j : JobState) (a : AttemptState) (detail : Option String)
      → Thrifty host now s b (unverified_success s j a detail)
  unfolding unverified_success
  unverified_success-Thrifty j a detail =
      Thrifty-allowed host now s b _ _ _ ((λ i. tt), success_events-AllAllowed s j b)

  pub verification_request_events-AllAllowed :
      (j : JobState) (a : AttemptState) (r : RunState) (w : WorkflowState) (v o revision : Uuid)
      (contract : VerifierContract) (digest : String)
      → AllAllowed s (verification_request_events j a r w v o revision contract digest)
  unfolding verification_request_events enqueue
  verification_request_events-AllAllowed j a r w v o revision contract digest =
      ((λ i. tt), ((λ i. tt), ((λ i. tt), tt)))

  pub request_verification-Thrifty :
      (j : JobState) (a : AttemptState) (p : ObserveAttempt) (revision : Uuid)
      (contract : VerifierContract) (digest : String)
      → Thrifty host now s b (request_verification s j a p revision contract digest)
  unfolding request_verification
  request_verification-Thrifty j a p revision contract digest =
      Ensures->>= _
        (found p.verification_id verification_required
          "Successful execution requires verification identifiers")
        _
        λ v f.
          Ensures->>= _
            (found p.verification_outbox_id verification_required
              "Successful execution requires verification identifiers")
            _
            λ o g. Ensures->> _ _ _ (
              Ensures->>= _ (found (get j.run_id s.runs) run_not_found "Run does not exist") _
                λ r h.
                  Ensures->>= _
                    (found (get (workflow_key r.workflow_id r.workflow_version) s.workflows)
                      workflow_not_found "Workflow version does not exist")
                    _
                    λ w k.
                      Thrifty-allowed host now s b _ _ _ (
                        verification_request_events-AllAllowed j a r w v o revision contract
                          digest))

  pub observe_success-Thrifty :
      (j : JobState) (a : AttemptState) (p : ObserveAttempt)
      → Thrifty host now s b (observe_success s j a p)
  unfolding observe_success
  observe_success-Thrifty j a p = elim (Option-cases j.source_revision_id) [
    | inl e ↦ rw (observe_success, e) (unverified_success-Thrifty j a p.detail)
    | inr (revision, e) ↦ elim (Option-cases j.verifier_contract) [
      | inl f ↦ rw (observe_success, e, f) (unverified_success-Thrifty j a p.detail)
      | inr (contract, f) ↦ elim (Option-cases j.verifier_contract_digest) [
        | inl g ↦ rw (observe_success, e, f, g) (unverified_success-Thrifty j a p.detail)
        | inr (digest, g) ↦
            rw (observe_success, e, f, g)
              (request_verification-Thrifty j a p revision contract digest)
      ]
    ]
  ]

  pub outcome-Thrifty :
      (p : ObserveAttempt) (j : JobState) (a : AttemptState)
      → get p.job_id s.jobs ≡ some j
      → Thrifty host now s b (
          if p.succeeded
          then observe_success s j a p
          else accept
              (failure_transition_events host s j a FailureReason.driver_error now p.detail none)
              ResultKind.job
              j.job_id)
  unfolding observe_success
  outcome-Thrifty p j a e = elim (Bool-cases p.succeeded) [
    | inl won ↦ rw won (observe_success-Thrifty j a p)
    | inr lost ↦
        rw lost (failure-Thrifty p.job_id j a FailureReason.driver_error p.detail ResultKind.job e)
  ]

  pub attempt_observe-Thrifty :
      (p : ObserveAttempt) → Thrifty host now s b (attempt_observe host s p now)
  unfolding attempt_observe
  attempt_observe-Thrifty p =
      Ensures->>= _ (active_lease_attempt s p.job_id p.attempt_id p.owner_id p.fencing_token now) _
        λ (j, x) e. Ensures->> _ _ _ (
          Ensures->> _ _ _ (
            outcome-Thrifty p j x (
              Ensures-inv _ _ (j, x)
                (active_lease_attempt-found p.job_id p.attempt_id p.owner_id p.fencing_token) e)))
