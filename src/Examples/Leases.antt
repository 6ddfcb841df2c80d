-- ===== src/Examples/Leases.antt =====
-- Examples on the claim of a ready job.
use parallelplay.Prelude.{
  ℕ, ◌+◌, ◌≤◌, ◌<◌, ◌≡◌, ◌≢◌, refl, Option, none, some, [], Uuid, get, set, same, amend, arith,
  Bool-cases, inl, inr,
}
use parallelplay.Evolve.{
  has_protocol, evolve, evolve_data, evolve_job, job_change, apply_change, evolve_attempt,
  evolve_attempt_job, evolve_outbox,
}
use parallelplay.Model.{ProjectionState, JobState}
use parallelplay.Decide.{
  Accepted, ok, failure, job_lease_conflict, job_lease_acquire, acquire_events, start_events,
  enqueue, check_claim, job_packet, open_run, ResultKind, validate_job_lease, AcquireJobLease,
}
use parallelplay.Kernel.{Log, append_inputs, acquire_job, decide}
use parallelplay.Lifecycle.Budget.{BudgetHolds}
use parallelplay.Lifecycle.Thrift.{decide-BudgetHolds}
use parallelplay.Lifecycle.Fencing.{
  Held, job_lease_acquire-Held, job_lease_acquire-fences, job_lease_acquire-excludes,
}
use parallelplay.Examples.Setting.{
  state_of, log_of, plain_host, ready_state, ready_job, a_claim, a_run,
}

abbrev the_answer : Accepted
the_answer = record {
  events = acquire_events a_run ready_job a_claim none 2000;
  result_kind = ResultKind.job;
  result_id = "job";
}

abbrev claimed : Option (Log × ProjectionState)
claimed = append_inputs plain_host 2000 the_answer.events [] ready_state

ready_state-BudgetHolds : BudgetHolds ready_state
unfolding get same
ready_state-BudgetHolds = (
  (refl, refl, tt),
  λ i. elim (Bool-cases (same "job" i)) [
    | inl e ↦ rw e (ground arith, λ h. ground arith)
    | inr e ↦ rw e tt
  ],
)

ready_job_there : get a_claim.job_id ready_state.jobs ≡ some ready_job
unfolding get same
ready_job_there = refl

accepted_claim : job_lease_acquire plain_host ready_state a_claim 2000 ≡ ok the_answer
unfolding job_lease_acquire get same check_claim job_packet open_run has_protocol
accepted_claim = refl

applied_claim : claimed ≡ some (log_of claimed, state_of claimed)
unfolding append_inputs acquire_events start_events enqueue evolve evolve_data evolve_job job_change
    apply_change evolve_attempt evolve_attempt_job evolve_outbox get set amend same
applied_claim = refl

same_answer : decide plain_host ready_state (acquire_job a_claim) 2000 ≡ ok the_answer
unfolding decide
same_answer = accepted_claim

decide-BudgetHolds_example : BudgetHolds (state_of claimed)
decide-BudgetHolds_example =
    decide-BudgetHolds plain_host 2000 ready_state (state_of claimed) (acquire_job a_claim)
      the_answer [] (log_of claimed) ready_state-BudgetHolds tt same_answer applied_claim

job_lease_acquire-Held_example : Held a_claim 2000 4 (state_of claimed)
job_lease_acquire-Held_example =
    job_lease_acquire-Held plain_host 2000 [] (log_of claimed) ready_state (state_of claimed)
      a_claim the_answer ready_job ready_state-BudgetHolds.0 ready_job_there accepted_claim
      applied_claim

job_lease_acquire-fences_example :
    (j' : JobState) × (get a_claim.job_id (state_of claimed).jobs ≡ some j')
    × ((owner_id : Uuid) (token later : ℕ)
        → token ≤ 4
        → validate_job_lease j' owner_id token later
          ≡ failure job_lease_conflict "Job lease owner or fencing token does not match")
    × ((later : ℕ)
        → later < 2000 + a_claim.lease_duration_ms
        → validate_job_lease j' a_claim.owner_id (4 + 1) later ≡ ok tt)
job_lease_acquire-fences_example =
    job_lease_acquire-fences plain_host 2000 [] (log_of claimed) ready_state (state_of claimed)
      a_claim the_answer ready_job ready_state-BudgetHolds.0 ready_job_there accepted_claim
      applied_claim

-- The claim of another owner.
abbrev rival : AcquireJobLease
rival = record a_claim { owner_id = "rival"; attempt_id = "another"; start_outbox_id = "second" }

job_lease_acquire-excludes_example :
    job_lease_acquire plain_host (state_of claimed) rival 5000 ≢ ok the_answer
job_lease_acquire-excludes_example =
    job_lease_acquire-excludes plain_host 2000 [] (log_of claimed) ready_state (state_of claimed)
      a_claim rival the_answer 5000 ready_state-BudgetHolds.0 accepted_claim applied_claim refl
      (omega arith) the_answer
