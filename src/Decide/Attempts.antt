-- ===== src/Decide/Attempts.antt =====
-- `attempt.observe` and `attempt.timeout` of `decide`, packages/kernel/src/domain.ts.
use parallelplay.Prelude.{
  ℕ, Bool, true, false, not, ◌&&◌, ◌||◌, Option, none, some, List, [], ◌∷◌, ◌++◌, String, Uuid, Map,
  get, has, values, all, filter, same, same_option, if◌then◌else◌,
}
use parallelplay.Canonical.{Host}
use parallelplay.Evolve.{workflow_key}
use parallelplay.Model.{
  ProjectionState, JobState, JobStatus, AttemptState, AttemptStatus, RunState, WorkflowState,
  VerifierContract, TerminationReason, DomainEvent, is_terminal_attempt, verification_run,
  attempt_event, job_event, run_event, verification_event, attempt_finished,
  attempt_verification_requested, verification_requested, job_succeeded, job_unblocked,
  run_succeeded,
}
use parallelplay.Decide.Answers.{
  Result, Decision, ok, ◌>>=◌, ◌>>◌, fail_if, found, accept, job, job_not_found, attempt_not_found,
  attempt_terminal, attempt_not_active, verification_required, verification_not_active,
  run_not_found, workflow_not_found,
}
use parallelplay.Decide.Leases.{at_or_before, validate_job_lease}
use parallelplay.Decide.Reasons.{FailureReason}
use parallelplay.Decide.Failures.{enqueue, failure_transition_events, truthy}

abbrev pub is_succeeded : JobStatus → Bool
is_succeeded JobStatus.succeeded = true
is_succeeded _ = false

abbrev pub is_blocked : JobStatus → Bool
is_blocked JobStatus.blocked = true
is_blocked _ = false

abbrev pub has_succeeded : Option JobState → Bool
has_succeeded none = false
has_succeeded (some j) = is_succeeded j.status

-- A blocked job of the run, each of whose dependencies is the finished job or has succeeded.
unfoldable pub is_unblocked_by : Map JobState → JobState → JobState → Bool
is_unblocked_by jobs j candidate =
    same candidate.run_id j.run_id
    && is_blocked candidate.status
    && all (λ id. same id j.job_id || has_succeeded (get id jobs)) candidate.dependency_job_ids

unfoldable pub unblock_events : Map JobState → JobState → List JobState → List DomainEvent
unblock_events jobs j [] = []
unblock_events jobs j (c ∷ cs) =
    let rest = unblock_events jobs j cs in
    if is_unblocked_by jobs j c then job_event (job_unblocked c.job_id c.run_id) ∷ rest else rest

-- Every job of the run is the finished job or has succeeded.
unfoldable pub run_is_done : List JobState → JobState → Bool
run_is_done jobs j =
    all (λ c. same c.job_id j.job_id || is_succeeded c.status)
      (filter (λ c. same c.run_id j.run_id) jobs)

-- A succeeded job, the jobs that waited for it, and the run if it was the last.
unfoldable pub success_events : ProjectionState → JobState → List DomainEvent
success_events state j =
    job_event (job_succeeded j.job_id j.run_id)
    ∷ (unblock_events state.jobs j (values state.jobs)
        ++ (if run_is_done (values state.jobs) j
            then run_event (run_succeeded j.run_id) ∷ []
            else []))

pub record ObserveAttempt : Type 0 where
  pub job_id : Uuid
  pub attempt_id : Uuid
  pub owner_id : Uuid
  pub fencing_token : ℕ
  pub succeeded : Bool
  pub detail : Option String
  pub verification_id : Option Uuid
  pub verification_outbox_id : Option Uuid

-- What `attempt.observe` and `attempt.timeout` check alike.
unfoldable pub active_lease_attempt :
    ProjectionState → Uuid → Uuid → Uuid → ℕ → ℕ → Result (JobState × AttemptState)
active_lease_attempt state job_id attempt_id owner_id fencing_token now = do
  j ← found (get job_id state.jobs) job_not_found "Job does not exist"
  validate_job_lease j owner_id fencing_token now
  attempt ← found (get attempt_id state.attempts) attempt_not_found "Attempt does not exist"
  fail_if (is_terminal_attempt attempt.status) attempt_terminal "Attempt is already terminal"
  fail_if
      (not (same_option j.active_attempt_id attempt.attempt_id)
        || not (same_option attempt.job_id j.job_id))
      attempt_not_active "Attempt is not active for this job"
  ok (j, attempt)

unfoldable pub attempt_timeout : Host → ProjectionState → Uuid → Uuid → Uuid → ℕ → ℕ → Decision
attempt_timeout host state job_id attempt_id owner_id fencing_token now =
    active_lease_attempt state job_id attempt_id owner_id fencing_token now >>= λ (j, attempt). do
      fail_if (elim attempt.deadline_at [ none ↦ true | some t ↦ not (at_or_before t now) ])
          attempt_not_active "Attempt deadline has not elapsed"
      accept (failure_transition_events host state j attempt FailureReason.timed_out now none none)
          job j.job_id

abbrev is_running : AttemptStatus → Bool
is_running AttemptStatus.running = true
is_running _ = false

-- The revision and the verifier of a job that is to be verified.
abbrev pub verifies : JobState → Option (Uuid × VerifierContract × String)
verifies j = elim j.source_revision_id [
  | none ↦ none
  | some revision ↦ elim j.verifier_contract [
    | none ↦ none
    | some contract ↦ elim j.verifier_contract_digest [
      | none ↦ none
      | some digest ↦ some (revision, contract, digest)
    ]
  ]
]

-- The hand-over of an attempt to the verifier.
unfoldable pub verification_request_events :
    JobState
    → AttemptState
    → RunState
    → WorkflowState
    → Uuid
    → Uuid
    → Uuid
    → VerifierContract
    → String
    → List DomainEvent
unfolding enqueue
verification_request_events j attempt r w verification_id outbox_id revision contract digest =
    attempt_event
      (attempt_verification_requested attempt.attempt_id j.job_id j.run_id verification_id)
    ∷ verification_event (
        verification_requested (record {
          verification_id = verification_id;
          run_id = j.run_id;
          job_id = j.job_id;
          attempt_id = attempt.attempt_id;
          workflow_id = r.workflow_id;
          workflow_version = r.workflow_version;
          workflow_digest = w.definition_digest;
          source_revision_id = revision;
          verifier_contract_digest = digest;
        }))
    ∷ enqueue outbox_id j attempt (
        verification_run (record {
          verification_id = verification_id;
          source_revision_id = revision;
          workflow_id = r.workflow_id;
          workflow_version = r.workflow_version;
          workflow_digest = w.definition_digest;
          verifier_contract = contract;
          verifier_contract_digest = digest;
          attempt_id = attempt.attempt_id;
          job_id = j.job_id;
          run_id = j.run_id;
        }))
    ∷ []

unfoldable pub request_verification :
    ProjectionState
    → JobState
    → AttemptState
    → ObserveAttempt
    → Uuid
    → VerifierContract
    → String
    → Decision
request_verification state j attempt p revision contract digest = do
  verification_id ←
      found p.verification_id verification_required
        "Successful execution requires verification identifiers"
  outbox_id ←
      found p.verification_outbox_id verification_required
        "Successful execution requires verification identifiers"
  fail_if (has verification_id state.verifications || has outbox_id state.outbox)
      verification_not_active "Verification identifier already exists"
  r ← found (get j.run_id state.runs) run_not_found "Run does not exist"
  w ←
      found (get (workflow_key r.workflow_id r.workflow_version) state.workflows) workflow_not_found
        "Workflow version does not exist"
  accept
      (verification_request_events j attempt r w verification_id outbox_id revision contract digest)
      job j.job_id

-- A success without a verifier finishes the job at once.
unfoldable pub unverified_success :
    ProjectionState → JobState → AttemptState → Option String → Decision
unverified_success state j attempt detail =
    accept
      (attempt_event (
          attempt_finished attempt.attempt_id j.job_id j.run_id AttemptStatus.succeeded
            TerminationReason.completed (truthy detail))
        ∷ success_events state j)
      job j.job_id

unfoldable pub observe_success :
    ProjectionState → JobState → AttemptState → ObserveAttempt → Decision
unfolding request_verification unverified_success
observe_success state j attempt p = elim (verifies j) [
  | none ↦ unverified_success state j attempt p.detail
  | some (revision, contract, digest) ↦
      request_verification state j attempt p revision contract digest
]

unfoldable pub attempt_observe : Host → ProjectionState → ObserveAttempt → ℕ → Decision
unfolding observe_success
attempt_observe host state p now =
    active_lease_attempt state p.job_id p.attempt_id p.owner_id p.fencing_token now
    >>= λ (j, attempt). do
      fail_if (elim attempt.deadline_at [ none ↦ false | some t ↦ at_or_before t now ])
          attempt_not_active "Attempt deadline has elapsed"
      fail_if (not (is_running attempt.status)) attempt_not_active
          "Attempt has not started in the driver"
      if p.succeeded
          then observe_success state j attempt p
          else accept
              (failure_transition_events host state j attempt FailureReason.driver_error now
                p.detail none)
              job j.job_id
