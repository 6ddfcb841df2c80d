-- ===== src/Decide/Jobs.antt =====
-- The job lease commands of `decide`, packages/kernel/src/domain.ts.
use parallelplay.Prelude.{
  ℕ, ◌+◌, Bool, true, false, not, ◌&&◌, ◌||◌, Option, none, some, List, [], ◌∷◌, ◌++◌, Uuid, get,
  has, is_some, same, same_option, if◌then◌else◌,
}
use mathlib.Core.Option
use parallelplay.Canonical.{Host, canonical_digest}
use parallelplay.Evolve.{has_protocol}
use parallelplay.Model.{
  ProjectionState, JobState, JobStatus, RunState, RunStatus, AttemptState, AttemptStatus,
  ContextPacketState, AgentStart, Driver, DomainEvent, is_terminal_run, agent_start, run_event,
  job_event, attempt_event, run_started, job_lease_acquired, job_lease_renewed, job_lease_released,
  attempt_started,
}
use parallelplay.Decide.Answers.{
  Result, Decision, ◌>>=◌, ◌>>◌, fail_if, found, accept, job, job_not_found, job_not_claimable,
  job_lease_conflict, evidence_digest_mismatch,
}
use parallelplay.Decide.Leases.{add_milliseconds, at_or_before, validate_job_lease}
use parallelplay.Decide.Failures.{enqueue}

pub record AcquireJobLease : Type 0 where
  pub job_id : Uuid
  pub owner_id : Uuid
  pub lease_duration_ms : ℕ
  pub attempt_id : Uuid
  pub start_outbox_id : Uuid

-- An active job whose attempt a new owner takes over.
abbrev pub is_resuming : JobState → Bool
is_resuming j = elim j.status [ JobStatus.active ↦ is_some j.active_attempt_id | _ ↦ false ]

abbrev pub is_waiting : JobStatus → Bool
is_waiting JobStatus.ready = true
is_waiting JobStatus.retry_wait = true
is_waiting _ = false

abbrev pub is_claimable : ℕ → JobState → Bool
is_claimable now j =
    is_waiting j.status && at_or_before j.available_at now && not (is_some j.active_attempt_id)

abbrev pub is_held : ℕ → Option ℕ → Bool
is_held now none = false
is_held now (some t) = not (at_or_before t now)

-- The lease guards: a held lease, and a job that is not ready.
unfoldable pub check_claim : ProjectionState → JobState → AcquireJobLease → ℕ → Result (Unit {0})
check_claim state j p now =
    if is_resuming j
    then fail_if (is_held now j.lease_expires_at) job_lease_conflict
        "Job already has an active lease"
    else do
      fail_if (not (is_claimable now j)) job_not_claimable "Job is not ready to be claimed"
      fail_if (has p.attempt_id state.attempts || has p.start_outbox_id state.outbox)
          job_not_claimable "Attempt or outbox identifier already exists"

unfoldable pub job_packet : ProjectionState → JobState → Option ContextPacketState
job_packet state j = elim j.context_packet_id [
  | none ↦ none
  | some id ↦ get id state.context_packets
]

unfoldable pub packet_is_valid : Host → JobState → Option ContextPacketState → Bool
packet_is_valid host j none = false
packet_is_valid host j (some p) =
    same_option j.context_packet_digest p.packet_digest
    && same (canonical_digest host p.packet) p.packet_digest

new_attempt : AcquireJobLease → JobState → ℕ → AttemptState
new_attempt p j now = record {
  attempt_id = p.attempt_id;
  run_id = j.run_id;
  job_id = some j.job_id;
  ordinal = j.attempt_count + 1;
  status = AttemptStatus.starting;
  allocated_at = now;
  started_at = some now;
  deadline_at = some (add_milliseconds now j.policy.attempt_timeout_ms);
  external_run_id = none;
  driver_cursor = 0;
  cumulative_usage = none;
  candidate_revision_id = none;
  driver_receipt_id = none;
  finished_at = none;
  cancelled_at = none;
  cancellation_reason = none;
  termination_reason = none;
  version = 1;
}

start_effect : AcquireJobLease → JobState → Option ContextPacketState → ℕ → AgentStart
start_effect p j packet now = record {
  driver = if is_some j.execution_contract then Driver.generic_command else Driver.fake;
  capability = j.capability;
  attempt_id = p.attempt_id;
  attempt_started_at = some now;
  job_id = j.job_id;
  run_id = j.run_id;
  base_revision_id = j.source_revision_id;
  execution_contract = j.execution_contract;
  execution_contract_digest = j.execution_contract_digest;
  capability_manifest = j.capability_manifest;
  capability_manifest_digest = j.capability_manifest_digest;
  context_packet = Option.map (λ c. c.packet) packet;
  context_packet_digest = Option.map (λ c. c.packet_digest) packet;
}

-- The first claim of an attempt starts it and asks the driver for it.
unfoldable pub start_events :
    AcquireJobLease → JobState → Option ContextPacketState → ℕ → List DomainEvent
unfolding new_attempt start_effect enqueue
start_events p j packet now =
    attempt_event (
      attempt_started p.attempt_id j.job_id j.run_id (j.attempt_count + 1)
        (add_milliseconds now j.policy.attempt_timeout_ms))
    ∷ enqueue p.start_outbox_id j (new_attempt p j now) (agent_start (start_effect p j packet now))
    ∷ []

abbrev pub is_scheduled : RunStatus → Bool
is_scheduled RunStatus.scheduled = true
is_scheduled _ = false

unfoldable pub acquire_events :
    RunState → JobState → AcquireJobLease → Option ContextPacketState → ℕ → List DomainEvent
unfolding start_events
acquire_events r j p packet now =
    (if is_scheduled r.status then run_event (run_started r.run_id) ∷ [] else [])
    ++ (job_event (
          job_lease_acquired j.job_id j.run_id p.owner_id (j.lease_fencing_token + 1)
            (add_milliseconds now p.lease_duration_ms) (is_resuming j))
        ∷ (if is_resuming j then [] else start_events p j packet now))

unfoldable pub open_run : Option RunState → Option RunState
open_run none = none
open_run (some r) = if is_terminal_run r.status then none else some r

unfoldable pub job_lease_acquire : Host → ProjectionState → AcquireJobLease → ℕ → Decision
unfolding job_packet packet_is_valid open_run
job_lease_acquire host state p now = do
  j ← found (get p.job_id state.jobs) job_not_found "Job does not exist"
  r ←
      found (open_run (get j.run_id state.runs)) job_not_claimable
        "Job belongs to a terminal or missing run"
  check_claim state j p now
  fail_if (has_protocol 2 j.execution_contract && not (packet_is_valid host j (job_packet state j)))
      evidence_digest_mismatch "Job context packet is missing or invalid"
  accept (acquire_events r j p (job_packet state j) now) job j.job_id

unfoldable pub job_lease_renew : ProjectionState → Uuid → Uuid → ℕ → ℕ → ℕ → Decision
job_lease_renew state job_id owner_id fencing_token lease_duration_ms now = do
  j ← found (get job_id state.jobs) job_not_found "Job does not exist"
  validate_job_lease j owner_id fencing_token now
  accept
      (job_event (
          job_lease_renewed j.job_id j.run_id owner_id fencing_token
            (add_milliseconds now lease_duration_ms))
        ∷ [])
      job j.job_id

unfoldable pub job_lease_release : ProjectionState → Uuid → Uuid → ℕ → ℕ → Decision
job_lease_release state job_id owner_id fencing_token now = do
  j ← found (get job_id state.jobs) job_not_found "Job does not exist"
  validate_job_lease j owner_id fencing_token now
  accept (job_event (job_lease_released j.job_id j.run_id owner_id fencing_token) ∷ []) job j.job_id
