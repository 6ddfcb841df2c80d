-- ===== src/Evolve/Jobs.antt =====
-- The job events of `evolve`, packages/kernel/src/model.ts.
use parallelplay.Prelude.{
  ℕ, Bool, true, false, not, ◌&&◌, ◌||◌, Option, none, some, String, Uuid, Map, get, set, amend,
  is_some, same_option, if◌then◌else◌, ◌==◌,
}
use parallelplay.Model.{
  JobStatus, JobState, JobEvent, JobSchedule, Stamp, ContextPacketState, ExecutionContract,
  CapabilityManifest, AttemptEvent, attempt_started, job_scheduled, job_unblocked,
  job_lease_acquired, job_lease_renewed, job_lease_released, job_retry_scheduled, job_succeeded,
  job_failed, job_cancelled,
}

-- `contract?.protocolVersion === n`
unfoldable pub has_protocol : ℕ → Option ExecutionContract → Bool
has_protocol n none = false
has_protocol n (some c) = c.protocol_version == n

has_schema : ℕ → Option CapabilityManifest → Bool
has_schema n none = false
has_schema n (some m) = m.schema_version == n

contract_names : ContextPacketState → Option ExecutionContract → Bool
contract_names p none = false
contract_names p (some c) =
    same_option c.context_packet_id p.context_packet_id
    && same_option c.context_packet_digest p.packet_digest

manifest_names : ContextPacketState → Option CapabilityManifest → Bool
manifest_names p none = false
manifest_names p (some m) =
    m.schema_version == 2
    && same_option m.context_packet_id p.context_packet_id
    && same_option m.context_packet_digest p.packet_digest

look_up : Map ContextPacketState → Option Uuid → Option ContextPacketState
look_up packets none = none
look_up packets (some id) = get id packets

names_packet : JobSchedule → Option ContextPacketState → Bool
unfolding contract_names manifest_names
names_packet d none = false
names_packet d (some p) =
    same_option d.context_packet_digest p.packet_digest
    && contract_names p d.execution_contract
    && manifest_names p d.capability_manifest

-- The check of `JobScheduled`: a protocol 2 job names its context packet, a protocol 1 job none.
unfoldable pub is_bound : Map ContextPacketState → JobSchedule → Bool
unfolding has_protocol has_schema look_up names_packet
is_bound packets d =
    if has_protocol 2 d.execution_contract
    then names_packet d (look_up packets d.context_packet_id)
    else if has_protocol 1 d.execution_contract
    then not (
        is_some d.context_packet_id
        || is_some d.context_packet_digest
        || has_schema 2 d.capability_manifest)
    else true

unfoldable pub new_job : Stamp → JobSchedule → JobState
new_job t d = record {
  job_id = d.job_id;
  run_id = d.run_id;
  step_id = d.step_id;
  capability = d.capability;
  dependency_job_ids = d.dependency_job_ids;
  status = d.initial_status;
  policy = d.policy;
  source_revision_id = d.source_revision_id;
  execution_contract = d.execution_contract;
  execution_contract_digest = d.execution_contract_digest;
  capability_manifest = d.capability_manifest;
  capability_manifest_digest = d.capability_manifest_digest;
  context_packet_id = d.context_packet_id;
  context_packet_digest = d.context_packet_digest;
  verifier_contract = d.verifier_contract;
  verifier_contract_digest = d.verifier_contract_digest;
  candidate_revision_id = none;
  attempt_count = 0;
  active_attempt_id = none;
  available_at = t.occurred_at;
  lease_owner_id = none;
  lease_fencing_token = 0;
  lease_acquired_at = none;
  lease_expires_at = none;
  created_at = t.occurred_at;
  completed_at = none;
  failure_reason = none;
  version = t.stream_version;
}

-- The end of a job: no attempt, no lease.
unfoldable pub finish : Stamp → JobStatus → Option String → JobState → JobState
finish t status reason j = record j {
  status = status;
  active_attempt_id = none;
  lease_owner_id = none;
  lease_acquired_at = none;
  lease_expires_at = none;
  completed_at = some t.occurred_at;
  failure_reason = reason;
  version = t.stream_version;
}

pub data JobChange : Type 0 where
  create : JobSchedule → JobChange
  update : Uuid → (JobState → JobState) → JobChange

-- What each event writes: a new job, or a job read by its identifier and written back.
unfoldable pub job_change : Stamp → JobEvent → JobChange
unfolding finish
job_change t (job_scheduled d) = create d
job_change t (job_unblocked job_id run_id) = update job_id λ j. record j {
  status = JobStatus.ready;
  available_at = t.occurred_at;
  version = t.stream_version;
}
job_change t (job_lease_acquired job_id run_id owner_id fencing_token lease_expires_at resumed) =
    update job_id λ j. record j {
      status = JobStatus.active;
      lease_owner_id = some owner_id;
      lease_fencing_token = fencing_token;
      lease_acquired_at = some t.occurred_at;
      lease_expires_at = some lease_expires_at;
      version = t.stream_version;
    }
job_change t (job_lease_renewed job_id run_id owner_id fencing_token lease_expires_at) =
    update job_id
      λ j. record j { lease_expires_at = some lease_expires_at; version = t.stream_version }
job_change t (job_lease_released job_id run_id owner_id fencing_token) = update job_id λ j.
    record j {
      lease_owner_id = none;
      lease_acquired_at = none;
      lease_expires_at = none;
      version = t.stream_version;
    }
job_change t (job_retry_scheduled job_id run_id available_at reason) = update job_id λ j. record j {
  status = JobStatus.retry_wait;
  active_attempt_id = none;
  available_at = available_at;
  lease_owner_id = none;
  lease_acquired_at = none;
  lease_expires_at = none;
  failure_reason = some reason;
  version = t.stream_version;
}
job_change t (job_succeeded job_id run_id) = update job_id (finish t JobStatus.succeeded none)
job_change t (job_failed job_id run_id reason) =
    update job_id (finish t JobStatus.failed (some reason))
job_change t (job_cancelled job_id run_id reason) =
    update job_id (finish t JobStatus.cancelled (some reason))

unfoldable pub apply_change :
    Map ContextPacketState → Stamp → JobChange → Map JobState → Option (Map JobState)
apply_change packets t (create d) jobs =
    if is_bound packets d then some (set d.job_id (new_job t d) jobs) else none
apply_change packets t (update job_id f) jobs = amend (λ j. j.job_id) job_id f jobs

unfoldable pub evolve_job :
    Map ContextPacketState → Stamp → JobEvent → Map JobState → Option (Map JobState)
unfolding job_change apply_change
evolve_job packets t e jobs = apply_change packets t (job_change t e) jobs

-- `{ ...job, attemptCount: ordinal, activeAttemptId: attemptId }`
abbrev pub begin_attempt : Uuid → ℕ → JobState → JobState
begin_attempt attempt_id ordinal j = record j {
  attempt_count = ordinal;
  active_attempt_id = some attempt_id;
}

-- What an attempt event does to the jobs: `AttemptStarted` makes the attempt its job's active one.
unfoldable pub evolve_attempt_job : AttemptEvent → Map JobState → Option (Map JobState)
evolve_attempt_job (attempt_started attempt_id job_id run_id ordinal deadline_at) jobs =
    amend (λ j. j.job_id) job_id (begin_attempt attempt_id ordinal) jobs
evolve_attempt_job _ jobs = some jobs
