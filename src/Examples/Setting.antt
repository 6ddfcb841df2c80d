-- ===== src/Examples/Setting.antt =====
-- The states and commands that the examples run.
use parallelplay.Prelude.{ℕ, Option, none, some, [], ◌∷◌, Uuid, Map}
use parallelplay.Canonical.{Host, Json}
use parallelplay.Model.{
  ProjectionState, JobPolicy, JobState, JobStatus, RunState, RunStatus, AttemptState, AttemptStatus,
  WorkflowState, WorkflowDefinition,
}
use parallelplay.Decide.{AcquireJobLease}
use parallelplay.Kernel.{Request, create_program, Log}

-- A platform whose hash is one text.
abbrev pub plain_host : Host
plain_host = record { sha256 = λ s. "digest" }

abbrev pub a_policy : JobPolicy
a_policy = record { max_attempts = 2; attempt_timeout_ms = 60000; retry_delays_ms = 500 ∷ [] }

-- A job with a status, a number of attempts made, an attempt and a lease.
abbrev pub job_with : JobStatus → ℕ → Option Uuid → JobState
job_with status count attempt = record {
  job_id = "job";
  run_id = "run";
  step_id = "build";
  capability = "build";
  dependency_job_ids = [];
  status = status;
  policy = a_policy;
  source_revision_id = none;
  execution_contract = none;
  execution_contract_digest = none;
  capability_manifest = none;
  capability_manifest_digest = none;
  context_packet_id = none;
  context_packet_digest = none;
  verifier_contract = none;
  verifier_contract_digest = none;
  candidate_revision_id = none;
  attempt_count = count;
  active_attempt_id = attempt;
  available_at = 1000;
  lease_owner_id = none;
  lease_fencing_token = 4;
  lease_acquired_at = none;
  lease_expires_at = none;
  created_at = 1000;
  completed_at = none;
  failure_reason = none;
  version = 1;
}

abbrev pub a_run : RunState
a_run = record {
  run_id = "run";
  program_id = "program";
  workflow_id = "workflow";
  workflow_version = 1;
  milestone_id = none;
  generation_id = none;
  generation = none;
  status = RunStatus.running;
  created_at = 1000;
  scheduled_at = some 1000;
  started_at = some 1000;
  completed_at = none;
  cancelled_at = none;
  cancellation_reason = none;
  failure_reason = none;
  version = 3;
}

abbrev pub an_attempt : AttemptState
an_attempt = record {
  attempt_id = "attempt";
  run_id = "run";
  job_id = some "job";
  ordinal = 2;
  status = AttemptStatus.running;
  allocated_at = 1000;
  started_at = some 1000;
  deadline_at = some 61000;
  external_run_id = none;
  driver_cursor = 0;
  cumulative_usage = none;
  candidate_revision_id = none;
  driver_receipt_id = none;
  finished_at = none;
  cancelled_at = none;
  cancellation_reason = none;
  termination_reason = none;
  version = 2;
}

abbrev pub a_definition : ℕ → WorkflowDefinition
a_definition version = record {
  workflow_id = "workflow";
  version = version;
  name = "release";
  steps = [];
  document = Json.null;
}

abbrev pub a_workflow : WorkflowState
a_workflow = record {
  workflow_id = "workflow";
  version = 1;
  name = "release";
  definition = a_definition 1;
  definition_digest = "digest";
  registered_at = 900;
  stream_version = 1;
}

-- The run with its one job, and the attempts given.
abbrev pub state_with : JobState → Map AttemptState → ProjectionState
state_with j attempts = record {
  programs = [];
  workflows = ("workflow:1", a_workflow) ∷ [];
  runs = ("run", a_run) ∷ [];
  attempts = attempts;
  jobs = ("job", j) ∷ [];
  outbox = [];
  source_revisions = [];
  artifact_manifests = [];
  verifications = [];
  context_packets = [];
  last_applied_position = 6;
}

abbrev pub ready_job : JobState
ready_job = job_with JobStatus.ready 0 none

abbrev pub ready_state : ProjectionState
ready_state = state_with ready_job []

-- The job's second and last attempt is at work.
abbrev pub last_try : JobState
last_try = job_with JobStatus.active 2 (some "attempt")

abbrev pub last_try_state : ProjectionState
last_try_state = state_with last_try (("attempt", an_attempt) ∷ [])

abbrev pub a_claim : AcquireJobLease
a_claim = record {
  job_id = "job";
  owner_id = "owner";
  lease_duration_ms = 30000;
  attempt_id = "attempt";
  start_outbox_id = "outbox";
}

abbrev pub a_request : Request
a_request = record {
  idempotency_key = "key";
  document = Json.text "create";
  command = create_program "program" "Demo";
}

-- The state and the log of a result that is there.
abbrev pub state_of : Option (Log × ProjectionState) → ProjectionState
state_of none = ready_state
state_of (some (log, s)) = s

abbrev pub log_of : Option (Log × ProjectionState) → Log
log_of none = []
log_of (some (log, s)) = log
