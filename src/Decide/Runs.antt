-- ===== src/Decide/Runs.antt =====
-- The program, workflow and run commands of `decide`, packages/kernel/src/domain.ts.
use parallelplay.Prelude.{
  ℕ, ◌+◌, max, Bool, true, false, not, ◌||◌, Option, none, some, List, [], ◌∷◌, ◌++◌, map, String,
  Uuid, Map, get, set, has, values, any, length, is_some, same, ltb, ◌==◌, if◌then◌else◌,
}
use parallelplay.Canonical.{Host, canonical_digest}
use parallelplay.Evolve.{workflow_key}
use parallelplay.Model.{
  ProjectionState, WorkflowDefinition, WorkflowState, WorkflowStep, RunState, RunStatus, JobPolicy,
  VerifierContract, ExecutionContract, CapabilityManifest, JobStatus, DomainEvent, JobSchedule,
  run_event, job_event, workflow_registered, program_created, run_created, run_scheduled,
  job_scheduled,
}
use parallelplay.Decide.Answers.{
  Result, ok, thrown, DomainErrorCode, Decision, ◌>>=◌, ◌>>◌, fail_if, found, accept, workflow, run,
  program, program_already_exists, workflow_version_conflict, run_already_exists, program_not_found,
  workflow_not_found, run_not_found, run_already_scheduled, run_not_schedulable,
  legacy_active_attempt, verification_required, schedule_mismatch, source_revision_not_found,
}
use parallelplay.Decide.Failures.{cancellation_for_run, is_legacy_active}

unfoldable pub versions_of : Uuid → List WorkflowState → List ℕ
versions_of workflow_id [] = []
versions_of workflow_id (w ∷ ws) =
    if same w.workflow_id workflow_id
    then w.version ∷ versions_of workflow_id ws
    else versions_of workflow_id ws

-- `Math.max(...versions)` of a list that is not empty.
unfoldable pub largest : ℕ → List ℕ → ℕ
largest n [] = n
largest n (m ∷ ms) = largest (max n m) ms

unfoldable pub expected_version : List ℕ → ℕ
unfolding largest
expected_version [] = 1
expected_version (v ∷ vs) = largest v vs + 1

-- The version that a registration must carry: one after the largest, or the first.
unfoldable pub next_version : ProjectionState → Uuid → ℕ
unfolding versions_of expected_version
next_version state workflow_id = expected_version (versions_of workflow_id (values state.workflows))

unfoldable pub workflow_register : Host → ProjectionState → WorkflowDefinition → Decision
workflow_register host state definition = do
  fail_if (not (definition.version == next_version state definition.workflow_id))
      workflow_version_conflict "Workflow versions must be registered sequentially"
  accept (workflow_registered definition (canonical_digest host definition.document) ∷ []) workflow
      (workflow_key definition.workflow_id definition.version)

unfoldable pub program_create : ProjectionState → Uuid → String → Decision
program_create state program_id name = do
  fail_if (has program_id state.programs) program_already_exists "Program already exists"
  accept (program_created program_id name ∷ []) program program_id

unfoldable pub check_new_run : ProjectionState → Uuid → Uuid → Uuid → ℕ → Result (Unit {0})
check_new_run state run_id program_id workflow_id workflow_version = do
  fail_if (has run_id state.runs) run_already_exists "Run already exists"
  fail_if (not (has program_id state.programs)) program_not_found "Program does not exist"
  fail_if (not (has (workflow_key workflow_id workflow_version) state.workflows)) workflow_not_found
      "Workflow version does not exist"

unfoldable pub run_create : ProjectionState → Uuid → Uuid → Uuid → ℕ → Decision
run_create state run_id program_id workflow_id workflow_version = do
  check_new_run state run_id program_id workflow_id workflow_version
  accept (run_event (run_created run_id program_id workflow_id workflow_version) ∷ []) run run_id

-- RunScheduleJobSchema
pub record ScheduleJob : Type 0 where
  pub job_id : Uuid
  pub step_id : String
  pub policy : JobPolicy
  pub source_revision_id : Option Uuid

-- The members of `new Set(xs)`.
unfoldable pub distinct : List String → List String
distinct [] = []
distinct (x ∷ xs) = if any (same x) xs then distinct xs else x ∷ distinct xs

-- `new Map(jobs.map((job) => [job.stepId, job]))`
unfoldable pub by_step : List ScheduleJob → Map ScheduleJob → Map ScheduleJob
by_step [] m = m
by_step (j ∷ js) m = by_step js (set j.step_id j m)

unfoldable pub is_mismatch : ProjectionState → WorkflowDefinition → List ScheduleJob → Bool
unfolding distinct
is_mismatch state definition jobs =
    let job_ids = distinct (map (λ (j : ScheduleJob). j.job_id) jobs) in
    let step_ids = distinct (map (λ (j : ScheduleJob). j.step_id) jobs) in
    let expected = distinct (map (λ (s : WorkflowStep). s.id) definition.steps) in
    not (length job_ids == length jobs)
    || not (length step_ids == length jobs)
    || not (length step_ids == length expected)
    || any (λ step_id. not (any (same step_id) step_ids)) expected
    || any (λ job_id. has job_id state.jobs) job_ids

unfoldable pub timeout_fits : Option VerifierContract → ℕ → Bool
timeout_fits none limit = false
timeout_fits (some v) limit = not (ltb limit v.timeout_ms)

unfoldable pub check_step : ProjectionState → Map ScheduleJob → WorkflowStep → Result (Unit {0})
unfolding timeout_fits
check_step state jobs step = do
  job ←
      found (get step.id jobs) verification_required
        "Every scheduled job requires a source revision"
  revision_id ←
      found job.source_revision_id verification_required
        "Every scheduled job requires a source revision"
  fail_if (not (has revision_id state.source_revisions)) source_revision_not_found
      "Scheduled source revision does not exist"
  fail_if (not (timeout_fits step.verification job.policy.attempt_timeout_ms)) verification_required
      "Verifier timeout must fit within the attempt timeout"

unfoldable pub check_steps :
    ProjectionState → Map ScheduleJob → List WorkflowStep → Result (Unit {0})
unfolding check_step
check_steps state jobs [] = ok tt
check_steps state jobs (s ∷ ss) =
    let rest = check_steps state jobs ss in do check_step state jobs s; rest

-- `throw new Error(...)` at a lookup that the checks should have settled.
abbrev pub required {ℓ} : {A : Type ℓ} → Option A → String → Result A
required none m = thrown m
required (some a) m = ok a

unfoldable pub dependency_jobs : Map ScheduleJob → List String → Result (List Uuid)
dependency_jobs jobs [] = ok []
dependency_jobs jobs (d ∷ ds) =
    let rest = dependency_jobs jobs ds in
    do job ← required (get d jobs) "Missing dependency job"; ids ← rest; ok (job.job_id ∷ ids)

abbrev is_empty {ℓ} : {A : Type ℓ} → List A → Bool
is_empty [] = true
is_empty (x ∷ xs) = false

digest_execution : Host → Option ExecutionContract → Option String
digest_execution host none = none
digest_execution host (some c) = some (canonical_digest host c.document)

digest_capabilities : Host → Option CapabilityManifest → Option String
digest_capabilities host none = none
digest_capabilities host (some c) = some (canonical_digest host c.document)

digest_verifier : Host → Option VerifierContract → Option String
digest_verifier host none = none
digest_verifier host (some c) = some (canonical_digest host c.document)

-- The data of the `JobScheduled` event of one step.
unfoldable pub job_schedule : Host → Uuid → WorkflowStep → ScheduleJob → List Uuid → JobSchedule
unfolding digest_execution digest_capabilities digest_verifier
job_schedule host run_id step job dependency_job_ids = record {
  job_id = job.job_id;
  run_id = run_id;
  step_id = step.id;
  capability = step.capability;
  dependency_job_ids = dependency_job_ids;
  initial_status = if is_empty step.depends_on then JobStatus.ready else JobStatus.blocked;
  policy = job.policy;
  source_revision_id = job.source_revision_id;
  execution_contract = step.execution;
  execution_contract_digest = digest_execution host step.execution;
  capability_manifest = step.capabilities;
  capability_manifest_digest = digest_capabilities host step.capabilities;
  context_packet_id = none;
  context_packet_digest = none;
  verifier_contract = step.verification;
  verifier_contract_digest = digest_verifier host step.verification;
}

unfoldable pub schedule_step : Host → Uuid → Map ScheduleJob → WorkflowStep → Result JobSchedule
unfolding dependency_jobs job_schedule
schedule_step host run_id jobs step = do
  job ← required (get step.id jobs) "Missing validated job"
  dependency_job_ids ← dependency_jobs jobs step.depends_on
  ok (job_schedule host run_id step job dependency_job_ids)

unfoldable pub schedule_steps :
    Host → Uuid → Map ScheduleJob → List WorkflowStep → Result (List DomainEvent)
unfolding schedule_step
schedule_steps host run_id jobs [] = ok []
schedule_steps host run_id jobs (s ∷ ss) =
    let rest = schedule_steps host run_id jobs ss in
    do
      schedule ← schedule_step host run_id jobs s
      events ← rest
      ok (job_event (job_scheduled schedule) ∷ events)

abbrev is_created : RunStatus → Bool
is_created RunStatus.created = true
is_created _ = false

not_created_code : RunStatus → DomainErrorCode
not_created_code RunStatus.scheduled = run_already_scheduled
not_created_code RunStatus.running = run_already_scheduled
not_created_code _ = run_not_schedulable

unfoldable pub check_schedulable : ProjectionState → RunState → Result (Unit {0})
unfolding not_created_code
check_schedulable state r = do
  fail_if (not (is_created r.status)) (not_created_code r.status)
      "Run cannot be scheduled from its current state"
  fail_if (any (is_legacy_active r.run_id) (values state.attempts)) legacy_active_attempt
      "Run has an active legacy attempt"

unfoldable pub check_schedule :
    ProjectionState → WorkflowDefinition → List ScheduleJob → Result (Unit {0})
unfolding is_mismatch by_step check_steps
check_schedule state definition jobs = do
  fail_if (any (λ step. not (is_some step.verification)) definition.steps) verification_required
      "Fresh schedules require verification-enabled workflow steps"
  fail_if (is_mismatch state definition jobs) schedule_mismatch
      "Schedule must contain one unique job for every workflow step"
  check_steps state (by_step jobs []) definition.steps

unfoldable pub run_schedule : Host → ProjectionState → Uuid → List ScheduleJob → Decision
unfolding by_step schedule_steps
run_schedule host state run_id jobs = do
  r ← found (get run_id state.runs) run_not_found "Run does not exist"
  check_schedulable state r
  w ←
      found (get (workflow_key r.workflow_id r.workflow_version) state.workflows) workflow_not_found
        "Workflow version does not exist"
  check_schedule state w.definition jobs
  events ← schedule_steps host r.run_id (by_step jobs []) w.definition.steps
  accept (events ++ run_event (run_scheduled r.run_id) ∷ []) run r.run_id

unfoldable pub run_cancel : Host → ProjectionState → Uuid → String → Decision
run_cancel host state run_id reason = do
  events ← cancellation_for_run host state run_id reason
  accept events run run_id
