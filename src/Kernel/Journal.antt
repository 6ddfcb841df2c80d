-- ===== src/Kernel/Journal.antt =====
-- The event log: `appendEvent` and `streamVersion` of packages/kernel/src/sqlite-kernel.ts, and
-- `replayEvents` of packages/kernel/src/model.ts, with `loadEvents` of
-- packages/kernel/src/projections.ts.
use parallelplay.Prelude.{
  ℕ, ◌+◌, max, Bool, ◌&&◌, Option, none, some, List, [], ◌∷◌, ◌++◌, String, Uuid, length, same,
  if◌then◌else◌, ◌>>=◌,
}
use parallelplay.Canonical.{Host}
use parallelplay.Evolve.{evolve}
use parallelplay.Kernel.Payloads.{parse_payload}
use parallelplay.Model.{
  ProjectionState, DomainEvent, Stamp, RunEvent, AttemptEvent, JobEvent, OutboxEvent,
  VerificationEvent, run_event, attempt_event, job_event, outbox_event, verification_event,
  workflow_registered, source_revision_registered, artifact_manifest_recorded, program_created,
  run_created, milestone_run_created, run_scheduled, run_started, run_succeeded, run_failed,
  run_cancelled, attempt_allocated, attempt_cancelled, attempt_started, attempt_running,
  attempt_verification_requested, attempt_finished, job_scheduled, job_unblocked,
  job_lease_acquired, job_lease_renewed, job_lease_released, job_retry_scheduled, job_succeeded,
  job_failed, job_cancelled, outbox_enqueued, outbox_lease_acquired, outbox_delivery_failed,
  outbox_delivered, outbox_obsoleted, verification_requested, verification_receipt_recorded,
  verification_cancelled,
}

run_stream : RunEvent → Uuid
run_stream (run_created id p w v) = id
run_stream (milestone_run_created id p w v m g n) = id
run_stream (run_scheduled id) = id
run_stream (run_started id) = id
run_stream (run_succeeded id) = id
run_stream (run_failed id reason) = id
run_stream (run_cancelled id reason) = id

attempt_stream : AttemptEvent → Uuid
attempt_stream (attempt_allocated id r n) = id
attempt_stream (attempt_cancelled id r reason) = id
attempt_stream (attempt_started id j r n d) = id
attempt_stream (attempt_running id j r x) = id
attempt_stream (attempt_verification_requested id j r v) = id
attempt_stream (attempt_finished id j r s reason d) = id

job_stream : JobEvent → Uuid
job_stream (job_scheduled d) = d.job_id
job_stream (job_unblocked id r) = id
job_stream (job_lease_acquired id r o t e b) = id
job_stream (job_lease_renewed id r o t e) = id
job_stream (job_lease_released id r o t) = id
job_stream (job_retry_scheduled id r a reason) = id
job_stream (job_succeeded id r) = id
job_stream (job_failed id r reason) = id
job_stream (job_cancelled id r reason) = id

outbox_stream : OutboxEvent → Uuid
outbox_stream (outbox_enqueued id r j a k e d) = id
outbox_stream (outbox_lease_acquired id r o t e n) = id
outbox_stream (outbox_delivery_failed id r a d e) = id
outbox_stream (outbox_delivered id r x) = id
outbox_stream (outbox_obsoleted id r reason) = id

verification_stream : VerificationEvent → Uuid
verification_stream (verification_requested d) = d.verification_id
verification_stream (verification_receipt_recorded r) = r.verification_id
verification_stream (verification_cancelled id r reason) = id

-- `streamType` and `streamId` of an event.
unfoldable pub stream_of : DomainEvent → String × Uuid
unfolding run_stream attempt_stream job_stream outbox_stream verification_stream
stream_of (run_event e) = ("run", run_stream e)
stream_of (attempt_event e) = ("attempt", attempt_stream e)
stream_of (job_event e) = ("job", job_stream e)
stream_of (outbox_event e) = ("outbox", outbox_stream e)
stream_of (verification_event e) = ("verification", verification_stream e)
stream_of (workflow_registered d digest) = ("workflow", d.workflow_id)
stream_of (source_revision_registered r) = ("source_revision", r.revision_id)
stream_of (artifact_manifest_recorded m) = ("artifact_manifest", m.artifact_manifest_id)
stream_of (program_created id name) = ("program", id)

pub record StoredEvent : Type 0 where
  pub stamp : Stamp
  pub event : DomainEvent

-- The newest event is last.
abbrev pub Log : Type 0
Log = List StoredEvent

unfoldable pub same_stream : String × Uuid → String × Uuid → Bool
same_stream (t, id) (u, id') = same t u && same id id'

-- `COALESCE(MAX(stream_version), 0)` of a stream.
unfoldable pub stream_version : Log → String × Uuid → ℕ
unfolding same_stream
stream_version [] stream = 0
stream_version (x ∷ log) stream =
    if same_stream (stream_of x.event) stream
    then max x.stamp.stream_version (stream_version log stream)
    else stream_version log stream

-- The row that an event becomes: the next position, the next version of its stream.
unfoldable pub store : ℕ → Log → DomainEvent → StoredEvent
store now log e = record {
  stamp = record {
    occurred_at = now;
    stream_version = stream_version log (stream_of e) + 1;
    global_position = length log + 1;
  };
  event = e;
}

-- `appendInputs` where nothing throws: each event is stored, then evolves the state.
unfoldable pub append_inputs :
    Host → ℕ → List DomainEvent → Log → ProjectionState → Option (Log × ProjectionState)
append_inputs host now [] log s = some (log, s)
append_inputs host now (e ∷ es) log s = do
  s' ← evolve host s (store now log e).stamp e
  append_inputs host now es (log ++ store now log e ∷ []) s'

unfoldable pub empty_projection_state : ProjectionState
empty_projection_state = record {
  programs = [];
  workflows = [];
  runs = [];
  attempts = [];
  jobs = [];
  outbox = [];
  source_revisions = [];
  artifact_manifests = [];
  verifications = [];
  context_packets = [];
  last_applied_position = 0;
}

unfoldable pub replay_from : Host → Log → ProjectionState → Option ProjectionState
replay_from host [] s = some s
replay_from host (x ∷ log) s = do s' ← evolve host s x.stamp x.event; replay_from host log s'

unfoldable pub replay_events : Host → Log → Option ProjectionState
replay_events host log = replay_from host log empty_projection_state

-- After a row is inserted: the rows that follow, unless evolving threw.
unfoldable pub append_rest :
    Log
    → Option ProjectionState
    → (ProjectionState → Log × Option ProjectionState)
    → Log × Option ProjectionState
append_rest log none next = (log, none)
append_rest log (some s) next = next s

-- `appendInputs` on the table: the rows that are there when it ends, and the state, which is missing
-- where evolving threw after the last of these rows had been inserted.
unfoldable pub append_events :
    Host → ℕ → List DomainEvent → Log → ProjectionState → Log × Option ProjectionState
unfolding append_rest
append_events host now [] log s = (log, some s)
append_events host now (e ∷ es) log s =
    let log' = log ++ store now log e ∷ [] in
    append_rest log' (evolve host s (store now log e).stamp e) (append_events host now es log')

-- `loadEvents`: every row is read through the schema of its event; `none` where that throws.
unfoldable pub load_events : Host → Log → Option Log
load_events host [] = some []
load_events host (x ∷ log) = do
  found ← parse_payload host x.event
  rest ← load_events host log
  some (record { stamp = x.stamp; event = found } ∷ rest)

-- `replayEvents(loadEvents(database))`
unfoldable pub load_state : Host → Log → Option ProjectionState
load_state host log = do events ← load_events host log; replay_events host events
