-- ===== src/Evolve/Apply.antt =====
-- `evolve` of packages/kernel/src/model.ts over the whole state.
use parallelplay.Prelude.{
  ℕ, Option, none, some, String, Uuid, set, same, if◌then◌else◌, ◌==◌, join, ◌>>=◌, decimal,
}
use parallelplay.Canonical.{Host}
use parallelplay.Evidence.{source_revision_digest, artifact_manifest_digest}
use parallelplay.Model.{
  ProjectionState, DomainEvent, Stamp, WorkflowDefinition, SourceRevision, ArtifactManifest,
  run_event, attempt_event, job_event, outbox_event, verification_event, workflow_registered,
  source_revision_registered, artifact_manifest_recorded, program_created,
}
use parallelplay.Evolve.Runs.{evolve_run}
use parallelplay.Evolve.Attempts.{evolve_attempt}
use parallelplay.Evolve.Jobs.{evolve_job, evolve_attempt_job}
use parallelplay.Evolve.Outbox.{evolve_outbox}
use parallelplay.Evolve.Verifications.{evolve_verification}

unfoldable pub workflow_key : Uuid → ℕ → String
workflow_key workflow_id version = join workflow_id (join ":" (decimal version))

evolve_workflow : Stamp → WorkflowDefinition → String → ProjectionState → Option ProjectionState
evolve_workflow t d definition_digest s =
    if t.stream_version == d.version
    then some (record s {
      workflows =
          set (workflow_key d.workflow_id d.version)
            (record {
              workflow_id = d.workflow_id;
              version = d.version;
              name = d.name;
              definition = d;
              definition_digest = definition_digest;
              registered_at = t.occurred_at;
              stream_version = t.stream_version;
            })
            s.workflows;
    })
    else none

evolve_source_revision : Host → SourceRevision → ProjectionState → Option ProjectionState
evolve_source_revision host r s =
    if same r.revision_digest (source_revision_digest host r)
    then some (record s { source_revisions = set r.revision_id r s.source_revisions })
    else none

evolve_artifact_manifest : Host → ArtifactManifest → ProjectionState → Option ProjectionState
evolve_artifact_manifest host m s =
    if same m.manifest_digest (artifact_manifest_digest host m.entries)
    then some (record s { artifact_manifests = set m.artifact_manifest_id m s.artifact_manifests })
    else none

evolve_program : Stamp → Uuid → String → ProjectionState → Option ProjectionState
evolve_program t program_id name s = some (record s {
  programs =
      set program_id
        (record {
          program_id = program_id;
          name = name;
          created_at = t.occurred_at;
          version = t.stream_version;
        })
        s.programs;
})

-- The `switch` of `evolve`.
unfoldable pub evolve_data : Host → Stamp → DomainEvent → ProjectionState → Option ProjectionState
unfolding evolve_workflow evolve_source_revision evolve_artifact_manifest evolve_program
evolve_data host t (run_event e) s = do
  runs ← evolve_run t e s.runs
  some (record s { runs = runs })
evolve_data host t (attempt_event e) s = do
  attempts ← evolve_attempt t e s.attempts
  jobs ← evolve_attempt_job e s.jobs
  some (record s { attempts = attempts; jobs = jobs })
evolve_data host t (job_event e) s = do
  jobs ← evolve_job s.context_packets t e s.jobs
  some (record s { jobs = jobs })
evolve_data host t (outbox_event e) s = do
  outbox ← evolve_outbox t e s.outbox
  some (record s { outbox = outbox })
evolve_data host t (verification_event e) s = do
  verifications ← evolve_verification host s.artifact_manifests t e s.verifications
  some (record s { verifications = verifications })
evolve_data host t (workflow_registered d definition_digest) s =
    evolve_workflow t d definition_digest s
evolve_data host t (source_revision_registered r) s = evolve_source_revision host r s
evolve_data host t (artifact_manifest_recorded m) s = evolve_artifact_manifest host m s
evolve_data host t (program_created program_id name) s = evolve_program t program_id name s

-- `evolve(state, event)`, which also moves `lastAppliedPosition`.
unfoldable pub evolve : Host → ProjectionState → Stamp → DomainEvent → Option ProjectionState
evolve host s t e = do
  next ← evolve_data host t e s
  some (record next { last_applied_position = t.global_position })
