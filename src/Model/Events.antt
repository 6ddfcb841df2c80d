-- ===== src/Model/Events.antt =====
-- The events of packages/kernel/src/schema.ts that the execution kernel emits, by the stream they
-- belong to. Each carries the members of its `EventPayloadSchemas` entry.
use parallelplay.Prelude.{ℕ, Bool, Option, List, String, Uuid}
use parallelplay.Model.Status.{AttemptStatus, JobStatus, TerminationReason, Outcome}
use parallelplay.Model.State.{
  JobPolicy, VerifierContract, ExecutionContract, CapabilityManifest, WorkflowDefinition,
  OutboxEffect, SourceRevision, ArtifactManifest, VerificationRequest, VerificationResult,
}

pub data RunEvent : Type 0 where
  run_created : (run_id program_id workflow_id : Uuid) (workflow_version : ℕ) → RunEvent
  milestone_run_created :
      (run_id program_id workflow_id : Uuid) (workflow_version : ℕ) (milestone_id : Uuid)
      (generation_id : Option Uuid) (generation : Option ℕ)
      → RunEvent
  run_scheduled : (run_id : Uuid) → RunEvent
  run_started : (run_id : Uuid) → RunEvent
  run_succeeded : (run_id : Uuid) → RunEvent
  run_failed : (run_id : Uuid) (reason : String) → RunEvent
  run_cancelled : (run_id : Uuid) (reason : String) → RunEvent

pub data AttemptEvent : Type 0 where
  attempt_allocated : (attempt_id run_id : Uuid) (ordinal : ℕ) → AttemptEvent
  attempt_cancelled : (attempt_id run_id : Uuid) (reason : String) → AttemptEvent
  attempt_started : (attempt_id job_id run_id : Uuid) (ordinal deadline_at : ℕ) → AttemptEvent
  attempt_running : (attempt_id job_id run_id : Uuid) (external_run_id : String) → AttemptEvent
  attempt_verification_requested : (attempt_id job_id run_id verification_id : Uuid) → AttemptEvent
  attempt_finished :
      (attempt_id job_id run_id : Uuid) (status : AttemptStatus) (reason : TerminationReason)
      (detail : Option String)
      → AttemptEvent

pub record JobSchedule : Type 0 where
  pub job_id : Uuid
  pub run_id : Uuid
  pub step_id : String
  pub capability : String
  pub dependency_job_ids : List Uuid
  pub initial_status : JobStatus
  pub policy : JobPolicy
  pub source_revision_id : Option Uuid
  pub execution_contract : Option ExecutionContract
  pub execution_contract_digest : Option String
  pub capability_manifest : Option CapabilityManifest
  pub capability_manifest_digest : Option String
  pub context_packet_id : Option Uuid
  pub context_packet_digest : Option String
  pub verifier_contract : Option VerifierContract
  pub verifier_contract_digest : Option String

pub data JobEvent : Type 0 where
  job_scheduled : JobSchedule → JobEvent
  job_unblocked : (job_id run_id : Uuid) → JobEvent
  job_lease_acquired :
      (job_id run_id owner_id : Uuid) (fencing_token lease_expires_at : ℕ) (resumed : Bool)
      → JobEvent
  job_lease_renewed :
      (job_id run_id owner_id : Uuid) (fencing_token lease_expires_at : ℕ) → JobEvent
  job_lease_released : (job_id run_id owner_id : Uuid) (fencing_token : ℕ) → JobEvent
  job_retry_scheduled : (job_id run_id : Uuid) (available_at : ℕ) (reason : String) → JobEvent
  job_succeeded : (job_id run_id : Uuid) → JobEvent
  job_failed : (job_id run_id : Uuid) (reason : String) → JobEvent
  job_cancelled : (job_id run_id : Uuid) (reason : String) → JobEvent

pub data OutboxEvent : Type 0 where
  outbox_enqueued :
      (outbox_id run_id job_id attempt_id effect_key : Uuid) (effect : OutboxEffect)
      (retry_delays_ms : List ℕ)
      → OutboxEvent
  outbox_lease_acquired :
      (outbox_id run_id owner_id : Uuid) (fencing_token lease_expires_at delivery_attempt : ℕ)
      → OutboxEvent
  outbox_delivery_failed :
      (outbox_id run_id : Uuid) (available_at : Option ℕ) (dead_letter : Bool) (error : String)
      → OutboxEvent
  outbox_delivered : (outbox_id run_id : Uuid) (external_effect_id : String) → OutboxEvent
  outbox_obsoleted : (outbox_id run_id : Uuid) (reason : String) → OutboxEvent

pub record VerificationReceipt : Type 0 where
  pub verification_id : Uuid
  pub run_id : Uuid
  pub job_id : Uuid
  pub attempt_id : Uuid
  pub artifact_manifest_id : Uuid
  pub status : Outcome
  pub result : VerificationResult
  pub result_digest : String
  pub receipt_digest : String
  pub exit_code : Option ℕ
  pub failure_reason : Option String

pub data VerificationEvent : Type 0 where
  verification_requested : VerificationRequest → VerificationEvent
  verification_receipt_recorded : VerificationReceipt → VerificationEvent
  verification_cancelled : (verification_id run_id : Uuid) (reason : String) → VerificationEvent

-- `DomainEventInput`, the stream's kind being the first constructor.
pub data DomainEvent : Type 0 where
  run_event : RunEvent → DomainEvent
  attempt_event : AttemptEvent → DomainEvent
  job_event : JobEvent → DomainEvent
  outbox_event : OutboxEvent → DomainEvent
  verification_event : VerificationEvent → DomainEvent
  workflow_registered : (definition : WorkflowDefinition) (definition_digest : String) → DomainEvent
  source_revision_registered : SourceRevision → DomainEvent
  artifact_manifest_recorded : ArtifactManifest → DomainEvent
  program_created : (program_id : Uuid) (name : String) → DomainEvent

-- What the kernel adds to an event when it stores it.
pub record Stamp : Type 0 where
  pub occurred_at : ℕ
  pub stream_version : ℕ
  pub global_position : ℕ
