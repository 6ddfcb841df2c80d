-- ===== src/Model/State.antt =====
-- The entities of packages/kernel/src/schema.ts, and the maps of `ProjectionState` that the
-- execution kernel reads and writes. A contract, manifest, packet or definition is kept with the
-- members that the kernel reads beside the whole document, which is only hashed or passed on.
use parallelplay.Prelude.{ℕ, Option, List, String, Uuid, Map}
use parallelplay.Canonical.{Json}
use parallelplay.Model.Status.{
  RunStatus, AttemptStatus, JobStatus, OutboxStatus, VerificationStatus, Outcome, TerminationReason,
  Driver, Producer, ObjectFormat,
}

pub record JobPolicy : Type 0 where
  pub max_attempts : ℕ
  pub attempt_timeout_ms : ℕ
  pub retry_delays_ms : List ℕ

pub record VerifierContract : Type 0 where
  pub timeout_ms : ℕ
  pub document : Json

-- Version 2 names the context packet that it is bound to.
pub record ExecutionContract : Type 0 where
  pub protocol_version : ℕ
  pub context_packet_id : Option Uuid
  pub context_packet_digest : Option String
  pub document : Json

pub record CapabilityManifest : Type 0 where
  pub schema_version : ℕ
  pub context_packet_id : Option Uuid
  pub context_packet_digest : Option String
  pub document : Json

pub record ContextPacketState : Type 0 where
  pub context_packet_id : Uuid
  pub packet_digest : String
  pub packet : Json

pub record WorkflowStep : Type 0 where
  pub id : String
  pub capability : String
  pub depends_on : List String
  pub execution : Option ExecutionContract
  pub capabilities : Option CapabilityManifest
  pub verification : Option VerifierContract

pub record WorkflowDefinition : Type 0 where
  pub workflow_id : Uuid
  pub version : ℕ
  pub name : String
  pub steps : List WorkflowStep
  pub document : Json

pub record WorkflowState : Type 0 where
  pub workflow_id : Uuid
  pub version : ℕ
  pub name : String
  pub definition : WorkflowDefinition
  pub definition_digest : String
  pub registered_at : ℕ
  pub stream_version : ℕ

pub record RunState : Type 0 where
  pub run_id : Uuid
  pub program_id : Uuid
  pub workflow_id : Uuid
  pub workflow_version : ℕ
  pub milestone_id : Option Uuid
  pub generation_id : Option Uuid
  pub generation : Option ℕ
  pub status : RunStatus
  pub created_at : ℕ
  pub scheduled_at : Option ℕ
  pub started_at : Option ℕ
  pub completed_at : Option ℕ
  pub cancelled_at : Option ℕ
  pub cancellation_reason : Option String
  pub failure_reason : Option String
  pub version : ℕ

pub record Usage : Type 0 where
  pub cpu_millis : ℕ
  pub memory_peak_bytes : ℕ

pub record AttemptState : Type 0 where
  pub attempt_id : Uuid
  pub run_id : Uuid
  pub job_id : Option Uuid
  pub ordinal : ℕ
  pub status : AttemptStatus
  pub allocated_at : ℕ
  pub started_at : Option ℕ
  pub deadline_at : Option ℕ
  pub external_run_id : Option String
  pub driver_cursor : ℕ
  pub cumulative_usage : Option Usage
  pub candidate_revision_id : Option Uuid
  pub driver_receipt_id : Option Uuid
  pub finished_at : Option ℕ
  pub cancelled_at : Option ℕ
  pub cancellation_reason : Option String
  pub termination_reason : Option TerminationReason
  pub version : ℕ

pub record JobState : Type 0 where
  pub job_id : Uuid
  pub run_id : Uuid
  pub step_id : String
  pub capability : String
  pub dependency_job_ids : List Uuid
  pub status : JobStatus
  pub policy : JobPolicy
  pub source_revision_id : Option Uuid
  pub execution_contract : Option ExecutionContract
  pub execution_contract_digest : Option String
  pub capability_manifest : Option CapabilityManifest
  pub capability_manifest_digest : Option String
  pub context_packet_id : Option Uuid
  pub context_packet_digest : Option String
  pub verifier_contract : Option VerifierContract
  pub verifier_contract_digest : Option String
  pub candidate_revision_id : Option Uuid
  pub attempt_count : ℕ
  pub active_attempt_id : Option Uuid
  pub available_at : ℕ
  pub lease_owner_id : Option Uuid
  pub lease_fencing_token : ℕ
  pub lease_acquired_at : Option ℕ
  pub lease_expires_at : Option ℕ
  pub created_at : ℕ
  pub completed_at : Option ℕ
  pub failure_reason : Option String
  pub version : ℕ

-- OutboxEffectSchema
pub record AgentStart : Type 0 where
  pub driver : Driver
  pub capability : String
  pub attempt_id : Uuid
  pub attempt_started_at : Option ℕ
  pub job_id : Uuid
  pub run_id : Uuid
  pub base_revision_id : Option Uuid
  pub execution_contract : Option ExecutionContract
  pub execution_contract_digest : Option String
  pub capability_manifest : Option CapabilityManifest
  pub capability_manifest_digest : Option String
  pub context_packet : Option Json
  pub context_packet_digest : Option String

pub record AgentCancel : Type 0 where
  pub external_run_id : String
  pub reason : TerminationReason
  pub attempt_id : Uuid
  pub job_id : Uuid
  pub run_id : Uuid

pub record VerificationRun : Type 0 where
  pub verification_id : Uuid
  pub source_revision_id : Uuid
  pub workflow_id : Uuid
  pub workflow_version : ℕ
  pub workflow_digest : String
  pub verifier_contract : VerifierContract
  pub verifier_contract_digest : String
  pub attempt_id : Uuid
  pub job_id : Uuid
  pub run_id : Uuid

pub data OutboxEffect : Type 0 where
  agent_start : AgentStart → OutboxEffect
  agent_cancel : AgentCancel → OutboxEffect
  verification_run : VerificationRun → OutboxEffect

pub record OutboxState : Type 0 where
  pub outbox_id : Uuid
  pub run_id : Uuid
  pub job_id : Uuid
  pub attempt_id : Uuid
  pub effect_key : Uuid
  pub effect : OutboxEffect
  pub status : OutboxStatus
  pub delivery_attempts : ℕ
  pub retry_delays_ms : List ℕ
  pub available_at : ℕ
  pub lease_owner_id : Option Uuid
  pub lease_fencing_token : ℕ
  pub lease_acquired_at : Option ℕ
  pub lease_expires_at : Option ℕ
  pub external_effect_id : Option String
  pub created_at : ℕ
  pub delivered_at : Option ℕ
  pub last_error : Option String
  pub version : ℕ

pub record SourceRevision : Type 0 where
  pub revision_id : Uuid
  pub repository_id : Uuid
  pub object_format : ObjectFormat
  pub commit_oid : String
  pub tree_oid : String
  pub storage_ref : String
  pub revision_digest : String

pub record ArtifactEntry : Type 0 where
  pub path : String
  pub role : String
  pub size : ℕ
  pub sha256 : String

pub record ArtifactManifest : Type 0 where
  pub artifact_manifest_id : Uuid
  pub run_id : Uuid
  pub job_id : Uuid
  pub attempt_id : Uuid
  pub source_revision_id : Uuid
  pub producer : Producer
  pub entries : List ArtifactEntry
  pub manifest_digest : String
  pub total_bytes : ℕ

pub record VerificationResult : Type 0 where
  pub outcome : Outcome
  pub exit_code : Option ℕ
  pub failure_reason : Option String
  pub environment_digest : String
  pub source_status_before_digest : String
  pub source_status_after_digest : String
  pub contract_digest_before : String
  pub contract_digest_after : String
  pub artifact_manifest_digest : String

pub record VerificationRequest : Type 0 where
  pub verification_id : Uuid
  pub run_id : Uuid
  pub job_id : Uuid
  pub attempt_id : Uuid
  pub workflow_id : Uuid
  pub workflow_version : ℕ
  pub workflow_digest : String
  pub source_revision_id : Uuid
  pub verifier_contract_digest : String

pub record VerificationState : Type 0 where
  pub request : VerificationRequest
  pub open request use *
  pub artifact_manifest_id : Option Uuid
  pub status : VerificationStatus
  pub result : Option VerificationResult
  pub result_digest : Option String
  pub receipt_digest : Option String
  pub exit_code : Option ℕ
  pub failure_reason : Option String
  pub requested_at : ℕ
  pub completed_at : Option ℕ
  pub version : ℕ

-- The members that every program has; those that a program graph fills are left out.
pub record ProgramState : Type 0 where
  pub program_id : Uuid
  pub name : String
  pub created_at : ℕ
  pub version : ℕ

-- The maps of the execution kernel.
pub record ProjectionState : Type 0 where
  pub programs : Map ProgramState
  pub workflows : Map WorkflowState
  pub runs : Map RunState
  pub attempts : Map AttemptState
  pub jobs : Map JobState
  pub outbox : Map OutboxState
  pub source_revisions : Map SourceRevision
  pub artifact_manifests : Map ArtifactManifest
  pub verifications : Map VerificationState
  pub context_packets : Map ContextPacketState
  pub last_applied_position : ℕ
