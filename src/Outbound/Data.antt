-- ===== src/Outbound/Data.antt =====
-- The records and events of packages/kernel/src/outbound-authority.ts, and the contracts for
-- effects of packages/contracts/src/index.ts. Values are taken as the schemas have parsed them.
-- Instants are the texts that the code compares.
use parallelplay.Prelude.{ℕ, Bool, Option, List, String, Uuid, Map}
use parallelplay.Canonical.{Host, Json}
pub use parallelplay.Prelude.Answers.{Answer, answer, raised, ◌>>=◌, ◌>>◌, raise_if}
use parallelplay.Outbound.Actions.{ActionKind}

-- The hash, `randomUUID` for the row at a position, whether a text sorts before another, or with it,
-- in `localeCompare`, and the text that the schema library makes of the issues it reports.
pub record Platform : Type 0 where
  pub host : Host
  pub random_uuid : ℕ → Uuid
  pub locale_le : String → String → Bool
  pub issue_message : List String → String

-- OutboundPolicyV1Schema
pub record OutboundPolicy : Type 0 where
  pub policy_revision_id : Uuid
  pub name : String
  pub allowed_actions : List ActionKind
  pub targets : List String
  pub expires_at : String

pub data PolicyStatus : Type 0 where
  active suspended : PolicyStatus

-- OutboundPolicyPromotionV1
pub record Promotion : Type 0 where
  pub policy : OutboundPolicy
  pub policy_digest : String
  pub promotion_digest : String
  pub promoted_by : String
  pub promoted_at : String
  pub status : PolicyStatus
  pub suspended_at : Option String
  pub suspension_reason : Option String

-- OutboundEffectRequestV1Schema
pub record EffectRequest : Type 0 where
  pub adapter_id : String
  pub effect_key : String
  pub action : ActionKind
  pub target : String
  pub payload : Json
  pub payload_digest : String
  pub precondition_digest : String
  pub policy_promotion_digest : String

-- OutboundEffectReceiptV1Schema
pub record EffectReceipt : Type 0 where
  pub adapter_id : String
  pub effect_key : String
  pub action : ActionKind
  pub payload_digest : String
  pub external_id : String
  pub request_id : Option String
  pub observed_state_digest : String
  pub accepted_at : String
  pub receipt_digest : String

pub data EffectStatus : Type 0 where
  authorized delivered failed : EffectStatus

pub record Failure : Type 0 where
  pub retryable : Bool
  pub reason : String
  pub occurred_at : String

pub record EffectState : Type 0 where
  pub request : EffectRequest
  pub request_digest : String
  pub authorization_digest : String
  pub authorized_at : String
  pub status : EffectStatus
  pub receipt : Option EffectReceipt
  pub failure_count : ℕ
  pub last_failure : Option Failure

-- AuthorityEventSchema
pub data AuthorityEvent : Type 0 where
  policy_promoted :
      (policy : OutboundPolicy) (policy_digest promotion_digest promoted_by promoted_at : String)
      → AuthorityEvent
  policy_suspended : (promotion_digest suspended_at reason : String) → AuthorityEvent
  effect_authorized :
      (request : EffectRequest) (request_digest authorization_digest authorized_at : String)
      → AuthorityEvent
  effect_receipt_recorded :
      (effect_key request_digest : String) (receipt : EffectReceipt) (recorded_at : String)
      → AuthorityEvent
  effect_failed :
      (effect_key request_digest : String) (retryable : Bool) (reason occurred_at : String)
      → AuthorityEvent

-- A row of outbound_authority_events.
pub record StoredEvent : Type 0 where
  pub global_position : ℕ
  pub event_id : Uuid
  pub stream_id : String
  pub event : AuthorityEvent
  pub occurred_at : String

-- What replaying the rows gives.
pub record View : Type 0 where
  pub policies : Map Promotion
  pub effects : Map EffectState

-- `SqliteOutboundAuthority`, with the rows of its table.
pub record Authority : Type 0 where
  pub events : List StoredEvent
  pub closed : Bool
  pub suspension_threshold : ℕ
