-- ===== src/Outbound/Documents.antt =====
-- The documents that packages/kernel/src/outbound-authority.ts hashes, and the canonical JSON of
-- packages/contracts/src/index.ts, which sorts keys by `localeCompare`.
use parallelplay.Prelude.{Bool, Option, none, some, List, [], ◌∷◌, ◌++◌, String, map, if◌then◌else◌}
use parallelplay.Canonical.{
  Host, Json, null, boolean, number, other_number, text, array, object, Items, nil, item, Fields,
  end, field, stringify, canonical_digest, canonical_json,
}
use parallelplay.Outbound.Actions.{action_text}
use parallelplay.Outbound.Data.{
  OutboundPolicy, EffectRequest, EffectReceipt, AuthorityEvent, StoredEvent, Platform,
  policy_promoted, policy_suspended, effect_authorized, effect_receipt_recorded, effect_failed,
}

fields_of : List (String × Json) → Fields
fields_of [] = end
fields_of ((k, v) ∷ rest) = field k v (fields_of rest)

-- An object literal.
unfoldable pub object_of : List (String × Json) → Json
unfolding fields_of
object_of entries = object (fields_of entries)

unfoldable pub array_of : List Json → Items
array_of [] = nil
array_of (x ∷ xs) = item x (array_of xs)

text_or_null : Option String → Json
text_or_null none = null
text_or_null (some s) = text s

unfoldable pub policy_document : OutboundPolicy → Json
unfolding object_of array_of
policy_document p = object_of (
    ("schemaVersion", number 1)
    ∷ ("policyRevisionId", text p.policy_revision_id)
    ∷ ("name", text p.name)
    ∷ ("allowedActions", array (array_of (map (λ a. text (action_text a)) p.allowed_actions)))
    ∷ ("targets", array (array_of (map (λ t. text t) p.targets)))
    ∷ ("expiresAt", text p.expires_at)
    ∷ [])

unfoldable pub request_document : EffectRequest → Json
unfolding object_of
request_document r = object_of (
    ("schemaVersion", number 1)
    ∷ ("adapterId", text r.adapter_id)
    ∷ ("effectKey", text r.effect_key)
    ∷ ("action", text (action_text r.action))
    ∷ ("target", text r.target)
    ∷ ("payload", r.payload)
    ∷ ("payloadDigest", text r.payload_digest)
    ∷ ("preconditionDigest", text r.precondition_digest)
    ∷ ("policyPromotionDigest", text r.policy_promotion_digest)
    ∷ [])

-- A receipt's members but its digest.
unsigned_entries : EffectReceipt → List (String × Json)
unfolding text_or_null
unsigned_entries r =
    ("schemaVersion", number 1)
    ∷ ("adapterId", text r.adapter_id)
    ∷ ("effectKey", text r.effect_key)
    ∷ ("action", text (action_text r.action))
    ∷ ("payloadDigest", text r.payload_digest)
    ∷ ("externalId", text r.external_id)
    ∷ ("requestId", text_or_null r.request_id)
    ∷ ("observedStateDigest", text r.observed_state_digest)
    ∷ ("acceptedAt", text r.accepted_at)
    ∷ []

unfoldable pub unsigned_document : EffectReceipt → Json
unfolding object_of unsigned_entries
unsigned_document r = object_of (unsigned_entries r)

receipt_document : EffectReceipt → Json
unfolding object_of unsigned_entries
receipt_document r = object_of (unsigned_entries r ++ ("receiptDigest", text r.receipt_digest) ∷ [])

event_type : AuthorityEvent → String
event_type (policy_promoted p d e b a) = "policy.promoted"
event_type (policy_suspended d a r) = "policy.suspended"
event_type (effect_authorized r d e a) = "effect.authorized"
event_type (effect_receipt_recorded k d r a) = "effect.receipt-recorded"
event_type (effect_failed k d t r a) = "effect.failed"

event_data : AuthorityEvent → Json
unfolding object_of policy_document request_document receipt_document
event_data (policy_promoted policy policy_digest promotion_digest promoted_by promoted_at) =
    object_of (
      ("policy", policy_document policy)
      ∷ ("policyDigest", text policy_digest)
      ∷ ("promotionDigest", text promotion_digest)
      ∷ ("promotedBy", text promoted_by)
      ∷ ("promotedAt", text promoted_at)
      ∷ [])
event_data (policy_suspended promotion_digest suspended_at reason) = object_of (
    ("promotionDigest", text promotion_digest)
    ∷ ("suspendedAt", text suspended_at)
    ∷ ("reason", text reason)
    ∷ [])
event_data (effect_authorized request request_digest authorization_digest authorized_at) =
    object_of (
      ("request", request_document request)
      ∷ ("requestDigest", text request_digest)
      ∷ ("authorizationDigest", text authorization_digest)
      ∷ ("authorizedAt", text authorized_at)
      ∷ [])
event_data (effect_receipt_recorded effect_key request_digest receipt recorded_at) = object_of (
    ("effectKey", text effect_key)
    ∷ ("requestDigest", text request_digest)
    ∷ ("receipt", receipt_document receipt)
    ∷ ("recordedAt", text recorded_at)
    ∷ [])
event_data (effect_failed effect_key request_digest retryable reason occurred_at) = object_of (
    ("effectKey", text effect_key)
    ∷ ("requestDigest", text request_digest)
    ∷ ("retryable", boolean retryable)
    ∷ ("reason", text reason)
    ∷ ("occurredAt", text occurred_at)
    ∷ [])

-- A loaded row: the columns, `dataJson` among them, and the data read back from it.
stored_document : StoredEvent → Json
unfolding object_of event_type event_data
stored_document e = object_of (
    ("globalPosition", number e.global_position)
    ∷ ("eventId", text e.event_id)
    ∷ ("eventType", text (event_type e.event))
    ∷ ("streamId", text e.stream_id)
    ∷ ("dataJson", text (canonical_json (event_data e.event)))
    ∷ ("occurredAt", text e.occurred_at)
    ∷ ("data", event_data e.event)
    ∷ [])

unfoldable pub event_digest : Host → List StoredEvent → String
unfolding array_of stored_document
event_digest host events = canonical_digest host (array (array_of (map stored_document events)))

insert_by : (String → String → Bool) → String → Json → Fields → Fields
insert_by le k v end = field k v end
insert_by le k v (field j w rest) =
    if le k j then field k v (field j w rest) else field j w (insert_by le k v rest)

-- The keys of every object in the order of `le`.
unfoldable mutual
  unfolding insert_by

  sort_keys : (String → String → Bool) → Json → Json
  sort_keys le null = null
  sort_keys le (boolean b) = boolean b
  sort_keys le (number n) = number n
  sort_keys le (other_number printed) = other_number printed
  sort_keys le (text s) = text s
  sort_keys le (array xs) = array (sort_items le xs)
  sort_keys le (object fs) = object (sort_fields le fs)

  sort_items : (String → String → Bool) → Items → Items
  sort_items le nil = nil
  sort_items le (item x xs) = item (sort_keys le x) (sort_items le xs)

  sort_fields : (String → String → Bool) → Fields → Fields
  sort_fields le end = end
  sort_fields le (field k v rest) = insert_by le k (sort_keys le v) (sort_fields le rest)

-- `canonicalJson` of packages/contracts/src/index.ts.
unfoldable pub contract_canonical_json : Platform → Json → String
unfolding sort_keys
contract_canonical_json p v = stringify (sort_keys p.locale_le v)

unfoldable pub outbound_receipt_digest : Platform → EffectReceipt → String
unfolding unsigned_document contract_canonical_json
outbound_receipt_digest p r = p.host.sha256 (contract_canonical_json p (unsigned_document r))
