-- ===== src/Outbound/Inspection.antt =====
-- `reconcileEffect`, `snapshot` and `close` of packages/kernel/src/outbound-authority.ts, and the
-- check of a reconciliation request of packages/contracts/src/index.ts. An adapter is a parameter.
use parallelplay.Prelude.{
  ℕ, Bool, true, false, not, ◌&&◌, ◌||◌, Option, none, some, List, [], ◌∷◌, ◌++◌, String, Map, get,
  values, same, if◌then◌else◌,
}
use parallelplay.Canonical.{canonical_digest}
use parallelplay.Outbound.Actions.{same_action}
use parallelplay.Outbound.Data.{
  Platform, Promotion, EffectRequest, EffectReceipt, EffectStatus, EffectState, Authority, Answer,
  answer, raised, ◌>>=◌, ◌>>◌, raise_if,
}
use parallelplay.Outbound.Documents.{request_document, outbound_receipt_digest, event_digest}
use parallelplay.Outbound.Replay.{present, replay, through_position}
use parallelplay.Outbound.Tables.{assert_open}
use parallelplay.Outbound.Grants.{is_failed}

pub data ReconciliationStatus : Type 0 where
  not_observed observed_exact observed_conflict : ReconciliationStatus

-- OutboundReconciliationV1Schema
pub record Reconciliation : Type 0 where
  pub effect_key : String
  pub status : ReconciliationStatus
  pub external_id : Option String
  pub observed_state_digest : Option String

-- `OutboundAdapterV1`: the members of the manifest that are read, and what `reconcile` answers.
pub record Adapter : Type 0 where
  pub kind : String
  pub contract_name : String
  pub id : String
  pub reconcile : EffectRequest → Option EffectReceipt → Reconciliation

issue_unless : Bool → String → List String
issue_unless true message = []
issue_unless false message = message ∷ []

-- The issues that OutboundReconcileRequestV1Schema adds.
unfoldable pub reconcile_issues : Platform → EffectRequest → Option EffectReceipt → List String
unfolding issue_unless
reconcile_issues p request none = []
reconcile_issues p request (some receipt) =
    issue_unless (same receipt.adapter_id request.adapter_id)
      "Prior receipt adapterId is not bound to the requested effect"
    ++ issue_unless (same receipt.effect_key request.effect_key)
        "Prior receipt effectKey is not bound to the requested effect"
    ++ issue_unless (same_action receipt.action request.action)
        "Prior receipt action is not bound to the requested effect"
    ++ issue_unless (same receipt.payload_digest request.payload_digest)
        "Prior receipt payloadDigest is not bound to the requested effect"
    ++ issue_unless (same (outbound_receipt_digest p receipt) receipt.receipt_digest)
        "Prior receipt digest is invalid"

parse_issues : Platform → List String → Answer (Unit {0})
parse_issues p [] = answer tt
parse_issues p (issue ∷ issues) = raised (p.issue_message (issue ∷ issues))

is_exact : ReconciliationStatus → Bool
is_exact observed_exact = true
is_exact _ = false

same_or_null : Option String → String → Bool
same_or_null none b = false
same_or_null (some a) b = same a b

-- An exact observation of another state than the receipt's.
conflicts_with_receipt : Reconciliation → Option EffectReceipt → Bool
unfolding is_exact same_or_null
conflicts_with_receipt result none = false
conflicts_with_receipt result (some receipt) =
    is_exact result.status
    && not (same_or_null result.observed_state_digest receipt.observed_state_digest)

unfoldable pub check_adapter : Adapter → EffectState → Answer (Unit {0})
check_adapter adapter effect =
    raise_if
      (not (same adapter.kind "adapter")
        || not (same adapter.contract_name "outbound-adapter-v1")
        || not (same adapter.id effect.request.adapter_id))
      "Outbound reconciliation adapter identity does not match the effect"

unfoldable pub reconcile_effect : Platform → String → Adapter → Authority → Answer Reconciliation
unfolding parse_issues conflicts_with_receipt check_adapter
reconcile_effect p effect_key adapter a = do
  assert_open a
  v ← replay p.host a.events
  effect ← present (get effect_key v.effects) "Outbound reconciliation references an unknown effect"
  raise_if (is_failed effect.status) "Terminally failed outbound effects cannot be reconciled"
  check_adapter adapter effect
  raise_if
      (not (same (canonical_digest p.host (request_document effect.request)) effect.request_digest))
      "Outbound reconciliation request digest drift"
  parse_issues p (reconcile_issues p effect.request effect.receipt)
  let result = adapter.reconcile effect.request effect.receipt
  raise_if (not (same result.effect_key effect_key))
      "Outbound reconciliation result does not match the effect key"
  raise_if (conflicts_with_receipt result effect.receipt)
      "Outbound reconciliation exact state conflicts with the prior receipt"
  answer result

module _ {A : Type 0} (le : String → String → Bool) (key : A → String) where
  insert_sorted : A → List A → List A
  insert_sorted x [] = x ∷ []
  insert_sorted x (y ∷ ys) = if le (key x) (key y) then x ∷ y ∷ ys else y ∷ insert_sorted x ys

  -- A stable sort by a key.
  unfoldable pub sort_by : List A → List A
  unfolding insert_sorted
  sort_by [] = []
  sort_by (x ∷ xs) = insert_sorted x (sort_by xs)

pub record EffectSummary : Type 0 where
  pub effect_key : String
  pub request_digest : String
  pub authorization_digest : String
  pub status : EffectStatus
  pub receipt_digest : Option String
  pub failure_count : ℕ

-- OutboundAuthoritySnapshotV1
pub record Snapshot : Type 0 where
  pub through_position : ℕ
  pub policies : List Promotion
  pub effects : List EffectSummary
  pub event_digest : String

receipt_digest_of : Option EffectReceipt → Option String
receipt_digest_of none = none
receipt_digest_of (some r) = some r.receipt_digest

summarise : Map EffectState → List EffectSummary
unfolding receipt_digest_of
summarise [] = []
summarise ((k, e) ∷ m) =
    (record {
      effect_key = k;
      request_digest = e.request_digest;
      authorization_digest = e.authorization_digest;
      status = e.status;
      receipt_digest = receipt_digest_of e.receipt;
      failure_count = e.failure_count;
    })
    ∷ summarise m

unfoldable pub snapshot : Platform → Authority → Answer Snapshot
unfolding sort_by summarise
snapshot p a = do
  assert_open a
  v ← replay p.host a.events
  answer (record {
    through_position = through_position a.events;
    policies = sort_by p.locale_le (λ (q : Promotion). q.promotion_digest) (values v.policies);
    effects = sort_by p.locale_le (λ (e : EffectSummary). e.effect_key) (summarise v.effects);
    event_digest = event_digest p.host a.events;
  })

unfoldable pub close : Authority → Authority
close a = record a { closed = true }
