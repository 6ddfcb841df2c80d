-- ===== src/Outbound/Replay.antt =====
-- `replay` of packages/kernel/src/outbound-authority.ts: the policies and effects that the rows of
-- the table lead to, or the exception of a row that does not fit.
use parallelplay.Prelude.{
  ℕ, ◌+◌, Bool, not, Option, none, some, List, [], ◌∷◌, String, get, set, same, if◌then◌else◌,
}
use parallelplay.Canonical.{Host, canonical_digest}
use parallelplay.Outbound.Data.{
  OutboundPolicy, Promotion, active, suspended, EffectRequest, EffectReceipt, authorized, delivered,
  failed, EffectState, AuthorityEvent, policy_promoted, policy_suspended, effect_authorized,
  effect_receipt_recorded, effect_failed, StoredEvent, View, Answer, answer, raised, ◌>>=◌, ◌>>◌,
  raise_if,
}
use parallelplay.Outbound.Documents.{policy_document, request_document}

unfoldable pub promotion_of : OutboundPolicy → String → String → String → String → Promotion
promotion_of policy policy_digest promotion_digest promoted_by promoted_at = record {
  policy = policy;
  policy_digest = policy_digest;
  promotion_digest = promotion_digest;
  promoted_by = promoted_by;
  promoted_at = promoted_at;
  status = active;
  suspended_at = none;
  suspension_reason = none;
}

-- `if (!entry) throw new Error(message)`
abbrev pub present {ℓ} : {A : Type ℓ} → Option A → String → Answer A
present none message = raised message
present (some a) message = answer a

-- `if (effect?.requestDigest !== requestDigest) throw new Error(message)`
unfoldable pub bound : Option EffectState → String → String → Answer EffectState
bound none request_digest message = raised message
bound (some effect) request_digest message = do
  raise_if (not (same effect.request_digest request_digest)) message
  answer effect

unfoldable pub authorized_effect : EffectRequest → String → String → String → EffectState
authorized_effect request request_digest authorization_digest authorized_at = record {
  request = request;
  request_digest = request_digest;
  authorization_digest = authorization_digest;
  authorized_at = authorized_at;
  status = authorized;
  receipt = none;
  failure_count = 0;
  last_failure = none;
}

unfoldable pub suspend : String → String → Promotion → Promotion
suspend at reason p = record p {
  status = suspended;
  suspended_at = some at;
  suspension_reason = some reason;
}

unfoldable pub deliver : EffectReceipt → EffectState → EffectState
deliver receipt e = record e { status = delivered; receipt = some receipt }

unfoldable pub fail : Bool → String → String → EffectState → EffectState
fail retryable reason occurred_at e = record e {
  status = if retryable then authorized else failed;
  failure_count = e.failure_count + 1;
  last_failure =
      some (record { retryable = retryable; reason = reason; occurred_at = occurred_at });
}

unfoldable pub apply_event : Host → AuthorityEvent → View → Answer View
unfolding promotion_of bound authorized_effect suspend deliver fail
apply_event host (policy_promoted policy policy_digest promotion_digest promoted_by promoted_at) v =
    do
      raise_if (not (same (canonical_digest host (policy_document policy)) policy_digest))
          "Outbound policy digest drift"
      answer (record v {
        policies =
            set promotion_digest
              (promotion_of policy policy_digest promotion_digest promoted_by promoted_at)
              v.policies;
      })
apply_event host (policy_suspended promotion_digest suspended_at reason) v = do
  policy ←
      present (get promotion_digest v.policies)
        "Outbound policy suspension references an unknown promotion"
  answer
      (record v { policies = set promotion_digest (suspend suspended_at reason policy) v.policies })
apply_event host (effect_authorized request request_digest authorization_digest authorized_at) v =
    do
      raise_if (not (same (canonical_digest host (request_document request)) request_digest))
          "Outbound request digest drift"
      answer (record v {
        effects =
            set request.effect_key
              (authorized_effect request request_digest authorization_digest authorized_at)
              v.effects;
      })
apply_event host (effect_receipt_recorded effect_key request_digest receipt recorded_at) v = do
  effect ← bound (get effect_key v.effects) request_digest "Outbound receipt binding drift"
  answer (record v { effects = set effect_key (deliver receipt effect) v.effects })
apply_event host (effect_failed effect_key request_digest retryable reason occurred_at) v = do
  effect ← bound (get effect_key v.effects) request_digest "Outbound failure binding drift"
  answer
      (record v { effects = set effect_key (fail retryable reason occurred_at effect) v.effects })

unfoldable pub replay_from : Host → View → List StoredEvent → Answer View
unfolding apply_event
replay_from host v [] = answer v
replay_from host v (e ∷ es) = do v' ← apply_event host e.event v; replay_from host v' es

abbrev pub no_view : View
no_view = record { policies = []; effects = [] }

unfoldable pub replay : Host → List StoredEvent → Answer View
unfolding replay_from
replay host events = replay_from host no_view events

-- `events.at(-1)?.globalPosition ?? 0`
unfoldable pub through_position : List StoredEvent → ℕ
through_position [] = 0
through_position (e ∷ []) = e.global_position
through_position (e ∷ d ∷ es) = through_position (d ∷ es)
