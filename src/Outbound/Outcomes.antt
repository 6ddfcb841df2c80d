-- ===== src/Outbound/Outcomes.antt =====
-- `recordReceipt`, `recordFailure`, `reconcileEffect`, `snapshot` and `close` of
-- packages/kernel/src/outbound-authority.ts.
use parallelplay.Prelude.{
  trim, ℕ, ◌+◌, ◌-◌, Bool, not, ◌&&◌, ◌||◌, Option, none, some, List, [], ◌∷◌, String, same, join,
  units, leb, get, is_some, if◌then◌else◌,
}
use parallelplay.Canonical.{Host, canonical_digest}
use parallelplay.Outbound.Actions.{same_action}
use parallelplay.Outbound.Data.{
  Platform, Promotion, EffectRequest, EffectReceipt, EffectState, effect_receipt_recorded,
  effect_failed, View, Authority, Answer, ◌>>=◌, ◌>>◌, raise_if,
}
use parallelplay.Outbound.Documents.{request_document, unsigned_document}
use parallelplay.Outbound.Replay.{bound, replay}
use parallelplay.Outbound.Tables.{Draft, Plan, plan, commit, assert_open, is_active}
use parallelplay.Outbound.Policies.{suspension}

-- The members that bind a receipt to its request.
unfoldable pub is_bound_to : EffectReceipt → EffectRequest → Bool
is_bound_to receipt request =
    same receipt.adapter_id request.adapter_id
    && same receipt.effect_key request.effect_key
    && same_action receipt.action request.action
    && same receipt.payload_digest request.payload_digest

unfoldable pub keep_receipt :
    EffectRequest
    → String
    → EffectReceipt
    → String
    → Option EffectReceipt
    → Answer (Plan (Unit {0}))
keep_receipt request request_digest receipt now none =
    plan
      (record {
        stream_id = request.effect_key;
        event = effect_receipt_recorded request.effect_key request_digest receipt now;
        occurred_at = now;
      }
        ∷ [])
      tt
keep_receipt request request_digest receipt now (some prior) = do
  raise_if (not (same prior.receipt_digest receipt.receipt_digest))
      "Outbound receipt conflicts with prior evidence"
  plan [] tt

unfoldable pub plan_receipt :
    Host → EffectRequest → EffectReceipt → String → Authority → Answer (Plan (Unit {0}))
unfolding is_bound_to keep_receipt
plan_receipt host request receipt now a =
    let request_digest = canonical_digest host (request_document request) in
    do
      assert_open a
      raise_if
          (not (same (canonical_digest host (unsigned_document receipt)) receipt.receipt_digest))
          "Outbound receipt digest is invalid"
      raise_if (not (is_bound_to receipt request))
          "Outbound receipt does not match the authorized request"
      v ← replay host a.events
      effect ←
          bound (get request.effect_key v.effects) request_digest
            "Outbound effect was not authorized"
      keep_receipt request request_digest receipt now effect.receipt

unfoldable pub record_receipt :
    Platform → EffectRequest → EffectReceipt → String → Authority → Authority × Answer (Unit {0})
unfolding plan_receipt commit
record_receipt p request receipt now a = commit p a (plan_receipt p.host request receipt now a)

-- `s.slice(0, n)`; a character that the cut would split is left out.
slice : ℕ → String → String
unfolding units
slice n String.[] = ""
slice n (String.◌∷◌ c s) = if leb (units c) n then String.◌∷◌ c (slice (n - units c) s) else ""

-- The reason of the suspension, which `#append` trims as it parses the event.
unfoldable pub fail_safe_reason : String → String
unfolding slice
fail_safe_reason reason =
    trim (slice 2000 (join "Fail-safe suspension after outbound effect failure: " reason))

-- The suspension that a failure brings about, where the policy still stands.
unfoldable pub fail_safe : EffectRequest → String → String → Option Promotion → List Draft
unfolding is_active suspension fail_safe_reason
fail_safe request reason now none = []
fail_safe request reason now (some policy) =
    if is_active policy.status
    then suspension request.policy_promotion_digest now (fail_safe_reason reason) policy ∷ []
    else []

unfoldable pub failure_drafts :
    EffectRequest → String → Bool → String → String → ℕ → View → EffectState → List Draft
unfolding fail_safe
failure_drafts request request_digest retryable reason now threshold v effect =
    (record {
      stream_id = request.effect_key;
      event = effect_failed request.effect_key request_digest retryable reason now;
      occurred_at = now;
    })
    ∷ (if not retryable || leb threshold (effect.failure_count + 1)
        then fail_safe request reason now (get request.policy_promotion_digest v.policies)
        else [])

-- A failure after the receipt changes nothing.
unfoldable pub plan_failure :
    Host → EffectRequest → Bool → String → String → Authority → Answer (Plan (Unit {0}))
unfolding failure_drafts
plan_failure host request retryable reason now a =
    let request_digest = canonical_digest host (request_document request) in
    do
      assert_open a
      v ← replay host a.events
      effect ←
          bound (get request.effect_key v.effects) request_digest
            "Outbound effect was not authorized"
      plan
          (if is_some effect.receipt
            then []
            else failure_drafts request request_digest retryable reason now a.suspension_threshold v
                effect)
          tt

unfoldable pub record_failure :
    Platform → EffectRequest → Bool → String → String → Authority → Authority × Answer (Unit {0})
unfolding plan_failure commit
record_failure p request retryable reason now a =
    commit p a (plan_failure p.host request retryable reason now a)
