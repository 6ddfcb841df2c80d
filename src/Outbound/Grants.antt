-- ===== src/Outbound/Grants.antt =====
-- `authorize` of packages/kernel/src/outbound-authority.ts.
use parallelplay.Prelude.{
  Bool, true, false, not, Option, none, some, [], ◌∷◌, String, any, same, join, get,
}
use parallelplay.Canonical.{Host, text, canonical_digest}
use parallelplay.Outbound.Actions.{action_text, same_action, is_automatic_action_allowed}
use parallelplay.Outbound.Data.{
  Platform, Promotion, EffectRequest, EffectStatus, failed, EffectState, effect_authorized, View,
  Authority, Answer, raised, ◌>>=◌, ◌>>◌, raise_if,
}
use parallelplay.Outbound.Documents.{object_of, request_document}
use parallelplay.Outbound.Replay.{replay}
use parallelplay.Outbound.Tables.{Plan, plan, commit, assert_open, text_le, is_active}

unfoldable pub is_failed : EffectStatus → Bool
is_failed failed = true
is_failed _ = false

unfoldable pub authorization_digest_of : Host → String → String → String → String
unfolding object_of
authorization_digest_of host request_digest policy_promotion_digest now = canonical_digest host (
    object_of (
      ("requestDigest", text request_digest)
      ∷ ("policyPromotionDigest", text policy_promotion_digest)
      ∷ ("now", text now)
      ∷ []))

unfoldable pub check_grant : EffectRequest → String → Option Promotion → Answer (Unit {0})
unfolding is_active
check_grant request now none = raised "Outbound policy is not active"
check_grant request now (some p) = do
  raise_if (not (is_active p.status)) "Outbound policy is not active"
  raise_if (text_le p.policy.expires_at now) "Outbound policy is expired"
  raise_if (not (any (same_action request.action) p.policy.allowed_actions))
      "Outbound action is not policy-approved"
  raise_if (not (any (same request.target) p.policy.targets))
      "Outbound target is not policy-approved"

-- A new grant, or the answer that the effect's earlier grant gives.
unfoldable pub grant :
    Host → EffectRequest → String → View → Option EffectState → Answer (Plan String)
unfolding check_grant authorization_digest_of is_failed
grant host request now v none =
    let request_digest = canonical_digest host (request_document request) in
    let authorization_digest =
      authorization_digest_of host request_digest request.policy_promotion_digest now in
    do
      check_grant request now (get request.policy_promotion_digest v.policies)
      plan
          (record {
            stream_id = request.effect_key;
            event = effect_authorized request request_digest authorization_digest now;
            occurred_at = now;
          }
            ∷ [])
          authorization_digest
grant host request now v (some prior) = do
  raise_if (not (same prior.request_digest (canonical_digest host (request_document request))))
      "Outbound effect key was reused with different input"
  raise_if (is_failed prior.status) "Outbound effect previously failed terminally"
  plan [] prior.authorization_digest

unfoldable pub plan_authorization : Host → EffectRequest → String → Authority → Answer (Plan String)
unfolding assert_open grant
plan_authorization host request now a = do
  assert_open a
  raise_if (not (is_automatic_action_allowed request.action)) (
      join "Outbound action is outside the non-configurable global authority ceiling: "
        (action_text request.action))
  v ← replay host a.events
  grant host request now v (get request.effect_key v.effects)

unfoldable pub authorize : Platform → EffectRequest → String → Authority → Authority × Answer String
unfolding plan_authorization commit
authorize p request now a = commit p a (plan_authorization p.host request now a)
