-- ===== src/Outbound/Policies.antt =====
-- `promotePolicy` and `suspendPolicy` of packages/kernel/src/outbound-authority.ts, each on the
-- authority and at the instant that the clock shows, giving the authority after it.
use parallelplay.Prelude.{
  not, Option, none, some, List, [], ◌∷◌, String, Uuid, values, map, length, same, join, ◌==◌, get,
  if◌then◌else◌,
}
use parallelplay.Canonical.{Host, text, canonical_digest}
use parallelplay.Decide.{distinct}
use parallelplay.Outbound.Actions.{ActionKind, action_text, is_automatic_action_allowed}
use parallelplay.Outbound.Data.{
  Platform, OutboundPolicy, Promotion, policy_promoted, policy_suspended, Authority, Answer, answer,
  raised, ◌>>=◌, ◌>>◌, raise_if,
}
use parallelplay.Outbound.Documents.{object_of, policy_document}
use parallelplay.Outbound.Replay.{present, replay}
use parallelplay.Outbound.Tables.{Draft, Plan, plan, commit, assert_open, text_le, is_active}

unfoldable pub check_ceiling : List ActionKind → Answer (Unit {0})
check_ceiling [] = answer tt
check_ceiling (action ∷ actions) = do
  raise_if (not (is_automatic_action_allowed action))
      (join "Outbound policy cannot exceed the global authority ceiling: " (action_text action))
  check_ceiling actions

unfoldable pub check_policy : OutboundPolicy → String → Answer (Unit {0})
unfolding check_ceiling
check_policy policy promoted_at = do
  raise_if
      (not (
        length (distinct (map action_text policy.allowed_actions))
        == length policy.allowed_actions))
      "Outbound policy actions must be unique"
  check_ceiling policy.allowed_actions
  raise_if (not (length (distinct policy.targets) == length policy.targets))
      "Outbound policy targets must be unique"
  raise_if (text_le policy.expires_at promoted_at) "Outbound policy must expire in the future"

-- The promotions of the same policy revision, in their order.
unfoldable pub find_revision : Uuid → List Promotion → Option Promotion
find_revision id [] = none
find_revision id (p ∷ ps) =
    if same p.policy.policy_revision_id id then some p else find_revision id ps

unfoldable pub promotion_digest_of : Host → String → String → String → String
unfolding object_of
promotion_digest_of host policy_digest promoted_by promoted_at = canonical_digest host (
    object_of (
      ("policyDigest", text policy_digest)
      ∷ ("promotedBy", text promoted_by)
      ∷ ("promotedAt", text promoted_at)
      ∷ []))

-- The promotion that is there already, or the digest under which a new one is recorded.
pub data Promoted : Type 0 where
  existing : Promotion → Promoted
  recorded : String → Promoted

unfoldable pub promote_new : Host → OutboundPolicy → String → String → Answer (Plan Promoted)
unfolding promotion_digest_of
promote_new host policy promoted_by promoted_at =
    let policy_digest = canonical_digest host (policy_document policy) in
    let promotion_digest = promotion_digest_of host policy_digest promoted_by promoted_at in
    plan
      (record {
        stream_id = policy.policy_revision_id;
        event = policy_promoted policy policy_digest promotion_digest promoted_by promoted_at;
        occurred_at = promoted_at;
      }
        ∷ [])
      (recorded promotion_digest)

unfoldable pub promote_found :
    Host → OutboundPolicy → String → String → Option Promotion → Answer (Plan Promoted)
unfolding promote_new
promote_found host policy promoted_by promoted_at none =
    promote_new host policy promoted_by promoted_at
promote_found host policy promoted_by promoted_at (some p) = do
  raise_if
      (not (
        same (canonical_digest host (policy_document p.policy))
          (canonical_digest host (policy_document policy))))
      "Outbound policy revision is immutable"
  plan [] (existing p)

unfoldable pub plan_promotion :
    Host → OutboundPolicy → String → String → Authority → Answer (Plan Promoted)
unfolding assert_open check_policy find_revision promote_found
plan_promotion host policy promoted_by promoted_at a = do
  assert_open a
  check_policy policy promoted_at
  v ← replay host a.events
  promote_found host policy promoted_by promoted_at
      (find_revision policy.policy_revision_id (values v.policies))

-- The second replay of `promotePolicy`.
unfoldable pub read_back : Host → Authority × Answer Promoted → Authority × Answer Promotion
read_back host (a, raised message) = (a, raised message)
read_back host (a, answer (existing p)) = (a, answer p)
read_back host (a, answer (recorded promotion_digest)) = (
  a,
  do
    v ← replay host a.events
    present (get promotion_digest v.policies) "Outbound policy promotion was not recorded",
)

unfoldable pub promote_policy :
    Platform → OutboundPolicy → String → String → Authority → Authority × Answer Promotion
unfolding plan_promotion commit read_back
promote_policy p policy actor now a =
    read_back p.host (commit p a (plan_promotion p.host policy actor now a))

unfoldable pub suspension : String → String → String → Promotion → Draft
suspension promotion_digest now reason policy = record {
  stream_id = policy.policy.policy_revision_id;
  event = policy_suspended promotion_digest now reason;
  occurred_at = now;
}

unfoldable pub plan_suspension :
    Host → String → String → String → Authority → Answer (Plan (Unit {0}))
unfolding assert_open is_active suspension
plan_suspension host promotion_digest reason now a = do
  assert_open a
  v ← replay host a.events
  policy ← present (get promotion_digest v.policies) "Outbound policy promotion does not exist"
  plan (if is_active policy.status then suspension promotion_digest now reason policy ∷ [] else [])
      tt

unfoldable pub suspend_policy :
    Platform → String → String → String → Authority → Authority × Answer (Unit {0})
unfolding plan_suspension commit
suspend_policy p promotion_digest reason now a =
    commit p a (plan_suspension p.host promotion_digest reason now a)
