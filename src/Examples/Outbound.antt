-- ===== src/Examples/Outbound.antt =====
-- Examples on outbound effects: a policy, an effect that it permits, and a failure for good.
use parallelplay.Prelude.{◌≡◌, ◌≢◌, refl, true, false, none, [], ◌∷◌, get, set, same, String, subst}
use parallelplay.Canonical.{Json, text_order, canonical_digest}
use parallelplay.Decide.{distinct}
use parallelplay.Outbound.Actions.{
  github_label_upsert, is_automatic_action_allowed, action_text, same_action,
}
use parallelplay.Outbound.Data.{
  Platform, OutboundPolicy, EffectRequest, EffectReceipt, EffectState, View, Authority, answer,
}
use parallelplay.Outbound.Replay.{
  replay, replay_from, apply_event, promotion_of, authorized_effect, bound,
}
use parallelplay.Outbound.Tables.{append, append_all, commit, assert_open, is_active}
use parallelplay.Outbound.Policies.{
  promote_policy, plan_promotion, check_policy, check_ceiling, find_revision, promote_found,
  promote_new, read_back, promotion_digest_of,
}
use parallelplay.Outbound.Grants.{
  authorize, plan_authorization, grant, check_grant, authorization_digest_of,
}
use parallelplay.Outbound.Outcomes.{record_failure, plan_failure}
use parallelplay.Outbound.History.{Follows, IsWithin}
use parallelplay.Outbound.Reachable.{
  Reachable, opened, after, promote, receive, authorize_effect, perform, Reachable-IsWithin,
  perform-Follows,
}
use parallelplay.Outbound.Grant.{IsGranted, GrantedBy, authorize-Granted, authorize_again}
use parallelplay.Outbound.Suspension.{record_failure-stops}
use parallelplay.Examples.Setting.{plain_host}

abbrev a_platform : Platform
a_platform = record {
  host = plain_host;
  random_uuid = λ n. "row";
  locale_le = text_order;
  issue_message = λ issues. "invalid";
}

abbrev a_policy : OutboundPolicy
a_policy = record {
  policy_revision_id = "revision";
  name = "labels";
  allowed_actions = github_label_upsert ∷ [];
  targets = "repository" ∷ [];
  expires_at = "2027-01-01T00:00:00.000Z";
}

abbrev now : String
now = "2026-06-01T00:00:00.000Z"

abbrev a_request : String → EffectRequest
a_request key = record {
  adapter_id = "github";
  effect_key = key;
  action = github_label_upsert;
  target = "repository";
  payload = Json.null;
  payload_digest = "payload";
  precondition_digest = "state";
  policy_promotion_digest = "digest";
}

abbrev empty : Authority
empty = record { events = []; closed = false; suspension_threshold = 3 }

abbrev promoted : Authority
promoted = perform a_platform (promote a_policy "operator") now empty

promoted-Reachable : Reachable a_platform promoted
promoted-Reachable = after (opened 3) (promote a_policy "operator") now

abbrev promoted_view : View
promoted_view = record {
  policies = ("digest", promotion_of a_policy "digest" "digest" "operator" now) ∷ [];
  effects = [];
}

promoted_replays : replay plain_host promoted.events ≡ answer promoted_view
unfolding perform promote_policy plan_promotion check_policy check_ceiling find_revision
    promote_found promote_new read_back promotion_digest_of commit append_all append assert_open
    replay replay_from apply_event is_automatic_action_allowed same_action action_text distinct same
    canonical_digest get set text_order
promoted_replays = refl

Reachable-IsWithin_example :
    (v : View) × (replay plain_host promoted.events ≡ answer v) × IsWithin plain_host v
Reachable-IsWithin_example = Reachable-IsWithin a_platform promoted promoted-Reachable

abbrev granted : Authority
granted = (authorize a_platform (a_request "label") now promoted).0

abbrev granted_effect : EffectState
granted_effect = authorized_effect (a_request "label") "digest" "digest" now

abbrev granted_view : View
granted_view = record promoted_view { effects = ("label", granted_effect) ∷ [] }

granted_runs :
    (replay plain_host granted.events ≡ answer granted_view)
    × ((authorize a_platform (a_request "label") now promoted).1 ≡ answer "digest")
    × ((record_failure a_platform (a_request "label") false "gone" now granted).1 ≡ answer tt)
unfolding perform promote_policy plan_promotion check_policy check_ceiling find_revision
    promote_found promote_new read_back promotion_digest_of commit append_all append assert_open
    replay replay_from apply_event is_automatic_action_allowed same_action action_text distinct same
    canonical_digest get set authorize plan_authorization grant check_grant authorization_digest_of
    is_active record_failure plan_failure bound text_order
granted_runs = (refl, refl, refl)

authorize-Granted_example :
    (is_automatic_action_allowed github_label_upsert ≡ true)
    × ((v' : View) × (e : EffectState) × (replay plain_host granted.events ≡ answer v')
        × IsGranted plain_host (a_request "label") "digest" v' e
        × GrantedBy plain_host (a_request "label") now promoted_view e)
authorize-Granted_example =
    authorize-Granted a_platform (a_request "label") now promoted promoted_view "digest"
      promoted_replays granted_runs.1

authorize_again_example :
    authorize a_platform (a_request "label") "2040" granted ≡ (granted, answer "digest")
authorize_again_example =
    authorize_again a_platform (a_request "label") now "2040" promoted promoted_view "digest"
      promoted_replays granted_runs.1

granted-Reachable : Reachable a_platform granted
unfolding perform
granted-Reachable = after promoted-Reachable (authorize_effect (a_request "label")) now

abbrev a_receipt : EffectReceipt
a_receipt = record {
  adapter_id = "github";
  effect_key = "label";
  action = github_label_upsert;
  payload_digest = "payload";
  external_id = "1";
  request_id = none;
  observed_state_digest = "observed";
  accepted_at = now;
  receipt_digest = "digest";
}

perform-Follows_example :
    (v' : View) × (replay plain_host
        (perform a_platform (receive (a_request "label") a_receipt) now granted).events
      ≡ answer v')
    × Follows granted_view v'
perform-Follows_example =
    perform-Follows a_platform granted (receive (a_request "label") a_receipt) now granted_view
      granted-Reachable granted_runs.0

granted_view-IsWithin : IsWithin plain_host granted_view
granted_view-IsWithin =
    let (v, h, within) = Reachable-IsWithin a_platform granted granted-Reachable in
    let own : v ≡ granted_view = cc (h, granted_runs.0) in subst (IsWithin plain_host) own within

record_failure-stops_example :
    (authorize a_platform
      (a_request "other")
      now
      (record_failure a_platform (a_request "label") false "gone" now granted).0).1
    ≢ answer "digest"
unfolding get same authorized_effect
record_failure-stops_example =
    record_failure-stops a_platform (a_request "label") false "gone" now granted granted_view
      granted_effect (a_request "other") now "digest" granted_runs.0 granted_view-IsWithin refl refl
      refl granted_runs.2 refl refl
