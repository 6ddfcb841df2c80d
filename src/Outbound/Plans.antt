-- ===== src/Outbound/Plans.antt =====
-- What the operations of packages/kernel/src/outbound-authority.ts append fits the rows before it.
use parallelplay.Prelude.{
  ◌≡◌, refl, true, not, all, Option, none, some, List, [], ◌∷◌, String, get, map, length, ◌==◌,
  if◌then◌else◌, Bool-cases, inl, inr,
}
use parallelplay.Canonical.{Host}
use parallelplay.Decide.{distinct}
use parallelplay.Outbound.Actions.{ActionKind, action_text, is_automatic_action_allowed}
use parallelplay.Outbound.Data.{
  OutboundPolicy, Promotion, View, Authority, Answer, answer, raised, ◌>>=◌, raise_if,
}
use parallelplay.Outbound.Replay.{apply_event, present, replay}
use parallelplay.Outbound.Tables.{Draft, Plan, plan, assert_open, is_active}
use parallelplay.Outbound.Policies.{
  check_ceiling, check_policy, promote_new, promote_found, plan_promotion, plan_suspension,
  suspension,
}
use parallelplay.Outbound.Rows.{apply_all, >>=-eq-answer}
use parallelplay.Outbound.History.{
  Follows-refl, Follows-trans, IsWithin, Fits, Goes, apply_event-Goes,
}

pub present-inv {ℓ} :
    {A : Type ℓ} (o : Option A) (message : String) (a : A)
    → present o message ≡ answer a
    → o ≡ some a
present-inv none message a h = cc
present-inv (some b) message a h = cc

module _ (host : Host) where
  pub none-Goes : (v : View) → IsWithin host v → Goes host v (apply_all host v [])
  unfolding apply_all Goes
  none-Goes v within = (v, refl, Follows-refl v, within)

  pub cons-Goes :
      (v : View) (d : Draft) (ds : List Draft)
      → IsWithin host v
      → Fits host v d.event
      → ((w : View)
          → apply_event host d.event v ≡ answer w
          → IsWithin host w
          → Goes host w (apply_all host w ds))
      → Goes host v (apply_all host v (d ∷ ds))
  unfolding apply_all Goes
  cons-Goes v d ds within fits rest =
      let (w, one, first, within') = apply_event-Goes host v d.event within fits in
      let (x, more, second, within'') = rest w one within' in
      (x, rw one more, Follows-trans v w x first second, within'')

  pub one-Goes :
      (v : View) (d : Draft)
      → IsWithin host v
      → Fits host v d.event
      → Goes host v (apply_all host v (d ∷ []))
  one-Goes v d within fits = cons-Goes v d [] within fits λ w e within'. none-Goes w within'

  -- If a plan is made, its drafts can be applied.
  unfoldable pub Safe {ℓ} : {A : Type ℓ} → View → Answer (Plan A) → Type 0
  Safe v (raised message) = Unit
  Safe v (answer made) = Goes host v (apply_all host v made.drafts)

  pub Safe->>= {ℓ κ} :
      {A : Type ℓ} {B : Type κ} (v : View) (first : Answer A) (next : A → Answer (Plan B))
      → ((a : A) → first ≡ answer a → Safe v (next a))
      → Safe v (first >>= next)
  unfolding Safe
  Safe->>= v (answer a) next safe = safe a refl
  Safe->>= v (raised message) next safe = tt

  pub Safe-plan {ℓ} :
      {A : Type ℓ} (v : View) (drafts : List Draft) (result : A)
      → Goes host v (apply_all host v drafts)
      → Safe v (plan drafts result)
  unfolding Safe
  Safe-plan v drafts result goes = goes

  check_ceiling-all :
      (actions : List ActionKind) (u : Unit {0})
      → check_ceiling actions ≡ answer u
      → all is_automatic_action_allowed actions ≡ true
  unfolding check_ceiling
  check_ceiling-all [] u h = refl
  check_ceiling-all (action ∷ actions) u h =
      elim (Bool-cases (is_automatic_action_allowed action)) [
        | inl allowed ↦ rw allowed (check_ceiling-all actions u (rw allowed at h))
        | inr refused ↦ absurd (cc (rw refused at h))
      ]

  check_policy-all :
      (policy : OutboundPolicy) (at : String) (u : Unit {0})
      → check_policy policy at ≡ answer u
      → all is_automatic_action_allowed policy.allowed_actions ≡ true
  unfolding check_policy
  check_policy-all policy at u h =
      let (_, _, rest) =
        >>=-eq-answer
          (raise_if
            (not (
              length (distinct (map action_text policy.allowed_actions))
              == length policy.allowed_actions))
            "Outbound policy actions must be unique")
          _ h in
      let more = >>=-eq-answer (check_ceiling policy.allowed_actions) _ rest in
      check_ceiling-all policy.allowed_actions more.0 more.1

  promote_found-Safe :
      (policy : OutboundPolicy) (by at : String) (v : View) (found : Option Promotion)
      → IsWithin host v
      → all is_automatic_action_allowed policy.allowed_actions ≡ true
      → Safe v (promote_found host policy by at found)
  unfolding promote_found promote_new Fits
  promote_found-Safe policy by at v none within allowed =
      Safe-plan v _ _ (one-Goes v _ within (refl, allowed))
  promote_found-Safe policy by at v (some q) within allowed =
      search (Safe->>=, Safe-plan, none-Goes)

  pub plan_promotion-Safe :
      (policy : OutboundPolicy) (by at : String) (a : Authority) (v : View)
      → replay host a.events ≡ answer v
      → IsWithin host v
      → Safe v (plan_promotion host policy by at a)
  unfolding plan_promotion
  plan_promotion-Safe policy by at a v h within = Safe->>= v (assert_open a) _ λ u e.
      Safe->>= v (check_policy policy at) _ λ u' checked.
        rw h (promote_found-Safe policy by at v _ within (check_policy-all policy at u' checked))

  pub suspension-Goes :
      (digest reason now : String) (v : View) (q : Promotion)
      → IsWithin host v
      → get digest v.policies ≡ some q
      → Goes host v (
          apply_all host v (if is_active q.status then suspension digest now reason q ∷ [] else []))
  unfolding Fits suspension
  suspension-Goes digest reason now v q within here = elim (Bool-cases (is_active q.status)) [
    | inl on ↦ rw on (one-Goes v _ within (q, here))
    | inr off ↦ rw off (none-Goes v within)
  ]

  pub plan_suspension-Safe :
      (digest reason now : String) (a : Authority) (v : View)
      → replay host a.events ≡ answer v
      → IsWithin host v
      → Safe v (plan_suspension host digest reason now a)
  unfolding plan_suspension Fits suspension
  plan_suspension-Safe digest reason now a v h within = Safe->>= v (assert_open a) _ λ u e. rw h (
      Safe->>= v (present (get digest v.policies) "Outbound policy promotion does not exist") _
        λ q here.
          Safe-plan v _ tt (suspension-Goes digest reason now v q within (present-inv _ _ q here)))
