-- ===== src/Outbound/Suspension.antt =====
-- The fail-safe of `recordFailure`, packages/kernel/src/outbound-authority.ts: a failure for good,
-- or one too many, ends what its policy permits.
use parallelplay.Prelude.{
  ℕ, ◌+◌, ◌≡◌, ◌≢◌, inl, inr, refl, ap, subst, Bool, true, false, not, ◌||◌, leb, Option, none,
  some, [], String, get, set, get-set, get-set_self, is_some, same, same→eq, if◌then◌else◌, arith,
  Bool-cases,
}
use parallelplay.Canonical.{Host, canonical_digest}
use parallelplay.Outbound.Data.{
  Platform, policy_suspended, Promotion, EffectRequest, EffectState, effect_failed, View, Authority,
  answer,
}
use parallelplay.Outbound.Documents.{request_document}
use parallelplay.Outbound.Replay.{replay, apply_event, bound, fail, suspend, present}
use parallelplay.Outbound.Tables.{Plan, plan, assert_open, append_all, is_active}
use parallelplay.Outbound.Policies.{suspension}
use parallelplay.Outbound.Grants.{authorize}
use parallelplay.Outbound.Outcomes.{
  fail_safe_reason, fail_safe, failure_drafts, plan_failure, record_failure,
}
use parallelplay.Outbound.Rows.{apply_all, replay-append_all, >>=-eq-answer}
use parallelplay.Outbound.History.{IsWithin, Goes}
use parallelplay.Outbound.Plans.{Safe}
use parallelplay.Outbound.Effects.{bound-inv, failed-policies, plan_failure-Safe}
use parallelplay.Outbound.Grant.{authorize-Granted, commit-inv, GrantedBy}

-- The policy, if there is one, no longer stands.
unfoldable IsStopped : String → View → Type 0
IsStopped digest v = (q : Promotion) → get digest v.policies ≡ some q → is_active q.status ≡ false

-- Whatever effect was missing is missing still.
unfoldable NoNewEffect : View → View → Type 0
NoNewEffect v w = (k : String) → get k v.effects ≡ none → get k w.effects ≡ none

suspended-IsStopped :
    (host : Host) (v w : View) (digest at reason : String)
    → apply_event host (policy_suspended digest at reason) v ≡ answer w
    → IsStopped digest w × NoNewEffect v w
unfolding apply_event suspend is_active IsStopped NoNewEffect
suspended-IsStopped host v w digest at reason h =
    let (q, found, last) =
      >>=-eq-answer
        (present (get digest v.policies)
          "Outbound policy suspension references an unknown promotion")
        _ h in
    let own : record v { policies = set digest (suspend at reason q) v.policies } ≡ w = cc in
    (
      λ r there.
          let first = ap (λ (x : View). get digest x.policies) own in
          let wrote = get-set_self digest (suspend at reason q) v.policies in
          let same_policy : suspend at reason q ≡ r = cc in
          subst (λ (x : Promotion). is_active x.status ≡ false) same_policy refl,
      λ k missing. subst (λ (x : View). get k x.effects ≡ none) own missing,
    )

-- A row about a failure adds no effect.
failed-NoNewEffect :
    (host : Host) (v w : View) (k request_digest : String) (retryable : Bool) (reason at : String)
    → apply_event host (effect_failed k request_digest retryable reason at) v ≡ answer w
    → NoNewEffect v w
unfolding apply_event NoNewEffect
failed-NoNewEffect host v w k request_digest retryable reason at h j missing =
    let (e, found, last) =
      >>=-eq-answer (bound (get k v.effects) request_digest "Outbound failure binding drift") _ h in
    let (here, digest) = bound-inv _ _ _ e found in
    let own : record v { effects = set k (fail retryable reason at e) v.effects } ≡ w = cc in
    subst (λ (x : View). get j x.effects ≡ none) own
      (elim (Bool-cases (same k j)) [
        | inl hit ↦ absurd (cc (same→eq k j hit, here, missing))
        | inr miss ↦ rw (get-set k j (fail retryable reason at e) v.effects, miss) missing
      ])

module _ (host : Host) (request : EffectRequest) (reason now : String) where
  fail_safe-IsStopped :
      (v w : View) (found : Option Promotion)
      → get request.policy_promotion_digest v.policies ≡ found
      → apply_all host v (fail_safe request reason now found) ≡ answer w
      → IsStopped request.policy_promotion_digest w × NoNewEffect v w
  unfolding fail_safe suspension apply_all IsStopped NoNewEffect
  fail_safe-IsStopped v w none here h =
      let own : v ≡ w = cc in
      (
        λ q there.
            absurd (cc (here, ap (λ x. get request.policy_promotion_digest x.policies) own, there)),
        λ k missing. subst (λ x. get k x.effects ≡ none) own missing,
      )
  fail_safe-IsStopped v w (some q) here h = elim (Bool-cases (is_active q.status)) [
    | inl on ↦
        let (w', one, last) =
          >>=-eq-answer
            (apply_event host
              (suspension request.policy_promotion_digest now (fail_safe_reason reason) q).event v)
            _ (rw on at h) in
        let own : w' ≡ w = cc in
        subst (λ x. IsStopped request.policy_promotion_digest x × NoNewEffect v x) own
          (suspended-IsStopped host v w' request.policy_promotion_digest now
            (fail_safe_reason reason) one)
    | inr off ↦
        let own : v ≡ w = cc (rw off at h) in
        (
          λ r there.
              let same_policy : q ≡ r =
                cc (here, ap (λ x. get request.policy_promotion_digest x.policies) own, there) in
              subst (λ x. is_active x.status ≡ false) same_policy off,
          λ k missing. subst (λ x. get k x.effects ≡ none) own missing,
        )
  ]

  failure_drafts-IsStopped :
      (request_digest : String) (retryable : Bool) (threshold : ℕ) (v w : View) (e : EffectState)
      → (not retryable || leb threshold (e.failure_count + 1)) ≡ true
      → apply_all host v (failure_drafts request request_digest retryable reason now threshold v e)
        ≡ answer w
      → IsStopped request.policy_promotion_digest w × NoNewEffect v w
  unfolding failure_drafts apply_all NoNewEffect
  failure_drafts-IsStopped request_digest retryable threshold v w e enough h =
      let (u, one, rest) =
        >>=-eq-answer
          (apply_event host (effect_failed request.effect_key request_digest retryable reason now)
            v)
          _ h in
      let kept =
        failed-policies host v u request.effect_key request_digest retryable reason now one in
      let few =
        failed-NoNewEffect host v u request.effect_key request_digest retryable reason now one in
      let (stopped, none_new) =
        fail_safe-IsStopped u w (get request.policy_promotion_digest v.policies)
          (ap (get request.policy_promotion_digest) kept) (rw enough at rest) in
      (stopped, λ k missing. none_new k (few k missing))

  -- What the plan for a failure leads to.
  plan_failure-IsStopped :
      (retryable : Bool) (a : Authority) (v : View) (e : EffectState) (made : Plan (Unit {0}))
      → replay host a.events ≡ answer v
      → get request.effect_key v.effects ≡ some e
      → e.receipt ≡ none
      → (not retryable || leb a.suspension_threshold (e.failure_count + 1)) ≡ true
      → plan_failure host request retryable reason now a ≡ answer made
      → (w : View) → apply_all host v made.drafts ≡ answer w
      → IsStopped request.policy_promotion_digest w × NoNewEffect v w
  unfolding plan_failure
  plan_failure-IsStopped retryable a v e made h here fresh enough planned w goes =
      let digest = canonical_digest host (request_document request) in
      let (u1, e1, h1) = >>=-eq-answer (assert_open a) _ planned in
      let (x, e2, h2) = >>=-eq-answer (replay host a.events) _ h1 in
      let (f, e3, h3) =
        >>=-eq-answer
          (bound (get request.effect_key x.effects) digest "Outbound effect was not authorized") _
          h2 in
      let (there, own) = bound-inv _ _ _ f e3 in
      let same_view : x ≡ v = cc in
      let same_effect : f ≡ e =
        cc (there, here, ap (λ (y : View). get request.effect_key y.effects) same_view) in
      let planned_on = λ (y : View) (g : EffectState).
        plan {A = Unit {0}}
          (if is_some g.receipt
            then []
            else failure_drafts request digest retryable reason now a.suspension_threshold y g)
          tt
        ≡ answer made in
      let last : planned_on v e =
        subst (planned_on v) same_effect (subst (λ y. planned_on y f) same_view h3) in
      let drafts_are : failure_drafts request digest retryable reason now a.suspension_threshold v e
          ≡ made.drafts =
        ground (arith, fresh, last) in
      failure_drafts-IsStopped digest retryable a.suspension_threshold v w e enough
        (rw drafts_are goes)

-- A failure for good, and one that makes as many as the threshold, ends what its policy permits: once
-- such a failure is recorded of an effect without a receipt, `authorize` grants nothing to an effect
-- that names the same promotion and has not been granted before, at whatever instant.
pub record_failure-stops :
    (p : Platform) (request : EffectRequest) (retryable : Bool) (reason now : String)
    (a : Authority) (v : View) (e : EffectState) (other : EffectRequest) (later d : String)
    → replay p.host a.events ≡ answer v
    → IsWithin p.host v
    → get request.effect_key v.effects ≡ some e
    → e.receipt ≡ none
    → (not retryable || leb a.suspension_threshold (e.failure_count + 1)) ≡ true
    → (record_failure p request retryable reason now a).1 ≡ answer tt
    → other.policy_promotion_digest ≡ request.policy_promotion_digest
    → get other.effect_key v.effects ≡ none
    → (authorize p other later (record_failure p request retryable reason now a).0).1 ≢ answer d
unfolding record_failure IsStopped NoNewEffect GrantedBy Goes Safe
record_failure-stops p request retryable reason now a v e other later d h within here fresh enough
      done same_policy new granted =
    let m = plan_failure p.host request retryable reason now a in
    let (made, planned, result, table) = commit-inv p a m tt done in
    let (w, goes, follows, within') =
      subst (Safe p.host v) planned
        (plan_failure-Safe p.host request retryable reason now a v h within) in
    let (stopped, none_new) =
      plan_failure-IsStopped p.host request reason now retryable a v e made h here fresh enough
        planned w goes in
    let a' : Authority = record a { events = append_all p a.events made.drafts } in
    let h' = replay-append_all p a.events made.drafts v w h goes in
    let granted' : (authorize p other later a').1 ≡ answer d =
      subst (λ b. (authorize p other later b).1 ≡ answer d) table granted in
    let (allowed, grounds) = authorize-Granted p other later a' w d h' granted' in
    let (x, effect, replayed, is_granted, by) = grounds in
    elim by [
      | inl (there, good) ↦ cc (none_new other.effect_key new, there)
      | inr (missing, status, (q, found, permits)) ↦
          cc (stopped q (subst (λ k. get k w.policies ≡ some q) same_policy found), permits.stands)
    ]
