-- ===== src/Outbound/Effects.antt =====
-- Grants, receipts and failures of packages/kernel/src/outbound-authority.ts append what fits.
use parallelplay.Prelude.{
  ℕ, ◌+◌, ◌≡◌, refl, sym, ap, subst, Bool, true, not, ◌||◌, Option, none, some, String, get, set,
  join, is_some, same, same→eq, leb, arith, Bool-cases, inl, inr,
}
use parallelplay.Canonical.{Host, canonical_digest}
use parallelplay.Outbound.Actions.{action_text, is_automatic_action_allowed}
use parallelplay.Outbound.Data.{
  Promotion, EffectRequest, EffectReceipt, EffectState, effect_failed, View, Authority, answer,
  raise_if,
}
use parallelplay.Outbound.Documents.{request_document, unsigned_document}
use parallelplay.Outbound.Replay.{apply_event, bound, fail, replay}
use parallelplay.Outbound.Tables.{assert_open, is_active}
use parallelplay.Outbound.Policies.{suspension}
use parallelplay.Outbound.Grants.{grant, plan_authorization, check_grant}
use parallelplay.Outbound.Outcomes.{
  is_bound_to, keep_receipt, plan_receipt, fail_safe, failure_drafts, plan_failure,
}
use parallelplay.Outbound.Rows.{apply_all, >>=-eq-answer, raise_if-inv}
use parallelplay.Outbound.History.{IsWithin, Fits, Goes}
use parallelplay.Outbound.Plans.{none-Goes, cons-Goes, one-Goes, Safe, Safe->>=, Safe-plan}

pub bound-inv :
    (o : Option EffectState) (request_digest message : String) (e : EffectState)
    → bound o request_digest message ≡ answer e
    → (o ≡ some e) × (e.request_digest ≡ request_digest)
unfolding bound
bound-inv none request_digest message e h = cc
bound-inv (some f) request_digest message e h =
    elim (Bool-cases (same f.request_digest request_digest)) [
      | inl hit ↦
          let own : f ≡ e = cc (rw hit at h) in
          (
            ap some own,
            subst (λ x. x.request_digest ≡ request_digest) own
                (same→eq f.request_digest request_digest hit),
          )
      | inr miss ↦ absurd (cc (rw miss at h))
    ]

-- Rows about effects leave the policies as they are.
pub failed-policies :
    (host : Host) (v w : View) (k request_digest : String) (retryable : Bool) (reason at : String)
    → apply_event host (effect_failed k request_digest retryable reason at) v ≡ answer w
    → w.policies ≡ v.policies
unfolding apply_event
failed-policies host v w k request_digest retryable reason at h =
    let (e, found, last) =
      >>=-eq-answer (bound (get k v.effects) request_digest "Outbound failure binding drift") _ h in
    let same_view : record v { effects = set k (fail retryable reason at e) v.effects } ≡ w = cc in
    sym (ap (λ (x : View). x.policies) same_view)

module _ (host : Host) where
  grant-Safe :
      (request : EffectRequest) (now : String) (v : View) (found : Option EffectState)
      → IsWithin host v
      → is_automatic_action_allowed request.action ≡ true
      → get request.effect_key v.effects ≡ found
      → Safe host v (grant host request now v found)
  unfolding grant Fits
  grant-Safe request now v none within allowed new =
      Safe->>= host v (check_grant request now (get request.policy_promotion_digest v.policies)) _
        λ u e. Safe-plan host v _ _ (one-Goes host v _ within (refl, new, allowed))
  grant-Safe request now v (some prior) within allowed here =
      search (Safe->>=, Safe-plan, none-Goes)

  pub plan_authorization-Safe :
      (request : EffectRequest) (now : String) (a : Authority) (v : View)
      → replay host a.events ≡ answer v
      → IsWithin host v
      → Safe host v (plan_authorization host request now a)
  unfolding plan_authorization
  plan_authorization-Safe request now a v h within = Safe->>= host v (assert_open a) _ λ u e.
      Safe->>= host v
        (raise_if (not (is_automatic_action_allowed request.action)) (
          join "Outbound action is outside the non-configurable global authority ceiling: "
            (action_text request.action)))
        _
        λ u' e'.
          let inside = raise_if-inv _ _ u' e' in
          rw h (grant-Safe request now v _ within (ground arith) refl)

  keep_receipt-Safe :
      (request : EffectRequest) (request_digest : String) (receipt : EffectReceipt) (now : String)
      (v : View) (e : EffectState) (found : Option EffectReceipt)
      → IsWithin host v
      → get request.effect_key v.effects ≡ some e
      → e.request_digest ≡ request_digest
      → e.receipt ≡ found
      → Safe host v (keep_receipt request request_digest receipt now found)
  unfolding keep_receipt Fits
  keep_receipt-Safe request request_digest receipt now v e none within here digest fresh =
      Safe-plan host v _ tt (one-Goes host v _ within (e, here, digest, fresh))
  keep_receipt-Safe request request_digest receipt now v e (some prior) within here digest old =
      search (Safe->>=, Safe-plan, none-Goes)

  pub plan_receipt-Safe :
      (request : EffectRequest) (receipt : EffectReceipt) (now : String) (a : Authority) (v : View)
      → replay host a.events ≡ answer v
      → IsWithin host v
      → Safe host v (plan_receipt host request receipt now a)
  unfolding plan_receipt
  plan_receipt-Safe request receipt now a v h within = Safe->>= host v (assert_open a) _ λ u e.
      Safe->>= host v
        (raise_if
          (not (same (canonical_digest host (unsigned_document receipt)) receipt.receipt_digest))
          "Outbound receipt digest is invalid")
        _
        λ u' e'.
          Safe->>= host v
            (raise_if (not (is_bound_to receipt request))
              "Outbound receipt does not match the authorized request")
            _
            λ u'' e''. rw h (
              Safe->>= host v
                (bound (get request.effect_key v.effects)
                  (canonical_digest host (request_document request))
                  "Outbound effect was not authorized")
                _
                λ effect found.
                  let (here, digest) = bound-inv _ _ _ effect found in
                  keep_receipt-Safe request _ receipt now v effect effect.receipt within here digest
                    refl)

  fail_safe-Goes :
      (request : EffectRequest) (reason now : String) (v : View) (found : Option Promotion)
      → IsWithin host v
      → get request.policy_promotion_digest v.policies ≡ found
      → Goes host v (apply_all host v (fail_safe request reason now found))
  unfolding fail_safe suspension Fits
  fail_safe-Goes request reason now v none within here = none-Goes host v within
  fail_safe-Goes request reason now v (some q) within here =
      elim (Bool-cases (is_active q.status)) [
        | inl on ↦ rw on (one-Goes host v _ within (q, here))
        | inr off ↦ rw off (none-Goes host v within)
      ]

  failure_drafts-Goes :
      (request : EffectRequest) (request_digest : String) (retryable : Bool) (reason now : String)
      (threshold : ℕ) (v : View) (e : EffectState)
      → IsWithin host v
      → get request.effect_key v.effects ≡ some e
      → e.request_digest ≡ request_digest
      → Goes host v (
          apply_all host v
            (failure_drafts request request_digest retryable reason now threshold v e))
  unfolding failure_drafts Fits
  failure_drafts-Goes request request_digest retryable reason now threshold v e within here digest =
      cons-Goes host v _ _ within (e, here, digest)
        λ w one within'.
          let kept =
            failed-policies host v w request.effect_key request_digest retryable reason now one in
          elim (Bool-cases (not retryable || leb threshold (e.failure_count + 1))) [
            | inl stop ↦ rw stop (
                fail_safe-Goes request reason now w _ within'
                  (ap (get request.policy_promotion_digest) kept))
            | inr go ↦ rw go (none-Goes host w within')
          ]

  pub plan_failure-Safe :
      (request : EffectRequest) (retryable : Bool) (reason now : String) (a : Authority) (v : View)
      → replay host a.events ≡ answer v
      → IsWithin host v
      → Safe host v (plan_failure host request retryable reason now a)
  unfolding plan_failure
  plan_failure-Safe request retryable reason now a v h within =
      Safe->>= host v (assert_open a) _ λ u e. rw h (
        Safe->>= host v
          (bound (get request.effect_key v.effects)
            (canonical_digest host (request_document request)) "Outbound effect was not authorized")
          _
          λ effect found.
            let (here, digest) = bound-inv _ _ _ effect found in
            Safe-plan host v _ tt (elim (Bool-cases (is_some effect.receipt)) [
              | inl done ↦ rw done (none-Goes host v within)
              | inr open_effect ↦ rw open_effect (
                  failure_drafts-Goes request _ retryable reason now a.suspension_threshold v effect
                    within here digest)
            ]))
