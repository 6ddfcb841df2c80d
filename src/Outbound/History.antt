-- ===== src/Outbound/History.antt =====
-- What the events of packages/kernel/src/outbound-authority.ts keep: effects go on under the grant
-- that they were given, and policies and effects stay within the ceiling.
use parallelplay.Prelude.{
  ◌≤◌, ◌≡◌, refl, sym, subst, ◌∙◌, Bool, true, all, none, some, String, Map, get, set, get-set,
  same, same→eq, same_refl, arith, Bool-cases, inl, inr,
}
use parallelplay.Canonical.{Host, canonical_digest}
use parallelplay.Outbound.Actions.{is_automatic_action_allowed}
use parallelplay.Outbound.Data.{
  Promotion, EffectReceipt, EffectState, AuthorityEvent, policy_promoted, policy_suspended,
  effect_authorized, effect_receipt_recorded, effect_failed, View, Answer, answer,
}
use parallelplay.Outbound.Documents.{policy_document, request_document}
use parallelplay.Outbound.Replay.{bound, suspend, deliver, fail, apply_event}

module _ {V : Type 0} (k : String) (new : V) (m : Map V) where
  -- What holds of an entry that is written and of those that are there, holds of all.
  set-each {κ} :
      (P : String → V → Type κ)
      → P k new
      → ((j : String) (w : V) → get j m ≡ some w → P j w)
      → (j : String) (w : V) → get j (set k new m) ≡ some w
      → P j w
  set-each P own old j w h = elim (Bool-cases (same k j)) [
    | inl hit ↦
        let here : new ≡ w = ground (arith, get-set k j new m, hit, h) in
        subst (λ i. P i w) (same→eq k j hit) (subst (P k) here own)
    | inr miss ↦ old j w (ground (arith, get-set k j new m, miss, h))
  ]

  -- An entry that is there before a write has a sequel after it.
  set-kept {κ} :
      (R : V → V → Type κ)
      → ((w : V) → R w w)
      → ((w : V) → get k m ≡ some w → R w new)
      → (j : String) (w : V) → get j m ≡ some w
      → (w' : V) × (get j (set k new m) ≡ some w') × R w w'
  set-kept R same_entry own j w h = elim (Bool-cases (same k j)) [
    | inl hit ↦ (
      new,
      ground (arith, get-set k j new m, hit),
      own w (subst (λ i. get i m ≡ some w) (sym (same→eq k j hit)) h),
    )
    | inr miss ↦ (w, ground (arith, get-set k j new m, miss, h), same_entry w)
  ]

-- The grant of an effect is never changed, nor is a receipt, and failures are only added.
pub record Continues (e e' : EffectState) : Type 0 where
  pub same_request : e'.request ≡ e.request
  pub same_digest : e'.request_digest ≡ e.request_digest
  pub same_authorization : e'.authorization_digest ≡ e.authorization_digest
  pub same_receipt : (r : EffectReceipt) → e.receipt ≡ some r → e'.receipt ≡ some r
  pub more_failures : e.failure_count ≤ e'.failure_count

Continues-refl : (e : EffectState) → Continues e e
Continues-refl e = record {
  same_request = refl;
  same_digest = refl;
  same_authorization = refl;
  same_receipt = λ r h. h;
  more_failures = omega arith;
}

pub Continues-trans : (e f g : EffectState) → Continues e f → Continues f g → Continues e g
Continues-trans e f g p q = record {
  same_request = q.same_request ∙ p.same_request;
  same_digest = q.same_digest ∙ p.same_digest;
  same_authorization = q.same_authorization ∙ p.same_authorization;
  same_receipt = λ r h. q.same_receipt r (p.same_receipt r h);
  more_failures = let one = p.more_failures in let two = q.more_failures in omega arith;
}

-- Every effect of the one view goes on in the other.
unfoldable pub Follows : View → View → Type 0
Follows v v' =
    (k : String) (e : EffectState)
    → get k v.effects ≡ some e
    → (e' : EffectState) × (get k v'.effects ≡ some e') × Continues e e'

pub Follows-refl : (v : View) → Follows v v
unfolding Follows
Follows-refl v k e h = (e, h, Continues-refl e)

pub Follows-trans : (v w x : View) → Follows v w → Follows w x → Follows v x
unfolding Follows
Follows-trans v w x p q k e h =
    let (f, there, one) = p k e h in
    let (g, end, two) = q k f there in (g, end, Continues-trans e f g one two)

-- Policies and effects are of allowed actions, and effects stand under their keys with the digests
-- of their requests.
pub record IsWithin (host : Host) (v : View) : Type 0 where
  pub policies :
      (k : String) (q : Promotion)
      → get k v.policies ≡ some q
      → all is_automatic_action_allowed q.policy.allowed_actions ≡ true
  pub effects :
      (k : String) (e : EffectState)
      → get k v.effects ≡ some e
      → (is_automatic_action_allowed e.request.action ≡ true)
        × (e.request.effect_key ≡ k)
        × (e.request_digest ≡ canonical_digest host (request_document e.request))

-- When an event fits the view that it is applied to.
unfoldable pub Fits : Host → View → AuthorityEvent → Type 0
Fits host v (policy_promoted policy policy_digest promotion_digest promoted_by promoted_at) =
    (canonical_digest host (policy_document policy) ≡ policy_digest)
    × (all is_automatic_action_allowed policy.allowed_actions ≡ true)
Fits host v (policy_suspended promotion_digest suspended_at reason) =
    (q : Promotion) × (get promotion_digest v.policies ≡ some q)
Fits host v (effect_authorized request request_digest authorization_digest authorized_at) =
    (canonical_digest host (request_document request) ≡ request_digest)
    × (get request.effect_key v.effects ≡ none)
    × (is_automatic_action_allowed request.action ≡ true)
Fits host v (effect_receipt_recorded effect_key request_digest receipt recorded_at) =
    (e : EffectState) × (get effect_key v.effects ≡ some e)
    × (e.request_digest ≡ request_digest)
    × (e.receipt ≡ none)
Fits host v (effect_failed effect_key request_digest retryable reason occurred_at) =
    (e : EffectState) × (get effect_key v.effects ≡ some e) × (e.request_digest ≡ request_digest)

unfoldable pub Goes : Host → View → Answer View → Type 0
Goes host v m = (v' : View) × (m ≡ answer v') × Follows v v' × IsWithin host v'

-- An effect that is rewritten under its key and goes on keeps the view in order.
rewritten :
    (host : Host) (v : View) (k : String) (e e' : EffectState)
    → IsWithin host v
    → get k v.effects ≡ some e
    → Continues e e'
    → Goes host v (answer (record v { effects = set k e' v.effects }))
unfolding Goes Follows
rewritten host v k e e' within h goes_on = (
  _,
  refl,
  set-kept k e' v.effects Continues Continues-refl
      (λ w there. subst (λ x. Continues x e') (ground (arith, h, there)) goes_on),
  record {
    policies = within.policies;
    effects =
        set-each k e' v.effects _
          (let (allowed, own, digest) = within.effects k e h in
            rw (goes_on.same_request, goes_on.same_digest) (allowed, own, digest))
          within.effects;
  },
)

pub bound-answers :
    (e : EffectState) (request_digest message : String)
    → e.request_digest ≡ request_digest
    → bound (some e) request_digest message ≡ answer e
unfolding bound
bound-answers e request_digest message h = rw (h, same_refl request_digest) refl

deliver-Continues :
    (receipt : EffectReceipt) (e : EffectState) → e.receipt ≡ none → Continues e (deliver receipt e)
unfolding deliver
deliver-Continues receipt e fresh = record {
  same_request = refl;
  same_digest = refl;
  same_authorization = refl;
  same_receipt = λ r h. absurd (cc (fresh, h));
  more_failures = omega arith;
}

fail-Continues :
    (retryable : Bool) (reason at : String) (e : EffectState)
    → Continues e (fail retryable reason at e)
unfolding fail
fail-Continues retryable reason at e = record {
  same_request = refl;
  same_digest = refl;
  same_authorization = refl;
  same_receipt = λ r h. h;
  more_failures = omega arith;
}

-- An event that fits is applied, and keeps what there is.
pub apply_event-Goes :
    (host : Host) (v : View) (event : AuthorityEvent)
    → IsWithin host v
    → Fits host v event
    → Goes host v (apply_event host event v)
unfolding Fits apply_event Goes Follows
apply_event-Goes host v (policy_promoted policy policy_digest promotion_digest by at) within fits =
    rw (fits.0, same_refl policy_digest)
      (
        _,
        refl,
        Follows-refl v,
        record {
          policies = set-each promotion_digest _ v.policies _ fits.1 within.policies;
          effects = within.effects;
        },
      )
apply_event-Goes host v (policy_suspended promotion_digest at reason) within (q, here) = rw here (
  _,
  refl,
  Follows-refl v,
  record {
    policies =
        set-each promotion_digest (suspend at reason q) v.policies _
          (within.policies promotion_digest q here) within.policies;
    effects = within.effects;
  },
)
apply_event-Goes host v (effect_authorized request request_digest grant at) within
      (digest, new, allowed) =
    rw (digest, same_refl request_digest)
      (
        _,
        refl,
        set-kept request.effect_key _ v.effects Continues Continues-refl
            (λ w there. absurd (cc (new, there))),
        record {
          policies = within.policies;
          effects =
              set-each request.effect_key _ v.effects _ (allowed, refl, sym digest) within.effects;
        },
      )
apply_event-Goes host v (effect_receipt_recorded k request_digest receipt at) within
      (e, here, digest, fresh) =
    rw (here, bound-answers e request_digest "Outbound receipt binding drift" digest)
      (rewritten host v k e (deliver receipt e) within here (deliver-Continues receipt e fresh))
apply_event-Goes host v (effect_failed k request_digest retryable reason at) within
      (e, here, digest) =
    rw (here, bound-answers e request_digest "Outbound failure binding drift" digest)
      (rewritten host v k e (fail retryable reason at e) within here
        (fail-Continues retryable reason at e))
