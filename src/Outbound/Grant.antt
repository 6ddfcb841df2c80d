-- ===== src/Outbound/Grant.antt =====
-- What `authorize` of packages/kernel/src/outbound-authority.ts grants, and that it grants it once.
use parallelplay.Prelude.{
  ◌≡◌, ◌⊎◌, inl, inr, refl, subst, true, false, not, any, Option, none, some, String, get, set,
  get-set_self, join, same, same→eq, same_refl, arith,
}
use parallelplay.Canonical.{Host, canonical_digest}
use parallelplay.Outbound.Actions.{action_text, same_action, is_automatic_action_allowed}
use parallelplay.Outbound.Data.{
  Platform, Promotion, EffectRequest, EffectState, authorized, View, Authority, Answer, answer,
  raised, raise_if,
}
use parallelplay.Outbound.Documents.{request_document}
use parallelplay.Outbound.Replay.{replay, apply_event, authorized_effect}
use parallelplay.Outbound.Tables.{Plan, commit, assert_open, append_all, text_le, is_active}
use parallelplay.Outbound.Grants.{
  authorize, plan_authorization, grant, check_grant, is_failed, authorization_digest_of,
}
use parallelplay.Outbound.Rows.{>>=-eq-answer, raise_if-inv, apply_all, replay-append_all}

-- The policy is active, its expiry is a text after the instant's, and it names the action and the
-- target.
pub record Permits (request : EffectRequest) (now : String) (q : Promotion) : Type 0 where
  pub stands : is_active q.status ≡ true
  pub in_time : text_le q.policy.expires_at now ≡ false
  pub names_action : any (same_action request.action) q.policy.allowed_actions ≡ true
  pub names_target : any (same request.target) q.policy.targets ≡ true

check_grant-inv :
    (request : EffectRequest) (now : String) (found : Option Promotion) (u : Unit {0})
    → check_grant request now found ≡ answer u
    → (q : Promotion) × (found ≡ some q) × Permits request now q
unfolding check_grant
check_grant-inv request now none u h = cc
check_grant-inv request now (some q) u h =
    let (u1, e1, h1) =
      >>=-eq-answer (raise_if (not (is_active q.status)) "Outbound policy is not active") _ h in
    let (u2, e2, h2) =
      >>=-eq-answer (raise_if (text_le q.policy.expires_at now) "Outbound policy is expired") _
        h1 in
    let (u3, e3, h3) =
      >>=-eq-answer
        (raise_if (not (any (same_action request.action) q.policy.allowed_actions))
          "Outbound action is not policy-approved")
        _ h2 in
    let one = raise_if-inv _ _ u1 e1 in
    let two = raise_if-inv _ _ u2 e2 in
    let three = raise_if-inv _ _ u3 e3 in
    let four = raise_if-inv _ _ u h3 in
    (
      q,
      refl,
      record {
        stands = ground arith;
        in_time = two;
        names_action = ground arith;
        names_target = ground arith;
      },
    )

answer-injective {ℓ} : {A : Type ℓ} {x y : A} → answer x ≡ answer y → x ≡ y
answer-injective h = cc

-- The effect that a grant stands on: an earlier one, whose status is not
-- failed_terminal, or a new one that a policy permits.
unfoldable pub GrantedBy : Host → EffectRequest → String → View → EffectState → Type 0
GrantedBy host request now v e =
    ((get request.effect_key v.effects ≡ some e) × (is_failed e.status ≡ false))
    ⊎ ((get request.effect_key v.effects ≡ none)
        × (e.status ≡ authorized)
        × ((q : Promotion) × (get request.policy_promotion_digest v.policies ≡ some q)
            × Permits request now q))

-- What is recorded of an authorized effect.
pub record IsGranted (host : Host) (request : EffectRequest) (digest : String) (v : View)
    (e : EffectState) : Type 0 where
  pub there : get request.effect_key v.effects ≡ some e
  pub of_request : e.request_digest ≡ canonical_digest host (request_document request)
  pub of_grant : e.authorization_digest ≡ digest
  pub not_failed : is_failed e.status ≡ false

module _ (host : Host) (request : EffectRequest) (now : String) (v : View) where
  -- What a plan for an authorization leads to.
  Planned : Plan String → Type 0
  Planned made =
      (v' : View) × (e : EffectState) × (apply_all host v made.drafts ≡ answer v')
      × IsGranted host request made.result v' e
      × GrantedBy host request now v e

  grant-Planned :
      (found : Option EffectState) (made : Plan String)
      → get request.effect_key v.effects ≡ found
      → grant host request now v found ≡ answer made
      → Planned made
  unfolding grant Planned GrantedBy apply_all apply_event authorized_effect is_failed
  grant-Planned none made new h =
      let (u, checked, last) =
        >>=-eq-answer (check_grant request now (get request.policy_promotion_digest v.policies)) _
          h in
      let (q, found, permits) = check_grant-inv request now _ u checked in
      let digest = canonical_digest host (request_document request) in
      let d = authorization_digest_of host digest request.policy_promotion_digest now in
      let e = authorized_effect request digest d now in
      subst Planned (answer-injective last) (
        record v { effects = set request.effect_key e v.effects },
        e,
        rw (same_refl digest) refl,
        record {
          there = get-set_self request.effect_key e v.effects;
          of_request = refl;
          of_grant = refl;
          not_failed = refl;
        },
        inr (new, refl, (q, found, permits)),
      )
  grant-Planned (some prior) made here h =
      let (u1, e1, h1) =
        >>=-eq-answer
          (raise_if
            (not (same prior.request_digest (canonical_digest host (request_document request))))
            "Outbound effect key was reused with different input")
          _ h in
      let (u2, e2, h2) =
        >>=-eq-answer
          (raise_if (is_failed prior.status) "Outbound effect previously failed terminally") _ h1 in
      let differs = raise_if-inv _ _ u1 e1 in
      let good = raise_if-inv _ _ u2 e2 in
      subst Planned (answer-injective h2) (
        v,
        prior,
        refl,
        record {
          there = here;
          of_request = same→eq prior.request_digest _ (ground arith);
          of_grant = refl;
          not_failed = good;
        },
        inl (here, good),
      )

  plan_authorization-Planned :
      (a : Authority) (made : Plan String)
      → replay host a.events ≡ answer v
      → plan_authorization host request now a ≡ answer made
      → (a.closed ≡ false) × (is_automatic_action_allowed request.action ≡ true) × Planned made
  unfolding plan_authorization assert_open
  plan_authorization-Planned a made h made_so =
      let (u1, e1, h1) = >>=-eq-answer (assert_open a) _ made_so in
      let (u2, e2, h2) =
        >>=-eq-answer
          (raise_if (not (is_automatic_action_allowed request.action)) (
            join "Outbound action is outside the non-configurable global authority ceiling: "
              (action_text request.action)))
          _ h1 in
      let (w, e3, h3) = >>=-eq-answer (replay host a.events) _ h2 in
      let own : w ≡ v = cc in
      let refused = raise_if-inv _ _ u2 e2 in
      (
        raise_if-inv _ _ u1 e1,
        ground arith,
        grant-Planned _ made refl (
            subst (λ x. grant host request now x (get request.effect_key x.effects) ≡ answer made)
              own h3),
      )

pub commit-inv {ℓ} :
    {A : Type ℓ} (p : Platform) (a : Authority) (m : Answer (Plan A)) (r : A)
    → (commit p a m).1 ≡ answer r
    → (made : Plan A) × (m ≡ answer made)
      × (made.result ≡ r)
      × ((commit p a m).0 ≡ record a { events = append_all p a.events made.drafts })
unfolding commit
commit-inv p a (raised message) r h = cc
commit-inv p a (answer made) r h = (made, refl, answer-injective h, refl)

-- Where the effect is granted already, its grant is the plan, and nothing is appended.
again :
    (p : Platform) (request : EffectRequest) (later : String) (a : Authority) (v : View)
    (e : EffectState) (d : String)
    → replay p.host a.events ≡ answer v
    → a.closed ≡ false
    → is_automatic_action_allowed request.action ≡ true
    → IsGranted p.host request d v e
    → authorize p request later a ≡ (a, answer d)
unfolding authorize plan_authorization assert_open grant commit append_all
again p request later a v e d h is_open allowed g =
    rw
      (
        is_open,
        allowed,
        h,
        g.there,
        g.of_request,
        same_refl (canonical_digest p.host (request_document request)),
        g.not_failed,
        g.of_grant,
      )
      refl

-- An authorization is granted on grounds: if `authorize` answers a digest, the action is within the
-- fixed ceiling, the rows then hold the effect with the digest of this very request, that
-- authorization and a status other than failed_terminal, and either the effect was there before,
-- with a status other than failed_terminal, or it is new and the policy that the request names is
-- active, has an expiry whose text comes after the instant's, and names its action and target.
pub authorize-Granted :
    (p : Platform) (request : EffectRequest) (now : String) (a : Authority) (v : View) (d : String)
    → replay p.host a.events ≡ answer v
    → (authorize p request now a).1 ≡ answer d
    → (is_automatic_action_allowed request.action ≡ true)
      × ((v' : View) × (e : EffectState) × (replay p.host (authorize p request now a).0.events
            ≡ answer v')
          × IsGranted p.host request d v' e
          × GrantedBy p.host request now v e)
unfolding authorize Planned
authorize-Granted p request now a v d h granted =
    let (made, e, result, table) =
      commit-inv p a (plan_authorization p.host request now a) d granted in
    let (is_open, allowed, planned) = plan_authorization-Planned p.host request now v a made h e in
    let (v', effect, goes, is_granted, by) = planned in
    (
      allowed,
      (
        v',
        effect,
        rw table (replay-append_all p a.events made.drafts v v' h goes),
        subst (λ x. IsGranted p.host request x v' effect) result is_granted,
        by,
      ),
    )

-- An authorization is given once: asked again for the same request, whenever, `authorize` answers
-- the same digest and appends nothing.
pub authorize_again :
    (p : Platform) (request : EffectRequest) (now later : String) (a : Authority) (v : View)
    (d : String)
    → replay p.host a.events ≡ answer v
    → (authorize p request now a).1 ≡ answer d
    → authorize p request later (authorize p request now a).0
      ≡ ((authorize p request now a).0, answer d)
unfolding authorize Planned
authorize_again p request now later a v d h granted =
    let (made, e, result, table) =
      commit-inv p a (plan_authorization p.host request now a) d granted in
    let (is_open, allowed, planned) = plan_authorization-Planned p.host request now v a made h e in
    let (v', effect, goes, is_granted, by) = planned in
    let h' = replay-append_all p a.events made.drafts v v' h goes in
    let a' : Authority = record a { events = append_all p a.events made.drafts } in
    rw (table, ← result)
      (again p request later a' v' effect made.result h' is_open allowed is_granted)
