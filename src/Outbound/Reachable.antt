-- ===== src/Outbound/Reachable.antt =====
-- The authorities that the operations of packages/kernel/src/outbound-authority.ts lead to.
use parallelplay.Prelude.{ℕ, ◌≡◌, refl, subst, Bool, false, some, [], String, get}
use parallelplay.Canonical.{Host}
use parallelplay.Outbound.Data.{
  Platform, OutboundPolicy, EffectRequest, EffectReceipt, View, Authority, Answer, answer, raised,
}
use parallelplay.Outbound.Replay.{replay, replay_from, no_view}
use parallelplay.Outbound.Tables.{Plan, commit}
use parallelplay.Outbound.Policies.{
  promote_policy, suspend_policy, plan_promotion, read_back, Promoted, existing, recorded,
}
use parallelplay.Outbound.Grants.{authorize}
use parallelplay.Outbound.Outcomes.{record_receipt, record_failure}
use parallelplay.Outbound.Inspection.{close}
use parallelplay.Outbound.Rows.{replay-append_all}
use parallelplay.Outbound.History.{Follows, Follows-refl, IsWithin, Goes}
use parallelplay.Outbound.Plans.{Safe, plan_promotion-Safe, plan_suspension-Safe}
use parallelplay.Outbound.Effects.{plan_authorization-Safe, plan_receipt-Safe, plan_failure-Safe}

-- What a caller can ask of the authority that writes to its table, or closes it.
pub data Operation : Type 0 where
  promote : (policy : OutboundPolicy) (actor : String) → Operation
  suspend : (promotion_digest reason : String) → Operation
  authorize_effect : (request : EffectRequest) → Operation
  receive : (request : EffectRequest) (receipt : EffectReceipt) → Operation
  report_failure : (request : EffectRequest) (retryable : Bool) (reason : String) → Operation
  shut_down : Operation

unfoldable pub perform : Platform → Operation → String → Authority → Authority
perform p (promote policy actor) now a = (promote_policy p policy actor now a).0
perform p (suspend promotion_digest reason) now a =
    (suspend_policy p promotion_digest reason now a).0
perform p (authorize_effect request) now a = (authorize p request now a).0
perform p (receive request receipt) now a = (record_receipt p request receipt now a).0
perform p (report_failure request retryable reason) now a =
    (record_failure p request retryable reason now a).0
perform p shut_down now a = close a

pub data Reachable (p : Platform) : Authority → Type 0 where
  opened :
      (threshold : ℕ)
      → Reachable p (record { events = []; closed = false; suspension_threshold = threshold })
  after :
      {a : Authority}
      → Reachable p a
      → (op : Operation) (now : String) → Reachable p (perform p op now a)

-- The rows lead to a view that goes on from the one given and is within the ceiling.
pub Leads : Host → View → Authority → Type 0
Leads host v a = (v' : View) × (replay host a.events ≡ answer v') × Follows v v' × IsWithin host v'

module _ (p : Platform) (a : Authority) (v : View) (h : replay p.host a.events ≡ answer v)
    (within : IsWithin p.host v) where
  commit-Leads {ℓ} :
      {A : Type ℓ} (m : Answer (Plan A)) → Safe p.host v m → Leads p.host v (commit p a m).0
  unfolding commit Safe Leads Goes
  commit-Leads (raised message) safe = (v, h, Follows-refl v, within)
  commit-Leads (answer made) (w, one, follows, within') =
      (w, replay-append_all p a.events made.drafts v w h one, follows, within')

  read_back-authority : (r : Authority × Answer Promoted) → (read_back p.host r).0 ≡ r.0
  unfolding read_back
  read_back-authority (b, raised message) = refl
  read_back-authority (b, answer (existing q)) = refl
  read_back-authority (b, answer (recorded d)) = refl

  perform-Leads : (op : Operation) (now : String) → Leads p.host v (perform p op now a)
  unfolding perform promote_policy suspend_policy authorize record_receipt record_failure close
      Leads
  perform-Leads (promote policy actor) now =
      rw (read_back-authority (commit p a (plan_promotion p.host policy actor now a)))
        (commit-Leads _ (plan_promotion-Safe p.host policy actor now a v h within))
  perform-Leads (suspend digest reason) now =
      commit-Leads _ (plan_suspension-Safe p.host digest reason now a v h within)
  perform-Leads (authorize_effect request) now =
      commit-Leads _ (plan_authorization-Safe p.host request now a v h within)
  perform-Leads (receive request receipt) now =
      commit-Leads _ (plan_receipt-Safe p.host request receipt now a v h within)
  perform-Leads (report_failure request retryable reason) now =
      commit-Leads _ (plan_failure-Safe p.host request retryable reason now a v h within)
  perform-Leads shut_down now = (v, h, Follows-refl v, within)

-- In every authority that operations lead to from an empty table, the rows replay without an
-- exception, every policy and every effect is of actions within the fixed ceiling, and every effect
-- stands under its own key with the digest of its request.
pub Reachable-IsWithin :
    (p : Platform) (a : Authority)
    → Reachable p a
    → (v : View) × (replay p.host a.events ≡ answer v) × IsWithin p.host v
unfolding replay replay_from Leads get
Reachable-IsWithin p a (opened threshold) = (
  no_view,
  refl,
  record {
    policies = λ k q h. absurd (none_there k q h);
    effects = λ k e h. absurd (none_there k e h);
  },
)
  where
    none_there : {V : Type 0} (k : String) (x : V) → get k [] ≡ some x → ⊥
    none_there k x h = cc
Reachable-IsWithin p a (after {a = b} r op now) =
    let (v, h, within) = Reachable-IsWithin p b r in
    let (w, h', follows, within') = perform-Leads p b v h within op now in (w, h', within')

-- No operation rewrites history: in an authority that operations lead to, an effect keeps its
-- request, its digests and its authorization through every further operation, its failures are
-- never fewer, and a receipt that it has stays the same.
pub perform-Follows :
    (p : Platform) (a : Authority) (op : Operation) (now : String) (v : View)
    → Reachable p a
    → replay p.host a.events ≡ answer v
    → (v' : View) × (replay p.host (perform p op now a).events ≡ answer v') × Follows v v'
unfolding Leads
perform-Follows p a op now v r h =
    let (w, h', within) = Reachable-IsWithin p a r in
    let own : w ≡ v = cc in
    let (v', e, follows, _) = perform-Leads p a v h (subst (IsWithin p.host) own within) op now in
    (v', e, follows)
