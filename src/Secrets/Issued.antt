-- ===== src/Secrets/Issued.antt =====
-- What the handles of `EnvironmentSecretProvider` (packages/runtime/src/secret-provider.ts) go back to.
use parallelplay.Prelude.{
  ◌≡◌, refl, ◌∙◌, ℕ, ◌+◌, ◌<◌, ◌||◌, Option, some, List, [], ◌∷◌, String, Map, get, get-remove, inl,
  inr, Bool-cases, join, get_or, ltb,
}
use mathlib.Core.List.{Memᴰ}
use parallelplay.Prelude.Answers.{answer}
use parallelplay.Secrets.Provider.{
  StoredHandle, Provider, open_provider, consume, revoke, secret_value,
}
use parallelplay.Secrets.Handles.{
  Request, issue, Backs, issue-Backs, issue-environment, consume-handles, consume-inv,
}

module _ (environment : Map String) (lifetime : ℕ) where
  -- The handles go back to the requests made so far.
  Backed : List Request → Provider → Type 0
  Backed made p =
      (p.environment ≡ environment)
      × (p.default_ttl_ms ≡ lifetime)
      × ((id : String) (h : StoredHandle)
          → get id p.handles ≡ some h
          → (r : Request) × Memᴰ r made × Backs environment lifetime r id h)

  revoke-Backed :
      (made : List Request) (id : String) (p : Provider) → Backed made p → Backed made (revoke id p)
  unfolding Backed revoke
  revoke-Backed made id p (env, ttl, back) =
      (env, ttl, λ j h found. back j h (get-remove id j p.handles h found))

  consume-Backed :
      (made : List Request) (handle_id consumer run_id : String) (now : ℕ) (p : Provider)
      → Backed made p
      → Backed made (consume handle_id consumer run_id now p).0
  consume-Backed made handle_id consumer run_id now p backed =
      elim (consume-handles handle_id consumer run_id now p) [
        | inl kept ↦ rw kept backed
        | inr gone ↦ rw gone (revoke-Backed made handle_id p backed)
      ]

  issue-Backed :
      (made : List Request) (r : Request) (p : Provider)
      → Backed made p
      → Backed (r ∷ made) (issue r p).0
  unfolding Backed
  issue-Backed made r p (env, ttl, back) =
      let (env', ttl') = issue-environment r p in
      (
        env' ∙ env,
        ttl' ∙ ttl,
        λ id h found. elim (issue-Backs r p id h found) [
          | inl old ↦ let (q, there, backs) = back id h old in (q, Memᴰ.tail there, backs)
          | inr new ↦ (r, Memᴰ.head refl, rw (← env, ← ttl) new)
        ],
      )

-- The providers that a sequence of calls leads to, with the requests for handles so far, the last one
-- first.
pub data Reached (environment : Map String) (ttl : Option ℕ)
    : List Request → Provider → Type 0 where
  opened : (p : Provider) → open_provider environment ttl ≡ answer p → Reached environment ttl [] p
  issued :
      (made : List Request) (p : Provider) (r : Request)
      → Reached environment ttl made p
      → Reached environment ttl (r ∷ made) (issue r p).0
  consumed :
      (made : List Request) (p : Provider) (handle_id consumer run_id : String) (now : ℕ)
      → Reached environment ttl made p
      → Reached environment ttl made (consume handle_id consumer run_id now p).0
  revoked :
      (made : List Request) (p : Provider) (handle_id : String)
      → Reached environment ttl made p
      → Reached environment ttl made (revoke handle_id p)

open_provider-Backed :
    (environment : Map String) (ttl : Option ℕ) (p : Provider)
    → open_provider environment ttl ≡ answer p
    → Backed environment (get_or ttl 900000) [] p
unfolding open_provider Backed get
open_provider-Backed environment ttl p h =
    let ms = get_or ttl 900000 in
    let fresh : Provider = record {
      environment = environment;
      default_ttl_ms = ms;
      handles = [];
    } in
    elim (Bool-cases (ltb ms 1000 || ltb 86400000 ms)) [
      | inl refused ↦ absurd (cc (rw refused at h))
      | inr fits ↦
          let own : fresh ≡ p = cc (rw fits at h) in
          rw (← own) (refl, refl, λ id found there. absurd (cc there))
    ]

Reached-Backed :
    (environment : Map String) (ttl : Option ℕ) (made : List Request) (p : Provider)
    → Reached environment ttl made p
    → Backed environment (get_or ttl 900000) made p
Reached-Backed environment ttl made p (opened _ h) = open_provider-Backed environment ttl p h
Reached-Backed environment ttl made p (issued made' p' r past) =
    issue-Backed environment (get_or ttl 900000) made' r p'
      (Reached-Backed environment ttl made' p' past)
Reached-Backed environment ttl made p (consumed _ p' handle_id consumer run_id now past) =
    consume-Backed environment (get_or ttl 900000) made handle_id consumer run_id now p'
      (Reached-Backed environment ttl made p' past)
Reached-Backed environment ttl made p (revoked _ p' handle_id past) =
    revoke-Backed environment (get_or ttl 900000) made handle_id p'
      (Reached-Backed environment ttl made p' past)

-- In a provider that calls have led to, a secret that `consume` answers is that of a request made
-- before: the handle's identifier is the one that request drew, the consumer and the run are those of
-- the request, the value is what the environment holds under the name requested, and the lifetime
-- since the time of the request, 15 minutes where none is set, has not passed.
pub consume-Issued :
    (environment : Map String) (ttl : Option ℕ) (made : List Request) (p : Provider)
    → Reached environment ttl made p
    → (handle_id consumer run_id : String) (now : ℕ) (value : String)
    → (consume handle_id consumer run_id now p).1 ≡ answer value
    → (r : Request) × Memᴰ r made
      × (join "secret-" r.random ≡ handle_id)
      × (r.reference.allowed_consumer ≡ consumer)
      × (r.run_id ≡ run_id)
      × (secret_value (get r.reference.name environment) ≡ some value)
      × ((start : ℕ) × (r.time ≡ some start) × (now < start + get_or ttl 900000))
unfolding Backed
consume-Issued environment ttl made p past handle_id consumer run_id now value given =
    let (h, there, to, run, early, own) = consume-inv handle_id consumer run_id now p value given in
    let (r, asked, (key, for, of, held, (start, at, until))) =
      (Reached-Backed environment ttl made p past).2 handle_id h there in
    (r, asked, key, for ∙ to, of ∙ run, rw (← own) held, (start, at, rw (← until) early))
