-- ===== src/Secrets/Handles.antt =====
-- The calls of `EnvironmentSecretProvider` (packages/runtime/src/secret-provider.ts), one at a time.
use parallelplay.Prelude.{
  ◌≡◌, refl, ℕ, ◌+◌, ◌<◌, Option, none, some, String, Map, get, set, get-set, get-set_self,
  lt→leb_false, inl, inr, ◌⊎◌, Bool-cases, Option-cases, same, same→eq, same_refl, join, leb, arith,
}
use parallelplay.Prelude.Answers.{Answer, answer}
use parallelplay.Secrets.Provider.{
  SecretReference, StoredHandle, SecretHandle, Provider, issue_handle, issue_value, issue_at,
  consume, consume_found, revoke, secret_value,
}

-- A call of `issueHandle`: its arguments and the text of the random bytes.
pub record Request : Type 0 where
  pub reference : SecretReference
  pub run_id : String
  pub time : Option ℕ
  pub random : String

abbrev pub issue : Request → Provider → Provider × Answer SecretHandle
issue r p = issue_handle r.reference r.run_id r.time r.random p

-- A request that a handle goes back to, in an environment.
abbrev pub Backs : Map String → ℕ → Request → String → StoredHandle → Type 0
Backs environment lifetime r id h =
    (join "secret-" r.random ≡ id)
    × (r.reference.allowed_consumer ≡ h.allowed_consumer)
    × (r.run_id ≡ h.run_id)
    × (secret_value (get r.reference.name environment) ≡ some h.value)
    × ((start : ℕ) × (r.time ≡ some start) × (h.expires_at ≡ start + lifetime))

stored : Request → Provider → String → ℕ → StoredHandle
stored r p value start = record {
  value = value;
  expires_at = start + p.default_ttl_ms;
  purpose = r.reference.purpose;
  allowed_consumer = r.reference.allowed_consumer;
  run_id = r.run_id;
}

pub issue-Backs :
    (r : Request) (p : Provider) (id : String) (h : StoredHandle)
    → get id (issue r p).0.handles ≡ some h
    → (get id p.handles ≡ some h) ⊎ Backs p.environment p.default_ttl_ms r id h
unfolding issue_handle issue_value issue_at stored
issue-Backs r p id h found =
    elim (Option-cases (secret_value (get r.reference.name p.environment))) [
      | inl e ↦ inl (rw e at found)
      | inr (value, e) ↦ elim (Option-cases r.time) [
        | inl none_given ↦ inl (rw (e, none_given) at found)
        | inr (start, given) ↦
            let key = join "secret-" r.random in
            elim (Bool-cases (same key id)) [
              | inl hit ↦
                  let put = rw (e, given, get-set, hit) at found in
                  let own : stored r p value start ≡ h = cc put in
                  inr (rw (← own) (same→eq key id hit, refl, refl, e, (start, given, refl)))
              | inr miss ↦ inl (rw (e, given, get-set, miss) at found)
            ]
      ]
    ]

pub issue-environment :
    (r : Request) (p : Provider)
    → ((issue r p).0.environment ≡ p.environment)
      × ((issue r p).0.default_ttl_ms ≡ p.default_ttl_ms)
unfolding issue_handle issue_value issue_at
issue-environment r p = elim (Option-cases (secret_value (get r.reference.name p.environment))) [
  | inl e ↦ rw e (refl, refl)
  | inr (value, e) ↦ elim (Option-cases r.time) [
    | inl given ↦ rw (e, given) (refl, refl)
    | inr (start, given) ↦ rw (e, given) (refl, refl)
  ]
]

-- What `consume` does to the handles, and what its answer says.
pub consume-handles :
    (handle_id consumer run_id : String) (now : ℕ) (p : Provider)
    → let q = (consume handle_id consumer run_id now p).0 in (q ≡ p) ⊎ (q ≡ revoke handle_id p)
unfolding consume consume_found revoke
consume-handles handle_id consumer run_id now p = ground arith

pub consume-inv :
    (handle_id consumer run_id : String) (now : ℕ) (p : Provider) (value : String)
    → (consume handle_id consumer run_id now p).1 ≡ answer value
    → (h : StoredHandle) × (get handle_id p.handles ≡ some h)
      × (h.allowed_consumer ≡ consumer)
      × (h.run_id ≡ run_id)
      × (now < h.expires_at)
      × (h.value ≡ value)
unfolding consume consume_found
consume-inv handle_id consumer run_id now p value h =
    elim (Option-cases (get handle_id p.handles)) [
      | inl e ↦ absurd (cc (rw e at h))
      | inr (stored, e) ↦ elim (Bool-cases (same stored.allowed_consumer consumer)) [
        | inl own ↦ elim (Bool-cases (same stored.run_id run_id)) [
          | inl run ↦ elim (Bool-cases (leb stored.expires_at now)) [
            | inl late ↦ absurd (cc (rw (e, own, run, late) at h))
            | inr early ↦ (
              stored,
              e,
              same→eq stored.allowed_consumer consumer own,
              same→eq stored.run_id run_id run,
              ground (arith, early),
              cc (rw (e, own, run, early) at h),
            )
          ]
          | inr other ↦ absurd (cc (rw (e, own, other) at h))
        ]
        | inr other ↦ absurd (cc (rw (e, other) at h))
      ]
    ]

handle_of : Request → Provider → ℕ → SecretHandle
handle_of r p start = record {
  handle_id = join "secret-" r.random;
  expires_at = start + p.default_ttl_ms;
  purpose = r.reference.purpose;
  allowed_consumer = r.reference.allowed_consumer;
}

consume_fresh :
    (handle_id : String) (p : Provider) (h : StoredHandle) (now : ℕ)
    → get handle_id p.handles ≡ some h
    → now < h.expires_at
    → consume handle_id h.allowed_consumer h.run_id now p ≡ (p, answer h.value)
unfolding consume consume_found
consume_fresh handle_id p h now found early =
    rw
      (found, same_refl h.allowed_consumer, same_refl h.run_id, lt→leb_false now h.expires_at early)
      refl

secret_value-inv :
    (v : Option String) (value : String) → secret_value v ≡ some value → v ≡ some value
unfolding secret_value
secret_value-inv none value h = cc
secret_value-inv (some v) value h = ground (arith, h)

-- A handle that is issued gives its consumer, in its run and until it expires, the value that the
-- environment holds under the name of the reference, and leaves the provider as it is.
pub consume-issue :
    (p q : Provider) (r : Request) (h : SecretHandle) (now : ℕ)
    → issue r p ≡ (q, answer h)
    → now < h.expires_at
    → (value : String) × (get r.reference.name p.environment ≡ some value)
      × (consume h.handle_id h.allowed_consumer r.run_id now q ≡ (q, answer value))
unfolding issue_handle issue_value issue_at stored handle_of
consume-issue p q r h now e early =
    elim (Option-cases (secret_value (get r.reference.name p.environment))) [
      | inl missing ↦ absurd (cc (rw missing at e))
      | inr (value, held) ↦ elim (Option-cases r.time) [
        | inl bad ↦ absurd (cc (rw (held, bad) at e))
        | inr (start, at) ↦
            let key = join "secret-" r.random in
            let made = rw (held, at) at e in
            let kept : set key (stored r p value start) p.handles ≡ q.handles =
              λ i. (made i).0.handles in
            let shown : handle_of r p start ≡ h =
              (let told : answer (handle_of r p start) ≡ answer h = λ i. (made i).1 in cc told) in
            (
              value,
              secret_value-inv (get r.reference.name p.environment) value held,
              rw (← shown) (
                  consume_fresh key q (stored r p value start) now
                    (rw (← kept) (get-set_self key (stored r p value start) p.handles))
                    (rw (← shown) at early)),
            )
      ]
    ]
