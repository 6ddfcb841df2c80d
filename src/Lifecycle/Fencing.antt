-- ===== src/Lifecycle/Fencing.antt =====
-- Job leases: a claim fences every earlier holder off, and excludes any other until it runs out.
use parallelplay.Prelude.{
  ℕ, ◌+◌, ◌≤◌, ◌<◌, ◌≡◌, ◌≢◌, refl, ◌∙◌, ap, inl, inr, Bool, true, false, not, ◌&&◌, Option, none,
  some, [], ◌∷◌, String, Uuid, get, get-Keyed, same, same_refl, is_some, arith, Bool-cases,
  if◌then◌else◌,
}
use parallelplay.Canonical.{Host}
use parallelplay.Evolve.{begin_attempt, job_change, has_protocol}
use parallelplay.Model.{
  ProjectionState, Stamp, DomainEvent, JobState, JobStatus, RunState, ContextPacketState, run_event,
  job_event, run_started, job_lease_acquired,
}
use parallelplay.Decide.{
  Accepted, ok, failure, >>=-eq-ok, job_not_found, job_not_claimable, evidence_digest_mismatch,
  job_lease_conflict, found, fail_if, AcquireJobLease, job_lease_acquire, acquire_events,
  start_events, enqueue, is_resuming, is_scheduled, check_claim, open_run, job_packet,
  packet_is_valid, validate_job_lease, DomainErrorCode, add_milliseconds,
}
use parallelplay.Kernel.{Log, append_inputs}
use parallelplay.Lifecycle.Views.{JobsKeyed, job_view, append_inputs-step, append_inputs-nil}

pub found-inv {ℓ} :
    {A : Type ℓ} (o : Option A) (c : DomainErrorCode) (m : String) (a : A)
    → found o c m ≡ ok a
    → o ≡ some a
found-inv none c m a h = cc
found-inv (some x) c m a h = ground arith

pub fail_if-inv :
    (b : Bool) (c : DomainErrorCode) (m : String) (u : Unit) → fail_if b c m ≡ ok u → b ≡ false
fail_if-inv true c m u h = cc
fail_if-inv false c m u h = refl

-- What an accepted claim found.
abbrev Claim : Host → ProjectionState → AcquireJobLease → ℕ → Accepted → Type 0
Claim host s p now a =
    (j : JobState) × (r : RunState) × (get p.job_id s.jobs ≡ some j)
    × (check_claim s j p now ≡ ok tt)
    × (a.events ≡ acquire_events r j p (job_packet s j) now)

pub job_lease_acquire-inv :
    (host : Host) (s : ProjectionState) (p : AcquireJobLease) (now : ℕ) (a : Accepted)
    → job_lease_acquire host s p now ≡ ok a
    → Claim host s p now a
unfolding job_lease_acquire
job_lease_acquire-inv host s p now a h =
    let (j, q, h1) =
      >>=-eq-ok (found (get p.job_id s.jobs) job_not_found "Job does not exist") _ h in
    let (r, run, h2) =
      >>=-eq-ok
        (found (open_run (get j.run_id s.runs)) job_not_claimable
          "Job belongs to a terminal or missing run")
        _ h1 in
    let (u, checked, h3) = >>=-eq-ok (check_claim s j p now) _ h2 in
    let (u', bound, h4) =
      >>=-eq-ok
        (fail_if
          (has_protocol 2 j.execution_contract && not (packet_is_valid host j (job_packet s j)))
          evidence_digest_mismatch "Job context packet is missing or invalid")
        _ h3 in
    (j, r, found-inv _ _ _ j q, checked, ground arith)

-- A job that an owner holds by the token after `token`.
pub record Holds (p : AcquireJobLease) (now token : ℕ) (j : JobState) : Type 0 where
  at_work : j.status ≡ JobStatus.active
  has_attempt : is_some j.active_attempt_id ≡ true
  owner : j.lease_owner_id ≡ some p.owner_id
  next : j.lease_fencing_token ≡ token + 1
  until : j.lease_expires_at ≡ some (now + p.lease_duration_ms)

abbrev pub Held : AcquireJobLease → ℕ → ℕ → ProjectionState → Type 0
Held p now token s = (j : JobState) × (get p.job_id s.jobs ≡ some j) × Holds p now token j

started-Held :
    (host : Host) (now : ℕ) (log log' : Log) (s s' : ProjectionState) (p : AcquireJobLease)
    (j i : JobState) (packet : Option ContextPacketState)
    → JobsKeyed s
    → j.job_id ≡ p.job_id
    → get p.job_id s.jobs ≡ some i
    → i.status ≡ JobStatus.active
    → i.lease_owner_id ≡ some p.owner_id
    → i.lease_fencing_token ≡ j.lease_fencing_token + 1
    → i.lease_expires_at ≡ some (now + p.lease_duration_ms)
    → append_inputs host now (start_events p j packet now) log s ≡ some (log', s')
    → Held p now j.lease_fencing_token s'
unfolding start_events enqueue job_view
started-Held host now log log' s s' p j i packet keyed own there a b c d h =
    let (t, l, u, keyed', moves, h1) = append_inputs-step host now _ _ log s (log', s') keyed h in
    let (t', l', v, keyed'', moves', h2) =
      append_inputs-step host now _ _ l u (log', s') keyed' h1 in
    let there' : get p.job_id s'.jobs ≡ some (begin_attempt p.attempt_id (j.attempt_count + 1) i) =
      rw
        (
          ← append_inputs-nil host now l' log' v s' h2,
          moves' p.job_id,
          moves p.job_id,
          own,
          there,
          same_refl p.job_id,
        )
        refl in
    (_, there', record { at_work = a; has_attempt = refl; owner = b; next = c; until = d })

abbrev leased : Stamp → AcquireJobLease → ℕ → JobState → JobState
leased t p now j = record j {
  status = JobStatus.active;
  lease_owner_id = some p.owner_id;
  lease_fencing_token = j.lease_fencing_token + 1;
  lease_acquired_at = some t.occurred_at;
  lease_expires_at = some (add_milliseconds now p.lease_duration_ms);
  version = t.stream_version;
}

abbrev pub claim_event : AcquireJobLease → JobState → ℕ → DomainEvent
claim_event p j now = job_event (
    job_lease_acquired j.job_id j.run_id p.owner_id (j.lease_fencing_token + 1)
      (add_milliseconds now p.lease_duration_ms) (is_resuming j))

view-leased :
    (t : Stamp) (p : AcquireJobLease) (now : ℕ) (j : JobState)
    → j.job_id ≡ p.job_id
    → job_view t (claim_event p j now) p.job_id (some j) ≡ some (leased t p now j)
unfolding job_view job_change
view-leased t p now j own =
    let hit : same j.job_id p.job_id ≡ true = ground (arith, same_refl p.job_id) in rw hit refl

claimed-Held :
    (host : Host) (now : ℕ) (log log' : Log) (s s' : ProjectionState) (p : AcquireJobLease)
    (j : JobState) (packet : Option ContextPacketState)
    → JobsKeyed s
    → get p.job_id s.jobs ≡ some j
    → append_inputs host now
        (claim_event p j now ∷ (if is_resuming j then [] else start_events p j packet now))
        log
        s
      ≡ some (log', s')
    → Held p now j.lease_fencing_token s'
unfolding job_view job_change
claimed-Held host now log log' s s' p j packet keyed there h =
    let own = get-Keyed (λ (x : JobState). x.job_id) p.job_id j s.jobs keyed there in
    let (t, l, u, keyed', moves, h1) = append_inputs-step host now _ _ log s (log', s') keyed h in
    let i = leased t p now j in
    let at : get p.job_id u.jobs ≡ some i =
      moves p.job_id
      ∙ ap (job_view t (claim_event p j now) p.job_id) there
      ∙ view-leased t p now j own in
    elim (Bool-cases (is_resuming j)) [
      | inl resumes ↦
          let same_state = append_inputs-nil host now l log' u s' (rw resumes at h1) in
          (
            i,
            rw (← same_state) at,
            record {
              at_work = refl;
              has_attempt = ground arith;
              owner = refl;
              next = refl;
              until = refl;
            },
          )
      | inr fresh ↦
          started-Held host now l log' u s' p j i packet keyed' own at refl refl refl refl
            (rw fresh at h1)
    ]

acquire_events-Held :
    (host : Host) (now : ℕ) (log log' : Log) (s s' : ProjectionState) (p : AcquireJobLease)
    (r : RunState) (j : JobState)
    → JobsKeyed s
    → get p.job_id s.jobs ≡ some j
    → append_inputs host now (acquire_events r j p (job_packet s j) now) log s ≡ some (log', s')
    → Held p now j.lease_fencing_token s'
unfolding acquire_events job_view
acquire_events-Held host now log log' s s' p r j keyed there h =
    elim (Bool-cases (is_scheduled r.status)) [
      | inl first ↦
          let (t, l, u, keyed', moves, h1) =
            append_inputs-step host now (run_event (run_started r.run_id)) _ log s (log', s') keyed
              (rw first at h) in
          claimed-Held host now l log' u s' p j (job_packet s j) keyed' (moves p.job_id ∙ there) h1
      | inr later ↦
          claimed-Held host now log log' s s' p j (job_packet s j) keyed there (rw later at h)
    ]

-- An accepted claim, once its events are applied, leaves the job at work with an attempt, held by
-- the claiming owner until the end of the duration that it asked for, under the token after the
-- job's former one.
-- The jobs stand under their own identifiers.
pub job_lease_acquire-Held :
    (host : Host) (now : ℕ) (log log' : Log) (s s' : ProjectionState) (p : AcquireJobLease)
    (a : Accepted) (j : JobState)
    → JobsKeyed s
    → get p.job_id s.jobs ≡ some j
    → job_lease_acquire host s p now ≡ ok a
    → append_inputs host now a.events log s ≡ some (log', s')
    → Held p now j.lease_fencing_token s'
job_lease_acquire-Held host now log log' s s' p a j keyed there h q =
    let (i, r, there', checked, events) = job_lease_acquire-inv host s p now a h in
    let one : i ≡ j = ground arith in
    acquire_events-Held host now log log' s s' p r j keyed there (rw (← one) (rw events at q))

old_token-fails :
    (p : AcquireJobLease) (now k : ℕ) (j : JobState) (owner_id : Uuid) (token later : ℕ)
    → Holds p now k j
    → token ≤ k
    → validate_job_lease j owner_id token later
      ≡ failure job_lease_conflict "Job lease owner or fencing token does not match"
unfolding validate_job_lease
old_token-fails p now k j owner_id token later held old = let next = held.next in ground arith

new_token-passes :
    (p : AcquireJobLease) (now k : ℕ) (j : JobState) (later : ℕ)
    → Holds p now k j
    → later < now + p.lease_duration_ms
    → validate_job_lease j p.owner_id (k + 1) later ≡ ok tt
unfolding validate_job_lease
new_token-passes p now k j later held early =
    let next = held.next in
    let owner = held.owner in let until = held.until in ground (arith, same_refl p.owner_id)

-- A claim fences earlier holders off: once its events are applied, whoever shows the job's former
-- token or an older one fails the lease check with a conflict, at any instant and as any owner, and
-- the claiming owner passes it with the new token up to the end of the lease.
-- The jobs stand under their own identifiers.
pub job_lease_acquire-fences :
    (host : Host) (now : ℕ) (log log' : Log) (s s' : ProjectionState) (p : AcquireJobLease)
    (a : Accepted) (j : JobState)
    → JobsKeyed s
    → get p.job_id s.jobs ≡ some j
    → job_lease_acquire host s p now ≡ ok a
    → append_inputs host now a.events log s ≡ some (log', s')
    → (j' : JobState) × (get p.job_id s'.jobs ≡ some j')
      × ((owner_id : Uuid) (token later : ℕ)
          → token ≤ j.lease_fencing_token
          → validate_job_lease j' owner_id token later
            ≡ failure job_lease_conflict "Job lease owner or fencing token does not match")
      × ((later : ℕ)
          → later < now + p.lease_duration_ms
          → validate_job_lease j' p.owner_id (j.lease_fencing_token + 1) later ≡ ok tt)
job_lease_acquire-fences host now log log' s s' p a j keyed there h q =
    let (j', there', held) = job_lease_acquire-Held host now log log' s s' p a j keyed there h q in
    (
      j',
      there',
      (λ owner_id token later old.
          old_token-fails p now j.lease_fencing_token j' owner_id token later held old),
      (λ later early. new_token-passes p now j.lease_fencing_token j' later held early),
    )

held-check_claim :
    (p p' : AcquireJobLease) (now k later : ℕ) (s : ProjectionState) (j : JobState)
    → Holds p now k j
    → later < now + p.lease_duration_ms
    → check_claim s j p' later ≡ failure job_lease_conflict "Job already has an active lease"
unfolding check_claim
held-check_claim p p' now k later s j held early =
    let a = held.at_work in
    let b = held.has_attempt in let c = held.until in rw (a, b, c) (ground arith)

-- A claimed job is no one else's until its lease ends: once the events of an accepted claim are
-- applied, every claim of the job before that instant is refused.
-- The jobs stand under their own identifiers.
pub job_lease_acquire-excludes :
    (host : Host) (now : ℕ) (log log' : Log) (s s' : ProjectionState) (p p' : AcquireJobLease)
    (a : Accepted) (later : ℕ)
    → JobsKeyed s
    → job_lease_acquire host s p now ≡ ok a
    → append_inputs host now a.events log s ≡ some (log', s')
    → p'.job_id ≡ p.job_id
    → later < now + p.lease_duration_ms
    → (a' : Accepted) → job_lease_acquire host s' p' later ≢ ok a'
job_lease_acquire-excludes host now log log' s s' p p' a later keyed h q same_job early a' h' =
    let (j, r, there, checked, events) = job_lease_acquire-inv host s p now a h in
    let (j', there', held) = job_lease_acquire-Held host now log log' s s' p a j keyed there h q in
    let (i, r', found_job, checked', events') = job_lease_acquire-inv host s' p' later a' h' in
    let one : i ≡ j' = ground arith in
    cc (held-check_claim p p' now j.lease_fencing_token later s' j' held early, rw one at checked')
