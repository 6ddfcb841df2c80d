-- ===== src/Lifecycle/Views.antt =====
-- `evolve` seen from one job: what an event makes of it. The rule that carries a property along a
-- list of appended events.
use mathlib.Core.Option
use parallelplay.Prelude.{
  ℕ, ◌≡◌, refl, sym, subst, Option, some, List, [], ◌∷◌, ◌++◌, Uuid, Map, get, set, get-set,
  set-Keyed, get-amend, amend-Keyed, Keyed, All, same, arith, inl, inr, if◌then◌else◌, Option-cases,
  Bool-cases,
}
use parallelplay.Canonical.{Host}
use parallelplay.Evolve.{
  evolve, evolve_data, evolve_job, evolve_attempt_job, job_change, apply_change, JobChange, create,
  update, new_job, begin_attempt, is_bound, evolve_attempt,
}
use parallelplay.Model.{
  ProjectionState, DomainEvent, Stamp, JobState, JobEvent, AttemptEvent, ContextPacketState,
  run_event, attempt_event, job_event, outbox_event, verification_event, workflow_registered,
  source_revision_registered, artifact_manifest_recorded, program_created, attempt_started,
  job_scheduled, job_unblocked, job_lease_acquired, job_lease_renewed, job_lease_released,
  job_retry_scheduled, job_succeeded, job_failed, job_cancelled,
}
use parallelplay.Kernel.{Log, store, append_inputs}

abbrev pub JobsKeyed : ProjectionState → Type 0
JobsKeyed s = Keyed (λ (j : JobState). j.job_id) s.jobs

abbrev changed_job : Stamp → JobChange → Uuid → Option JobState → Option JobState
changed_job t (create d) i o = if same d.job_id i then some (new_job t d) else o
changed_job t (update k f) i o = if same k i then Option.map f o else o

abbrev started_job : AttemptEvent → Uuid → Option JobState → Option JobState
started_job (attempt_started attempt_id job_id run_id ordinal deadline_at) i o =
    if same job_id i then Option.map (begin_attempt attempt_id ordinal) o else o
started_job _ i o = o

-- What an event makes of the job with an identifier.
unfoldable pub job_view : Stamp → DomainEvent → Uuid → Option JobState → Option JobState
unfolding job_change
job_view t (job_event e) i o = changed_job t (job_change t e) i o
job_view t (attempt_event e) i o = started_job e i o
job_view t _ i o = o

-- A written job keeps its identifier.
abbrev KeepsId : JobChange → Type 0
KeepsId (create d) = Unit
KeepsId (update k f) = (j : JobState) → (f j).job_id ≡ j.job_id

job_change-KeepsId : (t : Stamp) (e : JobEvent) → KeepsId (job_change t e)
unfolding job_change
job_change-KeepsId t (job_scheduled d) = tt
job_change-KeepsId t (job_unblocked j r) = λ j. refl
job_change-KeepsId t (job_lease_acquired j r o f e b) = λ j. refl
job_change-KeepsId t (job_lease_renewed j r o f e) = λ j. refl
job_change-KeepsId t (job_lease_released j r o f) = λ j. refl
job_change-KeepsId t (job_retry_scheduled j r a x) = λ j. refl
job_change-KeepsId t (job_succeeded j r) = λ j. refl
job_change-KeepsId t (job_failed j r x) = λ j. refl
job_change-KeepsId t (job_cancelled j r x) = λ j. refl

-- What one event does to all jobs.
abbrev JobsMove : Stamp → DomainEvent → Map JobState → Map JobState → Type 0
JobsMove t e jobs jobs' =
    Keyed (λ (j : JobState). j.job_id) jobs'
    × ((i : Uuid) → get i jobs' ≡ job_view t e i (get i jobs))

apply_change_moves :
    (packets : Map ContextPacketState) (t : Stamp) (c : JobChange) (jobs jobs' : Map JobState)
    → KeepsId c
    → Keyed (λ (j : JobState). j.job_id) jobs
    → apply_change packets t c jobs ≡ some jobs'
    → Keyed (λ (j : JobState). j.job_id) jobs'
      × ((i : Uuid) → get i jobs' ≡ changed_job t c i (get i jobs))
unfolding apply_change new_job
apply_change_moves packets t (create d) jobs jobs' ids keyed h =
    elim (Bool-cases (is_bound packets d)) [
      | inl bound ↦
          let same_jobs : jobs' ≡ set d.job_id (new_job t d) jobs = ground (arith, bound, h) in
          rw same_jobs (
            set-Keyed (λ (j : JobState). j.job_id) (new_job t d) jobs keyed,
            λ i. get-set d.job_id i (new_job t d) jobs,
          )
      | inr unbound ↦ ground (arith, unbound, h)
    ]
apply_change_moves packets t (update k f) jobs jobs' ids keyed h = (
  amend-Keyed (λ (j : JobState). j.job_id) k f jobs jobs' ids keyed h,
  λ i. get-amend (λ (j : JobState). j.job_id) k f jobs jobs' i keyed h,
)

evolve_job_moves :
    (packets : Map ContextPacketState) (t : Stamp) (e : JobEvent) (jobs jobs' : Map JobState)
    → Keyed (λ (j : JobState). j.job_id) jobs
    → evolve_job packets t e jobs ≡ some jobs'
    → JobsMove t (job_event e) jobs jobs'
unfolding evolve_job job_view
evolve_job_moves packets t e jobs jobs' keyed h =
    apply_change_moves packets t (job_change t e) jobs jobs' (job_change-KeepsId t e) keyed h

evolve_attempt_job_moves :
    (t : Stamp) (e : AttemptEvent) (jobs jobs' : Map JobState)
    → Keyed (λ (j : JobState). j.job_id) jobs
    → evolve_attempt_job e jobs ≡ some jobs'
    → JobsMove t (attempt_event e) jobs jobs'
unfolding evolve_attempt_job job_view
evolve_attempt_job_moves t (attempt_started a k r n d) jobs jobs' keyed h = (
  amend-Keyed (λ (j : JobState). j.job_id) k (begin_attempt a n) jobs jobs' (λ j. refl) keyed h,
  λ i. get-amend (λ (j : JobState). j.job_id) k (begin_attempt a n) jobs jobs' i keyed h,
)
evolve_attempt_job_moves t _ jobs jobs' keyed h =
    let same_jobs : jobs ≡ jobs' = ground arith in rw (← same_jobs) (keyed, λ i. refl)

unmoved :
    (t : Stamp) (e : DomainEvent) (s s' : ProjectionState)
    → ((i : Uuid) (o : Option JobState) → job_view t e i o ≡ o)
    → JobsKeyed s
    → s'.jobs ≡ s.jobs
    → JobsMove t e s.jobs s'.jobs
unmoved t e s s' stays keyed q = rw q (keyed, λ i. sym (stays i (get i s.jobs)))

-- One event takes the jobs to what `job_view` says of each.
pub evolve-JobsMove :
    (host : Host) (t : Stamp) (e : DomainEvent) (s s' : ProjectionState)
    → JobsKeyed s
    → evolve host s t e ≡ some s'
    → JobsKeyed s' × ((i : Uuid) → get i s'.jobs ≡ job_view t e i (get i s.jobs))
unfolding evolve evolve_data job_view
evolve-JobsMove host t (job_event e) s s' keyed h =
    elim (Option-cases (evolve_job s.context_packets t e s.jobs)) [
      | inl q ↦ ground (arith, q, h)
      | inr (jobs, q) ↦
          let same_jobs : s'.jobs ≡ jobs = ground (arith, q, h) in
          rw same_jobs (evolve_job_moves s.context_packets t e s.jobs jobs keyed q)
    ]
evolve-JobsMove host t (attempt_event e) s s' keyed h =
    elim (Option-cases (evolve_attempt t e s.attempts)) [
      | inl q ↦ ground (arith, q, h)
      | inr (attempts, q) ↦ elim (Option-cases (evolve_attempt_job e s.jobs)) [
        | inl p ↦ ground (arith, q, p, h)
        | inr (jobs, p) ↦
            let same_jobs : s'.jobs ≡ jobs = ground (arith, q, p, h) in
            rw same_jobs (evolve_attempt_job_moves t e s.jobs jobs keyed p)
      ]
    ]
evolve-JobsMove host t (run_event e) s s' keyed h =
    unmoved t (run_event e) s s' (λ i o. refl) keyed (ground arith)
evolve-JobsMove host t (outbox_event e) s s' keyed h =
    unmoved t (outbox_event e) s s' (λ i o. refl) keyed (ground arith)
evolve-JobsMove host t (verification_event e) s s' keyed h =
    unmoved t (verification_event e) s s' (λ i o. refl) keyed (ground arith)
evolve-JobsMove host t (workflow_registered d digest) s s' keyed h =
    unmoved t (workflow_registered d digest) s s' (λ i o. refl) keyed (ground arith)
evolve-JobsMove host t (source_revision_registered r) s s' keyed h =
    unmoved t (source_revision_registered r) s s' (λ i o. refl) keyed (ground arith)
evolve-JobsMove host t (artifact_manifest_recorded m) s s' keyed h =
    unmoved t (artifact_manifest_recorded m) s s' (λ i o. refl) keyed (ground arith)
evolve-JobsMove host t (program_created p name) s s' keyed h =
    unmoved t (program_created p name) s s' (λ i o. refl) keyed (ground arith)

-- A property that each of the events keeps, holds after all of them.
pub append_inputs-keeps {ℓ κ} :
    (P : ProjectionState → Type ℓ) (G : DomainEvent → Type κ) (host : Host)
    → ((t : Stamp) (e : DomainEvent) (s s' : ProjectionState)
        → G e
        → P s
        → evolve host s t e ≡ some s'
        → P s')
    → (now : ℕ) (es : List DomainEvent) (log log' : Log) (s s' : ProjectionState) → All G es
    → P s
    → append_inputs host now es log s ≡ some (log', s')
    → P s'
unfolding append_inputs
append_inputs-keeps P G host keep now [] log log' s s' g p h =
    let same_state : s ≡ s' = ground arith in subst P same_state p
append_inputs-keeps P G host keep now (e ∷ es) log log' s s' g p h =
    elim (Option-cases (evolve host s (store now log e).stamp e)) [
      | inl q ↦ cc (rw q at h)
      | inr (u, q) ↦
          append_inputs-keeps P G host keep now es _ log' u s' g.1
            (keep (store now log e).stamp e s u g.0 p q) (rw q at h)
    ]

-- The first of several events, and what it makes of every job.
pub append_inputs-step :
    (host : Host) (now : ℕ) (e : DomainEvent) (es : List DomainEvent) (log : Log)
    (s : ProjectionState) (r : Log × ProjectionState)
    → JobsKeyed s
    → append_inputs host now (e ∷ es) log s ≡ some r
    → (t : Stamp) × (l : Log) × (u : ProjectionState) × JobsKeyed u
      × ((i : Uuid) → get i u.jobs ≡ job_view t e i (get i s.jobs))
      × (append_inputs host now es l u ≡ some r)
unfolding append_inputs
append_inputs-step host now e es log s r keyed h =
    elim (Option-cases (evolve host s (store now log e).stamp e)) [
      | inl q ↦ cc (rw q at h)
      | inr (u, q) ↦
          let (keyed', moves) = evolve-JobsMove host (store now log e).stamp e s u keyed q in
          ((store now log e).stamp, log ++ store now log e ∷ [], u, keyed', moves, rw q at h)
    ]

pub append_inputs-nil :
    (host : Host) (now : ℕ) (log log' : Log) (s s' : ProjectionState)
    → append_inputs host now [] log s ≡ some (log', s')
    → s ≡ s'
unfolding append_inputs
append_inputs-nil host now log log' s s' h = ground arith
