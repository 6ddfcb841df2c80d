-- ===== src/Lifecycle/Unblocking.antt =====
-- A succeeded job lets the jobs start that waited for it, and no others.
use mathlib.Core.List.{Memᴰ}
use parallelplay.Prelude.{
  ◌≡◌, refl, ◌⊎◌, inl, inr, true, ◌||◌, some, List, [], ◌∷◌, ◌++◌, Uuid, Map, All, all, values, get,
  same, same→eq, arith, Bool-cases, Option-cases,
}
use parallelplay.Model.{ProjectionState, JobState, JobStatus, job_event, job_unblocked}
use parallelplay.Decide.{
  success_events, unblock_events, is_unblocked_by, run_is_done, is_blocked, is_succeeded,
  has_succeeded,
}

mem-append {ℓ} : {A : Type ℓ} (x : A) (xs ys : List A) → Memᴰ x (xs ++ ys) → Memᴰ x xs ⊎ Memᴰ x ys
mem-append x [] ys m = inr m
mem-append x (y ∷ xs) ys (Memᴰ.head e) = inl (Memᴰ.head e)
mem-append x (y ∷ xs) ys (Memᴰ.tail m) = elim (mem-append x xs ys m) [
  | inl h ↦ inl (Memᴰ.tail h)
  | inr h ↦ inr h
]

mem-cons {ℓ} : {A : Type ℓ} (x y : A) (ys : List A) → Memᴰ x (y ∷ ys) → (x ≡ y) ⊎ Memᴰ x ys
mem-cons x y ys (Memᴰ.head e) = inl e
mem-cons x y ys (Memᴰ.tail m) = inr m

-- A dependency is met: it is the job that has just succeeded, or has succeeded before.
abbrev Met : Map JobState → JobState → Uuid → Type 0
Met jobs j d =
    (d ≡ j.job_id) ⊎ ((i : JobState) × (get d jobs ≡ some i) × (i.status ≡ JobStatus.succeeded))

-- A job that may start when another succeeds: it waits in the same run for met dependencies.
abbrev pub MayRun : ProjectionState → JobState → JobState → Type 0
MayRun s j c =
    Memᴰ c (values s.jobs)
    × (c.run_id ≡ j.run_id)
    × (c.status ≡ JobStatus.blocked)
    × All (Met s.jobs j) c.dependency_job_ids

is_blocked-eq : (t : JobStatus) → is_blocked t ≡ true → t ≡ JobStatus.blocked
is_blocked-eq t h = ground arith

is_succeeded-eq : (t : JobStatus) → is_succeeded t ≡ true → t ≡ JobStatus.succeeded
is_succeeded-eq t h = ground arith

met :
    (jobs : Map JobState) (j : JobState) (d : Uuid)
    → (same d j.job_id || has_succeeded (get d jobs)) ≡ true
    → Met jobs j d
met jobs j d h = elim (Bool-cases (same d j.job_id)) [
  | inl e ↦ inl (same→eq d j.job_id e)
  | inr e ↦ elim (Option-cases (get d jobs)) [
    | inl q ↦ ground (arith, h, e, q)
    | inr (i, q) ↦ inr (i, q, is_succeeded-eq i.status (ground (arith, h, e, q)))
  ]
]

all-Met :
    (jobs : Map JobState) (j : JobState) (ds : List Uuid)
    → all (λ d. same d j.job_id || has_succeeded (get d jobs)) ds ≡ true
    → All (Met jobs j) ds
all-Met jobs j [] h = tt
all-Met jobs j (d ∷ ds) h = elim (Bool-cases (same d j.job_id || has_succeeded (get d jobs))) [
  | inl e ↦ (met jobs j d e, all-Met jobs j ds (rw e at h))
  | inr e ↦ cc (rw e at h)
]

unblocked-MayRun :
    (s : ProjectionState) (j c : JobState)
    → Memᴰ c (values s.jobs)
    → is_unblocked_by s.jobs j c ≡ true
    → MayRun s j c
unfolding is_unblocked_by
unblocked-MayRun s j c there h = (
  there,
  same→eq c.run_id j.run_id (ground arith),
  is_blocked-eq c.status (ground arith),
  all-Met s.jobs j c.dependency_job_ids (ground arith),
)

mem-unblock_events :
    (s : ProjectionState) (j : JobState) (cs : List JobState) (k r : Uuid)
    → ((c : JobState) → Memᴰ c cs → Memᴰ c (values s.jobs))
    → Memᴰ (job_event (job_unblocked k r)) (unblock_events s.jobs j cs)
    → (c : JobState) × (c.job_id ≡ k) × MayRun s j c
unfolding unblock_events
mem-unblock_events s j [] k r sub m = elim m [ ]
mem-unblock_events s j (c ∷ cs) k r sub m = elim (Bool-cases (is_unblocked_by s.jobs j c)) [
  | inl e ↦ elim (mem-cons _ _ _ (rw e at m)) [
    | inl q ↦ (c, ground (arith, q), unblocked-MayRun s j c (sub c (Memᴰ.head refl)) e)
    | inr m' ↦ mem-unblock_events s j cs k r (λ x h. sub x (Memᴰ.tail h)) m'
  ]
  | inr e ↦ mem-unblock_events s j cs k r (λ x h. sub x (Memᴰ.tail h)) (rw e at m)
]

-- When a job succeeds, a job is released only if it may run: each release among the events of the
-- success is of a job that exists, waits in the same run, and has no dependency but the job that
-- succeeded and jobs that have succeeded before.
pub success_events-MayRun :
    (s : ProjectionState) (j : JobState) (k r : Uuid)
    → Memᴰ (job_event (job_unblocked k r)) (success_events s j)
    → (c : JobState) × (c.job_id ≡ k) × MayRun s j c
unfolding success_events
success_events-MayRun s j k r (Memᴰ.head e) = ground (arith, e)
success_events-MayRun s j k r (Memᴰ.tail m) =
    elim (mem-append _ (unblock_events s.jobs j (values s.jobs)) _ m) [
      | inl h ↦ mem-unblock_events s j (values s.jobs) k r (λ c x. x) h
      | inr h ↦ elim (Bool-cases (run_is_done (values s.jobs) j)) [
        | inl e ↦ elim (mem-cons _ _ _ (rw e at h)) [
          | inl q ↦ ground (arith, q)
          | inr nowhere ↦ elim nowhere [ ]
        ]
        | inr e ↦ elim (rw e at h) [ ]
      ]
    ]
