-- ===== src/Lifecycle/Ended.antt =====
-- Lists of endings: what they do to the jobs that they name, and to the others.
use mathlib.Core.List.{Memᴰ}
use parallelplay.Prelude.{
  ℕ, ◌≡◌, refl, sym, ◌∙◌, ap, ◌⊎◌, inl, inr, Bool, true, Option, none, some, List, [], ◌∷◌, ◌++◌,
  Uuid, get, All, same_refl, arith, Option-cases,
}
use parallelplay.Canonical.{Host}
use parallelplay.Evolve.{evolve, job_change}
use parallelplay.Model.{
  ProjectionState, DomainEvent, Stamp, JobState, attempt_event, job_event, attempt_started,
  job_cancelled, job_failed, is_terminal_job,
}
use parallelplay.Decide.{
  CancelReason, cancellation_events, active_cancellation, active_attempt, cancel_jobs,
}
use parallelplay.Kernel.{Log, store, append_inputs}
use parallelplay.Lifecycle.Views.{JobsKeyed, job_view, evolve-JobsMove, append_inputs-keeps}
use parallelplay.Lifecycle.Endings.{Ending}

abbrev pub Ended : Option JobState → Type 0
Ended none = Unit
Ended (some j) = is_terminal_job j.status ≡ true

abbrev pub run_of : Option JobState → Option Uuid
run_of none = none
run_of (some j) = some j.run_id

pub view-Ended :
    (t : Stamp) (e : DomainEvent) (i : Uuid) (o : Option JobState)
    → Ending e
    → Ended o
    → Ended (job_view t e i o)
unfolding job_view job_change
view-Ended t (job_event (job_cancelled k r x)) i none g h = ground arith
view-Ended t (job_event (job_cancelled k r x)) i (some j) g h = ground arith
view-Ended t (job_event (job_failed k r x)) i none g h = ground arith
view-Ended t (job_event (job_failed k r x)) i (some j) g h = ground arith
view-Ended t (job_event _) i o g h = elim g [ ]
view-Ended t (attempt_event (attempt_started a k r n d)) i o g h = elim g [ ]
view-Ended t (attempt_event _) i o g h = h
view-Ended t _ i o g h = h

pub run_of-job_view :
    (t : Stamp) (e : DomainEvent) (i : Uuid) (o : Option JobState)
    → Ending e
    → run_of (job_view t e i o) ≡ run_of o
unfolding job_view job_change
run_of-job_view t (job_event (job_cancelled k r x)) i none g = ground arith
run_of-job_view t (job_event (job_cancelled k r x)) i (some j) g = ground arith
run_of-job_view t (job_event (job_failed k r x)) i none g = ground arith
run_of-job_view t (job_event (job_failed k r x)) i (some j) g = ground arith
run_of-job_view t (job_event _) i o g = elim g [ ]
run_of-job_view t (attempt_event (attempt_started a k r n d)) i o g = elim g [ ]
run_of-job_view t (attempt_event _) i o g = refl
run_of-job_view t _ i o g = refl

-- The event ends the job.
abbrev pub EndsJob : Uuid → DomainEvent → Type 0
EndsJob k (job_event (job_cancelled i r x)) = i ≡ k
EndsJob k (job_event (job_failed i r x)) = i ≡ k
EndsJob k _ = ⊥

abbrev pub Ends : Uuid → List DomainEvent → Type 0
Ends k [] = ⊥
Ends k (e ∷ es) = EndsJob k e ⊎ Ends k es

pub view-EndsJob :
    (t : Stamp) (e : DomainEvent) (k : Uuid) (o : Option JobState)
    → EndsJob k e
    → Ended (job_view t e k o)
unfolding job_view job_change
view-EndsJob t (job_event (job_cancelled i r x)) k none h = ground arith
view-EndsJob t (job_event (job_cancelled i r x)) k (some j) h = rw (h, same_refl k) refl
view-EndsJob t (job_event (job_failed i r x)) k none h = ground arith
view-EndsJob t (job_event (job_failed i r x)) k (some j) h = rw (h, same_refl k) refl
view-EndsJob t (job_event _) k o h = elim h [ ]
view-EndsJob t _ k o h = elim h [ ]

-- A list of endings ends each job that it names, and leaves ended what was ended.
pub append_inputs-Ended :
    (host : Host) (now : ℕ) (es : List DomainEvent) (log log' : Log) (s s' : ProjectionState)
    (k : Uuid)
    → All Ending es
    → Ends k es ⊎ Ended (get k s.jobs)
    → JobsKeyed s
    → append_inputs host now es log s ≡ some (log', s')
    → Ended (get k s'.jobs)
unfolding append_inputs
append_inputs-Ended host now [] log log' s s' k g (inl h) keyed q = elim h [ ]
append_inputs-Ended host now [] log log' s s' k g (inr h) keyed q =
    let same_state : s ≡ s' = ground arith in rw (← same_state) h
append_inputs-Ended host now (e ∷ es) log log' s s' k g h keyed q =
    elim (Option-cases (evolve host s (store now log e).stamp e)) [
      | inl p ↦ cc (rw p at q)
      | inr (u, p) ↦
          let t = (store now log e).stamp in
          let (keyed', moves) = evolve-JobsMove host t e s u keyed p in
          let later : Ends k es ⊎ Ended (get k u.jobs) = elim h [
            | inl (inl now_ends) ↦ inr (rw (moves k) (view-EndsJob t e k (get k s.jobs) now_ends))
            | inl (inr later_ends) ↦ inl later_ends
            | inr ended ↦ inr (rw (moves k) (view-Ended t e k (get k s.jobs) g.0 ended))
          ] in
          append_inputs-Ended host now es _ log' u s' k g.1 later keyed' (rw p at q)
    ]

-- Endings neither make nor remove jobs, and leave each in its run.
pub append_inputs-run_of :
    (host : Host) (now : ℕ) (es : List DomainEvent) (log log' : Log) (s s' : ProjectionState)
    (k : Uuid)
    → All Ending es
    → JobsKeyed s
    → append_inputs host now es log s ≡ some (log', s')
    → run_of (get k s'.jobs) ≡ run_of (get k s.jobs)
append_inputs-run_of host now es log log' s s' k g keyed q =
    (append_inputs-keeps (λ u. JobsKeyed u × (run_of (get k u.jobs) ≡ run_of (get k s.jobs))) Ending
      host
      (λ t e u u' ending p step.
        let (keyed', moves) = evolve-JobsMove host t e u u' p.0 step in
        (keyed', ap run_of (moves k) ∙ run_of-job_view t e k (get k u.jobs) ending ∙ p.1))
      now es log log' s s' g (keyed, refl) q).1

pub Ends-append_left : (k : Uuid) (xs ys : List DomainEvent) → Ends k xs → Ends k (xs ++ ys)
Ends-append_left k [] ys h = elim h [ ]
Ends-append_left k (x ∷ xs) ys (inl h) = inl h
Ends-append_left k (x ∷ xs) ys (inr h) = inr (Ends-append_left k xs ys h)

pub Ends-append_right : (k : Uuid) (xs ys : List DomainEvent) → Ends k ys → Ends k (xs ++ ys)
Ends-append_right k [] ys h = h
Ends-append_right k (x ∷ xs) ys h = inr (Ends-append_right k xs ys h)

pub cancellation_events-Ends :
    (host : Host) (s : ProjectionState) (j : JobState) (why : CancelReason) (generated : List Uuid)
    → Ends j.job_id (cancellation_events host s j why generated).0
unfolding cancellation_events
cancellation_events-Ends host s j why generated =
    Ends-append_right j.job_id (active_cancellation host s j why generated (active_attempt s j)).0 _
      (inl refl)

pub cancel_jobs-Ends :
    (host : Host) (s : ProjectionState) (why : CancelReason) (chosen : JobState → Bool)
    (js : List JobState) (generated : List Uuid) (j : JobState)
    → Memᴰ j js
    → chosen j ≡ true
    → Ends j.job_id (cancel_jobs host s why chosen js generated)
unfolding cancel_jobs
cancel_jobs-Ends host s why chosen [] generated j m h = elim m [ ]
cancel_jobs-Ends host s why chosen (i ∷ js) generated j (Memᴰ.head e) h =
    rw (ap chosen (sym e) ∙ h) (
      Ends-append_left j.job_id (cancellation_events host s i why generated).0
        (cancel_jobs host s why chosen js (cancellation_events host s i why generated).1)
        (rw e (cancellation_events-Ends host s i why generated)))
cancel_jobs-Ends host s why chosen (i ∷ js) generated j (Memᴰ.tail m) h =
    Ends-append_right j.job_id _ _ (cancel_jobs-Ends host s why chosen js _ j m h)
