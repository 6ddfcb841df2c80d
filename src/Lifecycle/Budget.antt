-- ===== src/Lifecycle/Budget.antt =====
-- The attempt budget of a job: what events do to it.
use parallelplay.Prelude.{
  ℕ, ◌≤◌, ◌<◌, ◌≡◌, Bool, true, false, Option, none, some, List, [], ◌∷◌, Uuid, All, get, same,
  arith,
}
use parallelplay.Canonical.{Host}
use parallelplay.Evolve.{job_change}
use parallelplay.Model.{
  ProjectionState, DomainEvent, Stamp, JobState, JobStatus, attempt_event, job_event,
  attempt_started, job_scheduled, job_unblocked, job_retry_scheduled, attempt_finished,
  attempt_cancelled, job_lease_acquired, job_lease_renewed, job_lease_released, job_succeeded,
  job_cancelled, job_failed,
}
use parallelplay.Kernel.{Log, append_inputs}
use parallelplay.Lifecycle.Views.{JobsKeyed, job_view, append_inputs-step, append_inputs-nil}
use parallelplay.Lifecycle.Endings.{Ending}

-- A job that waits for an attempt.
abbrev pub is_pending : JobStatus → Bool
is_pending JobStatus.blocked = true
is_pending JobStatus.ready = true
is_pending JobStatus.retry_wait = true
is_pending _ = false

-- The job has an attempt left.
abbrev pub Room : Option JobState → Type 0
Room none = Unit
Room (some j) = j.attempt_count < j.policy.max_attempts

-- The job has started no more attempts than its policy allows, and fewer while it waits for one.
abbrev pub Within : Option JobState → Type 0
Within none = Unit
Within (some j) =
    (j.attempt_count ≤ j.policy.max_attempts)
    × (is_pending j.status ≡ true → j.attempt_count < j.policy.max_attempts)

-- The jobs stand under their identifiers and are within their budgets.
abbrev pub BudgetHolds : ProjectionState → Type 0
BudgetHolds s = JobsKeyed s × ((i : Uuid) → Within (get i s.jobs))

-- The event starts no attempt, and puts a job back only if an attempt is left.
abbrev Allowed : Uuid → Option JobState → DomainEvent → Type 0
Allowed i o (job_event (job_scheduled d)) = ⊥
Allowed i o (job_event (job_unblocked k r)) = same k i ≡ true → Room o
Allowed i o (job_event (job_retry_scheduled k r a x)) = same k i ≡ true → Room o
Allowed i o (job_event _) = Unit
Allowed i o (attempt_event (attempt_started a k r n d)) = ⊥
Allowed i o _ = Unit

pub Ending-Allowed : (i : Uuid) (o : Option JobState) (e : DomainEvent) → Ending e → Allowed i o e
Ending-Allowed i o (job_event (job_cancelled k r x)) h = tt
Ending-Allowed i o (job_event (job_failed k r x)) h = tt
Ending-Allowed i o (job_event _) h = elim h [ ]
Ending-Allowed i o (attempt_event (attempt_finished a k r s x d)) h = tt
Ending-Allowed i o (attempt_event (attempt_cancelled a r x)) h = tt
Ending-Allowed i o (attempt_event _) h = elim h [ ]
Ending-Allowed i o _ h = tt

view-Room :
    (t : Stamp) (e : DomainEvent) (i : Uuid) (o : Option JobState)
    → Allowed i o e
    → Room o
    → Room (job_view t e i o)
unfolding job_view job_change
view-Room t (job_event (job_scheduled d)) i o g h = elim g [ ]
view-Room t (attempt_event (attempt_started a k r n d)) i o g h = elim g [ ]
view-Room t (job_event (job_unblocked k r)) i none g h = ground arith
view-Room t (job_event (job_unblocked k r)) i (some j) g h = ground arith
view-Room t (job_event (job_lease_acquired k r w f x b)) i none g h = ground arith
view-Room t (job_event (job_lease_acquired k r w f x b)) i (some j) g h = ground arith
view-Room t (job_event (job_lease_renewed k r w f x)) i none g h = ground arith
view-Room t (job_event (job_lease_renewed k r w f x)) i (some j) g h = ground arith
view-Room t (job_event (job_lease_released k r w f)) i none g h = ground arith
view-Room t (job_event (job_lease_released k r w f)) i (some j) g h = ground arith
view-Room t (job_event (job_retry_scheduled k r x y)) i none g h = ground arith
view-Room t (job_event (job_retry_scheduled k r x y)) i (some j) g h = ground arith
view-Room t (job_event (job_succeeded k r)) i none g h = ground arith
view-Room t (job_event (job_succeeded k r)) i (some j) g h = ground arith
view-Room t (job_event (job_failed k r x)) i none g h = ground arith
view-Room t (job_event (job_failed k r x)) i (some j) g h = ground arith
view-Room t (job_event (job_cancelled k r x)) i none g h = ground arith
view-Room t (job_event (job_cancelled k r x)) i (some j) g h = ground arith
view-Room t (attempt_event _) i o g h = h
view-Room t _ i o g h = h

pub view-Within :
    (t : Stamp) (e : DomainEvent) (i : Uuid) (o : Option JobState)
    → Allowed i o e
    → Within o
    → Within (job_view t e i o)
unfolding job_view job_change
view-Within t (job_event (job_scheduled d)) i o g h = elim g [ ]
view-Within t (attempt_event (attempt_started a k r n d)) i o g h = elim g [ ]
view-Within t (job_event (job_unblocked k r)) i none g h = ground arith
view-Within t (job_event (job_unblocked k r)) i (some j) g h = ground arith
view-Within t (job_event (job_lease_acquired k r w f x b)) i none g h = ground arith
view-Within t (job_event (job_lease_acquired k r w f x b)) i (some j) g h = ground arith
view-Within t (job_event (job_lease_renewed k r w f x)) i none g h = ground arith
view-Within t (job_event (job_lease_renewed k r w f x)) i (some j) g h = ground arith
view-Within t (job_event (job_lease_released k r w f)) i none g h = ground arith
view-Within t (job_event (job_lease_released k r w f)) i (some j) g h = ground arith
view-Within t (job_event (job_retry_scheduled k r x y)) i none g h = ground arith
view-Within t (job_event (job_retry_scheduled k r x y)) i (some j) g h = ground arith
view-Within t (job_event (job_succeeded k r)) i none g h = ground arith
view-Within t (job_event (job_succeeded k r)) i (some j) g h = ground arith
view-Within t (job_event (job_failed k r x)) i none g h = ground arith
view-Within t (job_event (job_failed k r x)) i (some j) g h = ground arith
view-Within t (job_event (job_cancelled k r x)) i none g h = ground arith
view-Within t (job_event (job_cancelled k r x)) i (some j) g h = ground arith
view-Within t (attempt_event _) i o g h = h
view-Within t _ i o g h = h

view-Allowed :
    (t : Stamp) (e e' : DomainEvent) (i : Uuid) (o : Option JobState)
    → Allowed i o e
    → Allowed i o e'
    → Allowed i (job_view t e i o) e'
view-Allowed t e (job_event (job_scheduled d)) i o g h = elim h [ ]
view-Allowed t e (job_event (job_unblocked k r)) i o g h = λ q. view-Room t e i o g (h q)
view-Allowed t e (job_event (job_retry_scheduled k r a x)) i o g h = λ q. view-Room t e i o g (h q)
view-Allowed t e (job_event (job_lease_acquired k r w f x b)) i o g h = tt
view-Allowed t e (job_event (job_lease_renewed k r w f x)) i o g h = tt
view-Allowed t e (job_event (job_lease_released k r w f)) i o g h = tt
view-Allowed t e (job_event (job_succeeded k r)) i o g h = tt
view-Allowed t e (job_event (job_failed k r x)) i o g h = tt
view-Allowed t e (job_event (job_cancelled k r x)) i o g h = tt
view-Allowed t e (attempt_event (attempt_started a k r n d)) i o g h = elim h [ ]
view-Allowed t e (attempt_event _) i o g h = tt
view-Allowed t e _ i o g h = tt

-- Events that are allowed in a state.
abbrev pub AllAllowed : ProjectionState → List DomainEvent → Type 0
AllAllowed s es = All (λ e. (i : Uuid) → Allowed i (get i s.jobs) e) es

pub All-map {ℓ κ} :
    {A : Type ℓ} (P Q : A → Type κ) (xs : List A) → ((x : A) → P x → Q x) → All P xs → All Q xs
All-map P Q [] f h = tt
All-map P Q (x ∷ xs) f h = (f x h.0, All-map P Q xs f h.1)

pub append_inputs-BudgetHolds :
    (host : Host) (now : ℕ) (es : List DomainEvent) (log log' : Log) (s s' : ProjectionState)
    → AllAllowed s es
    → BudgetHolds s
    → append_inputs host now es log s ≡ some (log', s')
    → BudgetHolds s'
append_inputs-BudgetHolds host now [] log log' s s' g b q =
    let same_state : s ≡ s' = append_inputs-nil host now log log' s s' q in rw (← same_state) b
append_inputs-BudgetHolds host now (e ∷ es) log log' s s' g (keyed, within) q =
    let (t, l, u, keyed', moves, q') = append_inputs-step host now e es log s (log', s') keyed q in
    append_inputs-BudgetHolds host now es l log' u s'
      (All-map _ _ es (λ e' h i. rw (moves i) (view-Allowed t e e' i (get i s.jobs) (g.0 i) (h i)))
        g.1)
      (keyed', λ i. rw (moves i) (view-Within t e i (get i s.jobs) (g.0 i) (within i))) q'
