-- ===== src/Lifecycle/Charging.antt =====
-- A job's claim charges its attempt budget.
use parallelplay.Prelude.{
  ℕ, ◌+◌, ◌≤◌, ◌<◌, ◌≡◌, refl, ◌∙◌, true, false, Option, none, some, [], ◌∷◌, Uuid, get, same,
  same_refl, same→eq, arith, Bool-cases, if◌then◌else◌, inl, inr,
}
use parallelplay.Canonical.{Host}
use parallelplay.Evolve.{job_change}
use parallelplay.Model.{
  ProjectionState, Stamp, JobState, RunState, ContextPacketState, run_event, attempt_event,
  run_started, attempt_started,
}
use parallelplay.Decide.{
  ok, AcquireJobLease, acquire_events, start_events, enqueue, is_resuming, is_waiting, check_claim,
  is_scheduled,
}
use parallelplay.Kernel.{Log, append_inputs}
use parallelplay.Lifecycle.Views.{job_view, append_inputs-step, append_inputs-nil}
use parallelplay.Lifecycle.Budget.{
  BudgetHolds, Within, is_pending, append_inputs-BudgetHolds, view-Within,
}
use parallelplay.Lifecycle.Spending.{Keeps}
use parallelplay.Lifecycle.Fencing.{claim_event}

-- The job may start the attempt with a number.
abbrev Startable : Option JobState → ℕ → Type 0
Startable none n = Unit
Startable (some j) n = (n ≤ j.policy.max_attempts) × (is_pending j.status ≡ false)

started-Within :
    (t : Stamp) (a k r i : Uuid) (n d : ℕ) (o : Option JobState)
    → (same k i ≡ true → Startable o n)
    → Within o
    → Within (job_view t (attempt_event (attempt_started a k r n d)) i o)
unfolding job_view
started-Within t a k r i n d none g h = ground arith
started-Within t a k r i n d (some j) g h = ground arith

claimed-Startable :
    (t : Stamp) (p : AcquireJobLease) (now : ℕ) (j : JobState)
    → j.attempt_count < j.policy.max_attempts
    → Startable (job_view t (claim_event p j now) j.job_id (some j)) (j.attempt_count + 1)
unfolding job_view job_change
claimed-Startable t p now j room = rw (same_refl j.job_id) (ground arith, refl)

-- A claim that starts an attempt found the job waiting.
check_claim-is_waiting :
    (s : ProjectionState) (j : JobState) (p : AcquireJobLease) (now : ℕ)
    → check_claim s j p now ≡ ok tt
    → is_resuming j ≡ false
    → is_waiting j.status ≡ true
unfolding check_claim
check_claim-is_waiting s j p now h fresh = ground (arith, h, fresh)

tail-BudgetHolds :
    (host : Host) (now : ℕ) (log log' : Log) (s s' u : ProjectionState) (p : AcquireJobLease)
    (j : JobState) (packet : Option ContextPacketState) (t : Stamp)
    → get j.job_id s.jobs ≡ some j
    → j.attempt_count < j.policy.max_attempts
    → ((i : Uuid) → get i u.jobs ≡ job_view t (claim_event p j now) i (get i s.jobs))
    → BudgetHolds u
    → append_inputs host now (start_events p j packet now) log u ≡ some (log', s')
    → BudgetHolds s'
unfolding start_events enqueue
tail-BudgetHolds host now log log' s s' u p j packet t own room moves (keyed, within) q =
    let (t', l, v, keyed', moves', q') = append_inputs-step host now _ _ log u (log', s') keyed q in
    append_inputs-BudgetHolds host now _ l log' v s' ((λ i. tt), tt)
      (
        keyed',
        λ i. rw (moves' i) (
            started-Within t' p.attempt_id j.job_id j.run_id i (j.attempt_count + 1) _
              (get i u.jobs)
              (λ e.
                rw (← same→eq j.job_id i e, moves j.job_id, own) (claimed-Startable t p now j room))
              (within i)),
      )
      q'

claim-BudgetHolds :
    (host : Host) (now : ℕ) (log log' : Log) (s s' : ProjectionState) (p : AcquireJobLease)
    (j : JobState) (packet : Option ContextPacketState)
    → BudgetHolds s
    → get j.job_id s.jobs ≡ some j
    → (is_resuming j ≡ false → j.attempt_count < j.policy.max_attempts)
    → append_inputs host now
        (claim_event p j now ∷ (if is_resuming j then [] else start_events p j packet now))
        log
        s
      ≡ some (log', s')
    → BudgetHolds s'
claim-BudgetHolds host now log log' s s' p j packet (keyed, within) own room q =
    let (t, l, u, keyed', moves, q') = append_inputs-step host now _ _ log s (log', s') keyed q in
    let b : BudgetHolds u = (
      keyed',
      λ i. rw (moves i) (view-Within t (claim_event p j now) i (get i s.jobs) tt (within i)),
    ) in
    elim (Bool-cases (is_resuming j)) [
      | inl resumes ↦ rw (← append_inputs-nil host now l log' u s' (rw resumes at q')) b
      | inr fresh ↦
          tail-BudgetHolds host now l log' s s' u p j packet t own (room fresh) moves b
            (rw fresh at q')
    ]

pub acquire_events-Keeps :
    (host : Host) (now : ℕ) (s : ProjectionState) (p : AcquireJobLease) (r : RunState)
    (j : JobState) (packet : Option ContextPacketState)
    → BudgetHolds s
    → get j.job_id s.jobs ≡ some j
    → check_claim s j p now ≡ ok tt
    → Keeps host now s (acquire_events r j p packet now)
unfolding acquire_events job_view
acquire_events-Keeps host now s p r j packet (keyed, within) own checked log log' s' q =
    let w : Within (some j) = rw own at (within j.job_id) in
    let room : is_resuming j ≡ false → j.attempt_count < j.policy.max_attempts =
      λ fresh. let waits = check_claim-is_waiting s j p now checked fresh in w.1 (ground arith) in
    elim (Bool-cases (is_scheduled r.status)) [
      | inl first ↦
          let (t, l, u, keyed', moves, q') =
            append_inputs-step host now (run_event (run_started r.run_id)) _ log s (log', s') keyed
              (rw first at q) in
          claim-BudgetHolds host now l log' u s' p j packet (keyed', λ i. rw (moves i) (within i))
            (moves j.job_id ∙ own) room q'
      | inr later ↦
          claim-BudgetHolds host now log log' s s' p j packet (keyed, within) own room
            (rw later at q)
    ]
