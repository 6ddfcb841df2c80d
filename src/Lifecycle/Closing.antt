-- ===== src/Lifecycle/Closing.antt =====
-- A cancelled or failed run leaves no job at work.
use mathlib.Core.List.{Memᴰ}
use parallelplay.Prelude.{
  ℕ, ◌≤◌, ◌≡◌, refl, sym, ap, subst, ◌⊎◌, inl, inr, true, false, Option, some, List, [], ◌∷◌, ◌++◌,
  String, Uuid, Keyed, get, get-Keyed, mem-values, values, All, All-append, same, same→eq, arith,
  Bool-cases, Option-cases, ltb, get_or,
}
use parallelplay.Canonical.{Host}
use parallelplay.Evolve.{reason_text}
use parallelplay.Model.{
  ProjectionState, DomainEvent, JobState, AttemptState, RunState, run_event, run_cancelled,
  is_terminal_job, is_terminal_run,
}
use parallelplay.Decide.{
  Accepted, ok, >>=-eq-ok, CancelReason, FailureReason, failure_reason, cancel_jobs,
  cancellation_for_run, run_cancel, legacy_cancellations, fail_run_events,
  failure_transition_events, obsolete_events, verification_events, timeout_cancel, is_open_job,
  is_open_sibling,
}
use parallelplay.Kernel.{Log, append_inputs}
use parallelplay.Lifecycle.Views.{JobsKeyed}
use parallelplay.Lifecycle.Endings.{
  Ending, cancel_jobs-Ending, legacy_cancellations-Ending, fail_run_events-Ending,
  obsolete_events-Ending, verification_events-Ending, timeout_cancel-Ending,
}
use parallelplay.Lifecycle.Ended.{
  Ended, run_of, Ends, append_inputs-Ended, append_inputs-run_of, Ends-append_left,
  Ends-append_right, cancel_jobs-Ends,
}

-- No job of the run is at work.
abbrev pub RunIsClosed : Uuid → ProjectionState → Type 0
RunIsClosed run_id s =
    (k : Uuid) (j : JobState)
    → get k s.jobs ≡ some j
    → same j.run_id run_id ≡ true
    → is_terminal_job j.status ≡ true

-- A list of endings that names every open job of a run closes the run.
endings-RunIsClosed :
    (host : Host) (now : ℕ) (es : List DomainEvent) (log log' : Log) (s s' : ProjectionState)
    (run_id : Uuid)
    → All Ending es
    → ((j : JobState) → Memᴰ j (values s.jobs) → is_open_job run_id j ≡ true → Ends j.job_id es)
    → JobsKeyed s
    → append_inputs host now es log s ≡ some (log', s')
    → RunIsClosed run_id s'
endings-RunIsClosed host now es log log' s s' run_id g names keyed q k j' there mine =
    let kept = append_inputs-run_of host now es log log' s s' k g keyed q in
    elim (Option-cases (get k s.jobs)) [
      | inl e ↦ cc (kept, ap run_of there, ap run_of e)
      | inr (j, e) ↦
          let same_run : j'.run_id ≡ j.run_id = cc (kept, ap run_of there, ap run_of e) in
          let started : Ends k es ⊎ Ended (get k s.jobs) =
            elim (Bool-cases (is_terminal_job j.status)) [
              | inl over ↦ inr (rw e over)
              | inr open_still ↦ inl (
                  subst (λ (x : Uuid). Ends x es)
                    (get-Keyed (λ (x : JobState). x.job_id) k j s.jobs keyed e)
                    (names j (mem-values k j s.jobs e) (rw (← same_run, mine, open_still) refl)))
            ] in
          rw there at (append_inputs-Ended host now es log log' s s' k g started keyed q)
    ]

cancellation_for_run-inv :
    (host : Host) (s : ProjectionState) (run_id : Uuid) (reason : String)
    (events : List DomainEvent)
    → cancellation_for_run host s run_id reason ≡ ok events
    → (r : RunState) × (get run_id s.runs ≡ some r)
      × (events
          ≡ legacy_cancellations r.run_id reason (values s.attempts)
            ++ (cancel_jobs host s CancelReason.operator_cancelled
                  (is_open_job r.run_id)
                  (values s.jobs)
                  []
                ++ run_event (run_cancelled r.run_id reason) ∷ []))
unfolding cancellation_for_run
cancellation_for_run-inv host s run_id reason events h = elim (Option-cases (get run_id s.runs)) [
  | inl e ↦ cc (rw e at h)
  | inr (r, e) ↦ elim (Bool-cases (is_terminal_run r.status)) [
    | inl over ↦ ground (arith, e, over, h)
    | inr fresh ↦ (r, e, ground (arith, e, fresh, h))
  ]
]

-- An accepted cancellation of a run closes it: in the state that its events lead to, every job of
-- the run has a terminal status. The jobs and the run stand under their own identifiers.
pub run_cancel-RunIsClosed :
    (host : Host) (now : ℕ) (log log' : Log) (s s' : ProjectionState) (run_id : Uuid)
    (reason : String) (a : Accepted)
    → JobsKeyed s
    → Keyed (λ (r : RunState). r.run_id) s.runs
    → run_cancel host s run_id reason ≡ ok a
    → append_inputs host now a.events log s ≡ some (log', s')
    → RunIsClosed run_id s'
unfolding run_cancel
run_cancel-RunIsClosed host now log log' s s' run_id reason a keyed runs h q =
    let (events, cancelled, accepted) = >>=-eq-ok (cancellation_for_run host s run_id reason) _ h in
    let (r, found_run, what) = cancellation_for_run-inv host s run_id reason events cancelled in
    let own : r.run_id ≡ run_id =
      get-Keyed (λ (x : RunState). x.run_id) run_id r s.runs runs found_run in
    let all_events : a.events ≡ events = ground arith in
    let jobs =
      cancel_jobs host s CancelReason.operator_cancelled (is_open_job r.run_id) (values s.jobs)
        [] in
    let last = run_event (run_cancelled r.run_id reason) ∷ [] in
    endings-RunIsClosed host now a.events log log' s s' run_id
      (rw (all_events, what)
        (All-append Ending (legacy_cancellations r.run_id reason (values s.attempts)) (jobs ++ last)
          (legacy_cancellations-Ending r.run_id reason (values s.attempts))
          (All-append Ending jobs last
            (cancel_jobs-Ending host s CancelReason.operator_cancelled (is_open_job r.run_id)
              (values s.jobs) [])
            (tt, tt))))
      (λ j there open_still.
        rw (all_events, what)
          (Ends-append_right j.job_id (legacy_cancellations r.run_id reason (values s.attempts))
            (jobs ++ last)
            (Ends-append_left j.job_id jobs last (
              cancel_jobs-Ends host s CancelReason.operator_cancelled (is_open_job r.run_id)
                (values s.jobs) [] j there (rw own open_still)))))
      keyed q

fail_run_events-Ends :
    (host : Host) (s : ProjectionState) (j i : JobState) (reason : String)
    → Memᴰ i (values s.jobs)
    → is_open_job j.run_id i ≡ true
    → Ends i.job_id (fail_run_events host s j reason)
unfolding fail_run_events
fail_run_events-Ends host s j i reason there open_still =
    elim (Bool-cases (same i.job_id j.job_id)) [
      | inl e ↦ inl (sym (same→eq i.job_id j.job_id e))
      | inr e ↦ inr (
          Ends-append_left i.job_id _ _ (
            cancel_jobs-Ends host s CancelReason.run_failed (is_open_sibling j) (values s.jobs) [] i
              there (ground (arith, e, open_still))))
    ]

-- A job that fails with no attempt left closes its run, for whatever reason and whichever command
-- reports it: the events of the failure, once applied, leave every job of the run terminal. The
-- jobs stand under their own identifiers.
pub failure_transition_events-RunIsClosed :
    (host : Host) (now : ℕ) (log log' : Log) (s s' : ProjectionState) (j : JobState)
    (attempt : AttemptState) (why : FailureReason) (detail : Option String) (excluded : Option Uuid)
    → JobsKeyed s
    → j.policy.max_attempts ≤ j.attempt_count
    → append_inputs host now
        (failure_transition_events host s j attempt why now detail excluded)
        log
        s
      ≡ some (log', s')
    → RunIsClosed j.run_id s'
unfolding failure_transition_events
failure_transition_events-RunIsClosed host now log log' s s' j attempt why detail excluded keyed
      spent q =
    let no_retry : ltb j.attempt_count j.policy.max_attempts ≡ false = ground arith in
    let text = reason_text (failure_reason why) in
    let old = obsolete_events attempt.attempt_id excluded text (values s.outbox) in
    let checks = verification_events s.verifications attempt.attempt_id j.run_id text in
    let cancel = timeout_cancel host s j attempt why attempt.external_run_id in
    let closing = fail_run_events host s j (get_or detail text) in
    endings-RunIsClosed host now _ log log' s s' j.run_id
      (
        tt,
        All-append Ending old (checks ++ (cancel ++ closing)) (obsolete_events-Ending _ _ _ _) (
            All-append Ending checks (cancel ++ closing) (verification_events-Ending _ _ _ _) (
              All-append Ending cancel closing (timeout_cancel-Ending host s j attempt why _)
                (fail_run_events-Ending host s j _))),
      )
      (λ i there open_still. inr (
        Ends-append_right i.job_id old _ (
          Ends-append_right i.job_id checks _ (
            Ends-append_right i.job_id cancel _
              (fail_run_events-Ends host s j i _ there open_still)))))
      keyed (rw no_retry at q)
