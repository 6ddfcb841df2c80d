-- ===== src/Lifecycle/Spending.antt =====
-- What the lists of events that commands answer with do to the attempt budgets.
use parallelplay.Prelude.{
  ℕ, ◌<◌, ◌≡◌, ◌∙◌, ap, true, Option, some, List, [], ◌∷◌, String, Uuid, All, All-append,
  All-values, values, get, get-Keyed, same, same→eq, arith, Bool-cases, inl, inr, ltb,
}
use parallelplay.Canonical.{Host}
use parallelplay.Model.{ProjectionState, DomainEvent, JobState, AttemptState, Outcome}
use parallelplay.Decide.{
  FailureReason, failure_transition_events, success_events, unblock_events, is_unblocked_by,
  run_is_done, verdict_events,
}
use parallelplay.Kernel.{Log, append_inputs}
use parallelplay.Lifecycle.Views.{JobsKeyed}
use parallelplay.Lifecycle.Endings.{
  Ending, fail_run_events-Ending, obsolete_events-Ending, verification_events-Ending,
  timeout_cancel-Ending,
}
use parallelplay.Lifecycle.Budget.{
  BudgetHolds, AllAllowed, Room, Within, All-map, Ending-Allowed, append_inputs-BudgetHolds,
}

pub endings-AllAllowed :
    (s : ProjectionState) (es : List DomainEvent) → All Ending es → AllAllowed s es
endings-AllAllowed s es h = All-map Ending _ es (λ e g i. Ending-Allowed i (get i s.jobs) e g) h

-- A job that an identifier finds is found by its own.
pub found-own :
    (s : ProjectionState) (k : Uuid) (j : JobState)
    → JobsKeyed s
    → get k s.jobs ≡ some j
    → get j.job_id s.jobs ≡ some j
found-own s k j keyed h =
    ap (λ i. get i s.jobs) (get-Keyed (λ (x : JobState). x.job_id) k j s.jobs keyed h) ∙ h

retry-Allowed :
    (s : ProjectionState) (j : JobState)
    → get j.job_id s.jobs ≡ some j
    → j.attempt_count < j.policy.max_attempts
    → (i : Uuid) → same j.job_id i ≡ true
    → Room (get i s.jobs)
retry-Allowed s j own room i e = rw (← same→eq j.job_id i e, own) room

pub failure_transition_events-AllAllowed :
    (host : Host) (s : ProjectionState) (j : JobState) (attempt : AttemptState)
    (why : FailureReason) (now : ℕ) (detail : Option String) (excluded : Option Uuid)
    → get j.job_id s.jobs ≡ some j
    → AllAllowed s (failure_transition_events host s j attempt why now detail excluded)
unfolding failure_transition_events
failure_transition_events-AllAllowed host s j attempt why now detail excluded own = (
  (λ i. tt),
  All-append _ _ _
      (endings-AllAllowed s _
        (obsolete_events-Ending attempt.attempt_id excluded _ (values s.outbox)))
      (All-append _ _ _
        (endings-AllAllowed s _
          (verification_events-Ending s.verifications attempt.attempt_id j.run_id _))
        (All-append _ _ _
          (endings-AllAllowed s _
            (timeout_cancel-Ending host s j attempt why attempt.external_run_id))
          (elim (Bool-cases (ltb j.attempt_count j.policy.max_attempts)) [
            | inl left ↦ rw left ((λ i. retry-Allowed s j own (ground arith) i), tt)
            | inr spent ↦ rw spent (endings-AllAllowed s _ (fail_run_events-Ending host s j _))
          ]))),
)

unblock_events-AllAllowed :
    (s : ProjectionState) (j : JobState) (cs : List JobState)
    → BudgetHolds s
    → All (λ (c : JobState). get c.job_id s.jobs ≡ some c) cs
    → AllAllowed s (unblock_events s.jobs j cs)
unfolding unblock_events is_unblocked_by
unblock_events-AllAllowed s j [] b own = tt
unblock_events-AllAllowed s j (c ∷ cs) b own = elim (Bool-cases (is_unblocked_by s.jobs j c)) [
  | inl e ↦
      let within : Within (some c) = rw own.0 at (b.1 c.job_id) in
      let room : c.attempt_count < c.policy.max_attempts = within.1 (ground arith) in
      rw e ((λ i. retry-Allowed s c own.0 room i), unblock_events-AllAllowed s j cs b own.1)
  | inr e ↦ rw e (unblock_events-AllAllowed s j cs b own.1)
]

pub success_events-AllAllowed :
    (s : ProjectionState) (j : JobState) → BudgetHolds s → AllAllowed s (success_events s j)
unfolding success_events
success_events-AllAllowed s j b = (
  (λ i. tt),
  All-append _ _ _
      (unblock_events-AllAllowed s j (values s.jobs) b (
        All-values (λ (c : JobState). c.job_id) (λ c. get c.job_id s.jobs ≡ some c) s.jobs b.0
          (λ c e. e)))
      (elim (Bool-cases (run_is_done (values s.jobs) j)) [
        | inl e ↦ rw e ((λ i. tt), tt)
        | inr e ↦ rw e tt
      ]),
)

pub verdict_events-AllAllowed :
    (host : Host) (s : ProjectionState) (j : JobState) (o : Outcome) (reason : Option String)
    → BudgetHolds s
    → AllAllowed s (verdict_events host s j o reason)
unfolding verdict_events
verdict_events-AllAllowed host s j Outcome.passed reason b = success_events-AllAllowed s j b
verdict_events-AllAllowed host s j Outcome.failed reason b =
    endings-AllAllowed s _ (fail_run_events-Ending host s j _)
verdict_events-AllAllowed host s j Outcome.invalid reason b =
    endings-AllAllowed s _ (fail_run_events-Ending host s j _)

-- What an answer's events leave of the budgets.
abbrev pub Keeps : Host → ℕ → ProjectionState → List DomainEvent → Type 0
Keeps host now s es =
    (log log' : Log) (s' : ProjectionState)
    → append_inputs host now es log s ≡ some (log', s')
    → BudgetHolds s'

pub allowed-Keeps :
    (host : Host) (now : ℕ) (s : ProjectionState) (es : List DomainEvent)
    → BudgetHolds s
    → AllAllowed s es
    → Keeps host now s es
allowed-Keeps host now s es b g log log' s' q =
    append_inputs-BudgetHolds host now es log log' s s' g b q
