-- ===== src/Examples/Endings.antt =====
-- Examples on the end of a run: cancelled by its operator, failed by its job's last attempt.
use parallelplay.Prelude.{
  ◌≡◌, refl, Option, none, some, [], ◌∷◌, ◌++◌, Keyed, get, set, same, amend, arith, values,
}
use parallelplay.Evolve.{
  evolve, evolve_data, evolve_job, job_change, apply_change, evolve_attempt, evolve_attempt_job,
  evolve_run,
}
use parallelplay.Model.{ProjectionState, RunState}
use parallelplay.Decide.{
  Accepted, ok, ResultKind, run_cancel, cancellation_for_run, legacy_cancellations, cancel_jobs,
  cancellation_events, active_cancellation, active_attempt, FailureReason,
  failure_transition_events, fail_run_events, obsolete_events, verification_events,
  cancelled_verification, timeout_cancel, CancelReason, is_open_job,
}
use parallelplay.Model.{run_event, run_cancelled}
use parallelplay.Kernel.{Log, append_inputs}
use parallelplay.Lifecycle.Views.{JobsKeyed}
use parallelplay.Lifecycle.Closing.{
  RunIsClosed, run_cancel-RunIsClosed, failure_transition_events-RunIsClosed,
}
use parallelplay.Examples.Setting.{
  state_of, log_of, plain_host, ready_state, last_try, last_try_state, an_attempt,
}

ready-JobsKeyed : JobsKeyed ready_state
unfolding get
ready-JobsKeyed = (refl, refl, tt)

runs-Keyed : Keyed (λ (r : RunState). r.run_id) ready_state.runs
unfolding get
runs-Keyed = (refl, refl, tt)

last-JobsKeyed : JobsKeyed last_try_state
unfolding get
last-JobsKeyed = (refl, refl, tt)

abbrev the_answer : Accepted
the_answer = record {
  events =
      cancel_jobs plain_host ready_state CancelReason.operator_cancelled (is_open_job "run")
        (values ready_state.jobs) []
      ++ run_event (run_cancelled "run" "stop") ∷ [];
  result_kind = ResultKind.run;
  result_id = "run";
}

abbrev cancelled : Option (Log × ProjectionState)
cancelled = append_inputs plain_host 3000 the_answer.events [] ready_state

accepted_cancel : run_cancel plain_host ready_state "run" "stop" ≡ ok the_answer
unfolding run_cancel cancellation_for_run legacy_cancellations get same
accepted_cancel = refl

applied_cancel : cancelled ≡ some (log_of cancelled, state_of cancelled)
unfolding append_inputs cancel_jobs cancellation_events active_cancellation active_attempt evolve
    evolve_data evolve_job job_change apply_change evolve_run get set amend same
applied_cancel = refl

run_cancel-RunIsClosed_example : RunIsClosed "run" (state_of cancelled)
run_cancel-RunIsClosed_example =
    run_cancel-RunIsClosed plain_host 3000 [] (log_of cancelled) ready_state (state_of cancelled)
      "run" "stop" the_answer ready-JobsKeyed runs-Keyed accepted_cancel applied_cancel

abbrev failed : Option (Log × ProjectionState)
failed =
    append_inputs plain_host 4000
      (failure_transition_events plain_host last_try_state last_try an_attempt
        FailureReason.driver_error 4000 none none)
      [] last_try_state

applied_failure : failed ≡ some (log_of failed, state_of failed)
unfolding append_inputs failure_transition_events fail_run_events obsolete_events
    verification_events cancelled_verification timeout_cancel cancel_jobs evolve evolve_data
    evolve_job evolve_attempt evolve_attempt_job job_change apply_change evolve_run get set amend
    same
applied_failure = refl

failure_transition_events-RunIsClosed_example : RunIsClosed "run" (state_of failed)
failure_transition_events-RunIsClosed_example =
    failure_transition_events-RunIsClosed plain_host 4000 [] (log_of failed) last_try_state
      (state_of failed) last_try an_attempt FailureReason.driver_error none none last-JobsKeyed
      (omega arith) applied_failure
