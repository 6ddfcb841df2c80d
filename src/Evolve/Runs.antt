-- ===== src/Evolve/Runs.antt =====
-- The run events of `evolve`, packages/kernel/src/model.ts.
use parallelplay.Prelude.{ℕ, Option, none, some, Uuid, Map, set, amend, get_or}
use parallelplay.Model.{
  RunStatus, RunState, RunEvent, Stamp, run_created, milestone_run_created, run_scheduled,
  run_started, run_succeeded, run_failed, run_cancelled,
}

new_run : Uuid → Uuid → Uuid → ℕ → Option Uuid → Option Uuid → Option ℕ → Stamp → RunState
new_run run_id program_id workflow_id workflow_version milestone_id generation_id generation stamp =
    record {
      run_id = run_id;
      program_id = program_id;
      workflow_id = workflow_id;
      workflow_version = workflow_version;
      milestone_id = milestone_id;
      generation_id = generation_id;
      generation = generation;
      status = RunStatus.created;
      created_at = stamp.occurred_at;
      scheduled_at = none;
      started_at = none;
      completed_at = none;
      cancelled_at = none;
      cancellation_reason = none;
      failure_reason = none;
      version = stamp.stream_version;
    }

amend_run : Uuid → (RunState → RunState) → Map RunState → Option (Map RunState)
amend_run = amend (λ r. r.run_id)

unfoldable pub evolve_run : Stamp → RunEvent → Map RunState → Option (Map RunState)
unfolding new_run amend_run
evolve_run t (run_created run_id program_id workflow_id workflow_version) runs =
    some (set run_id (new_run run_id program_id workflow_id workflow_version none none none t) runs)
evolve_run t
      (milestone_run_created run_id program_id workflow_id workflow_version milestone_id
        generation_id generation)
      runs =
    some (
      set run_id
        (new_run run_id program_id workflow_id workflow_version (some milestone_id) generation_id
          generation t)
        runs)
evolve_run t (run_scheduled run_id) runs =
    amend_run run_id
      (λ r. record r {
        status = RunStatus.scheduled;
        scheduled_at = some t.occurred_at;
        version = t.stream_version;
      })
      runs
evolve_run t (run_started run_id) runs =
    amend_run run_id
      (λ r. record r {
        status = RunStatus.running;
        started_at = some (get_or r.started_at t.occurred_at);
        version = t.stream_version;
      })
      runs
evolve_run t (run_succeeded run_id) runs =
    amend_run run_id
      (λ r. record r {
        status = RunStatus.succeeded;
        completed_at = some t.occurred_at;
        version = t.stream_version;
      })
      runs
evolve_run t (run_failed run_id reason) runs =
    amend_run run_id
      (λ r. record r {
        status = RunStatus.failed;
        failure_reason = some reason;
        completed_at = some t.occurred_at;
        version = t.stream_version;
      })
      runs
evolve_run t (run_cancelled run_id reason) runs =
    amend_run run_id
      (λ r. record r {
        status = RunStatus.cancelled;
        cancelled_at = some t.occurred_at;
        cancellation_reason = some reason;
        completed_at = some t.occurred_at;
        version = t.stream_version;
      })
      runs
