-- ===== src/Examples/Successes.antt =====
-- An example on success: a job that waits for another is released.
use mathlib.Core.List.{Memᴰ}
use parallelplay.Prelude.{◌≡◌, refl, [], ◌∷◌, none, get, same}
use parallelplay.Model.{ProjectionState, JobState, JobStatus, job_event, job_unblocked}
use parallelplay.Decide.{success_events, unblock_events, is_unblocked_by, run_is_done}
use parallelplay.Lifecycle.Unblocking.{MayRun, success_events-MayRun}
use parallelplay.Examples.Setting.{last_try, last_try_state, job_with}

abbrev waiting_job : JobState
waiting_job = record (job_with JobStatus.blocked 0 none) {
  job_id = "deploy";
  dependency_job_ids = "job" ∷ [];
}

abbrev chained_state : ProjectionState
chained_state = record last_try_state { jobs = ("job", last_try) ∷ ("deploy", waiting_job) ∷ [] }

released : Memᴰ (job_event (job_unblocked "deploy" "run")) (success_events chained_state last_try)
unfolding success_events unblock_events is_unblocked_by run_is_done get same
released = Memᴰ.tail (Memᴰ.head refl)

success_events-MayRun_example :
    (c : JobState) × (c.job_id ≡ "deploy") × MayRun chained_state last_try c
success_events-MayRun_example = success_events-MayRun chained_state last_try "deploy" "run" released
