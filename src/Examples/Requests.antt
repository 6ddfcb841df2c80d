-- ===== src/Examples/Requests.antt =====
-- Examples on the database: a program is created, the request repeated after another, its key
-- reused, and a log that cannot be read.
use parallelplay.Prelude.{
  none, All, ◌≡◌, refl, true, [], ◌∷◌, get, set, same, trim, utf16_length, join,
}
use parallelplay.Canonical.{Host, Json, canonical_digest, canonical_json, normalize, stringify}
use parallelplay.Evolve.{evolve, evolve_data}
use parallelplay.Model.{job_event, job_failed, program_created}
use parallelplay.Decide.{
  Decision, Accepted, run_cancel, cancellation_for_run, ok, failure, thrown, program,
  program_create,
}
use parallelplay.Kernel.{
  Database, Request, create_program, cancel_run, execute, execute_on, begin_immediate, tables,
  attempt_command, run_loaded, carry_out, conclude, write_log, write, settle, store_receipt, commit,
  catch_error, rollback, idle, replied, succeeded, raised, has_entity, decide, append_events,
  append_rest, store, load_state, load_events, parse_payload, parse_job, parse_text, parse_given,
  parse_short, replay_events, replay_from, empty_projection_state, idempotency_conflict,
}
use parallelplay.Replay.Atomic.{transact, settled, execute_on-transact}
use parallelplay.Replay.Numbering.{Numbered, NumberedAfter, execute-Numbered}
use parallelplay.Replay.Receipts.{execute_again, execute_conflict, here, request_later}
use parallelplay.Replay.Reading.Commands.{IsLegible, decide-ReadBack}
use parallelplay.Replay.Transactions.{ReadsBack}
use parallelplay.Lifecycle.Reachable.{Reachable-Sound, Sound, start, request, empty_database}
use parallelplay.Examples.Setting.{plain_host, a_request, last_try_state}

-- What a decision accepts.
abbrev accepted_of : Decision → Accepted
accepted_of (ok a) = a
accepted_of (failure c m) = record { events = []; result_kind = program; result_id = m }
accepted_of (thrown m) = record { events = []; result_kind = program; result_id = m }

-- The database after the request.
abbrev served : Database
served = (execute plain_host "command" 5 empty_database a_request).1

a_request-IsLegible : IsLegible plain_host a_request.command
unfolding parse_text parse_given parse_short trim utf16_length same
a_request-IsLegible = refl

Reachable-Sound_example : Sound plain_host served.log
Reachable-Sound_example =
    Reachable-Sound plain_host served
      (request "command" 5 empty_database a_request tt a_request-IsLegible start)

-- Another request, and a third that uses the key of the first again.
abbrev between : Request
between = record {
  idempotency_key = "between";
  document = Json.text "more";
  command = create_program "program" "Demo";
}

abbrev reused : Request
reused = record {
  idempotency_key = "key";
  document = Json.text "other";
  command = create_program "program" "Demo";
}

abbrev served_more : Database
served_more = (execute plain_host "second" 7 served between).1

execute_again_example :
    execute plain_host "other" 9 served_more a_request
    ≡ (replied true (succeeded "command" program "program"), served_more)
unfolding execute execute_on begin_immediate tables attempt_command run_loaded carry_out conclude
    write_log write settle store_receipt commit catch_error rollback has_entity decide append_events
    append_rest store evolve evolve_data load_state load_events replay_events replay_from
    empty_projection_state get set same program_create canonical_digest
execute_again_example =
    execute_again plain_host "command" "other" 5 9 empty_database served_more a_request
      (succeeded "command" program "program") refl (request_later "second" 7 served between here)

-- A hash that tells texts apart.
abbrev telling_host : Host
telling_host = record { sha256 = λ text. text }

abbrev told : Database
told = (execute telling_host "command" 5 empty_database a_request).1

execute_conflict_example :
    execute telling_host "other" 9 (execute telling_host "second" 7 told between).1 reused
    ≡ (idempotency_conflict, (execute telling_host "second" 7 told between).1)
unfolding execute execute_on begin_immediate tables attempt_command run_loaded carry_out conclude
    write_log write settle store_receipt commit catch_error rollback has_entity decide append_events
    append_rest store evolve evolve_data load_state load_events replay_events replay_from
    empty_projection_state get set same program_create canonical_digest canonical_json normalize
    stringify join
execute_conflict_example =
    execute_conflict telling_host "command" "other" 5 9 empty_database
      (execute telling_host "second" 7 told between).1 a_request reused
      (succeeded "command" program "program") refl (request_later "second" 7 told between here) refl
      refl

-- A log whose only row cannot be read: the program has no name.
abbrev unreadable : Database
unreadable = record {
  log =
      (record {
        stamp = record { occurred_at = 1; stream_version = 1; global_position = 1 };
        event = program_created "program" " ";
      })
      ∷ [];
  receipts = [];
}

unreadable_raises : execute plain_host "command" 5 unreadable a_request ≡ (raised, unreadable)
unfolding execute execute_on begin_immediate tables attempt_command run_loaded catch_error rollback
    load_state load_events parse_payload parse_text trim same get
unreadable_raises = refl

execute_on-transact_example :
    execute_on plain_host "command" 5 a_request (idle unreadable)
    ≡ settled (transact plain_host "command" 5 unreadable a_request)
execute_on-transact_example = execute_on-transact plain_host "command" 5 unreadable a_request

execute-Numbered_example : Numbered served.log
unfolding NumberedAfter
execute-Numbered_example = execute-Numbered plain_host "command" 5 empty_database a_request tt

-- The cancellation of a run that has a job at work.
abbrev cancelling : Accepted
cancelling = accepted_of (decide plain_host last_try_state (cancel_run "run" "No longer wanted") 9)

cancelling_is_accepted :
    decide plain_host last_try_state (cancel_run "run" "No longer wanted") 9 ≡ ok cancelling
unfolding decide run_cancel cancellation_for_run get same
cancelling_is_accepted = refl

decide-ReadBack_example : All (ReadsBack plain_host) cancelling.events
unfolding parse_text parse_given parse_short trim utf16_length same
decide-ReadBack_example =
    decide-ReadBack plain_host 9 last_try_state (cancel_run "run" "No longer wanted") cancelling
      refl cancelling_is_accepted

-- A failed job without a reason cannot be read back.
blank_reason : parse_payload plain_host (job_event (job_failed "job" "run" "")) ≡ none
unfolding parse_payload parse_job parse_text parse_given trim same
blank_reason = refl
