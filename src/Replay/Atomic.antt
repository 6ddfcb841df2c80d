-- ===== src/Replay/Atomic.antt =====
-- What `execute` of packages/kernel/src/sqlite-kernel.ts promises: a transaction that takes place whole
-- or not at all. Here it is a single function on the tables, and the code implements it.
use parallelplay.Prelude.{
  ℕ, ◌≡◌, refl, true, false, Option, none, some, List, [], ◌∷◌, ◌++◌, String, Uuid, get, set, same,
  if◌then◌else◌, Bool-cases, inl, inr, ◌>>=◌,
}
use parallelplay.Canonical.{Host, canonical_digest}
use parallelplay.Evolve.{evolve}
use parallelplay.Model.{ProjectionState, DomainEvent}
use parallelplay.Decide.{Decision, Accepted, ok, failure, thrown}
use parallelplay.Kernel.{
  Command, decide, Log, store, append_inputs, append_events, append_rest, load_state, Request,
  Reply, Receipt, Database, Response, Connection, succeeded, rejected, replied, raised,
  idempotency_conflict, has_entity, conclude, write_log, write, settle, store_receipt, tables,
  commit, catch_error, rollback, carry_out, run_loaded, attempt_command, execute_on,
  begin_immediate, idle, execute,
}

-- The command's answer, the new log beside it; `none` when the transaction is rolled back.
unfoldable pub commit_events :
    Uuid → Accepted → Option (Log × ProjectionState) → Option (Log × Reply)
commit_events command_id a none = none
commit_events command_id a (some (log, s)) =
    if has_entity s a.result_kind a.result_id
    then some (log, succeeded command_id a.result_kind a.result_id)
    else none

unfoldable pub commit_decision :
    Host → Uuid → ℕ → Log → ProjectionState → Decision → Option (Log × Reply)
unfolding commit_events
commit_decision host command_id now log s (ok a) =
    commit_events command_id a (append_inputs host now a.events log s)
commit_decision host command_id now log s (failure c m) = some (log, rejected command_id c m)
commit_decision host command_id now log s (thrown m) = none

unfoldable pub run_command :
    Host → Uuid → ℕ → Log → Command → Option ProjectionState → Option (Log × Reply)
unfolding commit_decision
run_command host command_id now log c none = none
run_command host command_id now log c (some s) =
    commit_decision host command_id now log s (decide host s c now)

unfoldable pub finish : Database → Request → String → Option (Log × Reply) → Response × Database
finish db r request_hash none = (raised, db)
finish db r request_hash (some (log, reply)) = (
  replied false reply,
  record {
    log = log;
    receipts =
        set r.idempotency_key (record { request_hash = request_hash; reply = reply }) db.receipts;
  },
)

unfoldable pub answer :
    Host → Uuid → ℕ → Database → Request → String → Option Receipt → Response × Database
unfolding run_command finish
answer host command_id now db r request_hash (some receipt) =
    if same receipt.request_hash request_hash
    then (replied true receipt.reply, db)
    else (idempotency_conflict, db)
answer host command_id now db r request_hash none =
    finish db r request_hash
      (run_command host command_id now db.log r.command (load_state host db.log))

-- The whole transaction: what a request answers, and the tables after it.
unfoldable pub transact : Host → Uuid → ℕ → Database → Request → Response × Database
unfolding answer
transact host command_id now db r =
    answer host command_id now db r (canonical_digest host r.document)
      (get r.idempotency_key db.receipts)

-- The rows and the state of an append that did not throw.
unfoldable attached : Log × Option ProjectionState → Option (Log × ProjectionState)
attached (log, none) = none
attached (log, some s) = some (log, s)

-- Tables with no transaction under way.
unfoldable pub settled : Response × Database → Response × Connection
settled (response, db) = (response, idle db)

-- A transaction has just begun.
abbrev busy : Database → Connection
busy db = record { committed = db; pending = some db }

append_rest-attached :
    (log : Log) (o : Option ProjectionState)
    (next : ProjectionState → Option (Log × ProjectionState))
    (step : ProjectionState → Log × Option ProjectionState)
    → ((s : ProjectionState) → next s ≡ attached (step s))
    → (o >>= next) ≡ attached (append_rest log o step)
unfolding append_rest attached
append_rest-attached log none next step same_step = refl
append_rest-attached log (some s) next step same_step = same_step s

-- Appending row by row ends well exactly where every event evolves the state.
append_events-append_inputs :
    (host : Host) (now : ℕ) (es : List DomainEvent) (log : Log) (s : ProjectionState)
    → append_inputs host now es log s ≡ attached (append_events host now es log s)
unfolding append_inputs append_events attached
append_events-append_inputs host now [] log s = refl
append_events-append_inputs host now (e ∷ es) log s =
    let rows = log ++ store now log e ∷ [] in
    append_rest-attached rows (evolve host s (store now log e).stamp e)
      (append_inputs host now es rows) (append_events host now es rows)
      (append_events-append_inputs host now es rows)

conclude-finish :
    (command_id : Uuid) (db : Database) (r : Request) (hash : String) (a : Accepted)
    (o : Log × Option ProjectionState)
    → let c = busy db in
      catch_error (conclude command_id r hash a c o)
      ≡ settled (finish db r hash (commit_events command_id a (attached o)))
unfolding conclude write_log write settle store_receipt tables commit catch_error rollback finish
    commit_events attached settled
conclude-finish command_id db r hash a (log, none) = refl
conclude-finish command_id db r hash a (log, some s) =
    elim (Bool-cases (has_entity s a.result_kind a.result_id)) [
      | inl e ↦ rw e refl
      | inr e ↦ rw e refl
    ]

carry_out-finish :
    (host : Host) (command_id : Uuid) (now : ℕ) (db : Database) (r : Request) (hash : String)
    (s : ProjectionState) (d : Decision)
    → let c = busy db in
      catch_error (carry_out host command_id now r hash c s d)
      ≡ settled (finish db r hash (commit_decision host command_id now db.log s d))
unfolding carry_out write settle store_receipt tables commit catch_error rollback finish
    commit_decision settled
carry_out-finish host command_id now db r hash s (ok a) =
    rw (append_events-append_inputs host now a.events db.log s)
      (conclude-finish command_id db r hash a (append_events host now a.events db.log s))
carry_out-finish host command_id now db r hash s (failure code message) = refl
carry_out-finish host command_id now db r hash s (thrown message) = refl

run_loaded-finish :
    (host : Host) (command_id : Uuid) (now : ℕ) (db : Database) (r : Request) (hash : String)
    (o : Option ProjectionState)
    → catch_error (run_loaded host command_id now r hash (busy db) o)
      ≡ settled (finish db r hash (run_command host command_id now db.log r.command o))
unfolding run_loaded run_command finish catch_error rollback settled
run_loaded-finish host command_id now db r hash none = refl
run_loaded-finish host command_id now db r hash (some s) =
    carry_out-finish host command_id now db r hash s (decide host s r.command now)

attempt_command-answer :
    (host : Host) (command_id : Uuid) (now : ℕ) (db : Database) (r : Request) (hash : String)
    (receipt : Option Receipt)
    → let c = busy db in
      catch_error (attempt_command host command_id now r hash c receipt)
      ≡ settled (answer host command_id now db r hash receipt)
unfolding attempt_command answer rollback catch_error settled
attempt_command-answer host command_id now db r hash (some receipt) =
    elim (Bool-cases (same receipt.request_hash hash)) [ inl e ↦ rw e refl | inr e ↦ rw e refl ]
attempt_command-answer host command_id now db r hash none =
    run_loaded-finish host command_id now db r hash (load_state host db.log)

-- `execute` is atomic: between transactions it answers, and leaves the committed tables, as one step
-- that takes place whole or, where anything throws, not at all; and it leaves no transaction open.
pub execute_on-transact :
    (host : Host) (command_id : Uuid) (now : ℕ) (db : Database) (r : Request)
    → execute_on host command_id now r (idle db) ≡ settled (transact host command_id now db r)
unfolding execute_on begin_immediate tables transact
execute_on-transact host command_id now db r =
    attempt_command-answer host command_id now db r (canonical_digest host r.document)
      (get r.idempotency_key db.receipts)

pub execute_lem :
    (host : Host) (command_id : Uuid) (now : ℕ) (db : Database) (r : Request)
    → execute host command_id now db r ≡ transact host command_id now db r
unfolding execute settled
execute_lem host command_id now db r = rw (execute_on-transact host command_id now db r) refl
