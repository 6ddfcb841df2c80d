-- ===== src/Kernel/Execute.antt =====
-- `SqliteKernel.execute` of packages/kernel/src/sqlite-kernel.ts, on the tables that it keeps: the
-- event log and the command receipts. A connection has the committed tables and those of the
-- transaction under way. The projection tables are written from the same state, and the runs of these
-- commands have no milestone, for which `deriveOutcomeEvents` yields nothing. A reply keeps which
-- entity a command answers with; the summaries of the events and the entity's data are left out.
use parallelplay.Prelude.{
  ℕ, Bool, true, false, Option, none, some, String, Uuid, Map, get, set, has, is_some, get_or, same,
  if◌then◌else◌,
}
use parallelplay.Canonical.{Host, Json, canonical_digest}
use parallelplay.Model.{ProjectionState}
use parallelplay.Decide.{Decision, Accepted, DomainErrorCode, ok, failure, thrown, ResultKind}
use parallelplay.Kernel.Commands.{Command, decide}
use parallelplay.Kernel.Journal.{Log, append_events, load_state}

-- A parsed command and the whole document that it came as, which is what is hashed.
pub record Request : Type 0 where
  pub idempotency_key : Uuid
  pub document : Json
  pub command : Command

-- What the caller is told: the entity or the failure, and by which command.
pub data Reply : Type 0 where
  succeeded : (command_id : Uuid) (result_kind : ResultKind) (result_id : String) → Reply
  rejected : (command_id : Uuid) → DomainErrorCode → String → Reply

pub record Receipt : Type 0 where
  pub request_hash : String
  pub reply : Reply

pub record Database : Type 0 where
  pub log : Log
  pub receipts : Map Receipt

pub data Response : Type 0 where
  replied : (replayed : Bool) → Reply → Response
  idempotency_conflict : Response
  raised : Response

-- `getStateEntity(state, kind, id) !== null`
unfoldable pub has_entity : ProjectionState → ResultKind → String → Bool
has_entity s ResultKind.program id = has id s.programs
has_entity s ResultKind.source_revision id = has id s.source_revisions
has_entity s ResultKind.workflow id = has id s.workflows
has_entity s ResultKind.run id = has id s.runs
has_entity s ResultKind.job id = has id s.jobs
has_entity s ResultKind.outbox id = has id s.outbox
has_entity s ResultKind.verification id = has id s.verifications

pub record Connection : Type 0 where
  pub committed : Database
  pub pending : Option Database

-- The tables that a statement reads: those of the transaction, if there is one.
unfoldable pub tables : Connection → Database
tables c = get_or c.pending c.committed

-- A statement that writes outside a transaction commits at once.
unfoldable pub write : Database → Connection → Connection
write db c =
    if is_some c.pending then record c { pending = some db } else record c { committed = db }

-- BEGIN IMMEDIATE
unfoldable pub begin_immediate : Connection → Connection
begin_immediate c = record c { pending = some c.committed }

-- COMMIT
unfoldable pub commit : Connection → Connection
unfolding tables
commit c = record { committed = tables c; pending = none }

-- ROLLBACK
unfoldable pub rollback : Connection → Connection
rollback c = record c { pending = none }

-- How the body of `try` ends.
pub data Attempt : Type 0 where
  returned : Response → Attempt
  threw : Attempt

-- `storeReceipt`
unfoldable pub store_receipt : Request → String → Reply → Connection → Connection
unfolding tables write
store_receipt r request_hash reply c =
    let db = tables c in
    write
      (record db {
        receipts =
            set r.idempotency_key (record { request_hash = request_hash; reply = reply })
              db.receipts;
      })
      c

unfoldable pub settle : Request → String → Reply → Connection → Connection × Attempt
unfolding store_receipt commit
settle r request_hash reply c =
    (commit (store_receipt r request_hash reply c), returned (replied false reply))

unfoldable pub write_log : Log → Connection → Connection
unfolding tables write
write_log log c = write (record (tables c) { log = log }) c

-- After `appendInputs`: its rows are written whether or not it threw.
unfoldable pub conclude :
    Uuid
    → Request
    → String
    → Accepted
    → Connection
    → Log × Option ProjectionState
    → Connection × Attempt
unfolding write_log settle
conclude command_id r request_hash a c (log, none) = (write_log log c, threw)
conclude command_id r request_hash a c (log, some s) =
    if has_entity s a.result_kind a.result_id
    then settle r request_hash (succeeded command_id a.result_kind a.result_id) (write_log log c)
    else (write_log log c, threw)

unfoldable pub carry_out :
    Host
    → Uuid
    → ℕ
    → Request
    → String
    → Connection
    → ProjectionState
    → Decision
    → Connection × Attempt
unfolding conclude settle tables
carry_out host command_id now r request_hash c s (ok a) =
    conclude command_id r request_hash a c (append_events host now a.events (tables c).log s)
carry_out host command_id now r request_hash c s (failure code message) =
    settle r request_hash (rejected command_id code message) c
carry_out host command_id now r request_hash c s (thrown message) = (c, threw)

unfoldable pub run_loaded :
    Host → Uuid → ℕ → Request → String → Connection → Option ProjectionState → Connection × Attempt
unfolding carry_out
run_loaded host command_id now r request_hash c none = (c, threw)
run_loaded host command_id now r request_hash c (some s) =
    carry_out host command_id now r request_hash c s (decide host s r.command now)

-- The body of `try`, on the receipt of the key.
unfoldable pub attempt_command :
    Host → Uuid → ℕ → Request → String → Connection → Option Receipt → Connection × Attempt
unfolding run_loaded rollback tables
attempt_command host command_id now r request_hash c (some receipt) = (
  rollback c,
  returned (
      if same receipt.request_hash request_hash
      then replied true receipt.reply
      else idempotency_conflict),
)
attempt_command host command_id now r request_hash c none =
    run_loaded host command_id now r request_hash c (load_state host (tables c).log)

-- `catch`: a transaction that is open is rolled back, and the error thrown on.
unfoldable pub catch_error : Connection × Attempt → Response × Connection
unfolding rollback
catch_error (c, returned response) = (response, c)
catch_error (c, threw) = (raised, if is_some c.pending then rollback c else c)

-- `execute(input)` after the schema has accepted the input.
unfoldable pub execute_on : Host → Uuid → ℕ → Request → Connection → Response × Connection
unfolding begin_immediate tables attempt_command catch_error
execute_on host command_id now r c =
    let open_connection = begin_immediate c in
    catch_error (
      attempt_command host command_id now r (canonical_digest host r.document) open_connection
        (get r.idempotency_key (tables open_connection).receipts))

-- No transaction is under way.
abbrev pub idle : Database → Connection
idle db = record { committed = db; pending = none }

-- `execute` between transactions, on the committed tables.
unfoldable pub execute : Host → Uuid → ℕ → Database → Request → Response × Database
unfolding execute_on
execute host command_id now db r =
    let (response, c) = execute_on host command_id now r (idle db) in (response, c.committed)
