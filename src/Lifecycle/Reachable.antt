-- ===== src/Lifecycle/Reachable.antt =====
-- What every database that requests lead to satisfies: `execute` from the empty tables.
use parallelplay.Prelude.{
  ℕ, ◌≡◌, refl, Option, none, some, [], String, Uuid, All, get, same, arith, Bool-cases,
  Option-cases, inl, inr,
}
use parallelplay.Canonical.{Host, canonical_digest}
use parallelplay.Model.{ProjectionState}
use parallelplay.Decide.{Accepted, Decision, ok, failure, thrown}
use parallelplay.Kernel.{
  Log, Request, Reply, Receipt, Database, execute, has_entity, decide, append_inputs, load_events,
  load_state, replay_events, replay_from, empty_projection_state,
}
use parallelplay.Replay.Atomic.{
  transact, execute_lem, answer, finish, run_command, commit_decision, commit_events,
}
use parallelplay.Replay.Transactions.{
  ReadsBack, append_inputs-replay_events, append_inputs-load_events,
}
use parallelplay.Replay.Reading.Commands.{IsLegible, decide-ReadBack}
use parallelplay.Lifecycle.Budget.{BudgetHolds}
use parallelplay.Lifecycle.Thrift.{WellFormed, decide-BudgetHolds}

abbrev pub empty_database : Database
empty_database = record { log = []; receipts = [] }

-- The databases that well-formed requests of legible texts lead to, with whatever clock and command identifiers.
pub data Reachable (host : Host) : Database → Type 0 where
  start : Reachable host empty_database
  request :
      (command_id : Uuid) (now : ℕ) (db : Database) (r : Request)
      → WellFormed r.command
      → IsLegible host r.command
      → Reachable host db
      → Reachable host (execute host command_id now db r).1

-- The log reads back as it is and replays to a state within its budgets.
abbrev pub Sound : Host → Log → Type 0
Sound host log =
    (load_events host log ≡ some log)
    × ((s : ProjectionState) × (load_state host log ≡ some s) × BudgetHolds s)

load_state-Sound :
    (host : Host) (log : Log) (s : ProjectionState)
    → load_events host log ≡ some log
    → replay_events host log ≡ some s
    → BudgetHolds s
    → Sound host log
unfolding load_state
load_state-Sound host log s reads r b = (reads, (s, rw reads r, b))

commit_events-Sound :
    (host : Host) (command_id : Uuid) (now : ℕ) (a : Accepted) (log log' : Log)
    (s : ProjectionState) (reply : Reply)
    → load_events host log ≡ some log
    → replay_events host log ≡ some s
    → All (ReadsBack host) a.events
    → ((l : Log) (s' : ProjectionState)
        → append_inputs host now a.events log s ≡ some (l, s')
        → BudgetHolds s')
    → commit_events command_id a (append_inputs host now a.events log s) ≡ some (log', reply)
    → Sound host log'
unfolding commit_events
commit_events-Sound host command_id now a log log' s reply reads r own keeps h =
    elim (Option-cases (append_inputs host now a.events log s)) [
      | inl e ↦ cc (rw e at h)
      | inr ((l, s'), e) ↦ elim (Bool-cases (has_entity s' a.result_kind a.result_id)) [
        | inl there ↦
            let same_log : l ≡ log' = ground (arith, e, there, h) in
            rw (← same_log) (
              load_state-Sound host l s'
                (append_inputs-load_events host now a.events log l s s' own reads e)
                (append_inputs-replay_events host now a.events log l s s' r e) (keeps l s' e))
        | inr missing ↦ ground (arith, e, missing, h)
      ]
    ]

commit_decision-Sound :
    (host : Host) (command_id : Uuid) (now : ℕ) (log log' : Log) (s : ProjectionState)
    (d : Decision) (reply : Reply)
    → load_events host log ≡ some log
    → replay_events host log ≡ some s
    → BudgetHolds s
    → ((a : Accepted) → d ≡ ok a → All (ReadsBack host) a.events)
    → ((a : Accepted) (l : Log) (s' : ProjectionState)
        → d ≡ ok a
        → append_inputs host now a.events log s ≡ some (l, s')
        → BudgetHolds s')
    → commit_decision host command_id now log s d ≡ some (log', reply)
    → Sound host log'
unfolding commit_decision
commit_decision-Sound host command_id now log log' s (ok a) reply reads r b own keeps h =
    commit_events-Sound host command_id now a log log' s reply reads r (own a refl)
      (λ l s' e. keeps a l s' refl e) h
commit_decision-Sound host command_id now log log' s (failure c m) reply reads r b own keeps h =
    let same_log : log ≡ log' = ground arith in
    rw (← same_log) (load_state-Sound host log s reads r b)
commit_decision-Sound host command_id now log log' s (thrown m) reply reads r b own keeps h =
    ground (arith, h)

finish-Sound :
    (host : Host) (db : Database) (r : Request) (hash : String) (o : Option (Log × Reply))
    → Sound host db.log
    → ((log' : Log) (reply : Reply) → o ≡ some (log', reply) → Sound host log')
    → Sound host (finish db r hash o).1.log
unfolding finish
finish-Sound host db r hash none sound keeps = sound
finish-Sound host db r hash (some (log', reply)) sound keeps = keeps log' reply refl

answer-Sound :
    (host : Host) (command_id : Uuid) (now : ℕ) (db : Database) (r : Request) (hash : String)
    (receipt : Option Receipt)
    → WellFormed r.command
    → IsLegible host r.command
    → Sound host db.log
    → Sound host (answer host command_id now db r hash receipt).1.log
unfolding answer run_command load_state
answer-Sound host command_id now db r hash (some receipt) well own sound =
    elim (Bool-cases (same receipt.request_hash hash)) [ inl e ↦ rw e sound | inr e ↦ rw e sound ]
answer-Sound host command_id now db r hash none well own (reads, (s, q, b)) =
    finish-Sound host db r hash
      (run_command host command_id now db.log r.command (load_state host db.log)) (reads, (s, q, b))
      (λ log' reply h.
        commit_decision-Sound host command_id now db.log log' s (decide host s r.command now) reply
          reads (rw reads at q) b
          (λ a accepted. decide-ReadBack host now s r.command a own accepted)
          (λ a l s' accepted appended.
            decide-BudgetHolds host now s s' r.command a db.log l b well accepted appended)
          (rw q at h))

-- In every database that well-formed requests lead to from empty tables, provided that the texts of
-- their commands, and the digests of verification receipts, are trimmed and of the length that the
-- schemas of the events allow, the log reads back as it is, replaying it raises no error, and the state it yields has no job that has started
-- more attempts than its policy allows, nor one that has started them all and is blocked, ready or
-- waiting to retry.
pub Reachable-Sound : (host : Host) (db : Database) → Reachable host db → Sound host db.log
unfolding replay_events replay_from empty_projection_state get load_events load_state transact
Reachable-Sound host _ start = (refl, (empty_projection_state, refl, (tt, λ i. tt)))
Reachable-Sound host _ (request command_id now db r well own reached) =
    rw (execute_lem host command_id now db r) (
      answer-Sound host command_id now db r (canonical_digest host r.document)
        (get r.idempotency_key db.receipts) well own (Reachable-Sound host db reached))
