-- ===== src/Replay/Writes.antt =====
-- The only way in which `execute` of packages/kernel/src/sqlite-kernel.ts writes to the log.
use parallelplay.Prelude.{
  ℕ, ◌≡◌, refl, subst, Option, none, some, List, Uuid, String, get, same, arith, inl, inr,
  Bool-cases, Option-cases,
}
use parallelplay.Canonical.{Host, canonical_digest}
use parallelplay.Model.{ProjectionState, DomainEvent}
use parallelplay.Decide.{Decision, ok, failure, thrown}
use parallelplay.Kernel.{
  Log, append_inputs, load_state, Request, Reply, Receipt, Database, execute, has_entity, decide,
}
use parallelplay.Replay.Atomic.{
  transact, execute_lem, answer, run_command, commit_decision, commit_events, finish,
}

module _ (host : Host) (now : ℕ) (P : Log → Type 0) where
  -- Appending events to the log keeps a property.
  abbrev pub Kept : Log → Type 0
  Kept log =
      (es : List DomainEvent) (s s' : ProjectionState) (log' : Log)
      → append_inputs host now es log s ≡ some (log', s')
      → P log'

  commit_decision-keeps :
      (command_id : Uuid) (log log' : Log) (s : ProjectionState) (d : Decision) (reply : Reply)
      → P log
      → Kept log
      → commit_decision host command_id now log s d ≡ some (log', reply)
      → P log'
  unfolding commit_decision commit_events
  commit_decision-keeps command_id log log' s (ok a) reply p kept h =
      elim (Option-cases (append_inputs host now a.events log s)) [
        | inl e ↦ cc (rw e at h)
        | inr ((l, s'), e) ↦ elim (Bool-cases (has_entity s' a.result_kind a.result_id)) [
          | inl there ↦
              let own : l ≡ log' = ground (arith, e, there, h) in
              subst P own (kept a.events s s' l e)
          | inr missing ↦ ground (arith, e, missing, h)
        ]
      ]
  commit_decision-keeps command_id log log' s (failure c m) reply p kept h =
      let own : log ≡ log' = ground arith in subst P own p
  commit_decision-keeps command_id log log' s (thrown m) reply p kept h = cc

  finish-keeps :
      (db : Database) (r : Request) (hash : String) (o : Option (Log × Reply))
      → P db.log
      → ((log' : Log) (reply : Reply) → o ≡ some (log', reply) → P log')
      → P (finish db r hash o).1.log
  unfolding finish
  finish-keeps db r hash none p keeps = p
  finish-keeps db r hash (some (log', reply)) p keeps = keeps log' reply refl

  run_command-keeps :
      (command_id : Uuid) (db : Database) (r : Request) (o : Option ProjectionState) (log' : Log)
      (reply : Reply)
      → P db.log
      → Kept db.log
      → run_command host command_id now db.log r.command o ≡ some (log', reply)
      → P log'
  unfolding run_command
  run_command-keeps command_id db r none log' reply p kept h = cc
  run_command-keeps command_id db r (some s) log' reply p kept h =
      commit_decision-keeps command_id db.log log' s (decide host s r.command now) reply p kept h

  answer-keeps :
      (command_id : Uuid) (db : Database) (r : Request) (hash : String) (receipt : Option Receipt)
      → P db.log
      → Kept db.log
      → P (answer host command_id now db r hash receipt).1.log
  unfolding answer
  answer-keeps command_id db r hash (some receipt) p kept =
      elim (Bool-cases (same receipt.request_hash hash)) [ inl e ↦ rw e p | inr e ↦ rw e p ]
  answer-keeps command_id db r hash none p kept =
      finish-keeps db r hash _ p λ log' reply h.
        run_command-keeps command_id db r (load_state host db.log) log' reply p kept h

  -- A property of the log that appending keeps is kept by every request.
  pub execute_keeps :
      (command_id : Uuid) (db : Database) (r : Request)
      → P db.log
      → Kept db.log
      → P (execute host command_id now db r).1.log
  unfolding transact
  execute_keeps command_id db r p kept = rw (execute_lem host command_id now db r) (
      answer-keeps command_id db r (canonical_digest host r.document)
        (get r.idempotency_key db.receipts) p kept)
