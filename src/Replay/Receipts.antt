-- ===== src/Replay/Receipts.antt =====
-- Receipts: a repeated request is answered from its receipt, and what is refused or raised appends
-- nothing.
use parallelplay.Prelude.{
  ℕ, ◌≡◌, refl, String, ◌∙◌, ap, true, false, Option, none, some, Uuid, get, get-set_self,
  get-set_other, same→eq, same, same_refl, arith, inl, inr, Bool-cases,
}
use parallelplay.Canonical.{Host, canonical_digest}
use parallelplay.Decide.{DomainErrorCode}
use parallelplay.Kernel.{
  Log, load_state, Request, Reply, Receipt, Database, Response, replied, rejected, raised,
  idempotency_conflict, execute,
}
use parallelplay.Replay.Atomic.{transact, execute_lem, answer, run_command, finish}

finish_stored :
    (db : Database) (r : Request) (hash : String) (o : Option (Log × Reply)) (reply : Reply)
    → (finish db r hash o).0 ≡ replied false reply
    → get r.idempotency_key (finish db r hash o).1.receipts
      ≡ some (record { request_hash = hash; reply = reply })
unfolding finish
finish_stored db r hash none reply h = cc
finish_stored db r hash (some (log, rep)) reply h =
    let same_reply : rep ≡ reply = ground arith in
    get-set_self r.idempotency_key _ db.receipts
    ∙ ap (λ (x : Reply). some (record { request_hash = hash; reply = x })) same_reply

answer_stored :
    (host : Host) (command_id : Uuid) (now : ℕ) (db : Database) (r : Request) (hash : String)
    (receipt : Option Receipt) (reply : Reply)
    → (answer host command_id now db r hash receipt).0 ≡ replied false reply
    → get r.idempotency_key (answer host command_id now db r hash receipt).1.receipts
      ≡ some (record { request_hash = hash; reply = reply })
unfolding answer
answer_stored host command_id now db r hash (some receipt) reply h = ground arith
answer_stored host command_id now db r hash none reply h = finish_stored db r hash _ reply h

module _ (host : Host) where
  -- A receipt that is there stays, whatever the request.
  answer-receipts :
      (command_id : Uuid) (now : ℕ) (db : Database) (r : Request) (hash : String)
      (found : Option Receipt) (key : Uuid) (x : Receipt)
      → get r.idempotency_key db.receipts ≡ found
      → get key db.receipts ≡ some x
      → get key (answer host command_id now db r hash found).1.receipts ≡ some x
  unfolding answer
  answer-receipts command_id now db r hash (some y) key x there kept = ground (arith, kept)
  answer-receipts command_id now db r hash none key x missing kept =
      finish-receipts (run_command host command_id now db.log r.command (load_state host db.log))
    where
      finish-receipts :
          (o : Option (Log × Reply)) → get key (finish db r hash o).1.receipts ≡ some x
      finish-receipts none = unfold finish in kept
      finish-receipts (some (log, reply)) =
          let new : Receipt = record { request_hash = hash; reply = reply } in
          unfold finish in
          elim (Bool-cases (same r.idempotency_key key)) [
            | inl hit ↦ absurd (cc (missing, kept, same→eq r.idempotency_key key hit))
            | inr miss ↦ get-set_other r.idempotency_key key new db.receipts miss ∙ kept
          ]

  execute-receipts :
      (command_id : Uuid) (now : ℕ) (db : Database) (r : Request) (key : Uuid) (x : Receipt)
      → get key db.receipts ≡ some x
      → get key (execute host command_id now db r).1.receipts ≡ some x
  unfolding transact
  execute-receipts command_id now db r key x kept = rw (execute_lem host command_id now db r) (
      answer-receipts command_id now db r (canonical_digest host r.document)
        (get r.idempotency_key db.receipts) key x refl kept)

  -- The databases that requests lead to from one.
  pub data Later (db : Database) : Database → Type 0 where
    here : Later db db
    request_later :
        (command_id : Uuid) (now : ℕ) (db' : Database) (r : Request)
        → Later db db'
        → Later db (execute host command_id now db' r).1

  Later-receipts :
      (db db' : Database) (key : Uuid) (x : Receipt)
      → Later db db'
      → get key db.receipts ≡ some x
      → get key db'.receipts ≡ some x
  Later-receipts db db' key x here kept = kept
  Later-receipts db db' key x (request_later command_id now mid r past) kept =
      execute-receipts command_id now mid r key x (Later-receipts db mid key x past kept)

  -- What a first answer leaves under its key, from then on.
  execute-bound :
      (command_id : Uuid) (now : ℕ) (db db' : Database) (r : Request) (reply : Reply)
      → (execute host command_id now db r).0 ≡ replied false reply
      → Later (execute host command_id now db r).1 db'
      → get r.idempotency_key db'.receipts
        ≡ some (record { request_hash = canonical_digest host r.document; reply = reply })
  unfolding transact
  execute-bound command_id now db db' r reply h later =
      let atomic = execute_lem host command_id now db r in
      Later-receipts (execute host command_id now db r).1 db' r.idempotency_key _ later (
        rw atomic (
          answer_stored host command_id now db r (canonical_digest host r.document)
            (get r.idempotency_key db.receipts) reply (rw atomic at h)))

  -- A request that was answered for the first time is answered alike ever after: whatever requests
  -- have come between, whenever and under whatever command identifier it is repeated, the repetition
  -- gets the first reply, marked as replayed, and changes no table.
  pub execute_again :
      (command_id command_id' : Uuid) (now now' : ℕ) (db db' : Database) (r : Request)
      (reply : Reply)
      → (execute host command_id now db r).0 ≡ replied false reply
      → Later (execute host command_id now db r).1 db'
      → execute host command_id' now' db' r ≡ (replied true reply, db')
  unfolding transact answer
  execute_again command_id command_id' now now' db db' r reply h later =
      rw
        (
          execute_lem host command_id' now' db' r,
          execute-bound command_id now db db' r reply h later,
        )
        (rw (same_refl (canonical_digest host r.document)) refl)

  -- An idempotency key is bound to the first request that is answered under it: whatever requests have
  -- come between, a request of the same key whose document has another digest is refused, and changes
  -- no table.
  pub execute_conflict :
      (command_id command_id' : Uuid) (now now' : ℕ) (db db' : Database) (r other : Request)
      (reply : Reply)
      → (execute host command_id now db r).0 ≡ replied false reply
      → Later (execute host command_id now db r).1 db'
      → other.idempotency_key ≡ r.idempotency_key
      → same (canonical_digest host r.document) (canonical_digest host other.document) ≡ false
      → execute host command_id' now' db' other ≡ (idempotency_conflict, db')
  unfolding transact answer
  execute_conflict command_id command_id' now now' db db' r other reply h later key differs =
      rw
        (
          execute_lem host command_id' now' db' other,
          key,
          execute-bound command_id now db db' r reply h later,
        )
        (rw differs refl)

-- What a response that is refused leaves of the tables.
abbrev pub Unchanged : Database → Response × Database → Type 0
Unchanged db (response, db') =
    (response ≡ raised → db' ≡ db)
    × ((id : Uuid) (c : DomainErrorCode) (m : String)
        → response ≡ replied false (rejected id c m)
        → db'.log ≡ db.log)
