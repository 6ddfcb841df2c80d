-- ===== src/Replay/Numbering.antt =====
-- The numbers that `appendEvent` of packages/kernel/src/sqlite-kernel.ts gives to rows.
use mathlib.Core.List.{append_assoc, append-nil}
use parallelplay.Prelude.{
  ℕ, suc, ◌≡◌, refl, sym, ap, subst, ◌∙◌, max, true, some, List, [], ◌∷◌, ◌++◌, String, Uuid,
  length, same→eq, if◌then◌else◌, arith, inl, inr, Bool-cases, Option-cases,
}
use parallelplay.Canonical.{Host}
use parallelplay.Evolve.{evolve}
use parallelplay.Model.{ProjectionState, DomainEvent}
use parallelplay.Replay.Writes.{execute_keeps}
use parallelplay.Kernel.{
  Log, StoredEvent, store, append_inputs, stream_of, stream_version, same_stream, Request, Database,
  execute,
}

-- How many rows a stream has.
unfoldable pub count_stream : Log → String × Uuid → ℕ
count_stream [] stream = 0
count_stream (x ∷ log) stream =
    if same_stream (stream_of x.event) stream
    then suc (count_stream log stream)
    else count_stream log stream

-- After the rows before, each row has the next position, and the next version of its stream.
unfoldable pub NumberedAfter : Log → Log → Type 0
NumberedAfter before [] = Unit
NumberedAfter before (x ∷ log) =
    (x.stamp.global_position ≡ suc (length before))
    × (x.stamp.stream_version ≡ suc (count_stream before (stream_of x.event)))
    × NumberedAfter (before ++ x ∷ []) log

abbrev pub Numbered : Log → Type 0
Numbered log = NumberedAfter [] log

count_stream-append :
    (log : Log) (x : StoredEvent) (stream : String × Uuid)
    → count_stream (log ++ x ∷ []) stream ≡ (
        if same_stream (stream_of x.event) stream
        then suc (count_stream log stream)
        else count_stream log stream)
unfolding count_stream
count_stream-append [] x stream = refl
count_stream-append (y ∷ log) x stream = ground (arith, count_stream-append log x stream)

same_stream→eq : (a b : String × Uuid) → same_stream a b ≡ true → a ≡ b
unfolding same_stream
same_stream→eq (t, i) (u, j) h =
    let one = same→eq t u (ground arith) in let two = same→eq i j (ground arith) in cc

-- The largest version of a stream is the number of its rows.
stream_version_after :
    (before log : Log) (stream : String × Uuid)
    → NumberedAfter before log
    → max (count_stream before stream) (stream_version log stream)
      ≡ count_stream (before ++ log) stream
unfolding NumberedAfter stream_version
stream_version_after before [] stream n = rw (append-nil before) (omega arith)
stream_version_after before (x ∷ log) stream n =
    let rest = stream_version_after (before ++ x ∷ []) log stream n.2 in
    let grown = count_stream-append before x stream in
    let rows = ap (λ l. count_stream l stream) (append_assoc before (x ∷ []) log) in
    elim (Bool-cases (same_stream (stream_of x.event) stream)) [
      | inl hit ↦
          let own = same_stream→eq (stream_of x.event) stream hit in
          let version : x.stamp.stream_version ≡ suc (count_stream before stream) =
            n.1 ∙ ap (λ k. suc (count_stream before k)) own in
          rw hit (omega (arith, rw hit at grown))
      | inr miss ↦ rw miss (omega (arith, rw miss at grown))
    ]

NumberedAfter-append :
    (before log : Log) (x : StoredEvent)
    → NumberedAfter before log
    → x.stamp.global_position ≡ suc (length (before ++ log))
    → x.stamp.stream_version ≡ suc (count_stream (before ++ log) (stream_of x.event))
    → NumberedAfter before (log ++ x ∷ [])
unfolding NumberedAfter
NumberedAfter-append before [] x n position version = (
  subst (λ l. x.stamp.global_position ≡ suc (length l)) (append-nil before) position,
  subst (λ l. x.stamp.stream_version ≡ suc (count_stream l (stream_of x.event))) (append-nil before)
      version,
  tt,
)
NumberedAfter-append before (y ∷ log) x n position version =
    let rows = append_assoc before (y ∷ []) log in
    (
      n.0,
      n.1,
      NumberedAfter-append (before ++ y ∷ []) log x n.2
          (subst (λ l. x.stamp.global_position ≡ suc (length l)) (sym rows) position)
          (subst (λ l. x.stamp.stream_version ≡ suc (count_stream l (stream_of x.event))) (sym rows)
            version),
    )

-- A row that is stored next is numbered next.
store-Numbered :
    (now : ℕ) (log : Log) (e : DomainEvent) → Numbered log → Numbered (log ++ store now log e ∷ [])
unfolding store stream_version count_stream
store-Numbered now log e n =
    let version = stream_version_after [] log (stream_of e) n in
    NumberedAfter-append [] log (store now log e) n (omega arith) (omega (arith, version))

append_inputs-Numbered :
    (host : Host) (now : ℕ) (es : List DomainEvent) (log log' : Log) (s s' : ProjectionState)
    → Numbered log
    → append_inputs host now es log s ≡ some (log', s')
    → Numbered log'
unfolding append_inputs
append_inputs-Numbered host now [] log log' s s' n h =
    let own : log ≡ log' = ground arith in subst Numbered own n
append_inputs-Numbered host now (e ∷ es) log log' s s' n h =
    elim (Option-cases (evolve host s (store now log e).stamp e)) [
      | inl e' ↦ cc (rw e' at h)
      | inr (u, e') ↦
          append_inputs-Numbered host now es (log ++ store now log e ∷ []) log' u s'
            (store-Numbered now log e n) (rw e' at h)
    ]

-- Every request keeps the log numbered: positions run from 1 without a gap, and so do the versions
-- of each stream, each row's version being one more than the number of earlier rows of its stream.
pub execute-Numbered :
    (host : Host) (command_id : Uuid) (now : ℕ) (db : Database) (r : Request)
    → Numbered db.log
    → Numbered (execute host command_id now db r).1.log
execute-Numbered host command_id now db r n =
    execute_keeps host now Numbered command_id db r n
      λ es s s' log' h. append_inputs-Numbered host now es db.log log' s s' n h
