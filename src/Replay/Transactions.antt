-- ===== src/Replay/Transactions.antt =====
-- The state that `execute` keeps beside its log is what the log reads back and replays to.
use parallelplay.Prelude.{
  ℕ, ◌≡◌, refl, All, ◌∙◌, some, List, [], ◌∷◌, ◌++◌, arith, ◌>>=◌, inl, inr, Option-cases,
}
use parallelplay.Canonical.{Host}
use parallelplay.Evolve.{evolve}
use parallelplay.Model.{ProjectionState, DomainEvent}
use parallelplay.Kernel.{
  Log, StoredEvent, store, append_inputs, load_events, parse_payload, replay_from, replay_events,
  empty_projection_state,
}

replay_from-append :
    (host : Host) (log more : Log) (s : ProjectionState)
    → replay_from host (log ++ more) s ≡ (replay_from host log s >>= replay_from host more)
unfolding replay_from
replay_from-append host [] more s = refl
replay_from-append host (x ∷ log) more s = elim (Option-cases (evolve host s x.stamp x.event)) [
  | inl e ↦ rw e
  | inr (s', e) ↦ rw e (replay_from-append host log more s')
]

replay_from_one :
    (host : Host) (x : StoredEvent) (s u : ProjectionState)
    → evolve host s x.stamp x.event ≡ some u
    → replay_from host (x ∷ []) s ≡ some u
unfolding replay_from
replay_from_one host x s u e = rw e

-- The state kept beside the log is the replay of the log: if the log replays to `s`, and appending
-- events to it evolves `s` to `s'`, then the longer log replays to `s'`.
pub append_inputs-replay_events :
    (host : Host) (now : ℕ) (es : List DomainEvent) (log log' : Log) (s s' : ProjectionState)
    → replay_events host log ≡ some s
    → append_inputs host now es log s ≡ some (log', s')
    → replay_events host log' ≡ some s'
unfolding append_inputs replay_events store
append_inputs-replay_events host now [] log log' s s' r h = ground arith
append_inputs-replay_events host now (e ∷ es) log log' s s' r h =
    elim (Option-cases (evolve host s (store now log e).stamp e)) [
      | inl e' ↦ cc (rw e' at h)
      | inr (u, e') ↦
          append_inputs-replay_events host now es _ log' u s'
            (replay_from-append host log (store now log e ∷ []) empty_projection_state
              ∙ (rw r (replay_from_one host (store now log e) s u e')))
            (rw e' at h)
    ]

-- An event is stored as what `loadEvents` reads it as.
abbrev pub ReadsBack : Host → DomainEvent → Type 0
ReadsBack host e = parse_payload host e ≡ some e

load_events-append :
    (host : Host) (log : Log) (x : StoredEvent)
    → load_events host log ≡ some log
    → ReadsBack host x.event
    → load_events host (log ++ x ∷ []) ≡ some (log ++ x ∷ [])
unfolding load_events
load_events-append host [] x reads own = rw own refl
load_events-append host (y ∷ log) x reads own = elim (Option-cases (parse_payload host y.event)) [
  | inl e ↦ absurd (cc (rw e at reads))
  | inr (found, e) ↦ elim (Option-cases (load_events host log)) [
    | inl e' ↦ absurd (cc (rw (e, e') at reads))
    | inr (rest, e') ↦
        let both = rw (e, e') at reads in
        let tail : rest ≡ log = cc both in
        rw (e, load_events-append host log x (rw tail at e') own) (ground (arith, both))
  ]
]

-- Events that read back as themselves leave a log that does, too.
pub append_inputs-load_events :
    (host : Host) (now : ℕ) (es : List DomainEvent) (log log' : Log) (s s' : ProjectionState)
    → All (ReadsBack host) es
    → load_events host log ≡ some log
    → append_inputs host now es log s ≡ some (log', s')
    → load_events host log' ≡ some log'
unfolding append_inputs store
append_inputs-load_events host now [] log log' s s' own reads h =
    let same_log : log ≡ log' = ground arith in rw (← same_log) reads
append_inputs-load_events host now (e ∷ es) log log' s s' own reads h =
    elim (Option-cases (evolve host s (store now log e).stamp e)) [
      | inl e' ↦ cc (rw e' at h)
      | inr (u, e') ↦
          append_inputs-load_events host now es (log ++ store now log e ∷ []) log' u s' own.1
            (load_events-append host log (store now log e) reads own.0) (rw e' at h)
    ]
