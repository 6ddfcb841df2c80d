-- ===== src/Outbound/Tables.antt =====
-- The table of packages/kernel/src/outbound-authority.ts, and how an operation appends to it.
use parallelplay.Prelude.{suc, Bool, true, false, List, [], ◌∷◌, ◌++◌, String, length}
use parallelplay.Canonical.{text_order}
use parallelplay.Outbound.Data.{
  Platform, PolicyStatus, active, suspended, AuthorityEvent, StoredEvent, Authority, Answer, answer,
  raised, raise_if,
}
use parallelplay.Outbound.Documents.{}

-- An event that an operation appends, with the stream and the instant of its row.
pub record Draft : Type 0 where
  pub stream_id : String
  pub event : AuthorityEvent
  pub occurred_at : String

-- `#append`; the table numbers its rows from 1.
unfoldable pub append : Platform → List StoredEvent → Draft → List StoredEvent
append p events d =
    events
    ++ (record {
      global_position = suc (length events);
      event_id = p.random_uuid (suc (length events));
      stream_id = d.stream_id;
      event = d.event;
      occurred_at = d.occurred_at;
    })
      ∷ []

unfoldable pub append_all : Platform → List StoredEvent → List Draft → List StoredEvent
unfolding append
append_all p events [] = events
append_all p events (d ∷ ds) = append_all p (append p events d) ds

-- What an operation appends, and its result.
pub record Plan {ℓ} (A : Type ℓ) : Type ℓ where
  pub drafts : List Draft
  pub result : A

abbrev pub plan {ℓ} : {A : Type ℓ} → List Draft → A → Answer (Plan A)
plan drafts result = answer (record { drafts = drafts; result = result })

-- An operation that raises before it appends leaves the table alone.
unfoldable pub commit {ℓ} :
    {A : Type ℓ} → Platform → Authority → Answer (Plan A) → Authority × Answer A
unfolding append_all
commit p a (raised message) = (a, raised message)
commit p a (answer made) =
    (record a { events = append_all p a.events made.drafts }, answer made.result)

-- `#assertOpen`, and the replay that every operation begins with.
unfoldable pub assert_open : Authority → Answer (Unit {0})
assert_open a = raise_if a.closed "Outbound authority is closed"

-- `a <= b` on texts.
abbrev pub text_le : String → String → Bool
text_le = text_order

unfoldable pub is_active : PolicyStatus → Bool
is_active active = true
is_active suspended = false
