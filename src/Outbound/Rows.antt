-- ===== src/Outbound/Rows.antt =====
-- Replaying appended rows, for packages/kernel/src/outbound-authority.ts: it goes on from where the
-- rows before led to.
use parallelplay.Prelude.{◌≡◌, refl, ◌∙◌, List, [], ◌∷◌, ◌++◌, Bool, true, false, String}
use parallelplay.Canonical.{Host}
use parallelplay.Outbound.Data.{
  Platform, StoredEvent, View, Answer, answer, raised, ◌>>=◌, raise_if,
}
use parallelplay.Outbound.Replay.{apply_event, replay_from, replay, no_view}
use parallelplay.Outbound.Tables.{Draft, append, append_all}

module _ {ℓ κ} {A : Type ℓ} {B : Type κ} where
  -- What a chain that answers went through.
  pub >>=-eq-answer :
      (first : Answer A) (next : A → Answer B) {b : B}
      → (first >>= next) ≡ answer b
      → (a : A) × (first ≡ answer a) × (next a ≡ answer b)
  >>=-eq-answer (answer a) next e = (a, refl, e)
  >>=-eq-answer (raised message) next e = cc

pub raise_if-inv :
    (b : Bool) (message : String) (u : Unit {0}) → raise_if b message ≡ answer u → b ≡ false
raise_if-inv true message u h = cc
raise_if-inv false message u h = refl

unfoldable pub apply_all : Host → View → List Draft → Answer View
apply_all host v [] = answer v
apply_all host v (d ∷ ds) = apply_event host d.event v >>= λ v'. apply_all host v' ds

replay_from-append :
    (host : Host) (v : View) (es : List StoredEvent) (e : StoredEvent)
    → replay_from host v (es ++ e ∷ []) ≡ (replay_from host v es >>= apply_event host e.event)
unfolding replay_from
replay_from-append host v [] e = unit (apply_event host e.event v)
  where
    unit : (m : Answer View) → (m >>= λ v'. answer v') ≡ m
    unit (answer w) = refl
    unit (raised message) = refl
replay_from-append host v (d ∷ es) e =
    through (apply_event host d.event v) λ w. replay_from-append host w es e
  where
    through :
        (m : Answer View)
        → ((w : View)
            → replay_from host w (es ++ e ∷ [])
              ≡ (replay_from host w es >>= apply_event host e.event))
        → (m >>= λ w. replay_from host w (es ++ e ∷ []))
          ≡ ((m >>= λ w. replay_from host w es) >>= apply_event host e.event)
    through (answer w) rest = rest w
    through (raised message) rest = refl

replay-append :
    (p : Platform) (events : List StoredEvent) (d : Draft) (v v' : View)
    → replay p.host events ≡ answer v
    → apply_event p.host d.event v ≡ answer v'
    → replay p.host (append p events d) ≡ answer v'
unfolding append replay
replay-append p events d v v' h e = rw (replay_from-append p.host no_view events, h) e

-- Where the rows lead to a view, and the drafts from it to another, so do all of them.
pub replay-append_all :
    (p : Platform) (events : List StoredEvent) (drafts : List Draft) (v v' : View)
    → replay p.host events ≡ answer v
    → apply_all p.host v drafts ≡ answer v'
    → replay p.host (append_all p events drafts) ≡ answer v'
unfolding append_all apply_all
replay-append_all p events [] v v' h e = h ∙ e
replay-append_all p events (d ∷ ds) v v' h e =
    let (w, one, rest) = >>=-eq-answer (apply_event p.host d.event v) _ e in
    replay-append_all p (append p events d) ds w v' (replay-append p events d v w h one) rest
