-- ===== src/Workflow/Room.antt =====
-- How deep `visit` of packages/kernel/src/schema.ts can go: each step under way is another key of
-- the map of dependencies.
use parallelplay.Prelude.{
  ℕ, suc, ◌+◌, ◌≤◌, ◌<◌, ◌≡◌, refl, true, false, not, some, List, [], ◌∷◌, String, Map, get, set,
  filter, length, same, same→eq, same_refl, same_sym_false, if◌then◌else◌, arith, Bool-cases, inl,
  inr,
}
use parallelplay.Model.{WorkflowStep}
use parallelplay.Workflow.Graph.{Dependencies, member, collect_dependencies}

abbrev keys : {V : Type 0} → Map V → List String
keys [] = []
keys ((k, v) ∷ m) = k ∷ keys m

count_unseen : List String → List String → ℕ
count_unseen [] seen = 0
count_unseen (k ∷ ks) seen = (if member k seen then 0 else 1) + count_unseen ks seen

-- The keys that are not under way.
unfoldable pub room : Dependencies → List String → ℕ
unfolding count_unseen
room dependencies visiting = count_unseen (keys dependencies) visiting

count_unseen_mono :
    (ks seen : List String) (x : String) → count_unseen ks (x ∷ seen) ≤ count_unseen ks seen
unfolding count_unseen
count_unseen_mono [] seen x = omega arith
count_unseen_mono (k ∷ ks) seen x = ground (arith, count_unseen_mono ks seen x)

count_unseen-lt :
    (ks seen : List String) (x : String)
    → member x ks ≡ true
    → member x seen ≡ false
    → count_unseen ks (x ∷ seen) < count_unseen ks seen
unfolding count_unseen
count_unseen-lt [] seen x there fresh = cc
count_unseen-lt (k ∷ ks) seen x there fresh = elim (Bool-cases (same x k)) [
  | inl hit ↦
      let own : x ≡ k = same→eq x k hit in
      let self = same_refl k in
      let rest = count_unseen_mono ks seen x in
      let new : member k seen ≡ false = rw (← own) fresh in ground arith
  | inr miss ↦
      let rest = count_unseen-lt ks seen x (ground arith) fresh in
      let other = same_sym_false x k miss in ground arith
]

found-keys :
    {V : Type 0} (k : String) (v : V) (m : Map V) → get k m ≡ some v → member k (keys m) ≡ true
unfolding get
found-keys k v [] e = cc
found-keys k v ((j, w) ∷ m) e = ground (arith, found-keys k v m, same→eq j k, same_refl k)

-- Entering a step with dependencies leaves less room.
pub room-enter :
    (dependencies : Dependencies) (id : String) (found : List String) (visiting : List String)
    → get id dependencies ≡ some found
    → member id visiting ≡ false
    → room dependencies (id ∷ visiting) < room dependencies visiting
unfolding room
room-enter dependencies id found visiting e fresh =
    count_unseen-lt (keys dependencies) visiting id (found-keys id found dependencies e) fresh

room_le_length : (ks : List String) → count_unseen ks [] ≤ length ks
unfolding count_unseen
room_le_length [] = omega arith
room_le_length (k ∷ ks) = ground (arith, room_le_length ks)

length-set :
    {V : Type 0} (k : String) (v : V) (m : Map V)
    → length (keys (set k v m)) ≤ suc (length (keys m))
unfolding set
length-set k v [] = omega arith
length-set k v ((j, w) ∷ m) = ground (arith, length-set k v m)

length-collect_dependencies :
    (m : Dependencies) (steps : List WorkflowStep)
    → length (keys (collect_dependencies m steps)) ≤ length (keys m) + length steps
unfolding collect_dependencies
length-collect_dependencies m [] = omega arith
length-collect_dependencies m (s ∷ steps) =
    let rest = length-collect_dependencies (set s.id s.depends_on m) steps in
    let one = length-set s.id s.depends_on m in omega arith

-- At the start there is room for each step at most.
pub room-start :
    (steps : List WorkflowStep) → room (collect_dependencies [] steps) [] ≤ length steps
unfolding room
room-start steps =
    let all = room_le_length (keys (collect_dependencies [] steps)) in
    let few = length-collect_dependencies [] steps in omega arith

-- Deleting a step that was entered anew gives back the steps before.
pub filter-entered :
    (id : String) (visiting : List String)
    → member id visiting ≡ false
    → filter (λ other. not (same id other)) (id ∷ visiting) ≡ visiting
filter-entered id visiting fresh = rw (same_refl id) (others visiting fresh)
  where
    others :
        (ids : List String)
        → member id ids ≡ false
        → filter (λ other. not (same id other)) ids ≡ ids
    others [] h = refl
    others (x ∷ ids) h = ground (arith, others ids)
