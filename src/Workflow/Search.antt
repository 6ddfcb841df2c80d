-- ===== src/Workflow/Search.antt =====
-- What `visit` of packages/kernel/src/schema.ts finds: with fuel for each step and one more it
-- comes back, and either there is a cycle or its marks are in order.
use parallelplay.Prelude.{
  ℕ, zero, suc, ◌<◌, ◌≡◌, refl, sym, subst, ◌∙◌, Bool, true, false, List, [], ◌∷◌, String, get,
  same, same→eq, same_refl, arith, Bool-cases, Option-cases, inl, inr,
}
use parallelplay.Workflow.Graph.{
  Dependencies, dependencies_of, Marks, Walk, cycle, clear, out_of_fuel, member, enter, leave,
  finish, visit, visit_each,
}
use parallelplay.Workflow.Walks.{Route, direct, onward, Ordered}
use parallelplay.Workflow.Room.{room, room-enter, filter-entered}

module _ (dependencies : Dependencies) where
  abbrev pub edge : String → String → Bool
  edge a b = member b (dependencies_of dependencies a)

  pub record Grown (before after : Marks) : Type 0 where
    pub steady : after.visiting ≡ before.visiting
    pub ordered : Ordered edge after.visited
    pub kept : (x : String) → member x before.visited ≡ true → member x after.visited ≡ true

  unfoldable pub Finds : Marks → List String → Walk → Type 0
  Finds marks ids cycle = (a : String) × Route edge a a
  Finds marks ids (clear after) =
      Grown marks after × ((x : String) → member x ids ≡ true → member x after.visited ≡ true)
  Finds marks ids out_of_fuel = ⊥

  Finds-cons :
      (marks middle : Marks) (id : String) (ids : List String) (w : Walk)
      → Finds marks (id ∷ []) (clear middle)
      → Finds middle ids w
      → Finds marks (id ∷ ids) w
  unfolding Finds
  Finds-cons marks middle id ids cycle first rest = rest
  Finds-cons marks middle id ids (clear after) (g, own) (g', others) = (
    record {
      steady = g'.steady ∙ g.steady;
      ordered = g'.ordered;
      kept = λ x h. g'.kept x (g.kept x h);
    },
    λ x h. let old = g'.kept x in let one = own x in let more = others x in ground arith,
  )
  Finds-cons marks middle id ids out_of_fuel first rest = rest

  -- How the rest of a loop goes on after its first visit.
  after_first :
      (walk : String → Marks → Walk) (id : String) (ids : List String) (marks : Marks) (w : Walk)
      → Finds marks (id ∷ []) w
      → ((m : Marks) → Grown marks m → Finds m ids (visit_each walk ids m))
      → Finds marks
          (id ∷ ids)
          (elim w [ cycle ↦ cycle | clear m ↦ visit_each walk ids m | out_of_fuel ↦ out_of_fuel ])
  unfolding Finds
  after_first walk id ids marks cycle found rest = found
  after_first walk id ids marks (clear m) found rest =
      Finds-cons marks m id ids (visit_each walk ids m) found (rest m found.0)
  after_first walk id ids marks out_of_fuel found rest = found

  pub visit_each-Finds :
      (walk : String → Marks → Walk) (ids : List String) (marks : Marks)
      → ((id : String) (m : Marks)
          → member id ids ≡ true
          → m.visiting ≡ marks.visiting
          → Ordered edge m.visited
          → Finds m (id ∷ []) (walk id m))
      → Ordered edge marks.visited
      → Finds marks ids (visit_each walk ids marks)
  unfolding visit_each Finds
  visit_each-Finds walk [] marks finds o =
      (record { steady = refl; ordered = o; kept = λ x h. h }, λ x h. cc)
  visit_each-Finds walk (id ∷ ids) marks finds o =
      after_first walk id ids marks (walk id marks)
        (finds id marks (ground (arith, same_refl id)) refl o)
        λ m grown.
          visit_each-Finds walk ids m
            (λ x n there steady. finds x n (ground arith) (steady ∙ grown.steady)) grown.ordered

  finish-Finds :
      (id : String) (marks : Marks) (w : Walk)
      → member id marks.visiting ≡ false
      → Finds (enter id marks) (dependencies_of dependencies id) w
      → Finds marks (id ∷ []) (finish id w)
  unfolding Finds Ordered
  finish-Finds id marks cycle fresh found = found
  finish-Finds id marks (clear after) fresh (g, below) = (
    record {
      steady =
          subst (λ vs. (leave id (record after { visiting = vs })).visiting ≡ marks.visiting)
            (sym g.steady) (filter-entered id marks.visiting fresh);
      ordered = (below, g.ordered);
      kept = λ x h. let old = g.kept x h in ground arith;
    },
    λ x h. ground arith,
  )
  finish-Finds id marks out_of_fuel fresh found = found

  -- Whatever leads to a step leads to what it depends on.
  onto :
      (id d : String) (marks : Marks)
      → member d (dependencies_of dependencies id) ≡ true
      → ((v : String) → member v marks.visiting ≡ true → Route edge v id)
      → (v : String) → member v (id ∷ marks.visiting) ≡ true
      → Route edge v d
  onto id d marks there reach v h = elim (Bool-cases (same v id)) [
    | inl own ↦ rw (same→eq v id own) (direct there)
    | inr other ↦ onward (reach v (ground arith)) there
  ]

  -- The dependencies of a step are visited with less room, where there are any.
  deeper :
      (fuel : ℕ) (id : String) (marks : Marks)
      → ((d : String) (m : Marks)
          → member d (dependencies_of dependencies id) ≡ true
          → m.visiting ≡ id ∷ marks.visiting
          → room dependencies m.visiting < fuel
          → Ordered edge m.visited
          → Finds m (d ∷ []) (visit fuel dependencies d m))
      → room dependencies marks.visiting < suc fuel
      → Ordered edge marks.visited
      → member id marks.visiting ≡ false
      → Finds
          (enter id marks)
          (dependencies_of dependencies id)
          (visit_each (visit fuel dependencies) (dependencies_of dependencies id) (enter id marks))
  deeper fuel id marks finds enough o fresh =
      visit_each-Finds (visit fuel dependencies) (dependencies_of dependencies id) (enter id marks)
        (λ d m there steady order. finds d m there steady (rw steady (less d there)) order) o
    where
      less :
          (d : String)
          → member d (dependencies_of dependencies id) ≡ true
          → room dependencies (id ∷ marks.visiting) < fuel
      less d there = elim (Option-cases (get id dependencies)) [
        | inl nothing ↦ absurd (cc (rw nothing at there))
        | inr (ds, e) ↦ omega (arith, room-enter dependencies id ds marks.visiting e fresh)
      ]

  pub visit-Finds :
      (fuel : ℕ) (id : String) (marks : Marks)
      → room dependencies marks.visiting < fuel
      → Ordered edge marks.visited
      → ((v : String) → member v marks.visiting ≡ true → Route edge v id)
      → Finds marks (id ∷ []) (visit fuel dependencies id marks)
  unfolding visit Finds
  visit-Finds zero id marks enough o reach = absurd (omega arith)
  visit-Finds (suc fuel) id marks enough o reach = elim (Bool-cases (member id marks.visiting)) [
    | inl again ↦ rw again (id, reach id again)
    | inr fresh ↦ elim (Bool-cases (member id marks.visited)) [
      | inl done ↦
          rw (fresh, done)
            (
              record { steady = refl; ordered = o; kept = λ x h. h },
              λ x h. ground (arith, same→eq x id),
            )
      | inr new ↦
          let below =
            deeper fuel id marks
              (λ d m there steady less order.
                visit-Finds fuel d m less order (λ v h.
                  onto id d marks there reach v (subst (λ vs. member v vs ≡ true) steady h)))
              enough o fresh in
          rw (fresh, new) (finish-Finds id marks _ fresh below)
    ]
  ]
