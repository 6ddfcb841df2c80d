-- ===== src/Workflow/Steps.antt =====
-- The loops of `validateWorkflowGraph`, packages/kernel/src/schema.ts, over the steps of a workflow:
-- the set of identifiers, the issues for duplicates and dependencies, the map of dependencies.
use parallelplay.Prelude.{
  ◌≡◌, refl, Bool, true, false, ◌||◌, List, [], ◌∷◌, ◌++◌, String, any, get, set, get-set, same,
  same→eq, same_refl, if◌then◌else◌, arith, Bool-cases, inl, inr,
}
use parallelplay.Model.{WorkflowStep}
use parallelplay.Workflow.Graph.{
  Dependencies, dependencies_of, member, insert, collect_ids, step_ids, collect_dependencies,
}
use parallelplay.Workflow.Walks.{Route, direct, onward, depends_on}

-- There is a step of this identifier.
unfoldable pub is_step : List WorkflowStep → String → Bool
is_step steps id = any (λ (s : WorkflowStep). same s.id id) steps

-- No two steps share an identifier.
unfoldable pub Distinct : List WorkflowStep → Type 0
Distinct [] = Unit
Distinct (s ∷ steps) = (is_step steps s.id ≡ false) × Distinct steps

member-append :
    (x id : String) (ids : List String) → member x (ids ++ id ∷ []) ≡ (member x ids || same x id)
member-append x id [] = ground arith
member-append x id (y ∷ ids) = ground (arith, member-append x id ids)

pub member-insert :
    (x id : String) (ids : List String) → member x (insert id ids) ≡ (member x ids || same x id)
member-insert x id ids =
    let app = member-append x id ids in
    let own = same→eq x id in
    elim (Bool-cases (same x id)) [
      | inl e ↦ rw (own e) (let app' = member-append id id ids in ground arith)
      | inr e ↦ ground arith
    ]

member-collect_ids :
    (x : String) (seen : List String) (steps : List WorkflowStep)
    → member x (collect_ids seen steps) ≡ (member x seen || is_step steps x)
unfolding collect_ids is_step
member-collect_ids x seen [] = ground arith
member-collect_ids x seen (s ∷ steps) =
    let rest = member-collect_ids x (insert s.id seen) steps in
    let one = member-insert x s.id seen in
    let there = same→eq x s.id in
    let back = same→eq s.id x in let self = same_refl x in ground arith

-- The set of identifiers holds those of the steps.
pub member-step_ids :
    (x : String) (steps : List WorkflowStep) → member x (step_ids steps) ≡ is_step steps x
unfolding step_ids
member-step_ids x steps = member-collect_ids x [] steps

pub depends_on-is_step :
    (steps : List WorkflowStep) (a b : String)
    → depends_on steps a b ≡ true
    → is_step steps a ≡ true
unfolding depends_on is_step
depends_on-is_step [] a b h = h
depends_on-is_step (s ∷ steps) a b h = ground (arith, depends_on-is_step steps a b)

-- The map gives each step its own dependencies, where no two steps share an identifier.
collected :
    (m : Dependencies) (steps : List WorkflowStep) (a b : String)
    → Distinct steps
    → member b (dependencies_of (collect_dependencies m steps) a)
      ≡ (if is_step steps a then depends_on steps a b else member b (dependencies_of m a))
unfolding collect_dependencies is_step depends_on Distinct
collected m [] a b d = refl
collected m (s ∷ steps) a b d =
    let rest = collected (set s.id s.depends_on m) steps a b d.1 in
    let none_left = depends_on-is_step steps a b in
    elim (Bool-cases (same s.id a)) [
      | inl own ↦
          let last : is_step steps a ≡ false = rw (← same→eq s.id a own) d.0 in
          let here = get-set s.id a s.depends_on m in ground arith
      | inr other ↦ let here = get-set s.id a s.depends_on m in rw (other, rest, here, other) refl
    ]

pub member-dependencies_of :
    (steps : List WorkflowStep) (a b : String)
    → Distinct steps
    → member b (dependencies_of (collect_dependencies [] steps) a) ≡ depends_on steps a b
unfolding get
member-dependencies_of steps a b d =
    let all = collected [] steps a b d in
    let none_left = depends_on-is_step steps a b in ground arith

pub Route-map :
    {e f : String → String → Bool} {a b : String}
    → ((x y : String) → e x y ≡ true → f x y ≡ true)
    → Route e a b
    → Route f a b
Route-map inside (direct h) = direct (inside _ _ h)
Route-map inside (onward p h) = onward (Route-map inside p) (inside _ _ h)
