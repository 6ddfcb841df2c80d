-- ===== src/Workflow/Walks.antt =====
-- Walks along dependencies, and orders of steps in which dependencies come first: what the search
-- of packages/kernel/src/schema.ts looks for.
use parallelplay.Prelude.{
  ℕ, suc, ◌≤◌, ◌<◌, ◌≡◌, Bool, true, ◌&&◌, List, [], ◌∷◌, String, any, length, same, same→eq,
  if◌then◌else◌, arith, Bool-cases, inl, inr,
}
use parallelplay.Model.{WorkflowStep}
use parallelplay.Workflow.Graph.{member}

-- One dependency or more, one after another.
pub data Route (edge : String → String → Bool) : String → String → Type 0 where
  direct : {a b : String} → edge a b ≡ true → Route edge a b
  onward : {a b c : String} → Route edge a b → edge b c ≡ true → Route edge a c

-- The step `a` names `b` among its dependencies.
unfoldable pub depends_on : List WorkflowStep → String → String → Bool
depends_on steps a b = any (λ (s : WorkflowStep). same s.id a && member b s.depends_on) steps

-- Newest first: every dependency of a member stands further down.
unfoldable pub Ordered : (String → String → Bool) → List String → Type 0
Ordered edge [] = Unit
Ordered edge (x ∷ xs) = ((y : String) → edge x y ≡ true → member y xs ≡ true) × Ordered edge xs

pub Ordered-map :
    {e f : String → String → Bool}
    → ((x y : String) → f x y ≡ true → e x y ≡ true)
    → (xs : List String) → Ordered e xs
    → Ordered f xs
unfolding Ordered
Ordered-map inside [] o = tt
Ordered-map inside (x ∷ xs) o = (λ y e. o.0 y (inside x y e), Ordered-map inside xs o.1)

-- How far down the last occurrence of a name is.
unfoldable pub rank : String → List String → ℕ
rank x [] = 0
rank x (y ∷ ys) = if member x ys then rank x ys else suc (length ys)

rank_le_length : (x : String) (xs : List String) → rank x xs ≤ length xs
unfolding rank
rank_le_length x [] = omega arith
rank_le_length x (y ∷ ys) = ground (arith, rank_le_length x ys)

-- A dependency ranks below whatever depends on it.
pub edge-rank :
    (edge : String → String → Bool) (xs : List String) (x y : String)
    → Ordered edge xs
    → member x xs ≡ true
    → edge x y ≡ true
    → (member y xs ≡ true) × (rank y xs < rank x xs)
unfolding Ordered rank
edge-rank edge [] x y o there e = cc
edge-rank edge (z ∷ xs) x y o there e = elim (Bool-cases (member x xs)) [
  | inl below ↦ ground (arith, edge-rank edge xs x y o.1 below e)
  | inr last ↦
      let own : z ≡ x = ground (arith, same→eq x z) in
      let down = o.0 y (rw own e) in ground (arith, rank_le_length y xs)
]

pub Route-rank :
    (edge : String → String → Bool) (xs : List String) (x y : String)
    → Ordered edge xs
    → member x xs ≡ true
    → Route edge x y
    → (member y xs ≡ true) × (rank y xs < rank x xs)
Route-rank edge xs x y o there (direct e) = edge-rank edge xs x y o there e
Route-rank edge xs x y o there (onward {a} {b} {c} p e) =
    let (mid, below) = Route-rank edge xs a b o there p in
    let (end, lower) = edge-rank edge xs b c o mid e in (end, omega arith)

-- What such an order lists is on no cycle.
pub Ordered-acyclic :
    (edge : String → String → Bool) (xs : List String) (x : String)
    → Ordered edge xs
    → member x xs ≡ true
    → ¬ Route edge x x
Ordered-acyclic edge xs x o there p =
    let (end, below) = Route-rank edge xs x x o there p in omega arith
