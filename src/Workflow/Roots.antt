-- ===== src/Workflow/Roots.antt =====
-- A workflow that passes the check of packages/kernel/src/schema.ts has a step to begin with.
use mathlib.Core.List.{Memᴰ}
use parallelplay.Prelude.{
  ℕ, zero, suc, ◌<◌, ◌≡◌, ◌≢◌, ◌⊎◌, refl, sym, subst, true, List, [], ◌∷◌, String, same, same→eq,
  same_refl, arith, Bool-cases, inl, inr,
}
use parallelplay.Model.{WorkflowStep}
use parallelplay.Workflow.Graph.{member}
use parallelplay.Workflow.Walks.{depends_on, Ordered, rank, edge-rank}
use parallelplay.Workflow.Steps.{is_step}
use parallelplay.Workflow.Validation.{IsWorkflowGraph, IsWorkflowGraph-order}

pub step-of :
    (steps : List WorkflowStep) (a : String)
    → is_step steps a ≡ true
    → (s : WorkflowStep) × Memᴰ s steps × (s.id ≡ a)
unfolding is_step
step-of [] a h = cc
step-of (s ∷ steps) a h = elim (Bool-cases (same s.id a)) [
  | inl hit ↦ (s, Memᴰ.head refl, same→eq s.id a hit)
  | inr miss ↦ let (t, there, own) = step-of steps a (ground arith) in (t, Memᴰ.tail there, own)
]

pub mem-is_step :
    (steps : List WorkflowStep) (s : WorkflowStep) → Memᴰ s steps → is_step steps s.id ≡ true
unfolding is_step
mem-is_step [] s there = elim there [ ]
mem-is_step (t ∷ steps) s (Memᴰ.head e) = rw (e, same_refl t.id) refl
mem-is_step (t ∷ steps) s (Memᴰ.tail there) = ground (arith, mem-is_step steps s there)

pub mem-depends_on :
    (steps : List WorkflowStep) (s : WorkflowStep) (d : String)
    → Memᴰ s steps
    → member d s.depends_on ≡ true
    → depends_on steps s.id d ≡ true
unfolding depends_on
mem-depends_on [] s d there h = elim there [ ]
mem-depends_on (t ∷ steps) s d (Memᴰ.head e) h =
    let self = same_refl s.id in
    subst (λ (x : WorkflowStep). depends_on (x ∷ steps) s.id d ≡ true) e (ground arith)
mem-depends_on (t ∷ steps) s d (Memᴰ.tail there) h =
    ground (arith, mem-depends_on steps s d there h)

List-cases {ℓ} :
    {A : Type ℓ} (xs : List A) → (xs ≡ []) ⊎ ((x : A) × (rest : List A) × (xs ≡ x ∷ rest))
List-cases [] = inl refl
List-cases (x ∷ xs) = inr (x, xs, refl)

module _ (steps : List WorkflowStep) (order : List String) where
  -- Going from a step to what it depends on ends, at a step that depends on nothing.
  root_below :
      (bound : ℕ) (s : WorkflowStep)
      → Ordered (depends_on steps) order
      → ((x : String) → is_step steps x ≡ true → member x order ≡ true)
      → ((a b : String) → depends_on steps a b ≡ true → is_step steps b ≡ true)
      → rank s.id order < bound
      → Memᴰ s steps
      → (root : WorkflowStep) × Memᴰ root steps × (root.depends_on ≡ [])
  root_below zero s o all known low there = absurd (omega arith)
  root_below (suc bound) s o all known low there = elim (List-cases s.depends_on) [
    | inl none_left ↦ (s, there, none_left)
    | inr (d, ds, e) ↦
        let edge = mem-depends_on steps s d there (rw e (ground (arith, same_refl d))) in
        let (t, there', own) = step-of steps d (known s.id d edge) in
        let (_, below) =
          edge-rank (depends_on steps) order s.id d o (all s.id (mem-is_step steps s there)) edge in
        root_below bound t o all known (rw own (omega arith)) there'
  ]

-- Some step of a workflow graph depends on nothing.
pub IsWorkflowGraph-root :
    (steps : List WorkflowStep)
    → IsWorkflowGraph steps
    → steps ≢ []
    → (root : WorkflowStep) × Memᴰ root steps × (root.depends_on ≡ [])
IsWorkflowGraph-root steps g some_step = elim (List-cases steps) [
  | inl empty ↦ absurd (some_step empty)
  | inr (s, rest, e) ↦
      let (order, o, all) = IsWorkflowGraph-order steps g in
      root_below steps order (suc (rank s.id order)) s o all g.known (omega arith)
        (subst (Memᴰ s) (sym e) (Memᴰ.head refl))
]
