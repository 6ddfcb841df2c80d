-- ===== src/Workflow/Issues.antt =====
-- When the first two loops of `validateWorkflowGraph`, packages/kernel/src/schema.ts, add no issue.
use parallelplay.Prelude.{
  append-eq-nil, ℕ, suc, ◌≡◌, refl, subst, Bool, true, false, ◌&&◌, List, [], ◌∷◌, String, same,
  same→eq, same_refl, if◌then◌else◌, arith, Bool-cases, inl, inr,
}
use parallelplay.Model.{WorkflowStep}
use parallelplay.Workflow.Graph.{
  member, insert, duplicate_issues, dependency_issues, all_dependency_issues,
}
use parallelplay.Workflow.Walks.{depends_on}
use parallelplay.Workflow.Steps.{is_step, Distinct, member-insert}

cons_if-inv {ℓ} :
    {A : Type ℓ} (b : Bool) (x : A) (xs : List A)
    → (if b then x ∷ xs else xs) ≡ []
    → (b ≡ false) × (xs ≡ [])
cons_if-inv true x xs h = cc
cons_if-inv false x xs h = (refl, h)

cons_if-nil {ℓ} :
    {A : Type ℓ} (b : Bool) (x : A) (xs : List A)
    → b ≡ false
    → xs ≡ []
    → (if b then x ∷ xs else xs) ≡ []
cons_if-nil true x xs h e = cc
cons_if-nil false x xs h e = e

unfoldable pub Fresh : List String → List WorkflowStep → Type 0
Fresh seen steps = (x : String) → is_step steps x ≡ true → member x seen ≡ false

pub duplicate_issues-inv :
    (i : ℕ) (seen : List String) (steps : List WorkflowStep)
    → duplicate_issues i seen steps ≡ []
    → Distinct steps × Fresh seen steps
unfolding duplicate_issues Distinct Fresh is_step
duplicate_issues-inv i seen [] h = (tt, λ x e. cc)
duplicate_issues-inv i seen (s ∷ steps) h =
    let (new, rest) = cons_if-inv (member s.id seen) _ _ h in
    let (d, fresh) = duplicate_issues-inv (suc i) (insert s.id seen) steps rest in
    (
      (
        elim (Bool-cases (is_step steps s.id)) [
          | inl e ↦
              let own = fresh s.id e in
              let grown = member-insert s.id s.id seen in let self = same_refl s.id in ground arith
          | inr e ↦ e
        ],
        d,
      ),
      λ x e.
          let grown = member-insert x s.id seen in
          let rest = fresh x in
          let own = same→eq s.id x in
          elim (Bool-cases (same s.id x)) [
            | inl hit ↦ rw (← own hit) new
            | inr miss ↦ ground arith
          ],
    )

pub duplicate_issues-nil :
    (i : ℕ) (seen : List String) (steps : List WorkflowStep)
    → Distinct steps
    → Fresh seen steps
    → duplicate_issues i seen steps ≡ []
unfolding duplicate_issues Distinct Fresh is_step
duplicate_issues-nil i seen [] d fresh = refl
duplicate_issues-nil i seen (s ∷ steps) d fresh =
    cons_if-nil (member s.id seen) _ _ (fresh s.id (ground (arith, same_refl s.id))) (
      duplicate_issues-nil (suc i) (insert s.id seen) steps d.1 λ x e.
        let grown = member-insert x s.id seen in
        let old = fresh x in
        elim (Bool-cases (same x s.id)) [
          | inl hit ↦ absurd (cc (d.0, subst (λ y. is_step steps y ≡ true) (same→eq x s.id hit) e))
          | inr miss ↦ ground arith
        ])

-- Both kinds of issue that a dependency may raise.
unfoldable pub Settled : List String → List WorkflowStep → Type 0
Settled ids steps =
    (a b : String) → depends_on steps a b ≡ true → (member b ids ≡ true) × (same b a ≡ false)

dependency_issues-inv :
    (i : ℕ) (ids : List String) (a : String) (ds : List String)
    → dependency_issues i ids a ds ≡ []
    → (b : String) → member b ds ≡ true
    → (member b ids ≡ true) × (same b a ≡ false)
unfolding dependency_issues
dependency_issues-inv i ids a [] h b there = cc
dependency_issues-inv i ids a (d ∷ ds) h b there =
    let own = same→eq b d in
    elim (Bool-cases (member d ids)) [
      | inl known ↦ elim (Bool-cases (same d a)) [
        | inl self ↦ absurd (cc (rw (known, self) at h))
        | inr other ↦
            let rest = dependency_issues-inv i ids a ds (rw (known, other) at h) b in
            elim (Bool-cases (same b d)) [
              | inl hit ↦ rw (own hit) (known, other)
              | inr miss ↦ rest (ground arith)
            ]
      ]
      | inr unknown ↦ absurd (cc (rw unknown at h))
    ]

dependency_issues-nil :
    (i : ℕ) (ids : List String) (a : String) (ds : List String)
    → ((b : String) → member b ds ≡ true → (member b ids ≡ true) × (same b a ≡ false))
    → dependency_issues i ids a ds ≡ []
unfolding dependency_issues
dependency_issues-nil i ids a [] good = refl
dependency_issues-nil i ids a (d ∷ ds) good =
    let (known, other) = good d (ground (arith, same_refl d)) in
    rw (known, other) (dependency_issues-nil i ids a ds λ b h. good b (ground arith))

-- The second loop adds nothing where each dependency is another step, and only there.
pub all_dependency_issues-inv :
    (i : ℕ) (ids : List String) (steps : List WorkflowStep)
    → all_dependency_issues i ids steps ≡ []
    → Settled ids steps
unfolding all_dependency_issues Settled depends_on
all_dependency_issues-inv i ids [] h a b there = cc
all_dependency_issues-inv i ids (s ∷ steps) h a b there =
    let (one, rest) = append-eq-nil (dependency_issues i ids s.id s.depends_on) _ h in
    let own = same→eq s.id a in
    let more = all_dependency_issues-inv (suc i) ids steps rest a b in
    let first = dependency_issues-inv i ids s.id s.depends_on one b in
    elim (Bool-cases (same s.id a && member b s.depends_on)) [
      | inl e ↦ rw (← own (ground arith)) (first (ground arith))
      | inr e ↦ more (ground arith)
    ]

pub all_dependency_issues-nil :
    (i : ℕ) (ids : List String) (steps : List WorkflowStep)
    → Settled ids steps
    → all_dependency_issues i ids steps ≡ []
unfolding all_dependency_issues Settled depends_on
all_dependency_issues-nil i ids [] good = refl
all_dependency_issues-nil i ids (s ∷ steps) good =
    rw
      (dependency_issues-nil i ids s.id s.depends_on
        λ b h. good s.id b (ground (arith, same_refl s.id)))
      (all_dependency_issues-nil (suc i) ids steps λ a b h. good a b (ground arith))
