-- ===== src/Guards/Versions.antt =====
-- `workflow.register` of packages/kernel/src/domain.ts: versions are consecutive.
use parallelplay.Prelude.{
  ℕ, ◌≤◌, ◌<◌, ◌≡◌, ap, max, true, not, List, [], ◌∷◌, Uuid, values, same, ◌==◌, arith, Bool-cases,
  inl, inr, sym, ◌∙◌, same_refl,
}
use mathlib.Core.List.{Memᴰ}
use parallelplay.Canonical.{Host}
use parallelplay.Model.{ProjectionState, WorkflowState, WorkflowDefinition}
use parallelplay.Decide.{
  Accepted, ok, >>=-eq-ok, fail_if, workflow_register, next_version, workflow_version_conflict,
  versions_of, largest, expected_version,
}
use parallelplay.Lifecycle.Fencing.{fail_if-inv}

le_largest : (n : ℕ) (ms : List ℕ) → n ≤ largest n ms
unfolding largest
le_largest n [] = ground arith
le_largest n (m ∷ ms) = let rest = le_largest (max n m) ms in omega arith

mem-le_largest : (n m : ℕ) (ms : List ℕ) → Memᴰ m ms → m ≤ largest n ms
unfolding largest
mem-le_largest n m [] there = elim there [ ]
mem-le_largest n m (k ∷ ms) (Memᴰ.head e) = let rest = le_largest (max n k) ms in rw e (omega arith)
mem-le_largest n m (k ∷ ms) (Memᴰ.tail there) = mem-le_largest (max n k) m ms there

mem-versions_of :
    (k : Uuid) (ws : List WorkflowState) (w : WorkflowState)
    → Memᴰ w ws
    → w.workflow_id ≡ k
    → Memᴰ w.version (versions_of k ws)
unfolding versions_of
mem-versions_of k [] w there own = elim there [ ]
mem-versions_of k (x ∷ ws) w (Memᴰ.head e) own =
    let hit : same x.workflow_id k ≡ true =
      ap (λ (y : WorkflowState). same y.workflow_id k) (sym e)
      ∙ ap (λ i. same i k) own
      ∙ same_refl k in
    rw hit (Memᴰ.head (ap (λ (y : WorkflowState). y.version) e))
mem-versions_of k (x ∷ ws) w (Memᴰ.tail there) own = elim (Bool-cases (same x.workflow_id k)) [
  | inl e ↦ rw e (Memᴰ.tail (mem-versions_of k ws w there own))
  | inr e ↦ rw e (mem-versions_of k ws w there own)
]

lt_expected_version : (m : ℕ) (vs : List ℕ) → Memᴰ m vs → m < expected_version vs
unfolding expected_version largest
lt_expected_version m [] there = elim there [ ]
lt_expected_version m (v ∷ vs) (Memᴰ.head e) = let rest = le_largest v vs in rw e (omega arith)
lt_expected_version m (v ∷ vs) (Memᴰ.tail there) =
    let rest = mem-le_largest v m vs there in omega arith

-- An accepted registration is newer than every version of its workflow that is registered.
pub workflow_register-newer :
    (host : Host) (s : ProjectionState) (d : WorkflowDefinition) (a : Accepted) (w : WorkflowState)
    → workflow_register host s d ≡ ok a
    → Memᴰ w (values s.workflows)
    → w.workflow_id ≡ d.workflow_id
    → w.version < d.version
unfolding workflow_register next_version
workflow_register-newer host s d a w h there own =
    let (u, e, k) =
      >>=-eq-ok
        (fail_if (not (d.version == next_version s d.workflow_id)) workflow_version_conflict
          "Workflow versions must be registered sequentially")
        _ h in
    let fits = fail_if-inv _ _ _ u e in
    let one : d.version ≡ next_version s d.workflow_id = ground arith in
    rw one (
      lt_expected_version w.version (versions_of d.workflow_id (values s.workflows))
        (mem-versions_of d.workflow_id (values s.workflows) w there own))
