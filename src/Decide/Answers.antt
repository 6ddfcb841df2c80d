-- ===== src/Decide/Answers.antt =====
-- `Decision` and `failure` of packages/kernel/src/domain.ts, as a result type. A failure keeps its
-- code and its message; the identifiers that it repeats in `details` are left out. `thrown` is an
-- exception that leaves `decide`.
use parallelplay.Prelude.{◌≡◌, refl, Bool, true, false, Option, none, some, List, String}
use parallelplay.Model.{DomainEvent}

pub data DomainErrorCode : Type 0 where
  program_not_found program_already_exists workflow_not_found : DomainErrorCode
  workflow_version_conflict : DomainErrorCode
  run_not_found run_already_exists run_terminal run_not_schedulable : DomainErrorCode
  run_already_scheduled schedule_mismatch legacy_active_attempt : DomainErrorCode
  attempt_not_found attempt_terminal attempt_not_active command_retired : DomainErrorCode
  job_not_found job_not_claimable job_lease_conflict job_lease_expired : DomainErrorCode
  outbox_not_found outbox_not_claimable outbox_lease_conflict : DomainErrorCode
  outbox_lease_expired verification_required source_revision_not_found : DomainErrorCode
  source_revision_already_exists source_revision_conflict : DomainErrorCode
  verification_not_found verification_not_active evidence_digest_mismatch : DomainErrorCode
  artifact_manifest_conflict : DomainErrorCode

-- The kind of the entity that a command answers with.
pub data ResultKind : Type 0 where
  program source_revision workflow run job outbox verification : ResultKind

pub data Result {ℓ} (A : Type ℓ) : Type ℓ where
  ok : A → Result A
  failure : DomainErrorCode → String → Result A
  thrown : String → Result A

pub record Accepted : Type 0 where
  pub events : List DomainEvent
  pub result_kind : ResultKind
  pub result_id : String

abbrev pub Decision : Type 0
Decision = Result Accepted

infixl 5 ◌>>=◌ ◌>>◌
abbrev pub ◌>>=◌ {ℓ κ} : {A : Type ℓ} {B : Type κ} → Result A → (A → Result B) → Result B
ok value >>= next = next value
failure code message >>= next = failure code message
thrown message >>= next = thrown message

-- A guard and what follows it.
abbrev pub ◌>>◌ {ℓ} : {A : Type ℓ} → Result (Unit {0}) → Result A → Result A
guard >> next = guard >>= λ _. next

-- `if (refused) return failure(code, message)`
abbrev pub fail_if : Bool → DomainErrorCode → String → Result (Unit {0})
fail_if true c m = failure c m
fail_if false c m = ok tt

-- `if (!entity) return failure(code, message)`
abbrev pub found {ℓ} : {A : Type ℓ} → Option A → DomainErrorCode → String → Result A
found none c m = failure c m
found (some a) c m = ok a

abbrev pub accept : List DomainEvent → ResultKind → String → Decision
accept events kind id = ok (record { events = events; result_kind = kind; result_id = id })

module _ {ℓ κ} {A : Type ℓ} {B : Type κ} where
  -- What a chain that ends well went through.
  pub >>=-eq-ok :
      (first : Result A) (next : A → Result B) {answer : B}
      → (first >>= next) ≡ ok answer
      → (value : A) × (first ≡ ok value) × (next value ≡ ok answer)
  >>=-eq-ok (ok value) next e = (value, refl, e)
  >>=-eq-ok (failure code message) next e = cc
  >>=-eq-ok (thrown message) next e = cc
