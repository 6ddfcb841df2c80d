-- ===== src/Prelude/Answers.antt =====
-- The answer of an operation that may throw an `Error` with a message.
use mathlib.Core.Bool.{Bool, true, false}
use Prim.Native.String.{String}

-- A result, or the message of the exception.
pub data Answer {ℓ} (A : Type ℓ) : Type ℓ where
  answer : A → Answer A
  raised : String → Answer A

infixl 5 ◌>>=◌ ◌>>◌
abbrev pub ◌>>=◌ {ℓ κ} : {A : Type ℓ} {B : Type κ} → Answer A → (A → Answer B) → Answer B
answer value >>= next = next value
raised message >>= next = raised message

abbrev pub ◌>>◌ {ℓ} : {A : Type ℓ} → Answer (Unit {0}) → Answer A → Answer A
guard >> next = guard >>= λ _. next

-- `if (refused) throw new Error(message)`
abbrev pub raise_if : Bool → String → Answer (Unit {0})
raise_if true message = raised message
raise_if false message = answer tt
