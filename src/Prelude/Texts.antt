-- ===== src/Prelude/Texts.antt =====
-- Identifiers, as texts that are compared as a whole, and the text that a number prints as.
use Prim.Native.Nat.{ℕ, zero, suc, ◌+◌, ◌/◌, ◌%◌}
use Prim.Native.Char.{Char, code}
use Prim.Native.String.{String, ◌++◌}
use mathlib.Core.Path.{◌≡◌, refl}
use mathlib.Core.Bool.{Bool, true, false, ◌&&◌, ◌||◌}
use mathlib.Core.Option.{Option, none, some}
use native.Mathlib.Omega.{arith}
use text.Mathlib.Text.{◌==◌ as str_eq}
use text.Mathlib.TextEquality.{eq_iff}
use parallelplay.Prelude.Tests.{ltb, leb, ◌==◌, if◌then◌else◌}

-- A UUID, a digest or another name; the code compares these for equality only.
abbrev pub Uuid : Type 0
Uuid = String

-- `a === b`
unfoldable pub same : Uuid → Uuid → Bool
same a b = str_eq a b

pub same_refl : (a : Uuid) → same a a ≡ true
unfolding same
same_refl a = (eq_iff a a).1 refl

pub same→eq : (a b : Uuid) → same a b ≡ true → a ≡ b
unfolding same
same→eq a b h = (eq_iff a b).0 h

pub same_sym_false : (a b : Uuid) → same a b ≡ false → same b a ≡ false
same_sym_false a b h = ground (arith, same→eq b a, same_refl a)

-- `a === b` where `a` may be null.
abbrev pub same_option : Option Uuid → Uuid → Bool
same_option none b = false
same_option (some a) b = same a b

digit : ℕ → String
digit n = elim n [
  | zero ↦ "0"
  | suc zero ↦ "1"
  | suc (suc zero) ↦ "2"
  | suc (suc (suc zero)) ↦ "3"
  | suc (suc (suc (suc zero))) ↦ "4"
  | suc (suc (suc (suc (suc zero)))) ↦ "5"
  | suc (suc (suc (suc (suc (suc zero))))) ↦ "6"
  | suc (suc (suc (suc (suc (suc (suc zero)))))) ↦ "7"
  | suc (suc (suc (suc (suc (suc (suc (suc zero))))))) ↦ "8"
  | _ ↦ "9"
]

decimal_from : ℕ → ℕ → String
unfolding digit
decimal_from zero n = ""
decimal_from (suc fuel) n =
    let rest = decimal_from fuel (n / 10) in if ltb n 10 then digit n else rest ++ digit (n % 10)

-- `String(n)`; a number has fewer digits than n + 1.
unfoldable pub decimal : ℕ → String
unfolding decimal_from
decimal n = decimal_from (suc n) n

-- `a + b` of texts.
unfoldable pub join : String → String → String
join a b = a ++ b

-- The length of a character in a JavaScript string.
unfoldable pub units : Char → ℕ
units c = if ltb (code c) 0x10000 then 1 else 2

-- `s.length`
unfoldable pub utf16_length : String → ℕ
unfolding units
utf16_length String.[] = 0
utf16_length (String.◌∷◌ c s) = units c + utf16_length s

-- White space and line ends, which `s.trim()` takes off.
is_space : Char → Bool
is_space c =
    let n = code c in
    n == 32
    || n == 160
    || (leb 9 n && leb n 13)
    || n == 0x1680
    || (leb 0x2000 n && leb n 0x200a)
    || n == 0x2028
    || n == 0x2029
    || n == 0x202f
    || n == 0x205f
    || n == 0x3000
    || n == 0xfeff

trim_start : String → String
unfolding is_space
trim_start String.[] = ""
trim_start (String.◌∷◌ c s) = let rest = trim_start s in if is_space c then rest else String.◌∷◌ c s

trim_end : String → String
unfolding is_space
trim_end String.[] = ""
trim_end (String.◌∷◌ c s) =
    let rest = trim_end s in if is_space c && same rest "" then "" else String.◌∷◌ c rest

-- `s.trim()`
unfoldable pub trim : String → String
unfolding trim_start trim_end
trim s = trim_end (trim_start s)
