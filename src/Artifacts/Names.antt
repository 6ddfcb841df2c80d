-- ===== src/Artifacts/Names.antt =====
-- The checks of names in packages/runtime/src/artifact-store.ts: paths, roles and digests.
use Prim.Native.Char.{Char, code}
use parallelplay.Prelude.{
  ℕ, ◌+◌, Bool, false, not, ◌&&◌, ◌||◌, List, [], ◌∷◌, String, utf16_length, any, same, join, ltb,
  leb, ◌==◌, if◌then◌else◌,
}

-- `s.includes(c)` for one character.
has_char : ℕ → String → Bool
has_char n String.[] = false
has_char n (String.◌∷◌ c s) = (code c == n) || has_char n s

starts_with_slash : String → Bool
starts_with_slash String.[] = false
starts_with_slash (String.◌∷◌ c s) = code c == 0x2f

onto_first : Char → List String → List String
onto_first c [] = String.◌∷◌ c "" ∷ []
onto_first c (p ∷ ps) = String.◌∷◌ c p ∷ ps

-- `path.split("/")`
unfoldable pub split_path : String → List String
unfolding onto_first
split_path String.[] = "" ∷ []
split_path (String.◌∷◌ c s) =
    let rest = split_path s in if code c == 0x2f then "" ∷ rest else onto_first c rest

is_bad_part : String → Bool
is_bad_part part = same part "" || same part "." || same part ".."

unfoldable pub valid_artifact_path : String → Bool
unfolding has_char starts_with_slash is_bad_part split_path
valid_artifact_path path =
    ltb 0 (utf16_length path)
    && leb (utf16_length path) 1000
    && not (has_char 0 path)
    && not (starts_with_slash path)
    && not (has_char 0x5c path)
    && not (any is_bad_part (split_path path))

abbrev between : ℕ → ℕ → Char → Bool
between lo hi c = leb lo (code c) && leb (code c) hi

-- `[a-f0-9]`
is_hex : Char → Bool
is_hex c = between 0x61 0x66 c || between 0x30 0x39 c

count_hex : String → ℕ → Bool
unfolding is_hex
count_hex String.[] n = n == 64
count_hex (String.◌∷◌ c s) n = is_hex c && count_hex s (n + 1)

-- `/^[a-f0-9]{64}$/`
unfoldable pub is_digest : String → Bool
unfolding count_hex
is_digest s = count_hex s 0

-- `[a-z0-9._-]`
is_role_char : Char → Bool
is_role_char c =
    between 0x61 0x7a c || between 0x30 0x39 c || code c == 0x2e || code c == 0x5f || code c == 0x2d

role_rest : String → ℕ → Bool
unfolding is_role_char
role_rest String.[] n = leb n 99
role_rest (String.◌∷◌ c s) n = is_role_char c && role_rest s (n + 1)

-- `/^[a-z][a-z0-9._-]{0,99}$/`
unfoldable pub is_role : String → Bool
unfolding role_rest
is_role String.[] = false
is_role (String.◌∷◌ c s) = between 0x61 0x7a c && role_rest s 0

-- The directory and the name of an object, `sha256.slice(0, 2)` and `sha256.slice(2)`.
unfoldable pub object_name : String → String
object_name String.[] = "/"
object_name (String.◌∷◌ c String.[]) = String.◌∷◌ c "/"
object_name (String.◌∷◌ c (String.◌∷◌ d s)) = String.◌∷◌ c (String.◌∷◌ d (join "/" s))
