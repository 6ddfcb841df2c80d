-- ===== src/Canonical.antt =====
-- packages/kernel/src/canonical.ts: canonical JSON and its digest. SHA-256 is the platform's, and
-- is a parameter of every definition that hashes.
use Prim.Native.Nat.{◌/◌, ◌%◌}
use Prim.Native.Char.{Char, code}
use parallelplay.Prelude.{
  ℕ, ◌+◌, ◌*◌, ◌-◌, ◌&&◌, Option, none, some, List, [], ◌∷◌, leb, same, Bool, true, false, ltb,
  ◌==◌, if◌then◌else◌, String, join, decimal,
}

-- The platform's hash: the lower-case hexadecimal SHA-256 of a text's UTF-8 bytes.
pub record Host : Type 0 where
  pub sha256 : String → String

-- A JSON value. A number that is not a non-negative integer stands as the text that `JSON.stringify`
-- prints.
mutual
  pub data Json : Type 0 where
    null : Json
    boolean : Bool → Json
    number : ℕ → Json
    other_number : (printed : String) → Json
    text : String → Json
    array : Items → Json
    object : Fields → Json

  pub data Items : Type 0 where
    nil : Items
    item : Json → Items → Items

  pub data Fields : Type 0 where
    end : Fields
    field : String → Json → Fields → Fields

-- The UTF-16 code units of a text.
code_units : String → List ℕ
code_units String.[] = []
code_units (String.◌∷◌ c s) =
    let n = code c in
    let rest = code_units s in
    if ltb n 0x10000
    then n ∷ rest
    else (0xd800 + (n - 0x10000) / 0x400) ∷ (0xdc00 + (n - 0x10000) % 0x400) ∷ rest

units_le : List ℕ → List ℕ → Bool
units_le [] bs = true
units_le (a ∷ others) [] = false
units_le (a ∷ others) (b ∷ bs) = let rest = units_le others bs in if a == b then rest else ltb a b

-- `a <= b` of texts.
unfoldable pub text_order : String → String → Bool
unfolding code_units units_le
text_order a b = units_le (code_units a) (code_units b)

digits_value : ℕ → String → Option ℕ
digits_value value String.[] = some value
digits_value value (String.◌∷◌ c s) =
    let rest = digits_value (value * 10 + (code c - 48)) s in
    if leb 48 (code c) && leb (code c) 57 then rest else none

-- The number of a key that is an array index: these come first in a JavaScript object, whatever the
-- order in which keys were set.
key_index : String → Option ℕ
unfolding digits_value
key_index key = elim (digits_value 0 key) [
  | none ↦ none
  | some n ↦ if same (decimal n) key && ltb n 4294967295 then some n else none
]

index_le : Option ℕ → Option ℕ → Bool → Bool
index_le (some m) (some n) texts = leb m n
index_le (some m) none texts = true
index_le none (some n) texts = false
index_le none none texts = texts

-- The order of the keys of the object that is filled along `Object.keys(source).sort()`.
key_le : String → String → Bool
unfolding text_order key_index index_le
key_le a b = index_le (key_index a) (key_index b) (text_order a b)

-- A key into its place among sorted keys.
insert_field : String → Json → Fields → Fields
unfolding key_le
insert_field k v end = field k v end
insert_field k v (field j w rest) =
    if key_le k j then field k v (field j w rest) else field j w (insert_field k v rest)

unfoldable mutual
  unfolding insert_field

  pub normalize : Json → Json
  normalize null = null
  normalize (boolean b) = boolean b
  normalize (number n) = number n
  normalize (other_number printed) = other_number printed
  normalize (text s) = text s
  normalize (array xs) = array (normalize_items xs)
  normalize (object fs) = object (normalize_fields fs)

  pub normalize_items : Items → Items
  normalize_items nil = nil
  normalize_items (item x xs) = item (normalize x) (normalize_items xs)

  pub normalize_fields : Fields → Fields
  normalize_fields end = end
  normalize_fields (field k v rest) = insert_field k (normalize v) (normalize_fields rest)

hex_digit : ℕ → String
hex_digit n =
    if n == 10
    then "a"
    else if n == 11
    then "b"
    else if n == 12
    then "c"
    else if n == 13
    then "d"
    else if n == 14
    then "e"
    else if n == 15
    then "f"
    else decimal n

-- The escapes of `JSON.stringify`.
escape : Char → String
unfolding hex_digit
escape c =
    if code c == 0x22
    then "\\\""
    else if code c == 0x5c
    then "\\\\"
    else if code c == 8
    then "\\b"
    else if code c == 9
    then "\\t"
    else if code c == 10
    then "\\n"
    else if code c == 12
    then "\\f"
    else if code c == 13
    then "\\r"
    else if ltb (code c) 16
    then join "\\u000" (hex_digit (code c))
    else if ltb (code c) 32
    then join "\\u001" (hex_digit (code c - 16))
    else String.◌∷◌ c ""

escape_all : String → String
unfolding escape
escape_all String.[] = ""
escape_all (String.◌∷◌ c s) = join (escape c) (escape_all s)

quote : String → String
unfolding escape_all
quote s = join "\"" (join (escape_all s) "\"")

unfoldable mutual
  unfolding quote

  pub stringify : Json → String
  stringify null = "null"
  stringify (boolean true) = "true"
  stringify (boolean false) = "false"
  stringify (number n) = decimal n
  stringify (other_number printed) = printed
  stringify (text s) = quote s
  stringify (array xs) = join "[" (join (stringify_items true xs) "]")
  stringify (object fs) = join "{" (join (stringify_fields true fs) "}")

  pub stringify_items : Bool → Items → String
  stringify_items first nil = ""
  stringify_items first (item x xs) =
      join (if first then "" else ",") (join (stringify x) (stringify_items false xs))

  pub stringify_fields : Bool → Fields → String
  stringify_fields first end = ""
  stringify_fields first (field k v rest) =
      join (if first then "" else ",")
        (join (quote k) (join ":" (join (stringify v) (stringify_fields false rest))))

unfoldable pub canonical_json : Json → String
canonical_json v = stringify (normalize v)

unfoldable pub canonical_digest : Host → Json → String
unfolding canonical_json
canonical_digest host v = host.sha256 (canonical_json v)
