-- ===== src/Artifacts/Marker.antt =====
-- The marker file of an artifact store (packages/runtime/src/artifact-store.ts): its content is `none`
-- where there is no file. `JSON.parse` is a parameter, which answers `none` where it throws; the
-- numbers of a document are natural.
use parallelplay.Prelude.{
  ◌≡◌, refl, ℕ, Bool, true, false, ◌&&◌, Option, none, some, String, is_some, same, ◌==◌,
  if◌then◌else◌, ◌⊎◌, inl, inr, Bool-cases, arith,
}
use parallelplay.Canonical.{Json, text, number, object, Fields, field, end}
use parallelplay.Prelude.Answers.{Answer, answer, raised}

pub record StoreStatus : Type 0 where
  pub exists : Bool
  pub valid : Bool
  pub schema_version : Option ℕ

find_field : String → Fields → Option Json
find_field key end = none
find_field key (field name value rest) = if same name key then some value else find_field key rest

-- A member of a parsed document. On `null` the code throws, with the same outcome as where the
-- member is missing.
member_of : String → Json → Option Json
unfolding find_field
member_of key (object fields) = find_field key fields
member_of key _ = none

is_text : String → Option Json → Bool
is_text expected (some (text found)) = same found expected
is_text expected _ = false

number_of : Option Json → Option ℕ
number_of (some (number n)) = some n
number_of _ = none

is_version : Option ℕ → Bool
is_version (some n) = n == 1
is_version none = false

document_status : Option Json → StoreStatus
unfolding member_of is_text number_of is_version
document_status none = record { exists = true; valid = false; schema_version = none }
document_status (some value) =
    let version = number_of (member_of "schemaVersion" value) in
    record {
      exists = true;
      valid =
          is_text "parallelplay-artifact-store" (member_of "kind" value)
          && is_version version
          && is_text "sha256" (member_of "digest" value);
      schema_version = version;
    }

-- `JSON.stringify(FORMAT)` and the line's end.
abbrev pub format_text : String
format_text =
    "{\"kind\":\"parallelplay-artifact-store\",\"schemaVersion\":1,\"digest\":\"sha256\"}\n"

abbrev pub format : Json
format = object (
    field "kind" (text "parallelplay-artifact-store")
      (field "schemaVersion" (number 1) (field "digest" (text "sha256") end)))

-- The marker is written where there is none.
unfoldable pub written : Option String → Option String
written none = some format_text
written (some content) = some content

module _ (parse : String → Option Json) where
  unfoldable pub get_artifact_store_status : Option String → StoreStatus
  unfolding document_status
  get_artifact_store_status none = record { exists = false; valid = false; schema_version = none }
  get_artifact_store_status (some content) = document_status (parse content)

  -- The marker afterwards, and the answer.
  unfoldable pub initialize_artifact_store : Option String → Option String × Answer StoreStatus
  unfolding get_artifact_store_status written
  initialize_artifact_store marker =
      let present = written marker in
      let status = get_artifact_store_status present in
      (
        present,
        if status.valid then answer status else raised "Artifact store has an unsupported format",
      )

  -- The constructor of `FileArtifactStore`.
  unfoldable pub open_store : Option String → Answer (Unit {0})
  unfolding get_artifact_store_status
  open_store marker =
      if (get_artifact_store_status marker).valid
      then answer tt
      else raised "Artifact store must be initialized before use"

abbrev pub initialized : StoreStatus
initialized = record { exists = true; valid = true; schema_version = some 1 }

version_one : (version : Option ℕ) → is_version version ≡ true → version ≡ some 1
unfolding is_version
version_one none h = cc
version_one (some n) h = ground (arith, h)

valid_status :
    (a c : Bool) (version : Option ℕ)
    → (a && is_version version && c) ≡ true
    → record { exists = true; valid = a && is_version version && c; schema_version = version }
      ≡ initialized
unfolding is_version
valid_status true true version h = rw (version_one version (ground (arith, h))) (ground arith)
valid_status true false version h = absurd (ground (arith, h))
valid_status false c version h = cc

document_status-valid :
    (d : Option Json) → (document_status d).valid ≡ true → document_status d ≡ initialized
unfolding document_status
document_status-valid none h = cc
document_status-valid (some value) h =
    valid_status (is_text "parallelplay-artifact-store" (member_of "kind" value))
      (is_text "sha256" (member_of "digest" value)) (number_of (member_of "schemaVersion" value)) h

format-valid : document_status (some format) ≡ initialized
unfolding document_status same
format-valid = refl

-- Initialising a store makes it one that can be opened, or refuses one of another format: a marker
-- that is there is never changed; where there was none the store opens; and either the answer is the
-- status of a valid store of version 1 and the store opens, or both raise. `JSON.parse` reads the
-- marker that is written back as what it was written from.
pub initialize_artifact_store-open_store :
    (parse : String → Option Json)
    → parse format_text ≡ some format
    → (marker : Option String)
    → let (after, told) = initialize_artifact_store parse marker in
      (is_some marker ≡ true → after ≡ marker)
      × (marker ≡ none → open_store parse after ≡ answer tt)
      × (((told ≡ answer initialized) × (open_store parse after ≡ answer tt))
          ⊎ ((told ≡ raised "Artifact store has an unsupported format")
              × (open_store parse after ≡ raised "Artifact store must be initialized before use")))
unfolding initialize_artifact_store get_artifact_store_status open_store written same
initialize_artifact_store-open_store parse reads none =
    rw (reads, format-valid) (λ there. absurd (cc there), λ gone. refl, inl (refl, refl))
initialize_artifact_store-open_store parse reads (some content) = (
  λ there. refl,
  λ gone. absurd (cc gone),
  elim (Bool-cases (document_status (parse content)).valid) [
    | inl fits ↦ inl (rw (document_status-valid (parse content) fits) (refl, refl))
    | inr other ↦ inr (rw other (refl, refl))
  ],
)
