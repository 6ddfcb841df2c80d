-- ===== src/Examples/Artifacts.antt =====
-- Examples on the artifact store: a put, a put that another process wins, a check of entries,
-- and the marker of a store.
use parallelplay.Prelude.{
  Option, is_some, true, ◌⊎◌, remove, ◌≡◌, ◌↔◌, refl, none, some, [], ◌∷◌, String, All, get, set,
  same, length, join, ◌==◌, if◌then◌else◌, inl, inr, utf16_length, units,
}
use parallelplay.Model.{ArtifactEntry}
use parallelplay.Artifacts.Names.{valid_artifact_path, is_role, is_digest, object_name, split_path}
use parallelplay.Artifacts.Store.{
  Bytes, Files, Surroundings, leave_behind, write_object, answer, raised, put, read, verify,
  store_object, create_object, link_object, finish_put,
}
use parallelplay.Artifacts.Integrity.{Intact, verify_iff}
use parallelplay.Artifacts.Writing.{read-put}
use parallelplay.Artifacts.Sparing.{Spares, put-Spares}
use parallelplay.Artifacts.Marker.{
  format, format_text, initialized, initialize_artifact_store, open_store, written,
  get_artifact_store_status, initialize_artifact_store-open_store,
}
use parallelplay.Canonical.{Json, array, nil}

-- A hash that tells texts of one byte from the others.
abbrev a_digest : Bytes → String
a_digest b =
    if length b == 1
    then "aaaaaaaaaaaaaaaaaaaaaaaaaaaaaaaaaaaaaaaaaaaaaaaaaaaaaaaaaaaaaaaa"
    else "bbbbbbbbbbbbbbbbbbbbbbbbbbbbbbbbbbbbbbbbbbbbbbbbbbbbbbbbbbbbbbbb"

abbrev no_files : Files
no_files = record { objects = []; temporaries = [] }

abbrev report : Bytes
report = 7 ∷ []

abbrev an_entry : ArtifactEntry
an_entry = record { path = "out/report.txt"; role = "report"; size = 1; sha256 = a_digest report }

-- Nothing fails, and another process may put an object in place.
abbrev alongside : Option Bytes → Surroundings
alongside raced = record { failure = none; raced = raced }

-- The disk is full after one byte.
abbrev a_failure : Surroundings
a_failure = record {
  failure = some (record { message = "ENOSPC"; left_behind = some (1 ∷ []) });
  raced = none;
}

abbrev after_put : Files
after_put =
    (put a_digest "t1" (alongside (some report)) "out/report.txt" "report" report no_files).0

put_answers :
    put a_digest "t1" (alongside (some report)) "out/report.txt" "report" report no_files
    ≡ (after_put, answer an_entry)
unfolding put store_object create_object write_object link_object finish_put valid_artifact_path
    split_path is_role is_digest object_name remove get set same utf16_length units join
put_answers = refl

refused_path :
    (put a_digest "t1" (alongside none) "../report.txt" "report" report no_files).1
    ≡ raised "Artifact path must be normalized and relative"
unfolding put valid_artifact_path split_path same utf16_length units
refused_path = refl

read-put_example : read a_digest after_put an_entry ≡ answer report
unfolding get
read-put_example =
    read-put a_digest "t1" (alongside (some report)) "out/report.txt" "report" report no_files
      after_put an_entry (λ other which e. elim which [ inl there ↦ cc | inr raced ↦ cc ])
      put_answers

put-Spares_example :
    Spares "t2" a_failure.failure after_put
      (put a_digest "t2" a_failure "out/log.txt" "log" (1 ∷ 2 ∷ []) after_put).0
put-Spares_example = put-Spares a_digest "t2" a_failure "out/log.txt" "log" (1 ∷ 2 ∷ []) after_put

verify_iff_example :
    (verify a_digest after_put (an_entry ∷ []) ≡ [])
    ↔ All (Intact a_digest after_put) (an_entry ∷ [])
verify_iff_example = verify_iff a_digest after_put (an_entry ∷ [])

-- A parser of two documents.
a_parser : String → Option Json
a_parser content =
    if same content format_text
    then some format
    else if same content "[]"
    then some (array nil)
    else none

reads_format : a_parser format_text ≡ some format
unfolding a_parser same
reads_format = refl

another_format :
    (initialize_artifact_store a_parser (some "[]")).1
    ≡ raised "Artifact store has an unsupported format"
unfolding initialize_artifact_store get_artifact_store_status written a_parser same
another_format = refl

abbrev no_marker : Option String
no_marker = none

initialize_artifact_store-open_store_example :
    let (after, told) = initialize_artifact_store a_parser no_marker in
    (is_some no_marker ≡ true → after ≡ no_marker)
    × (no_marker ≡ none → open_store a_parser after ≡ answer tt)
    × (((told ≡ answer initialized) × (open_store a_parser after ≡ answer tt))
        ⊎ ((told ≡ raised "Artifact store has an unsupported format")
            × (open_store a_parser after ≡ raised "Artifact store must be initialized before use")))
initialize_artifact_store-open_store_example =
    initialize_artifact_store-open_store a_parser reads_format no_marker

-- What a write that fails half-way leaves behind.
left_over :
    (put a_digest "t2" a_failure "out/log.txt" "log" (1 ∷ 2 ∷ []) no_files)
    ≡ (record { objects = []; temporaries = ("t2", 1 ∷ []) ∷ [] }, raised "ENOSPC")
unfolding put store_object create_object write_object leave_behind finish_put valid_artifact_path
    split_path same utf16_length units is_role is_digest object_name get set
left_over = refl
