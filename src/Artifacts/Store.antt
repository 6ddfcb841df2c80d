-- ===== src/Artifacts/Store.antt =====
-- `FileArtifactStore` of packages/runtime/src/artifact-store.ts, as a function on the files under
-- the store's root. The hash of bytes is a parameter; another process may put an object in place
-- while `put` writes its own, and the writing of its temporary file may fail at any point.
use parallelplay.Prelude.{
  remove, ℕ, not, ◌||◌, Option, none, some, List, [], ◌∷◌, ◌++◌, String, Map, get, set, has, length,
  same, join, ltb, ◌==◌, if◌then◌else◌,
}
use parallelplay.Model.{ArtifactEntry}
pub use parallelplay.Prelude.Answers.{Answer, answer, raised}
use parallelplay.Artifacts.Names.{valid_artifact_path, is_digest, is_role, object_name}

abbrev pub Bytes : Type 0
Bytes = List ℕ

-- The objects under sha256/, and the temporary files that objects are linked from.
pub record Files : Type 0 where
  pub objects : Map Bytes
  pub temporaries : Map Bytes

-- How the writing of the temporary file fails, other than by its name being taken: before the file is
-- there, or with these bytes written.
pub record WriteFailure : Type 0 where
  pub message : String
  pub left_behind : Option Bytes

-- What happens outside the process: a failure to write the temporary file, and what another process
-- puts in the object's place before it is linked.
pub record Surroundings : Type 0 where
  pub failure : Option WriteFailure
  pub raced : Option Bytes

unfoldable pub leave_behind : String → Option Bytes → Map Bytes → Map Bytes
leave_behind temporary none temporaries = temporaries
leave_behind temporary (some bytes) temporaries = set temporary bytes temporaries

module _ (digest : Bytes → String) where
  -- `linkSync(temporary, destination)` and its `catch`: where the object has come into being
  -- meanwhile, it must be what was to be written.
  unfoldable pub link_object :
      String → String → Bytes → Option Bytes → Map Bytes → Map Bytes × Answer (Unit {0})
  link_object destination sha256 bytes none objects = (set destination bytes objects, answer tt)
  link_object destination sha256 bytes (some other) objects = (
    set destination other objects,
    if same (digest other) sha256 then answer tt else raised "Artifact CAS object is corrupt",
  )

  -- The temporary file is written, linked, and unlinked in any case; but where the writing itself
  -- fails, which is before the `try`, nothing is unlinked.
  unfoldable pub write_object :
      String
      → String
      → String
      → Bytes
      → Option Bytes
      → Files
      → Option WriteFailure
      → Files × Answer (Unit {0})
  unfolding link_object remove leave_behind
  write_object temporary destination sha256 bytes raced f (some failure) = (
    record f { temporaries = leave_behind temporary failure.left_behind f.temporaries },
    raised failure.message,
  )
  write_object temporary destination sha256 bytes raced f none =
      let written = set temporary bytes f.temporaries in
      let (objects, result) = link_object destination sha256 bytes raced f.objects in
      (record { objects = objects; temporaries = remove temporary written }, result)

  -- A new object, with a temporary file of a fresh name.
  unfoldable pub create_object :
      String → String → String → Bytes → Surroundings → Files → Files × Answer (Unit {0})
  unfolding write_object
  create_object temporary destination sha256 bytes around f =
      if has temporary f.temporaries
      then (f, raised "EEXIST")
      else write_object temporary destination sha256 bytes around.raced f around.failure

  unfoldable pub store_object :
      String → String → Bytes → Surroundings → Files → Option Bytes → Files × Answer (Unit {0})
  unfolding create_object
  store_object temporary sha256 bytes around f (some existing) = (
    f,
    if same (digest existing) sha256 then answer tt else raised "Artifact CAS object is corrupt",
  )
  store_object temporary sha256 bytes around f none =
      create_object temporary (object_name sha256) sha256 bytes around f

  unfoldable pub finish_put :
      ArtifactEntry → Files × Answer (Unit {0}) → Files × Answer ArtifactEntry
  finish_put entry (f, answer u) = (f, answer entry)
  finish_put entry (f, raised message) = (f, raised message)

  -- `put`, with the name of the temporary file, and what happens around it.
  unfoldable pub put :
      String → Surroundings → String → String → Bytes → Files → Files × Answer ArtifactEntry
  unfolding store_object finish_put
  put temporary around path role bytes f =
      let sha256 = digest bytes in
      if not (valid_artifact_path path)
      then (f, raised "Artifact path must be normalized and relative")
      else if not (is_role role)
      then (f, raised "Invalid artifact role")
      else if ltb 268435456 (length bytes)
      then (f, raised "Artifact exceeds 256 MiB")
      else if not (is_digest sha256)
      then (f, raised "Invalid artifact SHA-256 digest")
      else finish_put (record { path = path; role = role; size = length bytes; sha256 = sha256 })
          (store_object temporary sha256 bytes around f (get (object_name sha256) f.objects))

  unfoldable pub check_object : ArtifactEntry → Option Bytes → List String
  check_object entry none = join entry.path ": missing" ∷ []
  check_object entry (some bytes) =
      if not (length bytes == entry.size) || not (same (digest bytes) entry.sha256)
      then join entry.path ": digest mismatch" ∷ []
      else []

  -- What one entry adds to the failures.
  unfoldable pub check_entry : Files → ArtifactEntry → List String
  unfolding check_object
  check_entry f entry =
      if not (valid_artifact_path entry.path) || not (is_digest entry.sha256)
      then join entry.path ": invalid manifest entry" ∷ []
      else check_object entry (get (object_name entry.sha256) f.objects)

  -- The failures of `verify`; it is valid when there are none.
  unfoldable pub verify : Files → List ArtifactEntry → List String
  unfolding check_entry
  verify f [] = []
  verify f (entry ∷ entries) = check_entry f entry ++ verify f entries

  join_failures : List String → String
  join_failures [] = ""
  join_failures (x ∷ []) = x
  join_failures (x ∷ y ∷ xs) = join x (join "; " (join_failures (y ∷ xs)))

  unfoldable pub read_object : Option Bytes → Answer Bytes
  read_object none = raised "ENOENT"
  read_object (some bytes) = answer bytes

  unfoldable pub read_checked : Files → ArtifactEntry → List String → Answer Bytes
  unfolding read_object join_failures
  read_checked f entry [] = read_object (get (object_name entry.sha256) f.objects)
  read_checked f entry (x ∷ xs) = raised (join_failures (x ∷ xs))

  unfoldable pub read : Files → ArtifactEntry → Answer Bytes
  unfolding verify read_checked
  read f entry = read_checked f entry (verify f (entry ∷ []))
