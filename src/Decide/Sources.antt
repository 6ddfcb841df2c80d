-- ===== src/Decide/Sources.antt =====
-- `source-revision.register` of `decide`, packages/kernel/src/domain.ts.
use Prim.Native.String.{len}
use parallelplay.Prelude.{Bool, not, ◌||◌, Option, none, some, [], ◌∷◌, get, same, ◌==◌}
use parallelplay.Canonical.{Host}
use parallelplay.Evidence.{source_revision_digest}
use parallelplay.Model.{ProjectionState, SourceRevision, ObjectFormat, source_revision_registered}
use parallelplay.Decide.Answers.{
  Result, Decision, ok, failure, ◌>>◌, fail_if, accept, source_revision,
  source_revision_already_exists, source_revision_conflict, evidence_digest_mismatch,
}

fresh_revision : SourceRevision → Option SourceRevision → Result (Unit {0})
fresh_revision value none = ok tt
fresh_revision value (some existing) = elim (same existing.revision_digest value.revision_digest) [
  | Bool.true ↦ failure source_revision_already_exists "Source revision identifier already exists"
  | Bool.false ↦ failure source_revision_conflict "Source revision identifier already exists"
]

-- The object identifiers are hexadecimal, so that a character is a byte.
has_wrong_length : SourceRevision → Bool
has_wrong_length value = elim value.object_format [
  | ObjectFormat.sha1 ↦ not (len value.commit_oid == 40) || not (len value.tree_oid == 40)
  | ObjectFormat.sha256 ↦ not (len value.commit_oid == 64) || not (len value.tree_oid == 64)
]

unfoldable pub check_revision : Host → ProjectionState → SourceRevision → Result (Unit {0})
unfolding fresh_revision has_wrong_length
check_revision host state value = do
  fresh_revision value (get value.revision_id state.source_revisions)
  fail_if (not (same value.revision_digest (source_revision_digest host value)))
      evidence_digest_mismatch "Source revision digest is invalid"
  fail_if (has_wrong_length value) source_revision_conflict
      "Git object IDs do not match object format"

unfoldable pub source_revision_register : Host → ProjectionState → SourceRevision → Decision
source_revision_register host state value = do
  check_revision host state value
  accept (source_revision_registered value ∷ []) source_revision value.revision_id
