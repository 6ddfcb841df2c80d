-- ===== src/Evidence.antt =====
-- packages/kernel/src/evidence.ts: the documents whose canonical digests bind evidence to what it
-- is about. `{ schemaVersion: 1, ...value }` is an object with the members of `value`.
use parallelplay.Prelude.{ℕ, Option, none, some, List, [], ◌∷◌, if◌then◌else◌, String, Uuid}
use parallelplay.Canonical.{
  Host, Json, null, number, text, array, object, Items, nil, item, end, field, text_order,
  canonical_digest,
}
use parallelplay.Model.{
  ObjectFormat, SourceRevision, ArtifactEntry, VerificationResult, VerificationState, Outcome,
}

object_format_text : ObjectFormat → String
object_format_text ObjectFormat.sha1 = "sha1"
object_format_text ObjectFormat.sha256 = "sha256"

outcome_text : Outcome → String
outcome_text Outcome.passed = "passed"
outcome_text Outcome.failed = "failed"
outcome_text Outcome.invalid = "invalid"

text_or_null : Option String → Json
text_or_null none = null
text_or_null (some s) = text s

number_or_null : Option ℕ → Json
number_or_null none = null
number_or_null (some n) = number n

-- `sourceRevisionDigest({ repositoryId, objectFormat, commitOid, treeOid })` of a revision.
pub source_revision_digest : Host → SourceRevision → String
source_revision_digest host r = canonical_digest host (
    object (
      field "schemaVersion" (number 1) (
        field "repositoryId" (text r.repository_id) (
          field "objectFormat" (text (object_format_text r.object_format))
            (field "commitOid" (text r.commit_oid) (field "treeOid" (text r.tree_oid) end))))))

insert_entry : ArtifactEntry → List ArtifactEntry → List ArtifactEntry
insert_entry e [] = e ∷ []
insert_entry e (f ∷ rest) =
    if text_order e.path f.path then e ∷ f ∷ rest else f ∷ insert_entry e rest

-- Entries in the order of their paths.
pub canonical_artifact_entries : List ArtifactEntry → List ArtifactEntry
unfolding insert_entry
canonical_artifact_entries [] = []
canonical_artifact_entries (e ∷ rest) = insert_entry e (canonical_artifact_entries rest)

entry_document : ArtifactEntry → Json
entry_document e = object (
    field "path" (text e.path) (
      field "role" (text e.role)
        (field "size" (number e.size) (field "sha256" (text e.sha256) end))))

entry_documents : List ArtifactEntry → Items
unfolding entry_document
entry_documents [] = nil
entry_documents (e ∷ rest) = item (entry_document e) (entry_documents rest)

unfoldable pub artifact_manifest_digest : Host → List ArtifactEntry → String
unfolding entry_documents
artifact_manifest_digest host entries = canonical_digest host (
    object (
      field "schemaVersion" (number 1)
        (field "entries" (array (entry_documents (canonical_artifact_entries entries))) end)))

unfoldable pub verification_result_digest : Host → VerificationResult → String
unfolding outcome_text number_or_null text_or_null
verification_result_digest host r = canonical_digest host (
    object (
      field "schemaVersion" (number 1) (
        field "outcome" (text (outcome_text r.outcome)) (
          field "exitCode" (number_or_null r.exit_code) (
            field "failureReason" (text_or_null r.failure_reason) (
              field "environmentDigest" (text r.environment_digest) (
                field "sourceStatusBeforeDigest" (text r.source_status_before_digest) (
                  field "sourceStatusAfterDigest" (text r.source_status_after_digest) (
                    field "contractDigestBefore" (text r.contract_digest_before) (
                      field "contractDigestAfter" (text r.contract_digest_after) (
                        field "artifactManifestDigest" (text r.artifact_manifest_digest)
                          end)))))))))))

-- `VerificationReceiptIdentity`
pub record ReceiptIdentity : Type 0 where
  pub verification_id : Uuid
  pub run_id : Uuid
  pub job_id : Uuid
  pub attempt_id : Uuid
  pub workflow_id : Uuid
  pub workflow_version : ℕ
  pub workflow_digest : String
  pub source_revision_id : Uuid
  pub verifier_contract_digest : String
  pub artifact_manifest_id : Uuid
  pub artifact_manifest_digest : String
  pub result_digest : String

unfoldable pub verification_receipt_digest : Host → ReceiptIdentity → String
verification_receipt_digest host v = canonical_digest host (
    object (
      field "schemaVersion" (number 1) (
        field "verificationId" (text v.verification_id) (
          field "runId" (text v.run_id) (
            field "jobId" (text v.job_id) (
              field "attemptId" (text v.attempt_id) (
                field "workflowId" (text v.workflow_id) (
                  field "workflowVersion" (number v.workflow_version) (
                    field "workflowDigest" (text v.workflow_digest) (
                      field "sourceRevisionId" (text v.source_revision_id) (
                        field "verifierContractDigest" (text v.verifier_contract_digest) (
                          field "artifactManifestId" (text v.artifact_manifest_id) (
                            field "artifactManifestDigest" (text v.artifact_manifest_digest)
                              (field "resultDigest" (text v.result_digest) end))))))))))))))

unfoldable pub receipt_identity : VerificationState → Uuid → String → String → ReceiptIdentity
receipt_identity v artifact_manifest_id artifact_digest result_digest = record {
  verification_id = v.verification_id;
  run_id = v.run_id;
  job_id = v.job_id;
  attempt_id = v.attempt_id;
  workflow_id = v.workflow_id;
  workflow_version = v.workflow_version;
  workflow_digest = v.workflow_digest;
  source_revision_id = v.source_revision_id;
  verifier_contract_digest = v.verifier_contract_digest;
  artifact_manifest_id = artifact_manifest_id;
  artifact_manifest_digest = artifact_digest;
  result_digest = result_digest;
}
