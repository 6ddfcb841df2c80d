-- ===== src/Evolve/Verifications.antt =====
-- The verification events of `evolve`, packages/kernel/src/model.ts, with the digest checks that a
-- recorded receipt passes.
use parallelplay.Prelude.{
  Bool, ◌&&◌, Option, none, some, Uuid, Map, get, set, amend, same, if◌then◌else◌,
}
use parallelplay.Canonical.{Host}
use parallelplay.Evidence.{
  verification_result_digest, verification_receipt_digest, receipt_identity,
}
use parallelplay.Model.{
  VerificationStatus, VerificationState, VerificationEvent, VerificationRequest,
  VerificationReceipt, ArtifactManifest, Outcome, Stamp, verification_requested,
  verification_receipt_recorded, verification_cancelled,
}

new_verification : Stamp → VerificationRequest → VerificationState
new_verification t d = record {
  request = d;
  artifact_manifest_id = none;
  status = VerificationStatus.requested;
  result = none;
  result_digest = none;
  receipt_digest = none;
  exit_code = none;
  failure_reason = none;
  requested_at = t.occurred_at;
  completed_at = none;
  version = t.stream_version;
}

outcome_status : Outcome → VerificationStatus
outcome_status Outcome.passed = VerificationStatus.passed
outcome_status Outcome.failed = VerificationStatus.failed
outcome_status Outcome.invalid = VerificationStatus.invalid

record_receipt : Stamp → VerificationReceipt → VerificationState → VerificationState
unfolding outcome_status
record_receipt t r v = record v {
  artifact_manifest_id = some r.artifact_manifest_id;
  status = outcome_status r.status;
  result = some r.result;
  result_digest = some r.result_digest;
  receipt_digest = some r.receipt_digest;
  exit_code = r.exit_code;
  failure_reason = r.failure_reason;
  completed_at = some t.occurred_at;
  version = t.stream_version;
}

amend_verification :
    Uuid
    → (VerificationState → VerificationState)
    → Map VerificationState
    → Option (Map VerificationState)
amend_verification = amend (λ v. v.verification_id)

receipt_is_bound : Host → VerificationReceipt → VerificationState → ArtifactManifest → Bool
receipt_is_bound host r v m =
    let result_digest = verification_result_digest host r.result in
    same result_digest r.result_digest
    && same r.result.artifact_manifest_digest m.manifest_digest
    && same
        (verification_receipt_digest host
          (receipt_identity v m.artifact_manifest_id m.manifest_digest result_digest))
        r.receipt_digest

evolve_receipt :
    Host
    → Stamp
    → VerificationReceipt
    → Option VerificationState
    → Option ArtifactManifest
    → Map VerificationState
    → Option (Map VerificationState)
unfolding receipt_is_bound record_receipt amend_verification
evolve_receipt host t r none m verifications = none
evolve_receipt host t r (some v) none verifications = none
evolve_receipt host t r (some v) (some m) verifications =
    if receipt_is_bound host r v m
    then some (set v.verification_id (record_receipt t r v) verifications)
    else none

unfoldable pub evolve_verification :
    Host
    → Map ArtifactManifest
    → Stamp
    → VerificationEvent
    → Map VerificationState
    → Option (Map VerificationState)
unfolding new_verification amend_verification evolve_receipt
evolve_verification host manifests t (verification_requested d) verifications =
    some (set d.verification_id (new_verification t d) verifications)
evolve_verification host manifests t (verification_receipt_recorded r) verifications =
    evolve_receipt host t r (get r.verification_id verifications)
      (get r.artifact_manifest_id manifests) verifications
evolve_verification host manifests t (verification_cancelled verification_id run_id reason)
      verifications =
    amend_verification verification_id
      (λ v. record v {
        status = VerificationStatus.cancelled;
        failure_reason = some reason;
        completed_at = some t.occurred_at;
        version = t.stream_version;
      })
      verifications
