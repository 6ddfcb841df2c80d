-- ===== src/Guards/Evidence.antt =====
-- What an accepted verification proves: packages/kernel/src/domain.ts, `verification.complete`.
use parallelplay.Prelude.{ℕ, ◌≡◌, Bool, true, false, ◌||◌, none, some, get, same→eq, arith}
use parallelplay.Canonical.{Host}
use parallelplay.Evidence.{artifact_manifest_digest, verification_result_digest}
use parallelplay.Model.{ProjectionState, VerificationState, VerificationResult, Outcome}
use parallelplay.Decide.{
  Accepted, ok, >>=-eq-ok, fail_if, CompleteVerification, Verifying, VerificationLease,
  verification_complete, check_evidence, contradicts_evidence, outcome_contradicts,
  expected_receipt_digest, find_verifying, verifying, found, verification_not_found, job_not_found,
  outbox_not_found, verification_not_active, is_invalid_manifest, differs, is_zero,
  artifact_manifest_conflict, evidence_digest_mismatch,
}
use parallelplay.Lifecycle.Fencing.{fail_if-inv, found-inv}
use parallelplay.Lifecycle.Accepting.{Ensures, Ensures-inv, Ensures->>=, Ensures->>, Ensures-ok}

-- The evidence of a verification agrees with what it was computed from.
pub record Attested (host : Host) (p : CompleteVerification) (v : VerificationState) : Type 0 where
  manifest_agrees : p.result.artifact_manifest_digest ≡ artifact_manifest_digest host p.entries
  result_agrees : p.result_digest ≡ verification_result_digest host p.result
  receipt_agrees : p.receipt_digest ≡ expected_receipt_digest host p v
  consistent : contradicts_evidence host p.result ≡ false

-- A passed result: exit code zero, no reason of failure, nothing changed under the verifier.
pub record Clean (r : VerificationResult) : Type 0 where
  exited : r.exit_code ≡ some 0
  no_reason : r.failure_reason ≡ none
  source_kept : r.source_status_before_digest ≡ r.source_status_after_digest
  contract_kept : r.contract_digest_before ≡ r.contract_digest_after

check_evidence-Attested :
    (host : Host) (s : ProjectionState) (p : CompleteVerification) (v : VerificationState)
    → check_evidence host s p v ≡ ok tt
    → Attested host p v
unfolding check_evidence differs
check_evidence-Attested host s p v h =
    let (u, a, h1) =
      >>=-eq-ok
        (fail_if (is_invalid_manifest s p) artifact_manifest_conflict
          "Artifact manifest is invalid or reused")
        _ h in
    let (u', b, h2) =
      >>=-eq-ok
        (fail_if
          (differs p.result.artifact_manifest_digest (artifact_manifest_digest host p.entries)
            || differs p.result_digest (verification_result_digest host p.result)
            || differs p.receipt_digest (expected_receipt_digest host p v))
          evidence_digest_mismatch "Verification evidence digest is invalid")
        _ h1 in
    let agree = fail_if-inv _ _ _ u' b in
    let kept = fail_if-inv _ _ _ tt h2 in
    record {
      manifest_agrees = same→eq _ _ (ground arith);
      result_agrees = same→eq _ _ (ground arith);
      receipt_agrees = same→eq _ _ (ground arith);
      consistent = kept;
    }

contradicts_evidence-Clean :
    (host : Host) (r : VerificationResult)
    → r.outcome ≡ Outcome.passed
    → contradicts_evidence host r ≡ false
    → Clean r
unfolding contradicts_evidence outcome_contradicts differs is_zero
contradicts_evidence-Clean host r passed h =
    let h' = rw passed at h in
    record {
      exited = ground arith;
      no_reason = ground arith;
      source_kept = same→eq _ _ (ground arith);
      contract_kept = same→eq _ _ (ground arith);
    }

find_verifying-found :
    (s : ProjectionState) (p : VerificationLease) (timed : Bool) (now : ℕ)
    → Ensures
        (λ (x : Verifying). get p.verification_id s.verifications ≡ some x.verification)
        (find_verifying s p timed now)
unfolding find_verifying
find_verifying-found s p timed now =
    Ensures->>= _
      (found (get p.verification_id s.verifications) verification_not_found
        "Verification does not exist")
      _
      λ v e. Ensures->> _ _ _ (
        Ensures->>= _ (found (get p.job_id s.jobs) job_not_found "Job does not exist") _ λ j f.
          Ensures->> _ _ _ (
            Ensures->>= _
              (found (get p.outbox_id s.outbox) outbox_not_found
                "Verification outbox message does not exist")
              _
              λ o g. Ensures->> _ _ _ (
                Ensures->>= _
                  (found (verifying (get p.attempt_id s.attempts)) verification_not_active
                    "Verification is not active for this attempt")
                  _ λ a h. Ensures->> _ _ _ (Ensures-ok _ _ (found-inv _ _ _ v e)))))

-- A verification completes on evidence that agrees with what it was computed from: if the command
-- is accepted, its verification exists, its manifest, result and receipt digests are those of its
-- entries, its result and the verification's identity, and a result that reports success has exit
-- code 0, no reason of failure, and the same source status and contract before and after.
pub verification_complete-Attested :
    (host : Host) (s : ProjectionState) (p : CompleteVerification) (now : ℕ) (a : Accepted)
    → verification_complete host s p now ≡ ok a
    → (v : VerificationState) × (get p.verification_id s.verifications ≡ some v)
      × Attested host p v
      × (p.result.outcome ≡ Outcome.passed → Clean p.result)
unfolding verification_complete
verification_complete-Attested host s p now a h =
    let (x, e, h1) = >>=-eq-ok (find_verifying s p.lease true now) _ h in
    let (u, checked, h2) = >>=-eq-ok (check_evidence host s p x.verification) _ h1 in
    let attested = check_evidence-Attested host s p x.verification checked in
    (
      x.verification,
      Ensures-inv _ _ x (find_verifying-found s p.lease true now) e,
      attested,
      λ passed. contradicts_evidence-Clean host p.result passed attested.consistent,
    )
