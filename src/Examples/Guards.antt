-- ===== src/Examples/Guards.antt =====
-- Examples on the guards: a verification that passes, a second version of a workflow.
use parallelplay.Prelude.{◌<◌, ◌≡◌, refl, none, some, [], ◌∷◌, get, same}
use mathlib.Core.List.{Memᴰ}
use parallelplay.Canonical.{Json, canonical_digest}
use parallelplay.Evolve.{workflow_key}
use parallelplay.Evidence.{
  artifact_manifest_digest, verification_result_digest, verification_receipt_digest,
  receipt_identity,
}
use parallelplay.Model.{
  ProjectionState, JobState, VerificationState, VerificationStatus, OutboxState, OutboxStatus,
  AttemptStatus, Outcome, verification_run,
}
use parallelplay.Decide.{
  Accepted, ok, ResultKind, workflow_register, next_version, versions_of, largest, expected_version,
  CompleteVerification, verification_complete, completion_events, expected_receipt_digest,
  check_evidence, find_verifying, is_invalid_manifest, differs, contradicts_evidence,
  outcome_contradicts, is_zero, validate_job_lease, validate_outbox_lease, verifying,
}
use parallelplay.Model.{workflow_registered}
use parallelplay.Guards.Evidence.{Attested, Clean, verification_complete-Attested}
use parallelplay.Guards.Versions.{workflow_register-newer}
use parallelplay.Examples.Setting.{
  plain_host, ready_state, state_with, last_try, an_attempt, a_workflow, a_definition,
}

abbrev registered : Accepted
registered = record {
  events = workflow_registered (a_definition 2) "digest" ∷ [];
  result_kind = ResultKind.workflow;
  result_id = workflow_key "workflow" 2;
}

accepted_version : workflow_register plain_host ready_state (a_definition 2) ≡ ok registered
unfolding workflow_register next_version versions_of largest expected_version canonical_digest same
accepted_version = refl

workflow_register-newer_example : 1 < 2
workflow_register-newer_example =
    workflow_register-newer plain_host ready_state (a_definition 2) registered a_workflow
      accepted_version (Memᴰ.head refl) refl

abbrev a_verification : VerificationState
a_verification = record {
  request = record {
    verification_id = "verification";
    run_id = "run";
    job_id = "job";
    attempt_id = "attempt";
    workflow_id = "workflow";
    workflow_version = 1;
    workflow_digest = "digest";
    source_revision_id = "revision";
    verifier_contract_digest = "digest";
  };
  artifact_manifest_id = none;
  status = VerificationStatus.requested;
  result = none;
  result_digest = none;
  receipt_digest = none;
  exit_code = none;
  failure_reason = none;
  requested_at = 3000;
  completed_at = none;
  version = 1;
}

abbrev a_message : OutboxState
a_message = record {
  outbox_id = "outbox";
  run_id = "run";
  job_id = "job";
  attempt_id = "attempt";
  effect_key = "outbox";
  effect = verification_run (record {
    verification_id = "verification";
    source_revision_id = "revision";
    workflow_id = "workflow";
    workflow_version = 1;
    workflow_digest = "digest";
    verifier_contract = record { timeout_ms = 1000; document = Json.null };
    verifier_contract_digest = "digest";
    attempt_id = "attempt";
    job_id = "job";
    run_id = "run";
  });
  status = OutboxStatus.leased;
  delivery_attempts = 1;
  retry_delays_ms = [];
  available_at = 3000;
  lease_owner_id = some "owner";
  lease_fencing_token = 1;
  lease_acquired_at = some 3000;
  lease_expires_at = some 50000;
  external_effect_id = none;
  created_at = 3000;
  delivered_at = none;
  last_error = none;
  version = 2;
}

-- The job's attempt waits for the verifier, which holds both leases.
abbrev verified_job : JobState
verified_job = record last_try { lease_owner_id = some "owner"; lease_expires_at = some 50000 }

abbrev verifying_state : ProjectionState
verifying_state =
    record (state_with verified_job
      (("attempt", record an_attempt { status = AttemptStatus.verifying }) ∷ [])) {
        verifications = ("verification", a_verification) ∷ [];
        outbox = ("outbox", a_message) ∷ [];
      }

abbrev a_completion : CompleteVerification
a_completion = record {
  lease = record {
    verification_id = "verification";
    outbox_id = "outbox";
    job_id = "job";
    attempt_id = "attempt";
    owner_id = "owner";
    job_fencing_token = 4;
    outbox_fencing_token = 1;
  };
  artifact_manifest_id = "manifest";
  result = record {
    outcome = Outcome.passed;
    exit_code = some 0;
    failure_reason = none;
    environment_digest = "digest";
    source_status_before_digest = "digest";
    source_status_after_digest = "digest";
    contract_digest_before = "digest";
    contract_digest_after = "digest";
    artifact_manifest_digest = "digest";
  };
  result_digest = "digest";
  receipt_digest = "digest";
  entries = record { path = "report.txt"; role = "report"; size = 12; sha256 = "digest" } ∷ [];
}

abbrev completed : Accepted
completed = record {
  events =
      completion_events plain_host verifying_state a_completion
        (record {
          verification = a_verification;
          job = verified_job;
          outbox = a_message;
          attempt = record an_attempt { status = AttemptStatus.verifying };
        })
        (expected_receipt_digest plain_host a_completion a_verification);
  result_kind = ResultKind.verification;
  result_id = "verification";
}

accepted_completion :
    verification_complete plain_host verifying_state a_completion 5000 ≡ ok completed
unfolding verification_complete check_evidence find_verifying is_invalid_manifest differs
    contradicts_evidence outcome_contradicts is_zero expected_receipt_digest
    artifact_manifest_digest verification_result_digest verification_receipt_digest receipt_identity
    canonical_digest validate_job_lease validate_outbox_lease get same verifying
accepted_completion = refl

verification_complete-Attested_example :
    (v : VerificationState) × (get "verification" verifying_state.verifications ≡ some v)
    × Attested plain_host a_completion v
    × (a_completion.result.outcome ≡ Outcome.passed → Clean a_completion.result)
verification_complete-Attested_example =
    verification_complete-Attested plain_host verifying_state a_completion 5000 completed
      accepted_completion
