-- ===== src/Kernel/Payloads.antt =====
-- What `loadEvents` of packages/kernel/src/projections.ts reads a stored payload as: the schema of its
-- event, in `EventPayloadSchemas` of packages/kernel/src/schema.ts, trims free texts and refuses
-- those of a wrong length. Identifiers, digests, numbers and the documents of contracts are taken to
-- be valid, as the schema of the command has found them.
use parallelplay.Prelude.{
  ℕ, ◌||◌, Option, none, some, String, same, trim, utf16_length, ltb, if◌then◌else◌, ◌>>=◌,
}
use parallelplay.Canonical.{Host, canonical_digest}
use parallelplay.Model.{
  DomainEvent, RunEvent, AttemptEvent, JobEvent, OutboxEvent, VerificationEvent, run_event,
  attempt_event, job_event, outbox_event, verification_event, workflow_registered, program_created,
  run_failed, run_cancelled, attempt_cancelled, attempt_running, attempt_finished,
  job_retry_scheduled, job_failed, job_cancelled, outbox_delivery_failed, outbox_delivered,
  outbox_obsoleted, verification_receipt_recorded, verification_cancelled,
}

-- `z.string().max(max)`
unfoldable pub parse_short : ℕ → String → Option String
parse_short max text = if ltb max (utf16_length text) then none else some text

-- `z.string().min(1).max(max)`
unfoldable pub parse_given : ℕ → String → Option String
unfolding parse_short
parse_given max text = if same text "" then none else parse_short max text

-- `NonEmptyText.max(max)`
unfoldable pub parse_text : ℕ → String → Option String
unfolding parse_given
parse_text max text = parse_given max (trim text)

-- `z.enum([one, other])`
unfoldable pub parse_enum : String → String → String → Option String
parse_enum one other text = if same text one || same text other then some text else none

unfoldable pub parse_optional : (String → Option String) → Option String → Option (Option String)
parse_optional parse none = some none
parse_optional parse (some text) = do found ← parse text; some (some found)

unfoldable pub parse_run : RunEvent → Option RunEvent
unfolding parse_text
parse_run (run_failed id reason) = do found ← parse_text 1000 reason; some (run_failed id found)
parse_run (run_cancelled id reason) = do
  found ← parse_text 1000 reason
  some (run_cancelled id found)
parse_run e = some e

unfoldable pub parse_attempt : AttemptEvent → Option AttemptEvent
unfolding parse_text parse_short parse_optional
parse_attempt (attempt_cancelled id r reason) = do
  found ← parse_text 1000 reason
  some (attempt_cancelled id r found)
parse_attempt (attempt_running id j r external) = do
  found ← parse_text 500 external
  some (attempt_running id j r found)
parse_attempt (attempt_finished id j r status reason detail) = do
  found ← parse_optional (parse_short 1000) detail
  some (attempt_finished id j r status reason found)
parse_attempt e = some e

unfoldable pub parse_job : JobEvent → Option JobEvent
unfolding parse_text parse_enum
parse_job (job_retry_scheduled id r at reason) = do
  found ← parse_enum "driver_error" "timed_out" reason
  some (job_retry_scheduled id r at found)
parse_job (job_failed id r reason) = do found ← parse_text 1000 reason; some (job_failed id r found)
parse_job (job_cancelled id r reason) = do
  found ← parse_enum "operator_cancelled" "run_failed" reason
  some (job_cancelled id r found)
parse_job e = some e

unfoldable pub parse_outbox : OutboxEvent → Option OutboxEvent
unfolding parse_text
parse_outbox (outbox_delivery_failed id r at dead error) = do
  found ← parse_text 1000 error
  some (outbox_delivery_failed id r at dead found)
parse_outbox (outbox_delivered id r external) = do
  found ← parse_text 500 external
  some (outbox_delivered id r found)
parse_outbox (outbox_obsoleted id r reason) = do
  found ← parse_text 1000 reason
  some (outbox_obsoleted id r found)
parse_outbox e = some e

unfoldable pub parse_verification : VerificationEvent → Option VerificationEvent
unfolding parse_text parse_given parse_optional
parse_verification (verification_receipt_recorded v) = do
  found ← parse_optional (parse_given 1000) v.failure_reason
  some (verification_receipt_recorded (record v { failure_reason = found }))
parse_verification (verification_cancelled id r reason) = do
  found ← parse_text 1000 reason
  some (verification_cancelled id r found)
parse_verification e = some e

-- The payload that `loadEvents` makes of a stored one, with its check of a workflow's digest; `none`
-- where it throws.
unfoldable pub parse_payload : Host → DomainEvent → Option DomainEvent
unfolding parse_run parse_attempt parse_job parse_outbox parse_verification parse_text
parse_payload host (run_event e) = do found ← parse_run e; some (run_event found)
parse_payload host (attempt_event e) = do found ← parse_attempt e; some (attempt_event found)
parse_payload host (job_event e) = do found ← parse_job e; some (job_event found)
parse_payload host (outbox_event e) = do found ← parse_outbox e; some (outbox_event found)
parse_payload host (verification_event e) = do
  found ← parse_verification e
  some (verification_event found)
parse_payload host (program_created id name) = do
  found ← parse_text 160 name
  some (program_created id found)
parse_payload host (workflow_registered d digest) =
    if same (canonical_digest host d.document) digest
    then some (workflow_registered d digest)
    else none
parse_payload host e = some e
