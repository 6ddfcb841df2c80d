-- ===== src/Evolve/Outbox.antt =====
-- The outbox events of `evolve`, packages/kernel/src/model.ts.
use parallelplay.Prelude.{ℕ, Option, none, some, List, Uuid, Map, set, amend, get_or, if◌then◌else◌}
use parallelplay.Model.{
  OutboxStatus, OutboxState, OutboxEvent, OutboxEffect, Stamp, outbox_enqueued,
  outbox_lease_acquired, outbox_delivery_failed, outbox_delivered, outbox_obsoleted,
}

new_outbox : Uuid → Uuid → Uuid → Uuid → Uuid → OutboxEffect → List ℕ → Stamp → OutboxState
new_outbox outbox_id run_id job_id attempt_id effect_key effect retry_delays_ms t = record {
  outbox_id = outbox_id;
  run_id = run_id;
  job_id = job_id;
  attempt_id = attempt_id;
  effect_key = effect_key;
  effect = effect;
  status = OutboxStatus.pending;
  delivery_attempts = 0;
  retry_delays_ms = retry_delays_ms;
  available_at = t.occurred_at;
  lease_owner_id = none;
  lease_fencing_token = 0;
  lease_acquired_at = none;
  lease_expires_at = none;
  external_effect_id = none;
  created_at = t.occurred_at;
  delivered_at = none;
  last_error = none;
  version = t.stream_version;
}

amend_outbox : Uuid → (OutboxState → OutboxState) → Map OutboxState → Option (Map OutboxState)
amend_outbox = amend (λ o. o.outbox_id)

unfoldable pub evolve_outbox : Stamp → OutboxEvent → Map OutboxState → Option (Map OutboxState)
unfolding new_outbox amend_outbox
evolve_outbox t
      (outbox_enqueued outbox_id run_id job_id attempt_id effect_key effect retry_delays_ms)
      outbox =
    some (
      set outbox_id
        (new_outbox outbox_id run_id job_id attempt_id effect_key effect retry_delays_ms t) outbox)
evolve_outbox t
      (outbox_lease_acquired outbox_id run_id owner_id fencing_token lease_expires_at
        delivery_attempt)
      outbox =
    amend_outbox outbox_id
      (λ o. record o {
        status = OutboxStatus.leased;
        delivery_attempts = delivery_attempt;
        lease_owner_id = some owner_id;
        lease_fencing_token = fencing_token;
        lease_acquired_at = some t.occurred_at;
        lease_expires_at = some lease_expires_at;
        version = t.stream_version;
      })
      outbox
evolve_outbox t (outbox_delivery_failed outbox_id run_id available_at dead_letter error) outbox =
    amend_outbox outbox_id
      (λ o. record o {
        status = if dead_letter then OutboxStatus.dead_letter else OutboxStatus.pending;
        available_at = get_or available_at o.available_at;
        lease_owner_id = none;
        lease_acquired_at = none;
        lease_expires_at = none;
        last_error = some error;
        version = t.stream_version;
      })
      outbox
evolve_outbox t (outbox_delivered outbox_id run_id external_effect_id) outbox =
    amend_outbox outbox_id
      (λ o. record o {
        status = OutboxStatus.delivered;
        external_effect_id = some external_effect_id;
        delivered_at = some t.occurred_at;
        lease_owner_id = none;
        lease_acquired_at = none;
        lease_expires_at = none;
        last_error = none;
        version = t.stream_version;
      })
      outbox
evolve_outbox t (outbox_obsoleted outbox_id run_id reason) outbox =
    amend_outbox outbox_id
      (λ o. record o {
        status = OutboxStatus.obsolete;
        lease_owner_id = none;
        lease_acquired_at = none;
        lease_expires_at = none;
        last_error = some reason;
        version = t.stream_version;
      })
      outbox
