-- ===== src/Examples/Secrets.antt =====
-- Examples on the secrets of the environment: a secret issued and consumed, refused to another consumer
-- and to another run, expired, and revoked.
use parallelplay.Prelude.{
  ◌≡◌, refl, ℕ, ◌+◌, ◌<◌, some, [], ◌∷◌, String, Map, get, set, remove, join, same, get_or, arith,
}
use mathlib.Core.List.{Memᴰ}
use parallelplay.Prelude.Answers.{answer, raised}
use parallelplay.Secrets.Provider.{
  Provider, SecretHandle, open_provider, issue_handle, issue_value, issue_at, consume,
  consume_found, revoke, secret_value, unavailable,
}
use parallelplay.Secrets.Handles.{Request, issue, consume-issue}
use parallelplay.Secrets.Issued.{Reached, opened, issued, consume-Issued}

abbrev variables : Map String
variables = ("TOKEN", "hunter2") ∷ ("EMPTY", "") ∷ []

abbrev opened_provider : Provider
opened_provider = record { environment = variables; default_ttl_ms = 1000; handles = [] }

opening : open_provider variables (some 1000) ≡ answer opened_provider
unfolding open_provider
opening = refl

too_short :
    open_provider variables (some 999)
    ≡ raised "Secret handle TTL must be between 1 second and 24 hours"
unfolding open_provider
too_short = refl

abbrev a_request : Request
a_request = record {
  reference = record { name = "TOKEN"; purpose = "push"; allowed_consumer = "git" };
  run_id = "run";
  time = some 500;
  random = "1";
}

abbrev a_handle : SecretHandle
a_handle = record {
  handle_id = "secret-1";
  expires_at = 1500;
  purpose = "push";
  allowed_consumer = "git";
}

abbrev holding : Provider
holding = record opened_provider {
  handles =
      (
        "secret-1",
        record {
          value = "hunter2";
          expires_at = 1500;
          purpose = "push";
          allowed_consumer = "git";
          run_id = "run";
        },
      )
      ∷ [];
}

issuing : issue a_request opened_provider ≡ (holding, answer a_handle)
unfolding issue_handle issue_value issue_at secret_value get set join same
issuing = refl

unset :
    (issue_handle (record a_request.reference { name = "EMPTY" }) "run" (some 0) "2" holding).1
    ≡ raised "Required environment secret EMPTY is unavailable"
unfolding issue_handle issue_value secret_value unavailable get join same
unset = refl

consuming : consume "secret-1" "git" "run" 1499 holding ≡ (holding, answer "hunter2")
unfolding consume consume_found get same
consuming = refl

another_run :
    consume "secret-1" "git" "other" 600 holding
    ≡ (holding, raised "Secret handle consumer or run binding does not match")
unfolding consume consume_found get same
another_run = refl

too_late :
    consume "secret-1" "git" "run" 1500 holding
    ≡ (opened_provider, raised "Secret handle has expired")
unfolding consume consume_found get same remove
too_late = refl

after_revoke :
    consume "secret-1" "git" "run" 600 (revoke "secret-1" holding)
    ≡ (opened_provider, raised "Secret handle is unknown or revoked")
unfolding consume consume_found get same remove revoke
after_revoke = refl

holding-Reached : Reached variables (some 1000) (a_request ∷ []) holding
unfolding issue_handle issue_value issue_at secret_value get set join same
holding-Reached = issued [] opened_provider a_request (opened opened_provider opening)

consume-Issued_example :
    (r : Request) × Memᴰ r (a_request ∷ [])
    × (join "secret-" r.random ≡ "secret-1")
    × (r.reference.allowed_consumer ≡ "git")
    × (r.run_id ≡ "run")
    × (secret_value (get r.reference.name variables) ≡ some "hunter2")
    × ((start : ℕ) × (r.time ≡ some start) × (1499 < start + get_or (some 1000) 900000))
consume-Issued_example =
    consume-Issued variables (some 1000) (a_request ∷ []) holding holding-Reached "secret-1" "git"
      "run" 1499 "hunter2" (λ i. (consuming i).1)

consume-issue_example :
    (value : String) × (get a_request.reference.name opened_provider.environment ≡ some value)
    × (consume "secret-1" "git" "run" 1499 holding ≡ (holding, answer value))
consume-issue_example =
    consume-issue opened_provider holding a_request a_handle 1499 issuing (omega arith)
