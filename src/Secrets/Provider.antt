-- ===== src/Secrets/Provider.antt =====
-- `EnvironmentSecretProvider` of packages/runtime/src/secret-provider.ts. Instants are milliseconds:
-- the code's texts, in UTC
-- and of one width from 1970 to 9999, are ordered alike.
use parallelplay.Prelude.{
  ℕ, ◌+◌, [], not, ◌||◌, Option, none, some, String, Map, get, set, remove, get_or, same, join, ltb,
  leb, if◌then◌else◌,
}
use parallelplay.Prelude.Answers.{Answer, answer, raised}

-- SecretReferenceV1
pub record SecretReference : Type 0 where
  pub name : String
  pub purpose : String
  pub allowed_consumer : String

-- StoredSecretHandle
pub record StoredHandle : Type 0 where
  pub value : String
  pub expires_at : ℕ
  pub purpose : String
  pub allowed_consumer : String
  pub run_id : String

-- SecretHandleV1
pub record SecretHandle : Type 0 where
  pub handle_id : String
  pub expires_at : ℕ
  pub purpose : String
  pub allowed_consumer : String

pub record Provider : Type 0 where
  pub environment : Map String
  pub default_ttl_ms : ℕ
  pub handles : Map StoredHandle

-- The constructor; a lifetime that is not given is of 15 minutes.
unfoldable pub open_provider : Map String → Option ℕ → Answer Provider
open_provider environment ttl =
    let ms = get_or ttl 900000 in
    if ltb ms 1000 || ltb 86400000 ms
    then raised "Secret handle TTL must be between 1 second and 24 hours"
    else answer (record { environment = environment; default_ttl_ms = ms; handles = [] })

unfoldable pub unavailable : SecretReference → String
unavailable reference = join "Required environment secret " (join reference.name " is unavailable")

-- A variable that is not set, or empty, is unavailable.
unfoldable pub secret_value : Option String → Option String
secret_value none = none
secret_value (some v) = if same v "" then none else some v

unfoldable pub issue_at :
    Provider
    → SecretReference
    → String
    → String
    → String
    → Option ℕ
    → Provider × Answer SecretHandle
issue_at p reference run_id handle_id value none = (p, raised "Secret handle time is invalid")
issue_at p reference run_id handle_id value (some now) = (
  record p {
    handles =
        set handle_id
          (record {
            value = value;
            expires_at = now + p.default_ttl_ms;
            purpose = reference.purpose;
            allowed_consumer = reference.allowed_consumer;
            run_id = run_id;
          })
          p.handles;
  },
  answer (record {
    handle_id = handle_id;
    expires_at = now + p.default_ttl_ms;
    purpose = reference.purpose;
    allowed_consumer = reference.allowed_consumer;
  }),
)

unfoldable pub issue_value :
    Provider
    → SecretReference
    → String
    → String
    → Option ℕ
    → Option String
    → Provider × Answer SecretHandle
unfolding unavailable issue_at
issue_value p reference run_id handle_id now none = (p, raised (unavailable reference))
issue_value p reference run_id handle_id now (some value) =
    issue_at p reference run_id handle_id value now

-- `issueHandle`, with the text of the random bytes that it draws; the time of the context is `none`
-- where its text is no date.
unfoldable pub issue_handle :
    SecretReference → String → Option ℕ → String → Provider → Provider × Answer SecretHandle
unfolding issue_value secret_value
issue_handle reference run_id now random p =
    issue_value p reference run_id (join "secret-" random) now
      (secret_value (get reference.name p.environment))

unfoldable pub consume_found :
    String → String → String → ℕ → Provider → Option StoredHandle → Provider × Answer String
consume_found handle_id consumer run_id now p none =
    (p, raised "Secret handle is unknown or revoked")
consume_found handle_id consumer run_id now p (some h) =
    if not (same h.allowed_consumer consumer) || not (same h.run_id run_id)
    then (p, raised "Secret handle consumer or run binding does not match")
    else if leb h.expires_at now
    then (record p { handles = remove handle_id p.handles }, raised "Secret handle has expired")
    else (p, answer h.value)

unfoldable pub consume : String → String → String → ℕ → Provider → Provider × Answer String
unfolding consume_found
consume handle_id consumer run_id now p =
    consume_found handle_id consumer run_id now p (get handle_id p.handles)

unfoldable pub revoke : String → Provider → Provider
revoke handle_id p = record p { handles = remove handle_id p.handles }
