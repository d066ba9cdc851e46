-- ===== src/Service.antt =====
-- internal/deployment/service.go: the deployment service. This file holds what its handlers share.
pub mod Container
pub mod Submit
pub mod Lifecycle
pub mod Upgrade
pub mod Process
pub mod Keeps
pub mod Recorded
pub mod Safe
pub mod Refused
pub mod Server
use centralcloud_agent.Prelude.{
  ℕ, Bool, true, false, Option, none, some, List, [], ◌∷◌, ◌++◌, if◌then◌else◌, not, Bytes, codes,
  same, is_empty,
}
use centralcloud_agent.Errors.{Err, Result, ok, err, sentinel, conflict, wrap, message}
use centralcloud_agent.Contracts.{Bootstrap, AcceptedOperation}
use centralcloud_agent.Packages.{Packages, PermanentSecrets}
use centralcloud_agent.Domain.Clock.{Time}
use centralcloud_agent.Domain.State.{State, same_state, can_transition}
use centralcloud_agent.Domain.Model.{
  Call, Deployment, Operation, OpType, queued, encrypt, decrypt, generate_secret,
}
use centralcloud_agent.Storage.Tables.{IdempotencyRow}
use centralcloud_agent.Storage.Deployments.{update_state}
use centralcloud_agent.Storage.Operations.{record_step}
use centralcloud_agent.Storage.Keys.{get_idempotency, put_idempotency}
use centralcloud_agent.Runtime.{
  Env, Act, pure, raise, lift, asks, attempt, ignore, invoke_for, signal, ◌>>=◌, ◌>>◌,
}

-- s.secrets.Generate, Encrypt and Decrypt
unfoldable pub generate : Act Bytes
generate = invoke_for generate_secret (λ env. env.secret)

unfoldable pub encrypt_text : Bytes → Act Bytes
encrypt_text v = invoke_for (encrypt v) (λ env n. env.ciphertext n v)

unfoldable pub decrypt_text : Bytes → Act Bytes
decrypt_text v = invoke_for (decrypt v) (λ env n. env.plaintext n v)

unfoldable pub permanent_secrets : Packages → Bytes → Bootstrap → PermanentSecrets
permanent_secrets pkg password b = record {
  database_password = password;
  app_key = codes "base64:" ++ pkg.base64 (pkg.sha256 (password ++ b.internal_secret));
  internal_secret = b.internal_secret;
}

unfoldable pub encrypt_permanent_secrets : Bytes → Bootstrap → Act Bytes
unfolding permanent_secrets
encrypt_permanent_secrets password b = do
  pkg ← asks (λ env. env.packages)
  encrypt_text (pkg.marshal_secrets (permanent_secrets pkg password b))

abbrev bare_password : Bytes → PermanentSecrets
bare_password value = record { database_password = value; app_key = []; internal_secret = [] }

-- A bundle, or the bare password of a state written before bundles.
unfoldable pub read_bundle : Bytes → Option PermanentSecrets → PermanentSecrets
read_bundle value none = bare_password value
read_bundle value (some b) = if is_empty b.database_password then bare_password value else b

unfoldable pub decrypt_permanent_secrets : Bytes → Act PermanentSecrets
unfolding read_bundle
decrypt_permanent_secrets encrypted = do
  pkg ← asks (λ env. env.packages)
  value ← decrypt_text encrypted
  pure (read_bundle value (pkg.unmarshal_secrets value))

unfoldable pub hash_request : Packages → Bytes → Bytes → Bytes → Bytes
hash_request pkg method path body =
    pkg.hex (pkg.sha256 (method ++ (codes "\n" ++ (path ++ (codes "\n" ++ (body ++ codes "\n"))))))

abbrev pub replay : Bytes → Option IdempotencyRow → Act (Option Bytes)
replay hash none = pure none
replay hash (some row) =
    if same row.request_hash hash then pure (some row.response) else raise (sentinel conflict)

-- The stored response of a key; a key that was used for another request is a conflict.
unfoldable pub existing_idempotency : Bytes → Bytes → Act (Option Bytes)
existing_idempotency key hash = do row ← get_idempotency key; replay hash row

-- `if b, ok, e := s.existingIdempotency(...); e != nil || ok { return b, e }`
abbrev pub or_replay : Option Bytes → Act Bytes → Act Bytes
or_replay (some b) rest = pure b
or_replay none rest = rest

abbrev pub never : Time
never = record { seconds = 0; nanos = 0 }

-- domain.Operation{ID: id, DeploymentID: deployment, Type: typ, Payload: payload}
abbrev pub new_operation : Bytes → Bytes → OpType → Bytes → Operation
new_operation id deployment typ payload = record {
  id = id;
  deployment_id = deployment;
  typ = typ;
  status = queued;
  error_code = [];
  error_message = [];
  payload = payload;
  result = [];
  created_at = never;
  updated_at = never;
}

abbrev pub accepted_value : Operation → AcceptedOperation
accepted_value o = record {
  operation_id = o.id;
  deployment_id = o.deployment_id;
  status = codes "queued";
}

unfoldable pub accepted : Packages → Operation → Bytes
accepted pkg o = pkg.marshal_accepted (accepted_value o)

-- The end of each submission: record the response under its key, and wake a worker.
unfoldable pub finish_submit : Bytes → Bytes → Bytes → Act Bytes
finish_submit key hash response = do
  r ← attempt (put_idempotency key hash response)
  signal
  lift r
  pure response

abbrev pub settle_step : {A : Type 0} → Operation → Bytes → Result A → Act A
settle_step o name (ok a) = do record_step o.id name (codes "succeeded") []; pure a
settle_step o name (err e) = do
  redact ← asks (λ env. env.redact)
  ignore (record_step o.id name (codes "failed") (redact (message e)))
  raise (wrap name e)

unfoldable pub step : {A : Type 0} → Operation → Bytes → Act A → Act A
step o name fn = do
  ignore (record_step o.id name (codes "running") [])
  r ← attempt fn
  settle_step o name r

-- The deployment in memory follows the one in the database.
unfoldable pub transition : Deployment → State → Act Deployment
transition d to =
    if same_state d.state to
    then pure d
    else if not (can_transition d.state to)
    then pure d
    else do update_state d.request.deployment_id to []; pure (record d { state = to })

abbrev pub wrapped : {A : Type 0} → Bytes → Result A → Act A
wrapped name (ok a) = pure a
wrapped name (err e) = raise (wrap name e)

-- `if e != nil { return fmt.Errorf("name: %w", e) }`
unfoldable pub wrapping : {A : Type 0} → Bytes → Act A → Act A
wrapping name m = do r ← attempt m; wrapped name r
