-- ===== src/Service/Submit.antt =====
-- internal/deployment/service.go: the requests that queue an operation.
use centralcloud_agent.Prelude.{
  ◌+◌, not, ◌||◌, Option, none, some, [], ◌++◌, ltb, if◌then◌else◌, Bytes, codes, length, is_empty,
  to_lower, contains_byte, pos, lt_int, le_int,
}
use centralcloud_agent.Errors.{
  Err, Result, ok, err, sentinel, plain, not_found, conflict, capacity, is_error,
}
use centralcloud_agent.Contracts.{CreateDeploymentRequest, UpgradeRequest, AdminResetRequest}
use centralcloud_agent.Domain.Clock.{Time}
use centralcloud_agent.Domain.State.{pending, deleted, failed, same_state}
use centralcloud_agent.Domain.Model.{
  Deployment, OpType, op_create, op_upgrade, op_admin_reset, op_delete_purge, collect_resources,
}
use centralcloud_agent.Domain.Validate.{validate_panel_image}
use centralcloud_agent.Domain.Create.{validate_create}
use centralcloud_agent.Storage.Deployments.{
  create_deployment, save_deployment, get_deployment, count_deployments,
}
use centralcloud_agent.Storage.Operations.{create_operation}
use centralcloud_agent.Storage.Keys.{create_purge_token, consume_purge_token, put_idempotency}
use centralcloud_agent.Service.{
  generate, encrypt_text, encrypt_permanent_secrets, hash_request, existing_idempotency, or_replay,
  new_operation, accepted, accepted_value, finish_submit, wrapping,
}
use centralcloud_agent.Runtime.{
  Act, pure, raise, asks, attempt, invoke_for, check, refuse_if, now, fresh_id, ◌>>=◌, ◌>>◌,
}

-- r.Bootstrap without its two secrets
unfoldable pub without_secrets : CreateDeploymentRequest → CreateDeploymentRequest
without_secrets r = record r {
  bootstrap = record r.bootstrap { admin_password = []; internal_secret = [] };
}

abbrev pub credentials_of : CreateDeploymentRequest → Bytes
credentials_of r = codes "cccred://deployment/" ++ (r.deployment_id ++ codes "/postgres")

-- The bootstrap of a request, encrypted.
unfoldable pub encrypt_bootstrap : CreateDeploymentRequest → Act Bytes
encrypt_bootstrap r = do
  pkg ← asks (λ env. env.packages)
  encrypt_text (pkg.marshal_bootstrap r.bootstrap)

-- Whether the node has room for one more deployment of this size.
unfoldable pub check_capacity : CreateDeploymentRequest → Act (Unit {0})
check_capacity r = do
  cfg ← asks (λ env. env.config)
  (n, _) ← count_deployments
  refuse_if (le_int cfg.limits.maximum_deployments (pos n)) (sentinel capacity)
  available ←
      wrapping (codes "collect node capacity")
        (invoke_for collect_resources (λ env n. (env.resources n).memory_available_bytes))
  refuse_if (lt_int available r.resources.memory_bytes) (sentinel capacity)

-- The case of a deployment that the database does not hold.
unfoldable pub create_fresh : CreateDeploymentRequest → Act (Unit {0})
unfolding without_secrets
create_fresh r = do
  check_capacity r
  secret ← generate
  enc ← encrypt_permanent_secrets secret r.bootstrap
  bootstrap ← encrypt_bootstrap r
  time ← now
  create_deployment (record {
    request = without_secrets r;
    state = pending;
    credentials_ref = credentials_of r;
    encrypted_secret = enc;
    encrypted_bootstrap = bootstrap;
    failed_step = [];
    created_at = time;
    updated_at = record { seconds = 0; nanos = 0 };
  })

-- The secret and its reference that a deployment keeps, or new ones.
unfoldable pub renew_secret : CreateDeploymentRequest → Deployment → Act Deployment
renew_secret r d = if not (is_empty d.encrypted_secret) then pure d else do
  secret ← generate
  enc ← encrypt_permanent_secrets secret r.bootstrap
  pure (record d { encrypted_secret = enc; credentials_ref = credentials_of r })

-- The case of a deployment that was deleted or has failed.
unfoldable pub create_again : CreateDeploymentRequest → Deployment → Act (Unit {0})
unfolding without_secrets
create_again r d = do
  d' ← renew_secret r d
  bootstrap ← encrypt_bootstrap r
  save_deployment (record d' {
    encrypted_bootstrap = bootstrap;
    request = without_secrets r;
    state = pending;
    failed_step = [];
  })

abbrev pub prepare : CreateDeploymentRequest → Result Deployment → Act (Unit {0})
prepare r (err e) = if is_error not_found e then create_fresh r else raise e
prepare r (ok d) =
    if same_state d.state deleted || same_state d.state failed
    then create_again r d
    else raise (sentinel conflict)

-- The body of SubmitCreate behind its validation and the replay of known keys.
unfoldable pub submit_new : CreateDeploymentRequest → Bytes → Bytes → Act Bytes
submit_new r key hash = do
  d ← attempt (get_deployment r.deployment_id)
  prepare r d
  id ← fresh_id
  create_operation (new_operation id r.deployment_id op_create [])
  pkg ← asks (λ env. env.packages)
  finish_submit key hash (
      pkg.marshal_accepted_create (record {
        accepted = accepted_value (new_operation id r.deployment_id op_create []);
        aliases = r.aliases;
      }))

unfoldable pub submit_create : CreateDeploymentRequest → Bytes → Bytes → Bytes → Bytes → Act Bytes
submit_create request key method path raw = do
  cfg ← asks (λ env. env.config)
  pkg ← asks (λ env. env.packages)
  check (validate_create pkg cfg request).1
  let hash = hash_request pkg method path raw
  seen ← existing_idempotency (to_lower key) hash
  or_replay seen (submit_new (validate_create pkg cfg request).0 (to_lower key) hash)

-- The end of Submit, SubmitAdminReset and SubmitPurge: queue the operation and answer.
unfoldable pub queue_operation : OpType → Bytes → Bytes → Bytes → Bytes → Act Bytes
queue_operation typ id payload key hash = do
  op_id ← fresh_id
  create_operation (new_operation op_id id typ payload)
  pkg ← asks (λ env. env.packages)
  finish_submit key hash (accepted pkg (new_operation op_id id typ payload))

unfoldable pub submit : OpType → Bytes → Bytes → Bytes → Bytes → Bytes → Act Bytes
submit typ id key method path payload = do
  pkg ← asks (λ env. env.packages)
  let hash = hash_request pkg method path payload
  seen ← existing_idempotency (to_lower key) hash
  or_replay seen (do get_deployment id; queue_operation typ id payload (to_lower key) hash)

unfoldable pub submit_upgrade : Bytes → Bytes → Bytes → Bytes → UpgradeRequest → Bytes → Act Bytes
submit_upgrade id key method path request raw = do
  cfg ← asks (λ env. env.config)
  pkg ← asks (λ env. env.packages)
  check (validate_panel_image pkg request.image cfg)
  submit op_upgrade id key method path raw

unfoldable pub reset_fault : AdminResetRequest → Option Err
reset_fault request =
    if not (contains_byte b'@' request.admin_email)
      || ltb (length request.admin_password) 12
      || ltb 4096 (length request.admin_password)
    then some
        (plain (codes "valid admin_email and a password of at least 12 characters are required"))
    else none

unfoldable pub submit_admin_reset :
    Bytes → Bytes → Bytes → Bytes → AdminResetRequest → Bytes → Act Bytes
submit_admin_reset id key method path request raw = do
  check (reset_fault request)
  pkg ← asks (λ env. env.packages)
  let hash = hash_request pkg method path raw
  seen ← existing_idempotency (to_lower key) hash
  or_replay seen (do
    get_deployment id
    encrypted ← encrypt_text raw
    queue_operation op_admin_reset id encrypted (to_lower key) hash)

-- time.Add(5 * time.Minute)
abbrev pub five_minutes_later : Time → Time
five_minutes_later t = record t { seconds = t.seconds + 300 }

unfoldable pub issue_purge_token : Bytes → Bytes → Bytes → Bytes → Act Bytes
issue_purge_token id key method path = do
  pkg ← asks (λ env. env.packages)
  let hash = hash_request pkg method path []
  seen ← existing_idempotency (to_lower key) hash
  or_replay seen (do
    get_deployment id
    token ← generate
    time ← now
    let expires = five_minutes_later time
    create_purge_token id (pkg.sha256 token) expires
    put_idempotency (to_lower key) hash (pkg.marshal_purge_token token expires)
    pure (pkg.marshal_purge_token token expires))

unfoldable pub submit_purge : Bytes → Bytes → Bytes → Bytes → Bytes → Act Bytes
submit_purge id key method path token = do
  pkg ← asks (λ env. env.packages)
  let hash = hash_request pkg method path []
  seen ← existing_idempotency (to_lower key) hash
  or_replay seen (do
    time ← now
    consumed ← consume_purge_token id (pkg.sha256 token) time
    refuse_if (not consumed) (plain (codes "invalid, expired, or consumed purge token"))
    queue_operation op_delete_purge id [] (to_lower key) hash)
