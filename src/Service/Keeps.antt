-- ===== src/Service/Keeps.antt =====
-- An invariant of the tables that the methods of internal/storage/sqlite.go keep is kept by what
-- the handlers and workers of internal/deployment/service.go share.
pub mod Submissions
pub mod Work
use centralcloud_agent.Prelude.{Bool, true, false, Option, none, some, List, [], ◌∷◌, Bytes}
use centralcloud_agent.Errors.{Err, Result, ok, err}
use centralcloud_agent.Contracts.{
  CreateDeploymentRequest, UpgradeRequest, AdminResetRequest, Bootstrap,
}
use centralcloud_agent.Packages.{PermanentSecrets}
use centralcloud_agent.Domain.State.{State}
use centralcloud_agent.Domain.Model.{
  Deployment, Operation, OpType, DeploymentNetworks, op_create, op_start, op_stop, op_restart,
  op_upgrade, op_delete_soft, op_delete_purge, op_admin_reset, op_other,
}
use centralcloud_agent.Storage.Tables.{Tables, IdempotencyRow}
use centralcloud_agent.Storage.Deployments.{
  create_deployment, save_deployment, get_deployment, update_state, count_deployments,
}
use centralcloud_agent.Storage.Operations.{
  create_operation, claim_operation, complete_operation, complete_purge, fail_operation,
  record_step,
}
use centralcloud_agent.Storage.Keys.{
  get_idempotency, put_idempotency, create_purge_token, consume_purge_token,
}
use centralcloud_agent.Domain.Clock.{Time}
use centralcloud_agent.Service.{
  generate, encrypt_text, decrypt_text, encrypt_permanent_secrets, decrypt_permanent_secrets,
  existing_idempotency, replay, or_replay, finish_submit, settle_step, step, transition, wrapped,
  wrapping,
}
use centralcloud_agent.Runtime.{Act, ◌>>=◌, ◌>>◌}
use centralcloud_agent.Runtime.Keeps.{
  Keeps, OnTables, Keeps-if, Keeps-pure, Keeps-raise, Keeps-check, Keeps-attempt, Keeps-bind,
  tables_rules,
}
use centralcloud_agent.Storage.Invariant.{StorageKeeps}

module _ {Q : Tables → Type 0} (laws : StorageKeeps Q) where
  abbrev pub Kept : {A : Type 0} → Act A → Type 0
  Kept m = Keeps (OnTables Q) m

  pub create_operation-Kept : (o : Operation) → Kept (create_operation o)
  create_operation-Kept o = laws.create_operation_kept o

  pub create_deployment-Kept : (d : Deployment) → Kept (create_deployment d)
  create_deployment-Kept d = laws.create_deployment_kept d

  pub save_deployment-Kept : (d : Deployment) → Kept (save_deployment d)
  save_deployment-Kept d = laws.save_deployment_kept d

  pub get_deployment-Kept : (id : Bytes) → Kept (get_deployment id)
  get_deployment-Kept id = laws.get_deployment_kept id

  pub count_deployments-Kept : Kept count_deployments
  count_deployments-Kept = laws.count_deployments_kept

  pub update_state-Kept : (id : Bytes) (to : State) (step : Bytes) → Kept (update_state id to step)
  update_state-Kept id to step = laws.update_state_kept id to step

  pub claim_operation-Kept : Kept claim_operation
  claim_operation-Kept = laws.claim_operation_kept

  pub complete_operation-Kept : (id r : Bytes) → Kept (complete_operation id r)
  complete_operation-Kept id r = laws.complete_operation_kept id r

  pub complete_purge-Kept : (op id r : Bytes) → Kept (complete_purge op id r)
  complete_purge-Kept op id r = laws.complete_purge_kept op id r

  pub fail_operation-Kept : (id c t : Bytes) → Kept (fail_operation id c t)
  fail_operation-Kept id c t = laws.fail_operation_kept id c t

  pub record_step-Kept : (id s t d : Bytes) → Kept (record_step id s t d)
  record_step-Kept id s t d = laws.record_step_kept id s t d

  pub get_idempotency-Kept : (key : Bytes) → Kept (get_idempotency key)
  get_idempotency-Kept key = laws.get_idempotency_kept key

  pub put_idempotency-Kept : (key h r : Bytes) → Kept (put_idempotency key h r)
  put_idempotency-Kept key h r = laws.put_idempotency_kept key h r

  pub create_purge_token-Kept : (id h : Bytes) (t : Time) → Kept (create_purge_token id h t)
  create_purge_token-Kept id h t = laws.create_purge_token_kept id h t

  pub consume_purge_token-Kept : (id h : Bytes) (t : Time) → Kept (consume_purge_token id h t)
  consume_purge_token-Kept id h t = laws.consume_purge_token_kept id h t

  pub ruleset storage_kept = (
    tables_rules, create_operation-Kept, create_deployment-Kept, save_deployment-Kept,
    get_deployment-Kept, count_deployments-Kept, update_state-Kept, claim_operation-Kept,
    complete_operation-Kept, complete_purge-Kept, fail_operation-Kept, record_step-Kept,
    get_idempotency-Kept, put_idempotency-Kept, create_purge_token-Kept, consume_purge_token-Kept,
  )

  pub generate-Kept : Kept generate
  unfolding generate
  generate-Kept = search tables_rules

  pub encrypt_text-Kept : (v : Bytes) → Kept (encrypt_text v)
  unfolding encrypt_text
  encrypt_text-Kept v = search tables_rules

  pub decrypt_text-Kept : (v : Bytes) → Kept (decrypt_text v)
  unfolding decrypt_text
  decrypt_text-Kept v = search tables_rules

  pub encrypt_permanent_secrets-Kept :
      (p : Bytes) (b : Bootstrap) → Kept (encrypt_permanent_secrets p b)
  unfolding encrypt_permanent_secrets
  encrypt_permanent_secrets-Kept p b = search (tables_rules, encrypt_text-Kept)

  pub decrypt_permanent_secrets-Kept : (v : Bytes) → Kept (decrypt_permanent_secrets v)
  unfolding decrypt_permanent_secrets
  decrypt_permanent_secrets-Kept v = search (tables_rules, decrypt_text-Kept)

  pub replay-Kept : (hash : Bytes) (row : Option IdempotencyRow) → Kept (replay hash row)
  replay-Kept hash none = search tables_rules
  replay-Kept hash (some row) = search tables_rules

  pub existing_idempotency-Kept : (key hash : Bytes) → Kept (existing_idempotency key hash)
  unfolding existing_idempotency
  existing_idempotency-Kept key hash = search (storage_kept, replay-Kept)

  pub or_replay-Kept : (o : Option Bytes) (m : Act Bytes) → Kept m → Kept (or_replay o m)
  or_replay-Kept none m k = k
  or_replay-Kept (some b) m k = search tables_rules

  pub finish_submit-Kept : (key hash response : Bytes) → Kept (finish_submit key hash response)
  unfolding finish_submit
  finish_submit-Kept key hash response = search storage_kept

  pub settle_step-Kept :
      {A : Type 0} (o : Operation) (name : Bytes) (r : Result A) → Kept (settle_step o name r)
  settle_step-Kept o name (ok a) = search storage_kept
  settle_step-Kept o name (err e) = search storage_kept

  pub step-Kept :
      {A : Type 0} (o : Operation) (name : Bytes) (m : Act A) → Kept m → Kept (step o name m)
  unfolding step
  step-Kept o name m k = search (storage_kept, settle_step-Kept)

  pub transition-Kept : (d : Deployment) (to : State) → Kept (transition d to)
  unfolding transition
  transition-Kept d to = search storage_kept

  pub wrapped-Kept : {A : Type 0} (name : Bytes) (r : Result A) → Kept (wrapped name r)
  wrapped-Kept name (ok a) = search tables_rules
  wrapped-Kept name (err e) = search tables_rules

  pub wrapping-Kept : {A : Type 0} (name : Bytes) (m : Act A) → Kept m → Kept (wrapping name m)
  unfolding wrapping
  wrapping-Kept name m k = Keeps-bind _ _ (Keeps-attempt m k) (wrapped-Kept name)

  pub ruleset shared_kept = (
    storage_kept, generate-Kept, encrypt_text-Kept, decrypt_text-Kept,
    encrypt_permanent_secrets-Kept, decrypt_permanent_secrets-Kept, existing_idempotency-Kept,
    or_replay-Kept, finish_submit-Kept, step-Kept, transition-Kept, wrapping-Kept,
  )
