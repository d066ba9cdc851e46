-- ===== src/Service/Keeps/Submissions.antt =====
-- The submissions of internal/deployment/service.go keep what the repository keeps.
use centralcloud_agent.Prelude.{Bytes}
use centralcloud_agent.Errors.{Result, ok, err}
use centralcloud_agent.Contracts.{CreateDeploymentRequest, UpgradeRequest, AdminResetRequest}
use centralcloud_agent.Domain.Model.{Deployment, OpType}
use centralcloud_agent.Storage.Tables.{Tables}
use centralcloud_agent.Service.Submit.{
  encrypt_bootstrap, check_capacity, create_fresh, renew_secret, create_again, prepare, submit_new,
  submit_create, queue_operation, submit, submit_upgrade, submit_admin_reset, issue_purge_token,
  submit_purge,
}
use centralcloud_agent.Runtime.{Act}
use centralcloud_agent.Runtime.Keeps.{Keeps, OnTables}
use centralcloud_agent.Storage.Invariant.{StorageKeeps}
use centralcloud_agent.Service.Keeps.{shared_kept}

module _ {Q : Tables → Type 0} (laws : StorageKeeps Q) where
  abbrev Kept : {A : Type 0} → Act A → Type 0
  Kept m = Keeps (OnTables Q) m

  encrypt_bootstrap-Kept : (r : CreateDeploymentRequest) → Kept (encrypt_bootstrap r)
  unfolding encrypt_bootstrap
  encrypt_bootstrap-Kept r = search shared_kept

  check_capacity-Kept : (r : CreateDeploymentRequest) → Kept (check_capacity r)
  unfolding check_capacity
  check_capacity-Kept r = search shared_kept depth 9

  create_fresh-Kept : (r : CreateDeploymentRequest) → Kept (create_fresh r)
  unfolding create_fresh
  create_fresh-Kept r = search (shared_kept, encrypt_bootstrap-Kept, check_capacity-Kept) depth 9

  renew_secret-Kept : (r : CreateDeploymentRequest) (d : Deployment) → Kept (renew_secret r d)
  unfolding renew_secret
  renew_secret-Kept r d = search shared_kept depth 9

  create_again-Kept : (r : CreateDeploymentRequest) (d : Deployment) → Kept (create_again r d)
  unfolding create_again
  create_again-Kept r d = search (shared_kept, encrypt_bootstrap-Kept, renew_secret-Kept)

  prepare-Kept : (r : CreateDeploymentRequest) (d : Result Deployment) → Kept (prepare r d)
  prepare-Kept r (ok d) = search (shared_kept, create_again-Kept)
  prepare-Kept r (err e) = search (shared_kept, create_fresh-Kept)

  submit_new-Kept : (r : CreateDeploymentRequest) (key hash : Bytes) → Kept (submit_new r key hash)
  unfolding submit_new
  submit_new-Kept r key hash = search (shared_kept, prepare-Kept) depth 9

  pub submit_create-Kept :
      (r : CreateDeploymentRequest) (key method path raw : Bytes)
      → Kept (submit_create r key method path raw)
  unfolding submit_create
  submit_create-Kept r key method path raw = search (shared_kept, submit_new-Kept) depth 9

  queue_operation-Kept :
      (typ : OpType) (id payload key hash : Bytes) → Kept (queue_operation typ id payload key hash)
  unfolding queue_operation
  queue_operation-Kept typ id payload key hash = search shared_kept depth 9

  pub submit-Kept :
      (typ : OpType) (id key method path payload : Bytes)
      → Kept (submit typ id key method path payload)
  unfolding submit
  submit-Kept typ id key method path payload = search (shared_kept, queue_operation-Kept) depth 9

  pub submit_upgrade-Kept :
      (id key method path : Bytes) (request : UpgradeRequest) (raw : Bytes)
      → Kept (submit_upgrade id key method path request raw)
  unfolding submit_upgrade
  submit_upgrade-Kept id key method path request raw = search (shared_kept, submit-Kept) depth 9

  pub submit_admin_reset-Kept :
      (id key method path : Bytes) (request : AdminResetRequest) (raw : Bytes)
      → Kept (submit_admin_reset id key method path request raw)
  unfolding submit_admin_reset
  submit_admin_reset-Kept id key method path request raw =
      search (shared_kept, queue_operation-Kept) depth 9

  pub issue_purge_token-Kept :
      (id key method path : Bytes) → Kept (issue_purge_token id key method path)
  unfolding issue_purge_token
  issue_purge_token-Kept id key method path = search shared_kept depth 12

  pub submit_purge-Kept :
      (id key method path token : Bytes) → Kept (submit_purge id key method path token)
  unfolding submit_purge
  submit_purge-Kept id key method path token = search (shared_kept, queue_operation-Kept) depth 9
