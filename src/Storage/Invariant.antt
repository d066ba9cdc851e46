-- ===== src/Storage/Invariant.antt =====
-- What it takes for a predicate on the tables to be an invariant of internal/storage/sqlite.go.
use centralcloud_agent.Prelude.{Bytes}
use centralcloud_agent.Domain.Clock.{Time}
use centralcloud_agent.Domain.State.{State}
use centralcloud_agent.Domain.Model.{Deployment, Operation}
use centralcloud_agent.Storage.Tables.{Tables}
use centralcloud_agent.Storage.Deployments.{
  create_deployment, save_deployment, get_deployment, update_state, count_deployments,
}
use centralcloud_agent.Storage.Operations.{
  create_operation, claim_operation, complete_operation, complete_purge, fail_operation,
  record_step, requeue_running,
}
use centralcloud_agent.Storage.Keys.{
  get_idempotency, put_idempotency, create_purge_token, consume_purge_token,
}
use centralcloud_agent.Runtime.Keeps.{Keeps, OnTables}

-- The methods of the repository that the service calls keep `Q`.
pub record StorageKeeps (Q : Tables → Type 0) : Type 0 where
  pub create_operation_kept : (o : Operation) → Keeps (OnTables Q) (create_operation o)
  pub create_deployment_kept : (d : Deployment) → Keeps (OnTables Q) (create_deployment d)
  pub save_deployment_kept : (d : Deployment) → Keeps (OnTables Q) (save_deployment d)
  pub get_deployment_kept : (id : Bytes) → Keeps (OnTables Q) (get_deployment id)
  pub count_deployments_kept : Keeps (OnTables Q) count_deployments
  pub update_state_kept :
      (id : Bytes) (to : State) (step : Bytes) → Keeps (OnTables Q) (update_state id to step)
  pub claim_operation_kept : Keeps (OnTables Q) claim_operation
  pub complete_operation_kept : (id r : Bytes) → Keeps (OnTables Q) (complete_operation id r)
  pub complete_purge_kept : (op id r : Bytes) → Keeps (OnTables Q) (complete_purge op id r)
  pub fail_operation_kept : (id c t : Bytes) → Keeps (OnTables Q) (fail_operation id c t)
  pub record_step_kept : (id s t d : Bytes) → Keeps (OnTables Q) (record_step id s t d)
  pub get_idempotency_kept : (key : Bytes) → Keeps (OnTables Q) (get_idempotency key)
  pub put_idempotency_kept : (key h r : Bytes) → Keeps (OnTables Q) (put_idempotency key h r)
  pub create_purge_token_kept :
      (id h : Bytes) (t : Time) → Keeps (OnTables Q) (create_purge_token id h t)
  pub consume_purge_token_kept :
      (id h : Bytes) (t : Time) → Keeps (OnTables Q) (consume_purge_token id h t)
  pub requeue_running_kept : Keeps (OnTables Q) requeue_running
