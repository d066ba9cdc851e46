-- ===== src/Domain/Model.antt =====
-- internal/domain/model.go: deployments, operations, and the calls of the agent's collaborators.
use centralcloud_agent.Prelude.{List, Bytes, codes, ℤ}
use centralcloud_agent.Contracts.{CreateDeploymentRequest}
use centralcloud_agent.Domain.Clock.{Time}
use centralcloud_agent.Localstorage.Files.{SystemCall}
use centralcloud_agent.Postgres.Sql.{Query, Statement}
use centralcloud_agent.Domain.State.{State}

pub record Deployment : Type 0 where
  pub request : CreateDeploymentRequest
  pub state : State
  pub credentials_ref : Bytes
  pub encrypted_secret : Bytes
  pub encrypted_bootstrap : Bytes
  pub failed_step : Bytes
  pub created_at : Time
  pub updated_at : Time

-- The operation types of internal/deployment/service.go; `other` is any other text.
pub data OpType : Type 0 where
  op_create op_start op_stop op_restart op_upgrade : OpType
  op_delete_soft op_delete_purge op_admin_reset : OpType
  op_other : Bytes → OpType

unfoldable pub type_text : OpType → Bytes
type_text op_create = codes "create"
type_text op_start = codes "start"
type_text op_stop = codes "stop"
type_text op_restart = codes "restart"
type_text op_upgrade = codes "upgrade"
type_text op_delete_soft = codes "delete_soft"
type_text op_delete_purge = codes "delete_purge"
type_text op_admin_reset = codes "admin_reset"
type_text (op_other t) = t

pub data Status : Type 0 where
  queued running succeeded failed : Status

-- The text of the column that a status stands in.
unfoldable pub status_text : Status → Bytes
status_text queued = codes "queued"
status_text running = codes "running"
status_text succeeded = codes "succeeded"
status_text failed = codes "failed"

pub record Operation : Type 0 where
  pub id : Bytes
  pub deployment_id : Bytes
  pub typ : OpType
  pub status : Status
  pub error_code : Bytes
  pub error_message : Bytes
  pub payload : Bytes
  pub result : Bytes
  pub created_at : Time
  pub updated_at : Time

pub record ContainerSpec : Type 0 where
  pub deployment : CreateDeploymentRequest
  pub environment : List (Bytes × Bytes)
  pub secret_files : List (Bytes × Bytes)
  pub storage_directory : Bytes
  pub management_labels : List (Bytes × Bytes)
  pub traefik_labels : List (Bytes × Bytes)
  pub frontend_network : Bytes
  pub backend_network : Bytes
  pub user : Bytes
  pub pids_limit : ℤ

pub record DeploymentNetworks : Type 0 where
  pub frontend : Bytes
  pub backend : Bytes
  pub backend_gateway : Bytes

-- The gauges of internal/metrics/metrics.go that the API sets.
pub data Gauge : Type 0 where
  docker_health postgres_health deployments_total deployments_active : Gauge
  available_memory available_disk : Gauge

-- A call of DockerClient, PostgresProvisioner, HealthChecker, SecretStore, BackupManager,
-- DeploymentStorage, ResourceCollector or a gauge, with its arguments; or a call of the PostgreSQL
-- driver or of the operating system, which the implementation of PostgresProvisioner or of
-- DeploymentStorage makes.
pub data Call : Type 0 where
  ensure_deployment_networks : Bytes → Call
  remove_deployment_networks : Bytes → Call
  pull_image : Bytes → Call
  create_container : ContainerSpec → Call
  start_container : Bytes → Call
  stop_container : Bytes → ℤ → Call
  remove_container : Bytes → Call
  exec : Bytes → List Bytes → Call
  ensure_role_and_database : Bytes → Bytes → Bytes → Bytes → Call
  drop_role_and_database : Bytes → Bytes → Bytes → Call
  wait_healthy : Bytes → Bytes → ℤ → Call
  generate_secret : Call
  encrypt : Bytes → Call
  decrypt : Bytes → Call
  materialize_named : Bytes → Bytes → Bytes → Call
  remove_named : Bytes → Bytes → Call
  remove_secrets : Bytes → Call
  backup_create : Deployment → Bytes → DeploymentNetworks → Call
  backup_restore : Deployment → Bytes → Bytes → DeploymentNetworks → Call
  backup_prune : Bytes → ℤ → ℤ → Call
  backup_purge : Bytes → Call
  ensure_panel : Bytes → Call
  purge_panel : Bytes → Call
  collect_resources : Call
  ping_docker ping_postgres : Call
  read_logs : Bytes → Time → ℤ → Call
  set_gauge : Gauge → ℤ → Call
  pg_acquire pg_release : Call
  pg_query : Query → Call
  pg_exec : Statement → Call
  system : SystemCall → Call
