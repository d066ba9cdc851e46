-- ===== src/Contracts/Views.antt =====
-- pkg/contracts/contracts.go: what the API shows. An error's details, which no handler sets, are left
-- out, and so is the environment of a deployment, which none shows.
use centralcloud_agent.Prelude.{Option, List, Bytes, ℤ}
use centralcloud_agent.Domain.Clock.{Time}
use centralcloud_agent.Contracts.{Resources, Database, Healthcheck}

pub record ErrorBody : Type 0 where
  pub code : Bytes
  pub message : Bytes
  pub correlation_id : Bytes

-- Operation; its result is the text of a JSON object.
pub record OperationView : Type 0 where
  pub id : Bytes
  pub deployment_id : Bytes
  pub typ : Bytes
  pub status : Bytes
  pub error : Option ErrorBody
  pub result : Option Bytes
  pub created_at : Time
  pub updated_at : Time

-- Deployment
pub record DeploymentView : Type 0 where
  pub deployment_id : Bytes
  pub project_id : Bytes
  pub hostname : Bytes
  pub aliases : List Bytes
  pub image : Bytes
  pub state : Bytes
  pub resources : Resources
  pub database : Database
  pub healthcheck : Healthcheck
  pub credentials_ref : Bytes
  pub failed_step : Bytes
  pub created_at : Time
  pub updated_at : Time

pub record HealthResponse : Type 0 where
  pub node_id : Bytes
  pub node_name : Bytes
  pub agent_version : Bytes
  pub protocol_version : Bytes
  pub commit : Bytes
  pub build_date : Bytes
  pub status : Bytes
  pub version : Bytes
  pub docker : Bytes
  pub postgres : Bytes
  pub database : Bytes
  pub capabilities : List Bytes

pub record ReadyResponse : Type 0 where
  pub node_id : Bytes
  pub node_name : Bytes
  pub agent_version : Bytes
  pub protocol_version : Bytes
  pub commit : Bytes
  pub build_date : Bytes
  pub status : Bytes

pub record ResourceResponse : Type 0 where
  pub node_id : Bytes
  pub cpu_count : ℤ
  pub memory_total_bytes : ℤ
  pub memory_available_bytes : ℤ
  pub disk_total_bytes : ℤ
  pub disk_available_bytes : ℤ
  pub deployment_count : ℤ
  pub active_deployment_count : ℤ

pub record LogPage : Type 0 where
  pub lines : List Bytes
  pub next_cursor : Bytes

-- The values that a handler hands to json.Marshal; a list stands under the key "deployments".
pub data View : Type 0 where
  error_view : ErrorBody → View
  operation_view : OperationView → View
  deployment_view : DeploymentView → View
  deployments_view : List DeploymentView → View
  health_view : HealthResponse → View
  ready_view : ReadyResponse → View
  resource_view : ResourceResponse → View
  log_view : LogPage → View
