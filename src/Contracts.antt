-- ===== src/Contracts.antt =====
-- pkg/contracts/contracts.go: the requests of the API and the answers to those that are queued.
pub mod Views
use centralcloud_agent.Prelude.{List, Bytes, ℤ}

-- A CPU limit is a number of billionths.
pub record Resources : Type 0 where
  pub memory_bytes : ℤ
  pub cpu_limit : ℤ

pub record Database : Type 0 where
  pub database_name : Bytes
  pub username : Bytes

pub record Healthcheck : Type 0 where
  pub path : Bytes
  pub timeout_seconds : ℤ

pub record Bootstrap : Type 0 where
  pub admin_name : Bytes
  pub admin_email : Bytes
  pub admin_password : Bytes
  pub internal_secret : Bytes

pub record CreateDeploymentRequest : Type 0 where
  pub deployment_id : Bytes
  pub project_id : Bytes
  pub hostname : Bytes
  pub aliases : List Bytes
  pub image : Bytes
  pub environment : List (Bytes × Bytes)
  pub resources : Resources
  pub database : Database
  pub healthcheck : Healthcheck
  pub bootstrap : Bootstrap

pub record UpgradeRequest : Type 0 where
  pub image : Bytes

pub record AdminResetRequest : Type 0 where
  pub admin_email : Bytes
  pub admin_password : Bytes

pub record AcceptedOperation : Type 0 where
  pub operation_id : Bytes
  pub deployment_id : Bytes
  pub status : Bytes

pub record AcceptedCreateOperation : Type 0 where
  pub accepted : AcceptedOperation
  pub aliases : List Bytes
