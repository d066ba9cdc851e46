-- ===== src/Config.antt =====
-- internal/config/config.go: the configuration record. A duration is a number of nanoseconds, and a
-- float64 (a CPU limit, a rate) is a number of billionths.
pub mod Defaults
pub mod Validate
use centralcloud_agent.Prelude.{Bool, List, Bytes, ℤ}

pub record NodeConfig : Type 0 where
  pub id : Bytes
  pub name : Bytes

pub record ServerConfig : Type 0 where
  pub address : Bytes
  pub read_timeout : ℤ
  pub write_timeout : ℤ
  pub idle_timeout : ℤ
  pub operation_timeout : ℤ
  pub max_request_bytes : ℤ
  pub rate_per_second : ℤ
  pub rate_burst : ℤ

pub record SecurityConfig : Type 0 where
  pub mode : Bytes
  pub certificate_file : Bytes
  pub private_key_file : Bytes
  pub client_ca_file : Bytes
  pub token_file : Bytes
  pub token_sha256_file : Bytes
  pub behind_reverse_proxy : Bool
  pub master_key_file : Bytes
  pub allowed_client_sans : List Bytes
  pub allowed_source_cidrs : List Bytes
  pub timestamp_skew : ℤ

pub record DockerConfig : Type 0 where
  pub socket : Bytes
  pub frontend_network : Bytes
  pub egress_network : Bytes
  pub panel_image_repository : Bytes
  pub require_image_digest : Bool
  pub panel_user : Bytes
  pub pids_limit : ℤ
  pub registry_username_file : Bytes
  pub registry_token_file : Bytes

pub record PostgresConfig : Type 0 where
  pub host : Bytes
  pub port : ℤ
  pub administrator_database : Bytes
  pub administrator_username : Bytes
  pub administrator_password_file : Bytes
  pub backup_image : Bytes
  pub panel_host : Bytes

pub record TraefikConfig : Type 0 where
  pub container_name : Bytes
  pub domain_suffix : Bytes
  pub entrypoint : Bytes
  pub certificate_resolver : Bytes

pub record LimitsConfig : Type 0 where
  pub maximum_deployments : ℤ
  pub default_memory_bytes : ℤ
  pub default_cpu_limit : ℤ
  pub maximum_concurrent_operations : ℤ

pub record PanelConfig : Type 0 where
  pub install_command : List Bytes
  pub migration_command : List Bytes
  pub admin_reset_command : List Bytes
  pub allowed_environment_keys : List Bytes

pub record StorageConfig : Type 0 where
  pub database_file : Bytes
  pub runtime_directory : Bytes
  pub backup_directory : Bytes
  pub panel_directory : Bytes

pub record Config : Type 0 where
  pub node : NodeConfig
  pub server : ServerConfig
  pub security : SecurityConfig
  pub docker : DockerConfig
  pub postgres : PostgresConfig
  pub traefik : TraefikConfig
  pub limits : LimitsConfig
  pub panel : PanelConfig
  pub storage : StorageConfig
