-- ===== src/Config/Defaults.antt =====
-- Defaults of internal/config/config.go. Fields that it does not set keep Go's zero values.
use centralcloud_agent.Prelude.{false, [], ◌∷◌, codes, pos, seconds}
use centralcloud_agent.Config.{Config}

abbrev pub defaults : Config
defaults = record {
  node = record { id = []; name = [] };
  server = record {
    address = codes "127.0.0.1:9443";
    read_timeout = seconds (pos 30);
    write_timeout = seconds (pos 30);
    idle_timeout = seconds (pos 60);
    operation_timeout = seconds (pos 600);
    max_request_bytes = pos 1048576;
    rate_per_second = pos 10000000000;
    rate_burst = pos 20;
  };
  security = record {
    mode = codes "mtls";
    certificate_file = [];
    private_key_file = [];
    client_ca_file = [];
    token_file = [];
    token_sha256_file = [];
    behind_reverse_proxy = false;
    master_key_file = [];
    allowed_client_sans = [];
    allowed_source_cidrs = [];
    timestamp_skew = seconds (pos 300);
  };
  docker = record {
    socket = codes "unix:///var/run/docker.sock";
    frontend_network = codes "centralcloud_frontend";
    egress_network = codes "centralcloud_egress";
    panel_image_repository = codes "ghcr.io/centralcorp-cloud/centralpanel-cloud";
    require_image_digest = false;
    panel_user = codes "10001:10001";
    pids_limit = pos 256;
    registry_username_file = [];
    registry_token_file = [];
  };
  postgres = record {
    host = [];
    port = pos 5432;
    administrator_database = codes "postgres";
    administrator_username = [];
    administrator_password_file = [];
    backup_image = codes "postgres:17-alpine";
    panel_host = [];
  };
  traefik = record {
    container_name = codes "centralcloud-traefik";
    domain_suffix = [];
    entrypoint = codes "websecure";
    certificate_resolver = codes "letsencrypt";
  };
  limits = record {
    maximum_deployments = pos 50;
    default_memory_bytes = pos 402653184;
    default_cpu_limit = pos 500000000;
    maximum_concurrent_operations = pos 4;
  };
  panel = record {
    install_command =
        codes "php"
        ∷ codes "artisan"
        ∷ codes "auto:install"
        ∷ codes "--bootstrap-file=/run/secrets/panel_bootstrap.json"
        ∷ codes "--no-interaction"
        ∷ [];
    migration_command =
        codes "php"
        ∷ codes "artisan"
        ∷ codes "migrate"
        ∷ codes "--force"
        ∷ codes "--no-interaction"
        ∷ [];
    admin_reset_command =
        codes "php"
        ∷ codes "artisan"
        ∷ codes "panel:admin-reset"
        ∷ codes "--bootstrap-file=/run/secrets/panel_admin_reset.json"
        ∷ codes "--no-interaction"
        ∷ [];
    allowed_environment_keys = [];
  };
  storage = record {
    database_file = codes "/var/lib/centralcloud-agent/state.db";
    runtime_directory = codes "/run/centralcloud-agent";
    backup_directory = codes "/var/lib/centralcloud-agent/backups";
    panel_directory = codes "/var/lib/centralcloud-agent/panels";
  };
}
