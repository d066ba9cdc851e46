-- ===== src/Tests/Fixtures.antt =====
-- A node whose collaborators always succeed, and an empty database.
use centralcloud_agent.Prelude.{
  lookup, insert, cut_before, ◌+◌, true, false, none, some, [], ◌∷◌, ◌++◌, Bytes, codes, pos, same,
  has_prefix, has_suffix, member, contains_byte, is_blank, to_lower,
}
use centralcloud_agent.Config.{Config}
use centralcloud_agent.Contracts.{CreateDeploymentRequest}
use centralcloud_agent.Packages.{Packages}
use centralcloud_agent.Packages.Http.{Http}
use centralcloud_agent.Postgres.Sql.{Catalogue}
use centralcloud_agent.Localstorage.Files.{directory}
use centralcloud_agent.Contracts.Views.{View, error_view}
use centralcloud_agent.Storage.Tables.{Tables, DeploymentRow}
use centralcloud_agent.Domain.Model.{Deployment}
use centralcloud_agent.Domain.Clock.{Time}
use centralcloud_agent.Domain.State.{State, active}
use centralcloud_agent.Errors.{is_error, ok}
use centralcloud_agent.Domain.Syntax.{uuid_re, host_re, db_re, env_re}
use centralcloud_agent.Domain.Validate.{
  validate_dns_hostname, validate_panel_image, is_sensitive_environment_key,
}
use centralcloud_agent.Domain.Create.{
  validate_create, create_faults, identity_faults, limit_faults, bootstrap_faults,
  environment_faults, alias_faults,
}
use centralcloud_agent.Storage.Tables.{select, count}
use centralcloud_agent.Storage.Deployments.{
  get_deployment, count_deployments, create_deployment, on_constraint,
}
use centralcloud_agent.Storage.Operations.{create_operation, insert_operation}
use centralcloud_agent.Storage.Keys.{get_idempotency, put_idempotency, insert_key}
use centralcloud_agent.Service.{
  existing_idempotency, encrypt_permanent_secrets, generate, encrypt_text, wrapping, finish_submit,
  accepted,
}
use centralcloud_agent.Service.Submit.{
  submit_create, submit, submit_new, create_fresh, check_capacity, encrypt_bootstrap,
  queue_operation,
}
use centralcloud_agent.Api.{Request, Response, write_raw, write, write_error}
use centralcloud_agent.Api.Access.{
  Server, with_context, filter_source, any_prefix_contains, limit, identity, limiter_of,
  authenticate, authentic, bearer_value, trim_prefix,
}
use centralcloud_agent.Api.Requests.{mutation, fresh, age}
use centralcloud_agent.Api.Handlers.{action, answered}
use centralcloud_agent.Api.Routes.{mux, endpoint, route, handler}
use centralcloud_agent.Runtime.{
  pure, asks, lift, Env, World, Act, ◌>>=◌, statement, invoke, invoke_for, sample, now, fresh_id,
  attempt, ignore, signal,
}

abbrev pub deployment_id : Bytes
deployment_id = codes "11111111-1111-4111-8111-111111111111"

abbrev pub key_a : Bytes
key_a = codes "aaaaaaaa-aaaa-4aaa-8aaa-aaaaaaaaaaaa"

abbrev pub key_b : Bytes
key_b = codes "bbbbbbbb-bbbb-4bbb-8bbb-bbbbbbbbbbbb"

abbrev pub request : CreateDeploymentRequest
request = record {
  deployment_id = deployment_id;
  project_id = codes "22222222-2222-4222-8222-222222222222";
  hostname = codes "p1.cloud.example";
  aliases = codes "shop.example" ∷ [];
  image = codes "ghcr.io/panel:1.0";
  environment = (codes "LOCALE", codes "fr") ∷ [];
  resources = record { memory_bytes = pos 0; cpu_limit = pos 0 };
  database = record { database_name = codes "panel1"; username = codes "panel1_user" };
  healthcheck = record { path = codes "/up"; timeout_seconds = pos 0 };
  bootstrap = record {
    admin_name = codes "Admin";
    admin_email = codes "admin@example";
    admin_password = codes "a long password";
    internal_secret = codes "0123456789abcdef0123456789abcdef";
  };
}

abbrev pub config : Config
config = record {
  node = record { id = []; name = codes "node" };
  server = record {
    address = codes "127.0.0.1:9443";
    read_timeout = pos 0;
    write_timeout = pos 0;
    idle_timeout = pos 0;
    operation_timeout = pos 600000000000;
    max_request_bytes = pos 1048576;
    rate_per_second = pos 10000000000;
    rate_burst = pos 20;
  };
  security = record {
    mode = codes "bearer";
    certificate_file = [];
    private_key_file = [];
    client_ca_file = [];
    token_file = [];
    token_sha256_file = codes "/etc/token.sha256";
    behind_reverse_proxy = true;
    master_key_file = codes "/etc/master.key";
    allowed_client_sans = [];
    allowed_source_cidrs = [];
    timestamp_skew = pos 300000000000;
  };
  docker = record {
    socket = codes "unix:///var/run/docker.sock";
    frontend_network = codes "fe";
    egress_network = codes "eg";
    panel_image_repository = codes "ghcr.io/panel";
    require_image_digest = false;
    panel_user = codes "10001:10001";
    pids_limit = pos 256;
    registry_username_file = [];
    registry_token_file = [];
  };
  postgres = record {
    host = codes "db";
    port = pos 5432;
    administrator_database = codes "postgres";
    administrator_username = codes "root";
    administrator_password_file = codes "/etc/pg";
    backup_image = codes "postgres:17-alpine";
    panel_host = [];
  };
  traefik = record {
    container_name = codes "traefik";
    domain_suffix = codes "cloud.example";
    entrypoint = codes "websecure";
    certificate_resolver = codes "letsencrypt";
  };
  limits = record {
    maximum_deployments = pos 50;
    default_memory_bytes = pos 402653184;
    default_cpu_limit = pos 500000000;
    maximum_concurrent_operations = pos 4;
  };
  panel = record {
    install_command = codes "install" ∷ [];
    migration_command = codes "migrate" ∷ [];
    admin_reset_command = codes "reset" ∷ [];
    allowed_environment_keys = codes "LOCALE" ∷ [];
  };
  storage = record {
    database_file = codes "/db";
    runtime_directory = codes "/run";
    backup_directory = codes "/backups";
    panel_directory = codes "/panels";
  };
}

abbrev pub packages : Packages
packages = record {
  parse_named = λ s. some (record { familiar_name = codes "ghcr.io/panel"; digest = none });
  parse_addr = λ s. same s (codes "10.0.0.7");
  parse_prefix = λ s. true;
  quote = λ s. s;
  sha256 = λ s. s;
  hex = λ s. s;
  base64 = λ s. s;
  json_error = λ s. codes "unexpected end of JSON input";
  marshal_secrets = λ b. b.database_password;
  unmarshal_secrets =
      λ s. some (record { database_password = s; app_key = []; internal_secret = [] });
  marshal_bootstrap = λ b. b.admin_email;
  unmarshal_bootstrap = λ s.
      some (record { admin_name = []; admin_email = s; admin_password = []; internal_secret = [] });
  marshal_panel_bootstrap = λ b. b.email;
  marshal_panel_reset = λ b. b.email;
  unmarshal_upgrade = λ s. some (record { image = s });
  unmarshal_reset = λ s. some (record { admin_email = s; admin_password = [] });
  marshal_accepted = λ a. a.operation_id;
  marshal_accepted_create = λ a. a.accepted.operation_id;
  marshal_request = λ r. ok (codes "{}");
  unmarshal_request = λ s. ok request;
  marshal_aliases = λ ls. ok (codes "[]");
  unmarshal_aliases = λ s. ok request.aliases;
  marshal_purge_token = λ token t. token;
  marshal_succeeded = λ id. id;
}

abbrev view_text : View → Bytes
view_text (error_view e) = e.message
view_text _ = []

-- A PostgreSQL server without the role and the database of the deployment.
abbrev pub catalogue : Catalogue
catalogue = record {
  role_exists = λ r. false;
  role = λ r. record {
    comment = none;
    superuser = false;
    create_db = false;
    create_role = false;
    replication = false;
    bypass_rls = false;
  };
  session_user = codes "root";
  database_exists = λ d. false;
  database = λ d. record { owner = []; comment = none };
}

abbrev pub http : Http
http = record {
  parse_media_type = λ s. some s;
  parse_time = λ s. some (record { seconds = 63900000000; nanos = 0 });
  split_host_port = λ s. some (cut_before b':' s);
  prefix_contains = λ p a. true;
  decode_hex = λ s. some s;
  encode_base64_url = λ s. s;
  decode_base64_url = λ s. some s;
  decode_create = λ s. some (request, true);
  decode_upgrade = λ s. some (record { image = s }, true);
  decode_reset = λ s. some (record { admin_email = s; admin_password = [] }, true);
  unmarshal_object = λ s. some s;
  marshal_view = view_text;
}

-- Each step takes a second, and every collaborator succeeds.
abbrev pub env : Env
env = record {
  config = config;
  packages = packages;
  redact = λ s. s;
  sql_failure = λ n. none;
  clock = λ n. record { seconds = 63900000000 + n; nanos = 0 };
  new_id = λ n. codes "op-" ++ ((48 + n) ∷ []);
  call_failure = λ n c. none;
  networks = λ n id. record {
    frontend = codes "fe";
    backend = codes "be";
    backend_gateway = codes "10.0.0.1";
  };
  panel_directory = λ n id. codes "/panels";
  backup_path = λ n. codes "/backups/1.enc";
  secret = λ n. codes "secret";
  ciphertext = λ n s. s;
  plaintext = λ n s. s;
  secret_path = λ n id name. name;
  resources = λ n. record {
    node_id = codes "node";
    cpu_count = pos 4;
    memory_total_bytes = pos 17179869184;
    memory_available_bytes = pos 8589934592;
    disk_total_bytes = pos 0;
    disk_available_bytes = pos 0;
    deployment_count = pos 0;
    active_deployment_count = pos 0;
  };
  logs = λ n. ([], record { seconds = 0; nanos = 0 });
  catalogue = λ n. catalogue;
  kind = λ n p. directory;
  content = λ n p. deployment_id;
  resolved = λ n p. p;
  statfs = λ n. ok (1000000, (500000, pos 4096));
  cpu_count = 4;
  http = http;
  file = λ n path. ok (codes "0123456789abcdef0123456789abcdef");
  allows = λ n l. true;
  metrics_answer = λ n. record {
    status = 500;
    content_type = codes "text/plain; charset=utf-8";
    content_type_options = codes "nosniff";
    body = codes "An error has occurred while serving metrics";
  };
}

abbrev pub no_tables : Tables
no_tables = record {
  deployments = [];
  operations = [];
  operation_steps = [];
  idempotency_keys = [];
  purge_tokens = [];
  audit = [];
  metadata = [];
}

abbrev pub empty_world : World
empty_world = record { tables = no_tables; tick = 0; trace = []; wake = false; limiters = [] }

-- A deployment that runs, in state `s`.
abbrev pub row_in : State → DeploymentRow
row_in s = record {
  deployment_id = deployment_id;
  request_json = codes "{}";
  aliases_json = codes "[]";
  state = s;
  credentials_ref = codes "cccred";
  encrypted_secret = codes "secret";
  encrypted_bootstrap = [];
  failed_step = [];
  created_at = codes "2025-11-29T08:00:00Z";
  updated_at = codes "2025-11-29T08:00:00Z";
}

-- What the row reads as.
abbrev pub panel_in : State → Deployment
panel_in s = record {
  request = request;
  state = s;
  credentials_ref = codes "cccred";
  encrypted_secret = codes "secret";
  encrypted_bootstrap = [];
  failed_step = [];
  created_at = record { seconds = 63900000000; nanos = 0 };
  updated_at = record { seconds = 63900000000; nanos = 0 };
}

abbrev pub running_world : World
running_world = record empty_world {
  tables = record no_tables { deployments = row_in active ∷ [] };
}

abbrev pub noon : Time
noon = record { seconds = 63900014400; nanos = 0 }

abbrev pub one_past_noon : Time
one_past_noon = record { seconds = 63900014460; nanos = 500 }

abbrev pub purge_hash : Bytes
purge_hash = codes "hash"

-- A purge token that is good until five past noon.
abbrev pub token_world : World
token_world = record running_world {
  tables = record running_world.tables {
    purge_tokens =
        record {
          deployment_id = deployment_id;
          token_hash = purge_hash;
          expires_at = record { seconds = 63900014700; nanos = 0 };
          consumed_at = none;
        }
        ∷ [];
  };
}

-- A create request, as a client sends it.
unfoldable pub submission : Act Bytes
unfolding ◌>>=◌ submit_create submit validate_create create_faults identity_faults limit_faults
    bootstrap_faults environment_faults alias_faults uuid_re host_re db_re env_re same has_prefix
    has_suffix validate_dns_hostname member validate_panel_image contains_byte is_blank
    is_sensitive_environment_key existing_idempotency get_idempotency statement select to_lower
    get_deployment create_fresh check_capacity count_deployments count invoke invoke_for sample now
    fresh_id attempt ignore signal create_operation put_idempotency submit_new
    encrypt_permanent_secrets encrypt_bootstrap generate encrypt_text create_deployment
    on_constraint wrapping finish_submit is_error insert_operation insert_key queue_operation
    accepted
submission = submit_create request key_a (codes "POST") (codes "/v1/deployments") (codes "{}")

-- The server at work, down to the service.
unfoldable pub served : Server → Request → Act Response
unfolding handler with_context filter_source any_prefix_contains limit identity limiter_of lookup
    insert authenticate authentic bearer_value trim_prefix cut_before mux endpoint route action
    mutation fresh age answered write_raw write write_error pure asks lift
served = handler
