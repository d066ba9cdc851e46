-- ===== src/Service/Container.antt =====
-- internal/deployment/service.go: the container that a deployment runs in, its environment and labels.
pub mod Environment
pub mod Hosts
use centralcloud_agent.Prelude.{
  ◌||◌, Option, none, some, List, [], ◌∷◌, ◌++◌, ◌==◌, if◌then◌else◌, Bytes, codes, is_empty, join,
  remove_byte, insert, itoa,
}
use centralcloud_agent.Errors.{Err, Result, ok, err, wrap}
use centralcloud_agent.Config.{Config}
use centralcloud_agent.Contracts.{CreateDeploymentRequest}
use centralcloud_agent.Packages.{Packages}
use centralcloud_agent.Domain.Validate.{validate_dns_hostname}
use centralcloud_agent.Domain.Model.{Deployment, ContainerSpec, DeploymentNetworks}

-- The text after the last `:` or `@`, if there is one.
unfoldable pub after_last : Bytes → Option Bytes
after_last [] = none
after_last (b ∷ s) = elim (after_last s) [
  | some t ↦ some t
  | none ↦ if b == b':' || b == b'@' then some s else none
]

abbrev or_whole : Bytes → Option Bytes → Bytes
or_whole s none = s
or_whole s (some t) = t

unfoldable pub management_labels : CreateDeploymentRequest → List (Bytes × Bytes)
unfolding after_last
management_labels r =
    (codes "centralcloud.managed", codes "true")
    ∷ (codes "centralcloud.deployment_id", r.deployment_id)
    ∷ (codes "centralcloud.project_id", r.project_id)
    ∷ (codes "centralcloud.hostname", r.hostname)
    ∷ (codes "centralcloud.version", or_whole r.image (after_last r.image))
    ∷ []

-- "Host(`" + host + "`)"
abbrev pub host_rule : Bytes → Bytes
host_rule host = codes "Host(`" ++ (host ++ codes "`)")

-- One round of the loop over the hosts, with the rules of the hosts that follow.
abbrev pub with_rule : Packages → Bytes → Option Err → Result (List Bytes) → Result (List Bytes)
with_rule pkg h (some e) rest = err (wrap (codes "render Traefik host " ++ pkg.quote h) e)
with_rule pkg h none (ok rules) = ok (host_rule h ∷ rules)
with_rule pkg h none (err e) = err e

-- The loop over the hosts: the first one that is no DNS hostname ends it.
unfoldable pub host_rules : Packages → List Bytes → Result (List Bytes)
host_rules pkg [] = ok []
host_rules pkg (h ∷ hs) = with_rule pkg h (validate_dns_hostname pkg h) (host_rules pkg hs)

unfoldable pub traefik_rule : List Bytes → Bytes
traefik_rule rules = join (codes " || ") rules

abbrev router : Bytes → Bytes → Bytes
router id key = codes "traefik.http.routers." ++ (id ++ key)

abbrev tls_labels : Bytes → Bytes → List (Bytes × Bytes)
tls_labels id resolver =
    if is_empty resolver
    then []
    else (router id (codes ".tls"), codes "true")
      ∷ (router id (codes ".tls.certresolver"), resolver)
      ∷ []

unfoldable pub labels_of :
    CreateDeploymentRequest → Config → Bytes → List Bytes → List (Bytes × Bytes)
unfolding traefik_rule
labels_of r c frontend rules =
    let id = codes "cc" ++ remove_byte b'-' r.deployment_id in
    (codes "traefik.enable", codes "true")
    ∷ (codes "traefik.docker.network", frontend)
    ∷ (router id (codes ".rule"), traefik_rule rules)
    ∷ (router id (codes ".entrypoints"), c.traefik.entrypoint)
    ∷ (codes "traefik.http.services." ++ (id ++ codes ".loadbalancer.server.port"), codes "8080")
    ∷ tls_labels id c.traefik.certificate_resolver

unfoldable pub validated_traefik_labels :
    Packages → CreateDeploymentRequest → Config → Bytes → Result (List (Bytes × Bytes))
unfolding host_rules labels_of
validated_traefik_labels pkg r c frontend = elim (host_rules pkg (r.hostname ∷ r.aliases)) [
  | err e ↦ err e
  | ok rules ↦ ok (labels_of r c frontend rules)
]

abbrev or_gateway : Bytes → DeploymentNetworks → Bytes
or_gateway panel_host networks =
    if is_empty panel_host then networks.backend_gateway else panel_host

abbrev Settings : Type 0
Settings = List (Bytes × Bytes)

-- The variables that the agent sets, the last one first.
abbrev pub managed_variables : Config → Deployment → DeploymentNetworks → Settings
managed_variables c d networks =
    (codes "CLOUD_PROJECT_ID", d.request.project_id)
    ∷ (codes "CENTRALPANEL_MODE", codes "centralcloud")
    ∷ (codes "APP_URL", codes "https://" ++ d.request.hostname)
    ∷ (codes "APP_ENV", codes "production")
    ∷ (codes "PANEL_MANAGED", codes "true")
    ∷ (codes "CENTRALCLOUD_INTERNAL_SECRET_FILE", codes "/run/secrets/internal_secret")
    ∷ (codes "PANEL_BOOTSTRAP_FILE", codes "/run/secrets/panel_bootstrap.json")
    ∷ (codes "APP_KEY_FILE", codes "/run/secrets/app_key")
    ∷ (codes "DB_PASSWORD_FILE", codes "/run/secrets/postgres_password")
    ∷ (codes "PGPASSWORD_FILE", codes "/run/secrets/postgres_password")
    ∷ (codes "PGUSER", d.request.database.username)
    ∷ (codes "PGDATABASE", d.request.database.database_name)
    ∷ (codes "PGPORT", itoa c.postgres.port)
    ∷ (codes "PGHOST", or_gateway c.postgres.panel_host networks)
    ∷ []

-- env[k] = v for each entry, the last entry of the list first
unfoldable pub assign_all : Settings → Settings → Settings
unfolding insert
assign_all [] env = env
assign_all ((k, v) ∷ rest) env = insert k v (assign_all rest env)

unfoldable pub container_environment : Config → Deployment → DeploymentNetworks → Settings
unfolding assign_all
container_environment c d networks =
    assign_all (managed_variables c d networks) d.request.environment

unfoldable pub spec :
    Packages
    → Config
    → Deployment
    → List (Bytes × Bytes)
    → DeploymentNetworks
    → Bytes
    → Result ContainerSpec
unfolding container_environment validated_traefik_labels management_labels
spec pkg c d secret_files networks directory =
    elim (validated_traefik_labels pkg d.request c networks.frontend) [
      | err e ↦ err e
      | ok labels ↦ ok (record {
        deployment = d.request;
        environment = container_environment c d networks;
        secret_files = secret_files;
        storage_directory = directory;
        management_labels = management_labels d.request;
        traefik_labels = labels;
        frontend_network = networks.frontend;
        backend_network = networks.backend;
        user = c.docker.panel_user;
        pids_limit = c.docker.pids_limit;
      })
    ]
