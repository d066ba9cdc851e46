-- ===== src/Config/Validate.antt =====
-- Validate of internal/config/config.go: what the agent asks of its configuration.
pub mod Accepted
use centralcloud_agent.Prelude.{
  ℕ, ◌+◌, ◌-◌, ◌*◌, Bool, true, false, not, ◌&&◌, ◌||◌, Option, none, some, List, [], ◌∷◌, ◌++◌,
  ltb, ◌==◌, if◌then◌else◌, Bytes, codes, is_empty, same, has_prefix, to_lower, contains_byte,
  cut_before, is_blank, member, pos, lt_int,
}
use centralcloud_agent.Errors.{Err}
use centralcloud_agent.Errors.Faults.{fault, joined}
use centralcloud_agent.Config.{
  Config, SecurityConfig, DockerConfig, PostgresConfig, TraefikConfig, PanelConfig, LimitsConfig,
}
use centralcloud_agent.Packages.{Packages}
use centralcloud_agent.Domain.Syntax.{uuid_re, env_re, is_digit}

-- The part of strings.Cut after the first separator byte.
unfoldable pub cut_after : ℕ → Bytes → Bytes
cut_after c [] = []
cut_after c (b ∷ s) = if b == c then s else cut_after c s

unfoldable pub digits_value : ℕ → Bytes → Option ℕ
digits_value n [] = some n
digits_value n (b ∷ s) =
    let rest = digits_value (n * 10 + (b - 48)) s in if is_digit b then rest else none

abbrev in_32_bits : Option ℕ → Option ℕ
in_32_bits none = none
in_32_bits (some n) = if ltb n 4294967296 then some n else none

-- strconv.ParseUint(s, 10, 32)
unfoldable pub parse_uint : Bytes → Option ℕ
unfolding digits_value
parse_uint s = if is_empty s then none else in_32_bits (digits_value 0 s)

-- e != nil || id == 0
abbrev pub is_root : Option ℕ → Bool
is_root none = true
is_root (some n) = n == 0

abbrev pub is_empty_list : {A : Type 0} → List A → Bool
is_empty_list [] = true
is_empty_list (x ∷ xs) = false

abbrev pub mode_is : SecurityConfig → Bytes → Bool
mode_is s m = same s.mode m

abbrev pub mtls : Bytes
mtls = codes "mtls"

abbrev pub token : Bytes
token = codes "token"

abbrev pub bearer : Bytes
bearer = codes "bearer"

-- a != b of two Booleans
abbrev pub differ : Bool → Bool → Bool
differ true b = not b
differ false b = b

unfoldable pub security_faults : SecurityConfig → List Bytes
security_faults s =
    fault (not (mode_is s mtls) && (not (mode_is s token) && not (mode_is s bearer)))
      (codes "security.mode must be mtls, bearer or token")
    ++ (fault (is_empty s.master_key_file) (codes "security.master_key_file is required")
        ++ (fault
              (mode_is s mtls
                && (is_empty s.certificate_file
                    || is_empty s.private_key_file
                    || is_empty s.client_ca_file
                    || is_empty_list s.allowed_client_sans))
              (codes "mTLS certificate, key, CA and SAN allowlist are required")
            ++ (fault (mode_is s token && is_empty s.token_file)
                  (codes "security.token_file is required in token mode")
                ++ fault (mode_is s bearer && is_empty s.token_sha256_file)
                    (codes "security.token_sha256_file is required in bearer mode"))))

unfoldable pub cidr_faults : Packages → List Bytes → List Bytes
cidr_faults pkg [] = []
cidr_faults pkg (raw ∷ rest) =
    fault (not (pkg.parse_prefix raw))
      (codes "invalid security.allowed_source_cidrs entry " ++ pkg.quote raw)
    ++ cidr_faults pkg rest

unfoldable pub docker_faults : DockerConfig → List Bytes
unfolding parse_uint cut_after
docker_faults d =
    fault (not (has_prefix d.socket (codes "unix://"))) (codes "docker.socket must use unix://")
    ++ (fault
          (not (contains_byte b':' d.panel_user)
            || is_root (parse_uint (cut_before b':' d.panel_user))
            || is_root (parse_uint (cut_after b':' d.panel_user)))
          (codes "docker.panel_user must use a non-root numeric uid:gid")
        ++ fault (differ (is_empty d.registry_username_file) (is_empty d.registry_token_file))
            (codes "docker registry username and token files must be configured together"))

unfoldable pub service_faults : Config → List Bytes
service_faults c =
    fault (is_empty c.storage.panel_directory) (codes "storage.panel_directory is required")
    ++ (fault
          (is_empty c.postgres.host
            || is_empty c.postgres.administrator_username
            || is_empty c.postgres.administrator_password_file)
          (codes "postgres host, administrator username and password file are required")
        ++ (fault (is_empty c.traefik.domain_suffix) (codes "traefik.domain_suffix is required")
            ++ fault (is_blank c.traefik.container_name)
                (codes "traefik.container_name is required")))

unfoldable pub panel_faults : Config → List Bytes
panel_faults c =
    fault (is_empty_list c.panel.install_command) (codes "panel.install_command is required")
    ++ (fault (is_empty_list c.panel.migration_command)
          (codes "panel.migration_command is required")
        ++ (fault (is_empty_list c.panel.admin_reset_command)
              (codes "panel.admin_reset_command is required")
            ++ fault
                (lt_int c.limits.maximum_deployments (pos 1)
                  || lt_int c.limits.maximum_concurrent_operations (pos 1))
                (codes "limits must be positive")))

unfoldable pub key_faults : Packages → List Bytes → List Bytes → List Bytes
key_faults pkg [] seen = []
key_faults pkg (key ∷ rest) seen =
    fault (not (env_re key))
      (codes "invalid panel.allowed_environment_keys entry " ++ pkg.quote key)
    ++ (fault (member key seen)
          (codes "duplicate panel.allowed_environment_keys entry " ++ pkg.quote key)
        ++ key_faults pkg rest (key ∷ seen))

unfoldable pub node_faults : Config → List Bytes
node_faults c =
    fault (not (is_empty c.node.id) && not (uuid_re (to_lower c.node.id)))
      (codes "node.id must be a UUID")
    ++ fault (is_empty c.server.address) (codes "server.address is required")

unfoldable pub validate : Packages → Config → Option Err
unfolding node_faults security_faults cidr_faults docker_faults service_faults panel_faults
    key_faults
validate pkg c = joined (
    node_faults c
    ++ (security_faults c.security
        ++ (cidr_faults pkg c.security.allowed_source_cidrs
            ++ (docker_faults c.docker
                ++ (service_faults c
                    ++ (panel_faults c ++ key_faults pkg c.panel.allowed_environment_keys []))))))
