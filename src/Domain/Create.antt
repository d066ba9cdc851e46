-- ===== src/Domain/Create.antt =====
-- ValidateCreate of internal/domain/validate.go: it normalises the request and gathers its faults.
pub mod Accepted
use centralcloud_agent.Prelude.{
  ℕ, ◌*◌, ◌^◌, Bool, true, false, not, ◌&&◌, ◌||◌, Option, none, some, List, [], ◌∷◌, ◌++◌, ltb,
  leb, ◌==◌, if◌then◌else◌, Bytes, codes, length, is_empty, same, has_prefix, has_suffix, to_lower,
  trim_last, contains_byte, join, is_blank, member, map, ℤ, pos, lt_int, le_int, is_zero,
}
use centralcloud_agent.Errors.{Err, plain, message}
use centralcloud_agent.Errors.Faults.{fault, fault_of, joined}
use centralcloud_agent.Config.{Config}
use centralcloud_agent.Contracts.{
  CreateDeploymentRequest, Resources, Healthcheck, Database, Bootstrap,
}
use centralcloud_agent.Packages.{Packages}
use centralcloud_agent.Domain.Syntax.{uuid_re, db_re, env_re, host_re}
use centralcloud_agent.Domain.Validate.{
  validate_dns_hostname, validate_panel_image, reserved_env, is_sensitive_environment_key,
}

-- strings.ToLower(strings.TrimSuffix(s, "."))
unfoldable pub normal_host : Bytes → Bytes
unfolding to_lower trim_last
normal_host s = to_lower (trim_last b'.' s)

unfoldable pub normalise : Config → CreateDeploymentRequest → CreateDeploymentRequest
unfolding normal_host
normalise c r = record r {
  deployment_id = to_lower r.deployment_id;
  project_id = to_lower r.project_id;
  hostname = normal_host r.hostname;
  aliases = map normal_host r.aliases;
  resources = record {
    memory_bytes =
        (if is_zero r.resources.memory_bytes
          then c.limits.default_memory_bytes
          else r.resources.memory_bytes);
    cpu_limit =
        (if is_zero r.resources.cpu_limit
          then c.limits.default_cpu_limit
          else r.resources.cpu_limit);
  };
  healthcheck = record {
    path = r.healthcheck.path;
    timeout_seconds =
        (if is_zero r.healthcheck.timeout_seconds then pos 60 else r.healthcheck.timeout_seconds);
  };
}

-- The suffix that the configuration gives to hostnames.
unfoldable pub in_suffix : Bytes → Bytes → Bool
in_suffix suffix host = same host suffix || has_suffix host (b'.' ∷ suffix)

abbrev alias_fault : Packages → Bytes → List Bytes → Bytes → List Bytes
alias_fault pkg hostname seen alias = elim (validate_dns_hostname pkg alias) [
  | some _ ↦ codes "alias must be a valid ASCII DNS hostname" ∷ []
  | none ↦
      if same alias hostname
      then codes "alias must differ from hostname" ∷ []
      else fault (member alias seen) (codes "aliases must not contain duplicates")
]

-- seenAliases after one more alias
abbrev see_alias : Packages → Bytes → List Bytes → Bytes → List Bytes
see_alias pkg hostname seen alias = elim (validate_dns_hostname pkg alias) [
  | some _ ↦ seen
  | none ↦ if same alias hostname then seen else alias ∷ seen
]

unfoldable pub alias_faults : Packages → Bytes → List Bytes → List Bytes → List Bytes
alias_faults pkg hostname seen [] = []
alias_faults pkg hostname seen (a ∷ as_) =
    alias_fault pkg hostname seen a ++ alias_faults pkg hostname (see_alias pkg hostname seen a) as_

unfoldable pub variable_fault : Packages → List Bytes → Bytes × Bytes → List Bytes
variable_fault pkg allowed (k, v) =
    if not (env_re k)
    then (codes "invalid environment variable key " ++ pkg.quote k) ∷ []
    else if member k reserved_env
    then (codes "reserved environment variable " ++ pkg.quote k) ∷ []
    else if is_sensitive_environment_key k
    then (codes "secret-like environment variable "
        ++ (pkg.quote k ++ codes " must use a secret file"))
      ∷ []
    else if not (member k allowed)
    then (codes "environment variable " ++ (pkg.quote k ++ codes " is not allowed")) ∷ []
    else fault (ltb 4096 (length v))
        (codes "environment variable " ++ (pkg.quote k ++ codes " value is too long"))

unfoldable pub environment_faults : Packages → List Bytes → List (Bytes × Bytes) → List Bytes
unfolding variable_fault
environment_faults pkg allowed [] = []
environment_faults pkg allowed (e ∷ es) =
    variable_fault pkg allowed e ++ environment_faults pkg allowed es

unfoldable pub identity_faults : Packages → Config → CreateDeploymentRequest → List Bytes
unfolding alias_faults in_suffix
identity_faults pkg c r =
    fault (not (uuid_re r.deployment_id)) (codes "deployment_id must be a UUID")
    ++ (fault (not (uuid_re r.project_id)) (codes "project_id must be a UUID")
        ++ (fault (not (host_re r.hostname) || not (in_suffix c.traefik.domain_suffix r.hostname))
              (codes "hostname is outside the configured domain suffix")
            ++ (fault (ltb 1 (length r.aliases)) (codes "aliases must contain at most one hostname")
                ++ (alias_faults pkg r.hostname [] r.aliases
                    ++ (fault_of (validate_panel_image pkg r.image c)
                        ++ (fault (not (db_re r.database.database_name))
                              (codes "invalid database_name")
                            ++ (fault (not (db_re r.database.username))
                                  (codes "invalid database username")
                                ++ fault (same r.database.database_name r.database.username)
                                    (codes "database_name and username must differ"))))))))

-- 64 << 20
abbrev pub minimum_memory : ℤ
minimum_memory = pos 67108864

unfoldable pub limit_faults : CreateDeploymentRequest → List Bytes
limit_faults r =
    fault (lt_int r.resources.memory_bytes minimum_memory || le_int r.resources.cpu_limit (pos 0))
      (codes "invalid resource limits")
    ++ (fault
          (not (has_prefix r.healthcheck.path (codes "/"))
            || (contains_byte 13 r.healthcheck.path || contains_byte 10 r.healthcheck.path))
          (codes "healthcheck.path must be an absolute path")
        ++ (fault
              (lt_int r.healthcheck.timeout_seconds (pos 1)
                || lt_int (pos 600) r.healthcheck.timeout_seconds)
              (codes "healthcheck timeout must be between 1 and 600 seconds")
            ++ fault (ltb 128 (length r.environment)) (codes "too many environment variables")))

unfoldable pub bootstrap_faults : Bootstrap → List Bytes
bootstrap_faults b =
    fault (is_blank b.admin_name || ltb 255 (length b.admin_name))
      (codes "bootstrap.admin_name is required")
    ++ (fault (not (contains_byte b'@' b.admin_email) || ltb 255 (length b.admin_email))
          (codes "bootstrap.admin_email is invalid")
        ++ (fault (ltb (length b.admin_password) 12 || ltb 4096 (length b.admin_password))
              (codes "bootstrap.admin_password must contain between 12 and 4096 characters")
            ++ fault (ltb (length b.internal_secret) 32 || ltb 4096 (length b.internal_secret))
                (codes "bootstrap.internal_secret must contain between 32 and 4096 characters")))

unfoldable pub create_faults : Packages → Config → CreateDeploymentRequest → List Bytes
unfolding identity_faults limit_faults bootstrap_faults environment_faults
create_faults pkg c r =
    identity_faults pkg c r
    ++ (limit_faults r
        ++ (bootstrap_faults r.bootstrap
            ++ environment_faults pkg c.panel.allowed_environment_keys r.environment))

-- The normalised request, and the error.
unfoldable pub validate_create :
    Packages → Config → CreateDeploymentRequest → CreateDeploymentRequest × Option Err
unfolding normalise create_faults
validate_create pkg c r = let r' = normalise c r in (r', joined (create_faults pkg c r'))
