-- ===== src/Domain/Create/Accepted.antt =====
-- ValidateCreate of internal/domain/validate.go: the requests that it accepts.
use centralcloud_agent.Prelude.{
  ℕ, ◌≤◌, ◌≡◌, true, false, not, none, List, [], ◌∷◌, ltb, Bytes, codes, length, same, member,
  has_prefix, contains_byte, is_blank, All, pos, lt_int, le_int, arith,
}
use centralcloud_agent.Errors.Faults.{
  fault, fault_of, no_fault, no_fault_of, no_faults, unjoined, or_false, true_of_not,
}
use centralcloud_agent.Config.{Config}
use centralcloud_agent.Contracts.{CreateDeploymentRequest, Bootstrap}
use centralcloud_agent.Packages.{Packages}
use centralcloud_agent.Domain.Syntax.{uuid_re, db_re, env_re, host_re}
use centralcloud_agent.Domain.Validate.{
  validate_dns_hostname, validate_panel_image, reserved_env, is_sensitive_environment_key,
}
use centralcloud_agent.Domain.Create.{
  in_suffix, alias_faults, alias_fault, see_alias, variable_fault, environment_faults,
  identity_faults, limit_faults, bootstrap_faults, create_faults, validate_create, minimum_memory,
}

-- The names that a request may give to the panel and its database.
pub record HasNames (pkg : Packages) (c : Config) (r : CreateDeploymentRequest) : Type 0 where
  pub deployment_uuid : uuid_re r.deployment_id ≡ true
  pub project_uuid : uuid_re r.project_id ≡ true
  pub hostname_form : host_re r.hostname ≡ true
  pub hostname_suffix : in_suffix c.traefik.domain_suffix r.hostname ≡ true
  pub one_alias : length r.aliases ≤ 1
  pub alias_form :
      All (λ a. validate_dns_hostname pkg a ≡ none × same a r.hostname ≡ false) r.aliases
  pub image : validate_panel_image pkg r.image c ≡ none
  pub database_name : db_re r.database.database_name ≡ true
  pub username : db_re r.database.username ≡ true
  pub different : same r.database.database_name r.database.username ≡ false

pub record HasLimits (r : CreateDeploymentRequest) : Type 0 where
  pub memory : lt_int r.resources.memory_bytes minimum_memory ≡ false
  pub cpu : le_int r.resources.cpu_limit (pos 0) ≡ false
  pub absolute : has_prefix r.healthcheck.path (codes "/") ≡ true
  pub no_cr : contains_byte 13 r.healthcheck.path ≡ false
  pub no_lf : contains_byte 10 r.healthcheck.path ≡ false
  pub timeout_low : lt_int r.healthcheck.timeout_seconds (pos 1) ≡ false
  pub timeout_high : lt_int (pos 600) r.healthcheck.timeout_seconds ≡ false
  pub variables : length r.environment ≤ 128

pub record HasBootstrap (b : Bootstrap) : Type 0 where
  pub name_given : is_blank b.admin_name ≡ false
  pub name_short : length b.admin_name ≤ 255
  pub email_form : contains_byte b'@' b.admin_email ≡ true
  pub email_short : length b.admin_email ≤ 255
  pub password_long : 12 ≤ length b.admin_password
  pub password_short : length b.admin_password ≤ 4096
  pub secret_long : 32 ≤ length b.internal_secret
  pub secret_short : length b.internal_secret ≤ 4096

-- A variable that a client may set: none that the agent manages, and none that looks like a secret.
pub record IsPermitted (allowed : List Bytes) (e : Bytes × Bytes) : Type 0 where
  pub key_form : env_re e.0 ≡ true
  pub not_reserved : member e.0 reserved_env ≡ false
  pub not_sensitive : is_sensitive_environment_key e.0 ≡ false
  pub is_allowed : member e.0 allowed ≡ true
  pub value_short : length e.1 ≤ 4096

pub record IsAcceptable (pkg : Packages) (c : Config) (r : CreateDeploymentRequest) : Type 0 where
  pub names : HasNames pkg c r
  pub limits : HasLimits r
  pub bootstrap : HasBootstrap r.bootstrap
  pub environment : All (IsPermitted c.panel.allowed_environment_keys) r.environment

permitted :
    (pkg : Packages) (allowed : List Bytes) (e : Bytes × Bytes)
    → variable_fault pkg allowed e ≡ []
    → IsPermitted allowed e
unfolding variable_fault
permitted pkg allowed (k, v) h = record {
  key_form = ground arith;
  not_reserved = ground arith;
  not_sensitive = ground arith;
  is_allowed = ground arith;
  value_short = ground arith;
}

All-IsPermitted :
    (pkg : Packages) (allowed : List Bytes) (es : List (Bytes × Bytes))
    → environment_faults pkg allowed es ≡ []
    → All (IsPermitted allowed) es
unfolding environment_faults
All-IsPermitted pkg allowed [] h = tt
All-IsPermitted pkg allowed (e ∷ es) h =
    let (here, there) = no_faults (variable_fault pkg allowed e) _ h in
    (permitted pkg allowed e here, All-IsPermitted pkg allowed es there)

has_bootstrap : (b : Bootstrap) → bootstrap_faults b ≡ [] → HasBootstrap b
unfolding bootstrap_faults
has_bootstrap b h = record {
  name_given = ground arith;
  name_short = ground arith;
  email_form = ground arith;
  email_short = ground arith;
  password_long = ground arith;
  password_short = ground arith;
  secret_long = ground arith;
  secret_short = ground arith;
}

has_limits : (r : CreateDeploymentRequest) → limit_faults r ≡ [] → HasLimits r
unfolding limit_faults
has_limits r h = record {
  memory = ground arith;
  cpu = ground arith;
  absolute = ground arith;
  no_cr = ground arith;
  no_lf = ground arith;
  timeout_low = ground arith;
  timeout_high = ground arith;
  variables = ground arith;
}

aliases_formed :
    (pkg : Packages) (hostname : Bytes) (as_ seen : List Bytes)
    → alias_faults pkg hostname seen as_ ≡ []
    → All (λ a. validate_dns_hostname pkg a ≡ none × same a hostname ≡ false) as_
unfolding alias_faults
aliases_formed pkg hostname [] seen h = tt
aliases_formed pkg hostname (a ∷ as_) seen h =
    let (here, there) = no_faults (alias_fault pkg hostname seen a) _ h in
    (
      (valid here, differs here),
      aliases_formed pkg hostname as_ (see_alias pkg hostname seen a) there,
    )
  where
    valid : alias_fault pkg hostname seen a ≡ [] → validate_dns_hostname pkg a ≡ none
    valid f = ground arith

    differs : alias_fault pkg hostname seen a ≡ [] → same a hostname ≡ false
    differs f = ground arith

has_names :
    (pkg : Packages) (c : Config) (r : CreateDeploymentRequest)
    → identity_faults pkg c r ≡ []
    → HasNames pkg c r
unfolding identity_faults
has_names pkg c r h =
    let (deployment, h1) = no_faults (fault (not (uuid_re r.deployment_id)) _) _ h in
    let (project, h2) = no_faults (fault (not (uuid_re r.project_id)) _) _ h1 in
    let (host, h3) = no_faults (fault _ _) _ h2 in
    let (count, h4) = no_faults (fault (ltb 1 (length r.aliases)) _) _ h3 in
    let (aliases, h5) = no_faults (alias_faults pkg r.hostname [] r.aliases) _ h4 in
    let (image, h6) = no_faults (fault_of (validate_panel_image pkg r.image c)) _ h5 in
    let (name, h7) = no_faults (fault (not (db_re r.database.database_name)) _) _ h6 in
    let (user, h8) = no_faults (fault (not (db_re r.database.username)) _) _ h7 in
    let named = or_false (not (host_re r.hostname)) _ (no_fault _ _ host) in
    record {
      deployment_uuid = true_of_not _ (no_fault _ _ deployment);
      project_uuid = true_of_not _ (no_fault _ _ project);
      hostname_form = true_of_not _ named.0;
      hostname_suffix = true_of_not _ named.1;
      one_alias = at_most_one (length r.aliases) (no_fault _ _ count);
      alias_form = aliases_formed pkg r.hostname r.aliases [] aliases;
      image = no_fault_of _ image;
      database_name = true_of_not _ (no_fault _ _ name);
      username = true_of_not _ (no_fault _ _ user);
      different = no_fault _ _ h8;
    }
  where
    at_most_one : (n : ℕ) → ltb 1 n ≡ false → n ≤ 1
    at_most_one n e = ground arith

-- A create request that ValidateCreate accepts, once normalised, has UUIDs for names, a hostname
-- under the configured suffix, at most one other hostname, which is a DNS name and differs from it,
-- an image that the configuration allows, different database identifiers, limits in their ranges, a
-- bootstrap whose texts have the lengths asked for, and only variables that a client may set.
pub validate_create_sound :
    (pkg : Packages) (c : Config) (r : CreateDeploymentRequest)
    → (validate_create pkg c r).1 ≡ none
    → IsAcceptable pkg c (validate_create pkg c r).0
unfolding validate_create create_faults
validate_create_sound pkg c r h =
    let q = (validate_create pkg c r).0 in
    let (names, h1) = no_faults (identity_faults pkg c q) _ (unjoined _ h) in
    let (limits, h2) = no_faults (limit_faults q) _ h1 in
    let (boot, vars) = no_faults (bootstrap_faults q.bootstrap) _ h2 in
    record {
      names = has_names pkg c q names;
      limits = has_limits q limits;
      bootstrap = has_bootstrap q.bootstrap boot;
      environment = All-IsPermitted pkg c.panel.allowed_environment_keys q.environment vars;
    }
