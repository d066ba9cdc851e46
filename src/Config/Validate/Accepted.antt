-- ===== src/Config/Validate/Accepted.antt =====
-- Validate of internal/config/config.go: the configurations that it accepts.
use centralcloud_agent.Prelude.{
  ◌≡◌, refl, Bool, true, false, not, ◌&&◌, ◌||◌, none, List, [], ◌∷◌, Bytes, codes, is_empty, same,
  same_iff, has_prefix, contains_byte, cut_before, member, pos, lt_int, All, arith,
}
use centralcloud_agent.Errors.Faults.{fault, no_fault, no_faults, unjoined, or_false, true_of_not}
use centralcloud_agent.Config.{Config, SecurityConfig, DockerConfig}
use centralcloud_agent.Packages.{Packages}
use centralcloud_agent.Domain.Syntax.{env_re}
use centralcloud_agent.Config.Validate.{
  cut_after, parse_uint, is_root, is_empty_list, mode_is, mtls, token, bearer, differ,
  security_faults, cidr_faults, docker_faults, service_faults, panel_faults, key_faults,
  node_faults, validate,
}

-- One of the three modes, with the files that it reads.
pub data IsSecure (s : SecurityConfig) : Type 0 where
  by_mtls :
      mode_is s mtls ≡ true
      → is_empty s.certificate_file ≡ false
      → is_empty s.private_key_file ≡ false
      → is_empty s.client_ca_file ≡ false
      → is_empty_list s.allowed_client_sans ≡ false
      → IsSecure s
  by_token : mode_is s token ≡ true → is_empty s.token_file ≡ false → IsSecure s
  by_bearer : mode_is s bearer ≡ true → is_empty s.token_sha256_file ≡ false → IsSecure s

-- A numeric identity other than root's.
pub record HasIdentity (user : Bytes) : Type 0 where
  pub separated : contains_byte b':' user ≡ true
  pub uid : is_root (parse_uint (cut_before b':' user)) ≡ false
  pub gid : is_root (parse_uint (cut_after b':' user)) ≡ false

-- Each key once.
abbrev pub IsDistinct : List Bytes → Type 0
IsDistinct [] = Unit
IsDistinct (k ∷ ks) = member k ks ≡ false × IsDistinct ks

pub record IsUsable (pkg : Packages) (c : Config) : Type 0 where
  pub secure : IsSecure c.security
  pub master_key : is_empty c.security.master_key_file ≡ false
  pub prefixes : All (λ raw. pkg.parse_prefix raw ≡ true) c.security.allowed_source_cidrs
  pub socket : has_prefix c.docker.socket (codes "unix://") ≡ true
  pub user : HasIdentity c.docker.panel_user
  pub registry :
      differ (is_empty c.docker.registry_username_file) (is_empty c.docker.registry_token_file)
      ≡ false
  pub panels : is_empty c.storage.panel_directory ≡ false
  pub suffix : is_empty c.traefik.domain_suffix ≡ false
  pub room : lt_int c.limits.maximum_deployments (pos 1) ≡ false
  pub workers : lt_int c.limits.maximum_concurrent_operations (pos 1) ≡ false
  pub distinct : IsDistinct c.panel.allowed_environment_keys
  pub keys : All (λ k. env_re k ≡ true) c.panel.allowed_environment_keys

IsSecure-by_mode :
    (s : SecurityConfig) (m t b : Bool)
    → mode_is s mtls ≡ m
    → mode_is s token ≡ t
    → mode_is s bearer ≡ b
    → not m && (not t && not b) ≡ false
    → m
        && (is_empty s.certificate_file
            || is_empty s.private_key_file
            || is_empty s.client_ca_file
            || is_empty_list s.allowed_client_sans)
      ≡ false
    → t && is_empty s.token_file ≡ false
    → b && is_empty s.token_sha256_file ≡ false
    → IsSecure s
IsSecure-by_mode s true t b m_is t_is b_is one files tok bear =
    let (h1, sans) =
      or_false
        (is_empty s.certificate_file || is_empty s.private_key_file || is_empty s.client_ca_file) _
        files in
    let (h2, authority) =
      or_false (is_empty s.certificate_file || is_empty s.private_key_file) _ h1 in
    let (certificate, key) = or_false (is_empty s.certificate_file) _ h2 in
    by_mtls m_is certificate key authority sans
IsSecure-by_mode s false true b m_is t_is b_is one files tok bear = by_token t_is tok
IsSecure-by_mode s false false true m_is t_is b_is one files tok bear = by_bearer b_is bear
IsSecure-by_mode s false false false m_is t_is b_is one files tok bear = cc

faults-IsSecure :
    (s : SecurityConfig) → security_faults s ≡ [] → IsSecure s × is_empty s.master_key_file ≡ false
unfolding security_faults
faults-IsSecure s h =
    let (mode, h1) =
      no_faults
        (fault (not (mode_is s mtls) && (not (mode_is s token) && not (mode_is s bearer))) _) _ h in
    let (master, h2) = no_faults (fault (is_empty s.master_key_file) _) _ h1 in
    let (with_mtls, h3) = no_faults (fault (mode_is s mtls && _) _) _ h2 in
    let (with_token, with_bearer) = no_faults (fault (mode_is s token && _) _) _ h3 in
    (
      IsSecure-by_mode s (mode_is s mtls) (mode_is s token) (mode_is s bearer) refl refl refl
          (no_fault _ _ mode) (no_fault _ _ with_mtls) (no_fault _ _ with_token)
          (no_fault _ _ with_bearer),
      no_fault _ _ master,
    )

prefixes_parse :
    (pkg : Packages) (raws : List Bytes)
    → cidr_faults pkg raws ≡ []
    → All (λ raw. pkg.parse_prefix raw ≡ true) raws
unfolding cidr_faults
prefixes_parse pkg [] h = tt
prefixes_parse pkg (r ∷ rs) h =
    let (here, there) = no_faults (fault (not (pkg.parse_prefix r)) _) _ h in
    (true_of_not _ (no_fault _ _ here), prefixes_parse pkg rs there)

keys_formed :
    (pkg : Packages) (ks seen : List Bytes)
    → key_faults pkg ks seen ≡ []
    → All (λ k. env_re k ≡ true) ks
unfolding key_faults
keys_formed pkg [] seen h = tt
keys_formed pkg (k ∷ ks) seen h =
    let (here, there) = no_faults (fault (not (env_re k)) _) _ h in
    let (once, rest) = no_faults (fault (member k seen) _) _ there in
    (true_of_not _ (no_fault _ _ here), keys_formed pkg ks (k ∷ seen) rest)

keys_apart :
    (pkg : Packages) (ks seen : List Bytes)
    → key_faults pkg ks seen ≡ []
    → All (λ k. member k seen ≡ false) ks
unfolding key_faults
keys_apart pkg [] seen h = tt
keys_apart pkg (k ∷ ks) seen h =
    let (here, there) = no_faults (fault (not (env_re k)) _) _ h in
    let (once, rest) = no_faults (fault (member k seen) _) _ there in
    (no_fault _ _ once, later ks (keys_apart pkg ks (k ∷ seen) rest))
  where
    later :
        (js : List Bytes)
        → All (λ j. member j (k ∷ seen) ≡ false) js
        → All (λ j. member j seen ≡ false) js
    later [] a = tt
    later (j ∷ js) (a, as_) = (unseen j a, later js as_)
      where
        unseen : (j : Bytes) → member j (k ∷ seen) ≡ false → member j seen ≡ false
        unseen j e = unfold member in (or_false (same j k) _ e).1

not_among :
    (k : Bytes) (seen js : List Bytes)
    → All (λ j. member j (k ∷ seen) ≡ false) js
    → member k js ≡ false
unfolding member
not_among k seen [] a = refl
not_among k seen (j ∷ js) (a, as_) =
    ground (arith, not_among k seen js as_, same_iff k j, same_iff j k)

keys-IsDistinct :
    (pkg : Packages) (ks seen : List Bytes) → key_faults pkg ks seen ≡ [] → IsDistinct ks
unfolding key_faults
keys-IsDistinct pkg [] seen h = tt
keys-IsDistinct pkg (k ∷ ks) seen h =
    let (here, there) = no_faults (fault (not (env_re k)) _) _ h in
    let (once, rest) = no_faults (fault (member k seen) _) _ there in
    (
      not_among k seen ks (keys_apart pkg ks (k ∷ seen) rest),
      keys-IsDistinct pkg ks (k ∷ seen) rest,
    )

panel_user-HasIdentity : (d : DockerConfig) → docker_faults d ≡ [] → HasIdentity d.panel_user
unfolding docker_faults
panel_user-HasIdentity d h =
    let (socket, h1) = no_faults (fault (not (has_prefix d.socket _)) _) _ h in
    let (user, pair) = no_faults (fault _ _) _ h1 in
    let (named, gid) =
      or_false
        (not (contains_byte b':' d.panel_user)
          || is_root (parse_uint (cut_before b':' d.panel_user)))
        _ (no_fault _ _ user) in
    let (separated, uid) = or_false (not (contains_byte b':' d.panel_user)) _ named in
    record { separated = true_of_not _ separated; uid = uid; gid = gid }

socket_and_registry :
    (d : DockerConfig)
    → docker_faults d ≡ []
    → has_prefix d.socket (codes "unix://") ≡ true
      × differ (is_empty d.registry_username_file) (is_empty d.registry_token_file) ≡ false
unfolding docker_faults
socket_and_registry d h =
    let (socket, h1) = no_faults (fault (not (has_prefix d.socket _)) _) _ h in
    let (user, pair) = no_faults (fault _ _) _ h1 in
    (true_of_not _ (no_fault _ _ socket), no_fault _ _ pair)

-- A configuration that Validate accepts names a mode with all the files that it reads, a master key,
-- source prefixes that parse, a Unix socket, a user and a group that are numeric, fit 32 bits and are
-- not root's, both registry files or neither, a directory for panels, a domain suffix, room for a
-- deployment, a worker, and well-formed environment keys without a duplicate.
pub validate_sound : (pkg : Packages) (c : Config) → validate pkg c ≡ none → IsUsable pkg c
unfolding validate service_faults panel_faults
validate_sound pkg c h =
    let (node, h1) = no_faults (node_faults c) _ (unjoined _ h) in
    let (security, h2) = no_faults (security_faults c.security) _ h1 in
    let (cidrs, h3) = no_faults (cidr_faults pkg c.security.allowed_source_cidrs) _ h2 in
    let (docker, h4) = no_faults (docker_faults c.docker) _ h3 in
    let (service, h5) = no_faults (service_faults c) _ h4 in
    let (panel, keys) = no_faults (panel_faults c) _ h5 in
    let (directory, s1) = no_faults (fault (is_empty c.storage.panel_directory) _) _ service in
    let (postgres, s2) =
      no_faults
        (fault (is_empty c.postgres.host || is_empty c.postgres.administrator_username || _) _) _
        s1 in
    let (suffix, s3) = no_faults (fault (is_empty c.traefik.domain_suffix) _) _ s2 in
    let (install, p1) = no_faults (fault (is_empty_list c.panel.install_command) _) _ panel in
    let (migrate, p2) = no_faults (fault (is_empty_list c.panel.migration_command) _) _ p1 in
    let (reset, limits) = no_faults (fault (is_empty_list c.panel.admin_reset_command) _) _ p2 in
    let positive = or_false (lt_int c.limits.maximum_deployments (pos 1)) _ (no_fault _ _ limits) in
    record {
      secure = (faults-IsSecure c.security security).0;
      master_key = (faults-IsSecure c.security security).1;
      prefixes = prefixes_parse pkg c.security.allowed_source_cidrs cidrs;
      socket = (socket_and_registry c.docker docker).0;
      user = panel_user-HasIdentity c.docker docker;
      registry = (socket_and_registry c.docker docker).1;
      panels = no_fault _ _ directory;
      suffix = no_fault _ _ suffix;
      room = positive.0;
      workers = positive.1;
      distinct = keys-IsDistinct pkg c.panel.allowed_environment_keys [] keys;
      keys = keys_formed pkg c.panel.allowed_environment_keys [] keys;
    }
