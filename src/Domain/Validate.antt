-- ===== src/Domain/Validate.antt =====
-- internal/domain/validate.go: the checks of a request before anything is created for it.
use centralcloud_agent.Prelude.{
  ◌≡◌, refl, Bool, true, false, not, ◌||◌, Option, none, some, List, [], ◌∷◌, ◌++◌, ltb,
  if◌then◌else◌, Bytes, codes, length, is_empty, same, split, to_lower, member,
}
use centralcloud_agent.Errors.{Err, plain}
use centralcloud_agent.Config.{Config}
use centralcloud_agent.Packages.{Packages, Reference}
use centralcloud_agent.Domain.Syntax.{uuid_re, db_re, host_label_re, image_digest_re}

abbrev fail_if : Bool → Err → Option Err
fail_if true e = some e
fail_if false e = none

-- reservedEnv
abbrev pub reserved_env : List Bytes
reserved_env =
    codes "PGHOST"
    ∷ codes "PGPORT"
    ∷ codes "PGDATABASE"
    ∷ codes "PGUSER"
    ∷ codes "PGPASSWORD"
    ∷ codes "PGPASSWORD_FILE"
    ∷ codes "DATABASE_URL"
    ∷ codes "DB_PASSWORD_FILE"
    ∷ codes "APP_KEY_FILE"
    ∷ codes "PANEL_BOOTSTRAP_FILE"
    ∷ codes "CENTRALCLOUD_INTERNAL_SECRET_FILE"
    ∷ codes "PANEL_MANAGED"
    ∷ codes "APP_ENV"
    ∷ codes "APP_URL"
    ∷ codes "CENTRALPANEL_MODE"
    ∷ codes "CLOUD_PROJECT_ID"
    ∷ []

-- sensitiveEnvSegments
abbrev pub sensitive_env_segments : List Bytes
sensitive_env_segments =
    codes "PASSWORD"
    ∷ codes "PASSWD"
    ∷ codes "TOKEN"
    ∷ codes "SECRET"
    ∷ codes "CREDENTIAL"
    ∷ codes "CREDENTIALS"
    ∷ codes "KEY"
    ∷ codes "AUTHORIZATION"
    ∷ []

unfoldable pub any_member : List Bytes → List Bytes → Bool
unfolding member
any_member [] set = false
any_member (s ∷ ss) set = member s set || any_member ss set

unfoldable pub is_sensitive_environment_key : Bytes → Bool
unfolding any_member split same
is_sensitive_environment_key key =
    same key (codes "DATABASE_URL")
    || same key (codes "APP_KEY")
    || same key (codes "DB_PASSWORD")
    || any_member (split b'_' key) sensitive_env_segments

unfoldable pub validate_database_identifier : Packages → Bytes → Option Err
validate_database_identifier pkg v =
    fail_if (not (db_re v)) (plain (codes "invalid PostgreSQL identifier " ++ pkg.quote v))

unfoldable pub validate_deployment_id : Bytes → Option Err
validate_deployment_id v =
    fail_if (not (uuid_re (to_lower v))) (plain (codes "deployment_id must be a UUID"))

pub uuid_of-validate_deployment_id :
    (v : Bytes) → validate_deployment_id v ≡ none → uuid_re (to_lower v) ≡ true
unfolding validate_deployment_id
uuid_of-validate_deployment_id v h = accepted (uuid_re (to_lower v)) _ h
  where
    accepted : (b : Bool) (e : Err) → fail_if (not b) e ≡ none → b ≡ true
    accepted true e h = refl
    accepted false e h = absurd cc

-- The loop over the labels of a hostname.
unfoldable pub validate_labels : List Bytes → Option Err
validate_labels [] = none
validate_labels (l ∷ ls) =
    let rest = validate_labels ls in
    if ltb (length l) 1 || ltb 63 (length l) || not (host_label_re l)
    then some (plain (codes "invalid DNS hostname label"))
    else rest

unfoldable pub validate_dns_hostname : Packages → Bytes → Option Err
unfolding validate_labels
validate_dns_hostname pkg v =
    if is_empty v || ltb 253 (length v) || not (same v (to_lower v))
    then some (plain (codes "invalid DNS hostname"))
    else if pkg.parse_addr v
    then some (plain (codes "IP addresses are not DNS hostnames"))
    else validate_labels (split b'.' v)

-- The digest that an image reference must hold, if the configuration asks for one.
abbrev check_digest : Bool → Option Bytes → Option Err
check_digest false d = none
check_digest true none = some (plain (codes "panel image must include a valid sha256 digest"))
check_digest true (some d) =
    fail_if (not (image_digest_re d))
      (plain (codes "panel image must include a valid sha256 digest"))

abbrev check_repository : Bool → Reference → Reference → Option Err
check_repository digest named allowed =
    if not (same named.familiar_name allowed.familiar_name)
    then some (plain (codes "image repository is not allowed"))
    else check_digest digest named.digest

abbrev check_reference : Packages → Config → Option Reference → Option Err
check_reference pkg c none = some (plain (codes "invalid panel image reference"))
check_reference pkg c (some named) = elim (pkg.parse_named c.docker.panel_image_repository) [
  | none ↦ some (plain (codes "configured panel image repository is invalid"))
  | some allowed ↦ check_repository c.docker.require_image_digest named allowed
]

unfoldable pub validate_panel_image : Packages → Bytes → Config → Option Err
validate_panel_image pkg v c = check_reference pkg c (pkg.parse_named v)
