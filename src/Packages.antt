-- ===== src/Packages.antt =====
-- What the agent takes from packages outside the repository, as a parameter: image references,
-- addresses, quoting, digests, and the JSON texts of the values that it stores or returns.
pub mod Http
use centralcloud_agent.Prelude.{Bool, Option, List, Bytes}
use centralcloud_agent.Errors.{Result}
use centralcloud_agent.Contracts.{
  CreateDeploymentRequest, Bootstrap, UpgradeRequest, AdminResetRequest, AcceptedOperation,
  AcceptedCreateOperation,
}
use centralcloud_agent.Domain.Clock.{Time}

-- reference.Named: its familiar name without tag or digest, and its digest if it has one
pub record Reference : Type 0 where
  pub familiar_name : Bytes
  pub digest : Option Bytes

-- permanentSecrets of internal/deployment/service.go
pub record PermanentSecrets : Type 0 where
  pub database_password : Bytes
  pub app_key : Bytes
  pub internal_secret : Bytes

-- panelBootstrap and panelAdminReset
pub record PanelBootstrap : Type 0 where
  pub name : Bytes
  pub email : Bytes
  pub password : Bytes

pub record PanelAdminReset : Type 0 where
  pub email : Bytes
  pub password : Bytes

pub record Packages : Type 0 where
  -- reference.ParseNormalizedNamed
  pub parse_named : Bytes → Option Reference
  -- netip.ParseAddr, and whether it succeeds
  pub parse_addr : Bytes → Bool
  -- netip.ParsePrefix, and whether it succeeds
  pub parse_prefix : Bytes → Bool
  -- strconv.Quote, the verb %q
  pub quote : Bytes → Bytes
  -- sha256.Sum256, hex.EncodeToString and base64.StdEncoding.EncodeToString
  pub sha256 : Bytes → Bytes
  pub hex : Bytes → Bytes
  pub base64 : Bytes → Bytes
  -- json.Marshal and json.Unmarshal
  pub json_error : Bytes → Bytes
  pub marshal_secrets : PermanentSecrets → Bytes
  pub unmarshal_secrets : Bytes → Option PermanentSecrets
  pub marshal_bootstrap : Bootstrap → Bytes
  pub unmarshal_bootstrap : Bytes → Option Bootstrap
  pub marshal_panel_bootstrap : PanelBootstrap → Bytes
  pub marshal_panel_reset : PanelAdminReset → Bytes
  pub unmarshal_upgrade : Bytes → Option UpgradeRequest
  pub unmarshal_reset : Bytes → Option AdminResetRequest
  pub marshal_accepted : AcceptedOperation → Bytes
  pub marshal_accepted_create : AcceptedCreateOperation → Bytes
  -- the same of the columns of a deployment
  pub marshal_request : CreateDeploymentRequest → Result Bytes
  pub unmarshal_request : Bytes → Result CreateDeploymentRequest
  pub marshal_aliases : List Bytes → Result Bytes
  pub unmarshal_aliases : Bytes → Result (List Bytes)
  -- {"purge_token": ..., "expires_at": ...} and {"deployment_id": ..., "status": "succeeded"}
  pub marshal_purge_token : Bytes → Time → Bytes
  pub marshal_succeeded : Bytes → Bytes
