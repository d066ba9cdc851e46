-- ===== src/Packages/Http.antt =====
-- What internal/api takes from packages outside the repository, as a parameter: media types, instants,
-- addresses, base64 and hexadecimal texts, JSON decoders and encoders.
use centralcloud_agent.Prelude.{ℕ, Bool, Option, Bytes}
use centralcloud_agent.Contracts.{CreateDeploymentRequest, UpgradeRequest, AdminResetRequest}
use centralcloud_agent.Contracts.Views.{View}
use centralcloud_agent.Domain.Clock.{Time}

-- What promhttp.Handler answers: its page, or the error of gathering the metrics with status 500.
pub record MetricsAnswer : Type 0 where
  pub status : ℕ
  pub content_type : Bytes
  pub content_type_options : Bytes
  pub body : Bytes

pub record Http : Type 0 where
  -- mime.ParseMediaType, without the parameters
  pub parse_media_type : Bytes → Option Bytes
  -- time.Parse with time.RFC3339 or time.RFC3339Nano, which accept the same texts; `none` also for
  -- an instant before the year 1
  pub parse_time : Bytes → Option Time
  -- net.SplitHostPort, without the port
  pub split_host_port : Bytes → Option Bytes
  -- the text of a prefix, and of an address: ParsePrefix(p).Masked().Contains(ParseAddr(a).Unmap())
  pub prefix_contains : Bytes → Bytes → Bool
  -- hex.DecodeString
  pub decode_hex : Bytes → Option Bytes
  -- base64.RawURLEncoding
  pub encode_base64_url : Bytes → Bytes
  pub decode_base64_url : Bytes → Option Bytes
  -- json.Decoder with DisallowUnknownFields: the first value, and whether the input ends behind it
  pub decode_create : Bytes → Option (CreateDeploymentRequest × Bool)
  pub decode_upgrade : Bytes → Option (UpgradeRequest × Bool)
  pub decode_reset : Bytes → Option (AdminResetRequest × Bool)
  -- json.Unmarshal into a map: the object's text
  pub unmarshal_object : Bytes → Option Bytes
  -- json.Marshal
  pub marshal_view : View → Bytes
