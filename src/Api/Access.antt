-- ===== src/Api/Access.antt =====
-- internal/api/server.go: what a request passes before its route is looked up: New, context,
-- filterSource, limit and authenticate. The deferred recover is left out, since no handler panics.
use centralcloud_agent.Prelude.{
  Bool, true, false, not, ◌&&◌, ◌||◌, Option, none, some, List, [], ◌∷◌, ◌==◌, if◌then◌else◌, ltb,
  leb, Bytes, codes, length, same, member, has_prefix, to_lower, lookup, insert, trim_space,
}
use centralcloud_agent.Errors.{Err, ok, plain}
use centralcloud_agent.Config.{Config}
use centralcloud_agent.Packages.{Packages}
use centralcloud_agent.Packages.Http.{Http}
use centralcloud_agent.Runtime.{
  Limiter, Act, pure, raise, lift, asks, sample, fresh_id, refuse_if, ◌>>=◌, ◌>>◌,
}
use centralcloud_agent.Api.{Peer, Request, Handler, write_error}

-- The fields that New reads from files and texts; `source_cidrs` are texts that parse.
pub record Server : Type 0 where
  pub token : Bytes
  pub token_digest : Bytes
  pub allowed : List Bytes
  pub source_cidrs : List Bytes

-- os.ReadFile
unfoldable pub read_file : Bytes → Act Bytes
read_file path = do r ← sample (λ env n. env.file n path); lift r

unfoldable pub parse_prefixes : Packages → List Bytes → Act (Unit {0})
parse_prefixes pkg [] = pure tt
parse_prefixes pkg (raw ∷ rest) =
    let later = parse_prefixes pkg rest in
    if pkg.parse_prefix raw then later else raise (plain (codes "parse allowed source CIDR"))

unfoldable pub load_token : Config → Act Bytes
load_token c = if not (same c.security.mode (codes "token")) then pure [] else do
  b ← read_file c.security.token_file
  refuse_if (ltb (length (trim_space b)) 32)
      (plain (codes "development token must be at least 32 bytes"))
  pure (trim_space b)

abbrev bad_digest : Err
bad_digest =
    plain (codes "security.token_sha256_file must contain one SHA-256 digest in hexadecimal")

abbrev pub a_digest : Option Bytes → Act Bytes
a_digest none = raise bad_digest
a_digest (some d) = if length d == 32 then pure d else raise bad_digest

unfoldable pub load_digest : Config → Act Bytes
load_digest c = if not (same c.security.mode (codes "bearer")) then pure [] else do
  b ← read_file c.security.token_sha256_file
  http ← asks (λ env. env.http)
  a_digest (http.decode_hex (trim_space b))

unfoldable pub new_server : Act Server
new_server = do
  c ← asks (λ env. env.config)
  pkg ← asks (λ env. env.packages)
  parse_prefixes pkg c.security.allowed_source_cidrs
  token ← load_token c
  digest ← load_digest c
  pure (record {
    token = token;
    token_digest = digest;
    allowed = c.security.allowed_client_sans;
    source_cidrs = c.security.allowed_source_cidrs;
  })

-- strings.TrimPrefix
unfoldable pub trim_prefix : Bytes → Bytes → Bytes
trim_prefix s [] = s
trim_prefix [] (p ∷ ps) = []
trim_prefix (b ∷ s) (p ∷ ps) =
    let rest = trim_prefix s ps in if has_prefix (b ∷ s) (p ∷ ps) then rest else b ∷ s

unfoldable pub bearer_value : Request → Bytes
unfolding trim_prefix
bearer_value req = trim_prefix req.headers.authorization (codes "Bearer ")

unfoldable pub any_allowed : List Bytes → List Bytes → Bool
unfolding member
any_allowed allowed [] = false
any_allowed allowed (n ∷ ns) = member n allowed || any_allowed allowed ns

abbrev pub peer_allowed : List Bytes → Option Peer → Bool
peer_allowed allowed none = false
peer_allowed allowed (some p) = any_allowed allowed p.dns_names || any_allowed allowed p.uris

-- The credentials of a request, in the mode of the configuration.
unfoldable pub authentic : Packages → Config → Server → Request → Bool
unfolding bearer_value any_allowed same
authentic pkg c s req =
    if same c.security.mode (codes "token")
    then length (bearer_value req) == length s.token && same (bearer_value req) s.token
    else if same c.security.mode (codes "bearer")
    then leb 32 (length (bearer_value req)) && same (pkg.sha256 (bearer_value req)) s.token_digest
    else peer_allowed s.allowed req.peer

unfoldable pub authenticate : Server → Handler → Handler
unfolding authentic write_error
authenticate s next req = do
  c ← asks (λ env. env.config)
  pkg ← asks (λ env. env.packages)
  if authentic pkg c s req
      then next req
      else write_error req 401 (codes "unauthorized") (codes "authentication failed")

abbrev pub host_of : Option Bytes → Bytes
host_of none = []
host_of (some h) = h

abbrev pub peer_name : Option Peer → Bytes → Bytes
peer_name none host = host
peer_name (some p) host = p.subject

unfoldable pub identity : Http → Request → Bytes
identity http req = peer_name req.peer (host_of (http.split_host_port req.remote_addr))

abbrev pub configured_limiter : Config → Limiter
configured_limiter c = record {
  rate_per_second = c.server.rate_per_second;
  burst = c.server.rate_burst;
}

abbrev pub known_or_new : Bytes → Option Limiter → Act Limiter
known_or_new id (some l) env w = (ok l, w)
known_or_new id none env w = (
  ok (configured_limiter env.config),
  record w { limiters = insert id (configured_limiter env.config) w.limiters },
)

-- s.limiters[id], made if it is missing
unfoldable pub limiter_of : Bytes → Act Limiter
unfolding lookup insert
limiter_of id env w = known_or_new id (lookup id w.limiters) env w

unfoldable pub limit : Handler → Handler
unfolding identity limiter_of write_error
limit next req = do
  http ← asks (λ env. env.http)
  l ← limiter_of (identity http req)
  allowed ← sample (λ env n. env.allows n l)
  if allowed
      then next req
      else write_error req 429 (codes "rate_limited") (codes "rate limit exceeded")

unfoldable pub any_prefix_contains : Http → Bytes → List Bytes → Bool
any_prefix_contains http host [] = false
any_prefix_contains http host (p ∷ ps) =
    http.prefix_contains p host || any_prefix_contains http host ps

abbrev pub source_allowed : Packages → Http → List Bytes → Option Bytes → Bool
source_allowed pkg http cidrs none = false
source_allowed pkg http cidrs (some host) =
    pkg.parse_addr host && any_prefix_contains http host cidrs

abbrev pub is_open : List Bytes → Bool
is_open [] = true
is_open (p ∷ ps) = false

-- A server without prefixes admits every source.
abbrev pub admits : Packages → Http → Server → Request → Bool
admits pkg http s req =
    is_open s.source_cidrs
    || source_allowed pkg http s.source_cidrs (http.split_host_port req.remote_addr)

unfoldable pub filter_source : Server → Handler → Handler
unfolding any_prefix_contains write_error
filter_source s next req = do
  pkg ← asks (λ env. env.packages)
  http ← asks (λ env. env.http)
  if admits pkg http s req
      then next req
      else write_error req 403 (codes "source_ip_forbidden") (codes "source IP is not allowed")

abbrev pub correlate : Bytes → Act Bytes
correlate [] = fresh_id
correlate (b ∷ cid) = pure (b ∷ cid)

-- The request's correlation identifier, or a new one, in its context and in the response.
unfoldable pub with_context : Handler → Handler
with_context next req = do
  cid ← correlate (to_lower req.headers.correlation_id)
  resp ← next (record req { correlation = cid })
  pure (record resp { correlation_id = cid })
