-- ===== src/Api/Reading.antt =====
-- internal/api/server.go: the handlers that only read, one for each route.
use centralcloud_agent.Prelude.{
  ℕ, zero, suc, ◌==◌, Bool, true, false, ◌&&◌, ◌||◌, Option, none, some, List, [], ◌∷◌, map,
  if◌then◌else◌, Bytes, codes, is_empty, ℤ, pos, negsuc, lt_int,
}
use centralcloud_agent.Errors.{Result, ok, err}
use centralcloud_agent.Config.{NodeConfig}
use centralcloud_agent.Config.Validate.{digits_value}
use centralcloud_agent.Contracts.Views.{
  DeploymentView, OperationView, HealthResponse, ReadyResponse, ErrorBody, deployment_view,
  deployments_view, operation_view, health_view, ready_view, resource_view, log_view,
}
use centralcloud_agent.Packages.Http.{Http}
use centralcloud_agent.Domain.Clock.{Time, is_zero_time, format_time}
use centralcloud_agent.Domain.State.{state_text}
use centralcloud_agent.Domain.Model.{
  Deployment, Operation, type_text, status_text, collect_resources, ping_docker, ping_postgres,
  read_logs, docker_health, postgres_health, deployments_total, deployments_active,
  available_memory, available_disk,
}
use centralcloud_agent.Storage.Deployments.{get_deployment, list_deployments, ping}
use centralcloud_agent.Storage.Operations.{get_operation}
use centralcloud_agent.Runtime.{Act, pure, asks, attempt, invoke, invoke_for, ◌>>=◌, ◌>>◌}
use centralcloud_agent.Api.{
  Request, Response, Handler, write, write_error, or_error, gauge, query_value,
}

-- Whether a ping succeeded, as a gauge and in a response.
abbrev pub reachable : Result (Unit {0}) → Bool
reachable (ok _) = true
reachable (err _) = false

abbrev pub as_gauge : Bool → ℤ
as_gauge true = pos 1
as_gauge false = pos 0

abbrev pub as_health : Bool → Bytes
as_health true = codes "ok"
as_health false = codes "error"

-- The answer of the health route, by which of Docker, PostgreSQL and the database are there.
unfoldable pub health_response : NodeConfig → Bool → Bool → Bool → HealthResponse
health_response node docker postgres database = record {
  node_id = node.id;
  node_name = node.name;
  agent_version = codes "dev";
  protocol_version = codes "1";
  commit = codes "unknown";
  build_date = codes "unknown";
  status = if docker && postgres && database then codes "ok" else codes "degraded";
  version = codes "dev";
  docker = as_health docker;
  postgres = as_health postgres;
  database = as_health database;
  capabilities = codes "hostname_aliases" ∷ codes "readiness_v1" ∷ [];
}

unfoldable pub health : Handler
unfolding health_response
health req = do
  c ← asks (λ env. env.config)
  docker ← attempt (invoke ping_docker)
  gauge docker_health (as_gauge (reachable docker))
  postgres ← attempt (invoke ping_postgres)
  gauge postgres_health (as_gauge (reachable postgres))
  database ← attempt ping
  write (if reachable docker && reachable postgres && reachable database then 200 else 503) (
      health_view
        (health_response c.node (reachable docker) (reachable postgres) (reachable database)))

-- `if e != nil { s.writeError(w, r, 503, code, message, nil); return }`
abbrev pub or_unavailable :
    Request → Result (Unit {0}) → Bytes → Bytes → Act Response → Act Response
or_unavailable req (ok _) code text next = next
or_unavailable req (err e) code text next = write_error req 503 code text

abbrev ready_response : NodeConfig → ReadyResponse
ready_response node = record {
  node_id = node.id;
  node_name = node.name;
  agent_version = codes "dev";
  protocol_version = codes "1";
  commit = codes "unknown";
  build_date = codes "unknown";
  status = codes "ready";
}

unfoldable pub ready : Handler
ready req = do
  c ← asks (λ env. env.config)
  docker ← attempt (invoke ping_docker)
  or_unavailable req docker (codes "docker_unavailable") (codes "Docker is unavailable") (do
    postgres ← attempt (invoke ping_postgres)
    or_unavailable req postgres (codes "postgres_unavailable") (codes "PostgreSQL is unavailable")
        (do
          database ← attempt ping
          or_unavailable req database (codes "state_unavailable")
              (codes "Agent state is unavailable")
              (write 200 (ready_view (ready_response c.node)))))

unfoldable pub resource : Handler
resource req = do
  r ← attempt (invoke_for collect_resources (λ env. env.resources))
  or_error req r λ v. do
    gauge deployments_total v.deployment_count
    gauge deployments_active v.active_deployment_count
    gauge available_memory v.memory_available_bytes
    gauge available_disk v.disk_available_bytes
    write 200 (resource_view v)

unfoldable pub convert : Deployment → DeploymentView
convert d = record {
  deployment_id = d.request.deployment_id;
  project_id = d.request.project_id;
  hostname = d.request.hostname;
  aliases = d.request.aliases;
  image = d.request.image;
  state = state_text d.state;
  resources = d.request.resources;
  database = d.request.database;
  healthcheck = d.request.healthcheck;
  credentials_ref = d.credentials_ref;
  failed_step = d.failed_step;
  created_at = d.created_at;
  updated_at = d.updated_at;
}

unfoldable pub list : Handler
unfolding convert
list req = do
  r ← attempt list_deployments
  or_error req r λ ds. write 200 (deployments_view (map convert ds))

unfoldable pub get : Bytes → Handler
unfolding convert
get id req = do
  r ← attempt (get_deployment id)
  or_error req r λ d. write 200 (deployment_view (convert d))

abbrev error_of : Operation → Option ErrorBody
error_of o =
    if is_empty o.error_code
    then none
    else some (record { code = o.error_code; message = o.error_message; correlation_id = [] })

unfoldable pub show_operation : Http → Operation → OperationView
show_operation http o = record {
  id = o.id;
  deployment_id = o.deployment_id;
  typ = type_text o.typ;
  status = status_text o.status;
  error = error_of o;
  result = if is_empty o.result then none else http.unmarshal_object o.result;
  created_at = o.created_at;
  updated_at = o.updated_at;
}

unfoldable pub operation : Bytes → Handler
unfolding show_operation
operation id req = do
  http ← asks (λ env. env.http)
  r ← attempt (get_operation id)
  or_error req r λ o. write 200 (operation_view (show_operation http o))

abbrev or_zero : Option ℕ → ℕ
or_zero none = 0
or_zero (some n) = n

abbrev below_zero : ℕ → ℤ
below_zero zero = pos 0
below_zero (suc n) = negsuc n

-- strconv.Atoi: 0 where it fails, but without a bound.
unfoldable pub atoi : Bytes → ℤ
unfolding digits_value
atoi [] = pos 0
atoi (b ∷ s) =
    if b == b'-'
    then below_zero (or_zero (digits_value 0 s))
    else if b == b'+'
    then pos (or_zero (digits_value 0 s))
    else pos (or_zero (digits_value 0 (b ∷ s)))

-- The parameter limit, 100 without one.
unfoldable pub limit_value : Bytes → ℤ
unfolding atoi
limit_value v = if is_empty v then pos 100 else atoi v

abbrev decode_time : Http → Option Bytes → Option Time
decode_time http none = none
decode_time http (some b) = http.parse_time b

-- The parameter cursor; none for one that is refused.
unfoldable pub since_cursor : Http → Bytes → Option Time
since_cursor http cursor =
    if is_empty cursor
    then some (record { seconds = 0; nanos = 0 })
    else decode_time http (http.decode_base64_url cursor)

-- ReadLogs of internal/deployment/service.go
unfoldable pub redacted_logs : Bytes → Time → ℤ → Act (List Bytes × Time)
redacted_logs id since limit = do
  (lines, next) ← invoke_for (read_logs id since limit) (λ env. env.logs)
  redact ← asks (λ env. env.redact)
  pure (map redact lines, next)

unfoldable pub next_cursor : Http → Time → Bytes
next_cursor http next = if is_zero_time next then [] else http.encode_base64_url (format_time next)

abbrev pub page : Request → Bytes → ℤ → Option Time → Act Response
page req id limit none = write_error req 400 (codes "invalid_cursor") (codes "invalid cursor")
page req id limit (some since) = do
  http ← asks (λ env. env.http)
  r ← attempt (redacted_logs id since limit)
  or_error req r
      λ v. write 200 (log_view (record { lines = v.0; next_cursor = next_cursor http v.1 }))

unfoldable pub logs : Bytes → Handler
unfolding query_value limit_value since_cursor redacted_logs next_cursor
logs id req = do
  http ← asks (λ env. env.http)
  let limit = limit_value (query_value req (codes "limit"))
  if lt_int limit (pos 1) || lt_int (pos 1000) limit
      then write_error req 400 (codes "invalid_limit") (codes "limit must be between 1 and 1000")
      else page req id limit (since_cursor http (query_value req (codes "cursor")))
