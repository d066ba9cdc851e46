-- ===== src/Api/Routes.antt =====
-- internal/api/server.go: the routes of Handler, and the server as a whole. A path is the list of its
-- segments; net/http redirects one that is not clean before it comes here.
use centralcloud_agent.Prelude.{
  Bool, not, ◌&&◌, ◌||◌, List, [], ◌∷◌, if◌then◌else◌, Bytes, codes, same, is_empty,
}
use centralcloud_agent.Domain.Model.{OpType, op_start, op_stop, op_restart}
use centralcloud_agent.Runtime.{pure, sample, ◌>>=◌}
use centralcloud_agent.Api.{Request, Handler, write_error}
use centralcloud_agent.Api.Access.{Server, authenticate, limit, filter_source, with_context}
use centralcloud_agent.Api.Handlers.{create, action, upgrade, admin_reset, purge_token, delete}
use centralcloud_agent.Api.Reading.{health, ready, resource, list, get, operation, logs}

-- The paths of the patterns, with the segment that {id} stands for.
pub data Endpoint : Type 0 where
  at_health at_ready at_resources at_deployments at_metrics at_unknown : Endpoint
  at_deployment at_upgrade at_reset at_token at_logs at_operation : Bytes → Endpoint
  at_action : OpType → Bytes → Endpoint

abbrev one_segment : Bytes → Endpoint
one_segment a = if same a (codes "metrics") then at_metrics else at_unknown

abbrev two_segments : Bytes → Endpoint
two_segments a =
    if same a (codes "health")
    then at_health
    else if same a (codes "ready")
    then at_ready
    else if same a (codes "resources")
    then at_resources
    else if same a (codes "deployments")
    then at_deployments
    else at_unknown

abbrev three_segments : Bytes → Bytes → Endpoint
three_segments a id =
    if same a (codes "deployments")
    then at_deployment id
    else if same a (codes "operations")
    then at_operation id
    else at_unknown

abbrev four_segments : Bytes → Bytes → Endpoint
four_segments id b =
    if same b (codes "start")
    then at_action op_start id
    else if same b (codes "stop")
    then at_action op_stop id
    else if same b (codes "restart")
    then at_action op_restart id
    else if same b (codes "upgrade")
    then at_upgrade id
    else if same b (codes "admin-reset")
    then at_reset id
    else if same b (codes "purge-token")
    then at_token id
    else if same b (codes "logs")
    then at_logs id
    else at_unknown

abbrev is_v1 : Bytes → Bool
is_v1 v = same v (codes "v1")

-- A wildcard matches a segment that is not empty.
unfoldable pub endpoint : List Bytes → Endpoint
unfolding same
endpoint (a ∷ []) = one_segment a
endpoint (v ∷ a ∷ []) = if is_v1 v then two_segments a else at_unknown
endpoint (v ∷ a ∷ id ∷ []) =
    if is_v1 v && not (is_empty id) then three_segments a id else at_unknown
endpoint (v ∷ a ∷ id ∷ b ∷ []) =
    if is_v1 v && same a (codes "deployments") && not (is_empty id)
    then four_segments id b
    else at_unknown
endpoint _ = at_unknown

abbrev pub not_allowed : Handler
not_allowed req = write_error req 405 (codes "method_not_allowed") (codes "method not allowed")

-- A pattern with GET matches HEAD too.
abbrev pub is_get : Request → Bool
is_get req = same req.method (codes "GET") || same req.method (codes "HEAD")

abbrev pub is_post : Request → Bool
is_post req = same req.method (codes "POST")

abbrev pub is_delete : Request → Bool
is_delete req = same req.method (codes "DELETE")

abbrev pub on_get : Handler → Handler
on_get h req = if is_get req then h req else not_allowed req

abbrev pub on_post : Handler → Handler
on_post h req = if is_post req then h req else not_allowed req

-- promhttp.Handler(), which answers by itself.
unfoldable pub metrics : Handler
metrics req = do
  answer ← sample (λ env. env.metrics_answer)
  pure (record {
    status = answer.status;
    content_type = answer.content_type;
    content_type_options = answer.content_type_options;
    correlation_id = [];
    body = answer.body;
  })

unfoldable pub route : Endpoint → Handler
unfolding same
route at_health req = on_get health req
route at_ready req = on_get ready req
route at_resources req = on_get resource req
route at_deployments req =
    if is_get req then list req else if is_post req then create req else not_allowed req
route (at_deployment id) req =
    if is_get req then get id req else if is_delete req then delete id req else not_allowed req
route (at_action typ id) req = on_post (action typ id) req
route (at_upgrade id) req = on_post (upgrade id) req
route (at_reset id) req = on_post (admin_reset id) req
route (at_token id) req = on_post (purge_token id) req
route (at_logs id) req = on_get (logs id) req
route (at_operation id) req = on_get (operation id) req
route at_metrics req = on_get metrics req
route at_unknown req = write_error req 404 (codes "not_found") (codes "route not found")

unfoldable pub mux : Handler
unfolding endpoint
mux req = route (endpoint req.segments) req

unfoldable pub handler : Server → Handler
unfolding authenticate limit filter_source with_context
handler s = with_context (filter_source s (limit (authenticate s mux)))
