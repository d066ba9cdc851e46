-- ===== src/Api/Handlers.antt =====
-- internal/api/server.go: the handlers that change something, one for each route.
use centralcloud_agent.Prelude.{ℕ, [], if◌then◌else◌, Bytes, codes, same}
use centralcloud_agent.Domain.Model.{OpType, op_delete_soft}
use centralcloud_agent.Service.Submit.{
  submit_create, submit, submit_upgrade, submit_admin_reset, issue_purge_token, submit_purge,
}
use centralcloud_agent.Runtime.{Act, asks, attempt, ◌>>=◌}
use centralcloud_agent.Api.{
  Request, Response, Handler, write_raw, write_error, or_error, query_value,
}
use centralcloud_agent.Api.Requests.{mutation, read_json}

-- The end of each mutation: the service's answer, or its error.
unfoldable pub answered : Request → ℕ → Act Bytes → Act Response
answered req status m = do r ← attempt m; or_error req r (write_raw status)

unfoldable pub create : Handler
unfolding mutation read_json answered
create req = mutation req (do
  http ← asks (λ env. env.http)
  read_json req http.decode_create λ r raw.
      answered req 202 (submit_create r req.headers.idempotency_key req.method req.path raw))

unfoldable pub action : OpType → Bytes → Handler
unfolding mutation answered
action typ id req =
    mutation req
      (answered req 202 (submit typ id req.headers.idempotency_key req.method req.path []))

unfoldable pub upgrade : Bytes → Handler
unfolding mutation read_json answered
upgrade id req = mutation req (do
  http ← asks (λ env. env.http)
  read_json req http.decode_upgrade λ r raw.
      answered req 202 (submit_upgrade id req.headers.idempotency_key req.method req.path r raw))

unfoldable pub admin_reset : Bytes → Handler
unfolding mutation read_json answered
admin_reset id req = mutation req (do
  http ← asks (λ env. env.http)
  read_json req http.decode_reset λ r raw.
      answered req 202
        (submit_admin_reset id req.headers.idempotency_key req.method req.path r raw))

unfoldable pub purge_token : Bytes → Handler
unfolding mutation answered
purge_token id req =
    mutation req
      (answered req 201 (issue_purge_token id req.headers.idempotency_key req.method req.path))

unfoldable pub delete : Bytes → Handler
unfolding mutation answered query_value same
delete id req = mutation req (
    if same (query_value req (codes "mode")) (codes "soft")
    then answered req 202
        (submit op_delete_soft id req.headers.idempotency_key req.method req.request_uri [])
    else if same (query_value req (codes "mode")) (codes "purge")
    then answered req 202 (
        submit_purge id req.headers.idempotency_key req.method req.request_uri
          req.headers.purge_token)
    else write_error req 400 (codes "invalid_mode") (codes "mode must be soft or purge"))
