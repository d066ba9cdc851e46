-- ===== src/Api/Keeps/Mutations.antt =====
-- The routes of internal/api/server.go that change something, and the server as a whole, keep what the
-- repository keeps.
use centralcloud_agent.Prelude.{ℕ, Bool, true, false, Option, none, some, [], ◌∷◌, Bytes}
use centralcloud_agent.Domain.Clock.{Time}
use centralcloud_agent.Domain.Model.{OpType}
use centralcloud_agent.Storage.Tables.{Tables}
use centralcloud_agent.Storage.Invariant.{StorageKeeps}
use centralcloud_agent.Service.Keeps.Submissions.{
  submit_create-Kept, submit-Kept, submit_upgrade-Kept, submit_admin_reset-Kept,
  issue_purge_token-Kept, submit_purge-Kept,
}
use centralcloud_agent.Runtime.{Act, Limiter}
use centralcloud_agent.Runtime.Keeps.{Keeps, OnTables, tables_rules}
use centralcloud_agent.Api.{Request, Response}
use centralcloud_agent.Api.Requests.{fresh, mutation, decoded, parsed, read_json}
use centralcloud_agent.Api.Handlers.{
  answered, create, action, upgrade, admin_reset, purge_token, delete,
}
use centralcloud_agent.Api.Access.{
  Server, authenticate, limiter_of, known_or_new, limit, filter_source, correlate, with_context,
}
use centralcloud_agent.Api.Routes.{
  Endpoint, at_health, at_ready, at_resources, at_deployments, at_metrics, at_unknown,
  at_deployment, at_upgrade, at_reset, at_token, at_logs, at_operation, at_action, route, mux,
  handler,
}
use centralcloud_agent.Api.Keeps.{
  writer_rules, write_error-Kept, health-Kept, ready-Kept, resource-Kept, list-Kept, get-Kept,
  operation-Kept, logs-Kept, metrics-Kept,
}

module _ {Q : Tables → Type 0} where
  fresh-Kept :
      (req : Request) (ts : Option Time) (next : Act Response)
      → Keeps (OnTables Q) next
      → Keeps (OnTables Q) (fresh req ts next)
  unfolding fresh
  fresh-Kept req none next k = search writer_rules
  fresh-Kept req (some ts) next k = search writer_rules depth 12

  pub mutation-Kept :
      (req : Request) (next : Act Response)
      → Keeps (OnTables Q) next
      → Keeps (OnTables Q) (mutation req next)
  unfolding mutation
  mutation-Kept req next k = search (writer_rules, fresh-Kept) depth 12

  decoded-Kept :
      {A : Type 0} (req : Request) (o : Option (A × Bool)) (next : A → Act Response)
      → ((a : A) → Keeps (OnTables Q) (next a))
      → Keeps (OnTables Q) (decoded req o next)
  decoded-Kept req none next k = search writer_rules
  decoded-Kept req (some (a, true)) next k = k a
  decoded-Kept req (some (a, false)) next k = search writer_rules

  parsed-Kept :
      {A : Type 0} (req : Request) (o : Option Bytes) (decode : Bytes → Option (A × Bool))
      (next : A → Bytes → Act Response)
      → ((a : A) (b : Bytes) → Keeps (OnTables Q) (next a b))
      → Keeps (OnTables Q) (parsed req o decode next)
  parsed-Kept req none decode next k = search writer_rules
  parsed-Kept req (some b) decode next k = decoded-Kept req (decode b) (λ a. next a b) (λ a. k a b)

  pub read_json-Kept :
      {A : Type 0} (req : Request) (decode : Bytes → Option (A × Bool))
      (next : A → Bytes → Act Response)
      → ((a : A) (b : Bytes) → Keeps (OnTables Q) (next a b))
      → Keeps (OnTables Q) (read_json req decode next)
  unfolding read_json
  read_json-Kept req decode next k = search (writer_rules, parsed-Kept) depth 12

  pub answered-Kept :
      (req : Request) (status : ℕ) (m : Act Bytes)
      → Keeps (OnTables Q) m
      → Keeps (OnTables Q) (answered req status m)
  unfolding answered
  answered-Kept req status m k = search writer_rules depth 9

  known_or_new-Kept : (id : Bytes) (l : Option Limiter) → Keeps (OnTables Q) (known_or_new id l)
  known_or_new-Kept id none = record { at = λ env w h. record { holds = h.holds } }
  known_or_new-Kept id (some l) = record { at = λ env w h. h }

  pub limiter_of-Kept : (id : Bytes) → Keeps (OnTables Q) (limiter_of id)
  unfolding limiter_of
  limiter_of-Kept id = record { at = λ env w h. (known_or_new-Kept id _).at env w h }

  pub correlate-Kept : (cid : Bytes) → Keeps (OnTables Q) (correlate cid)
  correlate-Kept [] = search tables_rules
  correlate-Kept (b ∷ cid) = search tables_rules

pub ruleset mutation_rules = (writer_rules, mutation-Kept, read_json-Kept, answered-Kept)

module _ {Q : Tables → Type 0} (laws : StorageKeeps Q) where
  create-Kept : (req : Request) → Keeps (OnTables Q) (create req)
  unfolding create
  create-Kept req = search (mutation_rules, submit_create-Kept) depth 12

  action-Kept : (typ : OpType) (id : Bytes) (req : Request) → Keeps (OnTables Q) (action typ id req)
  unfolding action
  action-Kept typ id req = search (mutation_rules, submit-Kept) depth 12

  upgrade-Kept : (id : Bytes) (req : Request) → Keeps (OnTables Q) (upgrade id req)
  unfolding upgrade
  upgrade-Kept id req = search (mutation_rules, submit_upgrade-Kept) depth 12

  admin_reset-Kept : (id : Bytes) (req : Request) → Keeps (OnTables Q) (admin_reset id req)
  unfolding admin_reset
  admin_reset-Kept id req = search (mutation_rules, submit_admin_reset-Kept) depth 12

  purge_token-Kept : (id : Bytes) (req : Request) → Keeps (OnTables Q) (purge_token id req)
  unfolding purge_token
  purge_token-Kept id req = search (mutation_rules, issue_purge_token-Kept) depth 12

  delete-Kept : (id : Bytes) (req : Request) → Keeps (OnTables Q) (delete id req)
  unfolding delete
  delete-Kept id req = search (mutation_rules, submit-Kept, submit_purge-Kept) depth 12

  ruleset route_rules = (
    writer_rules, health-Kept, ready-Kept, resource-Kept, list-Kept, get-Kept, operation-Kept,
    logs-Kept, metrics-Kept, create-Kept, action-Kept, upgrade-Kept, admin_reset-Kept,
    purge_token-Kept, delete-Kept,
  )

  route-Kept : (e : Endpoint) (req : Request) → Keeps (OnTables Q) (route e req)
  unfolding route
  route-Kept at_health req = search route_rules
  route-Kept at_ready req = search route_rules
  route-Kept at_resources req = search route_rules
  route-Kept at_deployments req = search route_rules
  route-Kept at_metrics req = search route_rules
  route-Kept at_unknown req = search route_rules
  route-Kept (at_deployment id) req = search route_rules
  route-Kept (at_upgrade id) req = search route_rules
  route-Kept (at_reset id) req = search route_rules
  route-Kept (at_token id) req = search route_rules
  route-Kept (at_logs id) req = search route_rules
  route-Kept (at_operation id) req = search route_rules
  route-Kept (at_action typ id) req = search route_rules

  mux-Kept : (req : Request) → Keeps (OnTables Q) (mux req)
  unfolding mux
  mux-Kept req = route-Kept _ req

  pub handler-Kept : (s : Server) (req : Request) → Keeps (OnTables Q) (handler s req)
  unfolding handler with_context filter_source limit authenticate
  handler-Kept s req = search (writer_rules, limiter_of-Kept, correlate-Kept, mux-Kept) depth 20
