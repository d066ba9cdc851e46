-- ===== src/Api/Answers/Routes.antt =====
-- Every route of internal/api/server.go answers.
use centralcloud_agent.Prelude.{
  ℕ, refl, Bool, true, false, Option, none, some, Bytes, if◌then◌else◌, ℤ,
}
use centralcloud_agent.Errors.{Result, ok, err}
use centralcloud_agent.Domain.Clock.{Time}
use centralcloud_agent.Domain.Model.{OpType}
use centralcloud_agent.Runtime.{Act}
use centralcloud_agent.Api.{Request, Response, write_raw, write}
use centralcloud_agent.Contracts.Views.{View}
use centralcloud_agent.Api.Requests.{fresh, mutation, decoded, parsed, read_json}
use centralcloud_agent.Api.Handlers.{
  answered, create, action, upgrade, admin_reset, purge_token, delete,
}
use centralcloud_agent.Api.Reading.{
  health, ready, resource, list, get, operation, logs, or_unavailable, page,
}
use centralcloud_agent.Api.Answers.{write-Good, Good, good_rules, write_error-Good}

fresh-Good :
    (req : Request) (ts : Option Time) (next : Act Response) → Good next → Good (fresh req ts next)
unfolding fresh
fresh-Good req none next k = write_error-Good req _ _ _ refl
fresh-Good req (some ts) next k = search good_rules depth 12

mutation-Good : (req : Request) (next : Act Response) → Good next → Good (mutation req next)
unfolding mutation
mutation-Good req next k = search (good_rules, fresh-Good) depth 12

decoded-Good :
    {A : Type 0} (req : Request) (o : Option (A × Bool)) (next : A → Act Response)
    → ((a : A) → Good (next a))
    → Good (decoded req o next)
decoded-Good req none next k = write_error-Good req _ _ _ refl
decoded-Good req (some (a, true)) next k = k a
decoded-Good req (some (a, false)) next k = write_error-Good req _ _ _ refl

parsed-Good :
    {A : Type 0} (req : Request) (o : Option Bytes) (decode : Bytes → Option (A × Bool))
    (next : A → Bytes → Act Response)
    → ((a : A) (b : Bytes) → Good (next a b))
    → Good (parsed req o decode next)
parsed-Good req none decode next k = write_error-Good req _ _ _ refl
parsed-Good req (some b) decode next k = decoded-Good req (decode b) (λ a. next a b) (λ a. k a b)

read_json-Good :
    {A : Type 0} (req : Request) (decode : Bytes → Option (A × Bool))
    (next : A → Bytes → Act Response)
    → ((a : A) (b : Bytes) → Good (next a b))
    → Good (read_json req decode next)
unfolding read_json
read_json-Good req decode next k = search (good_rules, parsed-Good) depth 12

or_unavailable-Good :
    (req : Request) (r : Result (Unit {0})) (code text : Bytes) (next : Act Response)
    → Good next
    → Good (or_unavailable req r code text next)
or_unavailable-Good req (ok u) code text next k = k
or_unavailable-Good req (err e) code text next k = write_error-Good req _ _ _ refl

page-Good : (req : Request) (id : Bytes) (n : ℤ) (since : Option Time) → Good (page req id n since)
page-Good req id n none = write_error-Good req _ _ _ refl
page-Good req id n (some since) = search good_rules depth 12

answered-Good :
    (req : Request) (status : ℕ) (m : Act Bytes)
    → ((b : Bytes) → Good (write_raw status b))
    → Good (answered req status m)
unfolding answered
answered-Good req status m k = search good_rules depth 12

-- The health route has two statuses.
health_status-Good : (b : Bool) (v : View) → Good (write (if b then 200 else 503) v)
health_status-Good true v = write-Good 200 v refl
health_status-Good false v = write-Good 503 v refl

ruleset answer_rules = (
  good_rules, or_unavailable-Good, page-Good, answered-Good, health_status-Good, mutation-Good,
  read_json-Good,
)

module _ (req : Request) where
  health-Good : Good (health req)
  unfolding health
  health-Good = search answer_rules depth 20

  ready-Good : Good (ready req)
  unfolding ready
  ready-Good = search answer_rules depth 20

  resource-Good : Good (resource req)
  unfolding resource
  resource-Good = search answer_rules depth 20

  list-Good : Good (list req)
  unfolding list
  list-Good = search answer_rules depth 9

  create-Good : Good (create req)
  unfolding create
  create-Good = search answer_rules depth 12

module _ (id : Bytes) (req : Request) where
  get-Good : Good (get id req)
  unfolding get
  get-Good = search answer_rules depth 9

  operation-Good : Good (operation id req)
  unfolding operation
  operation-Good = search answer_rules depth 9

  logs-Good : Good (logs id req)
  unfolding logs
  logs-Good = search answer_rules depth 9

  action-Good : (typ : OpType) → Good (action typ id req)
  unfolding action
  action-Good typ = search answer_rules depth 12

  upgrade-Good : Good (upgrade id req)
  unfolding upgrade
  upgrade-Good = search answer_rules depth 12

  admin_reset-Good : Good (admin_reset id req)
  unfolding admin_reset
  admin_reset-Good = search answer_rules depth 12

  purge_token-Good : Good (purge_token id req)
  unfolding purge_token
  purge_token-Good = search answer_rules depth 12

  delete-Good : Good (delete id req)
  unfolding delete
  delete-Good = search answer_rules depth 12

ruleset route_rules = (
  good_rules, health-Good, ready-Good, resource-Good, list-Good, get-Good, operation-Good,
  logs-Good, create-Good, action-Good, upgrade-Good, admin_reset-Good, purge_token-Good,
  delete-Good,
)
