-- ===== src/Api/Keeps.antt =====
-- The HTTP server of internal/api/server.go keeps what the repository keeps; the routes for reading
-- keep everything.
pub mod Mutations
pub mod Changes
use centralcloud_agent.Prelude.{ℕ, Bool, true, false, Option, none, some, List, Bytes, ℤ}
use centralcloud_agent.Errors.{Err, Result, ok, err}
use centralcloud_agent.Contracts.Views.{View}
use centralcloud_agent.Config.{Config}
use centralcloud_agent.Domain.Clock.{Time}
use centralcloud_agent.Domain.Model.{Gauge}
use centralcloud_agent.Storage.Tables.{Tables}
use centralcloud_agent.Storage.Deployments.{get_deployment, list_deployments, ping, or_not_found}
use centralcloud_agent.Storage.Operations.{get_operation}
use centralcloud_agent.Runtime.{Act, pure, ◌>>=◌, ◌>>◌}
use centralcloud_agent.Runtime.Keeps.{Keeps, OnTables, Keeps-bind, tables_rules}
use centralcloud_agent.Api.{
  Request, Response, Handler, write_raw, write, write_error, handle_error, or_error, gauge,
}
use centralcloud_agent.Api.Reading.{
  health, ready, resource, list, get, operation, logs, or_unavailable, page, redacted_logs,
}
use centralcloud_agent.Api.Routes.{metrics}

module _ {Q : Tables → Type 0} where
  pub write_raw-Kept : (status : ℕ) (b : Bytes) → Keeps (OnTables Q) (write_raw status b)
  unfolding write_raw
  write_raw-Kept status b = search tables_rules

  pub write-Kept : (status : ℕ) (v : View) → Keeps (OnTables Q) (write status v)
  unfolding write
  write-Kept status v = search tables_rules

  pub write_error-Kept :
      (req : Request) (status : ℕ) (code text : Bytes)
      → Keeps (OnTables Q) (write_error req status code text)
  unfolding write_error
  write_error-Kept req status code text = write-Kept _ _

  pub handle_error-Kept : (req : Request) (e : Err) → Keeps (OnTables Q) (handle_error req e)
  unfolding handle_error
  handle_error-Kept req e = write_error-Kept req _ _ _

  pub gauge-Kept : (g : Gauge) (v : ℤ) → Keeps (OnTables Q) (gauge g v)
  unfolding gauge
  gauge-Kept g v = search tables_rules

  pub or_error-Kept :
      {A : Type 0} (req : Request) (r : Result A) (next : A → Act Response)
      → ((a : A) → Keeps (OnTables Q) (next a))
      → Keeps (OnTables Q) (or_error req r next)
  or_error-Kept req (ok a) next k = k a
  or_error-Kept req (err e) next k = handle_error-Kept req e

  pub or_not_found-Kept : {A : Type 0} (o : Option A) → Keeps (OnTables Q) (or_not_found o)
  or_not_found-Kept none = search tables_rules
  or_not_found-Kept (some a) = search tables_rules

  pub ruleset writer_rules = (
    tables_rules, write_raw-Kept, write-Kept, write_error-Kept, handle_error-Kept, gauge-Kept,
    or_error-Kept, or_not_found-Kept,
  )

  or_unavailable-Kept :
      (req : Request) (r : Result (Unit {0})) (code text : Bytes) (next : Act Response)
      → Keeps (OnTables Q) next
      → Keeps (OnTables Q) (or_unavailable req r code text next)
  or_unavailable-Kept req (ok u) code text next k = k
  or_unavailable-Kept req (err e) code text next k = write_error-Kept req _ _ _

  ping-Kept : Keeps (OnTables Q) ping
  unfolding ping
  ping-Kept = search tables_rules

  pub health-Kept : (req : Request) → Keeps (OnTables Q) (health req)
  unfolding health
  health-Kept req = search (writer_rules, ping-Kept) depth 20

  pub ready-Kept : (req : Request) → Keeps (OnTables Q) (ready req)
  unfolding ready
  ready-Kept req = search (writer_rules, ping-Kept, or_unavailable-Kept) depth 20

  pub resource-Kept : (req : Request) → Keeps (OnTables Q) (resource req)
  unfolding resource
  resource-Kept req = search writer_rules depth 20

  get_deployment-Kept : (id : Bytes) → Keeps (OnTables Q) (get_deployment id)
  unfolding get_deployment
  get_deployment-Kept id = search writer_rules depth 9

  list_deployments-Kept : Keeps (OnTables Q) list_deployments
  unfolding list_deployments
  list_deployments-Kept = search writer_rules depth 9

  get_operation-Kept : (id : Bytes) → Keeps (OnTables Q) (get_operation id)
  unfolding get_operation
  get_operation-Kept id = search writer_rules depth 9

  pub list-Kept : (req : Request) → Keeps (OnTables Q) (list req)
  unfolding list
  list-Kept req = search (writer_rules, list_deployments-Kept) depth 9

  pub get-Kept : (id : Bytes) (req : Request) → Keeps (OnTables Q) (get id req)
  unfolding get
  get-Kept id req = search (writer_rules, get_deployment-Kept) depth 9

  pub operation-Kept : (id : Bytes) (req : Request) → Keeps (OnTables Q) (operation id req)
  unfolding operation
  operation-Kept id req = search (writer_rules, get_operation-Kept) depth 9

  redacted_logs-Kept :
      (id : Bytes) (since : Time) (n : ℤ) → Keeps (OnTables Q) (redacted_logs id since n)
  unfolding redacted_logs
  redacted_logs-Kept id since n = search writer_rules depth 9

  page-Kept :
      (req : Request) (id : Bytes) (n : ℤ) (since : Option Time)
      → Keeps (OnTables Q) (page req id n since)
  page-Kept req id n none = search writer_rules
  page-Kept req id n (some since) = search (writer_rules, redacted_logs-Kept) depth 9

  pub logs-Kept : (id : Bytes) (req : Request) → Keeps (OnTables Q) (logs id req)
  unfolding logs
  logs-Kept id req = search (writer_rules, page-Kept) depth 9

  pub metrics-Kept : (req : Request) → Keeps (OnTables Q) (metrics req)
  unfolding metrics
  metrics-Kept req = search writer_rules
