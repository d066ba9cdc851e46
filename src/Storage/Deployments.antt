-- ===== src/Storage/Deployments.antt =====
-- internal/storage/sqlite.go: the methods over the deployments table.
pub mod Transition
pub mod RoundTrip
use centralcloud_agent.Prelude.{
  ℕ, Bool, true, false, not, ◌&&◌, Option, none, some, List, [], ◌∷◌, ◌++◌, map, ◌==◌, ◌||◌,
  if◌then◌else◌, Bytes, codes, same, is_empty, contains,
}
use centralcloud_agent.Errors.{
  Err, Result, ok, err, sentinel, plain, wrap, not_found, conflict, message,
}
use centralcloud_agent.Domain.Clock.{Time, is_zero_time, text_lt, format_time}
use centralcloud_agent.Contracts.{CreateDeploymentRequest}
use centralcloud_agent.Packages.{Packages}
use centralcloud_agent.Packages.Http.{Http}
use centralcloud_agent.Domain.Model.{Deployment}
use centralcloud_agent.Domain.State.{State, active, same_state, state_text, validate_transition}
use centralcloud_agent.Storage.Tables.{
  Tables, DeploymentRow, AuditRow, select, update, delete, count,
}
use centralcloud_agent.Storage.Rows.{
  to_row, with_aliases, with_request, scan_deployment, insert_by_created, order_by_created, listed,
  scan_all,
}
use centralcloud_agent.Runtime.{
  Act, World, pure, raise, lift, asks, attempt, statement, transaction, skip, now, check, ◌>>=◌,
  ◌>>◌,
}

-- The driver's error for a violated PRIMARY KEY or UNIQUE index.
abbrev pub unique_violation : Err
unique_violation = plain (codes "constraint failed: UNIQUE constraint failed")

unfoldable pub is_constraint : Err → Bool
unfolding contains
is_constraint e =
    contains (message e) (codes "constraint failed")
    || contains (message e) (codes "UNIQUE constraint")

unfoldable pub conflict_or : {A : Type 0} → Result A → Result A
unfolding is_constraint
conflict_or (ok a) = ok a
conflict_or (err e) = if is_constraint e then err (sentinel conflict) else err e

-- `if err != nil && isConstraint(err) { return domain.ErrConflict }; return err`
unfoldable pub on_constraint : {A : Type 0} → Act A → Act A
unfolding conflict_or
on_constraint m = do r ← attempt m; lift (conflict_or r)

abbrev pub has_id : Bytes → DeploymentRow → Bool
has_id id r = same r.deployment_id id

-- An INSERT, with the row that violates a key or an index, if there is one.
abbrev pub insert_unless : {A : Type 0} → Option A → Tables → Result (Unit {0} × Tables)
insert_unless none t = ok (tt, t)
insert_unless (some _) t = err unique_violation

abbrev pub insert_deployment : DeploymentRow → Tables → Result (Unit {0} × Tables)
insert_deployment row t =
    insert_unless (select (has_id row.deployment_id) t.deployments)
      (record t { deployments = t.deployments ++ (row ∷ []) })

unfoldable pub create_deployment : Deployment → Act (Unit {0})
unfolding to_row
create_deployment d = do
  pkg ← asks (λ env. env.packages)
  request ← lift (pkg.marshal_request d.request)
  time ← now
  aliases ← lift (pkg.marshal_aliases d.request.aliases)
  on_constraint (
      statement (
        insert_deployment (
          to_row d request aliases (if is_zero_time d.created_at then time else d.created_at)
            time)))

-- The columns that SaveDeployment sets.
abbrev pub overwrite : Deployment → Bytes → Bytes → Time → DeploymentRow → DeploymentRow
overwrite d request aliases time r = record (to_row d request aliases time time) {
  deployment_id = r.deployment_id;
  created_at = r.created_at;
}

-- s.db.PingContext
unfoldable pub ping : Act (Unit {0})
ping = statement (λ t. ok (tt, t))

abbrev pub found_rows : ℕ → Act (Unit {0})
found_rows n = if n == 0 then raise (sentinel not_found) else pure tt

unfoldable pub save_deployment : Deployment → Act (Unit {0})
unfolding to_row
save_deployment d = do
  pkg ← asks (λ env. env.packages)
  request ← lift (pkg.marshal_request d.request)
  aliases ← lift (pkg.marshal_aliases d.request.aliases)
  time ← now
  n ← statement (λ t. ok (
    count (has_id d.request.deployment_id) t.deployments,
    record t {
      deployments =
          update (has_id d.request.deployment_id) (overwrite d request aliases time) t.deployments;
    },
  ))
  found_rows n

abbrev pub or_not_found : {A : Type 0} → Option A → Act A
or_not_found none = raise (sentinel not_found)
or_not_found (some a) = pure a

abbrev pub scanned : DeploymentRow → Act Deployment
scanned r = do
  pkg ← asks (λ env. env.packages)
  http ← asks (λ env. env.http)
  lift (scan_deployment pkg http r)

unfoldable pub get_deployment : Bytes → Act Deployment
unfolding scan_deployment
get_deployment id = do
  row ← statement (λ t. ok (select (has_id id) t.deployments, t))
  r ← or_not_found row
  scanned r

unfoldable pub list_deployments : Act (List Deployment)
unfolding order_by_created scan_deployment
list_deployments = do
  rows ← statement (λ t. ok (order_by_created t.deployments, t))
  pkg ← asks (λ env. env.packages)
  http ← asks (λ env. env.http)
  lift (scan_all pkg http rows)

-- The check that UpdateState makes of the state that it read.
abbrev pub check_transition : State → State → Act (Unit {0})
check_transition from to =
    if same_state from to then pure tt else check (validate_transition from to)

abbrev pub audit_state : Bytes → State → Time → AuditRow
audit_state id to time = record {
  deployment_id = id;
  event = codes "state_changed";
  detail = state_text to;
  created_at = time;
}

abbrev pub update_state_body : Bytes → State → Bytes → Act (Unit {0})
update_state_body id to failed_step = do
  row ← statement (λ t. ok (select (has_id id) t.deployments, t))
  r ← or_not_found row
  check_transition r.state to
  time ← now
  statement (λ t. ok (
    tt,
    record t {
      deployments =
          update (has_id id)
            (λ q. record q { state = to; failed_step = failed_step; updated_at = format_time time })
            t.deployments;
    },
  ))
  statement (λ t. ok (tt, record t { audit = t.audit ++ (audit_state id to time ∷ []) }))

unfoldable pub update_state : Bytes → State → Bytes → Act (Unit {0})
update_state id to failed_step = transaction (update_state_body id to failed_step)

unfoldable pub delete_deployment_material : Bytes → Act (Unit {0})
delete_deployment_material id =
    statement (λ t. ok (tt, record t { deployments = delete (has_id id) t.deployments }))

-- All deployments that hold credentials, and those among them that are active.
unfoldable pub count_deployments : Act (ℕ × ℕ)
count_deployments = statement (λ t. ok (
  (
    count (λ r. not (is_empty r.credentials_ref)) t.deployments,
    count (λ r. not (is_empty r.credentials_ref) && same_state r.state active) t.deployments,
  ),
  t,
))
