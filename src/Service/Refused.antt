-- ===== src/Service/Refused.antt =====
-- What process of internal/deployment/service.go does with an operation that is refused.
use centralcloud_agent.Prelude.{
  ℕ, suc, ◌≡◌, refl, Option, none, some, List, Bytes, codes, ap, sym, ◌∙◌,
}
use centralcloud_agent.Errors.{Result, ok, err, plain, is_rolled_back}
use centralcloud_agent.Domain.State.{
  State, active, failed, same_state, can_transition, validate_transition,
}
use centralcloud_agent.Contracts.{CreateDeploymentRequest}
use centralcloud_agent.Packages.{Packages}
use centralcloud_agent.Packages.Http.{Http}
use centralcloud_agent.Domain.Clock.{format_time}
use centralcloud_agent.Domain.Model.{Operation, Deployment, op_start}
use centralcloud_agent.Storage.Tables.{DeploymentRow, select}
use centralcloud_agent.Storage.Operations.{fail_operation}
use centralcloud_agent.Storage.Deployments.{has_id, update_state, get_deployment}
use centralcloud_agent.Storage.Rows.{scan_deployment, with_request, with_aliases}
use centralcloud_agent.Storage.Deployments.Transition.{select-update}
use centralcloud_agent.Service.Process.{dispatch, execute, mark_failed, report, process}
use centralcloud_agent.Service.Lifecycle.{start}
use centralcloud_agent.Runtime.Yields.{ok-injective}
use centralcloud_agent.Runtime.{
  Env, World, continue, statement, transaction, skip, now, sample, attempt, ignore, asks, lift,
  pure, raise, ◌>>=◌, ◌>>◌,
}

got :
    (env : Env) (w : World) (id : Bytes) (row : DeploymentRow) (d : Deployment)
    → env.sql_failure w.tick ≡ none
    → select (has_id id) w.tables.deployments ≡ some row
    → scan_deployment env.packages env.http row ≡ ok d
    → get_deployment id env w ≡ (ok d, record w { tick = suc w.tick })
unfolding get_deployment statement pure asks lift ◌>>=◌
got env w id row d alive found decodes = rw (alive, found, decodes) refl

-- A deployment has the state of the row that it was read from.
state-scan_deployment :
    (pkg : Packages) (http : Http) (row : DeploymentRow) (d : Deployment)
    → scan_deployment pkg http row ≡ ok d
    → d.state ≡ row.state
unfolding scan_deployment
state-scan_deployment pkg http row d e =
    requested (pkg.unmarshal_request row.request_json) (pkg.unmarshal_aliases row.aliases_json) refl
      e
  where
    requested :
        (q : Result CreateDeploymentRequest) (as_ : Result (List Bytes))
        → pkg.unmarshal_aliases row.aliases_json ≡ as_
        → with_request pkg http row q ≡ ok d
        → d.state ≡ row.state
    requested (err f) as_ g h = absurd cc
    requested (ok q) (err f) g h = absurd (failed_scan (ap (with_aliases http row q) (sym g) ∙ h))
      where
        failed_scan : with_aliases http row q (err f) ≡ ok d → ⊥
        failed_scan k = cc
    requested (ok q) (ok as_) g h = read_state (ap (with_aliases http row q) (sym g) ∙ h)
      where
        read_state : with_aliases http row q (ok as_) ≡ ok d → d.state ≡ row.state
        read_state k = ap (λ x. x.state) (sym (ok-injective _ d k))

start_refused :
    (o : Operation) (env : Env) (w : World) (row : DeploymentRow) (d : Deployment)
    → env.sql_failure w.tick ≡ none
    → select (has_id o.deployment_id) w.tables.deployments ≡ some row
    → scan_deployment env.packages env.http row ≡ ok d
    → d.state ≡ active
    → start o env w
      ≡ (err (plain (codes "deployment must be stopped")), record w { tick = suc w.tick })
unfolding start ◌>>=◌ same_state raise
start_refused o env w row d alive found decodes running =
    rw (got env w o.deployment_id row d alive found decodes, running) refl

-- The state of a row, if there is one.
abbrev pub state_of : Option DeploymentRow → Option State
state_of none = none
state_of (some r) = some r.state

-- An update of the deployment's row, which finds it and moves it.
moved :
    (id : Bytes) (row : DeploymentRow) (step : Bytes) (env : Env) (w : World)
    → ((n : ℕ) → env.sql_failure n ≡ none)
    → select (has_id id) w.tables.deployments ≡ some row
    → row.state ≡ active
    → state_of (select (has_id id) (update_state id failed step env w).1.tables.deployments)
      ≡ some failed
unfolding update_state transaction skip statement ◌>>=◌ same_state can_transition
    validate_transition now sample pure
moved id row step env w alive found running = simp (
  alive,
  found,
  running,
  select-update (has_id id)
      (λ q. record q {
        state = failed;
        failed_step = step;
        updated_at = format_time (env.clock (suc (suc w.tick)));
      })
      w.tables.deployments row (λ b e. e) found,
)

reported :
    (o : Operation) (env : Env) (w : World) (row : DeploymentRow) (d : Deployment)
    → ((n : ℕ) → env.sql_failure n ≡ none)
    → select (has_id o.deployment_id) w.tables.deployments ≡ some row
    → scan_deployment env.packages env.http row ≡ ok d
    → row.state ≡ active
    → d.state ≡ active
    → state_of (
        select
          (has_id o.deployment_id)
          (report o (err (plain (codes "deployment must be stopped"))) env w).1.tables.deployments)
      ≡ some failed
unfolding report mark_failed fail_operation get_deployment attempt ignore asks lift now sample
    statement ◌>>=◌ pure is_rolled_back same_state can_transition
reported o env w row d alive found decodes running is_running =
    rw (alive (suc w.tick), alive (suc (suc w.tick)), found, decodes, is_running)
      (moved o.deployment_id row _ env _ alive found running)

-- Reading the clock once more leaves the tables.
ended :
    (r : Result (Unit {0})) (env : Env) (w : World)
    → (continue r (λ _. do now; pure tt) env w).1.tables ≡ w.tables
unfolding now sample pure ◌>>=◌
ended (ok a) env w = refl
ended (err e) env w = refl

executed :
    (o : Operation) (env : Env) (w : World) → o.typ ≡ op_start → execute o env w ≡ start o env w
unfolding execute
executed o env w typ = ap (λ t. dispatch t o env w) typ

-- Processing a start of an active deployment, whose row decodes, marks the deployment failed, unless a
-- statement fails: its row ends in failed.
pub start_of_active_fails :
    (o : Operation) (env : Env) (w : World) (row : DeploymentRow) (d : Deployment)
    → ((n : ℕ) → env.sql_failure n ≡ none)
    → o.typ ≡ op_start
    → select (has_id o.deployment_id) w.tables.deployments ≡ some row
    → scan_deployment env.packages env.http row ≡ ok d
    → row.state ≡ active
    → state_of (select (has_id o.deployment_id) (process o env w).1.tables.deployments)
      ≡ some failed
unfolding process attempt now sample ◌>>=◌ pure
start_of_active_fails o env w row d alive typ found decodes running =
    let is_running = state-scan_deployment env.packages env.http row d decodes ∙ running in
    rw
      (
        executed o env (record w { tick = suc w.tick }) typ,
        start_refused o env (record w { tick = suc w.tick }) row d (alive _) found decodes
            is_running,
        ended
            (report o (err (plain (codes "deployment must be stopped"))) env
              (record w { tick = suc (suc w.tick) })).0
            env
            (report o (err (plain (codes "deployment must be stopped"))) env
              (record w { tick = suc (suc w.tick) })).1,
      )
      (reported o env (record w { tick = suc (suc w.tick) }) row d alive found decodes running
        is_running)
