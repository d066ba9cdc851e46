-- ===== src/Tests/Serving.antt =====
-- The theorems on the service, at concrete runs.
use centralcloud_agent.Prelude.{◌≡◌, refl, List, [], ◌∷◌, Bytes, codes, ◌≢◌}
use centralcloud_agent.Errors.{ok, err, sentinel, conflict}
use centralcloud_agent.Domain.Model.{op_stop, op_delete_soft}
use centralcloud_agent.Service.{hash_request, new_operation}
use centralcloud_agent.Domain.State.{failed}
use centralcloud_agent.Domain.Model.{Operation, op_start}
use centralcloud_agent.Storage.Tables.{select}
use centralcloud_agent.Storage.Deployments.{has_id}
use centralcloud_agent.Service.Refused.{state_of, start_of_active_fails}
use centralcloud_agent.Prelude.{some}
use centralcloud_agent.Service.Process.{process}
use centralcloud_agent.Service.Safe.{NoLoss}
use centralcloud_agent.Service.Safe.Work.{keeps_data}
use centralcloud_agent.Service.Submit.{submit_create, submit}
use centralcloud_agent.Service.Server.{Activity, work, restart, serve}
use centralcloud_agent.Service.Server.Replay.{
  one_step, submit_create_again, submit_again, submit_other_conflict,
}
use centralcloud_agent.Prelude.{map, lookup}
use centralcloud_agent.Domain.State.{active}
use centralcloud_agent.Domain.Model.{Deployment, DeploymentNetworks}
use centralcloud_agent.Storage.Rows.{scan_deployment}
use centralcloud_agent.Service.Container.{
  host_rule, host_rules, labels_of, validated_traefik_labels, managed_variables,
  container_environment,
}
use centralcloud_agent.Service.Container.Environment.{or_else, lookup-container_environment}
use centralcloud_agent.Service.Container.Hosts.{RulesFor, validated_traefik_labels_lem}
use centralcloud_agent.Runtime.{World}
use centralcloud_agent.Tests.Fixtures.{
  panel_in, env, empty_world, running_world, request, key_a, key_b, deployment_id, submission,
  row_in,
}

-- A worker takes its turn, and the agent restarts.
abbrev meanwhile : List Activity
meanwhile = work ∷ restart ∷ []

abbrev accepted_id : Bytes
accepted_id = codes "op-:"

created : (submission env empty_world).0 ≡ ok accepted_id
unfolding submission
created = refl

abbrev after_create : World
after_create =
    (submit_create request key_a (codes "POST") (codes "/v1/deployments") (codes "{}") env
      empty_world).1

-- The digests of two requests differ, as those of this node do.
digests_differ :
    hash_request env.packages (codes "POST") (codes "/v1/deployments") (codes "{}")
    ≢ hash_request env.packages (codes "POST") (codes "/stop") []
unfolding hash_request
digests_differ e = cc

submit_create_again_example :
    submit_create request key_a
      (codes "POST")
      (codes "/v1/deployments")
      (codes "{}")
      env
      (serve env meanwhile after_create)
    ≡ (ok accepted_id, one_step (serve env meanwhile after_create))
unfolding submission
submit_create_again_example =
    submit_create_again env empty_world request key_a (codes "POST") (codes "/v1/deployments")
      (codes "{}") accepted_id meanwhile created refl

abbrev after_stop : World
after_stop =
    (submit op_stop deployment_id key_b (codes "POST") (codes "/stop") [] env running_world).1

stopping :
    (submit op_stop deployment_id key_b (codes "POST") (codes "/stop") [] env running_world).0
    ≡ ok (codes "op-2")
unfolding submission
stopping = refl

submit_again_example :
    submit op_stop deployment_id key_b
      (codes "POST")
      (codes "/stop")
      []
      env
      (serve env meanwhile after_stop)
    ≡ (ok (codes "op-2"), one_step (serve env meanwhile after_stop))
submit_again_example =
    submit_again env running_world op_stop deployment_id key_b (codes "POST") (codes "/stop") []
      (codes "op-2") meanwhile stopping refl

submit_other_conflict_example :
    submit op_stop deployment_id key_a
      (codes "POST")
      (codes "/stop")
      []
      env
      (serve env meanwhile after_create)
    ≡ (err (sentinel conflict), one_step (serve env meanwhile after_create))
unfolding submission
submit_other_conflict_example =
    submit_other_conflict env empty_world request key_a (codes "POST") (codes "/v1/deployments")
      (codes "{}") accepted_id meanwhile op_stop deployment_id (codes "POST") (codes "/stop") []
      created refl digests_differ

keeps_data_example :
    NoLoss
      (process
        (new_operation (codes "op-1") deployment_id op_delete_soft [])
        env
        running_world).1.trace
keeps_data_example =
    keeps_data (new_operation (codes "op-1") deployment_id op_delete_soft []) env running_world refl
      tt

abbrev panel : Deployment
panel = panel_in active

abbrev networks : DeploymentNetworks
networks = env.networks 0 deployment_id

lookup-container_environment_example :
    lookup (codes "PGHOST") (container_environment env.config panel networks)
    ≡ or_else
        (lookup (codes "PGHOST") (managed_variables env.config panel networks))
        (lookup (codes "PGHOST") panel.request.environment)
lookup-container_environment_example =
    lookup-container_environment env.config panel networks (codes "PGHOST")

abbrev labels : List (Bytes × Bytes)
labels =
    labels_of request env.config (codes "fe") (map host_rule (request.hostname ∷ request.aliases))

labels_rendered : validated_traefik_labels env.packages request env.config (codes "fe") ≡ ok labels
unfolding submission host_rules validated_traefik_labels
labels_rendered = refl

validated_traefik_labels_lem_example : RulesFor request labels
validated_traefik_labels_lem_example =
    validated_traefik_labels_lem env.packages request env.config (codes "fe") labels labels_rendered

abbrev start_it : Operation
start_it = new_operation (codes "op-1") deployment_id op_start []

is_found : select (has_id deployment_id) running_world.tables.deployments ≡ some (row_in active)
unfolding submission
is_found = refl

decodes : scan_deployment env.packages env.http (row_in active) ≡ ok panel
unfolding scan_deployment
decodes = refl

start_of_active_fails_example :
    state_of
      (select (has_id deployment_id) (process start_it env running_world).1.tables.deployments)
    ≡ some failed
start_of_active_fails_example =
    start_of_active_fails start_it env running_world (row_in active) panel (λ n. refl) refl is_found
      decodes refl
