-- ===== src/Service/Lifecycle.antt =====
-- internal/deployment/service.go: provisioning, start, stop, removal and the administrator's reset.
use centralcloud_agent.Prelude.{
  Bool, not, ◌&&◌, Option, none, some, List, [], ◌∷◌, ◌++◌, if◌then◌else◌, Bytes, codes, is_empty,
  ℤ, pos, seconds,
}
use centralcloud_agent.Errors.{Result, ok, err, plain}
use centralcloud_agent.Packages.{Packages, PermanentSecrets}
use centralcloud_agent.Domain.State.{
  same_state, can_transition, state_text, creating_database, pulling_image, creating_container,
  starting, migrating, healthchecking, active, stopped, deleting, deleted,
}
use centralcloud_agent.Domain.Model.{
  Deployment, Operation, DeploymentNetworks, ensure_role_and_database, drop_role_and_database,
  ensure_deployment_networks, remove_deployment_networks, pull_image, create_container,
  start_container, stop_container, remove_container, exec, wait_healthy, materialize_named,
  remove_named, remove_secrets, ensure_panel, purge_panel, backup_purge,
}
use centralcloud_agent.Storage.Deployments.{get_deployment, save_deployment}
use centralcloud_agent.Service.{decrypt_permanent_secrets, decrypt_text, step, transition, wrapping}
use centralcloud_agent.Service.Container.{spec}
use centralcloud_agent.Runtime.{
  Act, pure, raise, lift, asks, attempt, ignore, invoke, invoke_for, ◌>>=◌, ◌>>◌,
}

abbrev pub thirty_seconds : ℤ
thirty_seconds = pos 30000000000

abbrev pub Files : Type 0
Files = List (Bytes × Bytes)

unfoldable pub json_result : {A : Type 0} → Packages → Bytes → Option A → Result A
json_result pkg text (some a) = ok a
json_result pkg text none = err (plain (pkg.json_error text))

-- The bootstrap file of the panel, if the deployment still holds its bootstrap.
unfoldable pub bootstrap_values : Deployment → Act Files
unfolding json_result
bootstrap_values d = if is_empty d.encrypted_bootstrap then pure [] else do
  pkg ← asks (λ env. env.packages)
  text ← decrypt_text d.encrypted_bootstrap
  bootstrap ←
      wrapping (codes "decode panel bootstrap")
        (lift (json_result pkg text (pkg.unmarshal_bootstrap text)))
  pure (
      (
        codes "panel_bootstrap.json",
        pkg.marshal_panel_bootstrap (record {
          name = bootstrap.admin_name;
          email = bootstrap.admin_email;
          password = bootstrap.admin_password;
        }),
      )
      ∷ [])

-- One round of the loop over the values; an empty value is skipped.
unfoldable pub write_secret : Bytes → Bytes → Bytes → Act Files → Act Files
write_secret id name value rest = if is_empty value then rest else do
  path ← invoke_for (materialize_named id name value) (λ env n. env.secret_path n id name)
  files ← rest
  pure ((name, path) ∷ files)

-- The loop. The order of Go's map is not fixed; here it is that of the list.
unfoldable pub write_secrets : Bytes → Files → Act Files
unfolding write_secret
write_secrets id [] = pure []
write_secrets id ((name, value) ∷ rest) = write_secret id name value (write_secrets id rest)

unfoldable pub materialize_secrets : Deployment → PermanentSecrets → Act Files
unfolding bootstrap_values write_secrets
materialize_secrets d bundle = do
  bootstrap ← bootstrap_values d
  write_secrets d.request.deployment_id (
      (codes "postgres_password", bundle.database_password)
      ∷ (codes "app_key", bundle.app_key)
      ∷ (codes "internal_secret", bundle.internal_secret)
      ∷ bootstrap)

-- s.health.Wait with the deployment's own path and timeout
abbrev pub wait_for : Deployment → Act (Unit {0})
wait_for d = invoke (
    wait_healthy d.request.deployment_id d.request.healthcheck.path
      (seconds d.request.healthcheck.timeout_seconds))

-- s.spec and s.docker.CreateContainer
unfoldable pub create_from_spec : Deployment → Files → DeploymentNetworks → Bytes → Act (Unit {0})
create_from_spec d files networks directory = do
  cfg ← asks (λ env. env.config)
  pkg ← asks (λ env. env.packages)
  s ← lift (spec pkg cfg d files networks directory)
  invoke (create_container s)

-- The first half of provision: the database, the networks, the storage and the image.
unfoldable pub provision_resources :
    Operation → Deployment → PermanentSecrets → Act (Deployment × DeploymentNetworks × Bytes)
provision_resources o d bundle = do
  d1 ← transition d creating_database
  step o (codes "create_database") (
      invoke (
        ensure_role_and_database d.request.database.database_name d.request.database.username
          bundle.database_password d.request.deployment_id))
  d2 ← transition d1 pulling_image
  networks ← step o (codes "ensure_networks") (
      invoke_for (ensure_deployment_networks d.request.deployment_id)
        (λ env n. env.networks n d.request.deployment_id))
  directory ← wrapping (codes "ensure_storage") (
      invoke_for (ensure_panel d.request.deployment_id)
        (λ env n. env.panel_directory n d.request.deployment_id))
  step o (codes "pull_image") (invoke (pull_image d.request.image))
  pure (d2, networks, directory)

-- The container is created and started, and answers.
unfoldable pub provision_container :
    Operation → PermanentSecrets → Deployment × DeploymentNetworks × Bytes → Act Deployment
provision_container o bundle (d, networks, directory) = do
  d1 ← transition d creating_container
  files ← materialize_secrets d1 bundle
  step o (codes "create_container") (create_from_spec d1 files networks directory)
  d2 ← transition d1 starting
  step o (codes "start_container") (invoke (start_container d.request.deployment_id))
  step o (codes "wait_runtime") (wait_for d2)
  pure d2

-- The panel is installed, its bootstrap secret erased, and its health checked.
unfoldable pub provision_panel : Operation → Deployment → Act (Unit {0})
provision_panel o d = do
  cfg ← asks (λ env. env.config)
  d1 ← transition d migrating
  step o (codes "install_panel") (invoke (exec d.request.deployment_id cfg.panel.install_command))
  let d2 = record d1 { encrypted_bootstrap = [] }
  save_deployment d2
  ignore (invoke (remove_named d.request.deployment_id (codes "panel_bootstrap.json")))
  d3 ← transition d2 healthchecking
  step o (codes "healthcheck") (wait_for d3)
  transition d3 active
  pure tt

unfoldable pub provision : Operation → Act (Unit {0})
unfolding provision_resources provision_container provision_panel
provision o = do
  d ← get_deployment o.deployment_id
  bundle ← decrypt_permanent_secrets d.encrypted_secret
  prepared ← provision_resources o d bundle
  d1 ← provision_container o bundle prepared
  provision_panel o d1

abbrev pub begin_start : Deployment → Act Deployment
begin_start d =
    if not (same_state d.state stopped) && not (same_state d.state starting)
    then raise (plain (codes "deployment must be stopped"))
    else if same_state d.state stopped
    then transition d starting
    else pure d

unfoldable pub start : Operation → Act (Unit {0})
start o = do
  d ← get_deployment o.deployment_id
  d1 ← begin_start d
  step o (codes "start_container") (invoke (start_container d.request.deployment_id))
  d2 ← transition d1 healthchecking
  wait_for d2
  transition d2 active
  pure tt

abbrev pub stop_from : Operation → Deployment → Act (Unit {0})
stop_from o d =
    if same_state d.state stopped
    then pure tt
    else if not (same_state d.state active)
    then raise (plain (codes "deployment must be active"))
    else do
      step o (codes "stop_container")
          (invoke (stop_container d.request.deployment_id thirty_seconds))
      transition d stopped
      pure tt

unfoldable pub stop : Operation → Act (Unit {0})
stop o = do d ← get_deployment o.deployment_id; stop_from o d

abbrev pub begin_delete : Deployment → Act Deployment
begin_delete d =
    if same_state d.state deleting
    then pure d
    else if not (can_transition d.state deleting)
    then raise (plain (codes "deployment cannot be deleted from " ++ state_text d.state))
    else transition d deleting

-- What only a purge destroys.
unfoldable pub purge_data : Deployment → Act (Unit {0})
purge_data d = do
  invoke (
      drop_role_and_database d.request.database.database_name d.request.database.username
        d.request.deployment_id)
  invoke (purge_panel d.request.deployment_id)
  invoke (backup_purge d.request.deployment_id)

unfoldable pub remove : Operation → Bool → Act (Unit {0})
remove o purge = do
  d ← get_deployment o.deployment_id
  d1 ← begin_delete d
  ignore (invoke (stop_container d.request.deployment_id thirty_seconds))
  invoke (remove_container d.request.deployment_id)
  ignore (invoke (remove_secrets d.request.deployment_id))
  invoke (remove_deployment_networks d.request.deployment_id)
  if purge then purge_data d1 else pure tt
  transition d1 deleted
  pure tt

unfoldable pub reset_admin : Operation → Act (Unit {0})
unfolding json_result
reset_admin o = do
  cfg ← asks (λ env. env.config)
  pkg ← asks (λ env. env.packages)
  text ← decrypt_text o.payload
  request ←
      wrapping (codes "decode panel admin reset")
        (lift (json_result pkg text (pkg.unmarshal_reset text)))
  invoke (
      materialize_named o.deployment_id (codes "panel_admin_reset.json") (
        pkg.marshal_panel_reset
          (record { email = request.admin_email; password = request.admin_password })))
  r ← attempt (invoke (exec o.deployment_id cfg.panel.admin_reset_command))
  ignore (invoke (remove_named o.deployment_id (codes "panel_admin_reset.json")))
  lift r
