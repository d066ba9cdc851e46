-- ===== src/Service/Upgrade.antt =====
-- internal/deployment/service.go: the upgrade of a panel's image, with its backup and its rollback.
use centralcloud_agent.Prelude.{
  Bool, true, false, not, ◌&&◌, [], ◌++◌, if◌then◌else◌, Bytes, codes, same, pos,
}
use centralcloud_agent.Errors.{
  Err, Result, ok, err, plain, sentinel, conflict, wrap_both, rolled_back,
}
use centralcloud_agent.Packages.{PermanentSecrets}
use centralcloud_agent.Domain.State.{same_state, state_text, active, stopped, updating}
use centralcloud_agent.Domain.Model.{
  Deployment, Operation, DeploymentNetworks, ensure_deployment_networks, ensure_panel,
  backup_create, backup_restore, backup_prune, pull_image, stop_container, remove_container,
  start_container, exec,
}
use centralcloud_agent.Domain.Validate.{validate_panel_image}
use centralcloud_agent.Storage.Deployments.{get_deployment, save_deployment}
use centralcloud_agent.Service.{decrypt_permanent_secrets, transition}
use centralcloud_agent.Service.Lifecycle.{
  Files, json_result, materialize_secrets, create_from_spec, wait_for, thirty_seconds,
}
use centralcloud_agent.Runtime.{
  Act, pure, raise, lift, asks, attempt, ignore, invoke, invoke_for, check, ◌>>=◌, ◌>>◌,
}

-- What an upgrade works with once it has made its backup.
pub record Upgrade : Type 0 where
  pub deployment : Deployment
  pub bundle : PermanentSecrets
  pub networks : DeploymentNetworks
  pub directory : Bytes
  pub backup : Bytes

abbrev pub with_image : Deployment → Bytes → Deployment
with_image d image = record d { request = record d.request { image = image } }

abbrev pub upgradable : Deployment → Bytes → Act (Unit {0})
upgradable d image =
    if not (same_state d.state active) && not (same_state d.state stopped)
    then raise (plain (codes "deployment cannot be upgraded from " ++ state_text d.state))
    else if same image d.request.image
    then raise (sentinel conflict)
    else pure tt

-- Everything up to the backup.
unfoldable pub prepare_upgrade : Deployment → Act Upgrade
prepare_upgrade d = do
  d1 ← transition d updating
  bundle ← decrypt_permanent_secrets d.encrypted_secret
  networks ←
      invoke_for (ensure_deployment_networks d.request.deployment_id)
        (λ env n. env.networks n d.request.deployment_id)
  directory ←
      invoke_for (ensure_panel d.request.deployment_id)
        (λ env n. env.panel_directory n d.request.deployment_id)
  backup ← invoke_for (backup_create d1 bundle.database_password networks) (λ env. env.backup_path)
  pure (record {
    deployment = d1;
    bundle = bundle;
    networks = networks;
    directory = directory;
    backup = backup;
  })

-- The old container gives way: image pulled, container removed, new image recorded.
unfoldable pub replace_image : Upgrade → Bytes → Act Deployment
replace_image u image = do
  invoke (pull_image image)
  ignore (invoke (stop_container u.deployment.request.deployment_id thirty_seconds))
  invoke (remove_container u.deployment.request.deployment_id)
  save_deployment (with_image u.deployment image)
  pure (with_image u.deployment image)

abbrev pub files_or_none : Result Files → Files
files_or_none (ok files) = files
files_or_none (err e) = []

-- The new container, from its secrets to its health; the secrets written are kept for a rollback.
unfoldable pub launch_new : Upgrade → Deployment → Act (Files × Result (Unit {0}))
launch_new u d = do
  cfg ← asks (λ env. env.config)
  files ← attempt (materialize_secrets d u.bundle)
  r ← attempt (do
    f ← lift files
    create_from_spec d f u.networks u.directory
    invoke (start_container d.request.deployment_id)
    invoke (exec d.request.deployment_id cfg.panel.migration_command)
    wait_for d)
  pure (files_or_none files, r)

-- The old image's container, from its specification to its health.
unfoldable pub launch_old : Upgrade → Files → Deployment → Act (Unit {0})
launch_old u files d = do
  create_from_spec d files u.networks u.directory
  invoke (start_container d.request.deployment_id)
  wait_for d

abbrev pub or_recovery_failed : Err → Bytes → Result (Unit {0}) → Act (Unit {0})
or_recovery_failed failed what (ok _) = pure tt
or_recovery_failed failed what (err re) = raise (wrap_both (codes "upgrade failed") failed what re)

-- The database and the old image come back; a rollback that succeeds is still an error.
unfoldable pub roll_back : Upgrade → Deployment → Bytes → Files → Err → Act (Unit {0})
roll_back u d old_image files failed = do
  ignore (invoke (remove_container d.request.deployment_id))
  restored ← attempt (invoke (backup_restore d u.bundle.database_password u.backup u.networks))
  or_recovery_failed failed (codes "restore failed") restored
  let d1 = with_image d old_image
  ignore (save_deployment d1)
  recovered ← attempt (launch_old u files d1)
  or_recovery_failed failed (codes "old image recovery failed") recovered
  ignore (transition d1 active)
  raise (rolled_back failed)

abbrev pub return_to : Deployment → Bool → Act Deployment
return_to d false = transition d active
return_to d true = do
  ignore (invoke (stop_container d.request.deployment_id thirty_seconds))
  transition d stopped

-- After a good launch: back to the state before, and old backups pruned.
unfoldable pub settle_upgrade : Deployment → Bool → Act (Unit {0})
settle_upgrade d was_stopped = do
  r ← attempt (return_to d was_stopped)
  ignore (invoke (backup_prune d.request.deployment_id (pos 2) (pos 604800000000000)))
  lift r
  pure tt

abbrev pub conclude :
    Upgrade → Deployment → Bytes → Bool → Files × Result (Unit {0}) → Act (Unit {0})
conclude u d old_image was_stopped (files, ok _) = settle_upgrade d was_stopped
conclude u d old_image was_stopped (files, err e) = roll_back u d old_image files e

unfoldable pub upgrade : Operation → Act (Unit {0})
unfolding prepare_upgrade replace_image launch_new
upgrade o = do
  cfg ← asks (λ env. env.config)
  pkg ← asks (λ env. env.packages)
  req ← lift (json_result pkg o.payload (pkg.unmarshal_upgrade o.payload))
  check (validate_panel_image pkg req.image cfg)
  d ← get_deployment o.deployment_id
  upgradable d req.image
  u ← prepare_upgrade d
  d1 ← replace_image u req.image
  launched ← launch_new u d1
  conclude u d1 d.request.image (same_state d.state stopped) launched
