-- ===== src/Service/Keeps/Work.antt =====
-- The workers of internal/deployment/service.go keep what the repository keeps.
use centralcloud_agent.Prelude.{Bool, true, false, Option, none, some, [], ◌∷◌, Bytes}
use centralcloud_agent.Errors.{Err, Result, ok, err}
use centralcloud_agent.Packages.{PermanentSecrets}
use centralcloud_agent.Domain.Model.{
  Deployment, Operation, OpType, DeploymentNetworks, op_create, op_start, op_stop, op_restart,
  op_upgrade, op_delete_soft, op_delete_purge, op_admin_reset, op_other,
}
use centralcloud_agent.Storage.Tables.{Tables}
use centralcloud_agent.Service.Lifecycle.{
  Files, bootstrap_values, write_secret, write_secrets, materialize_secrets, create_from_spec,
  provision_resources, provision_container, provision_panel, provision, begin_start, start, stop,
  begin_delete, purge_data, remove, reset_admin,
}
use centralcloud_agent.Service.Upgrade.{
  Upgrade, prepare_upgrade, replace_image, launch_new, launch_old, or_recovery_failed, roll_back,
  return_to, settle_upgrade, conclude, upgrade,
}
use centralcloud_agent.Service.Process.{
  dispatch, execute, mark_failed, complete, report, process, process_claimed, worker_round,
}
use centralcloud_agent.Runtime.{Act}
use centralcloud_agent.Runtime.Keeps.{Keeps, OnTables, Keeps-bind, tables_rules}
use centralcloud_agent.Storage.Invariant.{StorageKeeps}
use centralcloud_agent.Service.Keeps.{shared_kept}

module _ {Q : Tables → Type 0} (laws : StorageKeeps Q) where
  abbrev Kept : {A : Type 0} → Act A → Type 0
  Kept m = Keeps (OnTables Q) m

  bootstrap_values-Kept : (d : Deployment) → Kept (bootstrap_values d)
  unfolding bootstrap_values
  bootstrap_values-Kept d = search (shared_kept) depth 9

  write_secret-Kept :
      (id name value : Bytes) (m : Act Files) → Kept m → Kept (write_secret id name value m)
  unfolding write_secret
  write_secret-Kept id name value m k = search shared_kept

  write_secrets-Kept : (id : Bytes) (files : Files) → Kept (write_secrets id files)
  unfolding write_secrets
  write_secrets-Kept id [] = search shared_kept
  write_secrets-Kept id ((name, value) ∷ rest) =
      write_secret-Kept id name value _ (write_secrets-Kept id rest)

  materialize_secrets-Kept :
      (d : Deployment) (b : PermanentSecrets) → Kept (materialize_secrets d b)
  unfolding materialize_secrets
  materialize_secrets-Kept d b = search (shared_kept, bootstrap_values-Kept, write_secrets-Kept)

  create_from_spec-Kept :
      (d : Deployment) (files : Files) (n : DeploymentNetworks) (dir : Bytes)
      → Kept (create_from_spec d files n dir)
  unfolding create_from_spec
  create_from_spec-Kept d files n dir = search shared_kept

  ruleset container_kept = (shared_kept, materialize_secrets-Kept, create_from_spec-Kept)

  provision_resources-Kept :
      (o : Operation) (d : Deployment) (b : PermanentSecrets) → Kept (provision_resources o d b)
  unfolding provision_resources
  provision_resources-Kept o d b = search container_kept depth 12

  provision_container-Kept :
      (o : Operation) (b : PermanentSecrets) (p : Deployment × DeploymentNetworks × Bytes)
      → Kept (provision_container o b p)
  unfolding provision_container
  provision_container-Kept o b (d, n, dir) = search container_kept depth 12

  provision_panel-Kept : (o : Operation) (d : Deployment) → Kept (provision_panel o d)
  unfolding provision_panel
  provision_panel-Kept o d = search container_kept depth 12

  provision-Kept : (o : Operation) → Kept (provision o)
  unfolding provision
  provision-Kept o =
      search
        (container_kept, provision_resources-Kept, provision_container-Kept, provision_panel-Kept)

  begin_start-Kept : (d : Deployment) → Kept (begin_start d)
  begin_start-Kept d = search container_kept

  start-Kept : (o : Operation) → Kept (start o)
  unfolding start
  start-Kept o = search (container_kept, begin_start-Kept) depth 9

  stop-Kept : (o : Operation) → Kept (stop o)
  unfolding stop
  stop-Kept o = search container_kept depth 9

  begin_delete-Kept : (d : Deployment) → Kept (begin_delete d)
  begin_delete-Kept d = search container_kept

  purge_data-Kept : (d : Deployment) → Kept (purge_data d)
  unfolding purge_data
  purge_data-Kept d = search container_kept

  remove-Kept : (o : Operation) (purge : Bool) → Kept (remove o purge)
  unfolding remove
  remove-Kept o purge = search (container_kept, begin_delete-Kept, purge_data-Kept) depth 12

  reset_admin-Kept : (o : Operation) → Kept (reset_admin o)
  unfolding reset_admin
  reset_admin-Kept o = search container_kept depth 12

  prepare_upgrade-Kept : (d : Deployment) → Kept (prepare_upgrade d)
  unfolding prepare_upgrade
  prepare_upgrade-Kept d = search container_kept depth 9

  replace_image-Kept : (u : Upgrade) (image : Bytes) → Kept (replace_image u image)
  unfolding replace_image
  replace_image-Kept u image = search container_kept depth 9

  launch_new-Kept : (u : Upgrade) (d : Deployment) → Kept (launch_new u d)
  unfolding launch_new
  launch_new-Kept u d = search container_kept depth 12

  launch_old-Kept : (u : Upgrade) (files : Files) (d : Deployment) → Kept (launch_old u files d)
  unfolding launch_old
  launch_old-Kept u files d = search container_kept

  or_recovery_failed-Kept :
      (e : Err) (what : Bytes) (r : Result (Unit {0})) → Kept (or_recovery_failed e what r)
  or_recovery_failed-Kept e what (ok u) = search container_kept
  or_recovery_failed-Kept e what (err re) = search container_kept

  roll_back-Kept :
      (u : Upgrade) (d : Deployment) (image : Bytes) (files : Files) (e : Err)
      → Kept (roll_back u d image files e)
  unfolding roll_back
  roll_back-Kept u d image files e =
      search (container_kept, launch_old-Kept, or_recovery_failed-Kept) depth 12

  return_to-Kept : (d : Deployment) (b : Bool) → Kept (return_to d b)
  return_to-Kept d true = search container_kept
  return_to-Kept d false = search container_kept

  settle_upgrade-Kept : (d : Deployment) (b : Bool) → Kept (settle_upgrade d b)
  unfolding settle_upgrade
  settle_upgrade-Kept d b = search (container_kept, return_to-Kept) depth 9

  conclude-Kept :
      (u : Upgrade) (d : Deployment) (image : Bytes) (b : Bool) (r : Files × Result (Unit {0}))
      → Kept (conclude u d image b r)
  conclude-Kept u d image b (files, ok x) = settle_upgrade-Kept d b
  conclude-Kept u d image b (files, err e) = roll_back-Kept u d image files e

  upgrade-Kept : (o : Operation) → Kept (upgrade o)
  unfolding upgrade
  upgrade-Kept o =
      search
        (container_kept, prepare_upgrade-Kept, replace_image-Kept, launch_new-Kept, conclude-Kept)
        depth 12

  execute-Kept : (typ : OpType) (o : Operation) → Kept (dispatch typ o)
  execute-Kept op_create o = provision-Kept o
  execute-Kept op_start o = start-Kept o
  execute-Kept op_stop o = stop-Kept o
  execute-Kept op_restart o = search (container_kept, start-Kept, stop-Kept)
  execute-Kept op_upgrade o = upgrade-Kept o
  execute-Kept op_delete_soft o = remove-Kept o false
  execute-Kept op_delete_purge o = remove-Kept o true
  execute-Kept op_admin_reset o = reset_admin-Kept o
  execute-Kept (op_other t) o = search container_kept

  mark_failed-Kept : (o : Operation) (e : Err) (r : Result Deployment) → Kept (mark_failed o e r)
  unfolding mark_failed
  mark_failed-Kept o e (ok d) = search container_kept
  mark_failed-Kept o e (err de) = search container_kept

  complete-Kept : (purge : Bool) (o : Operation) (result : Bytes) → Kept (complete purge o result)
  complete-Kept true o result = search container_kept
  complete-Kept false o result = search container_kept

  report-Kept : (o : Operation) (r : Result (Unit {0})) → Kept (report o r)
  unfolding report
  report-Kept o (ok x) = search (container_kept, complete-Kept) depth 9
  report-Kept o (err e) = search (container_kept, mark_failed-Kept) depth 9

  pub process-Kept : (o : Operation) → Kept (process o)
  unfolding process execute
  process-Kept o = search (container_kept, execute-Kept, report-Kept) depth 9

  pub worker_round-Kept : Kept worker_round
  unfolding worker_round
  worker_round-Kept = Keeps-bind _ _ (laws.claim_operation_kept) λ c. claimed c
    where
      claimed : (c : Option Operation) → Kept (process_claimed c)
      claimed none = search tables_rules
      claimed (some o) = process-Kept o
