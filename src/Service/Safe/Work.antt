-- ===== src/Service/Safe/Work.antt =====
-- The workers of internal/deployment/service.go destroy a customer's data only in a purge.
use centralcloud_agent.Prelude.{◌≡◌}
use centralcloud_agent.Runtime.{Env, World}
use centralcloud_agent.Storage.Operations.{complete_purge}
use centralcloud_agent.Service.Process.{is_purge}
use centralcloud_agent.Service.Safe.{Safe, NoLoss, shared_safe}
use centralcloud_agent.Prelude.{Bool, true, false, [], ◌∷◌, Bytes}
use centralcloud_agent.Errors.{Err, Result, ok, err}
use centralcloud_agent.Packages.{PermanentSecrets}
use centralcloud_agent.Domain.Model.{
  Deployment, Operation, OpType, DeploymentNetworks, op_create, op_start, op_stop, op_restart,
  op_upgrade, op_delete_soft, op_delete_purge, op_admin_reset, op_other,
}
use centralcloud_agent.Service.Lifecycle.{
  Files, bootstrap_values, write_secret, write_secrets, materialize_secrets, create_from_spec,
  provision_resources, provision_container, provision_panel, provision, begin_start, start, stop,
  begin_delete, remove, reset_admin,
}
use centralcloud_agent.Service.Upgrade.{
  Upgrade, prepare_upgrade, replace_image, launch_new, launch_old, or_recovery_failed, roll_back,
  return_to, settle_upgrade, conclude, upgrade,
}
use centralcloud_agent.Service.Process.{dispatch, execute, mark_failed, complete, report, process}
use centralcloud_agent.Runtime.{Act}

bootstrap_values-Safe : (d : Deployment) → Safe (bootstrap_values d)
unfolding bootstrap_values
bootstrap_values-Safe d = search (shared_safe) depth 9

write_secret-Safe :
    (id name value : Bytes) (m : Act Files) → Safe m → Safe (write_secret id name value m)
unfolding write_secret
write_secret-Safe id name value m k = search shared_safe

write_secrets-Safe : (id : Bytes) (files : Files) → Safe (write_secrets id files)
unfolding write_secrets
write_secrets-Safe id [] = search shared_safe
write_secrets-Safe id ((name, value) ∷ rest) =
    write_secret-Safe id name value _ (write_secrets-Safe id rest)

materialize_secrets-Safe : (d : Deployment) (b : PermanentSecrets) → Safe (materialize_secrets d b)
unfolding materialize_secrets
materialize_secrets-Safe d b = search (shared_safe, bootstrap_values-Safe, write_secrets-Safe)

create_from_spec-Safe :
    (d : Deployment) (files : Files) (n : DeploymentNetworks) (dir : Bytes)
    → Safe (create_from_spec d files n dir)
unfolding create_from_spec
create_from_spec-Safe d files n dir = search shared_safe

ruleset container_safe = (shared_safe, materialize_secrets-Safe, create_from_spec-Safe)

provision_resources-Safe :
    (o : Operation) (d : Deployment) (b : PermanentSecrets) → Safe (provision_resources o d b)
unfolding provision_resources
provision_resources-Safe o d b = search container_safe depth 12

provision_container-Safe :
    (o : Operation) (b : PermanentSecrets) (p : Deployment × DeploymentNetworks × Bytes)
    → Safe (provision_container o b p)
unfolding provision_container
provision_container-Safe o b (d, n, dir) = search container_safe depth 12

provision_panel-Safe : (o : Operation) (d : Deployment) → Safe (provision_panel o d)
unfolding provision_panel
provision_panel-Safe o d = search container_safe depth 12

provision-Safe : (o : Operation) → Safe (provision o)
unfolding provision
provision-Safe o =
    search
      (container_safe, provision_resources-Safe, provision_container-Safe, provision_panel-Safe)

begin_start-Safe : (d : Deployment) → Safe (begin_start d)
begin_start-Safe d = search container_safe

start-Safe : (o : Operation) → Safe (start o)
unfolding start
start-Safe o = search (container_safe, begin_start-Safe) depth 9

stop-Safe : (o : Operation) → Safe (stop o)
unfolding stop
stop-Safe o = search container_safe depth 9

begin_delete-Safe : (d : Deployment) → Safe (begin_delete d)
begin_delete-Safe d = search container_safe

remove-Safe : (o : Operation) → Safe (remove o false)
unfolding remove
remove-Safe o = search (container_safe, begin_delete-Safe) depth 12

reset_admin-Safe : (o : Operation) → Safe (reset_admin o)
unfolding reset_admin
reset_admin-Safe o = search container_safe depth 12

prepare_upgrade-Safe : (d : Deployment) → Safe (prepare_upgrade d)
unfolding prepare_upgrade
prepare_upgrade-Safe d = search container_safe depth 9

replace_image-Safe : (u : Upgrade) (image : Bytes) → Safe (replace_image u image)
unfolding replace_image
replace_image-Safe u image = search container_safe depth 9

launch_new-Safe : (u : Upgrade) (d : Deployment) → Safe (launch_new u d)
unfolding launch_new
launch_new-Safe u d = search container_safe depth 12

launch_old-Safe : (u : Upgrade) (files : Files) (d : Deployment) → Safe (launch_old u files d)
unfolding launch_old
launch_old-Safe u files d = search container_safe

or_recovery_failed-Safe :
    (e : Err) (what : Bytes) (r : Result (Unit {0})) → Safe (or_recovery_failed e what r)
or_recovery_failed-Safe e what (ok u) = search container_safe
or_recovery_failed-Safe e what (err re) = search container_safe

roll_back-Safe :
    (u : Upgrade) (d : Deployment) (image : Bytes) (files : Files) (e : Err)
    → Safe (roll_back u d image files e)
unfolding roll_back
roll_back-Safe u d image files e =
    search (container_safe, launch_old-Safe, or_recovery_failed-Safe) depth 12

return_to-Safe : (d : Deployment) (b : Bool) → Safe (return_to d b)
return_to-Safe d true = search container_safe
return_to-Safe d false = search container_safe

settle_upgrade-Safe : (d : Deployment) (b : Bool) → Safe (settle_upgrade d b)
unfolding settle_upgrade
settle_upgrade-Safe d b = search (container_safe, return_to-Safe) depth 9

conclude-Safe :
    (u : Upgrade) (d : Deployment) (image : Bytes) (b : Bool) (r : Files × Result (Unit {0}))
    → Safe (conclude u d image b r)
conclude-Safe u d image b (files, ok x) = settle_upgrade-Safe d b
conclude-Safe u d image b (files, err e) = roll_back-Safe u d image files e

upgrade-Safe : (o : Operation) → Safe (upgrade o)
unfolding upgrade
upgrade-Safe o =
    search
      (container_safe, prepare_upgrade-Safe, replace_image-Safe, launch_new-Safe, conclude-Safe)
      depth 12

execute-Safe : (typ : OpType) (o : Operation) → is_purge typ ≡ false → Safe (dispatch typ o)
execute-Safe op_create o n = provision-Safe o
execute-Safe op_start o n = start-Safe o
execute-Safe op_stop o n = stop-Safe o
execute-Safe op_restart o n = search (container_safe, start-Safe, stop-Safe)
execute-Safe op_upgrade o n = upgrade-Safe o
execute-Safe op_delete_soft o n = remove-Safe o
execute-Safe op_delete_purge o n = cc
execute-Safe op_admin_reset o n = reset_admin-Safe o
execute-Safe (op_other t) o n = search container_safe

mark_failed-Safe : (o : Operation) (e : Err) (r : Result Deployment) → Safe (mark_failed o e r)
unfolding mark_failed
mark_failed-Safe o e (ok d) = search container_safe
mark_failed-Safe o e (err de) = search container_safe

complete-Safe : (purge : Bool) (o : Operation) (result : Bytes) → Safe (complete purge o result)
unfolding complete_purge
complete-Safe true o result = search container_safe depth 12
complete-Safe false o result = search container_safe

report-Safe : (o : Operation) (r : Result (Unit {0})) → Safe (report o r)
unfolding report
report-Safe o (ok x) = search (container_safe, complete-Safe) depth 9
report-Safe o (err e) = search (container_safe, mark_failed-Safe) depth 9

process-Safe : (o : Operation) → is_purge o.typ ≡ false → Safe (process o)
unfolding process execute
process-Safe o n = search (container_safe, execute-Safe, report-Safe) depth 9

-- Processing an operation of any type but delete_purge drops no database and no role, purges no
-- panel's storage and no backup, whatever the collaborators and the driver answer: a trace without
-- such calls stays one.
pub keeps_data :
    (o : Operation) (env : Env) (w : World)
    → is_purge o.typ ≡ false
    → NoLoss w.trace
    → NoLoss (process o env w).1.trace
keeps_data o env w n h = ((process-Safe o n).at env w (record { holds = h })).holds
