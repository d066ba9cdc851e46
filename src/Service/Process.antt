-- ===== src/Service/Process.antt =====
-- internal/deployment/service.go: how a worker claims and processes an operation.
use centralcloud_agent.Prelude.{
  Bool, true, false, not, ◌&&◌, Option, none, some, ◌++◌, if◌then◌else◌, Bytes, codes, cut_before,
}
use centralcloud_agent.Errors.{Err, Result, ok, err, plain, message, is_rolled_back}
use centralcloud_agent.Domain.State.{same_state, can_transition, deleted, failed}
use centralcloud_agent.Domain.Model.{
  Deployment, Operation, OpType, op_create, op_start, op_stop, op_restart, op_upgrade,
  op_delete_soft, op_delete_purge, op_admin_reset, op_other,
}
use centralcloud_agent.Storage.Deployments.{get_deployment, update_state}
use centralcloud_agent.Storage.Operations.{
  claim_operation, complete_operation, complete_purge, fail_operation,
}
use centralcloud_agent.Service.Lifecycle.{provision, start, stop, remove, reset_admin}
use centralcloud_agent.Service.Upgrade.{upgrade}
use centralcloud_agent.Runtime.{Act, pure, raise, asks, attempt, ignore, now, ◌>>=◌, ◌>>◌}

abbrev pub dispatch : OpType → Operation → Act (Unit {0})
dispatch op_create o = provision o
dispatch op_start o = start o
dispatch op_stop o = stop o
dispatch op_restart o = do stop o; start o
dispatch op_upgrade o = upgrade o
dispatch op_delete_soft o = remove o false
dispatch op_delete_purge o = remove o true
dispatch op_admin_reset o = reset_admin o
dispatch (op_other t) o = do
  pkg ← asks (λ env. env.packages)
  raise (plain (codes "unknown operation type " ++ pkg.quote t))

unfoldable pub execute : Operation → Act (Unit {0})
execute o = dispatch o.typ o

-- The deployment of a failed operation, unless the upgrade was rolled back.
unfoldable pub mark_failed : Operation → Err → Result Deployment → Act (Unit {0})
mark_failed o e (err de) = pure tt
mark_failed o e (ok d) =
    if not (is_rolled_back e) && (not (same_state d.state deleted) && can_transition d.state failed)
    then ignore (update_state o.deployment_id failed (cut_before b':' (message e)))
    else pure tt

abbrev pub is_purge : OpType → Bool
is_purge op_delete_purge = true
is_purge _ = false

abbrev pub complete : Bool → Operation → Bytes → Act (Unit {0})
complete true o result = complete_purge o.id o.deployment_id result
complete false o result = complete_operation o.id result

unfoldable pub report : Operation → Result (Unit {0}) → Act (Unit {0})
unfolding mark_failed
report o (err e) = do
  redact ← asks (λ env. env.redact)
  ignore (fail_operation o.id (codes "operation_failed") (redact (message e)))
  d ← attempt (get_deployment o.deployment_id)
  mark_failed o e d
report o (ok _) = do
  pkg ← asks (λ env. env.packages)
  ignore (complete (is_purge o.typ) o (pkg.marshal_succeeded o.deployment_id))
  now
  pure tt

unfoldable pub process : Operation → Act (Unit {0})
unfolding report
process o = do now; r ← attempt (execute o); report o r; now; pure tt

abbrev pub process_claimed : Option Operation → Act (Unit {0})
process_claimed none = pure tt
process_claimed (some o) = process o

-- One round of a worker: an error of the claim is logged, and without an operation it waits.
unfoldable pub worker_round : Act (Unit {0})
worker_round = do claimed ← claim_operation; process_claimed claimed
