-- ===== src/Storage/Schedule.antt =====
-- Interleavings of internal/storage/sqlite.go. The pool holds one connection, and each method is one
-- statement or one transaction, so handlers and workers that run at once make a sequence of calls.
use centralcloud_agent.Prelude.{List, [], ◌∷◌, Bytes}
use centralcloud_agent.Domain.Clock.{Time}
use centralcloud_agent.Domain.State.{State}
use centralcloud_agent.Domain.Model.{Deployment, Operation}
use centralcloud_agent.Storage.Tables.{Tables}
use centralcloud_agent.Storage.Deployments.{
  create_deployment, save_deployment, get_deployment, update_state, count_deployments,
}
use centralcloud_agent.Storage.Operations.{
  create_operation, claim_operation, complete_operation, complete_purge, fail_operation,
  record_step, requeue_running,
}
use centralcloud_agent.Storage.Keys.{
  get_idempotency, put_idempotency, create_purge_token, consume_purge_token,
}
use centralcloud_agent.Storage.Invariant.{StorageKeeps}
use centralcloud_agent.Storage.Exclusive.{IsExclusive, exclusive}
use centralcloud_agent.Runtime.{Env, World, Act, ignore}
use centralcloud_agent.Runtime.Keeps.{Keeps, OnTables, Keeps-ignore}

-- A call of a method, by any handler or worker, with any arguments.
pub data RepoCall : Type 0 where
  creates_deployment : Deployment → RepoCall
  saves_deployment : Deployment → RepoCall
  gets_deployment : Bytes → RepoCall
  counts_deployments : RepoCall
  updates_state : Bytes → State → Bytes → RepoCall
  creates_operation : Operation → RepoCall
  claims_operation : RepoCall
  completes_operation : Bytes → Bytes → RepoCall
  completes_purge : Bytes → Bytes → Bytes → RepoCall
  fails_operation : Bytes → Bytes → Bytes → RepoCall
  records_step : Bytes → Bytes → Bytes → Bytes → RepoCall
  gets_idempotency : Bytes → RepoCall
  puts_idempotency : Bytes → Bytes → Bytes → RepoCall
  creates_purge_token : Bytes → Bytes → Time → RepoCall
  consumes_purge_token : Bytes → Bytes → Time → RepoCall
  requeues_running : RepoCall

-- The call, with its result dropped.
abbrev pub perform : RepoCall → Act (Unit {0})
perform (creates_deployment d) = ignore (create_deployment d)
perform (saves_deployment d) = ignore (save_deployment d)
perform (gets_deployment id) = ignore (get_deployment id)
perform counts_deployments = ignore count_deployments
perform (updates_state id to step) = ignore (update_state id to step)
perform (creates_operation o) = ignore (create_operation o)
perform claims_operation = ignore claim_operation
perform (completes_operation id r) = ignore (complete_operation id r)
perform (completes_purge op id r) = ignore (complete_purge op id r)
perform (fails_operation id c t) = ignore (fail_operation id c t)
perform (records_step id s t d) = ignore (record_step id s t d)
perform (gets_idempotency k) = ignore (get_idempotency k)
perform (puts_idempotency k h r) = ignore (put_idempotency k h r)
perform (creates_purge_token id h t) = ignore (create_purge_token id h t)
perform (consumes_purge_token id h t) = ignore (consume_purge_token id h t)
perform requeues_running = ignore requeue_running

pub run : Env → List RepoCall → World → World
run env [] w = w
run env (c ∷ cs) w = run env cs (perform c env w).1

module _ {Q : Tables → Type 0} (laws : StorageKeeps Q) where
  perform-Kept : (c : RepoCall) → Keeps (OnTables Q) (perform c)
  perform-Kept (creates_deployment d) = Keeps-ignore _ (laws.create_deployment_kept d)
  perform-Kept (saves_deployment d) = Keeps-ignore _ (laws.save_deployment_kept d)
  perform-Kept (gets_deployment id) = Keeps-ignore _ (laws.get_deployment_kept id)
  perform-Kept counts_deployments = Keeps-ignore _ laws.count_deployments_kept
  perform-Kept (updates_state id to s) = Keeps-ignore _ (laws.update_state_kept id to s)
  perform-Kept (creates_operation o) = Keeps-ignore _ (laws.create_operation_kept o)
  perform-Kept claims_operation = Keeps-ignore _ laws.claim_operation_kept
  perform-Kept (completes_operation id r) = Keeps-ignore _ (laws.complete_operation_kept id r)
  perform-Kept (completes_purge op id r) = Keeps-ignore _ (laws.complete_purge_kept op id r)
  perform-Kept (fails_operation id c t) = Keeps-ignore _ (laws.fail_operation_kept id c t)
  perform-Kept (records_step id s t d) = Keeps-ignore _ (laws.record_step_kept id s t d)
  perform-Kept (gets_idempotency k) = Keeps-ignore _ (laws.get_idempotency_kept k)
  perform-Kept (puts_idempotency k h r) = Keeps-ignore _ (laws.put_idempotency_kept k h r)
  perform-Kept (creates_purge_token id h t) = Keeps-ignore _ (laws.create_purge_token_kept id h t)
  perform-Kept (consumes_purge_token id h t) = Keeps-ignore _ (laws.consume_purge_token_kept id h t)
  perform-Kept requeues_running = Keeps-ignore _ laws.requeue_running_kept

  run-Kept : (env : Env) (cs : List RepoCall) (w : World) → Q w.tables → Q (run env cs w).tables
  unfolding run
  run-Kept env [] w h = h
  run-Kept env (c ∷ cs) w h =
      run-Kept env cs (perform c env w).1 ((perform-Kept c).at env w (record { holds = h })).holds

-- Whatever calls handlers, workers and restarts make of the repository, in whatever order and with
-- whatever failures of the driver, a database in which each deployment has at most one queued or
-- running operation stays so.
pub run-IsExclusive :
    (env : Env) (cs : List RepoCall) (w : World)
    → IsExclusive w.tables
    → IsExclusive (run env cs w).tables
run-IsExclusive = run-Kept exclusive
