-- ===== src/Service/Server.antt =====
-- The agent as it serves requests, works and restarts (internal/deployment/service.go).
pub mod Replay
use centralcloud_agent.Prelude.{ℕ, List, [], ◌∷◌, Bytes}
use centralcloud_agent.Contracts.{CreateDeploymentRequest, UpgradeRequest, AdminResetRequest}
use centralcloud_agent.Domain.Model.{OpType}
use centralcloud_agent.Storage.Tables.{Tables}
use centralcloud_agent.Storage.Operations.{requeue_running}
use centralcloud_agent.Storage.Invariant.{StorageKeeps}
use centralcloud_agent.Storage.Exclusive.{IsExclusive, exclusive}
use centralcloud_agent.Service.Submit.{
  submit_create, submit, submit_upgrade, submit_admin_reset, issue_purge_token, submit_purge,
}
use centralcloud_agent.Service.Process.{worker_round}
use centralcloud_agent.Service.Keeps.Submissions.{
  submit_create-Kept, submit-Kept, submit_upgrade-Kept, submit_admin_reset-Kept,
  issue_purge_token-Kept, submit_purge-Kept,
}
use centralcloud_agent.Service.Keeps.Work.{worker_round-Kept}
use centralcloud_agent.Runtime.{Env, World, Act, ignore}
use centralcloud_agent.Runtime.Keeps.{Keeps, OnTables, Keeps-ignore}

-- What the agent does next: it serves a request, a worker takes its turn, or it starts anew.
pub data Activity : Type 0 where
  create_request : CreateDeploymentRequest → Bytes → Bytes → Bytes → Bytes → Activity
  action_request : OpType → Bytes → Bytes → Bytes → Bytes → Bytes → Activity
  upgrade_request : Bytes → Bytes → Bytes → Bytes → UpgradeRequest → Bytes → Activity
  reset_request : Bytes → Bytes → Bytes → Bytes → AdminResetRequest → Bytes → Activity
  token_request : Bytes → Bytes → Bytes → Bytes → Activity
  purge_request : Bytes → Bytes → Bytes → Bytes → Bytes → Activity
  work restart : Activity

unfoldable pub perform : Activity → Act (Unit {0})
perform (create_request r key method path raw) = ignore (submit_create r key method path raw)
perform (action_request typ id key method path raw) = ignore (submit typ id key method path raw)
perform (upgrade_request id key method path r raw) =
    ignore (submit_upgrade id key method path r raw)
perform (reset_request id key method path r raw) =
    ignore (submit_admin_reset id key method path r raw)
perform (token_request id key method path) = ignore (issue_purge_token id key method path)
perform (purge_request id key method path token) = ignore (submit_purge id key method path token)
perform work = worker_round
perform restart = requeue_running

unfoldable pub serve : Env → List Activity → World → World
unfolding perform
serve env [] w = w
serve env (a ∷ rest) w = serve env rest (perform a env w).1

module _ {Q : Tables → Type 0} (laws : StorageKeeps Q) where
  perform-Kept : (a : Activity) → Keeps (OnTables Q) (perform a)
  unfolding perform
  perform-Kept (create_request r k m p raw) = Keeps-ignore _ (submit_create-Kept laws r k m p raw)
  perform-Kept (action_request t id k m p raw) = Keeps-ignore _ (submit-Kept laws t id k m p raw)
  perform-Kept (upgrade_request id k m p r raw) =
      Keeps-ignore _ (submit_upgrade-Kept laws id k m p r raw)
  perform-Kept (reset_request id k m p r raw) =
      Keeps-ignore _ (submit_admin_reset-Kept laws id k m p r raw)
  perform-Kept (token_request id k m p) = Keeps-ignore _ (issue_purge_token-Kept laws id k m p)
  perform-Kept (purge_request id k m p t) = Keeps-ignore _ (submit_purge-Kept laws id k m p t)
  perform-Kept work = worker_round-Kept laws
  perform-Kept restart = laws.requeue_running_kept

  pub serve-Kept :
      (env : Env) (todo : List Activity) (w : World) → Q w.tables → Q (serve env todo w).tables
  unfolding serve
  serve-Kept env [] w h = h
  serve-Kept env (a ∷ rest) w h =
      serve-Kept env rest (perform a env w).1
        ((perform-Kept a).at env w (record { holds = h })).holds

-- Whatever requests the agent serves, and however often a worker takes its turn or the agent
-- restarts in between, a database in which each deployment has at most one queued or running
-- operation stays so, with every failure of the driver and of the collaborators.
pub serve-IsExclusive :
    (env : Env) (todo : List Activity) (w : World)
    → IsExclusive w.tables
    → IsExclusive (serve env todo w).tables
serve-IsExclusive = serve-Kept exclusive
