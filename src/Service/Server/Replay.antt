-- ===== src/Service/Server/Replay.antt =====
-- Idempotency keys over the life of the agent (internal/deployment/service.go).
use centralcloud_agent.Prelude.{
  suc, ◌≡◌, refl, Option, none, some, List, Bytes, same_refl, to_lower, ◌≢◌, same_iff, arith, sym,
  ◌∙◌,
}
use centralcloud_agent.Errors.{Err, Result, ok, err, sentinel, conflict}
use centralcloud_agent.Contracts.{CreateDeploymentRequest}
use centralcloud_agent.Domain.Model.{OpType}
use centralcloud_agent.Domain.Create.{validate_create}
use centralcloud_agent.Storage.Tables.{IdempotencyRow}
use centralcloud_agent.Storage.Keys.{get_idempotency}
use centralcloud_agent.Storage.KeyStable.{Holds, holds}
use centralcloud_agent.Service.{hash_request, existing_idempotency, or_replay}
use centralcloud_agent.Storage.Recorded.{Recorded}
use centralcloud_agent.Service.Recorded.{submit_create-Answered, submit-Answered}
use centralcloud_agent.Service.Submit.{submit_create, submit}
use centralcloud_agent.Service.Server.{Activity, serve, serve-Kept}
use centralcloud_agent.Runtime.{Env, World, Act, check, statement, ◌>>=◌, ◌>>◌}

-- The world after one more statement that changes nothing.
abbrev pub one_step : World → World
one_step w = record w { tick = suc w.tick }

module _ (env : Env) (w : World) (key hash : Bytes) (row : IdempotencyRow) where
  existing-found :
      env.sql_failure w.tick ≡ none
      → Holds key row w.tables
      → row.request_hash ≡ hash
      → existing_idempotency key hash env w ≡ (ok (some row.response), one_step w)
  unfolding existing_idempotency get_idempotency statement ◌>>=◌
  existing-found alive h e = ground (arith, same_refl hash)

  existing-conflict :
      env.sql_failure w.tick ≡ none
      → Holds key row w.tables
      → row.request_hash ≢ hash
      → existing_idempotency key hash env w ≡ (err (sentinel conflict), one_step w)
  unfolding existing_idempotency get_idempotency statement ◌>>=◌
  existing-conflict alive h e = ground (arith, same_iff row.request_hash hash)

-- The world in which the agent is after a submission and what it does next.
abbrev pub later : Env → List Activity → Result Bytes × World → World
later env todo out = serve env todo out.1

-- A known key ends a submission with the recorded response.
replayed :
    (env : Env) (w : World) (key hash b : Bytes) (m : Act Bytes)
    → env.sql_failure w.tick ≡ none
    → Recorded key hash b w.tables
    → (do seen ← existing_idempotency key hash; or_replay seen m) env w ≡ (ok b, one_step w)
unfolding ◌>>=◌
replayed env w key hash b m alive r =
    rw (existing-found env w key hash r.row alive r.found r.same_hash, r.same_response)

-- What was recorded is there whatever the agent does next.
Recorded-later :
    (env : Env) (todo : List Activity) (w : World) (key hash b : Bytes)
    → Recorded key hash b w.tables
    → Recorded key hash b (serve env todo w).tables
Recorded-later env todo w key hash b r = record {
  row = r.row;
  found = serve-Kept (holds key r.row) env todo w r.found;
  same_hash = r.same_hash;
  same_response = r.same_response;
}

answered_is_valid :
    (env : Env) (w : World) (r : CreateDeploymentRequest) (key method path raw b : Bytes)
    → (submit_create r key method path raw env w).0 ≡ ok b
    → (validate_create env.packages env.config r).1 ≡ none
unfolding submit_create ◌>>=◌
answered_is_valid env w r key method path raw b h =
    checked (validate_create env.packages env.config r).1 _ h
  where
    checked : (o : Option Err) (m : Act Bytes) → ((check o >> m) env w).0 ≡ ok b → o ≡ none
    checked none m h = refl
    checked (some e) m h = cc

repeated :
    (env : Env) (w : World) (r : CreateDeploymentRequest) (key method path raw b : Bytes)
    → (validate_create env.packages env.config r).1 ≡ none
    → env.sql_failure w.tick ≡ none
    → Recorded (to_lower key) (hash_request env.packages method path raw) b w.tables
    → submit_create r key method path raw env w ≡ (ok b, one_step w)
unfolding submit_create ◌>>=◌
repeated env w r key method path raw b valid alive recorded =
    rw valid
      (replayed env w (to_lower key) (hash_request env.packages method path raw) b _ alive recorded)

-- A create request that was answered is answered in the same way when it comes again with the same
-- idempotency key, method, path and body, whatever the agent served, worked on or restarted in
-- between, unless the driver fails the lookup; and answering it again changes nothing but the count
-- of steps.
pub submit_create_again :
    (env : Env) (w : World) (r : CreateDeploymentRequest) (key method path raw b : Bytes)
    (todo : List Activity)
    → (submit_create r key method path raw env w).0 ≡ ok b
    → env.sql_failure (later env todo (submit_create r key method path raw env w)).tick ≡ none
    → submit_create r key method path raw env
        (later env todo (submit_create r key method path raw env w))
      ≡ (ok b, one_step (later env todo (submit_create r key method path raw env w)))
submit_create_again env w r key method path raw b todo answered alive =
    repeated env _ r key method path raw b
      (answered_is_valid env w r key method path raw b answered) alive
      (Recorded-later env todo _ _ _ b
        (submit_create-Answered env w r key method path raw b answered))

-- The same holds of every request that Submit queues: the operation, the deployment, the key, the
-- method, the path and the payload being those of a request that was answered.
pub submit_again :
    (env : Env) (w : World) (typ : OpType) (id key method path payload b : Bytes)
    (todo : List Activity)
    → (submit typ id key method path payload env w).0 ≡ ok b
    → env.sql_failure (later env todo (submit typ id key method path payload env w)).tick ≡ none
    → submit typ id key method path payload env
        (later env todo (submit typ id key method path payload env w))
      ≡ (ok b, one_step (later env todo (submit typ id key method path payload env w)))
unfolding submit ◌>>=◌
submit_again env w typ id key method path payload b todo answered alive =
    replayed env _ (to_lower key) (hash_request env.packages method path payload) b _ alive (
      Recorded-later env todo _ _ _ b
        (submit-Answered env w typ id key method path payload b answered))

-- A key that answered a create request is refused, as a conflict and with nothing changed, for an
-- action whose method, path and payload have another digest, whatever the agent did in between.
pub submit_other_conflict :
    (env : Env) (w : World) (r : CreateDeploymentRequest) (key method path raw b : Bytes)
    (todo : List Activity) (typ : OpType) (id method' path' payload : Bytes)
    → (submit_create r key method path raw env w).0 ≡ ok b
    → env.sql_failure (later env todo (submit_create r key method path raw env w)).tick ≡ none
    → hash_request env.packages method path raw ≢ hash_request env.packages method' path' payload
    → submit typ id key method' path' payload env
        (later env todo (submit_create r key method path raw env w))
      ≡ (
        err (sentinel conflict),
        one_step (later env todo (submit_create r key method path raw env w)),
      )
unfolding submit ◌>>=◌
submit_other_conflict env w r key method path raw b todo typ id method' path' payload answered alive
      other =
    let kept =
      Recorded-later env todo _ _ _ b
        (submit_create-Answered env w r key method path raw b answered) in
    rw (
      existing-conflict env (later env todo (submit_create r key method path raw env w))
        (to_lower key) (hash_request env.packages method' path' payload) kept.row alive kept.found
        (λ e. other (sym kept.same_hash ∙ e)))
