-- ===== src/Service/Recorded.antt =====
-- A submission of internal/deployment/service.go that answers has its answer under its key.
use centralcloud_agent.Prelude.{
  ◌≡◌, refl, Option, none, some, Bytes, same, same_iff, to_lower, Bool-cases, inl, inr, sym, subst,
}
use centralcloud_agent.Errors.{Result, ok, err}
use centralcloud_agent.Contracts.{CreateDeploymentRequest}
use centralcloud_agent.Domain.Model.{OpType}
use centralcloud_agent.Domain.Create.{validate_create}
use centralcloud_agent.Storage.Tables.{IdempotencyRow, select}
use centralcloud_agent.Storage.Keys.{has_key, get_idempotency}
use centralcloud_agent.Storage.Recorded.{Recorded, put-Recorded}
use centralcloud_agent.Service.{
  hash_request, existing_idempotency, replay, or_replay, finish_submit,
}
use centralcloud_agent.Service.Submit.{submit_new, submit_create, queue_operation, submit}
use centralcloud_agent.Runtime.{Env, World, Act, check, pure, lift, signal, ◌>>=◌, ◌>>◌}
use centralcloud_agent.Runtime.Yields.{
  ok-injective, Yields, Anything, Yields-pure, Yields-raise, Yields-bind, Yields-after,
  Yields-attempt, Yields-given, Yields-statement,
}

-- The answer, as a postcondition.
abbrev pub Answered : Bytes → Bytes → Bytes → World → Type 0
Answered key hash b w = Recorded key hash b w.tables

abbrev Seen : Bytes → Bytes → Option Bytes → World → Type 0
Seen key hash none w = Unit
Seen key hash (some b) w = Recorded key hash b w.tables

replay-Seen :
    (key hash : Bytes) (found : Option IdempotencyRow)
    → Yields
        (λ w. found ≡ select (has_key key) w.tables.idempotency_keys)
        (Seen key hash)
        (replay hash found)
replay-Seen key hash none = Yields-pure none (λ w h. tt)
replay-Seen key hash (some row) = elim (Bool-cases (same row.request_hash hash)) [
  | inl e ↦ rw e (
      Yields-pure (some row.response) λ w h. record {
        row = row;
        found = sym h;
        same_hash = (same_iff row.request_hash hash).0 e;
        same_response = refl;
      })
  | inr e ↦ rw e (Yields-raise _)
]

existing-Seen : (key hash : Bytes) → Yields Anything (Seen key hash) (existing_idempotency key hash)
unfolding existing_idempotency get_idempotency
existing-Seen key hash =
    Yields-bind _ _
      (Yields-statement (λ r t. r ≡ select (has_key key) t.idempotency_keys) _ (λ t. refl))
      (replay-Seen key hash)

or_replay-Answered :
    (key hash : Bytes) (seen : Option Bytes) (m : Act Bytes)
    → Yields Anything (Answered key hash) m
    → Yields (Seen key hash seen) (Answered key hash) (or_replay seen m)
or_replay-Answered key hash none m k = Yields-given m (λ w h. tt) k
or_replay-Answered key hash (some b) m k = Yields-pure b (λ w h. h)

-- The signal and the answer leave the tables.
after_put :
    (key hash response : Bytes) (r : Result (Unit {0}))
    → Yields
        (λ w. (u : Unit {0}) → r ≡ ok u → Recorded key hash response w.tables)
        (Answered key hash)
        (do signal; lift r; pure response)
unfolding signal ◌>>=◌
after_put key hash response (ok u) = record {
  at = λ env w b h p.
      subst (λ c. Recorded key hash c w.tables) (ok-injective response b p) (h u refl);
}
after_put key hash response (err e) = record { at = λ env w b h p. cc }

finish-Answered :
    (key hash response : Bytes)
    → Yields Anything (Answered key hash) (finish_submit key hash response)
unfolding finish_submit
finish-Answered key hash response =
    Yields-bind _ _ (Yields-attempt _ (put-Recorded key hash response))
      (after_put key hash response)

submit_new-Answered :
    (r : CreateDeploymentRequest) (key hash : Bytes)
    → Yields Anything (Answered key hash) (submit_new r key hash)
unfolding submit_new
submit_new-Answered r key hash = Yields-after _ _ λ _. Yields-after _ _ λ _.
    Yields-after _ _ λ _. Yields-after _ _ λ _. Yields-after _ _ λ _. finish-Answered key hash _

queue_operation-Answered :
    (typ : OpType) (id payload key hash : Bytes)
    → Yields Anything (Answered key hash) (queue_operation typ id payload key hash)
unfolding queue_operation
queue_operation-Answered typ id payload key hash =
    Yields-after _ _ λ _. Yields-after _ _ λ _. Yields-after _ _ λ _. finish-Answered key hash _

-- The replay of a known key, or a new submission.
replayed_or :
    (key hash : Bytes) (m : Act Bytes)
    → Yields Anything (Answered key hash) m
    → Yields Anything
        (Answered key hash)
        (do seen ← existing_idempotency key hash; or_replay seen m)
replayed_or key hash m k =
    Yields-bind _ _ (existing-Seen key hash) (λ seen. or_replay-Answered key hash seen m k)

pub submit_create-Answered :
    (env : Env) (w : World) (r : CreateDeploymentRequest) (key method path raw b : Bytes)
    → (submit_create r key method path raw env w).0 ≡ ok b
    → Recorded
        (to_lower key)
        (hash_request env.packages method path raw)
        b
        (submit_create r key method path raw env w).1.tables
unfolding submit_create ◌>>=◌
submit_create-Answered env w r key method path raw b p =
    (Yields-after {P = Anything} (check (validate_create env.packages env.config r).1) _
        λ _. replayed_or _ _ _ (submit_new-Answered _ _ _)).at
      env w b tt p

pub submit-Answered :
    (env : Env) (w : World) (typ : OpType) (id key method path payload b : Bytes)
    → (submit typ id key method path payload env w).0 ≡ ok b
    → Recorded
        (to_lower key)
        (hash_request env.packages method path payload)
        b
        (submit typ id key method path payload env w).1.tables
unfolding submit ◌>>=◌
submit-Answered env w typ id key method path payload b p =
    (replayed_or (to_lower key) (hash_request env.packages method path payload) _
        (Yields-after _ _ λ _. queue_operation-Answered typ id payload _ _)).at
      env w b tt p
