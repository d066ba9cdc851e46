-- ===== src/Storage/Exclusive.antt =====
-- One active operation for a deployment, as the partial unique index of
-- internal/storage/sqlite.go promises: every method keeps it.
use centralcloud_agent.Prelude.{
  ◌+◌, ◌≤◌, ◌≡◌, refl, Bool, true, false, Option, none, some, List, [], ◌∷◌, arith, Bytes, same_iff,
  inl, inr, Bool-cases,
}
use centralcloud_agent.Domain.Clock.{Time}
use centralcloud_agent.Domain.State.{State}
use centralcloud_agent.Domain.Model.{Operation, Deployment}
use centralcloud_agent.Storage.Tables.{Tables, DeploymentRow, IdempotencyRow, select, update, count}
use centralcloud_agent.Storage.Tables.Counting.{count-append, count-update-le, count_of_unselected}
use centralcloud_agent.Storage.Deployments.{
  on_constraint, insert_unless, insert_deployment, create_deployment, save_deployment,
  get_deployment, update_state, count_deployments, has_id, or_not_found, check_transition,
}
use centralcloud_agent.Storage.Operations.{
  is_active_for, has_operation_id, of_deployment, take_operation, clashes, insert_operation,
  create_operation, claim_operation, complete_operation, complete_purge, fail_operation,
  record_step, requeue_running, finish, claim,
}
use centralcloud_agent.Storage.Keys.{
  get_idempotency, has_key, has_token, put_idempotency, insert_key, create_purge_token,
  consume_purge_token,
}
use centralcloud_agent.Storage.Invariant.{StorageKeeps}
use centralcloud_agent.Runtime.{Act}
use centralcloud_agent.Runtime.Keeps.{
  Keeps, Keeps-if, Keeps-pure, Keeps-check, Keeps-now, OnTables, AfterQuery, Keeps-statement,
  Keeps-attempt, Keeps-bind, Keeps-lift, tables_rules,
}

-- At most one operation of each deployment is queued or running.
abbrev pub IsExclusive : Tables → Type 0
IsExclusive t = (id : Bytes) → count (is_active_for id) t.operations ≤ 1

pub after_insert :
    (Q : Tables → Type 0) {A : Type 0} (o : Option A) (t : Tables)
    → (o ≡ none → Q t)
    → AfterQuery Q (insert_unless o t)
after_insert Q none t h = h refl
after_insert Q (some a) t h = tt

active_clashes :
    (o p : Operation) (id : Bytes)
    → o.deployment_id ≡ id
    → is_active_for id p ≡ true
    → clashes o p ≡ true
active_clashes o p id e h = rw e (ground arith)

owner : (o : Operation) (id : Bytes) → is_active_for id o ≡ true → o.deployment_id ≡ id
owner o id e = ground (arith, same_iff o.deployment_id id)

count_one : (o : Operation) (id : Bytes) → count (is_active_for id) (o ∷ []) ≤ 1
unfolding count
count_one o id = ground arith

count_none :
    (o : Operation) (id : Bytes)
    → is_active_for id o ≡ false
    → count (is_active_for id) (o ∷ []) ≡ 0
unfolding count
count_none o id e = ground arith

one_more :
    (o : Operation) (ops : List Operation) (id : Bytes)
    → select (clashes o) ops ≡ none
    → count (is_active_for id) ops ≤ 1
    → count (is_active_for id) ops + count (is_active_for id) (o ∷ []) ≤ 1
one_more o ops id free h = elim (Bool-cases (is_active_for id o)) [
  | inl e ↦ omega (
    arith,
    count_of_unselected (clashes o) (is_active_for id) ops free
        (λ p. active_clashes o p id (owner o id e)),
    count_one o id,
  )
  | inr e ↦ omega (arith, count_none o id e)
]

insert_operation-IsExclusive :
    (o : Operation) (t : Tables) → IsExclusive t → AfterQuery IsExclusive (insert_operation o t)
unfolding insert_operation
insert_operation-IsExclusive o t h =
    after_insert IsExclusive (select (clashes o) t.operations) _ λ free id.
      rw (count-append (is_active_for id) t.operations (o ∷ []))
        (one_more o t.operations id free (h id))

-- An update of the operations that makes none of them active.
update-IsExclusive :
    (p : Operation → Bool) (f : Operation → Operation) (t : Tables)
    → ((id : Bytes) (o : Operation)
        → p o ≡ true
        → is_active_for id (f o) ≡ true
        → is_active_for id o ≡ true)
    → IsExclusive t
    → IsExclusive (record t { operations = update p f t.operations })
update-IsExclusive p f t k h id =
    omega (arith, h id, count-update-le (is_active_for id) p f t.operations (k id))

abbrev pub Safe : {A : Type 0} → Act A → Type 0
Safe m = Keeps (OnTables IsExclusive) m

on_constraint-Safe : {A : Type 0} (m : Act A) → Safe m → Safe (on_constraint m)
unfolding on_constraint
on_constraint-Safe m k = Keeps-bind _ _ (Keeps-attempt m k) (λ r. Keeps-lift _)

ruleset storage_rules = (tables_rules, Keeps-statement, on_constraint-Safe)

create_operation-Safe : (o : Operation) → Safe (create_operation o)
unfolding create_operation
create_operation-Safe o = search (storage_rules, insert_operation-IsExclusive)

insert_deployment-IsExclusive :
    (r : DeploymentRow) (t : Tables)
    → IsExclusive t
    → AfterQuery IsExclusive (insert_deployment r t)
insert_deployment-IsExclusive r t h =
    after_insert IsExclusive (select (has_id r.deployment_id) t.deployments) _ (λ free. h)

create_deployment-Safe : (d : Deployment) → Safe (create_deployment d)
unfolding create_deployment
create_deployment-Safe d = search (storage_rules, insert_deployment-IsExclusive) depth 12

save_deployment-Safe : (d : Deployment) → Safe (save_deployment d)
unfolding save_deployment
save_deployment-Safe d = search storage_rules depth 12

or_not_found-Safe : {A : Type 0} (o : Option A) → Safe (or_not_found o)
or_not_found-Safe none = search storage_rules
or_not_found-Safe (some a) = search storage_rules

get_deployment-Safe : (id : Bytes) → Safe (get_deployment id)
unfolding get_deployment
get_deployment-Safe id = search (storage_rules, or_not_found-Safe)

count_deployments-Safe : Safe count_deployments
unfolding count_deployments
count_deployments-Safe = search storage_rules

check_transition-Safe : (from to : State) → Safe (check_transition from to)
check_transition-Safe from to = Keeps-if _ _ _ (Keeps-pure tt) (Keeps-check _)

update_state-Safe : (id : Bytes) (to : State) (step : Bytes) → Safe (update_state id to step)
unfolding update_state
update_state-Safe id to step =
    search (storage_rules, or_not_found-Safe, check_transition-Safe) depth 9

take-Safe :
    (o : Operation) (time : Time) (t : Tables)
    → IsExclusive t
    → IsExclusive (take_operation o time t)
take-Safe o time t = update-IsExclusive _ _ t λ id p q. ground arith

claim-Safe : (o : Option Operation) → Safe (claim o)
claim-Safe none = search storage_rules
claim-Safe (some o) = search (storage_rules, take-Safe)

claim_operation-Safe : Safe claim_operation
unfolding claim_operation
claim_operation-Safe = search (storage_rules, claim-Safe)

finish-Safe :
    (id result : Bytes) (time : Time) (t : Tables)
    → IsExclusive t
    → IsExclusive
        (record t { operations = update (has_operation_id id) (finish result time) t.operations })
finish-Safe id result time t = update-IsExclusive _ _ t λ i p q. ground arith

complete_operation-Safe : (id result : Bytes) → Safe (complete_operation id result)
unfolding complete_operation
complete_operation-Safe id result = search (storage_rules, finish-Safe)

forget-Safe :
    (id : Bytes) (t : Tables)
    → IsExclusive t
    → IsExclusive (record t {
      operations = update (of_deployment id) (λ o. record o { payload = [] }) t.operations;
    })
forget-Safe id t = update-IsExclusive _ _ t λ i p q h. h

complete_purge-Safe : (op id result : Bytes) → Safe (complete_purge op id result)
unfolding complete_purge
complete_purge-Safe op id result = search (storage_rules, finish-Safe, forget-Safe) depth 12

fail_operation-Safe : (id code text : Bytes) → Safe (fail_operation id code text)
unfolding fail_operation
fail_operation-Safe id code text =
    Keeps-bind _ _ Keeps-now
      λ time. Keeps-statement _ λ t. update-IsExclusive _ _ t λ i p q. ground arith

record_step-Safe : (id step status detail : Bytes) → Safe (record_step id step status detail)
unfolding record_step
record_step-Safe id step status detail = search storage_rules

requeue_running-Safe : Safe requeue_running
unfolding requeue_running
requeue_running-Safe = Keeps-statement _ λ t. update-IsExclusive _ _ t λ i p q. ground arith

get_idempotency-Safe : (key : Bytes) → Safe (get_idempotency key)
unfolding get_idempotency
get_idempotency-Safe key = search storage_rules

insert_key-IsExclusive :
    (r : IdempotencyRow) (t : Tables) → IsExclusive t → AfterQuery IsExclusive (insert_key r t)
unfolding insert_key
insert_key-IsExclusive r t h =
    after_insert IsExclusive (select (has_key r.key) t.idempotency_keys) _ (λ free. h)

put_idempotency-Safe : (key hash response : Bytes) → Safe (put_idempotency key hash response)
unfolding put_idempotency
put_idempotency-Safe key hash response = search (storage_rules, insert_key-IsExclusive)

create_purge_token-Safe : (id hash : Bytes) (t : Time) → Safe (create_purge_token id hash t)
unfolding create_purge_token
create_purge_token-Safe id hash time =
    Keeps-statement _
      λ t h. after_insert IsExclusive (select (has_token id hash) t.purge_tokens) _ (λ free. h)

consume_purge_token-Safe : (id hash : Bytes) (t : Time) → Safe (consume_purge_token id hash t)
unfolding consume_purge_token
consume_purge_token-Safe id hash time = search storage_rules

pub exclusive : StorageKeeps IsExclusive
exclusive = record {
  create_operation_kept = create_operation-Safe;
  create_deployment_kept = create_deployment-Safe;
  save_deployment_kept = save_deployment-Safe;
  get_deployment_kept = get_deployment-Safe;
  count_deployments_kept = count_deployments-Safe;
  update_state_kept = update_state-Safe;
  claim_operation_kept = claim_operation-Safe;
  complete_operation_kept = complete_operation-Safe;
  complete_purge_kept = complete_purge-Safe;
  fail_operation_kept = fail_operation-Safe;
  record_step_kept = record_step-Safe;
  get_idempotency_kept = get_idempotency-Safe;
  put_idempotency_kept = put_idempotency-Safe;
  create_purge_token_kept = create_purge_token-Safe;
  consume_purge_token_kept = consume_purge_token-Safe;
  requeue_running_kept = requeue_running-Safe;
}
