-- ===== src/Storage/KeyStable.antt =====
-- A response that internal/storage/sqlite.go has recorded under an idempotency key stays there.
use centralcloud_agent.Prelude.{◌≡◌, Bool, Option, none, some, List, [], ◌∷◌, ◌++◌, arith, Bytes}
use centralcloud_agent.Domain.Clock.{Time}
use centralcloud_agent.Domain.State.{State}
use centralcloud_agent.Domain.Model.{Operation}
use centralcloud_agent.Storage.Tables.{Tables, DeploymentRow, IdempotencyRow, select}
use centralcloud_agent.Storage.Deployments.{
  on_constraint, insert_unless, insert_deployment, create_deployment, save_deployment,
  get_deployment, update_state, count_deployments, has_id, or_not_found, check_transition,
}
use centralcloud_agent.Storage.Operations.{
  clashes, insert_operation, create_operation, claim_operation, complete_operation, complete_purge,
  fail_operation, record_step, requeue_running, claim,
}
use centralcloud_agent.Storage.Keys.{
  get_idempotency, has_key, has_token, put_idempotency, insert_key, create_purge_token,
  consume_purge_token,
}
use centralcloud_agent.Storage.Invariant.{StorageKeeps}
use centralcloud_agent.Runtime.{Act}
use centralcloud_agent.Runtime.Keeps.{
  Keeps, Keeps-if, Keeps-pure, Keeps-check, OnTables, AfterQuery, Keeps-statement, Keeps-attempt,
  Keeps-bind, Keeps-lift, tables_rules,
}

select-append_some :
    {A : Type 0} (p : A → Bool) (xs ys : List A) (a : A)
    → select p xs ≡ some a
    → select p (xs ++ ys) ≡ some a
unfolding select
select-append_some p [] ys a h = cc
select-append_some p (x ∷ xs) ys a h = ground (arith, select-append_some p xs ys a)

module _ (key : Bytes) (row : IdempotencyRow) where
  -- The row is the one that GetIdempotency finds under the key.
  abbrev pub Holds : Tables → Type 0
  Holds t = select (has_key key) t.idempotency_keys ≡ some row

  abbrev Safe : {A : Type 0} → Act A → Type 0
  Safe m = Keeps (OnTables Holds) m

  after_insert :
      {A : Type 0} (o : Option A) (t : Tables) → Holds t → AfterQuery Holds (insert_unless o t)
  after_insert none t h = h
  after_insert (some a) t h = tt

  on_constraint-Safe : {A : Type 0} (m : Act A) → Safe m → Safe (on_constraint m)
  unfolding on_constraint
  on_constraint-Safe m k = Keeps-bind _ _ (Keeps-attempt m k) (λ r. Keeps-lift _)

  ruleset storage_rules = (tables_rules, Keeps-statement, on_constraint-Safe)

  insert_operation-Holds :
      (o : Operation) (t : Tables) → Holds t → AfterQuery Holds (insert_operation o t)
  unfolding insert_operation
  insert_operation-Holds o t h = after_insert (select (clashes o) t.operations) _ h

  insert_deployment-Holds :
      (r : DeploymentRow) (t : Tables) → Holds t → AfterQuery Holds (insert_deployment r t)
  insert_deployment-Holds r t h = after_insert (select (has_id r.deployment_id) t.deployments) _ h

  insert_key-Holds : (r : IdempotencyRow) (t : Tables) → Holds t → AfterQuery Holds (insert_key r t)
  unfolding insert_key
  insert_key-Holds r t h =
      after_insert (select (has_key r.key) t.idempotency_keys) _
        (select-append_some (has_key key) t.idempotency_keys (r ∷ []) row h)

  insert_token-Holds : (id hash : Bytes) (time : Time) → Safe (create_purge_token id hash time)
  unfolding create_purge_token
  insert_token-Holds id hash time =
      Keeps-statement _ λ t h. after_insert (select (has_token id hash) t.purge_tokens) _ h

  or_not_found-Safe : {A : Type 0} (o : Option A) → Safe (or_not_found o)
  or_not_found-Safe none = search storage_rules
  or_not_found-Safe (some a) = search storage_rules

  check_transition-Safe : (from to : State) → Safe (check_transition from to)
  check_transition-Safe from to = Keeps-if _ _ _ (Keeps-pure tt) (Keeps-check _)

  claim-Safe : (o : Option Operation) → Safe (claim o)
  claim-Safe none = search storage_rules
  claim-Safe (some o) = search storage_rules

  -- Every method of the repository leaves the response of a recorded key as it is.
  pub holds : StorageKeeps Holds
  unfolding create_operation create_deployment save_deployment get_deployment count_deployments
      update_state claim_operation complete_operation complete_purge fail_operation record_step
      get_idempotency put_idempotency consume_purge_token requeue_running
  holds = record {
    create_operation_kept = λ o. search (storage_rules, insert_operation-Holds);
    create_deployment_kept = λ d. search (storage_rules, insert_deployment-Holds) depth 12;
    save_deployment_kept = λ d. search storage_rules depth 12;
    get_deployment_kept = λ id. search (storage_rules, or_not_found-Safe);
    count_deployments_kept = search storage_rules;
    update_state_kept =
        λ id to step. search (storage_rules, or_not_found-Safe, check_transition-Safe) depth 9;
    claim_operation_kept = search (storage_rules, claim-Safe);
    complete_operation_kept = λ id r. search storage_rules;
    complete_purge_kept = λ op id r. search storage_rules depth 12;
    fail_operation_kept = λ id c t. search storage_rules;
    record_step_kept = λ id s t d. search storage_rules;
    get_idempotency_kept = λ k. search storage_rules;
    put_idempotency_kept = λ k h r. search (storage_rules, insert_key-Holds);
    create_purge_token_kept = insert_token-Holds;
    consume_purge_token_kept = λ id h t. search storage_rules;
    requeue_running_kept = search storage_rules;
  }
