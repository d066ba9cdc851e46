-- ===== src/Storage/Operations.antt =====
-- internal/storage/sqlite.go: the methods over the operations, operation_steps and purge tables.
pub mod Erased
pub mod First
pub mod Earliest
use centralcloud_agent.Prelude.{
  ℕ, Bool, true, false, not, ◌&&◌, ◌||◌, Option, none, some, List, [], ◌∷◌, ◌++◌, ◌==◌,
  if◌then◌else◌, Bytes, same, is_empty,
}
use centralcloud_agent.Errors.{Result, ok, sentinel, not_found}
use centralcloud_agent.Domain.Clock.{Time, is_zero_time, text_lt, format_time}
use centralcloud_agent.Domain.Model.{Operation, Status, queued, running, succeeded, failed}
use centralcloud_agent.Storage.Tables.{Tables, select, update, delete, count}
use centralcloud_agent.Storage.Deployments.{
  insert_unless, on_constraint, found_rows, has_id, or_not_found,
}
use centralcloud_agent.Runtime.{
  Act, pure, raise, statement, transaction, begin, skip, now, ◌>>=◌, ◌>>◌,
}

abbrev pub same_status : Status → Status → Bool
same_status queued queued = true
same_status running running = true
same_status succeeded succeeded = true
same_status failed failed = true
same_status _ _ = false

-- status IN ('queued','running')
abbrev pub is_active : Status → Bool
is_active queued = true
is_active running = true
is_active _ = false

abbrev pub has_operation_id : Bytes → Operation → Bool
has_operation_id id o = same o.id id

abbrev pub of_deployment : Bytes → Operation → Bool
of_deployment id o = same o.deployment_id id

-- A row of the partial index operations_one_active_per_deployment.
abbrev pub is_active_for : Bytes → Operation → Bool
is_active_for id o =
    not (is_empty o.deployment_id) && (is_active o.status && same o.deployment_id id)

-- A row that shares the primary key, or the entry of the partial unique index.
abbrev pub clashes : Operation → Operation → Bool
clashes o p = has_operation_id o.id p || is_active_for o.deployment_id p

-- INSERT under the primary key and the partial unique index.
unfoldable pub insert_operation : Operation → Tables → Result (Unit {0} × Tables)
insert_operation o t =
    insert_unless (select (clashes o) t.operations)
      (record t { operations = t.operations ++ (o ∷ []) })

-- The row that CreateOperation inserts: the other columns take their defaults.
abbrev pub queued_row : Operation → Time → Operation
queued_row o time = record {
  id = o.id;
  deployment_id = o.deployment_id;
  typ = o.typ;
  status = queued;
  error_code = [];
  error_message = [];
  payload = o.payload;
  result = [];
  created_at = (if is_zero_time o.created_at then time else o.created_at);
  updated_at = time;
}

unfoldable pub create_operation : Operation → Act (Unit {0})
unfolding insert_operation
create_operation o = do time ← now; on_constraint (statement (insert_operation (queued_row o time)))

unfoldable pub get_operation : Bytes → Act Operation
get_operation id = do
  row ← statement (λ t. ok (select (has_operation_id id) t.operations, t))
  or_not_found row

abbrev pub is_queued : Operation → Bool
is_queued o = same_status o.status queued

abbrev pub earlier : Operation → Option Operation → Operation
earlier o none = o
earlier o (some p) = if text_lt (format_time p.created_at) (format_time o.created_at) then p else o

-- WHERE status='queued' ORDER BY created_at LIMIT 1
unfoldable pub first_queued : List Operation → Option Operation
unfolding text_lt format_time
first_queued [] = none
first_queued (o ∷ os) =
    let rest = first_queued os in if is_queued o then some (earlier o rest) else rest

abbrev pub take_operation : Operation → Time → Tables → Tables
take_operation o time t = record t {
  operations =
      update (λ p. has_operation_id o.id p && is_queued p)
        (λ p. record p { status = running; updated_at = time }) t.operations;
}

-- Where nothing is queued, the transaction ends without a COMMIT.
abbrev pub claim : Option Operation → Act (Option Operation)
claim none = pure none
claim (some o) = do
  time ← now
  statement (λ t. ok (tt, take_operation o time t))
  skip
  pure (some (record o { status = running }))

unfoldable pub claim_operation : Act (Option Operation)
unfolding first_queued
claim_operation = begin (do o ← statement (λ t. ok (first_queued t.operations, t)); claim o)

abbrev pub finish : Bytes → Time → Operation → Operation
finish result time o = record o { status = succeeded; result = result; updated_at = time }

abbrev pub finish_statement : Bytes → Bytes → Time → Act ℕ
finish_statement id result time = statement (λ t. ok (
  count (has_operation_id id) t.operations,
  record t { operations = update (has_operation_id id) (finish result time) t.operations },
))

unfoldable pub complete_operation : Bytes → Bytes → Act (Unit {0})
complete_operation id result = do time ← now; n ← finish_statement id result time; found_rows n

abbrev complete_purge_body : Bytes → Bytes → Bytes → Act (Unit {0})
complete_purge_body operation_id deployment_id result = do
  statement (λ t. ok (
    tt,
    record t {
      operations =
          update (of_deployment deployment_id) (λ o. record o { payload = [] }) t.operations;
    },
  ))
  statement (λ t. ok (
    tt,
    record t { purge_tokens = delete (λ p. same p.deployment_id deployment_id) t.purge_tokens },
  ))
  statement (λ t. ok (tt, record t { deployments = delete (has_id deployment_id) t.deployments }))
  time ← now
  n ← finish_statement operation_id result time
  if n == 1 then pure tt else raise (sentinel not_found)

unfoldable pub complete_purge : Bytes → Bytes → Bytes → Act (Unit {0})
complete_purge operation_id deployment_id result =
    transaction (complete_purge_body operation_id deployment_id result)

unfoldable pub fail_operation : Bytes → Bytes → Bytes → Act (Unit {0})
fail_operation id code text = do
  time ← now
  statement (λ t. ok (
    tt,
    record t {
      operations =
          update (has_operation_id id)
            (λ o. record o {
              status = failed;
              error_code = code;
              error_message = text;
              updated_at = time;
            })
            t.operations;
    },
  ))

unfoldable pub record_step : Bytes → Bytes → Bytes → Bytes → Act (Unit {0})
record_step id step status detail = do
  time ← now
  statement (λ t. ok (
    tt,
    record t {
      operation_steps =
          t.operation_steps
          ++ ((record {
            operation_id = id;
            step = step;
            status = status;
            detail = detail;
            created_at = time;
          })
              ∷ []);
    },
  ))

-- The last statement of migrate, which runs when the agent starts.
unfoldable pub requeue_running : Act (Unit {0})
requeue_running = statement (λ t. ok (
  tt,
  record t {
    operations =
        update (λ o. same_status o.status running) (λ o. record o { status = queued }) t.operations;
  },
))
