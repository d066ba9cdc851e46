-- ===== src/Storage/Keys.antt =====
-- internal/storage/sqlite.go: idempotency keys, purge tokens and the identity of the node.
pub mod Purge
use centralcloud_agent.Prelude.{
  ℕ, Bool, true, false, ◌&&◌, Option, none, some, List, [], ◌∷◌, ◌++◌, ◌==◌, if◌then◌else◌, Bytes,
  codes, same, is_empty, not, to_lower, insert, lookup,
}
use centralcloud_agent.Errors.{Err, Result, ok, err, plain}
use centralcloud_agent.Domain.Clock.{Time, text_lt, format_time}
use centralcloud_agent.Storage.Tables.{Tables, IdempotencyRow, PurgeToken, select, update, count}
use centralcloud_agent.Storage.Deployments.{insert_unless, on_constraint}
use centralcloud_agent.Runtime.{
  Act, pure, raise, lift, attempt, statement, transaction, skip, now, ◌>>=◌, ◌>>◌,
}

abbrev pub has_key : Bytes → IdempotencyRow → Bool
has_key key r = same r.key key

-- The response and the request hash of a key, if it is there.
unfoldable pub get_idempotency : Bytes → Act (Option IdempotencyRow)
get_idempotency key = statement (λ t. ok (select (has_key key) t.idempotency_keys, t))

unfoldable pub insert_key : IdempotencyRow → Tables → Result (Unit {0} × Tables)
insert_key row t =
    insert_unless (select (has_key row.key) t.idempotency_keys)
      (record t { idempotency_keys = t.idempotency_keys ++ (row ∷ []) })

unfoldable pub put_idempotency : Bytes → Bytes → Bytes → Act (Unit {0})
unfolding insert_key
put_idempotency key hash response = do
  time ← now
  on_constraint (
      statement (
        insert_key
          (record { key = key; request_hash = hash; response = response; created_at = time })))

abbrev pub has_token : Bytes → Bytes → PurgeToken → Bool
has_token id hash p = same p.deployment_id id && same p.token_hash hash

abbrev pub new_token : Bytes → Bytes → Time → PurgeToken
new_token id hash expires = record {
  deployment_id = id;
  token_hash = hash;
  expires_at = expires;
  consumed_at = none;
}

unfoldable pub create_purge_token : Bytes → Bytes → Time → Act (Unit {0})
create_purge_token id hash expires = statement (λ t.
    insert_unless (select (has_token id hash) t.purge_tokens)
      (record t { purge_tokens = t.purge_tokens ++ (new_token id hash expires ∷ []) }))

abbrev pub is_unused : Option Time → Bool
is_unused none = true
is_unused (some t) = false

-- deployment_id=? AND token_hash=? AND consumed_at IS NULL AND expires_at>?
unfoldable pub is_usable : Bytes → Bytes → Time → PurgeToken → Bool
is_usable id hash time p =
    has_token id hash p
    && (is_unused p.consumed_at && text_lt (format_time time) (format_time p.expires_at))

unfoldable pub consume_purge_token : Bytes → Bytes → Time → Act Bool
unfolding is_usable
consume_purge_token id hash time = do
  n ← statement (λ t. ok (
    count (is_usable id hash time) t.purge_tokens,
    record t {
      purge_tokens =
          update (is_usable id hash time) (λ p. record p { consumed_at = some time })
            t.purge_tokens;
    },
  ))
  pure (n == 1)

abbrev node_key : Bytes
node_key = codes "node_id"

abbrev choose_node : Bytes → Bytes → Option Bytes → Act Bytes
choose_node configured generated none =
    let persisted = (if is_empty configured then generated else configured) in
    do
      time ← now
      statement (λ t. ok (persisted, record t { metadata = insert node_key persisted t.metadata }))
choose_node configured generated (some persisted) =
    if not (is_empty configured) && not (same configured persisted)
    then raise (plain (codes "configured node.id does not match persisted node identity"))
    else pure persisted

unfoldable pub resolve_node_id : Bytes → Bytes → Act Bytes
resolve_node_id configured generated = transaction (do
  row ← statement (λ t. ok (lookup node_key t.metadata, t))
  choose_node (to_lower configured) generated row)
