-- ===== src/Storage/Keys/Purge.antt =====
-- ConsumePurgeToken of internal/storage/sqlite.go: a token is good for one use.
use centralcloud_agent.Prelude.{
  ◌≡◌, refl, Bool, true, false, none, some, List, [], ◌∷◌, Bytes, arith, if◌then◌else◌,
}
use centralcloud_agent.Errors.{ok}
use centralcloud_agent.Domain.Clock.{Time, text_lt, format_time}
use centralcloud_agent.Storage.Tables.{PurgeToken, update, count}
use centralcloud_agent.Storage.Keys.{is_usable, consume_purge_token}
use centralcloud_agent.Runtime.{Env, World, statement, pure, ◌>>=◌}
use centralcloud_agent.Runtime.Yields.{Yields, Anything, Yields-bind, Yields-query, Yields-pure}

-- The order of texts carries an upper bound down to what is not above.
text_lt-down : (a b c : Bytes) → text_lt b a ≡ false → text_lt b c ≡ true → text_lt a c ≡ true
unfolding text_lt
text_lt-down a b [] h k = cc
text_lt-down [] b (z ∷ c) h k = refl
text_lt-down (x ∷ a) [] (z ∷ c) h k = cc
text_lt-down (x ∷ a) (y ∷ b) (z ∷ c) h k = ground (arith, text_lt-down a b c)

module _ (id hash : Bytes) (time time' : Time)
    (later : text_lt (format_time time') (format_time time) ≡ false) where
  abbrev consume : PurgeToken → PurgeToken
  consume p = record p { consumed_at = some time }

  unusable_row :
      (p : PurgeToken)
      → is_usable id hash time' (if is_usable id hash time p then consume p else p) ≡ false
  unfolding is_usable
  unusable_row p =
      ground (arith, text_lt-down (format_time time) (format_time time') (format_time p.expires_at))

  unusable :
      (ps : List PurgeToken)
      → count (is_usable id hash time') (update (is_usable id hash time) consume ps) ≡ 0
  unfolding count update
  unusable [] = refl
  unusable (p ∷ ps) = rw (unusable_row p) (unusable ps)

  spent :
      Yields Anything
        (λ b w. count (is_usable id hash time') w.tables.purge_tokens ≡ 0)
        (consume_purge_token id hash time)
  unfolding consume_purge_token
  spent =
      Yields-bind _ _
        (Yields-query (λ t. Unit {0}) (λ n t. count (is_usable id hash time') t.purge_tokens ≡ 0) _
          (λ t h. unusable t.purge_tokens))
        λ n. Yields-pure _ (λ w h. h)

refused :
    (id hash : Bytes) (time : Time) (env : Env) (w : World)
    → count (is_usable id hash time) w.tables.purge_tokens ≡ 0
    → env.sql_failure w.tick ≡ none
    → (consume_purge_token id hash time env w).0 ≡ ok false
unfolding consume_purge_token statement pure ◌>>=◌
refused id hash time env w h alive = rw (alive, h) refl

-- A purge token that was presented, whether or not it was good, is not good for another use at any
-- instant whose text is not before that of the first: unless the driver fails the statement,
-- ConsumePurgeToken answers false.
pub token_single_use :
    (id hash : Bytes) (time time' : Time) (env : Env) (w : World) (b : Bool)
    → (consume_purge_token id hash time env w).0 ≡ ok b
    → text_lt (format_time time') (format_time time) ≡ false
    → env.sql_failure (consume_purge_token id hash time env w).1.tick ≡ none
    → (consume_purge_token id hash time' env (consume_purge_token id hash time env w).1).0
      ≡ ok false
token_single_use id hash time time' env w b done later alive =
    refused id hash time' env _ ((spent id hash time time' later).at env w b tt done) alive
