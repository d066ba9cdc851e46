-- ===== src/Storage/Recorded.antt =====
-- PutIdempotency of internal/storage/sqlite.go: what it leaves when it succeeds.
use centralcloud_agent.Prelude.{
  ◌≡◌, refl, Bool, true, Option, none, some, List, [], ◌∷◌, ◌++◌, arith, Bytes, same_refl,
}
use centralcloud_agent.Errors.{Result, ok}
use centralcloud_agent.Storage.Tables.{Tables, IdempotencyRow, select}
use centralcloud_agent.Storage.Deployments.{on_constraint, insert_unless, conflict_or}
use centralcloud_agent.Storage.Keys.{has_key, put_idempotency, insert_key}
use centralcloud_agent.Storage.KeyStable.{Holds}
use centralcloud_agent.Runtime.{World, Act, now}
use centralcloud_agent.Runtime.Yields.{
  Yields, OkQuery, Yields-bind, Yields-after, Yields-attempt, Yields-lift, Yields-given,
  Yields-statement,
}

-- A row with this hash and this response is found under the key.
pub record Recorded (key hash response : Bytes) (t : Tables) : Type 0 where
  pub row : IdempotencyRow
  pub found : Holds key row t
  pub same_hash : row.request_hash ≡ hash
  pub same_response : row.response ≡ response

select-append_new :
    {A : Type 0} (p : A → Bool) (xs : List A) (a : A)
    → select p xs ≡ none
    → p a ≡ true
    → select p (xs ++ (a ∷ [])) ≡ some a
unfolding select
select-append_new p [] a h e = ground arith
select-append_new p (x ∷ xs) a h e = ground (arith, select-append_new p xs a)

inserted :
    (r : IdempotencyRow) (t : Tables) (o : Option IdempotencyRow)
    → select (has_key r.key) t.idempotency_keys ≡ o
    → OkQuery
        (λ u. Recorded r.key r.request_hash r.response)
        (insert_unless o (record t { idempotency_keys = t.idempotency_keys ++ (r ∷ []) }))
inserted r t none e = record {
  row = r;
  found = select-append_new (has_key r.key) t.idempotency_keys r e (same_refl r.key);
  same_hash = refl;
  same_response = refl;
}
inserted r t (some q) e = tt

on_constraint-Yields :
    {A : Type 0} {P : World → Type 0} {R : A → World → Type 0} (m : Act A)
    → Yields P R m
    → Yields P R (on_constraint m)
unfolding on_constraint
on_constraint-Yields {A} {P} {R} m k =
    Yields-bind _ _ (Yields-attempt m k)
      λ r. Yields-given _ (λ w h a e. h a (unconverted r a e)) (Yields-lift {R = R} (conflict_or r))
  where
    unconverted : (r : Result A) (a : A) → conflict_or r ≡ ok a → r ≡ ok a
    unconverted r a e = unfold conflict_or in ground arith

pub put-Recorded :
    (key hash response : Bytes) {P : World → Type 0}
    → Yields P (λ u w. Recorded key hash response w.tables) (put_idempotency key hash response)
unfolding put_idempotency insert_key
put-Recorded key hash response = Yields-after now _ λ time.
    on_constraint-Yields _
      (Yields-statement (λ u. Recorded key hash response) _ (λ t. inserted _ t _ refl))
