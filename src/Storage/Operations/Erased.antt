-- ===== src/Storage/Operations/Erased.antt =====
-- CompletePurge of internal/storage/sqlite.go: what is left of a purged deployment.
use centralcloud_agent.Prelude.{
  ◌≡◌, refl, Bool, true, false, not, ◌&&◌, List, [], ◌∷◌, Bytes, same, ◌==◌, if◌then◌else◌, All,
  arith,
}
use centralcloud_agent.Errors.{Err, Result, ok, err}
use centralcloud_agent.Domain.Clock.{Time}
use centralcloud_agent.Domain.Model.{Operation, succeeded}
use centralcloud_agent.Storage.Tables.{Tables, update, delete, count}
use centralcloud_agent.Storage.Deployments.{has_id}
use centralcloud_agent.Storage.Deployments.Transition.{transaction_undone}
use centralcloud_agent.Storage.Operations.{
  has_operation_id, of_deployment, same_status, finish, complete_purge_body, complete_purge,
}
use centralcloud_agent.Runtime.{Env, World, pure, raise}
use centralcloud_agent.Runtime.Yields.{
  Yields, Yields-bind, Yields-query, Yields-now, Yields-transaction, Yields-pure, Yields-raise,
}

-- An operation of the deployment holds no payload.
abbrev pub IsErased : Bytes → Operation → Type 0
IsErased id o = of_deployment id o ≡ true → o.payload ≡ []

-- The rows of `operation_id` that have not succeeded.
abbrev pub is_open : Bytes → Operation → Bool
is_open id o = has_operation_id id o && not (same_status o.status succeeded)

-- No row, no token and no payload of the deployment, and no open row of the operation.
pub record Purged (operation_id id : Bytes) (t : Tables) : Type 0 where
  pub no_row : count (has_id id) t.deployments ≡ 0
  pub no_token : count (λ p. same p.deployment_id id) t.purge_tokens ≡ 0
  pub no_payload : All (IsErased id) t.operations
  pub finished : count (is_open operation_id) t.operations ≡ 0

abbrev pub Outcome : Bytes → Bytes → Tables → Result (Unit {0}) × World → Type 0
Outcome operation_id id t (ok a, w) = Purged operation_id id w.tables
Outcome operation_id id t (err e, w) = w.tables ≡ t

count-delete : {A : Type 0} (p : A → Bool) (xs : List A) → count p (delete p xs) ≡ 0
unfolding count delete
count-delete p [] = refl
count-delete p (x ∷ xs) = ground (arith, count-delete p xs)

erase_payloads :
    (id : Bytes) (os : List Operation)
    → All (IsErased id) (update (of_deployment id) (λ o. record o { payload = [] }) os)
unfolding update
erase_payloads id [] = tt
erase_payloads id (o ∷ os) = (erased, erase_payloads id os)
  where
    erased : IsErased id (if of_deployment id o then record o { payload = [] } else o)
    erased = ground arith

finish-IsErased :
    (id op result : Bytes) (time : Time) (os : List Operation)
    → All (IsErased id) os
    → All (IsErased id) (update (has_operation_id op) (finish result time) os)
unfolding update
finish-IsErased id op result time [] h = tt
finish-IsErased id op result time (o ∷ os) (h, hs) = (kept, finish-IsErased id op result time os hs)
  where
    kept : IsErased id (if has_operation_id op o then finish result time o else o)
    kept = ground arith

finish-count :
    (op result : Bytes) (time : Time) (os : List Operation)
    → count (is_open op) (update (has_operation_id op) (finish result time) os) ≡ 0
unfolding update count
finish-count op result time [] = refl
finish-count op result time (o ∷ os) = ground (arith, finish-count op result time os)

module _ (op id result : Bytes) where
  abbrev Blank : Tables → Type 0
  Blank t = All (IsErased id) t.operations

  abbrev Untokened : Tables → Type 0
  Untokened t = Blank t × count (λ p. same p.deployment_id id) t.purge_tokens ≡ 0

  abbrev Gone : Tables → Type 0
  Gone t = Untokened t × count (has_id id) t.deployments ≡ 0

  ending :
      (b : Bool) (e : Err)
      → Yields
          (λ w. Purged op id w.tables)
          (λ u w. Purged op id w.tables)
          (if b then pure tt else raise e)
  ending true e = Yields-pure tt (λ w h. h)
  ending false e = Yields-raise e

  body-Yields :
      (t : Tables)
      → Yields (λ w. w.tables ≡ t) (λ u w. Purged op id w.tables) (complete_purge_body op id result)
  body-Yields t =
      Yields-bind _ _
        (Yields-query (λ u. u ≡ t) (λ _ u. Blank u) _ (λ u h. erase_payloads id u.operations))
        λ _.
          Yields-bind _ _
            (Yields-query Blank (λ _ u. Untokened u) _ (λ u h. (h, count-delete _ u.purge_tokens)))
            λ _.
              Yields-bind _ _
                (Yields-query Untokened (λ _ u. Gone u) _
                  (λ u h. (h, count-delete (has_id id) u.deployments)))
                λ _. Yields-bind _ _ (Yields-now Gone) λ time.
                  Yields-bind _ _
                    (Yields-query Gone (λ _ u. Purged op id u) _
                      λ u h. record {
                        no_row = h.1;
                        no_token = h.0.1;
                        no_payload = finish-IsErased id op result time u.operations h.0.0;
                        finished = finish-count op result time u.operations;
                      })
                    λ n. ending (n == 1) _

outcome :
    (op id : Bytes) (t : Tables) (r : Result (Unit {0}) × World)
    → ((a : Unit {0}) → r.0 ≡ ok a → Purged op id r.1.tables)
    → ((e : Err) → r.0 ≡ err e → r.1.tables ≡ t)
    → Outcome op id t r
outcome op id t (ok a, w) h k = h a refl
outcome op id t (err e, w) h k = k e refl

-- Whatever CompletePurge meets, its outcome is one of two. It returns: then no row, no purge token and
-- no payload of an operation is left of the deployment, and every row of the purge has succeeded. Or
-- it fails, and the tables are as they were.
pub complete_purge-Outcome :
    (operation_id id result : Bytes) (env : Env) (w : World)
    → Outcome operation_id id w.tables (complete_purge operation_id id result env w)
unfolding complete_purge
complete_purge-Outcome operation_id id result env w =
    outcome operation_id id w.tables (complete_purge operation_id id result env w)
      (λ a e.
        (Yields-transaction (λ u. u ≡ w.tables) (λ a u. Purged operation_id id u) _
            (body-Yields operation_id id result w.tables)).at
          env w a refl e)
      (λ f e. transaction_undone (complete_purge_body operation_id id result) env w f e)
