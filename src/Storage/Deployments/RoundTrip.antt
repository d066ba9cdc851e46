-- ===== src/Storage/Deployments/RoundTrip.antt =====
-- CreateDeployment and GetDeployment of internal/storage/sqlite.go.
use centralcloud_agent.Prelude.{
  suc, ◌≡◌, refl, Bool, true, false, Option, none, some, List, [], ◌∷◌, ◌++◌, if◌then◌else◌, Bytes,
  same_refl, subst, sym, ◌∙◌,
}
use centralcloud_agent.Errors.{Err, Result, ok, err, sentinel, conflict}
use centralcloud_agent.Domain.Clock.{Time, is_zero_time, format_time}
use centralcloud_agent.Domain.Model.{Deployment}
use centralcloud_agent.Storage.Tables.{DeploymentRow, select}
use centralcloud_agent.Storage.Deployments.{
  has_id, create_deployment, get_deployment, insert_deployment, conflict_or, on_constraint,
  unique_violation, is_constraint,
}
use centralcloud_agent.Storage.Rows.{to_row, scan_deployment}
use centralcloud_agent.Runtime.{Env, World, lift, asks, attempt, statement, sample, now, ◌>>=◌}

module _ {A : Type 0} where
  -- The row that is inserted where none was found is found.
  select-append :
      (p : A → Bool) (rs : List A) (r : A)
      → select p rs ≡ none
      → p r ≡ true
      → select p (rs ++ (r ∷ [])) ≡ some r
  unfolding select
  select-append p [] r h k = rw k refl
  select-append p (q ∷ rs) r h k = by_test (p q) (λ g. select-append p rs r g k) h
    where
      by_test :
          (b : Bool)
          → (select p rs ≡ none → select p (rs ++ (r ∷ [])) ≡ some r)
          → (if b then some q else select p rs) ≡ none
          → (if b then some q else select p (rs ++ (r ∷ []))) ≡ some r
      by_test true later g = absurd cc
      by_test false later g = later g

refused : (e : Err) → conflict_or {A = Unit {0}} (err e) ≡ ok tt → ⊥
unfolding conflict_or
refused e h = by_test (is_constraint e) h
  where
    by_test : (b : Bool) → (if b then err (sentinel conflict) else err e) ≡ ok tt → ⊥
    by_test true g = cc
    by_test false g = cc

-- What an INSERT of a row has stored is read by its identifier.
module _ (env : Env) (v : World) (row : DeploymentRow) where
  abbrev inserted : Result (Unit {0}) × World
  inserted = on_constraint (statement (insert_deployment row)) env v

  abbrev Read : Type 0
  Read =
      (get_deployment row.deployment_id env inserted.1).0
      ≡ scan_deployment env.packages env.http row

  get-insert : inserted.0 ≡ ok tt → env.sql_failure inserted.1.tick ≡ none → Read
  unfolding get_deployment on_constraint statement attempt asks lift ◌>>=◌
  get-insert =
      by_outcome (env.sql_failure v.tick) (select (has_id row.deployment_id) v.tables.deployments)
        refl refl
    where
      by_outcome :
          (f : Option Err) (s : Option DeploymentRow)
          → env.sql_failure v.tick ≡ f
          → select (has_id row.deployment_id) v.tables.deployments ≡ s
          → inserted.0 ≡ ok tt
          → env.sql_failure inserted.1.tick ≡ none
          → Read
      by_outcome (some e) s p q h alive = absurd (refused e (sym (failing p) ∙ h))
        where
          failing : env.sql_failure v.tick ≡ some e → inserted.0 ≡ conflict_or (err e)
          failing p = rw p refl
      by_outcome none (some r) p q h alive = absurd (refused unique_violation (sym (taken p q) ∙ h))
        where
          taken :
              env.sql_failure v.tick ≡ none
              → select (has_id row.deployment_id) v.tables.deployments ≡ some r
              → inserted.0 ≡ conflict_or (err unique_violation)
          taken p q = rw (p, q) refl
      by_outcome none none p q h alive =
          found (subst (λ n. env.sql_failure n ≡ none) (steps p q) alive)
        where
          steps :
              env.sql_failure v.tick ≡ none
              → select (has_id row.deployment_id) v.tables.deployments ≡ none
              → inserted.1.tick ≡ suc v.tick
          steps p q = rw (p, q) refl

          found : env.sql_failure (suc v.tick) ≡ none → Read
          found alive_then =
              rw
                (
                  p,
                  q,
                  alive_then,
                  select-append (has_id row.deployment_id) v.tables.deployments row q
                      (same_refl row.deployment_id),
                )
                refl

-- A deployment as it is stored at an instant.
abbrev pub stored : Deployment → Time → Deployment
stored d time = record d {
  created_at = (if is_zero_time d.created_at then time else d.created_at);
  updated_at = time;
}

-- The JSON texts of the deployment's request and aliases, as json.Marshal makes them, are read back by
-- json.Unmarshal, and a time's text by time.Parse.
pub record ReadsBack (env : Env) (d : Deployment) (time : Time) : Type 0 where
  pub request :
      (b : Bytes)
      → env.packages.marshal_request d.request ≡ ok b
      → env.packages.unmarshal_request b ≡ ok d.request
  pub aliases :
      (b : Bytes)
      → env.packages.marshal_aliases d.request.aliases ≡ ok b
      → env.packages.unmarshal_aliases b ≡ ok d.request.aliases
  pub created :
      env.http.parse_time (format_time (stored d time).created_at) ≡ some (stored d time).created_at
  pub updated : env.http.parse_time (format_time time) ≡ some time

module _ (env : Env) (d : Deployment) (time : Time) (back : ReadsBack env d time) (b a : Bytes)
    (request : env.packages.marshal_request d.request ≡ ok b)
    (aliases : env.packages.marshal_aliases d.request.aliases ≡ ok a) where
  -- scanDeployment undoes what CreateDeployment writes.
  scan_deployment-to_row :
      scan_deployment env.packages env.http (to_row d b a (stored d time).created_at time)
      ≡ ok (stored d time)
  unfolding scan_deployment to_row
  scan_deployment-to_row =
      rw (back.request b request, back.aliases a aliases, back.created, back.updated) refl

module _ (env : Env) (w : World) (d : Deployment) (back : ReadsBack env d (env.clock w.tick))
    (b a : Bytes) (request : env.packages.marshal_request d.request ≡ ok b)
    (aliases : env.packages.marshal_aliases d.request.aliases ≡ ok a) where
  abbrev row : DeploymentRow
  row = to_row d b a (stored d (env.clock w.tick)).created_at (env.clock w.tick)

  -- With the texts made, the statement is all that may fail.
  created_by :
      create_deployment d env w
      ≡ on_constraint (statement (insert_deployment row)) env (record w { tick = suc w.tick })
  unfolding create_deployment asks lift now sample ◌>>=◌
  created_by = rw (request, aliases) refl

  reads :
      (create_deployment d env w).0 ≡ ok tt
      → env.sql_failure (create_deployment d env w).1.tick ≡ none
      → (get_deployment d.request.deployment_id env (create_deployment d env w).1).0
        ≡ ok (stored d (env.clock w.tick))
  unfolding to_row
  reads =
      subst
        (λ r.
          r.0 ≡ ok tt
          → env.sql_failure r.1.tick ≡ none
          → (get_deployment d.request.deployment_id env r.1).0 ≡ ok (stored d (env.clock w.tick)))
        (sym created_by)
        (λ h alive.
          get-insert env (record w { tick = suc w.tick }) row h alive
          ∙ scan_deployment-to_row env d (env.clock w.tick) back b a request aliases)

-- What a deployment that CreateDeployment has stored reads as: GetDeployment finds it, with the times
-- that it was stored with, unless the driver fails the query. It rests on json.Unmarshal and
-- time.Parse, which read back what json.Marshal and Format have made of these values.
pub get-create :
    (env : Env) (w : World) (d : Deployment)
    → ReadsBack env d (env.clock w.tick)
    → (create_deployment d env w).0 ≡ ok tt
    → env.sql_failure (create_deployment d env w).1.tick ≡ none
    → (get_deployment d.request.deployment_id env (create_deployment d env w).1).0
      ≡ ok (stored d (env.clock w.tick))
unfolding create_deployment asks lift now sample ◌>>=◌
get-create env w d back =
    made (env.packages.marshal_request d.request) (env.packages.marshal_aliases d.request.aliases)
      refl refl
  where
    failing :
        (e : Err)
        → env.packages.marshal_request d.request ≡ err e
        → (create_deployment d env w).0 ≡ err e
    failing e p = rw p refl

    failing_aliases :
        (b : Bytes) (e : Err)
        → env.packages.marshal_request d.request ≡ ok b
        → env.packages.marshal_aliases d.request.aliases ≡ err e
        → (create_deployment d env w).0 ≡ err e
    failing_aliases b e p q = rw (p, q) refl

    err_not_ok : (e : Err) (r : Result (Unit {0})) → r ≡ err e → r ≡ ok tt → ⊥
    err_not_ok e r g h = cc

    made :
        (rb ra : Result Bytes)
        → env.packages.marshal_request d.request ≡ rb
        → env.packages.marshal_aliases d.request.aliases ≡ ra
        → (create_deployment d env w).0 ≡ ok tt
        → env.sql_failure (create_deployment d env w).1.tick ≡ none
        → (get_deployment d.request.deployment_id env (create_deployment d env w).1).0
          ≡ ok (stored d (env.clock w.tick))
    made (err e) ra p q h alive = absurd (err_not_ok e _ (failing e p) h)
    made (ok b) (err e) p q h alive = absurd (err_not_ok e _ (failing_aliases b e p q) h)
    made (ok b) (ok a) p q h alive = reads env w d back b a p q h alive
