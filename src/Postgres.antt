-- ===== src/Postgres.antt =====
-- internal/postgres/postgres.go: the role and the database of a deployment. Every query and statement
-- may fail, and the server may answer anything at any time.
pub mod Sql
pub mod Session
pub mod Ownership
use centralcloud_agent.Prelude.{
  ℕ, Bool, true, false, not, ◌||◌, Option, none, some, ◌++◌, if◌then◌else◌, Bytes, codes, same,
}
use centralcloud_agent.Errors.{Err, Result, ok, err, plain, wrap, both}
use centralcloud_agent.Domain.Model.{pg_acquire, pg_release, pg_query, pg_exec}
use centralcloud_agent.Domain.Validate.{validate_database_identifier}
use centralcloud_agent.Postgres.Sql.{
  Statement, Query, RoleRow, DatabaseRow, Catalogue, create_role, alter_role, comment_on_role,
  grant_membership, create_database, set_role, comment_on_database, revoke_all_from_public,
  grant_all_on_database, reset_role, drop_database, drop_role, ask_role_exists, ask_role,
  ask_role_comment, ask_session_user, ask_database_exists, ask_database, ask_database_comment,
  ask_format,
}
use centralcloud_agent.Runtime.{
  Act, pure, raise, lift, asks, attempt, ignore, invoke, invoke_for, check, refuse_if, ◌>>=◌, ◌>>◌,
}

-- conn.QueryRow(...).Scan(...)
abbrev pub ask : {A : Type 0} → Query → (Catalogue → A) → Act A
ask q f = invoke_for (pg_query q) (λ env n. f (env.catalogue n))

-- The server formats a statement, which is then executed.
unfoldable pub run_formatted : Statement → Act (Unit {0})
run_formatted s = do invoke (pg_query (ask_format s)); invoke (pg_exec s)

-- p.pool.Acquire, with the deferred release of the connection
unfoldable pub with_connection : {A : Type 0} → Act A → Act A
with_connection m = do invoke pg_acquire; r ← attempt m; ignore (invoke pg_release); lift r

-- *comment == "centralcloud:"+marker
abbrev pub owned_by : Bytes → Option Bytes → Bool
owned_by marker none = false
owned_by marker (some c) = same c (codes "centralcloud:" ++ marker)

abbrev pub is_elevated : RoleRow → Bool
is_elevated r = r.superuser || r.create_db || r.create_role || r.replication || r.bypass_rls

abbrev pub set_role_option : Bytes → Bytes → Bool → Act (Unit {0})
set_role_option role member enabled = run_formatted (grant_membership role member enabled)

abbrev pub unless_exists : Bool → Act (Unit {0}) → Act (Unit {0}) → Act (Unit {0})
unless_exists true there missing = there
unless_exists false there missing = missing

-- The role, made or taken over, with the comment that marks it.
unfoldable pub ensure_role : Bytes → Bytes → Bytes → Act (Unit {0})
ensure_role user password marker = do
  exists ← ask (ask_role_exists user) (λ c. c.role_exists user)
  unless_exists exists
      (do
        row ← ask (ask_role user) (λ c. c.role user)
        refuse_if (not (owned_by marker row.comment))
            (plain (codes "role " ++ (user ++ codes " exists but is not owned by deployment")))
        refuse_if (is_elevated row)
            (plain (codes "role " ++ (user ++ codes " has unsafe elevated attributes")))
        run_formatted (alter_role user password))
      (run_formatted (create_role user password))
  run_formatted (comment_on_role user (codes "centralcloud:" ++ marker))

-- The database, made or found with its owner and comment, and SET ROLE.
unfoldable pub ensure_database : Bytes → Bytes → Bytes → Act (Unit {0})
ensure_database db user marker = do
  exists ← ask (ask_database_exists db) (λ c. c.database_exists db)
  unless_exists exists
      (do
        row ← ask (ask_database db) (λ c. c.database db)
        refuse_if (not (same row.owner user) || not (owned_by marker row.comment))
            (plain (codes "database " ++ (db ++ codes " exists but is not owned by deployment"))))
      (run_formatted (create_database db user))
  run_formatted (set_role user)

-- What the owner of the database does to it, and RESET ROLE.
unfoldable pub mark_database : Bytes → Bytes → Bytes → Act (Unit {0})
mark_database db user marker = do
  run_formatted (comment_on_database db (codes "centralcloud:" ++ marker))
  run_formatted (revoke_all_from_public db)
  run_formatted (grant_all_on_database db user)
  invoke (pg_exec reset_role)

-- errors.Join(err, fmt.Errorf("what: %w", e)) of the function's own result
abbrev pub join_error : Result (Unit {0}) → Err → Act (Unit {0})
join_error (ok _) e = raise e
join_error (err first) e = raise (both first e)

abbrev pub restored : Bytes → Result (Unit {0}) → Result (Unit {0}) → Act (Unit {0})
restored what result (ok _) = lift result
restored what result (err e) = join_error result (wrap what e)

-- The end of the deferred function: the membership without its options.
abbrev pub restrict : Bytes → Bytes → Bytes → Result (Unit {0}) → Act (Unit {0})
restrict what user administrator result = do
  r ← attempt (set_role_option user administrator false)
  restored what result r

abbrev pub unset : Bytes → Bytes → Result (Unit {0}) → Result (Unit {0}) → Act (Unit {0})
unset user administrator result (ok _) =
    restrict (codes "restore database owner SET ROLE restriction") user administrator result
unset user administrator result (err e) =
    join_error result (wrap (codes "reset database owner role") e)

-- The deferred function, where `active` says whether SET ROLE is in force.
unfoldable pub clean_up : Bytes → Bytes → Bool → Result (Unit {0}) → Act (Unit {0})
clean_up user administrator true result = do
  r ← attempt (invoke (pg_exec reset_role))
  unset user administrator result r
clean_up user administrator false result =
    restrict (codes "restore database owner SET ROLE restriction") user administrator result

-- Whether SET ROLE was made, and what followed it.
abbrev pub as_owner : Bytes → Bytes → Bytes → Bytes → Result (Unit {0}) → Act (Unit {0})
as_owner db user marker administrator (err e) = clean_up user administrator false (err e)
as_owner db user marker administrator (ok _) = do
  r ← attempt (mark_database db user marker)
  clean_up user administrator (elim r [ ok _ ↦ false | err _ ↦ true ]) r

abbrev pub wrap_error : {A : Type 0} → Bytes → Result A → Act A
wrap_error what (ok a) = pure a
wrap_error what (err e) = raise (wrap what e)

unfoldable pub ensure_on_connection : Bytes → Bytes → Bytes → Bytes → Act (Unit {0})
ensure_on_connection db user password marker = do
  ensure_role user password marker
  administrator ← ask ask_session_user (λ c. c.session_user)
  g ← attempt (set_role_option user administrator true)
  wrap_error (codes "enable database owner SET ROLE") g
  r ← attempt (ensure_database db user marker)
  as_owner db user marker administrator r

unfoldable pub ensure_role_and_database : Bytes → Bytes → Bytes → Bytes → Act (Unit {0})
ensure_role_and_database db user password marker = do
  pkg ← asks (λ env. env.packages)
  check (validate_database_identifier pkg db)
  check (validate_database_identifier pkg user)
  with_connection (ensure_on_connection db user password marker)

unfoldable pub check_role : Bytes → Bytes → Act (Unit {0})
check_role user marker = do
  r ← attempt (ask (ask_role_comment user) (λ c. (c.role user).comment))
  comment ← wrap_error (codes "verify managed role") r
  refuse_if (not (owned_by marker comment)) (plain (codes "refusing to drop unowned role"))

unfoldable pub check_database : Bytes → Bytes → Act (Unit {0})
check_database db marker = do
  comment ← ask (ask_database_comment db) (λ c. (c.database db).comment)
  refuse_if (not (owned_by marker comment)) (plain (codes "refusing to drop unowned database"))

-- A role or a database that exists has the deployment's comment.
unfoldable pub verify_role : Bytes → Bytes → Act Bool
verify_role user marker = do
  exists ← ask (ask_role_exists user) (λ c. c.role_exists user)
  unless_exists exists (check_role user marker) (pure tt)
  pure exists

unfoldable pub verify_database : Bytes → Bytes → Act (Unit {0})
verify_database db marker = do
  exists ← ask (ask_database_exists db) (λ c. c.database_exists db)
  unless_exists exists (check_database db marker) (pure tt)

unfoldable pub drop_both : Bytes → Bytes → Act (Unit {0})
drop_both db user = do run_formatted (drop_database db); run_formatted (drop_role user)

abbrev pub after_drop : Bytes → Bytes → Result (Unit {0}) → Act (Unit {0})
after_drop user administrator (ok _) = pure tt
after_drop user administrator (err e) =
    restrict (codes "restore database owner restrictions after purge") user administrator (err e)

-- The drops, with the membership that they need if the role is there.
unfoldable pub drop_elevated : Bool → Bytes → Bytes → Act (Unit {0})
drop_elevated false db user = drop_both db user
drop_elevated true db user = do
  administrator ← ask ask_session_user (λ c. c.session_user)
  g ← attempt (set_role_option user administrator true)
  wrap_error (codes "enable database owner privileges for purge") g
  r ← attempt (drop_both db user)
  after_drop user administrator r

unfoldable pub drop_role_and_database : Bytes → Bytes → Bytes → Act (Unit {0})
drop_role_and_database db user marker = do
  pkg ← asks (λ env. env.packages)
  check (validate_database_identifier pkg db)
  check (validate_database_identifier pkg user)
  with_connection
      (do exists ← verify_role user marker; verify_database db marker; drop_elevated exists db user)
