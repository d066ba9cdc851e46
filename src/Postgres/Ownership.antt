-- ===== src/Postgres/Ownership.antt =====
-- What internal/postgres/postgres.go makes sure of before it drops a role or a database.
use centralcloud_agent.Prelude.{
  ℕ, ◌≡◌, refl, Bool, true, false, not, ◌⊎◌, inl, inr, Option, List, [], ◌∷◌, Bytes, ◌||◌, ◌∙◌,
}
use centralcloud_agent.Errors.{Result, ok, err}
use centralcloud_agent.Errors.Faults.{true_of_not}
use centralcloud_agent.Domain.Model.{Call, pg_exec}
use centralcloud_agent.Postgres.Sql.{drop_role, drop_database}
use centralcloud_agent.Postgres.{
  owned_by, unless_exists, wrap_error, with_connection, verify_role, verify_database,
  drop_role_and_database, check_role, check_database,
}
use centralcloud_agent.Postgres.Session.Membership.{session_rules}
use centralcloud_agent.Postgres.Session.Dropped.{verify_role-Stays, verify_database-Stays}
use centralcloud_agent.Runtime.{Env, World, Event, Act, pure}
use centralcloud_agent.Runtime.Ends.{Stays-ignore}
use centralcloud_agent.Runtime.Shows.{
  Shows, Shows-raise, Shows-pure, Shows-bind, Shows-invoke_for, Shows-refuse_if, Unless,
  Shows-attempt, Unless-of_Stays, Unless-attempt, Unless-guard, Unless-bind,
}

abbrev is_drop : Call → Bool
is_drop (pg_exec (drop_role _)) = true
is_drop (pg_exec (drop_database _)) = true
is_drop _ = false

-- Whether a DROP was sent, whether it succeeded or not.
abbrev pub drops : List Event → Bool
drops [] = false
drops (e ∷ t) = is_drop e.call || drops t

abbrev NoDrop : List Event → Type 0
NoDrop t = drops t ≡ false

-- The server has answered that there is no such role, or that its comment is the deployment's.
abbrev pub RoleIsOurs : Bytes → Bytes → Env → Type 0
RoleIsOurs user marker env =
    ((n : ℕ) × ((env.catalogue n).role_exists user ≡ false))
    ⊎ ((n : ℕ) × (owned_by marker ((env.catalogue n).role user).comment ≡ true))

abbrev pub DatabaseIsOurs : Bytes → Bytes → Env → Type 0
DatabaseIsOurs db marker env =
    ((n : ℕ) × ((env.catalogue n).database_exists db ≡ false))
    ⊎ ((n : ℕ) × (owned_by marker ((env.catalogue n).database db).comment ≡ true))

module _ {A : Type 0} {P : Env → Type 0} {R : Env → A → Type 0} where
  wrap_error-Shows :
      (what : Bytes) (r : Result A)
      → ((env : Env) (a : A) → P env → r ≡ ok a → R env a)
      → Shows P R (wrap_error what r)
  wrap_error-Shows what (ok a) k = Shows-pure a (λ env p. k env a p refl)
  wrap_error-Shows what (err e) k = Shows-raise _

-- The comment that the server answered is owned, once the refusal is passed.
owned :
    (marker : Bytes) (c d : Option Bytes)
    → c ≡ d
    → not (owned_by marker d) ≡ false
    → owned_by marker c ≡ true
owned marker c d e h = rw e (true_of_not _ h)

module _ (marker : Bytes) {P : Env → Type 0} where
  check_database-Shows :
      (db : Bytes) → Shows P (λ env u. DatabaseIsOurs db marker env) (check_database db marker)
  unfolding check_database
  check_database-Shows db =
      Shows-bind _ _ (Shows-invoke_for _ _)
        λ comment. Shows-refuse_if _ _ (λ env p h. inr (p.0, owned marker _ comment p.1 h))

  check_role-Shows :
      (user : Bytes) → Shows P (λ env u. RoleIsOurs user marker env) (check_role user marker)
  unfolding check_role
  check_role-Shows user = Shows-bind _ _ (Shows-attempt _ (Shows-invoke_for _ _)) λ r.
      Shows-bind _ _ (wrap_error-Shows _ r (λ env a p q. p a q))
        λ comment. Shows-refuse_if _ _ (λ env p h. inr (p.0, owned marker _ comment p.1 h))

unless_exists-Shows :
    {P R : Env → Type 0} (b : Bool) (m : Act (Unit {0}))
    → Shows P (λ env u. R env) m
    → ((env : Env) → P env → b ≡ false → R env)
    → Shows P (λ env u. R env) (unless_exists b m (pure tt))
unless_exists-Shows true m k f = k
unless_exists-Shows false m k f = Shows-pure tt (λ env p. f env p refl)

verify_database-Shows :
    (db marker : Bytes)
    → Shows (λ env. Unit {0}) (λ env u. DatabaseIsOurs db marker env) (verify_database db marker)
unfolding verify_database
verify_database-Shows db marker = Shows-bind _ _ (Shows-invoke_for _ _) λ exists.
    unless_exists-Shows exists _ (check_database-Shows marker db) (λ env p h. inl (p.0, p.1 ∙ h))

verify_role-Shows :
    (user marker : Bytes)
    → Shows (λ env. Unit {0}) (λ env b. RoleIsOurs user marker env) (verify_role user marker)
unfolding verify_role
verify_role-Shows user marker = Shows-bind _ _ (Shows-invoke_for _ _) λ exists.
    Shows-bind _ _
      (unless_exists-Shows exists _ (check_role-Shows marker user) (λ env p h. inl (p.0, p.1 ∙ h)))
      λ _. Shows-pure exists (λ env p. p)

module _ {G : Env → Type 0} where
  -- The connection is taken before, and given back after.
  with_connection-Unless :
      (m : Act (Unit {0})) → Unless G NoDrop m → Unless G NoDrop (with_connection m)
  unfolding with_connection
  with_connection-Unless m k = Unless-bind _ _ (Unless-of_Stays _ (search session_rules)) λ _.
      Unless-bind _ _ (Unless-attempt _ k)
        λ r. Unless-of_Stays _ (search (session_rules, Stays-ignore))

module _ (db user marker : Bytes) where
  role_first : Unless (RoleIsOurs user marker) NoDrop (drop_role_and_database db user marker)
  unfolding drop_role_and_database
  role_first = Unless-bind _ _ (Unless-of_Stays _ (search session_rules)) λ pkg.
      Unless-bind _ _ (Unless-of_Stays _ (search session_rules)) λ _.
        Unless-bind _ _ (Unless-of_Stays _ (search session_rules)) λ _. with_connection-Unless _ (
          Unless-guard _ _ (verify_role-Stays user marker (λ q b t h. h))
            (verify_role-Shows user marker))

  database_first : Unless (DatabaseIsOurs db marker) NoDrop (drop_role_and_database db user marker)
  unfolding drop_role_and_database
  database_first = Unless-bind _ _ (Unless-of_Stays _ (search session_rules)) λ pkg.
      Unless-bind _ _ (Unless-of_Stays _ (search session_rules)) λ _.
        Unless-bind _ _ (Unless-of_Stays _ (search session_rules)) λ _. with_connection-Unless _ (
          Unless-bind _ _ (Unless-of_Stays _ (verify_role-Stays user marker (λ q b t h. h)))
            λ exists.
              Unless-guard _ _ (verify_database-Stays db marker (λ q b t h. h))
                (verify_database-Shows db marker))

-- When DropRoleAndDatabase sends a DROP, to a server that may answer anything at any time, the server
-- has answered that there is no such role or that its comment is the deployment's, and likewise of the
-- database.
pub drop-owned :
    (db user marker : Bytes) (env : Env) (w : World)
    → drops w.trace ≡ false
    → drops (drop_role_and_database db user marker env w).1.trace ≡ true
    → RoleIsOurs user marker env × DatabaseIsOurs db marker env
drop-owned db user marker env w h d = (
  unless _ ((role_first db user marker).at env w h),
  unless _ ((database_first db user marker).at env w h),
)
  where
    unless : (G : Type 0) → NoDrop (drop_role_and_database db user marker env w).1.trace ⊎ G → G
    unless G (inl none_sent) = absurd cc
    unless G (inr g) = g
