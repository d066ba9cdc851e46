-- ===== src/Postgres/Session/Dropped.antt =====
-- What DropRoleAndDatabase of internal/postgres/postgres.go leaves of the privileges that it takes.
use centralcloud_agent.Prelude.{
  ◌≡◌, refl, Bool, true, false, ◌&&◌, List, ◌∷◌, Bytes, same, if◌then◌else◌,
}
use centralcloud_agent.Errors.{Result, ok, err}
use centralcloud_agent.Domain.Model.{pg_query}
use centralcloud_agent.Postgres.Sql.{Query}
use centralcloud_agent.Postgres.{
  run_formatted, wrap_error, verify_role, verify_database, check_role, check_database, drop_both,
  after_drop, drop_elevated, drop_role_and_database,
}
use centralcloud_agent.Postgres.Session.{Restricted, Settled}
use centralcloud_agent.Postgres.Session.Membership.{
  Itself, Clean, session_rules, restrict-Ends, elevate-Ends, elevated-Ends, Clean-of_Stays,
  with_connection-Clean, checked-Clean,
}
use centralcloud_agent.Runtime.{Event}
use centralcloud_agent.Runtime.Ends.{
  Ends, Outcome, Stays, Ends-pure, Ends-attempt, Ends-bind, Ends-invoke, Ends-then, Stays-pure,
  Stays-raise, event,
}

module _ {I : List Event → Type 0} {A : Type 0} where
  wrap_error-Stays : (what : Bytes) (r : Result A) → Ends I (λ a t. I t) I (wrap_error what r)
  wrap_error-Stays what (ok a) = Stays-pure a
  wrap_error-Stays what (err e) = Stays-raise _

pub verify_role-Stays :
    {I : List Event → Type 0} (user marker : Bytes)
    → ((q : Query) (b : Bool) (t : List Event) → I t → I (event (pg_query q) b ∷ t))
    → Stays I (verify_role user marker)
unfolding verify_role check_role
verify_role-Stays user marker k = search (session_rules, wrap_error-Stays) depth 12

pub verify_database-Stays :
    {I : List Event → Type 0} (db marker : Bytes)
    → ((q : Query) (b : Bool) (t : List Event) → I t → I (event (pg_query q) b ∷ t))
    → Stays I (verify_database db marker)
unfolding verify_database check_database
verify_database-Stays db marker k = search session_rules depth 12

-- What DROP ROLE leaves of a membership: nothing, or it is one of another role.
dropped : (p q x : Bool) → (p && q ≡ false → x ≡ false) → (if p then false else x) ≡ false
dropped true q x k = refl
dropped false q x k = k refl

module _ (role member : Bytes) where
  -- When the role is dropped, its membership goes with it.
  drop_both-Ends :
      (administrator db user : Bytes)
      → Ends
          (Itself role member user administrator)
          (λ u t. Restricted role member t)
          (Itself role member user administrator)
          (drop_both db user)
  unfolding drop_both run_formatted
  drop_both-Ends administrator db user = Ends-then _ _ (search session_rules) λ _.
      Ends-then _ _ (search session_rules) λ _.
        Ends-invoke _ (λ t h. (dropped (same user role) (same administrator member) _ h.1, h.0))
          (λ t h. h)

  -- The same, from a session without the options.
  drop_both-Clean : (db user : Bytes) → Clean role member (drop_both db user)
  unfolding drop_both run_formatted
  drop_both-Clean db user = Clean-of_Stays role member _ (
      Ends-then _ _ (search session_rules) λ _.
        Ends-then _ _ (search session_rules)
          λ _. Ends-invoke _ (λ t h. (dropped (same user role) true _ (λ _. h.0), h.1)) (λ t h. h))

  after_drop-Ends :
      (user administrator : Bytes) (r : Result (Unit {0}))
      → Ends
          (Outcome (λ u t. Restricted role member t) (Itself role member user administrator) r)
          (λ u t. Restricted role member t)
          (Settled role member)
          (after_drop user administrator r)
  after_drop-Ends user administrator (ok u) = Ends-pure _ (λ t h. h)
  after_drop-Ends user administrator (err e) = restrict-Ends role member user administrator _ _

  drop_elevated-Clean : (b : Bool) (db user : Bytes) → Clean role member (drop_elevated b db user)
  unfolding drop_elevated
  drop_elevated-Clean false db user = drop_both-Clean db user
  drop_elevated-Clean true db user =
      Ends-bind _ _ (Clean-of_Stays role member _ (search session_rules)) λ administrator.
        Ends-bind _ _ (Ends-attempt _ (elevate-Ends role member user administrator)) λ g.
          Ends-bind _ _ (elevated-Ends role member user administrator _ g) λ _.
            Ends-bind _ _ (Ends-attempt _ (drop_both-Ends administrator db user))
              (after_drop-Ends user administrator)

-- Take any membership, of `member` in `role`. Where DropRoleAndDatabase starts with SET ROLE not in
-- force and neither SET nor INHERIT given to this membership, it is so again when it returns. When it
-- fails, it is so again unless a statement that takes the options of this very membership back has
-- failed.
pub drop_role_and_database-Restricted :
    (role member db user marker : Bytes) → Clean role member (drop_role_and_database db user marker)
unfolding drop_role_and_database
drop_role_and_database-Restricted role member db user marker =
    Ends-bind _ _ (Clean-of_Stays role member _ (search session_rules)) λ pkg.
      Ends-bind _ _ (checked-Clean role member _) λ _.
        Ends-bind _ _ (checked-Clean role member _) λ _. with_connection-Clean role member _ (
          Ends-bind _ _
            (Clean-of_Stays role member _ (verify_role-Stays user marker (λ q b t h. h)))
            λ exists.
              Ends-bind _ _
                (Clean-of_Stays role member _ (verify_database-Stays db marker (λ q b t h. h)))
                λ _. drop_elevated-Clean role member exists db user)
