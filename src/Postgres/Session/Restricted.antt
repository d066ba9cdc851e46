-- ===== src/Postgres/Session/Restricted.antt =====
-- What EnsureRoleAndDatabase of internal/postgres/postgres.go leaves of the privileges that it takes.
use centralcloud_agent.Prelude.{◌≡◌, refl, Bool, true, false, inr, List, Bytes}
use centralcloud_agent.Errors.{Result, ok, err}
use centralcloud_agent.Domain.Model.{pg_exec}
use centralcloud_agent.Postgres.Sql.{reset_role}
use centralcloud_agent.Postgres.{
  run_formatted, ensure_role, ensure_database, mark_database, unset, clean_up, as_owner,
  ensure_on_connection, ensure_role_and_database,
}
use centralcloud_agent.Postgres.Session.{stuck, Restricted, Settled}
use centralcloud_agent.Postgres.Session.Membership.{
  Only, Itself, Clean, session_rules, restrict-Ends, elevate-Ends, elevated-Ends, Clean-of_Stays,
  with_connection-Clean, checked-Clean, join_error-Ends, unless_exists-Stays, run_formatted-Stays,
}
use centralcloud_agent.Runtime.{invoke}
use centralcloud_agent.Runtime.{Event}
use centralcloud_agent.Runtime.Ends.{
  Ends, Outcome, Stays, Ends-weaken, Ends-attempt, Ends-bind, Ends-invoke, Ends-then,
  Stays-invoke_for, stays_rules,
}

module _ (role member : Bytes) where
  ensure_role-Stays :
      (user password marker : Bytes)
      → Stays (Restricted role member) (ensure_role user password marker)
  unfolding ensure_role
  ensure_role-Stays user password marker =
      search (stays_rules, Stays-invoke_for, unless_exists-Stays, run_formatted-Stays) depth 20

  module _ (user administrator : Bytes) where
    abbrev Own : List Event → Type 0
    Own t = Itself role member user administrator t

    -- With SET ROLE at its end, the database's preparation acts as the owner when it returns.
    ensure_database-Ends :
        (db marker : Bytes)
        → Ends Own
            (λ u t. Only role member user administrator t)
            Own
            (ensure_database db user marker)
    unfolding ensure_database run_formatted
    ensure_database-Ends db marker = Ends-then _ _ (search session_rules) λ exists.
        Ends-then _ _ (search session_rules depth 12)
          λ _. Ends-then _ _ (search session_rules) λ _. Ends-invoke _ (λ t h. h.1) (λ t h. h)

    -- RESET ROLE at its end makes the session itself again.
    mark_database-Ends :
        (db marker : Bytes)
        → Ends
            (Only role member user administrator)
            (λ u t. Own t)
            (Only role member user administrator)
            (mark_database db user marker)
    unfolding mark_database
    mark_database-Ends db marker = Ends-then _ _ (search session_rules) λ _.
        Ends-then _ _ (search session_rules)
          λ _. Ends-then _ _ (search session_rules) λ _. Ends-invoke _ (λ t h. (refl, h)) (λ t h. h)

    unset-Ends :
        (r g : Result (Unit {0}))
        → Ends
            (Outcome (λ u t. Own t) (λ t. stuck role member t ≡ true) g)
            (λ u t. Restricted role member t)
            (Settled role member)
            (unset user administrator r g)
    unset-Ends r (ok u) = restrict-Ends role member user administrator _ r
    unset-Ends r (err e) =
        Ends-weaken _ (λ t h. h) (λ a t h. absurd h) (λ t h. inr h)
          (join_error-Ends (λ t. stuck role member t ≡ true) (λ u t. ⊥) r _)

    -- The session that the deferred function starts from.
    abbrev Before : Bool → List Event → Type 0
    Before true t = Only role member user administrator t
    Before false t = Own t

    clean_up-Ends :
        (active : Bool) (r : Result (Unit {0}))
        → Ends
            (Before active)
            (λ u t. Restricted role member t)
            (Settled role member)
            (clean_up user administrator active r)
    unfolding clean_up
    clean_up-Ends false r = restrict-Ends role member user administrator _ r
    clean_up-Ends true r =
        Ends-bind _ _
          (Ends-attempt (invoke (pg_exec reset_role)) (
            Ends-invoke {E = λ t. stuck role member t ≡ true} {Q = λ u t. Own t} _
              (λ t h. (refl, h)) (λ t h. refl)))
          (unset-Ends r)

    as_owner-Ends :
        (db marker : Bytes) (r : Result (Unit {0}))
        → Ends
            (Outcome (λ u t. Only role member user administrator t) Own r)
            (λ u t. Restricted role member t)
            (Settled role member)
            (as_owner db user marker administrator r)
    as_owner-Ends db marker (err e) = clean_up-Ends false _
    as_owner-Ends db marker (ok u) =
        Ends-bind _ _ (Ends-attempt _ (mark_database-Ends db marker)) finish
      where
        finish :
            (r : Result (Unit {0}))
            → Ends
                (Outcome (λ u t. Own t) (Only role member user administrator) r)
                (λ u t. Restricted role member t)
                (Settled role member)
                (clean_up user administrator (elim r [ ok _ ↦ false | err _ ↦ true ]) r)
        finish (ok u) = clean_up-Ends false _
        finish (err e) = clean_up-Ends true _

  ensure_on_connection-Clean :
      (db user password marker : Bytes)
      → Clean role member (ensure_on_connection db user password marker)
  unfolding ensure_on_connection
  ensure_on_connection-Clean db user password marker =
      Ends-bind _ _ (Clean-of_Stays role member _ (ensure_role-Stays user password marker)) λ _.
        Ends-bind _ _ (Clean-of_Stays role member _ (search session_rules)) λ administrator.
          Ends-bind _ _ (Ends-attempt _ (elevate-Ends role member user administrator)) λ g.
            Ends-bind _ _ (elevated-Ends role member user administrator _ g) λ _.
              Ends-bind _ _ (Ends-attempt _ (ensure_database-Ends user administrator db marker))
                (as_owner-Ends user administrator db marker)

-- Take any membership, of `member` in `role`. Where EnsureRoleAndDatabase starts with SET ROLE not in
-- force and neither SET nor INHERIT given to this membership, it is so again when it returns. When it
-- fails, it is so again unless RESET ROLE has failed, or a statement that takes the options of this
-- very membership back.
pub ensure_role_and_database-Restricted :
    (role member db user password marker : Bytes)
    → Clean role member (ensure_role_and_database db user password marker)
unfolding ensure_role_and_database
ensure_role_and_database-Restricted role member db user password marker =
    Ends-bind _ _ (Clean-of_Stays role member _ (search session_rules)) λ pkg.
      Ends-bind _ _ (checked-Clean role member _) λ _.
        Ends-bind _ _ (checked-Clean role member _) λ _.
          with_connection-Clean role member _
            (ensure_on_connection-Clean role member db user password marker)
