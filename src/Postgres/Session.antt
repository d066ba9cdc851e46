-- ===== src/Postgres/Session.antt =====
-- The state of the administrator's session in internal/postgres/postgres.go, read off the calls made.
pub mod Membership
pub mod Restricted
pub mod Dropped
use centralcloud_agent.Prelude.{
  ◌≡◌, Bool, true, false, ◌&&◌, ◌⊎◌, List, [], ◌∷◌, Bytes, same, if◌then◌else◌,
}
use centralcloud_agent.Domain.Model.{Call, pg_query, pg_exec}
use centralcloud_agent.Postgres.Sql.{
  Statement, grant_membership, set_role, reset_role, drop_role, ask_format,
}
use centralcloud_agent.Runtime.{Event}

-- A GRANT of the role `user` to `administrator` is one of `role` to `member`.
abbrev pub is_pair : Bytes → Bytes → Bytes → Bytes → Bool
is_pair role member user administrator = same user role && same administrator member

abbrev acting_by : Call → Bool → Bool → Bool
acting_by (pg_exec (set_role role)) true before = true
acting_by (pg_exec reset_role) true before = false
acting_by _ _ before = before

-- Whether SET ROLE is in force.
abbrev pub acting : List Event → Bool
acting [] = false
acting (e ∷ t) = acting_by e.call e.succeeded (acting t)

module _ (role member : Bytes) where
  -- What a statement that succeeded makes of the options SET and INHERIT of the membership of `member`
  -- in `role`: they are as a GRANT of this membership says, and a role that is dropped has no members.
  abbrev elevated_by : Call → Bool → Bool → Bool
  elevated_by (pg_exec (grant_membership user administrator enabled)) true before =
      if is_pair role member user administrator then enabled else before
  elevated_by (pg_exec (drop_role user)) true before = if same user role then false else before
  elevated_by _ _ before = before

  -- Whether `member` holds the options in `role`, after the calls of a trace.
  abbrev pub elevated : List Event → Bool
  elevated [] = false
  elevated (e ∷ t) = elevated_by e.call e.succeeded (elevated t)

  abbrev stuck_by : Call → Bool → Bool → Bool
  stuck_by (pg_query (ask_format (grant_membership user administrator false))) false before =
      if is_pair role member user administrator then true else before
  stuck_by (pg_exec (grant_membership user administrator false)) false before =
      if is_pair role member user administrator then true else before
  stuck_by (pg_exec reset_role) false before = true
  stuck_by _ _ before = before

  -- Whether RESET ROLE has failed, or a statement that takes the options of the membership back.
  abbrev pub stuck : List Event → Bool
  stuck [] = false
  stuck (e ∷ t) = stuck_by e.call e.succeeded (stuck t)

  -- SET ROLE is not in force, and `member` holds neither option in `role`.
  abbrev pub Restricted : List Event → Type 0
  Restricted t = (elevated t ≡ false) × (acting t ≡ false)

  -- It is so, or what would have made it so failed.
  abbrev pub Settled : List Event → Type 0
  Settled t = Restricted t ⊎ (stuck t ≡ true)
