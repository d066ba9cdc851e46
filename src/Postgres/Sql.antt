-- ===== src/Postgres/Sql.antt =====
-- The SQL of internal/postgres/postgres.go, and what the server's catalogue tells.
use centralcloud_agent.Prelude.{Bool, Option, Bytes}

-- A statement that the provisioner executes. But for RESET ROLE, its text is what the server's format
-- makes of it, which quotes identifiers (%I) and literals (%L).
pub data Statement : Type 0 where
  create_role alter_role : Bytes → Bytes → Statement
  comment_on_role : Bytes → Bytes → Statement
  -- GRANT role TO member WITH SET and INHERIT TRUE, or both FALSE
  grant_membership : Bytes → Bytes → Bool → Statement
  create_database : Bytes → Bytes → Statement
  set_role : Bytes → Statement
  comment_on_database : Bytes → Bytes → Statement
  revoke_all_from_public : Bytes → Statement
  grant_all_on_database : Bytes → Bytes → Statement
  reset_role : Statement
  drop_database drop_role : Bytes → Statement

-- A question to the server.
pub data Query : Type 0 where
  ask_role_exists ask_role ask_role_comment : Bytes → Query
  ask_session_user : Query
  ask_database_exists ask_database ask_database_comment : Bytes → Query
  ask_format : Statement → Query

pub record RoleRow : Type 0 where
  pub comment : Option Bytes
  pub superuser : Bool
  pub create_db : Bool
  pub create_role : Bool
  pub replication : Bool
  pub bypass_rls : Bool

pub record DatabaseRow : Type 0 where
  pub owner : Bytes
  pub comment : Option Bytes

-- The answers that the server gives at one moment.
pub record Catalogue : Type 0 where
  pub role_exists : Bytes → Bool
  pub role : Bytes → RoleRow
  pub session_user : Bytes
  pub database_exists : Bytes → Bool
  pub database : Bytes → DatabaseRow
