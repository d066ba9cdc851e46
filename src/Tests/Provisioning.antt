-- ===== src/Tests/Provisioning.antt =====
-- The theorems on the PostgreSQL provisioner, at concrete runs.
use centralcloud_agent.Prelude.{◌≡◌, refl, true, Bytes, codes}
use centralcloud_agent.Domain.Syntax.{db_re}
use centralcloud_agent.Domain.Validate.{validate_database_identifier}
use centralcloud_agent.Postgres.{
  ensure_role_and_database, drop_role_and_database, with_connection, verify_role, verify_database,
  drop_elevated, drop_both, run_formatted,
}
use centralcloud_agent.Postgres.Session.Membership.{Clean}
use centralcloud_agent.Postgres.Session.Restricted.{ensure_role_and_database-Restricted}
use centralcloud_agent.Postgres.Session.Dropped.{drop_role_and_database-Restricted}
use centralcloud_agent.Postgres.Ownership.{RoleIsOurs, DatabaseIsOurs, drops, drop-owned}
use centralcloud_agent.Runtime.{pure, asks, attempt, ignore, lift, invoke, invoke_for, ◌>>=◌}
use centralcloud_agent.Tests.Fixtures.{env, empty_world, deployment_id}

abbrev panel_database : Bytes
panel_database = codes "panel1"

abbrev panel_user : Bytes
panel_user = codes "panel1_user"

ensure_role_and_database-Restricted_example :
    Clean panel_user
      (codes "administrator")
      (ensure_role_and_database panel_database panel_user (codes "secret") deployment_id)
ensure_role_and_database-Restricted_example =
    ensure_role_and_database-Restricted panel_user (codes "administrator") panel_database panel_user
      (codes "secret") deployment_id

drop_role_and_database-Restricted_example :
    Clean panel_user
      (codes "administrator")
      (drop_role_and_database panel_database panel_user deployment_id)
drop_role_and_database-Restricted_example =
    drop_role_and_database-Restricted panel_user (codes "administrator") panel_database panel_user
      deployment_id

-- On a server without the role and the database, the drops are sent all the same.
sends_drops :
    drops (drop_role_and_database panel_database panel_user deployment_id env empty_world).1.trace
    ≡ true
unfolding drop_role_and_database validate_database_identifier db_re with_connection verify_role
    verify_database drop_elevated drop_both run_formatted pure asks attempt ignore lift invoke
    invoke_for ◌>>=◌
sends_drops = refl

drop-owned_example :
    RoleIsOurs panel_user deployment_id env × DatabaseIsOurs panel_database deployment_id env
drop-owned_example =
    drop-owned panel_database panel_user deployment_id env empty_world refl sends_drops
