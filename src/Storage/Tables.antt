-- ===== src/Storage/Tables.antt =====
-- The tables that migrate of internal/storage/sqlite.go creates. The columns of a deployment hold the
-- texts that the code writes; a timestamp column of another table holds the instant that its text
-- encodes, and its text is that of `format_time`.
pub mod Counting
use centralcloud_agent.Prelude.{
  ℕ, suc, Bool, true, false, Option, none, some, List, [], ◌∷◌, Bytes, if◌then◌else◌,
}
use centralcloud_agent.Domain.Clock.{Time}
use centralcloud_agent.Domain.Model.{Operation}
use centralcloud_agent.Domain.State.{State}

pub record DeploymentRow : Type 0 where
  pub deployment_id : Bytes
  pub request_json : Bytes
  pub aliases_json : Bytes
  pub state : State
  pub credentials_ref : Bytes
  pub encrypted_secret : Bytes
  pub encrypted_bootstrap : Bytes
  pub failed_step : Bytes
  pub created_at : Bytes
  pub updated_at : Bytes

pub record StepRow : Type 0 where
  pub operation_id : Bytes
  pub step : Bytes
  pub status : Bytes
  pub detail : Bytes
  pub created_at : Time

pub record IdempotencyRow : Type 0 where
  pub key : Bytes
  pub request_hash : Bytes
  pub response : Bytes
  pub created_at : Time

pub record PurgeToken : Type 0 where
  pub deployment_id : Bytes
  pub token_hash : Bytes
  pub expires_at : Time
  pub consumed_at : Option Time

pub record AuditRow : Type 0 where
  pub deployment_id : Bytes
  pub event : Bytes
  pub detail : Bytes
  pub created_at : Time

pub record Tables : Type 0 where
  pub deployments : List DeploymentRow
  pub operations : List Operation
  pub operation_steps : List StepRow
  pub idempotency_keys : List IdempotencyRow
  pub purge_tokens : List PurgeToken
  pub audit : List AuditRow
  pub metadata : List (Bytes × Bytes)

-- The shapes of the SQL statements, over the rows of one table.
module _ {A : Type 0} where
  -- SELECT ... WHERE p LIMIT 1
  unfoldable pub select : (A → Bool) → List A → Option A
  select p [] = none
  select p (r ∷ rs) = if p r then some r else select p rs

  -- UPDATE ... SET f WHERE p
  unfoldable pub update : (A → Bool) → (A → A) → List A → List A
  update p f [] = []
  update p f (r ∷ rs) = (if p r then f r else r) ∷ update p f rs

  -- DELETE ... WHERE p
  unfoldable pub delete : (A → Bool) → List A → List A
  delete p [] = []
  delete p (r ∷ rs) = let rest = delete p rs in if p r then rest else r ∷ rest

  -- The rows that a WHERE clause takes.
  unfoldable pub count : (A → Bool) → List A → ℕ
  count p [] = 0
  count p (r ∷ rs) = let rest = count p rs in if p r then suc rest else rest
