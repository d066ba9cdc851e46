-- ===== src/Service/Safe.antt =====
-- What the handlers and workers of internal/deployment/service.go share makes no call that destroys a
-- customer's data.
pub mod Work
use centralcloud_agent.Prelude.{
  ◌≡◌, refl, ℕ, Bool, true, false, Option, none, some, List, [], ◌∷◌, Bytes, All,
}
use centralcloud_agent.Errors.{Err, Result, ok, err}
use centralcloud_agent.Domain.State.{State}
use centralcloud_agent.Domain.Model.{
  Call, Deployment, Operation, drop_role_and_database, purge_panel, backup_purge,
}
use centralcloud_agent.Domain.State.{validate_transition}
use centralcloud_agent.Storage.Tables.{Tables}
use centralcloud_agent.Storage.Deployments.{
  save_deployment, get_deployment, update_state, or_not_found, found_rows, check_transition,
}
use centralcloud_agent.Storage.Operations.{
  claim_operation, claim, complete_operation, complete_purge, fail_operation, record_step,
}
use centralcloud_agent.Service.{
  decrypt_text, decrypt_permanent_secrets, settle_step, step, transition, wrapped, wrapping,
}
use centralcloud_agent.Runtime.{
  Env, World, Event, Act, sample, statement, settle, transaction, begin, restore, skip, answer,
  invoke, invoke_for, now, pure, ◌>>=◌, ◌>>◌,
}
use centralcloud_agent.Runtime.Keeps.{
  Keeps, OnTrace, Keeps-if, Keeps-pure, Keeps-check, Keeps-attempt, Keeps-bind, keeps_rules,
}

-- The calls after which a customer's data is gone.
abbrev pub is_loss : Call → Bool
is_loss (drop_role_and_database _ _ _) = true
is_loss (purge_panel _) = true
is_loss (backup_purge _) = true
is_loss _ = false

-- No call of the trace destroys data.
abbrev pub NoLoss : List Event → Type 0
NoLoss es = All (λ e. is_loss e.call ≡ false) es

abbrev pub Safe : {A : Type 0} → Act A → Type 0
Safe m = Keeps (OnTrace NoLoss) m

module _ {A : Type 0} where
  settle-trace :
      (o : Option Err) (r : Result (A × Tables)) (w : World) → (settle o r w).1.trace ≡ w.trace
  settle-trace none (ok (a, t)) w = refl
  settle-trace none (err e) w = refl
  settle-trace (some e) r w = refl

  restore-trace : (t : Tables) (r : Result A × World) → (restore t r).1.trace ≡ r.1.trace
  restore-trace t (ok a, w) = refl
  restore-trace t (err e, w) = refl

  pub statement-Safe : (q : Tables → Result (A × Tables)) → Safe (statement q)
  unfolding statement
  statement-Safe q = record {
    at = λ env w h. record {
      holds = rw (settle-trace (env.sql_failure w.tick) (q w.tables) _) h.holds;
    };
  }

  pub sample-Safe : (f : Env → ℕ → A) → Safe (sample f)
  unfolding sample
  sample-Safe f = record { at = λ env w h. record { holds = h.holds } }

module _ {A : Type 0} where
  pub begin-Safe : (m : Act A) → Safe m → Safe (begin m)
  unfolding begin skip
  begin-Safe m k = record {
    at = λ env w h. record {
      holds = rw (restore-trace w.tables ((do skip; m) env w)) (inner.at env w h).holds;
    };
  }
    where
      inner : Safe (do skip; m)
      inner = Keeps-bind _ _ (statement-Safe _) λ _. k

  pub transaction-Safe : (m : Act A) → Safe m → Safe (transaction m)
  unfolding transaction skip
  transaction-Safe m k = record {
    at = λ env w h. record {
      holds =
          rw (restore-trace w.tables ((do skip; a ← m; skip; pure a) env w))
            (inner.at env w h).holds;
    };
  }
    where
      inner : Safe (do skip; a ← m; skip; pure a)
      inner =
          Keeps-bind _ _ (statement-Safe _)
            λ _. Keeps-bind _ _ k λ a. Keeps-bind _ _ (statement-Safe _) λ _. Keeps-pure a

answer-NoLoss :
    (o : Option Err) (c : Call) (w : World)
    → is_loss c ≡ false
    → NoLoss w.trace
    → NoLoss (answer o c w).1.trace
answer-NoLoss none c w n h = (n, h)
answer-NoLoss (some e) c w n h = (n, h)

pub invoke-Safe : (c : Call) → is_loss c ≡ false → Safe (invoke c)
unfolding invoke
invoke-Safe c n = record {
  at = λ env w h. record { holds = answer-NoLoss (env.call_failure w.tick c) c w n h.holds };
}

pub invoke_for-Safe :
    {A : Type 0} (c : Call) (f : Env → ℕ → A) → is_loss c ≡ false → Safe (invoke_for c f)
unfolding invoke_for
invoke_for-Safe c f n = record {
  at = λ env w h.
      (Keeps-bind (invoke c) (λ _. pure (f env w.tick)) (invoke-Safe c n) (λ _. Keeps-pure _)).at
        env w h;
}

pub now-Safe : Safe now
unfolding now
now-Safe = sample-Safe _

pub ruleset trace_rules = (
  keeps_rules, refl, statement-Safe, sample-Safe, begin-Safe, transaction-Safe, invoke-Safe,
  invoke_for-Safe, now-Safe,
)

or_not_found-Safe : {A : Type 0} (o : Option A) → Safe (or_not_found o)
or_not_found-Safe none = search trace_rules
or_not_found-Safe (some a) = search trace_rules

check_transition-Safe : (from to : State) → Safe (check_transition from to)
check_transition-Safe from to = Keeps-if _ _ _ (Keeps-pure tt) (Keeps-check _)

claim-Safe : (o : Option Operation) → Safe (claim o)
unfolding skip
claim-Safe none = search trace_rules
claim-Safe (some o) = search trace_rules

pub save_deployment-Safe : (d : Deployment) → Safe (save_deployment d)
unfolding save_deployment
save_deployment-Safe d = search trace_rules depth 12

pub get_deployment-Safe : (id : Bytes) → Safe (get_deployment id)
unfolding get_deployment
get_deployment-Safe id = search (trace_rules, or_not_found-Safe)

pub update_state-Safe : (id : Bytes) (to : State) (s : Bytes) → Safe (update_state id to s)
unfolding update_state
update_state-Safe id to s = search (trace_rules, or_not_found-Safe, check_transition-Safe) depth 9

pub complete_operation-Safe : (id r : Bytes) → Safe (complete_operation id r)
unfolding complete_operation
complete_operation-Safe id r = search trace_rules

pub fail_operation-Safe : (id c t : Bytes) → Safe (fail_operation id c t)
unfolding fail_operation
fail_operation-Safe id c t = search trace_rules

pub record_step-Safe : (id s t d : Bytes) → Safe (record_step id s t d)
unfolding record_step
record_step-Safe id s t d = search trace_rules

pub ruleset storage_safe = (
  trace_rules, save_deployment-Safe, get_deployment-Safe, update_state-Safe,
  complete_operation-Safe, fail_operation-Safe, record_step-Safe,
)

pub decrypt_text-Safe : (v : Bytes) → Safe (decrypt_text v)
unfolding decrypt_text
decrypt_text-Safe v = search trace_rules

pub decrypt_permanent_secrets-Safe : (v : Bytes) → Safe (decrypt_permanent_secrets v)
unfolding decrypt_permanent_secrets
decrypt_permanent_secrets-Safe v = search (trace_rules, decrypt_text-Safe)

settle_step-Safe :
    {A : Type 0} (o : Operation) (name : Bytes) (r : Result A) → Safe (settle_step o name r)
settle_step-Safe o name (ok a) = search storage_safe
settle_step-Safe o name (err e) = search storage_safe

pub step-Safe :
    {A : Type 0} (o : Operation) (name : Bytes) (m : Act A) → Safe m → Safe (step o name m)
unfolding step
step-Safe o name m k = search (storage_safe, settle_step-Safe)

pub transition-Safe : (d : Deployment) (to : State) → Safe (transition d to)
unfolding transition
transition-Safe d to = search storage_safe

wrapped-Safe : {A : Type 0} (name : Bytes) (r : Result A) → Safe (wrapped name r)
wrapped-Safe name (ok a) = search trace_rules
wrapped-Safe name (err e) = search trace_rules

pub wrapping-Safe : {A : Type 0} (name : Bytes) (m : Act A) → Safe m → Safe (wrapping name m)
unfolding wrapping
wrapping-Safe name m k = Keeps-bind _ _ (Keeps-attempt m k) (wrapped-Safe name)

pub ruleset shared_safe = (
  storage_safe, decrypt_text-Safe, decrypt_permanent_secrets-Safe, step-Safe, transition-Safe,
  wrapping-Safe,
)
