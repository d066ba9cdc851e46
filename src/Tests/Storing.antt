-- ===== src/Tests/Storing.antt =====
-- The theorems on the domain and the database, at concrete inputs.
use centralcloud_agent.Prelude.{◌≡◌, refl, true, false, none, [], ◌∷◌, codes, same, arith}
use centralcloud_agent.Prelude.{
  ℕ, ◌%◌, ◌<◌, cut_before, has_prefix, contains_byte, is_blank, member,
}
use centralcloud_agent.Errors.{ok}
use centralcloud_agent.Config.Validate.{
  validate, node_faults, security_faults, cidr_faults, docker_faults, service_faults, panel_faults,
  key_faults, parse_uint, cut_after, digits_value,
}
use centralcloud_agent.Config.Validate.Accepted.{IsUsable, validate_sound}
use centralcloud_agent.Domain.Syntax.{uuid_re, env_re}
use centralcloud_agent.Domain.Uuid.{new_uuid, uuid_re-new_uuid}
use centralcloud_agent.Domain.Clock.{format_time, text_lt}
use centralcloud_agent.Domain.State.{
  State, pending, deleted, deleting, active, healthchecking, can_transition,
}
use centralcloud_agent.Domain.State.Lifecycle.{
  Avoids, Reaches, active_needs_healthcheck, deleted_reachable,
}
use centralcloud_agent.Domain.Create.{validate_create}
use centralcloud_agent.Domain.Create.Accepted.{IsAcceptable, validate_create_sound}
use centralcloud_agent.Storage.Tables.{count}
use centralcloud_agent.Storage.Exclusive.{IsExclusive}
use centralcloud_agent.Storage.Schedule.{
  claims_operation, requeues_running, creates_operation, run, run-IsExclusive,
}
use centralcloud_agent.Storage.Deployments.{update_state, create_deployment, get_deployment}
use centralcloud_agent.Storage.Operations.{complete_purge}
use centralcloud_agent.Storage.Operations.Erased.{complete_purge-Outcome}
use centralcloud_agent.Storage.Operations.Erased
use centralcloud_agent.Storage.Deployments.Transition.{Outcome, update_state-Outcome}
use centralcloud_agent.Storage.Keys.{consume_purge_token, is_usable}
use centralcloud_agent.Storage.Keys.Purge.{token_single_use}
use centralcloud_agent.Domain.Model.{Operation, op_stop}
use centralcloud_agent.Service.{new_operation}
use centralcloud_agent.Service.Server.{work, restart, serve, serve-IsExclusive}
use centralcloud_agent.Runtime.{World, statement, pure, ◌>>=◌}
use centralcloud_agent.Storage.Deployments.RoundTrip.{ReadsBack, stored, get-create}
use centralcloud_agent.Tests.Fixtures.{
  panel_in, env, no_tables, empty_world, running_world, request, deployment_id, submission,
  token_world, purge_hash, noon, one_past_noon,
}

active_needs_healthcheck_example : ¬ Avoids healthchecking pending active
active_needs_healthcheck_example = active_needs_healthcheck pending refl

deleted_reachable_example :
    Reaches pending deleted × ((t : State) → can_transition t deleted ≡ true → t ≡ deleting)
deleted_reachable_example = deleted_reachable pending

request_is_valid : (validate_create env.packages env.config request).1 ≡ none
unfolding submission
request_is_valid = refl

validate_create_sound_example :
    IsAcceptable env.packages env.config (validate_create env.packages env.config request).0
validate_create_sound_example =
    validate_create_sound env.packages env.config request request_is_valid

abbrev stop_it : Operation
stop_it = new_operation (codes "op-1") deployment_id op_stop []

nothing_active : IsExclusive no_tables
unfolding count
nothing_active id = omega arith

run-IsExclusive_example :
    IsExclusive
      (run env
        (creates_operation stop_it ∷ claims_operation ∷ requeues_running ∷ [])
        empty_world).tables
run-IsExclusive_example =
    run-IsExclusive env (creates_operation stop_it ∷ claims_operation ∷ requeues_running ∷ [])
      empty_world nothing_active

serve-IsExclusive_example : IsExclusive (serve env (work ∷ restart ∷ []) empty_world).tables
serve-IsExclusive_example = serve-IsExclusive env (work ∷ restart ∷ []) empty_world nothing_active

update_state-Outcome_example :
    Outcome deployment_id deleting running_world.tables
      (update_state deployment_id deleting [] env running_world)
update_state-Outcome_example = update_state-Outcome deployment_id deleting [] env running_world

consumed : (consume_purge_token deployment_id purge_hash noon env token_world).0 ≡ ok true
unfolding consume_purge_token statement pure ◌>>=◌ is_usable count format_time text_lt same
consumed = refl

in_order : text_lt (format_time one_past_noon) (format_time noon) ≡ false
unfolding format_time text_lt
in_order = refl

token_single_use_example :
    (consume_purge_token deployment_id purge_hash one_past_noon env
      (consume_purge_token deployment_id purge_hash noon env token_world).1).0
    ≡ ok false
token_single_use_example =
    token_single_use deployment_id purge_hash noon one_past_noon env token_world true consumed
      in_order refl

-- What a source of random bytes may hand out.
abbrev some_bytes : ℕ → ℕ
some_bytes i = i % 256

are_bytes : (i : ℕ) → some_bytes i < 256
are_bytes i = omega arith

uuid_re-new_uuid_example : uuid_re (new_uuid some_bytes) ≡ true
uuid_re-new_uuid_example = uuid_re-new_uuid some_bytes are_bytes

config_is_valid : validate env.packages env.config ≡ none
unfolding submission validate node_faults security_faults cidr_faults docker_faults service_faults
    panel_faults key_faults parse_uint cut_after digits_value cut_before has_prefix contains_byte
    is_blank env_re same member
config_is_valid = refl

validate_sound_example : IsUsable env.packages env.config
validate_sound_example = validate_sound env.packages env.config config_is_valid

complete_purge-Outcome_example :
    Erased.Outcome
      (codes "op-1")
      deployment_id
      token_world.tables
      (complete_purge (codes "op-1") deployment_id (codes "done") env token_world)
complete_purge-Outcome_example =
    complete_purge-Outcome (codes "op-1") deployment_id (codes "done") env token_world

was_created : (create_deployment (panel_in active) env empty_world).0 ≡ ok tt
unfolding submission
was_created = refl

reads_back : ReadsBack env (panel_in active) (env.clock 0)
reads_back = record { request = λ b e. refl; aliases = λ b e. refl; created = refl; updated = refl }

get-create_example :
    (get_deployment deployment_id env (create_deployment (panel_in active) env empty_world).1).0
    ≡ ok (stored (panel_in active) (env.clock 0))
get-create_example = get-create env empty_world (panel_in active) reads_back was_created refl

abbrev queued_world : World
queued_world = record running_world {
  tables = record running_world.tables { operations = stop_it ∷ [] };
}
