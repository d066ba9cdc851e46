-- ===== src/Tests/Http.antt =====
-- The theorems on the HTTP server, at concrete requests.
use centralcloud_agent.Prelude.{◌≡◌, ◌≢◌, refl, ap, none, some, List, [], ◌∷◌, codes, contains_byte}
use centralcloud_agent.Errors.{ok, plain}
use centralcloud_agent.Contracts.{AdminResetRequest}
use centralcloud_agent.Service.Submit.{reset_fault, submit_admin_reset}
use centralcloud_agent.Api.{Request}
use centralcloud_agent.Api.Access.{Server}
use centralcloud_agent.Api.Handlers.{answered}
use centralcloud_agent.Api.Routes.{handler}
use centralcloud_agent.Api.Keeps.Changes.Admitted.{Admitted, handler-Admitted}
use centralcloud_agent.Api.Answers.{internal_error}
use centralcloud_agent.Api.Faults.{refused_reset-internal_error}
use centralcloud_agent.Tests.Fixtures.{
  env, running_world, key_a, key_b, deployment_id, submission, served,
}

abbrev server : Server
server = record {
  token = [];
  token_digest = codes "0123456789abcdef0123456789abcdef";
  allowed = [];
  source_cidrs = codes "10.0.0.0/8" ∷ [];
}

abbrev stop_request : Request
stop_request = record {
  method = codes "POST";
  path = codes "/v1/deployments/1/stop";
  request_uri = codes "/v1/deployments/1/stop";
  segments = codes "v1" ∷ codes "deployments" ∷ deployment_id ∷ codes "stop" ∷ [];
  query = [];
  headers = record {
    idempotency_key = key_a;
    correlation_id = key_b;
    request_timestamp = codes "now";
    content_type = [];
    authorization = codes "Bearer 0123456789abcdef0123456789abcdef";
    purge_token = [];
  };
  body = some [];
  remote_addr = codes "10.0.0.7:1234";
  peer = none;
  correlation = [];
}

-- Serving the request queues an operation.
queues : (handler server stop_request env running_world).1.tables ≢ running_world.tables
unfolding submission served
queues e = two_lists (ap (λ t. t.operations) e)
  where
    two_lists : {A : Type 0} {a : A} {as_ : List A} → a ∷ as_ ≡ [] → ⊥
    two_lists h = cc

handler-Admitted_example : Admitted env server stop_request
handler-Admitted_example = handler-Admitted env server stop_request running_world queues

abbrev short_password : AdminResetRequest
short_password = record { admin_email = codes "a@b"; admin_password = codes "short" }

is_refused :
    reset_fault short_password
    ≡ some (plain (codes "valid admin_email and a password of at least 12 characters are required"))
unfolding reset_fault contains_byte
is_refused = refl

refused_reset-internal_error_example :
    answered stop_request 202
      (submit_admin_reset deployment_id key_a
        (codes "POST")
        (codes "/")
        short_password
        (codes "{}"))
      env
      running_world
    ≡ (ok (internal_error env []), running_world)
refused_reset-internal_error_example =
    refused_reset-internal_error env running_world stop_request deployment_id key_a (codes "POST")
      (codes "/") short_password (codes "{}") _ is_refused
