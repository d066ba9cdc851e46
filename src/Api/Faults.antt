-- ===== src/Api/Faults.antt =====
-- How internal/api/server.go answers a request that the service takes for faulty.
use centralcloud_agent.Prelude.{
  ◌≡◌, refl, Bool, true, false, none, some, Bytes, codes, if◌then◌else◌, contains, has_prefix,
}
use centralcloud_agent.Errors.{Err, ok, plain, is_error, message}
use centralcloud_agent.Contracts.{AdminResetRequest}
use centralcloud_agent.Service.Submit.{reset_fault, submit_admin_reset}
use centralcloud_agent.Runtime.{Env, World, attempt, raise, pure, asks, ◌>>=◌}
use centralcloud_agent.Api.{Request, handle_error, classify, write_error, write, write_raw}
use centralcloud_agent.Api.Handlers.{answered}
use centralcloud_agent.Api.Answers.{internal_error}

abbrev reset_error : Err
reset_error =
    plain (codes "valid admin_email and a password of at least 12 characters are required")

the_reset_fault :
    (request : AdminResetRequest) (e : Err) → reset_fault request ≡ some e → e ≡ reset_error
unfolding reset_fault
the_reset_fault request e h = by_test _ h
  where
    by_test : (b : Bool) → (if b then some reset_error else none) ≡ some e → e ≡ reset_error
    by_test true h = cc
    by_test false h = absurd cc

-- None of the words of handleError is in the message.
reset_error-internal : classify reset_error ≡ (500, codes "internal_error")
unfolding classify is_error message contains has_prefix
reset_error-internal = refl

-- A reset of the administrator's account whose address or password SubmitAdminReset refuses is
-- answered with status 500 and the body of an internal error, and the database is left as it was.
pub refused_reset-internal_error :
    (env : Env) (w : World) (req : Request) (id key method path : Bytes)
    (request : AdminResetRequest) (raw : Bytes) (e : Err)
    → reset_fault request ≡ some e
    → answered req 202 (submit_admin_reset id key method path request raw) env w
      ≡ (ok (internal_error env req.correlation), w)
unfolding answered submit_admin_reset ◌>>=◌ attempt raise pure asks handle_error write_error write
    write_raw
refused_reset-internal_error env w req id key method path request raw e h =
    rw (h, the_reset_fault request e h, reset_error-internal) refl
