-- ===== src/Api.antt =====
-- internal/api/server.go: the HTTP server. This file holds requests, responses and the writers.
pub mod Access
pub mod Requests
pub mod Handlers
pub mod Reading
pub mod Routes
pub mod Keeps
pub mod Answers
pub mod Faults
use centralcloud_agent.Prelude.{
  lookup, none, some, ℕ, Bool, true, false, ◌||◌, Option, List, [], ◌∷◌, ◌++◌, ◌==◌, if◌then◌else◌,
  Bytes, codes, contains, ℤ,
}
use centralcloud_agent.Errors.{
  Err, Result, ok, err, message, is_error, not_found, conflict, capacity,
}
use centralcloud_agent.Contracts.Views.{View, error_view}
use centralcloud_agent.Domain.Model.{Gauge, set_gauge}
use centralcloud_agent.Runtime.{Act, pure, asks, attempt, ignore, invoke, ◌>>=◌, ◌>>◌}

-- r.TLS.PeerCertificates[0]: its names, its URIs and its subject, as texts
pub record Peer : Type 0 where
  pub dns_names : List Bytes
  pub uris : List Bytes
  pub subject : Bytes

-- The headers that the server reads; one that is missing is empty.
pub record Headers : Type 0 where
  pub idempotency_key : Bytes
  pub correlation_id : Bytes
  pub request_timestamp : Bytes
  pub content_type : Bytes
  pub authorization : Bytes
  pub purge_token : Bytes

-- What arrives. `segments` are those of the path as the mux matches them, `body` is none when the
-- reading of the body fails, and `correlation` is the value in the request's context.
pub record Request : Type 0 where
  pub method : Bytes
  pub path : Bytes
  pub request_uri : Bytes
  pub segments : List Bytes
  pub query : List (Bytes × Bytes)
  pub headers : Headers
  pub body : Option Bytes
  pub remote_addr : Bytes
  pub peer : Option Peer
  pub correlation : Bytes

pub record Response : Type 0 where
  pub status : ℕ
  pub content_type : Bytes
  pub content_type_options : Bytes
  pub correlation_id : Bytes
  pub body : Bytes

abbrev pub Handler : Type 0
Handler = Request → Act Response

abbrev pub response : ℕ → Bytes → Response
response status b = record {
  status = status;
  content_type = codes "application/json";
  content_type_options = codes "nosniff";
  correlation_id = [];
  body = b ++ (10 ∷ []);
}

unfoldable pub write_raw : ℕ → Bytes → Act Response
write_raw status b = pure (response status b)

unfoldable pub write : ℕ → View → Act Response
unfolding write_raw
write status v = do http ← asks (λ env. env.http); write_raw status (http.marshal_view v)

unfoldable pub write_error : Request → ℕ → Bytes → Bytes → Act Response
unfolding write
write_error req status code text =
    write status
      (error_view (record { code = code; message = text; correlation_id = req.correlation }))

-- The words by which handleError takes an error for a fault of the request.
abbrev pub blames_request : Bytes → Bool
blames_request m =
    contains m (codes "invalid")
    || contains m (codes "must")
    || contains m (codes "outside")
    || contains m (codes "allowed")

-- The status and the code of an error.
unfoldable pub classify : Err → ℕ × Bytes
classify e =
    if is_error not_found e
    then (404, codes "not_found")
    else if is_error conflict e
    then (409, codes "conflict")
    else if is_error capacity e
    then (409, codes "capacity_exceeded")
    else if blames_request (message e)
    then (400, codes "invalid_request")
    else (500, codes "internal_error")

abbrev pub shown : ℕ → Err → Bytes
shown status e = if status == 500 then codes "internal server error" else message e

unfoldable pub handle_error : Request → Err → Act Response
unfolding classify write_error
handle_error req e = write_error req (classify e).0 (classify e).1 (shown (classify e).0 e)

-- `if e != nil { s.handleError(w, r, e); return }`
abbrev pub or_error : {A : Type 0} → Request → Result A → (A → Act Response) → Act Response
or_error req (ok a) next = next a
or_error req (err e) next = handle_error req e

-- s.metrics.G.Set(v)
unfoldable pub gauge : Gauge → ℤ → Act (Unit {0})
gauge g v = ignore (invoke (set_gauge g v))

abbrev or_empty : Option Bytes → Bytes
or_empty none = []
or_empty (some v) = v

-- r.URL.Query().Get(name)
unfoldable pub query_value : Request → Bytes → Bytes
unfolding lookup
query_value req name = or_empty (lookup name req.query)
