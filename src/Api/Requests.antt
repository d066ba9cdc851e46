-- ===== src/Api/Requests.antt =====
-- internal/api/server.go: what mutation and readJSON ask of a request before its handler goes on. A
-- check that fails has written its answer, so each takes what follows it.
use centralcloud_agent.Prelude.{
  ℕ, ◌+◌, ◌-◌, ◌*◌, ◌^◌, Bool, true, false, not, ◌||◌, Option, none, some, ltb, leb, if◌then◌else◌,
  Bytes, codes, length, same, to_lower, ℤ, pos, negsuc, lt_int, le_int,
}
use centralcloud_agent.Domain.Clock.{Time}
use centralcloud_agent.Domain.Syntax.{uuid_re}
use centralcloud_agent.Runtime.{Act, asks, now, ◌>>=◌}
use centralcloud_agent.Api.{Request, Response, write_error}

abbrev pub nanoseconds : Time → ℕ
nanoseconds t = t.seconds * 1000000000 + t.nanos

-- time.Since(ts).Abs(), which stops at the largest Duration
unfoldable pub age : Time → Time → ℕ
age t ts =
    let distance = nanoseconds t - nanoseconds ts + (nanoseconds ts - nanoseconds t) in
    if ltb distance (2 ^ 63) then distance else 2 ^ 63 - 1

abbrev pub stale : Request → Act Response
stale req =
    write_error req 400 (codes "stale_request") (codes "invalid or stale X-Request-Timestamp")

-- The timestamp of a request, against the clock.
unfoldable pub fresh : Request → Option Time → Act Response → Act Response
unfolding age write_error
fresh req none next = stale req
fresh req (some ts) next = do
  c ← asks (λ env. env.config)
  if le_int c.security.timestamp_skew (pos 0)
      then stale req
      else do t ← now; if lt_int c.security.timestamp_skew (pos (age t ts)) then stale req else next

unfoldable pub mutation : Request → Act Response → Act Response
unfolding fresh write_error
mutation req next = do
  http ← asks (λ env. env.http)
  if not (uuid_re (to_lower req.headers.idempotency_key))
        || not (uuid_re (to_lower req.headers.correlation_id))
      then write_error req 400 (codes "invalid_headers")
          (codes "Idempotency-Key and X-Correlation-ID must be UUIDs")
      else fresh req (http.parse_time req.headers.request_timestamp) next

abbrev pub is_json : Option Bytes → Bool
is_json none = false
is_json (some m) = same m (codes "application/json")

-- The limit of http.MaxBytesReader, which takes a negative one for 0.
abbrev pub max_bytes : ℤ → ℕ
max_bytes (pos n) = n
max_bytes (negsuc n) = 0

-- io.ReadAll of the body behind http.MaxBytesReader
abbrev pub within : ℤ → Option Bytes → Option Bytes
within limit none = none
within limit (some b) = if leb (length b) (max_bytes limit) then some b else none

module _ {A : Type 0} (req : Request) where
  -- The first value of the body, and that nothing follows it.
  abbrev pub decoded : Option (A × Bool) → (A → Act Response) → Act Response
  decoded none next = write_error req 400 (codes "invalid_json") (codes "invalid JSON request")
  decoded (some (a, true)) next = next a
  decoded (some (a, false)) next =
      write_error req 400 (codes "invalid_json") (codes "request must contain one JSON value")

  abbrev pub parsed :
      Option Bytes → (Bytes → Option (A × Bool)) → (A → Bytes → Act Response) → Act Response
  parsed none decode next =
      write_error req 413 (codes "request_too_large") (codes "request body is too large")
  parsed (some b) decode next = decoded (decode b) (λ a. next a b)

  unfoldable pub read_json : (Bytes → Option (A × Bool)) → (A → Bytes → Act Response) → Act Response
  unfolding write_error same
  read_json decode next = do
    http ← asks (λ env. env.http)
    c ← asks (λ env. env.config)
    if not (is_json (http.parse_media_type req.headers.content_type))
        then write_error req 415 (codes "unsupported_media_type")
            (codes "Content-Type must be application/json")
        else parsed (within c.server.max_request_bytes req.body) decode next
