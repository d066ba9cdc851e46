-- ===== src/Api/Keeps/Changes.antt =====
-- Which requests of internal/api/server.go can change the database, by their method and headers.
pub mod Admitted
use centralcloud_agent.Prelude.{
  ℕ, ◌≡◌, ◌≢◌, ◌⊎◌, inl, inr, refl, sym, ◌∙◌, Bool, true, false, not, ◌||◌, Option, none, some,
  List, [], ◌∷◌, Bytes, codes, same, same_iff, if◌then◌else◌, Bool-cases, to_lower, pos, lt_int,
  le_int, arith,
}
use centralcloud_agent.Errors.{Result, ok, err}
use centralcloud_agent.Domain.Clock.{Time}
use centralcloud_agent.Domain.Model.{OpType}
use centralcloud_agent.Domain.Syntax.{uuid_re}
use centralcloud_agent.Storage.Tables.{Tables}
use centralcloud_agent.Runtime.{
  Env, World, Act, Limiter, continue, pure, asks, sample, now, fresh_id, ◌>>=◌,
}
use centralcloud_agent.Runtime.Keeps.{Keeps, OnTables, Keeps-pure}
use centralcloud_agent.Api.{Request, Response, Handler, write_raw, write, write_error}
use centralcloud_agent.Api.Requests.{age, fresh, mutation}
use centralcloud_agent.Api.Access.{
  Server, authentic, authenticate, limiter_of, limit, filter_source, source_allowed, is_open,
  correlate, with_context, identity,
}
use centralcloud_agent.Api.Handlers.{create, action, upgrade, admin_reset, purge_token, delete}
use centralcloud_agent.Api.Reading.{list, get}
use centralcloud_agent.Api.Routes.{
  Endpoint, at_health, at_ready, at_resources, at_deployments, at_metrics, at_unknown,
  at_deployment, at_upgrade, at_reset, at_token, at_logs, at_operation, at_action, is_get, is_post,
  is_delete, route, mux, handler, on_get, on_post, not_allowed,
}
use centralcloud_agent.Api.Keeps.{
  writer_rules, write_error-Kept, health-Kept, ready-Kept, resource-Kept, list-Kept, get-Kept,
  operation-Kept, logs-Kept, metrics-Kept,
}
use centralcloud_agent.Api.Keeps.Mutations.{limiter_of-Kept, correlate-Kept}

-- What the API asks of the headers of a request that changes something: an idempotency key and a
-- correlation identifier that are UUIDs, and a timestamp that the clock was within the skew of.
pub record Acceptable (env : Env) (req : Request) : Type 0 where
  pub key_is_uuid : uuid_re (to_lower req.headers.idempotency_key) ≡ true
  pub correlation_is_uuid : uuid_re (to_lower req.headers.correlation_id) ≡ true
  pub instant : Time
  pub parsed : env.http.parse_time req.headers.request_timestamp ≡ some instant
  pub positive_skew : le_int env.config.security.timestamp_skew (pos 0) ≡ false
  pub step : ℕ
  pub recent :
      lt_int env.config.security.timestamp_skew (pos (age (env.clock step) instant)) ≡ false

-- An action leaves the tables `t`, or `G` holds.
abbrev pub Accounted : {A : Type 0} → Type 0 → Tables → Result A × World → Type 0
Accounted G t out = (out.1.tables ≡ t) ⊎ G

module _ (env : Env) (w : World) (req : Request) (next : Act Response) where
  fresh-Accounted :
      (ts : Option Time)
      → env.http.parse_time req.headers.request_timestamp ≡ ts
      → uuid_re (to_lower req.headers.idempotency_key) ≡ true
      → uuid_re (to_lower req.headers.correlation_id) ≡ true
      → Accounted (Acceptable env req) w.tables (fresh req ts next env w)
  unfolding fresh ◌>>=◌ asks write_error write write_raw pure now sample
  fresh-Accounted none p k c = inl refl
  fresh-Accounted (some ts) p k c =
      elim (Bool-cases (le_int env.config.security.timestamp_skew (pos 0))) [
        | inl e ↦ inl (rw e refl)
        | inr e ↦
            elim (Bool-cases
              (lt_int env.config.security.timestamp_skew (pos (age (env.clock w.tick) ts)))) [
                | inl f ↦ inl (rw (e, f) refl)
                | inr f ↦ inr (record {
                  key_is_uuid = k;
                  correlation_is_uuid = c;
                  instant = ts;
                  parsed = p;
                  positive_skew = e;
                  step = w.tick;
                  recent = f;
                })
              ]
      ]

  mutation-Accounted : Accounted (Acceptable env req) w.tables (mutation req next env w)
  unfolding mutation ◌>>=◌ asks write_error write write_raw pure
  mutation-Accounted = elim (Bool-cases (uuid_re (to_lower req.headers.idempotency_key))) [
    | inl k ↦ elim (Bool-cases (uuid_re (to_lower req.headers.correlation_id))) [
      | inl c ↦ rw (k, c) (fresh-Accounted _ refl k c)
      | inr c ↦ inl (rw (k, c) refl)
    ]
    | inr k ↦ inl (rw k refl)
  ]

post_not_get :
    (m : Bytes)
    → same m (codes "POST") ≡ true
    → (same m (codes "GET") || same m (codes "HEAD")) ≡ false
unfolding same
post_not_get m h = rw ((same_iff m (codes "POST")).0 h) refl

-- An action that keeps every predicate of the tables leaves them.
pub unchanged :
    {A : Type 0} (m : Act A)
    → ((t : Tables) → Keeps (OnTables (λ u. u ≡ t)) m)
    → (env : Env) (w : World) → (m env w).1.tables ≡ w.tables
unchanged m k env w = ((k w.tables).at env w (record { holds = refl })).holds

-- What a request that changes the tables is, by its method and its headers.
pub record Changing (env : Env) (req : Request) : Type 0 where
  pub acceptable : Acceptable env req
  pub not_reading : is_get req ≡ false

module _ (env : Env) (w : World) (req : Request) where
  abbrev Explained : Act Response → Type 0
  Explained m = Accounted (Changing env req) w.tables (m env w)

  by_mutation : (next : Act Response) → is_get req ≡ false → Explained (mutation req next)
  by_mutation next g = elim (mutation-Accounted env w req next) [
    | inl same_tables ↦ inl same_tables
    | inr a ↦ inr (record { acceptable = a; not_reading = g })
  ]

  by_post :
      (next : Act Response) → Explained (if is_post req then mutation req next else not_allowed req)
  by_post next = elim (Bool-cases (is_post req)) [
    | inl p ↦ rw p (by_mutation next (post_not_get req.method p))
    | inr p ↦ inl (rw p (unchanged (not_allowed req) (λ t. write_error-Kept req _ _ _) env w))
  ]

  pub route-Explained : (e : Endpoint) → Explained (route e req)
  unfolding route create action upgrade admin_reset purge_token delete
  route-Explained at_health =
      inl (unchanged (route at_health req) (λ t. search (writer_rules, health-Kept)) env w)
  route-Explained at_ready =
      inl (unchanged (route at_ready req) (λ t. search (writer_rules, ready-Kept)) env w)
  route-Explained at_resources =
      inl (unchanged (route at_resources req) (λ t. search (writer_rules, resource-Kept)) env w)
  route-Explained at_metrics =
      inl (unchanged (route at_metrics req) (λ t. search (writer_rules, metrics-Kept)) env w)
  route-Explained at_unknown =
      inl (unchanged (route at_unknown req) (λ t. search writer_rules) env w)
  route-Explained (at_logs id) =
      inl (unchanged (route (at_logs id) req) (λ t. search (writer_rules, logs-Kept)) env w)
  route-Explained (at_operation id) =
      inl
        (unchanged (route (at_operation id) req) (λ t. search (writer_rules, operation-Kept)) env w)
  route-Explained (at_action typ id) = by_post _
  route-Explained (at_upgrade id) = by_post _
  route-Explained (at_reset id) = by_post _
  route-Explained (at_token id) = by_post _
  route-Explained at_deployments = elim (Bool-cases (is_get req)) [
    | inl g ↦ inl (rw g (unchanged (list req) (λ t. list-Kept req) env w))
    | inr g ↦ rw g (by_post _)
  ]
  route-Explained (at_deployment id) = elim (Bool-cases (is_get req)) [
    | inl g ↦ inl (rw g (unchanged (get id req) (λ t. get-Kept id req) env w))
    | inr g ↦ elim (Bool-cases (is_delete req)) [
      | inl d ↦ rw (g, d) (by_mutation _ g)
      | inr d ↦
          inl (rw (g, d) (unchanged (not_allowed req) (λ t. write_error-Kept req _ _ _) env w))
    ]
  ]
