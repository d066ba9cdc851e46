-- ===== src/Api/Keeps/Changes/Admitted.antt =====
-- What a request of internal/api/server.go has passed when it changes the database.
use centralcloud_agent.Prelude.{
  ◌≡◌, ◌≢◌, inl, inr, refl, suc, ◌∙◌, true, Bytes, Bool-cases, to_lower,
}
use centralcloud_agent.Errors.{Result, ok, err}
use centralcloud_agent.Storage.Tables.{Tables}
use centralcloud_agent.Runtime.{Env, World, Act, continue, pure, asks, sample, ◌>>=◌}
use centralcloud_agent.Runtime.Keeps.{Keeps, OnTables}
use centralcloud_agent.Api.{Request, Handler, write_raw, write, write_error}
use centralcloud_agent.Api.Access.{
  Server, authentic, authenticate, limiter_of, limit, filter_source, admits, correlate,
  with_context, identity,
}
use centralcloud_agent.Api.Routes.{mux, handler}
use centralcloud_agent.Api.Keeps.Mutations.{limiter_of-Kept, correlate-Kept}
use centralcloud_agent.Api.Keeps.Changes.{Changing, Accounted, unchanged, route-Explained}

-- The request comes from an allowed address and is authentic, and its method and headers are those
-- of a change.
pub record Admitted (env : Env) (s : Server) (req : Request) : Type 0 where
  pub from_source : admits env.packages env.http s req ≡ true
  pub is_authentic : authentic env.packages env.config s req ≡ true
  pub changing : Changing env req

-- None of it looks at the correlation identifier in the context.
in_context :
    (env : Env) (s : Server) (req : Request) (cid : Bytes)
    → Admitted env s (record req { correlation = cid })
    → Admitted env s req
unfolding authentic
in_context env s req cid a = record {
  from_source = a.from_source;
  is_authentic = a.is_authentic;
  changing = record {
    acceptable = record {
      key_is_uuid = a.changing.acceptable.key_is_uuid;
      correlation_is_uuid = a.changing.acceptable.correlation_is_uuid;
      instant = a.changing.acceptable.instant;
      parsed = a.changing.acceptable.parsed;
      positive_skew = a.changing.acceptable.positive_skew;
      step = a.changing.acceptable.step;
      recent = a.changing.acceptable.recent;
    };
    not_reading = a.changing.not_reading;
  };
}

-- An action that leaves the tables, before one that accounts for what it does.
Accounted-bind :
    {A B : Type 0} (G : Type 0) (t : Tables) (m : Act A) (f : A → Act B)
    → ((u : Tables) → Keeps (OnTables (λ v. v ≡ u)) m)
    → (env : Env) (w : World) → w.tables ≡ t
    → ((a : A) (w' : World) → w'.tables ≡ t → Accounted G t (f a env w'))
    → Accounted G t ((m >>= f) env w)
unfolding ◌>>=◌
Accounted-bind {A} G t m f k env w e next =
    then_next (m env w).0 (m env w).1 (unchanged m k env w ∙ e)
  where
    then_next : (r : Result A) (w' : World) → w'.tables ≡ t → Accounted G t (continue r f env w')
    then_next (ok a) w' h = next a w' h
    then_next (err x) w' h = inl h

-- What follows an action and leaves its world.
Accounted-pure :
    {A B : Type 0} (G : Type 0) (t : Tables) (f : A → B) (env : Env) (r : Result A) (w : World)
    → Accounted G t (r, w)
    → Accounted G t (continue r (λ a. pure (f a)) env w)
unfolding pure
Accounted-pure G t f env (ok a) w h = h
Accounted-pure G t f env (err e) w h = h

-- The same account, of tables that are equal, and of a reason that the first one implies.
moved :
    {A : Type 0} (G H : Type 0) (t u : Tables) (m : Act A) (env : Env) (w : World)
    → t ≡ u
    → (G → H)
    → Accounted G t (m env w)
    → Accounted H u (m env w)
moved G H t u m env w e f account = elim account [ inl h ↦ inl (h ∙ e) | inr g ↦ inr (f g) ]

module _ (env : Env) (s : Server) (req : Request) (w : World) where
  abbrev Explained : Handler → Type 0
  Explained h = Accounted (Admitted env s req) w.tables (h req env w)

  authenticate-Explained :
      admits env.packages env.http s req ≡ true → Explained (authenticate s mux)
  unfolding authenticate mux write_error write write_raw pure ◌>>=◌ asks
  authenticate-Explained source = elim (Bool-cases (authentic env.packages env.config s req)) [
    | inl a ↦ rw a (elim (route-Explained env w req _) [
      | inl same_tables ↦ inl same_tables
      | inr c ↦ inr (record { from_source = source; is_authentic = a; changing = c })
    ])
    | inr a ↦ inl (rw a refl)
  ]

module _ (env : Env) (s : Server) (req : Request) where
  limit-Explained :
      (w : World)
      → admits env.packages env.http s req ≡ true
      → Explained env s req w (limit (authenticate s mux))
  unfolding limit write_error write write_raw pure ◌>>=◌ asks sample
  limit-Explained w source =
      Accounted-bind _ w.tables (limiter_of (identity env.http req)) _ (λ u. limiter_of-Kept _) env
        w refl
        λ l w' h. elim (Bool-cases (env.allows w'.tick l)) [
          | inl a ↦ rw a (
              moved _ _ w'.tables w.tables (authenticate s mux req) env
                (record w' { tick = suc w'.tick }) h (λ g. g)
                (authenticate-Explained env s req (record w' { tick = suc w'.tick }) source))
          | inr a ↦ inl (rw a h)
        ]

  filter_source-Explained :
      (w : World) → Explained env s req w (filter_source s (limit (authenticate s mux)))
  unfolding filter_source write_error write write_raw pure ◌>>=◌ asks
  filter_source-Explained w = elim (Bool-cases (admits env.packages env.http s req)) [
    | inl a ↦ rw a (limit-Explained w a)
    | inr a ↦ inl (rw a refl)
  ]

served : (env : Env) (s : Server) (req : Request) (w : World) → Explained env s req w (handler s)
unfolding handler with_context ◌>>=◌
served env s req w =
    Accounted-bind _ w.tables (correlate (to_lower req.headers.correlation_id)) _
      (λ u. correlate-Kept _) env w refl
      λ cid w' h. Accounted-pure _ w.tables _ env _ _ (
        moved _ _ w'.tables w.tables
          (filter_source s (limit (authenticate s mux)) (record req { correlation = cid })) env w' h
          (in_context env s req cid)
          (filter_source-Explained env s (record req { correlation = cid }) w'))

-- A request whose serving changes the database in any way came from an admitted source, was
-- authentic, was not a GET or HEAD, and carried an idempotency key and a correlation identifier
-- that are UUIDs with a timestamp within the skew of a reading of the clock.
pub handler-Admitted :
    (env : Env) (s : Server) (req : Request) (w : World)
    → (handler s req env w).1.tables ≢ w.tables
    → Admitted env s req
handler-Admitted env s req w changed = elim (served env s req w) [
  | inl same_tables ↦ absurd (changed same_tables)
  | inr a ↦ a
]
