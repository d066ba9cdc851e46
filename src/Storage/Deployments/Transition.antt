-- ===== src/Storage/Deployments/Transition.antt =====
-- UpdateState of internal/storage/sqlite.go: what it leaves when it succeeds and when it fails.
use centralcloud_agent.Prelude.{
  ◌≡◌, refl, Bool, true, false, ◌||◌, Option, none, some, List, [], ◌∷◌, Bytes, arith,
  if◌then◌else◌, sym,
}
use centralcloud_agent.Errors.{Err, Result, ok, err}
use centralcloud_agent.Domain.Clock.{format_time}
use centralcloud_agent.Domain.State.{State, same_state, can_transition, validate_transition}
use centralcloud_agent.Storage.Tables.{Tables, DeploymentRow, select, update}
use centralcloud_agent.Storage.Deployments.{
  has_id, update_state, update_state_body, check_transition, or_not_found,
}
use centralcloud_agent.Runtime.{Env, World, Act, restore, transaction, check, pure}
use centralcloud_agent.Runtime.Yields.{
  Yields, Yields-bind, Yields-query, Yields-now, Yields-check, Yields-transaction, Yields-pure,
  Yields-raise,
}

-- What UpdateState leaves of the tables `t`: the row of the deployment, its transition allowed, has
-- the new state; or the tables are as they were.
pub record Moved (id : Bytes) (to : State) (t u : Tables) : Type 0 where
  pub row : DeploymentRow
  pub found : select (has_id id) t.deployments ≡ some row
  pub allowed : same_state row.state to || can_transition row.state to ≡ true
  pub new_row : DeploymentRow
  pub stored : select (has_id id) u.deployments ≡ some new_row
  pub new_state : new_row.state ≡ to

abbrev pub Outcome : Bytes → State → Tables → Result (Unit {0}) × World → Type 0
Outcome id to t (ok a, w) = Moved id to t w.tables
Outcome id to t (err e, w) = w.tables ≡ t

pub select-update :
    {A : Type 0} (p : A → Bool) (f : A → A) (xs : List A) (a : A)
    → ((b : A) → p b ≡ true → p (f b) ≡ true)
    → select p xs ≡ some a
    → select p (update p f xs) ≡ some (f a)
unfolding select update
select-update p f [] a h e = cc
select-update p f (x ∷ xs) a h e = ground (arith, h x, select-update p f xs a h)

module _ (id : Bytes) (to : State) (t : Tables) where
  -- The row that the first statement found, and the tables still those at the start.
  abbrev Read : DeploymentRow → Tables → Type 0
  Read r u = u ≡ t × select (has_id id) t.deployments ≡ some r

  abbrev Checked : DeploymentRow → Tables → Type 0
  Checked r u = Read r u × same_state r.state to || can_transition r.state to ≡ true

  or_not_found-Yields :
      (o : Option DeploymentRow)
      → Yields
          (λ w. w.tables ≡ t × o ≡ select (has_id id) t.deployments)
          (λ r w. Read r w.tables)
          (or_not_found o)
  or_not_found-Yields none = Yields-raise _
  or_not_found-Yields (some r) = Yields-pure r (λ w h. (h.0, sym h.1))

  transition_checked :
      (from : State) → validate_transition from to ≡ none → can_transition from to ≡ true
  unfolding validate_transition
  transition_checked from h = ground arith

  check_transition-Yields :
      (r : DeploymentRow)
      → Yields (λ w. Read r w.tables) (λ a w. Checked r w.tables) (check_transition r.state to)
  check_transition-Yields r = split (same_state r.state to) refl
    where
      split :
          (b : Bool)
          → same_state r.state to ≡ b
          → Yields
              (λ w. Read r w.tables)
              (λ a w. Checked r w.tables)
              (if b then pure tt else check (validate_transition r.state to))
      split true e = Yields-pure tt (λ w h. (h, rw e refl))
      split false e = record {
        at = λ env w a h p.
            let c = (Yields-check (Read r) (validate_transition r.state to)).at env w a h p in
            (c.0, rw (e, transition_checked r.state c.1) refl);
      }

  moved :
      (r q : DeploymentRow) (u : Tables)
      → Checked r t
      → select (has_id id) u.deployments ≡ some q
      → q.state ≡ to
      → Moved id to t u
  moved r q u h e f = record {
    row = r;
    found = h.0.1;
    allowed = h.1;
    new_row = q;
    stored = e;
    new_state = f;
  }

  body-Yields :
      (failed_step : Bytes)
      → Yields
          (λ w. w.tables ≡ t)
          (λ a w. Moved id to t w.tables)
          (update_state_body id to failed_step)
  body-Yields failed_step =
      Yields-bind _ _
        (Yields-query (λ u. u ≡ t) (λ o u. u ≡ t × o ≡ select (has_id id) t.deployments) _
          (λ u h. (h, rw h refl)))
        λ o. Yields-bind _ _ (or_not_found-Yields o) λ r.
          Yields-bind _ _ (check_transition-Yields r) λ _.
            Yields-bind _ _ (Yields-now (Checked r)) λ time.
              Yields-bind _ _
                (Yields-query (Checked r) (λ _ u. Moved id to t u) _
                  λ u h.
                    moved r _ _ ((refl, h.0.1), h.1)
                      (select-update (has_id id)
                        (λ q. record q {
                          state = to;
                          failed_step = failed_step;
                          updated_at = format_time time;
                        })
                        u.deployments r (λ b e. e) (rw h.0.0 h.0.1))
                      refl)
                λ _.
                  Yields-query (Moved id to t) (λ _ u. Moved id to t u) _
                    (λ u h. record {
                      row = h.row;
                      found = h.found;
                      allowed = h.allowed;
                      new_row = h.new_row;
                      stored = h.stored;
                      new_state = h.new_state;
                    })

-- A transaction that fails leaves the tables as they were.
pub transaction_undone :
    {A : Type 0} (m : Act A) (env : Env) (w : World) (e : Err)
    → (transaction m env w).0 ≡ err e
    → (transaction m env w).1.tables ≡ w.tables
unfolding transaction
transaction_undone {A} m env w e h = undone w.tables _ h
  where
    undone :
        (saved : Tables) (r : Result A × World)
        → (restore saved r).0 ≡ err e
        → (restore saved r).1.tables ≡ saved
    undone saved (err f, w) h = refl
    undone saved (ok a, w) h = cc

outcome :
    (id : Bytes) (to : State) (t : Tables) (r : Result (Unit {0}) × World)
    → ((a : Unit {0}) → r.0 ≡ ok a → Moved id to t r.1.tables)
    → ((e : Err) → r.0 ≡ err e → r.1.tables ≡ t)
    → Outcome id to t r
outcome id to t (ok a, w) h k = h a refl
outcome id to t (err e, w) h k = k e refl

-- Whatever UpdateState meets, its outcome is one of two. It returns: then the deployment was there,
-- its transition to the new state is one of the table (or it was in this state), and its row has the
-- new state. Or it fails, and the tables, the audit included, are as they were.
pub update_state-Outcome :
    (id : Bytes) (to : State) (failed_step : Bytes) (env : Env) (w : World)
    → Outcome id to w.tables (update_state id to failed_step env w)
unfolding update_state
update_state-Outcome id to failed_step env w =
    outcome id to w.tables (update_state id to failed_step env w)
      (λ a e.
        (Yields-transaction (λ u. u ≡ w.tables) (λ a u. Moved id to w.tables u) _
            (body-Yields id to w.tables failed_step)).at
          env w a refl e)
      (λ f e. transaction_undone (update_state_body id to failed_step) env w f e)
