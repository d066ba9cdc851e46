-- ===== src/Runtime.antt =====
-- The agent's collaborators and what it changes, and the actions that its methods are. A context's
-- deadline or cancellation shows as a failing statement or call.
pub mod Keeps
pub mod Yields
pub mod Ends
pub mod Shows
use centralcloud_agent.Prelude.{
  ℕ, suc, Bool, true, false, Option, none, some, List, [], ◌∷◌, Bytes, ℤ,
}
use centralcloud_agent.Errors.{Err, Result, ok, err}
use centralcloud_agent.Config.{Config}
use centralcloud_agent.Contracts.Views.{ResourceResponse}
use centralcloud_agent.Packages.{Packages}
use centralcloud_agent.Packages.Http.{Http, MetricsAnswer}
use centralcloud_agent.Domain.Clock.{Time}
use centralcloud_agent.Domain.Model.{Call, DeploymentNetworks}
use centralcloud_agent.Storage.Tables.{Tables}
use centralcloud_agent.Localstorage.Files.{FilePath, FileKind}
use centralcloud_agent.Postgres.Sql.{Catalogue}

-- rate.Limiter of golang.org/x/time/rate, by what it was made of
pub record Limiter : Type 0 where
  pub rate_per_second : ℤ
  pub burst : ℤ

-- Every answer from outside may depend on the number of the step that asks for it.
pub record Env : Type 0 where
  pub config : Config
  pub packages : Packages
  -- logging.Redact
  pub redact : Bytes → Bytes
  -- the SQL driver's failure of a statement
  pub sql_failure : ℕ → Option Err
  pub clock : ℕ → Time
  pub new_id : ℕ → Bytes
  -- a collaborator's failure of a call, and what the calls return otherwise
  pub call_failure : ℕ → Call → Option Err
  pub networks : ℕ → Bytes → DeploymentNetworks
  pub panel_directory : ℕ → Bytes → Bytes
  pub backup_path : ℕ → Bytes
  pub secret : ℕ → Bytes
  pub ciphertext : ℕ → Bytes → Bytes
  pub plaintext : ℕ → Bytes → Bytes
  pub secret_path : ℕ → Bytes → Bytes → Bytes
  pub resources : ℕ → ResourceResponse
  pub logs : ℕ → List Bytes × Time
  -- what PostgreSQL answers
  pub catalogue : ℕ → Catalogue
  -- what the operating system answers: the kind of a path, its text, and what its links lead to
  pub kind : ℕ → FilePath → FileKind
  pub content : ℕ → FilePath → Bytes
  pub resolved : ℕ → FilePath → FilePath
  -- syscall.Statfs of the storage: blocks, available blocks and their size; runtime.NumCPU
  pub statfs : ℕ → Result (ℕ × (ℕ × ℤ))
  pub cpu_count : ℕ
  -- the packages of the HTTP server, the files that it reads, the answers of its rate limiters
  pub http : Http
  pub file : ℕ → Bytes → Result Bytes
  pub allows : ℕ → Limiter → Bool
  pub metrics_answer : ℕ → MetricsAnswer

-- A call that was made, and whether it succeeded.
pub record Event : Type 0 where
  pub call : Call
  pub succeeded : Bool

-- The database, the number of steps taken, the calls made, the latest first, whether the channel
-- that wakes the workers holds a signal, and the rate limiters of the clients.
pub record World : Type 0 where
  pub tables : Tables
  pub tick : ℕ
  pub trace : List Event
  pub wake : Bool
  pub limiters : List (Bytes × Limiter)

abbrev pub Act : Type 0 → Type 0
Act A = Env → World → Result A × World

module _ {A : Type 0} where
  unfoldable pub pure : A → Act A
  pure a env w = (ok a, w)

  unfoldable pub raise : Err → Act A
  raise e env w = (err e, w)

  unfoldable pub lift : Result A → Act A
  lift r env w = (r, w)

  -- A value of the service's own fields.
  unfoldable pub asks : (Env → A) → Act A
  asks f env w = (ok (f env), w)

abbrev pub continue : {A B : Type 0} → Result A → (A → Act B) → Act B
continue (ok a) f env w = f a env w
continue (err e) f env w = (err e, w)

infixl 10 ◌>>=◌ ◌>>◌
unfoldable pub ◌>>=◌ : {A B : Type 0} → Act A → (A → Act B) → Act B
unfolding pure raise lift asks
◌>>=◌ m f env w = let (r, w') = m env w in continue r f env w'

abbrev pub ◌>>◌ : {A B : Type 0} → Act A → Act B → Act B
m >> n = m >>= λ _. n

module _ {A : Type 0} where
  -- A value that a collaborator hands out at this step.
  unfoldable pub sample : (Env → ℕ → A) → Act A
  sample f env w = (ok (f env w.tick), record w { tick = suc w.tick })

  -- `x, e := m()`, where the code looks at the error itself
  unfoldable pub attempt : Act A → Act (Result A)
  attempt m env w = let (r, w') = m env w in (ok r, w')

  -- `_ = m()`
  unfoldable pub ignore : Act A → Act (Unit {0})
  ignore m env w = let (r, w') = m env w in (ok tt, w')

  abbrev pub settle : Option Err → Result (A × Tables) → World → Result A × World
  settle (some e) r w = (err e, w)
  settle none (ok (a, t)) w = (ok a, record w { tables = t })
  settle none (err e) w = (err e, w)

  -- One SQL statement: the driver fails it, or it reads and writes the tables.
  unfoldable pub statement : (Tables → Result (A × Tables)) → Act A
  statement q env w = settle (env.sql_failure w.tick) (q w.tables) (record w { tick = suc w.tick })

  abbrev pub restore : Tables → Result A × World → Result A × World
  restore saved (ok a, w) = (ok a, w)
  restore saved (err e, w) = (err e, record w { tables = saved })

unfoldable pub skip : Act (Unit {0})
skip = statement (λ t. ok (tt, t))

-- BEGIN, the statements, COMMIT; the deferred ROLLBACK undoes them after an error.
unfoldable pub transaction : {A : Type 0} → Act A → Act A
unfolding skip
transaction m env w = restore w.tables ((do skip; a ← m; skip; pure a) env w)

-- BEGIN, and what follows up to its own COMMIT; the deferred ROLLBACK undoes it after an error.
unfoldable pub begin : {A : Type 0} → Act A → Act A
unfolding skip
begin m env w = restore w.tables ((do skip; m) env w)

abbrev pub made : Call → Bool → World → World
made c ok_ w = record w {
  tick = suc w.tick;
  trace = (record { call = c; succeeded = ok_ }) ∷ w.trace;
}

abbrev pub answer : Option Err → Call → World → Result (Unit {0}) × World
answer none c w = (ok tt, made c true w)
answer (some e) c w = (err e, made c false w)

-- A call of a collaborator that returns only an error.
unfoldable pub invoke : Call → Act (Unit {0})
invoke c env w = answer (env.call_failure w.tick c) c w

-- A call of a collaborator that returns a value too.
unfoldable pub invoke_for : {A : Type 0} → Call → (Env → ℕ → A) → Act A
unfolding invoke
invoke_for c f env w = (do invoke c; pure (f env w.tick)) env w

-- s.clock.Now()
unfoldable pub now : Act Time
unfolding sample
now = sample (λ env. env.clock)

-- s.ids.New()
unfoldable pub fresh_id : Act Bytes
unfolding sample
fresh_id = sample (λ env. env.new_id)

-- s.signal()
unfoldable pub signal : Act (Unit {0})
signal env w = (ok tt, record w { wake = true })

-- `if e != nil { return e }` for an error that a pure function returns
abbrev pub check : Option Err → Act (Unit {0})
check none = pure tt
check (some e) = raise e

-- `if b { return e }`
abbrev pub refuse_if : Bool → Err → Act (Unit {0})
refuse_if true e = raise e
refuse_if false e = pure tt
