-- ===== src/Runtime/Keeps.antt =====
-- Invariants of actions: one rule for each way in which Runtime builds an action.
use centralcloud_agent.Prelude.{
  ℕ, ◌≡◌, refl, Bool, true, false, Option, none, some, List, if◌then◌else◌, subst, suc,
}
use centralcloud_agent.Errors.{Err, Result, ok, err}
use centralcloud_agent.Domain.Model.{Call}
use centralcloud_agent.Storage.Tables.{Tables}
use centralcloud_agent.Runtime.{
  Env, World, Event, Act, continue, pure, raise, lift, asks, sample, attempt, ignore, statement,
  settle, answer, restore, begin, transaction, skip, invoke, invoke_for, now, fresh_id, signal,
  check, refuse_if, ◌>>=◌, ◌>>◌,
}

ok-injective : {A : Type 0} (a b : A) → ok a ≡ ok b → a ≡ b
ok-injective a b e = cc

-- `m` keeps `P`, whether it returns or fails.
pub record Keeps {A : Type 0} (P : World → Type 0) (m : Act A) : Type 0 where
  pub at : (env : Env) (w : World) → P w → P (m env w).1

-- `m` keeps `P`, and what it returns satisfies `Q`.
pub record Ensures {A : Type 0} (P : World → Type 0) (Q : A → Type 0) (m : Act A) : Type 0 where
  pub kept : (env : Env) (w : World) → P w → P (m env w).1
  pub result : (env : Env) (w : World) → P w → (a : A) → (m env w).0 ≡ ok a → Q a

module _ {P : World → Type 0} {A : Type 0} where
  pub Keeps-pure : (a : A) → Keeps P (pure a)
  unfolding pure
  Keeps-pure a = record { at = λ env w h. h }

  pub Keeps-raise : (e : Err) → Keeps P (raise {A = A} e)
  unfolding raise
  Keeps-raise e = record { at = λ env w h. h }

  pub Keeps-lift : (r : Result A) → Keeps P (lift r)
  unfolding lift
  Keeps-lift r = record { at = λ env w h. h }

  pub Keeps-asks : (f : Env → A) → Keeps P (asks f)
  unfolding asks
  Keeps-asks f = record { at = λ env w h. h }

  pub Keeps-attempt : (m : Act A) → Keeps P m → Keeps P (attempt m)
  unfolding attempt
  Keeps-attempt m k = record { at = λ env w h. k.at env w h }

  pub Keeps-ignore : (m : Act A) → Keeps P m → Keeps P (ignore m)
  unfolding ignore
  Keeps-ignore m k = record { at = λ env w h. k.at env w h }

  pub Keeps-if : (b : Bool) (m n : Act A) → Keeps P m → Keeps P n → Keeps P (if b then m else n)
  Keeps-if true m n km kn = km
  Keeps-if false m n km kn = kn

  pub Keeps-of_Ensures : {Q : A → Type 0} (m : Act A) → Ensures P Q m → Keeps P m
  Keeps-of_Ensures m e = record { at = e.kept }

module _ {P : World → Type 0} where
  pub Keeps-check : (o : Option Err) → Keeps P (check o)
  Keeps-check none = Keeps-pure tt
  Keeps-check (some e) = Keeps-raise e

  pub Keeps-refuse_if : (b : Bool) (e : Err) → Keeps P (refuse_if b e)
  Keeps-refuse_if true e = Keeps-raise e
  Keeps-refuse_if false e = Keeps-pure tt

module _ {P : World → Type 0} {A B : Type 0} where
  pub Keeps-bind :
      (m : Act A) (f : A → Act B) → Keeps P m → ((a : A) → Keeps P (f a)) → Keeps P (m >>= f)
  unfolding ◌>>=◌
  Keeps-bind m f km kf = record {
    at = λ env w h. after (m env w).0 env (m env w).1 (km.at env w h);
  }
    where
      after : (r : Result A) (env : Env) (w : World) → P w → P (continue r f env w).1
      after (ok a) env w h = (kf a).at env w h
      after (err e) env w h = h

  -- The rest of the block may use what the first action returned.
  pub Keeps-bind_Ensures :
      {Q : A → Type 0} (m : Act A) (f : A → Act B)
      → Ensures P Q m
      → ((a : A) → Q a → Keeps P (f a))
      → Keeps P (m >>= f)
  unfolding ◌>>=◌
  Keeps-bind_Ensures {Q} m f km kf = record {
    at = λ env w h. after (m env w).0 env (m env w).1 (km.kept env w h) (km.result env w h);
  }
    where
      after :
          (r : Result A) (env : Env) (w : World)
          → P w
          → ((a : A) → r ≡ ok a → Q a)
          → P (continue r f env w).1
      after (ok a) env w h q = (kf a (q a refl)).at env w h
      after (err e) env w h q = h

  pub Ensures-bind :
      {Q : A → Type 0} {R : B → Type 0} (m : Act A) (f : A → Act B)
      → Ensures P Q m
      → ((a : A) → Q a → Ensures P R (f a))
      → Ensures P R (m >>= f)
  unfolding ◌>>=◌
  Ensures-bind {Q} {R} m f km kf = record {
    kept = λ env w h. kept (m env w).0 env (m env w).1 (km.kept env w h) (km.result env w h);
    result = λ env w h. result (m env w).0 env (m env w).1 (km.kept env w h) (km.result env w h);
  }
    where
      kept :
          (r : Result A) (env : Env) (w : World)
          → P w
          → ((a : A) → r ≡ ok a → Q a)
          → P (continue r f env w).1
      kept (ok a) env w h q = (kf a (q a refl)).kept env w h
      kept (err e) env w h q = h

      result :
          (r : Result A) (env : Env) (w : World)
          → P w
          → ((a : A) → r ≡ ok a → Q a)
          → (b : B) → (continue r f env w).0 ≡ ok b
          → R b
      result (ok a) env w h q b p = (kf a (q a refl)).result env w h b p
      result (err e) env w h q b no_result = cc

module _ {P : World → Type 0} {A : Type 0} {Q : A → Type 0} where
  pub Ensures-pure : (a : A) → Q a → Ensures P Q (pure a)
  unfolding pure
  Ensures-pure a q = record {
    kept = λ env w h. h;
    result = λ env w h b e. subst Q (ok-injective a b e) q;
  }

  pub Ensures-raise : (e : Err) → Ensures P Q (raise e)
  unfolding raise
  Ensures-raise e = record { kept = λ env w h. h; result = λ env w h b p. cc }

  pub Ensures-if :
      (b : Bool) (m n : Act A) → Ensures P Q m → Ensures P Q n → Ensures P Q (if b then m else n)
  Ensures-if true m n km kn = km
  Ensures-if false m n km kn = kn

-- An invariant of the tables, and one of the calls that were made.
pub record OnTables (Q : Tables → Type 0) (w : World) : Type 0 where
  pub holds : Q w.tables

pub record OnTrace (T : List Event → Type 0) (w : World) : Type 0 where
  pub holds : T w.trace

-- What a statement's query does to an invariant: an error leaves the tables.
abbrev pub AfterQuery : {A : Type 0} → (Tables → Type 0) → Result (A × Tables) → Type 0
AfterQuery Q (ok (a, t)) = Q t
AfterQuery Q (err e) = Unit

answer-tables : (o : Option Err) (c : Call) (w : World) → (answer o c w).1.tables ≡ w.tables
answer-tables none c w = refl
answer-tables (some e) c w = refl

module _ (Q : Tables → Type 0) {A : Type 0} where
  after_settle :
      (o : Option Err) (r : Result (A × Tables)) (w : World)
      → Q w.tables
      → AfterQuery Q r
      → Q (settle o r w).1.tables
  after_settle none (ok (a, t)) w h k = k
  after_settle none (err e) w h k = h
  after_settle (some e) r w h k = h

  restore-Kept :
      (saved : Tables) (r : Result A × World)
      → Q saved
      → Q r.1.tables
      → Q (restore saved r).1.tables
  restore-Kept saved (ok a, w) h k = k
  restore-Kept saved (err e, w) h k = h

module _ {Q : Tables → Type 0} {A : Type 0} where
  pub Keeps-statement :
      (q : Tables → Result (A × Tables))
      → ((t : Tables) → Q t → AfterQuery Q (q t))
      → Keeps (OnTables Q) (statement q)
  unfolding statement
  Keeps-statement q k = record {
    at = λ env w h. record {
      holds =
          after_settle Q (env.sql_failure w.tick) (q w.tables) (record w { tick = suc w.tick })
            h.holds (k w.tables h.holds);
    };
  }

  -- A statement that only reads.
  pub Keeps-read : (f : Tables → A) → Keeps (OnTables Q) (statement (λ t. ok (f t, t)))
  Keeps-read f = Keeps-statement _ (λ t h. h)

  pub Keeps-sample : (f : Env → ℕ → A) → Keeps (OnTables Q) (sample f)
  unfolding sample
  Keeps-sample f = record { at = λ env w h. record { holds = h.holds } }

module _ {Q : Tables → Type 0} where
  pub Keeps-skip : Keeps (OnTables Q) skip
  unfolding skip
  Keeps-skip = Keeps-read (λ t. tt)

module _ {Q : Tables → Type 0} {A : Type 0} where
  pub Keeps-begin : (m : Act A) → Keeps (OnTables Q) m → Keeps (OnTables Q) (begin m)
  unfolding begin
  Keeps-begin m k = record {
    at = λ env w h. record { holds = restore-Kept Q w.tables _ h.holds (inner.at env w h).holds };
  }
    where
      inner : Keeps (OnTables Q) (do skip; m)
      inner = Keeps-bind _ _ Keeps-skip λ _. k

  pub Keeps-transaction : (m : Act A) → Keeps (OnTables Q) m → Keeps (OnTables Q) (transaction m)
  unfolding transaction
  Keeps-transaction m k = record {
    at = λ env w h. record { holds = restore-Kept Q w.tables _ h.holds (inner.at env w h).holds };
  }
    where
      inner : Keeps (OnTables Q) (do skip; a ← m; skip; pure a)
      inner =
          Keeps-bind _ _ Keeps-skip
            λ _. Keeps-bind _ _ k λ a. Keeps-bind _ _ Keeps-skip λ _. Keeps-pure a

module _ {Q : Tables → Type 0} where
  pub Keeps-invoke : (c : Call) → Keeps (OnTables Q) (invoke c)
  unfolding invoke
  Keeps-invoke c = record {
    at = λ env w h. record { holds = rw (answer-tables (env.call_failure w.tick c) c w) h.holds };
  }

  pub Keeps-signal : Keeps (OnTables Q) signal
  unfolding signal
  Keeps-signal = record { at = λ env w h. record { holds = h.holds } }

  pub Keeps-now : Keeps (OnTables Q) now
  unfolding now
  Keeps-now = Keeps-sample _

  pub Keeps-fresh_id : Keeps (OnTables Q) fresh_id
  unfolding fresh_id
  Keeps-fresh_id = Keeps-sample _

module _ {Q : Tables → Type 0} {A : Type 0} where
  pub Keeps-invoke_for : (c : Call) (f : Env → ℕ → A) → Keeps (OnTables Q) (invoke_for c f)
  unfolding invoke_for
  Keeps-invoke_for c f = record {
    at = λ env w h.
        (Keeps-bind (invoke c) (λ _. pure (f env w.tick)) (Keeps-invoke c) (λ _. Keeps-pure _)).at
          env w h;
  }

pub ruleset keeps_rules = (
  Keeps-pure, Keeps-raise, Keeps-lift, Keeps-asks, Keeps-attempt, Keeps-ignore, Keeps-if,
  Keeps-check, Keeps-refuse_if, Keeps-bind,
)

pub ruleset tables_rules = (
  keeps_rules, Keeps-read, Keeps-sample, Keeps-skip, Keeps-begin, Keeps-transaction, Keeps-invoke,
  Keeps-signal, Keeps-now, Keeps-fresh_id, Keeps-invoke_for,
)
