-- ===== src/Runtime/Shows.antt =====
-- What an action's return tells of the answers from outside, and what it takes for a call to be made.
use centralcloud_agent.Prelude.{
  ℕ, ◌≡◌, refl, Bool, true, false, ◌⊎◌, inl, inr, Option, none, some, List, subst, ◌∙◌,
}
use centralcloud_agent.Errors.{Err, Result, ok, err}
use centralcloud_agent.Domain.Model.{Call}
use centralcloud_agent.Runtime.{
  Env, World, Event, Act, continue, pure, raise, attempt, answer, invoke, invoke_for, refuse_if,
  ◌>>=◌,
}
use centralcloud_agent.Runtime.Yields.{ok-injective}
use centralcloud_agent.Runtime.Ends.{Outcome, Stays}

-- If `m` returns `a` in an environment in `P`, then the environment satisfies `R a`.
pub record Shows {A : Type 0} (P : Env → Type 0) (R : Env → A → Type 0) (m : Act A) : Type 0 where
  pub at : (env : Env) (w : World) (a : A) → P env → (m env w).0 ≡ ok a → R env a

module _ {P : Env → Type 0} {A : Type 0} {R : Env → A → Type 0} where
  pub Shows-raise : (e : Err) → Shows P R (raise e)
  unfolding raise
  Shows-raise e = record { at = λ env w a p q. absurd cc }

  pub Shows-pure : (a : A) → ((env : Env) → P env → R env a) → Shows P R (pure a)
  unfolding pure
  Shows-pure a k = record { at = λ env w b p q. subst (R env) (ok-injective a b q) (k env p) }

  pub Shows-attempt :
      (m : Act A) → Shows P R m → Shows P (λ env r. (a : A) → r ≡ ok a → R env a) (attempt m)
  unfolding attempt
  Shows-attempt m k = record { at = λ env w r p q a e. k.at env w a p (ok-injective _ r q ∙ e) }

module _ {P : Env → Type 0} {A B : Type 0} {R : Env → B → Type 0} where
  pub Shows-bind :
      {S : Env → A → Type 0} (m : Act A) (f : A → Act B)
      → Shows P S m
      → ((a : A) → Shows (λ env. S env a) R (f a))
      → Shows P R (m >>= f)
  unfolding ◌>>=◌
  Shows-bind {S} m f km kf = record {
    at = λ env w b p. after env (m env w).0 (m env w).1 b (λ a. km.at env w a p);
  }
    where
      after :
          (env : Env) (r : Result A) (w : World) (b : B)
          → ((a : A) → r ≡ ok a → S env a)
          → (continue r f env w).0 ≡ ok b
          → R env b
      after env (ok a) w b s q = (kf a).at env w b (s a refl) q
      after env (err e) w b s q = absurd cc

module _ {P : Env → Type 0} {A : Type 0} where
  pub Shows-any : (m : Act A) → Shows P (λ env a. Unit {0}) m
  Shows-any m = record { at = λ env w a p q. tt }

  -- The value of a call is what the environment answers at some step.
  pub Shows-invoke_for :
      (c : Call) (f : Env → ℕ → A) → Shows P (λ env a. (n : ℕ) × (f env n ≡ a)) (invoke_for c f)
  unfolding invoke_for invoke ◌>>=◌ pure
  Shows-invoke_for c f = record {
    at = λ env w a p q. (w.tick, answered env w a (env.call_failure w.tick c) q);
  }
    where
      answered :
          (env : Env) (w : World) (a : A) (o : Option Err)
          → (continue (answer o c w).0 (λ u. pure (f env w.tick)) env (answer o c w).1).0 ≡ ok a
          → f env w.tick ≡ a
      answered env w a none q = ok-injective _ a q
      answered env w a (some e) q = absurd cc

module _ {P : Env → Type 0} {R : Env → Unit {0} → Type 0} where
  pub Shows-refuse_if :
      (b : Bool) (e : Err)
      → ((env : Env) → P env → b ≡ false → R env tt)
      → Shows P R (refuse_if b e)
  Shows-refuse_if true e k = Shows-raise e
  Shows-refuse_if false e k = Shows-pure tt (λ env p. k env p refl)

-- `m` keeps `I` of the trace, or the environment satisfies `G`.
pub record Unless {A : Type 0} (G : Env → Type 0) (I : List Event → Type 0) (m : Act A)
    : Type 0 where
  pub at : (env : Env) (w : World) → I w.trace → I (m env w).1.trace ⊎ G env

module _ (I : List Event → Type 0) {A : Type 0} where
  kept : (r : Result A) (t : List Event) → Outcome (λ a u. I u) I r t → I t
  kept (ok a) t h = h
  kept (err e) t h = h

module _ {G : Env → Type 0} {I : List Event → Type 0} {A : Type 0} where
  pub Unless-of_Stays : (m : Act A) → Stays I m → Unless G I m
  Unless-of_Stays m k = record {
    at = λ env w h. inl (kept I (m env w).0 (m env w).1.trace (k.at env w h));
  }

  pub Unless-attempt : (m : Act A) → Unless G I m → Unless G I (attempt m)
  unfolding attempt
  Unless-attempt m k = record { at = λ env w h. k.at env w h }

module _ {G : Env → Type 0} {I : List Event → Type 0} {A B : Type 0} where
  -- The first part of a block returns only if `G` holds.
  pub Unless-guard :
      (m : Act A) (f : A → Act B)
      → Stays I m
      → Shows (λ env. Unit {0}) (λ env a. G env) m
      → Unless G I (m >>= f)
  unfolding ◌>>=◌
  Unless-guard m f s g = record {
    at = λ env w h. after env (m env w).0 (m env w).1 (s.at env w h) (λ a q. g.at env w a tt q);
  }
    where
      after :
          (env : Env) (r : Result A) (w : World)
          → Outcome (λ a u. I u) I r w.trace
          → ((a : A) → r ≡ ok a → G env)
          → I (continue r f env w).1.trace ⊎ G env
      after env (ok a) w h g = inr (g a refl)
      after env (err e) w h g = inl h

  pub Unless-bind :
      (m : Act A) (f : A → Act B)
      → Unless G I m
      → ((a : A) → Unless G I (f a))
      → Unless G I (m >>= f)
  unfolding ◌>>=◌
  Unless-bind m f km kf = record {
    at = λ env w h. after env (m env w).0 (m env w).1 (km.at env w h);
  }
    where
      after :
          (env : Env) (r : Result A) (w : World)
          → I w.trace ⊎ G env
          → I (continue r f env w).1.trace ⊎ G env
      after env (ok a) w (inl h) = (kf a).at env w h
      after env (err e) w (inl h) = inl h
      after env r w (inr g) = inr g
