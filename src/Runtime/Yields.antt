-- ===== src/Runtime/Yields.antt =====
-- What holds when an action returns: a postcondition on its result and the world it leaves.
use centralcloud_agent.Prelude.{◌≡◌, refl, Option, none, some, subst}
use centralcloud_agent.Errors.{Err, Result, ok, err}
use centralcloud_agent.Storage.Tables.{Tables}
use centralcloud_agent.Runtime.{
  Env, World, Act, continue, pure, raise, lift, attempt, check, statement, settle, transaction,
  restore, begin, skip, sample, now, ◌>>=◌, ◌>>◌,
}

-- If `m` returns `a` from a world in `P`, it leaves a world that `R a` holds of.
pub record Yields {A : Type 0} (P : World → Type 0) (R : A → World → Type 0) (m : Act A)
    : Type 0 where
  pub at : (env : Env) (w : World) (a : A) → P w → (m env w).0 ≡ ok a → R a (m env w).1

pub ok-injective : {A : Type 0} (a b : A) → ok a ≡ ok b → a ≡ b
ok-injective a b e = cc

abbrev pub Anything : World → Type 0
Anything w = Unit

module _ {A : Type 0} {P : World → Type 0} {R : A → World → Type 0} where
  pub Yields-raise : (e : Err) → Yields P R (raise e)
  unfolding raise
  Yields-raise e = record { at = λ env w a h p. cc }

  pub Yields-pure : (a : A) → ((w : World) → P w → R a w) → Yields P R (pure a)
  unfolding pure
  Yields-pure a k = record { at = λ env w b h p. pure_at w b h (ok-eq a b p) }
    where
      ok-eq : (a b : A) → ok a ≡ ok b → a ≡ b
      ok-eq a b e = cc

      pure_at : (w : World) (b : A) → P w → a ≡ b → R b w
      pure_at w b h e = rw (← e) (k w h)

module _ {A B : Type 0} {P : World → Type 0} {R : B → World → Type 0} where
  pub Yields-bind :
      {S : A → World → Type 0} (m : Act A) (f : A → Act B)
      → Yields P S m
      → ((a : A) → Yields (S a) R (f a))
      → Yields P R (m >>= f)
  unfolding ◌>>=◌
  Yields-bind {S} m f km kf = record {
    at = λ env w b h. after (m env w).0 env (m env w).1 b (λ a. km.at env w a h);
  }
    where
      after :
          (r : Result A) (env : Env) (w : World) (b : B)
          → ((a : A) → r ≡ ok a → S a w)
          → (continue r f env w).0 ≡ ok b
          → R b (continue r f env w).1
      after (ok a) env w b s p = (kf a).at env w b (s a refl) p
      after (err e) env w b s p = absurd (err≢ok e b p)
        where
          err≢ok : (e : Err) (b : B) → err e ≡ ok b → ⊥
          err≢ok e b q = cc

module _ {A : Type 0} {P : World → Type 0} (m : Act A) where
  pub Yields-any : Yields P (λ a w. Unit) m
  Yields-any = record { at = λ env w a h p. tt }

module _ {A B : Type 0} {P : World → Type 0} {R : B → World → Type 0} where
  -- The last part of a block is what counts.
  pub Yields-after :
      (m : Act A) (f : A → Act B) → ((a : A) → Yields Anything R (f a)) → Yields P R (m >>= f)
  Yields-after m f k = Yields-bind {S = λ a w. Unit} m f (Yields-any m) k

module _ {A : Type 0} {P : World → Type 0} {R : A → World → Type 0} where
  pub Yields-attempt :
      (m : Act A) → Yields P R m → Yields P (λ r w. (a : A) → r ≡ ok a → R a w) (attempt m)
  unfolding attempt
  Yields-attempt m k = record {
    at = λ env w r h p a e. k.at env w a h (same_result (m env w).0 r a p e);
  }
    where
      same_result : (q r : Result A) (a : A) → ok q ≡ ok r → r ≡ ok a → q ≡ ok a
      same_result q r a p e = cc

  -- Every action may be weakened in its precondition.
  pub Yields-given :
      {P' : World → Type 0} (m : Act A) → ((w : World) → P' w → P w) → Yields P R m → Yields P' R m
  Yields-given m f k = record { at = λ env w a h. k.at env w a (f w h) }

module _ {A : Type 0} {R : A → World → Type 0} where
  pub Yields-lift : (r : Result A) → Yields (λ w. (a : A) → r ≡ ok a → R a w) R (lift r)
  unfolding lift
  Yields-lift r = record { at = λ env w a h p. h a p }

-- What a query that succeeds leaves.
abbrev pub OkQuery : {A : Type 0} → (A → Tables → Type 0) → Result (A × Tables) → Type 0
OkQuery S (ok (a, t)) = S a t
OkQuery S (err e) = Unit

module _ {A : Type 0} (S : A → Tables → Type 0) where
  settled :
      (o : Option Err) (r : Result (A × Tables)) (w : World) (a : A)
      → OkQuery S r
      → (settle o r w).0 ≡ ok a
      → S a (settle o r w).1.tables
  settled none (ok (b, t)) w a k p = subst (λ c. S c t) (inner b a p) k
    where
      inner : (b a : A) → ok b ≡ ok a → b ≡ a
      inner b a e = cc
  settled none (err e) w a k p = absurd (none_ok e p)
    where
      none_ok : (e : Err) → err e ≡ ok a → ⊥
      none_ok e q = cc
  settled (some e) r w a k p = absurd (none_ok e p)
    where
      none_ok : (e : Err) → err e ≡ ok a → ⊥
      none_ok e q = cc

  pub Yields-statement :
      {P : World → Type 0} (q : Tables → Result (A × Tables))
      → ((t : Tables) → OkQuery S (q t))
      → Yields P (λ a w. S a w.tables) (statement q)
  unfolding statement
  Yields-statement q k = record {
    at = λ env w a h p. settled (env.sql_failure w.tick) (q w.tables) _ a (k w.tables) p;
  }

-- A transaction that returns has not been undone.
restored :
    {A : Type 0} (S : A → Tables → Type 0) (saved : Tables) (r : Result A × World) (a : A)
    → (restore saved r).0 ≡ ok a
    → (r.0 ≡ ok a → S a r.1.tables)
    → S a (restore saved r).1.tables
restored S saved (ok b, w) a p f = f p
restored S saved (err e, w) a p f = absurd (none_ok e p)
  where
    none_ok : (e : Err) → err e ≡ ok a → ⊥
    none_ok e q = cc

-- Conditions on the tables, through the actions of a transaction.
module _ (P : Tables → Type 0) where
  pub Yields-query :
      {A : Type 0} (S : A → Tables → Type 0) (q : Tables → Result (A × Tables))
      → ((t : Tables) → P t → OkQuery S (q t))
      → Yields (λ w. P w.tables) (λ a w. S a w.tables) (statement q)
  unfolding statement
  Yields-query S q k = record {
    at = λ env w a h p. settled S (env.sql_failure w.tick) (q w.tables) _ a (k w.tables h) p;
  }

module _ (P : Tables → Type 0) where
  pub Yields-now : Yields (λ w. P w.tables) (λ a w. P w.tables) now
  unfolding now sample
  Yields-now = record { at = λ env w a h p. h }

  pub Yields-check :
      (o : Option Err) → Yields (λ w. P w.tables) (λ a w. P w.tables × o ≡ none) (check o)
  unfolding pure
  Yields-check none = record { at = λ env w a h p. (h, refl) }
  Yields-check (some e) = Yields-raise e

  pub Yields-skip : Yields (λ w. P w.tables) (λ a w. P w.tables) skip
  unfolding skip
  Yields-skip = Yields-query P (λ u t. P t) _ (λ t h. h)

  pub Yields-begin :
      {A : Type 0} (S : A → Tables → Type 0) (m : Act A)
      → Yields (λ w. P w.tables) (λ a w. S a w.tables) m
      → Yields (λ w. P w.tables) (λ a w. S a w.tables) (begin m)
  unfolding begin
  Yields-begin {A} S m k = record {
    at = λ env w a h p. restored S w.tables ((do skip; m) env w) a p (inner.at env w a h);
  }
    where
      inner : Yields (λ w. P w.tables) (λ a w. S a w.tables) (do skip; m)
      inner = Yields-bind _ _ Yields-skip λ _. k

  pub Yields-transaction :
      {A : Type 0} (S : A → Tables → Type 0) (m : Act A)
      → Yields (λ w. P w.tables) (λ a w. S a w.tables) m
      → Yields (λ w. P w.tables) (λ a w. S a w.tables) (transaction m)
  unfolding transaction skip
  Yields-transaction {A} S m k = record {
    at = λ env w a h p.
        restored S w.tables ((do skip; b ← m; skip; pure b) env w) a p (inner.at env w a h);
  }
    where
      inner : Yields (λ w. P w.tables) (λ a w. S a w.tables) (do skip; a ← m; skip; pure a)
      inner = Yields-bind _ _ (Yields-query P (λ u t. P t) _ (λ t h. h)) λ _. Yields-bind _ _ k λ a.
          Yields-bind _ _ (Yields-query (S a) (λ u t. S a t) _ (λ t h. h))
            λ _. Yields-pure a (λ w h. h)
