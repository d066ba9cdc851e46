-- ===== src/Api/Answers.antt =====
-- The answers of internal/api/server.go: that there is one, and which.
pub mod Routes
use centralcloud_agent.Prelude.{
  ℕ, ◌≡◌, refl, Bool, true, false, not, ◌&&◌, ◌||◌, Option, none, some, List, [], ◌∷◌, ◌==◌,
  if◌then◌else◌, Bool-cases, Bytes, codes, ℤ, arith,
}
use centralcloud_agent.Errors.{
  Err, Result, ok, err, is_error, not_found, conflict, capacity, message,
}
use centralcloud_agent.Contracts.Views.{View, error_view}
use centralcloud_agent.Domain.Clock.{Time}
use centralcloud_agent.Domain.Model.{Gauge, OpType}
use centralcloud_agent.Runtime.{
  Env, World, Act, Limiter, continue, pure, asks, sample, attempt, ignore, now, fresh_id, ◌>>=◌,
  ◌>>◌,
}
use centralcloud_agent.Api.{
  Request, Response, response, write_raw, write, write_error, classify, blames_request, shown,
  handle_error, or_error, gauge,
}

abbrev one_of : List ℕ → ℕ → Bool
one_of [] n = false
one_of (k ∷ ks) n = n == k || one_of ks n

-- The statuses of the API's answers.
abbrev pub is_status : ℕ → Bool
is_status n =
    one_of (200 ∷ 201 ∷ 202 ∷ 400 ∷ 401 ∷ 403 ∷ 404 ∷ 405 ∷ 409 ∷ 413 ∷ 415 ∷ 429 ∷ 500 ∷ 503 ∷ [])
      n

-- The answer to an error that is not the client's.
abbrev pub internal_error : Env → Bytes → Response
internal_error env cid = response 500 (
    env.http.marshal_view (
      error_view (record {
        code = codes "internal_error";
        message = codes "internal server error";
        correlation_id = cid;
      })))

-- The status is one of the API's, and the body of a 500 tells nothing of the error.
pub record Proper (env : Env) (r : Response) : Type 0 where
  pub known : is_status r.status ≡ true
  pub hides : r.status ≡ 500 → (cid : Bytes) × (r.body ≡ (internal_error env cid).body)

-- `m` returns, whatever the environment and the world.
pub record Returns {A : Type 0} (P : Env → A → Type 0) (m : Act A) : Type 0 where
  pub at : (env : Env) (w : World) → (a : A) × (((m env w).0 ≡ ok a) × P env a)

abbrev pub Total : {A : Type 0} → Act A → Type 0
Total m = Returns (λ env a. Unit) m

module _ {A : Type 0} where
  pub Total-asks : (f : Env → A) → Total (asks f)
  unfolding asks
  Total-asks f = record { at = λ env w. (f env, (refl, tt)) }

  pub Total-attempt : (m : Act A) → Total (attempt m)
  unfolding attempt
  Total-attempt m = record { at = λ env w. ((m env w).0, (refl, tt)) }

  pub Total-sample : (f : Env → ℕ → A) → Total (sample f)
  unfolding sample
  Total-sample f = record { at = λ env w. (f env w.tick, (refl, tt)) }

pub Total-now : Total now
unfolding now
Total-now = Total-sample _

pub Total-gauge : (g : Gauge) (v : ℤ) → Total (gauge g v)
unfolding gauge ignore
Total-gauge g v = record { at = λ env w. (tt, (refl, tt)) }

module _ {A B : Type 0} {P : Env → B → Type 0} where
  pub Returns-bind :
      (m : Act A) (f : A → Act B) → Total m → ((a : A) → Returns P (f a)) → Returns P (m >>= f)
  unfolding ◌>>=◌
  Returns-bind m f km kf = record {
    at = λ env w. after env (m env w).0 (m env w).1 (km.at env w).0 (km.at env w).1.0;
  }
    where
      after :
          (env : Env) (r : Result A) (w : World) (a : A)
          → r ≡ ok a
          → (b : B) × (((continue r f env w).0 ≡ ok b) × P env b)
      after env (ok x) w a e = (kf x).at env w
      after env (err x) w a no_value = absurd cc

module _ {A : Type 0} {P : Env → A → Type 0} where
  pub Returns-if :
      (b : Bool) (m n : Act A) → Returns P m → Returns P n → Returns P (if b then m else n)
  Returns-if true m n km kn = km
  Returns-if false m n km kn = kn

abbrev is_plain : ℕ → Bool
is_plain n = is_status n && not (n == 500)

abbrev pub Good : Act Response → Type 0
Good m = Returns Proper m

pub write_raw-Good : (status : ℕ) (b : Bytes) → is_plain status ≡ true → Good (write_raw status b)
unfolding write_raw pure
write_raw-Good status b h = record {
  at = λ env w. (
    response status b,
    (refl, record { known = ground (arith, h); hides = λ e. absurd (ground (arith, h, e)) }),
  );
}

pub write-Good : (status : ℕ) (v : View) → is_plain status ≡ true → Good (write status v)
unfolding write
write-Good status v h = Returns-bind _ _ (Total-asks _) λ http. write_raw-Good status _ h

pub write_error-Good :
    (req : Request) (status : ℕ) (code text : Bytes)
    → is_plain status ≡ true
    → Good (write_error req status code text)
unfolding write_error
write_error-Good req status code text h = write-Good status _ h

-- A 500 of handleError, whatever the error.
internal-Good :
    (req : Request)
    → Good (write_error req 500 (codes "internal_error") (codes "internal server error"))
unfolding write_error write write_raw pure asks ◌>>=◌
internal-Good req = record {
  at = λ env w. (
    internal_error env req.correlation,
    (refl, record { known = refl; hides = λ e. (req.correlation, refl) }),
  );
}

pub handle_error-Good : (req : Request) (e : Err) → Good (handle_error req e)
unfolding handle_error classify
handle_error-Good req e =
    by_class (is_error not_found e) (is_error conflict e) (is_error capacity e)
      (blames_request (message e)) refl refl refl refl
  where
    by_class :
        (a b c d : Bool)
        → is_error not_found e ≡ a
        → is_error conflict e ≡ b
        → is_error capacity e ≡ c
        → blames_request (message e) ≡ d
        → Good (handle_error req e)
    by_class true b c d p q r s = rw p (write_error-Good req _ _ _ refl)
    by_class false true c d p q r s = rw (p, q) (write_error-Good req _ _ _ refl)
    by_class false false true d p q r s = rw (p, q, r) (write_error-Good req _ _ _ refl)
    by_class false false false true p q r s = rw (p, q, r, s) (write_error-Good req _ _ _ refl)
    by_class false false false false p q r s = rw (p, q, r, s) (internal-Good req)

pub or_error-Good :
    {A : Type 0} (req : Request) (r : Result A) (next : A → Act Response)
    → ((a : A) → Good (next a))
    → Good (or_error req r next)
or_error-Good req (ok a) next k = k a
or_error-Good req (err e) next k = handle_error-Good req e

pub ruleset good_rules = (
  Total-asks, Total-attempt, Total-sample, Total-now, Total-gauge, Returns-bind, Returns-if,
  write_raw-Good, write-Good, write_error-Good, handle_error-Good, or_error-Good,
)
