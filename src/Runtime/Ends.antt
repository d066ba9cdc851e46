-- ===== src/Runtime/Ends.antt =====
-- What holds of the calls made when an action ends, by its return or by its error.
use centralcloud_agent.Prelude.{◌≡◌, refl, ℕ, Bool, true, false, Option, none, some, List, ◌∷◌}
use centralcloud_agent.Errors.{Err, Result, ok, err}
use centralcloud_agent.Domain.Model.{Call}
use centralcloud_agent.Runtime.{
  Env, World, Event, Act, continue, pure, raise, lift, asks, attempt, ignore, answer, invoke,
  invoke_for, check, refuse_if, ◌>>=◌,
}

abbrev pub event : Call → Bool → Event
event c b = record { call = c; succeeded = b }

abbrev pub Outcome :
    {A : Type 0}
    → (A → List Event → Type 0)
    → (List Event → Type 0)
    → Result A
    → List Event
    → Type 0
Outcome Q E (ok a) t = Q a t
Outcome Q E (err e) t = E t

-- From a trace in `P`, `m` returns `a` with a trace in `Q a`, or fails with one in `E`.
pub record Ends {A : Type 0} (P : List Event → Type 0) (Q : A → List Event → Type 0)
    (E : List Event → Type 0) (m : Act A) : Type 0 where
  pub at : (env : Env) (w : World) → P w.trace → Outcome Q E (m env w).0 (m env w).1.trace

module _ {P E : List Event → Type 0} {A : Type 0} {Q : A → List Event → Type 0} where
  pub Ends-pure : (a : A) → ((t : List Event) → P t → Q a t) → Ends P Q E (pure a)
  unfolding pure
  Ends-pure a k = record { at = λ env w h. k w.trace h }

  pub Ends-raise : (e : Err) → ((t : List Event) → P t → E t) → Ends P Q E (raise e)
  unfolding raise
  Ends-raise e k = record { at = λ env w h. k w.trace h }

  pub Ends-lift :
      (r : Result A)
      → ((a : A) (t : List Event) → P t → Q a t)
      → ((t : List Event) → P t → E t)
      → Ends P Q E (lift r)
  unfolding lift
  Ends-lift (ok a) f g = record { at = λ env w h. f a w.trace h }
  Ends-lift (err e) f g = record { at = λ env w h. g w.trace h }

  pub Ends-lift_err : (e : Err) → ((t : List Event) → P t → E t) → Ends P Q E (lift (err e))
  unfolding lift
  Ends-lift_err e g = record { at = λ env w h. g w.trace h }

  pub Ends-asks : (f : Env → A) → ((a : A) (t : List Event) → P t → Q a t) → Ends P Q E (asks f)
  unfolding asks
  Ends-asks f k = record { at = λ env w h. k (f env) w.trace h }

  pub Ends-weaken :
      {R S : List Event → Type 0} {T : A → List Event → Type 0} (m : Act A)
      → ((t : List Event) → P t → R t)
      → ((a : A) (t : List Event) → T a t → Q a t)
      → ((t : List Event) → S t → E t)
      → Ends R T S m
      → Ends P Q E m
  Ends-weaken {S} {T} m f g h k = record {
    at = λ env w p. move (m env w).0 (m env w).1.trace (k.at env w (f w.trace p));
  }
    where
      move : (r : Result A) (t : List Event) → Outcome T S r t → Outcome Q E r t
      move (ok a) t q = g a t q
      move (err e) t q = h t q

  -- The error of the action as a value: it does not fail.
  pub Ends-attempt :
      {F : List Event → Type 0} (m : Act A)
      → Ends P Q E m
      → Ends P (λ r t. Outcome Q E r t) F (attempt m)
  unfolding attempt
  Ends-attempt m k = record { at = λ env w p. k.at env w p }

module _ {P E : List Event → Type 0} {A B : Type 0} {Q : B → List Event → Type 0} where
  pub Ends-bind :
      {S : A → List Event → Type 0} (m : Act A) (f : A → Act B)
      → Ends P S E m
      → ((a : A) → Ends (S a) Q E (f a))
      → Ends P Q E (m >>= f)
  unfolding ◌>>=◌
  Ends-bind {S} m f km kf = record {
    at = λ env w p. after (m env w).0 env (m env w).1 (km.at env w p);
  }
    where
      after :
          (r : Result A) (env : Env) (w : World)
          → Outcome S E r w.trace
          → Outcome Q E (continue r f env w).0 (continue r f env w).1.trace
      after (ok a) env w s = (kf a).at env w s
      after (err e) env w s = s

module _ {P E : List Event → Type 0} {Q : Unit {0} → List Event → Type 0} where
  pub Ends-invoke :
      (c : Call)
      → ((t : List Event) → P t → Q tt (event c true ∷ t))
      → ((t : List Event) → P t → E (event c false ∷ t))
      → Ends P Q E (invoke c)
  unfolding invoke
  Ends-invoke c f g = record { at = λ env w p. answered (env.call_failure w.tick c) w p }
    where
      answered :
          (o : Option Err) (w : World)
          → P w.trace
          → Outcome Q E (answer o c w).0 (answer o c w).1.trace
      answered none w p = f w.trace p
      answered (some e) w p = g w.trace p

-- A fact that holds whatever the trace.
pub Ends-assume :
    {I E : List Event → Type 0} {F A : Type 0} {Q : A → List Event → Type 0} (m : Act A)
    → (F → Ends I Q E m)
    → Ends (λ t. I t × F) Q E m
Ends-assume m k = record { at = λ env w h. (k h.1).at env w h.0 }

pub Ends-check :
    {I : List Event → Type 0} {F : Type 0} (o : Option Err)
    → (o ≡ none → F)
    → Ends I (λ u t. I t × F) I (check o)
Ends-check none f = Ends-pure tt (λ t h. (h, f refl))
Ends-check (some e) f = Ends-raise e (λ t h. h)

-- The first part of a block keeps `I`.
pub Ends-then :
    {I : List Event → Type 0} {A B : Type 0} {Q : B → List Event → Type 0} (m : Act A)
    (f : A → Act B)
    → Ends I (λ a t. I t) I m
    → ((a : A) → Ends I Q I (f a))
    → Ends I Q I (m >>= f)
Ends-then m f km kf = Ends-bind m f km kf

-- `m` keeps `I`, however it ends.
abbrev pub Stays : {A : Type 0} → (List Event → Type 0) → Act A → Type 0
Stays I m = Ends I (λ a t. I t) I m

module _ {I : List Event → Type 0} {A : Type 0} where
  pub Stays-pure : (a : A) → Ends I (λ b t. I t) I (pure a)
  Stays-pure a = Ends-pure a (λ t h. h)

  pub Stays-raise : (e : Err) → Ends {A = A} I (λ b t. I t) I (raise e)
  Stays-raise e = Ends-raise e (λ t h. h)

  pub Stays-lift : (r : Result A) → Ends I (λ b t. I t) I (lift r)
  unfolding lift pure raise
  Stays-lift (ok a) = record { at = λ env w h. h }
  Stays-lift (err e) = record { at = λ env w h. h }

  pub Stays-asks : (f : Env → A) → Ends I (λ b t. I t) I (asks f)
  Stays-asks f = Ends-asks f (λ a t h. h)

  pub Stays-attempt : (m : Act A) → Ends I (λ b t. I t) I m → Ends I (λ b t. I t) I (attempt m)
  unfolding attempt
  Stays-attempt m k = record { at = λ env w h. either (m env w).0 (m env w).1.trace (k.at env w h) }
    where
      either : (r : Result A) (t : List Event) → Outcome (λ b t. I t) I r t → I t
      either (ok a) t h = h
      either (err e) t h = h

  pub Stays-ignore :
      {E : List Event → Type 0} (m : Act A)
      → Ends I (λ b t. I t) I m
      → Ends I (λ b t. I t) E (ignore m)
  unfolding ignore
  Stays-ignore m k = record { at = λ env w h. either (m env w).0 (m env w).1.trace (k.at env w h) }
    where
      either : (r : Result A) (t : List Event) → Outcome (λ b t. I t) I r t → I t
      either (ok a) t h = h
      either (err e) t h = h

  -- A call that returns a value.
  pub Stays-invoke_for :
      (c : Call) (f : Env → ℕ → A)
      → ((b : Bool) (t : List Event) → I t → I (event c b ∷ t))
      → Ends I (λ b t. I t) I (invoke_for c f)
  unfolding invoke_for
  Stays-invoke_for c f k = record {
    at = λ env w h.
        (Ends-bind (invoke c) (λ _. pure (f env w.tick)) (Ends-invoke c (k true) (k false))
            (λ _. Ends-pure _ (λ t i. i))).at
          env w h;
  }

module _ {I : List Event → Type 0} {A B : Type 0} where
  pub Stays-bind :
      (m : Act A) (f : A → Act B)
      → Ends I (λ a t. I t) I m
      → ((a : A) → Ends I (λ b t. I t) I (f a))
      → Ends I (λ b t. I t) I (m >>= f)
  Stays-bind m f km kf = Ends-bind m f km kf

module _ {I : List Event → Type 0} where
  pub Stays-invoke :
      (c : Call)
      → ((b : Bool) (t : List Event) → I t → I (event c b ∷ t))
      → Ends I (λ b t. I t) I (invoke c)
  Stays-invoke c k = Ends-invoke c (k true) (k false)

  pub Stays-check : (o : Option Err) → Ends I (λ b t. I t) I (check o)
  Stays-check none = Stays-pure tt
  Stays-check (some e) = Stays-raise e

  pub Stays-refuse_if : (b : Bool) (e : Err) → Ends I (λ u t. I t) I (refuse_if b e)
  Stays-refuse_if true e = Stays-raise e
  Stays-refuse_if false e = Stays-pure tt

pub ruleset stays_rules = (
  Stays-pure, Stays-raise, Stays-lift, Stays-asks, Stays-attempt, Stays-bind, Stays-check,
  Stays-refuse_if,
)
