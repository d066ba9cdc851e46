-- ===== src/Postgres/Session/Membership.antt =====
-- Giving and taking the options of a membership in internal/postgres/postgres.go.
use centralcloud_agent.Prelude.{
  ◌≡◌, refl, Bool, true, false, inl, inr, Option, none, some, List, ◌∷◌, Bytes, if◌then◌else◌,
}
use centralcloud_agent.Errors.{Err, Result, ok, err}
use centralcloud_agent.Domain.Model.{pg_query, pg_exec, pg_release}
use centralcloud_agent.Postgres.Sql.{ask_format, Statement, grant_membership}
use centralcloud_agent.Postgres.{
  run_formatted, with_connection, unless_exists, join_error, restored, restrict, wrap_error,
  set_role_option,
}
use centralcloud_agent.Postgres.Session.{is_pair, elevated, acting, stuck, Restricted, Settled}
use centralcloud_agent.Runtime.{Event, Act, check, ignore, invoke, lift, ◌>>◌}
use centralcloud_agent.Runtime.Ends.{
  Ends, Outcome, Stays, Ends-pure, Ends-raise, Ends-weaken, Ends-attempt, Ends-bind, Ends-invoke,
  Ends-then, Ends-lift, Ends-lift_err, Stays-ignore, Stays-invoke, Stays-invoke_for, stays_rules,
  event,
}

module _ {I : List Event → Type 0} where
  pub unless_exists-Stays :
      (b : Bool) (m n : Act (Unit {0})) → Stays I m → Stays I n → Stays I (unless_exists b m n)
  unless_exists-Stays true m n km kn = km
  unless_exists-Stays false m n km kn = kn

  pub run_formatted-Stays :
      (s : Statement)
      → ((b : Bool) (t : List Event) → I t → I (event (pg_query (ask_format s)) b ∷ t))
      → ((b : Bool) (t : List Event) → I t → I (event (pg_exec s) b ∷ t))
      → Stays I (run_formatted s)
  unfolding run_formatted
  run_formatted-Stays s f g = search (stays_rules, Stays-invoke)

pub ruleset session_rules =
    (stays_rules, Stays-invoke, Stays-invoke_for, unless_exists-Stays, run_formatted-Stays)

-- A flag that is cleared where the test holds, and was clear where it does not.
clear_if : (b x : Bool) → (b ≡ false → x ≡ false) → (if b then false else x) ≡ false
clear_if true x k = refl
clear_if false x k = k refl

-- A flag that is set where the test holds stays clear where it does not.
clear_unless : (b x : Bool) → x ≡ false → b ≡ false → (if b then true else x) ≡ false
clear_unless b x h e = rw (e, h) refl

pub join_error-Ends :
    (P : List Event → Type 0) (Q : Unit {0} → List Event → Type 0) (r : Result (Unit {0})) (e : Err)
    → Ends P Q P (join_error r e)
join_error-Ends P Q (ok u) e = Ends-raise _ (λ t h. h)
join_error-Ends P Q (err f) e = Ends-raise _ (λ t h. h)

module _ (role member : Bytes) where
  -- An action that leaves the membership restricted, or fails where it cannot.
  abbrev pub Clean : {A : Type 0} → Act A → Type 0
  Clean m = Ends (Restricted role member) (λ a t. Restricted role member t) (Settled role member) m

  module _ {A : Type 0} where
    pub Clean-of_Stays : (m : Act A) → Stays (Restricted role member) m → Clean m
    Clean-of_Stays m k = Ends-weaken m (λ t h. h) (λ a t h. h) (λ t h. inl h) k

  pub checked-Clean : (o : Option Err) → Clean (check o)
  checked-Clean none = Ends-pure _ (λ t h. h)
  checked-Clean (some e) = Ends-raise _ (λ t h. inl h)

  -- Taking and giving back the connection changes nothing of the session.
  pub with_connection-Clean : (m : Act (Unit {0})) → Clean m → Clean (with_connection m)
  unfolding with_connection
  with_connection-Clean m k =
      Ends-bind _ _ (Clean-of_Stays _ (search session_rules))
        λ _. Ends-bind _ _ (Ends-attempt _ k) release
    where
      release :
          (r : Result (Unit {0}))
          → Ends
              (Outcome (λ u t. Restricted role member t) (Settled role member) r)
              (λ u t. Restricted role member t)
              (Settled role member)
              (do ignore (invoke pg_release); lift r)
      release (ok u) =
          Ends-bind _ _ (Stays-ignore {I = Restricted role member} _ (search session_rules))
            λ _. Ends-lift _ (λ a t h. h) (λ t h. inl h)
      release (err e) =
          Ends-bind _ _ (Stays-ignore {I = Settled role member} _ (search session_rules))
            λ _. Ends-lift_err e (λ t h. h)

  module _ (user administrator : Bytes) where
    -- The GRANTs of `user` to `administrator` are the only ones that may have given the options.
    abbrev pub Only : List Event → Type 0
    Only t = is_pair role member user administrator ≡ false → elevated role member t ≡ false

    -- The same, and SET ROLE is not in force.
    abbrev pub Itself : List Event → Type 0
    Itself t = (acting t ≡ false) × Only t

    -- A failed attempt to take the options of another membership leaves this one restricted.
    failed-Settled :
        (b s : Bool) (t : List Event)
        → is_pair role member user administrator ≡ b
        → stuck role member t ≡ (if b then true else s)
        → Itself t
        → Settled role member t
    failed-Settled true s t e g h = inr g
    failed-Settled false s t e g h = inl (h.1 e, h.0)

    taken-Ends :
        Ends Itself
          (λ u t. Restricted role member t)
          (Settled role member)
          (set_role_option user administrator false)
    unfolding run_formatted
    taken-Ends =
        Ends-bind _ _
          (Ends-invoke {Q = λ u t. Itself t} _ (λ t h. h)
            (λ t h.
              failed-Settled (is_pair role member user administrator) (stuck role member t)
                (event (pg_query (ask_format (grant_membership user administrator false))) false
                  ∷ t)
                refl refl h))
          λ _.
            Ends-invoke _ (λ t h. (clear_if _ _ h.1, h.0))
              (λ t h.
                failed-Settled (is_pair role member user administrator) (stuck role member t)
                  (event (pg_exec (grant_membership user administrator false)) false ∷ t) refl refl
                  h)

    -- The membership loses its options, or a statement that takes them has failed.
    pub restrict-Ends :
        (what : Bytes) (r : Result (Unit {0}))
        → Ends Itself
            (λ u t. Restricted role member t)
            (Settled role member)
            (restrict what user administrator r)
    restrict-Ends what r = Ends-bind _ _ (Ends-attempt _ taken-Ends) λ g. finish g
      where
        finish :
            (g : Result (Unit {0}))
            → Ends
                (Outcome (λ u t. Restricted role member t) (Settled role member) g)
                (λ u t. Restricted role member t)
                (Settled role member)
                (restored what r g)
        finish (ok u) = Ends-lift r (λ a t h. h) (λ t h. inl h)
        finish (err e) = join_error-Ends (Settled role member) _ r _

    -- The options are given, or the error leaves the session as it was.
    pub elevate-Ends :
        Ends
          (Restricted role member)
          (λ u t. Itself t)
          (Restricted role member)
          (set_role_option user administrator true)
    unfolding run_formatted
    elevate-Ends =
        Ends-then _ _ (search session_rules)
          λ _. Ends-invoke _ (λ t h. (h.1, clear_unless _ _ h.0)) (λ t h. h)

    pub elevated-Ends :
        (what : Bytes) (r : Result (Unit {0}))
        → Ends
            (Outcome (λ u t. Itself t) (Restricted role member) r)
            (λ u t. Itself t)
            (Settled role member)
            (wrap_error what r)
    elevated-Ends what (ok u) = Ends-pure _ (λ t h. h)
    elevated-Ends what (err e) = Ends-raise _ (λ t h. inl h)
