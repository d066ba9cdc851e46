-- ===== src/Errors/Faults.antt =====
-- Validations that gather their faults, as ValidateCreate of internal/domain/validate.go and Validate
-- of internal/config/config.go do.
use centralcloud_agent.Prelude.{
  ◌≡◌, refl, Bool, true, false, not, ◌||◌, Option, none, some, List, [], ◌∷◌, ◌++◌, Bytes, codes,
  join, arith,
}
use centralcloud_agent.Errors.{Err, plain, message}

-- `if b { errs = append(errs, errors.New(m)) }`
abbrev pub fault : Bool → Bytes → List Bytes
fault true m = m ∷ []
fault false m = []

abbrev pub fault_of : Option Err → List Bytes
fault_of none = []
fault_of (some e) = message e ∷ []

-- errors.Join
abbrev pub joined : List Bytes → Option Err
joined [] = none
joined (m ∷ ms) = some (plain (join (codes "\n") (m ∷ ms)))

pub no_fault : (b : Bool) (m : Bytes) → fault b m ≡ [] → b ≡ false
no_fault true m h = cc
no_fault false m h = refl

pub no_fault_of : (o : Option Err) → fault_of o ≡ [] → o ≡ none
no_fault_of none h = refl
no_fault_of (some e) h = cc

pub no_faults : (xs ys : List Bytes) → xs ++ ys ≡ [] → xs ≡ [] × ys ≡ []
no_faults [] ys h = (refl, h)
no_faults (x ∷ xs) ys h = cc

pub unjoined : (ms : List Bytes) → joined ms ≡ none → ms ≡ []
unjoined [] h = refl
unjoined (m ∷ ms) h = cc

pub or_false : (a b : Bool) → a || b ≡ false → a ≡ false × b ≡ false
or_false a b h = ground arith

pub true_of_not : (b : Bool) → not b ≡ false → b ≡ true
true_of_not b h = ground arith
