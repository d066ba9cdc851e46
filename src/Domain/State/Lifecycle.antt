-- ===== src/Domain/State/Lifecycle.antt =====
-- What the transition table of internal/domain/state.go allows over the life of a deployment.
use centralcloud_agent.Prelude.{◌≡◌, refl, ◌↔◌, Bool, true, false, arith}
use centralcloud_agent.Domain.State.{
  State, can_transition, same_state, pending, healthchecking, active, stopped, updating, failed,
  deleting, deleted,
}

pub same_state_iff : (a b : State) → (same_state a b ≡ true) ↔ (a ≡ b)
unfolding same_state
same_state_iff a b = ground arith

-- A chain of allowed transitions.
pub data Reaches : State → State → Type 0 where
  here : {s : State} → Reaches s s
  next : {s t u : State} → can_transition s t ≡ true → Reaches t u → Reaches s u

-- A chain all of whose states but the first and the last are kept out of `avoid`.
pub data Avoids (avoid : State) : State → State → Type 0 where
  done : {s t : State} → can_transition s t ≡ true → Avoids avoid s t
  go :
      {s t u : State}
      → can_transition s t ≡ true
      → same_state t avoid ≡ false
      → Avoids avoid t u
      → Avoids avoid s u

-- The states from which a panel that passed its health check may be served.
abbrev pub is_proven : State → Bool
is_proven healthchecking = true
is_proven active = true
is_proven stopped = true
is_proven updating = true
is_proven _ = false

enters_proven :
    (s t : State)
    → can_transition s t ≡ true
    → is_proven s ≡ false
    → same_state t healthchecking ≡ false
    → is_proven t ≡ false
unfolding can_transition same_state
enters_proven s t h p n = ground arith

stays_unproven : {s t : State} → Avoids healthchecking s t → is_proven s ≡ false → (t ≡ active) → ⊥
unfolding can_transition
stays_unproven (done {s = s} {t = t} h) p e = ground arith
stays_unproven (go {s = s} {t = t} h n r) p e = stays_unproven r (enters_proven s t h p n) e

-- From a state in which no health check has passed (any but healthchecking, active, stopped and
-- updating), no chain of allowed transitions leads to active without passing through
-- healthchecking.
pub active_needs_healthcheck : (s : State) → is_proven s ≡ false → ¬ Avoids healthchecking s active
active_needs_healthcheck s p r = stays_unproven r p refl

to_deleted : (s : State) → Reaches s deleted
unfolding can_transition
to_deleted deleted = here
to_deleted deleting = next refl here
to_deleted pending = next {t = deleting} refl (next refl here)
to_deleted active = next {t = deleting} refl (next refl here)
to_deleted stopped = next {t = deleting} refl (next refl here)
to_deleted failed = next {t = deleting} refl (next refl here)
to_deleted _ = next {t = failed} refl (next {t = deleting} refl (next refl here))

only_deleting : (t : State) → can_transition t deleted ≡ true → t ≡ deleting
unfolding can_transition
only_deleting t h = ground arith

-- Every state has a chain of allowed transitions to deleted, and a transition into deleted
-- starts in deleting.
pub deleted_reachable :
    (s : State) → Reaches s deleted × ((t : State) → can_transition t deleted ≡ true → t ≡ deleting)
deleted_reachable s = (to_deleted s, only_deleting)
