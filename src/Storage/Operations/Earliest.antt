-- ===== src/Storage/Operations/Earliest.antt =====
-- Which operation ClaimOperation of internal/storage/sqlite.go takes.
use centralcloud_agent.Prelude.{◌≡◌, ◌⊎◌, Option, none, some, List, [], ◌∷◌, Bytes}
use centralcloud_agent.Domain.Clock.{Time}
use centralcloud_agent.Domain.Model.{Operation, queued, running}
use centralcloud_agent.Storage.Tables.{Tables}
use centralcloud_agent.Storage.Operations.{first_queued}
use centralcloud_agent.Runtime.Yields.{Yields}
use centralcloud_agent.Storage.Operations.First.{NoneQueued, IsChosen}

-- A row of the table before and after the claim of the operation `id` at `time`: the queued row with
-- this identifier is running since then, and any other row is as it was.
abbrev Taken : Bytes → Time → Operation → Operation → Type 0
Taken id time p q =
    (((p.id ≡ id) × (p.status ≡ queued)) × (q ≡ record p { status = running; updated_at = time }))
    ⊎ ((((p.id ≡ id) × (p.status ≡ queued)) → ⊥) × (q ≡ p))

abbrev pub AllTaken : Bytes → Time → List Operation → List Operation → Type 0
AllTaken id time [] [] = Unit
AllTaken id time (p ∷ ps) (q ∷ qs) = Taken id time p q × AllTaken id time ps qs
AllTaken id time _ _ = ⊥

-- What ClaimOperation does to the tables `t`: it takes the operation `p`, or there is none to take.
abbrev pub Claimed : Tables → Option Operation → Tables → Type 0
Claimed t none u = (u ≡ t) × NoneQueued t.operations
Claimed t (some o) u =
    (p : Operation) × (IsChosen p t.operations
      × ((o ≡ record p { status = running })
          × ((time : Time) × (AllTaken p.id time t.operations u.operations
                × (u ≡ record t { operations = u.operations })))))

module _ (t : Tables) where
  abbrev Found : Option Operation → Tables → Type 0
  Found o u = (u ≡ t) × (first_queued t.operations ≡ o)
