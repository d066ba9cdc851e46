-- ===== src/Storage/Operations/First.antt =====
-- The queued operation that ClaimOperation of internal/storage/sqlite.go reads first.
use centralcloud_agent.Prelude.{
  ◌≡◌, refl, ◌∙◌, ◌⊎◌, inl, inr, Bool, true, false, Option, none, some, List, [], ◌∷◌,
  if◌then◌else◌, Bytes, arith, All, subst,
}
use centralcloud_agent.Domain.Clock.{text_lt, format_time}
use centralcloud_agent.Domain.Model.{Operation}
use centralcloud_agent.Storage.Operations.{is_queued, first_queued, earlier}

-- The order on texts is negatively transitive.
text_le_trans : (r s t : Bytes) → text_lt s r ≡ false → text_lt t s ≡ false → text_lt t r ≡ false
unfolding text_lt
text_le_trans [] s t h k = refl
text_le_trans (a ∷ r) [] t h k = absurd cc
text_le_trans (a ∷ r) (b ∷ s) [] h k = absurd cc
text_le_trans (a ∷ r) (b ∷ s) (c ∷ t) h k = ground (arith, text_le_trans r s t)

-- A time that sorts before another in the database.
abbrev pub before : Operation → Operation → Bool
before o p = text_lt (format_time o.created_at) (format_time p.created_at)

-- An operation that is in the table.
abbrev pub Among : Operation → List Operation → Type 0
Among o [] = ⊥
Among o (p ∷ ps) = (p ≡ o) ⊎ Among o ps

-- No queued operation of the table sorts before `o`.
abbrev pub IsFirst : Operation → List Operation → Type 0
IsFirst o os = All (λ p. is_queued p ≡ true → before p o ≡ false) os

text_lt_irrefl : (s : Bytes) → text_lt s s ≡ false
unfolding text_lt
text_lt_irrefl [] = refl
text_lt_irrefl (a ∷ s) = ground (arith, text_lt_irrefl s)

text_lt_asym : (s t : Bytes) → text_lt s t ≡ true → text_lt t s ≡ false
unfolding text_lt
text_lt_asym s [] h = absurd cc
text_lt_asym [] (b ∷ t) h = refl
text_lt_asym (a ∷ s) (b ∷ t) h = ground (arith, text_lt_asym s t)

-- No operation of the table is queued.
abbrev pub NoneQueued : List Operation → Type 0
NoneQueued os = All (λ p. is_queued p ≡ false) os

pub first_queued-NoneQueued : (os : List Operation) → first_queued os ≡ none → NoneQueued os
unfolding first_queued
first_queued-NoneQueued [] h = tt
first_queued-NoneQueued (p ∷ ps) h =
    by_test (is_queued p) refl (λ g. first_queued-NoneQueued ps g) h
  where
    by_test :
        (b : Bool)
        → is_queued p ≡ b
        → (first_queued ps ≡ none → NoneQueued ps)
        → (if b then some (earlier p (first_queued ps)) else first_queued ps) ≡ none
        → NoneQueued (p ∷ ps)
    by_test true e later g = absurd cc
    by_test false e later g = (e, later g)

-- `o` is queued, in the table, and first there.
abbrev pub IsChosen : Operation → List Operation → Type 0
IsChosen o os = Among o os × ((is_queued o ≡ true) × IsFirst o os)

none-IsFirst : (o : Operation) (os : List Operation) → NoneQueued os → IsFirst o os
none-IsFirst o [] h = tt
none-IsFirst o (p ∷ ps) (h, later) = ((λ q. absurd cc), none-IsFirst o ps later)

-- What comes before nothing queued comes before nothing after an earlier operation.
earlier-IsFirst :
    (o q : Operation) (os : List Operation) → before q o ≡ false → IsFirst q os → IsFirst o os
earlier-IsFirst o q [] h f = tt
earlier-IsFirst o q (p ∷ ps) h (f, later) = (
  (λ e.
      text_le_trans (format_time o.created_at) (format_time q.created_at) (format_time p.created_at)
        h (f e)),
  earlier-IsFirst o q ps h later,
)

some-eq : {A : Type 0} (a b : A) → some a ≡ some b → a ≡ b
some-eq a b e = cc

module _ (p o : Operation) (ps : List Operation) (e : is_queued p ≡ true) where
  alone : NoneQueued ps → IsChosen p (p ∷ ps)
  alone n = (inl refl, (e, ((λ q. text_lt_irrefl _), none-IsFirst p ps n)))

  against :
      (q : Operation)
      → IsChosen q ps
      → (b : Bool) → before q p ≡ b
      → IsChosen (if b then q else p) (p ∷ ps)
  against q c true f = (inr c.0, (c.1.0, ((λ g. text_lt_asym _ _ f), c.1.1)))
  against q c false f = (inl refl, (e, ((λ g. text_lt_irrefl _), earlier-IsFirst p q ps f c.1.1)))

pub first_queued-IsChosen :
    (os : List Operation) (o : Operation) → first_queued os ≡ some o → IsChosen o os
unfolding first_queued
first_queued-IsChosen [] o h = absurd cc
first_queued-IsChosen (p ∷ ps) o h =
    by_test (is_queued p) refl (first_queued ps) refl (λ q g. first_queued-IsChosen ps q g) h
  where
    by_test :
        (b : Bool)
        → is_queued p ≡ b
        → (r : Option Operation) → first_queued ps ≡ r
        → ((q : Operation) → first_queued ps ≡ some q → IsChosen q ps)
        → (if b then some (earlier p r) else r) ≡ some o
        → IsChosen o (p ∷ ps)
    by_test true e none f later g =
        subst (λ x. IsChosen x (p ∷ ps)) (some-eq p o g)
          (alone p o ps e (first_queued-NoneQueued ps f))
    by_test true e (some q) f later g =
        subst (λ x. IsChosen x (p ∷ ps)) (some-eq _ o g) (against p o ps e q (later q f) _ refl)
    by_test false e r f later g =
        let c = later o (f ∙ g) in (inr c.0, (c.1.0, ((λ q. absurd cc), c.1.1)))
