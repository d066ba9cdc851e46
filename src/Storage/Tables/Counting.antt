-- ===== src/Storage/Tables/Counting.antt =====
-- How the statements of internal/storage/sqlite.go change the number of rows that a clause takes.
use centralcloud_agent.Prelude.{◌+◌, ◌≤◌, ◌≡◌, refl, Bool, true, none, List, [], ◌∷◌, ◌++◌, arith}
use centralcloud_agent.Storage.Tables.{select, update, count}

module _ {A : Type 0} where
  pub count-append : (p : A → Bool) (xs ys : List A) → count p (xs ++ ys) ≡ count p xs + count p ys
  unfolding count
  count-append p [] ys = omega arith
  count-append p (x ∷ xs) ys = ground (arith, count-append p xs ys)

  -- An update that puts no new row under `q` does not raise its number.
  pub count-update-le :
      (q p : A → Bool) (f : A → A) (xs : List A)
      → ((a : A) → p a ≡ true → q (f a) ≡ true → q a ≡ true)
      → count q (update p f xs) ≤ count q xs
  unfolding count update
  count-update-le q p f [] h = omega arith
  count-update-le q p f (x ∷ xs) h = ground (arith, count-update-le q p f xs h, h x)

  -- A row that a clause does not find is not counted by a narrower one.
  pub count_of_unselected :
      (p q : A → Bool) (xs : List A)
      → select p xs ≡ none
      → ((a : A) → q a ≡ true → p a ≡ true)
      → count q xs ≡ 0
  unfolding count select
  count_of_unselected p q [] e h = refl
  count_of_unselected p q (x ∷ xs) e h = ground (arith, h x, count_of_unselected p q xs)
