-- ===== src/Localstorage/Names.antt =====
-- The paths that internal/localstorage/storage.go builds, and the check of isStrictChild.
use centralcloud_agent.Prelude.{
  ℕ, ◌≡◌, refl, subst, ◌↔◌, inl, inr, Bool, true, false, not, ◌&&◌, List, [], ◌∷◌, ◌++◌, ◌==◌,
  if◌then◌else◌, Bool-cases, Bytes, codes, same, same_iff, contains_byte, split, is_empty, arith,
  ==_iff, &&_iff,
}
use centralcloud_agent.Errors.Faults.{or_false}
use centralcloud_agent.Domain.Syntax.{is_hex, uuid_re, uuid_classes, matches_classes}
use centralcloud_agent.Localstorage.Files.{
  FilePath, rel, is_strict_child, goes_down, up_from, follow, join_path,
}

-- A path below a root: it has a first segment behind the root, and that is not "..".
abbrev pub Below : FilePath → FilePath → Type 0
Below root path =
    (s : Bytes) × ((rest : FilePath) × ((path ≡ root ++ (s ∷ rest))
        × (same s (codes "..") ≡ false)))

longer : (a b : Bytes) (p q : FilePath) → a ≡ b → p ≡ q → b ∷ p ≡ a ∷ q
longer a b p q e f = cc

heads : (a b : Bytes) (p q : FilePath) → b ∷ p ≡ a ∷ q → a ≡ b
heads a b p q e = cc

tails : (a b : Bytes) (p q : FilePath) → b ∷ p ≡ a ∷ q → p ≡ q
tails a b p q e = cc

false_of_not : (x : Bool) → not x ≡ true → x ≡ false
false_of_not x h = ground arith

not_of_false : (x : Bool) → x ≡ false → not x ≡ true
not_of_false x h = ground arith

child-Below : (root path : FilePath) → is_strict_child root path ≡ true → Below root path
unfolding is_strict_child rel same
child-Below [] [] h = absurd cc
child-Below [] (b ∷ p) h = (b, (p, (refl, false_of_not _ h)))
child-Below (a ∷ r) [] h = absurd cc
child-Below (a ∷ r) (b ∷ p) h = by_head (λ k. child-Below r p k) (same a b) refl h
  where
    by_head :
        (is_strict_child r p ≡ true → Below r p)
        → (c : Bool) → same a b ≡ c
        → goes_down (if same a b then rel r p else up_from (a ∷ r) (b ∷ p)) ≡ true
        → Below (a ∷ r) (b ∷ p)
    by_head below true e k = deeper (below (rw (← kept_segment e) k))
      where
        kept_segment :
            same a b ≡ true
            → goes_down (if same a b then rel r p else up_from (a ∷ r) (b ∷ p))
              ≡ goes_down (rel r p)
        kept_segment q = rw q refl

        deeper : Below r p → Below (a ∷ r) (b ∷ p)
        deeper (s, (rest, (q, n))) =
            (s, (rest, (longer a b p (r ++ (s ∷ rest)) ((same_iff a b).0 e) q, n)))
    by_head below false e k = absurd (outside (rw (← leaves e) k))
      where
        leaves :
            same a b ≡ false
            → goes_down (if same a b then rel r p else up_from (a ∷ r) (b ∷ p)) ≡ false
        leaves q = rw q refl

        outside : false ≡ true → ⊥
        outside q = cc

Below-child : (root path : FilePath) → Below root path → is_strict_child root path ≡ true
unfolding is_strict_child rel same
Below-child [] [] (s, (rest, (e, n))) = absurd cc
Below-child [] (b ∷ p) (s, (rest, (e, n))) = not_of_false _ (rw (← heads s b p rest e) n)
Below-child (a ∷ r) [] (s, (rest, (e, n))) = absurd cc
Below-child (a ∷ r) (b ∷ p) (s, (rest, (e, n))) =
    rw ((same_iff a b).1 (heads a b p (r ++ (s ∷ rest)) e))
      (Below-child r p (s, (rest, (tails a b p (r ++ (s ∷ rest)) e, n))))

-- The check on the relative path, in which a path outside the root begins with "..", accepts the paths
-- below the root and no others.
pub is_strict_child_iff :
    (root path : FilePath) → (is_strict_child root path ≡ true) ↔ Below root path
is_strict_child_iff root path = (child-Below root path, Below-child root path)

-- A byte that no class of the pattern takes is not in a text that matches it.
abbrev rejects : ℕ → List (ℕ → Bool) → Bool
rejects b [] = true
rejects b (c ∷ cs) = not (c b) && rejects b cs

matches-rejects :
    (x : ℕ) (cs : List (ℕ → Bool)) (s : Bytes)
    → rejects x cs ≡ true
    → matches_classes cs s ≡ true
    → contains_byte x s ≡ false
unfolding matches_classes contains_byte
matches-rejects x [] [] r m = refl
matches-rejects x [] (b ∷ s) r m = absurd cc
matches-rejects x (c ∷ cs) [] r m = absurd cc
matches-rejects x (c ∷ cs) (b ∷ s) r m = elim (Bool-cases (b == x)) [
  | inl e ↦ absurd (
      taken (c x) (subst (λ y. c y ≡ true) ((==_iff b x).0 e) ((&&_iff (c b) _).0 m).0)
        ((&&_iff (not (c x)) _).0 r).0)
  | inr e ↦ rw e (matches-rejects x cs s ((&&_iff (not (c x)) _).0 r).1 ((&&_iff (c b) _).0 m).1)
]
  where
    taken : (y : Bool) → y ≡ true → not y ≡ true → ⊥
    taken true p q = cc
    taken false p q = cc

-- A text without a slash is one segment.
split-whole : (s : Bytes) → contains_byte b'/' s ≡ false → split b'/' s ≡ s ∷ []
unfolding split contains_byte
split-whole [] h = refl
split-whole (b ∷ s) h =
    rw
      (
        (or_false (b == b'/') (contains_byte b'/' s) h).0,
        split-whole s (or_false (b == b'/') (contains_byte b'/' s) h).1,
      )
      refl

-- A segment that filepath.Clean leaves.
abbrev pub is_name : Bytes → Bool
is_name s =
    not (contains_byte b'/' s)
    && (not (is_empty s) && (not (same s (codes ".")) && not (same s (codes ".."))))

pub all_not :
    (a b c d : Bool)
    → (not a && (not b && (not c && not d))) ≡ true
    → (a ≡ false) × ((b ≡ false) × ((c ≡ false) × (d ≡ false)))
all_not false false false false h = (refl, (refl, (refl, refl)))
all_not true b c d h = absurd cc
all_not false true c d h = absurd cc
all_not false false true d h = absurd cc
all_not false false false true h = absurd cc

pub join_name : (p : FilePath) (s : Bytes) → is_name s ≡ true → join_path p s ≡ p ++ (s ∷ [])
unfolding join_path follow
join_name p s h =
    let q =
      all_not (contains_byte b'/' s) (is_empty s) (same s (codes ".")) (same s (codes "..")) h in
    rw (split-whole s q.0, q.1.0, q.1.1.0, q.1.1.1) refl

-- A text that begins with a hexadecimal digit is not made of dots.
hex-no_dot : (b : ℕ) → is_hex b ≡ true → (b == 46) ≡ false
hex-no_dot b h = ground arith

pub uuid-is_name : (s : Bytes) → uuid_re s ≡ true → is_name s ≡ true
unfolding uuid_re matches_classes same
uuid-is_name [] h = absurd cc
uuid-is_name (b ∷ s) h =
    rw
      (matches-rejects b'/' uuid_classes (b ∷ s) refl h, hex-no_dot b ((&&_iff (is_hex b) _).0 h).0)
      refl
