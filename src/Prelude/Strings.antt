-- ===== src/Prelude/Strings.antt =====
-- Go strings and byte slices as lists of bytes, with what the agent uses of package strings.
use Prim.Native.Nat.{ℕ, suc, ◌+◌}
use Prim.Native.Char.{code}
use Prim.Native.String.{String}
use mathlib.Core.Path.{◌≡◌, refl}
use mathlib.Core.Logic.{◌↔◌}
use mathlib.Core.Bool.{Bool, true, false, ◌&&◌, ◌||◌}
use mathlib.Core.List.{List, [], ◌∷◌, ◌++◌, map, reverse}
use native.Mathlib.Omega.{arith}
use centralcloud_agent.Prelude.Tests.{leb, ◌==◌, if◌then◌else◌}

abbrev pub Bytes : Type 0
Bytes = List ℕ

-- The bytes of a literal of the source, which is ASCII.
abbrev pub codes : String → Bytes
codes String.[] = []
codes (String.◌∷◌ c s) = code c ∷ codes s

abbrev pub length {ℓ} : {A : Type ℓ} → List A → ℕ
length [] = 0
length (x ∷ xs) = suc (length xs)

-- s == t
unfoldable pub same : Bytes → Bytes → Bool
same [] [] = true
same [] (b ∷ t) = false
same (a ∷ s) [] = false
same (a ∷ s) (b ∷ t) = a == b && same s t

pub same_iff : (s t : Bytes) → (same s t ≡ true) ↔ (s ≡ t)
unfolding same
same_iff [] [] = ground arith
same_iff [] (b ∷ t) = ground arith
same_iff (a ∷ s) [] = ground arith
same_iff (a ∷ s) (b ∷ t) = ground (arith, same_iff s t)

pub same_refl : (s : Bytes) → same s s ≡ true
same_refl s = (same_iff s s).1 refl

-- s == ""
abbrev pub is_empty : Bytes → Bool
is_empty [] = true
is_empty (b ∷ t) = false

unfoldable pub lower_byte : ℕ → ℕ
lower_byte b = if leb b'A' b && leb b b'Z' then b + 32 else b

-- strings.ToLower on ASCII text.
unfoldable pub to_lower : Bytes → Bytes
unfolding lower_byte
to_lower s = map lower_byte s

lower_byte_idem : (b : ℕ) → lower_byte (lower_byte b) ≡ lower_byte b
unfolding lower_byte
lower_byte_idem b = ground arith

pub to_lower_idem : (s : Bytes) → to_lower (to_lower s) ≡ to_lower s
unfolding to_lower
to_lower_idem [] = refl
to_lower_idem (b ∷ s) = rw (lower_byte_idem b, to_lower_idem s) refl

-- strings.HasPrefix
unfoldable pub has_prefix : Bytes → Bytes → Bool
has_prefix s [] = true
has_prefix [] (p ∷ ps) = false
has_prefix (b ∷ s) (p ∷ ps) = b == p && has_prefix s ps

-- strings.HasSuffix
unfoldable pub has_suffix : Bytes → Bytes → Bool
unfolding has_prefix
has_suffix s t = has_prefix (reverse s) (reverse t)

-- strings.TrimSuffix by one byte
unfoldable pub trim_last : ℕ → Bytes → Bytes
trim_last c [] = []
trim_last c (b ∷ []) = if b == c then [] else b ∷ []
trim_last c (b ∷ d ∷ s) = b ∷ trim_last c (d ∷ s)

-- strings.Contains
unfoldable pub contains : Bytes → Bytes → Bool
unfolding has_prefix
contains [] sub = is_empty sub
contains (b ∷ s) sub = has_prefix (b ∷ s) sub || contains s sub

-- strings.ContainsRune for one byte
unfoldable pub contains_byte : ℕ → Bytes → Bool
contains_byte c [] = false
contains_byte c (b ∷ s) = b == c || contains_byte c s

-- The part of strings.Cut before the first separator byte.
unfoldable pub cut_before : ℕ → Bytes → Bytes
cut_before c [] = []
cut_before c (b ∷ s) = let rest = cut_before c s in if b == c then [] else b ∷ rest

abbrev pub push_first : ℕ → List Bytes → List Bytes
push_first b [] = (b ∷ []) ∷ []
push_first b (l ∷ ls) = (b ∷ l) ∷ ls

-- strings.Split by one byte
unfoldable pub split : ℕ → Bytes → List Bytes
split c [] = [] ∷ []
split c (b ∷ s) = let rest = split c s in if b == c then [] ∷ rest else push_first b rest

-- strings.ReplaceAll of one byte by nothing
unfoldable pub remove_byte : ℕ → Bytes → Bytes
remove_byte c [] = []
remove_byte c (b ∷ s) = let rest = remove_byte c s in if b == c then rest else b ∷ rest

-- strings.Join
unfoldable pub join : Bytes → List Bytes → Bytes
join sep [] = []
join sep (s ∷ []) = s
join sep (s ∷ t ∷ rest) = s ++ (sep ++ join sep (t ∷ rest))

-- strings.TrimSpace(s) == "", for ASCII text
unfoldable pub is_blank : Bytes → Bool
is_blank [] = true
is_blank (b ∷ s) = (leb 9 b && leb b 13 || b == 32) && is_blank s

abbrev is_space : ℕ → Bool
is_space b = leb 9 b && leb b 13 || b == 32

unfoldable pub drop_space : Bytes → Bytes
drop_space [] = []
drop_space (b ∷ s) = let rest = drop_space s in if is_space b then rest else b ∷ s

-- strings.TrimSpace, for ASCII text
unfoldable pub trim_space : Bytes → Bytes
unfolding drop_space
trim_space s = reverse (drop_space (reverse (drop_space s)))

-- m[k] of a map literal used as a set
unfoldable pub member : Bytes → List Bytes → Bool
unfolding same
member s [] = false
member s (t ∷ ts) = same s t || member s ts
