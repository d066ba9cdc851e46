-- ===== src/Prelude/Int.antt =====
-- Go's signed numbers, over the native numbers. `negsuc n` is -(n + 1).
use Prim.Native.Nat.{ℕ, zero, suc, ◌+◌, ◌-◌, ◌*◌, ◌/◌, ◌%◌}
use mathlib.Core.Bool.{Bool, true, false}
use mathlib.Core.List.{[], ◌∷◌, ◌++◌}
use centralcloud_agent.Prelude.Tests.{ltb, leb, if◌then◌else◌}
use centralcloud_agent.Prelude.Strings.{Bytes}

pub data ℤ : Type 0 where
  pos : ℕ → ℤ
  negsuc : ℕ → ℤ

-- a < b
abbrev pub lt_int : ℤ → ℤ → Bool
lt_int (pos a) (pos b) = ltb a b
lt_int (pos a) (negsuc b) = false
lt_int (negsuc a) (pos b) = true
lt_int (negsuc a) (negsuc b) = ltb b a

-- a <= b
abbrev pub le_int : ℤ → ℤ → Bool
le_int (pos a) (pos b) = leb a b
le_int (pos a) (negsuc b) = false
le_int (negsuc a) (pos b) = true
le_int (negsuc a) (negsuc b) = leb b a

-- a == 0
abbrev pub is_zero : ℤ → Bool
is_zero (pos zero) = true
is_zero _ = false

decimal : ℕ → ℕ → Bytes
decimal zero v = []
decimal (suc f) v =
    let rest = decimal f (v / 10) in (if ltb v 10 then [] else rest) ++ ((48 + v % 10) ∷ [])

-- strconv.Itoa; twenty digits hold every int64
unfoldable pub itoa : ℤ → Bytes
unfolding decimal
itoa (pos n) = decimal 20 n
itoa (negsuc n) = 45 ∷ decimal 20 (suc n)

-- time.Duration(n) * time.Second, in nanoseconds
abbrev pub seconds : ℤ → ℤ
seconds (pos n) = pos (n * 1000000000)
seconds (negsuc n) = negsuc (suc n * 1000000000 - 1)
