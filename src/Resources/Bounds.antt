-- ===== src/Resources/Bounds.antt =====
-- The arithmetic of internal/resources/resources.go.
use centralcloud_agent.Prelude.{
  ℕ, zero, suc, ◌*◌, ◌/◌, ◌<◌, ◌≡◌, ◌↔◌, refl, ltb, if◌then◌else◌, ℤ, pos, negsuc, arith,
}
use native.Mathlib.Nat.{div-lt_iff_lt-mul, zero-mul}
use centralcloud_agent.Resources.{disk_bytes, max_int64}

abbrev pub smaller : ℕ → ℕ → ℕ
smaller a b = if ltb a b then a else b

-- The size of a disk as a number without bound.
abbrev pub exact_bytes : ℕ → ℤ → ℕ
exact_bytes blocks (pos size) = blocks * size
exact_bytes blocks (negsuc size) = 0

-- diskBytes is the exact product where an int64 holds it, and else the largest int64; a size that is
-- not positive gives 0.
pub disk_bytes_lem :
    (blocks : ℕ) (size : ℤ) → disk_bytes blocks size ≡ smaller (exact_bytes blocks size) max_int64
unfolding disk_bytes
disk_bytes_lem blocks (negsuc size) = refl
disk_bytes_lem blocks (pos zero) = ground arith
disk_bytes_lem zero (pos (suc size)) = ground (arith, zero-mul (suc size))
disk_bytes_lem (suc blocks) (pos (suc size)) =
    by_quotient (div-lt_iff_lt-mul {k = suc size} {x = max_int64} {y = suc blocks} (omega arith))
  where
    by_quotient :
        (max_int64 / suc size < suc blocks) ↔ (max_int64 < suc blocks * suc size)
        → disk_bytes (suc blocks) (pos (suc size)) ≡ smaller (suc blocks * suc size) max_int64
    by_quotient e = ground (arith, e)
