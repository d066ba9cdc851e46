-- ===== src/Domain/Clock.antt =====
-- Instants and their text in the database: time.RFC3339Nano, whose fraction drops trailing zeros.
use centralcloud_agent.Prelude.{
  ℕ, zero, suc, ◌+◌, ◌-◌, ◌*◌, ◌/◌, ◌%◌, Bool, true, false, ◌&&◌, ◌||◌, [], ◌∷◌, ◌++◌, ltb, leb,
  ◌==◌, if◌then◌else◌, Bytes, codes, ◌≡◌, refl,
}

-- Seconds since 0001-01-01T00:00:00Z, and nanoseconds within the second.
pub record Time : Type 0 where
  pub seconds : ℕ
  pub nanos : ℕ

-- t.IsZero()
abbrev pub is_zero_time : Time → Bool
is_zero_time t = t.seconds == 0 && t.nanos == 0

-- The last `n` decimal digits of a number.
digits : ℕ → ℕ → Bytes
digits zero v = []
digits (suc n) v = digits n (v / 10) ++ ((48 + v % 10) ∷ [])

-- A day number as year, month and day, counted from March in eras of 400 years.
civil : ℕ → Bytes
unfolding digits
civil days =
    let z = days + 306 in
    let doe = z % 146097 in
    let yoe = (doe - doe / 1460 + doe / 36524 - doe / 146096) / 365 in
    let doy = doe - (365 * yoe + yoe / 4 - yoe / 100) in
    let mp = (5 * doy + 2) / 153 in
    let month = (if ltb mp 10 then mp + 3 else mp - 9) in
    let year = yoe + z / 146097 * 400 + (if leb month 2 then 1 else 0) in
    digits 4 year
    ++ (codes "-" ++ (digits 2 month ++ (codes "-" ++ digits 2 (doy - (153 * mp + 2) / 5 + 1))))

-- 2006-01-02T15:04:05
whole : ℕ → Bytes
unfolding civil
whole s =
    civil (s / 86400)
    ++ (codes "T"
        ++ (digits 2 (s / 3600 % 24)
            ++ (codes ":" ++ (digits 2 (s / 60 % 60) ++ (codes ":" ++ digits 2 (s % 60))))))

-- The digits of a fraction of `k` places, without its trailing zeros.
fraction : ℕ → ℕ → Bytes
fraction zero v = []
fraction (suc k) v =
    let rest = fraction k (v / 10) in if v % 10 == 0 then rest else digits (suc k) v

suffix : ℕ → Bytes
unfolding fraction digits
suffix nanos = if nanos == 0 then codes "Z" else codes "." ++ (fraction 9 nanos ++ codes "Z")

-- t.Format(time.RFC3339Nano) of a time in UTC
unfoldable pub format_time : Time → Bytes
unfolding whole suffix
format_time t = whole t.seconds ++ suffix t.nanos

-- SQLite's order on texts.
unfoldable pub text_lt : Bytes → Bytes → Bool
text_lt s [] = false
text_lt [] (b ∷ t) = true
text_lt (a ∷ s) (b ∷ t) = ltb a b || a == b && text_lt s t

example :
    format_time (record { seconds = 63900000000; nanos = 120000000 })
    ≡ codes "2025-11-29T08:00:00.12Z"
unfolding format_time
example = refl
