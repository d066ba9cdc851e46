-- ===== src/Domain/Uuid.antt =====
-- UUIDGenerator of internal/domain/runtime.go: sixteen random bytes as a UUID of version 4. It meets
-- the pattern that internal/domain/validate.go asks of a UUID.
use centralcloud_agent.Prelude.{
  ℕ, ◌+◌, ◌/◌, ◌%◌, ◌<◌, ◌≡◌, refl, true, List, [], ◌∷◌, ◌++◌, ltb, if◌then◌else◌, Bytes, arith,
}
use centralcloud_agent.Domain.Syntax.{uuid_re, matches_classes, is_hex, is_version, is_variant}

-- A digit of hex.EncodeToString
abbrev pub hex_digit : ℕ → ℕ
hex_digit n = if ltb n 10 then 48 + n else 87 + n

-- hex.EncodeToString
unfoldable pub hex_text : List ℕ → Bytes
hex_text [] = []
hex_text (b ∷ bs) = hex_digit (b / 16) ∷ hex_digit (b % 16) ∷ hex_text bs

-- (b & 0x0f) | 0x40 and (b & 0x3f) | 0x80
abbrev pub version_byte : ℕ → ℕ
version_byte b = 64 + b % 16

abbrev pub variant_byte : ℕ → ℕ
variant_byte b = 128 + b % 64

-- The text made of the random bytes `b 0` to `b 15`.
unfoldable pub new_uuid : (ℕ → ℕ) → Bytes
unfolding hex_text
new_uuid b =
    hex_text (b 0 ∷ b 1 ∷ b 2 ∷ b 3 ∷ [])
    ++ (b'-'
        ∷ (hex_text (b 4 ∷ b 5 ∷ [])
            ++ (b'-'
                ∷ (hex_text (version_byte (b 6) ∷ b 7 ∷ [])
                    ++ (b'-'
                        ∷ (hex_text (variant_byte (b 8) ∷ b 9 ∷ [])
                            ++ (b'-'
                                ∷ hex_text (b 10 ∷ b 11 ∷ b 12 ∷ b 13 ∷ b 14 ∷ b 15 ∷ []))))))))

is_hex-hex_digit : (n : ℕ) → n < 16 → is_hex (hex_digit n) ≡ true
is_hex-hex_digit n h = ground arith

is_hex-high : (b : ℕ) → b < 256 → is_hex (hex_digit (b / 16)) ≡ true
is_hex-high b h = is_hex-hex_digit (b / 16) (omega arith)

is_hex-low : (b : ℕ) → is_hex (hex_digit (b % 16)) ≡ true
is_hex-low b = is_hex-hex_digit (b % 16) (omega arith)

is_version-version_byte : (b : ℕ) → is_version (hex_digit (version_byte b / 16)) ≡ true
is_version-version_byte b = ground arith

is_variant-variant_byte : (b : ℕ) → is_variant (hex_digit (variant_byte b / 16)) ≡ true
is_variant-variant_byte b = ground arith

-- Every identifier that the generator makes of sixteen bytes meets the pattern of a UUID.
pub uuid_re-new_uuid : (b : ℕ → ℕ) → ((i : ℕ) → b i < 256) → uuid_re (new_uuid b) ≡ true
unfolding uuid_re new_uuid matches_classes
uuid_re-new_uuid b h =
    let top = λ (i : ℕ). is_hex-high (b i) (h i) in
    rw
      (
        top 0,
        top 1,
        top 2,
        top 3,
        top 4,
        top 5,
        top 7,
        top 9,
        top 10,
        top 11,
        top 12,
        top 13,
        top 14,
        top 15,
        is_hex-low (b 0),
        is_hex-low (b 1),
        is_hex-low (b 2),
        is_hex-low (b 3),
        is_hex-low (b 4),
        is_hex-low (b 5),
        is_hex-low (b 7),
        is_hex-low (b 9),
        is_hex-low (b 10),
        is_hex-low (b 11),
        is_hex-low (b 12),
        is_hex-low (b 13),
        is_hex-low (b 14),
        is_hex-low (b 15),
        is_hex-low (version_byte (b 6)),
        is_hex-low (variant_byte (b 8)),
        is_version-version_byte (b 6),
        is_variant-variant_byte (b 8),
      )
      refl
