-- ===== src/Domain/Syntax.antt =====
-- The regular expressions of internal/domain/validate.go, as matchers over bytes.
use centralcloud_agent.Prelude.{
  ℕ, zero, suc, Bool, true, false, ◌&&◌, ◌||◌, List, [], ◌∷◌, leb, ◌==◌, Bytes, codes, length,
  split,
}

abbrev pub is_digit : ℕ → Bool
is_digit b = leb b'0' b && leb b b'9'

abbrev pub is_lower : ℕ → Bool
is_lower b = leb b'a' b && leb b b'z'

abbrev pub is_upper : ℕ → Bool
is_upper b = leb b'A' b && leb b b'Z'

-- [0-9a-f]
abbrev pub is_hex : ℕ → Bool
is_hex b = is_digit b || leb b'a' b && leb b b'f'

-- [a-z0-9]
abbrev pub is_alnum : ℕ → Bool
is_alnum b = is_lower b || is_digit b

-- [a-z0-9-]
abbrev pub is_host_byte : ℕ → Bool
is_host_byte b = is_alnum b || b == b'-'

unfoldable pub all_bytes : (ℕ → Bool) → Bytes → Bool
all_bytes p [] = true
all_bytes p (b ∷ s) = p b && all_bytes p s

-- One class for each byte of the text.
unfoldable pub matches_classes : List (ℕ → Bool) → Bytes → Bool
matches_classes [] [] = true
matches_classes [] (b ∷ s) = false
matches_classes (c ∷ cs) [] = false
matches_classes (c ∷ cs) (b ∷ s) = c b && matches_classes cs s

abbrev pub repeat_class : ℕ → (ℕ → Bool) → List (ℕ → Bool) → List (ℕ → Bool)
repeat_class zero c rest = rest
repeat_class (suc n) c rest = c ∷ repeat_class n c rest

abbrev pub is_dash : ℕ → Bool
is_dash b = b == b'-'

-- The classes of a literal text.
abbrev literal_classes : Bytes → List (ℕ → Bool) → List (ℕ → Bool)
literal_classes [] rest = rest
literal_classes (b ∷ s) rest = (λ c. c == b) ∷ literal_classes s rest

-- [1-8] and [89ab], the version and the variant
abbrev pub is_version : ℕ → Bool
is_version b = leb b'1' b && leb b b'8'

abbrev pub is_variant : ℕ → Bool
is_variant b = b == b'8' || b == b'9' || b == b'a' || b == b'b'

abbrev pub uuid_classes : List (ℕ → Bool)
uuid_classes = repeat_class 8 is_hex (
    is_dash
    ∷ repeat_class 4 is_hex (
        is_dash
        ∷ is_version
        ∷ repeat_class 3 is_hex
            (is_dash ∷ is_variant ∷ repeat_class 3 is_hex (is_dash ∷ repeat_class 12 is_hex []))))

-- uuidRE
unfoldable pub uuid_re : Bytes → Bool
unfolding matches_classes
uuid_re s = matches_classes uuid_classes s

-- ^[first][rest]{0,limit}$
abbrev pub word : (ℕ → Bool) → (ℕ → Bool) → ℕ → Bytes → Bool
word first rest limit [] = false
word first rest limit (b ∷ s) = first b && (all_bytes rest s && leb (length s) limit)

-- dbRE
unfoldable pub db_re : Bytes → Bool
unfolding all_bytes
db_re s = word is_lower (λ b. is_alnum b || b == b'_') 62 s

-- envRE
unfoldable pub env_re : Bytes → Bool
unfolding all_bytes
env_re s = word (λ b. is_upper b || b == b'_') (λ b. is_upper b || is_digit b || b == b'_') 127 s

unfoldable pub last_or : ℕ → Bytes → ℕ
last_or d [] = d
last_or d (b ∷ s) = last_or b s

-- hostLabelRE: the first and the last byte are letters or digits
unfoldable pub host_label_re : Bytes → Bool
unfolding all_bytes last_or
host_label_re [] = false
host_label_re (b ∷ s) =
    is_alnum b && (all_bytes is_host_byte s && (is_alnum (last_or b s) && leb (length s) 62))

unfoldable pub all_labels : List Bytes → Bool
unfolding host_label_re
all_labels [] = true
all_labels (l ∷ ls) = host_label_re l && all_labels ls

-- hostRE: two labels or more, joined by dots, which no label holds
unfoldable pub host_re : Bytes → Bool
unfolding all_labels split
host_re s = let ls = split b'.' s in leb 2 (length ls) && all_labels ls

-- imageDigestRE
unfoldable pub image_digest_re : Bytes → Bool
unfolding matches_classes
image_digest_re s =
    matches_classes (literal_classes (codes "sha256:") (repeat_class 64 is_hex [])) s
