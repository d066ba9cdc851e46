-- ===== src/Resources.antt =====
-- internal/resources/resources.go: what the host has. A line of /proc/meminfo is read as Go's
-- bufio.Scanner, strings.Fields and strconv.ParseInt read it, for ASCII text.
pub mod Bounds
use centralcloud_agent.Prelude.{
  ℕ, ◌+◌, ◌-◌, ◌*◌, ◌/◌, ◌%◌, ◌^◌, Bool, true, false, not, ◌||◌, ◌&&◌, Option, none, some, List, [],
  ◌∷◌, ltb, leb, ◌==◌, if◌then◌else◌, Bytes, codes, is_empty, split, push_first, trim_last, lookup,
  insert, ℤ, pos, negsuc, is_zero,
}
use centralcloud_agent.Errors.{Err, Result, ok, err, plain}
use centralcloud_agent.Config.Validate.{digits_value}
use centralcloud_agent.Contracts.Views.{ResourceResponse}
use centralcloud_agent.Storage.Deployments.{count_deployments}
use centralcloud_agent.Runtime.{Env, Act, pure, raise, asks, sample, lift, refuse_if, ◌>>=◌, ◌>>◌}

-- int64(^uint64(0) >> 1)
abbrev pub max_int64 : ℕ
max_int64 = 2 ^ 63 - 1

-- The product of a number of blocks, a uint64, and their size, an int64, without overflow.
unfoldable pub disk_bytes : ℕ → ℤ → ℕ
disk_bytes blocks (negsuc size) = 0
disk_bytes blocks (pos size) =
    if size == 0 || blocks == 0
    then 0
    else if ltb (max_int64 / size) blocks
    then max_int64
    else blocks * size

abbrev is_space : ℕ → Bool
is_space b = leb 9 b && leb b 13 || b == 32

-- The pieces between white space, empty ones included.
unfoldable pub pieces : Bytes → List Bytes
pieces [] = [] ∷ []
pieces (b ∷ s) = let rest = pieces s in if is_space b then [] ∷ rest else push_first b rest

unfoldable pub not_empty : List Bytes → List Bytes
not_empty [] = []
not_empty (s ∷ rest) = let later = not_empty rest in if is_empty s then later else s ∷ later

-- strings.Fields
unfoldable pub fields : Bytes → List Bytes
unfolding pieces not_empty
fields line = not_empty (pieces line)

abbrev clamp : Option ℕ → ℕ → ℕ
clamp none top = 0
clamp (some n) top = if ltb top n then top else n

abbrev negative : ℕ → ℤ
negative n = if n == 0 then pos 0 else negsuc (n - 1)

-- n, _ := strconv.ParseInt(s, 10, 64): the nearest int64 where it is out of range, 0 for another text
unfoldable pub parse_int64 : Bytes → ℤ
unfolding digits_value
parse_int64 [] = pos 0
parse_int64 (b ∷ s) =
    if is_empty s
    then pos (clamp (digits_value 0 (b ∷ s)) max_int64)
    else if b == b'-'
    then negative (clamp (digits_value 0 s) (2 ^ 63))
    else if b == b'+'
    then pos (clamp (digits_value 0 s) max_int64)
    else pos (clamp (digits_value 0 (b ∷ s)) max_int64)

-- The int64 that a product wraps to.
abbrev pub wrap_int64 : ℤ → ℤ
wrap_int64 (pos n) = let r = n % 2 ^ 64 in if ltb r (2 ^ 63) then pos r else negsuc (2 ^ 64 - 1 - r)
wrap_int64 (negsuc n) =
    let r = n % 2 ^ 64 in if ltb r (2 ^ 63) then negsuc r else pos (2 ^ 64 - 1 - r)

-- n * 1024
abbrev pub kibibytes : ℤ → ℤ
kibibytes (pos n) = wrap_int64 (pos (n * 1024))
kibibytes (negsuc n) = wrap_int64 (negsuc (n * 1024 + 1023))

-- The entry of one line, if it has two fields.
unfoldable pub add_line : List Bytes → List (Bytes × ℤ) → List (Bytes × ℤ)
unfolding trim_last insert parse_int64
add_line (name ∷ value ∷ rest) vals =
    insert (trim_last b':' name) (kibibytes (parse_int64 value)) vals
add_line _ vals = vals

unfoldable pub read_lines : List Bytes → List (Bytes × ℤ) → List (Bytes × ℤ)
unfolding add_line fields
read_lines [] vals = vals
read_lines (line ∷ rest) vals = read_lines rest (add_line (fields line) vals)

abbrev or_zero : Option ℤ → ℤ
or_zero none = pos 0
or_zero (some v) = v

abbrev value_of : Bytes → List (Bytes × ℤ) → ℤ
value_of name vals = or_zero (lookup name vals)

-- The total and the available memory, by the entries of /proc/meminfo.
unfoldable pub memory_values : List (Bytes × ℤ) → Result (ℤ × ℤ)
unfolding lookup
memory_values vals =
    if is_zero (value_of (codes "MemTotal") vals)
    then err (plain (codes "MemTotal missing"))
    else ok (value_of (codes "MemTotal") vals, value_of (codes "MemAvailable") vals)

unfoldable pub memory : Act (ℤ × ℤ)
unfolding read_lines memory_values
memory = do
  r ← sample (λ env n. env.file n (codes "/proc/meminfo"))
  text ← lift r
  lift (memory_values (read_lines (split 10 text) []))

-- syscall.Statfs of the directory: blocks, available blocks and their size
unfoldable pub file_system : Act (ℕ × (ℕ × ℤ))
file_system = do r ← sample (λ env n. env.statfs n); lift r

unfoldable pub collect : Act ResourceResponse
unfolding memory file_system disk_bytes
collect = do
  (total, available) ← memory
  (blocks, (free, size)) ← file_system
  (count, active) ← count_deployments
  c ← asks (λ env. env.config)
  cpus ← asks (λ env. env.cpu_count)
  pure (record {
    node_id = c.node.id;
    cpu_count = pos cpus;
    memory_total_bytes = total;
    memory_available_bytes = available;
    disk_total_bytes = pos (disk_bytes blocks size);
    disk_available_bytes = pos (disk_bytes free size);
    deployment_count = pos count;
    active_deployment_count = pos active;
  })
