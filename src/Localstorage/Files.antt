-- ===== src/Localstorage/Files.antt =====
-- The file system as internal/localstorage/storage.go sees it: paths, calls, and what a path is. A path
-- is absolute and clean, as the list of its segments; the empty list is the root.
use centralcloud_agent.Prelude.{
  Bool, false, not, List, [], ◌∷◌, ◌++◌, if◌then◌else◌, Bytes, codes, same, is_empty, split,
}

abbrev pub FilePath : Type 0
FilePath = List Bytes

-- os.Lstat's mode
pub data FileKind : Type 0 where
  directory symlink regular special : FileKind

pub data SystemCall : Type 0 where
  lstat mkdir mkdir_all chmod eval_symlinks : FilePath → SystemCall
  -- os.OpenFile with O_WRONLY, O_CREATE and O_EXCL
  open_new : FilePath → SystemCall
  write_string : FilePath → Bytes → SystemCall
  close_file read_file remove_entry remove_all : FilePath → SystemCall
  rename : FilePath → FilePath → SystemCall

-- The path without its last segment.
abbrev pub parent : FilePath → FilePath
parent [] = []
parent (s ∷ []) = []
parent (s ∷ t ∷ rest) = s ∷ parent (t ∷ rest)

-- One segment of a path that filepath.Clean goes through.
abbrev pub step_into : FilePath → Bytes → FilePath
step_into p s =
    if is_empty s
    then p
    else if same s (codes ".")
    then p
    else if same s (codes "..")
    then parent p
    else p ++ (s ∷ [])

unfoldable pub follow : FilePath → List Bytes → FilePath
unfolding same
follow p [] = p
follow p (s ∷ rest) = follow (step_into p s) rest

-- filepath.Join(p, name)
unfoldable pub join_path : FilePath → Bytes → FilePath
unfolding follow split
join_path p name = follow p (split b'/' name)

-- As many ".." as a path has segments, before another path.
abbrev pub up_from : FilePath → FilePath → FilePath
up_from [] p = p
up_from (s ∷ rest) p = codes ".." ∷ up_from rest p

-- filepath.Rel(root, path)
unfoldable pub rel : FilePath → FilePath → FilePath
unfolding same
rel [] p = p
rel (a ∷ r) [] = up_from (a ∷ r) []
rel (a ∷ r) (b ∷ p) = let rest = rel r p in if same a b then rest else up_from (a ∷ r) (b ∷ p)

abbrev pub goes_down : FilePath → Bool
goes_down [] = false
goes_down (s ∷ rest) = not (same s (codes ".."))

unfoldable pub is_strict_child : FilePath → FilePath → Bool
unfolding rel same
is_strict_child root path = goes_down (rel root path)

-- filepath.Base
abbrev pub base : FilePath → Bytes
base [] = codes "/"
base (s ∷ []) = s
base (s ∷ t ∷ rest) = base (t ∷ rest)
