-- ===== src/Errors.antt =====
-- The errors of internal/domain/errors.go and the ways in which the agent wraps an error.
pub mod Faults
use centralcloud_agent.Prelude.{Bool, true, false, ◌||◌, ◌++◌, Bytes, codes}

-- domain.ErrNotFound, domain.ErrConflict, domain.ErrCapacity; os.ErrNotExist, os.ErrExist
pub data Sentinel : Type 0 where
  not_found conflict capacity : Sentinel
  file_missing file_exists : Sentinel

-- `plain` is errors.New, or an error of another package; `wrap p e` is fmt.Errorf("p: %w", e);
-- `wrap_both p e q f` is fmt.Errorf("p: %w; q: %w", e, f); `both e f` is errors.Join(e, f).
pub data Err : Type 0 where
  sentinel : Sentinel → Err
  plain : Bytes → Err
  wrap : Bytes → Err → Err
  wrap_both : Bytes → Err → Bytes → Err → Err
  both : Err → Err → Err
  rolled_back : Err → Err

abbrev sentinel_text : Sentinel → Bytes
sentinel_text not_found = codes "not found"
sentinel_text conflict = codes "conflict"
sentinel_text capacity = codes "node capacity exceeded"
sentinel_text file_missing = codes "file does not exist"
sentinel_text file_exists = codes "file already exists"

-- e.Error()
unfoldable pub message : Err → Bytes
message (sentinel s) = sentinel_text s
message (plain m) = m
message (wrap p e) = p ++ (codes ": " ++ message e)
message (wrap_both p e q f) =
    p ++ (codes ": " ++ (message e ++ (codes "; " ++ (q ++ (codes ": " ++ message f)))))
message (both e f) = message e ++ (codes "\n" ++ message f)
message (rolled_back e) = codes "upgrade rolled back: " ++ message e

abbrev pub same_sentinel : Sentinel → Sentinel → Bool
same_sentinel not_found not_found = true
same_sentinel conflict conflict = true
same_sentinel capacity capacity = true
same_sentinel file_missing file_missing = true
same_sentinel file_exists file_exists = true
same_sentinel _ _ = false

-- errors.Is(e, target)
unfoldable pub is_error : Sentinel → Err → Bool
is_error target (sentinel s) = same_sentinel s target
is_error target (plain m) = false
is_error target (wrap p e) = is_error target e
is_error target (wrap_both p e q f) = is_error target e || is_error target f
is_error target (both e f) = is_error target e || is_error target f
is_error target (rolled_back e) = is_error target e

-- errors.As(e, &rolledBack)
unfoldable pub is_rolled_back : Err → Bool
is_rolled_back (sentinel s) = false
is_rolled_back (plain m) = false
is_rolled_back (wrap p e) = is_rolled_back e
is_rolled_back (wrap_both p e q f) = is_rolled_back e || is_rolled_back f
is_rolled_back (both e f) = is_rolled_back e || is_rolled_back f
is_rolled_back (rolled_back e) = true

pub data Result (A : Type 0) : Type 0 where
  ok : A → Result A
  err : Err → Result A
