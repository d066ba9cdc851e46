-- ===== src/Localstorage.antt =====
-- internal/localstorage/storage.go: the directories of the panels and of the backups. Every system call
-- may fail, and the file system may change between any two of them.
pub mod Files
pub mod Names
pub mod Confined
pub mod Marked
use centralcloud_agent.Prelude.{
  ℕ, Bool, true, false, not, ◌&&◌, ◌||◌, Option, none, some, List, [], ◌∷◌, ◌++◌, ◌==◌,
  if◌then◌else◌, Bytes, codes, same, is_empty, split, to_lower, trim_space,
}
use centralcloud_agent.Errors.{
  Err, Result, ok, err, plain, wrap, is_error, file_missing, file_exists,
}
use centralcloud_agent.Domain.Model.{system}
use centralcloud_agent.Domain.Validate.{validate_deployment_id}
use centralcloud_agent.Localstorage.Files.{
  FilePath, FileKind, directory, symlink, regular, special, SystemCall, lstat, mkdir, mkdir_all,
  chmod, eval_symlinks, open_new, write_string, close_file, read_file, remove_entry, remove_all,
  rename, follow, join_path, is_strict_child, base,
}
use centralcloud_agent.Runtime.{
  Act, pure, raise, lift, attempt, ignore, invoke, invoke_for, check, refuse_if, ◌>>=◌, ◌>>◌,
}

pub record Manager : Type 0 where
  pub panel_root : FilePath
  pub backup_root : FilePath

abbrev pub owner_directory : Bytes
owner_directory = codes ".centralcloud-owners"

abbrev is_absolute : Bytes → Bool
is_absolute [] = false
is_absolute (b ∷ s) = b == b'/'

abbrev is_root : FilePath → Bool
is_root [] = true
is_root (s ∷ p) = false

abbrev root_refused : Err
root_refused = plain (codes "filesystem root is not allowed")

unfoldable pub canonical_root : Bytes → Act FilePath
canonical_root raw = do
  refuse_if (is_empty raw || not (is_absolute raw)) (plain (codes "path must be absolute"))
  let clean = follow [] (split b'/' raw)
  refuse_if (is_root clean) root_refused
  invoke (system (mkdir_all clean))
  resolved ← invoke_for (system (eval_symlinks clean)) (λ env n. env.resolved n clean)
  refuse_if (is_root resolved) root_refused
  pure resolved

abbrev same_path : FilePath → FilePath → Bool
same_path [] [] = true
same_path (a ∷ p) (b ∷ q) = same a b && same_path p q
same_path _ _ = false

abbrev pub in_context : {A : Type 0} → Bytes → Result A → Act A
in_context what (ok a) = pure a
in_context what (err e) = raise (wrap what e)

unfoldable pub new_manager : Bytes → Bytes → Act Manager
new_manager panel backup = do
  p ← attempt (canonical_root panel)
  panel_root ← in_context (codes "panel storage root") p
  b ← attempt (canonical_root backup)
  backup_root ← in_context (codes "backup storage root") b
  refuse_if
      (same_path panel_root backup_root
        || is_strict_child panel_root backup_root
        || is_strict_child backup_root panel_root)
      (plain (codes "panel and backup storage roots must be distinct and non-nested"))
  pure (record { panel_root = panel_root; backup_root = backup_root })

unfoldable pub deployment_path : FilePath → Bytes → Act FilePath
deployment_path root id = do
  check (validate_deployment_id (to_lower id))
  let path = join_path root (to_lower id)
  refuse_if (not (is_strict_child root path) || not (same (base path) (to_lower id)))
      (plain (codes "deployment storage path escapes configured root"))
  pure path

unfoldable pub marker_path : FilePath → Bytes → FilePath
marker_path root id = join_path (join_path root owner_directory) (to_lower id)

-- os.Lstat
abbrev pub stat : FilePath → Act FileKind
stat path = invoke_for (system (lstat path)) (λ env n. env.kind n path)

abbrev pub is_directory : FileKind → Bool
is_directory directory = true
is_directory _ = false

abbrev pub is_regular : FileKind → Bool
is_regular regular = true
is_regular _ = false

unfoldable pub verify_marker : FilePath → Bytes → Act (Unit {0})
verify_marker root id = do
  s ← attempt (stat (marker_path root id))
  kind ← in_context (codes "deployment ownership marker") s
  refuse_if (not (is_regular kind))
      (plain (codes "deployment ownership marker is not a regular file"))
  value ←
      invoke_for (system (read_file (marker_path root id)))
        (λ env n. env.content n (marker_path root id))
  refuse_if (not (same (trim_space value) (to_lower id)))
      (plain (codes "deployment ownership marker does not match deployment_id"))

abbrev written : FilePath → Result (Unit {0}) → Act (Unit {0})
written marker (ok _) = invoke (system (close_file marker))
written marker (err e) = do ignore (invoke (system (close_file marker))); raise e

-- What follows the attempt to make the marker.
abbrev opened : FilePath → Bytes → Result (Unit {0}) → Act (Unit {0})
opened root id (ok _) = do
  r ← attempt (invoke (system (write_string (marker_path root id) (to_lower id ++ codes "\n"))))
  written (marker_path root id) r
opened root id (err e) = if is_error file_exists e then verify_marker root id else raise e

abbrev pub is_real_directory : Result FileKind → Bool
is_real_directory (ok k) = is_directory k
is_real_directory (err e) = false

unfoldable pub ensure_marker : FilePath → Bytes → Act (Unit {0})
ensure_marker root id = do
  let owners = join_path root owner_directory
  refuse_if (not (is_strict_child root owners))
      (plain (codes "ownership directory escapes configured root"))
  invoke (system (mkdir_all owners))
  s ← attempt (stat owners)
  refuse_if (not (is_real_directory s)) (plain (codes "ownership path is not a real directory"))
  o ← attempt (invoke (system (open_new (marker_path root id))))
  opened root id o

abbrev made_directory : Result (Unit {0}) → Act (Unit {0})
made_directory (ok _) = pure tt
made_directory (err e) = if is_error file_exists e then pure tt else raise e

-- The switch on the first Lstat.
abbrev or_make : FilePath → Result FileKind → Act (Unit {0})
or_make path (ok k) =
    refuse_if (not (is_directory k))
      (plain (codes "deployment storage path is not a real directory"))
or_make path (err e) =
    if is_error file_missing e
    then (do r ← attempt (invoke (system (mkdir path))); made_directory r)
    else raise e

-- ensureOwnedDirectory behind the check of the identifier.
unfoldable pub ensure_at : FilePath → Bytes → FilePath → Act FilePath
ensure_at root id path = do
  first ← attempt (stat path)
  or_make path first
  second ← attempt (stat path)
  refuse_if (not (is_real_directory second))
      (plain (codes "deployment storage path changed during validation"))
  invoke (system (chmod path))
  ensure_marker root id
  pure path

unfoldable pub ensure_owned_directory : FilePath → Bytes → Act FilePath
ensure_owned_directory root id = do path ← deployment_path root id; ensure_at root id path

abbrev owned_kind : FilePath → Bytes → Result FileKind → Act Bool
owned_kind root id (err e) = if is_error file_missing e then pure false else raise e
owned_kind root id (ok k) = do
  refuse_if (not (is_directory k)) (plain (codes "owned path is not a real directory"))
  verify_marker root id
  pure true

unfoldable pub owned_directory_exists : FilePath → FilePath → Bytes → Act Bool
owned_directory_exists root path id = do s ← attempt (stat path); owned_kind root id s

-- An error that says that the file is missing is none.
abbrev or_missing : Result (Unit {0}) → Act (Unit {0}) → Act (Unit {0})
or_missing (ok _) next = next
or_missing (err e) next = if is_error file_missing e then pure tt else raise e

abbrev pub quarantine_path : FilePath → Bytes → FilePath
quarantine_path root id = join_path root (codes ".purging-" ++ to_lower id)

-- Nothing to remove but the marker.
unfoldable pub forget_marker : FilePath → Bytes → Act (Unit {0})
forget_marker root id = do
  v ← attempt (verify_marker root id)
  or_missing v (invoke (system (remove_entry (marker_path root id))))

unfoldable pub empty_quarantine : FilePath → Bytes → Act (Unit {0})
empty_quarantine root id = do
  verify_marker root id
  invoke (system (remove_all (quarantine_path root id)))
  r ← attempt (invoke (system (remove_entry (marker_path root id))))
  or_missing r (pure tt)

-- The directory is moved aside, and then removed.
unfoldable pub purge_existing : FilePath → Bytes → FilePath → Bool → Bool → Act (Unit {0})
purge_existing root id path true quarantined = do
  refuse_if quarantined (plain (codes "both active and quarantined deployment storage exist"))
  invoke (system (rename path (quarantine_path root id)))
  empty_quarantine root id
purge_existing root id path false true = empty_quarantine root id
purge_existing root id path false false = forget_marker root id

-- purgeOwnedDirectory behind the check of the identifier.
unfoldable pub purge_at : FilePath → Bytes → FilePath → Act (Unit {0})
purge_at root id path = do
  refuse_if (not (is_strict_child root (quarantine_path root id)))
      (plain (codes "invalid quarantine path"))
  exists ← owned_directory_exists root path id
  quarantined ← owned_directory_exists root (quarantine_path root id) id
  purge_existing root id path exists quarantined

unfoldable pub purge_owned_directory : FilePath → Bytes → Act (Unit {0})
purge_owned_directory root id = do path ← deployment_path root id; purge_at root id path

unfoldable pub ensure_panel : Manager → Bytes → Act FilePath
ensure_panel m id = ensure_owned_directory m.panel_root id

unfoldable pub ensure_backup : Manager → Bytes → Act FilePath
ensure_backup m id = ensure_owned_directory m.backup_root id

unfoldable pub purge_panel : Manager → Bytes → Act (Unit {0})
purge_panel m id = purge_owned_directory m.panel_root id

unfoldable pub purge_backups : Manager → Bytes → Act (Unit {0})
purge_backups m id = purge_owned_directory m.backup_root id
