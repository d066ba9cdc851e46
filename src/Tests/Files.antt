-- ===== src/Tests/Files.antt =====
-- The theorems on the local storage and on the host's resources, at concrete runs.
use centralcloud_agent.Prelude.{pos, ◌^◌, trim_last, insert, lookup}
use centralcloud_agent.Prelude.{
  ◌≡◌, ◌↔◌, refl, true, Option, none, some, [], ◌∷◌, codes, length, ltb, if◌then◌else◌, has_prefix,
  to_lower, same, split, trim_space, drop_space,
}
use centralcloud_agent.Errors.{Err, ok, sentinel, file_missing, is_error}
use centralcloud_agent.Domain.Model.{Call, system}
use centralcloud_agent.Domain.Syntax.{uuid_re}
use centralcloud_agent.Domain.Validate.{validate_deployment_id}
use centralcloud_agent.Localstorage.Files.{
  directory, regular, lstat, base, is_strict_child, rel, join_path, follow,
}
use centralcloud_agent.Localstorage.{
  Manager, ensure_panel, purge_panel, purge_owned_directory, purge_at, purge_existing,
  empty_quarantine, verify_marker, marker_path, deployment_path, owned_directory_exists,
}
use centralcloud_agent.Localstorage.Names.{Below, is_strict_child_iff}
use centralcloud_agent.Localstorage.Confined.{Confined, panel-Confined}
use centralcloud_agent.Localstorage.Marked.{IsMarked, wipes, wipe-IsMarked}
use centralcloud_agent.Runtime.{Env, pure, attempt, invoke, invoke_for, ◌>>=◌}
use centralcloud_agent.Runtime.Ends.{Stays}
use centralcloud_agent.Config.Validate.{digits_value}
use centralcloud_agent.Resources.{
  disk_bytes, max_int64, memory_values, read_lines, add_line, fields, pieces, not_empty,
  parse_int64,
}
use centralcloud_agent.Resources.Bounds.{smaller, exact_bytes, disk_bytes_lem}
use centralcloud_agent.Tests.Fixtures.{env, empty_world, deployment_id}

abbrev manager : Manager
manager = record { panel_root = codes "panels" ∷ []; backup_root = codes "backups" ∷ [] }

abbrev no_quarantine : Call → Option Err
no_quarantine (system (lstat p)) =
    if has_prefix (base p) (codes ".purging-") then some (sentinel file_missing) else none
no_quarantine _ = none

-- The deployment has a directory and a marker, and none is moved aside.
abbrev disk : Env
disk = record env {
  call_failure = λ n c. no_quarantine c;
  kind = λ n p. if ltb (length p) 3 then directory else regular;
}

panel-Confined_example :
    Stays
      (Confined manager.panel_root (to_lower deployment_id))
      (ensure_panel manager deployment_id)
    × Stays
        (Confined manager.panel_root (to_lower deployment_id))
        (purge_panel manager deployment_id)
panel-Confined_example = panel-Confined manager deployment_id

removes : wipes (purge_panel manager deployment_id disk empty_world).1.trace ≡ true
unfolding purge_panel purge_owned_directory purge_at purge_existing empty_quarantine verify_marker
    marker_path deployment_path owned_directory_exists join_path follow split is_strict_child rel
    same to_lower validate_deployment_id uuid_re trim_space drop_space has_prefix is_error pure
    attempt invoke invoke_for ◌>>=◌
removes = refl

wipe-IsMarked_example : IsMarked manager.panel_root deployment_id disk
wipe-IsMarked_example = wipe-IsMarked manager deployment_id disk empty_world refl removes

is_strict_child_iff_example :
    (is_strict_child (codes "panels" ∷ []) (codes "panels" ∷ codes "a" ∷ []) ≡ true)
    ↔ Below (codes "panels" ∷ []) (codes "panels" ∷ codes "a" ∷ [])
is_strict_child_iff_example =
    is_strict_child_iff (codes "panels" ∷ []) (codes "panels" ∷ codes "a" ∷ [])

-- Two blocks of half of what an int64 holds, and one byte more.
disk_bytes_lem_example :
    disk_bytes 2 (pos (2 ^ 62)) ≡ smaller (exact_bytes 2 (pos (2 ^ 62))) max_int64
disk_bytes_lem_example = disk_bytes_lem 2 (pos (2 ^ 62))

-- A line of /proc/meminfo.
meminfo :
    memory_values (read_lines (codes "MemTotal:       16 kB" ∷ codes "MemAvailable: 8 kB" ∷ []) [])
    ≡ ok (pos 16384, pos 8192)
unfolding memory_values read_lines add_line fields pieces not_empty trim_last insert lookup
    parse_int64 digits_value same
meminfo = refl
