-- ===== src/Localstorage/Confined.antt =====
-- Which paths internal/localstorage/storage.go touches.
use centralcloud_agent.Prelude.{
  ℕ, ◌≡◌, refl, sym, subst, to_lower_idem, Bool, true, false, List, [], ◌∷◌, ◌++◌, Bytes, codes,
  same, to_lower, All, contains_byte, is_empty, none,
}
use centralcloud_agent.Errors.{Result, ok, err}
use centralcloud_agent.Domain.Model.{Call, system}
use centralcloud_agent.Domain.Syntax.{uuid_re}
use centralcloud_agent.Domain.Validate.{validate_deployment_id, uuid_of-validate_deployment_id}
use centralcloud_agent.Localstorage.Files.{
  FilePath, FileKind, lstat, mkdir, mkdir_all, chmod, open_new, write_string, close_file, read_file,
  remove_entry, remove_all, rename, join_path,
}
use centralcloud_agent.Localstorage.Names.{is_name, join_name, uuid-is_name, all_not}
use centralcloud_agent.Localstorage.Marked.{in_context-Stays, if-Stays}
use centralcloud_agent.Localstorage.{
  Manager, owner_directory, stat, verify_marker, marker_path, deployment_path, owned_kind,
  owned_directory_exists, or_missing, forget_marker, empty_quarantine, purge_existing,
  purge_owned_directory, purge_panel, quarantine_path, written, opened, ensure_marker,
  made_directory, or_make, ensure_at, purge_at, ensure_owned_directory, ensure_panel,
}
use centralcloud_agent.Runtime.{Env, Event, Act, invoke, invoke_for}
use centralcloud_agent.Runtime.Ends.{
  Ends, Stays, Ends-bind, Ends-pure, Ends-check, Ends-assume, Stays-refuse_if, Stays-bind,
  Stays-raise, Stays-ignore, Stays-invoke, Stays-invoke_for, stays_rules,
}

-- The directory of a deployment, where it is moved to be removed, and its marker.
abbrev pub own_directory : FilePath → Bytes → FilePath
own_directory root name = root ++ (name ∷ [])

abbrev pub own_quarantine : FilePath → Bytes → FilePath
own_quarantine root name = root ++ ((codes ".purging-" ++ name) ∷ [])

abbrev pub own_marker : FilePath → Bytes → FilePath
own_marker root name = (root ++ (owner_directory ∷ [])) ++ (name ∷ [])

-- A call that reads, or that changes what belongs to the deployment `name` under `root`.
abbrev pub Own : FilePath → Bytes → Call → Type 0
Own root name (system (lstat p)) = Unit
Own root name (system (read_file p)) = Unit
Own root name (system (mkdir p)) = p ≡ own_directory root name
Own root name (system (chmod p)) = p ≡ own_directory root name
Own root name (system (mkdir_all p)) = p ≡ root ++ (owner_directory ∷ [])
Own root name (system (open_new p)) = p ≡ own_marker root name
Own root name (system (write_string p text)) = p ≡ own_marker root name
Own root name (system (close_file p)) = p ≡ own_marker root name
Own root name (system (remove_entry p)) = p ≡ own_marker root name
Own root name (system (remove_all p)) = p ≡ own_quarantine root name
Own root name (system (rename p q)) = (p ≡ own_directory root name) × (q ≡ own_quarantine root name)
Own root name _ = ⊥

abbrev pub Confined : FilePath → Bytes → List Event → Type 0
Confined root name t = All (λ e. Own root name e.call) t

owners-is_name : is_name owner_directory ≡ true
unfolding contains_byte same
owners-is_name = refl

purging-is_name : (s : Bytes) → is_name s ≡ true → is_name (codes ".purging-" ++ s) ≡ true
unfolding contains_byte same
purging-is_name s h =
    rw (all_not (contains_byte b'/' s) (is_empty s) (same s (codes ".")) (same s (codes "..")) h).0
      refl

module _ (root : FilePath) (id : Bytes) (valid : uuid_re (to_lower id) ≡ true) where
  abbrev Inside : {A : Type 0} → Act A → Type 0
  Inside m = Stays (Confined root (to_lower id)) m

  directory_at : join_path root (to_lower id) ≡ own_directory root (to_lower id)
  directory_at = join_name root _ (uuid-is_name _ valid)

  marker_at : marker_path root id ≡ own_marker root (to_lower id)
  unfolding marker_path
  marker_at =
      rw (join_name root owner_directory owners-is_name) (join_name _ _ (uuid-is_name _ valid))

  quarantine_at : quarantine_path root id ≡ own_quarantine root (to_lower id)
  quarantine_at = join_name root _ (purging-is_name (to_lower id) (uuid-is_name _ valid))

  call-Inside : (c : Call) → Own root (to_lower id) c → Inside (invoke c)
  call-Inside c o = Stays-invoke c (λ b t h. (o, h))

  call_for-Inside :
      {A : Type 0} (c : Call) (f : Env → ℕ → A) → Own root (to_lower id) c → Inside (invoke_for c f)
  call_for-Inside c f o = Stays-invoke_for c f (λ b t h. (o, h))

  stat-Inside : (p : FilePath) → Inside (stat p)
  stat-Inside p = call_for-Inside _ _ tt

  verify_marker-Inside : Inside (verify_marker root id)
  unfolding verify_marker
  verify_marker-Inside =
      search (stays_rules, in_context-Stays, stat-Inside, call_for-Inside) depth 12

  owners_at : join_path root owner_directory ≡ root ++ (owner_directory ∷ [])
  owners_at = join_name root owner_directory owners-is_name

  written-Inside : (r : Result (Unit {0})) → Inside (written (marker_path root id) r)
  written-Inside (ok u) = call-Inside _ marker_at
  written-Inside (err e) =
      Stays-bind _ _ (Stays-ignore _ (call-Inside _ marker_at)) λ _. Stays-raise e

  opened-Inside : (r : Result (Unit {0})) → Inside (opened root id r)
  opened-Inside (ok u) = search (stays_rules, call-Inside, marker_at, written-Inside) depth 9
  opened-Inside (err e) = search (stays_rules, if-Stays, verify_marker-Inside)

  ensure_marker-Inside : Inside (ensure_marker root id)
  unfolding ensure_marker
  ensure_marker-Inside =
      search (stays_rules, call-Inside, marker_at, owners_at, stat-Inside, opened-Inside) depth 12

  made_directory-Inside : (r : Result (Unit {0})) → Inside (made_directory r)
  made_directory-Inside (ok u) = search stays_rules
  made_directory-Inside (err e) = search (stays_rules, if-Stays)

  or_make-Inside : (s : Result FileKind) → Inside (or_make (join_path root (to_lower id)) s)
  or_make-Inside (ok k) = search stays_rules
  or_make-Inside (err e) =
      search (stays_rules, if-Stays, call-Inside, directory_at, made_directory-Inside) depth 9

  owned_kind-Inside : (s : Result FileKind) → Inside (owned_kind root id s)
  owned_kind-Inside (ok k) = search (stays_rules, verify_marker-Inside) depth 9
  owned_kind-Inside (err e) = search (stays_rules, if-Stays)

  owned_directory_exists-Inside : (p : FilePath) → Inside (owned_directory_exists root p id)
  unfolding owned_directory_exists
  owned_directory_exists-Inside p = search (stays_rules, stat-Inside, owned_kind-Inside) depth 9

  or_missing-Inside :
      (r : Result (Unit {0})) (next : Act (Unit {0})) → Inside next → Inside (or_missing r next)
  or_missing-Inside (ok u) next k = k
  or_missing-Inside (err e) next k = search (stays_rules, if-Stays)

  ruleset inside_rules = (
    stays_rules, call-Inside, marker_at, quarantine_at, directory_at, verify_marker-Inside,
    or_missing-Inside,
  )

  forget_marker-Inside : Inside (forget_marker root id)
  unfolding forget_marker
  forget_marker-Inside = search inside_rules depth 9

  empty_quarantine-Inside : Inside (empty_quarantine root id)
  unfolding empty_quarantine
  empty_quarantine-Inside = search inside_rules depth 9

  purge_existing-Inside :
      (b q : Bool) → Inside (purge_existing root id (join_path root (to_lower id)) b q)
  unfolding purge_existing
  purge_existing-Inside true q =
      Stays-bind _ _ (search inside_rules) λ _.
        Stays-bind _ _ (call-Inside _ (directory_at, quarantine_at)) λ _. empty_quarantine-Inside
  purge_existing-Inside false true = empty_quarantine-Inside
  purge_existing-Inside false false = forget_marker-Inside

  ensure_at-Inside : Inside (ensure_at root id (join_path root (to_lower id)))
  unfolding ensure_at
  ensure_at-Inside =
      search
        (stays_rules, stat-Inside, or_make-Inside, call-Inside, directory_at, ensure_marker-Inside)
        depth 16

  purge_at-Inside : Inside (purge_at root id (join_path root (to_lower id)))
  unfolding purge_at
  purge_at-Inside =
      search (stays_rules, owned_directory_exists-Inside, purge_existing-Inside) depth 12

-- The check of an identifier returns only for a UUID, and then the path.
abbrev At : FilePath → Bytes → FilePath → List Event → Type 0
At root id path t =
    Confined root (to_lower id) t
    × ((uuid_re (to_lower id) ≡ true) × (path ≡ join_path root (to_lower id)))

module _ (root : FilePath) (id : Bytes) where
  is_uuid : validate_deployment_id (to_lower id) ≡ none → uuid_re (to_lower id) ≡ true
  is_uuid h = subst (λ s. uuid_re s ≡ true) (to_lower_idem id) (uuid_of-validate_deployment_id _ h)

  deployment_path-Ends :
      Ends
        (Confined root (to_lower id))
        (At root id)
        (Confined root (to_lower id))
        (deployment_path root id)
  unfolding deployment_path
  deployment_path-Ends = Ends-bind _ _ (Ends-check _ is_uuid) λ _.
      Ends-assume _
        λ u. Ends-bind _ _ (Stays-refuse_if _ _) λ _. Ends-pure _ (λ t h. (h, (u, refl)))

  ensure-Confined : Stays (Confined root (to_lower id)) (ensure_owned_directory root id)
  unfolding ensure_owned_directory
  ensure-Confined = Ends-bind _ _ deployment_path-Ends λ path. Ends-assume _ λ f.
      subst (λ p. Stays (Confined root (to_lower id)) (ensure_at root id p)) (sym f.1)
        (ensure_at-Inside root id f.0)

  purge-Confined : Stays (Confined root (to_lower id)) (purge_owned_directory root id)
  unfolding purge_owned_directory
  purge-Confined = Ends-bind _ _ deployment_path-Ends λ path. Ends-assume _ λ f.
      subst (λ p. Stays (Confined root (to_lower id)) (purge_at root id p)) (sym f.1)
        (purge_at-Inside root id f.0)

-- Whatever the file system answers and which calls fail, EnsurePanel and PurgePanel make no system call
-- but reads, and calls that change the deployment's own directory under the root, the place where it is
-- moved to be removed, its marker, and the directory of the markers, which is only made.
pub panel-Confined :
    (m : Manager) (id : Bytes)
    → Stays (Confined m.panel_root (to_lower id)) (ensure_panel m id)
      × Stays (Confined m.panel_root (to_lower id)) (purge_panel m id)
unfolding ensure_panel purge_panel
panel-Confined m id = (ensure-Confined m.panel_root id, purge-Confined m.panel_root id)
