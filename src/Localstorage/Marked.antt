-- ===== src/Localstorage/Marked.antt =====
-- When internal/localstorage/storage.go removes a directory.
use centralcloud_agent.Prelude.{
  ℕ, ◌≡◌, Bool, true, false, ◌⊎◌, inl, inr, List, [], ◌∷◌, ◌||◌, Bytes, same, to_lower, trim_space,
  if◌then◌else◌, ap, ◌∙◌,
}
use centralcloud_agent.Errors.{Result, ok, err}
use centralcloud_agent.Errors.Faults.{true_of_not}
use centralcloud_agent.Domain.Model.{Call, system}
use centralcloud_agent.Localstorage.Files.{FilePath, FileKind, remove_all}
use centralcloud_agent.Localstorage.{
  Manager, in_context, verify_marker, marker_path, deployment_path, owned_kind,
  owned_directory_exists, or_missing, forget_marker, empty_quarantine, purge_existing, purge_at,
  purge_owned_directory, purge_panel,
}
use centralcloud_agent.Runtime.{Env, World, Event, Act}
use centralcloud_agent.Runtime.Ends.{
  Ends, Stays, Stays-pure, Stays-raise, Stays-invoke, Stays-invoke_for, stays_rules, event,
}
use centralcloud_agent.Runtime.Shows.{
  Shows, Shows-bind, Shows-any, Shows-invoke_for, Shows-refuse_if, Unless, Unless-of_Stays,
  Unless-guard, Unless-bind,
}

abbrev is_wipe : Call → Bool
is_wipe (system (remove_all _)) = true
is_wipe _ = false

-- Whether os.RemoveAll was called.
abbrev pub wipes : List Event → Bool
wipes [] = false
wipes (e ∷ t) = is_wipe e.call || wipes t

abbrev NoWipe : List Event → Type 0
NoWipe t = wipes t ≡ false

-- The ownership marker of a deployment has been read, and has its identifier for text.
abbrev pub IsMarked : FilePath → Bytes → Env → Type 0
IsMarked root id env =
    (n : ℕ) × (same (trim_space (env.content n (marker_path root id))) (to_lower id) ≡ true)

module _ {I : List Event → Type 0} {A : Type 0} where
  pub in_context-Stays : (what : Bytes) (r : Result A) → Ends I (λ a t. I t) I (in_context what r)
  in_context-Stays what (ok a) = Stays-pure a
  in_context-Stays what (err e) = Stays-raise _

  pub if-Stays :
      (b : Bool) (m n : Act A)
      → Ends I (λ a t. I t) I m
      → Ends I (λ a t. I t) I n
      → Ends I (λ a t. I t) I (if b then m else n)
  if-Stays true m n k l = k
  if-Stays false m n k l = l

pub ruleset file_rules = (stays_rules, Stays-invoke, Stays-invoke_for, in_context-Stays, if-Stays)

deployment_path-Stays :
    {I : List Event → Type 0} (root : FilePath) (id : Bytes) → Stays I (deployment_path root id)
unfolding deployment_path
deployment_path-Stays root id = search file_rules depth 9

verify_marker-Stays : (root : FilePath) (id : Bytes) → Stays NoWipe (verify_marker root id)
unfolding verify_marker
verify_marker-Stays root id = search file_rules depth 12

owned_kind-Stays :
    (root : FilePath) (id : Bytes) (s : Result FileKind) → Stays NoWipe (owned_kind root id s)
owned_kind-Stays root id (ok k) = search (file_rules, verify_marker-Stays) depth 9
owned_kind-Stays root id (err e) = search file_rules depth 9

owned_directory_exists-Stays :
    (root path : FilePath) (id : Bytes) → Stays NoWipe (owned_directory_exists root path id)
unfolding owned_directory_exists
owned_directory_exists-Stays root path id = search (file_rules, owned_kind-Stays) depth 9

or_missing-Stays :
    (r : Result (Unit {0})) (next : Act (Unit {0}))
    → Stays NoWipe next
    → Stays NoWipe (or_missing r next)
or_missing-Stays (ok u) next k = k
or_missing-Stays (err e) next k = search file_rules

forget_marker-Stays : (root : FilePath) (id : Bytes) → Stays NoWipe (forget_marker root id)
unfolding forget_marker
forget_marker-Stays root id = search (file_rules, verify_marker-Stays, or_missing-Stays) depth 9

verify_marker-Shows :
    (root : FilePath) (id : Bytes)
    → Shows (λ env. Unit {0}) (λ env u. IsMarked root id env) (verify_marker root id)
unfolding verify_marker
verify_marker-Shows root id = Shows-bind _ _ (Shows-any _) λ s. Shows-bind _ _ (Shows-any _) λ kind.
    Shows-bind _ _ (Shows-any _) λ _. Shows-bind _ _ (Shows-invoke_for _ _) λ value.
      Shows-refuse_if _ _
        (λ env p h. (p.0, ap (λ v. same (trim_space v) (to_lower id)) p.1 ∙ true_of_not _ h))

module _ (root : FilePath) (id : Bytes) where
  empty_quarantine-Unless : Unless (IsMarked root id) NoWipe (empty_quarantine root id)
  unfolding empty_quarantine
  empty_quarantine-Unless =
      Unless-guard _ _ (verify_marker-Stays root id) (verify_marker-Shows root id)

  purge_existing-Unless :
      (path : FilePath) (b q : Bool)
      → Unless (IsMarked root id) NoWipe (purge_existing root id path b q)
  unfolding purge_existing
  purge_existing-Unless path true q =
      Unless-bind _ _ (Unless-of_Stays _ (search file_rules))
        λ _. Unless-bind _ _ (Unless-of_Stays _ (search file_rules)) λ _. empty_quarantine-Unless
  purge_existing-Unless path false true = empty_quarantine-Unless
  purge_existing-Unless path false false = Unless-of_Stays _ (forget_marker-Stays root id)

  purge-Unless : Unless (IsMarked root id) NoWipe (purge_owned_directory root id)
  unfolding purge_owned_directory purge_at
  purge-Unless = Unless-bind _ _ (Unless-of_Stays _ (deployment_path-Stays root id)) λ path.
      Unless-bind _ _ (Unless-of_Stays _ (search file_rules)) λ _.
        Unless-bind _ _ (Unless-of_Stays _ (owned_directory_exists-Stays root path id)) λ b.
          Unless-bind _ _ (Unless-of_Stays _ (owned_directory_exists-Stays root _ id))
            λ q. purge_existing-Unless path b q

-- When PurgePanel calls os.RemoveAll, on a file system that may change at any time, it has read the
-- deployment's ownership marker, and the text there is the deployment's identifier.
pub wipe-IsMarked :
    (m : Manager) (id : Bytes) (env : Env) (w : World)
    → wipes w.trace ≡ false
    → wipes (purge_panel m id env w).1.trace ≡ true
    → IsMarked m.panel_root id env
unfolding purge_panel
wipe-IsMarked m id env w h d = unless ((purge-Unless m.panel_root id).at env w h)
  where
    unless :
        NoWipe (purge_panel m id env w).1.trace ⊎ IsMarked m.panel_root id env
        → IsMarked m.panel_root id env
    unless (inl none_called) = absurd cc
    unless (inr g) = g
