-- ===== src/Worker/Commit/Safe.antt =====
-- The commits, where the target can always be read again: each leaves a session, whichever way it
-- ends.
use apfs_for_windows.Common.{
  Bool, Option, Qt, Text, codes, false, none, some, true, ℕ, ◌≡◌, if◌then◌else◌,
}
use apfs_for_windows.Worker.Call.{
  Status, Call, Outcome, ok, err, ended, null_session, dangling_context, test_fault, pure, fail,
  modify, ◌>>=◌, ◌>>◌, Reaches,
}
use apfs_for_windows.Worker.Call.Safe.{
  Safe, safe_rules, Leads, Leads-bind, Leads-then, Leads-modify, Leads-gets, Leads-pure, Leads-fail,
  Safe-Leads,
}
use apfs_for_windows.Worker.Core.{Core, Host, Mutation, MetadataUpdate}
use apfs_for_windows.Worker.Mount.{Mounted, reload_target_no_lock, on_world}
use apfs_for_windows.Worker.Mount.Safe.{
  Live-Readable, SameFlags, Live, Reopens, reload_lem, resolve_path_no_lock-Safe,
}
use apfs_for_windows.Worker.Commit.{
  attempt, result_status, raw_request, maybe_exit_for_test_fault, replace_target_with_temp,
  commit_to_image, commit_mutation, commit_file_write, commit_file_write_from_path,
  commit_file_delete, commit_directory_create, commit_directory_delete, commit_directory_rename,
  commit_file_rename, commit_file_hard_link, commit_inode_metadata,
}

module _ {W : Type 0} {a : Mounted W} where
  -- What the world becomes does not touch the flags.
  pub SameFlags-world :
      (m : Mounted W) (b : Bool) (w : W)
      → SameFlags a m
      → SameFlags a (record m { session = b; world = w })
  SameFlags-world m b w s = record {
    same_read_only = s.same_read_only;
    same_raw_target = s.same_raw_target;
    same_allow = s.same_allow;
  }

  result_status-Safe : (q : Qt) (r : Option Text) → Safe (Live a) (result_status q r)
  unfolding result_status
  result_status-Safe q none = search safe_rules
  result_status-Safe q (some blockers) = search safe_rules

  on_world-Leads :
      {A : Type 0} (f : W → A × W) → Leads (SameFlags a) (SameFlags a) (Live a) (on_world f)
  on_world-Leads f = record { leads = λ m s. SameFlags-world m m.session _ s }

module _ {W : Type 0} (q : Qt) (core : Core W) (host : Host W) (entry_limit : ℕ) {a : Mounted W}
    (r : Reopens q core) where
  reload-Leads :
      Leads (SameFlags a) (Live a) (Live a) (reload_target_no_lock q core host entry_limit)
  reload-Leads = record {
    leads = λ m s.
        (let (e, l) = reload_lem q core host entry_limit r m s in
          reached (reload_target_no_lock q core host entry_limit m) e l);
  }
    where
      reached :
          (out : Outcome (Unit {0}) × Mounted W)
          → out.0 ≡ ok tt
          → Live a out.1
          → Reaches (Live a) (Live a) out
      reached (ok x, m) e l = l
      reached (err x, m) e l = cc
      reached (ended x, m) e l = cc

  attempt-Leads :
      {m : Call (Mounted W) (Unit {0})}
      → Leads (SameFlags a) (Live a) (Live a) m
      → Leads (SameFlags a) (Live a) (Live a) (attempt m)
  attempt-Leads {m} h = record { leads = λ s p. attempted (m s) (h.leads s p) }
    where
      attempted :
          (out : Outcome (Unit {0}) × Mounted W)
          → Reaches (Live a) (Live a) out
          → Reaches (Live a) (Live a) (attempt (λ _. out) out.1)
      attempted (ok x, m) l = l
      attempted (err x, m) l = l
      attempted (ended null_session, m) l = l
      attempted (ended dangling_context, m) l = l
      attempted (ended test_fault, m) l = l

  maybe_exit-Leads :
      (phase : Text) (fault : Option (Text × ℕ))
      → Leads
          (SameFlags a)
          (SameFlags a)
          (Live a)
          (maybe_exit_for_test_fault q core host entry_limit phase fault)
  unfolding maybe_exit_for_test_fault
  maybe_exit-Leads phase none = record { leads = λ m s. s }
  maybe_exit-Leads phase (some (path, n)) = record { leads = λ m s. exits _ m s }
    where
      stopped : Outcome (Unit {0})
      stopped = ended test_fault

      exits :
          (b : Bool) (m : Mounted W)
          → SameFlags a m
          → Reaches (SameFlags a) (Live a) (if b then (ok tt, m) else (stopped, m))
      exits true m s = s
      exits false m s = tt

  replaced_image :
      (fault : Option (Text × ℕ)) (replaced : Bool)
      → Leads
          (SameFlags a)
          (SameFlags a)
          (Live a)
          (elim replaced as (λ _. Call (Mounted W) (Option Text)) [
            | false ↦ do
              attempt (reload_target_no_lock q core host entry_limit)
              fail Status.access_denied
            | true ↦ do
              maybe_exit_for_test_fault q core host entry_limit (codes "after-image-replace") fault
              pure none
          ])
  replaced_image fault false =
      Leads-then {Q = Live a} (attempt-Leads reload-Leads) (Leads-fail Status.access_denied)
  replaced_image fault true = Leads-then (maybe_exit-Leads _ fault) (Leads-pure none)

  written_image :
      (temp : Text) (fault : Option (Text × ℕ)) (result : Option Text)
      → Leads
          (SameFlags a)
          (SameFlags a)
          (Live a)
          (elim result as (λ _. Call (Mounted W) (Option Text)) [
            | some blockers ↦ do
              modify (λ m. record m { world = host.remove temp m.world })
              pure (some blockers)
            | none ↦ do
              maybe_exit_for_test_fault q core host entry_limit (codes "before-image-replace") fault
              replaced ← on_world (replace_target_with_temp q core host entry_limit temp)
              elim replaced [
                | false ↦ do
                  attempt (reload_target_no_lock q core host entry_limit)
                  fail Status.access_denied
                | true ↦ do
                  maybe_exit_for_test_fault q core host entry_limit
                      (codes "after-image-replace")
                      fault
                  pure none
              ]
          ])
  written_image temp fault (some blockers) =
      Leads-then {Q = SameFlags a} (Leads-modify _ (λ m s. SameFlags-world m m.session _ s))
        (Leads-pure _)
  written_image temp fault none =
      Leads-then (maybe_exit-Leads _ fault)
        (Leads-bind {Q = SameFlags a} (on_world-Leads _) (replaced_image fault))

  commit_to_image-Leads :
      (operation : Text) (fault : Option (Text × ℕ)) (mutation : Mutation)
      → Leads
          (SameFlags a)
          (SameFlags a)
          (Live a)
          (commit_to_image q core host entry_limit operation fault mutation)
  unfolding commit_to_image
  commit_to_image-Leads operation fault mutation = Leads-bind (Leads-gets (λ m. m)) λ m.
      Leads-bind
        (on_world-Leads (core.commit_image (host.mutation_temp_path operation m.world) mutation))
        (written_image (host.mutation_temp_path operation m.world) fault)

  written :
      (raw : Bool) (operation : Text) (fault : Option (Text × ℕ)) (mutation : Mutation)
      → (m : Mounted W)
      → Leads
          (SameFlags a)
          (SameFlags a)
          (Live a)
          (elim raw as (λ _. Call (Mounted W) (Option Text)) [
            | true ↦ on_world (core.commit_raw (raw_request q core host entry_limit m mutation))
            | false ↦ commit_to_image q core host entry_limit operation fault mutation
          ])
  written true operation fault mutation m = on_world-Leads _
  written false operation fault mutation m = commit_to_image-Leads operation fault mutation

  commit_mutation-Leads :
      (operation : Text) (fault : Option (Text × ℕ)) (mutation : Mutation)
      → Leads
          (Live a)
          (Live a)
          (Live a)
          (commit_mutation q core host entry_limit operation fault mutation)
  unfolding commit_mutation
  commit_mutation-Leads operation fault mutation =
      Leads-then
        (Leads-modify (λ m. record m { session = false })
          (λ m l. SameFlags-world m false m.world l.flags))
        (Leads-bind (Leads-gets (λ m. m)) λ m.
          Leads-bind (written m.raw_target operation fault mutation m)
            λ result. Leads-then reload-Leads (Safe-Leads (result_status-Safe q result)))

  pub commit_mutation-Safe :
      (operation : Text) (fault : Option (Text × ℕ)) (mutation : Mutation)
      → Safe (Live a) (commit_mutation q core host entry_limit operation fault mutation)
  commit_mutation-Safe operation fault mutation = record {
    apply = (commit_mutation-Leads operation fault mutation).leads;
  }

  ruleset commit_rules =
      (safe_rules, commit_mutation-Safe, resolve_path_no_lock-Safe, Live-Readable)

  pub commit_file_write-Safe :
      (path bytes : Text) → Safe (Live a) (commit_file_write q core host entry_limit path bytes)
  unfolding commit_file_write
  commit_file_write-Safe path bytes = search commit_rules

  pub commit_file_delete-Safe :
      (path : Text) → Safe (Live a) (commit_file_delete q core host entry_limit path)
  unfolding commit_file_delete
  commit_file_delete-Safe path = search commit_rules

  pub commit_directory_create-Safe :
      (path : Text) → Safe (Live a) (commit_directory_create q core host entry_limit path)
  unfolding commit_directory_create
  commit_directory_create-Safe path = search commit_rules

  pub commit_directory_delete-Safe :
      (path : Text) → Safe (Live a) (commit_directory_delete q core host entry_limit path)
  unfolding commit_directory_delete
  commit_directory_delete-Safe path = search commit_rules

  pub commit_directory_rename-Safe :
      (old_path new_path : Text)
      → Safe (Live a) (commit_directory_rename q core host entry_limit old_path new_path)
  unfolding commit_directory_rename
  commit_directory_rename-Safe old_path new_path = search commit_rules

  pub commit_file_rename-Safe :
      (old_path new_path : Text)
      → Safe (Live a) (commit_file_rename q core host entry_limit old_path new_path)
  unfolding commit_file_rename
  commit_file_rename-Safe old_path new_path = search commit_rules

  pub commit_file_hard_link-Safe :
      (source_path link_path : Text)
      → Safe (Live a) (commit_file_hard_link q core host entry_limit source_path link_path)
  unfolding commit_file_hard_link
  commit_file_hard_link-Safe source_path link_path = search commit_rules

  pub commit_inode_metadata-Safe :
      (path : Text) (directory : Bool) (metadata : MetadataUpdate)
      → Safe (Live a) (commit_inode_metadata q core host entry_limit path directory metadata)
  unfolding commit_inode_metadata
  commit_inode_metadata-Safe path directory metadata = search commit_rules

  pub commit_file_write_from_path-Safe :
      (path data_path : Text) (data_size : ℕ)
      → Safe (Live a) (commit_file_write_from_path q core host entry_limit path data_path data_size)
  unfolding commit_file_write_from_path
  commit_file_write_from_path-Safe path data_path data_size =
      search (commit_rules, commit_file_write-Safe) depth 20
