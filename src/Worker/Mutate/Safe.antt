-- ===== src/Worker/Mutate/Safe.antt =====
-- Deleting, renaming, linking, attributes and security, as far as the mount is concerned: the session
-- is kept.
use apfs_for_windows.Common.{Bool, Option, Qt, Text, ℕ, ◌==◌, if◌then◌else◌}
use apfs_for_windows.Worker.Call.{
  Outcome, ok, err, ended, null_session, dangling_context, test_fault, Fine, Status, pure, fail,
}
use apfs_for_windows.Worker.Call.Safe.{Fine-refused, Safe, safe_rules, Fine-branches}
use apfs_for_windows.Worker.Core.{Core, Host, MetadataUpdate}
use apfs_for_windows.Worker.Mount.{Mounted, ResolvedEntry, resolve_path}
use apfs_for_windows.Worker.Mount.Safe.{
  Guarded, Readable, Reopens, Live, Live-Readable, Safe-reads, resolve_path-Safe,
}
use apfs_for_windows.Worker.Handle.Safe.{
  OnMount, handle_rules, flush_file-Safe, discard_staged_write-Safe,
}
use apfs_for_windows.Worker.Commit.Safe.{
  commit_file_delete-Safe, commit_directory_delete-Safe, commit_directory_rename-Safe,
  commit_file_rename-Safe, commit_file_hard_link-Safe, commit_inode_metadata-Safe,
}
use apfs_for_windows.Worker.Commit.{commit_file_delete}
use apfs_for_windows.Worker.Mutate.{
  is_not_found, can_delete, delete_file, make_room, make_room_after, rename_file, create_hard_link,
  commit_metadata, set_basic_info, set_security,
}

module _ {W : Type 0} (q : Qt) (core : Core W) (host : Host W) (entry_limit : ℕ)
    {P : Mounted W → Type 0} (r : Readable P) where
  pub can_delete-Safe : Safe (OnMount P) (can_delete q core host entry_limit)
  unfolding can_delete
  can_delete-Safe = search (handle_rules, Safe-reads) depth 30

  -- A read-only mount refuses to delete and to link.
  pub delete_file-refused : Guarded P → Safe (OnMount P) (delete_file q core host entry_limit)
  unfolding delete_file
  delete_file-refused g = record {
    apply = λ o p.
        Fine-refused (OnMount P) o.mounted.read_only _ _ o (g.guards o.mounted p.mounted_has) p;
  }

  pub create_hard_link-refused :
      (path : Text) (replace : Bool)
      → Guarded P
      → Safe (OnMount P) (create_hard_link q core host entry_limit path replace)
  unfolding create_hard_link
  create_hard_link-refused path replace g = record {
    apply = λ o p.
        Fine-refused (OnMount P) o.mounted.read_only _ _ o (g.guards o.mounted p.mounted_has) p;
  }

module _ {W : Type 0} (q : Qt) (core : Core W) (host : Host W) (entry_limit : ℕ) {a : Mounted W}
    (r : Reopens q core) where
  pub delete_file-Safe : Safe (OnMount (Live a)) (delete_file q core host entry_limit)
  unfolding delete_file
  delete_file-Safe =
      search
        (
          handle_rules, discard_staged_write-Safe, commit_directory_delete-Safe,
          commit_file_delete-Safe,
        )
        depth 30

  make_room-Safe :
      (object_id : ℕ) (path : Text)
      → Safe (Live a) (make_room q core host entry_limit object_id path)
  unfolding make_room make_room_after
  make_room-Safe object_id path = record {
    apply = λ m p.
        made (resolve_path q core host entry_limit path m)
          ((resolve_path-Safe q core host entry_limit Live-Readable path).apply m p);
  }
    where
      room :
          (e : ResolvedEntry)
          → Safe (Live a) (
              if e.directory
              then fail Status.access_denied
              else (if e.object_id == object_id
                  then pure tt
                  else commit_file_delete q core host entry_limit path))
      room e = search (safe_rules, commit_file_delete-Safe)

      made :
          (out : Outcome ResolvedEntry × Mounted W)
          → Fine (Live a) out
          → Fine (Live a) (make_room_after q core host entry_limit object_id path out)
      made (ok e, m) p = (room e).apply m p
      made (err e, m) p = Fine-branches (Live a) (is_not_found e) _ _ p p
      made (ended null_session, m) p = p
      made (ended dangling_context, m) p = p
      made (ended test_fault, m) p = p

  pub rename_file-Safe :
      (old_path new_path : Text) (replace : Bool)
      → Safe (OnMount (Live a)) (rename_file q core host entry_limit old_path new_path replace)
  unfolding rename_file
  rename_file-Safe old_path new_path replace =
      search
        (
          handle_rules, flush_file-Safe, make_room-Safe, commit_directory_rename-Safe,
          commit_file_rename-Safe,
        )
        depth 40 fits 5000

  pub create_hard_link-Safe :
      (new_path : Text) (replace : Bool)
      → Safe (OnMount (Live a)) (create_hard_link q core host entry_limit new_path replace)
  unfolding create_hard_link
  create_hard_link-Safe new_path replace =
      search (handle_rules, flush_file-Safe, commit_file_hard_link-Safe) depth 30

  pub commit_metadata-Safe :
      (update : ResolvedEntry → MetadataUpdate)
      → Safe (OnMount (Live a)) (commit_metadata q core host entry_limit update)
  commit_metadata-Safe update = search (handle_rules, commit_inode_metadata-Safe) depth 30

  pub set_basic_info-Safe :
      (attributes : Option ℕ) (creation access write change : ℕ)
      → Safe
          (OnMount (Live a))
          (set_basic_info q core host entry_limit attributes creation access write change)
  unfolding set_basic_info
  set_basic_info-Safe attributes creation access write change =
      search (handle_rules, flush_file-Safe, commit_metadata-Safe) depth 30

  pub set_security-Safe :
      (information : ℕ) (descriptor : Text)
      → Safe (OnMount (Live a)) (set_security q core host entry_limit information descriptor)
  unfolding set_security
  set_security-Safe information descriptor =
      search (handle_rules, flush_file-Safe, commit_metadata-Safe) depth 30
