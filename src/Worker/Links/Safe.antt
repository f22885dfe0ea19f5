-- ===== src/Worker/Links/Safe.antt =====
-- Reading and writing symbolic links keeps the session.
use apfs_for_windows.Common.{Option, Qt, Text, inl, inr, none, some, ℕ, ◌⊎◌}
use apfs_for_windows.Worker.Call.Safe.{Safe, safe_rules, Safe-pure, Safe-fail}
use apfs_for_windows.Worker.Core.{Core, Host}
use apfs_for_windows.Worker.Mount.{Mounted, ResolvedEntry}
use apfs_for_windows.Worker.Mount.Safe.{
  Readable, Reopens, Live, Live-Readable, Safe-reads, resolve_path-Safe,
}
use apfs_for_windows.Worker.Handle.Safe.{OnMount, handle_rules}
use apfs_for_windows.Worker.Commit.Safe.{commit_inode_metadata-Safe}
use apfs_for_windows.Worker.Reparse.{ReparseData, ReparseError}
use apfs_for_windows.Worker.Links.{
  or_reparse, or_code, fill_buffer, read_symbolic_link_target, build_symbolic_link_reparse_data,
  fits_buffer, get_reparse_point_by_name, get_reparse_point, check_replaceable, set_reparse_point,
  delete_reparse_point,
}

module _ {S : Type 0} {P : S → Type 0} where
  or_reparse-Safe : {A : Type 0} (r : A ⊎ ReparseError) → Safe P (or_reparse r)
  or_reparse-Safe (inl a) = Safe-pure
  or_reparse-Safe (inr e) = Safe-fail

  or_code-Safe : (r : Option ℕ) → Safe P (or_code r)
  or_code-Safe none = Safe-pure
  or_code-Safe (some code) = Safe-fail

module _ {W : Type 0} (q : Qt) (core : Core W) (host : Host W) (entry_limit : ℕ)
    {P : Mounted W → Type 0} (r : Readable P) where
  read_symbolic_link_target-Safe :
      (e : ResolvedEntry) → Safe P (read_symbolic_link_target q core host entry_limit e)
  unfolding read_symbolic_link_target
  read_symbolic_link_target-Safe e = search (safe_rules, Safe-reads) depth 20

  build_symbolic_link_reparse_data-Safe :
      (e : ResolvedEntry) → Safe P (build_symbolic_link_reparse_data q core host entry_limit e)
  unfolding build_symbolic_link_reparse_data
  build_symbolic_link_reparse_data-Safe e =
      search (safe_rules, read_symbolic_link_target-Safe, or_reparse-Safe)

  fits_buffer-Safe :
      (size : ℕ) (d : ReparseData) → Safe P (fits_buffer q core host entry_limit size d)
  fits_buffer-Safe size d = search safe_rules

  fill_buffer-Safe :
      (size : Option ℕ) (e : ResolvedEntry) → Safe P (fill_buffer q core host entry_limit size e)
  fill_buffer-Safe none e = Safe-pure
  fill_buffer-Safe (some size) e =
      search (safe_rules, build_symbolic_link_reparse_data-Safe, fits_buffer-Safe)

  pub get_reparse_point_by_name-Safe :
      (path : Text) (size : Option ℕ)
      → Safe P (get_reparse_point_by_name q core host entry_limit path size)
  unfolding get_reparse_point_by_name
  get_reparse_point_by_name-Safe path size =
      search (safe_rules, resolve_path-Safe, fill_buffer-Safe) depth 20

  pub get_reparse_point-Safe :
      (size : ℕ) → Safe (OnMount P) (get_reparse_point q core host entry_limit size)
  unfolding get_reparse_point
  get_reparse_point-Safe size =
      search (handle_rules, build_symbolic_link_reparse_data-Safe, fits_buffer-Safe) depth 20

  check_replaceable-Safe :
      (can_replace : ReparseData → ReparseData → ℕ → Option ℕ) (e : ResolvedEntry) (d : ReparseData)
      (size : ℕ)
      → Safe P (check_replaceable q core host entry_limit can_replace e d size)
  check_replaceable-Safe can_replace e d size =
      search (safe_rules, or_code-Safe, build_symbolic_link_reparse_data-Safe) depth 20

module _ {W : Type 0} (q : Qt) (core : Core W) (host : Host W) (entry_limit : ℕ) {a : Mounted W}
    (r : Reopens q core) where
  pub set_reparse_point-Safe :
      (can_replace : ReparseData → ReparseData → ℕ → Option ℕ) (d : ReparseData) (size : ℕ)
      → Safe (OnMount (Live a)) (set_reparse_point q core host entry_limit can_replace d size)
  unfolding set_reparse_point
  set_reparse_point-Safe can_replace d size =
      search
        (
          handle_rules, check_replaceable-Safe, Live-Readable, or_reparse-Safe,
          commit_inode_metadata-Safe,
        )
        depth 40 fits 5000

  pub delete_reparse_point-Safe :
      (can_replace : ReparseData → ReparseData → ℕ → Option ℕ) (d : ReparseData) (size : ℕ)
      → Safe (OnMount (Live a)) (delete_reparse_point q core host entry_limit can_replace d size)
  unfolding delete_reparse_point
  delete_reparse_point-Safe can_replace d size =
      search (handle_rules, check_replaceable-Safe, Live-Readable, commit_inode_metadata-Safe) depth
        40 fits 5000
