-- ===== src/Worker/Callbacks/ReadOnly.antt =====
-- A read-only mount over a history of callbacks.
use apfs_for_windows.Common.{Option, Qt, ap, none, some, true, ℕ, ◌≡◌, ◌∙◌}
use apfs_for_windows.Worker.Call.{Call, Fine, Status, ok, proceed}
use apfs_for_windows.Worker.Call.Safe.{Safe, Fine-branches, Fine-if, Fine-if}
use apfs_for_windows.Worker.Core.{Core, Host}
use apfs_for_windows.Worker.Mount.{Mounted}
use apfs_for_windows.Worker.Mount.Safe.{Guarded, Readable}
use apfs_for_windows.Worker.Handle.{Open}
use apfs_for_windows.Worker.Handle.Safe.{
  OnMount, get_info-Safe, on_mount-Safe, read_file-Safe, flush_file-refused,
}
use apfs_for_windows.Worker.Mutate.Safe.{create_hard_link-refused}
use apfs_for_windows.Worker.EaCalls.Safe.{get_ea-Safe}
use apfs_for_windows.Worker.Links.Safe.{get_reparse_point_by_name-Safe, get_reparse_point-Safe}
use apfs_for_windows.Worker.Listing.{Orders}
use apfs_for_windows.Worker.FileSystem.{Known, FileSystem, Answer, on_context, on_writable}
use apfs_for_windows.Worker.FileSystem.Safe.{
  OnVolume, on_mounted-Safe, on_handle-Fine, on_context-Fine, copy_security-Safe,
  close_context-keeps,
}
use apfs_for_windows.Worker.Callbacks.{Request, handle_of, serve}
use apfs_for_windows.Worker.Callbacks.Safe.{
  answered-Fine, open_file-Safe, security_by_name-Safe, list_directory-Safe, create_node-refused,
  cleanup-refused, hard_link-Fine,
}

-- The mount is `a`, which is read-only and has a session.
pub record Locked {W : Type 0} (a m : Mounted W) : Type 0 where
  pub same : m ≡ a
  pub has_session : a.session ≡ true
  pub is_read_only : a.read_only ≡ true

Locked-Readable : {W : Type 0} {a : Mounted W} → Readable (Locked a)
Locked-Readable = record { has = λ m p. ap (λ x. x.session) p.same ∙ p.has_session }

Locked-Guarded : {W : Type 0} {a : Mounted W} → Guarded (Locked a)
Locked-Guarded = record { guards = λ m p. ap (λ x. x.read_only) p.same ∙ p.is_read_only }

module _ {W : Type 0} (q : Qt) (core : Core W) (host : Host W) (entry_limit : ℕ) (orders : Orders)
    {a : Mounted W} where
  open_call :
      {A : Type 0} (h : Option ℕ) (e : Status) {m : Call (Open W) A} (f : A → Answer)
      → Safe (OnMount (Locked a)) m
      → (fs : FileSystem W) → Known h fs
      → OnVolume (Locked a) fs
      → Fine (OnVolume (Locked a)) (proceed (λ x s. (ok (f x), s)) (on_context h e m fs))
  open_call h e f s fs k p =
      answered-Fine (OnVolume (Locked a)) f _ (on_context-Fine h e _ fs s k p)

  refused :
      {A : Type 0} (h : Option ℕ) (e : Status) (m : Call (Open W) A) (f : A → Answer)
      → (fs : FileSystem W) → OnVolume (Locked a) fs
      → Fine (OnVolume (Locked a)) (proceed (λ x s. (ok (f x), s)) (on_writable h e m fs))
  refused h e m f fs p = answered-Fine (OnVolume (Locked a)) f _ (
      Fine-if (OnVolume (Locked a)) fs.mounted.read_only _ _
        (Locked-Guarded.guards fs.mounted p.volume_has) p)

  pub serve-Locked :
      (c : Request) (fs : FileSystem W)
      → Known (handle_of c) fs
      → OnVolume (Locked a) fs
      → Fine (OnVolume (Locked a)) (serve q core host entry_limit orders c fs)
  unfolding serve
  serve-Locked Request.get_volume_info fs k p = p
  serve-Locked Request.set_volume_label fs k p = p
  serve-Locked (Request.get_security_by_name path size finds_link) fs k p =
      (security_by_name-Safe q core host entry_limit orders Locked-Readable _ size finds_link).apply
        fs p
  serve-Locked (Request.create path directory allocates) fs k p =
      (create_node-refused q core host entry_limit orders Locked-Readable _ directory allocates
          Locked-Guarded).apply
        fs p
  serve-Locked (Request.open_existing path allocates) fs k p =
      (open_file-Safe q core host entry_limit orders Locked-Readable _ allocates).apply fs p
  serve-Locked (Request.overwrite h) fs k p = refused h _ _ _ fs p
  serve-Locked (Request.cleans_up none deletes) fs k p = p
  serve-Locked (Request.cleans_up (some h) deletes) fs k p =
      answered-Fine (OnVolume (Locked a)) _ _ (
        on_handle-Fine h _ fs
          (cleanup-refused q core host entry_limit orders Locked-Readable deletes Locked-Guarded) k
          p)
  serve-Locked (Request.close none) fs k p = p
  serve-Locked (Request.close (some h)) fs k p = close_context-keeps h fs p
  serve-Locked (Request.read_at h offset len) fs k p =
      open_call h _ Answer.bytes (read_file-Safe q core host entry_limit Locked-Readable offset len)
        fs k p
  serve-Locked (Request.write_at h buffer offset to_end) fs k p = refused h _ _ _ fs p
  serve-Locked (Request.flush none) fs k p = p
  serve-Locked (Request.flush (some h)) fs k p = answered-Fine (OnVolume (Locked a)) _ _ (
      on_handle-Fine h _ fs
        (flush_file-refused q core host entry_limit Locked-Readable Locked-Guarded) k p)
  serve-Locked (Request.get_file_info h) fs k p = open_call h _ Answer.info get_info-Safe fs k p
  serve-Locked (Request.set_info h attributes creation access write change) fs k p =
      refused h _ _ _ fs p
  serve-Locked (Request.set_size h size allocation) fs k p = refused h _ _ _ fs p
  serve-Locked (Request.can_be_deleted h) fs k p = refused h _ _ _ fs p
  serve-Locked (Request.rename h old_path new_path replace) fs k p = refused h _ _ _ fs p
  serve-Locked (Request.link none new_path replace) fs k p =
      Fine-branches (OnVolume (Locked a)) fs.mounted.read_only _ _ p p
  serve-Locked (Request.link (some h) new_path replace) fs k p =
      hard_link-Fine q core host entry_limit orders Locked-Readable h _ replace fs
        (create_hard_link-refused q core host entry_limit Locked-Readable _ replace Locked-Guarded)
        k p
  serve-Locked (Request.get_security h size) fs k p =
      on_context-Fine h _ _ fs (on_mount-Safe (copy_security-Safe size)) k p
  serve-Locked (Request.put_security h information descriptor) fs k p = refused h _ _ _ fs p
  serve-Locked (Request.read_eas h) fs k p =
      open_call h _ Answer.eas (get_ea-Safe q core host entry_limit Locked-Readable) fs k p
  serve-Locked (Request.write_eas h eas) fs k p = refused h _ _ _ fs p
  serve-Locked (Request.read_directory h marker) fs k p =
      open_call h _ Answer.names
        (list_directory-Safe q core host entry_limit orders Locked-Readable marker) fs k p
  serve-Locked (Request.reparse_by_name path size) fs k p =
      answered-Fine (OnVolume (Locked a)) _ _ (
        (on_mounted-Safe
            (get_reparse_point_by_name-Safe q core host entry_limit Locked-Readable _ size)).apply
          fs p)
  serve-Locked (Request.read_reparse h size) fs k p =
      open_call h _ _ (get_reparse_point-Safe q core host entry_limit Locked-Readable size) fs k p
  serve-Locked (Request.write_reparse h d size can_replace) fs k p = refused h _ _ _ fs p
  serve-Locked (Request.delete_reparse h d size can_replace) fs k p = refused h _ _ _ fs p
