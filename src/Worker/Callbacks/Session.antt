-- ===== src/Worker/Callbacks/Session.antt =====
-- The session of the reader over a history of callbacks.
use apfs_for_windows.Common.{Option, Qt, none, some, ℕ}
use apfs_for_windows.Worker.Call.{Call, Fine, Status, ok, proceed}
use apfs_for_windows.Worker.Call.Safe.{Safe, Fine-branches}
use apfs_for_windows.Worker.Core.{Core, Host}
use apfs_for_windows.Worker.Mount.{Mounted}
use apfs_for_windows.Worker.Mount.Safe.{Reopens, Live, Live-Readable}
use apfs_for_windows.Worker.Handle.{Open}
use apfs_for_windows.Worker.Handle.Safe.{
  OnMount, get_info-Safe, on_mount-Safe, read_file-Safe, write_file-Safe, set_file_size-Safe,
  overwrite_file-Safe, flush_file-Safe,
}
use apfs_for_windows.Worker.Mutate.Safe.{
  create_hard_link-Safe, can_delete-Safe, rename_file-Safe, set_basic_info-Safe, set_security-Safe,
}
use apfs_for_windows.Worker.EaCalls.Safe.{get_ea-Safe, set_ea-Safe}
use apfs_for_windows.Worker.Links.Safe.{
  get_reparse_point_by_name-Safe, get_reparse_point-Safe, set_reparse_point-Safe,
  delete_reparse_point-Safe,
}
use apfs_for_windows.Worker.Listing.{Orders}
use apfs_for_windows.Worker.FileSystem.{Known, FileSystem, Answer, on_context, on_writable}
use apfs_for_windows.Worker.FileSystem.Safe.{
  OnVolume, on_mounted-Safe, on_handle-Fine, on_context-Fine, on_writable-Fine, copy_security-Safe,
  close_context-keeps,
}
use apfs_for_windows.Worker.Callbacks.{Request, handle_of, serve}
use apfs_for_windows.Worker.Callbacks.Safe.{
  answered-Fine, open_file-Safe, security_by_name-Safe, list_directory-Safe, create_node-Safe,
  cleanup-Safe, hard_link-Fine,
}

module _ {W : Type 0} (q : Qt) (core : Core W) (host : Host W) (entry_limit : ℕ) (orders : Orders)
    {a : Mounted W} (r : Reopens q core) where
  open_call :
      {A : Type 0} (h : Option ℕ) (e : Status) {m : Call (Open W) A} (f : A → Answer)
      → Safe (OnMount (Live a)) m
      → (fs : FileSystem W) → Known h fs
      → OnVolume (Live a) fs
      → Fine (OnVolume (Live a)) (proceed (λ x s. (ok (f x), s)) (on_context h e m fs))
  open_call h e f s fs k p = answered-Fine (OnVolume (Live a)) f _ (on_context-Fine h e _ fs s k p)

  writable_call :
      {A : Type 0} (h : Option ℕ) (e : Status) {m : Call (Open W) A} (f : A → Answer)
      → Safe (OnMount (Live a)) m
      → (fs : FileSystem W) → Known h fs
      → OnVolume (Live a) fs
      → Fine (OnVolume (Live a)) (proceed (λ x s. (ok (f x), s)) (on_writable h e m fs))
  writable_call h e f s fs k p =
      answered-Fine (OnVolume (Live a)) f _ (on_writable-Fine h e _ fs s k p)

  pub serve-Live :
      (c : Request) (fs : FileSystem W)
      → Known (handle_of c) fs
      → OnVolume (Live a) fs
      → Fine (OnVolume (Live a)) (serve q core host entry_limit orders c fs)
  unfolding serve
  serve-Live Request.get_volume_info fs k p = p
  serve-Live Request.set_volume_label fs k p = p
  serve-Live (Request.get_security_by_name path size finds_link) fs k p =
      (security_by_name-Safe q core host entry_limit orders Live-Readable _ size finds_link).apply
        fs p
  serve-Live (Request.create path directory allocates) fs k p =
      (create_node-Safe q core host entry_limit orders r _ directory allocates).apply fs p
  serve-Live (Request.open_existing path allocates) fs k p =
      (open_file-Safe q core host entry_limit orders Live-Readable _ allocates).apply fs p
  serve-Live (Request.overwrite h) fs k p =
      writable_call h _ Answer.info (overwrite_file-Safe q core host entry_limit r) fs k p
  serve-Live (Request.cleans_up none deletes) fs k p = p
  serve-Live (Request.cleans_up (some h) deletes) fs k p =
      answered-Fine (OnVolume (Live a)) _ _
        (on_handle-Fine h _ fs (cleanup-Safe q core host entry_limit orders r deletes) k p)
  serve-Live (Request.close none) fs k p = p
  serve-Live (Request.close (some h)) fs k p = close_context-keeps h fs p
  serve-Live (Request.read_at h offset len) fs k p =
      open_call h _ Answer.bytes (read_file-Safe q core host entry_limit Live-Readable offset len)
        fs k p
  serve-Live (Request.write_at h buffer offset to_end) fs k p =
      writable_call h _ _ (write_file-Safe q core host entry_limit r buffer offset to_end) fs k p
  serve-Live (Request.flush none) fs k p = p
  serve-Live (Request.flush (some h)) fs k p =
      answered-Fine (OnVolume (Live a)) _ _
        (on_handle-Fine h _ fs (flush_file-Safe q core host entry_limit r) k p)
  serve-Live (Request.get_file_info h) fs k p = open_call h _ Answer.info get_info-Safe fs k p
  serve-Live (Request.set_info h attributes creation access write change) fs k p =
      writable_call h _ Answer.info
        (set_basic_info-Safe q core host entry_limit r attributes creation access write change) fs k
        p
  serve-Live (Request.set_size h size allocation) fs k p =
      writable_call h _ Answer.info (set_file_size-Safe q core host entry_limit r size allocation)
        fs k p
  serve-Live (Request.can_be_deleted h) fs k p =
      writable_call h _ _ (can_delete-Safe q core host entry_limit Live-Readable) fs k p
  serve-Live (Request.rename h old_path new_path replace) fs k p =
      writable_call h _ _ (rename_file-Safe q core host entry_limit r _ _ replace) fs k p
  serve-Live (Request.link none new_path replace) fs k p =
      Fine-branches (OnVolume (Live a)) fs.mounted.read_only _ _ p p
  serve-Live (Request.link (some h) new_path replace) fs k p =
      hard_link-Fine q core host entry_limit orders Live-Readable h _ replace fs
        (create_hard_link-Safe q core host entry_limit r _ replace) k p
  serve-Live (Request.get_security h size) fs k p =
      on_context-Fine h _ _ fs (on_mount-Safe (copy_security-Safe size)) k p
  serve-Live (Request.put_security h information descriptor) fs k p =
      writable_call h _ _ (set_security-Safe q core host entry_limit r information descriptor) fs k
        p
  serve-Live (Request.read_eas h) fs k p =
      open_call h _ Answer.eas (get_ea-Safe q core host entry_limit Live-Readable) fs k p
  serve-Live (Request.write_eas h eas) fs k p =
      writable_call h _ Answer.info (set_ea-Safe q core host entry_limit r eas) fs k p
  serve-Live (Request.read_directory h marker) fs k p =
      open_call h _ Answer.names
        (list_directory-Safe q core host entry_limit orders Live-Readable marker) fs k p
  serve-Live (Request.reparse_by_name path size) fs k p = answered-Fine (OnVolume (Live a)) _ _ (
      (on_mounted-Safe
          (get_reparse_point_by_name-Safe q core host entry_limit Live-Readable _ size)).apply
        fs p)
  serve-Live (Request.read_reparse h size) fs k p =
      open_call h _ _ (get_reparse_point-Safe q core host entry_limit Live-Readable size) fs k p
  serve-Live (Request.write_reparse h d size can_replace) fs k p =
      writable_call h _ _ (set_reparse_point-Safe q core host entry_limit r can_replace d size) fs k
        p
  serve-Live (Request.delete_reparse h d size can_replace) fs k p =
      writable_call h _ _ (delete_reparse_point-Safe q core host entry_limit r can_replace d size)
        fs k p
