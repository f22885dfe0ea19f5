-- ===== src/Worker/EaCalls/Safe.antt =====
-- Reading and writing extended attributes keeps the session.
use apfs_for_windows.Common.{List, Qt, ℕ}
use apfs_for_windows.Worker.Call.Safe.{Safe}
use apfs_for_windows.Worker.Core.{Core, Host}
use apfs_for_windows.Worker.Mount.{Mounted}
use apfs_for_windows.Worker.Mount.Safe.{Readable, Reopens, Live, Live-Readable, Safe-reads}
use apfs_for_windows.Worker.Handle.Safe.{OnMount, handle_rules, flush_file-Safe}
use apfs_for_windows.Worker.Mutate.Safe.{commit_metadata-Safe}
use apfs_for_windows.Worker.EaWire.{WireEa}
use apfs_for_windows.Worker.EaCalls.{get_ea, set_ea}

module _ {W : Type 0} (q : Qt) (core : Core W) (host : Host W) (entry_limit : ℕ)
    {P : Mounted W → Type 0} (r : Readable P) where
  pub get_ea-Safe : Safe (OnMount P) (get_ea q core host entry_limit)
  unfolding get_ea
  get_ea-Safe = search (handle_rules, Safe-reads) depth 30

module _ {W : Type 0} (q : Qt) (core : Core W) (host : Host W) (entry_limit : ℕ) {a : Mounted W}
    (r : Reopens q core) where
  pub set_ea-Safe :
      (eas : List WireEa) → Safe (OnMount (Live a)) (set_ea q core host entry_limit eas)
  unfolding set_ea
  set_ea-Safe eas =
      search (handle_rules, Safe-reads, Live-Readable, flush_file-Safe, commit_metadata-Safe) depth
        40 fits 5000
