-- ===== src/Worker/Callbacks/Safe.antt =====
-- The callbacks' own steps, as far as the mount is concerned: the session is kept.
use apfs_for_windows.Common.{Bool, Option, Qt, Text, none, some, ℕ}
use apfs_for_windows.Worker.Call.{
  proceed, Outcome, ok, err, ended, null_session, dangling_context, test_fault, Fine, Call, pure,
  ◌>>=◌,
}
use apfs_for_windows.Worker.Call.Safe.{Fine-refused, Safe, Safe-pure, Reaches-proceed}
use apfs_for_windows.Worker.Core.{Core, Host}
use apfs_for_windows.Worker.Mount.{Mounted, ResolvedEntry}
use apfs_for_windows.Worker.Mount.Safe.{
  Guarded, Readable, Reopens, Live, Live-Readable, Safe-reads, resolve_path-Safe,
}
use apfs_for_windows.Worker.Commit.{attempt}
use apfs_for_windows.Worker.Commit.Safe.{commit_directory_create-Safe, commit_file_write-Safe}
use apfs_for_windows.Worker.Handle.{FileContext}
use apfs_for_windows.Worker.Handle.Safe.{OnMount, handle_rules, flush_file-Safe, flush_file-refused}
use apfs_for_windows.Worker.Mutate.{create_hard_link}
use apfs_for_windows.Worker.Mutate.Safe.{delete_file-Safe, delete_file-refused}
use apfs_for_windows.Worker.Listing.{Orders}
use apfs_for_windows.Worker.FileSystem.{
  Known, FileSystem, Answer, lookup_context, copy_security, on_mounted,
}
use apfs_for_windows.Worker.FileSystem.Safe.{
  OnVolume, on_handle-Fine, volume_rules, update_open_context_hard_links-keeps,
}
use apfs_for_windows.Worker.FileInfo.{attributes_for}
use apfs_for_windows.Worker.Callbacks.{
  create_node, open_file, security_after, security_by_name, list_directory, cleanup, relink,
  hard_link,
}

pub attempt-Safe :
    {S : Type 0} {P : S → Type 0} {m : Call S (Unit {0})} → Safe P m → Safe P (attempt m)
attempt-Safe {S} {P} {m} h = record { apply = λ s p. tried (m s) (h.apply s p) }
  where
    tried : (out : Outcome (Unit {0}) × S) → Fine P out → Fine P (attempt (λ _. out) out.1)
    tried (ok x, s) p = p
    tried (err x, s) p = p
    tried (ended null_session, s) p = p
    tried (ended dangling_context, s) p = p
    tried (ended test_fault, s) p = p

module _ {W : Type 0} (q : Qt) (core : Core W) (host : Host W) (entry_limit : ℕ) (orders : Orders)
    {P : Mounted W → Type 0} (r : Readable P) where
  pub open_file-Safe :
      (path : Text) (allocates : Bool)
      → Safe (OnVolume P) (open_file q core host entry_limit orders path allocates)
  unfolding open_file
  open_file-Safe path allocates = search (volume_rules, resolve_path-Safe) depth 20

  security_after-Fine :
      (size : Option ℕ) (finds_link : Bool) (out : Outcome ResolvedEntry × Mounted W)
      → (fs : FileSystem W) → Fine P out
      → Fine (OnVolume P) (security_after q core host entry_limit orders size finds_link out fs)
  unfolding security_after
  security_after-Fine size finds_link (ok e, m) fs p =
      copied.apply (record fs { mounted = m }) (record { volume_has = p })
    where
      copied : Safe (OnVolume P) (do
        answer ← on_mounted (copy_security size)
        pure (Answer.attributes (attributes_for m.read_only e)))
      copied = search volume_rules
  security_after-Fine size finds_link (err e, m) fs p = record { volume_has = p }
  security_after-Fine size finds_link (ended null_session, m) fs p = p
  security_after-Fine size finds_link (ended dangling_context, m) fs p = p
  security_after-Fine size finds_link (ended test_fault, m) fs p = tt

  pub security_by_name-Safe :
      (path : Text) (size : Option ℕ) (finds_link : Bool)
      → Safe (OnVolume P) (security_by_name q core host entry_limit orders path size finds_link)
  unfolding security_by_name
  security_by_name-Safe path size finds_link = record {
    apply = λ fs p.
        security_after-Fine size finds_link _ fs
          ((resolve_path-Safe q core host entry_limit r path).apply fs.mounted p.volume_has);
  }

  pub list_directory-Safe :
      (marker : Text) → Safe (OnMount P) (list_directory q core host entry_limit orders marker)
  unfolding list_directory
  list_directory-Safe marker = search (handle_rules, Safe-reads) depth 20

  pub relink-Safe :
      (links : ℕ) (c : Option FileContext)
      → Safe (OnVolume P) (relink {W = W} q core host entry_limit orders links c)
  unfolding relink
  relink-Safe links none = Safe-pure
  relink-Safe links (some c) = record {
    apply = λ fs p. update_open_context_hard_links-keeps _ _ fs p;
  }

  pub create_node-refused :
      (path : Text) (directory allocates : Bool)
      → Guarded P
      → Safe (OnVolume P) (create_node q core host entry_limit orders path directory allocates)
  unfolding create_node
  create_node-refused path directory allocates g = record {
    apply = λ fs p.
        Fine-refused (OnVolume P) fs.mounted.read_only _ _ fs (g.guards fs.mounted p.volume_has) p;
  }

  pub cleanup-refused :
      (deletes : Bool)
      → Guarded P
      → Safe (OnMount P) (cleanup q core host entry_limit orders deletes)
  unfolding cleanup
  cleanup-refused deletes g =
      search (handle_rules, attempt-Safe, delete_file-refused, flush_file-refused) depth 20

  -- A hard link from its call on the handle.
  pub hard_link-Fine :
      (h : ℕ) (path : Text) (replace : Bool) (fs : FileSystem W)
      → Safe (OnMount P) (create_hard_link q core host entry_limit path replace)
      → Known (some h) fs
      → OnVolume P fs
      → Fine (OnVolume P) (hard_link q core host entry_limit orders h path replace fs)
  unfolding hard_link
  hard_link-Fine h path replace fs s k p =
      Reaches-proceed (OnVolume P) (OnVolume P) (OnVolume P) _ _ (on_handle-Fine h _ fs s k p)
        (λ links fs' p'. (relink-Safe links (lookup_context h fs')).apply fs' p')

module _ {W : Type 0} (q : Qt) (core : Core W) (host : Host W) (entry_limit : ℕ) (orders : Orders)
    {a : Mounted W} (r : Reopens q core) where
  pub create_node-Safe :
      (path : Text) (directory allocates : Bool)
      → Safe
          (OnVolume (Live a))
          (create_node q core host entry_limit orders path directory allocates)
  unfolding create_node
  create_node-Safe path directory allocates =
      search
        (
          volume_rules, resolve_path-Safe, Live-Readable, commit_directory_create-Safe,
          commit_file_write-Safe,
        )
        depth 40 fits 5000

  pub cleanup-Safe :
      (deletes : Bool) → Safe (OnMount (Live a)) (cleanup q core host entry_limit orders deletes)
  unfolding cleanup
  cleanup-Safe deletes =
      search (handle_rules, attempt-Safe, delete_file-Safe, flush_file-Safe) depth 20

-- An answer that is made from a result.
pub answered-Fine :
    {S A B : Type 0} (P : S → Type 0) (f : A → B) (out : Outcome A × S)
    → Fine P out
    → Fine P (proceed (λ x s. (ok (f x), s)) out)
answered-Fine P f (ok x, s) p = p
answered-Fine P f (err x, s) p = p
answered-Fine P f (ended null_session, s) p = p
answered-Fine P f (ended dangling_context, s) p = p
answered-Fine P f (ended test_fault, s) p = tt
