-- ===== src/Worker/Callbacks/Histories.antt =====
-- What holds of the mount over every history of callbacks.
use apfs_for_windows.Common.{Qt, refl, true, ℕ, ◌≡◌}
use apfs_for_windows.Worker.Call.{
  Outcome, Fine, ok, err, ended, null_session, dangling_context, test_fault,
}
use apfs_for_windows.Worker.Core.{Core, Host}
use apfs_for_windows.Worker.Mount.{Mounted}
use apfs_for_windows.Worker.Mount.Safe.{Reopens, Live}
use apfs_for_windows.Worker.Listing.{Orders}
use apfs_for_windows.Worker.FileSystem.{Known, FileSystem}
use apfs_for_windows.Worker.FileSystem.Safe.{OnVolume}
use apfs_for_windows.Worker.Callbacks.{Request, handle_of, goes_on, serve, History, start, served}
use apfs_for_windows.Worker.Callbacks.Session.{serve-Live}
use apfs_for_windows.Worker.Callbacks.ReadOnly.{Locked, serve-Locked}

module _ {W : Type 0} (P : FileSystem W → Type 0) where
  went_on :
      {A : Type 0} (out : Outcome A × FileSystem W) → Fine P out → goes_on out.0 ≡ true → P out.1
  went_on (ok x, fs) p e = p
  went_on (err x, fs) p e = p
  went_on (ended x, fs) p e = cc

  has_session_still :
      {A : Type 0} (out : Outcome A × FileSystem W) → Fine P out → ¬ (out.0 ≡ ended null_session)
  has_session_still (ok x, fs) p e = cc
  has_session_still (err x, fs) p e = cc
  has_session_still (ended null_session, fs) p e = p
  has_session_still (ended dangling_context, fs) p e = p
  has_session_still (ended test_fault, fs) p e = cc

module _ {W : Type 0} (q : Qt) (core : Core W) (host : Host W) (entry_limit : ℕ)
    (orders : Orders) where
  History-Live :
      {a : Mounted W}
      → Reopens q core
      → (fs fs' : FileSystem W) → OnVolume (Live a) fs
      → History q core host entry_limit orders fs fs'
      → OnVolume (Live a) fs'
  History-Live r fs _ p (start _) = p
  History-Live {a} r fs _ p (served c _ fs' h k e) =
      went_on (OnVolume (Live a)) _
        (serve-Live q core host entry_limit orders r c fs' k (History-Live r fs fs' p h)) e

  History-Locked :
      {a : Mounted W} (fs fs' : FileSystem W)
      → OnVolume (Locked a) fs
      → History q core host entry_limit orders fs fs'
      → OnVolume (Locked a) fs'
  History-Locked fs _ p (start _) = p
  History-Locked {a} fs _ p (served c _ fs' h k e) =
      went_on (OnVolume (Locked a)) _
        (serve-Locked q core host entry_limit orders c fs' k (History-Locked fs fs' p h)) e

  -- Where the target can always be opened, recognized and listed again, a mount that has a session
  -- keeps one over every history of callbacks with contexts that are in the tables, keeps the flags
  -- that say whether it is read-only, raw, and whether raw writes are allowed, and no such callback
  -- calls through a null session.
  pub serve-keeps_session :
      Reopens q core
      → (fs fs' : FileSystem W) → fs.mounted.session ≡ true
      → History q core host entry_limit orders fs fs'
      → (c : Request) → Known (handle_of c) fs'
      → Live fs.mounted fs'.mounted
        × ¬ ((serve q core host entry_limit orders c fs').0 ≡ ended null_session)
  serve-keeps_session r fs fs' e h c k =
      let now = History-Live r fs fs' (opened e) h in
      (
        now.volume_has,
        has_session_still (OnVolume (Live fs.mounted)) _
            (serve-Live q core host entry_limit orders r c fs' k now),
      )
    where
      opened : fs.mounted.session ≡ true → OnVolume (Live fs.mounted) fs
      opened e = record {
        volume_has = record {
          has_session = e;
          flags = record { same_read_only = refl; same_raw_target = refl; same_allow = refl };
        };
      }

  -- A read-only mount with a session is left as it is, the target included, by every history of
  -- callbacks with contexts that are in the tables, and no such callback calls through a null
  -- session.
  pub serve-keeps_read_only :
      (fs fs' : FileSystem W)
      → fs.mounted.session ≡ true
      → fs.mounted.read_only ≡ true
      → History q core host entry_limit orders fs fs'
      → (c : Request) → Known (handle_of c) fs'
      → (fs'.mounted ≡ fs.mounted)
        × ¬ ((serve q core host entry_limit orders c fs').0 ≡ ended null_session)
  serve-keeps_read_only fs fs' e o h c k =
      let now : OnVolume (Locked fs.mounted) fs' =
        History-Locked fs fs'
          (record { volume_has = record { same = refl; has_session = e; is_read_only = o } }) h in
      (
        now.volume_has.same,
        has_session_still (OnVolume (Locked fs.mounted)) _
            (serve-Locked q core host entry_limit orders c fs' k now),
      )
