-- ===== src/Worker/Mount/Safe.antt =====
-- Finding a path and reading the target again need a session, and keep or restore it. The flags of
-- the mount never change once it is open.
use apfs_for_windows.Common.{Qt, Text, false, refl, some, true, ℕ, ◌≡◌}
use apfs_for_windows.Worker.ApfsPath.{root}
use apfs_for_windows.Worker.Call.{ok}
use apfs_for_windows.Worker.Call.Safe.{Safe, safe_rules, Fine-if}
use apfs_for_windows.Worker.Core.{Core, Host, Detection}
use apfs_for_windows.Worker.Mount.{
  Mounted, is_apfs, reads, probe_size, resolve_path_no_lock, resolve_path, reload_target_no_lock,
}

-- The flags that say what may be written, and where.
pub record SameFlags {W : Type 0} (a b : Mounted W) : Type 0 where
  pub same_read_only : b.read_only ≡ a.read_only
  pub same_raw_target : b.raw_target ≡ a.raw_target
  pub same_allow : b.allow_raw_writes ≡ a.allow_raw_writes

-- The mount with the flags of `a` and a session.
pub record Live {W : Type 0} (a m : Mounted W) : Type 0 where
  pub has_session : m.session ≡ true
  pub flags : SameFlags a m

module _ {W : Type 0} (q : Qt) (core : Core W) where
  -- What the environment grants: the target can be opened and read again whenever that is tried.
  pub record Reopens : Type 0 where
    pub opens_again : (w : W) → core.opens w ≡ true
    pub detected :
        (n : ℕ) (w : W) → (d : Detection) × (core.detect n w ≡ some d) × (is_apfs q d ≡ true)
    pub unblocked : (w : W) → (core.list_directory root 1 w).blocked ≡ false

-- A property of the mount that implies a session.
pub record Readable {W : Type 0} (P : Mounted W → Type 0) : Type 0 where
  pub has : (m : Mounted W) → P m → m.session ≡ true

-- A property of the mount that implies that it is read-only.
pub record Guarded {W : Type 0} (P : Mounted W → Type 0) : Type 0 where
  pub guards : (m : Mounted W) → P m → m.read_only ≡ true

pub Live-Readable : {W : Type 0} {a : Mounted W} → Readable (Live a)
Live-Readable = record { has = λ m p. p.has_session }

module _ {W : Type 0} {P : Mounted W → Type 0} (r : Readable P) where
  pub Safe-reads : {A : Type 0} (f : W → A) → Safe P (reads f)
  unfolding reads
  Safe-reads f = record { apply = λ m p. Fine-if P m.session _ _ (r.has m p) p }

module _ {W : Type 0} (q : Qt) (core : Core W) (host : Host W) (entry_limit : ℕ)
    {P : Mounted W → Type 0} (r : Readable P) where
  pub resolve_path_no_lock-Safe :
      (path : Text) → Safe P (resolve_path_no_lock q core host entry_limit path)
  unfolding resolve_path_no_lock
  resolve_path_no_lock-Safe path = search (safe_rules, Safe-reads)

  pub resolve_path-Safe : (path : Text) → Safe P (resolve_path q core host entry_limit path)
  unfolding resolve_path
  resolve_path-Safe path = resolve_path_no_lock-Safe _

module _ {W : Type 0} (q : Qt) (core : Core W) (host : Host W) (entry_limit : ℕ)
    {a : Mounted W} where
  -- Where the target can be read again, reloading gives a session, whatever there was before.
  pub reload_lem :
      Reopens q core
      → (m : Mounted W) → SameFlags a m
      → ((reload_target_no_lock q core host entry_limit m).0 ≡ ok tt)
        × Live a (reload_target_no_lock q core host entry_limit m).1
  unfolding reload_target_no_lock
  reload_lem r m s =
      let (d, e, apfs) = r.detected (probe_size q core host entry_limit m.world) m.world in
      rw (r.opens_again m.world, e, apfs, r.unblocked m.world)
        (
          refl,
          record {
            has_session = refl;
            flags = record {
              same_read_only = s.same_read_only;
              same_raw_target = s.same_raw_target;
              same_allow = s.same_allow;
            };
          },
        )
