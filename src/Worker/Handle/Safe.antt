-- ===== src/Worker/Handle/Safe.antt =====
-- Reading and writing through a handle, as far as the mount is concerned: the session is kept.
use apfs_for_windows.Common.{Bool, Qt, Text, false, is_empty, not, true, ℕ, if◌then◌else◌}
use apfs_for_windows.Worker.Call.{
  modify, Outcome, ok, err, ended, null_session, dangling_context, test_fault, Fine, Call, pure,
}
use apfs_for_windows.Worker.Call.Safe.{
  Fine-skips, Safe, safe_rules, Safe-pure, Safe-then, Safe-fail, Safe-if, Fine-branches,
  Fine-refused,
}
use apfs_for_windows.Worker.Core.{Core, Host}
use apfs_for_windows.Worker.Mount.{Mounted, ResolvedEntry, on_world}
use apfs_for_windows.Worker.Mount.Safe.{Guarded, Readable, Reopens, Live, Live-Readable, Safe-reads}
use apfs_for_windows.Worker.Commit.Safe.{
  SameFlags-world, commit_file_write-Safe, commit_file_write_from_path-Safe,
}
use apfs_for_windows.Worker.Handle.{
  on_host, or_remove, grow_to, mutable_data, put_data, remove_stage, FileContext, Open, on_mount,
  get_context, get_mounted, change_context, get_info, read_bytes, read_mutable_bytes,
  read_host_file_bytes, read_file, ensure_staged_write_data, ensure_file_backed_stage,
  write_staged_file, write_file, set_file_size, overwrite_file, flush_file, discard_staged_write,
}

-- A property of the mount, said of an open handle's state.
pub record OnMount {W : Type 0} (P : Mounted W → Type 0) (o : Open W) : Type 0 where
  pub mounted_has : P o.mounted

module _ {W : Type 0} {P : Mounted W → Type 0} where
  pub on_mount-Safe :
      {A : Type 0} {m : Call (Mounted W) A} → Safe P m → Safe (OnMount P) (on_mount m)
  on_mount-Safe {m} h = record {
    apply = λ o p. carried (m o.mounted) o (h.apply o.mounted p.mounted_has);
  }
    where
      carried :
          {A : Type 0} (out : Outcome A × Mounted W) (o : Open W)
          → Fine P out
          → Fine (OnMount P) (out.0, record o { mounted = out.1 })
      carried (ok x, m) o p = record { mounted_has = p }
      carried (err x, m) o p = record { mounted_has = p }
      carried (ended null_session, m) o p = p
      carried (ended dangling_context, m) o p = p
      carried (ended test_fault, m) o p = tt

  pub get_context-Safe : Safe (OnMount P) (get_context {W = W})
  get_context-Safe = record { apply = λ o p. p }

  pub get_mounted-Safe : Safe (OnMount P) (get_mounted {W = W})
  get_mounted-Safe = record { apply = λ o p. p }

  pub get_info-Safe : Safe (OnMount P) (get_info {W = W})
  get_info-Safe = record { apply = λ o p. p }

  pub change_context-Safe :
      (f : FileContext → FileContext) → Safe (OnMount P) (change_context {W = W} f)
  change_context-Safe f = record { apply = λ o p. record { mounted_has = p.mounted_has } }

pub ruleset handle_rules = (
  safe_rules, on_mount-Safe, get_context-Safe, get_mounted-Safe, get_info-Safe, change_context-Safe,
)

module _ {W : Type 0} (q : Qt) (core : Core W) (host : Host W) (entry_limit : ℕ)
    {P : Mounted W → Type 0} (r : Readable P) where
  read_host_file_bytes-Safe :
      (path : Text) (offset len : ℕ)
      → Safe P (read_host_file_bytes q core host entry_limit path offset len)
  unfolding read_host_file_bytes
  read_host_file_bytes-Safe path offset len = search safe_rules

  read_bytes-Safe : (bytes : Text) (offset len : ℕ) → Safe (OnMount P) (read_bytes bytes offset len)
  unfolding read_bytes
  read_bytes-Safe bytes offset len = search safe_rules

  pub read_file-Safe :
      (offset len : ℕ) → Safe (OnMount P) (read_file q core host entry_limit offset len)
  unfolding read_file
  read_file-Safe offset len =
      search (handle_rules, read_host_file_bytes-Safe, read_bytes-Safe, Safe-reads) depth 20

  read_mutable_bytes-Safe :
      (e : ResolvedEntry) → Safe P (read_mutable_bytes q core host entry_limit e)
  unfolding read_mutable_bytes
  read_mutable_bytes-Safe e = search (safe_rules, Safe-reads)

  ensure_staged_write_data-Safe :
      Safe (OnMount P) (ensure_staged_write_data q core host entry_limit)
  unfolding ensure_staged_write_data
  ensure_staged_write_data-Safe = search (handle_rules, read_mutable_bytes-Safe) depth 20

  -- A read-only mount refuses to flush.
  pub flush_file-refused : Guarded P → Safe (OnMount P) (flush_file q core host entry_limit)
  unfolding flush_file
  flush_file-refused g = record {
    apply = λ o p.
        Fine-skips (OnMount P) (not o.context.staged_write_dirty) o.mounted.read_only _ _ o
          (g.guards o.mounted p.mounted_has) p;
  }

module _ {W : Type 0} {a : Mounted W} where
  pub on_world-Safe : {A : Type 0} (f : W → A × W) → Safe (Live a) (on_world f)
  on_world-Safe f = record {
    apply = λ m p. record {
      has_session = p.has_session;
      flags = SameFlags-world m m.session (f m.world).1 p.flags;
    };
  }

module _ {W : Type 0} (q : Qt) (core : Core W) (host : Host W) (entry_limit : ℕ) {a : Mounted W}
    (r : Reopens q core) where
  on_host-Safe :
      {A : Type 0} (f : W → A × W) → Safe (OnMount (Live a)) (on_host q core host entry_limit f)
  on_host-Safe f = on_mount-Safe (on_world-Safe f)

  removed-Safe :
      (path : Text)
      → Safe
          (OnMount (Live a))
          (on_mount (modify (λ m. record m { world = host.remove path m.world })))
  removed-Safe path = record {
    apply = λ o p. record {
      mounted_has = record {
        has_session = p.mounted_has.has_session;
        flags = SameFlags-world o.mounted o.mounted.session _ p.mounted_has.flags;
      };
    };
  }

  or_remove-Safe :
      (path : Text) (b : Bool) → Safe (OnMount (Live a)) (or_remove q core host entry_limit path b)
  or_remove-Safe path true = Safe-pure
  or_remove-Safe path false = Safe-then (removed-Safe path) Safe-fail

  ruleset stage_rules = (
    handle_rules, on_host-Safe, removed-Safe, or_remove-Safe, Live-Readable,
    read_mutable_bytes-Safe, ensure_staged_write_data-Safe,
  )

  written-Safe :
      (path initial : Text)
      → Safe (OnMount (Live a)) (
          if is_empty initial
          then pure true
          else on_host q core host entry_limit (host.write path initial))
  written-Safe path initial = search stage_rules

  ensure_file_backed_stage-Safe :
      (initial : Text)
      → Safe (OnMount (Live a)) (ensure_file_backed_stage q core host entry_limit initial)
  unfolding ensure_file_backed_stage
  ensure_file_backed_stage-Safe initial = search stage_rules depth 30

  grow_to-Safe :
      (path : Text) (n : ℕ) → Safe (OnMount (Live a)) (grow_to q core host entry_limit path n)
  grow_to-Safe path n = search stage_rules depth 20

  write_staged_file-Safe :
      (buffer : Text) (offset n : ℕ)
      → Safe (OnMount (Live a)) (write_staged_file q core host entry_limit buffer offset n)
  unfolding write_staged_file
  write_staged_file-Safe buffer offset n = search (stage_rules, grow_to-Safe) depth 30

  mutable_data-Safe : Safe (OnMount (Live a)) (mutable_data q core host entry_limit)
  mutable_data-Safe = search stage_rules depth 20

  put_data-Safe : (bytes : Text) → Safe (OnMount (Live a)) (put_data q core host entry_limit bytes)
  put_data-Safe bytes = search (stage_rules, commit_file_write-Safe) depth 20

  ruleset write_rules = (
    handle_rules, on_host-Safe, mutable_data-Safe, put_data-Safe, ensure_file_backed_stage-Safe,
    write_staged_file-Safe,
  )

  pub write_file-Safe :
      (buffer : Text) (offset : ℕ) (to_end : Bool)
      → Safe (OnMount (Live a)) (write_file q core host entry_limit buffer offset to_end)
  unfolding write_file
  write_file-Safe buffer offset to_end = search write_rules depth 40 fits 20000

  pub set_file_size-Safe :
      (n : ℕ) (allocation : Bool)
      → Safe (OnMount (Live a)) (set_file_size q core host entry_limit n allocation)
  unfolding set_file_size
  set_file_size-Safe n allocation = search write_rules depth 40 fits 20000

  remove_stage-Safe :
      (c : FileContext) → Safe (OnMount (Live a)) (remove_stage q core host entry_limit c)
  remove_stage-Safe c = Safe-if c.staged_write_file_backed (removed-Safe _) Safe-pure

  pub overwrite_file-Safe : Safe (OnMount (Live a)) (overwrite_file q core host entry_limit)
  unfolding overwrite_file
  overwrite_file-Safe = search (handle_rules, remove_stage-Safe) depth 30

  pub flush_file-Safe : Safe (OnMount (Live a)) (flush_file q core host entry_limit)
  unfolding flush_file
  flush_file-Safe =
      search
        (handle_rules, remove_stage-Safe, commit_file_write-Safe, commit_file_write_from_path-Safe)
        depth 30

  pub discard_staged_write-Safe :
      Safe (OnMount (Live a)) (discard_staged_write q core host entry_limit)
  unfolding discard_staged_write
  discard_staged_write-Safe = search (handle_rules, remove_stage-Safe) depth 20
