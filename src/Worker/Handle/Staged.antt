-- ===== src/Worker/Handle/Staged.antt =====
-- The staged write of a handle: what is written is read back, and when the stage is given up.
pub mod Overlay
pub mod Spec
pub mod Steps
pub mod Refine
pub mod Commits
use apfs_for_windows.Common.{
  Bool, Bool-cases, Qt, Text, [], ap, arith, drop, false, inl, inr, is_empty, is_some, leb, length,
  length-append, length-take, ltb, min, not, refl, suc, take, take-append, true, zero, ℕ, ◌+◌, ◌-◌,
  ◌≤◌, ◌≡◌, ◌⊎◌, ◌&&◌, ◌||◌, ◌∷◌, ◌++◌, if◌then◌else◌,
}
use apfs_for_windows.Worker.Call.{
  Call, is_success, proceed, Status, pure, modify, fail_if, ◌>>=◌, ◌>>◌, Outcome, ok, err, ended,
}
use apfs_for_windows.Worker.Core.{Core, Host}
use apfs_for_windows.Worker.Mount.{ResolvedEntry, Mounted, max_mutation_bytes}
use mathlib.Core.Path.{subst}
use apfs_for_windows.Worker.ApfsPath.{split_mutable_file_path}
use apfs_for_windows.Worker.Volume.{u64_max}
use apfs_for_windows.Worker.Handle.{
  set_entry, remove_stage, change_context, unstaged, on_mount, FileContext, Open, splice,
  resize_bytes, is_mutable_file, ensure_staged_write_data, write_file, read_file, read_bytes,
  flush_file,
}

-- A call that errs leaves the context as it was, and one that succeeds leaves nothing to flush,
-- unless `skips` says that the stage is not flushed at all.
abbrev pub Flushed : {W A : Type 0} → Bool → FileContext → Outcome A × Open W → Type 0
Flushed skips c (ok a, o) = (o.context.staged_write_dirty ≡ false) ⊎ (skips ≡ true)
Flushed skips c (err e, o) = o.context ≡ c
Flushed skips c (ended x, o) = Unit

module _ {W : Type 0} (q : Qt) (core : Core W) (host : Host W) (entry_limit : ℕ) where
  -- The steps of flushFile behind its commit.
  committed :
      (skips : Bool) (o : Open W) (out : Outcome ResolvedEntry × Mounted W)
      → Flushed skips o.context (
          proceed
            (λ updated.
              set_entry updated
              >> (remove_stage q core host entry_limit o.context >> change_context unstaged))
            (out.0, record o { mounted = out.1 }))
  committed skips o (ok e, m) = cleared o.context.staged_write_file_backed
    where
      cleared :
          (backed : Bool)
          → Flushed skips o.context (
              (set_entry e
                  >> ((if backed
                        then on_mount (
                            modify (λ m. record m {
                              world = host.remove o.context.staged_write_path m.world;
                            }))
                        else pure tt)
                      >> change_context unstaged))
                (record o { mounted = m }))
      cleared true = inl refl
      cleared false = inl refl
  committed skips o (err x, m) = refl
  committed skips o (ended x, m) = tt

  flushes :
      (dirty read_only skips : Bool) (m : Call (Mounted W) ResolvedEntry) (o : Open W)
      → o.context.staged_write_dirty ≡ dirty
      → Flushed skips o.context (
          (if not dirty then pure tt else (do
            fail_if read_only Status.media_write_protected
            if skips then pure tt else (do
              updated ← on_mount m
              set_entry updated
              remove_stage q core host entry_limit o.context
              change_context unstaged)))
            o)
  flushes false read_only skips m o e = inl e
  flushes true true skips m o e = refl
  flushes true false true m o e = inr refl
  flushes true false false m o e = committed false o (m o.mounted)

  -- Flushing what is staged: where it fails the context, with its stage, is as it was, so that
  -- flushing can be tried again; where it succeeds nothing is left to flush, unless what is open is
  -- a directory or is to be deleted.
  pub flush_file_lem :
      (o : Open W)
      → Flushed
          (o.context.entry.directory || o.context.delete_pending)
          o.context
          (flush_file q core host entry_limit o)
  unfolding flush_file
  flush_file_lem o =
      flushes o.context.staged_write_dirty o.mounted.read_only
        (o.context.entry.directory || o.context.delete_pending) _ o refl

  -- Reading back what was put into bytes that reach far enough.
  take-drop-splice :
      (offset : ℕ) (bytes buffer rest : Text)
      → offset ≤ length bytes
      → take (length buffer) (drop offset (take offset bytes ++ (buffer ++ rest))) ≡ buffer
  take-drop-splice zero bytes buffer rest h = take-append buffer rest
  take-drop-splice (suc n) [] buffer rest h = ground arith
  take-drop-splice (suc n) (x ∷ xs) buffer rest h = take-drop-splice n xs buffer rest (omega arith)

  reads_back :
      {S : Type 0} (bytes buffer : Text) (offset len : ℕ) (s : S)
      → leb (length bytes) offset ≡ false
      → offset + len ≤ length bytes
      → take len (drop offset bytes) ≡ buffer
      → read_bytes bytes offset len s ≡ (ok buffer, s)
  unfolding read_bytes
  reads_back bytes buffer offset len s e h t =
      let all_of : min len (length bytes - offset) ≡ len = omega arith in rw (e, all_of, t) refl

  read_bytes-splice :
      {S : Type 0} (bytes buffer : Text) (offset : ℕ) (s : S)
      → is_empty buffer ≡ false
      → offset + length buffer ≤ length bytes
      → read_bytes (splice bytes offset buffer) offset (length buffer) s ≡ (ok buffer, s)
  unfolding splice
  read_bytes-splice bytes [] offset s e h = cc
  read_bytes-splice bytes (b ∷ bs) offset s e h =
      let rest = drop (offset + length (b ∷ bs)) bytes in
      let long_enough : offset + length (b ∷ bs) ≤ length (splice bytes offset (b ∷ bs)) =
        rw
          (
            length-append (take offset bytes) ((b ∷ bs) ++ rest),
            length-append (b ∷ bs) rest,
            length-take offset bytes,
          )
          (omega arith) in
      reads_back (splice bytes offset (b ∷ bs)) (b ∷ bs) offset (length (b ∷ bs)) s (ground arith)
        long_enough (take-drop-splice offset bytes (b ∷ bs) rest (omega arith))

  -- Bytes that were made long enough.
  grown-length :
      (bytes : Text) (n : ℕ) (w : W)
      → ((k : ℕ) (w : W) → length (host.fresh_bytes k w) ≡ k)
      → n
        ≤ length
            (if ltb (length bytes) n then resize_bytes q core host entry_limit bytes n w else bytes)
  unfolding resize_bytes
  grown-length bytes n w fresh = elim (Bool-cases (ltb (length bytes) n)) [
    | inl e ↦ rw (e) (elim (Bool-cases (leb n (length bytes))) [
      | inl e' ↦ ground arith
      | inr e' ↦
          rw
            (
              e',
              length-append bytes (host.fresh_bytes (n - length bytes) w),
              fresh (n - length bytes) w,
            )
            (omega arith)
    ])
    | inr e ↦ rw (e) (ground arith)
  ]

  is_file : (directory b : Bool) → (not directory && b) ≡ true → directory ≡ false
  is_file true b e = cc
  is_file false b e = refl

  -- The state with these flags: of a writable image, and of a file with a stage in memory.
  in_memory : Bool → Open W → Open W
  in_memory created o = record {
    mounted = record o.mounted { read_only = false; raw_target = false };
    context = record o.context {
      entry = record o.context.entry { directory = false };
      created_by_this_handle = created;
      staged_write_active = true;
      staged_write_file_backed = false;
    };
  }

  in_memory-same :
      (o : Open W)
      → o.mounted.read_only ≡ false
      → o.mounted.raw_target ≡ false
      → o.context.entry.directory ≡ false
      → o.context.staged_write_active ≡ true
      → o.context.staged_write_file_backed ≡ false
      → in_memory o.context.created_by_this_handle o ≡ o
  unfolding in_memory
  in_memory-same o ro raw file active backed = rw (ro, raw, file, active, backed) refl

  grown_bytes : Open W → Text → ℕ → Text
  grown_bytes o buffer offset =
      let bytes = o.context.staged_write_data in
      if ltb (length bytes) (offset + length buffer)
      then resize_bytes q core host entry_limit bytes (offset + length buffer) o.mounted.world
      else bytes

  reads_grown :
      {S : Type 0} (o : Open W) (buffer : Text) (offset : ℕ) (s : S)
      → ((k : ℕ) (w : W) → length (host.fresh_bytes k w) ≡ k)
      → is_empty buffer ≡ false
      → (read_bytes (splice (grown_bytes o buffer offset) offset buffer) offset (length buffer) s).0
        ≡ ok buffer
  unfolding grown_bytes
  reads_grown o buffer offset s fresh some_bytes =
      ap (λ r. r.0)
        (read_bytes-splice (grown_bytes o buffer offset) buffer offset s some_bytes
          (grown-length o.context.staged_write_data (offset + length buffer) o.mounted.world fresh))

  in_memory-reads :
      (created : Bool) (o : Open W) (buffer : Text) (offset : ℕ)
      → ((k : ℕ) (w : W) → length (host.fresh_bytes k w) ≡ k)
      → is_some (split_mutable_file_path q o.context.entry.path) ≡ true
      → is_empty buffer ≡ false
      → ltb max_mutation_bytes (offset + length buffer) ≡ false
      → ltb (u64_max - offset) (length buffer) ≡ false
      → let after = write_file q core host entry_limit buffer offset false (in_memory created o) in
        (is_success after.0 ≡ true)
        × ((read_file q core host entry_limit offset (length buffer) after.1).0 ≡ ok buffer)
  unfolding grown_bytes write_file ensure_staged_write_data read_file is_mutable_file in_memory
  in_memory-reads true o buffer offset fresh mut some_bytes in_limit no_overflow =
      rw (mut, some_bytes, no_overflow, in_limit)
        (refl, reads_grown o buffer offset _ fresh some_bytes)
  in_memory-reads false o buffer offset fresh mut some_bytes in_limit no_overflow =
      rw (mut, some_bytes, no_overflow, in_limit)
        (refl, reads_grown o buffer offset _ fresh some_bytes)

  has_parent : (directory b : Bool) → (not directory && b) ≡ true → b ≡ true
  has_parent true b e = cc
  has_parent false b e = e

  -- On a writable image, a write to a file that has a stage in memory succeeds, where the bytes are
  -- not none and end within 64 MB, and reading as many bytes at its offset then gives them back, if
  -- QByteArray::resize gives the length that it is asked for.
  pub write_file-read_file :
      (o : Open W) (buffer : Text) (offset : ℕ)
      → ((k : ℕ) (w : W) → length (host.fresh_bytes k w) ≡ k)
      → o.mounted.read_only ≡ false
      → o.mounted.raw_target ≡ false
      → is_mutable_file q core host entry_limit o.context.entry ≡ true
      → o.context.staged_write_active ≡ true
      → o.context.staged_write_file_backed ≡ false
      → is_empty buffer ≡ false
      → offset + length buffer ≤ max_mutation_bytes
      → let after = write_file q core host entry_limit buffer offset false o in
        (is_success after.0 ≡ true)
        × ((read_file q core host entry_limit offset (length buffer) after.1).0 ≡ ok buffer)
  unfolding is_mutable_file
  write_file-read_file o buffer offset fresh ro raw mut active backed some_bytes fits =
      let file : o.context.entry.directory ≡ false = is_file _ _ mut in
      let in_limit : ltb max_mutation_bytes (offset + length buffer) ≡ false = ground arith in
      let no_overflow : ltb (u64_max - offset) (length buffer) ≡ false = ground arith in
      let splits : is_some (split_mutable_file_path q o.context.entry.path) ≡ true =
        has_parent _ _ mut in
      let same = in_memory-same o ro raw file active backed in
      subst
        (λ x.
          let after = write_file q core host entry_limit buffer offset false x in
          (is_success after.0 ≡ true)
          × ((read_file q core host entry_limit offset (length buffer) after.1).0 ≡ ok buffer))
        same
        (in_memory-reads o.context.created_by_this_handle o buffer offset fresh splits some_bytes
          in_limit no_overflow)
