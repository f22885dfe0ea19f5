-- ===== src/Worker/Handle/Staged/Steps.antt =====
-- What one call does to a handle with a stage in memory.
use apfs_for_windows.Common.{
  Bool, Bool-cases, Qt, Text, [], arith, false, inl, inr, is_empty, is_some, leb, length,
  length-append, ltb, refl, true, ℕ, ◌+◌, ◌-◌, ◌≡◌, ◌&&◌, if◌then◌else◌,
}
use mathlib.Core.Path.{subst}
use mathlib.Core.List.{append-nil}
use apfs_for_windows.Worker.ApfsPath.{split_mutable_file_path}
use apfs_for_windows.Worker.Volume.{u64_max}
use apfs_for_windows.Worker.Core.{Core, Host}
use apfs_for_windows.Worker.Mount.{max_mutation_bytes}
use apfs_for_windows.Worker.Handle.{
  Open, splice, resize_bytes, is_mutable_file, ensure_staged_write_data, write_file, set_file_size,
}
use apfs_for_windows.Worker.Handle.Staged.{in_memory, in_memory-same, has_parent, is_file}
use apfs_for_windows.Worker.Handle.Staged.Overlay.{
  Overlay, Resized, splice-Overlay, cut-Resized, grown-Resized,
}
use apfs_for_windows.Worker.Handle.Staged.Spec.{
  Op, writes, resizes, start, FileStep, wrote, wrote_nothing, too_large, resized, size_too_large,
  allocated, apply, IsStaged, IsStep,
}

module _ {W : Type 0} (q : Qt) (core : Core W) (host : Host W) (entry_limit : ℕ) where
  module _ (fresh : (k : ℕ) (w : W) → length (host.fresh_bytes k w) ≡ k) where
    grown-Overlay :
        (bytes buffer : Text) (offset : ℕ) (w : W)
        → Overlay buffer offset bytes (
            splice
              (if ltb (length bytes) (offset + length buffer)
                then resize_bytes q core host entry_limit bytes (offset + length buffer) w
                else bytes)
              offset
              buffer)
    unfolding resize_bytes
    grown-Overlay bytes buffer offset w =
        elim (Bool-cases (ltb (length bytes) (offset + length buffer))) [
          | inl short ↦
              let longer : leb (offset + length buffer) (length bytes) ≡ false = ground arith in
              let k = offset + length buffer - length bytes in
              let n = length-append bytes (host.fresh_bytes k w) in
              let f = fresh k w in
              rw (short, longer)
                (splice-Overlay bytes (host.fresh_bytes k w) buffer offset (ground arith)
                  (ground arith))
          | inr long ↦
              let n = length-append bytes [] in
              rw long (
                subst (λ x. Overlay buffer offset bytes (splice x offset buffer)) (append-nil bytes)
                  (splice-Overlay bytes [] buffer offset (ground arith) (ground arith)))
        ]

    resize-Resized :
        (bytes : Text) (n : ℕ) (w : W)
        → Resized n bytes (resize_bytes q core host entry_limit bytes n w)
    unfolding resize_bytes
    resize-Resized bytes n w = elim (Bool-cases (leb n (length bytes))) [
      | inl short ↦ rw (resize_bytes, short) (cut-Resized n bytes (ground arith))
      | inr long ↦
          let f = fresh (n - length bytes) w in
          rw (resize_bytes, long) (grown-Resized n bytes _ (ground arith))
    ]

    write-IsStep :
        (created : Bool) (o : Open W) (buffer : Text) (offset : ℕ) (to_end : Bool)
        → is_some (split_mutable_file_path q o.context.entry.path) ≡ true
        → IsStep
            (writes buffer offset to_end)
            (in_memory q core host entry_limit created o)
            (write_file q core host entry_limit buffer offset to_end
              (in_memory q core host entry_limit created o)).1
    unfolding in_memory write_file is_mutable_file ensure_staged_write_data
    write-IsStep true o buffer offset to_end splits =
        let old = o.context.staged_write_data in
        elim (Bool-cases (is_empty buffer)) [
          | inl none_there ↦
              rw (splits, none_there) (old, wrote_nothing none_there, inr (refl, refl))
          | inr some_bytes ↦
              elim (Bool-cases (ltb (u64_max - start to_end offset old) (length buffer))) [
                | inl over ↦
                    rw (splits, some_bytes, over) (old, too_large (ground arith), inr (refl, refl))
                | inr fine ↦
                    elim (Bool-cases
                      (ltb max_mutation_bytes (start to_end offset old + length buffer))) [
                        | inl over ↦
                            rw (splits, some_bytes, fine, over)
                              (old, too_large (ground arith), inr (refl, refl))
                        | inr fits ↦
                            rw (splits, some_bytes, fine, fits)
                              (
                                _,
                                wrote (ground arith) (
                                    grown-Overlay old buffer (start to_end offset old)
                                      o.mounted.world),
                                inl refl,
                              )
                      ]
              ]
        ]
    write-IsStep false o buffer offset to_end splits =
        let old = o.context.staged_write_data in
        elim (Bool-cases (is_empty buffer)) [
          | inl none_there ↦
              rw (splits, none_there) (old, wrote_nothing none_there, inr (refl, refl))
          | inr some_bytes ↦
              elim (Bool-cases (ltb (u64_max - start to_end offset old) (length buffer))) [
                | inl over ↦
                    rw (splits, some_bytes, over) (old, too_large (ground arith), inr (refl, refl))
                | inr fine ↦
                    elim (Bool-cases
                      (ltb max_mutation_bytes (start to_end offset old + length buffer))) [
                        | inl over ↦
                            rw (splits, some_bytes, fine, over)
                              (old, too_large (ground arith), inr (refl, refl))
                        | inr fits ↦
                            rw (splits, some_bytes, fine, fits)
                              (
                                _,
                                wrote (ground arith) (
                                    grown-Overlay old buffer (start to_end offset old)
                                      o.mounted.world),
                                inl refl,
                              )
                      ]
              ]
        ]

    kept_size :
        {a : Text} {n k : ℕ} (allocation : Bool)
        → (allocation && leb k n) ≡ true
        → k ≡ length a
        → FileStep (resizes n allocation) a a
    kept_size true h e = allocated (ground arith)
    kept_size false h e = cc

    resize-IsStep :
        (created : Bool) (o : Open W) (n : ℕ) (allocation : Bool)
        → is_some (split_mutable_file_path q o.context.entry.path) ≡ true
        → o.context.entry.size_bytes ≡ length o.context.staged_write_data
        → IsStep
            (resizes n allocation)
            (in_memory q core host entry_limit created o)
            (set_file_size q core host entry_limit n allocation
              (in_memory q core host entry_limit created o)).1
    unfolding in_memory set_file_size is_mutable_file ensure_staged_write_data
    resize-IsStep true o n allocation splits size =
        let old = o.context.staged_write_data in
        elim (Bool-cases (ltb max_mutation_bytes n)) [
          | inl over ↦ rw (splits, over) (old, size_too_large (ground arith), inr (refl, refl))
          | inr fits ↦ elim (Bool-cases (allocation && leb o.context.entry.size_bytes n)) [
            | inl enough ↦
                rw (splits, fits, enough) (old, kept_size allocation enough size, inr (refl, refl))
            | inr change ↦
                rw (splits, fits, change)
                  (_, resized (ground arith) (resize-Resized old n o.mounted.world), inl refl)
          ]
        ]
    resize-IsStep false o n allocation splits size =
        let old = o.context.staged_write_data in
        elim (Bool-cases (ltb max_mutation_bytes n)) [
          | inl over ↦ rw (splits, over) (old, size_too_large (ground arith), inr (refl, refl))
          | inr fits ↦ elim (Bool-cases (allocation && leb o.context.entry.size_bytes n)) [
            | inl enough ↦
                rw (splits, fits, enough) (old, kept_size allocation enough size, inr (refl, refl))
            | inr change ↦
                rw (splits, fits, change)
                  (_, resized (ground arith) (resize-Resized old n o.mounted.world), inl refl)
          ]
        ]

    pub apply-IsStep :
        (op : Op) (o : Open W)
        → IsStaged q core host entry_limit o
        → IsStep op o (apply q core host entry_limit op o)
    unfolding is_mutable_file
    apply-IsStep op o s =
        let file = is_file q core host entry_limit _ _ s.mutable in
        let splits = has_parent q core host entry_limit _ _ s.mutable in
        let same =
          in_memory-same q core host entry_limit o s.writable s.image file s.active s.in_memory in
        subst (λ x. IsStep op x (apply q core host entry_limit op x)) same (plain op splits s.size)
      where
        plain :
            (op : Op)
            → is_some (split_mutable_file_path q o.context.entry.path) ≡ true
            → o.context.entry.size_bytes ≡ length o.context.staged_write_data
            → let x = in_memory q core host entry_limit o.context.created_by_this_handle o in
              IsStep op x (apply q core host entry_limit op x)
        plain (writes buffer offset to_end) splits size =
            write-IsStep o.context.created_by_this_handle o buffer offset to_end splits
        plain (resizes n allocation) splits size =
            resize-IsStep o.context.created_by_this_handle o n allocation splits size
