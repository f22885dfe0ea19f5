-- ===== src/Worker/Handle/Tests.antt =====
-- The theorems on staged writes, applied to an open file.
use apfs_for_windows.Common.{List, [], arith, ascii_qt, false, refl, true, ◌≡◌, ◌∷◌}
use apfs_for_windows.Worker.Call.{ok, is_success}
use apfs_for_windows.Worker.ApfsPath.Tests.{file_splits}
use apfs_for_windows.Worker.Example.{
  example_core, example_host, example_open, example_context, length-zeros,
}
use apfs_for_windows.Worker.Handle.{write_file, read_file, flush_file, is_mutable_file}
use apfs_for_windows.Worker.Handle.Staged.Spec.{Op, writes, resizes}
use apfs_for_windows.Worker.Handle.Staged.{Flushed, write_file-read_file, flush_file_lem}

write_file-read_file_example :
    let after =
      write_file ascii_qt example_core example_host 100 (65 ∷ 66 ∷ []) 2 false example_open in
    (is_success after.0 ≡ true)
    × ((read_file ascii_qt example_core example_host 100 2 2 after.1).0 ≡ ok (65 ∷ 66 ∷ []))
unfolding is_mutable_file
write_file-read_file_example =
    write_file-read_file ascii_qt example_core example_host 100 example_open (65 ∷ 66 ∷ []) 2
      (λ k w. length-zeros k) refl refl file_splits refl refl refl (omega arith)

flush_file_lem_example :
    Flushed false example_context (flush_file ascii_qt example_core example_host 100 example_open)
flush_file_lem_example = flush_file_lem ascii_qt example_core example_host 100 example_open

abbrev two_calls : List Op
two_calls = writes (65 ∷ 66 ∷ []) 2 false ∷ resizes 1 false ∷ []
