-- ===== src/Worker/Listing.antt =====
-- src/worker/apfs_winfs_worker.cpp, listDirectory: the entries of a directory in order, from behind a
-- marker on. FspFileSystemAddDirInfo takes them as long as they fit, which is the caller's.
use apfs_for_windows.Common.{
  Bool, List, Text, [], is_empty, keep, not, ◌&&◌, ◌||◌, ◌∷◌, if◌then◌else◌,
}
use apfs_for_windows.Worker.Core.{FileEntry}

-- compare(a, b, Qt::CaseInsensitive) and operator< of texts, as the sign of the first.
pub record Orders : Type 0 where
  pub lt_ci : Text → Text → Bool
  pub lt : Text → Text → Bool

module _ (o : Orders) where
  -- The comparison of the sort.
  pub entry_lt : Text → Text → Bool
  entry_lt a b = o.lt_ci a b || (not (o.lt_ci b a) && o.lt a b)

  -- std::sort, as an insertion sort.
  pub insert_entry : FileEntry → List FileEntry → List FileEntry
  unfolding entry_lt
  insert_entry e [] = e ∷ []
  insert_entry e (x ∷ xs) = if entry_lt x.name e.name then x ∷ insert_entry e xs else e ∷ x ∷ xs

  pub sort_entries : List FileEntry → List FileEntry
  unfolding insert_entry
  sort_entries [] = []
  sort_entries (x ∷ xs) = insert_entry x (sort_entries xs)

  -- The loop with the marker: what compares at most equal to it, without case, is skipped. An empty
  -- marker is none.
  pub after_marker : Text → List FileEntry → List FileEntry
  after_marker marker es = if is_empty marker then es else keep (λ e. o.lt_ci marker e.name) es

  pub listed_entries : Text → List FileEntry → List FileEntry
  unfolding sort_entries after_marker
  listed_entries marker es = after_marker marker (sort_entries es)
