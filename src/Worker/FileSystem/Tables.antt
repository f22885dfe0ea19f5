-- ===== src/Worker/FileSystem/Tables.antt =====
-- Closing a context: the tables stay within their bounds, and the context stays where late callbacks
-- find it.
use apfs_for_windows.Common.{
  Bool-cases, List, Option-cases, [], ap, arith, drop, find_if-some, inl, inr, is_some, keep,
  length, length-append, length-drop, none, not, refl, suc, true, zero, ℕ, ◌+◌, ◌-◌, ◌≤◌, ◌≡◌, ◌∷◌,
  ◌++◌, ◌==◌,
}
use apfs_for_windows.Worker.Handle.{FileContext}
use apfs_for_windows.Worker.FileSystem.{
  FileSystem, retired_limit, find_context, put_context, prune_retired, closed_context,
  lookup_context, close_context,
}

find-keep :
    (h : ℕ) (cs : List FileContext) → find_context h (keep (λ x. not (x.handle_id == h)) cs) ≡ none
find-keep h [] = refl
find-keep h (c ∷ cs) = elim (Bool-cases (c.handle_id == h)) [
  | inl e ↦ rw (e) (find-keep h cs)
  | inr e ↦ rw (e, e) (find-keep h cs)
]

-- A context at the end is found behind every cut in front of it.
find-drop-last :
    (k h : ℕ) (cs : List FileContext) (c : FileContext)
    → (c.handle_id == h) ≡ true
    → k ≤ length cs
    → is_some (find_context h (drop k (cs ++ c ∷ []))) ≡ true
find-drop-last zero h [] c e l = rw (e) refl
find-drop-last zero h (x ∷ cs) c e l = elim (Bool-cases (x.handle_id == h)) [
  | inl e' ↦ rw (e') refl
  | inr e' ↦ rw (e') (find-drop-last zero h cs c e (ground arith))
]
find-drop-last (suc k) h [] c e l = ground arith
find-drop-last (suc k) h (x ∷ cs) c e l = find-drop-last k h cs c e (omega arith)

length-put_context :
    (c : FileContext) (cs : List FileContext) → length (put_context c cs) ≡ length cs
unfolding put_context
length-put_context c [] = refl
length-put_context c (x ∷ cs) = ap suc (length-put_context c cs)

find-put_context :
    (h : ℕ) (c : FileContext) (cs : List FileContext)
    → (c.handle_id == h) ≡ true
    → is_some (find_context h cs) ≡ true
    → is_some (find_context h (put_context c cs)) ≡ true
unfolding put_context
find-put_context h c [] e s = s
find-put_context h c (x ∷ cs) e s = elim (Bool-cases (x.handle_id == c.handle_id)) [
  | inl e' ↦ rw (e', e) refl
  | inr e' ↦ elim (Bool-cases (x.handle_id == h)) [
    | inl e₂ ↦ rw (e', e₂) refl
    | inr e₂ ↦ rw (e', e₂) (find-put_context h c cs e (rw (e₂) at s))
  ]
]

module _ {W : Type 0} where
  lookup-retired :
      (h : ℕ) (fs : FileSystem W)
      → find_context h fs.active ≡ none
      → is_some (find_context h fs.retired) ≡ true
      → is_some (lookup_context h fs) ≡ true
  lookup-retired h fs e s = rw (lookup_context, e) s

  retired-lookup :
      (h : ℕ) (fs : FileSystem W)
      → find_context h fs.active ≡ none
      → is_some (lookup_context h fs) ≡ true
      → is_some (find_context h fs.retired) ≡ true
  retired-lookup h fs e s = rw (lookup_context, e) at s

  -- Closing a context that is in a table leaves no open context of that number, keeps at most 4096
  -- retired ones if there were no more, and leaves one of that number where a late callback finds
  -- it.
  pub close_context_lem :
      (h : ℕ) (fs : FileSystem W)
      → length fs.retired ≤ retired_limit
      → is_some (lookup_context h fs) ≡ true
      → let after = close_context h fs in
        (find_context h after.active ≡ none)
        × (length after.retired ≤ retired_limit)
        × (is_some (lookup_context h after) ≡ true)
  unfolding close_context prune_retired
  close_context_lem h fs l known = elim (Option-cases (find_context h fs.active)) [
    | inr (c, e) ↦
        let gone = find-keep h fs.active in
        let all = fs.retired ++ closed_context c ∷ [] in
        let counted : length all ≡ length fs.retired + 1 =
          length-append fs.retired (closed_context c ∷ []) in
        let cut = length all - retired_limit in
        let within : length (drop cut all) ≤ retired_limit =
          rw (length-drop cut all) (omega arith) in
        let same_id : (c.handle_id == h) ≡ true =
          (find_if-some (λ x. x.handle_id == h) fs.active e).1 in
        let found : is_some (find_context h (drop cut all)) ≡ true =
          find-drop-last cut h fs.retired (closed_context c) same_id (omega (arith, l, counted)) in
        let after : FileSystem W = record fs {
          active = keep (λ x. not (x.handle_id == h)) fs.active;
          retired = drop cut all;
        } in
        rw (e, close_context) (gone, within, lookup-retired h after gone found)
    | inl e ↦ elim (Option-cases (find_context h fs.retired)) [
      | inl e' ↦ rw (e, e', close_context) (e, l, known)
      | inr (c, e') ↦
          let same_id : (c.handle_id == h) ≡ true =
            (find_if-some (λ x. x.handle_id == h) fs.retired e').1 in
          let found =
            find-put_context h (closed_context c) fs.retired same_id
              (retired-lookup h fs e known) in
          let after : FileSystem W = record fs {
            retired = put_context (closed_context c) fs.retired;
          } in
          let within : length after.retired ≤ retired_limit =
            rw (length-put_context (closed_context c) fs.retired) l in
          rw (e, e', close_context) (e, within, lookup-retired h after e found)
    ]
  ]
