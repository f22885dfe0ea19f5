-- ===== src/Worker/FileSystem/Safe.antt =====
-- Calls through the table of contexts: what holds of the mount after the call on the context holds
-- after the callback.
use apfs_for_windows.Common.{
  Bool, Option, Option-cases, false, inl, inr, is_some, none, some, true, ℕ, ◌≡◌,
}
use apfs_for_windows.Worker.Call.{
  Outcome, ok, err, ended, null_session, dangling_context, test_fault, Fine, Status, Call,
}
use apfs_for_windows.Worker.Call.Safe.{
  Safe, safe_rules, Safe-then, Safe-pure, Safe-if, Fine-branches,
}
use apfs_for_windows.Worker.Mount.{Mounted, ResolvedEntry}
use apfs_for_windows.Worker.Handle.{FileContext, Open}
use apfs_for_windows.Worker.Handle.Safe.{OnMount}
use apfs_for_windows.Worker.FileSystem.{
  Known, FileSystem, succeeds, on_mounted, on_handle, on_context, on_writable, lookup_context,
  store_context, copy_security, open_context, answer_handle, close_context,
  update_open_context_hard_links, find_context,
}

-- A property of the mount, said of the file system.
pub record OnVolume {W : Type 0} (P : Mounted W → Type 0) (fs : FileSystem W) : Type 0 where
  pub volume_has : P fs.mounted

module _ {W : Type 0} {P : Mounted W → Type 0} where
  pub on_mounted-Safe :
      {A : Type 0} {m : Call (Mounted W) A} → Safe P m → Safe (OnVolume P) (on_mounted m)
  on_mounted-Safe {m} h = record {
    apply = λ fs p. carried (m fs.mounted) fs (h.apply fs.mounted p.volume_has);
  }
    where
      carried :
          {A : Type 0} (out : Outcome A × Mounted W) (fs : FileSystem W)
          → Fine P out
          → Fine (OnVolume P) (out.0, record fs { mounted = out.1 })
      carried (ok x, m) fs p = record { volume_has = p }
      carried (err x, m) fs p = record { volume_has = p }
      carried (ended null_session, m) fs p = p
      carried (ended dangling_context, m) fs p = p
      carried (ended test_fault, m) fs p = tt

  pub on_handle-Fine :
      {A : Type 0} (h : ℕ) (m : Call (Open W) A) (fs : FileSystem W)
      → Safe (OnMount P) m
      → is_some (lookup_context h fs) ≡ true
      → OnVolume P fs
      → Fine (OnVolume P) (on_handle h m fs)
  unfolding on_handle store_context
  on_handle-Fine {A = A} h m fs s e p = looked (lookup_context h fs) e
    where
      carried :
          {A : Type 0} (out : Outcome A × Open W)
          → Fine (OnMount P) out
          → Fine (OnVolume P) (out.0, store_context fs out.1)
      carried (ok x, o) p = record { volume_has = p.mounted_has }
      carried (err x, o) p = record { volume_has = p.mounted_has }
      carried (ended null_session, o) p = p
      carried (ended dangling_context, o) p = p
      carried (ended test_fault, o) p = tt

      looked :
          (found : Option FileContext)
          → is_some found ≡ true
          → Fine (OnVolume P) (elim found as (λ _. Outcome A × FileSystem W) [
            | none ↦ (ended dangling_context, fs)
            | some c ↦
                let out = m (record { context = c; mounted = fs.mounted }) in
                (out.0, store_context fs out.1)
          ])
      looked none e = cc
      looked (some c) e = carried (m (record { context = c; mounted = fs.mounted })) (
          s.apply (record { context = c; mounted = fs.mounted })
            (record { mounted_has = p.volume_has }))

  pub on_context-Fine :
      {A : Type 0} (h : Option ℕ) (e : Status) (m : Call (Open W) A) (fs : FileSystem W)
      → Safe (OnMount P) m
      → Known h fs
      → OnVolume P fs
      → Fine (OnVolume P) (on_context h e m fs)
  on_context-Fine none e m fs s k p = p
  on_context-Fine (some h) e m fs s k p = on_handle-Fine h m fs s k p

  pub on_writable-Fine :
      {A : Type 0} (h : Option ℕ) (e : Status) (m : Call (Open W) A) (fs : FileSystem W)
      → Safe (OnMount P) m
      → Known h fs
      → OnVolume P fs
      → Fine (OnVolume P) (on_writable h e m fs)
  on_writable-Fine h e m fs s k p =
      Fine-branches (OnVolume P) fs.mounted.read_only _ _ p (on_context-Fine h e m fs s k p)

  pub succeeds-Safe :
      {A : Type 0} {m : Call (FileSystem W) A}
      → Safe (OnVolume P) m
      → Safe (OnVolume P) (succeeds m)
  succeeds-Safe {m} h = record { apply = λ fs p. asked (m fs) (h.apply fs p) }
    where
      asked :
          {A : Type 0} (out : Outcome A × FileSystem W)
          → Fine (OnVolume P) out
          → Fine (OnVolume P) (succeeds (λ _. out) out.1)
      asked (ok x, fs) p = p
      asked (err x, fs) p = p
      asked (ended null_session, fs) p = p
      asked (ended dangling_context, fs) p = p
      asked (ended test_fault, fs) p = p

  pub copy_security-Safe : (size : Option ℕ) → Safe P (copy_security size)
  unfolding copy_security
  copy_security-Safe none = Safe-pure
  copy_security-Safe (some size) = search safe_rules

  pub opened-Safe :
      (allocates : Bool) (e : ResolvedEntry) (created : Bool)
      → Safe
          (OnVolume P)
          (λ fs. let (h, fs') = open_context {W = W} allocates e created fs in (ok h, fs'))
  unfolding open_context
  opened-Safe true e created = record { apply = λ fs p. record { volume_has = p.volume_has } }
  opened-Safe false e created = record { apply = λ fs p. p }

  pub answer_handle-Safe :
      (h : Option ℕ) (e : ResolvedEntry) → Safe (OnVolume P) (answer_handle h e)
  answer_handle-Safe none e = record { apply = λ fs p. p }
  answer_handle-Safe (some h) e = record { apply = λ fs p. p }

  pub close_context-keeps :
      (h : ℕ) (fs : FileSystem W) → OnVolume P fs → OnVolume P (close_context h fs)
  unfolding close_context
  close_context-keeps h fs p = elim (Option-cases (find_context h fs.active)) [
    | inl e ↦ elim (Option-cases (find_context h fs.retired)) [
      | inl e' ↦ rw (e, e', close_context) p
      | inr (c, e') ↦ rw (e, e', close_context) (record { volume_has = p.volume_has })
    ]
    | inr (c, e) ↦ rw (e, close_context) (record { volume_has = p.volume_has })
  ]

  pub update_open_context_hard_links-keeps :
      (object_id links : ℕ) (fs : FileSystem W)
      → OnVolume P fs
      → OnVolume P (update_open_context_hard_links object_id links fs)
  unfolding update_open_context_hard_links
  update_open_context_hard_links-keeps object_id links fs p = record { volume_has = p.volume_has }

pub ruleset volume_rules = (
  safe_rules, on_mounted-Safe, succeeds-Safe, copy_security-Safe, opened-Safe, answer_handle-Safe,
)
