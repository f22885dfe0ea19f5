-- ===== src/Service/Config/Valid.antt =====
-- The invariant of the configuration: what is written is read back, no two mounts share a target or
-- a drive, and a read-only mount has no raw writes.
use apfs_for_windows.Common.{
  All, All-append, All-keep, All-mono, Bool, Bool-cases, ComparesByCase, List, Pairs, Pairs-keep,
  Pairs-snoc, Qt, Text, [], any, ap, arith, codes, false, inl, inr, is_empty, keep, keep-All, map,
  not, refl, some, some-eq, text_eq, trimmed, trimmed-trimmed, true, ◌≡◌, ◌&&◌, ◌||◌, ◌∷◌, ◌++◌,
}
use mathlib.Core.Path.{subst}
use apfs_for_windows.Service.Json.{JsonObject, field, to_array, to_string}
use apfs_for_windows.Service.Config.{
  MountConfig, ConfigFile, missing, unopenable, malformed, document, mount_config_json,
  config_document, mount_config_of, is_complete, read_mount_config, update_first, Surroundings,
}
use apfs_for_windows.Service.Config.Change.{Edit, Change, adds, removes, moves, enables, permits}

module _ (q : Qt) where
  -- A mount that the file keeps as it is.
  abbrev pub IsStored : MountConfig → Type 0
  IsStored m =
      (trimmed q m.target ≡ m.target) × (trimmed q m.mount ≡ m.mount) × (is_complete m ≡ true)

  abbrev pub IsSafe : MountConfig → Type 0
  IsSafe m = (m.read_only && m.allow_raw_writes) ≡ false

  abbrev pub Apart : MountConfig → MountConfig → Type 0
  Apart a b = (q.equal_ci a.target b.target ≡ false) × (q.equal_ci a.mount b.mount ≡ false)

  pub record IsValid (mounts : List MountConfig) : Type 0 where
    pub stored : All IsStored mounts
    pub safe : All IsSafe mounts
    pub apart : Pairs Apart mounts

  -- A list of mounts whose targets and drives are not empty and have no spaces at their ends is what
  -- readMountConfig reads from the document that writeMountConfig writes for it.
  pub read_mount_config-mount_config_json :
      (mounts : List MountConfig)
      → All IsStored mounts
      → read_mount_config q (config_document mounts) ≡ some mounts
  unfolding read_mount_config config_document mount_config_json mount_config_of field text_eq
  read_mount_config-mount_config_json mounts h = ap some (read_back mounts h)
    where
      read_back :
          (mounts : List MountConfig)
          → All IsStored mounts
          → keep is_complete (map (mount_config_of q) (map mount_config_json mounts)) ≡ mounts
      read_back [] h = refl
      read_back (m ∷ ms) h = rw (h.0.0, h.0.1, h.0.2) (ap (λ t. m ∷ t) (read_back ms h.1))

  -- What is read is stored: complete, and trimmed.
  pub read_mount_config-IsStored :
      (file : ConfigFile) {mounts : List MountConfig}
      → read_mount_config q file ≡ some mounts
      → All IsStored mounts
  unfolding read_mount_config mount_config_of field
  read_mount_config-IsStored missing h = subst (All IsStored) (some-eq h) tt
  read_mount_config-IsStored unopenable h = cc
  read_mount_config-IsStored malformed h = cc
  read_mount_config-IsStored (document fields) h =
      subst (All IsStored) (some-eq h) (read_stored (to_array (field (codes "mounts") fields)))
    where
      read_stored :
          (js : List JsonObject) → All IsStored (keep is_complete (map (mount_config_of q) js))
      read_stored [] = tt
      read_stored (j ∷ js) = elim (Bool-cases (is_complete (mount_config_of q j))) [
        | inl e ↦ rw e (
          (
            trimmed-trimmed q (to_string (field (codes "target") j)),
            trimmed-trimmed q (to_string (field (codes "mount") j)),
            e,
          ),
          read_stored js,
        )
        | inr e ↦ rw e (read_stored js)
      ]

  IsStored-add :
      (target mount : Text)
      → (is_empty target || is_empty mount) ≡ false
      → (not (is_empty target) && not (is_empty mount)) ≡ true
  IsStored-add target mount h = ground arith

module _ (q : Qt) where
  All-update_first {κ} :
      (P : MountConfig → Type κ) (p : MountConfig → Bool) (f : MountConfig → MountConfig)
      → ((m : MountConfig) → P m → P (f m))
      → (ms : List MountConfig) → All P ms
      → All P (update_first p f ms)
  unfolding update_first
  All-update_first P p f k [] h = tt
  All-update_first P p f k (m ∷ ms) h = elim (Bool-cases (p m)) [
    | inl e ↦ rw e (k m h.0, h.1)
    | inr e ↦ rw e (h.0, All-update_first P p f k ms h.1)
  ]

  -- A change that leaves target and drive leaves the mounts apart.
  Pairs-update_first :
      (p : MountConfig → Bool) (f : MountConfig → MountConfig)
      → ((a b : MountConfig) → Apart q a b → Apart q (f a) b)
      → ((a b : MountConfig) → Apart q a b → Apart q a (f b))
      → (ms : List MountConfig) → Pairs (Apart q) ms
      → Pairs (Apart q) (update_first p f ms)
  unfolding update_first
  Pairs-update_first p f l r [] h = tt
  Pairs-update_first p f l r (m ∷ ms) h = elim (Bool-cases (p m)) [
    | inl e ↦ rw e (All-mono (Apart q m) {Q = Apart q (f m)} (λ b a. l m b a) ms h.0, h.1)
    | inr e ↦ rw e (
      All-update_first (Apart q m) p f (λ b a. r m b a) ms h.0,
      Pairs-update_first p f l r ms h.1,
    )
  ]

module _ (q : Qt) (laws : ComparesByCase q) where
  ci_false_sym : (x y : Text) → q.equal_ci x y ≡ false → q.equal_ci y x ≡ false
  ci_false_sym x y h = elim (Bool-cases (q.equal_ci y x)) [
    | inl e ↦ cc (laws.ci_sym y x e, h)
    | inr e ↦ e
  ]

  -- Moving a target to a drive that no other target has.
  moves-Apart :
      (target mount : Text) (ms : List MountConfig)
      → any (λ x. not (q.equal_ci x.target target) && q.equal_ci x.mount mount) ms ≡ false
      → Pairs (Apart q) ms
      → Pairs
          (Apart q)
          (update_first (λ x. q.equal_ci x.target target) (λ x. record x { mount = mount }) ms)
  unfolding update_first
  moves-Apart target mount [] free h = tt
  moves-Apart target mount (m ∷ ms) free h =
      let free_m : (not (q.equal_ci m.target target) && q.equal_ci m.mount mount) ≡ false =
        ground arith in
      let free_ms : any (λ x. not (q.equal_ci x.target target) && q.equal_ci x.mount mount) ms
          ≡ false =
        ground arith in
      elim (Bool-cases (q.equal_ci m.target target)) [
        | inl hit ↦ rw hit (apart_from_moved m ms hit free_ms h.0, h.1)
        | inr miss ↦ rw miss (
          All-update_first q (Apart q m) (λ x. q.equal_ci x.target target)
              (λ x. record x { mount = mount }) (λ b a. (a.0, ground arith)) ms h.0,
          moves-Apart target mount ms free_ms h.1,
        )
      ]
    where
      apart_from_moved :
          (m : MountConfig) (ms : List MountConfig)
          → q.equal_ci m.target target ≡ true
          → any (λ x. not (q.equal_ci x.target target) && q.equal_ci x.mount mount) ms ≡ false
          → All (Apart q m) ms
          → All (Apart q (record m { mount = mount })) ms
      apart_from_moved m [] hit free a = tt
      apart_from_moved m (b ∷ bs) hit free a =
          let other : q.equal_ci b.target target ≡ false =
            elim (Bool-cases (q.equal_ci b.target target)) [
              | inl e ↦ cc (
                a.0.0,
                laws.ci_trans m.target target b.target hit (laws.ci_sym b.target target e),
              )
              | inr e ↦ e
            ] in
          (
            (a.0.0, ci_false_sym b.mount mount (ground arith)),
            apart_from_moved m bs hit (ground arith) a.1,
          )

  -- A new mount, after what shares its target or drive was taken out.
  adds-Apart :
      (m : MountConfig) (ms : List MountConfig)
      → Pairs (Apart q) ms
      → Pairs (Apart q) (
          keep (λ x. not (q.equal_ci x.mount m.mount || q.equal_ci x.target m.target)) ms ++ m ∷ [])
  adds-Apart m ms h =
      let test : MountConfig → Bool =
        λ x. not (q.equal_ci x.mount m.mount || q.equal_ci x.target m.target) in
      Pairs-snoc (Apart q) (keep test ms) m (Pairs-keep (Apart q) test ms h) (
        All-mono (λ x. test x ≡ true) {Q = λ x. Apart q x m} (λ x t. (ground arith, ground arith))
          (keep test ms) (keep-All test ms))

  -- Every change keeps what the file stores as it is.
  pub Change-IsStored :
      (env : Surroundings) {edit : Edit} {mounts mounts' : List MountConfig}
      → Change q env mounts edit mounts'
      → All (IsStored q) mounts
      → All (IsStored q) mounts'
  Change-IsStored env {mounts} (adds target mount read_only ne ht hm) v =
      All-append (IsStored q) _ _ (All-keep (IsStored q) _ mounts v)
        ((ht, hm, IsStored-add q target mount ne), tt)
  Change-IsStored env {mounts} (removes target mount ne) v = All-keep (IsStored q) _ mounts v
  Change-IsStored env {mounts} (moves target mount ne hm free) v =
      All-update_first q (IsStored q) _ _ (λ m s. (s.0, hm, ground arith)) mounts v
  Change-IsStored env {mounts} (enables target value) v =
      All-update_first q (IsStored q) _ _ (λ m s. s) mounts v
  Change-IsStored env {mounts} (permits target read_only asked raw is ok verified) v =
      All-update_first q (IsStored q) _ _ (λ m s. s) mounts v

  -- Every change that a control request can make keeps the configuration valid.
  pub Change-IsValid :
      (env : Surroundings) {edit : Edit} {mounts mounts' : List MountConfig}
      → Change q env mounts edit mounts'
      → IsValid q mounts
      → IsValid q mounts'
  Change-IsValid env {mounts} (adds target mount read_only ne ht hm) v = record {
    stored = Change-IsStored env (adds target mount read_only ne ht hm) v.stored;
    safe = All-append (IsSafe q) _ _ (All-keep (IsSafe q) _ mounts v.safe) (ground arith, tt);
    apart = adds-Apart _ mounts v.apart;
  }
  Change-IsValid env {mounts} (removes target mount gone) v = record {
    stored = Change-IsStored env (removes target mount gone) v.stored;
    safe = All-keep (IsSafe q) _ mounts v.safe;
    apart = Pairs-keep (Apart q) _ mounts v.apart;
  }
  Change-IsValid env {mounts} (moves target mount ne hm free) v = record {
    stored = Change-IsStored env (moves target mount ne hm free) v.stored;
    safe = All-update_first q (IsSafe q) _ _ (λ m s. s) mounts v.safe;
    apart = moves-Apart target mount mounts free v.apart;
  }
  Change-IsValid env {mounts} (enables target value) v = record {
    stored = Change-IsStored env (enables target value) v.stored;
    safe = All-update_first q (IsSafe q) _ _ (λ m s. s) mounts v.safe;
    apart = Pairs-update_first q _ _ (λ a b h. h) (λ a b h. h) mounts v.apart;
  }
  Change-IsValid env {mounts} (permits target read_only asked raw is ok verified) v = record {
    stored = Change-IsStored env (permits target read_only asked raw is ok verified) v.stored;
    safe = All-update_first q (IsSafe q) _ _ (λ m s. ok) mounts v.safe;
    apart = Pairs-update_first q _ _ (λ a b h. h) (λ a b h. h) mounts v.apart;
  }
