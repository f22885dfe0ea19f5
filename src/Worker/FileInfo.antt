-- ===== src/Worker/FileInfo.antt =====
-- src/worker/apfs_winfs_worker.cpp: attributesFor and fillFileInfo, and the flags that setBasicInfo
-- assigns. A set of flags is a number; `|` of flags that are not set is a sum.
mod Tests
use apfs_for_windows.Common.{
  Bool, arith, false, not, true, ℕ, ◌+◌, ◌-◌, ◌/◌, ◌%◌, ◌^◌, ◌≡◌, ◌∙◌, ◌||◌, ◌==◌, if◌then◌else◌,
}
use apfs_for_windows.Worker.Volume.{align_allocation, file_time_from_unix_ns}
use apfs_for_windows.Worker.Mount.{ResolvedEntry, Mounted}

-- (flags & 2 ^ k) != 0
abbrev pub has_bit : ℕ → ℕ → Bool
has_bit flags k = flags / 2 ^ k % 2 == 1

-- flags |= 2 ^ k, and flags &= ~2 ^ k
abbrev pub set_bit : ℕ → ℕ → ℕ
set_bit flags k = if has_bit flags k then flags else flags + 2 ^ k

abbrev pub clear_bit : ℕ → ℕ → ℕ
clear_bit flags k = if has_bit flags k then flags - 2 ^ k else flags

-- The bits of UF_IMMUTABLE, UF_HIDDEN and the archive flag.
abbrev pub immutable_bit : ℕ
immutable_bit = 1

abbrev pub hidden_bit : ℕ
hidden_bit = 15

abbrev pub archive_bit : ℕ
archive_bit = 16

-- The bits of FILE_ATTRIBUTE_READONLY, HIDDEN, DIRECTORY, ARCHIVE, NORMAL and REPARSE_POINT.
abbrev flag : Bool → ℕ → ℕ
flag b k = if b then 2 ^ k else 0

-- The attributes of what is read-only, hidden, a directory, archived and a symbolic link.
pub attributes_of : Bool → Bool → Bool → Bool → Bool → ℕ
attributes_of readonly hidden directory archive symlink =
    let attributes =
      flag readonly 0 + flag hidden 1 + flag directory 4 + flag archive 5 + flag symlink 10 in
    if attributes == 0 then 2 ^ 7 else attributes

pub attributes_for : Bool → ResolvedEntry → ℕ
unfolding attributes_of
attributes_for read_only e =
    attributes_of (read_only || has_bit e.bsd_flags immutable_bit) (has_bit e.bsd_flags hidden_bit)
      e.directory (has_bit e.bsd_flags archive_bit) e.symlink

-- assignFlag, by whether the attribute is there.
pub put_bit : Bool → ℕ → ℕ → ℕ
put_bit present flags bit = if present then set_bit flags bit else clear_bit flags bit

-- The three assignments of setBasicInfo.
pub assign_flags : ℕ → ℕ → ℕ
unfolding put_bit
assign_flags attributes flags =
    let readonly = put_bit (has_bit attributes 0) flags immutable_bit in
    let hidden = put_bit (has_bit attributes 1) readonly hidden_bit in
    put_bit (has_bit attributes 5) hidden archive_bit

pub record FileInfo : Type 0 where
  pub file_attributes : ℕ
  pub allocation_size : ℕ
  pub file_size : ℕ
  pub creation_time : ℕ
  pub last_access_time : ℕ
  pub last_write_time : ℕ
  pub change_time : ℕ
  pub index_number : ℕ
  pub hard_links : ℕ
  pub is_symlink_tag : Bool

abbrev time_or : ℕ → ℕ → ℕ
time_or ns created = if not (ns == 0) then file_time_from_unix_ns ns else created

pub file_info : {W : Type 0} → Mounted W → ResolvedEntry → FileInfo
unfolding attributes_for
file_info m e = record {
  file_attributes = attributes_for m.read_only e;
  allocation_size = align_allocation e.size_bytes;
  file_size = e.size_bytes;
  creation_time = time_or e.created_time_ns m.created_time;
  last_access_time = time_or e.accessed_time_ns m.created_time;
  last_write_time = time_or e.modified_time_ns m.created_time;
  change_time = time_or e.changed_time_ns m.created_time;
  index_number = if e.object_id == 0 then 1 else e.object_id;
  hard_links = if e.hard_links == 0 then 1 else e.hard_links;
  is_symlink_tag = e.symlink;
}

-- The bits below, between and above the three that are assigned.
abbrev pub SameOthers : ℕ → ℕ → Type 0
SameOthers f f' =
    (f % 2 ≡ f' % 2) × (f / 2 ^ 2 % 2 ^ 13 ≡ f' / 2 ^ 2 % 2 ^ 13) × (f / 2 ^ 17 ≡ f' / 2 ^ 17)

put_immutable_same : (b : Bool) (f : ℕ) → has_bit (put_bit b f 1) 1 ≡ b
unfolding put_bit
put_immutable_same true f = ground arith
put_immutable_same false f = ground arith

put_immutable_keeps_15 : (b : Bool) (f : ℕ) → has_bit (put_bit b f 1) 15 ≡ has_bit f 15
unfolding put_bit
put_immutable_keeps_15 true f = ground arith
put_immutable_keeps_15 false f = ground arith

put_immutable_keeps_16 : (b : Bool) (f : ℕ) → has_bit (put_bit b f 1) 16 ≡ has_bit f 16
unfolding put_bit
put_immutable_keeps_16 true f = ground arith
put_immutable_keeps_16 false f = ground arith

put_immutable_others : (b : Bool) (f : ℕ) → SameOthers (put_bit b f 1) f
unfolding put_bit
put_immutable_others true f = (ground arith, ground arith, ground arith)
put_immutable_others false f = (ground arith, ground arith, ground arith)

put_hidden_same : (b : Bool) (f : ℕ) → has_bit (put_bit b f 15) 15 ≡ b
unfolding put_bit
put_hidden_same true f = ground arith
put_hidden_same false f = ground arith

put_hidden_keeps_1 : (b : Bool) (f : ℕ) → has_bit (put_bit b f 15) 1 ≡ has_bit f 1
unfolding put_bit
put_hidden_keeps_1 true f = ground arith
put_hidden_keeps_1 false f = ground arith

put_hidden_keeps_16 : (b : Bool) (f : ℕ) → has_bit (put_bit b f 15) 16 ≡ has_bit f 16
unfolding put_bit
put_hidden_keeps_16 true f = ground arith
put_hidden_keeps_16 false f = ground arith

put_hidden_others : (b : Bool) (f : ℕ) → SameOthers (put_bit b f 15) f
unfolding put_bit
put_hidden_others true f = (ground arith, ground arith, ground arith)
put_hidden_others false f = (ground arith, ground arith, ground arith)

put_archive_same : (b : Bool) (f : ℕ) → has_bit (put_bit b f 16) 16 ≡ b
unfolding put_bit
put_archive_same true f = ground arith
put_archive_same false f = ground arith

put_archive_keeps_1 : (b : Bool) (f : ℕ) → has_bit (put_bit b f 16) 1 ≡ has_bit f 1
unfolding put_bit
put_archive_keeps_1 true f = ground arith
put_archive_keeps_1 false f = ground arith

put_archive_keeps_15 : (b : Bool) (f : ℕ) → has_bit (put_bit b f 16) 15 ≡ has_bit f 15
unfolding put_bit
put_archive_keeps_15 true f = ground arith
put_archive_keeps_15 false f = ground arith

put_archive_others : (b : Bool) (f : ℕ) → SameOthers (put_bit b f 16) f
unfolding put_bit
put_archive_others true f = (ground arith, ground arith, ground arith)
put_archive_others false f = (ground arith, ground arith, ground arith)

attributes_of-shows :
    (r h d a s : Bool)
    → (has_bit (attributes_of r h d a s) 0 ≡ r)
      × (has_bit (attributes_of r h d a s) 1 ≡ h)
      × (has_bit (attributes_of r h d a s) 5 ≡ a)
unfolding attributes_of
attributes_of-shows true true d a s = (ground arith, ground arith, ground arith)
attributes_of-shows true false d a s = (ground arith, ground arith, ground arith)
attributes_of-shows false true d a s = (ground arith, ground arith, ground arith)
attributes_of-shows false false d a s = (ground arith, ground arith, ground arith)

-- On a writable mount, after the flags that Windows sets have been assigned, the attributes show
-- each of read-only, hidden and archive exactly if it was set, and no other flag has changed.
pub attributes_for-assign_flags :
    (attributes : ℕ) (e : ResolvedEntry)
    → let flags = assign_flags attributes e.bsd_flags in
      let shown = attributes_for false (record e { bsd_flags = flags }) in
      (has_bit shown 0 ≡ has_bit attributes 0)
      × (has_bit shown 1 ≡ has_bit attributes 1)
      × (has_bit shown 5 ≡ has_bit attributes 5)
      × SameOthers flags e.bsd_flags
unfolding attributes_for assign_flags
attributes_for-assign_flags attributes e =
    let f = e.bsd_flags in
    let r = has_bit attributes 0 in
    let h = has_bit attributes 1 in
    let a = has_bit attributes 5 in
    let f1 = put_bit r f 1 in
    let f2 = put_bit h f1 15 in
    let f3 = put_bit a f2 16 in
    let is_r : has_bit f3 1 ≡ r =
      put_archive_keeps_1 a f2 ∙ put_hidden_keeps_1 h f1 ∙ put_immutable_same r f in
    let is_h : has_bit f3 15 ≡ h = put_archive_keeps_15 a f2 ∙ put_hidden_same h f1 in
    let is_a : has_bit f3 16 ≡ a = put_archive_same a f2 in
    let (sr, sh, sa) =
      attributes_of-shows (has_bit f3 1) (has_bit f3 15) e.directory (has_bit f3 16) e.symlink in
    let (l1, m1, u1) = put_immutable_others r f in
    let (l2, m2, u2) = put_hidden_others h f1 in
    let (l3, m3, u3) = put_archive_others a f2 in
    (sr ∙ is_r, sh ∙ is_h, sa ∙ is_a, (l3 ∙ l2 ∙ l1, m3 ∙ m2 ∙ m1, u3 ∙ u2 ∙ u1))
