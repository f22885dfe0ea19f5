-- ===== src/Worker/EaWire.antt =====
-- src/worker/apfs_winfs_worker.cpp: the records of getEa and collectEaMutation: extended attributes
-- as Windows sees them. A record of FILE_FULL_EA_INFORMATION is its flags, name
-- and value; FspFileSystemAddEa takes the records in order, as many as fit, which is the caller's.
pub mod RoundTrip
pub mod Tests
use apfs_for_windows.Common.{
  Bool, List, Option, Qt, Text, [], any, false, is_empty, keep, leb, length, ltb, map, none, not,
  some, take, text_eq, true, upper, ℕ, ◌&&◌, ◌||◌, ◌∷◌, ◌==◌, if◌then◌else◌,
}
use apfs_for_windows.Worker.Ea.{
  alias_prefix, max_name_bytes, is_content_critical_xattr, is_direct_windows_ea_name,
  decode_windows_ea_alias, encode_windows_ea_alias, windows_ea_case_key, contains_text,
  windows_ea_collision_keys, PolicyMutation, validate_windows_ea_mutations,
}
use apfs_for_windows.Worker.Core.{XattrMutation}

infixl 5 ◌>>=◌
abbrev pub ◌>>=◌ {ℓ κ} : {A : Type ℓ} {B : Type κ} → Option A → (A → Option B) → Option B
none >>= f = none
some a >>= f = f a

pub record WireEa : Type 0 where
  pub flags : ℕ
  pub name : Text
  pub value : Text

pub record Collected : Type 0 where
  pub mutation : XattrMutation
  pub policy : PolicyMutation

module _ (q : Qt) (compressed resource_fork : Text) where
  pub collected_of : Text → Text → Bool → Bool → Collected
  collected_of name value remove aliased = record {
    mutation = record { name = name; value = value; remove = remove };
    policy = record { name = name; remove = remove; aliased = aliased };
  }

  -- The name's bytes must not be those of an attribute that the file system owns.
  abbrev unless_critical : Text → Collected → Option Collected
  unless_critical bytes c =
      if is_content_critical_xattr compressed resource_fork bytes then none else some c

  -- The value of an alias without its version byte, if that is 1.
  pub aliased_value : Text → Option Text
  aliased_value [] = some []
  aliased_value (version ∷ rest) = if version == 1 then some rest else none

  pub collect_aliased : WireEa → Option Collected
  unfolding aliased_value collected_of
  collect_aliased ea = do
    name ← decode_windows_ea_alias q ea.name
    value ← aliased_value ea.value
    unless_critical (q.to_utf8 name) (collected_of name value (is_empty ea.value) true)

  pub collect_direct : WireEa → Option Collected
  unfolding collected_of
  collect_direct ea =
      let name = q.from_latin1 ea.name in
      (do
        validated ← is_direct_windows_ea_name q name
        if text_eq validated ea.name
            then unless_critical validated (collected_of name ea.value (is_empty ea.value) false)
            else none)

  -- collectEaMutation: `none` is STATUS_EA_LIST_INCONSISTENT.
  pub collect_ea_mutation : WireEa → Option Collected
  unfolding collect_aliased collect_direct
  collect_ea_mutation ea =
      if is_empty ea.name || not (ea.flags == 0)
      then none
      else (if text_eq (map upper (take (length alias_prefix) ea.name)) alias_prefix
          then collect_aliased ea
          else collect_direct ea)

  -- The records in order, until one is refused.
  pub collect_all : List WireEa → Option (List Collected)
  unfolding collect_ea_mutation
  collect_all [] = some []
  collect_all (ea ∷ eas) = do
    first ← collect_ea_mutation ea
    rest ← collect_all eas
    some (first ∷ rest)

  -- The attributes that getEa shows at all.
  pub is_shown : Text × Text → Bool
  is_shown (name, value) =
      let bytes = q.to_utf8 name in
      not (
        is_empty bytes
        || ltb max_name_bytes (length bytes)
        || any (λ c. c == 0) bytes
        || not (text_eq (q.to_utf8 (q.from_utf8 bytes)) bytes)
        || is_content_critical_xattr compressed resource_fork bytes)

  -- The wire form of an attribute: its own name, or its alias where the name is not direct or
  -- collides, with a version byte before the value.
  pub wire_ea : List Text → Text × Text → WireEa
  wire_ea collisions (name, value) =
      let alias : WireEa = record {
        flags = 0;
        name = encode_windows_ea_alias q name;
        value = 1 ∷ value;
      } in
      elim (is_direct_windows_ea_name q name) [
        | none ↦ alias
        | some bytes ↦
            if contains_text (windows_ea_case_key q name) collisions
            then alias
            else record { flags = 0; name = bytes; value = value }
      ]

  -- The lengths that the record's fields hold.
  pub fits_record : WireEa → Bool
  fits_record ea = leb (length ea.name) 255 && leb (length ea.value) 65535

  -- left.name.toUpper() < right.name.toUpper(), bytewise
  pub text_lt : Text → Text → Bool
  text_lt xs [] = false
  text_lt [] (y ∷ ys) = true
  text_lt (x ∷ xs) (y ∷ ys) = ltb x y || (x == y && text_lt xs ys)

  -- std::sort, as an insertion sort: records with equal keys keep their order here.
  pub insert_ea : WireEa → List WireEa → List WireEa
  unfolding text_lt
  insert_ea ea [] = ea ∷ []
  insert_ea ea (x ∷ xs) =
      if text_lt (map upper x.name) (map upper ea.name) then x ∷ insert_ea ea xs else ea ∷ x ∷ xs

  pub sort_eas : List WireEa → List WireEa
  unfolding insert_ea
  sort_eas [] = []
  sort_eas (x ∷ xs) = insert_ea x (sort_eas xs)

  -- The records of getEa for the attributes read.
  pub wire_eas : List (Text × Text) → List WireEa
  unfolding is_shown wire_ea fits_record sort_eas
  wire_eas attributes =
      let shown = keep is_shown attributes in
      let collisions = windows_ea_collision_keys q (map (λ a. a.0) shown) in
      sort_eas (keep fits_record (map (wire_ea collisions) shown))
