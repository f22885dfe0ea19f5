-- ===== src/Worker/Ea.antt =====
-- src/worker/apfs_winfs_worker.cpp: names of extended attributes on the Windows side, the alias
-- that carries a name which Windows cannot, and the policy on names that differ by case only.
pub mod Tests
pub mod Alias
pub mod Collision
pub mod Policy
use apfs_for_windows.Common.{
  Bool, List, Option, Qt, Text, [], any, codes, drop, false, is_empty, is_some, keep, length, ltb,
  map, none, not, some, take, text_eq, true, upper, ℕ, ◌&&◌, ◌||◌, ◌∷◌, ◌++◌, ◌==◌, if◌then◌else◌,
}
use apfs_for_windows.Worker.Base32.{encode_base32, decode_base32}

abbrev pub max_name_bytes : ℕ
max_name_bytes = 127

abbrev pub alias_prefix : Text
alias_prefix = codes "APFS.XATTR."

abbrev pub symlink_name : Text
symlink_name = codes "com.apple.fs.symlink"

-- The two names that the APFS core declares are arguments.
unfoldable pub is_content_critical_xattr : Text → Text → Text → Bool
is_content_critical_xattr compressed resource_fork name =
    text_eq name compressed || text_eq name resource_fork || text_eq name symlink_name

abbrev pub forbidden : Text
forbidden = codes "\\/:*?\"<>|,+=[];"

pub is_direct_windows_ea_name : Qt → Text → Option Text
is_direct_windows_ea_name q name =
    let ascii = q.to_latin1 name in
    if is_empty ascii
      || ltb max_name_bytes (length ascii)
      || any (λ c. c == 0) ascii
      || not (text_eq (q.from_latin1 ascii) name)
      || q.starts_with_ci alias_prefix name
      || any (λ c. ltb c 32 || ltb 126 c) ascii
      || any (λ c. any (λ f. f == c) forbidden) ascii
    then none
    else some ascii

-- The bytes of an alias, checked: between 1 and 127 of them, none of them 0, and valid UTF-8.
checked_name : Qt → Text → Option Text
checked_name q decoded =
    if is_empty decoded || ltb max_name_bytes (length decoded) || any (λ c. c == 0) decoded
    then none
    else (let text = q.from_utf8 decoded in
        if is_empty text || not (text_eq (q.to_utf8 text) decoded) then none else some text)

pub decode_windows_ea_alias : Qt → Text → Option Text
unfolding checked_name
decode_windows_ea_alias q wire_name =
    if not (text_eq (map upper (take (length alias_prefix) wire_name)) alias_prefix)
    then none
    else elim (decode_base32 (drop (length alias_prefix) wire_name)) [
      | none ↦ none
      | some decoded ↦ checked_name q decoded
    ]

pub encode_windows_ea_alias : Qt → Text → Text
encode_windows_ea_alias q name = alias_prefix ++ encode_base32 (q.to_utf8 name)

-- windowsEaCaseKey
abbrev pub windows_ea_case_key : Qt → Text → Text
windows_ea_case_key q name = q.to_case_folded name

abbrev pub contains_text : Text → List Text → Bool
contains_text x = any (text_eq x)

-- QHash<QString, QString>::constFind and insert, for a key that is absent.
pub lookup_name : Text → List (Text × Text) → Option Text
lookup_name key [] = none
lookup_name key ((k, name) ∷ rest) = if text_eq k key then some name else lookup_name key rest

pub collision_loop : Qt → List Text → List (Text × Text) → List Text → List Text
unfolding lookup_name
collision_loop q [] first_names collisions = collisions
collision_loop q (name ∷ names) first_names collisions =
    let key = windows_ea_case_key q name in
    elim (lookup_name key first_names) [
      | none ↦ collision_loop q names ((key, name) ∷ first_names) collisions
      | some first ↦
          collision_loop q names first_names
            (if not (text_eq first name) then key ∷ collisions else collisions)
    ]

pub windows_ea_collision_keys : Qt → List Text → List Text
unfolding collision_loop
windows_ea_collision_keys q names = collision_loop q names [] []

pub record PolicyMutation : Type 0 where
  pub name : Text
  pub remove : Bool
  pub aliased : Bool

-- One round of the loop: `none` when the mutation is refused, else the names after it.
pub apply_mutation : Qt → List Text → PolicyMutation → Option (List Text)
apply_mutation q names m =
    let exact_exists = contains_text m.name names in
    let key = windows_ea_case_key q m.name in
    let different_case_exists =
      any (λ n. not (text_eq n m.name) && text_eq (windows_ea_case_key q n) key) names in
    if different_case_exists && (not exact_exists || not m.aliased)
    then none
    else (if m.remove
        then some (keep (λ n. not (text_eq n m.name)) names)
        else (if not exact_exists then some (names ++ m.name ∷ []) else some names))

pub apply_mutations : Qt → List Text → List PolicyMutation → Option (List Text)
unfolding apply_mutation
apply_mutations q names [] = some names
apply_mutations q names (m ∷ ms) = elim (apply_mutation q names m) [
  | none ↦ none
  | some names' ↦ apply_mutations q names' ms
]

pub validate_windows_ea_mutations : Qt → List Text → List PolicyMutation → Bool
validate_windows_ea_mutations q names ms = is_some (apply_mutations q names ms)

-- windowsEaPolicySelfTest, which the worker runs for its status.
abbrev sets : Text → Bool → PolicyMutation
sets name aliased = record { name = name; remove = false; aliased = aliased }

pub windows_ea_policy_self_test : Qt → Bool
unfolding windows_ea_collision_keys validate_windows_ea_mutations
windows_ea_policy_self_test q =
    let upper_name = codes "user.Proof" in
    let lower_name = codes "user.proof" in
    let keys = windows_ea_collision_keys q (upper_name ∷ lower_name ∷ codes "user.unique" ∷ []) in
    let accepts = validate_windows_ea_mutations q in
    contains_text (windows_ea_case_key q upper_name) keys
    && not (contains_text (windows_ea_case_key q (codes "user.unique")) keys)
    && not (accepts (upper_name ∷ []) (sets lower_name false ∷ []))
    && not (accepts (upper_name ∷ lower_name ∷ []) (sets upper_name false ∷ []))
    && accepts (upper_name ∷ lower_name ∷ []) (sets upper_name true ∷ [])
    && accepts (upper_name ∷ []) (sets upper_name false ∷ [])
    && not (accepts [] (sets upper_name false ∷ sets lower_name false ∷ []))
