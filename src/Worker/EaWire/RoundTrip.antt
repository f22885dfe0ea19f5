-- ===== src/Worker/EaWire/RoundTrip.antt =====
-- A record that getEa writes under an alias is read by collectEaMutation as the attribute.
use apfs_for_windows.Common.{
  List, Option-cases, Qt, Text, false, inl, inr, none, refl, some, sym, true, ◌≡◌, ◌∙◌, ◌⊎◌, ◌∷◌,
}
use apfs_for_windows.Worker.Ea.{
  is_content_critical_xattr, is_direct_windows_ea_name, windows_ea_case_key, contains_text,
  encode_windows_ea_alias,
}
use apfs_for_windows.Worker.Ea.Alias.{
  FitsAlias, encode_windows_ea_alias-prefix, decode_windows_ea_alias-encode_windows_ea_alias,
}
use apfs_for_windows.Worker.EaWire.{
  WireEa, collected_of, collect_ea_mutation, collect_aliased, aliased_value, wire_ea,
}

none-some : {A B : Type 0} {a : A} → none ≡ some a → B
none-some e = cc

module _ (q : Qt) (compressed resource_fork : Text) where
  alias_record : Text → Text → WireEa
  alias_record name value = record {
    flags = 0;
    name = encode_windows_ea_alias q name;
    value = 1 ∷ value;
  }

  collects_alias :
      (name value : Text)
      → FitsAlias q name
      → is_content_critical_xattr compressed resource_fork (q.to_utf8 name) ≡ false
      → collect_ea_mutation q compressed resource_fork (alias_record name value)
        ≡ some (collected_of q compressed resource_fork name value false true)
  unfolding collect_ea_mutation collect_aliased alias_record aliased_value
  collects_alias name value f safe =
      let (prefixed, present) = encode_windows_ea_alias-prefix q name in
      let decoded = decode_windows_ea_alias-encode_windows_ea_alias q name f in
      rw (present, prefixed, decoded, safe) refl

  -- An attribute whose name is not direct, or collides with another in case, is written under an
  -- alias, and the record is collected as setting the attribute of that name to that value, whatever
  -- the value, also an empty one, if the name fits an alias and is none that the file system owns.
  pub collect_ea_mutation-wire_ea :
      (collisions : List Text) (name value : Text)
      → FitsAlias q name
      → is_content_critical_xattr compressed resource_fork (q.to_utf8 name) ≡ false
      → (is_direct_windows_ea_name q name ≡ none)
        ⊎ (contains_text (windows_ea_case_key q name) collisions ≡ true)
      → collect_ea_mutation q compressed resource_fork
          (wire_ea q compressed resource_fork collisions (name, value))
        ≡ some (collected_of q compressed resource_fork name value false true)
  unfolding wire_ea alias_record
  collect_ea_mutation-wire_ea collisions name value f safe aliased =
      elim (Option-cases (is_direct_windows_ea_name q name)) [
        | inl e ↦ rw (wire_ea, e) (collects_alias name value f safe)
        | inr (bytes, e) ↦ elim aliased [
          | inl direct ↦ none-some (sym direct ∙ e)
          | inr collides ↦ rw (wire_ea, e, collides) (collects_alias name value f safe)
        ]
      ]
