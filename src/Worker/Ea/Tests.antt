-- ===== src/Worker/Ea/Tests.antt =====
-- The theorems on names of extended attributes, applied to short lists.
use apfs_for_windows.Common.{
  All, List, Memᴰ, Text, [], any, arith, ascii_qt, codes, false, length, map, refl, some, text_eq,
  true, upper, ◌≤◌, ◌<◌, ◌≡◌, ◌↔◌, ◌∷◌, ◌==◌,
}
use apfs_for_windows.Worker.Ea.{
  windows_ea_policy_self_test, PolicyMutation, apply_mutations, decode_windows_ea_alias,
  encode_windows_ea_alias, windows_ea_collision_keys, max_name_bytes,
}
use apfs_for_windows.Worker.Ea.Alias.{
  FitsAlias, decode_windows_ea_alias-encode_windows_ea_alias, decode_windows_ea_alias-canonical,
}
use apfs_for_windows.Worker.Ea.Collision.{Collides, windows_ea_collision_keys_iff}
use apfs_for_windows.Worker.Ea.Policy.{apply_mutations-collision_keys}

abbrev pub bar : Text
bar = codes "bar"

bar-IsByte : All (λ b. b < 256) bar
bar-IsByte = (omega arith, (omega arith, (omega arith, tt)))

pub bar-FitsAlias : FitsAlias ascii_qt bar
unfolding ascii_qt
bar-FitsAlias = record {
  bytes = bar-IsByte;
  present = λ e. cc;
  short = omega arith;
  no_nul = refl;
  reads_back = refl;
  not_empty = λ e. cc;
}

decode_windows_ea_alias-encode_windows_ea_alias_example :
    decode_windows_ea_alias ascii_qt (encode_windows_ea_alias ascii_qt bar) ≡ some bar
decode_windows_ea_alias-encode_windows_ea_alias_example =
    decode_windows_ea_alias-encode_windows_ea_alias ascii_qt bar bar-FitsAlias

decode_windows_ea_alias-canonical_example :
    let wire = encode_windows_ea_alias ascii_qt bar in
    (map upper wire ≡ encode_windows_ea_alias ascii_qt bar)
    × (0 < length (ascii_qt.to_utf8 bar))
    × (length (ascii_qt.to_utf8 bar) ≤ max_name_bytes)
    × (any (λ c. c == 0) (ascii_qt.to_utf8 bar) ≡ false)
decode_windows_ea_alias-canonical_example =
    decode_windows_ea_alias-canonical ascii_qt (encode_windows_ea_alias ascii_qt bar) bar
      decode_windows_ea_alias-encode_windows_ea_alias_example

abbrev two_names : List Text
two_names = codes "Note" ∷ codes "note" ∷ codes "size" ∷ []

windows_ea_collision_keys_iff_example :
    Memᴰ (codes "NOTE") (windows_ea_collision_keys ascii_qt two_names)
    ↔ Collides ascii_qt two_names (codes "NOTE")
windows_ea_collision_keys_iff_example =
    windows_ea_collision_keys_iff ascii_qt two_names (codes "NOTE")

abbrev mutations : List PolicyMutation
mutations =
    record { name = codes "note"; remove = true; aliased = true }
    ∷ record { name = codes "NOTE"; remove = false; aliased = true }
    ∷ []

no_collision : windows_ea_collision_keys ascii_qt (codes "note" ∷ []) ≡ []
unfolding windows_ea_collision_keys ascii_qt
no_collision = refl

mutations_accepted :
    apply_mutations ascii_qt (codes "note" ∷ []) mutations ≡ some (codes "NOTE" ∷ [])
unfolding apply_mutations ascii_qt text_eq
mutations_accepted = refl

apply_mutations-collision_keys_example : windows_ea_collision_keys ascii_qt (codes "NOTE" ∷ []) ≡ []
apply_mutations-collision_keys_example =
    apply_mutations-collision_keys ascii_qt (codes "note" ∷ []) mutations no_collision
      mutations_accepted

self_test_passes : windows_ea_policy_self_test ascii_qt ≡ true
unfolding windows_ea_policy_self_test ascii_qt text_eq upper apply_mutations
self_test_passes = refl
