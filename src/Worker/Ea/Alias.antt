-- ===== src/Worker/Ea/Alias.antt =====
-- The alias of a name is decoded to that name, and only aliases up to ASCII case are decoded.
use apfs_for_windows.Common.{
  All, Bool-cases, Option-cases, Qt, Text, [], any, ap, arith, drop, false, inl, inr, is_empty,
  length, ltb, map, refl, some, sym, take, take-append-drop, text_eq, text_eq_refl, text_eq→eq,
  true, upper, ℕ, ◌≤◌, ◌<◌, ◌≡◌, ◌∙◌, ◌≢◌, ◌∷◌, ◌++◌, ◌==◌,
}
use mathlib.Core.List.{map-append}
use apfs_for_windows.Worker.Base32.{encode_base32, decode_base32}
use apfs_for_windows.Worker.Base32.RoundTrip.{decode_base32-encode_base32, decode_base32-canonical}
use apfs_for_windows.Worker.Base32.Steps.{IsByte}
use apfs_for_windows.Worker.Ea.{
  max_name_bytes, alias_prefix, decode_windows_ea_alias, encode_windows_ea_alias, checked_name,
}

-- A name whose UTF-8 form fits an alias: 1 to 127 bytes, none 0, which read back as the name.
pub record FitsAlias (q : Qt) (name : Text) : Type 0 where
  pub bytes : All IsByte (q.to_utf8 name)
  pub present : q.to_utf8 name ≢ []
  pub short : length (q.to_utf8 name) ≤ max_name_bytes
  pub no_nul : any (λ c. c == 0) (q.to_utf8 name) ≡ false
  pub reads_back : q.from_utf8 (q.to_utf8 name) ≡ name
  pub not_empty : name ≢ []

is_empty-ne : (xs : Text) → xs ≢ [] → is_empty xs ≡ false
is_empty-ne [] h = absurd (h refl)
is_empty-ne (x ∷ xs) h = refl

checked_name-FitsAlias :
    (q : Qt) (name : Text) → FitsAlias q name → checked_name q (q.to_utf8 name) ≡ some name
unfolding checked_name
checked_name-FitsAlias q name f =
    let short : ltb max_name_bytes (length (q.to_utf8 name)) ≡ false = ground (arith, f.short) in
    rw
      (
        is_empty-ne _ f.present,
        short,
        f.no_nul,
        f.reads_back,
        is_empty-ne name f.not_empty,
        text_eq_refl,
      )
      refl

-- The alias of a name that fits is decoded to the name.
pub decode_windows_ea_alias-encode_windows_ea_alias :
    (q : Qt) (name : Text)
    → FitsAlias q name
    → decode_windows_ea_alias q (encode_windows_ea_alias q name) ≡ some name
unfolding decode_windows_ea_alias encode_windows_ea_alias text_eq upper
decode_windows_ea_alias-encode_windows_ea_alias q name f =
    rw (decode_base32-encode_base32 (q.to_utf8 name) f.bytes f.present)
      (checked_name-FitsAlias q name f)

-- The alias starts with the prefix of aliases, and is not empty.
pub encode_windows_ea_alias-prefix :
    (q : Qt) (name : Text)
    → (text_eq
          (map upper (take (length alias_prefix) (encode_windows_ea_alias q name)))
          alias_prefix
        ≡ true)
      × (is_empty (encode_windows_ea_alias q name) ≡ false)
unfolding encode_windows_ea_alias text_eq upper
encode_windows_ea_alias-prefix q name = (refl, refl)

checked_name-some :
    (q : Qt) (decoded : Text) {name : Text}
    → checked_name q decoded ≡ some name
    → (q.to_utf8 name ≡ decoded)
      × (0 < length decoded)
      × (length decoded ≤ max_name_bytes)
      × (any (λ c. c == 0) decoded ≡ false)
unfolding checked_name
checked_name-some q [] h = cc
checked_name-some q (d ∷ ds) h =
    ground (arith, text_eq→eq (q.to_utf8 (q.from_utf8 (d ∷ ds))) (d ∷ ds))

take-drop-upper :
    (n : ℕ) (wire p : Text)
    → map upper (take n wire) ≡ p
    → map upper wire ≡ p ++ map upper (drop n wire)
take-drop-upper n wire p h =
    ap (map upper) (sym (take-append-drop n wire))
    ∙ map-append upper (take n wire) (drop n wire)
    ∙ ap (λ x. x ++ map upper (drop n wire)) h

-- What a decoded alias says of its wire name: it is the alias that encoding the name gives, up to
-- the case of ASCII letters, and the name has 1 to 127 bytes, none of them 0.
pub decode_windows_ea_alias-canonical :
    (q : Qt) (wire name : Text)
    → decode_windows_ea_alias q wire ≡ some name
    → (map upper wire ≡ encode_windows_ea_alias q name)
      × (0 < length (q.to_utf8 name))
      × (length (q.to_utf8 name) ≤ max_name_bytes)
      × (any (λ c. c == 0) (q.to_utf8 name) ≡ false)
unfolding decode_windows_ea_alias encode_windows_ea_alias
decode_windows_ea_alias-canonical q wire name h =
    elim (Bool-cases (text_eq (map upper (take (length alias_prefix) wire)) alias_prefix)) [
      | inr other ↦ cc (rw other at h)
      | inl same ↦ elim (Option-cases (decode_base32 (drop (length alias_prefix) wire))) [
        | inl e ↦ cc (rw (same, e) at h)
        | inr (decoded, e) ↦
            let (u, pos, short, nul) = checked_name-some q decoded (rw (same, e) at h) in
            (
              take-drop-upper (length alias_prefix) wire alias_prefix (text_eq→eq _ _ same)
                  ∙ ap (λ x. alias_prefix ++ x)
                      (sym (decode_base32-canonical _ e) ∙ ap encode_base32 (sym u)),
              rw u pos,
              rw u short,
              rw u nul,
            )
      ]
    ]
