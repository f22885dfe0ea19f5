-- ===== src/Worker/Base32.antt =====
-- src/worker/apfs_winfs_worker.cpp: encodeBase32 and decodeBase32. The bit buffer is a uint32_t:
-- a left shift drops what passes 2 ^ 32 and leaves zeros, so that `|` adds the new low bits.
mod Tests
pub mod Steps
pub mod RoundTrip
pub mod Length
use mathlib.Core.Option
use apfs_for_windows.Common.{
  ℕ, zero, suc, ◌+◌, ◌-◌, ◌*◌, ◌/◌, ◌%◌, ◌^◌, ◌≡◌, refl, Bool, true, false, ◌&&◌, Option, none,
  some, List, [], ◌∷◌, ◌++◌, map, Text, codes, get_or, is_empty, leb, ◌==◌, if◌then◌else◌, text_eq,
  upper,
}

-- kAlphabet
abbrev pub alphabet : Text
alphabet = codes "ABCDEFGHIJKLMNOPQRSTUVWXYZ234567"

-- kAlphabet[n & 0x1f]
pub symbol : ℕ → ℕ
symbol n = get_or alphabet (n % 32) 0

-- uint32_t buffer = (buffer << k) | low, with low below 2 ^ k.
abbrev pub shift_in : ℕ → ℕ → ℕ → ℕ
shift_in buffer k low = buffer * 2 ^ k % 2 ^ 32 + low

-- while (bits >= 5): the symbols taken and the bits left. `bits` rounds are enough.
pub drain : ℕ → ℕ → ℕ → Text × ℕ
drain zero buffer bits = ([], bits)
drain (suc fuel) buffer bits =
    let rest = drain fuel buffer (bits - 5) in
    if leb 5 bits then (symbol (buffer / 2 ^ (bits - 5)) ∷ rest.0, rest.1) else ([], bits)

pub encode_loop : Text → ℕ → ℕ → Text
unfolding drain
encode_loop [] buffer bits =
    if bits == 0 then [] else symbol (buffer * 2 ^ (5 - bits) % 2 ^ 32) ∷ []
encode_loop (value ∷ rest) buffer bits =
    let buffer' = shift_in buffer 8 value in
    let (out, bits') = drain (bits + 8) buffer' (bits + 8) in out ++ encode_loop rest buffer' bits'

pub encode_base32 : Text → Text
encode_base32 bytes = encode_loop bytes 0 0

pub symbol_value : ℕ → Option ℕ
symbol_value c =
    if leb 65 c && leb c 90
    then some (c - 65)
    else (if leb 50 c && leb c 55 then some (c - 50 + 26) else none)

pub decode_loop : Text → ℕ → ℕ → Option Text
decode_loop [] buffer bits = some []
decode_loop (c ∷ rest) buffer bits = elim (symbol_value c) [
  | none ↦ none
  | some value ↦
      let buffer' = shift_in buffer 5 value in
      let full = leb 8 (bits + 5) in
      let decoded = decode_loop rest buffer' (if full then bits + 5 - 8 else bits + 5) in
      if full
      then Option.map (λ out. (buffer' / 2 ^ (bits + 5 - 8) % 256) ∷ out) decoded
      else decoded
]

pub decode_base32 : Text → Option Text
decode_base32 encoded =
    if is_empty encoded then none else elim (decode_loop (map upper encoded) 0 0) [
      | none ↦ none
      | some decoded ↦
          if text_eq (encode_base32 decoded) (map upper encoded) then some decoded else none
    ]
