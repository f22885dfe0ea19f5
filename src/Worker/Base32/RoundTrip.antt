-- ===== src/Worker/Base32/RoundTrip.antt =====
-- Decoding undoes encoding, and only canonical encodings are decoded.
use apfs_for_windows.Common.{
  ==_iff, All, Bool, Bool-cases, Text, [], all_below, all_below_sound, arith, false, inl, inr,
  is_empty, leb, map, refl, some, suc, sym, text_eq_refl, text_eq→eq, true, upper, zero, ℕ, ◌-◌,
  ◌*◌, ◌/◌, ◌%◌, ◌^◌, ◌<◌, ◌≡◌, ◌∙◌, ◌≢◌, ◌∷◌, ◌==◌,
}
use mathlib.Core.List.{map-append}
use apfs_for_windows.Worker.Base32.{
  symbol, shift_in, drain, encode_loop, encode_base32, decode_loop, decode_base32,
}
use apfs_for_windows.Worker.Base32.Steps.{
  symbol-mod, step_short, step_byte, encode_loop-none, encode_loop-three, encode_loop-one,
  encode_loop-four, encode_loop-two, encode_loop-last, decode_loop-end, encode_none_end, IsByte,
}

-- What the decoder holds of the last byte, when the encoder still holds its low bits.
abbrev Holds : ℕ → ℕ → ℕ → ℕ → ℕ → Type 0
Holds low high v b db = (v < 256) × (b % low ≡ v % low) × (db % high ≡ v / low)

-- The five states of the encoder (0, 1, 2, 3 or 4 bits pending), with the decoder beside it.
mutual
  trip_none :
      (vs : Text) (b db : ℕ) → All IsByte vs → decode_loop (encode_loop vs b 0) db 0 ≡ some vs
  trip_none [] b db h = encode_none_end b db
  trip_none (v ∷ vs) b db h = rw (encode_loop-none v vs b) (
      step_short (shift_in b 8 v / 2 ^ 3) (encode_loop vs (shift_in b 8 v) 3) db 0 (omega arith) (
        trip_three vs v (shift_in b 8 v) (shift_in db 5 ((shift_in b 8 v / 2 ^ 3) % 32)) h.1
          (h.0, omega (arith, h.0), omega (arith, h.0))))

  trip_one :
      (vs : Text) (v b db : ℕ)
      → All IsByte vs
      → Holds 2 128 v b db
      → decode_loop (encode_loop vs b 1) db 7 ≡ some (v ∷ vs)
  trip_one [] v b db h m =
      rw (encode_loop-last b 1 (omega arith))
        (step_byte (b * 2 ^ 4 % 2 ^ 32) [] db 7 (omega arith) (omega arith) (decode_loop-end _ _))
  trip_one (w ∷ vs) v b db h m = rw (encode_loop-one w vs b) (
      step_byte (shift_in b 8 w / 2 ^ 4) (encode_loop vs (shift_in b 8 w) 4) db 7 (omega arith)
        (omega (arith, h.0))
        (trip_four vs w (shift_in b 8 w) (shift_in db 5 ((shift_in b 8 w / 2 ^ 4) % 32)) h.1
          (h.0, omega (arith, h.0), omega (arith, h.0))))

  trip_two :
      (vs : Text) (v b db : ℕ)
      → All IsByte vs
      → Holds 4 64 v b db
      → decode_loop (encode_loop vs b 2) db 6 ≡ some (v ∷ vs)
  trip_two [] v b db h m =
      rw (encode_loop-last b 2 (omega arith))
        (step_byte (b * 2 ^ 3 % 2 ^ 32) [] db 6 (omega arith) (omega arith) (decode_loop-end _ _))
  trip_two (w ∷ vs) v b db h m = rw (encode_loop-two w vs b) (
      step_byte (shift_in b 8 w / 2 ^ 5)
        (symbol (shift_in b 8 w / 2 ^ 0) ∷ encode_loop vs (shift_in b 8 w) 0) db 6 (omega arith)
        (omega (arith, h.0))
        (step_byte (shift_in b 8 w / 2 ^ 0) (encode_loop vs (shift_in b 8 w) 0)
          (shift_in db 5 ((shift_in b 8 w / 2 ^ 5) % 32)) 3 (omega arith) (omega (arith, h.0))
          (trip_none vs (shift_in b 8 w)
            (shift_in (shift_in db 5 ((shift_in b 8 w / 2 ^ 5) % 32)) 5
              ((shift_in b 8 w / 2 ^ 0) % 32))
            h.1)))

  trip_three :
      (vs : Text) (v b db : ℕ)
      → All IsByte vs
      → Holds 8 32 v b db
      → decode_loop (encode_loop vs b 3) db 5 ≡ some (v ∷ vs)
  trip_three [] v b db h m =
      rw (encode_loop-last b 3 (omega arith))
        (step_byte (b * 2 ^ 2 % 2 ^ 32) [] db 5 (omega arith) (omega arith) (decode_loop-end _ _))
  trip_three (w ∷ vs) v b db h m = rw (encode_loop-three w vs b) (
      step_byte (shift_in b 8 w / 2 ^ 6)
        (symbol (shift_in b 8 w / 2 ^ 1) ∷ encode_loop vs (shift_in b 8 w) 1) db 5 (omega arith)
        (omega (arith, h.0))
        (step_short (shift_in b 8 w / 2 ^ 1) (encode_loop vs (shift_in b 8 w) 1)
          (shift_in db 5 ((shift_in b 8 w / 2 ^ 6) % 32)) 2 (omega arith)
          (trip_one vs w (shift_in b 8 w)
            (shift_in (shift_in db 5 ((shift_in b 8 w / 2 ^ 6) % 32)) 5
              ((shift_in b 8 w / 2 ^ 1) % 32))
            h.1 (h.0, omega (arith, h.0), omega (arith, h.0)))))

  trip_four :
      (vs : Text) (v b db : ℕ)
      → All IsByte vs
      → Holds 16 16 v b db
      → decode_loop (encode_loop vs b 4) db 4 ≡ some (v ∷ vs)
  trip_four [] v b db h m =
      rw (encode_loop-last b 4 (omega arith))
        (step_byte (b * 2 ^ 1 % 2 ^ 32) [] db 4 (omega arith) (omega arith) (decode_loop-end _ _))
  trip_four (w ∷ vs) v b db h m = rw (encode_loop-four w vs b) (
      step_byte (shift_in b 8 w / 2 ^ 7)
        (symbol (shift_in b 8 w / 2 ^ 2) ∷ encode_loop vs (shift_in b 8 w) 2) db 4 (omega arith)
        (omega (arith, h.0))
        (step_short (shift_in b 8 w / 2 ^ 2) (encode_loop vs (shift_in b 8 w) 2)
          (shift_in db 5 ((shift_in b 8 w / 2 ^ 7) % 32)) 1 (omega arith)
          (trip_two vs w (shift_in b 8 w)
            (shift_in (shift_in db 5 ((shift_in b 8 w / 2 ^ 7) % 32)) 5
              ((shift_in b 8 w / 2 ^ 2) % 32))
            h.1 (h.0, omega (arith, h.0), omega (arith, h.0)))))

upper_fixes : ℕ → Bool
unfolding upper symbol
upper_fixes n = upper (symbol n) == symbol n

upper_table : all_below 32 upper_fixes ≡ true
unfolding upper_fixes
upper_table = refl

upper-symbol : (n : ℕ) → upper (symbol n) ≡ symbol n
unfolding upper_fixes
upper-symbol n = rw (← symbol-mod n) (
    (==_iff _ (symbol (n % 32))).0
      (all_below_sound 32 upper_fixes (n % 32) upper_table (omega arith)))

upper-drain : (f buffer bits : ℕ) → map upper (drain f buffer bits).0 ≡ (drain f buffer bits).0
unfolding drain
upper-drain zero buffer bits = refl
upper-drain (suc f) buffer bits = elim (Bool-cases (leb 5 bits)) [
  | inl e ↦ rw (e, upper-symbol, upper-drain f buffer (bits - 5)) refl
  | inr e ↦ rw e refl
]

upper-encode_loop : (vs : Text) (b e : ℕ) → map upper (encode_loop vs b e) ≡ encode_loop vs b e
unfolding encode_loop
upper-encode_loop [] b e = ground (arith, upper-symbol (b * 2 ^ (5 - e) % 2 ^ 32))
upper-encode_loop (v ∷ vs) b e = rw (map-append, upper-drain, upper-encode_loop vs) refl

is_empty-encode_loop : (v : ℕ) (vs : Text) → is_empty (encode_loop (v ∷ vs) 0 0) ≡ false
is_empty-encode_loop v vs = rw (encode_loop-none v vs 0) refl

-- Every non-empty byte string is what decoding its encoding gives.
pub decode_base32-encode_base32 :
    (bytes : Text)
    → All IsByte bytes
    → bytes ≢ []
    → decode_base32 (encode_base32 bytes) ≡ some bytes
unfolding decode_base32 encode_base32
decode_base32-encode_base32 [] h ne = absurd (ne refl)
decode_base32-encode_base32 (v ∷ vs) h ne =
    rw
      (
        is_empty-encode_loop v vs,
        upper-encode_loop (v ∷ vs) 0 0,
        trip_none (v ∷ vs) 0 0 h,
        upper-encode_loop (v ∷ vs) 0 0,
        text_eq_refl,
      )
      refl

pub decode_base32-canonical :
    (x : Text) {bytes : Text} → decode_base32 x ≡ some bytes → encode_base32 bytes ≡ map upper x
unfolding decode_base32
decode_base32-canonical x {bytes} h = ground (arith, text_eq→eq (encode_base32 bytes) (map upper x))

-- Two wire texts that decode to the same bytes differ at most in the case of ASCII letters.
pub decode_base32_injective :
    (x y : Text) {bytes : Text}
    → decode_base32 x ≡ some bytes
    → decode_base32 y ≡ some bytes
    → map upper x ≡ map upper y
decode_base32_injective x y h k = sym (decode_base32-canonical x h) ∙ decode_base32-canonical y k
