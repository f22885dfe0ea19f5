-- ===== src/Worker/Base32/Length.antt =====
-- The length of an encoding.
use apfs_for_windows.Common.{
  Text, [], ap, arith, length, refl, suc, zero, ℕ, ◌+◌, ◌*◌, ◌/◌, ◌<◌, ◌≡◌, ◌∙◌, ◌∷◌,
}
use apfs_for_windows.Worker.Base32.{shift_in, encode_loop, encode_base32}
use apfs_for_windows.Worker.Base32.Steps.{
  encode_loop-none, encode_loop-three, encode_loop-one, encode_loop-four, encode_loop-two,
  encode_loop-last,
}

length-last : (b e : ℕ) → 0 < e → e < 5 → length (encode_loop [] b e) ≡ (8 * 0 + e + 4) / 5
length-last b e p h = rw (encode_loop-last b e p) (omega arith)

length-start : (b : ℕ) → length (encode_loop [] b 0) ≡ (8 * 0 + 0 + 4) / 5
unfolding encode_loop
length-start b = refl

length-encode_loop :
    (vs : Text) (b e : ℕ) → e < 5 → length (encode_loop vs b e) ≡ (8 * length vs + e + 4) / 5
length-encode_loop [] b zero h = length-start b
length-encode_loop [] b (suc e) h = length-last b (suc e) (omega arith) h
length-encode_loop (v ∷ vs) b zero h =
    ap length (encode_loop-none v vs b)
    ∙ omega (arith, length-encode_loop vs (shift_in b 8 v) 3 (omega arith))
length-encode_loop (v ∷ vs) b (suc zero) h =
    ap length (encode_loop-one v vs b)
    ∙ omega (arith, length-encode_loop vs (shift_in b 8 v) 4 (omega arith))
length-encode_loop (v ∷ vs) b (suc (suc zero)) h =
    ap length (encode_loop-two v vs b)
    ∙ omega (arith, length-encode_loop vs (shift_in b 8 v) 0 (omega arith))
length-encode_loop (v ∷ vs) b (suc (suc (suc zero))) h =
    ap length (encode_loop-three v vs b)
    ∙ omega (arith, length-encode_loop vs (shift_in b 8 v) 1 (omega arith))
length-encode_loop (v ∷ vs) b (suc (suc (suc (suc zero)))) h =
    ap length (encode_loop-four v vs b)
    ∙ omega (arith, length-encode_loop vs (shift_in b 8 v) 2 (omega arith))
length-encode_loop (v ∷ vs) b (suc (suc (suc (suc (suc e))))) h = absurd (omega arith)

-- The encoding has exactly the length that the code reserves for it, one symbol for five bits.
pub length-encode_base32 :
    (bytes : Text) → length (encode_base32 bytes) ≡ (length bytes * 8 + 4) / 5
unfolding encode_base32
length-encode_base32 bytes = omega (arith, length-encode_loop bytes 0 0 (omega arith))
