-- ===== src/Worker/Base32/Steps.antt =====
-- One step of the encoder, in each of its states, and of the decoder.
use apfs_for_windows.Common.{
  Bool, Option, Text, [], all_below, all_below_sound, arith, false, leb, none, refl, some, true, ℕ,
  ◌+◌, ◌-◌, ◌*◌, ◌/◌, ◌%◌, ◌^◌, ◌<◌, ◌≡◌, ◌∷◌, ◌==◌,
}
use apfs_for_windows.Worker.Base32.{symbol, shift_in, drain, encode_loop, symbol_value, decode_loop}

abbrev pub IsByte : ℕ → Type 0
IsByte b = b < 256

value_is : ℕ → Bool
unfolding symbol_value symbol
value_is n = elim (symbol_value (symbol n)) [ none ↦ false | some v ↦ v == n ]

value_table : all_below 32 value_is ≡ true
unfolding value_is
value_table = refl

symbol_value-symbol_low : (n : ℕ) → n < 32 → symbol_value (symbol n) ≡ some n
unfolding value_is
symbol_value-symbol_low n h = ground (arith, all_below_sound 32 value_is n value_table h)

pub symbol-mod : (n : ℕ) → symbol (n % 32) ≡ symbol n
unfolding symbol
symbol-mod n = rw (let e : n % 32 % 32 ≡ n % 32 = omega arith in e)

symbol_value-symbol : (n : ℕ) → symbol_value (symbol n) ≡ some (n % 32)
symbol_value-symbol n = rw (← symbol-mod n) (symbol_value-symbol_low (n % 32) (omega arith))

-- One symbol that leaves fewer than eight bits, and one that completes the byte `v`.
pub step_short :
    (x : ℕ) (cs : Text) (db d : ℕ) {r : Option Text}
    → d < 3
    → decode_loop cs (shift_in db 5 (x % 32)) (d + 5) ≡ r
    → decode_loop (symbol x ∷ cs) db d ≡ r
unfolding decode_loop
step_short x cs db d h rest =
    rw (symbol_value-symbol x, decode_loop)
      (let e : leb 8 (d + 5) ≡ false = ground arith in rw e rest)

pub step_byte :
    (x : ℕ) (cs : Text) (db d : ℕ) {v : ℕ} {out : Text}
    → 2 < d
    → shift_in db 5 (x % 32) / 2 ^ (d + 5 - 8) % 256 ≡ v
    → decode_loop cs (shift_in db 5 (x % 32)) (d + 5 - 8) ≡ some out
    → decode_loop (symbol x ∷ cs) db d ≡ some (v ∷ out)
unfolding decode_loop
step_byte x cs db d h byte rest =
    rw (symbol_value-symbol x, decode_loop)
      (let e : leb 8 (d + 5) ≡ true = ground arith in rw (e, rest, byte) refl)

pub encode_loop-none :
    (v : ℕ) (vs : Text) (b : ℕ)
    → encode_loop (v ∷ vs) b 0 ≡ symbol (shift_in b 8 v / 2 ^ 3) ∷ encode_loop vs (shift_in b 8 v) 3
unfolding encode_loop drain
encode_loop-none v vs b = refl

pub encode_loop-three :
    (v : ℕ) (vs : Text) (b : ℕ)
    → encode_loop (v ∷ vs) b 3
      ≡ symbol (shift_in b 8 v / 2 ^ 6)
        ∷ symbol (shift_in b 8 v / 2 ^ 1)
        ∷ encode_loop vs (shift_in b 8 v) 1
unfolding encode_loop drain
encode_loop-three v vs b = refl

pub encode_loop-one :
    (v : ℕ) (vs : Text) (b : ℕ)
    → encode_loop (v ∷ vs) b 1 ≡ symbol (shift_in b 8 v / 2 ^ 4) ∷ encode_loop vs (shift_in b 8 v) 4
unfolding encode_loop drain
encode_loop-one v vs b = refl

pub encode_loop-four :
    (v : ℕ) (vs : Text) (b : ℕ)
    → encode_loop (v ∷ vs) b 4
      ≡ symbol (shift_in b 8 v / 2 ^ 7)
        ∷ symbol (shift_in b 8 v / 2 ^ 2)
        ∷ encode_loop vs (shift_in b 8 v) 2
unfolding encode_loop drain
encode_loop-four v vs b = refl

pub encode_loop-two :
    (v : ℕ) (vs : Text) (b : ℕ)
    → encode_loop (v ∷ vs) b 2
      ≡ symbol (shift_in b 8 v / 2 ^ 5)
        ∷ symbol (shift_in b 8 v / 2 ^ 0)
        ∷ encode_loop vs (shift_in b 8 v) 0
unfolding encode_loop drain
encode_loop-two v vs b = refl

pub encode_loop-last :
    (b e : ℕ) → 0 < e → encode_loop [] b e ≡ symbol (b * 2 ^ (5 - e) % 2 ^ 32) ∷ []
unfolding encode_loop
encode_loop-last b e h = ground arith

pub decode_loop-end : (db d : ℕ) → decode_loop [] db d ≡ some []
unfolding decode_loop
decode_loop-end db d = refl

pub encode_none_end : (b db : ℕ) → decode_loop (encode_loop [] b 0) db 0 ≡ some []
unfolding encode_loop decode_loop
encode_none_end b db = refl
