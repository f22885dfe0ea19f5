-- ===== src/Worker/Base32/Tests.antt =====
-- The theorems on the Base32 code, applied to short texts.
use apfs_for_windows.Common.{All, Text, arith, codes, refl, some, text_eq, upper, ◌<◌, ◌≡◌}
use apfs_for_windows.Worker.Base32.{
  drain, decode_loop, symbol_value, encode_loop, symbol, encode_base32, decode_base32,
}
use apfs_for_windows.Worker.Base32.RoundTrip.{decode_base32-encode_base32}

abbrev foo : Text
foo = codes "foo"

foo-IsByte : All (λ b. b < 256) foo
foo-IsByte = (omega arith, (omega arith, (omega arith, tt)))

decode_base32-encode_base32_example : decode_base32 (encode_base32 foo) ≡ some foo
decode_base32-encode_base32_example = decode_base32-encode_base32 foo foo-IsByte (λ e. cc)

upper_decodes : decode_base32 (codes "MZXW6") ≡ some foo
unfolding decode_base32 decode_loop symbol_value upper text_eq encode_base32 encode_loop symbol
    drain
upper_decodes = refl

lower_decodes : decode_base32 (codes "mzxw6") ≡ some foo
unfolding decode_base32 decode_loop symbol_value upper text_eq encode_base32 encode_loop symbol
    drain
lower_decodes = refl
