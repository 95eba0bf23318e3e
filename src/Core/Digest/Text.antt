-- ===== src/Core/Digest/Text.antt =====
-- The text of digests: parsing the print, what the parser accepts, and the order of prints.
use summ.Prelude.{
  ℕ, ◌*◌, ◌/◌, ◌%◌, ◌<◌, ◌≡◌, refl, ◌∙◌, true, some, [], ◌∷◌, arith, Bytes, length, AllBytes, codes,
}
use summ.Prelude.Lex.{lex, lex-append_same}
use summ.Core.Utf8.{is_char_boundary}
use summ.Core.Digest.{
  Digest, sha256, sha512, IsDigest, hex_char, hex, display, from_str_radix, unhex_slots, unhex,
  from_str, of_parts, ok,
}
use summ.Core.Digest.Wire.{cmp}

from_str_radix-hex_char :
    (b : ℕ) → b < 256 → from_str_radix (hex_char (b / 16)) (hex_char (b % 16)) ≡ some b
unfolding from_str_radix hex_char
from_str_radix-hex_char b h = ground arith

boundary-hex : (s : Bytes) → AllBytes s → is_char_boundary (hex s) ≡ true
unfolding is_char_boundary hex
boundary-hex [] h = refl
boundary-hex (b ∷ s) h = ground arith

length-hex : (s : Bytes) → length (hex s) ≡ length s * 2
unfolding hex
length-hex [] = refl
length-hex (b ∷ s) = omega (arith, length-hex s)

unhex_slots-hex : (s : Bytes) → AllBytes s → unhex_slots (hex s) ≡ ok s
unfolding unhex_slots hex
unhex_slots-hex [] h = refl
unhex_slots-hex (b ∷ s) h =
    rw (boundary-hex s h.1, from_str_radix-hex_char b h.0, unhex_slots-hex s h.1)

pub lex-hex : (a b : Bytes) → AllBytes a → AllBytes b → lex (hex a) (hex b) ≡ lex a b
unfolding hex lex
lex-hex [] [] ha hb = refl
lex-hex [] (y ∷ b) ha hb = refl
lex-hex (x ∷ a) [] ha hb = refl
lex-hex (x ∷ a) (y ∷ b) ha hb = unfold hex_char in ground (arith, lex-hex a b ha.1 hb.1)

unhex-hex : (n : ℕ) (s : Bytes) → length s ≡ n → AllBytes s → unhex n (hex s) ≡ ok s
unfolding unhex
unhex-hex n s e h = ground (arith, length-hex s, unhex_slots-hex s h)

-- Parsing what was printed gives the digest back.
pub from_str-display : (d : Digest) → IsDigest d → from_str (display d) ≡ ok d
unfolding from_str display of_parts
from_str-display (sha256 b) h = rw (unhex-hex 32 b h.0 h.1)
from_str-display (sha512 b) h = rw (unhex-hex 64 b h.0 h.1)

-- Digests are ordered as their texts are, and so as the bytes of keys that hold either.
pub lex-display : (d e : Digest) → IsDigest d → IsDigest e → lex (display d) (display e) ≡ cmp d e
unfolding display cmp
lex-display (sha256 b) (sha256 c) hd he =
    lex-append_same (codes "sha256:") (hex b) (hex c) ∙ lex-hex b c hd.1 he.1
lex-display (sha512 b) (sha512 c) hd he =
    lex-append_same (codes "sha512:") (hex b) (hex c) ∙ lex-hex b c hd.1 he.1
lex-display (sha256 b) (sha512 c) hd he = unfold lex in refl
lex-display (sha512 b) (sha256 c) hd he = unfold lex in refl
