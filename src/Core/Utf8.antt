-- ===== src/Core/Utf8.antt =====
-- Text of the standard library as the program uses it: a `&str` is its UTF-8 bytes. `chars` decodes
-- them (none where `std::str::from_utf8` refuses), and `is_char_boundary` is what slicing checks.
pub mod Ascii
use summ.Prelude.{
  ℕ, ◌+◌, ◌-◌, ◌*◌, ◌<◌, ◌≡◌, refl, Bool, true, ◌&&◌, Option, none, some, List, [], ◌∷◌, arith,
  Bytes, leb, ltb, ◌==◌, if◌then◌else◌, map_option, All,
}

-- A decoder between two bytes: the continuation bytes to come, the range of the next one, and the
-- bits read so far.
pub record Decoder : Type 0 where
  pub need : ℕ
  pub low : ℕ
  pub high : ℕ
  pub bits : ℕ

abbrev pub idle : Decoder
idle = record { need = 0; low = 0x80; high = 0xbf; bits = 0 }

-- What the first byte of a character announces.
unfoldable pub lead : ℕ → Option Decoder
lead b =
    if ltb b 0x80
    then some (record { need = 0; low = 0x80; high = 0xbf; bits = b })
    else if ltb b 0xc2
    then none
    else if ltb b 0xe0
    then some (record { need = 1; low = 0x80; high = 0xbf; bits = b - 0xc0 })
    else if ltb b 0xf0
    then some (record {
      need = 2;
      low = if b == 0xe0 then 0xa0 else 0x80;
      high = if b == 0xed then 0x9f else 0xbf;
      bits = b - 0xe0;
    })
    else if ltb b 0xf5
    then some (record {
      need = 3;
      low = if b == 0xf0 then 0x90 else 0x80;
      high = if b == 0xf4 then 0x8f else 0xbf;
      bits = b - 0xf0;
    })
    else none

unfoldable pub next : Decoder → ℕ → Option Decoder
unfolding lead
next d b =
    if d.need == 0
    then lead b
    else if leb d.low b && leb b d.high
    then some
        (record { need = d.need - 1; low = 0x80; high = 0xbf; bits = d.bits * 64 + (b - 0x80) })
    else none

-- One byte more: a finished character is emitted.
abbrev pub emit : Decoder → Option (List ℕ) → Option (List ℕ)
emit d rest = if d.need == 0 then map_option (λ cs. d.bits ∷ cs) rest else rest

unfoldable pub chars_from : Decoder → Bytes → Option (List ℕ)
unfolding next
chars_from d [] = if d.need == 0 then some [] else none
chars_from d (b ∷ s) = elim (next d b) [ none ↦ none | some e ↦ emit e (chars_from e s) ]

-- `s.chars()`, where `s` is text.
unfoldable pub chars : Bytes → Option (List ℕ)
unfolding chars_from
chars = chars_from idle

-- The bytes are text: they may stand behind a `&str`.
abbrev pub IsStr : Bytes → Type 0
IsStr s = (cs : List ℕ) × (chars s ≡ some cs)

-- `std::str::from_utf8(s).ok()`
unfoldable pub from_utf8 : Bytes → Option Bytes
from_utf8 s = map_option (λ cs. s) (chars s)

-- The byte at an index may start a slice: it does not continue a character.
unfoldable pub is_char_boundary : Bytes → Bool
is_char_boundary [] = true
is_char_boundary (b ∷ s) = if ltb b 0x80 then true else leb 0xc0 b

abbrev pub AllAscii : Bytes → Type 0
AllAscii = All (λ b. b < 0x80)

pub from_utf8-IsStr : (s : Bytes) → IsStr s → from_utf8 s ≡ some s
unfolding from_utf8
from_utf8-IsStr s h = rw h.1

-- The decoder is at rest after a whole ASCII character, whatever its bits are.
pub chars_from-ascii : (d : Decoder) (s : Bytes) → d.need ≡ 0 → AllAscii s → chars_from d s ≡ some s
unfolding chars_from
chars_from-ascii d [] e h = ground arith
chars_from-ascii d (b ∷ s) e h =
    ground
      (arith, chars_from-ascii (record { need = 0; low = 0x80; high = 0xbf; bits = b }) s refl h.1)

-- In ASCII text the characters are the bytes.
pub chars-ascii : (s : Bytes) → AllAscii s → chars s ≡ some s
unfolding chars
chars-ascii s h = chars_from-ascii idle s refl h

pub IsStr-ascii : (s : Bytes) → AllAscii s → IsStr s
IsStr-ascii s h = (s, chars-ascii s h)

two_characters : chars (0x61 ∷ 0xc3 ∷ 0xa9 ∷ []) ≡ some (0x61 ∷ 0xe9 ∷ [])
unfolding chars
two_characters = refl

overlong : chars (0xc0 ∷ 0x80 ∷ []) ≡ none
unfolding chars
overlong = refl
