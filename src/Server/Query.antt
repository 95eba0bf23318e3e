-- ===== src/Server/Query.antt =====
-- summ-server/src/query.rs: query strings and percent escapes. Text made of decoded bytes goes through
-- `String::from_utf8_lossy`, which is a parameter.
pub mod Escapes
pub mod RoundTrip
use summ.Prelude.{
  ℕ, suc, ◌+◌, ◌-◌, ◌*◌, ◌/◌, ◌%◌, ◌==◌, ◌||◌, ◌&&◌, leb, ltb, Option, none, some, Bool, true,
  false, List, [], ◌∷◌, ◌++◌, Bytes, bytes_eq, if◌then◌else◌,
}
use summ.Core.Digest.{split_once}
use summ.Registry.Reference.{contains}
use summ.Server.Reference.{split}

abbrev pub Pairs : Type 0
Pairs = List (Bytes × Bytes)

unfoldable pub hex_digit : ℕ → Option ℕ
hex_digit c =
    if leb b'0' c && leb c b'9'
    then some (c - b'0')
    else if leb b'a' c && leb c b'f'
    then some (c - b'a' + 10)
    else if leb b'A' c && leb c b'F'
    then some (c - b'A' + 10)
    else none

abbrev pub nibble_pair : Option ℕ → Option ℕ → Option ℕ
nibble_pair (some hi) (some lo) = some (hi * 16 + lo)
nibble_pair _ _ = none

unfoldable pub hex_pair : ℕ → ℕ → Option ℕ
unfolding hex_digit
hex_pair hi lo = nibble_pair (hex_digit hi) (hex_digit lo)

-- The byte of an escape that three bytes may be.
unfoldable pub escaped : ℕ → ℕ → ℕ → Option ℕ
unfolding hex_pair
escaped c hi lo = if c == b'%' then hex_pair hi lo else none

-- Any other byte.
unfoldable pub plain : Bool → ℕ → ℕ
plain plus_is_space c = if c == b'+' && plus_is_space then b' ' else c

-- The loop of `percent_decode`: an escape needs two bytes behind the sign.
unfoldable pub unescaped : Bool → Bytes → Bytes
unfolding escaped plain
unescaped plus [] = []
unescaped plus (c ∷ []) = plain plus c ∷ []
unescaped plus (c ∷ x ∷ []) = plain plus c ∷ unescaped plus (x ∷ [])
unescaped plus (c ∷ x ∷ y ∷ s) = elim (escaped c x y) [
  | some byte ↦ byte ∷ unescaped plus s
  | none ↦ plain plus c ∷ unescaped plus (x ∷ y ∷ s)
]

unfoldable pub has_escape : Bool → Bytes → Bool
has_escape plus s = contains b'%' s || (plus && contains b'+' s)

unfoldable pub is_unreserved : ℕ → Bool
is_unreserved b =
    (leb b'A' b && leb b b'Z')
    || (leb b'a' b && leb b b'z')
    || (leb b'0' b && leb b b'9')
    || b == b'-'
    || b == b'_'
    || b == b'.'
    || b == b'~'

-- A digit of `{b:02X}`.
unfoldable pub upper_hex_char : ℕ → ℕ
upper_hex_char n = if ltb n 10 then b'0' + n else b'A' + (n - 10)

-- A byte of the value.
unfoldable pub escape : ℕ → Bytes
unfolding is_unreserved upper_hex_char
escape b =
    if is_unreserved b
    then b ∷ []
    else if b == b' '
    then b'+' ∷ []
    else b'%' ∷ upper_hex_char (b / 16) ∷ upper_hex_char (b % 16) ∷ []

unfoldable pub query_escape : Bytes → Bytes
unfolding escape
query_escape [] = []
query_escape (b ∷ s) = escape b ++ query_escape s

unfoldable pub first : Pairs → Bytes → Option Bytes
first [] key = none
first ((k, v) ∷ pairs) key = if bytes_eq k key then some v else first pairs key

unfoldable pub all : Pairs → Bytes → List Bytes
all [] key = []
all ((k, v) ∷ pairs) key = if bytes_eq k key then v ∷ all pairs key else all pairs key

module _ (from_utf8_lossy : Bytes → Bytes) where
  unfoldable pub percent_decode : Bytes → Bool → Bytes
  unfolding unescaped has_escape
  percent_decode s plus = if has_escape plus s then from_utf8_lossy (unescaped plus s) else s

  unfoldable pub form_decode : Bytes → Bytes
  unfolding percent_decode
  form_decode s = percent_decode s true

  unfoldable pub path_decode : Bytes → Bytes
  unfolding percent_decode
  path_decode s = percent_decode s false

  -- A part of the query, and the parts in order; an empty one is left out.
  unfoldable pub pair_of : Bytes → Bytes × Bytes
  unfolding form_decode
  pair_of part = elim (split_once b'=' part) [
    | some (k, v) ↦ (form_decode k, form_decode v)
    | none ↦ (form_decode part, [])
  ]

  unfoldable pub pairs_of : List Bytes → Pairs
  unfolding pair_of
  pairs_of [] = []
  pairs_of ([] ∷ parts) = pairs_of parts
  pairs_of ((b ∷ part) ∷ parts) = pair_of (b ∷ part) ∷ pairs_of parts

  unfoldable pub pairs : Bytes → Pairs
  unfolding pairs_of
  pairs query = let parts = split b'&' query in pairs_of (parts.0 ∷ parts.1)
