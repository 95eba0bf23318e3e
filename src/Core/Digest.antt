-- ===== src/Core/Digest.antt =====
-- summ-core/src/digest.rs: digests, their key encoding and their text. The laws are in the children.
pub mod Wire
pub mod Text
pub mod Panics
pub mod Torn
use summ.Prelude.{
  ℕ, zero, suc, ◌+◌, ◌-◌, ◌*◌, ◌/◌, ◌%◌, ◌<◌, ◌≤◌, ◌≡◌, refl, Bool, true, false, ◌&&◌, Option, none,
  some, List, [], ◌∷◌, ◌++◌, arith, Bytes, codes, length, take, drop, leb, ltb, ◌==◌, bytes_eq,
  if◌then◌else◌, map_option, AllBytes,
}
use summ.Core.Utf8.{is_char_boundary}

abbrev algo_sha256 : ℕ
algo_sha256 = 1

abbrev algo_sha512 : ℕ
algo_sha512 = 2

-- The array inside is a list; `IsDigest` gives its length and the range of its bytes.
pub data Digest : Type 0 where
  sha256 : Bytes → Digest
  sha512 : Bytes → Digest

abbrev pub IsDigest : Digest → Type 0
IsDigest (sha256 b) = (length b ≡ 32) × AllBytes b
IsDigest (sha512 b) = (length b ≡ 64) × AllBytes b

unfoldable pub encoded_len_of : ℕ → Option ℕ
encoded_len_of algo =
    if algo == algo_sha256 then some 33 else if algo == algo_sha512 then some 65 else none

unfoldable pub algorithm : Digest → Bytes
algorithm (sha256 b) = codes "sha256"
algorithm (sha512 b) = codes "sha512"

unfoldable pub raw : Digest → Bytes
raw (sha256 b) = b
raw (sha512 b) = b

unfoldable pub algo_byte : Digest → ℕ
algo_byte (sha256 b) = algo_sha256
algo_byte (sha512 b) = algo_sha512

unfoldable pub encoded_len : Digest → ℕ
unfolding raw
encoded_len d = 1 + length (raw d)

-- What `encode_into` appends to its buffer.
unfoldable pub encode : Digest → Bytes
unfolding algo_byte raw
encode d = algo_byte d ∷ raw d

-- `decode`: the digest at the head of the buffer and the bytes consumed.
unfoldable pub decode : Bytes → Option (Digest × ℕ)
decode [] = none
decode (algo ∷ rest) =
    if algo == algo_sha256 && leb 33 (length (algo ∷ rest))
    then some (sha256 (take 32 rest), 33)
    else if algo == algo_sha512 && leb 65 (length (algo ∷ rest))
    then some (sha512 (take 64 rest), 65)
    else none

-- `{b:02x}`
unfoldable pub hex_char : ℕ → ℕ
hex_char n = if ltb n 10 then b'0' + n else b'a' + (n - 10)

unfoldable pub hex : Bytes → Bytes
unfolding hex_char
hex [] = []
hex (b ∷ s) = hex_char (b / 16) ∷ hex_char (b % 16) ∷ hex s

-- `Display`
unfoldable pub display : Digest → Bytes
unfolding algorithm raw hex
display d = algorithm d ++ b':' ∷ hex (raw d)

-- `s.split_once(c)`
unfoldable pub split_once : ℕ → Bytes → Option (Bytes × Bytes)
split_once c [] = none
split_once c (x ∷ s) =
    if x == c then some ([], s) else map_option (λ p. (x ∷ p.0, p.1)) (split_once c s)

-- How `from_str` ends: with a digest, with `SummError::InvalidDigest`, or in a panic.
pub data DigestError : Type 0 where
  missing_separator : DigestError
  wrong_length : ℕ → ℕ → DigestError
  invalid_hex : DigestError
  unsupported_algorithm : Bytes → DigestError

pub data Parsed {ℓ} (A : Type ℓ) : Type ℓ where
  ok : A → Parsed A
  invalid_digest : DigestError → Parsed A
  panic : Parsed A

abbrev pub map_parsed {ℓ κ} : {A : Type ℓ} {B : Type κ} → (A → B) → Parsed A → Parsed B
map_parsed f (ok a) = ok (f a)
map_parsed f (invalid_digest e) = invalid_digest e
map_parsed f panic = panic

unfoldable pub hex_value : ℕ → Option ℕ
hex_value c =
    if leb b'0' c && leb c b'9'
    then some (c - b'0')
    else if leb b'a' c && leb c b'f'
    then some (c - b'a' + 10)
    else if leb b'A' c && leb c b'F'
    then some (c - b'A' + 10)
    else none

-- `u8::from_str_radix(_, 16)` of a text of two bytes: it takes a leading `+`.
unfoldable pub from_str_radix : ℕ → ℕ → Option ℕ
unfolding hex_value
from_str_radix x y =
    if x == b'+'
    then hex_value y
    else elim (hex_value x) [ none ↦ none | some h ↦ map_option (λ l. h * 16 + l) (hex_value y) ]

-- A slot: whether its slice ends at a character boundary, its value, and the slots behind it.
abbrev pub fill : Bool → Option ℕ → Parsed Bytes → Parsed Bytes
fill false value later = panic
fill true none later = invalid_digest invalid_hex
fill true (some b) later = map_parsed (λ bs. b ∷ bs) later

-- The loop of `unhex`, a slot of the array at a time. A slice whose end is inside a character
-- panics; the start of a slice is the end of the one before.
unfoldable pub unhex_slots : Bytes → Parsed Bytes
unhex_slots [] = ok []
unhex_slots (x ∷ []) = panic
unhex_slots (x ∷ y ∷ rest) = fill (is_char_boundary rest) (from_str_radix x y) (unhex_slots rest)

unfoldable pub unhex : ℕ → Bytes → Parsed Bytes
unfolding unhex_slots
unhex n s =
    if length s == n * 2 then unhex_slots s else invalid_digest (wrong_length (n * 2) (length s))

-- The `match algo` of `from_str`.
unfoldable pub of_parts : Bytes → Bytes → Parsed Digest
unfolding unhex
of_parts algo s =
    if bytes_eq algo (codes "sha256")
    then map_parsed sha256 (unhex 32 s)
    else if bytes_eq algo (codes "sha512")
    then map_parsed sha512 (unhex 64 s)
    else invalid_digest (unsupported_algorithm algo)

unfoldable pub from_str : Bytes → Parsed Digest
unfolding split_once of_parts
from_str s = elim (split_once b':' s) [
  | none ↦ invalid_digest missing_separator
  | some (algo, encoded) ↦ of_parts algo encoded
]
