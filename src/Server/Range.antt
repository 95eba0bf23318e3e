-- ===== src/Server/Range.antt =====
-- summ-server/src/range.rs: the two range grammars. Header values are ASCII, so text is its bytes.
pub mod Bounds
pub mod Decimal
pub mod Chunk
use summ.Prelude.{
  ℕ, ◌+◌, ◌-◌, ◌*◌, ◌^◌, ◌<◌, ◌≤◌, ◌≡◌, ◌&&◌, ◌||◌, not, min, Option, none, some, Bool, true, false,
  List, [], ◌∷◌, ◌++◌, Bytes, codes, leb, ltb, ◌==◌, all, strip_prefix, if◌then◌else◌, Result, ok,
  err,
}
use summ.Core.Digest.{split_once}
use summ.Registry.Reference.{contains}

pub record ByteRange : Type 0 where
  pub start : ℕ
  pub end : ℕ

-- In 64 bits without a check for overflow; `start ≤ end` in every range that is made.
unfoldable pub size : ByteRange → ℕ
size r = r.end - r.start + 1

pub data RangeOutcome : Type 0 where
  whole : RangeOutcome
  partial : ByteRange → RangeOutcome
  unsatisfiable : RangeOutcome

-- `char::is_whitespace` on ASCII, and `trim`.
unfoldable pub is_space : ℕ → Bool
is_space c = (leb 9 c && leb c 13) || c == 32

unfoldable pub trim_start : Bytes → Bytes
unfolding is_space
trim_start [] = []
trim_start (c ∷ s) = if is_space c then trim_start s else c ∷ s

unfoldable pub trim_end : Bytes → Bytes
unfolding is_space
trim_end [] = []
trim_end (c ∷ s) = if all is_space (c ∷ s) then [] else c ∷ trim_end s

unfoldable pub trim : Bytes → Bytes
unfolding trim_start trim_end
trim s = trim_end (trim_start s)

unfoldable pub is_digit : ℕ → Bool
is_digit c = leb b'0' c && leb c b'9'

unfoldable pub is_alphabetic : ℕ → Bool
is_alphabetic c = (leb b'A' c && leb c b'Z') || (leb b'a' c && leb c b'z')

-- The digits behind a value; a value of more than 64 bits is an error.
unfoldable pub digits : ℕ → Bytes → Option ℕ
unfolding is_digit
digits value [] = some value
digits value (c ∷ s) =
    let rest = digits (value * 10 + (c - b'0')) s in
    if is_digit c && ltb (value * 10 + (c - b'0')) (2 ^ 64) then rest else none

-- `parse::<u64>()`: a leading `+` is allowed, and there is a digit.
unfoldable pub parse_u64 : Bytes → Option ℕ
unfolding digits
parse_u64 [] = none
parse_u64 (c ∷ []) = digits 0 (c ∷ [])
parse_u64 (c ∷ d ∷ s) = if c == b'+' then digits 0 (d ∷ s) else digits 0 (c ∷ d ∷ s)

-- The three forms, for a blob that is not empty: `-N`, `N-` and `A-B`.
abbrev pub suffix_range : ℕ → Option ℕ → RangeOutcome
suffix_range len none = whole
suffix_range len (some n) =
    if n == 0 then unsatisfiable else partial (record { start = len - n; end = len - 1 })

abbrev pub open_range : ℕ → Option ℕ → RangeOutcome
open_range len none = whole
open_range len (some start) =
    if leb len start then unsatisfiable else partial (record { start = start; end = len - 1 })

abbrev pub closed_range : ℕ → Option ℕ → Option ℕ → RangeOutcome
closed_range len none end = whole
closed_range len (some start) none = whole
closed_range len (some start) (some end) =
    if leb len start || ltb end start
    then unsatisfiable
    else partial (record { start = start; end = min end (len - 1) })

unfoldable pub parse_parts : ℕ → Bytes → Bytes → RangeOutcome
parse_parts len [] [] = whole
parse_parts len [] (c ∷ last) = suffix_range len (parse_u64 (c ∷ last))
parse_parts len (c ∷ first) [] = open_range len (parse_u64 (c ∷ first))
parse_parts len (c ∷ first) (d ∷ last) =
    closed_range len (parse_u64 (c ∷ first)) (parse_u64 (d ∷ last))

-- Behind `bytes=`.
unfoldable pub parse_spec : Bytes → ℕ → RangeOutcome
unfolding parse_parts trim
parse_spec spec len = if contains b',' spec then whole else elim (split_once b'-' spec) [
  | none ↦ whole
  | some (first, last) ↦
      if len == 0 then unsatisfiable else parse_parts len (trim first) (trim last)
]

unfoldable pub parse_range : Bytes → ℕ → RangeOutcome
unfolding trim parse_spec
parse_range header len = elim (strip_prefix (trim header) (codes "bytes=")) [
  | none ↦ whole
  | some spec ↦ parse_spec (trim spec) len
]

-- The text that was refused is kept, the explanation is not.
pub data ChunkRangeError : Type 0 where
  malformed : Bytes → ChunkRangeError
  inverted : ChunkRangeError

-- Both ends are digits, and numbers of 64 bits in order.
unfoldable pub chunk_ends : Bytes → Bytes → Bytes → Result ChunkRangeError ByteRange
chunk_ends raw [] last = err (malformed raw)
chunk_ends raw (c ∷ first) [] = err (malformed raw)
chunk_ends raw (c ∷ first) (d ∷ last) =
    if all is_digit (c ∷ first) && all is_digit (d ∷ last)
    then elim (parse_u64 (c ∷ first)) [
      | none ↦ err (malformed raw)
      | some start ↦ elim (parse_u64 (d ∷ last)) [
        | none ↦ err (malformed raw)
        | some end ↦
            if ltb end start then err inverted else ok (record { start = start; end = end })
      ]
    ]
    else err (malformed raw)

unfoldable pub chunk_range : Bytes → Bytes → Result ChunkRangeError ByteRange
unfolding chunk_ends
chunk_range value [] = err (malformed value)
chunk_range value (c ∷ s) =
    if contains b'/' (c ∷ s) || not (all (λ b. not (is_alphabetic b)) (c ∷ s))
    then err (malformed (c ∷ s))
    else elim (split_once b'-' (c ∷ s)) [
      | none ↦ err (malformed (c ∷ s))
      | some (first, last) ↦ chunk_ends (c ∷ s) first last
    ]

unfoldable pub parse_chunk_range : Bytes → Result ChunkRangeError ByteRange
unfolding trim chunk_range
parse_chunk_range value = chunk_range value (trim value)
