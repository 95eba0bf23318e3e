-- ===== src/Server/Range/Bounds.antt =====
-- What a parsed range covers: it lies within the blob, and a chunk's range is its grammar's.
use summ.Prelude.{
  ℕ, ◌<◌, ◌≤◌, ◌||◌, Option, none, some, [], ◌∷◌, Bytes, codes, leb, ltb, ◌==◌, if◌then◌else◌,
  arith, Bool-cases, inl, inr, strip_prefix,
}
use summ.Core.Digest.{split_once}
use summ.Registry.Reference.{contains}
use summ.Server.Range.{
  size, RangeOutcome, whole, partial, unsatisfiable, trim, parse_u64, suffix_range, open_range,
  closed_range, parse_parts, parse_spec, parse_range,
}

-- A range within a blob of a length.
abbrev pub IsWithin : ℕ → RangeOutcome → Type 0
IsWithin len whole = Unit
IsWithin len (partial r) = (r.start ≤ r.end) × (r.end < len) × (size r ≤ len)
IsWithin len unsatisfiable = Unit

suffix_range-IsWithin : (len : ℕ) (o : Option ℕ) → 0 < len → IsWithin len (suffix_range len o)
suffix_range-IsWithin len none h = tt
suffix_range-IsWithin len (some n) h = elim (Bool-cases (n == 0)) [
  | inl e ↦ rw e tt
  | inr e ↦ rw e (ground arith, omega arith, (unfold size in ground arith))
]

open_range-IsWithin : (len : ℕ) (o : Option ℕ) → 0 < len → IsWithin len (open_range len o)
open_range-IsWithin len none h = tt
open_range-IsWithin len (some n) h = elim (Bool-cases (leb len n)) [
  | inl e ↦ rw e tt
  | inr e ↦ rw e (ground arith, omega arith, (unfold size in ground arith))
]

closed_range-IsWithin : (len : ℕ) (o p : Option ℕ) → 0 < len → IsWithin len (closed_range len o p)
closed_range-IsWithin len none p h = tt
closed_range-IsWithin len (some m) none h = tt
closed_range-IsWithin len (some m) (some n) h = elim (Bool-cases (leb len m || ltb n m)) [
  | inl e ↦ rw e tt
  | inr e ↦ rw e (ground arith, ground arith, (unfold size in ground arith))
]

parse_parts-IsWithin : (len : ℕ) (a b : Bytes) → 0 < len → IsWithin len (parse_parts len a b)
unfolding parse_parts
parse_parts-IsWithin len [] [] h = tt
parse_parts-IsWithin len [] (d ∷ b) h = suffix_range-IsWithin len (parse_u64 (d ∷ b)) h
parse_parts-IsWithin len (c ∷ a) [] h = open_range-IsWithin len (parse_u64 (c ∷ a)) h
parse_parts-IsWithin len (c ∷ a) (d ∷ b) h =
    closed_range-IsWithin len (parse_u64 (c ∷ a)) (parse_u64 (d ∷ b)) h

parse_spec-IsWithin : (spec : Bytes) (len : ℕ) → IsWithin len (parse_spec spec len)
parse_spec-IsWithin spec len = elim (Bool-cases (contains b',' spec)) [
  | inl e ↦ unfold parse_spec in rw e tt
  | inr e ↦ unfold parse_spec in rw e (by_parts (split_once b'-' spec))
]
  where
    by_parts :
        (o : Option (Bytes × Bytes))
        → IsWithin len (elim o as (λ x. RangeOutcome) [
          | none ↦ whole
          | some (first, last) ↦
              if len == 0 then unsatisfiable else parse_parts len (trim first) (trim last)
        ])
    by_parts none = tt
    by_parts (some (first, last)) = elim (Bool-cases (len == 0)) [
      | inl e ↦ rw e tt
      | inr e ↦ rw e (parse_parts-IsWithin len (trim first) (trim last) (ground arith))
    ]

-- Whatever the header and the blob: a range that is served lies within the blob, is not empty, and its
-- size is computed without overflow and is at most the blob's.
pub parse_range-IsWithin : (header : Bytes) (len : ℕ) → IsWithin len (parse_range header len)
parse_range-IsWithin header len =
    unfold parse_range in by_prefix (strip_prefix (trim header) (codes "bytes="))
  where
    by_prefix :
        (o : Option Bytes)
        → IsWithin len (elim o as (λ x. RangeOutcome) [
          | none ↦ whole
          | some spec ↦ parse_spec (trim spec) len
        ])
    by_prefix none = tt
    by_prefix (some spec) = parse_spec-IsWithin (trim spec) len
