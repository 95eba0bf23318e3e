-- ===== src/Server/Range/Chunk.antt =====
-- A chunk's range is `<start>-<end>` in decimal, and nothing else is accepted.
use summ.Prelude.{
  ℕ, ◌^◌, ◌<◌, ◌≤◌, ◌==◌, ◌≡◌, ◌≢◌, ◌↔◌, ◌&&◌, ◌||◌, not, refl, ◌∙◌, Option, none, some, Bool, true,
  false, [], ◌∷◌, ◌++◌, Bytes, ltb, all, if◌then◌else◌, Result, ok, err, arith, Bool-cases, inl,
  inr,
}
use summ.Core.Digest.{split_once}
use summ.Registry.Reference.{contains}
use summ.Core.Digest.Panics.{split_once_sound}
use summ.Server.Range.{
  ByteRange, trim, is_digit, is_alphabetic, parse_u64, ChunkRangeError, malformed, inverted,
  chunk_ends, chunk_range, parse_chunk_range,
}
use summ.Server.Range.Decimal.{decimal, parse_u64_sound, parse_u64_complete}

-- What the grammar says of two ends and their range.
abbrev pub IsChunk : Bytes → Bytes → ByteRange → Type 0
IsChunk first last r =
    (first ≢ [])
    × (last ≢ [])
    × (all is_digit first ≡ true)
    × (all is_digit last ≡ true)
    × (r.start ≡ decimal 0 first)
    × (r.end ≡ decimal 0 last)
    × (r.start ≤ r.end)
    × (r.end < 2 ^ 64)

chunk_ends_sound :
    (raw first last : Bytes) (r : ByteRange)
    → chunk_ends raw first last ≡ ok r
    → IsChunk first last r
chunk_ends_sound raw [] last r h = unfold chunk_ends in absurd (cc h)
chunk_ends_sound raw (c ∷ first) [] r h = unfold chunk_ends in absurd (cc h)
chunk_ends_sound raw (c ∷ first) (d ∷ last) r h =
    by_digits (all is_digit (c ∷ first)) (all is_digit (d ∷ last)) refl refl
      (unfold chunk_ends in h)
  where
    ends : Option ℕ → Option ℕ → Result ChunkRangeError ByteRange
    ends o p = elim o [
      | none ↦ err (malformed raw)
      | some start ↦ elim p [
        | none ↦ err (malformed raw)
        | some end ↦
            if ltb end start then err inverted else ok (record { start = start; end = end })
      ]
    ]

    made : (m n : ℕ) → ends (some m) (some n) ≡ ok r → (m ≤ n) × (r.start ≡ m) × (r.end ≡ n)
    made m n e = elim (Bool-cases (ltb n m)) [
      | inl q ↦ absurd (ground arith)
      | inr q ↦ (ground arith, ground arith, ground arith)
    ]

    by_numbers :
        (o p : Option ℕ)
        → all is_digit (c ∷ first) ≡ true
        → all is_digit (d ∷ last) ≡ true
        → parse_u64 (c ∷ first) ≡ o
        → parse_u64 (d ∷ last) ≡ p
        → ends o p ≡ ok r
        → IsChunk (c ∷ first) (d ∷ last) r
    by_numbers none p a b q q' e = absurd (cc e)
    by_numbers (some m) none a b q q' e = absurd (cc e)
    by_numbers (some m) (some n) a b q q' e =
        let (em, hm) = parse_u64_sound (c ∷ first) m a q in
        let (en, hn) = parse_u64_sound (d ∷ last) n b q' in
        let (order, start, end) = made m n e in
        (
          (λ x. cc x),
          (λ x. cc x),
          a,
          b,
          start ∙ em,
          end ∙ en,
          omega (arith, order, start, end),
          omega (arith, hn, end),
        )

    by_digits :
        (a b : Bool)
        → all is_digit (c ∷ first) ≡ a
        → all is_digit (d ∷ last) ≡ b
        → (if a && b
            then ends (parse_u64 (c ∷ first)) (parse_u64 (d ∷ last))
            else err (malformed raw))
          ≡ ok r
        → IsChunk (c ∷ first) (d ∷ last) r
    by_digits false b q q' e = absurd (cc e)
    by_digits true false q q' e = absurd (cc e)
    by_digits true true q q' e =
        by_numbers (parse_u64 (c ∷ first)) (parse_u64 (d ∷ last)) q q' refl refl e

parse_chunk_range_sound :
    (value : Bytes) (r : ByteRange)
    → parse_chunk_range value ≡ ok r
    → (first : Bytes) × (last : Bytes) × (trim value ≡ first ++ b'-' ∷ last) × IsChunk first last r
parse_chunk_range_sound value r h = by_text (trim value) (unfold parse_chunk_range in h)
  where
    by_split :
        (raw : Bytes) (o : Option (Bytes × Bytes))
        → split_once b'-' raw ≡ o
        → (elim o as (λ x. Result ChunkRangeError ByteRange) [
          | none ↦ err (malformed raw)
          | some (first, last) ↦ chunk_ends raw first last
        ])
          ≡ ok r
        → (first : Bytes) × (last : Bytes) × (raw ≡ first ++ b'-' ∷ last) × IsChunk first last r
    by_split raw none q e = absurd (cc e)
    by_split raw (some (first, last)) q e =
        (first, last, split_once_sound b'-' raw first last q, chunk_ends_sound raw first last r e)

    by_guard :
        (raw : Bytes) (b : Bool)
        → (if b
            then err (malformed raw)
            else (elim (split_once b'-' raw) as (λ x. Result ChunkRangeError ByteRange) [
              | none ↦ err (malformed raw)
              | some (first, last) ↦ chunk_ends raw first last
            ]))
          ≡ ok r
        → (first : Bytes) × (last : Bytes) × (raw ≡ first ++ b'-' ∷ last) × IsChunk first last r
    by_guard raw true e = absurd (cc e)
    by_guard raw false e = by_split raw (split_once b'-' raw) refl e

    by_text :
        (raw : Bytes)
        → chunk_range value raw ≡ ok r
        → (first : Bytes) × (last : Bytes) × (raw ≡ first ++ b'-' ∷ last) × IsChunk first last r
    by_text [] e = unfold chunk_range in absurd (cc e)
    by_text (c ∷ s) e =
        by_guard (c ∷ s) (contains b'/' (c ∷ s) || not (all (λ b. not (is_alphabetic b)) (c ∷ s)))
          (unfold chunk_range in e)

-- Digits are none of the bytes that the guard and the split look for.
split_once-digits :
    (first last : Bytes)
    → all is_digit first ≡ true
    → split_once b'-' (first ++ b'-' ∷ last) ≡ some (first, last)
unfolding split_once
split_once-digits [] last a = refl
split_once-digits (c ∷ first) last a =
    let other : (c == b'-') ≡ false = unfold is_digit in ground arith in
    rw (other, split_once-digits first last (ground arith)) refl

no_slash :
    (first last : Bytes)
    → all is_digit first ≡ true
    → all is_digit last ≡ true
    → contains b'/' (first ++ b'-' ∷ last) ≡ false
unfolding contains is_digit
no_slash [] [] a b = ground arith
no_slash [] (d ∷ last) a b = ground (arith, no_slash [] last refl (ground arith))
no_slash (c ∷ first) last a b = ground (arith, no_slash first last (ground arith) b)

no_letter :
    (first last : Bytes)
    → all is_digit first ≡ true
    → all is_digit last ≡ true
    → all (λ b. not (is_alphabetic b)) (first ++ b'-' ∷ last) ≡ true
unfolding is_alphabetic is_digit
no_letter [] [] a b = ground arith
no_letter [] (d ∷ last) a b = ground (arith, no_letter [] last refl (ground arith))
no_letter (c ∷ first) last a b = ground (arith, no_letter first last (ground arith) b)

chunk_ends_complete :
    (raw first last : Bytes) (r : ByteRange)
    → IsChunk first last r
    → chunk_ends raw first last ≡ ok r
unfolding chunk_ends
chunk_ends_complete raw [] last r (n, m, a, b, start, end, order, room) = absurd (n refl)
chunk_ends_complete raw (c ∷ first) [] r (n, m, a, b, start, end, order, room) = absurd (m refl)
chunk_ends_complete raw (c ∷ first) (d ∷ last) r (n, m, a, b, start, end, order, room) =
    rw
      (
        a,
        b,
        parse_u64_complete (c ∷ first) n a (omega (arith, start, end, order, room)),
        parse_u64_complete (d ∷ last) m b (omega (arith, end, room)),
      )
      (ground (arith, start, end, order))

parse_chunk_range_complete :
    (value first last : Bytes) (r : ByteRange)
    → trim value ≡ first ++ b'-' ∷ last
    → IsChunk first last r
    → parse_chunk_range value ≡ ok r
unfolding parse_chunk_range chunk_range
parse_chunk_range_complete value [] last r e h = absurd (h.0 refl)
parse_chunk_range_complete value (c ∷ first) last r e h =
    rw
      (
        e,
        no_slash (c ∷ first) last h.2 h.3,
        no_letter (c ∷ first) last h.2 h.3,
        split_once-digits (c ∷ first) last h.2,
      )
      (chunk_ends_complete ((c ∷ first) ++ b'-' ∷ last) (c ∷ first) last r h)

-- A chunk's range is accepted, with its two ends, exactly if the text, but for white space around it, is two
-- runs of digits, neither empty, with a hyphen between them, whose values are the ends, in order and below
-- 2^64.
pub parse_chunk_range-IsChunk :
    (value : Bytes) (r : ByteRange)
    → (parse_chunk_range value ≡ ok r) ↔ (
        (first : Bytes) × (last : Bytes) × (trim value ≡ first ++ b'-' ∷ last)
        × IsChunk first last r)
parse_chunk_range-IsChunk value r = (
  parse_chunk_range_sound value r,
  (λ (first, last, e, h). parse_chunk_range_complete value first last r e h),
)
