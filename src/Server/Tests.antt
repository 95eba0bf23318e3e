-- ===== src/Server/Tests.antt =====
-- The headers of the conformance suite.
use summ.Prelude.{true, false, ◌≡◌, refl, [], ◌∷◌, ◌++◌, Bytes, AllBytes, codes, arith}
use summ.Server.Range.{
  ByteRange, partial, unsatisfiable, parse_range, parse_chunk_range, trim, is_space, trim_start,
  trim_end, is_digit, is_alphabetic, digits, parse_u64, chunk_ends, chunk_range, parse_parts,
  parse_spec,
}
use summ.Server.Range.{malformed}
use summ.Prelude.{ok, err}
use summ.Core.Digest.{split_once}
use summ.Registry.Reference.{contains}
use summ.Server.Range.Bounds.{IsWithin, parse_range-IsWithin}
use summ.Server.Range.Chunk.{IsChunk, parse_chunk_range-IsChunk}
use summ.Registry.Outcome.{done}
use summ.Registry.Reference.{validate_tag}
use summ.Server.Reference.{
  valid_name, valid_name_component, name_from, name_step, is_lower_alnum, split, valid_tag,
  parse_digest, panicked,
}
use summ.Server.Query.{Pairs, query_escape, pairs}
use summ.Server.Query.RoundTrip.{IsText, query_text, pairs-query_text}
use summ.Core.Utf8.{AllAscii, IsStr-ascii}
use summ.Server.Reference.Agreement.{valid_tag-validate_tag, parse_digest-ne-panicked}
use mathlib.Core.Logic.{◌≢◌, ◌↔◌}

window : parse_range (codes "bytes=500-1499") 2048 ≡ partial (record { start = 500; end = 1499 })
unfolding parse_range parse_spec parse_parts parse_u64 digits is_digit trim trim_start trim_end
    is_space split_once contains
window = refl

last_bytes : parse_range (codes "bytes=-500") 2048 ≡ partial (record { start = 1548; end = 2047 })
unfolding parse_range parse_spec parse_parts parse_u64 digits is_digit trim trim_start trim_end
    is_space split_once contains
last_bytes = refl

past_end : parse_range (codes "bytes=5000-10000") 2048 ≡ unsatisfiable
unfolding parse_range parse_spec parse_parts parse_u64 digits is_digit trim trim_start trim_end
    is_space split_once contains
past_end = refl

parse_range-IsWithin_example : IsWithin 2048 (parse_range (codes "bytes=500-1499") 2048)
parse_range-IsWithin_example = parse_range-IsWithin (codes "bytes=500-1499") 2048

abbrev kibibyte : ByteRange
kibibyte = record { start = 0; end = 1023 }

parse_chunk_range-IsChunk_example : (parse_chunk_range (codes "0-1023") ≡ ok kibibyte) ↔ (
    (first : Bytes) × (last : Bytes) × (trim (codes "0-1023") ≡ first ++ b'-' ∷ last)
    × IsChunk first last kibibyte)
parse_chunk_range-IsChunk_example = parse_chunk_range-IsChunk (codes "0-1023") kibibyte

-- Neither end may be left out.
no_first : parse_chunk_range (codes "-5") ≡ err (malformed (codes "-5"))
unfolding parse_chunk_range chunk_range chunk_ends is_digit is_alphabetic trim trim_start trim_end
    is_space split_once contains
no_first = refl

good_name : valid_name (codes "a1/b2.c3/d4__e5/f6---g7") ≡ true
unfolding valid_name valid_name_component name_from name_step is_lower_alnum split
good_name = refl

bad_name : valid_name (codes "foo___bar") ≡ false
unfolding valid_name valid_name_component name_from name_step is_lower_alnum split
bad_name = refl

valid_tag-validate_tag_example :
    (valid_tag (codes "v1") ≡ true) ↔ (validate_tag (codes "v1") ≡ done tt)
valid_tag-validate_tag_example = valid_tag-validate_tag (codes "v1")

parse_digest-ne-panicked_example : parse_digest (codes "sha256:beef") ≢ panicked
parse_digest-ne-panicked_example = parse_digest-ne-panicked (codes "sha256:beef")

ascii_bytes : (s : Bytes) → AllAscii s → AllBytes s
ascii_bytes [] h = tt
ascii_bytes (b ∷ s) h = (omega (arith, h.0), ascii_bytes s h.1)

IsText-ascii : (s : Bytes) → AllAscii s → IsText s
IsText-ascii s h = (IsStr-ascii s h, ascii_bytes s h)

-- A link to the next page of a catalog, and a value with separators of its own.
abbrev link_pairs : Pairs
link_pairs = (codes "last", codes "a&b=c/d e+") ∷ (codes "n", codes "2") ∷ []

link_text : query_text link_pairs ≡ codes "last=a%26b%3Dc%2Fd+e%2B&n=2"
unfolding query_escape
link_text = refl

pairs-query_text_example : pairs (λ s. s) (query_text link_pairs) ≡ link_pairs
pairs-query_text_example =
    pairs-query_text (λ s. s) (λ s h. refl) link_pairs
      (
        ((IsText-ascii _ (omega arith)), (IsText-ascii _ (omega arith))),
        (((IsText-ascii _ (omega arith)), (IsText-ascii _ (omega arith))), tt),
      )
