-- ===== src/Registry/Reference.antt =====
-- summ-registry/src/reference.rs: tags and references.
pub mod Grammar
use summ.Prelude.{
  ℕ, ◌≤◌, ◌<◌, ◌≡◌, Option, none, some, Bool, true, false, ◌||◌, ◌&&◌, List, [], ◌∷◌, Bytes, leb,
  ltb, ◌==◌, if◌then◌else◌, length, all,
}
use summ.Core.Utf8.{chars}
use summ.Core.Digest.{Digest, display, from_str, ok, invalid_digest, panic}
use summ.Registry.Outcome.{Outcome, done, fail, panicked, tag_invalid, digest_invalid, ◌>>=◌}

abbrev pub max_tag_len : ℕ
max_tag_len = 128

pub data Reference : Type 0 where
  tag : Bytes → Reference
  digest : Digest → Reference

unfoldable pub as_tag : Reference → Option Bytes
as_tag (tag t) = some t
as_tag (digest d) = none

unfoldable pub as_digest : Reference → Option Digest
as_digest (tag t) = none
as_digest (digest d) = some d

-- `Display`
unfoldable pub print : Reference → Bytes
print (tag t) = t
print (digest d) = display d

-- `char::is_ascii_alphanumeric`
unfoldable pub is_alphanumeric : ℕ → Bool
is_alphanumeric c =
    (leb b'0' c && leb c b'9') || (leb b'A' c && leb c b'Z') || (leb b'a' c && leb c b'z')

unfoldable pub is_tag_char : ℕ → Bool
is_tag_char c = is_alphanumeric c || c == b'.' || c == b'_' || c == b'-'

unfoldable pub validate_chars : Bytes → List ℕ → Outcome (Unit {0})
unfolding is_alphanumeric is_tag_char
validate_chars t [] = fail (tag_invalid t)
validate_chars t (first ∷ rest) =
    if is_alphanumeric first || first == b'_'
    then (if ltb max_tag_len (length (first ∷ rest))
        then fail (tag_invalid t)
        else (if all is_tag_char rest then done tt else fail (tag_invalid t)))
    else fail (tag_invalid t)

-- The characters of a `&str`; bytes that are no text do not occur.
unfoldable pub validate_tag : Bytes → Outcome (Unit {0})
unfolding validate_chars
validate_tag t = elim (chars t) [ none ↦ fail (tag_invalid t) | some cs ↦ validate_chars t cs ]

unfoldable pub contains : ℕ → Bytes → Bool
contains c [] = false
contains c (x ∷ s) = x == c || contains c s

-- `FromStr`
unfoldable pub parse : Bytes → Outcome Reference
unfolding contains validate_tag
parse s =
    if contains b':' s
    then elim (from_str s) [
      | ok d ↦ done (digest d)
      | invalid_digest e ↦ fail digest_invalid
      | panic ↦ panicked
    ]
    else (validate_tag s >>= (λ _. done (tag s)))
