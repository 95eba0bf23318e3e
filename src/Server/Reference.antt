-- ===== src/Server/Reference.antt =====
-- summ-server/src/reference.rs: the grammars of names, tags and digests at the HTTP boundary.
pub mod Agreement
use summ.Prelude.{
  ℕ, ◌+◌, ◌≡◌, ◌&&◌, ◌||◌, Option, none, some, Bool, true, false, List, [], ◌∷◌, Bytes, leb, ltb,
  ◌==◌, all, length, if◌then◌else◌,
}
use summ.Core.Digest.{
  Digest, DigestError, Parsed, ok, invalid_digest, panic, split_once, from_str, display,
}

abbrev pub max_name_len : ℕ
max_name_len = 255

abbrev pub max_tag_len : ℕ
max_tag_len = 128

unfoldable pub is_lower_alnum : ℕ → Bool
is_lower_alnum c = (leb b'a' c && leb c b'z') || (leb b'0' c && leb c b'9')

-- Where the loop of `valid_name_component` stands: before a run, in one, or in a separator.
pub data NamePlace : Type 0 where
  run_start in_run hyphens : NamePlace
  underscores : ℕ → NamePlace

-- The place behind a byte; none where the loop returns false.
unfoldable pub name_step : NamePlace → ℕ → Option NamePlace
name_step run_start c = if is_lower_alnum c then some in_run else none
name_step in_run c =
    if is_lower_alnum c
    then some in_run
    else if c == b'.'
    then some run_start
    else if c == b'_'
    then some (underscores 1)
    else if c == b'-'
    then some hyphens
    else none
name_step (underscores n) c =
    if c == b'_'
    then some (underscores (n + 1))
    else if ltb 2 n
    then none
    else if is_lower_alnum c
    then some in_run
    else none
name_step hyphens c =
    if c == b'-' then some hyphens else if is_lower_alnum c then some in_run else none

unfoldable pub name_from : NamePlace → Bytes → Bool
unfolding name_step
name_from in_run [] = true
name_from run_start [] = false
name_from hyphens [] = false
name_from (underscores n) [] = false
name_from place (c ∷ s) = elim (name_step place c) [ none ↦ false | some next ↦ name_from next s ]

unfoldable pub valid_name_component : Bytes → Bool
unfolding name_from
valid_name_component = name_from run_start

-- `name.split(c)`: the first piece and the others.
unfoldable pub split : ℕ → Bytes → Bytes × List Bytes
split c [] = ([], [])
split c (x ∷ s) =
    let rest = split c s in if x == c then ([], rest.0 ∷ rest.1) else (x ∷ rest.0, rest.1)

unfoldable pub valid_name : Bytes → Bool
unfolding split valid_name_component
valid_name [] = false
valid_name (x ∷ s) =
    if ltb max_name_len (length (x ∷ s))
    then false
    else (let pieces = split b'/' (x ∷ s) in
        valid_name_component (pieces.0) && all valid_name_component (pieces.1))

unfoldable pub is_ascii_alphanumeric : ℕ → Bool
is_ascii_alphanumeric c =
    (leb b'0' c && leb c b'9') || (leb b'A' c && leb c b'Z') || (leb b'a' c && leb c b'z')

unfoldable pub is_tag_byte : ℕ → Bool
unfolding is_ascii_alphanumeric
is_tag_byte c = is_ascii_alphanumeric c || c == b'.' || c == b'_' || c == b'-'

unfoldable pub valid_tag : Bytes → Bool
unfolding is_ascii_alphanumeric is_tag_byte
valid_tag [] = false
valid_tag (c ∷ s) =
    if ltb max_tag_len (length (c ∷ s))
    then false
    else (if is_ascii_alphanumeric c || c == b'_' then all is_tag_byte s else false)

-- Why a digest was refused; the last is the parser's own error.
pub data Refusal : Type 0 where
  missing_algorithm malformed uppercase : Refusal
  parser : DigestError → Refusal

pub data Checked {ℓ} (A : Type ℓ) : Type ℓ where
  accepted : A → Checked A
  refused : Refusal → Checked A
  panicked : Checked A

abbrev pub of_parsed : Parsed Digest → Checked Digest
of_parsed (ok d) = accepted d
of_parsed (invalid_digest e) = refused (parser e)
of_parsed panic = panicked

unfoldable pub check_encoded : Bytes → Bytes → Bytes → Checked Digest
unfolding is_lower_alnum
check_encoded s [] encoded = refused malformed
check_encoded s (a ∷ algorithm) [] = refused malformed
check_encoded s (a ∷ algorithm) (e ∷ encoded) =
    if all is_lower_alnum (e ∷ encoded) then of_parsed (from_str s) else refused uppercase

unfoldable pub parse_digest : Bytes → Checked Digest
unfolding check_encoded
parse_digest s = elim (split_once b':' s) [
  | none ↦ refused missing_algorithm
  | some (algorithm, encoded) ↦ check_encoded s algorithm encoded
]

pub data Reference : Type 0 where
  tag : Bytes → Reference
  digest : Digest → Reference

unfoldable pub as_digest : Reference → Option Digest
as_digest (digest d) = some d
as_digest (tag t) = none

-- `Display`
unfoldable pub print : Reference → Bytes
print (tag t) = t
print (digest d) = display d

pub data ReferenceError : Type 0 where
  bad_digest : Refusal → ReferenceError
  bad_tag : Bytes → ReferenceError

-- How `parse_reference` ends.
pub data Disambiguated : Type 0 where
  reference : Reference → Disambiguated
  error : ReferenceError → Disambiguated
  crash : Disambiguated

unfoldable pub contains : ℕ → Bytes → Bool
contains c [] = false
contains c (x ∷ s) = x == c || contains c s

unfoldable pub parse_reference : Bytes → Disambiguated
unfolding contains parse_digest valid_tag
parse_reference s =
    if contains b':' s
    then elim (parse_digest s) [
      | accepted d ↦ reference (digest d)
      | refused e ↦ error (bad_digest e)
      | panicked ↦ crash
    ]
    else if valid_tag s
    then reference (tag s)
    else error (bad_tag s)
