-- ===== src/Registry/Reference/Grammar.antt =====
-- The tag check against the grammar `[a-zA-Z0-9_][a-zA-Z0-9._-]{0,127}` of its comment, and what the
-- grammar gives the keys.
use summ.Prelude.{
  ℕ, ◌≤◌, ◌<◌, ◌≡◌, ◌⊎◌, ◌↔◌, refl, sym, subst, Option, none, some, Bool, true, false, ◌||◌, List,
  [], ◌∷◌, Bytes, ltb, ◌==◌, if◌then◌else◌, length, all, All, All-mono, arith,
}
use summ.Core.Utf8.{chars, AllAscii, IsStr, IsStr-ascii, chars-ascii}
use summ.Core.Utf8.Ascii.{chars-AllAscii}
use summ.Core.Keys.Read.{LacksNul}
use summ.Registry.Outcome.{Outcome, done, fail, tag_invalid}
use summ.Registry.Reference.{
  max_tag_len, is_alphanumeric, is_tag_char, validate_chars, validate_tag,
}

-- The grammar's two classes of characters.
abbrev pub IsFirst : ℕ → Type 0
IsFirst c =
    ((b'0' ≤ c) × (c ≤ b'9')) ⊎ ((b'A' ≤ c) × (c ≤ b'Z')) ⊎ ((b'a' ≤ c) × (c ≤ b'z')) ⊎ (c ≡ b'_')

abbrev pub IsNext : ℕ → Type 0
IsNext c = IsFirst c ⊎ (c ≡ b'.') ⊎ (c ≡ b'-')

abbrev pub IsTag : Bytes → Type 0
IsTag [] = 1 ≤ 0
IsTag (c ∷ t) = IsFirst c × All IsNext t × (length t ≤ 127)

pub IsFirst-iff : (c : ℕ) → ((is_alphanumeric c || c == b'_') ≡ true) ↔ IsFirst c
unfolding is_alphanumeric
IsFirst-iff c = ground arith

IsNext-iff : (c : ℕ) → (is_tag_char c ≡ true) ↔ IsNext c
unfolding is_tag_char is_alphanumeric
IsNext-iff c = ground arith

pub all-IsNext : (t : Bytes) → all is_tag_char t ≡ true → All IsNext t
all-IsNext [] h = tt
all-IsNext (c ∷ t) h = ((IsNext-iff c).0 (ground arith), all-IsNext t (ground arith))

pub IsNext-all : (t : Bytes) → All IsNext t → all is_tag_char t ≡ true
IsNext-all [] h = refl
IsNext-all (c ∷ t) h = ground (arith, (IsNext-iff c).1 h.0, IsNext-all t h.1)

-- The three tests of the check, and what it takes to pass them.
abbrev tested : Bytes → Bool → Bool → Bool → Outcome (Unit {0})
tested t a b d =
    if a
    then (if b then fail (tag_invalid t) else (if d then done tt else fail (tag_invalid t)))
    else fail (tag_invalid t)

passed :
    (t : Bytes) (a b d : Bool) → tested t a b d ≡ done tt → (a ≡ true) × (d ≡ true) × (b ≡ false)
passed t a b d e = ground arith

-- What the loop over the characters accepts.
validate_chars-IsTag : (t cs : Bytes) → (validate_chars t cs ≡ done tt) ↔ IsTag cs
unfolding validate_chars
validate_chars-IsTag t [] = ((λ e. absurd (cc e)), (λ h. absurd (omega (arith, h))))
validate_chars-IsTag t (c ∷ cs) = (
  (λ e.
      let (first, rest, room) =
        passed t (is_alphanumeric c || c == b'_') (ltb max_tag_len (length (c ∷ cs)))
          (all is_tag_char cs) e in
      ((IsFirst-iff c).0 first, all-IsNext cs rest, ground (arith, room))),
  (λ h.
      let first : (is_alphanumeric c || c == b'_') ≡ true = (IsFirst-iff c).1 h.0 in
      let room : ltb max_tag_len (length (c ∷ cs)) ≡ false = ground (arith, h.2) in
      rw (first, room, IsNext-all cs h.1) refl),
)

IsNext-lt : (c : ℕ) → IsNext c → c < 0x80
IsNext-lt c h = ground arith

pub IsTag-AllAscii : (t : Bytes) → IsTag t → AllAscii t
IsTag-AllAscii [] h = tt
IsTag-AllAscii (c ∷ t) h = (ground (arith, h.0), All-mono IsNext (λ b. b < 0x80) t IsNext-lt h.1)

-- The tag check accepts exactly the grammar of its comment.
pub validate_tag-IsTag : (t : Bytes) → (validate_tag t ≡ done tt) ↔ IsTag t
validate_tag-IsTag t = (accepted (chars t) refl, complete)
  where
    accepted : (o : Option (List ℕ)) → chars t ≡ o → validate_tag t ≡ done tt → IsTag t
    accepted none q e = absurd (unfold validate_tag in ground arith)
    accepted (some cs) q e =
        let tag : IsTag cs = (validate_chars-IsTag t cs).0 (unfold validate_tag in ground arith) in
        subst IsTag (sym (chars-AllAscii t cs q (IsTag-AllAscii cs tag))) tag

    complete : IsTag t → validate_tag t ≡ done tt
    complete h =
        unfold validate_tag in
        rw (chars-ascii t (IsTag-AllAscii t h), validate_tag) ((validate_chars-IsTag t t).1 h)

-- A tag that the check accepts is text and lacks NUL, so that its history and counter scans are exact.
pub validate_tag-LacksNul : (t : Bytes) → validate_tag t ≡ done tt → IsStr t × LacksNul t
validate_tag-LacksNul t h =
    let tag = (validate_tag-IsTag t).0 h in (IsStr-ascii t (IsTag-AllAscii t tag), lacks t tag)
  where
    lacks_next : (s : Bytes) → All IsNext s → LacksNul s
    lacks_next [] h = tt
    lacks_next (c ∷ s) h = ((λ z. ground arith), lacks_next s h.1)

    lacks : (s : Bytes) → IsTag s → LacksNul s
    lacks [] h = tt
    lacks (c ∷ s) h = ((λ z. ground arith), lacks_next s h.1)
