-- ===== src/Server/Reference/Agreement.antt =====
-- The boundary's checks against those of the layers below.
use summ.Prelude.{
  ℕ, ◌≡◌, ◌≢◌, ◌↔◌, ◌||◌, refl, sym, ap, ◌∙◌, Option, none, some, Bool, true, false, [], ◌∷◌, Bytes,
  ltb, ◌==◌, all, length, if◌then◌else◌, arith, Bool-cases, inl, inr,
}
use summ.Core.Utf8.{AllAscii}
use summ.Core.Digest.{Digest, Parsed, ok, invalid_digest, panic, split_once, from_str}
use summ.Core.Digest.Panics.{of_parts_ascii}
use summ.Registry.Outcome.{done}
use summ.Registry.Reference.{validate_tag, is_tag_char, is_alphanumeric}
use summ.Registry.Reference.Grammar.{IsTag, validate_tag-IsTag, all-IsNext, IsNext-all, IsFirst-iff}
use summ.Server.Reference.{
  max_tag_len, is_ascii_alphanumeric, is_tag_byte, valid_tag, is_lower_alnum, panicked, of_parsed,
  check_encoded, parse_digest,
}

same_bytes : (t : Bytes) → all is_tag_byte t ≡ all is_tag_char t
unfolding is_tag_byte is_ascii_alphanumeric is_tag_char is_alphanumeric
same_bytes t = refl

same_first : (c : ℕ) → is_ascii_alphanumeric c ≡ is_alphanumeric c
unfolding is_ascii_alphanumeric is_alphanumeric
same_first c = refl

tested :
    (a b d : Bool)
    → (if a then false else (if b then d else false)) ≡ true
    → (a ≡ false) × (b ≡ true) × (d ≡ true)
tested a b d h = ground arith

valid_tag-IsTag : (t : Bytes) → (valid_tag t ≡ true) ↔ IsTag t
unfolding valid_tag
valid_tag-IsTag [] = ((λ h. absurd (cc h)), (λ h. absurd (omega (arith, h))))
valid_tag-IsTag (c ∷ t) = (
  (λ h.
      let (room, first, rest) =
        tested (ltb max_tag_len (length (c ∷ t))) (is_ascii_alphanumeric c || c == b'_')
          (all is_tag_byte t) h in
      (
        (IsFirst-iff c).0 (ap (λ b. b || c == b'_') (sym (same_first c)) ∙ first),
        all-IsNext t (sym (same_bytes t) ∙ rest),
        ground (arith, room),
      )),
  (λ h.
      let first : (is_ascii_alphanumeric c || c == b'_') ≡ true =
        ap (λ b. b || c == b'_') (same_first c) ∙ (IsFirst-iff c).1 h.0 in
      let room : ltb max_tag_len (length (c ∷ t)) ≡ false = ground (arith, h.2) in
      rw (room, first, same_bytes t ∙ IsNext-all t h.1) refl),
)

-- The boundary accepts the tags that the registry accepts.
pub valid_tag-validate_tag : (t : Bytes) → (valid_tag t ≡ true) ↔ (validate_tag t ≡ done tt)
valid_tag-validate_tag t = (
  (λ h. (validate_tag-IsTag t).1 ((valid_tag-IsTag t).0 h)),
  (λ h. (valid_tag-IsTag t).1 ((validate_tag-IsTag t).0 h)),
)

lower_ascii : (s : Bytes) → all is_lower_alnum s ≡ true → AllAscii s
lower_ascii [] h = tt
lower_ascii (c ∷ s) h = ((unfold is_lower_alnum in ground arith), lower_ascii s (ground arith))

-- No text makes the boundary's digest check panic: what reaches the parser has an ASCII encoding.
pub parse_digest-ne-panicked : (s : Bytes) → parse_digest s ≢ panicked
parse_digest-ne-panicked s = by_parts (split_once b':' s) refl
  where
    by_text :
        (algorithm encoded : Bytes)
        → split_once b':' s ≡ some (algorithm, encoded)
        → AllAscii encoded
        → from_str s ≢ panic
    by_text algorithm encoded q h =
        unfold from_str in rw (q, from_str) (of_parts_ascii algorithm encoded h)

    of_result : (p : Parsed Digest) → p ≢ panic → of_parsed p ≢ panicked
    of_result (ok d) h = λ e. cc
    of_result (invalid_digest r) h = λ e. cc
    of_result panic h = λ e. h refl

    by_encoded :
        (algorithm encoded : Bytes)
        → split_once b':' s ≡ some (algorithm, encoded)
        → check_encoded s algorithm encoded ≢ panicked
    by_encoded [] encoded q = unfold check_encoded in (λ e. cc)
    by_encoded (a ∷ algorithm) [] q = unfold check_encoded in (λ e. cc)
    by_encoded (a ∷ algorithm) (b ∷ encoded) q =
        elim (Bool-cases (all is_lower_alnum (b ∷ encoded))) [
          | inl u ↦
              unfold check_encoded in
              rw u (
                of_result (from_str s)
                  (by_text (a ∷ algorithm) (b ∷ encoded) q (lower_ascii (b ∷ encoded) u)))
          | inr u ↦ unfold check_encoded in rw u (λ e. cc)
        ]

    by_parts : (o : Option (Bytes × Bytes)) → split_once b':' s ≡ o → parse_digest s ≢ panicked
    by_parts none q = unfold parse_digest in rw (q, parse_digest) (λ e. cc)
    by_parts (some (algorithm, encoded)) q =
        unfold parse_digest in rw (q, parse_digest) (by_encoded algorithm encoded q)
