-- ===== src/Registry/Cosign/Total.antt =====
-- On an ASCII tag the search for a subject returns, with a subject or without.
use summ.Prelude.{
  ℕ, ◌<◌, ◌==◌, ◌≡◌, ◌≢◌, refl, subst, inl, inr, Option, none, some, [], ◌∷◌, ◌++◌, Bytes,
  if◌then◌else◌, arith, Bool-cases, All-append,
}
use summ.Core.Utf8.{AllAscii}
use summ.Core.Digest.{Digest, Parsed, ok, invalid_digest, panic, split_once, from_str}
use summ.Core.Digest.Panics.{from_str_ascii, split_once_sound}
use summ.Registry.Outcome.{Outcome, done}
use summ.Registry.Cosign.{rsplit_once, is_artifact_suffix, parsed_ok, subject_of_artifact_tag}

AllAscii-split : (a b : Bytes) → AllAscii (a ++ b) → AllAscii a × AllAscii b
AllAscii-split [] b h = (tt, h)
AllAscii-split (x ∷ a) b h = let (p, q) = AllAscii-split a b h.1 in ((h.0, p), q)

rsplit_once_sound : (c : ℕ) (s a b : Bytes) → rsplit_once c s ≡ some (a, b) → s ≡ a ++ c ∷ b
rsplit_once_sound c [] a b e = unfold rsplit_once in absurd (cc e)
rsplit_once_sound c (x ∷ s) a b e =
    step (rsplit_once c s) (unfold rsplit_once in e) (rsplit_once_sound c s)
  where
    step :
        (o : Option (Bytes × Bytes))
        → (elim o as (λ x. Option (Bytes × Bytes)) [
          | some (p, q) ↦ some (x ∷ p, q)
          | none ↦ if x == c then some ([], s) else none
        ])
          ≡ some (a, b)
        → ((p q : Bytes) → o ≡ some (p, q) → s ≡ p ++ c ∷ q)
        → x ∷ s ≡ a ++ c ∷ b
    step none u ih = ground arith
    step (some (p, q)) u ih = ground (arith, ih p q refl)

parsed_ok-done : (p : Parsed Digest) → p ≢ panic → (o : Option Digest) × (parsed_ok p ≡ done o)
parsed_ok-done (ok d) h = (some d, refl)
parsed_ok-done (invalid_digest e) h = (none, refl)
parsed_ok-done panic h = absurd (h refl)

-- On an ASCII tag the subject is found or not; the digest's parser cannot panic.
pub subject_ascii :
    (t : Bytes) → AllAscii t → (o : Option Digest) × (subject_of_artifact_tag t ≡ done o)
subject_ascii t h = by_suffix (rsplit_once b'.' t) refl
  where
    by_digest :
        (head : Bytes)
        → AllAscii head
        → (o : Option (Bytes × Bytes)) → split_once b'-' head ≡ o
        → (r : Option Digest) × ((elim o as (λ x. Outcome (Option Digest)) [
          | none ↦ done none
          | some (algorithm, encoded) ↦ parsed_ok (from_str (algorithm ++ b':' ∷ encoded))
        ])
            ≡ done r)
    by_digest head a none q = (none, refl)
    by_digest head a (some (algorithm, encoded)) q =
        let (a1, a2) =
          AllAscii-split algorithm (b'-' ∷ encoded)
            (subst AllAscii (split_once_sound b'-' head algorithm encoded q) a) in
        parsed_ok-done (from_str (algorithm ++ b':' ∷ encoded)) (
          from_str_ascii (algorithm ++ b':' ∷ encoded)
            (All-append (λ b. b < 0x80) algorithm (b':' ∷ encoded) a1 (omega arith, a2.1)))

    by_suffix :
        (o : Option (Bytes × Bytes))
        → rsplit_once b'.' t ≡ o
        → (r : Option Digest) × (subject_of_artifact_tag t ≡ done r)
    by_suffix none q =
        (none, (unfold subject_of_artifact_tag in rw (q, subject_of_artifact_tag) refl))
    by_suffix (some (head, suffix)) q = elim (Bool-cases (is_artifact_suffix suffix)) [
      | inl e ↦
          let (a1, a2) =
            AllAscii-split head (b'.' ∷ suffix)
              (subst AllAscii (rsplit_once_sound b'.' t head suffix q) h) in
          let (r, found) = by_digest head a1 (split_once b'-' head) refl in
          (r, (unfold subject_of_artifact_tag in rw (q, subject_of_artifact_tag) (rw e found)))
      | inr e ↦
          (none, (unfold subject_of_artifact_tag in rw (q, subject_of_artifact_tag) (rw e refl)))
    ]
