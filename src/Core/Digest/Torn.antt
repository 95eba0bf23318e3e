-- ===== src/Core/Digest/Torn.antt =====
-- Exactly when the parser of digests panics: at the first slice that ends inside a character.
use summ.Prelude.{
  ℕ, zero, suc, ◌*◌, ◌<◌, ◌≤◌, ◌==◌, ◌≡◌, ◌↔◌, ◌⊎◌, inl, inr, refl, ap, sym, ◌∙◌, Bool, true, false,
  Option, none, some, [], ◌∷◌, ◌++◌, arith, Bytes, length, bytes_eq, bytes_eq→eq, codes, Bool-cases,
}
use summ.Core.Utf8.{is_char_boundary}
use summ.Core.Digest.{
  Digest, sha256, sha512, split_once, from_str_radix, unhex_slots, unhex, of_parts, from_str,
  Parsed, ok, invalid_digest, panic, map_parsed, fill, missing_separator, unsupported_algorithm,
}
use summ.Core.Digest.Panics.{split_once_sound}

-- Pairs of bytes that each read as a number.
abbrev pub IsHexPairs : Bytes → Type 0
IsHexPairs [] = Unit
IsHexPairs (x ∷ []) = ⊥
IsHexPairs (x ∷ y ∷ s) = ((b : ℕ) × (from_str_radix x y ≡ some b)) × IsHexPairs s

-- Behind pairs that read, a pair whose end is inside a character.
abbrev pub IsTorn : Bytes → Type 0
IsTorn encoded =
    (before : Bytes) × (x : ℕ) × (y : ℕ) × (z : ℕ) × (rest : Bytes) × (encoded
      ≡ before ++ x ∷ y ∷ z ∷ rest)
    × IsHexPairs before
    × (0x80 ≤ z)
    × (z < 0xc0)

not_boundary :
    (s : Bytes)
    → is_char_boundary s ≡ false
    → (z : ℕ) × (rest : Bytes) × (s ≡ z ∷ rest) × (0x80 ≤ z) × (z < 0xc0)
not_boundary [] h = unfold is_char_boundary in absurd (cc h)
not_boundary (z ∷ rest) h =
    let h' : is_char_boundary (z ∷ rest) ≡ false = h in
    unfold is_char_boundary in (z, rest, refl, ground arith, ground arith)

map_parsed-panic {ℓ κ} :
    {A : Type ℓ} {B : Type κ} (f : A → B) (p : Parsed A) → map_parsed f p ≡ panic → p ≡ panic
map_parsed-panic f (ok a) h = absurd (cc h)
map_parsed-panic f (invalid_digest e) h = absurd (cc h)
map_parsed-panic f panic h = refl

unhex_slots-IsTorn : (n : ℕ) (s : Bytes) → length s ≡ n * 2 → unhex_slots s ≡ panic → IsTorn s
unhex_slots-IsTorn zero [] e h = unfold unhex_slots in absurd (cc h)
unhex_slots-IsTorn zero (x ∷ s) e h = absurd (omega arith)
unhex_slots-IsTorn (suc n) [] e h = absurd (omega arith)
unhex_slots-IsTorn (suc n) (x ∷ []) e h = absurd (omega arith)
unhex_slots-IsTorn (suc n) (x ∷ y ∷ s) e h =
    by_end (is_char_boundary s) refl (from_str_radix x y) refl
      (unhex_slots-IsTorn n s (omega arith)) (unfold unhex_slots in h)
  where
    by_end :
        (end : Bool)
        → is_char_boundary s ≡ end
        → (o : Option ℕ) → from_str_radix x y ≡ o
        → (unhex_slots s ≡ panic → IsTorn s)
        → fill end o (unhex_slots s) ≡ panic
        → IsTorn (x ∷ y ∷ s)
    by_end false eb o eo ih q =
        let (z, rest, same, lo, hi) = not_boundary s eb in
        ([], x, y, z, rest, ap (λ t. x ∷ y ∷ t) same, tt, lo, hi)
    by_end true eb none eo ih q = absurd (cc q)
    by_end true eb (some b) eo ih q =
        let (before, x', y', z, rest, same, hex, lo, hi) =
          ih (map_parsed-panic (λ bs. b ∷ bs) (unhex_slots s) q) in
        (x ∷ y ∷ before, x', y', z, rest, ap (λ t. x ∷ y ∷ t) same, ((b, eo), hex), lo, hi)

torn_slots :
    (before : Bytes) (x y z : ℕ) (rest : Bytes)
    → IsHexPairs before
    → 0x80 ≤ z
    → z < 0xc0
    → unhex_slots (before ++ x ∷ y ∷ z ∷ rest) ≡ panic
torn_slots [] x y z rest h lo hi =
    let inside : is_char_boundary (z ∷ rest) ≡ false = unfold is_char_boundary in ground arith in
    unfold unhex_slots in rw inside refl
torn_slots (a ∷ []) x y z rest h lo hi = absurd h
torn_slots (a ∷ b ∷ before) x y z rest ((n, radix), hex) lo hi =
    behind (torn_slots before x y z rest hex lo hi)
  where
    tail : Bytes
    tail = before ++ x ∷ y ∷ z ∷ rest

    by_end : (end : Bool) → fill end (some n) panic ≡ panic
    by_end true = refl
    by_end false = refl

    behind : unhex_slots tail ≡ panic → unhex_slots (a ∷ b ∷ tail) ≡ panic
    behind torn = unfold unhex_slots in rw (radix, torn) (by_end (is_char_boundary tail))

-- The algorithms, and the bytes of their digests.
abbrev pub IsAlgorithm : Bytes → ℕ → Type 0
IsAlgorithm algo n = ((algo ≡ codes "sha256") × (n ≡ 32)) ⊎ ((algo ≡ codes "sha512") × (n ≡ 64))

abbrev pub IsTornDigest : Bytes → Type 0
IsTornDigest s =
    (algo : Bytes) × (encoded : Bytes) × (n : ℕ) × (s ≡ algo ++ b':' ∷ encoded)
    × IsAlgorithm algo n
    × (length encoded ≡ n * 2)
    × IsTorn encoded

unhex-IsTorn : (n : ℕ) (s : Bytes) → unhex n s ≡ panic → (length s ≡ n * 2) × IsTorn s
unhex-IsTorn n s h = elim (Bool-cases (length s == n * 2)) [
  | inl e ↦
      let len : length s ≡ n * 2 = ground arith in
      let slots : unhex_slots s ≡ panic =
        (let h' : unhex n s ≡ panic = h in unfold unhex in ground arith) in
      (len, unhex_slots-IsTorn n s len slots)
  | inr e ↦ absurd (unfold unhex in ground arith)
]

torn_unhex : (n : ℕ) (s : Bytes) → length s ≡ n * 2 → IsTorn s → unhex n s ≡ panic
torn_unhex n s len (before, x, y, z, rest, same, hex, lo, hi) =
    let e : (length s == n * 2) ≡ true = ground arith in
    let slots : unhex_slots s ≡ panic =
      ap unhex_slots same ∙ torn_slots before x y z rest hex lo hi in
    unfold unhex in rw (e, slots) refl

of_parts_sha256 :
    (algo s : Bytes)
    → bytes_eq algo (codes "sha256") ≡ true
    → of_parts algo s ≡ map_parsed sha256 (unhex 32 s)
unfolding of_parts
of_parts_sha256 algo s e = rw e

of_parts_sha512 :
    (algo s : Bytes)
    → bytes_eq algo (codes "sha256") ≡ false
    → bytes_eq algo (codes "sha512") ≡ true
    → of_parts algo s ≡ map_parsed sha512 (unhex 64 s)
unfolding of_parts
of_parts_sha512 algo s e q = rw (e, q)

of_parts_other :
    (algo s : Bytes)
    → bytes_eq algo (codes "sha256") ≡ false
    → bytes_eq algo (codes "sha512") ≡ false
    → of_parts algo s ≡ invalid_digest (unsupported_algorithm algo)
unfolding of_parts
of_parts_other algo s e q = rw (e, q)

of_parts-IsTorn :
    (algo s : Bytes)
    → of_parts algo s ≡ panic
    → (n : ℕ) × IsAlgorithm algo n × (length s ≡ n * 2) × IsTorn s
of_parts-IsTorn algo s h = elim (Bool-cases (bytes_eq algo (codes "sha256"))) [
  | inl a ↦
      let (len, torn) =
        unhex-IsTorn 32 s
          (map_parsed-panic sha256 (unhex 32 s) (sym (of_parts_sha256 algo s a) ∙ h)) in
      (32, inl (bytes_eq→eq algo (codes "sha256") a, refl), len, torn)
  | inr a ↦ elim (Bool-cases (bytes_eq algo (codes "sha512"))) [
    | inl b ↦
        let (len, torn) =
          unhex-IsTorn 64 s
            (map_parsed-panic sha512 (unhex 64 s) (sym (of_parts_sha512 algo s a b) ∙ h)) in
        (64, inr (bytes_eq→eq algo (codes "sha512") b, refl), len, torn)
    | inr b ↦ absurd (cc (of_parts_other algo s a b, h))
  ]
]

torn_from_str :
    (algo encoded : Bytes) (n : ℕ)
    → IsAlgorithm algo n
    → length encoded ≡ n * 2
    → IsTorn encoded
    → from_str (algo ++ b':' ∷ encoded) ≡ panic
unfolding from_str of_parts
torn_from_str algo encoded n (inl (a, m)) len torn =
    rw (a, torn_unhex 32 encoded (len ∙ ap (λ k. k * 2) m) torn) refl
torn_from_str algo encoded n (inr (a, m)) len torn =
    rw (a, torn_unhex 64 encoded (len ∙ ap (λ k. k * 2) m) torn) refl

-- `from_str` panics exactly on text that names sha256 or sha512, whose encoded part has the right number of
-- bytes, and in which, behind pairs that each read as a number, a pair is followed by a byte that continues
-- a character: the slice of that pair ends inside the character.
pub from_str-panic : (s : Bytes) → (from_str s ≡ panic) ↔ IsTornDigest s
from_str-panic s = (to, from)
  where
    found :
        (o : Option (Bytes × Bytes))
        → split_once b':' s ≡ o
        → (elim o as (λ x. Parsed Digest) [
          | none ↦ invalid_digest missing_separator
          | some (a, b) ↦ of_parts a b
        ])
          ≡ panic
        → IsTornDigest s
    found none e h = absurd (cc h)
    found (some (a, b)) e h =
        let (n, known, len, torn) = of_parts-IsTorn a b h in
        (a, b, n, split_once_sound b':' s a b e, known, len, torn)

    to : from_str s ≡ panic → IsTornDigest s
    to h = found (split_once b':' s) refl (unfold from_str in h)

    from : IsTornDigest s → from_str s ≡ panic
    from (algo, encoded, n, same, known, len, torn) =
        ap from_str same ∙ torn_from_str algo encoded n known len torn
