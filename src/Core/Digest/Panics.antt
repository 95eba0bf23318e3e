-- ===== src/Core/Digest/Panics.antt =====
-- What `from_str` accepts: its results are digests, and ASCII text never makes it panic.
use summ.Prelude.{
  ℕ, zero, suc, ◌*◌, ◌<◌, ◌≡◌, ◌≢◌, refl, ap, sym, ◌∙◌, Bool, true, false, Option, none, some, [],
  ◌∷◌, ◌++◌, arith, Bytes, length, ◌==◌, bytes_eq, AllBytes, codes, Bool-cases, map_option,
  if◌then◌else◌, ◌⊎◌, inl, inr, Option-cases,
}
use summ.Core.Utf8.{AllAscii, is_char_boundary}
use summ.Core.Digest.{
  Digest, sha256, sha512, IsDigest, split_once, from_str_radix, unhex_slots, unhex, of_parts,
  from_str, Parsed, ok, invalid_digest, panic, map_parsed, fill, missing_separator,
  unsupported_algorithm,
}

from_str_radix-lt : (x y b : ℕ) → from_str_radix x y ≡ some b → b < 256
unfolding from_str_radix
from_str_radix-lt x y b h = ground arith

boundary_ascii : (s : Bytes) → AllAscii s → is_char_boundary s ≡ true
unfolding is_char_boundary
boundary_ascii [] h = refl
boundary_ascii (b ∷ s) h = ground arith

-- A slot that was filled, and the slots behind it.
fill_inv :
    (end : Bool) (o : Option ℕ) (later : Parsed Bytes) (out : Bytes)
    → fill end o later ≡ ok out
    → (b : ℕ) × (bs : Bytes) × (out ≡ b ∷ bs) × (o ≡ some b) × (later ≡ ok bs)
fill_inv false o later out h = cc
fill_inv true none later out h = cc
fill_inv true (some b) (ok bs) out h = (b, bs, cc, refl, refl)
fill_inv true (some b) (invalid_digest e) out h = cc
fill_inv true (some b) panic out h = cc

fill-ne-panic : (o : Option ℕ) (later : Parsed Bytes) → later ≢ panic → fill true o later ≢ panic
fill-ne-panic none later h = λ e. cc
fill-ne-panic (some b) (ok bs) h = λ e. cc
fill-ne-panic (some b) (invalid_digest r) h = λ e. cc
fill-ne-panic (some b) panic h = λ e. h refl

-- The slots of an array of `n` bytes.
unhex_slots_sound :
    (n : ℕ) (s out : Bytes)
    → length s ≡ n * 2
    → unhex_slots s ≡ ok out
    → (length out ≡ n) × AllBytes out
unhex_slots_sound zero [] [] e h = (refl, tt)
unhex_slots_sound zero [] (b ∷ out) e h = unfold unhex_slots in cc
unhex_slots_sound zero (x ∷ s) out e h = absurd (omega arith)
unhex_slots_sound (suc n) [] out e h = absurd (omega arith)
unhex_slots_sound (suc n) (x ∷ []) out e h = absurd (omega arith)
unhex_slots_sound (suc n) (x ∷ y ∷ s) out e h =
    let (b, bs, eq, radix, later) =
      fill_inv (is_char_boundary s) (from_str_radix x y) (unhex_slots s) out
        (unfold unhex_slots in h) in
    let (len, bytes) = unhex_slots_sound n s bs (omega arith) later in
    rw eq (ap suc len, (from_str_radix-lt x y b radix, bytes))

unhex_slots_ascii : (n : ℕ) (s : Bytes) → length s ≡ n * 2 → AllAscii s → unhex_slots s ≢ panic
unhex_slots_ascii zero [] e h = unfold unhex_slots in ground arith
unhex_slots_ascii zero (x ∷ s) e h = absurd (omega arith)
unhex_slots_ascii (suc n) [] e h = absurd (omega arith)
unhex_slots_ascii (suc n) (x ∷ []) e h = absurd (omega arith)
unhex_slots_ascii (suc n) (x ∷ y ∷ s) e h = slot (unhex_slots_ascii n s (omega arith) h.1.1)
  where
    slot : unhex_slots s ≢ panic → unhex_slots (x ∷ y ∷ s) ≢ panic
    slot later =
        unfold unhex_slots in
        rw (boundary_ascii s h.1.1) (fill-ne-panic (from_str_radix x y) (unhex_slots s) later)

map_parsed_inv {ℓ κ} :
    {A : Type ℓ} {B : Type κ} (f : A → B) (p : Parsed A) {b : B}
    → map_parsed f p ≡ ok b
    → (a : A) × (p ≡ ok a) × (b ≡ f a)
map_parsed_inv f (ok a) h = (a, refl, cc)
map_parsed_inv f (invalid_digest e) h = cc
map_parsed_inv f panic h = cc

map_parsed-ne-panic {ℓ κ} :
    {A : Type ℓ} {B : Type κ} (f : A → B) (p : Parsed A) → p ≢ panic → map_parsed f p ≢ panic
map_parsed-ne-panic f (ok a) h = λ e. cc
map_parsed-ne-panic f (invalid_digest e) h = λ q. cc
map_parsed-ne-panic f panic h = λ e. h refl

unhex_sound : (n : ℕ) (s out : Bytes) → unhex n s ≡ ok out → (length out ≡ n) × AllBytes out
unhex_sound n s out h = elim (Bool-cases (length s == n * 2)) [
  | inl e ↦
      unhex_slots_sound n s out (ground arith)
        (let h' : unhex n s ≡ ok out = h in unfold unhex in ground arith)
  | inr e ↦ absurd (unfold unhex in ground arith)
]

unhex_ascii : (n : ℕ) (s : Bytes) → AllAscii s → unhex n s ≢ panic
unhex_ascii n s h = elim (Bool-cases (length s == n * 2)) [
  | inl e ↦ unfold unhex in rw e (unhex_slots_ascii n s (ground arith) h)
  | inr e ↦ unfold unhex in rw e (λ q. cc)
]

-- The three ways of the `match` on the algorithm.
of_parts_cases :
    (algo s : Bytes)
    → (of_parts algo s ≡ map_parsed sha256 (unhex 32 s))
      ⊎ (of_parts algo s ≡ map_parsed sha512 (unhex 64 s))
      ⊎ (of_parts algo s ≡ invalid_digest (unsupported_algorithm algo))
unfolding of_parts
of_parts_cases algo s = elim (Bool-cases (bytes_eq algo (codes "sha256"))) [
  | inl e ↦ inl (rw e)
  | inr e ↦ inr (elim (Bool-cases (bytes_eq algo (codes "sha512"))) [
    | inl q ↦ inl (rw (e, q))
    | inr q ↦ inr (rw (e, q))
  ])
]

of_parts-IsDigest : (algo s : Bytes) (d : Digest) → of_parts algo s ≡ ok d → IsDigest d
of_parts-IsDigest algo s d h = elim (of_parts_cases algo s) [
  | inl e ↦
      let (b, q, r) = map_parsed_inv sha256 (unhex 32 s) (sym e ∙ h) in rw r (unhex_sound 32 s b q)
  | inr (inl e) ↦
      let (b, q, r) = map_parsed_inv sha512 (unhex 64 s) (sym e ∙ h) in rw r (unhex_sound 64 s b q)
  | inr (inr e) ↦ absurd (cc (h, e))
]

pub of_parts_ascii : (algo s : Bytes) → AllAscii s → of_parts algo s ≢ panic
of_parts_ascii algo s h = elim (of_parts_cases algo s) [
  | inl e ↦ rw e (map_parsed-ne-panic sha256 (unhex 32 s) (unhex_ascii 32 s h))
  | inr (inl e) ↦ rw e (map_parsed-ne-panic sha512 (unhex 64 s) (unhex_ascii 64 s h))
  | inr (inr e) ↦ rw e (λ q. cc)
]

-- The text around the first `c`.
pub split_once_sound : (c : ℕ) (s a b : Bytes) → split_once c s ≡ some (a, b) → s ≡ a ++ c ∷ b
split_once_sound c [] a b e = unfold split_once in absurd (cc e)
split_once_sound c (x ∷ s) a b e =
    step (split_once c s) (unfold split_once in e) (split_once_sound c s)
  where
    step :
        (o : Option (Bytes × Bytes))
        → if◌then◌else◌ {A = Option (Bytes × Bytes)}
            (x == c)
            (some ([], s))
            (map_option (λ (p : Bytes × Bytes). (x ∷ p.0, p.1)) o)
          ≡ some (a, b)
        → ((p q : Bytes) → o ≡ some (p, q) → s ≡ p ++ c ∷ q)
        → x ∷ s ≡ a ++ c ∷ b
    step none u ih = ground arith
    step (some (p, q)) u ih = ground (arith, ih p q refl)

-- What stands behind the first `c`, by how the first byte compares.
split_once_inv :
    (c x : ℕ) (s a b : Bytes)
    → split_once c (x ∷ s) ≡ some (a, b)
    → (b ≡ s) ⊎ ((a' : Bytes) × (split_once c s ≡ some (a', b)))
split_once_inv c x s a b h = found (x == c) (split_once c s) (unfold split_once in h)
  where
    found :
        (t : Bool) (o : Option (Bytes × Bytes))
        → if◌then◌else◌ {A = Option (Bytes × Bytes)} t
            (some ([], s))
            (map_option (λ p. (x ∷ p.0, p.1)) o)
          ≡ some (a, b)
        → (b ≡ s) ⊎ ((a' : Bytes) × (o ≡ some (a', b)))
    found true o e = inl (cc)
    found false none e = absurd (cc)
    found false (some (a', b')) e = inr (a', cc)

split_once_ascii : (c : ℕ) (s a b : Bytes) → split_once c s ≡ some (a, b) → AllAscii s → AllAscii b
split_once_ascii c [] a b e h = unfold split_once in absurd (cc e)
split_once_ascii c (x ∷ s) a b e h = elim (split_once_inv c x s a b e) [
  | inl q ↦ rw q h.1
  | inr (a', q) ↦ split_once_ascii c s a' b q h.1
]

-- `from_str` returns only digests: arrays of the right length, of bytes.
pub from_str-IsDigest : (s : Bytes) (d : Digest) → from_str s ≡ ok d → IsDigest d
from_str-IsDigest s d h = found (split_once b':' s) (unfold from_str in h)
  where
    found :
        (o : Option (Bytes × Bytes))
        → (elim o [ none ↦ invalid_digest missing_separator | some (a, b) ↦ of_parts a b ]) ≡ ok d
        → IsDigest d
    found none e = absurd (cc e)
    found (some (a, b)) e = of_parts-IsDigest a b d e

-- On ASCII text `from_str` gives a digest or an error, and never panics.
pub from_str_ascii : (s : Bytes) → AllAscii s → from_str s ≢ panic
unfolding from_str
from_str_ascii s h = elim (Option-cases (split_once b':' s)) [
  | inl e ↦ rw (e, from_str) (λ q. cc)
  | inr ((a, b), e) ↦ rw (e, from_str) (of_parts_ascii a b (split_once_ascii b':' s a b e h))
]
