-- ===== src/Core/Keys/Read.antt =====
-- The components of a key, read back from the front of what is left of it: the description of the
-- layout that the key functions are held against.
use summ.Prelude.{
  ℕ, ◌^◌, ◌<◌, ◌≡◌, ◌≢◌, refl, ap, sym, ◌∙◌, Option, none, some, [], ◌∷◌, ◌++◌, arith, Bytes, All,
  length, take, drop, leb, if◌then◌else◌, take-append_self, drop-append_self, length-append,
  append-nil,
}
use summ.Prelude.BigEndian.{be, from_be, length-be, from_be-be}
use summ.Core.Digest.{Digest, IsDigest, encode, decode, split_once}
use summ.Core.Digest.Wire.{decode-encode, length-encode}
use summ.Core.Timestamp.{Timestamp, IsTimestamp, from_millis}
use summ.Core.Keys.History.{complement, desc_time}

-- A number of `w` bytes.
pub read_be : ℕ → Bytes → Option (ℕ × Bytes)
read_be w s = if leb w (length s) then some (from_be (take w s), drop w s) else none

pub read_digest : Bytes → Option (Digest × Bytes)
read_digest s = elim (decode s) [ none ↦ none | some (d, n) ↦ some (d, drop n s) ]

-- A tag up to its separator.
pub read_tag : Bytes → Option (Bytes × Bytes)
read_tag s = split_once 0 s

pub read_time : Bytes → Option (Timestamp × Bytes)
read_time s = elim (read_be 8 s) [
  | none ↦ none
  | some (n, rest) ↦ some (from_millis (complement n), rest)
]

-- The last component was read: nothing is left.
abbrev pub at_end {ℓ} : {A : Type ℓ} → Bytes → A → Option A
at_end [] a = some a
at_end (b ∷ s) a = none

-- Reading a component and going on with it.
abbrev pub read_then {ℓ κ} :
    {A : Type ℓ} {B : Type κ} → Option (A × Bytes) → (A → Bytes → Option B) → Option B
read_then none f = none
read_then (some (a, rest)) f = f a rest

pub read_then_inv {ℓ κ} :
    {A : Type ℓ} {B : Type κ} (o : Option (A × Bytes)) (f : A → Bytes → Option B) {b : B}
    → read_then o f ≡ some b
    → (a : A) × (rest : Bytes) × (f a rest ≡ some b)
read_then_inv none f h = cc
read_then_inv (some (a, rest)) f h = (a, rest, h)

pub at_end_inv {ℓ} : {A : Type ℓ} (s : Bytes) (a k : A) → at_end s a ≡ some k → k ≡ a
at_end_inv [] a k h = cc
at_end_inv (b ∷ s) a k h = cc

abbrev pub LacksNul : Bytes → Type 0
LacksNul = All (λ b. b ≢ 0)

pub read_be-be : (w n : ℕ) (s : Bytes) → n < 256 ^ w → read_be w (be w n ++ s) ≡ some (n, s)
unfolding read_be
read_be-be w n s h =
    rw
      (
        take-append_self (be w n) s w (length-be w n),
        drop-append_self (be w n) s w (length-be w n),
        from_be-be w n h,
      )
      (ground (arith, length-append (be w n) s, length-be w n))

pub read_be-be_last : (w n : ℕ) → n < 256 ^ w → read_be w (be w n) ≡ some (n, [])
read_be-be_last w n h = ap (read_be w) (sym (append-nil (be w n))) ∙ read_be-be w n [] h

pub read_digest-encode :
    (d : Digest) (s : Bytes) → IsDigest d → read_digest (encode d ++ s) ≡ some (d, s)
unfolding read_digest
read_digest-encode d s h =
    rw (decode-encode d s h, read_digest) (rw (drop-append_self (encode d) s _ (length-encode d)))

pub read_digest-encode_last : (d : Digest) → IsDigest d → read_digest (encode d) ≡ some (d, [])
read_digest-encode_last d h =
    ap read_digest (sym (append-nil (encode d))) ∙ read_digest-encode d [] h

pub read_tag-append : (t s : Bytes) → LacksNul t → read_tag (t ++ (0 ∷ s)) ≡ some (t, s)
unfolding read_tag split_once
read_tag-append [] s h = refl
read_tag-append (x ∷ t) s h = ground (arith, read_tag-append t s h.1)

pub complement_twice :
    (t : Timestamp) → IsTimestamp t → from_millis (complement (complement t.millis)) ≡ t
unfolding complement from_millis
complement_twice t h = ground arith

pub read_time-desc_time :
    (t : Timestamp) (s : Bytes) → IsTimestamp t → read_time (desc_time t ++ s) ≡ some (t, s)
unfolding read_time desc_time
read_time-desc_time t s h =
    rw (read_be-be 8 (complement t.millis) s (unfold complement in omega arith), read_time)
      (rw (complement_twice t h))
