-- ===== src/Core/Digest/Wire.antt =====
-- The key encoding of digests: round trip, prefix freedom, order.
use Prim.Native.Nat.{Ordering}
use Prim.Native.Nat.Ordering.{lt, eq, gt}
use mathlib.Core.Path.{ap₂, ◌∙◌, subst₃}
use mathlib.Core.List.{append-nil}
use summ.Prelude.{
  ℕ, suc, ◌≤◌, ◌≡◌, ◌⊎◌, inl, inr, refl, ap, sym, some, [], ◌∷◌, ◌++◌, arith, Bytes, length, take,
  drop, length-append, take-append_self, take-append-drop, length-take, All-take, append_cancel,
  AllBytes,
}
use summ.Prelude.Lex.{lex, then_by, lex-append}
use summ.Core.Digest.{
  Digest, sha256, sha512, IsDigest, encode, decode, encoded_len, encoded_len_of, algo_byte,
}

-- Decoding what was encoded gives the digest and its encoded length, whatever bytes follow.
pub decode-encode :
    (d : Digest) (rest : Bytes) → IsDigest d → decode (encode d ++ rest) ≡ some (d, encoded_len d)
unfolding decode encode encoded_len
decode-encode (sha256 b) rest h =
    ground (arith, length-append b rest, take-append_self b rest 32 h.0)
decode-encode (sha512 b) rest h =
    ground (arith, length-append b rest, take-append_self b rest 64 h.0)

pub decode-encode_last : (d : Digest) → IsDigest d → decode (encode d) ≡ some (d, encoded_len d)
decode-encode_last d h = ap decode (sym (append-nil (encode d))) ∙ decode-encode d [] h

drop_head : (a : ℕ) (rest : Bytes) (n : ℕ) → drop (suc n) (a ∷ rest) ≡ drop n rest
unfolding drop
drop_head a rest n = refl

-- A digest and a count describe the head of a buffer.
abbrev Heads : Bytes → Digest → ℕ → Type 0
Heads buf d n = IsDigest d × (buf ≡ encode d ++ drop n buf) × (n ≡ encoded_len d) × (n ≤ length buf)

Heads-sha256 :
    (rest : Bytes) → AllBytes rest → 32 ≤ length rest → Heads (1 ∷ rest) (sha256 (take 32 rest)) 33
unfolding encode encoded_len
Heads-sha256 rest hb h = (
  (length-take 32 rest h, All-take _ 32 rest hb),
  rw (drop_head 1 rest 32, take-append-drop 32 rest),
  omega (arith, length-take 32 rest h),
  omega arith,
)

Heads-sha512 :
    (rest : Bytes) → AllBytes rest → 64 ≤ length rest → Heads (2 ∷ rest) (sha512 (take 64 rest)) 65
unfolding encode encoded_len
Heads-sha512 rest hb h = (
  (length-take 64 rest h, All-take _ 64 rest hb),
  rw (drop_head 2 rest 64, take-append-drop 64 rest),
  omega (arith, length-take 64 rest h),
  omega arith,
)

decode_inv :
    (a : ℕ) (rest : Bytes) (d : Digest) (n : ℕ)
    → decode (a ∷ rest) ≡ some (d, n)
    → ((a ≡ 1) × (32 ≤ length rest) × (d ≡ sha256 (take 32 rest)) × (n ≡ 33))
      ⊎ ((a ≡ 2) × (64 ≤ length rest) × (d ≡ sha512 (take 64 rest)) × (n ≡ 65))
unfolding decode
decode_inv a rest d n h = ground arith

-- What decodes is the encoding of a digest with the right number of bytes: `decode` accepts nothing
-- else, and the count that it returns is where the rest of the buffer begins.
pub decode_sound :
    (buf : Bytes) (d : Digest) (n : ℕ)
    → AllBytes buf
    → decode buf ≡ some (d, n)
    → IsDigest d × (buf ≡ encode d ++ drop n buf) × (n ≡ encoded_len d) × (n ≤ length buf)
decode_sound [] d n hb h = unfold decode in cc
decode_sound (a ∷ rest) d n hb h = elim (decode_inv a rest d n h) [
  | inl (ea, room, ed, en) ↦
      subst₃ (λ x y z. Heads (x ∷ rest) y z) (sym ea) (sym ed) (sym en)
        (Heads-sha256 rest hb.1 room)
  | inr (ea, room, ed, en) ↦
      subst₃ (λ x y z. Heads (x ∷ rest) y z) (sym ea) (sym ed) (sym en)
        (Heads-sha512 rest hb.1 room)
]

-- The length is known from the first byte alone.
pub encoded_len_of-encode :
    (d : Digest) → IsDigest d → encoded_len_of (algo_byte d) ≡ some (encoded_len d)
unfolding encoded_len_of encoded_len encode
encoded_len_of-encode (sha256 b) h = ground arith
encoded_len_of-encode (sha512 b) h = ground arith

pub length-encode : (d : Digest) → length (encode d) ≡ encoded_len d
unfolding encoded_len encode
length-encode (sha256 b) = ground arith
length-encode (sha512 b) = ground arith

-- No encoding is a proper prefix of another: what stands behind a digest in a key is determined.
pub encode_prefix_free :
    (d e : Digest) (s t : Bytes)
    → IsDigest d
    → IsDigest e
    → encode d ++ s ≡ encode e ++ t
    → (d ≡ e) × (s ≡ t)
unfolding encode
encode_prefix_free (sha256 b) (sha256 c) s t hd he p =
    let q : b ++ s ≡ c ++ t = cc in
    let (same, rest) = append_cancel b c s t (omega arith) q in (ap sha256 same, rest)
encode_prefix_free (sha512 b) (sha512 c) s t hd he p =
    let q : b ++ s ≡ c ++ t = cc in
    let (same, rest) = append_cancel b c s t (omega arith) q in (ap sha512 same, rest)
encode_prefix_free (sha256 b) (sha512 c) s t hd he p = absurd (ground arith)
encode_prefix_free (sha512 b) (sha256 c) s t hd he p = absurd (ground arith)

-- The derived `Ord`: the variant first, then the bytes.
unfoldable pub cmp : Digest → Digest → Ordering
unfolding lex
cmp (sha256 b) (sha256 c) = lex b c
cmp (sha256 b) (sha512 c) = lt
cmp (sha512 b) (sha256 c) = gt
cmp (sha512 b) (sha512 c) = lex b c

-- Keys that agree up to a digest are ordered by the digests, then by what follows.
pub lex-encode :
    (d e : Digest) (s t : Bytes)
    → IsDigest d
    → IsDigest e
    → lex (encode d ++ s) (encode e ++ t) ≡ then_by (cmp d e) (lex s t)
unfolding cmp encode
lex-encode (sha256 b) (sha256 c) s t hd he = unfold lex in lex-append b c s t (omega arith)
lex-encode (sha512 b) (sha512 c) s t hd he = unfold lex in lex-append b c s t (omega arith)
lex-encode (sha256 b) (sha512 c) s t hd he = refl
lex-encode (sha512 b) (sha256 c) s t hd he = refl

then_by-eq : (o : Ordering) → then_by o eq ≡ o
then_by-eq lt = refl
then_by-eq eq = refl
then_by-eq gt = refl

pub lex-encode_last : (d e : Digest) → IsDigest d → IsDigest e → lex (encode d) (encode e) ≡ cmp d e
lex-encode_last d e hd he =
    ap₂ lex (sym (append-nil (encode d))) (sym (append-nil (encode e)))
    ∙ lex-encode d e [] [] hd he
    ∙ (unfold lex in then_by-eq (cmp d e))

-- A digest is never empty, so a shorter key sorts before one that goes on with it.
pub lex-nil-encode : (d : Digest) → lex [] (encode d) ≡ lt
unfolding lex encode
lex-nil-encode d = refl
