-- ===== src/Server/Query/RoundTrip.antt =====
-- A query written from pairs, as a link to the next page writes it, and what the server reads of it.
use summ.Prelude.{
  ℕ, ◌<◌, ◌/◌, ◌%◌, ◌==◌, ◌≡◌, refl, ap, sym, ◌∙◌, Option, none, some, true, false, List, [], ◌∷◌,
  ◌++◌, Bytes, AllBytes, All, Bool-cases, inl, inr, arith,
}
use summ.Core.Utf8.{IsStr}
use summ.Core.Digest.{split_once}
use summ.Server.Reference.{split}
use summ.Server.Query.{
  Pairs, has_escape, is_unreserved, upper_hex_char, escape, query_escape, percent_decode,
  form_decode, pair_of, pairs_of, pairs,
}
use summ.Server.Query.Escapes.{unescaped-query_escape, unescaped_none}

-- Neither of the two separators of a query.
abbrev pub IsClean : Bytes → Type 0
IsClean = All (λ b. ((b == b'&') ≡ false) × ((b == b'=') ≡ false))

IsClean-append : (a b : Bytes) → IsClean a → IsClean b → IsClean (a ++ b)
IsClean-append [] b ha hb = hb
IsClean-append (x ∷ a) b ha hb = (ha.0, IsClean-append a b ha.1 hb)

unreserved_clean : (b : ℕ) → is_unreserved b ≡ true → ((b == b'&') ≡ false) × ((b == b'=') ≡ false)
unfolding is_unreserved
unreserved_clean b u = (ground (arith, u), ground (arith, u))

digit_clean :
    (n : ℕ) → n < 16 → ((upper_hex_char n == b'&') ≡ false) × ((upper_hex_char n == b'=') ≡ false)
unfolding upper_hex_char
digit_clean n k = (ground (arith, k), ground (arith, k))

escape-IsClean : (b : ℕ) → b < 256 → IsClean (escape b)
unfolding escape
escape-IsClean b h = elim (Bool-cases (is_unreserved b)) [
  | inl u ↦ rw u (unreserved_clean b u, tt)
  | inr u ↦ elim (Bool-cases (b == b' ')) [
    | inl space ↦ rw (u, space) ((refl, refl), tt)
    | inr other ↦
        rw (u, other)
          (
            (refl, refl),
            (digit_clean (b / 16) (omega arith), (digit_clean (b % 16) (omega arith), tt)),
          )
  ]
]

query_escape-IsClean : (s : Bytes) → AllBytes s → IsClean (query_escape s)
unfolding query_escape
query_escape-IsClean [] h = tt
query_escape-IsClean (b ∷ s) h =
    IsClean-append (escape b) (query_escape s) (escape-IsClean b h.0) (query_escape-IsClean s h.1)

split_once-clean : (a b : Bytes) → IsClean a → split_once b'=' (a ++ b'=' ∷ b) ≡ some (a, b)
unfolding split_once
split_once-clean [] b h = refl
split_once-clean (x ∷ a) b h = rw ((h.0).1, split_once-clean a b h.1) refl

-- A part of a query, and a query of several.
abbrev pub pair_text : Bytes × Bytes → Bytes
pair_text (k, v) = query_escape k ++ b'=' ∷ query_escape v

abbrev pub query_text : Pairs → Bytes
query_text [] = []
query_text (p ∷ []) = pair_text p
query_text (p ∷ q ∷ ps) = pair_text p ++ b'&' ∷ query_text (q ∷ ps)

-- No separator of parts.
abbrev IsPart : Bytes → Type 0
IsPart = All (λ b. (b == b'&') ≡ false)

IsPart-pair : (a b : Bytes) → IsClean a → IsClean b → IsPart (a ++ b'=' ∷ b)
IsPart-pair [] b ha hb = (refl, clean b hb)
  where
    clean : (s : Bytes) → IsClean s → IsPart s
    clean [] h = tt
    clean (x ∷ s) h = ((h.0).0, clean s h.1)
IsPart-pair (x ∷ a) b ha hb = ((ha.0).0, IsPart-pair a b ha.1 hb)

split_last : (a : Bytes) → IsPart a → split b'&' a ≡ (a, [])
unfolding split
split_last [] h = refl
split_last (x ∷ a) h = rw (h.0, split_last a h.1) refl

split_part :
    (a s : Bytes) → IsPart a → split b'&' (a ++ b'&' ∷ s) ≡ (a, (split b'&' s).0 ∷ (split b'&' s).1)
unfolding split
split_part [] s h = refl
split_part (x ∷ a) s h = rw (h.0, split_part a s h.1) refl

-- Text in bytes.
abbrev pub IsText : Bytes → Type 0
IsText s = IsStr s × AllBytes s

module _ (lossy : Bytes → Bytes) (lossy_text : (s : Bytes) → IsStr s → lossy s ≡ s) where
  form_decode-query_escape : (s : Bytes) → IsText s → form_decode lossy (query_escape s) ≡ s
  unfolding form_decode percent_decode
  form_decode-query_escape s h = elim (Bool-cases (has_escape true (query_escape s))) [
    | inl e ↦ rw e (ap lossy (unescaped-query_escape s h.1) ∙ lossy_text s h.0)
    | inr e ↦ rw e (sym (unescaped_none (query_escape s) e) ∙ unescaped-query_escape s h.1)
  ]

  pairs_of-part :
      (a b : Bytes) (parts : List Bytes)
      → pairs_of lossy ((a ++ b'=' ∷ b) ∷ parts)
        ≡ pair_of lossy (a ++ b'=' ∷ b) ∷ pairs_of lossy parts
  unfolding pairs_of
  pairs_of-part [] b parts = refl
  pairs_of-part (x ∷ a) b parts = refl

  pair_of-pair_text :
      (k v : Bytes) → IsText k → IsText v → pair_of lossy (pair_text (k, v)) ≡ (k, v)
  unfolding pair_of
  pair_of-pair_text k v hk hv =
      ap
        (λ (o : Option (Bytes × Bytes)). elim o as (λ x. Bytes × Bytes) [
          | some (a, b) ↦ (form_decode lossy a, form_decode lossy b)
          | none ↦ (form_decode lossy (pair_text (k, v)), [])
        ])
        (split_once-clean (query_escape k) (query_escape v) (query_escape-IsClean k hk.1))
      ∙ (ap (λ x. (x, form_decode lossy (query_escape v))) (form_decode-query_escape k hk)
          ∙ ap (λ x. (k, x)) (form_decode-query_escape v hv))

  pairs_of-pair_text :
      (k v : Bytes) (parts : List Bytes)
      → IsText k
      → IsText v
      → pairs_of lossy (pair_text (k, v) ∷ parts) ≡ (k, v) ∷ pairs_of lossy parts
  pairs_of-pair_text k v parts hk hv =
      pairs_of-part (query_escape k) (query_escape v) parts
      ∙ ap (λ p. p ∷ pairs_of lossy parts) (pair_of-pair_text k v hk hv)

  IsPart-pair_text : (k v : Bytes) → IsText k → IsText v → IsPart (pair_text (k, v))
  IsPart-pair_text k v hk hv =
      IsPart-pair (query_escape k) (query_escape v) (query_escape-IsClean k hk.1)
        (query_escape-IsClean v hv.1)

  -- A query written from pairs of texts, each key and value escaped, is read as those pairs, repeats and
  -- order included, whatever the texts hold: separators, signs, spaces or other bytes.
  pub pairs-query_text :
      (ps : Pairs)
      → All (λ (p : Bytes × Bytes). IsText p.0 × IsText p.1) ps
      → pairs lossy (query_text ps) ≡ ps
  unfolding pairs pairs_of split
  pairs-query_text [] h = refl
  pairs-query_text ((k, v) ∷ []) h =
      ap (λ (x : Bytes × List Bytes). pairs_of lossy (x.0 ∷ x.1))
        (split_last (pair_text (k, v)) (IsPart-pair_text k v (h.0).0 (h.0).1))
      ∙ pairs_of-pair_text k v [] (h.0).0 (h.0).1
  pairs-query_text ((k, v) ∷ q ∷ ps) h =
      ap (λ (x : Bytes × List Bytes). pairs_of lossy (x.0 ∷ x.1))
        (split_part (pair_text (k, v)) (query_text (q ∷ ps)) (IsPart-pair_text k v (h.0).0 (h.0).1))
      ∙ pairs_of-pair_text k v _ (h.0).0 (h.0).1
      ∙ ap (λ t. (k, v) ∷ t) (pairs-query_text (q ∷ ps) h.1)
