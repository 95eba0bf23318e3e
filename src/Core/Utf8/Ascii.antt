-- ===== src/Core/Utf8/Ascii.antt =====
-- Text whose characters are ASCII is those characters, a byte for each.
use summ.Prelude.{
  ℕ, ◌⊎◌, ◌+◌, ◌-◌, ◌*◌, ◌≤◌, ◌≡◌, refl, subst, Option, none, some, List, [], ◌∷◌, arith, Bytes,
  ltb, Bool-cases, inl, inr,
}
use summ.Core.Utf8.{Decoder, lead, next, chars_from, chars, idle, emit, AllAscii}

-- A character begun that will not be ASCII.
abbrev IsWide : Decoder → Type 0
IsWide d =
    (0x80 ≤ d.low)
    × (((d.need ≡ 1) × (128 ≤ d.bits * 64 + (d.low - 0x80)))
        ⊎ ((2 ≤ d.need) × (2 ≤ d.bits * 64 + (d.low - 0x80))))

lead-IsWide : (b : ℕ) (d : Decoder) → lead b ≡ some d → 0x80 ≤ b → IsWide d
unfolding lead
lead-IsWide b d h hb = ground arith

-- A byte more: the character is finished and not ASCII, or still begun.
next-IsWide :
    (d e : Decoder) (b : ℕ)
    → IsWide d
    → next d b ≡ some e
    → ((e.need ≡ 0) × (128 ≤ e.bits)) ⊎ IsWide e
unfolding next
next-IsWide d e b w h = ground arith

-- An emitted character comes first.
emit_done :
    (e : Decoder) (o : Option (List ℕ)) (cs : List ℕ)
    → e.need ≡ 0
    → emit e o ≡ some cs
    → (rest : List ℕ) × (o ≡ some rest) × (cs ≡ e.bits ∷ rest)
emit_done e none cs z u = absurd (ground arith)
emit_done e (some rest) cs z u = (rest, refl, ground arith)

emit_begun :
    (e : Decoder) (o : Option (List ℕ)) (cs : List ℕ)
    → 1 ≤ e.need
    → emit e o ≡ some cs
    → o ≡ some cs
emit_begun e o cs h u = ground arith

-- The first character of what a begun character starts is not ASCII.
wide_first :
    (d : Decoder) (s : Bytes) (cs : List ℕ)
    → IsWide d
    → chars_from d s ≡ some cs
    → AllAscii cs
    → 1 ≤ 0
wide_first d [] cs w h a = unfold chars_from in ground arith
wide_first d (b ∷ s) cs w h a =
    step (next d b) refl (unfold chars_from in h) (λ e w' u. wide_first e s cs w' u a)
  where
    step :
        (o : Option Decoder)
        → next d b ≡ o
        → (elim o [ none ↦ none | some e ↦ emit e (chars_from e s) ]) ≡ some cs
        → ((e : Decoder) → IsWide e → chars_from e s ≡ some cs → 1 ≤ 0)
        → 1 ≤ 0
    step none q e ih = absurd (cc e)
    step (some e) q u ih = elim (next-IsWide d e b w q) [
      | inl (z, big) ↦
          let (rest, later, first) = emit_done e (chars_from e s) cs z u in
          let heads : AllAscii (e.bits ∷ rest) = subst AllAscii first a in omega (arith, heads.0)
      | inr w' ↦ ih e w' (emit_begun e (chars_from e s) cs (ground arith) u)
    ]

-- A byte between two characters is an ASCII character or begins a wide one.
next_rest :
    (d e : Decoder) (b : ℕ)
    → d.need ≡ 0
    → next d b ≡ some e
    → ((e.need ≡ 0) × (e.bits ≡ b)) ⊎ IsWide e
next_rest d e b z h = elim (Bool-cases (ltb b 0x80)) [
  | inl q ↦ inl (unfold next lead in ground arith)
  | inr q ↦ inr (lead-IsWide b e (unfold next in ground arith) (ground arith))
]

chars_from-AllAscii :
    (d : Decoder) (s cs : Bytes) → d.need ≡ 0 → chars_from d s ≡ some cs → AllAscii cs → s ≡ cs
chars_from-AllAscii d [] cs z h a = unfold chars_from in ground arith
chars_from-AllAscii d (b ∷ s) cs z h a =
    step (next d b) refl (unfold chars_from in h)
      (λ e rest z' u a'. chars_from-AllAscii e s rest z' u a')
  where
    step :
        (o : Option Decoder)
        → next d b ≡ o
        → (elim o [ none ↦ none | some e ↦ emit e (chars_from e s) ]) ≡ some cs
        → ((e : Decoder) (rest : Bytes)
            → e.need ≡ 0
            → chars_from e s ≡ some rest
            → AllAscii rest
            → s ≡ rest)
        → b ∷ s ≡ cs
    step none q e ih = absurd (cc e)
    step (some e) q u ih = elim (next_rest d e b z q) [
      | inl (z', same) ↦
          let (rest, later, first) = emit_done e (chars_from e s) cs z' u in
          let heads : AllAscii (e.bits ∷ rest) = subst AllAscii first a in
          let tails : s ≡ rest = ih e rest z' later heads.1 in cc
      | inr w ↦
          absurd (
            omega
              (arith, wide_first e s cs w (emit_begun e (chars_from e s) cs (ground arith) u) a))
    ]

-- If every character of a text is ASCII, its bytes are its characters.
pub chars-AllAscii : (s cs : Bytes) → chars s ≡ some cs → AllAscii cs → s ≡ cs
unfolding chars
chars-AllAscii s cs h a = chars_from-AllAscii idle s cs refl h a
