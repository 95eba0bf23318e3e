-- ===== src/Server/Query/Escapes.antt =====
-- What `percent_decode` makes of escaped text.
use summ.Prelude.{
  ℕ, ◌<◌, ◌/◌, ◌%◌, ◌==◌, ◌≡◌, refl, ap, ◌∙◌, Option, none, some, Bool, true, false, [], ◌∷◌, ◌++◌,
  Bytes, AllBytes, Bool-cases, inl, inr, arith,
}
use summ.Registry.Reference.{contains}
use summ.Server.Query.{
  hex_digit, hex_pair, escaped, plain, unescaped, has_escape, is_unreserved, upper_hex_char, escape,
  query_escape,
}

hex_pair-upper_hex_char :
    (b : ℕ) → b < 256 → hex_pair (upper_hex_char (b / 16)) (upper_hex_char (b % 16)) ≡ some b
unfolding hex_pair hex_digit upper_hex_char
hex_pair-upper_hex_char b h = ground arith

-- Three bytes of which the first may begin an escape.
abbrev step : Bool → ℕ → ℕ → ℕ → Bytes → Option ℕ → Bytes
step plus c x y s (some byte) = byte ∷ unescaped plus s
step plus c x y s none = plain plus c ∷ unescaped plus (x ∷ y ∷ s)

unescaped-step :
    (plus : Bool) (c x y : ℕ) (s : Bytes)
    → unescaped plus (c ∷ x ∷ y ∷ s) ≡ step plus c x y s (escaped c x y)
unfolding unescaped
unescaped-step plus c x y s = by_option (escaped c x y)
  where
    by_option :
        (o : Option ℕ)
        → elim o [
          | some byte ↦ byte ∷ unescaped plus s
          | none ↦ plain plus c ∷ unescaped plus (x ∷ y ∷ s)
        ]
          ≡ step plus c x y s o
    by_option none = refl
    by_option (some byte) = refl

escaped_other : (c x y : ℕ) → (c == b'%') ≡ false → escaped c x y ≡ none
unfolding escaped
escaped_other c x y h = rw h refl

escaped_sign :
    (b : ℕ) → b < 256 → escaped b'%' (upper_hex_char (b / 16)) (upper_hex_char (b % 16)) ≡ some b
unfolding escaped
escaped_sign b h = hex_pair-upper_hex_char b h

unescaped-plain :
    (plus : Bool) (c : ℕ) (s : Bytes)
    → (c == b'%') ≡ false
    → unescaped plus (c ∷ s) ≡ plain plus c ∷ unescaped plus s
unfolding unescaped escaped
unescaped-plain plus c [] h = refl
unescaped-plain plus c (x ∷ []) h = refl
unescaped-plain plus c (x ∷ y ∷ s) h =
    unescaped-step plus c x y s ∙ ap (step plus c x y s) (escaped_other c x y h)

unreserved_sign : (b : ℕ) → is_unreserved b ≡ true → (b == b'%') ≡ false
unfolding is_unreserved
unreserved_sign b u = ground (arith, u)

unreserved_plain : (b : ℕ) → is_unreserved b ≡ true → plain true b ≡ b
unfolding is_unreserved plain
unreserved_plain b u = ground (arith, u)

plus_plain : (b : ℕ) → (b == b' ') ≡ true → plain true b'+' ≡ b
unfolding plain
plus_plain b e = ground (arith, e)

coded :
    (b : ℕ) (s : Bytes)
    → b < 256
    → unescaped true (b'%' ∷ upper_hex_char (b / 16) ∷ upper_hex_char (b % 16) ∷ s)
      ≡ b ∷ unescaped true s
coded b s h =
    unescaped-step true b'%' (upper_hex_char (b / 16)) (upper_hex_char (b % 16)) s
    ∙ ap (step true b'%' (upper_hex_char (b / 16)) (upper_hex_char (b % 16)) s) (escaped_sign b h)

unescaped-escape :
    (b : ℕ) (s : Bytes) → b < 256 → unescaped true (escape b ++ s) ≡ b ∷ unescaped true s
unfolding escape
unescaped-escape b s h = elim (Bool-cases (is_unreserved b)) [
  | inl u ↦ rw u (
      unescaped-plain true b s (unreserved_sign b u)
      ∙ ap (λ c. c ∷ unescaped true s) (unreserved_plain b u))
  | inr u ↦ elim (Bool-cases (b == b' ')) [
    | inl space ↦
        rw (u, space)
          (unescaped-plain true b'+' s refl ∙ ap (λ c. c ∷ unescaped true s) (plus_plain b space))
    | inr other ↦ rw (u, other) (coded b s h)
  ]
]

pub unescaped-query_escape : (s : Bytes) → AllBytes s → unescaped true (query_escape s) ≡ s
unfolding query_escape unescaped
unescaped-query_escape [] h = refl
unescaped-query_escape (b ∷ s) h =
    unescaped-escape b (query_escape s) h.0 ∙ ap (λ t. b ∷ t) (unescaped-query_escape s h.1)

no_sign_plain : (c : ℕ) (s : Bytes) → has_escape true (c ∷ s) ≡ false → plain true c ≡ c
unfolding has_escape contains plain
no_sign_plain c s h = ground (arith, h)

-- Without a sign there is nothing to decode.
pub unescaped_none : (s : Bytes) → has_escape true s ≡ false → unescaped true s ≡ s
unfolding has_escape contains unescaped
unescaped_none [] h = refl
unescaped_none (c ∷ s) h =
    unescaped-plain true c s (ground (arith, h))
    ∙ ap (λ x. x ∷ unescaped true s) (no_sign_plain c s h)
    ∙ ap (λ t. c ∷ t) (unescaped_none s (ground (arith, h)))
