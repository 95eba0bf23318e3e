-- ===== src/Server/Range/Decimal.antt =====
-- The numbers that `parse::<u64>` reads of runs of digits.
use summ.Prelude.{
  ℕ, ◌+◌, ◌-◌, ◌*◌, ◌^◌, ◌<◌, ◌≤◌, ◌==◌, ◌≡◌, ◌≢◌, ◌&&◌, refl, none, some, Bool, true, false, [],
  ◌∷◌, Bytes, ltb, all, if◌then◌else◌, arith,
}
use summ.Server.Range.{is_digit, digits, parse_u64}

-- The number that a text of digits writes, behind a value.
abbrev pub decimal : ℕ → Bytes → ℕ
decimal value [] = value
decimal value (c ∷ s) = decimal (value * 10 + (c - b'0')) s

digits_sound :
    (value : ℕ) (s : Bytes) (n : ℕ)
    → digits value s ≡ some n
    → value < 2 ^ 64
    → (n ≡ decimal value s) × (n < 2 ^ 64)
digits_sound value [] n h room = unfold digits in (ground arith, ground arith)
digits_sound value (c ∷ s) n h room =
    step (is_digit c && ltb (value * 10 + (c - b'0')) (2 ^ 64)) refl (unfold digits in h)
      (λ u. digits_sound (value * 10 + (c - b'0')) s n u)
  where
    step :
        (b : Bool)
        → (is_digit c && ltb (value * 10 + (c - b'0')) (2 ^ 64)) ≡ b
        → (if b then digits (value * 10 + (c - b'0')) s else none) ≡ some n
        → (digits (value * 10 + (c - b'0')) s ≡ some n
            → value * 10 + (c - b'0') < 2 ^ 64
            → (n ≡ decimal value (c ∷ s)) × (n < 2 ^ 64))
        → (n ≡ decimal value (c ∷ s)) × (n < 2 ^ 64)
    step false q e ih = absurd (cc e)
    step true q e ih = ih e (ground arith)

-- A text of digits alone has no sign.
pub parse_u64_sound :
    (s : Bytes) (n : ℕ)
    → all is_digit s ≡ true
    → parse_u64 s ≡ some n
    → (n ≡ decimal 0 s) × (n < 2 ^ 64)
parse_u64_sound [] n a h = unfold parse_u64 in absurd (cc h)
parse_u64_sound (c ∷ []) n a h = digits_sound 0 (c ∷ []) n (unfold parse_u64 in h) (omega arith)
parse_u64_sound (c ∷ d ∷ s) n a h =
    digits_sound 0 (c ∷ d ∷ s) n (unfold parse_u64 is_digit in ground arith) (omega arith)

-- A number is at least the value in front of its digits.
decimal_grows : (value : ℕ) (s : Bytes) → value ≤ decimal value s
decimal_grows value [] = omega arith
decimal_grows value (c ∷ s) = omega (arith, decimal_grows (value * 10 + (c - b'0')) s)

digits_complete :
    (value : ℕ) (s : Bytes)
    → all is_digit s ≡ true
    → decimal value s < 2 ^ 64
    → digits value s ≡ some (decimal value s)
unfolding digits
digits_complete value [] a h = refl
digits_complete value (c ∷ s) a h =
    let room : value * 10 + (c - b'0') < 2 ^ 64 =
      omega (arith, decimal_grows (value * 10 + (c - b'0')) s, h) in
    let rest = digits_complete (value * 10 + (c - b'0')) s (ground arith) h in
    let here : (is_digit c && ltb (value * 10 + (c - b'0')) (2 ^ 64)) ≡ true = ground arith in
    rw here rest

pub parse_u64_complete :
    (s : Bytes)
    → s ≢ []
    → all is_digit s ≡ true
    → decimal 0 s < 2 ^ 64
    → parse_u64 s ≡ some (decimal 0 s)
unfolding parse_u64
parse_u64_complete [] n a h = absurd (n refl)
parse_u64_complete (c ∷ []) n a h = digits_complete 0 (c ∷ []) a h
parse_u64_complete (c ∷ d ∷ s) n a h =
    let no_sign : (c == b'+') ≡ false = unfold is_digit in ground arith in
    rw no_sign (digits_complete 0 (c ∷ d ∷ s) a h)
