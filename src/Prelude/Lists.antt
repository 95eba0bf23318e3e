-- ===== src/Prelude/Lists.antt =====
-- Lists measured and cut by native numbers, slices of byte strings and their laws.
use Prim.Native.Nat.{ℕ, zero, suc, ◌+◌, ◌-◌, ◌<◌, ◌≤◌}
use Prim.Native.Char.{code}
use Prim.Native.String.{String}
use mathlib.Core.Path.{◌≡◌, refl, ap, subst}
use mathlib.Core.Bool.{Bool, true, false, ◌&&◌}
use mathlib.Core.List.{List, [], ◌∷◌, ◌++◌, append_assoc}
use mathlib.Core.Option.{Option, none, some}
use native.Mathlib.Omega.{arith}
use summ.Prelude.Tests.{◌==◌, if◌then◌else◌}

abbrev pub Bytes : Type 0
Bytes = List ℕ

-- The code points of a literal; these are its bytes where the text is ASCII.
abbrev pub codes : String → Bytes
codes String.[] = []
codes (String.◌∷◌ c s) = code c ∷ codes s

module _ {ℓ} {A : Type ℓ} where
  abbrev pub length : List A → ℕ
  length [] = 0
  length (x ∷ xs) = suc (length xs)

  unfoldable pub take : ℕ → List A → List A
  take zero xs = []
  take (suc n) [] = []
  take (suc n) (x ∷ xs) = x ∷ take n xs

  unfoldable pub drop : ℕ → List A → List A
  drop zero xs = xs
  drop (suc n) [] = []
  drop (suc n) (x ∷ xs) = drop n xs

  abbrev pub replicate : ℕ → A → List A
  replicate zero a = []
  replicate (suc n) a = a ∷ replicate n a

  abbrev pub last? : List A → Option A
  last? [] = none
  last? (x ∷ []) = some x
  last? (x ∷ y ∷ xs) = last? (y ∷ xs)

  -- `s.get(n..)`
  unfoldable pub get_from : List A → ℕ → Option (List A)
  get_from xs zero = some xs
  get_from [] (suc n) = none
  get_from (x ∷ xs) (suc n) = get_from xs n

  -- `s.get(..n)`
  unfoldable pub get_to : List A → ℕ → Option (List A)
  get_to xs zero = some []
  get_to [] (suc n) = none
  get_to (x ∷ xs) (suc n) = elim (get_to xs n) [ none ↦ none | some ys ↦ some (x ∷ ys) ]

  pub length-append : (xs ys : List A) → length (xs ++ ys) ≡ length xs + length ys
  length-append [] ys = omega arith
  length-append (x ∷ xs) ys = omega (arith, length-append xs ys)

  pub take-append_self : (xs ys : List A) (n : ℕ) → length xs ≡ n → take n (xs ++ ys) ≡ xs
  unfolding take
  take-append_self [] ys zero h = refl
  take-append_self [] ys (suc n) h = absurd (omega arith)
  take-append_self (x ∷ xs) ys zero h = absurd (omega arith)
  take-append_self (x ∷ xs) ys (suc n) h = ap (λ l. x ∷ l) (take-append_self xs ys n (omega arith))

  pub length-take : (n : ℕ) (xs : List A) → n ≤ length xs → length (take n xs) ≡ n
  unfolding take
  length-take zero xs h = refl
  length-take (suc n) [] h = absurd (omega arith)
  length-take (suc n) (x ∷ xs) h = ap suc (length-take n xs (omega arith))

  pub take-append-drop : (n : ℕ) (xs : List A) → take n xs ++ drop n xs ≡ xs
  unfolding take drop
  take-append-drop zero xs = refl
  take-append-drop (suc n) [] = refl
  take-append-drop (suc n) (x ∷ xs) = rw (take-append-drop n xs)

  pub take_all : (n : ℕ) (xs : List A) → length xs ≤ n → take n xs ≡ xs
  unfolding take
  take_all zero [] h = refl
  take_all zero (x ∷ xs) h = absurd (omega arith)
  take_all (suc n) [] h = refl
  take_all (suc n) (x ∷ xs) h = ap (λ l. x ∷ l) (take_all n xs (omega arith))

  pub length-drop : (n : ℕ) (xs : List A) → length (drop n xs) ≡ length xs - n
  unfolding drop
  length-drop zero xs = omega arith
  length-drop (suc n) [] = omega arith
  length-drop (suc n) (x ∷ xs) = omega (arith, length-drop n xs)

  -- Some first elements have a last one, unless there are none.
  pub last?-take :
      (n : ℕ) (xs : List A) → 0 < length xs → (a : A) × (last? (take (suc n) xs) ≡ some a)
  unfolding take
  last?-take n [] h = absurd (omega arith)
  last?-take zero (x ∷ xs) h = (x, refl)
  last?-take (suc n) (x ∷ []) h = (x, refl)
  last?-take (suc n) (x ∷ y ∷ xs) h = last?-take n (y ∷ xs) (omega arith)

  pub drop-append_self : (xs ys : List A) (n : ℕ) → length xs ≡ n → drop n (xs ++ ys) ≡ ys
  unfolding drop
  drop-append_self [] ys zero h = refl
  drop-append_self [] ys (suc n) h = absurd (omega arith)
  drop-append_self (x ∷ xs) ys zero h = absurd (omega arith)
  drop-append_self (x ∷ xs) ys (suc n) h = drop-append_self xs ys n (omega arith)

  pub get_from-append : (xs ys : List A) (n : ℕ) → length xs ≡ n → get_from (xs ++ ys) n ≡ some ys
  unfolding get_from
  get_from-append [] ys zero h = refl
  get_from-append [] ys (suc n) h = absurd (omega arith)
  get_from-append (x ∷ xs) ys zero h = absurd (omega arith)
  get_from-append (x ∷ xs) ys (suc n) h = get_from-append xs ys n (omega arith)

  pub get_to-append : (xs ys : List A) (n : ℕ) → length xs ≡ n → get_to (xs ++ ys) n ≡ some xs
  unfolding get_to
  get_to-append [] ys zero h = refl
  get_to-append [] ys (suc n) h = absurd (omega arith)
  get_to-append (x ∷ xs) ys zero h = absurd (omega arith)
  get_to-append (x ∷ xs) ys (suc n) h = rw (get_to-append xs ys n (omega arith))

  -- Two splits of one list at the same length are one split.
  pub append_cancel :
      (xs ys s t : List A) → length xs ≡ length ys → xs ++ s ≡ ys ++ t → (xs ≡ ys) × (s ≡ t)
  append_cancel [] [] s t h e = (refl, e)
  append_cancel [] (y ∷ ys) s t h e = absurd (omega arith)
  append_cancel (x ∷ xs) [] s t h e = absurd (omega arith)
  append_cancel (x ∷ xs) (y ∷ ys) s t h e =
      let tails : xs ++ s ≡ ys ++ t = cc in
      let (p, q) = append_cancel xs ys s t (omega arith) tails in (cc, q)

module _ {ℓ κ} {A : Type ℓ} (P : A → Type κ) where
  abbrev pub All : List A → Type κ
  All [] = Unit
  All (x ∷ xs) = P x × All xs

  pub All-append : (xs ys : List A) → All xs → All ys → All (xs ++ ys)
  All-append [] ys _ hy = hy
  All-append (x ∷ xs) ys (px, hx) hy = (px, All-append xs ys hx hy)

  pub All-take : (n : ℕ) (xs : List A) → All xs → All (take n xs)
  unfolding take
  All-take zero xs h = tt
  All-take (suc n) [] h = tt
  All-take (suc n) (x ∷ xs) h = (h.0, All-take n xs h.1)

  -- The last of some first elements is an element.
  pub All-last?-take : (n : ℕ) (xs : List A) (a : A) → All xs → last? (take n xs) ≡ some a → P a
  unfolding take
  All-last?-take zero xs a h e = absurd (cc e)
  All-last?-take (suc n) [] a h e = absurd (cc e)
  All-last?-take (suc zero) (x ∷ xs) a h e = let q : x ≡ a = cc in subst P q h.0
  All-last?-take (suc (suc n)) (x ∷ []) a h e = let q : x ≡ a = cc in subst P q h.0
  All-last?-take (suc (suc n)) (x ∷ y ∷ xs) a h e = All-last?-take (suc n) (y ∷ xs) a h.1 e

pub All-mono {ℓ κ μ} :
    {A : Type ℓ} (P : A → Type κ) (Q : A → Type μ) (xs : List A)
    → ((x : A) → P x → Q x)
    → All P xs
    → All Q xs
All-mono P Q [] f h = tt
All-mono P Q (x ∷ xs) f h = (f x h.0, All-mono P Q xs f h.1)

abbrev pub all {ℓ} : {A : Type ℓ} → (A → Bool) → List A → Bool
all p [] = true
all p (x ∷ xs) = p x && all p xs

-- Each byte is below 256.
abbrev pub AllBytes : Bytes → Type 0
AllBytes = All (λ b. b < 256)

-- `s.strip_prefix(p)`
abbrev pub strip_prefix : Bytes → Bytes → Option Bytes
strip_prefix s [] = some s
strip_prefix [] (y ∷ p) = none
strip_prefix (x ∷ s) (y ∷ p) = if x == y then strip_prefix s p else none

abbrev pub starts_with : Bytes → Bytes → Bool
starts_with s p = elim (strip_prefix s p) [ none ↦ false | some r ↦ true ]

abbrev pub bytes_eq : Bytes → Bytes → Bool
bytes_eq [] [] = true
bytes_eq [] (y ∷ ys) = false
bytes_eq (x ∷ xs) [] = false
bytes_eq (x ∷ xs) (y ∷ ys) = x == y && bytes_eq xs ys

pub strip_prefix-append : (p s : Bytes) → strip_prefix (p ++ s) p ≡ some s
strip_prefix-append [] s = refl
strip_prefix-append (x ∷ p) s = ground (arith, strip_prefix-append p s)

-- The same for a prefix of two and of three parts.
pub strip_prefix-append2 : (p q s : Bytes) → strip_prefix (p ++ (q ++ s)) (p ++ q) ≡ some s
strip_prefix-append2 p q s = rw (← append_assoc p q s) (strip_prefix-append (p ++ q) s)

pub strip_prefix-append3 :
    (p q r s : Bytes) → strip_prefix (p ++ (q ++ (r ++ s))) (p ++ (q ++ r)) ≡ some s
strip_prefix-append3 p q r s = rw (← append_assoc q r s) (strip_prefix-append2 p (q ++ r) s)

pub strip_prefix_sound : (s p r : Bytes) → strip_prefix s p ≡ some r → s ≡ p ++ r
strip_prefix_sound s [] r h = cc
strip_prefix_sound [] (y ∷ p) r h = cc
strip_prefix_sound (x ∷ s) (y ∷ p) r h = ground (arith, strip_prefix_sound s p r)

pub bytes_eq→eq : (xs ys : Bytes) → bytes_eq xs ys ≡ true → xs ≡ ys
bytes_eq→eq [] [] h = refl
bytes_eq→eq [] (y ∷ ys) h = cc
bytes_eq→eq (x ∷ xs) [] h = cc
bytes_eq→eq (x ∷ xs) (y ∷ ys) h = ground (arith, bytes_eq→eq xs ys)

pub bytes_eq_self : (xs : Bytes) → bytes_eq xs xs ≡ true
bytes_eq_self [] = refl
bytes_eq_self (x ∷ xs) = ground (arith, bytes_eq_self xs)
