-- ===== src/Prelude/Lex.antt =====
-- The order of `&[u8]`: lexicographic, a proper prefix first.
use Prim.Native.Nat.{ℕ, compare, Ordering}
use Prim.Native.Nat.Ordering.{lt, eq, gt}
use mathlib.Core.Path.{◌≡◌, refl}
use mathlib.Core.Logic.{◌≢◌}
use mathlib.Core.List.{[], ◌∷◌, ◌++◌}
use native.Mathlib.Omega.{arith}
use summ.Prelude.Lists.{Bytes, length}

unfoldable pub lex : Bytes → Bytes → Ordering
lex [] [] = eq
lex [] (y ∷ ys) = lt
lex (x ∷ xs) [] = gt
lex (x ∷ xs) (y ∷ ys) = elim (compare x y) [ lt ↦ lt | gt ↦ gt | eq ↦ lex xs ys ]

-- The first difference decides.
abbrev pub then_by : Ordering → Ordering → Ordering
then_by lt o = lt
then_by gt o = gt
then_by eq o = o

pub lex_self : (a : Bytes) → lex a a ≡ eq
unfolding lex
lex_self [] = refl
lex_self (x ∷ a) = ground (arith, lex_self a)

pub lex-append_same : (p a b : Bytes) → lex (p ++ a) (p ++ b) ≡ lex a b
unfolding lex
lex-append_same [] a b = refl
lex-append_same (x ∷ p) a b = ground (arith, lex-append_same p a b)

pub lex-append :
    (a b s t : Bytes) → length a ≡ length b → lex (a ++ s) (b ++ t) ≡ then_by (lex a b) (lex s t)
unfolding lex
lex-append [] [] s t h = refl
lex-append [] (y ∷ b) s t h = absurd (omega arith)
lex-append (x ∷ a) [] s t h = absurd (omega arith)
lex-append (x ∷ a) (y ∷ b) s t h =
    let ih : lex (a ++ s) (b ++ t) ≡ then_by (lex a b) (lex s t) =
      lex-append a b s t (omega arith) in
    ground (arith, ih)

pub lex-eq : (a b : Bytes) → lex a b ≡ eq → a ≡ b
unfolding lex
lex-eq [] [] h = refl
lex-eq [] (y ∷ b) h = cc
lex-eq (x ∷ a) [] h = cc
lex-eq (x ∷ a) (y ∷ b) h = ground (arith, lex-eq a b)

pub lex-cons : (x : ℕ) (a b : Bytes) → lex (x ∷ a) (x ∷ b) ≡ lex a b
lex-cons x a b = lex-append_same (x ∷ []) a b

-- A proper prefix sorts first.
pub lex-nil : (a : Bytes) → a ≢ [] → lex [] a ≡ lt
unfolding lex
lex-nil [] h = absurd (h refl)
lex-nil (x ∷ a) h = refl
