-- ===== src/Prelude/BigEndian.antt =====
-- `to_be_bytes` and `from_be_bytes`, for every width: round trip and order.
use Prim.Native.Nat.{compare, zero, suc, ◌+◌, ◌*◌, ◌/◌, ◌%◌, ◌^◌, ◌<◌, ℕ}
use mathlib.Core.Path.{◌≡◌, refl, ap, ◌∙◌}
use mathlib.Core.Logic.{◌≢◌}
use mathlib.Core.List.{[], ◌∷◌, ◌++◌, foldl, foldl-append}
use native.Mathlib.Omega.{arith}
use native.Mathlib.Nat.{pow-suc}
use summ.Prelude.Lists.{Bytes, length, length-append, AllBytes, All-append}
use summ.Prelude.Lex.{lex, then_by, lex-append}

-- `w` bytes of `n`, the most significant first.
unfoldable pub be : ℕ → ℕ → Bytes
be zero n = []
be (suc w) n = be w (n / 256) ++ (n % 256) ∷ []

unfoldable pub from_be : Bytes → ℕ
from_be = foldl (λ acc b. acc * 256 + b) 0

pub length-be : (w n : ℕ) → length (be w n) ≡ w
unfolding be
length-be zero n = refl
length-be (suc w) n =
    omega (arith, length-append (be w (n / 256)) ((n % 256) ∷ []), length-be w (n / 256))

pub be-ne-nil : (w n : ℕ) → be (suc w) n ≢ []
be-ne-nil w n e = absurd (omega (arith, ap length e, length-be (suc w) n))

pub be-AllBytes : (w n : ℕ) → AllBytes (be w n)
unfolding be
be-AllBytes zero n = tt
be-AllBytes (suc w) n =
    All-append _ (be w (n / 256)) ((n % 256) ∷ []) (be-AllBytes w (n / 256)) (omega arith)

-- The quotient of a number of `w + 1` bytes has `w` bytes.
be_room : (w n : ℕ) → n < 256 ^ suc w → n / 256 < 256 ^ w
be_room w n h = let h' : n < 256 ^ w * 256 = rw pow-suc at h in omega arith

pub from_be-be : (w n : ℕ) → n < 256 ^ w → from_be (be w n) ≡ n
unfolding be
from_be-be zero n h = unfold from_be in omega arith
from_be-be (suc w) n h =
    let ih : from_be (be w (n / 256)) ≡ n / 256 = from_be-be w (n / 256) (be_room w n h) in
    from_be_snoc (be w (n / 256)) (n % 256) ∙ omega arith
  where
    from_be_snoc : (s : Bytes) (b : ℕ) → from_be (s ++ b ∷ []) ≡ from_be s * 256 + b
    from_be_snoc s b = unfold from_be in rw foldl-append

digits_order :
    (m n : ℕ)
    → then_by (compare (m / 256) (n / 256)) (lex ((m % 256) ∷ []) ((n % 256) ∷ [])) ≡ compare m n
unfolding lex
digits_order m n = ground arith

-- Big-endian encodings of one width are ordered as the numbers are.
pub lex-be : (w m n : ℕ) → m < 256 ^ w → n < 256 ^ w → lex (be w m) (be w n) ≡ compare m n
unfolding be
lex-be zero m n hm hn = unfold lex in ground arith
lex-be (suc w) m n hm hn =
    lex-append (be w (m / 256)) (be w (n / 256)) ((m % 256) ∷ []) ((n % 256) ∷ [])
      (length-be w (m / 256) ∙ omega (arith, length-be w (n / 256)))
    ∙ rw (lex-be w (m / 256) (n / 256) (be_room w m hm) (be_room w n hn)) (digits_order m n)
