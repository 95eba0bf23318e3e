-- ===== src/Meta/Redb/Contiguous.antt =====
-- In key order, the keys under a prefix stand together, first among the keys that are not below it.
use summ.Prelude.{
  ◌≡◌, refl, true, false, Bool, ◌&&◌, [], ◌∷◌, Bytes, starts_with, arith, Bool-cases, inl, inr, All,
}
use mathlib.Core.Path.{fun_ext}
use summ.Prelude.Lex.{lex, lex_self}
use summ.Meta.Redb.{Entries, is_below, select, Above, IsSorted}

-- Between a prefix and a key under it there are only keys under it.
pub starts_with_between :
    (p k j : Bytes)
    → is_below k p ≡ false
    → is_below k j ≡ true
    → starts_with j p ≡ true
    → starts_with k p ≡ true
unfolding lex
starts_with_between [] k j h hk hj = refl
starts_with_between (x ∷ p) [] j h hk hj = ground arith
starts_with_between (x ∷ p) (y ∷ k) [] h hk hj = ground arith
starts_with_between (x ∷ p) (y ∷ k) (z ∷ j) h hk hj = ground (arith, starts_with_between p k j)

pub is_below_trans :
    (a b c : Bytes) → is_below a b ≡ true → is_below b c ≡ true → is_below a c ≡ true
unfolding lex
is_below_trans [] b [] h h' = ground arith
is_below_trans [] b (z ∷ c) h h' = ground arith
is_below_trans (x ∷ a) [] c h h' = ground arith
is_below_trans (x ∷ a) (y ∷ b) [] h h' = ground arith
is_below_trans (x ∷ a) (y ∷ b) (z ∷ c) h h' = ground (arith, is_below_trans a b c)

-- A key under a prefix is not below it.
pub starts_with-not_below : (p k : Bytes) → starts_with k p ≡ true → is_below k p ≡ false
unfolding lex
starts_with-not_below [] [] h = refl
starts_with-not_below [] (y ∷ k) h = refl
starts_with-not_below (x ∷ p) [] h = ground arith
starts_with-not_below (x ∷ p) (y ∷ k) h = ground (arith, starts_with-not_below p k)

pub is_below_irrefl : (a : Bytes) → is_below a a ≡ false
is_below_irrefl a = ground (arith, lex_self a)

pub is_below_asym : (a b : Bytes) → is_below a b ≡ true → is_below b a ≡ false
is_below_asym a b h = elim (Bool-cases (is_below b a)) [
  | inl e ↦ absurd (cc (is_below_trans a b a h e, is_below_irrefl a))
  | inr e ↦ e
]

-- Nothing above a key that is not below `p` is below `p`.
pub not_below_above :
    (p k j : Bytes) → is_below k p ≡ false → is_below k j ≡ true → is_below j p ≡ false
not_below_above p k j h hk = elim (Bool-cases (is_below j p)) [
  | inl e ↦ absurd (cc (is_below_trans k j p hk e, h))
  | inr e ↦ e
]

-- A selection is sorted, and above what the whole is above.
Above-select :
    (keep : Bytes → Bool) (k : Bytes) (es : Entries) → Above k es → Above k (select keep es)
unfolding select
Above-select keep k [] h = tt
Above-select keep k ((j, v) ∷ es) h = elim (Bool-cases (keep j)) [
  | inl e ↦ rw e (h.0, Above-select keep k es h.1)
  | inr e ↦ rw e (Above-select keep k es h.1)
]

pub IsSorted-select : (keep : Bytes → Bool) (es : Entries) → IsSorted es → IsSorted (select keep es)
unfolding select
IsSorted-select keep [] h = tt
IsSorted-select keep ((j, v) ∷ es) h = elim (Bool-cases (keep j)) [
  | inl e ↦ rw e (Above-select keep j es h.0, IsSorted-select keep es h.1)
  | inr e ↦ rw e (IsSorted-select keep es h.1)
]

-- Keys that pass a test.
abbrev pub AllKeys : (Bytes → Bool) → Entries → Type 0
AllKeys test = All (λ e. test e.0 ≡ true)

pub AllKeys-select : (keep : Bytes → Bool) (es : Entries) → AllKeys keep (select keep es)
unfolding select
AllKeys-select keep [] = tt
AllKeys-select keep ((j, v) ∷ es) = elim (Bool-cases (keep j)) [
  | inl e ↦ rw e (e, AllKeys-select keep es)
  | inr e ↦ rw e (AllKeys-select keep es)
]

pub All-select {κ} :
    (P : Bytes × Bytes → Type κ) (keep : Bytes → Bool) (es : Entries)
    → All P es
    → All P (select keep es)
unfolding select
All-select P keep [] h = tt
All-select P keep ((j, v) ∷ es) h = elim (Bool-cases (keep j)) [
  | inl e ↦ rw e (h.0, All-select P keep es h.1)
  | inr e ↦ rw e (All-select P keep es h.1)
]

pub select-AllKeys : (keep : Bytes → Bool) (es : Entries) → AllKeys keep es → select keep es ≡ es
unfolding select
select-AllKeys keep [] h = refl
select-AllKeys keep ((j, v) ∷ es) h = rw (h.0, select-AllKeys keep es h.1)

pub select-select :
    (p q : Bytes → Bool) (es : Entries) → select p (select q es) ≡ select (λ k. q k && p k) es
unfolding select
select-select p q [] = refl
select-select p q ((j, v) ∷ es) = ground (arith, select-select p q es)

pub select_ext :
    (p q : Bytes → Bool) (es : Entries) → ((k : Bytes) → p k ≡ q k) → select p es ≡ select q es
select_ext p q es h = rw (fun_ext h)

-- Behind a key that is not below `p` and not under `p` nothing is under `p`.
pub select_none :
    (p k : Bytes) (es : Entries)
    → Above k es
    → is_below k p ≡ false
    → starts_with k p ≡ false
    → select (λ j. starts_with j p) es ≡ []
unfolding select
select_none p k [] a h u = refl
select_none p k ((j, v) ∷ es) a h u = elim (Bool-cases (starts_with j p)) [
  | inl e ↦ absurd (cc (starts_with_between p k j h a.0 e, u))
  | inr e ↦ rw e (select_none p k es a.1 h u)
]
