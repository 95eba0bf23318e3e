-- ===== src/Meta/Redb/Sorted.antt =====
-- A table that meets what `RedbTable` asks for: an association list in key order.
use summ.Prelude.{
  ◌≡◌, ◌∙◌, refl, sym, ap, subst, true, false, Bool, not, ◌&&◌, Option, none, some, [], ◌∷◌, Bytes,
  bytes_eq, bytes_eq→eq, arith, Bool-cases, inl, inr, if◌then◌else◌,
}
use summ.Prelude.Lex.{lex}
use summ.Meta.Redb.{Entries, included, is_below, within, select, find, Above, IsSorted, RedbTable}
use summ.Meta.Redb.Contiguous.{is_below_trans, is_below_irrefl, IsSorted-select}

abbrev pub put_sorted : Bytes → Bytes → Entries → Entries
put_sorted k v [] = (k, v) ∷ []
put_sorted k v ((j, w) ∷ es) =
    if is_below k j
    then (k, v) ∷ (j, w) ∷ es
    else (if is_below j k then (j, w) ∷ put_sorted k v es else (k, v) ∷ es)

-- Keys that are not apart are equal.
same_key : (k j : Bytes) → is_below k j ≡ false → is_below j k ≡ false → k ≡ j
unfolding lex
same_key [] [] h h' = refl
same_key [] (y ∷ j) h h' = absurd (cc h)
same_key (x ∷ k) [] h h' = absurd (cc h')
same_key (x ∷ k) (y ∷ j) h h' = ground (arith, same_key k j)

Above-trans : (k j : Bytes) (es : Entries) → is_below k j ≡ true → Above j es → Above k es
Above-trans k j [] h a = tt
Above-trans k j ((i, w) ∷ es) h a = (is_below_trans k j i h a.0, Above-trans k j es h a.1)

Above-put :
    (i k v : Bytes) (es : Entries) → is_below i k ≡ true → Above i es → Above i (put_sorted k v es)
Above-put i k v [] h a = (h, tt)
Above-put i k v ((j, w) ∷ es) h a = elim (Bool-cases (is_below k j)) [
  | inl e ↦ rw e (h, a)
  | inr e ↦ elim (Bool-cases (is_below j k)) [
    | inl e' ↦ rw (e, e') (a.0, Above-put i k v es h a.1)
    | inr e' ↦ rw (e, e') (h, a.1)
  ]
]

pub IsSorted-put : (k v : Bytes) (es : Entries) → IsSorted es → IsSorted (put_sorted k v es)
IsSorted-put k v [] s = (tt, tt)
IsSorted-put k v ((j, w) ∷ es) s = elim (Bool-cases (is_below k j)) [
  | inl e ↦ rw e ((e, Above-trans k j es e s.0), s)
  | inr e ↦ elim (Bool-cases (is_below j k)) [
    | inl e' ↦ rw (e, e') (Above-put j k v es e' s.0, IsSorted-put k v es s.1)
    | inr e' ↦ rw (e, e') (subst (λ x. Above x es) (sym (same_key k j e e')) s.0, s.1)
  ]
]

-- A key apart from another is not it.
apart : (k j : Bytes) → is_below k j ≡ true → bytes_eq k j ≡ false
apart k j h = elim (Bool-cases (bytes_eq k j)) [
  | inl e ↦ absurd (cc (ap (is_below k) (bytes_eq→eq k j e), is_below_irrefl k, h))
  | inr e ↦ e
]

pub find-put :
    (k v : Bytes) (es : Entries) (j : Bytes)
    → find j (put_sorted k v es) ≡ (if bytes_eq k j then some v else find j es)
unfolding find
find-put k v [] j = refl
find-put k v ((i, w) ∷ es) j = elim (Bool-cases (is_below k i)) [
  | inl e ↦ rw e refl
  | inr e ↦ elim (Bool-cases (is_below i k)) [
    | inl e' ↦ rw (e, e') (ground (arith, find-put k v es j, disjoint e'))
    | inr e' ↦ rw (e, e') (ground (arith, ap (λ x. bytes_eq x j) (same_key k i e e')))
  ]
]
  where
    disjoint : is_below i k ≡ true → bytes_eq i j ≡ true → bytes_eq k j ≡ false
    disjoint h q = elim (Bool-cases (bytes_eq k j)) [
      | inl r ↦ absurd (
          cc (
            is_below_irrefl j,
            ap (is_below i) (bytes_eq→eq k j r),
            ap (λ x. is_below x j) (bytes_eq→eq i j q),
            h,
          ))
      | inr r ↦ r
    ]

pub find-select_if :
    (keep : Bytes → Bool) (k : Bytes) (es : Entries)
    → find k (select keep es) ≡ (if keep k then find k es else none)
unfolding find select
find-select_if keep k [] = ground arith
find-select_if keep k ((j, v) ∷ es) = ground (arith, find-select_if keep k es, bytes_eq→eq j k)

pub flip : (b : Bool) (o : Option Bytes) → (if not b then o else none) ≡ (if b then none else o)
flip b o = ground arith

abbrev pub remove_sorted : Bytes → Entries → Entries
remove_sorted k es = select (λ j. not (bytes_eq k j)) es

abbrev pub retain_sorted : Bytes → (Bytes → Bool) → Entries → Entries
retain_sorted lo keep es = select (λ j. not (within (included lo) j && not (keep j))) es

-- The sorted association lists.
pub record SortedEntries : Type 0 where
  pub list : Entries
  pub sorted : IsSorted list

abbrev pub sorted_table : RedbTable
sorted_table = record {
  Table = SortedEntries;
  entries = λ t. t.list;
  get = λ t k. find k t.list;
  range = λ t b. select (within b) t.list;
  insert =
      λ t k v. record { list = put_sorted k v t.list; sorted = IsSorted-put k v t.list t.sorted };
  remove = λ t k. record {
    list = remove_sorted k t.list;
    sorted = IsSorted-select (λ j. not (bytes_eq k j)) t.list t.sorted;
  };
  retain_in = λ t lo keep. record {
    list = retain_sorted lo keep t.list;
    sorted = IsSorted-select (λ j. not (within (included lo) j && not (keep j))) t.list t.sorted;
  };
  entries_sorted = λ t. t.sorted;
  get-entries = λ t k. refl;
  range-entries = λ t b. refl;
  get-insert = λ t k v j. find-put k v t.list j;
  get-remove = λ t k j.
      find-select_if (λ i. not (bytes_eq k i)) j t.list ∙ flip (bytes_eq k j) (find j t.list);
  get-retain_in = λ t lo keep j.
      find-select_if (λ i. not (within (included lo) i && not (keep i))) j t.list
      ∙ flip (within (included lo) j && not (keep j)) (find j t.list);
}

-- The table without entries.
abbrev pub empty_table : SortedEntries
empty_table = record { list = []; sorted = tt }
