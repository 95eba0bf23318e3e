-- ===== src/Meta/Redb/Paging.antt =====
-- A scan answers with the first entries under its prefix behind its cursor, and pages that follow the
-- cursors give every entry once.
use summ.Prelude.{
  ℕ, zero, suc, ◌+◌, ◌<◌, ◌≡◌, ◌∙◌, refl, sym, subst, ap, true, false, Bool, not, ◌&&◌, Option,
  none, some, [], ◌∷◌, ◌++◌, Bytes, starts_with, arith, ltb, Bool-cases, inl, inr, All, All-mono,
  All-last?-take, take_all, length-drop, last?-take, take-append-drop, append-nil, tests, take,
  drop, length, last?, map_option, if◌then◌else◌,
}
use summ.Meta.Engine.{Page}
use summ.Meta.Redb.{
  Entries, is_below, within, select, Above, IsSorted, RedbTable, lower, walk_loop, walk, scan,
}
use summ.Meta.Redb.Contiguous.{
  is_below_irrefl, is_below_asym, is_below_trans, not_below_above, starts_with-not_below,
  IsSorted-select, AllKeys, AllKeys-select, select-select, select_ext, select_none, All-select,
}

abbrev pub under : Bytes → Entries → Entries
under p = select (λ k. starts_with k p)

-- The loop emits what the limit leaves room for, and stops at the limit exactly if there is more.
walk_loop_lem :
    (p : Bytes) (limit taken room : ℕ) (es : Entries)
    → IsSorted es
    → All (λ e. is_below e.0 p ≡ false) es
    → taken + room ≡ limit
    → walk_loop p limit taken es ≡ (take room (under p es), ltb room (length (under p es)))
unfolding walk_loop select take
walk_loop_lem p limit taken zero [] s b h = ground arith
walk_loop_lem p limit taken (suc room) [] s b h = ground arith
walk_loop_lem p limit taken zero ((k, v) ∷ es) s b h = ground (arith, select_none p k es s.0 b.0)
walk_loop_lem p limit taken (suc room) ((k, v) ∷ es) s b h = ground (
  arith,
  select_none p k es s.0 b.0,
  walk_loop_lem p limit (taken + 1) room es s.1 b.1 (omega arith),
)

-- The rest of a sorted list behind the last entry of its first part.
Above-last :
    (j : Bytes) (n : ℕ) (es : Entries) (k v : Bytes)
    → Above j es
    → last? (take n es) ≡ some (k, v)
    → is_below j k ≡ true
unfolding take
Above-last j zero es k v a h = cc
Above-last j (suc n) [] k v a h = cc
Above-last j (suc zero) ((i, w) ∷ es) k v a h = ground arith
Above-last j (suc (suc n)) ((i, w) ∷ []) k v a h = ground arith
Above-last j (suc (suc n)) ((i, w) ∷ (i', w') ∷ es) k v a h =
    Above-last j (suc n) ((i', w') ∷ es) k v a.1 h

select-Above : (j : Bytes) (es : Entries) → Above j es → select (is_below j) es ≡ es
unfolding select
select-Above j [] h = refl
select-Above j ((k, v) ∷ es) h = rw (h.0, select-Above j es h.1)

behind_first : (j w : Bytes) (es : Entries) → Above j es → select (is_below j) ((j, w) ∷ es) ≡ es
unfolding select
behind_first j w es h = ground (arith, is_below_irrefl j, select-Above j es h)

behind_last :
    (n : ℕ) (es : Entries) (k v : Bytes)
    → IsSorted es
    → last? (take (suc n) es) ≡ some (k, v)
    → select (is_below k) es ≡ drop (suc n) es
unfolding take drop select
behind_last n [] k v s h = cc
behind_last zero ((j, w) ∷ es) k v s h =
    let same : j ≡ k = cc in
    subst (λ x. select (is_below x) ((j, w) ∷ es) ≡ es) same (behind_first j w es s.0)
behind_last (suc n) ((j, w) ∷ []) k v s h =
    let same : j ≡ k = cc in
    subst (λ x. select (is_below x) ((j, w) ∷ []) ≡ []) same (behind_first j w [] tt)
behind_last (suc n) ((j, w) ∷ (j', w') ∷ es) k v s h =
    let rest : last? (take (suc n) ((j', w') ∷ es)) ≡ some (k, v) = h in
    rw (is_below_asym j k (Above-last j (suc n) ((j', w') ∷ es) k v s.0 rest))
      (behind_last n ((j', w') ∷ es) k v s.1 rest)

-- What a scan is asked for: the entries under the prefix and behind the cursor, in key order.
unfoldable pub requested : Bytes → Option Bytes → Entries → Entries
requested p none es = under p es
requested p (some c) es = select (is_below c) (under p es)

-- A cursor is a key under the prefix of its scan.
abbrev pub IsCursor : Bytes → Option Bytes → Type 0
IsCursor p none = Unit
IsCursor p (some c) = starts_with c p ≡ true

-- The page that holds the first entries of a list.
abbrev pub page_of : ℕ → Entries → Page
page_of limit es = record {
  entries = take limit es;
  next =
      if ltb limit (length es)
      then map_option (λ (e : Bytes × Bytes). e.0) (last? (take limit es))
      else none;
}

under-range :
    (p : Bytes) (c : Option Bytes) (es : Entries)
    → IsCursor p c
    → under p (select (within (lower p c)) es) ≡ requested p c es
unfolding requested
under-range p none es h =
    select-select (λ k. starts_with k p) (λ k. not (is_below k p)) es
    ∙ select_ext (λ k. not (is_below k p) && starts_with k p) (λ k. starts_with k p) es
        (λ k. ground (arith, starts_with-not_below p k))
under-range p (some c) es h =
    select-select (λ k. starts_with k p) (is_below c) es
    ∙ select_ext (λ k. is_below c k && starts_with k p) (λ k. starts_with k p && is_below c k) es
        (λ k. and_comm (is_below c k) (starts_with k p))
    ∙ sym (select-select (is_below c) (λ k. starts_with k p) es)
  where
    and_comm : (a b : Bool) → (a && b) ≡ (b && a)
    and_comm a b = ground arith

range-NotBelow :
    (p : Bytes) (c : Option Bytes) (es : Entries)
    → IsCursor p c
    → All (λ e. is_below e.0 p ≡ false) (select (within (lower p c)) es)
range-NotBelow p none es h =
    All-mono (λ e. not (is_below e.0 p) ≡ true) (λ e. is_below e.0 p ≡ false) _
      (λ e q. ground arith) (AllKeys-select (λ k. not (is_below k p)) es)
range-NotBelow p (some c) es h =
    All-mono (λ e. is_below c e.0 ≡ true) (λ e. is_below e.0 p ≡ false) _
      (λ e q. not_below_above p c e.0 (starts_with-not_below p c h) q)
      (AllKeys-select (is_below c) es)

-- A cursor's requests lie behind it and under the prefix.
requested-behind : (p c : Bytes) (es : Entries) → AllKeys (is_below c) (requested p (some c) es)
unfolding requested
requested-behind p c es = AllKeys-select (is_below c) (under p es)

pub requested-under :
    (p : Bytes) (c : Option Bytes) (es : Entries)
    → AllKeys (λ k. starts_with k p) (requested p c es)
unfolding requested
requested-under p none es = AllKeys-select (λ k. starts_with k p) es
requested-under p (some c) es =
    All-select (λ e. starts_with e.0 p ≡ true) (is_below c) (under p es)
      (AllKeys-select (λ k. starts_with k p) es)

-- Behind the last entry of a page stands the rest of what was requested.
pub requested-last :
    (p : Bytes) (c : Option Bytes) (es : Entries) (n : ℕ) (k v : Bytes)
    → IsSorted es
    → last? (take (suc n) (requested p c es)) ≡ some (k, v)
    → requested p (some k) es ≡ drop (suc n) (requested p c es)
requested-last p none es n k v s h =
    unfold requested in
    behind_last n (under p es) k v (IsSorted-select (λ k. starts_with k p) es s) h
requested-last p (some c) es n k v s h =
    sym narrowed ∙ behind_last n (requested p (some c) es) k v sorted h
  where
    sorted : IsSorted (requested p (some c) es)
    sorted =
        unfold requested in
        IsSorted-select (is_below c) (under p es) (IsSorted-select (λ k. starts_with k p) es s)

    further : is_below c k ≡ true
    further =
        All-last?-take (λ e. is_below c e.0 ≡ true) (suc n) (requested p (some c) es) (k, v)
          (requested-behind p c es) h

    narrower : (j : Bytes) → (is_below c j && is_below k j) ≡ is_below k j
    narrower j = ground (arith, is_below_trans c k j further)

    narrowed : select (is_below k) (requested p (some c) es) ≡ requested p (some k) es
    narrowed =
        unfold requested in
        (select-select (is_below k) (is_below c) (under p es)
          ∙ select_ext (λ j. is_below c j && is_below k j) (is_below k) (under p es) narrower)

pub page_of_more :
    (limit : ℕ) (es : Entries) (k v : Bytes)
    → ltb limit (length es) ≡ true
    → last? (take limit es) ≡ some (k, v)
    → page_of limit es ≡ record { entries = take limit es; next = some k }
page_of_more limit es k v more h = ground arith

pub page_of_done :
    (limit : ℕ) (es : Entries)
    → ltb limit (length es) ≡ false
    → page_of limit es ≡ record { entries = es; next = none }
page_of_done limit es done = ground (arith, take_all limit es)

-- Another page, if there is a cursor for it.
abbrev follow : Option Bytes → (Bytes → Entries) → Entries
follow none rest = []
follow (some k) rest = rest k

module _ (R : RedbTable) where
  -- A scan with a positive limit answers with the first entries, and with a cursor exactly if there are
  -- more: the key of the last entry answered.
  pub scan-page_of :
      (t : R.Table) (p : Bytes) (c : Option Bytes) (limit : ℕ)
      → IsCursor p c
      → 0 < limit
      → scan R t p c limit ≡ page_of limit (requested p c (R.entries t))
  unfolding scan walk
  scan-page_of t p c limit h pos = rw walked (ground arith)
    where
      walked : walk_loop p limit 0 (R.range t (lower p c)) ≡ (
        take limit (requested p c (R.entries t)),
        ltb limit (length (requested p c (R.entries t))),
      )
      walked = rw (R.range-entries t (lower p c)) (
          walk_loop_lem p limit 0 limit (select (within (lower p c)) (R.entries t))
            (IsSorted-select (within (lower p c)) (R.entries t) (R.entries_sorted t))
            (range-NotBelow p c (R.entries t) h) (omega arith)
          ∙ rw (under-range p c (R.entries t) h))

  -- Scans that follow the cursors, up to a number of pages.
  pub pages : ℕ → R.Table → Bytes → Option Bytes → ℕ → Entries
  pages zero t p c limit = []
  pages (suc fuel) t p c limit =
      let page = scan R t p c limit in
      page.entries ++ follow page.next (λ k. pages fuel t p (some k) limit)

  -- With the first page known.
  pages_step :
      (fuel : ℕ) (t : R.Table) (p : Bytes) (c : Option Bytes) (limit : ℕ) (page : Page)
      → scan R t p c limit ≡ page
      → pages (suc fuel) t p c limit
        ≡ page.entries ++ follow page.next (λ k. pages fuel t p (some k) limit)
  unfolding pages
  pages_step fuel t p c limit page e = rw e

  -- Whatever the positive limit: pages that follow the cursors until there is none give every entry
  -- under the prefix and behind the first cursor, once and in key order. As many pages as there are
  -- entries, and one more, are enough.
  pub pages-requested :
      (fuel : ℕ) (t : R.Table) (p : Bytes) (c : Option Bytes) (limit : ℕ)
      → IsCursor p c
      → 0 < limit
      → length (requested p c (R.entries t)) < fuel
      → pages fuel t p c limit ≡ requested p c (R.entries t)
  pages-requested zero t p c limit h pos room = absurd (omega arith)
  pages-requested (suc fuel) t p c zero h pos room = absurd (omega arith)
  pages-requested (suc fuel) t p c (suc n) h pos room =
      elim (Bool-cases (ltb (suc n) (length (requested p c (R.entries t))))) [
        | inl more ↦
            let ((k, v), q) = last?-take n req (omega tests) in
            let behind : requested p (some k) (R.entries t) ≡ drop (suc n) req =
              requested-last p c (R.entries t) n k v (R.entries_sorted t) q in
            let cursor : IsCursor p (some k) =
              All-last?-take (λ e. starts_with e.0 p ≡ true) (suc n) req (k, v)
                (requested-under p c (R.entries t)) q in
            pages_step fuel t p c (suc n) _ (page ∙ page_of_more (suc n) req k v more q)
            ∙ ap (λ es. take (suc n) req ++ es)
                (pages-requested fuel t p (some k) (suc n) cursor pos
                    (omega (tests, ap length behind, length-drop (suc n) req))
                  ∙ behind)
            ∙ take-append-drop (suc n) req
        | inr done ↦
            pages_step fuel t p c (suc n) _ (page ∙ page_of_done (suc n) req done) ∙ append-nil req
      ]
    where
      req : Entries
      req = requested p c (R.entries t)

      page : scan R t p c (suc n) ≡ page_of (suc n) (requested p c (R.entries t))
      page = scan-page_of t p c (suc n) h pos
