-- ===== src/Registry/Drain.antt =====
-- summ-registry/src/delete.rs: `drain`, which walks every key under a prefix page by page.
pub mod Ends
use summ.Prelude.{
  ℕ, zero, suc, ◌+◌, ◌<◌, ◌≡◌, refl, sym, ap, ◌∙◌, Option, none, some, List, [], ◌∷◌, ◌++◌, map,
  map_option, Bytes, starts_with, length, take, drop, last?, last?-take, length-drop,
  take-append-drop, append-nil, ltb, arith, tests, Bool-cases, inl, inr, if◌then◌else◌, true, false,
  All-last?-take,
}
use summ.Meta.Engine.{KeyPage, MetaEngine, keys_of}
use summ.Meta.Redb.{Entries}
use summ.Meta.Redb.Paging.{
  requested, IsCursor, page_of, page_of_more, page_of_done, requested-last, requested-under, under,
}
use summ.Meta.Scans.{Scans}
use summ.Registry.Outcome.{Outcome, done, fail, panicked, ◌>>=◌}

abbrev pub drain_page : ℕ
drain_page = 256

-- The callback at each key of a page, up to its first error.
unfoldable pub each {ℓ} : {A : Type ℓ} → (Bytes → A → Outcome A) → List Bytes → A → Outcome A
each f [] a = done a
each f (key ∷ keys) a = f key a >>= each f keys

abbrev pub fst_of : Bytes × Bytes → Bytes
fst_of e = e.0

-- The page's outcome, and the next page if there is a cursor for it.
abbrev pub next_page {ℓ} :
    {A : Type ℓ} → Outcome A → Option Bytes → (Bytes → A → Option (Outcome A)) → Option (Outcome A)
next_page (done a) none rest = some (done a)
next_page (done a) (some k) rest = rest k a
next_page (fail e) c rest = some (fail e)
next_page panicked c rest = some panicked

module _ (E : MetaEngine) where
  -- The loop, with the number of pages that it may ask for; `none` if they do not suffice.
  unfoldable pub drain_loop {ℓ} :
      {A : Type ℓ}
      → ℕ
      → E.State
      → Bytes
      → Option Bytes
      → (Bytes → A → Outcome A)
      → A
      → Option (Outcome A)
  unfolding each
  drain_loop zero s p c f a = none
  drain_loop (suc fuel) s p c f a =
      let page = E.scan_keys s p c drain_page in
      next_page (each f page.keys a) page.next (λ k b. drain_loop fuel s p (some k) f b)

  module _ (S : Scans E) where
    -- The keys that a drain visits, in order.
    abbrev pub keys_under : E.State → Bytes → List Bytes
    keys_under s p = map fst_of (requested p none (S.entries s))

    abbrev pub ended {ℓ} : {A : Type ℓ} → Option (Outcome A) → Outcome A
    ended none = panicked
    ended (some r) = r

    -- A store has at most as many pages as entries, and one more.
    unfoldable pub drain {ℓ} :
        {A : Type ℓ} → E.State → Bytes → (Bytes → A → Outcome A) → A → Outcome A
    unfolding drain_loop
    drain s p f a = ended (drain_loop (suc (length (S.entries s))) s p none f a)
