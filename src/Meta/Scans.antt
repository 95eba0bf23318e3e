-- ===== src/Meta/Scans.antt =====
-- summ-meta/src/engine.rs: what the comments of the trait promise of `scan` and `scan_keys`, for clients
-- that page.
use summ.Prelude.{
  ℕ, ◌<◌, ◌≡◌, refl, Option, [], ◌∷◌, map, Bytes, ◌∙◌, ap, last?, map_option, ◌==◌, Bool-cases, inl,
  inr,
}
use summ.Meta.Engine.{MetaEngine, keys_of}
use summ.Meta.Redb.{Entries, find, IsSorted, RedbTable, walk, scan, scan_keys}
use summ.Meta.Redb.Paging.{requested, IsCursor, page_of, scan-page_of}
use summ.Meta.Redb.Refines.{redb_engine}

-- A store's entries in key order, and a page as the first of them that a scan is asked for.
pub record Scans (E : MetaEngine) : Type 0 where
  pub entries : E.State → Entries
  pub entries_sorted : (s : E.State) → IsSorted (entries s)
  pub get-entries : (s : E.State) (k : Bytes) → E.get s k ≡ find k (entries s)
  pub scan-page_of :
      (s : E.State) (p : Bytes) (c : Option Bytes) (limit : ℕ)
      → IsCursor p c
      → 0 < limit
      → E.scan s p c limit ≡ page_of limit (requested p c (entries s))
  pub scan_keys-page_of :
      (s : E.State) (p : Bytes) (c : Option Bytes) (limit : ℕ)
      → IsCursor p c
      → 0 < limit
      → E.scan_keys s p c limit ≡ keys_of (page_of limit (requested p c (entries s)))

last?-map :
    (es : Entries)
    → last? (map (λ (e : Bytes × Bytes). e.0) es)
      ≡ map_option (λ (e : Bytes × Bytes). e.0) (last? es)
last?-map [] = refl
last?-map (e ∷ []) = refl
last?-map (e ∷ f ∷ es) = last?-map (f ∷ es)

module _ (R : RedbTable) where
  -- The keys of a page are those of the scan with values.
  scan_keys-scan :
      (t : R.Table) (p : Bytes) (c : Option Bytes) (limit : ℕ)
      → scan_keys R t p c limit ≡ keys_of (scan R t p c limit)
  unfolding scan_keys scan keys_of
  scan_keys-scan t p c limit = elim (Bool-cases (limit == 0)) [
    | inl z ↦ rw z refl
    | inr z ↦ rw (z, last?-map (walk R t p c limit).0) refl
  ]

  pub scan_keys-page :
      (t : R.Table) (p : Bytes) (c : Option Bytes) (limit : ℕ)
      → IsCursor p c
      → 0 < limit
      → scan_keys R t p c limit ≡ keys_of (page_of limit (requested p c (R.entries t)))
  scan_keys-page t p c limit h pos =
      scan_keys-scan t p c limit ∙ ap keys_of (scan-page_of R t p c limit h pos)

  abbrev pub redb_scans : Scans (redb_engine R)
  redb_scans = record {
    entries = R.entries;
    entries_sorted = R.entries_sorted;
    get-entries = R.get-entries;
    scan-page_of = scan-page_of R;
    scan_keys-page_of = scan_keys-page;
  }
