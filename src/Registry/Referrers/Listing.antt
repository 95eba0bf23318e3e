-- ===== src/Registry/Referrers/Listing.antt =====
-- What a page of referrers lists, against the entries of the store's page.
use summ.Prelude.{
  ℕ, ◌≡◌, ◌⊎◌, inl, inr, refl, ap, sym, Option, none, some, Bool, true, false, List, [], ◌∷◌, Bytes,
  bytes_eq→eq, bytes_eq_self, codes, Bool-cases, if◌then◌else◌, map_option, Result, ok, err,
}
use summ.Core.Digest.{Digest}
use summ.Core.Types.{ReferrerRecord}
use summ.Core.Keys
use summ.Core.Keys.{RepoId}
use summ.Meta.Engine.{MetaEngine, Page}
use summ.Meta.Interner.{LruCache, RepoInterner, InvalidData, lookup}
use summ.Registry.Outcome.{Outcome, done, fail, panicked, meta, corrupt, require, ◌>>=◌}
use summ.Registry.Records.{Records}
use summ.Registry.Suffix.{second_digest_after_repo}
use summ.Registry.Referrers.{
  ReferrerEntry, ReferrerList, is_wanted, next_referrer, referrer_entries, listed_referrers,
  in_repo, referrers, is_given,
}

-- A record that the call asks for.
abbrev pub Matches : Option Bytes → ReferrerRecord → Type 0
Matches none r = Unit
Matches (some wanted) r = r.artifact_type ≡ some wanted

is_wanted-Matches : (t : Option Bytes) (r : ReferrerRecord) → is_wanted t r ≡ true → Matches t r
unfolding is_wanted
is_wanted-Matches none r h = tt
is_wanted-Matches (some wanted) r h = by_type r.artifact_type h
  where
    by_type :
        (o : Option Bytes)
        → is_wanted (some wanted) (record r { artifact_type = o }) ≡ true
        → o ≡ some wanted
    by_type none e = absurd (cc e)
    by_type (some x) e = ap (λ b. some b) (bytes_eq→eq x wanted e)

is_wanted-only : (t : Option Bytes) (r : ReferrerRecord) → is_wanted t r ≡ false → Matches t r → ⊥
unfolding is_wanted
is_wanted-only none r h m = cc h
is_wanted-only (some wanted) r h m =
    let same : is_wanted (some wanted) r ≡ true = rw m (bytes_eq_self wanted) in cc (h, same)

module _ (R : Records) where
  -- The entries of a page and what is listed of them, in order: every one is read, and listed exactly if
  -- its record matches.
  pub data Lists (t : Option Bytes) : List (Bytes × Bytes) → List ReferrerEntry → Type 0 where
    at_end : Lists t [] []
    listed :
        {key value : Bytes} {entries : List (Bytes × Bytes)} {out : List ReferrerEntry} (d : Digest)
        (r : ReferrerRecord)
        → second_digest_after_repo key ≡ some d
        → R.decode_referrer value ≡ some r
        → Matches t r
        → Lists t entries out
        → Lists t ((key, value) ∷ entries) (record { digest = d; referrer = r } ∷ out)
    passed_over :
        {key value : Bytes} {entries : List (Bytes × Bytes)} {out : List ReferrerEntry} (d : Digest)
        (r : ReferrerRecord)
        → second_digest_after_repo key ≡ some d
        → R.decode_referrer value ≡ some r
        → (Matches t r → ⊥)
        → Lists t entries out
        → Lists t ((key, value) ∷ entries) out

  -- A key or a record of the page does not decode.
  abbrev pub IsUnreadable : List (Bytes × Bytes) → Type 0
  IsUnreadable [] = ⊥
  IsUnreadable ((key, value) ∷ entries) =
      (second_digest_after_repo key ≡ none)
      ⊎ (R.decode_referrer value ≡ none)
      ⊎ IsUnreadable entries

  abbrev pub IsLoop : Option Bytes → List (Bytes × Bytes) → Outcome (List ReferrerEntry) → Type 0
  IsLoop t entries (done out) = Lists t entries out
  IsLoop t entries (fail e) = IsUnreadable entries
  IsLoop t entries panicked = ⊥

  referrer_entries-IsLoop :
      (t : Option Bytes) (entries : List (Bytes × Bytes))
      → IsLoop t entries (referrer_entries R t entries)
  unfolding referrer_entries
  referrer_entries-IsLoop t [] = at_end
  referrer_entries-IsLoop t ((key, value) ∷ entries) =
      by_key (second_digest_after_repo key) refl (R.decode_referrer value) refl
        (referrer_entries R t entries) (referrer_entries-IsLoop t entries)
    where
      by_key :
          (d : Option Digest)
          → second_digest_after_repo key ≡ d
          → (o : Option ReferrerRecord) → R.decode_referrer value ≡ o
          → (rest : Outcome (List ReferrerEntry)) → IsLoop t entries rest
          → IsLoop t ((key, value) ∷ entries) (
              require d (corrupt (codes "referrer key")) >>= (λ digest.
                require o (corrupt (codes "ReferrerRecord")) >>= (λ (r : ReferrerRecord).
                  rest >>= (λ out. done (
                    if is_wanted t r
                    then record { digest = digest; referrer = r } ∷ out
                    else out)))))
      by_key none ed o eo rest h = inl ed
      by_key (some d) ed none eo rest h = inr (inl eo)
      by_key (some d) ed (some r) eo (fail e) h = inr (inr h)
      by_key (some d) ed (some r) eo panicked h = h
      by_key (some d) ed (some r) eo (done out) h = elim (Bool-cases (is_wanted t r)) [
        | inl w ↦ rw w (listed d r ed eo (is_wanted-Matches t r w) h)
        | inr w ↦ rw w (passed_over d r ed eo (is_wanted-only t r w) h)
      ]

  -- The digest in a cursor, and a cursor that has none.
  abbrev pub cursor_digest : Option Bytes → Option Digest
  cursor_digest none = none
  cursor_digest (some key) = second_digest_after_repo key

  abbrev pub IsBadCursor : Option Bytes → Type 0
  IsBadCursor none = ⊥
  IsBadCursor (some key) = second_digest_after_repo key ≡ none

  abbrev pub marks : Option Bytes → Bool
  marks none = false
  marks (some wanted) = true

  -- A listing of a page, or an error for what does not decode in it.
  abbrev pub IsPageListing : Option Bytes → Page → Outcome ReferrerList → Type 0
  IsPageListing t page (done l) =
      Lists t page.entries l.entries
      × (l.next ≡ cursor_digest page.next)
      × (l.filter_applied ≡ marks t)
  IsPageListing t page (fail e) = IsUnreadable page.entries ⊎ IsBadCursor page.next
  IsPageListing t page panicked = ⊥

  is_given-marks : (t : Option Bytes) → is_given t ≡ marks t
  is_given-marks none = refl
  is_given-marks (some wanted) = refl

  module _ (E : MetaEngine) where
    -- The page that the repository's edges of the subject are read from.
    abbrev pub page_of_subject : E.State → Digest → Option Digest → ℕ → RepoId → Page
    page_of_subject s subject start_after limit repo =
        E.scan s (Keys.referrers_of repo subject)
          (map_option (Keys.referrer repo subject) start_after) limit

    listed_referrers-IsPageListing :
        (s : E.State) (subject : Digest) (t : Option Bytes) (start_after : Option Digest)
        (limit : ℕ) (repo : RepoId)
        → IsPageListing t
            (page_of_subject s subject start_after limit repo)
            (listed_referrers R E s subject t start_after limit repo)
    unfolding listed_referrers next_referrer
    listed_referrers-IsPageListing s subject t start_after limit repo =
        by_loop (page_of_subject s subject start_after limit repo)
          (referrer_entries R t (page_of_subject s subject start_after limit repo).entries)
          (referrer_entries-IsLoop t (page_of_subject s subject start_after limit repo).entries)
      where
        by_next :
            (entries : List (Bytes × Bytes)) (next : Option Bytes) (out : List ReferrerEntry)
            → Lists t entries out
            → (o : Option Digest) → (key : Bytes) → second_digest_after_repo key ≡ o
            → IsPageListing t
                (record { entries = entries; next = some key })
                (require o (corrupt (codes "referrer cursor"))
                  >>= (λ d. done (some d))
                  >>= (λ n. done (record { entries = out; next = n; filter_applied = is_given t })))
        by_next entries next out h none key e = inr e
        by_next entries next out h (some d) key e = (h, sym e, is_given-marks t)

        by_cursor :
            (entries : List (Bytes × Bytes)) (next : Option Bytes) (out : List ReferrerEntry)
            → Lists t entries out
            → IsPageListing t
                (record { entries = entries; next = next })
                (next_referrer next
                  >>= (λ n. done (record { entries = out; next = n; filter_applied = is_given t })))
        by_cursor entries none out h = (h, refl, is_given-marks t)
        by_cursor entries (some key) out h =
            by_next entries none out h (second_digest_after_repo key) key refl

        by_loop :
            (page : Page) (o : Outcome (List ReferrerEntry))
            → IsLoop t page.entries o
            → IsPageListing t page (
                o >>= (λ entries. next_referrer page.next >>= (λ n.
                  done (record { entries = entries; next = n; filter_applied = is_given t }))))
        by_loop page (done out) h = by_cursor page.entries page.next out h
        by_loop page (fail e) h = inl h
        by_loop page panicked h = h

    -- What the call answers, by what the name is looked up as.
    abbrev pub IsListing :
        E.State
        → Digest
        → Option Bytes
        → Option Digest
        → ℕ
        → Result InvalidData (Option RepoId)
        → Outcome ReferrerList
        → Type 0
    IsListing s subject t start_after limit (err e) o = o ≡ fail (meta (codes "repo id"))
    IsListing s subject t start_after limit (ok none) o =
        o ≡ done (record { entries = []; next = none; filter_applied = marks t })
    IsListing s subject t start_after limit (ok (some id)) o =
        IsPageListing t (page_of_subject s subject start_after limit id) o

    -- The call lists, in order, exactly the edges of the store's page whose record has the type asked for,
    -- all of them if none is asked for; its cursor is the digest in the page's cursor, and it says that the
    -- filter was applied exactly if a type was asked for. It fails only if a key, a record or the cursor of
    -- the page does not decode, whether it would be listed or not. An unknown repository has an empty list.
    pub referrers-IsListing :
        (N : LruCache Bytes RepoId) (I : LruCache RepoId Bytes) (s : E.State)
        (i : RepoInterner E N I) (repo : Bytes) (subject : Digest) (artifact_type : Option Bytes)
        (start_after : Option Digest) (limit : ℕ)
        → IsListing s subject artifact_type start_after limit
            (lookup E N I s i repo).0
            (referrers R E N I s i repo subject artifact_type start_after limit).0
    unfolding referrers
    referrers-IsListing N I s i repo subject t start_after limit =
        by_found (lookup E N I s i repo).0
      where
        by_found :
            (found : Result InvalidData (Option RepoId))
            → IsListing s subject t start_after limit found (
                in_repo R E N I
                  (is_given t)
                  (listed_referrers R E s subject t start_after limit)
                  found)
        by_found (err e) = refl
        by_found (ok none) =
            ap (λ b. done (record { entries = []; next = none; filter_applied = b }))
              (is_given-marks t)
        by_found (ok (some id)) = listed_referrers-IsPageListing s subject t start_after limit id
