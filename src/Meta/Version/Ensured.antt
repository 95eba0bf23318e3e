-- ===== src/Meta/Version/Ensured.antt =====
-- What opening a store does, by its marker: what it answers and what it leaves in the store.
use mathlib.Core.List.{Perm}
use mathlib.Core.List.Perm
use summ.Prelude.{
  ℕ, ◌<◌, ◌≤◌, ◌^◌, ◌==◌, ◌≡◌, ◌≢◌, ◌⊎◌, inl, inr, refl, ap, sym, ◌∙◌, subst, Option, none, some,
  Bool, true, false, List, [], ◌∷◌, Bytes, bytes_eq, bytes_eq_self, leb, ltb, length, Bool-cases,
  if◌then◌else◌, arith, Result, ok, err,
}
use summ.Prelude.BigEndian.{from_be}
use summ.Core.Keys.{db_version}
use summ.Meta.Engine.{MetaEngine, KeyPage, keys_of}
use summ.Meta.Redb.{Entries, find, select}
use summ.Meta.Redb.Paging.{requested, page_of, under}
use summ.Meta.Scans.{Scans}
use summ.Meta.Version.{
  VersionError, bad_marker, predates_versioning, newer, schema_version, decode, Migration, declared,
  read, stamp, is_empty, insert_step, sort_steps, run_steps, ensure,
}
use summ.Meta.Version.Runs.{
  Opened, IsStamped, Runs, stamp-IsStamped, IsMarked, Runs-IsMarked, run_steps-Runs, IsAscending,
}

module _ (E : MetaEngine) where
  perm-insert_step :
      (m : Migration E) (ms : List (Migration E)) → Perm (insert_step E m ms) (m ∷ ms)
  unfolding insert_step
  perm-insert_step m [] = Perm.refl (m ∷ [])
  perm-insert_step m (n ∷ ms) = by_test (leb m.to n.to) (perm-insert_step m ms)
    where
      by_test :
          (b : Bool)
          → Perm (insert_step E m ms) (m ∷ ms)
          → Perm (if b then m ∷ n ∷ ms else n ∷ insert_step E m ms) (m ∷ n ∷ ms)
      by_test true ih = Perm.refl (m ∷ n ∷ ms)
      by_test false ih = Perm.trans (Perm.cons n ih) (Perm.swap m n ms)

  perm-sort_steps : (ms : List (Migration E)) → Perm (sort_steps E ms) ms
  unfolding sort_steps
  perm-sort_steps [] = Perm.refl []
  perm-sort_steps (m ∷ ms) =
      Perm.trans (perm-insert_step m (sort_steps E ms)) (Perm.cons m (perm-sort_steps ms))

  insert_step-IsAscending :
      (m : Migration E) (ms : List (Migration E))
      → IsAscending E ms
      → IsAscending E (insert_step E m ms)
  unfolding insert_step
  insert_step-IsAscending m [] h = tt
  insert_step-IsAscending m (n ∷ []) h = elim (Bool-cases (leb m.to n.to)) [
    | inl e ↦ rw e (ground arith, tt)
    | inr e ↦ rw e (ground arith, tt)
  ]
  insert_step-IsAscending m (n ∷ o ∷ ms) h =
      by_tests (leb m.to n.to) refl (leb m.to o.to) refl (insert_step-IsAscending m (o ∷ ms) h.1)
    where
      by_tests :
          (a : Bool)
          → leb m.to n.to ≡ a
          → (b : Bool) → leb m.to o.to ≡ b
          → IsAscending E (if b then m ∷ o ∷ ms else o ∷ insert_step E m ms)
          → IsAscending E
              (if a then m ∷ n ∷ o ∷ ms else n ∷ (if b then m ∷ o ∷ ms else o ∷ insert_step E m ms))
      by_tests true ea b eb ih = (ground arith, h)
      by_tests false ea true eb ih = (ground arith, ih)
      by_tests false ea false eb ih = (h.0, ih)

  sort_steps-IsAscending : (ms : List (Migration E)) → IsAscending E (sort_steps E ms)
  unfolding sort_steps
  sort_steps-IsAscending [] = tt
  sort_steps-IsAscending (m ∷ ms) =
      insert_step-IsAscending m (sort_steps E ms) (sort_steps-IsAscending ms)

  -- A store with no key, and a store with one.
  abbrev pub IsEmpty : E.State → Type 0
  IsEmpty s = (k : Bytes) → E.get s k ≡ none

  abbrev pub HoldsData : E.State → Type 0
  HoldsData s = (k : Bytes) × (v : Bytes) × (E.get s k ≡ some v)

  -- What opening does, by the marker: none, four bytes, or anything else.
  abbrev pub IsOpened : E.State → List (Migration E) → Option Bytes → Opened E → Type 0
  IsOpened s migrations none r =
      (IsEmpty s × (r.0 ≡ ok 2) × IsStamped E s 2 r.1)
      ⊎ (HoldsData s × (r ≡ (err predates_versioning, s)))
  IsOpened s migrations (some raw) r =
      ((length raw ≢ 4) × (r ≡ (err bad_marker, s)))
      ⊎ ((length raw ≡ 4) × (2 < from_be raw) × (r ≡ (err (newer (from_be raw)), s)))
      ⊎ ((length raw ≡ 4)
          × (from_be raw ≤ 2)
          × (steps : List (Migration E)) × Perm steps migrations
          × IsAscending E steps
          × Runs E (from_be raw) s steps r
          × IsMarked E r)

  decode_four : (raw : Bytes) → (length raw == 4) ≡ true → decode raw ≡ ok (from_be raw)
  unfolding decode
  decode_four raw e = rw e refl

  decode_other : (raw : Bytes) → (length raw == 4) ≡ false → decode raw ≡ err bad_marker
  unfolding decode
  decode_other raw e = rw e refl

  of_decoded : Result VersionError ℕ → Result VersionError (Option ℕ)
  of_decoded r = elim r as (λ x. Result VersionError (Option ℕ)) [
    | err e ↦ err e
    | ok v ↦ ok (some v)
  ]

  module _ (S : Scans E) where
    has_no_key : KeyPage → Bool
    has_no_key page = elim page.keys [ [] ↦ true | k ∷ ks ↦ false ]

    select_all : (es : Entries) → under [] es ≡ es
    unfolding select
    select_all [] = refl
    select_all (e ∷ es) = ap (λ t. e ∷ t) (select_all es)

    is_empty_cases :
        (s : E.State) → ((is_empty E s ≡ true) × IsEmpty s) ⊎ ((is_empty E s ≡ false) × HoldsData s)
    unfolding has_no_key summ.Prelude.take
    is_empty_cases s = by_entries (S.entries s) (S.get-entries s) (
        S.scan_keys-page_of s [] none 1 tt (omega arith)
        ∙ ap (λ es. keys_of (page_of 1 es)) (unfold requested in select_all (S.entries s)))
      where
        by_entries :
            (es : Entries)
            → ((k : Bytes) → E.get s k ≡ find k es)
            → E.scan_keys s [] none 1 ≡ keys_of (page_of 1 es)
            → ((is_empty E s ≡ true) × IsEmpty s) ⊎ ((is_empty E s ≡ false) × HoldsData s)
        by_entries [] h e =
            inl ((unfold is_empty keys_of in ap has_no_key e), (λ k. h k ∙ (unfold find in refl)))
        by_entries ((k, v) ∷ es) h e = inr (
          (unfold is_empty keys_of in ap has_no_key e),
          (k, v, h k ∙ (unfold find in rw (bytes_eq_self k) refl)),
        )

    -- Opening a store. Without a marker, an empty store gets the marker of this build and nothing else, and
    -- a store with data is refused and left as it is. A marker that is not four bytes, or that is newer than
    -- this build, is refused and the store left as it is. Otherwise the migrations run in the order of their
    -- versions: one at or below the version reached is passed over, one beyond this build or one that fails
    -- ends the run, and one that succeeds is followed by its marker and no other change; a run that does not
    -- reach this build's version is refused. If the version of this build is returned, the store carries it.
    pub ensure-IsOpened :
        (s : E.State) (migrations : List (Migration E))
        → IsOpened s migrations (E.get s db_version) (ensure E s migrations)
    unfolding ensure read of_decoded
    ensure-IsOpened s migrations = by_marker (E.get s db_version) refl
      where
        unmarked : IsOpened s migrations none (
            if is_empty E s
            then (ok schema_version, stamp E s schema_version)
            else (err predates_versioning, s))
        unmarked = elim (is_empty_cases s) [
          | inl (e, none_held) ↦ rw e (inl (none_held, refl, stamp-IsStamped E s 2))
          | inr (e, held) ↦ rw e (inr (held, refl))
        ]

        by_version :
            (raw : Bytes)
            → E.get s db_version ≡ some raw
            → length raw ≡ 4
            → IsOpened s migrations (some raw) (
                if ltb schema_version (from_be raw)
                then (err (newer (from_be raw)), s)
                else run_steps E (from_be raw) s (sort_steps E migrations))
        by_version raw held len = elim (Bool-cases (ltb schema_version (from_be raw))) [
          | inl e ↦ rw e (inr (inl (len, ground arith, refl)))
          | inr e ↦
              let steps = sort_steps E migrations in
              let runs = run_steps-Runs E (from_be raw) s steps in
              rw e (
                inr (
                  inr (
                    len,
                    ground arith,
                    steps,
                    perm-sort_steps migrations,
                    sort_steps-IsAscending migrations,
                    runs,
                    Runs-IsMarked E (from_be raw) s steps _ (raw, held, len, refl) runs,
                  )))
        ]

        found : Result VersionError (Option ℕ) → Opened E
        found r = elim r as (λ x. Opened E) [
          | err e ↦ (err e, s)
          | ok none ↦
              if is_empty E s
              then (ok schema_version, stamp E s schema_version)
              else (err predates_versioning, s)
          | ok (some v) ↦
              if ltb schema_version v
              then (err (newer v), s)
              else run_steps E v s (sort_steps E migrations)
        ]

        by_marker :
            (o : Option Bytes)
            → E.get s db_version ≡ o
            → IsOpened s migrations o (found (declared E o))
        by_marker none held = unmarked
        by_marker (some raw) held = elim (Bool-cases (length raw == 4)) [
          | inl e ↦
              subst (λ d. IsOpened s migrations (some raw) (found (of_decoded d)))
                (sym (decode_four raw e)) (by_version raw held (ground arith))
          | inr e ↦
              subst (λ d. IsOpened s migrations (some raw) (found (of_decoded d)))
                (sym (decode_other raw e)) (inl ((λ q. ground arith), refl))
        ]
