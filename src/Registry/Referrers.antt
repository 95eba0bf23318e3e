-- ===== src/Registry/Referrers.antt =====
-- summ-registry/src/referrers.rs: the referrers of a subject, and the filter on their type.
pub mod Listing
use summ.Prelude.{
  ℕ, Option, none, some, Bool, true, false, List, [], ◌∷◌, Bytes, bytes_eq, codes, map_option,
  if◌then◌else◌, Result, ok, err,
}
use summ.Core.Digest.{Digest}
use summ.Core.Types.{ReferrerRecord}
use summ.Core.Keys
use summ.Core.Keys.{RepoId}
use summ.Meta.Engine.{MetaEngine}
use summ.Meta.Interner.{LruCache, RepoInterner, InvalidData, lookup}
use summ.Registry.Outcome.{Outcome, done, fail, meta, corrupt, require, ◌>>=◌}
use summ.Registry.Records.{Records}
use summ.Registry.Suffix.{second_digest_after_repo}

pub record ReferrerEntry : Type 0 where
  pub digest : Digest
  pub referrer : ReferrerRecord

pub record ReferrerList : Type 0 where
  pub entries : List ReferrerEntry
  pub next : Option Digest
  pub filter_applied : Bool

-- The type asked for, if one is.
abbrev pub has_type : Bytes → Option Bytes → Bool
has_type wanted none = false
has_type wanted (some artifact_type) = bytes_eq artifact_type wanted

unfoldable pub is_wanted : Option Bytes → ReferrerRecord → Bool
is_wanted none r = true
is_wanted (some wanted) r = has_type wanted r.artifact_type

abbrev pub is_given : Option Bytes → Bool
is_given none = false
is_given (some x) = true

-- The cursor behind the page.
unfoldable pub next_referrer : Option Bytes → Outcome (Option Digest)
next_referrer none = done none
next_referrer (some key) =
    require (second_digest_after_repo key) (corrupt (codes "referrer cursor"))
    >>= (λ d. done (some d))

module _ (R : Records) where
  -- The loop of `referrers`.
  unfoldable pub referrer_entries :
      Option Bytes → List (Bytes × Bytes) → Outcome (List ReferrerEntry)
  unfolding is_wanted
  referrer_entries artifact_type [] = done []
  referrer_entries artifact_type ((key, value) ∷ entries) =
      require (second_digest_after_repo key) (corrupt (codes "referrer key")) >>= (λ digest.
        require (R.decode_referrer value) (corrupt (codes "ReferrerRecord"))
        >>= (λ (r : ReferrerRecord). referrer_entries artifact_type entries >>= (λ rest. done (
            if is_wanted artifact_type r
            then record { digest = digest; referrer = r } ∷ rest
            else rest))))

  module _ (E : MetaEngine) where
    -- `referrers`, with the repository's id known.
    unfoldable pub listed_referrers :
        E.State → Digest → Option Bytes → Option Digest → ℕ → RepoId → Outcome ReferrerList
    unfolding referrer_entries next_referrer
    listed_referrers s subject artifact_type start_after limit repo =
        let page =
          E.scan s (Keys.referrers_of repo subject)
            (map_option (Keys.referrer repo subject) start_after) limit in
        referrer_entries artifact_type page.entries >>= (λ entries.
          next_referrer page.next >>= (λ next.
            done
              (record { entries = entries; next = next; filter_applied = is_given artifact_type })))

    module _ (N : LruCache Bytes RepoId) (I : LruCache RepoId Bytes) where
      -- An unknown repository has no referrers.
      abbrev pub in_repo :
          Bool
          → (RepoId → Outcome ReferrerList)
          → Result InvalidData (Option RepoId)
          → Outcome ReferrerList
      in_repo filter_applied call (err e) = fail (meta (codes "repo id"))
      in_repo filter_applied call (ok none) =
          done (record { entries = []; next = none; filter_applied = filter_applied })
      in_repo filter_applied call (ok (some id)) = call id

      unfoldable pub referrers :
          E.State
          → RepoInterner E N I
          → Bytes
          → Digest
          → Option Bytes
          → Option Digest
          → ℕ
          → Outcome ReferrerList × RepoInterner E N I
      unfolding listed_referrers
      referrers s i repo subject artifact_type start_after limit =
          let (found, i') = lookup E N I s i repo in
          (
            in_repo (is_given artifact_type)
                (listed_referrers s subject artifact_type start_after limit) found,
            i',
          )
