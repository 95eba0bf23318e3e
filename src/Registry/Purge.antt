-- ===== src/Registry/Purge.antt =====
-- summ-registry/src/purge.rs: reclaiming untagged manifests, stale memberships, blobs, abandoned uploads and
-- empty repositories.
pub mod Operations
pub mod Collected
pub mod Clock
pub mod Marks
pub mod Reclaimed
use summ.Prelude.{
  ℕ, suc, ◌+◌, ◌==◌, ◌||◌, ◌&&◌, not, leb, ltb, Option, none, some, Bool, true, false, List, [],
  ◌∷◌, ◌++◌, Bytes, codes, length, get_from, get_to, if◌then◌else◌, map_option,
}
use summ.Prelude.BigEndian.{from_be}
use summ.Core.Digest.{Digest, decode}
use summ.Core.Timestamp.{Timestamp, secs}
use summ.Core.Types.{ManifestRecord}
use summ.Core.Buckets.{BlobRecord, RepoBlobRecord, BlobMark, UploadSession}
use summ.Core.Keys
use summ.Core.Keys.{RepoId, parse_repo_id, parse_repo_name}
use summ.Core.Keys.History
use summ.Core.Keys.Counters
use summ.Core.Keys.Counters.{scope_manifest, scope_tag, scope_repo}
use summ.Meta.Engine.{WriteBatch, MetaEngine}
use summ.Meta.Batch.{put, delete}
use summ.Registry.Outcome.{Outcome, done, corrupt, require, ◌>>=◌}
use summ.Registry.Records.{Records}
use summ.Registry.Suffix.{digest_after_repo}
use summ.Registry.Tags.{read_record}
use summ.Registry.Uploads.{UploadKey, contains_repo}

pub record ManifestScan : Type 0 where
  pub digests : List Digest
  pub examined : ℕ
  pub next : Option Bytes

pub record MembershipSweep : Type 0 where
  pub examined : ℕ
  pub retracted : ℕ
  pub next : Option Bytes

pub record BlobScan : Type 0 where
  pub examined : ℕ
  pub marked : ℕ
  pub unmarked : ℕ
  pub ripe : List (Digest × ℕ)
  pub next : Option Bytes

pub record ExpiredUpload : Type 0 where
  pub id : UploadKey
  pub repo : RepoId
  pub updated_at : ℕ

pub record EmptyRepo : Type 0 where
  pub id : RepoId
  pub name : Bytes

pub record EmptyRepoScan : Type 0 where
  pub repos : List EmptyRepo
  pub examined : ℕ
  pub next : Option Bytes

unfoldable pub repo_of_membership : Bytes → Outcome RepoId
repo_of_membership key =
    require (elim (get_from key 1) [ none ↦ none | some rest ↦ map_option from_be (get_to rest 4) ])
      (corrupt (codes "P key"))

unfoldable pub digest_of_blob_key : Bytes → Outcome Digest
digest_of_blob_key key =
    require
      (elim (get_from key 1) [
        | none ↦ none
        | some rest ↦ map_option (λ (found : Digest × ℕ). found.0) (decode rest)
      ])
      (corrupt (codes "B key"))

-- The id behind a `U` key's prefix, of sixteen bytes.
unfoldable pub upload_id : Bytes → Option UploadKey
upload_id key = elim (get_from key 1) [
  | none ↦ none
  | some id ↦ if length id == 16 then some id else none
]

-- The ranges that a repository's content lies in.
unfoldable pub content_ranges : RepoId → List Bytes
content_ranges id =
    Keys.manifests_in_repo id
    ∷ Keys.blobs_in_repo id
    ∷ Keys.tags_in_repo id
    ∷ History.tag_history_in_repo id
    ∷ History.manifest_tag_history_in_repo id
    ∷ Counters.counters_in_repo_scope scope_manifest id
    ∷ Counters.counters_in_repo_scope scope_tag id
    ∷ Counters.counters_in_repo_scope scope_repo id
    ∷ []

module _ (E : MetaEngine) where
  -- None of the ranges has a key.
  unfoldable pub all_empty : E.State → List Bytes → Bool
  all_empty s [] = true
  all_empty s (prefix ∷ prefixes) = if E.exists_prefix s prefix then false else all_empty s prefixes

  unfoldable pub repo_is_empty : E.State → RepoId → List RepoId → Bool
  unfolding content_ranges all_empty contains_repo
  repo_is_empty s id live = if contains_repo id live then false else all_empty s (content_ranges id)

  -- The subject of a manifest is in its repository.
  abbrev pub subject_exists : E.State → RepoId → Option Digest → Bool
  subject_exists s repo none = false
  subject_exists s repo (some subject) = E.exists_prefix s (Keys.manifest repo subject)

  unfoldable pub manifest_is_purgeable : E.State → RepoId → ManifestRecord → Timestamp → Bool
  manifest_is_purgeable s repo r pushed_before =
      if ltb (secs pushed_before) r.pushed_at
      then false
      else if E.exists_prefix s (Keys.tags_of_manifest repo r.digest)
      then false
      else if E.exists_prefix s (Keys.parents_of repo r.digest)
      then false
      else not (subject_exists s repo r.subject)

  -- The loop of `empty_repos`: the empty repositories and the last name.
  unfoldable pub empty_entries :
      E.State
      → List RepoId
      → RepoId
      → List (Bytes × Bytes)
      → List EmptyRepo
      → Option Bytes
      → Outcome (List EmptyRepo × Option Bytes)
  unfolding repo_is_empty
  empty_entries s live interned_before [] repos last = done (repos, last)
  empty_entries s live interned_before ((key, value) ∷ entries) repos last =
      require (parse_repo_name key) (corrupt (codes "repo name key")) >>= (λ name.
        require (parse_repo_id value) (corrupt (codes "repo id value")) >>= (λ (id : RepoId).
          let more : List EmptyRepo =
            (if ltb id interned_before && repo_is_empty s id live
              then repos ++ record { id = id; name = name } ∷ []
              else repos) in
          empty_entries s live interned_before entries more (some name)))

  module _ (R : Records) where
    unfoldable pub blob_mark : E.State → Digest → Outcome (Option BlobMark)
    blob_mark s digest =
        read_record R.decode_mark (codes "BlobMark") (E.get s (Keys.blob_mark digest))

    -- The loop of `purgeable_manifests`.
    unfoldable pub purgeable_entries :
        E.State → RepoId → Timestamp → List (Bytes × Bytes) → List Digest → Outcome (List Digest)
    unfolding manifest_is_purgeable
    purgeable_entries s repo pushed_before [] digests = done digests
    purgeable_entries s repo pushed_before ((key, raw) ∷ entries) digests =
        require (R.tags.decode_manifest raw) (corrupt (codes "ManifestRecord"))
        >>= (λ (r : ManifestRecord). purgeable_entries s repo pushed_before entries (
            if manifest_is_purgeable s repo r pushed_before
            then digests ++ r.digest ∷ []
            else digests))

    -- A membership that is stale goes, and the mark of its blob.
    unfoldable pub swept :
        E.State
        → Timestamp
        → Bytes
        → RepoId
        → Digest
        → RepoBlobRecord
        → WriteBatch × ℕ
        → WriteBatch × ℕ
    swept s added_before key repo digest r (batch, retracted) =
        if ltb (secs added_before) r.added_at
        then (batch, retracted)
        else if E.exists_prefix s (Keys.blob_refs_in_repo digest repo)
        then (batch, retracted)
        else (delete (delete batch key) (Keys.blob_mark digest), retracted + 1)

    -- The loop of `sweep_repo_blobs`.
    unfoldable pub membership_entries :
        E.State → Timestamp → List (Bytes × Bytes) → WriteBatch × ℕ → Outcome (WriteBatch × ℕ)
    unfolding repo_of_membership swept
    membership_entries s added_before [] x = done x
    membership_entries s added_before ((key, raw) ∷ entries) x = repo_of_membership key >>= (λ repo.
        require (digest_after_repo key) (corrupt (codes "P key")) >>= (λ digest.
          require (R.decode_repo_blob raw) (corrupt (codes "RepoBlobRecord"))
          >>= (λ (r : RepoBlobRecord).
              membership_entries s added_before entries
                (swept s added_before key repo digest r x))))

    -- A blob that is referenced loses a mark.
    unfoldable pub referenced :
        Digest → Option BlobMark → WriteBatch × BlobScan → WriteBatch × BlobScan
    referenced digest none (batch, scan) = (batch, scan)
    referenced digest (some mark) (batch, scan) =
        (delete batch (Keys.blob_mark digest), record scan { unmarked = scan.unmarked + 1 })

    -- A blob that is not gets its mark, or is ripe behind an old one.
    unfoldable pub unreferenced :
        Timestamp
        → Timestamp
        → Digest
        → Bytes
        → Option BlobMark
        → WriteBatch × BlobScan
        → Outcome (WriteBatch × BlobScan)
    unreferenced seen_before now digest raw none (batch, scan) = done (
      put batch (Keys.blob_mark digest) (R.encode_mark (record { seen_at = secs now })),
      record scan { marked = scan.marked + 1 },
    )
    unreferenced seen_before now digest raw (some mark) (batch, scan) =
        if leb mark.seen_at (secs seen_before)
        then require (R.decode_blob raw) (corrupt (codes "BlobRecord")) >>= (λ (r : BlobRecord).
          done (batch, record scan { ripe = scan.ripe ++ (digest, r.size) ∷ [] }))
        else done (batch, scan)

    -- The loop of `scan_blobs`.
    unfoldable pub blob_entries :
        E.State
        → Timestamp
        → Timestamp
        → List (Bytes × Bytes)
        → WriteBatch × BlobScan
        → Outcome (WriteBatch × BlobScan)
    unfolding digest_of_blob_key blob_mark referenced unreferenced
    blob_entries s seen_before now [] x = done x
    blob_entries s seen_before now ((key, raw) ∷ entries) x = digest_of_blob_key key >>= (λ digest.
        blob_mark s digest >>= (λ mark.
          (if E.exists_prefix s (Keys.blob_refs digest)
            then done (referenced digest mark x)
            else unreferenced seen_before now digest raw mark x)
          >>= blob_entries s seen_before now entries))

    -- The loop of `expired_uploads`.
    unfoldable pub expired_entries :
        Timestamp → List (Bytes × Bytes) → List ExpiredUpload → Outcome (List ExpiredUpload)
    unfolding upload_id
    expired_entries idle_before [] out = done out
    expired_entries idle_before ((key, raw) ∷ entries) out =
        require (R.decode_upload raw) (corrupt (codes "UploadSession"))
        >>= (λ (session : UploadSession).
            if ltb (secs idle_before) session.updated_at
            then expired_entries idle_before entries out
            else require (upload_id key) (corrupt (codes "U key")) >>= (λ id.
              expired_entries idle_before entries (
                out
                ++ record { id = id; repo = session.repo; updated_at = session.updated_at } ∷ [])))
