-- ===== src/Registry/Purge/Operations.antt =====
-- summ-registry/src/purge.rs: the calls that the purge makes.
use summ.Prelude.{
  ℕ, ◌&&◌, not, leb, ltb, ◌||◌, Option, none, some, Bool, true, false, List, [], Bytes, codes,
  length, if◌then◌else◌, map_option, Result, ok, err,
}
use summ.Core.Digest.{Digest}
use summ.Core.Timestamp.{Timestamp, secs}
use summ.Core.Buckets.{BlobRecord, BlobMark}
use summ.Core.Keys
use summ.Core.Keys.{RepoId}
use summ.Meta.Engine.{WriteBatch, MetaEngine}
use summ.Meta.Batch.{new, delete, is_empty}
use summ.Meta.Scans.{Scans}
use summ.Meta.Interner.{LruCache, RepoInterner, InvalidData, forget, lookup, next_id}
use summ.Registry.Outcome.{Outcome, done, fail, panicked, meta, ◌>>=◌}
use summ.Registry.Records.{Records}
use summ.Registry.Tags.{manifest_record}
use summ.Registry.Tags.Operations.{with_repo}
use summ.Registry.Blobs.{blob_metadata, interned_id}
use summ.Registry.Delete.{ManifestDeleted}
use summ.Registry.Delete.Operations.{delete_manifest}
use summ.Registry.Purge.{
  ManifestScan, MembershipSweep, BlobScan, ExpiredUpload, EmptyRepo, EmptyRepoScan,
  manifest_is_purgeable, purgeable_entries, membership_entries, blob_entries, expired_entries,
  empty_entries, repo_is_empty, blob_mark,
}

module _ (R : Records) (E : MetaEngine) where
  -- `if !report_only && !batch.is_empty()`
  abbrev pub reported : E.State → Bool → WriteBatch → E.State
  reported s report_only batch =
      if not report_only && not (is_empty batch) then E.apply s batch else s

  abbrev pub swept_page :
      E.State
      → Bool
      → ℕ
      → Option Bytes
      → Outcome (WriteBatch × ℕ)
      → Outcome MembershipSweep × E.State
  swept_page s report_only examined next (done (batch, retracted)) = (
    done (record { examined = examined; retracted = retracted; next = next }),
    reported s report_only batch,
  )
  swept_page s report_only examined next (fail e) = (fail e, s)
  swept_page s report_only examined next panicked = (panicked, s)

  unfoldable pub sweep_repo_blobs :
      E.State → Option Bytes → ℕ → Timestamp → Bool → Outcome MembershipSweep × E.State
  unfolding membership_entries
  sweep_repo_blobs s cursor limit added_before report_only =
      let page = E.scan s Keys.repo_blobs cursor limit in
      swept_page s report_only (length page.entries) page.next
        (membership_entries E R s added_before page.entries (new, 0))

  abbrev pub scanned_page :
      E.State → Bool → Outcome (WriteBatch × BlobScan) → Outcome BlobScan × E.State
  scanned_page s report_only (done (batch, scan)) = (done scan, reported s report_only batch)
  scanned_page s report_only (fail e) = (fail e, s)
  scanned_page s report_only panicked = (panicked, s)

  unfoldable pub scan_blobs :
      E.State → Option Bytes → ℕ → Timestamp → Timestamp → Bool → Outcome BlobScan × E.State
  unfolding blob_entries
  scan_blobs s cursor limit seen_before now report_only =
      let page = E.scan s Keys.blobs cursor limit in
      let scan : BlobScan = record {
        examined = length page.entries;
        marked = 0;
        unmarked = 0;
        ripe = [];
        next = page.next;
      } in
      scanned_page s report_only (blob_entries E R s seen_before now page.entries (new, scan))

  -- What becomes of a blob with its record and its mark: its size, if it is collected.
  abbrev pub ripe_size : E.State → Digest → Timestamp → BlobRecord → Option BlobMark → Option ℕ
  ripe_size s digest seen_before r none = none
  ripe_size s digest seen_before r (some mark) =
      if ltb (secs seen_before) mark.seen_at
      then none
      else if E.exists_prefix s (Keys.blob_refs digest)
      then none
      else some r.size

  unfoldable pub collectable : E.State → Digest → Timestamp → Outcome (Option ℕ)
  unfolding blob_metadata blob_mark
  collectable s digest seen_before = blob_metadata E R s digest >>= (λ found. elim found [
    | none ↦ done none
    | some r ↦ blob_mark E R s digest >>= (λ mark. done (ripe_size s digest seen_before r mark))
  ])

  abbrev pub collected : E.State → Digest → Outcome (Option ℕ) → Outcome (Option ℕ) × E.State
  collected s digest (done (some size)) =
      (done (some size), E.apply s (delete (delete new (Keys.blob digest)) (Keys.blob_mark digest)))
  collected s digest other = (other, s)

  unfoldable pub collect_blob : E.State → Digest → Timestamp → Outcome (Option ℕ) × E.State
  unfolding collectable
  collect_blob s digest seen_before = collected s digest (collectable s digest seen_before)

  unfoldable pub expired_uploads : E.State → Timestamp → ℕ → Outcome (List ExpiredUpload)
  unfolding expired_entries
  expired_uploads s idle_before limit =
      expired_entries E R idle_before (E.scan s Keys.uploads none limit).entries []

  -- `page.next.and(last)`
  abbrev pub and_option {ℓ κ} : {A : Type ℓ} {B : Type κ} → Option A → Option B → Option B
  and_option none o = none
  and_option (some a) o = o

  unfoldable pub empty_repos :
      E.State → Option Bytes → ℕ → List RepoId → RepoId → Outcome EmptyRepoScan
  unfolding empty_entries
  empty_repos s start_after limit live interned_before =
      let page = E.scan s Keys.repos_by_name (map_option Keys.repo_by_name start_after) limit in
      empty_entries E s live interned_before page.entries [] none
      >>= (λ (x : List EmptyRepo × Option Bytes).
          done (record {
            repos = x.0;
            examined = length page.entries;
            next = and_option page.next x.1;
          }))

  module _ (N : LruCache Bytes RepoId) (I : LruCache RepoId Bytes) where
    unfoldable pub next_repo_id : E.State → Outcome RepoId
    unfolding interned_id
    next_repo_id s = interned_id (next_id E N I s)

    unfoldable pub purgeable_manifests :
        E.State
        → RepoInterner E N I
        → Bytes
        → Option Bytes
        → ℕ
        → Timestamp
        → Outcome ManifestScan × RepoInterner E N I
    unfolding purgeable_entries
    purgeable_manifests s i repo cursor limit pushed_before = with_repo R.tags E N I s i repo (λ id.
        let page = E.scan s (Keys.manifests_in_repo id) cursor limit in
        purgeable_entries E R s id pushed_before page.entries [] >>= (λ digests.
          done (record { digests = digests; examined = length page.entries; next = page.next })))

    -- Whether a manifest is there and still qualifies.
    unfoldable pub still_purgeable : E.State → Digest → Timestamp → RepoId → Outcome Bool
    unfolding manifest_is_purgeable
    still_purgeable s digest pushed_before id = manifest_record R.tags E s id digest >>= (λ found.
        elim found [
          | none ↦ done false
          | some r ↦ done (manifest_is_purgeable E s id r pushed_before)
        ])

    -- The repository's name is given up, the mappings first and the cache behind them.
    abbrev pub retired :
        E.State
        → RepoInterner E N I
        → Bytes
        → List RepoId
        → RepoId
        → Result InvalidData (Option RepoId)
        → (Outcome (Option RepoId) × E.State) × RepoInterner E N I
    retired s i name live interned_before (err e) = ((fail (meta (codes "repo id")), s), i)
    retired s i name live interned_before (ok none) = ((done none, s), i)
    retired s i name live interned_before (ok (some id)) =
        if leb interned_before id || not (repo_is_empty E s id live) then ((done none, s), i) else (
          (
            done (some id),
            E.apply s (delete (delete new (Keys.repo_by_name name)) (Keys.repo_by_id id)),
          ),
          forget E N I i name id,
        )

    unfoldable pub retire_repo :
        E.State
        → RepoInterner E N I
        → Bytes
        → List RepoId
        → RepoId
        → (Outcome (Option RepoId) × E.State) × RepoInterner E N I
    unfolding repo_is_empty
    retire_repo s i name live interned_before =
        let (found, i') = lookup E N I s i name in retired s i' name live interned_before found

    module _ (S : Scans E) where
      -- The deletion itself, if the guards still hold.
      abbrev pub purged :
          E.State
          → RepoInterner E N I
          → Bytes
          → Digest
          → Timestamp
          → Outcome Bool
          → (Outcome (Option ManifestDeleted) × E.State) × RepoInterner E N I
      purged s i repo digest now (done true) =
          let ((outcome, s'), i') = delete_manifest R E N I S s i repo digest now in
          ((outcome >>= (λ deleted. done (some deleted)), s'), i')
      purged s i repo digest now (done false) = ((done none, s), i)
      purged s i repo digest now (fail e) = ((fail e, s), i)
      purged s i repo digest now panicked = ((panicked, s), i)

      unfoldable pub purge_manifest :
          E.State
          → RepoInterner E N I
          → Bytes
          → Digest
          → Timestamp
          → Timestamp
          → (Outcome (Option ManifestDeleted) × E.State) × RepoInterner E N I
      unfolding still_purgeable
      purge_manifest s i repo digest pushed_before now =
          let (checked, i') =
            with_repo R.tags E N I s i repo (still_purgeable s digest pushed_before) in
          purged s i' repo digest now checked
