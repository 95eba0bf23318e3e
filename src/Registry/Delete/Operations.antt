-- ===== src/Registry/Delete/Operations.antt =====
-- summ-registry/src/delete.rs: the calls that a handler or the sweeper makes.
use summ.Prelude.{ℕ, Option, List, Bytes, length, map_option}
use summ.Core.Digest.{Digest}
use summ.Core.Timestamp.{Timestamp}
use summ.Core.Keys
use summ.Core.Keys.{RepoId}
use summ.Meta.Engine.{WriteBatch, MetaEngine}
use summ.Meta.Batch.{new}
use summ.Meta.Scans.{Scans}
use summ.Meta.Interner.{LruCache, RepoInterner, forget}
use summ.Registry.Outcome.{Outcome, done, fail, panicked, ◌>>=◌}
use summ.Registry.Records.{Records}
use summ.Registry.Tags.Operations.{with_repo}
use summ.Registry.Delete.{
  ManifestDeleted, BlobRefDeleted, RepoTombstoned, DeadRepoEntry, SweepStep,
  planned_manifest_delete, planned_reference_delete, plan_repo_sweep_finish, tombstone,
  dead_entries, sweep_entries,
}

module _ (R : Records) (E : MetaEngine) where
  -- A plan's batch is applied only if there is a plan.
  abbrev pub applied {ℓ} : {A : Type ℓ} → E.State → Outcome (A × WriteBatch) → Outcome A × E.State
  applied s (done (outcome, batch)) = (done outcome, E.apply s batch)
  applied s (fail e) = (fail e, s)
  applied s panicked = (panicked, s)

  unfoldable pub dead_repos : E.State → Option RepoId → ℕ → Outcome (List DeadRepoEntry)
  unfolding dead_entries
  dead_repos s start_after limit =
      dead_entries R
        (E.scan s Keys.dead_repos (map_option Keys.dead_repo start_after) limit).entries

  unfoldable pub sweep_repo_refs : E.State → RepoId → Option Bytes → ℕ → Outcome SweepStep × E.State
  unfolding sweep_entries
  sweep_repo_refs s repo cursor limit =
      let page = E.scan s (Keys.manifests_in_repo repo) cursor limit in
      applied s (
        sweep_entries R new repo page.entries
        >>= (λ batch. done (record { manifests = length page.entries; next = page.next }, batch)))

  unfoldable pub finish_repo_sweep : E.State → RepoId → E.State
  unfolding plan_repo_sweep_finish
  finish_repo_sweep s repo = E.apply s (plan_repo_sweep_finish repo)

  module _ (N : LruCache Bytes RepoId) (I : LruCache RepoId Bytes) where
    unfoldable pub plan_repo_tombstone :
        E.State
        → RepoInterner E N I
        → Bytes
        → Timestamp
        → Outcome (RepoTombstoned × WriteBatch) × RepoInterner E N I
    unfolding tombstone
    plan_repo_tombstone s i repo now =
        with_repo R.tags E N I s i repo
          (λ id. done (record { id = id; name = repo }, tombstone R id repo now))

    -- The interner forgets the name after the write.
    abbrev pub forgotten : Outcome RepoTombstoned → RepoInterner E N I → RepoInterner E N I
    forgotten (done t) i = forget E N I i t.name t.id
    forgotten (fail e) i = i
    forgotten panicked i = i

    unfoldable pub delete_repository :
        E.State
        → RepoInterner E N I
        → Bytes
        → Timestamp
        → (Outcome RepoTombstoned × E.State) × RepoInterner E N I
    unfolding plan_repo_tombstone
    delete_repository s i repo now =
        let (planned, i') = plan_repo_tombstone s i repo now in
        let (outcome, s') = applied s planned in ((outcome, s'), forgotten outcome i')

    module _ (S : Scans E) where
      unfoldable pub plan_manifest_delete :
          E.State
          → RepoInterner E N I
          → Bytes
          → Digest
          → Timestamp
          → Outcome (ManifestDeleted × WriteBatch) × RepoInterner E N I
      unfolding planned_manifest_delete
      plan_manifest_delete s i repo digest now =
          with_repo R.tags E N I s i repo (planned_manifest_delete R E S s repo digest now)

      unfoldable pub delete_manifest :
          E.State
          → RepoInterner E N I
          → Bytes
          → Digest
          → Timestamp
          → (Outcome ManifestDeleted × E.State) × RepoInterner E N I
      unfolding plan_manifest_delete
      delete_manifest s i repo digest now =
          let (planned, i') = plan_manifest_delete s i repo digest now in (applied s planned, i')

      unfoldable pub plan_blob_reference_delete :
          E.State
          → RepoInterner E N I
          → Bytes
          → Digest
          → Outcome (BlobRefDeleted × WriteBatch) × RepoInterner E N I
      unfolding planned_reference_delete
      plan_blob_reference_delete s i repo digest =
          with_repo R.tags E N I s i repo (planned_reference_delete R E S s repo digest)

      unfoldable pub delete_blob_reference :
          E.State
          → RepoInterner E N I
          → Bytes
          → Digest
          → (Outcome BlobRefDeleted × E.State) × RepoInterner E N I
      unfolding plan_blob_reference_delete
      delete_blob_reference s i repo digest =
          let (planned, i') = plan_blob_reference_delete s i repo digest in (applied s planned, i')
