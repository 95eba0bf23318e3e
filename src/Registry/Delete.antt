-- ===== src/Registry/Delete.antt =====
-- summ-registry/src/delete.rs: deleting manifests, blob references and whole repositories.
pub mod Operations
pub mod Sweep
pub mod Removed
pub mod Cascade
pub mod Gone
pub mod Unreadable
use summ.Prelude.{
  ℕ, ◌+◌, ◌==◌, Option, none, some, Bool, true, false, not, ◌&&◌, List, [], ◌∷◌, ◌++◌, Bytes, codes,
  length, if◌then◌else◌,
}
use summ.Core.Digest.{Digest, display}
use summ.Core.Timestamp.{Timestamp, secs}
use summ.Core.Types.{ManifestRecord, ChildRef}
use summ.Core.Buckets.{DeadRepo}
use summ.Core.Keys
use summ.Core.Keys.{RepoId, parse_manifest_tag_suffix, parse_dead_repo_id}
use summ.Core.Keys.History
use summ.Core.Keys.Counters
use summ.Core.Keys.Counters.{scope_manifest, scope_tag, scope_repo}
use summ.Meta.Engine.{WriteBatch, MetaEngine}
use summ.Meta.Batch.{new, put, delete, delete_prefix}
use summ.Meta.Scans.{Scans}
use summ.Registry.Outcome.{
  Outcome, done, fail, manifest_unknown, blob_unknown, corrupt, require, ◌>>=◌,
}
use summ.Registry.Records.{Records}
use summ.Registry.Drain.{drain}
use summ.Registry.Tags.{manifest_record, stage_delete_tag}

pub record ManifestDeleted : Type 0 where
  pub digest : Digest
  pub removed_tags : List Bytes

pub record BlobRefDeleted : Type 0 where
  pub digest : Digest
  pub was_member : Bool
  pub references_removed : ℕ

pub record RepoTombstoned : Type 0 where
  pub id : RepoId
  pub name : Bytes

pub record DeadRepoEntry : Type 0 where
  pub id : RepoId
  pub name : Bytes
  pub dropped_at : ℕ

pub record SweepStep : Type 0 where
  pub manifests : ℕ
  pub next : Option Bytes

-- The `R` edges of a manifest.
unfoldable pub delete_refs : WriteBatch → RepoId → Digest → List Digest → WriteBatch
delete_refs batch repo digest [] = batch
delete_refs batch repo digest (blob ∷ layers) =
    delete_refs (delete batch (Keys.blob_ref blob repo digest)) repo digest layers

-- The `S` edges to a manifest's children.
unfoldable pub delete_children : WriteBatch → RepoId → Digest → List ChildRef → WriteBatch
delete_children batch repo digest [] = batch
delete_children batch repo digest (child ∷ children) =
    delete_children (delete batch (Keys.child_parent repo child.digest digest)) repo digest children

-- `M`, `Z`, and the edges that the record names.
unfoldable pub delete_own : RepoId → Digest → ManifestRecord → WriteBatch
unfolding delete_refs delete_children
delete_own repo digest r =
    let gone = delete (delete new (Keys.manifest repo digest)) (Keys.manifest_body repo digest) in
    let edges = delete_children (delete_refs gone repo digest r.layers) repo digest r.children in
    elim r.subject [ none ↦ edges | some s ↦ delete edges (Keys.referrer repo s digest) ]

-- The callbacks of the drains.
unfoldable pub delete_key : Bytes → WriteBatch → Outcome WriteBatch
delete_key key batch = done (delete batch key)

unfoldable pub push_tag : Digest → Bytes → List Bytes → Outcome (List Bytes)
push_tag digest key removed =
    require (parse_manifest_tag_suffix key digest) (corrupt (codes "manifest-tag key"))
    >>= (λ t. done (removed ++ t ∷ []))

unfoldable pub delete_ref : Bytes → WriteBatch × ℕ → Outcome (WriteBatch × ℕ)
delete_ref key (batch, n) = done (delete batch key, n + 1)

-- The last step of a blob's deletion: `P`, and the mark.
unfoldable pub delete_member : WriteBatch → RepoId → Digest → Bool → WriteBatch
delete_member batch repo digest was_member =
    let left : WriteBatch =
      (if was_member then delete batch (Keys.repo_blob repo digest) else batch) in
    delete left (Keys.blob_mark digest)

-- The ranges of a repository that one batch drops.
unfoldable pub ranges_of : RepoId → List Bytes
ranges_of repo =
    Keys.manifests_in_repo repo
    ∷ Keys.manifest_bodies_in_repo repo
    ∷ Keys.tags_in_repo repo
    ∷ Keys.manifest_tags_in_repo repo
    ∷ Keys.blobs_in_repo repo
    ∷ Keys.children_in_repo repo
    ∷ Keys.referrers_in_repo repo
    ∷ History.tag_history_in_repo repo
    ∷ History.manifest_tag_history_in_repo repo
    ∷ Counters.counters_in_repo_scope scope_manifest repo
    ∷ Counters.counters_in_repo_scope scope_tag repo
    ∷ Counters.counters_in_repo_scope scope_repo repo
    ∷ []

unfoldable pub delete_ranges : WriteBatch → List Bytes → WriteBatch
delete_ranges batch [] = batch
delete_ranges batch (prefix ∷ prefixes) = delete_ranges (delete_prefix batch prefix) prefixes

unfoldable pub plan_repo_sweep_finish : RepoId → WriteBatch
unfolding ranges_of delete_ranges
plan_repo_sweep_finish repo = delete (delete_ranges new (ranges_of repo)) (Keys.dead_repo repo)

module _ (R : Records) where
  -- The loop over the removed tags.
  unfoldable pub delete_tags :
      WriteBatch → RepoId → List Bytes → Digest → ManifestRecord → Timestamp → Outcome WriteBatch
  delete_tags batch repo [] digest r now = done batch
  delete_tags batch repo (t ∷ tags) digest r now =
      stage_delete_tag R.tags batch repo t digest (some r) now
      >>= (λ b. delete_tags b repo tags digest r now)

  unfoldable pub tombstone : RepoId → Bytes → Timestamp → WriteBatch
  tombstone repo name now =
      put (delete (delete new (Keys.repo_by_name name)) (Keys.repo_by_id repo))
        (Keys.dead_repo repo) (R.encode_dead (record { name = name; dropped_at = secs now }))

  -- The loop of `dead_repos` over a page.
  unfoldable pub dead_entries : List (Bytes × Bytes) → Outcome (List DeadRepoEntry)
  dead_entries [] = done []
  dead_entries ((key, raw) ∷ entries) =
      require (parse_dead_repo_id key) (corrupt (codes "dead repo key")) >>= (λ id.
        require (R.decode_dead raw) (corrupt (codes "DeadRepo")) >>= (λ (d : DeadRepo).
          dead_entries entries
          >>= (λ rest. done (record { id = id; name = d.name; dropped_at = d.dropped_at } ∷ rest))))

  -- The loop of `sweep_repo_refs` over a page.
  unfoldable pub sweep_entries : WriteBatch → RepoId → List (Bytes × Bytes) → Outcome WriteBatch
  unfolding delete_refs
  sweep_entries batch repo [] = done batch
  sweep_entries batch repo ((key, raw) ∷ entries) =
      require (R.tags.decode_manifest raw) (corrupt (codes "ManifestRecord"))
      >>= (λ (r : ManifestRecord).
          sweep_entries (delete_refs batch repo r.digest r.layers) repo entries)

  module _ (E : MetaEngine) (S : Scans E) where
    -- `plan_manifest_delete`, with the repository's id known.
    unfoldable pub planned_manifest_delete :
        E.State → Bytes → Digest → Timestamp → RepoId → Outcome (ManifestDeleted × WriteBatch)
    unfolding delete_own delete_key push_tag delete_tags
    planned_manifest_delete s name digest now repo =
        manifest_record R.tags E s repo digest >>= (λ found.
          require found (manifest_unknown name (display digest)) >>= (λ (r : ManifestRecord).
            drain E S s (Keys.parents_of repo digest) delete_key (delete_own repo digest r)
            >>= (λ orphaned.
                drain E S s (Keys.tags_of_manifest repo digest) (push_tag digest) [] >>= (λ removed.
                  delete_tags orphaned repo removed digest r now >>= (λ batch.
                    done (record { digest = digest; removed_tags = removed }, batch))))))

    -- `plan_blob_reference_delete`, with the repository's id known.
    unfoldable pub planned_reference_delete :
        E.State → Bytes → Digest → RepoId → Outcome (BlobRefDeleted × WriteBatch)
    unfolding delete_ref delete_member
    planned_reference_delete s name digest repo =
        let was_member = E.exists_prefix s (Keys.repo_blob repo digest) in
        drain E S s (Keys.blob_refs_in_repo digest repo) delete_ref (new, 0)
        >>= (λ (x : WriteBatch × ℕ).
            if not was_member && x.1 == 0
            then fail (blob_unknown name digest)
            else done (
              record { digest = digest; was_member = was_member; references_removed = x.1 },
              delete_member x.0 repo digest was_member,
            ))
