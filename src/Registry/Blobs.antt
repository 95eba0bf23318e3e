-- ===== src/Registry/Blobs.antt =====
-- summ-registry/src/registry.rs: which repository may serve which blob, and the commit of an uploaded blob.
use summ.Prelude.{
  ℕ, Option, none, some, Bool, true, false, Bytes, codes, if◌then◌else◌, Result, ok, err,
}
use summ.Core.Digest.{Digest}
use summ.Core.Timestamp.{Timestamp, secs}
use summ.Core.Buckets.{BlobRecord}
use summ.Core.Keys
use summ.Core.Keys.{RepoId}
use summ.Meta.Engine.{WriteBatch, MetaEngine}
use summ.Meta.Batch.{new, put, delete}
use summ.Meta.Interner.{LruCache, RepoInterner, InvalidData, lookup, intern}
use summ.Registry.Outcome.{Outcome, done, fail, panicked, meta, ◌>>=◌}
use summ.Registry.Records.{Records}
use summ.Registry.Tags.{read_record}

-- `intern_repo`: the interner's error is an error of the store.
unfoldable pub interned_id : Result InvalidData RepoId → Outcome RepoId
interned_id (err e) = fail (meta (codes "intern"))
interned_id (ok id) = done id

module _ (E : MetaEngine) where
  unfoldable pub blob_is_servable_id : E.State → RepoId → Digest → Bool
  blob_is_servable_id s repo digest =
      if E.exists_prefix s (Keys.blob_refs_in_repo digest repo)
      then true
      else E.exists_prefix s (Keys.repo_blob repo digest)

  module _ (R : Records) where
    unfoldable pub blob_record : E.State → Digest → Outcome (Option BlobRecord)
    blob_record s digest =
        read_record R.decode_blob (codes "BlobRecord") (E.get s (Keys.blob digest))

    unfoldable pub blob_metadata : E.State → Digest → Outcome (Option BlobRecord)
    unfolding blob_record
    blob_metadata s digest = blob_record s digest

    -- `B` and the cleared mark, and `P` unless the blob is a member.
    unfoldable pub committed : E.State → RepoId → Digest → ℕ → Timestamp → WriteBatch
    committed s repo digest size now =
        let known = put new (Keys.blob digest) (R.encode_blob (record { size = size })) in
        let unmarked = delete known (Keys.blob_mark digest) in
        if E.exists_prefix s (Keys.repo_blob repo digest)
        then unmarked
        else put unmarked (Keys.repo_blob repo digest)
            (R.encode_repo_blob (record { size = size; added_at = secs now }))

    module _ (N : LruCache Bytes RepoId) (I : LruCache RepoId Bytes) where
      abbrev pub servable_in : E.State → Digest → Result InvalidData (Option RepoId) → Outcome Bool
      servable_in s digest (err e) = fail (meta (codes "repo id"))
      servable_in s digest (ok none) = done false
      servable_in s digest (ok (some id)) = done (blob_is_servable_id s id digest)

      unfoldable pub blob_is_servable :
          E.State → RepoInterner E N I → Bytes → Digest → Outcome Bool × RepoInterner E N I
      unfolding blob_is_servable_id
      blob_is_servable s i repo digest =
          let (found, i') = lookup E N I s i repo in (servable_in s digest found, i')

      unfoldable pub servable_blob :
          E.State
          → RepoInterner E N I
          → Bytes
          → Digest
          → Outcome (Option BlobRecord) × RepoInterner E N I
      unfolding blob_is_servable blob_record
      servable_blob s i repo digest =
          let (servable, i') = blob_is_servable s i repo digest in
          (servable >>= (λ b. if b then blob_record s digest else done none), i')

      -- The repository is interned first, outside the batch.
      unfoldable pub plan_blob_commit :
          E.State
          → RepoInterner E N I
          → Bytes
          → Digest
          → ℕ
          → Timestamp
          → Outcome WriteBatch × E.State × RepoInterner E N I
      unfolding committed interned_id
      plan_blob_commit s i repo digest size now =
          let (id, s', i') = intern E N I s i repo in
          (interned_id id >>= (λ r. done (committed s' r digest size now)), s', i')

      -- The plan's batch is applied only if there is a plan.
      abbrev pub written : E.State → Outcome WriteBatch → Outcome (Unit {0}) × E.State
      written s (done batch) = (done tt, E.apply s batch)
      written s (fail e) = (fail e, s)
      written s panicked = (panicked, s)

      unfoldable pub commit_blob :
          E.State
          → RepoInterner E N I
          → Bytes
          → Digest
          → ℕ
          → Timestamp
          → (Outcome (Unit {0}) × E.State) × RepoInterner E N I
      unfolding plan_blob_commit
      commit_blob s i repo digest size now =
          let (planned, s', i') = plan_blob_commit s i repo digest size now in
          (written s' planned, i')
