-- ===== src/Registry/Push/Staging.antt =====
-- summ-registry/src/registry.rs: what a push stages, and its plan.
use summ.Prelude.{
  ℕ, Option, none, some, Bool, true, false, not, ◌&&◌, List, [], ◌∷◌, ◌++◌, Bytes, length, ltb,
  if◌then◌else◌,
}
use summ.Core.Digest.{Digest}
use summ.Core.Timestamp.{Timestamp, secs}
use summ.Core.Types.{ChildRef}
use summ.Core.Buckets.{BlobRecord}
use summ.Core.Keys
use summ.Core.Keys.{RepoId}
use summ.Meta.Engine.{WriteBatch, MetaEngine}
use summ.Meta.Batch.{new, put, set, delete}
use summ.Registry.Outcome.{Outcome, done, fail, manifest_invalid, manifest_blob_unknown, ◌>>=◌}
use summ.Registry.Reference.{as_tag, as_digest}
use summ.Registry.Records.{Records}
use summ.Registry.Manifest.{BlobDesc, ParsedManifest, Documents, parse}
use summ.Registry.Blobs.{blob_is_servable_id, blob_record}
use summ.Registry.Tags.{TagTarget, stage_set_tag}
use summ.Registry.Push.{
  RegistryOptions, ManifestPut, PushOutcome, Hashes, digest_body, check_claimed, record_of,
  referrer_of, target_of, contains, all_tags,
}

module _ (E : MetaEngine) (R : Records) where
  -- `B` if it is unknown, `P` if the repository lacks it, the edge, and no mark.
  unfoldable pub staged_blob :
      E.State → WriteBatch → RepoId → Digest → Timestamp → BlobDesc → Option BlobRecord → WriteBatch
  staged_blob s batch repo manifest now desc known =
      let size : ℕ = elim known [ none ↦ desc.size | some r ↦ r.size ] in
      let recorded : WriteBatch = elim known [
        | none ↦ put batch (Keys.blob desc.digest) (R.encode_blob (record { size = size }))
        | some r ↦ batch
      ] in
      let joined : WriteBatch =
        (if E.exists_prefix s (Keys.repo_blob repo desc.digest)
          then recorded
          else put recorded (Keys.repo_blob repo desc.digest)
              (R.encode_repo_blob (record { size = size; added_at = secs now }))) in
      delete (set joined (Keys.blob_ref desc.digest repo manifest)) (Keys.blob_mark desc.digest)

  -- `known.is_some() && in_repo`
  abbrev pub held : Option BlobRecord → Bool → Bool
  held none in_repo = false
  held (some r) in_repo = in_repo

  module _ (O : RegistryOptions) where
    -- One round of the loop of `stage_blobs`.
    unfoldable pub stage_blob :
        E.State → WriteBatch → Bytes → RepoId → Digest → Timestamp → BlobDesc → Outcome WriteBatch
    unfolding staged_blob
    stage_blob s batch name repo manifest now desc = blob_record E R s desc.digest >>= (λ known.
        let here = held known (blob_is_servable_id E s repo desc.digest) in
        if desc.foreign && not here
        then done batch
        else (if O.validate_references && not here
            then fail (manifest_blob_unknown name desc.digest)
            else done (staged_blob s batch repo manifest now desc known)))

    unfoldable pub stage_blobs :
        E.State
        → WriteBatch
        → Bytes
        → RepoId
        → Digest
        → Timestamp
        → List BlobDesc
        → Outcome WriteBatch
    stage_blobs s batch name repo manifest now [] = done batch
    stage_blobs s batch name repo manifest now (desc ∷ descs) =
        stage_blob s batch name repo manifest now desc
        >>= (λ b. stage_blobs s b name repo manifest now descs)

    unfoldable pub stage_children :
        E.State → WriteBatch → Bytes → RepoId → Digest → List ChildRef → Outcome WriteBatch
    stage_children s batch name repo manifest [] = done batch
    stage_children s batch name repo manifest (child ∷ children) =
        let rest =
          stage_children s (set batch (Keys.child_parent repo child.digest manifest)) name repo
            manifest children in
        if O.validate_references && not (E.exists_prefix s (Keys.manifest repo child.digest))
        then fail (manifest_blob_unknown name child.digest)
        else rest

  -- The tags of a push, each once; the first one's previous digest is reported.
  unfoldable pub stage_tags :
      E.State
      → WriteBatch
      → RepoId
      → TagTarget
      → Timestamp
      → List Bytes
      → Option Digest
      → List Bytes
      → Outcome (WriteBatch × Option Digest)
  unfolding contains
  stage_tags s batch repo target now applied displaced [] = done (batch, displaced)
  stage_tags s batch repo target now applied displaced (t ∷ tags) = elim (contains t applied) [
    | true ↦ stage_tags s batch repo target now applied displaced tags
    | false ↦
        stage_set_tag R.tags E s batch repo t target now >>= (λ (x : WriteBatch × Option Digest).
          stage_tags s x.0 repo target now (applied ++ t ∷ [])
            (elim applied [ [] ↦ x.1 | u ∷ us ↦ displaced ]) tags)
  ]

  -- The manifest, its body, and the edge to its subject.
  unfoldable pub staged_manifest :
      WriteBatch → RepoId → Digest → Bytes → Timestamp → ParsedManifest → WriteBatch
  unfolding record_of referrer_of
  staged_manifest batch repo digest body now m =
      let stored =
        put
          (put batch (Keys.manifest repo digest)
            (R.encode_manifest (record_of repo digest (length body) now m)))
          (Keys.manifest_body repo digest) (R.compress_body body) in
      elim m.subject [
        | none ↦ stored
        | some s ↦
            put stored (Keys.referrer repo s digest)
              (R.tags.encode_referrer (referrer_of (length body) m))
      ]

  -- The plan of a push, once the document is read and the repository has its id.
  unfoldable pub planned_put :
      RegistryOptions
      → E.State
      → ManifestPut
      → List Bytes
      → Digest
      → ParsedManifest
      → RepoId
      → Outcome (PushOutcome × WriteBatch)
  unfolding stage_blobs stage_children staged_manifest target_of stage_tags
  planned_put O s req extra digest m repo =
      stage_blobs O s new req.repo repo digest req.now m.blobs >>= (λ blobs.
        stage_children O s blobs req.repo repo digest m.children >>= (λ children.
          let stored = staged_manifest children repo digest req.body req.now m in
          stage_tags s stored repo (target_of digest (length req.body) m) req.now [] none
            (all_tags (as_tag req.reference) extra)
          >>= (λ (x : WriteBatch × Option Digest). done (
            record {
              digest = digest;
              media_type = m.media_type;
              size = length req.body;
              subject = m.subject;
              tag = as_tag req.reference;
              displaced = x.1;
            },
            x.0,
          ))))

  -- What is decided before the repository is interned: size, digest, document.
  unfoldable pub checked :
      RegistryOptions → Hashes → Documents → ManifestPut → Outcome (Digest × ParsedManifest)
  unfolding digest_body check_claimed
  checked O H D req =
      if ltb O.max_manifest_bytes (length req.body)
      then fail manifest_invalid
      else (let digest = digest_body H req.body (as_digest req.reference) in
          check_claimed (as_digest req.reference) digest
          >>= (λ _. parse D req.body req.content_type >>= (λ m. done (digest, m))))
