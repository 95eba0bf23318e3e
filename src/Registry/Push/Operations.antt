-- ===== src/Registry/Push/Operations.antt =====
-- summ-registry/src/registry.rs: the calls that a handler makes to push and to read a manifest.
use summ.Prelude.{Option, none, some, List, [], Bytes, codes, map_option}
use summ.Core.Digest.{Digest}
use summ.Core.Types.{ManifestRecord, TagRecord}
use summ.Core.Keys
use summ.Core.Keys.{RepoId}
use summ.Meta.Engine.{WriteBatch, MetaEngine}
use summ.Meta.Interner.{LruCache, RepoInterner, intern}
use summ.Registry.Outcome.{Outcome, done, fail, panicked, corrupt, require, ◌>>=◌}
use summ.Registry.Reference.{Reference}
use summ.Registry.Records.{Records}
use summ.Registry.Manifest.{ParsedManifest, Documents}
use summ.Registry.Blobs.{interned_id}
use summ.Registry.Tags.{tag_record, manifest_record}
use summ.Registry.Tags.Operations.{with_repo}
use summ.Registry.Push.{
  RegistryOptions, ManifestHead, StoredManifest, ManifestPut, PushOutcome, Hashes,
}
use summ.Registry.Push.Staging.{checked, planned_put}

module _ (E : MetaEngine) (R : Records) where
  unfoldable pub resolve_reference : E.State → RepoId → Reference → Outcome (Option Digest)
  resolve_reference s repo (Reference.digest d) = done (some d)
  resolve_reference s repo (Reference.tag t) =
      tag_record R.tags E s repo t
      >>= (λ found. done (map_option (λ (r : TagRecord). r.digest) found))

  -- `M` without `Z` is an error, not a miss.
  unfoldable pub stored_body : E.State → RepoId → Digest → ManifestRecord → Outcome StoredManifest
  stored_body s repo digest r =
      require (E.get s (Keys.manifest_body repo digest))
        (corrupt (codes "manifest record with no body"))
      >>= (λ raw.
          require (R.decompress_body raw) (corrupt (codes "manifest body"))
          >>= (λ body. done (record { digest = digest; media_type = r.media_type; body = body })))

  abbrev pub if_found {ℓ κ} :
      {A : Type ℓ} {B : Type κ} → (A → Outcome B) → Option A → Outcome (Option B)
  if_found read none = done none
  if_found read (some a) = read a >>= (λ b. done (some b))

  unfoldable pub stored_manifest : E.State → RepoId → Digest → Outcome (Option StoredManifest)
  unfolding stored_body
  stored_manifest s repo digest =
      manifest_record R.tags E s repo digest >>= if_found (stored_body s repo digest)

  abbrev pub head_of : Digest → ManifestRecord → ManifestHead
  head_of digest r = record { digest = digest; media_type = r.media_type; size = r.size }

  abbrev pub head_at : E.State → RepoId → Option Digest → Outcome (Option ManifestHead)
  head_at s repo none = done none
  head_at s repo (some digest) =
      manifest_record R.tags E s repo digest >>= (λ found. done (map_option (head_of digest) found))

  abbrev pub stored_at : E.State → RepoId → Option TagRecord → Outcome (Option StoredManifest)
  stored_at s repo none = done none
  stored_at s repo (some r) = stored_manifest s repo r.digest

  module _ (N : LruCache Bytes RepoId) (I : LruCache RepoId Bytes) where
    unfoldable pub head_manifest :
        E.State
        → RepoInterner E N I
        → Bytes
        → Reference
        → Outcome (Option ManifestHead) × RepoInterner E N I
    unfolding resolve_reference
    head_manifest s i repo reference =
        with_repo R.tags E N I s i repo (λ id. resolve_reference s id reference >>= head_at s id)

    unfoldable pub get_manifest_by_tag :
        E.State
        → RepoInterner E N I
        → Bytes
        → Bytes
        → Outcome (Option StoredManifest) × RepoInterner E N I
    unfolding stored_manifest
    get_manifest_by_tag s i repo t =
        with_repo R.tags E N I s i repo (λ id. tag_record R.tags E s id t >>= stored_at s id)

    unfoldable pub get_manifest_by_digest :
        E.State
        → RepoInterner E N I
        → Bytes
        → Digest
        → Outcome (Option StoredManifest) × RepoInterner E N I
    unfolding stored_manifest
    get_manifest_by_digest s i repo digest =
        with_repo R.tags E N I s i repo (λ id. stored_manifest s id digest)

    unfoldable pub get_manifest_record :
        E.State
        → RepoInterner E N I
        → Bytes
        → Digest
        → Outcome (Option ManifestRecord) × RepoInterner E N I
    get_manifest_record s i repo digest =
        with_repo R.tags E N I s i repo (λ id. manifest_record R.tags E s id digest)

    module _ (O : RegistryOptions) (H : Hashes) (D : Documents) where
      abbrev pub Planned : Type 0
      Planned = Outcome (PushOutcome × WriteBatch) × E.State × RepoInterner E N I

      -- The rest of the plan: the repository is interned, outside the batch.
      abbrev pub interned_put :
          E.State
          → RepoInterner E N I
          → ManifestPut
          → List Bytes
          → Outcome (Digest × ParsedManifest)
          → Planned
      interned_put s i req extra (fail e) = (fail e, s, i)
      interned_put s i req extra panicked = (panicked, s, i)
      interned_put s i req extra (done (digest, m)) =
          let (id, s', i') = intern E N I s i req.repo in
          (interned_id id >>= planned_put E R O s' req extra digest m, s', i')

      unfoldable pub plan_manifest_put_tagged :
          E.State → RepoInterner E N I → ManifestPut → List Bytes → Planned
      plan_manifest_put_tagged s i req extra = interned_put s i req extra (checked E R O H D req)

      unfoldable pub plan_manifest_put : E.State → RepoInterner E N I → ManifestPut → Planned
      unfolding plan_manifest_put_tagged
      plan_manifest_put s i req = plan_manifest_put_tagged s i req []

      abbrev pub applied_put :
          E.State → Outcome (PushOutcome × WriteBatch) → Outcome PushOutcome × E.State
      applied_put s (done (outcome, batch)) = (done outcome, E.apply s batch)
      applied_put s (fail e) = (fail e, s)
      applied_put s panicked = (panicked, s)

      unfoldable pub put_manifest :
          E.State
          → RepoInterner E N I
          → ManifestPut
          → (Outcome PushOutcome × E.State) × RepoInterner E N I
      unfolding plan_manifest_put
      put_manifest s i req =
          let (planned, s', i') = plan_manifest_put s i req in (applied_put s' planned, i')
