-- ===== src/Registry/Push/Readable.antt =====
-- What was pushed can be read back.
use summ.Prelude.{
  ◌≡◌, refl, ap, ◌∙◌, Option, none, some, List, [], Bytes, bytes_eq_self, length, Result, ok, err,
  codes,
}
use summ.Core.Digest.{Digest}
use summ.Core.Timestamp.{Timestamp}
use summ.Core.Types.{ManifestRecord}
use summ.Core.Keys
use summ.Core.Keys.{RepoId, start, start_repo}
use summ.Meta.Engine.{WriteBatch, View, MetaEngine, view_ops}
use summ.Meta.Batch.{put, new, view_ops-put}
use summ.Meta.Interner.{LruCache, RepoInterner, InvalidData, intern}
use summ.Registry.Outcome.{Outcome, done, fail, panicked, require, corrupt, ◌>>=◌}
use summ.Registry.Records.{Records}
use summ.Registry.Manifest.{ParsedManifest, Documents}
use summ.Registry.Blobs.{interned_id}
use summ.Registry.Reference.{as_tag}
use summ.Registry.Tags.{manifest_record, read_record}
use summ.Registry.Frame.{
  Returns, returns, Returns-bind, Returns-then, Returns-both, returned, Keeps, Keeps-refl,
  Keeps-put,
}
use summ.Registry.Push.{
  RegistryOptions, ManifestPut, PushOutcome, Hashes, record_of, referrer_of, target_of, all_tags,
}
use summ.Registry.Push.Staging.{
  stage_tags, staged_manifest, stage_blobs, stage_children, planned_put, checked,
}
use summ.Registry.Push.Operations.{
  stored_body, stored_manifest, if_found, interned_put, applied_put, plan_manifest_put,
  plan_manifest_put_tagged, put_manifest,
}
use summ.Registry.Push.Kept.{Keeps-stage_tags}

module _ (E : MetaEngine) (R : Records) where
  module _ (repo : RepoId) (digest : Digest) (body : Bytes) (now : Timestamp)
      (m : ParsedManifest) where
    -- The record and the body stand behind the batch, whatever stood there before.
    abbrev pub HoldsManifest : WriteBatch → Type 0
    HoldsManifest b =
        (v : View)
        → (view_ops b.ops v (Keys.manifest repo digest)
            ≡ some (R.encode_manifest (record_of repo digest (length body) now m)))
          × (view_ops b.ops v (Keys.manifest_body repo digest) ≡ some (R.compress_body body))

    staged_manifest-HoldsManifest :
        (b : WriteBatch) → HoldsManifest (staged_manifest E R b repo digest body now m)
    unfolding staged_manifest Keys.referrer Keys.manifest Keys.manifest_body start_repo start
    staged_manifest-HoldsManifest b = by_subject m.subject
      where
        stored : WriteBatch
        stored =
            put
              (put b (Keys.manifest repo digest)
                (R.encode_manifest (record_of repo digest (length body) now m)))
              (Keys.manifest_body repo digest) (R.compress_body body)

        held : HoldsManifest stored
        held v = (
          view_ops-put _ _ _ v (Keys.manifest repo digest)
              ∙ view_ops-put b (Keys.manifest repo digest) _ v (Keys.manifest repo digest)
              ∙ rw (bytes_eq_self (Keys.manifest repo digest)) refl,
          view_ops-put _ (Keys.manifest_body repo digest) _ v (Keys.manifest_body repo digest)
              ∙ rw (bytes_eq_self (Keys.manifest_body repo digest)) refl,
        )

        by_subject :
            (o : Option Digest)
            → HoldsManifest (elim o [
              | none ↦ stored
              | some s ↦
                  put stored
                    (Keys.referrer repo s digest)
                    (R.tags.encode_referrer (referrer_of (length body) m))
            ])
        by_subject none v = held v
        by_subject (some s) v = (
          Keeps-put b'M' stored stored _ refl _ (Keeps-refl b'M' stored) v _ ∙ (held v).0,
          Keeps-put b'Z' stored stored _ refl _ (Keeps-refl b'Z' stored) v _ ∙ (held v).1,
        )

  planned_put-HoldsManifest :
      (O : RegistryOptions) (s : E.State) (req : ManifestPut) (extra : List Bytes) (digest : Digest)
      (m : ParsedManifest) (repo : RepoId)
      → Returns
          (λ (x : PushOutcome × WriteBatch).
            (x.0.digest ≡ digest)
            × (x.0.media_type ≡ m.media_type)
            × HoldsManifest repo digest req.body req.now m x.1)
          (planned_put E R O s req extra digest m repo)
  unfolding planned_put
  planned_put-HoldsManifest O s req extra digest m repo =
      Returns-bind (stage_blobs E R O s new req.repo repo digest req.now m.blobs) (λ blobs.
        Returns-bind (stage_children E R O s blobs req.repo repo digest m.children) (λ children.
          let stored = staged_manifest E R children repo digest req.body req.now m in
          let target = target_of digest (length req.body) m in
          Returns-then
            (λ (x : WriteBatch × Option Digest). Keeps b'M' stored x.0 × Keeps b'Z' stored x.0)
            (stage_tags E R s stored repo target req.now [] none
              (all_tags (as_tag req.reference) extra))
            (Returns-both _ _ _
              (Keeps-stage_tags E R b'M' refl s stored repo target req.now [] none _)
              (Keeps-stage_tags E R b'Z' refl s stored repo target req.now [] none _))
            (λ x kept.
              returns _ (refl, refl, held repo digest req.body req.now m children x.0 kept))))
    where
      held :
          (repo : RepoId) (digest : Digest) (body : Bytes) (now : Timestamp) (m : ParsedManifest)
          (b c : WriteBatch)
          → Keeps b'M' (staged_manifest E R b repo digest body now m) c
            × Keeps b'Z' (staged_manifest E R b repo digest body now m) c
          → HoldsManifest repo digest body now m c
      held repo digest body now m b c kept v =
          unfold Keys.manifest Keys.manifest_body start_repo start in
          (
            kept.0 v _ ∙ (staged_manifest-HoldsManifest repo digest body now m b v).0,
            kept.1 v _ ∙ (staged_manifest-HoldsManifest repo digest body now m b v).1,
          )

  -- A store that holds the two values reads them back.
  stored_manifest_lem :
      (s : E.State) (repo : RepoId) (digest : Digest) (r : ManifestRecord) (body : Bytes)
      → E.get s (Keys.manifest repo digest) ≡ some (R.encode_manifest r)
      → E.get s (Keys.manifest_body repo digest) ≡ some (R.compress_body body)
      → stored_manifest E R s repo digest
        ≡ done (some (record { digest = digest; media_type = r.media_type; body = body }))
  stored_manifest_lem s repo digest r body hm hz =
      unfold stored_manifest manifest_record in
      (ap
          (λ o.
            read_record R.tags.decode_manifest (codes "ManifestRecord") o
            >>= if_found E R (stored_body E R s repo digest))
          hm
        ∙ ap
            (λ o.
              (require o (corrupt (codes "ManifestRecord")) >>= (λ x. done (some x)))
              >>= if_found E R (stored_body E R s repo digest))
            (R.decode-encode_manifest r)
        ∙ (unfold stored_body in rw (hz, R.decompress-compress body) refl))

  module _ (N : LruCache Bytes RepoId) (I : LruCache RepoId Bytes) (O : RegistryOptions)
      (H : Hashes) (D : Documents) where
    abbrev IsReadable : E.State → RepoId → ManifestPut → PushOutcome → Type 0
    IsReadable s repo req o =
        stored_manifest E R s repo o.digest
        ≡ done (some (record { digest = o.digest; media_type = o.media_type; body = req.body }))

    applied-IsReadable :
        (s : E.State) (req : ManifestPut) (extra : List Bytes) (digest : Digest)
        (m : ParsedManifest) (repo : RepoId) (o : PushOutcome) (batch : WriteBatch)
        → planned_put E R O s req extra digest m repo ≡ done (o, batch)
        → IsReadable (E.apply s batch) repo req o
    applied-IsReadable s req extra digest m repo o batch e =
        let (same, typed, held) =
          returned _ _ (o, batch) (planned_put-HoldsManifest O s req extra digest m repo) e in
        let at_digest : IsReadable (E.apply s batch) repo req
            (record o { digest = digest; media_type = m.media_type }) =
          unfold record_of in
          stored_manifest_lem (E.apply s batch) repo digest
            (record_of repo digest (length req.body) req.now m) req.body
            (E.get-apply s batch _ ∙ (held (E.get s)).0)
            (E.get-apply s batch _ ∙ (held (E.get s)).1) in
        rw (same, typed) at_digest

    -- The plan of a document that was accepted, with what the interner answered.
    by_plan :
        (req : ManifestPut) (digest : Digest) (m : ParsedManifest) (id : RepoId) (s' : E.State)
        (plan : Outcome (PushOutcome × WriteBatch)) (o : PushOutcome) (s'' : E.State)
        → planned_put E R O s' req [] digest m id ≡ plan
        → applied_put E R N I O H D s' plan ≡ (done o, s'')
        → IsReadable s'' id req o
    by_plan req digest m id s' (done (p, batch)) o s'' e q =
        let same : done p ≡ done o = ap (λ x. x.0) q in
        let same' : p ≡ o = cc same in
        let after : E.apply s' batch ≡ s'' = ap (λ x. x.1) q in
        rw (← after, ← same') (applied-IsReadable s' req [] digest m id p batch e)
    by_plan req digest m id s' (fail x) o s'' e q =
        let wrong : fail x ≡ done o = ap (λ x. x.0) q in absurd (cc wrong)
    by_plan req digest m id s' panicked o s'' e q =
        let wrong : panicked ≡ done o = ap (λ x. x.0) q in absurd (cc wrong)

    abbrev Pushed : Type 0
    Pushed = (Outcome PushOutcome × E.State) × RepoInterner E N I

    by_id :
        (req : ManifestPut) (digest : Digest) (m : ParsedManifest)
        (x : Result InvalidData RepoId × E.State × RepoInterner E N I) (o : PushOutcome)
        (s'' : E.State) (i'' : RepoInterner E N I)
        → ◌≡◌ {A = Pushed}
            (
              applied_put E R N I O H D x.1
                  (interned_id x.0 >>= planned_put E R O x.1 req [] digest m),
              x.2,
            )
            ((done o, s''), i'')
        → (id : RepoId) × (x.0 ≡ ok id) × IsReadable s'' id req o
    unfolding interned_id
    by_id req digest m (ok id, s', i') o s'' i'' q =
        (id, refl, by_plan req digest m id s' _ o s'' refl (ap (λ x. x.0) q))
    by_id req digest m (err e, s', i') o s'' i'' q =
        let wrong : fail _ ≡ done o = ap (λ x. x.0.0) q in absurd (cc wrong)

    -- A push that returns: the repository has an id, and in the store that the push leaves, the digest
    -- that it answers reads back the media type that it answers and the body that was pushed.
    pub put_manifest-stored :
        (s : E.State) (i : RepoInterner E N I) (req : ManifestPut) (o : PushOutcome) (s'' : E.State)
        (i'' : RepoInterner E N I)
        → put_manifest E R N I O H D s i req ≡ ((done o, s''), i'')
        → (id : RepoId) × ((intern E N I s i req.repo).0 ≡ ok id)
          × (stored_manifest E R s'' id o.digest
              ≡ done
                  (some (record { digest = o.digest; media_type = o.media_type; body = req.body })))
    unfolding put_manifest plan_manifest_put plan_manifest_put_tagged
    put_manifest-stored s i req o s'' i'' e = by_document (checked E R O H D req) e
      where
        by_document :
            (c : Outcome (Digest × ParsedManifest))
            → ◌≡◌ {A = Pushed}
                (
                  applied_put E R N I O H D
                      (interned_put E R N I O H D s i req [] c).1
                      (interned_put E R N I O H D s i req [] c).0,
                  (interned_put E R N I O H D s i req [] c).2,
                )
                ((done o, s''), i'')
            → (id : RepoId) × ((intern E N I s i req.repo).0 ≡ ok id) × IsReadable s'' id req o
        by_document (done (digest, m)) q =
            by_id req digest m (intern E N I s i req.repo) o s'' i'' q
        by_document (fail x) q =
            let wrong : fail x ≡ done o = ap (λ x. x.0.0) q in absurd (cc wrong)
        by_document panicked q =
            let wrong : panicked ≡ done o = ap (λ x. x.0.0) q in absurd (cc wrong)
