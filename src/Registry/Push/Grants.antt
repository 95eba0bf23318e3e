-- ===== src/Registry/Push/Grants.antt =====
-- The whole of a push that checks its references: it grants no repository a blob.
use summ.Prelude.{
  ◌≡◌, refl, sym, Option, none, true, List, [], Bytes, length, Result, ok, err, subst, ◌⊎◌, inl,
  inr, ℕ, ◌==◌, ==_iff, Bool, false, Bool-cases, arith, ltb, if◌then◌else◌,
}
use summ.Core.Digest.{Digest, IsDigest}
use summ.Core.Keys.{RepoId}
use summ.Core.Keys.Schema.{IsRepo}
use summ.Meta.Engine.{WriteBatch, MetaEngine}
use summ.Meta.Batch.{new}
use summ.Meta.Interner.{LruCache, RepoInterner, InvalidData, intern}
use summ.Registry.Outcome.{Outcome, done, fail, panicked, manifest_invalid, ◌>>=◌}
use summ.Registry.Reference.{as_tag, as_digest}
use summ.Registry.Records.{Records}
use summ.Registry.Manifest.{ParsedManifest, Documents, parse}
use summ.Registry.Manifest.Digests.{AreDigests, parse-AreDigests}
use summ.Registry.Blobs.{blob_is_servable_id, interned_id}
use summ.Registry.Frame.{
  Keeps, Returns, returns, fails, Returns-bind, Returns-then, Returns-mono, Returns-both, returned,
}
use summ.Registry.Tags.{TagTarget}
use summ.Core.Timestamp.{Timestamp}
use summ.Registry.Push.{
  RegistryOptions, ManifestPut, PushOutcome, Hashes, target_of, all_tags, check_claimed,
  digest_body,
}
use summ.Registry.Push.Staging.{
  stage_blobs, stage_children, staged_manifest, stage_tags, planned_put, checked,
}
use summ.Registry.Push.Kept.{Keeps-stage_tags}
use summ.Registry.Push.Authorised.{
  is_grant_range, GrantsHeld, new-GrantsHeld, Keeps-GrantsHeld, stage_blobs-GrantsHeld,
  stage_children-GrantsHeld, staged_manifest-GrantsHeld,
}
use summ.Registry.Push.Servable.{grants_nothing}
use summ.Registry.Push.Operations.{
  interned_put, applied_put, plan_manifest_put_tagged, plan_manifest_put, put_manifest,
}

both_ranges :
    (b c : WriteBatch)
    → Keeps b'R' b c × Keeps b'P' b c
    → (p : ℕ) → is_grant_range p ≡ true
    → Keeps p b c
both_ranges b c (refs, members) p h = elim (Bool-cases (p == b'R')) [
  | inl e ↦ subst (λ q. Keeps q b c) (sym ((==_iff p b'R').0 e)) refs
  | inr e ↦
      let member : (p == b'P') ≡ true = ground (arith, h, e) in
      subst (λ q. Keeps q b c) (sym ((==_iff p b'P').0 member)) members
]

module _ (E : MetaEngine) (R : Records) (O : RegistryOptions) where
  stage_tags-GrantsHeld :
      (s : E.State) (repo : RepoId) (digest : Digest) (b : WriteBatch) (target : TagTarget)
      (now : Timestamp) (tags : List Bytes)
      → GrantsHeld E s repo digest b
      → Returns
          (λ (x : WriteBatch × Option Digest). GrantsHeld E s repo digest x.0)
          (stage_tags E R s b repo target now [] none tags)
  stage_tags-GrantsHeld s repo digest b target now tags g =
      Returns-mono _ _ (λ x kept. Keeps-GrantsHeld E s repo digest b x.0 (both_ranges b x.0 kept) g)
        (Returns-both _ _ _ (Keeps-stage_tags E R b'R' refl s b repo target now [] none tags)
          (Keeps-stage_tags E R b'P' refl s b repo target now [] none tags))

  planned_put-GrantsHeld :
      O.validate_references ≡ true
      → (s : E.State) (req : ManifestPut) (extra : List Bytes) (digest : Digest)
        (m : ParsedManifest) (repo : RepoId)
      → AreDigests m.blobs
      → Returns
          (λ (x : PushOutcome × WriteBatch). GrantsHeld E s repo digest x.1)
          (planned_put E R O s req extra digest m repo)
  unfolding planned_put
  planned_put-GrantsHeld checks s req extra digest m repo hs =
      Returns-then (GrantsHeld E s repo digest)
        (stage_blobs E R O s new req.repo repo digest req.now m.blobs)
        (stage_blobs-GrantsHeld E s repo digest R req.now O checks new req.repo m.blobs hs
          (new-GrantsHeld E s repo digest))
        (λ blobs g.
          Returns-then (GrantsHeld E s repo digest)
            (stage_children E R O s blobs req.repo repo digest m.children)
            (stage_children-GrantsHeld E s repo digest R req.now O checks blobs req.repo m.children
              g)
            (λ children gc.
              let stored = staged_manifest E R children repo digest req.body req.now m in
              let target = target_of digest (length req.body) m in
              Returns-then (λ (x : WriteBatch × Option Digest). GrantsHeld E s repo digest x.0)
                (stage_tags E R s stored repo target req.now [] none
                  (all_tags (as_tag req.reference) extra))
                (stage_tags-GrantsHeld s repo digest stored target req.now _ (
                  staged_manifest-GrantsHeld E s repo digest R req.now O checks children req.body m
                    gc))
                (λ x gx. returns _ gx)))

  module _ (H : Hashes) (D : Documents) where
    checked-AreDigests :
        (req : ManifestPut)
        → Returns (λ (x : Digest × ParsedManifest). AreDigests x.1.blobs) (checked E R O H D req)
    unfolding checked
    checked-AreDigests req = by_size (ltb O.max_manifest_bytes (length req.body))
      where
        by_size :
            (x : Bool)
            → Returns
                (λ (x : Digest × ParsedManifest). AreDigests x.1.blobs)
                (if x
                  then fail manifest_invalid
                  else (check_claimed
                        (as_digest req.reference)
                        (digest_body H req.body (as_digest req.reference))
                      >>= (λ _.
                          parse D req.body req.content_type
                          >>= (λ m. done (digest_body H req.body (as_digest req.reference), m)))))
        by_size true = fails _
        by_size false =
            Returns-bind
              (check_claimed (as_digest req.reference)
                (digest_body H req.body (as_digest req.reference)))
              (λ u.
                Returns-then (λ (m : ParsedManifest). AreDigests m.blobs)
                  (parse D req.body req.content_type) (parse-AreDigests D req.body req.content_type)
                  (λ m h. returns _ h))

    module _ (checks : O.validate_references ≡ true) (N : LruCache Bytes RepoId)
        (I : LruCache RepoId Bytes) where
      abbrev GrantsNothing : E.State → E.State → Type 0
      GrantsNothing s s' =
          (r : RepoId) (d : Digest)
          → IsRepo r
          → IsDigest d
          → blob_is_servable_id E s' r d ≡ blob_is_servable_id E s r d

      by_plan :
          (req : ManifestPut) (digest : Digest) (m : ParsedManifest) (repo : RepoId) (s : E.State)
          (plan : Outcome (PushOutcome × WriteBatch))
          → planned_put E R O s req [] digest m repo ≡ plan
          → AreDigests m.blobs
          → IsRepo repo
          → GrantsNothing s (applied_put E R N I O H D s plan).1
      by_plan req digest m repo s (done (o, batch)) e hs here r d hr hd =
          grants_nothing E s repo digest batch
            (returned _ _ (o, batch) (planned_put-GrantsHeld checks s req [] digest m repo hs) e)
            here r d hr hd
      by_plan req digest m repo s (fail x) e hs here r d hr hd = refl
      by_plan req digest m repo s panicked e hs here r d hr hd = refl

      by_id :
          (req : ManifestPut) (digest : Digest) (m : ParsedManifest)
          (x : Result InvalidData RepoId × E.State × RepoInterner E N I)
          → AreDigests m.blobs
          → ((id : RepoId) → x.0 ≡ ok id → IsRepo id)
          → GrantsNothing x.1
              (applied_put E R N I O H D x.1
                (interned_id x.0 >>= planned_put E R O x.1 req [] digest m)).1
      unfolding interned_id
      by_id req digest m (ok id, s, i) hs here r d hr hd =
          by_plan req digest m id s _ refl hs (here id refl) r d hr hd
      by_id req digest m (err e, s, i) hs here r d hr hd = refl

      -- With references checked, a push leaves the store as it was, or every repository may serve exactly
      -- the blobs that it could serve when the push's name had got its id: neither the repository pushed
      -- to nor another one gains a blob, and none loses one. The ids are those of the source's type.
      pub put_manifest-blob_is_servable_id :
          (s : E.State) (i : RepoInterner E N I) (req : ManifestPut)
          → ((id : RepoId) → (intern E N I s i req.repo).0 ≡ ok id → IsRepo id)
          → (r : RepoId) (d : Digest) → IsRepo r
          → IsDigest d
          → (blob_is_servable_id E (put_manifest E R N I O H D s i req).0.1 r d
              ≡ blob_is_servable_id E (intern E N I s i req.repo).1 r d)
            ⊎ ((put_manifest E R N I O H D s i req).0.1 ≡ s)
      unfolding put_manifest plan_manifest_put plan_manifest_put_tagged
      put_manifest-blob_is_servable_id s i req here r d hr hd =
          by_document (checked E R O H D req) refl
        where
          by_document :
              (c : Outcome (Digest × ParsedManifest))
              → checked E R O H D req ≡ c
              → (blob_is_servable_id E
                    (applied_put E R N I O H D
                      (interned_put E R N I O H D s i req [] c).1
                      (interned_put E R N I O H D s i req [] c).0).1
                    r
                    d
                  ≡ blob_is_servable_id E (intern E N I s i req.repo).1 r d)
                ⊎ ((applied_put E R N I O H D
                      (interned_put E R N I O H D s i req [] c).1
                      (interned_put E R N I O H D s i req [] c).0).1
                    ≡ s)
          by_document (done (digest, m)) e = inl (
              by_id req digest m (intern E N I s i req.repo)
                (returned _ _ (digest, m) (checked-AreDigests req) e) here r d hr hd)
          by_document (fail x) e = inr refl
          by_document panicked e = inr refl
