-- ===== src/Registry/Push/Authorised.antt =====
-- A push that checks its references lets no repository serve a blob that it could not serve before.
use summ.Prelude.{
  ℕ, ◌==◌, ◌≡◌, refl, sym, subst, ◌∙◌, ◌||◌, ◌&&◌, not, ◌⊎◌, inl, inr, Option, none, some, Bool,
  true, false, List, [], ◌∷◌, Bytes, bytes_eq, bytes_eq→eq, if◌then◌else◌, arith, Bool-cases, All,
}
use summ.Core.Digest.{Digest, IsDigest}
use summ.Core.Timestamp.{Timestamp}
use summ.Core.Types.{ChildRef}
use summ.Core.Buckets.{BlobRecord}
use summ.Core.Keys
use summ.Core.Keys.{RepoId, start, start_repo}
use summ.Meta.Engine.{WriteBatch, MetaEngine, view_ops}
use summ.Meta.Batch.{put, set, new, view_ops-put}
use summ.Registry.Outcome.{Outcome, done, fail, manifest_blob_unknown}
use summ.Registry.Records.{Records}
use summ.Registry.Manifest.{BlobDesc, ParsedManifest}
use summ.Registry.Blobs.{blob_is_servable_id, blob_record}
use summ.Registry.Frame.{
  Returns, returns, fails, Returns-bind, Returns-then, Keeps, Keeps-refl, Keeps-put, Keeps-set,
  Keeps-delete,
}
use summ.Registry.Push.Kept.{Keeps-staged_manifest}
use summ.Registry.Push.{RegistryOptions}
use summ.Registry.Push.Staging.{
  held, staged_blob, stage_blob, stage_blobs, stage_children, staged_manifest,
}

-- The two ranges that say which repository may serve which blob.
abbrev pub is_grant_range : ℕ → Bool
is_grant_range p = p == b'R' || p == b'P'

module _ (E : MetaEngine) (s : E.State) (repo : RepoId) (manifest : Digest) where
  -- A key that a push may write into those ranges: of a blob that the repository may serve already.
  abbrev pub IsHeldKey : Bytes → Type 0
  IsHeldKey k =
      (d : Digest) × IsDigest d
      × (blob_is_servable_id E s repo d ≡ true)
      × ((k ≡ Keys.blob_ref d repo manifest) ⊎ (k ≡ Keys.repo_blob repo d))

  -- In the two ranges, a batch removes no key, and adds only keys of blobs that may be served already.
  pub record GrantsHeld (b : WriteBatch) : Type 0 where
    pub stays :
        (p : ℕ) (k v : Bytes)
        → is_grant_range p ≡ true
        → E.get s (p ∷ k) ≡ some v
        → (w : Bytes) × (view_ops b.ops (E.get s) (p ∷ k) ≡ some w)
    pub adds :
        (p : ℕ) (k w : Bytes)
        → is_grant_range p ≡ true
        → view_ops b.ops (E.get s) (p ∷ k) ≡ some w
        → ((v : Bytes) × (E.get s (p ∷ k) ≡ some v)) ⊎ IsHeldKey (p ∷ k)

  pub new-GrantsHeld : GrantsHeld new
  unfolding new view_ops
  new-GrantsHeld = record { stays = λ p k v h e. (v, e); adds = λ p k w h e. inl (w, e) }

  pub put-GrantsHeld :
      (b : WriteBatch) (key value : Bytes)
      → IsHeldKey key
      → GrantsHeld b
      → GrantsHeld (put b key value)
  put-GrantsHeld b key value held g = record { stays = stays'; adds = adds' }
    where
      stays' :
          (p : ℕ) (k v : Bytes)
          → is_grant_range p ≡ true
          → E.get s (p ∷ k) ≡ some v
          → (w : Bytes) × (view_ops (put b key value).ops (E.get s) (p ∷ k) ≡ some w)
      stays' p k v h e = elim (Bool-cases (bytes_eq key (p ∷ k))) [
        | inl q ↦ (value, view_ops-put b key value (E.get s) (p ∷ k) ∙ rw q refl)
        | inr q ↦
            let (w, f) = g.stays p k v h e in
            (w, view_ops-put b key value (E.get s) (p ∷ k) ∙ rw q f)
      ]

      adds' :
          (p : ℕ) (k w : Bytes)
          → is_grant_range p ≡ true
          → view_ops (put b key value).ops (E.get s) (p ∷ k) ≡ some w
          → ((v : Bytes) × (E.get s (p ∷ k) ≡ some v)) ⊎ IsHeldKey (p ∷ k)
      adds' p k w h e = elim (Bool-cases (bytes_eq key (p ∷ k))) [
        | inl q ↦ inr (subst IsHeldKey (bytes_eq→eq key (p ∷ k) q) held)
        | inr q ↦ g.adds p k w h (sym (view_ops-put b key value (E.get s) (p ∷ k) ∙ rw q refl) ∙ e)
      ]

  -- What leaves both ranges alone keeps the invariant.
  pub Keeps-GrantsHeld :
      (b c : WriteBatch)
      → ((p : ℕ) → is_grant_range p ≡ true → Keeps p b c)
      → GrantsHeld b
      → GrantsHeld c
  Keeps-GrantsHeld b c kept g = record {
    stays = λ p k v h e. let (w, f) = g.stays p k v h e in (w, kept p h (E.get s) k ∙ f);
    adds = λ p k w h e. g.adds p k w h (sym (kept p h (E.get s) k) ∙ e);
  }

  module _ (R : Records) (now : Timestamp) where
    staged_blob-GrantsHeld :
        (b : WriteBatch) (desc : BlobDesc) (known : Option BlobRecord)
        → IsDigest desc.digest
        → blob_is_servable_id E s repo desc.digest ≡ true
        → GrantsHeld b
        → GrantsHeld (staged_blob E R s b repo manifest now desc known)
    unfolding staged_blob
    staged_blob-GrantsHeld b desc known hd h g =
        Keeps-GrantsHeld _ _
          (λ p hp.
            Keeps-delete p _ _ (Keys.blob_mark desc.digest)
              (unfold Keys.blob_mark start in ground (arith, hp)) (Keeps-refl p _))
          (unfold set in
            put-GrantsHeld _ (Keys.blob_ref desc.digest repo manifest) []
              (desc.digest, hd, h, inl refl)
              (joined (E.exists_prefix s (Keys.repo_blob repo desc.digest)) _ _ (recorded known)))
      where
        recorded :
            (o : Option BlobRecord)
            → GrantsHeld (elim o as (λ x. WriteBatch) [
              | none ↦ put b (Keys.blob desc.digest) (
                  R.encode_blob (record {
                    size = elim known as (λ x. ℕ) [ none ↦ desc.size | some r ↦ r.size ];
                  }))
              | some r ↦ b
            ])
        recorded none =
            Keeps-GrantsHeld b _
              (λ p hp.
                Keeps-put p b b (Keys.blob desc.digest)
                  (unfold Keys.blob start in ground (arith, hp)) _ (Keeps-refl p b))
              g
        recorded (some r) = g

        joined :
            (x : Bool) (c : WriteBatch) (value : Bytes)
            → GrantsHeld c
            → GrantsHeld (if x then c else put c (Keys.repo_blob repo desc.digest) value)
        joined true c value gc = gc
        joined false c value gc =
            put-GrantsHeld c (Keys.repo_blob repo desc.digest) value (desc.digest, hd, h, inr refl)
              gc

    module _ (O : RegistryOptions) (checks : O.validate_references ≡ true) where
      held_inv :
          (known : Option BlobRecord) (in_repo : Bool)
          → held E R known in_repo ≡ true
          → in_repo ≡ true
      held_inv none in_repo h = absurd (cc h)
      held_inv (some r) in_repo h = h

      stage_blob-GrantsHeld :
          (b : WriteBatch) (name : Bytes) (desc : BlobDesc)
          → IsDigest desc.digest
          → GrantsHeld b
          → Returns GrantsHeld (stage_blob E R O s b name repo manifest now desc)
      unfolding stage_blob
      stage_blob-GrantsHeld b name desc hd g =
          Returns-bind (blob_record E R s desc.digest) (λ known.
            by_tests known desc.foreign O.validate_references checks
              (held E R known (blob_is_servable_id E s repo desc.digest)) refl)
        where
          by_tests :
              (known : Option BlobRecord) (foreign validate : Bool)
              → validate ≡ true
              → (here : Bool) → held E R known (blob_is_servable_id E s repo desc.digest) ≡ here
              → Returns GrantsHeld (
                  if foreign && not here
                  then done b
                  else (if validate && not here
                      then fail (manifest_blob_unknown name desc.digest)
                      else done (staged_blob E R s b repo manifest now desc known)))
          by_tests known true validate h false e = returns b g
          by_tests known false true h false e = fails _
          by_tests known false false h false e = absurd (cc h)
          by_tests known true true h true e =
              returns _ (staged_blob-GrantsHeld b desc known hd (held_inv known _ e) g)
          by_tests known false true h true e =
              returns _ (staged_blob-GrantsHeld b desc known hd (held_inv known _ e) g)
          by_tests known foreign false h true e = absurd (cc h)

      pub stage_blobs-GrantsHeld :
          (b : WriteBatch) (name : Bytes) (descs : List BlobDesc)
          → All (λ (x : BlobDesc). IsDigest x.digest) descs
          → GrantsHeld b
          → Returns GrantsHeld (stage_blobs E R O s b name repo manifest now descs)
      unfolding stage_blobs
      stage_blobs-GrantsHeld b name [] hs g = returns b g
      stage_blobs-GrantsHeld b name (desc ∷ descs) hs g =
          Returns-then GrantsHeld (stage_blob E R O s b name repo manifest now desc)
            (stage_blob-GrantsHeld b name desc hs.0 g)
            (λ c gc. stage_blobs-GrantsHeld c name descs hs.1 gc)

      pub stage_children-GrantsHeld :
          (b : WriteBatch) (name : Bytes) (children : List ChildRef)
          → GrantsHeld b
          → Returns GrantsHeld (stage_children E R O s b name repo manifest children)
      unfolding stage_children
      stage_children-GrantsHeld b name [] g = returns b g
      stage_children-GrantsHeld b name (child ∷ children) g = by_test _ (
          stage_children-GrantsHeld (set b (Keys.child_parent repo child.digest manifest)) name
            children
            (Keeps-GrantsHeld b _
              (λ p hp.
                Keeps-set p b b (Keys.child_parent repo child.digest manifest)
                  (unfold Keys.child_parent start_repo start in ground (arith, hp))
                  (Keeps-refl p b))
              g))
        where
          by_test :
              (x : Bool) {rest : Outcome WriteBatch}
              → Returns GrantsHeld rest
              → Returns GrantsHeld
                  (if x then fail (manifest_blob_unknown name child.digest) else rest)
          by_test true h = fails _
          by_test false h = h

      pub staged_manifest-GrantsHeld :
          (b : WriteBatch) (body : Bytes) (m : ParsedManifest)
          → GrantsHeld b
          → GrantsHeld (staged_manifest E R b repo manifest body now m)
      staged_manifest-GrantsHeld b body m g =
          Keeps-GrantsHeld b _
            (λ p hp.
              Keeps-staged_manifest E R p
                (unfold Keys.manifest Keys.manifest_body start_repo start in ground (arith, hp)) b
                repo manifest body now m)
            g
