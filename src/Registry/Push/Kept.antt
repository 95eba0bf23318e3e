-- ===== src/Registry/Push/Kept.antt =====
-- The ranges that a push leaves alone.
use summ.Prelude.{
  ℕ, ◌==◌, ◌≡◌, ◌||◌, Option, none, some, true, false, List, [], ◌∷◌, ◌++◌, Bytes, length, arith,
}
use summ.Core.Digest.{Digest}
use summ.Core.Timestamp.{Timestamp}
use summ.Core.Keys
use summ.Core.Keys.{RepoId, start, start_repo}
use summ.Meta.Engine.{WriteBatch, MetaEngine}
use summ.Meta.Batch.{put}
use summ.Registry.Outcome.{◌>>=◌}
use summ.Registry.Records.{Records}
use summ.Registry.Manifest.{ParsedManifest}
use summ.Registry.Tags.{TagTarget, stage_set_tag}
use summ.Registry.Frame.{
  Returns, returns, Returns-then, Returns-mono, Keeps, Keeps-refl, Keeps-trans, Keeps-put,
  Keeps-stage_set_tag, is_tag_range,
}
use summ.Registry.Push.{contains, referrer_of}
use summ.Registry.Push.Staging.{stage_tags, staged_manifest}

module _ (E : MetaEngine) (R : Records) where
  pub Keeps-stage_tags :
      (p : ℕ)
      → is_tag_range p ≡ false
      → (s : E.State) (b : WriteBatch) (r : RepoId) (target : TagTarget) (now : Timestamp)
        (applied : List Bytes) (displaced : Option Digest) (tags : List Bytes)
      → Returns
          (λ (x : WriteBatch × Option Digest). Keeps p b x.0)
          (stage_tags E R s b r target now applied displaced tags)
  unfolding stage_tags
  Keeps-stage_tags p h s b r target now applied displaced [] = returns _ (Keeps-refl p b)
  Keeps-stage_tags p h s b r target now applied displaced (t ∷ tags) =
      elim (contains t applied)
        as (λ c.
          Returns (λ (x : WriteBatch × Option Digest). Keeps p b x.0)
            (elim c [
              | true ↦ stage_tags E R s b r target now applied displaced tags
              | false ↦
                  stage_set_tag R.tags E s b r t target now >>= (λ (x : WriteBatch × Option Digest).
                    stage_tags E R s x.0 r target now (applied ++ t ∷ [])
                      (elim applied [ [] ↦ x.1 | u ∷ us ↦ displaced ]) tags)
            ])) [
              | true ↦ Keeps-stage_tags p h s b r target now applied displaced tags
              | false ↦
                  Returns-then (λ (x : WriteBatch × Option Digest). Keeps p b x.0)
                    (stage_set_tag R.tags E s b r t target now)
                    (Keeps-stage_set_tag R.tags p h E s b r t target now)
                    (λ x kept.
                      Returns-mono _ _ (λ y more. Keeps-trans p b x.0 y.0 kept more)
                        (Keeps-stage_tags p h s x.0 r target now (applied ++ t ∷ []) _ tags))
            ]

  -- The ranges that the record, its body and its subject's edge are not in.
  pub Keeps-staged_manifest :
      (p : ℕ)
      → (b'M' == p || b'Z' == p || b'F' == p) ≡ false
      → (b : WriteBatch) (repo : RepoId) (digest : Digest) (body : Bytes) (now : Timestamp)
        (m : ParsedManifest)
      → Keeps p b (staged_manifest E R b repo digest body now m)
  unfolding staged_manifest Keys.referrer Keys.manifest Keys.manifest_body start_repo start
  Keeps-staged_manifest p h b repo digest body now m = by_subject m.subject _ (
      Keeps-put p b _ (Keys.manifest_body repo digest) (ground (arith, h)) (R.compress_body body)
        (Keeps-put p b b (Keys.manifest repo digest) (ground (arith, h)) _ (Keeps-refl p b)))
    where
      by_subject :
          (o : Option Digest) (c : WriteBatch)
          → Keeps p b c
          → Keeps p b (elim o as (λ x. WriteBatch) [
            | none ↦ c
            | some s ↦
                put c
                  (Keys.referrer repo s digest)
                  (R.tags.encode_referrer (referrer_of (length body) m))
          ])
      by_subject none c g = g
      by_subject (some s) c g =
          Keeps-put p b c (Keys.referrer repo s digest) (ground (arith, h)) _ g
