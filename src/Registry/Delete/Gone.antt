-- ===== src/Registry/Delete/Gone.antt =====
-- What the whole batch of a deletion leaves.
use summ.Prelude.{
  ℕ, ◌≡◌, ◌||◌, refl, ap, ◌∙◌, Option, none, some, Bool, true, false, List, [], ◌∷◌, Bytes,
  bytes_eq, if◌then◌else◌,
}
use summ.Core.Digest.{Digest}
use summ.Core.Timestamp.{Timestamp}
use summ.Core.Types.{ManifestRecord}
use summ.Core.Keys
use summ.Core.Keys.{RepoId, start, start_repo}
use summ.Meta.Engine.{WriteBatch, View, view_ops}
use summ.Registry.Records.{Records}
use summ.Registry.Cosign.{subject_of_artifact_tag}
use summ.Registry.Tags.{stage_delete_tag}
use summ.Registry.Frame.{
  Returns, returns, Returns-bind, Returns-then, Returns-mono, Keeps, Keeps-refl, Keeps-trans,
  Keeps-stage_delete_tag, is_tag_range,
}
use summ.Registry.Push.{contains}
use summ.Registry.Delete.{delete_tags}
use summ.Registry.Delete.Cascade.{own, own_gone, staged_delete-tag}

module _ (R : Records) (repo : RepoId) (digest : Digest) (r : ManifestRecord)
    (now : Timestamp) where
  -- The tags of a list are gone, the others as the batch before has them.
  abbrev pub TagsGone : WriteBatch → List Bytes → WriteBatch → Type 0
  TagsGone b tags c =
      (v : View) (u : Bytes)
      → view_ops c.ops v (Keys.tag repo u)
        ≡ (if contains u tags then none else view_ops b.ops v (Keys.tag repo u))

  stage_delete_tag-TagsGone :
      (b : WriteBatch) (t : Bytes)
      → Returns (TagsGone b (t ∷ [])) (stage_delete_tag R.tags b repo t digest (some r) now)
  unfolding stage_delete_tag contains
  stage_delete_tag-TagsGone b t = Returns-bind (subject_of_artifact_tag t) (λ subject.
      returns _ (λ v u.
        staged_delete-tag R.tags b repo t u digest (some r) now subject v
        ∙ by_test (bytes_eq t u) (view_ops b.ops v (Keys.tag repo u))))
    where
      by_test :
          (x : Bool) (o : Option Bytes) → (if x then none else o) ≡ (if x || false then none else o)
      by_test true o = refl
      by_test false o = refl

  pub delete_tags-TagsGone :
      (b : WriteBatch) (tags : List Bytes)
      → Returns (TagsGone b tags) (delete_tags R b repo tags digest r now)
  unfolding delete_tags contains
  delete_tags-TagsGone b [] = returns b (λ v u. refl)
  delete_tags-TagsGone b (t ∷ tags) =
      Returns-then (TagsGone b (t ∷ [])) (stage_delete_tag R.tags b repo t digest (some r) now)
        (stage_delete_tag-TagsGone b t)
        (λ c gone.
          Returns-mono _ _
            (λ e more v u.
              more v u
              ∙ ap (λ x. if contains u tags then none else x) (gone v u)
              ∙ by_tests (bytes_eq t u) (contains u tags) (view_ops b.ops v (Keys.tag repo u)))
            (delete_tags-TagsGone c tags))
    where
      by_tests :
          (x y : Bool) (o : Option Bytes)
          → (if y then none else (if x || false then none else o)) ≡ (if x || y then none else o)
      by_tests true true o = refl
      by_tests true false o = refl
      by_tests false y o = refl

  pub Keeps-delete_tags :
      (p : ℕ)
      → is_tag_range p ≡ false
      → (b : WriteBatch) (tags : List Bytes)
      → Returns (Keeps p b) (delete_tags R b repo tags digest r now)
  unfolding delete_tags
  Keeps-delete_tags p h b [] = returns b (Keeps-refl p b)
  Keeps-delete_tags p h b (t ∷ tags) =
      Returns-then (Keeps p b) (stage_delete_tag R.tags b repo t digest (some r) now)
        (Keeps-stage_delete_tag R.tags p h b repo t digest (some r) now)
        (λ c kept.
          Returns-mono _ _ (λ e more. Keeps-trans p b c e kept more) (Keeps-delete_tags p h c tags))

  -- What the batch does: the manifest and its body are gone, and so are the removed tags; the others
  -- stand.
  abbrev pub Leaves : List Bytes → WriteBatch → Type 0
  Leaves removed b =
      (v : View)
      → (view_ops b.ops v (Keys.manifest repo digest) ≡ none)
        × (view_ops b.ops v (Keys.manifest_body repo digest) ≡ none)
        × ((u : Bytes)
            → view_ops b.ops v (Keys.tag repo u)
              ≡ (if contains u removed then none else v (Keys.tag repo u)))

  pub kept-Leaves :
      (b c : WriteBatch) (removed : List Bytes)
      → Keeps b'M' (own repo digest r) b
        × Keeps b'Z' (own repo digest r) b
        × Keeps b'T' (own repo digest r) b
      → TagsGone b removed c × Keeps b'M' b c × Keeps b'Z' b c
      → Leaves removed c
  unfolding Keys.manifest Keys.manifest_body Keys.tag start_repo start
  kept-Leaves b c removed (m, z, t) (gone, m', z') v =
      let (m0, z0, t0) = own_gone repo digest r v in
      (
        m' v _ ∙ m v _ ∙ m0,
        z' v _ ∙ z v _ ∙ z0,
        (λ u. gone v u ∙ ap (λ x. if contains u removed then none else x) (t v _ ∙ t0 u)),
      )
