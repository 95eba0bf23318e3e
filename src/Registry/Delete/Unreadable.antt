-- ===== src/Registry/Delete/Unreadable.antt =====
-- A deleted manifest cannot be read, and its tags have gone with it.
use summ.Prelude.{
  ℕ, ◌≡◌, ◌↔◌, refl, ap, sym, ◌∙◌, Option, none, some, true, false, List, [], Bytes, if◌then◌else◌,
  subst, ◌==◌,
}
use summ.Core.Digest.{Digest, IsDigest, display}
use summ.Core.Timestamp.{Timestamp}
use summ.Core.Types.{ManifestRecord}
use summ.Core.Keys
use summ.Core.Keys.{RepoId, start, start_repo}
use summ.Meta.Engine.{WriteBatch, View, MetaEngine}
use summ.Meta.Scans.{Scans}
use summ.Registry.Outcome.{Outcome, done, require, manifest_unknown, ◌>>=◌}
use summ.Registry.Records.{Records}
use summ.Registry.Tags.{manifest_record}
use summ.Registry.Tags.Preserved.{pointed, has_edge, IsInverse}
use summ.Registry.Tags.Invariant.{pointed_def, has_edge_def, target_of, is_held}
use summ.Registry.Drain.{each, drain, keys_under}
use summ.Registry.Drain.Ends.{drain-each}
use summ.Registry.Frame.{
  Returns, returns, Returns-bind, Returns-then, Returns-mono, Returns-both, returned, Keeps,
  Keeps-trans,
}
use summ.Registry.Push.{contains}
use summ.Registry.Push.Operations.{stored_manifest}
use summ.Registry.Delete.{
  ManifestDeleted, delete_own, delete_key, push_tag, delete_tags, planned_manifest_delete,
}
use summ.Registry.Delete.Removed.{is_some, removed_tags, keys_under-start}
use summ.Registry.Delete.Cascade.{own, Keeps-delete_own, each-Keeps, is_edge_range}
use summ.Registry.Delete.Gone.{
  Leaves, TagsGone, delete_tags-TagsGone, Keeps-delete_tags, kept-Leaves,
}

module _ (R : Records) (E : MetaEngine) (S : Scans E) where
  -- The plan's batch, and the tags that it reports: those whose edge the store has.
  abbrev Planned :
      E.State → RepoId → Digest → ManifestRecord → Timestamp → ManifestDeleted × WriteBatch → Type 0
  Planned s repo digest r now x =
      Leaves R repo digest r now x.0.removed_tags x.1
      × ((t : Bytes)
          → contains t x.0.removed_tags ≡ is_some (E.get s (Keys.manifest_tag repo digest t)))

  rest-Planned :
      (s : E.State) (repo : RepoId) (digest : Digest) (r : ManifestRecord) (now : Timestamp)
      → Returns (Planned s repo digest r now) (
          each delete_key
            (keys_under E S s (Keys.parents_of repo digest))
            (delete_own repo digest r)
          >>= (λ orphaned.
              each (push_tag digest) (keys_under E S s (Keys.tags_of_manifest repo digest)) []
              >>= (λ removed.
                  delete_tags R orphaned repo removed digest r now
                  >>= (λ batch. done (record { digest = digest; removed_tags = removed }, batch)))))
  rest-Planned s repo digest r now =
      Returns-then
        (λ b.
          Keeps b'M' (delete_own repo digest r) b
          × (Keeps b'Z' (delete_own repo digest r) b × Keeps b'T' (delete_own repo digest r) b))
        (each delete_key (keys_under E S s (Keys.parents_of repo digest))
          (delete_own repo digest r))
        (Returns-both _ _ _ (drained b'M' refl)
          (Returns-both _ _ _ (drained b'Z' refl) (drained b'T' refl)))
        (λ orphaned (m, (z, t)).
          Returns-then
            (λ (out : List Bytes).
              (u : Bytes) → contains u out ≡ is_some (E.get s (Keys.manifest_tag repo digest u)))
            (each (push_tag digest) (keys_under E S s (Keys.tags_of_manifest repo digest)) [])
            (removed_tags E S s repo digest)
            (λ removed which.
              Returns-then
                (λ b.
                  TagsGone R repo digest r now orphaned removed b
                  × (Keeps b'M' orphaned b × Keeps b'Z' orphaned b))
                (delete_tags R orphaned repo removed digest r now)
                (Returns-both _ _ _ (delete_tags-TagsGone R repo digest r now orphaned removed) (
                  Returns-both _ _ _
                    (Keeps-delete_tags R repo digest r now b'M' refl orphaned removed)
                    (Keeps-delete_tags R repo digest r now b'Z' refl orphaned removed)))
                (λ batch (gone, (m', z')). returns _ (
                  kept-Leaves R repo digest r now orphaned batch removed
                      (
                        after b'M' refl orphaned m,
                        after b'Z' refl orphaned z,
                        after b'T' refl orphaned t,
                      )
                      (gone, m', z'),
                  which,
                ))))
    where
      drained :
          (p : ℕ)
          → (b'S' == p) ≡ false
          → Returns (Keeps p (delete_own repo digest r)) (
              each delete_key
                (keys_under E S s (Keys.parents_of repo digest))
                (delete_own repo digest r))
      drained p h =
          each-Keeps p h repo digest _ _ (keys_under-start E S s (Keys.parents_of repo digest))

      after :
          (p : ℕ)
          → is_edge_range p ≡ false
          → (b : WriteBatch) → Keeps p (delete_own repo digest r) b
          → Keeps p (own repo digest r) b
      after p h b kept =
          Keeps-trans p (own repo digest r) (delete_own repo digest r) b
            (Keeps-delete_own repo digest r p h) kept

  planned_manifest_delete-Planned :
      (s : E.State) (name : Bytes) (digest : Digest) (now : Timestamp) (repo : RepoId)
      → Returns
          (λ x. (r : ManifestRecord) × Planned s repo digest r now x)
          (planned_manifest_delete R E S s name digest now repo)
  unfolding planned_manifest_delete
  planned_manifest_delete-Planned s name digest now repo =
      Returns-bind (manifest_record R.tags E s repo digest) (λ found.
        Returns-bind (require found (manifest_unknown name (display digest))) (λ r.
          Returns-mono _ _ (λ x p. (r, p))
            (subst (Returns (Planned s repo digest r now)) (sym (ends r))
              (rest-Planned s repo digest r now))))
    where
      ends :
          (r : ManifestRecord)
          → ◌≡◌ {A = Outcome (ManifestDeleted × WriteBatch)}
              (drain E S s (Keys.parents_of repo digest) delete_key (delete_own repo digest r)
                >>= (λ orphaned.
                    drain E S s (Keys.tags_of_manifest repo digest) (push_tag digest) []
                    >>= (λ removed. delete_tags R orphaned repo removed digest r now >>= (λ batch.
                        done (record { digest = digest; removed_tags = removed }, batch)))))
              (each delete_key
                  (keys_under E S s (Keys.parents_of repo digest))
                  (delete_own repo digest r)
                >>= (λ orphaned.
                    each (push_tag digest) (keys_under E S s (Keys.tags_of_manifest repo digest)) []
                    >>= (λ removed. delete_tags R orphaned repo removed digest r now >>= (λ batch.
                        done (record { digest = digest; removed_tags = removed }, batch)))))
      ends r =
          rw
            (
              drain-each E S s (Keys.parents_of repo digest) delete_key (delete_own repo digest r),
              drain-each E S s (Keys.tags_of_manifest repo digest) (push_tag digest) [],
            )
            refl

  module _ (s : E.State) (name : Bytes) (digest : Digest) (now : Timestamp) (repo : RepoId)
      (o : ManifestDeleted) (batch : WriteBatch)
      (plan : planned_manifest_delete R E S s name digest now repo ≡ done (o, batch)) where
    left : View
    left = E.get (E.apply s batch)

    tag_left :
        (t : Bytes)
        → pointed R.tags left repo t ≡ (
            if has_edge R.tags (E.get s) repo digest t
            then none
            else pointed R.tags (E.get s) repo t)
    unfolding left
    tag_left t =
        let (r, (leaves, which)) =
          returned _ _ (o, batch) (planned_manifest_delete-Planned s name digest now repo) plan in
        let (_, _, tags) = leaves (E.get s) in
        pointed_def R.tags left repo t
        ∙ ap (target_of R.tags) (E.get-apply s batch (Keys.tag repo t) ∙ tags t)
        ∙ ap (λ x. target_of R.tags (if x then none else E.get s (Keys.tag repo t))) (which t)
        ∙ by_edge (E.get s (Keys.manifest_tag repo digest t)) (E.get s (Keys.tag repo t))
        ∙ ap (λ x. if x then none else target_of R.tags (E.get s (Keys.tag repo t)))
            (sym (has_edge_def R.tags (E.get s) repo digest t))
        ∙ ap (λ x. if has_edge R.tags (E.get s) repo digest t then none else x)
            (sym (pointed_def R.tags (E.get s) repo t))
      where
        by_edge :
            (e v : Option Bytes)
            → target_of R.tags (if is_some e then none else v)
              ≡ (if is_held R.tags e then none else target_of R.tags v)
        by_edge none v = refl
        by_edge (some x) v = refl

    removed_held : (t : Bytes) → contains t o.removed_tags ≡ has_edge R.tags (E.get s) repo digest t
    removed_held t =
        let (r, (leaves, which)) =
          returned _ _ (o, batch) (planned_manifest_delete-Planned s name digest now repo) plan in
        which t
        ∙ same (E.get s (Keys.manifest_tag repo digest t))
        ∙ sym (has_edge_def R.tags (E.get s) repo digest t)
      where
        same : (e : Option Bytes) → is_some e ≡ is_held R.tags e
        same none = refl
        same (some x) = refl

    unread : stored_manifest E R (E.apply s batch) repo digest ≡ done none
    unfolding stored_manifest manifest_record
    unread =
        let (r, (leaves, which)) =
          returned _ _ (o, batch) (planned_manifest_delete-Planned s name digest now repo) plan in
        let (record_gone, _, _) = leaves (E.get s) in
        rw (E.get-apply s batch (Keys.manifest repo digest) ∙ record_gone) refl

    -- A deletion by digest that returns, in a repository whose reverse index is the inverse of its tags:
    -- the manifest can no longer be read; the tags reported are exactly those that pointed to it; each of
    -- them now points nowhere, and every other tag to what it did.
    pub planned_manifest_delete-stored_manifest :
        IsInverse R.tags (E.get s) repo
        → IsDigest digest
        → (stored_manifest E R (E.apply s batch) repo digest ≡ done none)
          × ((t : Bytes)
              → (contains t o.removed_tags ≡ true)
                ↔ (pointed R.tags (E.get s) repo t ≡ some digest))
          × ((t : Bytes)
              → pointed R.tags (E.get (E.apply s batch)) repo t
                ≡ (if contains t o.removed_tags then none else pointed R.tags (E.get s) repo t))
    unfolding left
    planned_manifest_delete-stored_manifest h hd = (
      unread,
      (λ t. (
        (λ x. (h t digest hd).0 (sym (removed_held t) ∙ x)),
        (λ x. removed_held t ∙ (h t digest hd).1 x),
      )),
      (λ t.
          tag_left t
          ∙ ap (λ x. if x then none else pointed R.tags (E.get s) repo t) (sym (removed_held t))),
    )
