-- ===== src/Registry/Delete/Cascade.antt =====
-- What the batch of a manifest's deletion leaves of the manifest and of the tags.
use summ.Prelude.{
  ℕ, ◌==◌, ◌≡◌, ◌||◌, refl, ap, ◌∙◌, Option, none, some, Bool, true, false, List, [], ◌∷◌, Bytes,
  bytes_eq, bytes_eq_self, starts_with, if◌then◌else◌, arith, All,
}
use summ.Core.Digest.{Digest}
use summ.Core.Timestamp.{Timestamp}
use summ.Core.Types.{ManifestRecord, ChildRef}
use summ.Core.Keys
use summ.Core.Keys.{RepoId, start, start_repo}
use summ.Core.Keys.Scans.Exact.{starts_with_inv}
use summ.Meta.Engine.{WriteBatch, View, view_ops}
use summ.Meta.Batch.{new, delete, view_ops-delete}
use summ.Registry.Tags.{Codec, staged_delete}
use summ.Registry.Tags.Ranges.{tag_keys, referrer_tag, edge_tag}
use summ.Registry.Tags.Inverse.{event_tag}
use summ.Registry.Drain.{each}
use summ.Registry.Frame.{
  Returns, returns, Returns-mono, Keeps, Keeps-refl, Keeps-trans, Keeps-delete, in_range,
}
use summ.Registry.Delete.{delete_refs, delete_children, delete_own, delete_key}

-- The edges that a record names.
Keeps-delete_refs :
    (p : ℕ)
    → (b'R' == p) ≡ false
    → (b : WriteBatch) (r : RepoId) (d : Digest) (layers : List Digest)
    → Keeps p b (delete_refs b r d layers)
unfolding delete_refs Keys.blob_ref start
Keeps-delete_refs p h b r d [] = Keeps-refl p b
Keeps-delete_refs p h b r d (x ∷ layers) =
    Keeps-trans p b _ _ (Keeps-delete p b b (Keys.blob_ref x r d) h (Keeps-refl p b))
      (Keeps-delete_refs p h (delete b (Keys.blob_ref x r d)) r d layers)

Keeps-delete_children :
    (p : ℕ)
    → (b'S' == p) ≡ false
    → (b : WriteBatch) (r : RepoId) (d : Digest) (children : List ChildRef)
    → Keeps p b (delete_children b r d children)
unfolding delete_children Keys.child_parent start_repo start
Keeps-delete_children p h b r d [] = Keeps-refl p b
Keeps-delete_children p h b r d (c ∷ children) =
    Keeps-trans p b _ _ (Keeps-delete p b b (Keys.child_parent r c.digest d) h (Keeps-refl p b))
      (Keeps-delete_children p h (delete b (Keys.child_parent r c.digest d)) r d children)

-- The ranges of a manifest's edges.
abbrev pub is_edge_range : ℕ → Bool
is_edge_range p = b'R' == p || b'S' == p || b'F' == p

-- A drain that deletes keys of the range of children.
pub each-Keeps :
    (p : ℕ)
    → (b'S' == p) ≡ false
    → (r : RepoId) (d : Digest) (keys : List Bytes) (b : WriteBatch)
    → All (λ k. starts_with k (Keys.parents_of r d) ≡ true) keys
    → Returns (Keeps p b) (each delete_key keys b)
unfolding each delete_key
each-Keeps p h r d [] b hs = returns b (Keeps-refl p b)
each-Keeps p h r d (k ∷ keys) b hs =
    Returns-mono _ _
      (λ c kept.
        Keeps-trans p b (delete b k) c (Keeps-delete p b b k (of_children k hs.0) (Keeps-refl p b))
          kept)
      (each-Keeps p h r d keys (delete b k) hs.1)
  where
    of_children : (k : Bytes) → starts_with k (Keys.parents_of r d) ≡ true → in_range p k ≡ false
    of_children k u =
        let (rest, e) = starts_with_inv k (Keys.parents_of r d) u in
        ap (in_range p) e ∙ (unfold Keys.parents_of start_repo start in h)

module _ (repo : RepoId) (digest : Digest) (r : ManifestRecord) where
  abbrev pub own : WriteBatch
  own = delete (delete new (Keys.manifest repo digest)) (Keys.manifest_body repo digest)

  pub Keeps-delete_own : (p : ℕ) → is_edge_range p ≡ false → Keeps p own (delete_own repo digest r)
  unfolding delete_own Keys.referrer start_repo start
  Keeps-delete_own p h = by_subject r.subject _ (
      Keeps-trans p own (delete_refs own repo digest r.layers) _
        (Keeps-delete_refs p (ground (arith, h)) own repo digest r.layers)
        (Keeps-delete_children p (ground (arith, h)) _ repo digest r.children))
    where
      by_subject :
          (o : Option Digest) (c : WriteBatch)
          → Keeps p own c
          → Keeps p own (elim o as (λ x. WriteBatch) [
            | none ↦ c
            | some s ↦ delete c (Keys.referrer repo s digest)
          ])
      by_subject none c g = g
      by_subject (some s) c g = Keeps-delete p own c _ (ground (arith, h)) g

  -- The record and its body are gone, and the tags are as they were.
  pub own_gone :
      (v : View)
      → (view_ops own.ops v (Keys.manifest repo digest) ≡ none)
        × (view_ops own.ops v (Keys.manifest_body repo digest) ≡ none)
        × ((u : Bytes) → view_ops own.ops v (Keys.tag repo u) ≡ v (Keys.tag repo u))
  unfolding Keys.manifest Keys.manifest_body Keys.tag start_repo start
  own_gone v = (
    view_ops-delete _ (Keys.manifest_body repo digest) v (Keys.manifest repo digest)
        ∙ view_ops-delete new (Keys.manifest repo digest) v (Keys.manifest repo digest)
        ∙ rw (bytes_eq_self (Keys.manifest repo digest)) refl,
    view_ops-delete _ (Keys.manifest_body repo digest) v (Keys.manifest_body repo digest)
        ∙ rw (bytes_eq_self (Keys.manifest_body repo digest)) refl,
    (λ u.
        view_ops-delete _ (Keys.manifest_body repo digest) v (Keys.tag repo u)
        ∙ view_ops-delete new (Keys.manifest repo digest) v (Keys.tag repo u)
        ∙ (unfold new view_ops in refl)),
  )

-- Deleting one tag, behind any batch.
module _ (C : Codec) where
  pub staged_delete-tag :
      (b : WriteBatch) (r : RepoId) (t u : Bytes) (d : Digest) (m : Option ManifestRecord)
      (now : Timestamp) (subject : Option Digest) (v : View)
      → view_ops (staged_delete C b r t d m now subject).ops v (Keys.tag r u)
        ≡ (if bytes_eq t u then none else view_ops b.ops v (Keys.tag r u))
  unfolding staged_delete
  staged_delete-tag b r t u d m now none v = event_tag _ r t u now d d _ v ∙ bare
    where
      bare :
          view_ops (delete (delete b (Keys.tag r t)) (Keys.manifest_tag r d t)).ops v (Keys.tag r u)
          ≡ (if bytes_eq t u then none else view_ops b.ops v (Keys.tag r u))
      bare =
          view_ops-delete _ _ v (Keys.tag r u)
          ∙ rw (edge_tag r t u d d)
              (view_ops-delete b (Keys.tag r t) v (Keys.tag r u) ∙ rw (tag_keys r t u) refl)
  staged_delete-tag b r t u d m now (some s) v =
      event_tag _ r t u now d d _ v
      ∙ view_ops-delete _ _ v (Keys.tag r u)
      ∙ rw (referrer_tag r t u s d) (
          view_ops-delete _ _ v (Keys.tag r u)
          ∙ rw (edge_tag r t u d d)
              (view_ops-delete b (Keys.tag r t) v (Keys.tag r u) ∙ rw (tag_keys r t u) refl))
