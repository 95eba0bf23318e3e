-- ===== src/Registry/Tags/Deleted.antt =====
-- Deleting a tag removes the tag and its edge, and nothing else of either range.
use summ.Prelude.{
  ◌≡◌, ◌&&◌, not, refl, sym, ap, ◌∙◌, inl, inr, Option, none, some, Bool, true, false, Bytes,
  bytes_eq, bytes_eq→eq, if◌then◌else◌, arith, Bool-cases,
}
use summ.Core.Digest.{Digest, IsDigest}
use summ.Core.Timestamp.{Timestamp}
use summ.Core.Types.{ManifestRecord}
use summ.Core.Keys.{RepoId, tag, manifest_tag}
use summ.Meta.Engine.{WriteBatch, View, view_ops}
use summ.Meta.Batch.{new, delete, view_ops-delete}
use summ.Registry.Tags.{Codec, digest_eq, staged_delete}
use summ.Registry.Tags.Ranges.{
  digest_eq_self, edge_keys, tag_keys, referrer_tag, referrer_edge, edge_tag, tag_edge,
}
use summ.Registry.Tags.Inverse.{event_tag, event_edge}
use summ.Registry.Tags.Preserved.{pointed, has_edge, IsInverse}
use summ.Registry.Tags.Invariant.{pointed_def, has_edge_def, target_of, is_held, pointed-IsDigest}

-- The deletes of the tag and of its edge.
abbrev bare : RepoId → Bytes → Digest → WriteBatch
bare r t d = delete (delete new (tag r t)) (manifest_tag r d t)

bare-tag :
    (r : RepoId) (t u : Bytes) (d : Digest) (v : View)
    → view_ops (bare r t d).ops v (tag r u) ≡ (if bytes_eq t u then none else v (tag r u))
bare-tag r t u d v =
    view_ops-delete _ _ v (tag r u)
    ∙ rw (edge_tag r t u d d) (
        view_ops-delete new (tag r t) v (tag r u)
        ∙ rw (tag_keys r t u) (unfold new view_ops in refl))

bare-manifest_tag :
    (r : RepoId) (t u : Bytes) (d e : Digest) (v : View)
    → IsDigest d
    → IsDigest e
    → view_ops (bare r t d).ops v (manifest_tag r e u)
      ≡ (if digest_eq d e && bytes_eq t u then none else v (manifest_tag r e u))
bare-manifest_tag r t u d e v hd he =
    view_ops-delete _ _ v (manifest_tag r e u)
    ∙ rw (edge_keys r d e t u hd he) (
        ap (λ x. if digest_eq d e && bytes_eq t u then none else x)
          (view_ops-delete new (tag r t) v (manifest_tag r e u)
            ∙ rw (tag_edge r t u e e) (unfold new view_ops in refl)))

module _ (C : Codec) where
  delete_tag_at :
      (r : RepoId) (t u : Bytes) (d : Digest) (m : Option ManifestRecord) (now : Timestamp)
      (subject : Option Digest) (v : View)
      → view_ops (staged_delete C new r t d m now subject).ops v (tag r u)
        ≡ (if bytes_eq t u then none else v (tag r u))
  unfolding staged_delete
  delete_tag_at r t u d m now none v = event_tag _ r t u now d d _ v ∙ bare-tag r t u d v
  delete_tag_at r t u d m now (some s) v =
      event_tag _ r t u now d d _ v
      ∙ view_ops-delete _ _ v (tag r u)
      ∙ rw (referrer_tag r t u s d) (bare-tag r t u d v)

  delete_edge_at :
      (r : RepoId) (t u : Bytes) (d e : Digest) (m : Option ManifestRecord) (now : Timestamp)
      (subject : Option Digest) (v : View)
      → IsDigest d
      → IsDigest e
      → view_ops (staged_delete C new r t d m now subject).ops v (manifest_tag r e u)
        ≡ (if digest_eq d e && bytes_eq t u then none else v (manifest_tag r e u))
  unfolding staged_delete
  delete_edge_at r t u d e m now none v hd he =
      event_edge _ r t u now d e _ v ∙ bare-manifest_tag r t u d e v hd he
  delete_edge_at r t u d e m now (some s) v hd he =
      event_edge _ r t u now d e _ v
      ∙ view_ops-delete _ _ v (manifest_tag r e u)
      ∙ rw (referrer_edge r t u d e s) (bare-manifest_tag r t u d e v hd he)

  module _ (r : RepoId) (t : Bytes) (d : Digest) (m : Option ManifestRecord) (now : Timestamp)
      (subject : Option Digest) (v : View) (target : pointed C v r t ≡ some d) where
    abbrev pub left : View
    left = view_ops (staged_delete C new r t d m now subject).ops v

    pub pointed-left :
        (u : Bytes) → pointed C left r u ≡ (if bytes_eq t u then none else pointed C v r u)
    pointed-left u =
        pointed_def C left r u
        ∙ ap (target_of C) (delete_tag_at r t u d m now subject v)
        ∙ by_tag (bytes_eq t u)
        ∙ ap (λ x. if bytes_eq t u then none else x) (sym (pointed_def C v r u))
      where
        by_tag :
            (b : Bool)
            → target_of C (if b then none else v (tag r u))
              ≡ (if b then none else target_of C (v (tag r u)))
        by_tag true = refl
        by_tag false = refl

    edge_left :
        (u : Bytes) (e : Digest)
        → IsDigest e
        → has_edge C left r e u ≡ (not (digest_eq d e && bytes_eq t u) && has_edge C v r e u)
    edge_left u e he =
        has_edge_def C left r e u
        ∙ ap (is_held C)
            (delete_edge_at r t u d e m now subject v (pointed-IsDigest C v r t d target) he)
        ∙ by_test (digest_eq d e && bytes_eq t u)
        ∙ ap (λ x. not (digest_eq d e && bytes_eq t u) && x) (sym (has_edge_def C v r e u))
      where
        by_test :
            (a : Bool)
            → is_held C (if a then none else v (manifest_tag r e u))
              ≡ (not a && is_held C (v (manifest_tag r e u)))
        by_test true = refl
        by_test false = refl

    pub staged_delete-IsInverse : IsInverse C v r → IsInverse C left r
    staged_delete-IsInverse h u e he = elim (Bool-cases (bytes_eq t u)) [
      | inl q ↦ (
        (λ x.
            let (stood, other) =
              deleted (digest_eq d e) (bytes_eq t u) (has_edge C v r e u) q
                (sym (edge_left u e he) ∙ x) in
            let there : pointed C v r t ≡ some e =
              ap (pointed C v r) (bytes_eq→eq t u q) ∙ (h u e he).0 stood in
            let same : some d ≡ some e = sym target ∙ there in
            let same' : d ≡ e = cc in
            absurd (cc (ap (digest_eq d) same', digest_eq_self d, other))),
        (λ x.
            let gone : pointed C left r u ≡ none = pointed-left u ∙ rw q refl in
            absurd (cc (gone, x))),
      )
      | inr q ↦
          let edge : has_edge C left r e u ≡ has_edge C v r e u =
            edge_left u e he ∙ untouched (digest_eq d e) (bytes_eq t u) (has_edge C v r e u) q in
          let point : pointed C left r u ≡ pointed C v r u = pointed-left u ∙ rw q refl in
          ((λ x. point ∙ (h u e he).0 (sym edge ∙ x)), (λ x. edge ∙ (h u e he).1 (sym point ∙ x)))
    ]
      where
        deleted : (a b x : Bool) → b ≡ true → (not (a && b) && x) ≡ true → (x ≡ true) × (a ≡ false)
        deleted a b x hb y = ground arith

        untouched : (a b x : Bool) → b ≡ false → (not (a && b) && x) ≡ x
        untouched a b x hb = ground arith
