-- ===== src/Registry/Tags/Preserved.antt =====
-- What every tag and every edge of a repository is, behind the batch that sets a tag.
use summ.Prelude.{
  ◌≡◌, ◌↔◌, ◌&&◌, refl, ap, ◌∙◌, Option, none, some, Bool, true, false, [], Bytes, bytes_eq,
  map_option, if◌then◌else◌,
}
use summ.Core.Digest.{Digest, IsDigest}
use summ.Core.Timestamp.{Timestamp, secs}
use summ.Core.Types.{TagRecord}
use summ.Core.Keys.{RepoId, tag, manifest_tag}
use summ.Meta.Engine.{WriteBatch, View, view_ops}
use summ.Meta.Batch.{new, put, set, view_ops-put, view_ops-set}
use summ.Registry.Tags.{Codec, TagTarget, digest_eq, retract, staged_set}
use summ.Registry.Tags.Ranges.{edge_keys, tag_keys, referrer_tag, referrer_edge, edge_tag, tag_edge}
use summ.Registry.Tags.Inverse.{
  event_tag, event_edge, is_retracted, retract-tag, retract-manifest_tag,
}

module _ (C : Codec) where
  -- A tag's target, and whether a manifest has an edge for a tag.
  unfoldable pub pointed : View → RepoId → Bytes → Option Digest
  pointed v r t = elim (v (tag r t)) [
    | none ↦ none
    | some raw ↦ map_option (λ (x : TagRecord). x.digest) (C.decode_tag raw)
  ]

  unfoldable pub has_edge : View → RepoId → Digest → Bytes → Bool
  has_edge v r d t = elim (v (manifest_tag r d t)) [ none ↦ false | some x ↦ true ]

  -- The reverse index of a repository is the inverse of its tags.
  abbrev pub IsInverse : View → RepoId → Type 0
  IsInverse v r =
      (t : Bytes) (d : Digest) → IsDigest d → (has_edge v r d t ≡ true) ↔ (pointed v r t ≡ some d)

  abbrev pub written : TagTarget → Timestamp → TagRecord
  written target now = record { digest = target.digest; tagged_at = secs now }

  -- The tag and its edge, over what is retracted.
  abbrev edged : RepoId → Bytes → TagTarget → Timestamp → Option Digest → Option Digest → WriteBatch
  edged r t target now subject previous =
      set
        (put (retract new r t target.digest subject previous) (tag r t)
          (C.encode_tag (written target now)))
        (manifest_tag r target.digest t)

  edged-tag :
      (r : RepoId) (t u : Bytes) (target : TagTarget) (now : Timestamp)
      (subject previous : Option Digest) (v : View)
      → view_ops (edged r t target now subject previous).ops v (tag r u)
        ≡ (if bytes_eq t u then some (C.encode_tag (written target now)) else v (tag r u))
  edged-tag r t u target now subject previous v =
      view_ops-set _ _ v (tag r u)
      ∙ rw (edge_tag r t u target.digest target.digest) (
          view_ops-put _ _ _ v (tag r u)
          ∙ rw (tag_keys r t u, retract-tag new r t u target.digest subject previous v)
              (unfold new view_ops in refl))

  edged-manifest_tag :
      (r : RepoId) (t u : Bytes) (d : Digest) (target : TagTarget) (now : Timestamp)
      (subject previous : Option Digest) (v : View)
      → ((old : Digest) → previous ≡ some old → IsDigest old)
      → IsDigest target.digest
      → IsDigest d
      → view_ops (edged r t target now subject previous).ops v (manifest_tag r d u) ≡ (
          if digest_eq target.digest d && bytes_eq t u
          then some []
          else (if is_retracted previous target.digest d && bytes_eq t u
              then none
              else v (manifest_tag r d u)))
  edged-manifest_tag r t u d target now subject previous v hp ht hd =
      view_ops-set _ _ v (manifest_tag r d u)
      ∙ rw (edge_keys r target.digest d t u ht hd) (
          ap (λ x. if digest_eq target.digest d && bytes_eq t u then some [] else x)
            (view_ops-put _ _ _ v (manifest_tag r d u)
              ∙ rw (tag_edge r t u d d) (
                  retract-manifest_tag new r t u target.digest d subject previous v hp hd
                  ∙ (unfold new view_ops in refl))))

  pub set_tag_at :
      (r : RepoId) (t u : Bytes) (target : TagTarget) (now : Timestamp)
      (subject previous : Option Digest) (v : View)
      → view_ops (staged_set C new r t target now subject previous).ops v (tag r u)
        ≡ (if bytes_eq t u then some (C.encode_tag (written target now)) else v (tag r u))
  unfolding staged_set
  set_tag_at r t u target now none previous v =
      event_tag _ r t u now target.digest target.digest _ v
      ∙ edged-tag r t u target now none previous v
  set_tag_at r t u target now (some s) previous v =
      view_ops-put _ _ _ v (tag r u)
      ∙ rw (referrer_tag r t u s target.digest) (
          event_tag _ r t u now target.digest target.digest _ v
          ∙ edged-tag r t u target now (some s) previous v)

  pub set_edge_at :
      (r : RepoId) (t u : Bytes) (d : Digest) (target : TagTarget) (now : Timestamp)
      (subject previous : Option Digest) (v : View)
      → ((old : Digest) → previous ≡ some old → IsDigest old)
      → IsDigest target.digest
      → IsDigest d
      → view_ops (staged_set C new r t target now subject previous).ops v (manifest_tag r d u) ≡ (
          if digest_eq target.digest d && bytes_eq t u
          then some []
          else (if is_retracted previous target.digest d && bytes_eq t u
              then none
              else v (manifest_tag r d u)))
  unfolding staged_set
  set_edge_at r t u d target now none previous v hp ht hd =
      event_edge _ r t u now target.digest d _ v
      ∙ edged-manifest_tag r t u d target now none previous v hp ht hd
  set_edge_at r t u d target now (some s) previous v hp ht hd =
      view_ops-put _ _ _ v (manifest_tag r d u)
      ∙ rw (referrer_edge r t u target.digest d s) (
          event_edge _ r t u now target.digest d _ v
          ∙ edged-manifest_tag r t u d target now (some s) previous v hp ht hd)
