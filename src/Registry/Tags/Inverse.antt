-- ===== src/Registry/Tags/Inverse.antt =====
-- The reverse index of tags: its edges are exactly the tags' targets, and every write keeps them so.
use summ.Prelude.{
  ◌≡◌, ◌&&◌, not, refl, ◌∙◌, inl, inr, Option, none, some, Bool, false, Bytes, bytes_eq,
  if◌then◌else◌, Bool-cases,
}
use summ.Core.Digest.{Digest, IsDigest}
use summ.Core.Timestamp.{Timestamp}
use summ.Core.Keys.{RepoId, tag, manifest_tag}
use summ.Core.Keys.History.{tag_history}
use summ.Meta.Engine.{WriteBatch, View, view_ops}
use summ.Meta.Batch.{view_ops-put, view_ops-delete}
use summ.Registry.Tags.{digest_eq, retract, record_event}
use summ.Registry.Tags.Ranges.{
  edge_keys, history_tag, history_edge, reverse_history_tag, reverse_history_edge, referrer_tag,
  referrer_edge, edge_tag,
}

-- The history pair changes neither a tag nor an edge.
module _ (b : WriteBatch) (r : RepoId) (t u : Bytes) (now : Timestamp) (d e : Digest) (x : Bytes)
    (v : View) where
  pub event_tag : view_ops (record_event b r t now d x).ops v (tag r u) ≡ view_ops b.ops v (tag r u)
  unfolding record_event
  event_tag =
      view_ops-put _ _ x v (tag r u)
      ∙ rw (reverse_history_tag r t u d e now) (
          view_ops-put b (tag_history r t now d) x v (tag r u)
          ∙ rw (history_tag r t u d e now) refl)

  pub event_edge :
      view_ops (record_event b r t now d x).ops v (manifest_tag r e u)
      ≡ view_ops b.ops v (manifest_tag r e u)
  unfolding record_event
  event_edge =
      view_ops-put _ _ x v (manifest_tag r e u)
      ∙ rw (reverse_history_edge r t u d e now) (
          view_ops-put b (tag_history r t now d) x v (manifest_tag r e u)
          ∙ rw (history_edge r t u d e now) refl)

-- Whether repointing retracts an edge.
abbrev pub is_retracted : Option Digest → Digest → Digest → Bool
is_retracted none target e = false
is_retracted (some old) target e = not (digest_eq old target) && digest_eq old e

pub retract-tag :
    (b : WriteBatch) (r : RepoId) (t u : Bytes) (target : Digest) (subject previous : Option Digest)
    (v : View)
    → view_ops (retract b r t target subject previous).ops v (tag r u) ≡ view_ops b.ops v (tag r u)
unfolding retract
retract-tag b r t u target subject none v = refl
retract-tag b r t u target none (some old) v = elim (Bool-cases (digest_eq old target)) [
  | inl q ↦ rw q refl
  | inr q ↦ rw q (view_ops-delete b _ v (tag r u) ∙ rw (edge_tag r t u old old) refl)
]
retract-tag b r t u target (some s) (some old) v = elim (Bool-cases (digest_eq old target)) [
  | inl q ↦ rw q refl
  | inr q ↦ rw q (
      view_ops-delete _ _ v (tag r u)
      ∙ rw (referrer_tag r t u s old)
          (view_ops-delete b _ v (tag r u) ∙ rw (edge_tag r t u old old) refl))
]

pub retract-manifest_tag :
    (b : WriteBatch) (r : RepoId) (t u : Bytes) (target e : Digest)
    (subject previous : Option Digest) (v : View)
    → ((old : Digest) → previous ≡ some old → IsDigest old)
    → IsDigest e
    → view_ops (retract b r t target subject previous).ops v (manifest_tag r e u) ≡ (
        if is_retracted previous target e && bytes_eq t u
        then none
        else view_ops b.ops v (manifest_tag r e u))
unfolding retract
retract-manifest_tag b r t u target e subject none v hp he = refl
retract-manifest_tag b r t u target e none (some old) v hp he =
    elim (Bool-cases (digest_eq old target)) [
      | inl q ↦ rw q refl
      | inr q ↦ rw q (
          view_ops-delete b _ v (manifest_tag r e u)
          ∙ rw (edge_keys r old e t u (hp old refl) he) refl)
    ]
retract-manifest_tag b r t u target e (some s) (some old) v hp he =
    elim (Bool-cases (digest_eq old target)) [
      | inl q ↦ rw q refl
      | inr q ↦ rw q (
          view_ops-delete _ _ v (manifest_tag r e u)
          ∙ rw (referrer_edge r t u old e s) (
              view_ops-delete b _ v (manifest_tag r e u)
              ∙ rw (edge_keys r old e t u (hp old refl) he) refl))
    ]
