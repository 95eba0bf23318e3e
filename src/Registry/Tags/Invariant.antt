-- ===== src/Registry/Tags/Invariant.antt =====
-- Setting and deleting a tag keep the reverse index the inverse of the tags.
use summ.Prelude.{
  ◌≡◌, ◌&&◌, ◌||◌, not, refl, sym, ap, subst, ◌∙◌, inl, inr, Option, none, some, Bool, true, false,
  [], Bytes, bytes_eq, bytes_eq→eq, map_option, if◌then◌else◌, arith, Bool-cases,
}
use summ.Core.Digest.{Digest, IsDigest}
use summ.Core.Timestamp.{Timestamp}
use summ.Core.Types.{TagRecord}
use summ.Core.Keys.{RepoId, tag, manifest_tag}
use summ.Meta.Engine.{View, view_ops}
use summ.Meta.Batch.{new}
use summ.Registry.Tags.{Codec, TagTarget, digest_eq, staged_set}
use summ.Registry.Tags.Ranges.{digest_eq→eq, digest_eq_self}
use summ.Registry.Tags.Inverse.{is_retracted}
use summ.Registry.Tags.Preserved.{pointed, has_edge, IsInverse, written, set_tag_at, set_edge_at}

-- Two digests that are not equal, the other way round.
digest_ne : (d e : Digest) → digest_eq d e ≡ false → digest_eq e d ≡ false
digest_ne d e h = elim (Bool-cases (digest_eq e d)) [
  | inl q ↦ absurd (cc (ap (λ x. digest_eq x e) (digest_eq→eq e d q), digest_eq_self e, h))
  | inr q ↦ q
]

-- An edge that stands beside a new target was retracted.
retracted_edge :
    (target d : Digest)
    → digest_eq target d ≡ false
    → (previous : Option Digest) → previous ≡ some d
    → is_retracted previous target d ≡ true
retracted_edge target d h previous q =
    subst (λ o. is_retracted o target d ≡ true) (sym q)
      (ground (arith, digest_ne target d h, digest_eq_self d))

-- The tests of an edge behind a batch, for the tag that was set and for another.
survives :
    (a b c x : Bool)
    → a ≡ false
    → b ≡ true
    → ((a && b) || (not (c && b) && x)) ≡ true
    → (c ≡ false) × (x ≡ true)
survives a b c x ha hb h = ground arith

untouched : (a b c x : Bool) → b ≡ false → ((a && b) || (not (c && b) && x)) ≡ x
untouched a b c x h = ground arith

module _ (C : Codec) where
  -- What is read of a key that holds a record, and of a key that holds anything.
  abbrev pub target_of : Option Bytes → Option Digest
  target_of none = none
  target_of (some raw) = map_option (λ (x : TagRecord). x.digest) (C.decode_tag raw)

  abbrev pub is_held : Option Bytes → Bool
  is_held none = false
  is_held (some x) = true

  pub pointed_def : (v : View) (r : RepoId) (t : Bytes) → pointed C v r t ≡ target_of (v (tag r t))
  unfolding pointed
  pointed_def v r t = by_value (v (tag r t))
    where
      by_value :
          (o : Option Bytes)
          → (elim o as (λ x. Option Digest) [
            | none ↦ none
            | some raw ↦ map_option (λ (x : TagRecord). x.digest) (C.decode_tag raw)
          ])
            ≡ target_of o
      by_value none = refl
      by_value (some raw) = refl

  pub has_edge_def :
      (v : View) (r : RepoId) (d : Digest) (t : Bytes)
      → has_edge C v r d t ≡ is_held (v (manifest_tag r d t))
  unfolding has_edge
  has_edge_def v r d t = by_value (v (manifest_tag r d t))
    where
      by_value :
          (o : Option Bytes) → (elim o as (λ x. Bool) [ none ↦ false | some x ↦ true ]) ≡ is_held o
      by_value none = refl
      by_value (some x) = refl

  pub pointed-IsDigest :
      (v : View) (r : RepoId) (t : Bytes) (d : Digest) → pointed C v r t ≡ some d → IsDigest d
  pointed-IsDigest v r t d h = by_value (v (tag r t)) (sym (pointed_def v r t) ∙ h)
    where
      by_record :
          (raw : Bytes) (o : Option TagRecord)
          → C.decode_tag raw ≡ o
          → map_option (λ (x : TagRecord). x.digest) o ≡ some d
          → IsDigest d
      by_record raw none q e = absurd (cc e)
      by_record raw (some x) q e =
          let same : x.digest ≡ d = cc e in subst IsDigest same (C.decode_tag-IsDigest raw x q)

      by_value : (o : Option Bytes) → target_of o ≡ some d → IsDigest d
      by_value none e = absurd (cc e)
      by_value (some raw) e = by_record raw (C.decode_tag raw) refl e

  module _ (r : RepoId) (t : Bytes) (target : TagTarget) (now : Timestamp) (subject : Option Digest)
      (v : View) (ht : IsDigest target.digest) where
    abbrev pub after : View
    after = view_ops (staged_set C new r t target now subject (pointed C v r t)).ops v

    pub pointed-after :
        (u : Bytes)
        → pointed C after r u ≡ (if bytes_eq t u then some target.digest else pointed C v r u)
    pointed-after u =
        pointed_def after r u
        ∙ ap target_of (set_tag_at C r t u target now subject (pointed C v r t) v)
        ∙ by_tag (bytes_eq t u)
        ∙ ap (λ x. if bytes_eq t u then some target.digest else x) (sym (pointed_def v r u))
      where
        by_tag :
            (b : Bool)
            → target_of (if b then some (C.encode_tag (written C target now)) else v (tag r u))
              ≡ (if b then some target.digest else target_of (v (tag r u)))
        by_tag true =
            ap (map_option (λ (x : TagRecord). x.digest))
              (C.decode-encode_tag (written C target now) ht)
        by_tag false = refl

    edge_after :
        (u : Bytes) (d : Digest)
        → IsDigest d
        → has_edge C after r d u ≡ (
            (digest_eq target.digest d && bytes_eq t u)
            || (not (is_retracted (pointed C v r t) target.digest d && bytes_eq t u)
                && has_edge C v r d u))
    edge_after u d hd =
        has_edge_def after r d u
        ∙ ap is_held (
            set_edge_at C r t u d target now subject (pointed C v r t) v (pointed-IsDigest v r t) ht
              hd)
        ∙ by_tests (digest_eq target.digest d && bytes_eq t u)
            (is_retracted (pointed C v r t) target.digest d && bytes_eq t u)
        ∙ ap
            (λ x.
              (digest_eq target.digest d && bytes_eq t u)
              || (not (is_retracted (pointed C v r t) target.digest d && bytes_eq t u) && x))
            (sym (has_edge_def v r d u))
      where
        by_tests :
            (a b : Bool)
            → is_held (if a then some [] else (if b then none else v (manifest_tag r d u)))
              ≡ (a || (not b && is_held (v (manifest_tag r d u))))
        by_tests true b = refl
        by_tests false true = refl
        by_tests false false = refl

    pub staged_set-IsInverse : IsInverse C v r → IsInverse C after r
    staged_set-IsInverse h u d hd = elim (Bool-cases (bytes_eq t u)) [
      | inl e ↦ elim (Bool-cases (digest_eq target.digest d)) [
        | inl q ↦ (
          (λ _. pointed-after u ∙ rw e (ap some (digest_eq→eq target.digest d q))),
          (λ _. edge_after u d hd ∙ rw (q, e) refl),
        )
        | inr q ↦ (
          (λ x.
              let (kept, stood) =
                survives (digest_eq target.digest d) (bytes_eq t u)
                  (is_retracted (pointed C v r t) target.digest d) (has_edge C v r d u) q e
                  (sym (edge_after u d hd) ∙ x) in
              let there : pointed C v r t ≡ some d =
                ap (pointed C v r) (bytes_eq→eq t u e) ∙ (h u d hd).0 stood in
              absurd (cc (retracted_edge target.digest d q (pointed C v r t) there, kept))),
          (λ x.
              let same : some target.digest ≡ some d = sym (pointed-after u ∙ rw e refl) ∙ x in
              let same' : target.digest ≡ d = cc in
              absurd (cc (ap (digest_eq target.digest) same', digest_eq_self target.digest, q))),
        )
      ]
      | inr e ↦
          let edge : has_edge C after r d u ≡ has_edge C v r d u =
            edge_after u d hd
            ∙ untouched (digest_eq target.digest d) (bytes_eq t u)
                (is_retracted (pointed C v r t) target.digest d) (has_edge C v r d u) e in
          let point : pointed C after r u ≡ pointed C v r u = pointed-after u ∙ rw e refl in
          ((λ x. point ∙ (h u d hd).0 (sym edge ∙ x)), (λ x. edge ∙ (h u d hd).1 (sym point ∙ x)))
    ]
