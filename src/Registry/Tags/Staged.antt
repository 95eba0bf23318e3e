-- ===== src/Registry/Tags/Staged.antt =====
-- The whole of `stage_set_tag` and `plan_delete_tag`: that they return, and what their batches do.
use summ.Prelude.{
  ◌≡◌, refl, sym, ap, subst, ◌∙◌, Option, none, some, Bytes, bytes_eq, codes, map_option,
  if◌then◌else◌,
}
use mathlib.Core.Path.{fun_ext}
use summ.Core.Utf8.{AllAscii}
use summ.Core.Digest.{Digest, IsDigest}
use summ.Core.Timestamp.{Timestamp}
use summ.Core.Types.{TagRecord, ManifestRecord}
use summ.Core.Keys
use summ.Core.Keys.{RepoId}
use summ.Meta.Engine.{WriteBatch, view_ops, MetaEngine}
use summ.Meta.Batch.{new}
use summ.Meta.Interner.{LruCache}
use summ.Registry.Outcome.{done, require, corrupt, ◌>>=◌}
use summ.Registry.Reference.Grammar.{IsTag, IsTag-AllAscii, validate_tag-IsTag}
use summ.Registry.Cosign.{subject_of_artifact_tag}
use summ.Registry.Cosign.Total.{subject_ascii}
use summ.Registry.Tags.{
  Codec, TagTarget, staged_set, staged_delete, stage_set_tag, stage_delete_tag, tag_record,
  manifest_record, read_record,
}
use summ.Registry.Tags.Operations.{planned_delete}
use summ.Registry.Tags.Preserved.{pointed, IsInverse}
use summ.Registry.Tags.Invariant.{pointed_def, target_of, pointed-after, staged_set-IsInverse}
use summ.Registry.Tags.Deleted.{pointed-left, staged_delete-IsInverse}

module _ (C : Codec) (E : MetaEngine) where
  -- A record that was read is what the tag points to.
  pointed-tag_record :
      (s : E.State) (r : RepoId) (t : Bytes) (found : Option TagRecord)
      → tag_record C E s r t ≡ done found
      → pointed C (E.get s) r t ≡ map_option (λ (x : TagRecord). x.digest) found
  pointed-tag_record s r t found h =
      pointed_def C (E.get s) r t ∙ by_value (E.get s (Keys.tag r t)) (unfold tag_record in h)
    where
      by_record :
          (o : Option TagRecord)
          → (require o (corrupt (codes "TagRecord")) >>= (λ x. done (some x))) ≡ done found
          → map_option (λ (x : TagRecord). x.digest) o
            ≡ map_option (λ (x : TagRecord). x.digest) found
      by_record none e = absurd (cc e)
      by_record (some x) e =
          let same : some x ≡ found = cc e in ap (map_option (λ (x : TagRecord). x.digest)) same

      by_value :
          (o : Option Bytes)
          → read_record C.decode_tag (codes "TagRecord") o ≡ done found
          → target_of C o ≡ map_option (λ (x : TagRecord). x.digest) found
      by_value none e =
          let same : none ≡ found = cc e in ap (map_option (λ (x : TagRecord). x.digest)) same
      by_value (some raw) e = by_record (C.decode_tag raw) e

  -- Setting a tag whose record can be read: the call returns, with the digest that the tag pointed to;
  -- behind its batch the tag points to the new digest, every other tag to what it did, and the reverse
  -- index is still the inverse of the tags.
  pub stage_set_tag-IsInverse :
      (s : E.State) (r : RepoId) (t : Bytes) (target : TagTarget) (now : Timestamp)
      (found : Option TagRecord)
      → IsInverse C (E.get s) r
      → IsDigest target.digest
      → IsTag t
      → tag_record C E s r t ≡ done found
      → (b : WriteBatch) × (stage_set_tag C E s new r t target now
          ≡ done (b, pointed C (E.get s) r t))
        × IsInverse C (E.get (E.apply s b)) r
        × ((u : Bytes)
            → pointed C (E.get (E.apply s b)) r u
              ≡ (if bytes_eq t u then some target.digest else pointed C (E.get s) r u))
  stage_set_tag-IsInverse s r t target now found h ht tag read =
      let (subject, known) = subject_ascii t (IsTag-AllAscii t tag) in
      let batch = staged_set C new r t target now subject (pointed C (E.get s) r t) in
      let view : E.get (E.apply s batch) ≡ view_ops batch.ops (E.get s) =
        fun_ext (E.get-apply s batch) in
      (
        batch,
        returns subject known,
        subst (λ v. IsInverse C v r) (sym view)
            (staged_set-IsInverse C r t target now subject (E.get s) ht h),
        (λ u.
            ap (λ v. pointed C v r u) view ∙ pointed-after C r t target now subject (E.get s) ht u),
      )
    where
      returns :
          (subject : Option Digest)
          → subject_of_artifact_tag t ≡ done subject
          → stage_set_tag C E s new r t target now
            ≡ done (
              staged_set C new r t target now subject (pointed C (E.get s) r t),
              pointed C (E.get s) r t,
            )
      returns subject known =
          unfold stage_set_tag in
          rw ((validate_tag-IsTag t).1 tag, known, read, pointed-tag_record s r t found read) refl

  module _ (N : LruCache Bytes RepoId) (I : LruCache RepoId Bytes) where
    -- Deleting a tag that points to a digest, whose manifest record can be read: the plan is that digest
    -- and a batch, behind which the tag points nowhere, every other tag to what it did, and the reverse
    -- index is still the inverse of the tags.
    pub planned_delete-IsInverse :
        (s : E.State) (name : Bytes) (r : RepoId) (t : Bytes) (x : TagRecord) (now : Timestamp)
        (m : Option ManifestRecord)
        → IsInverse C (E.get s) r
        → AllAscii t
        → tag_record C E s r t ≡ done (some x)
        → manifest_record C E s r x.digest ≡ done m
        → (b : WriteBatch) × (planned_delete C E N I s name t now r ≡ done (x.digest, b))
          × IsInverse C (E.get (E.apply s b)) r
          × ((u : Bytes)
              → pointed C (E.get (E.apply s b)) r u
                ≡ (if bytes_eq t u then none else pointed C (E.get s) r u))
    planned_delete-IsInverse s name r t x now m h a read stored =
        let (subject, known) = subject_ascii t a in
        let batch = staged_delete C new r t x.digest m now subject in
        let view : E.get (E.apply s batch) ≡ view_ops batch.ops (E.get s) =
          fun_ext (E.get-apply s batch) in
        let target : pointed C (E.get s) r t ≡ some x.digest =
          pointed-tag_record s r t (some x) read in
        (
          batch,
          (unfold planned_delete stage_delete_tag in rw (read, stored, known) refl),
          subst (λ v. IsInverse C v r) (sym view)
              (staged_delete-IsInverse C r t x.digest m now subject (E.get s) target h),
          (λ u.
              ap (λ v. pointed C v r u) view
              ∙ pointed-left C r t x.digest m now subject (E.get s) target u),
        )
