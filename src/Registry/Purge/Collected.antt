-- ===== src/Registry/Purge/Collected.antt =====
-- When the purge retracts a blob, and what its batch takes away.
use summ.Prelude.{
  ℕ, ◌≤◌, ◌≡◌, ◌||◌, refl, ap, sym, ◌∙◌, Option, none, some, Bool, true, false, ◌++◌, append_assoc,
  Bytes, bytes_eq, starts_with, ltb, Bool-cases, Option-cases, inl, inr, if◌then◌else◌, arith,
}
use summ.Prelude.BigEndian.{be}
use summ.Core.Digest.{Digest, encode}
use summ.Core.Timestamp.{Timestamp, secs}
use summ.Core.Buckets.{BlobRecord, BlobMark}
use summ.Core.Keys
use summ.Core.Keys.{RepoId, start}
use summ.Core.Keys.Scans.Exact.{starts_with-append}
use summ.Meta.Engine.{MetaEngine, view_ops}
use summ.Meta.Batch.{new, delete, view_ops-delete}
use summ.Registry.Outcome.{Outcome, done, fail, panicked, ◌>>=◌}
use summ.Registry.Records.{Records}
use summ.Registry.Blobs.{blob_metadata}
use summ.Registry.Purge.{blob_mark}
use summ.Registry.Purge.Operations.{ripe_size, collectable, collected, collect_blob}

starts_with-blob_refs :
    (d : Digest) (r : RepoId) (m : Digest)
    → starts_with (Keys.blob_ref d r m) (Keys.blob_refs d) ≡ true
unfolding Keys.blob_ref Keys.blob_refs
starts_with-blob_refs d r m =
    ap (λ k. starts_with k (start b'R' ++ encode d))
      (sym (append_assoc (start b'R') (encode d) (be 4 r ++ encode m)))
    ∙ starts_with-append (start b'R' ++ encode d) (be 4 r ++ encode m)

module _ (R : Records) (E : MetaEngine) (s : E.State) (digest : Digest)
    (seen_before : Timestamp) where
  -- No manifest of any repository refers to the blob.
  abbrev pub IsUnreferenced : Type 0
  IsUnreferenced = (r : RepoId) (m : Digest) → E.get s (Keys.blob_ref digest r m) ≡ none

  no_reference : E.exists_prefix s (Keys.blob_refs digest) ≡ false → IsUnreferenced
  no_reference h r m = elim (Option-cases (E.get s (Keys.blob_ref digest r m))) [
    | inl e ↦ e
    | inr (v, e) ↦
        let found : E.exists_prefix s (Keys.blob_refs digest) ≡ true =
          (E.exists_prefix_iff s (Keys.blob_refs digest)).1
            (Keys.blob_ref digest r m, v, e, starts_with-blob_refs digest r m) in
        absurd (cc (found, h))
  ]

  -- The blob is stored with its size, its mark has stood since the time given, and nothing refers to it.
  abbrev pub IsRipe : ℕ → Type 0
  IsRipe size =
      (blob_metadata E R s digest ≡ done (some (record { size = size })))
      × (mark : BlobMark) × (blob_mark E R s digest ≡ done (some mark))
      × (mark.seen_at ≤ secs seen_before)
      × IsUnreferenced

  -- A collected blob was ripe, and the store loses its record and its mark; in every other case the store
  -- stays as it is.
  abbrev pub IsCollection : Outcome (Option ℕ) × E.State → Type 0
  IsCollection (done (some size), left) =
      IsRipe size
      × ((k : Bytes)
          → E.get left k ≡ (
              if bytes_eq (Keys.blob digest) k || bytes_eq (Keys.blob_mark digest) k
              then none
              else E.get s k))
  IsCollection (done none, left) = left ≡ s
  IsCollection (fail e, left) = left ≡ s
  IsCollection (panicked, left) = left ≡ s

  lost :
      (k : Bytes)
      → E.get (E.apply s (delete (delete new (Keys.blob digest)) (Keys.blob_mark digest))) k ≡ (
          if bytes_eq (Keys.blob digest) k || bytes_eq (Keys.blob_mark digest) k
          then none
          else E.get s k)
  unfolding view_ops new
  lost k =
      E.get-apply s _ k
      ∙ view_ops-delete _ (Keys.blob_mark digest) (E.get s) k
      ∙ ap (λ x. if bytes_eq (Keys.blob_mark digest) k then none else x)
          (view_ops-delete new (Keys.blob digest) (E.get s) k)
      ∙ by_tests (bytes_eq (Keys.blob digest) k) (bytes_eq (Keys.blob_mark digest) k) (E.get s k)
    where
      by_tests :
          (a b : Bool) (o : Option Bytes)
          → (if b then none else (if a then none else o)) ≡ (if a || b then none else o)
      by_tests true true o = refl
      by_tests true false o = refl
      by_tests false b o = refl

  by_references :
      (r : BlobRecord) (mark : BlobMark)
      → blob_metadata E R s digest ≡ done (some r)
      → blob_mark E R s digest ≡ done (some mark)
      → mark.seen_at ≤ secs seen_before
      → (x : Bool) → E.exists_prefix s (Keys.blob_refs digest) ≡ x
      → IsCollection (collected R E s digest (done (if x then none else some r.size)))
  by_references r mark er em old true h = refl
  by_references r mark er em old false h = ((er, mark, em, old, no_reference h), lost)

  by_mark :
      (r : BlobRecord)
      → blob_metadata E R s digest ≡ done (some r)
      → (o : Outcome (Option BlobMark)) → blob_mark E R s digest ≡ o
      → IsCollection (
          collected R E s digest (o >>= (λ mark. done (ripe_size R E s digest seen_before r mark))))
  by_mark r er (done none) em = refl
  by_mark r er (fail e) em = refl
  by_mark r er panicked em = refl
  by_mark r er (done (some mark)) em = elim (Bool-cases (ltb (secs seen_before) mark.seen_at)) [
    | inl young ↦ rw young refl
    | inr old ↦ rw old (
        by_references r mark er em (ground (arith, old)) (E.exists_prefix s (Keys.blob_refs digest))
          refl)
  ]

  -- A blob that the purge collects had a record of the size reported and a mark from the time given or
  -- before it, and no manifest of any repository referred to it; its record and its mark are gone and no
  -- other key changes. Where it collects nothing, or fails, the store stays as it is.
  pub collect_blob-IsCollection : IsCollection (collect_blob R E s digest seen_before)
  unfolding collect_blob collectable
  collect_blob-IsCollection = by_record (blob_metadata E R s digest) refl
    where
      by_record :
          (o : Outcome (Option BlobRecord))
          → blob_metadata E R s digest ≡ o
          → IsCollection (
              collected R E s digest (
                o >>= (λ found. elim found [
                  | none ↦ done none
                  | some r ↦
                      blob_mark E R s digest
                      >>= (λ mark. done (ripe_size R E s digest seen_before r mark))
                ])))
      by_record (done none) e = refl
      by_record (fail e) h = refl
      by_record panicked h = refl
      by_record (done (some r)) e = by_mark r e (blob_mark E R s digest) refl
