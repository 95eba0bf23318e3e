-- ===== src/Registry/Purge/Clock.antt =====
-- The clock of a blob's mark: it starts when a scan first finds the blob unreferenced.
use summ.Prelude.{
  ℕ, ◌<◌, ◌&&◌, ◌≡◌, ◌⊎◌, inl, inr, refl, Option, none, some, Bool, true, false, not, List, [], ◌∷◌,
  Bytes, bytes_eq, leb, Bool-cases, if◌then◌else◌, arith,
}
use summ.Core.Digest.{Digest}
use summ.Core.Timestamp.{Timestamp, secs}
use summ.Core.Buckets.{BlobRecord, BlobMark}
use summ.Core.Keys
use summ.Meta.Engine.{MetaEngine, WriteBatch, view_ops}
use summ.Meta.Batch.{new, put, delete, is_empty, view_ops-put, view_ops-delete}
use summ.Registry.Outcome.{Outcome, done, fail, panicked, ◌>>=◌, require}
use summ.Registry.Records.{Records}
use summ.Registry.Blobs.{blob_metadata}
use summ.Registry.Frame.{Returns, returns, Returns-bind, Returns-then}
use summ.Registry.Purge.{
  BlobScan, blob_mark, blob_entries, referenced, unreferenced, digest_of_blob_key,
}
use summ.Registry.Purge.Operations.{
  scan_blobs, scanned_page, ripe_size, collectable, collected, collect_blob,
}

module _ (R : Records) (E : MetaEngine) (s : E.State) (seen_before now : Timestamp)
    (k : Bytes) where
  -- The key answers nothing, or a mark of this moment.
  abbrev IsFresh : Option Bytes → Type 0
  IsFresh o = (o ≡ none) ⊎ (o ≡ some (R.encode_mark (record { seen_at = secs now })))

  abbrev Fresh : WriteBatch → Type 0
  Fresh b = IsFresh (view_ops b.ops (E.get s) k)

  Fresh-delete : (b : WriteBatch) (key : Bytes) → Fresh b → Fresh (delete b key)
  Fresh-delete b key h =
      rw (view_ops-delete b key (E.get s) k)
        (by_test (bytes_eq key k) (view_ops b.ops (E.get s) k) h)
    where
      by_test : (x : Bool) (o : Option Bytes) → IsFresh o → IsFresh (if x then none else o)
      by_test true o g = inl refl
      by_test false o g = g

  Fresh-put :
      (b : WriteBatch) (key : Bytes)
      → Fresh b
      → Fresh (put b key (R.encode_mark (record { seen_at = secs now })))
  Fresh-put b key h =
      rw (view_ops-put b key (R.encode_mark (record { seen_at = secs now })) (E.get s) k)
        (by_test (bytes_eq key k) (view_ops b.ops (E.get s) k) h)
    where
      by_test :
          (x : Bool) (o : Option Bytes)
          → IsFresh o
          → IsFresh (if x then some (R.encode_mark (record { seen_at = secs now })) else o)
      by_test true o g = inr refl
      by_test false o g = g

  Fresh-referenced :
      (d : Digest) (mark : Option BlobMark) (b : WriteBatch) (scan : BlobScan)
      → Fresh b
      → Fresh ((referenced E R d mark (b, scan)).0)
  unfolding referenced
  Fresh-referenced d none b scan h = h
  Fresh-referenced d (some mark) b scan h = Fresh-delete b (Keys.blob_mark d) h

  Fresh-unreferenced :
      (d : Digest) (raw : Bytes) (mark : Option BlobMark) (b : WriteBatch) (scan : BlobScan)
      → Fresh b
      → Returns
          (λ (x : WriteBatch × BlobScan). Fresh x.0)
          (unreferenced E R seen_before now d raw mark (b, scan))
  unfolding unreferenced
  Fresh-unreferenced d raw none b scan h = returns _ (Fresh-put b (Keys.blob_mark d) h)
  Fresh-unreferenced d raw (some mark) b scan h =
      elim (Bool-cases (leb mark.seen_at (secs seen_before))) [
        | inl old ↦ rw old (Returns-bind (require (R.decode_blob raw) _) (λ r. returns _ h))
        | inr young ↦ rw young (returns _ h)
      ]

  Fresh-blob_entries :
      (entries : List (Bytes × Bytes)) (b : WriteBatch) (scan : BlobScan)
      → Fresh b
      → Returns
          (λ (x : WriteBatch × BlobScan). Fresh x.0)
          (blob_entries E R s seen_before now entries (b, scan))
  unfolding blob_entries
  Fresh-blob_entries [] b scan h = returns _ h
  Fresh-blob_entries ((key, raw) ∷ entries) b scan h = Returns-bind (digest_of_blob_key key) (λ d.
      Returns-bind (blob_mark E R s d) (λ mark.
        Returns-then (λ (x : WriteBatch × BlobScan). Fresh x.0) _
          (by_test d mark (E.exists_prefix s (Keys.blob_refs d)))
          (λ x g. Fresh-blob_entries entries x.0 x.1 g)))
    where
      by_test :
          (d : Digest) (mark : Option BlobMark) (x : Bool)
          → Returns
              (λ (y : WriteBatch × BlobScan). Fresh y.0)
              (if x
                then done (referenced E R d mark (b, scan))
                else unreferenced E R seen_before now d raw mark (b, scan))
      by_test d mark true = returns _ (Fresh-referenced d mark b scan h)
      by_test d mark false = Fresh-unreferenced d raw mark b scan h

  Fresh-scanned_page :
      E.get s k ≡ none
      → (report_only : Bool) (o : Outcome (WriteBatch × BlobScan))
      → Returns (λ (x : WriteBatch × BlobScan). Fresh x.0) o
      → IsFresh (E.get ((scanned_page R E s report_only o).1) k)
  Fresh-scanned_page e report_only (fail x) h = inl e
  Fresh-scanned_page e report_only panicked h = inl e
  Fresh-scanned_page e report_only (done (b, scan)) (returns x g) =
      by_test (not report_only) (not (is_empty b))
    where
      by_test : (x y : Bool) → IsFresh (E.get (if x && y then E.apply s b else s) k)
      by_test true true = rw (E.get-apply s b k) g
      by_test true false = inl e
      by_test false y = inl e

  pub scan_blobs-IsFresh :
      (cursor : Option Bytes) (limit : ℕ) (report_only : Bool)
      → E.get s k ≡ none
      → IsFresh (E.get ((scan_blobs R E s cursor limit seen_before now report_only).1) k)
  unfolding scan_blobs view_ops new
  scan_blobs-IsFresh cursor limit report_only e =
      Fresh-scanned_page e report_only _
        (Fresh-blob_entries (E.scan s Keys.blobs cursor limit).entries new _ (inl e))

module _ (R : Records) (E : MetaEngine) (seen_before now : Timestamp) (digest : Digest) where
  -- A mark of this moment is too young for a time before it.
  uncollected :
      (t : E.State)
      → secs seen_before < secs now
      → IsFresh R E t seen_before now (Keys.blob_mark digest) (E.get t (Keys.blob_mark digest))
      → (collect_blob R E t digest seen_before).1 ≡ t
  unfolding collect_blob collectable blob_mark
  uncollected t h fresh = by_record fresh (blob_metadata E R t digest)
    where
      young :
          (r : BlobRecord)
          → ripe_size R E t digest seen_before r (some (record { seen_at = secs now })) ≡ none
      young r = ground (arith, h)

      by_record :
          IsFresh R E t seen_before now (Keys.blob_mark digest) (E.get t (Keys.blob_mark digest))
          → (o : Outcome (Option BlobRecord))
          → (collected R E t digest (
              o >>= (λ found. elim found [
                | none ↦ done none
                | some r ↦
                    blob_mark E R t digest
                    >>= (λ mark. done (ripe_size R E t digest seen_before r mark))
              ]))).1
            ≡ t
      by_record g (done none) = refl
      by_record g (fail e) = refl
      by_record g panicked = refl
      by_record (inl none_held) (done (some r)) = rw none_held refl
      by_record (inr held) (done (some r)) =
          rw (held, R.decode-encode_mark (record { seen_at = secs now }), young r) refl

  -- A blob without a mark when the purge scans a page is not collected in the same pass: behind the scan,
  -- which may mark it at this moment, a collection that asks for a mark of an earlier second leaves the
  -- store as it is, even if nothing refers to the blob.
  pub scan_blobs-collect_blob :
      (s : E.State) (cursor : Option Bytes) (limit : ℕ) (report_only : Bool)
      → E.get s (Keys.blob_mark digest) ≡ none
      → secs seen_before < secs now
      → (collect_blob R E
          (scan_blobs R E s cursor limit seen_before now report_only).1
          digest
          seen_before).1
        ≡ (scan_blobs R E s cursor limit seen_before now report_only).1
  scan_blobs-collect_blob s cursor limit report_only e h =
      uncollected (scan_blobs R E s cursor limit seen_before now report_only).1 h (
        scan_blobs-IsFresh R E s seen_before now (Keys.blob_mark digest) cursor limit report_only e)
