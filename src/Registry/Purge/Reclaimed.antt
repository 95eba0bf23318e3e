-- ===== src/Registry/Purge/Reclaimed.antt =====
-- What a scan of the purge leaves behind it, and the collection of what it marked.
use summ.Prelude.{
  ℕ, ◌≤◌, ◌≡◌, inl, inr, refl, ap, sym, ◌∙◌, Option, none, some, true, false, List, [], ◌∷◌, ◌++◌,
  Bytes, ltb, Bool-cases, arith,
}
use summ.Core.Digest.{Digest, IsDigest, encode}
use summ.Core.Timestamp.{Timestamp, secs}
use summ.Core.Buckets.{BlobRecord}
use summ.Core.Keys
use summ.Core.Keys.{start}
use summ.Core.Keys.Scans.Exact.{starts_with_inv}
use summ.Meta.Engine.{MetaEngine, MetaOp, WriteBatch, view_ops}
use summ.Meta.Batch.{new, is_empty}
use summ.Registry.Outcome.{Outcome, done, fail, panicked}
use summ.Registry.Records.{Records}
use summ.Registry.Blobs.{blob_metadata, blob_record}
use summ.Registry.Frame.{Returns, returns, Returns-both, Keeps}
use summ.Registry.Purge.{BlobScan, blob_mark}
use summ.Registry.Purge.Operations.{scan_blobs, scanned_page, reported, collectable, collect_blob}
use summ.Registry.Purge.Marks.{
  IsListed, fresh_mark, Marked, Keeps-blob_entries, Marked-blob_entries,
}

module _ (R : Records) (E : MetaEngine) (s : E.State) (seen_before now : Timestamp) where
  -- The store behind a scan that returned answers as the page's batch says.
  abbrev Answers : E.State → WriteBatch → Type 0
  Answers left b = (k : Bytes) → E.get left k ≡ view_ops b.ops (E.get s) k

  reported-Answers :
      (ops : List MetaOp)
      → Answers (reported R E s false (record { ops = ops })) (record { ops = ops })
  unfolding is_empty view_ops
  reported-Answers [] k = refl
  reported-Answers (op ∷ ops) k = E.get-apply s (record { ops = op ∷ ops }) k

  scanned_page-Answers :
      (Q : WriteBatch → Type 0) (o : Outcome (WriteBatch × BlobScan)) (scan : BlobScan)
      → Returns (λ (y : WriteBatch × BlobScan). Q y.0) o
      → (scanned_page R E s false o).0 ≡ done scan
      → (b : WriteBatch) × Q b × Answers ((scanned_page R E s false o).1) b
  scanned_page-Answers Q (done (b, found)) scan (returns x q) e = (b, q, reported-Answers b.ops)
  scanned_page-Answers Q (fail x) scan q e = absurd (cc e)
  scanned_page-Answers Q panicked scan q e = absurd (cc e)

  module _ (digest : Digest) (left : E.State) (b : WriteBatch) (answers : Answers left b) where
    -- A range that the batch keeps answers as before.
    kept : (p : ℕ) (k : Bytes) → Keeps p new b → E.get left (p ∷ k) ≡ E.get s (p ∷ k)
    unfolding view_ops new
    kept p k h = answers (p ∷ k) ∙ h (E.get s) k

    still_unreferenced :
        Keeps b'R' new b
        → E.exists_prefix s (Keys.blob_refs digest) ≡ false
        → E.exists_prefix left (Keys.blob_refs digest) ≡ false
    unfolding Keys.blob_refs start
    still_unreferenced h e = elim (Bool-cases (E.exists_prefix left (Keys.blob_refs digest))) [
      | inr gone ↦ gone
      | inl there ↦
          let (k, v, held, under) = (E.exists_prefix_iff left (Keys.blob_refs digest)).0 there in
          let (rest, same) = starts_with_inv k (Keys.blob_refs digest) under in
          let before : E.get s k ≡ some v =
            ap (E.get s) same
            ∙ sym (kept b'R' (encode digest ++ rest) h)
            ∙ ap (E.get left) (sym same)
            ∙ held in
          let found : E.exists_prefix s (Keys.blob_refs digest) ≡ true =
            (E.exists_prefix_iff s (Keys.blob_refs digest)).1 (k, v, before, under) in
          absurd (cc (found, e))
    ]

  -- A mark that has stood long enough on a stored blob without references collects it.
  collected_size :
      (t : E.State) (digest : Digest) (raw : Bytes) (r : BlobRecord) (later : Timestamp)
      → E.get t (Keys.blob digest) ≡ some raw
      → R.decode_blob raw ≡ some r
      → E.get t (Keys.blob_mark digest) ≡ some (fresh_mark R E s seen_before now)
      → E.exists_prefix t (Keys.blob_refs digest) ≡ false
      → secs now ≤ secs later
      → (collect_blob R E t digest later).0 ≡ done (some r.size)
  unfolding collect_blob collectable blob_mark blob_metadata blob_record
  collected_size t digest raw r later stored decodes marked unreferred old =
      rw
        (
          stored,
          decodes,
          marked,
          R.decode-encode_mark (record { seen_at = secs now }),
          old_enough,
          unreferred,
        )
        refl
    where
      old_enough : ltb (secs later) (secs now) ≡ false
      old_enough = ground (arith, old)

  -- A stored blob that no manifest refers to and that has no mark, among the entries of a page that a scan
  -- went through: if nothing happens behind the scan, a collection with a time no earlier than the scan's
  -- collects the blob and reports its size.
  pub scan_blobs-collects :
      (cursor : Option Bytes) (limit : ℕ) (scan : BlobScan) (digest : Digest) (raw : Bytes)
      (r : BlobRecord) (later : Timestamp)
      → (scan_blobs R E s cursor limit seen_before now false).0 ≡ done scan
      → IsDigest digest
      → IsListed (Keys.blob digest, raw) (E.scan s Keys.blobs cursor limit).entries
      → E.get s (Keys.blob digest) ≡ some raw
      → R.decode_blob raw ≡ some r
      → E.get s (Keys.blob_mark digest) ≡ none
      → E.exists_prefix s (Keys.blob_refs digest) ≡ false
      → secs now ≤ secs later
      → (collect_blob R E (scan_blobs R E s cursor limit seen_before now false).1 digest later).0
        ≡ done (some r.size)
  unfolding scan_blobs Keys.blob start
  scan_blobs-collects cursor limit scan digest raw r later e hd listed stored decodes unmarked
        unreferred old =
      let entries = (E.scan s Keys.blobs cursor limit).entries in
      let (b, ((keeps_b, keeps_r), marked), answers) =
        scanned_page-Answers
          (λ b.
            (Keeps b'B' new b × Keeps b'R' new b)
            × Marked R E s seen_before now digest unreferred b)
          _ scan
          (Returns-both _ _ _
            (Returns-both _ _ _ (Keeps-blob_entries R E s seen_before now b'B' refl entries new _)
              (Keeps-blob_entries R E s seen_before now b'R' refl entries new _))
            (Marked-blob_entries R E s seen_before now digest unreferred raw hd unmarked entries new
              _ listed))
          e in
      collected_size _ digest raw r later
        (kept digest _ b answers b'B' (encode digest) keeps_b ∙ stored) decodes
        (answers (Keys.blob_mark digest) ∙ marked)
        (still_unreferenced digest _ b answers keeps_r unreferred) old
