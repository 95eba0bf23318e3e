-- ===== src/Registry/Purge/Marks.antt =====
-- What a scan of the purge writes: marks, and of the blobs it found unreferenced.
use summ.Prelude.{
  ℕ, ◌==◌, ◌≡◌, ◌⊎◌, inl, inr, refl, ap, ◌∙◌, Option, none, some, Bool, true, false, List, [], ◌∷◌,
  Bytes, bytes_eq, bytes_eq→eq, bytes_eq_self, leb, Bool-cases, if◌then◌else◌, get_from-append,
}
use summ.Core.Digest.{Digest, IsDigest, encode}
use summ.Core.Digest.Wire.{decode-encode_last}
use summ.Core.Timestamp.{Timestamp, secs}
use summ.Core.Buckets.{BlobMark}
use summ.Core.Keys
use summ.Core.Keys.{start}
use summ.Meta.Engine.{MetaEngine, WriteBatch, view_ops}
use summ.Meta.Batch.{put, delete, view_ops-put, view_ops-delete}
use summ.Registry.Outcome.{done, require}
use summ.Registry.Records.{Records}
use summ.Registry.Frame.{
  Returns, returns, Returns-bind, Returns-then, Keeps, Keeps-refl, Keeps-put, Keeps-delete,
}
use summ.Registry.Purge.{
  BlobScan, blob_mark, blob_entries, referenced, unreferenced, digest_of_blob_key,
}

digest_of_blob_key-blob : (d : Digest) → IsDigest d → digest_of_blob_key (Keys.blob d) ≡ done d
unfolding digest_of_blob_key Keys.blob start
digest_of_blob_key-blob d h =
    rw (get_from-append (b'B' ∷ []) (encode d) 1 refl, decode-encode_last d h) refl

-- An entry is among those of a page.
abbrev pub IsListed : Bytes × Bytes → List (Bytes × Bytes) → Type 0
IsListed e [] = ⊥
IsListed e (x ∷ xs) = (x ≡ e) ⊎ IsListed e xs

-- A property of the batch that each of its steps keeps.
module _ (R : Records) (E : MetaEngine) (s : E.State) (seen_before now : Timestamp) where
  abbrev pub fresh_mark : Bytes
  fresh_mark = R.encode_mark (record { seen_at = secs now })

  module _ (P : WriteBatch → Type 0)
      (by_put : (b : WriteBatch) (d : Digest) → P b → P (put b (Keys.blob_mark d) fresh_mark))
      (by_delete : (b : WriteBatch) (d : Digest)
        → E.exists_prefix s (Keys.blob_refs d) ≡ true
        → P b
        → P (delete b (Keys.blob_mark d))) where
    step_keeps :
        (d : Digest) (raw : Bytes) (mark : Option BlobMark) (b : WriteBatch) (scan : BlobScan)
        → P b
        → (x : Bool) → E.exists_prefix s (Keys.blob_refs d) ≡ x
        → Returns
            (λ (y : WriteBatch × BlobScan). P y.0)
            (if x
              then done (referenced E R d mark (b, scan))
              else unreferenced E R seen_before now d raw mark (b, scan))
    unfolding referenced unreferenced
    step_keeps d raw none b scan h true e = returns _ h
    step_keeps d raw (some mark) b scan h true e = returns _ (by_delete b d e h)
    step_keeps d raw none b scan h false e = returns _ (by_put b d h)
    step_keeps d raw (some mark) b scan h false e =
        elim (Bool-cases (leb mark.seen_at (secs seen_before))) [
          | inl old ↦ rw old (Returns-bind (require (R.decode_blob raw) _) (λ r. returns _ h))
          | inr young ↦ rw young (returns _ h)
        ]

    entries_keep :
        (entries : List (Bytes × Bytes)) (x : WriteBatch × BlobScan)
        → P x.0
        → Returns
            (λ (y : WriteBatch × BlobScan). P y.0)
            (blob_entries E R s seen_before now entries x)
    unfolding blob_entries
    entries_keep [] x h = returns _ h
    entries_keep ((key, raw) ∷ entries) (b, scan) h = Returns-bind (digest_of_blob_key key) (λ d.
        Returns-bind (blob_mark E R s d) (λ mark.
          Returns-then (λ (x : WriteBatch × BlobScan). P x.0) _
            (step_keeps d raw mark b scan h (E.exists_prefix s (Keys.blob_refs d)) refl)
            (λ x g. entries_keep entries x g)))

  -- A page's batch changes the range of marks only.
  pub Keeps-blob_entries :
      (p : ℕ)
      → (b'C' == p) ≡ false
      → (entries : List (Bytes × Bytes)) (b : WriteBatch) (scan : BlobScan)
      → Returns
          (λ (y : WriteBatch × BlobScan). Keeps p b y.0)
          (blob_entries E R s seen_before now entries (b, scan))
  unfolding Keys.blob_mark start
  Keeps-blob_entries p h entries b scan =
      entries_keep (Keeps p b) (λ c d g. Keeps-put p b c (Keys.blob_mark d) h fresh_mark g)
        (λ c d e g. Keeps-delete p b c (Keys.blob_mark d) h g) entries (b, scan) (Keeps-refl p b)

  module _ (digest : Digest) (unreferred : E.exists_prefix s (Keys.blob_refs digest) ≡ false) where
    abbrev pub Marked : WriteBatch → Type 0
    Marked b = view_ops b.ops (E.get s) (Keys.blob_mark digest) ≡ some fresh_mark

    Marked-put :
        (b : WriteBatch) (d : Digest) → Marked b → Marked (put b (Keys.blob_mark d) fresh_mark)
    Marked-put b d h =
        view_ops-put b (Keys.blob_mark d) fresh_mark (E.get s) (Keys.blob_mark digest)
        ∙ by_test (bytes_eq (Keys.blob_mark d) (Keys.blob_mark digest))
      where
        by_test :
            (x : Bool)
            → (if x then some fresh_mark else view_ops b.ops (E.get s) (Keys.blob_mark digest))
              ≡ some fresh_mark
        by_test true = refl
        by_test false = h

    -- A blob of the same mark is as little referenced.
    same_mark :
        (d : Digest)
        → bytes_eq (Keys.blob_mark d) (Keys.blob_mark digest) ≡ true
        → E.exists_prefix s (Keys.blob_refs d) ≡ false
    unfolding Keys.blob_mark Keys.blob_refs start
    same_mark d e =
        ap (λ k. E.exists_prefix s (b'R' ∷ k)) (bytes_eq→eq (encode d) (encode digest) e)
        ∙ unreferred

    Marked-delete :
        (b : WriteBatch) (d : Digest)
        → E.exists_prefix s (Keys.blob_refs d) ≡ true
        → Marked b
        → Marked (delete b (Keys.blob_mark d))
    Marked-delete b d e h =
        view_ops-delete b (Keys.blob_mark d) (E.get s) (Keys.blob_mark digest)
        ∙ elim (Bool-cases (bytes_eq (Keys.blob_mark d) (Keys.blob_mark digest))) [
          | inl same ↦ absurd (cc (e, same_mark d same))
          | inr other ↦ rw other h
        ]

    pub Marked-blob_entries :
        (raw : Bytes)
        → IsDigest digest
        → E.get s (Keys.blob_mark digest) ≡ none
        → (entries : List (Bytes × Bytes)) (b : WriteBatch) (scan : BlobScan)
        → IsListed (Keys.blob digest, raw) entries
        → Returns
            (λ (y : WriteBatch × BlobScan). Marked y.0)
            (blob_entries E R s seen_before now entries (b, scan))
    unfolding blob_entries blob_mark unreferenced
    Marked-blob_entries raw hd unmarked [] b scan x = absurd x
    Marked-blob_entries raw hd unmarked ((key, value) ∷ entries) b scan (inl e) =
        rw
          (
            ap (λ (x : Bytes × Bytes). x.0) e,
            digest_of_blob_key-blob digest hd,
            unmarked,
            unreferred,
          )
          (entries_keep Marked Marked-put Marked-delete entries _ marked)
      where
        marked : Marked (put b (Keys.blob_mark digest) fresh_mark)
        marked =
            view_ops-put b (Keys.blob_mark digest) fresh_mark (E.get s) (Keys.blob_mark digest)
            ∙ rw (bytes_eq_self (Keys.blob_mark digest)) refl
    Marked-blob_entries raw hd unmarked ((key, value) ∷ entries) b scan (inr more) =
        Returns-bind (digest_of_blob_key key) (λ d. Returns-bind (blob_mark E R s d) (λ mark.
          Returns-bind
            (if E.exists_prefix s (Keys.blob_refs d)
              then done (referenced E R d mark (b, scan))
              else unreferenced E R seen_before now d value mark (b, scan))
            (λ x. Marked-blob_entries raw hd unmarked entries x.0 x.1 more)))
