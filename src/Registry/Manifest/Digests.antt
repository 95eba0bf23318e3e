-- ===== src/Registry/Manifest/Digests.antt =====
-- The digests of a document that was accepted are well formed.
use summ.Prelude.{◌≡◌, refl, Option, List, [], ◌∷◌, Bytes, All}
use summ.Core.Digest.{Digest, IsDigest, Parsed, ok, invalid_digest, panic, from_str}
use summ.Core.Digest.Panics.{from_str-IsDigest}
use summ.Registry.Outcome.{require, manifest_invalid}
use summ.Registry.Frame.{Returns, returns, fails, panics, Returns-bind, Returns-then}
use summ.Registry.Manifest.{
  BlobDesc, Descriptor, ImageManifest, ImageIndex, ParsedManifest, ManifestKind, image, index,
  Documents, parsed_digest, descriptor_digest, blob_desc, blob_descs, child_refs, subject_of,
  check_schema_version, image_of, index_of, parse_image, parse_index, parse_kind, parse, classify,
}

descriptor_digest-IsDigest : (d : Descriptor) → Returns IsDigest (descriptor_digest d)
unfolding descriptor_digest
descriptor_digest-IsDigest d = by_parsed (from_str d.digest) refl
  where
    by_parsed : (o : Parsed Digest) → from_str d.digest ≡ o → Returns IsDigest (parsed_digest o)
    by_parsed (ok x) e = returns x (from_str-IsDigest d.digest x e)
    by_parsed (invalid_digest x) e = fails _
    by_parsed panic e = panics

blob_desc-IsDigest : (d : Descriptor) → Returns (λ (b : BlobDesc). IsDigest b.digest) (blob_desc d)
unfolding blob_desc
blob_desc-IsDigest d =
    Returns-then IsDigest (descriptor_digest d) (descriptor_digest-IsDigest d) (λ x h. returns _ h)

abbrev pub AreDigests : List BlobDesc → Type 0
AreDigests = All (λ (b : BlobDesc). IsDigest b.digest)

blob_descs-AreDigests : (ds : List Descriptor) → Returns AreDigests (blob_descs ds)
unfolding blob_descs
blob_descs-AreDigests [] = returns _ tt
blob_descs-AreDigests (d ∷ ds) =
    Returns-then (λ (b : BlobDesc). IsDigest b.digest) (blob_desc d) (blob_desc-IsDigest d)
      (λ b h.
        Returns-then AreDigests (blob_descs ds) (blob_descs-AreDigests ds)
          (λ bs hs. returns _ (h, hs)))

image_of-AreDigests :
    (m : ImageManifest) (t : Bytes)
    → Returns (λ (p : ParsedManifest). AreDigests p.blobs) (image_of m t)
unfolding image_of
image_of-AreDigests m t = Returns-bind (check_schema_version m.schema_version) (λ u.
    Returns-then (λ (b : BlobDesc). IsDigest b.digest) (blob_desc m.config)
      (blob_desc-IsDigest m.config)
      (λ config h.
        Returns-then AreDigests (blob_descs m.layers) (blob_descs-AreDigests m.layers)
          (λ layers hs. Returns-bind (subject_of m.subject) (λ subject. returns _ (h, hs)))))

index_of-AreDigests :
    (m : ImageIndex) (t : Bytes)
    → Returns (λ (p : ParsedManifest). AreDigests p.blobs) (index_of m t)
unfolding index_of
index_of-AreDigests m t = Returns-bind (check_schema_version m.schema_version) (λ u.
    Returns-bind (child_refs m.manifests)
      (λ children. Returns-bind (subject_of m.subject) (λ subject. returns _ tt)))

module _ (D : Documents) where
  parse_kind-AreDigests :
      (k : ManifestKind) (body t : Bytes)
      → Returns (λ (p : ParsedManifest). AreDigests p.blobs) (parse_kind D k body t)
  unfolding parse_image parse_index
  parse_kind-AreDigests image body t =
      Returns-bind (require (D.image body) manifest_invalid) (λ m. image_of-AreDigests m t)
  parse_kind-AreDigests index body t =
      Returns-bind (require (D.index body) manifest_invalid) (λ m. index_of-AreDigests m t)

  pub parse-AreDigests :
      (body : Bytes) (content_type : Option Bytes)
      → Returns (λ (p : ParsedManifest). AreDigests p.blobs) (parse D body content_type)
  unfolding parse
  parse-AreDigests body content_type =
      Returns-bind (require (D.shape body) manifest_invalid)
        (λ shape. Returns-bind (classify shape) (λ k. parse_kind-AreDigests k body _))
