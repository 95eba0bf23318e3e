-- ===== src/Registry/Manifest.antt =====
-- summ-registry/src/manifest.rs: what a pushed document is, and what of it the keys store. serde_json and
-- oci_spec, which read the document, are a parameter.
pub mod Digests
use Prim.Native.Nat.{Ordering}
use summ.Prelude.{
  ℕ, ◌+◌, ◌%◌, ◌^◌, Option, none, some, Bool, true, false, List, [], ◌∷◌, Bytes, bytes_eq, codes,
  ◌==◌, ◌||◌, if◌then◌else◌,
}
use summ.Prelude.Lex.{lex}
use summ.Core.Digest.{Digest, Parsed, ok, invalid_digest, panic, from_str}
use summ.Core.Types.{Platform, ChildRef}
use summ.Registry.Outcome.{Outcome, done, fail, panicked, manifest_invalid, require, ◌>>=◌}

abbrev pub default_media_type : Bytes
default_media_type = codes "application/vnd.oci.image.manifest.v1+json"

abbrev pub oci_index : Bytes
oci_index = codes "application/vnd.oci.image.index.v1+json"

abbrev pub docker_manifest_list : Bytes
docker_manifest_list = codes "application/vnd.docker.distribution.manifest.list.v2+json"

abbrev pub oci_manifest : Bytes
oci_manifest = codes "application/vnd.oci.image.manifest.v1+json"

abbrev pub docker_manifest : Bytes
docker_manifest = codes "application/vnd.docker.distribution.manifest.v2+json"

pub record BlobDesc : Type 0 where
  pub digest : Digest
  pub size : ℕ
  pub foreign : Bool

pub data ManifestKind : Type 0 where
  image index : ManifestKind

pub record ParsedManifest : Type 0 where
  pub kind : ManifestKind
  pub media_type : Bytes
  pub artifact_type : Option Bytes
  pub referrer_artifact_type : Option Bytes
  pub annotations : List (Bytes × Bytes)
  pub subject : Option Digest
  pub blobs : List BlobDesc
  pub children : List ChildRef

-- The sum over the blobs that are not foreign, as a release build adds.
unfoldable pub layer_sizes : List BlobDesc → ℕ
layer_sizes [] = 0
layer_sizes (b ∷ blobs) = (if b.foreign then 0 else b.size) + layer_sizes blobs

unfoldable pub total_layer_size : ParsedManifest → ℕ
unfolding layer_sizes
total_layer_size m = layer_sizes m.blobs % 2 ^ 64

-- oci_spec's types, by the accessors that the source calls.
pub record Descriptor : Type 0 where
  pub media_type : Bytes
  pub digest : Bytes
  pub size : ℕ
  pub urls : Option (List Bytes)
  pub platform : Option Platform

pub record ImageManifest : Type 0 where
  pub schema_version : ℕ
  pub artifact_type : Option Bytes
  pub config : Descriptor
  pub layers : List Descriptor
  pub subject : Option Descriptor
  pub annotations : Option (List (Bytes × Bytes))

pub record ImageIndex : Type 0 where
  pub schema_version : ℕ
  pub artifact_type : Option Bytes
  pub manifests : List Descriptor
  pub subject : Option Descriptor
  pub annotations : Option (List (Bytes × Bytes))

pub record Shape (Value : Type 0) : Type 0 where
  pub media_type : Option Bytes
  pub manifests : Option Value
  pub config : Option Value

-- `serde_json::from_slice` at the three types.
pub record Documents : Type 1 where
  pub Value : Type 0
  pub shape : Bytes → Option (Shape Value)
  pub image : Bytes → Option ImageManifest
  pub index : Bytes → Option ImageIndex

-- The kind of a media type that is known.
unfoldable pub known_kind : Option Bytes → Option ManifestKind
known_kind none = none
known_kind (some t) =
    if bytes_eq t oci_index || bytes_eq t docker_manifest_list
    then some index
    else (if bytes_eq t oci_manifest || bytes_eq t docker_manifest then some image else none)

-- The structure decides where the media type does not.
unfoldable pub by_structure {ℓ} : {V : Type ℓ} → Option V → Option V → Outcome ManifestKind
by_structure (some m) none = done index
by_structure none (some c) = done image
by_structure (some m) (some c) = fail manifest_invalid
by_structure none none = fail manifest_invalid

unfoldable pub classify : {V : Type 0} → Shape V → Outcome ManifestKind
unfolding known_kind by_structure
classify shape = elim (known_kind shape.media_type) [
  | some kind ↦ done kind
  | none ↦ by_structure shape.manifests shape.config
]

unfoldable pub check_schema_version : ℕ → Outcome (Unit {0})
check_schema_version v = if v == 2 then done tt else fail manifest_invalid

abbrev pub parsed_digest : Parsed Digest → Outcome Digest
parsed_digest (ok d) = done d
parsed_digest (invalid_digest e) = fail manifest_invalid
parsed_digest panic = panicked

unfoldable pub descriptor_digest : Descriptor → Outcome Digest
descriptor_digest d = parsed_digest (from_str d.digest)

-- `d.urls().as_ref().is_some_and(|u| !u.is_empty())`
abbrev pub is_foreign : Option (List Bytes) → Bool
is_foreign none = false
is_foreign (some []) = false
is_foreign (some (u ∷ us)) = true

unfoldable pub blob_desc : Descriptor → Outcome BlobDesc
unfolding descriptor_digest
blob_desc d =
    descriptor_digest d
    >>= (λ digest. done (record { digest = digest; size = d.size; foreign = is_foreign d.urls }))

-- The loop of `parse_image` over the layers.
unfoldable pub blob_descs : List Descriptor → Outcome (List BlobDesc)
blob_descs [] = done []
blob_descs (d ∷ ds) = blob_desc d >>= (λ b. blob_descs ds >>= (λ bs. done (b ∷ bs)))

-- The loop of `parse_index` over its entries.
unfoldable pub child_refs : List Descriptor → Outcome (List ChildRef)
child_refs [] = done []
child_refs (d ∷ ds) = descriptor_digest d >>= (λ digest.
    child_refs ds >>= (λ cs. done (record { digest = digest; platform = d.platform } ∷ cs)))

-- `.as_ref().map(descriptor_digest).transpose()`
unfoldable pub subject_of : Option Descriptor → Outcome (Option Digest)
subject_of none = done none
subject_of (some d) = descriptor_digest d >>= (λ digest. done (some digest))

-- A `BTreeMap` as its pairs in key order: a key that is there gets the later value.
unfoldable pub insert_pair : Bytes × Bytes → List (Bytes × Bytes) → List (Bytes × Bytes)
insert_pair (k, v) [] = (k, v) ∷ []
insert_pair (k, v) ((j, w) ∷ m) = elim (lex k j) [
  | Ordering.lt ↦ (k, v) ∷ (j, w) ∷ m
  | Ordering.eq ↦ (k, v) ∷ m
  | Ordering.gt ↦ (j, w) ∷ insert_pair (k, v) m
]

unfoldable pub collect : List (Bytes × Bytes) → List (Bytes × Bytes) → List (Bytes × Bytes)
unfolding insert_pair
collect [] m = m
collect (p ∷ ps) m = collect ps (insert_pair p m)

unfoldable pub annotations : Option (List (Bytes × Bytes)) → List (Bytes × Bytes)
unfolding collect
annotations none = []
annotations (some pairs) = collect pairs []

-- `a.or_else(|| b)`
abbrev pub or_else {ℓ} : {A : Type ℓ} → Option A → Option A → Option A
or_else none b = b
or_else (some a) b = some a

abbrev pub get_or {ℓ} : {A : Type ℓ} → Option A → A → A
get_or none b = b
get_or (some a) b = a

unfoldable pub image_of : ImageManifest → Bytes → Outcome ParsedManifest
unfolding check_schema_version blob_desc blob_descs subject_of annotations
image_of m media_type = check_schema_version m.schema_version >>= (λ _.
    blob_desc m.config >>= (λ config. blob_descs m.layers >>= (λ layers.
      subject_of m.subject >>= (λ subject. done (record {
        kind = image;
        media_type = media_type;
        artifact_type = m.artifact_type;
        referrer_artifact_type = or_else m.artifact_type (some m.config.media_type);
        annotations = annotations m.annotations;
        subject = subject;
        blobs = config ∷ layers;
        children = [];
      })))))

unfoldable pub index_of : ImageIndex → Bytes → Outcome ParsedManifest
unfolding check_schema_version child_refs subject_of annotations
index_of ix media_type = check_schema_version ix.schema_version >>= (λ _.
    child_refs ix.manifests >>= (λ children. subject_of ix.subject >>= (λ subject. done (record {
      kind = index;
      media_type = media_type;
      artifact_type = ix.artifact_type;
      referrer_artifact_type = ix.artifact_type;
      annotations = annotations ix.annotations;
      subject = subject;
      blobs = [];
      children = children;
    }))))

module _ (D : Documents) where
  unfoldable pub parse_image : Bytes → Bytes → Outcome ParsedManifest
  unfolding image_of
  parse_image body media_type =
      require (D.image body) manifest_invalid >>= (λ m. image_of m media_type)

  unfoldable pub parse_index : Bytes → Bytes → Outcome ParsedManifest
  unfolding index_of
  parse_index body media_type =
      require (D.index body) manifest_invalid >>= (λ ix. index_of ix media_type)

  abbrev pub parse_kind : ManifestKind → Bytes → Bytes → Outcome ParsedManifest
  parse_kind image body media_type = parse_image body media_type
  parse_kind index body media_type = parse_index body media_type

  unfoldable pub parse : Bytes → Option Bytes → Outcome ParsedManifest
  unfolding parse_image parse_index classify
  parse body content_type = require (D.shape body) manifest_invalid >>= (λ shape.
      classify shape >>= (λ kind.
        parse_kind kind body (get_or (or_else shape.media_type content_type) default_media_type)))
