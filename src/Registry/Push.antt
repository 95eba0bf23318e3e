-- ===== src/Registry/Push.antt =====
-- summ-registry/src/registry.rs: the push of a manifest, and its reads.
pub mod Staging
pub mod Operations
pub mod Kept
pub mod Readable
pub mod Authorised
pub mod Servable
pub mod Grants
use summ.Prelude.{
  ℕ, Option, none, some, Bool, true, false, not, ◌&&◌, ◌||◌, List, [], ◌∷◌, ◌++◌, map, Bytes,
  bytes_eq, length, ltb, if◌then◌else◌,
}
use summ.Core.Digest.{Digest, sha256, sha512, IsDigest}
use summ.Core.Timestamp.{Timestamp, secs}
use summ.Core.Types.{ManifestRecord, ReferrerRecord, ChildRef}
use summ.Core.Buckets.{BlobRecord}
use summ.Core.Keys
use summ.Core.Keys.{RepoId}
use summ.Meta.Engine.{WriteBatch, MetaEngine}
use summ.Meta.Batch.{new, put, set, delete}
use summ.Registry.Outcome.{
  Outcome, done, fail, manifest_invalid, digest_invalid, manifest_blob_unknown, ◌>>=◌,
}
use summ.Registry.Reference.{Reference, as_tag, as_digest}
use summ.Registry.Records.{Records}
use summ.Registry.Manifest.{BlobDesc, ParsedManifest, Documents, parse, total_layer_size}
use summ.Registry.Blobs.{blob_is_servable_id, blob_record}
use summ.Registry.Tags.{TagTarget, digest_eq, stage_set_tag}

pub record RegistryOptions : Type 0 where
  pub validate_references : Bool
  pub max_manifest_bytes : ℕ
  pub search_ceiling : ℕ

abbrev pub default : RegistryOptions
default = record {
  validate_references = true;
  max_manifest_bytes = 4194304;
  search_ceiling = 50000;
}

pub record ManifestHead : Type 0 where
  pub digest : Digest
  pub media_type : Bytes
  pub size : ℕ

pub record StoredManifest : Type 0 where
  pub digest : Digest
  pub media_type : Bytes
  pub body : Bytes

pub record ManifestPut : Type 0 where
  pub repo : Bytes
  pub reference : Reference
  pub body : Bytes
  pub content_type : Option Bytes
  pub now : Timestamp

pub record PushOutcome : Type 0 where
  pub digest : Digest
  pub media_type : Bytes
  pub size : ℕ
  pub subject : Option Digest
  pub tag : Option Bytes
  pub displaced : Option Digest

-- The hash functions of the crate sha2, whose results have their algorithm's length.
pub record Hashes : Type 0 where
  pub sha256_of : Bytes → Bytes
  pub sha512_of : Bytes → Bytes
  pub sha256_of-IsDigest : (body : Bytes) → IsDigest (sha256 (sha256_of body))
  pub sha512_of-IsDigest : (body : Bytes) → IsDigest (sha512 (sha512_of body))

unfoldable pub digest_body : Hashes → Bytes → Option Digest → Digest
digest_body H body none = sha256 (H.sha256_of body)
digest_body H body (some (sha256 d)) = sha256 (H.sha256_of body)
digest_body H body (some (sha512 d)) = sha512 (H.sha512_of body)

-- A push that names a digest must have its body's.
unfoldable pub check_claimed : Option Digest → Digest → Outcome (Unit {0})
check_claimed none digest = done tt
check_claimed (some claimed) digest =
    if digest_eq claimed digest then done tt else fail digest_invalid

unfoldable pub record_of : RepoId → Digest → ℕ → Timestamp → ParsedManifest → ManifestRecord
unfolding total_layer_size
record_of repo digest size now m = record {
  repo = repo;
  digest = digest;
  media_type = m.media_type;
  size = size;
  total_layer_size = total_layer_size m;
  platform = none;
  layers = map (λ (b : BlobDesc). b.digest) m.blobs;
  children = m.children;
  subject = m.subject;
  artifact_type = m.artifact_type;
  annotations = m.annotations;
  pushed_at = secs now;
}

unfoldable pub referrer_of : ℕ → ParsedManifest → ReferrerRecord
referrer_of size m = record {
  media_type = m.media_type;
  artifact_type = m.referrer_artifact_type;
  size = size;
  annotations = m.annotations;
}

unfoldable pub target_of : Digest → ℕ → ParsedManifest → TagTarget
unfolding referrer_of
target_of digest size m = record {
  digest = digest;
  media_type = m.media_type;
  size = size;
  referrer = referrer_of size m;
}

-- `applied.contains(&tag)`
unfoldable pub contains : Bytes → List Bytes → Bool
contains t [] = false
contains t (u ∷ applied) = bytes_eq u t || contains t applied

-- The reference's tag, then the extra ones.
abbrev pub all_tags : Option Bytes → List Bytes → List Bytes
all_tags none extra = extra
all_tags (some t) extra = t ∷ extra
