-- ===== src/Registry/Records.antt =====
-- summ-registry/src/codec.rs: the records' codec (postcard) and the bodies' compression (zstd), which are
-- parameters, beside the codec of tags.
use summ.Prelude.{◌≡◌, Option, some, Bytes}
use summ.Core.Types.{ManifestRecord, ReferrerRecord, TagEvent}
use summ.Core.Buckets.{BlobRecord, RepoBlobRecord, BlobMark, UploadSession, DeadRepo}
use summ.Registry.Tags.{Codec}

-- Encoding does not fail on these types, and decoding reads back what was encoded.
pub record Records : Type 0 where
  pub tags : Codec
  pub encode_manifest : ManifestRecord → Bytes
  pub decode_referrer : Bytes → Option ReferrerRecord
  pub decode_event : Bytes → Option TagEvent
  pub encode_blob : BlobRecord → Bytes
  pub decode_blob : Bytes → Option BlobRecord
  pub encode_repo_blob : RepoBlobRecord → Bytes
  pub decode_repo_blob : Bytes → Option RepoBlobRecord
  pub encode_mark : BlobMark → Bytes
  pub decode_mark : Bytes → Option BlobMark
  pub encode_upload : UploadSession → Bytes
  pub decode_upload : Bytes → Option UploadSession
  pub encode_dead : DeadRepo → Bytes
  pub decode_dead : Bytes → Option DeadRepo
  pub compress_body : Bytes → Bytes
  pub decompress_body : Bytes → Option Bytes
  pub decode-encode_manifest :
      (r : ManifestRecord) → tags.decode_manifest (encode_manifest r) ≡ some r
  pub decode-encode_referrer :
      (r : ReferrerRecord) → decode_referrer (tags.encode_referrer r) ≡ some r
  pub decode-encode_event : (r : TagEvent) → decode_event (tags.encode_event r) ≡ some r
  pub decode-encode_blob : (r : BlobRecord) → decode_blob (encode_blob r) ≡ some r
  pub decode-encode_repo_blob :
      (r : RepoBlobRecord) → decode_repo_blob (encode_repo_blob r) ≡ some r
  pub decode-encode_mark : (r : BlobMark) → decode_mark (encode_mark r) ≡ some r
  pub decode-encode_upload : (r : UploadSession) → decode_upload (encode_upload r) ≡ some r
  pub decode-encode_dead : (r : DeadRepo) → decode_dead (encode_dead r) ≡ some r
  pub decompress-compress : (body : Bytes) → decompress_body (compress_body body) ≡ some body
