-- ===== src/Registry/Tags.antt =====
-- summ-registry/src/tags.rs: setting, deleting and listing tags. The records' codec (postcard) is a
-- parameter. `plan_set_tag` and `tag_target`, which parse a manifest, are not modelled.
pub mod Operations
pub mod Ranges
pub mod Inverse
pub mod Preserved
pub mod Invariant
pub mod Deleted
pub mod Staged
use summ.Prelude.{
  ℕ, ◌≡◌, ◌&&◌, Option, none, some, Bool, true, false, List, [], ◌∷◌, Bytes, bytes_eq, codes,
  map_option, if◌then◌else◌, Result, ok, err,
}
use summ.Core.Digest.{Digest, sha256, sha512, IsDigest, display}
use summ.Core.Timestamp.{Timestamp, secs}
use summ.Core.Types.{
  TagRecord, ReferrerRecord, TagEvent, TagEventKind, created, deleted, ManifestRecord,
}
use summ.Core.Keys
use summ.Core.Keys.{RepoId, parse_tag_suffix, parse_manifest_tag_suffix}
use summ.Core.Keys.History
use summ.Meta.Engine.{WriteBatch, MetaEngine}
use summ.Meta.Batch.{new, put, set, delete}
use summ.Meta.Interner.{LruCache, RepoInterner, InvalidData, lookup}
use summ.Registry.Outcome.{
  Outcome, done, fail, panicked, RegistryError, name_unknown, manifest_unknown, meta, corrupt,
  require, ◌>>=◌,
}
use summ.Registry.Reference.{validate_tag}
use summ.Registry.Cosign.{subject_of_artifact_tag}

-- What postcard writes of the records, and reads back. A digest that it reads has its length.
pub record Codec : Type 0 where
  pub encode_tag : TagRecord → Bytes
  pub decode_tag : Bytes → Option TagRecord
  pub encode_event : TagEvent → Bytes
  pub encode_referrer : ReferrerRecord → Bytes
  pub decode_manifest : Bytes → Option ManifestRecord
  pub decode-encode_tag : (r : TagRecord) → IsDigest r.digest → decode_tag (encode_tag r) ≡ some r
  pub decode_tag-IsDigest :
      (raw : Bytes) (r : TagRecord) → decode_tag raw ≡ some r → IsDigest r.digest

pub record TagList : Type 0 where
  pub tags : List Bytes
  pub next : Option Bytes

pub record TagTarget : Type 0 where
  pub digest : Digest
  pub media_type : Bytes
  pub size : ℕ
  pub referrer : ReferrerRecord

-- `PartialEq` of digests.
unfoldable pub digest_eq : Digest → Digest → Bool
digest_eq (sha256 a) (sha256 b) = bytes_eq a b
digest_eq (sha512 a) (sha512 b) = bytes_eq a b
digest_eq _ _ = false

abbrev pub default_media_type : Bytes
default_media_type = codes "application/vnd.oci.image.manifest.v1+json"

-- `decode(&raw, what)?` of what a key holds.
abbrev pub read_record {ℓ} :
    {A : Type ℓ} → (Bytes → Option A) → Bytes → Option Bytes → Outcome (Option A)
read_record decode what none = done none
read_record decode what (some raw) = require (decode raw) (corrupt what) >>= (λ r. done (some r))

-- A list of decoded keys; the first that does not decode is an error.
unfoldable pub decode_keys : (Bytes → Option Bytes) → Bytes → List Bytes → Outcome (List Bytes)
decode_keys read what [] = done []
decode_keys read what (key ∷ keys) =
    require (read key) (corrupt what)
    >>= (λ t. decode_keys read what keys >>= (λ ts. done (t ∷ ts)))

abbrev pub decode_cursor : (Bytes → Option Bytes) → Bytes → Option Bytes → Outcome (Option Bytes)
decode_cursor read what none = done none
decode_cursor read what (some key) = require (read key) (corrupt what) >>= (λ t. done (some t))

unfoldable pub next_tag : Option Bytes → Outcome (Option Bytes)
next_tag cursor = decode_cursor parse_tag_suffix (codes "tag cursor") cursor

-- Repointing retracts the old reverse edge, and the edge of an artifact's subject.
unfoldable pub retract :
    WriteBatch → RepoId → Bytes → Digest → Option Digest → Option Digest → WriteBatch
retract batch repo tag target subject none = batch
retract batch repo tag target subject (some old) =
    if digest_eq old target
    then batch
    else (let edge = delete batch (Keys.manifest_tag repo old tag) in
        elim subject [ none ↦ edge | some s ↦ delete edge (Keys.referrer repo s old) ])

-- The history pair of an event.
unfoldable pub record_event : WriteBatch → RepoId → Bytes → Timestamp → Digest → Bytes → WriteBatch
record_event batch repo tag now digest event =
    put (put batch (History.tag_history repo tag now digest) event)
      (History.manifest_tag_history repo digest now tag) event

module _ (C : Codec) where
  -- What `stage_set_tag` stages, once it knows the tag's previous digest and its subject.
  unfoldable pub staged_set :
      WriteBatch
      → RepoId
      → Bytes
      → TagTarget
      → Timestamp
      → Option Digest
      → Option Digest
      → WriteBatch
  unfolding retract record_event
  staged_set batch repo tag target now subject previous =
      let pointed =
        put (retract batch repo tag target.digest subject previous) (Keys.tag repo tag)
          (C.encode_tag (record { digest = target.digest; tagged_at = secs now })) in
      let edged = set pointed (Keys.manifest_tag repo target.digest tag) in
      let recorded = record_event edged repo tag now target.digest (
        C.encode_event
          (record { event = created; media_type = target.media_type; size = target.size })) in
      elim subject [
        | none ↦ recorded
        | some s ↦
            put recorded (Keys.referrer repo s target.digest) (C.encode_referrer target.referrer)
      ]

  -- What `stage_delete_tag` stages, once it knows the subject.
  unfoldable pub staged_delete :
      WriteBatch
      → RepoId
      → Bytes
      → Digest
      → Option ManifestRecord
      → Timestamp
      → Option Digest
      → WriteBatch
  unfolding record_event
  staged_delete batch repo tag digest manifest now subject =
      let gone = delete (delete batch (Keys.tag repo tag)) (Keys.manifest_tag repo digest tag) in
      let freed : WriteBatch = elim subject [
        | none ↦ gone
        | some s ↦ delete gone (Keys.referrer repo s digest)
      ] in
      record_event freed repo tag now digest (
        C.encode_event (record {
          event = deleted;
          media_type = elim manifest [ none ↦ default_media_type | some m ↦ m.media_type ];
          size = elim manifest [ none ↦ 0 | some m ↦ m.size ];
        }))

  unfoldable pub stage_delete_tag :
      WriteBatch → RepoId → Bytes → Digest → Option ManifestRecord → Timestamp → Outcome WriteBatch
  unfolding staged_delete
  stage_delete_tag batch repo tag digest manifest now =
      subject_of_artifact_tag tag
      >>= (λ subject. done (staged_delete batch repo tag digest manifest now subject))

  module _ (E : MetaEngine) where
    unfoldable pub tag_record : E.State → RepoId → Bytes → Outcome (Option TagRecord)
    tag_record s repo tag =
        read_record C.decode_tag (codes "TagRecord") (E.get s (Keys.tag repo tag))

    unfoldable pub manifest_record : E.State → RepoId → Digest → Outcome (Option ManifestRecord)
    manifest_record s repo digest =
        read_record C.decode_manifest (codes "ManifestRecord") (E.get s (Keys.manifest repo digest))

    unfoldable pub stage_set_tag :
        E.State
        → WriteBatch
        → RepoId
        → Bytes
        → TagTarget
        → Timestamp
        → Outcome (WriteBatch × Option Digest)
    unfolding staged_set tag_record
    stage_set_tag s batch repo tag target now = validate_tag tag >>= (λ _.
        subject_of_artifact_tag tag >>= (λ subject. tag_record s repo tag >>= (λ found.
          let previous = map_option (λ (r : TagRecord). r.digest) found in
          done (staged_set batch repo tag target now subject previous, previous))))
