-- ===== src/Registry/Runs.antt =====
-- Pushes, sweeps and deletions at concrete stores.
use summ.Prelude.{
  ℕ, ◌<◌, ◌≤◌, ◌^◌, ◌≡◌, ◌⊎◌, ◌↔◌, refl, ap, sym, ◌∙◌, Option, none, some, Bool, true, false, List,
  [], ◌∷◌, ◌++◌, map, Bytes, codes, length, replicate, if◌then◌else◌, arith, Result, ok, err,
  get_from, subst,
}
use summ.Core.Digest.{Digest, sha256, sha512, IsDigest}
use summ.Core.Keys.{RepoId}
use summ.Core.Tests.{ones, ones-IsDigest, twos, twos-IsDigest, release, noon}
use summ.Core.Types.{ManifestRecord}
use summ.Core.Buckets.{BlobRecord, BlobMark}
use summ.Meta.Engine.{WriteBatch}
use summ.Meta.Batch.{new, put}
use summ.Meta.Redb.Sorted.{SortedEntries, sorted_table, empty_table}
use summ.Meta.Redb.Paging.{requested}
use summ.Meta.Scans.{redb_scans}
use summ.Meta.Interner.{RepoInterner, intern}
use summ.Meta.Tests.{engine, name_cache, id_cache, no_names, tags}
use summ.Registry.Outcome.{Outcome, done}
use summ.Registry.Reference
use summ.Registry.Records.{Records}
use summ.Registry.Manifest.{Documents}
use summ.Registry.Formats.Stored
use summ.Registry.Formats.{value, value-read}
use summ.Registry.Push.{RegistryOptions, default, Hashes, ManifestPut, PushOutcome}
use summ.Registry.Push.Operations.{put_manifest, stored_manifest}
use summ.Registry.Push.Readable.{put_manifest-stored}
use summ.Registry.Push.Grants.{put_manifest-blob_is_servable_id}
use summ.Registry.Blobs.{blob_is_servable_id}
use summ.Core.Keys.Schema.{IsRepo, manifest, encode_key}
use summ.Registry.Delete.Operations.{finish_repo_sweep}
use summ.Registry.Delete.Sweep.{finish_repo_sweep_exact}
use mathlib.Core.Path.{fun_ext}
use summ.Core.Keys
use summ.Meta.Engine.{view_ops}
use summ.Meta.Redb.{apply}
use summ.Registry.Tags.{staged_set}
use summ.Registry.Tags.Preserved.{pointed, has_edge, IsInverse}
use summ.Registry.Tags.Invariant.{staged_set-IsInverse}
use summ.Registry.Delete.{ManifestDeleted, planned_manifest_delete}
use summ.Registry.Delete.Unreadable.{planned_manifest_delete-stored_manifest}
use summ.Registry.Push.{contains}
use summ.Registry.Drain.{drain_loop, each, fst_of}
use summ.Registry.Drain.Ends.{drain_loop-each}
use summ.Registry.Delete.{delete_key}
use summ.Registry.Tests.{codec, target}

-- Bodies are stored behind a byte.
abbrev unpacked : Bytes → Option Bytes
unpacked [] = none
unpacked (b ∷ body) = some body

abbrev pub records : Records
records = record {
  tags = codec;
  encode_manifest = λ r. Stored.manifest.write r [];
  decode_referrer = λ raw. value (Stored.referrer.read raw);
  decode_event = λ raw. value (Stored.event.read raw);
  encode_blob = λ r. r.size ∷ [];
  decode_blob = λ raw. elim raw as (λ x. Option BlobRecord) [
    | n ∷ [] ↦ some (record { size = n })
    | _ ↦ none
  ];
  encode_repo_blob = λ r. Stored.membership.write r [];
  decode_repo_blob = λ raw. value (Stored.membership.read raw);
  encode_mark = λ r. r.seen_at ∷ [];
  decode_mark = λ raw. elim raw as (λ x. Option BlobMark) [
    | n ∷ [] ↦ some (record { seen_at = n })
    | _ ↦ none
  ];
  encode_upload = λ r. Stored.session.write r [];
  decode_upload = λ raw. value (Stored.session.read raw);
  encode_dead = λ r. Stored.dead.write r [];
  decode_dead = λ raw. value (Stored.dead.read raw);
  compress_body = λ body. b'z' ∷ body;
  decompress_body = unpacked;
  decode-encode_manifest = value-read Stored.manifest;
  decode-encode_referrer = value-read Stored.referrer;
  decode-encode_event = value-read Stored.event;
  decode-encode_blob = λ r. refl;
  decode-encode_repo_blob = value-read Stored.membership;
  decode-encode_mark = λ r. refl;
  decode-encode_upload = value-read Stored.session;
  decode-encode_dead = value-read Stored.dead;
  decompress-compress = λ body. refl;
}

abbrev hashes : Hashes
hashes = record {
  sha256_of = λ body. replicate 32 1;
  sha512_of = λ body. replicate 64 2;
  sha256_of-IsDigest = λ body. ones-IsDigest;
  sha512_of-IsDigest = λ body. twos-IsDigest;
}

-- Every body is an image with a configuration and no layers.
abbrev documents : Documents
documents = record {
  Value = Unit {0};
  shape = λ body. some (record { media_type = none; manifests = none; config = some tt });
  image = λ body. some (record {
    schema_version = 2;
    artifact_type = none;
    config = record {
      media_type = codes "application/vnd.oci.image.config.v1+json";
      digest = codes "sha256:0303030303030303030303030303030303030303030303030303030303030303";
      size = 7;
      urls = none;
      platform = none;
    };
    layers = [];
    subject = none;
    annotations = none;
  });
  index = λ body. none;
}

abbrev lenient : RegistryOptions
lenient = record default { validate_references = false }

abbrev request : ManifestPut
request = record {
  repo = codes "a";
  reference = Reference.tag release;
  body = codes "{}";
  content_type = none;
  now = noon;
}

abbrev pushed : (Outcome PushOutcome × SortedEntries) × RepoInterner engine name_cache id_cache
pushed =
    put_manifest engine records name_cache id_cache lenient hashes documents empty_table no_names
      request

abbrev outcome : PushOutcome
outcome = record {
  digest = ones;
  media_type = codes "application/vnd.oci.image.manifest.v1+json";
  size = 2;
  subject = none;
  tag = some release;
  displaced = none;
}

pushed_done : pushed.0.0 ≡ done outcome
unfolding put_manifest summ.Registry.Push.Staging.checked Reference.as_digest
    summ.Registry.Manifest.parse summ.Core.Digest.from_str summ.Core.Utf8.is_char_boundary
    summ.Core.Digest.from_str_radix summ.Registry.Blobs.interned_id intern summ.Meta.Interner.lookup
    summ.Meta.Interner.fetched summ.Meta.Interner.stored summ.Meta.Redb.find
    summ.Meta.Interner.allocate summ.Meta.Interner.next_id summ.Registry.Push.Staging.planned_put
    summ.Registry.Push.Staging.stage_blob summ.Registry.Blobs.blob_record
    summ.Registry.Blobs.blob_is_servable_id summ.Meta.Redb.exists_prefix
    summ.Registry.Push.Staging.stage_tags summ.Registry.Reference.validate_tag summ.Core.Utf8.chars
    summ.Registry.Cosign.subject_of_artifact_tag summ.Registry.Tags.stage_set_tag
    summ.Prelude.Lex.lex summ.Meta.Redb.apply summ.Meta.Batch.is_empty summ.Core.Keys.repo_by_id
    summ.Core.Keys.start summ.Core.Keys.repo_by_name summ.Prelude.BigEndian.be summ.Core.Keys.blob
    Reference.as_tag summ.Core.Keys.tag summ.Core.Keys.start_repo
pushed_done = refl

drain_loop-each_example :
    drain_loop engine 4 tags (codes "T") none delete_key new
    ≡ some
        (each delete_key (map fst_of (requested (codes "T") none (sorted_table.entries tags))) new)
unfolding requested summ.Meta.Redb.select summ.Meta.Redb.apply summ.Meta.Batch.is_empty
    summ.Prelude.Lex.lex
drain_loop-each_example =
    drain_loop-each engine (redb_scans sorted_table) 4 tags (codes "T") none delete_key new tt
      (omega arith)

put_manifest-stored_example :
    (id : RepoId) × ((intern engine name_cache id_cache empty_table no_names request.repo).0
      ≡ ok id)
    × (stored_manifest engine records pushed.0.1 id outcome.digest
        ≡ done
            (some (record { digest = ones; media_type = outcome.media_type; body = request.body })))
put_manifest-stored_example =
    put_manifest-stored engine records name_cache id_cache lenient hashes documents empty_table
      no_names request outcome pushed.0.1 pushed.1 (λ i. ((pushed_done i, pushed.0.1), pushed.1))

first_id :
    (id : RepoId)
    → (intern engine name_cache id_cache empty_table no_names request.repo).0 ≡ ok id
    → IsRepo id
unfolding intern summ.Meta.Interner.lookup summ.Meta.Interner.fetched summ.Meta.Interner.stored
    summ.Meta.Redb.find summ.Meta.Interner.allocate summ.Meta.Interner.next_id
first_id id e = ground (arith, e)

put_manifest-blob_is_servable_id_example :
    (blob_is_servable_id engine
        (put_manifest engine records name_cache id_cache default hashes documents empty_table
          no_names request).0.1
        0
        twos
      ≡ blob_is_servable_id engine
          (intern engine name_cache id_cache empty_table no_names request.repo).1
          0
          twos)
    ⊎ ((put_manifest engine records name_cache id_cache default hashes documents empty_table
          no_names request).0.1
        ≡ empty_table)
put_manifest-blob_is_servable_id_example =
    put_manifest-blob_is_servable_id engine records default hashes documents refl name_cache
      id_cache empty_table no_names request first_id 0 twos (omega arith) twos-IsDigest

finish_repo_sweep_exact_example :
    engine.get (finish_repo_sweep records engine pushed.0.1 0) (encode_key (manifest 0 ones)) ≡ none
finish_repo_sweep_exact_example =
    finish_repo_sweep_exact 0 (omega arith) records engine pushed.0.1 (manifest 0 ones)
      (omega arith, ones-IsDigest)

-- A repository with one manifest and one tag.
abbrev stored_record : ManifestRecord
stored_record = record {
  repo = 7;
  digest = ones;
  media_type = target.media_type;
  size = 2;
  total_layer_size = 7;
  platform = none;
  layers = twos ∷ [];
  children = [];
  subject = none;
  artifact_type = none;
  annotations = [];
  pushed_at = 0;
}

abbrev untagged : SortedEntries
untagged = apply sorted_table empty_table (
    put (put new (Keys.manifest 7 ones) (Stored.manifest.write stored_record []))
      (Keys.manifest_body 7 ones) (codes "z{}"))

untagged-pointed : (t : Bytes) → pointed codec (engine.get untagged) 7 t ≡ none
unfolding pointed has_edge summ.Meta.Redb.find apply summ.Meta.Batch.is_empty summ.Prelude.Lex.lex
    Keys.manifest Keys.manifest_body Keys.start_repo Keys.start put new Keys.tag
untagged-pointed t = refl

untagged_edge : (t : Bytes) (d : Digest) → has_edge codec (engine.get untagged) 7 d t ≡ false
unfolding pointed has_edge summ.Meta.Redb.find apply summ.Meta.Batch.is_empty summ.Prelude.Lex.lex
    Keys.manifest Keys.manifest_body Keys.start_repo Keys.start put new Keys.tag Keys.manifest_tag
untagged_edge t d = refl

untagged-IsInverse : IsInverse codec (engine.get untagged) 7
untagged-IsInverse t d h = (
  (λ e. let wrong : false ≡ true = sym (untagged_edge t d) ∙ e in absurd (cc wrong)),
  (λ e. let wrong : none ≡ some d = sym (untagged-pointed t) ∙ e in absurd (cc wrong)),
)

abbrev set_release : WriteBatch
set_release = staged_set codec new 7 release target noon none none

abbrev tagged : SortedEntries
tagged = apply sorted_table untagged set_release

tagged-IsInverse : IsInverse codec (engine.get tagged) 7
tagged-IsInverse =
    subst (λ v. IsInverse codec v 7) (sym (fun_ext (engine.get-apply untagged set_release)))
      (subst
        (λ (o : Option Digest).
          IsInverse codec
            (view_ops (staged_set codec new 7 release target noon none o).ops (engine.get untagged))
            7)
        (untagged-pointed release)
        (staged_set-IsInverse codec 7 release target noon none (engine.get untagged) ones-IsDigest
          untagged-IsInverse))

abbrev plan : Outcome (ManifestDeleted × WriteBatch)
plan =
    planned_manifest_delete records engine (redb_scans sorted_table) tagged (codes "a") ones noon 7

abbrev planned_batch : Outcome (ManifestDeleted × WriteBatch) → WriteBatch
planned_batch (done (o, batch)) = batch
planned_batch _ = new

abbrev deleted_ones : ManifestDeleted
deleted_ones = record { digest = ones; removed_tags = release ∷ [] }

plan_done : plan ≡ done (deleted_ones, planned_batch plan)
unfolding planned_manifest_delete summ.Registry.Tags.manifest_record summ.Meta.Redb.find apply
    summ.Meta.Batch.is_empty summ.Prelude.Lex.lex Keys.manifest Keys.manifest_body Keys.start_repo
    Keys.start put new Keys.tag Keys.manifest_tag staged_set summ.Registry.Drain.drain
    summ.Meta.Redb.scan_keys summ.Meta.Batch.set summ.Core.Keys.History.tag_history
    summ.Core.Keys.History.manifest_tag_history summ.Prelude.BigEndian.be summ.Core.Digest.encode
    Stored.manifest summ.Meta.Redb.walk summ.Meta.Redb.select Keys.parents_of Keys.tags_of_manifest
    Keys.parse_manifest_tag_suffix get_from summ.Core.Digest.encoded_len summ.Core.Utf8.from_utf8
    summ.Core.Utf8.chars summ.Registry.Tags.stage_delete_tag
    summ.Registry.Cosign.subject_of_artifact_tag
plan_done = refl

planned_manifest_delete-stored_manifest_example :
    (stored_manifest engine records (engine.apply tagged (planned_batch plan)) 7 ones ≡ done none)
    × ((t : Bytes)
        → (contains t deleted_ones.removed_tags ≡ true)
          ↔ (pointed codec (engine.get tagged) 7 t ≡ some ones))
    × ((t : Bytes)
        → pointed codec (engine.get (engine.apply tagged (planned_batch plan))) 7 t ≡ (
            if contains t deleted_ones.removed_tags
            then none
            else pointed codec (engine.get tagged) 7 t))
planned_manifest_delete-stored_manifest_example =
    planned_manifest_delete-stored_manifest records engine (redb_scans sorted_table) tagged
      (codes "a") ones noon 7 deleted_ones (planned_batch plan) plan_done tagged-IsInverse
      ones-IsDigest
