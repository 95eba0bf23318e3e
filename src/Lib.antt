-- ===== src/Lib.antt =====
-- summ is an OCI registry: a server speaks the distribution API over a registry layer, which keeps blobs
-- in a store of files and everything else in one ordered key-value engine.
--
-- The parts, from the bottom, with the files that model them (paths from the repository's root):
--   summ-core/src/digest.rs    Core/Digest.antt: `Digest`, `encoded_len_of`, `encode_into` (encode), `decode`,
--                              `Display::fmt` (display), `FromStr::from_str`. A panic of `from_str` is a result.
--   summ-core/src/time.rs      Core/Timestamp.antt: `Timestamp` and its conversions.
--   summ-core/src/keys.rs      Core/Keys.antt and its children History and Counters: every key, every scan
--                              prefix, every cursor and every decoder. Schema and Scans collect the keys and
--                              the scans of the schema as data types.
--   summ-core/src/types.rs     Core/Types.antt and Core/Buckets.antt: the records, and `CounterBucket`.
--   summ-meta/src/engine.rs    Meta/Engine.antt and Meta/Batch.antt: `MetaOp`, `WriteBatch`, the pages, and
--                              the trait `MetaEngine` as an interface with what its comments promise.
--   summ-meta/src/redb_engine.rs
--                              Meta/Redb.antt: `walk`, `scan`, `scan_keys`, `exists_prefix` and `apply` over a
--                              redb table. The table is a parameter (RedbTable), with what redb documents of
--                              its ordered map as laws; Meta/Redb/Sorted.antt is an instance.
--
--   summ-meta/src/interner.rs  Meta/Interner.antt: `lookup`, `resolve`, `intern`, `next_id`, `forget`, over two
--                              LRU caches that are a parameter and may drop any entry.
--   summ-meta/src/version.rs   Meta/Version.antt: `read`, `stamp`, `ensure`; the migrations are a parameter.
--   summ-registry/src/reference.rs, cosign.rs, suffix.rs, error.rs
--                              Registry/Reference.antt, Registry/Cosign.antt, Registry/Suffix.antt,
--                              Registry/Outcome.antt: tags and references, the subject of a cosign tag, what
--                              paging reads off a key, and the errors.
--   summ-registry/src/tags.rs  Registry/Tags.antt and Registry/Tags/Operations.antt: `stage_set_tag`,
--                              `stage_delete_tag`, `delete_tag`, `get_tag`, `list_tags`, `tags_of_manifest`,
--                              over any engine and any codec (Codec, for postcard).
--   summ-registry/src/manifest.rs
--                              Registry/Manifest.antt: `parse`, `classify`, `parse_image`, `parse_index` and
--                              what they call, over parsed JSON documents (Documents, for serde_json and
--                              oci_spec).
--   summ-registry/src/registry.rs
--                              Registry/Blobs.antt: `blob_is_servable`, `servable_blob`, `commit_blob`;
--                              Registry/Push.antt with Push/Staging.antt and Push/Operations.antt:
--                              `put_manifest` with `stage_blobs`, `stage_children` and the tags of
--                              `plan_manifest_put_tagged`, `head_manifest` and the other reads. The hash
--                              functions (Hashes) and the codec of records (Records, for postcard and zstd)
--                              are parameters; Registry/Formats.antt and Formats/Stored.antt have a codec for the tests.
--   summ-registry/src/delete.rs
--                              Registry/Drain.antt: `drain`; Registry/Delete.antt and Delete/Operations.antt:
--                              `delete_manifest`, `delete_blob_reference`, `delete_repository`, `dead_repos`,
--                              `sweep_repo_refs`, `finish_repo_sweep`.
--   summ-registry/src/referrers.rs, history.rs
--                              Registry/Referrers.antt: `referrers`; Registry/History.antt: `tag_history`,
--                              `manifest_tag_history`.
--   summ-registry/src/uploads.rs
--                              Registry/Uploads.antt and Uploads/Operations.antt: `create_upload`,
--                              `get_upload_in`, `save_upload`, `delete_upload`, `live_upload_repos`,
--                              `format_upload_id`, `parse_upload_id`.
--   summ-registry/src/purge.rs
--                              Registry/Purge.antt (the loops over a page) and Purge/Operations.antt:
--                              `purge_manifest`, `sweep_repo_blobs`, `scan_blobs`, `collect_blob`,
--                              `expired_uploads`, `empty_repos`, `retire_repo` and the scans behind them.
--   summ-server/src/range.rs   Server/Range.antt: `parse_range` of downloads and `parse_chunk_range` of uploads.
--   summ-server/src/query.rs   Server/Query.antt: `pairs`, `first`, `all`, `form_decode`, `path_decode`,
--                              `query_escape`; `from_utf8_lossy` is a parameter.
--   summ-server/src/reference.rs
--                              Server/Reference.antt: `valid_name`, `valid_tag`, `parse_digest`,
--                              `parse_reference`.
--
-- The layers talk through bytes: the registry builds keys with keys.rs, stages operations into a batch, and
-- the engine applies the batch or scans a prefix in key order. Texts are their UTF-8 bytes (Core/Utf8.antt
-- decodes them), numbers are natural numbers, and what a type of fixed width does beyond its range is
-- written out.
--
-- Loops are structural recursion. `pages` and `drain_loop` follow cursors on fuel, a page for each unit;
-- their theorems give the number of pages that is enough. `drain` allows one page more than the store has
-- entries (Meta/Scans.antt is the interface by which a client knows them), which its theorem shows to be
-- enough.
--
-- Not modelled: the RocksDB engine, storage errors and transactions that fail, concurrency (with it the
-- locks that callers of the purge hold), the lists of discovery.rs and the pull counters of counters.rs in
-- the registry, the page parameters, the server's state in memory, authentication and configuration, the
-- handlers and the page of the web interface, the files behind the blob store. In a push, a record's
-- numbers are not bounded, but for the sum of the layers, which wraps as in a release build.
pub mod Prelude
pub mod Core
pub mod Meta
pub mod Registry
pub mod Server
