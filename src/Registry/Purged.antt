-- ===== src/Registry/Purged.antt =====
-- A purge, an upload's id and pages of referrers and of history at concrete stores.
use summ.Prelude.{
  ℕ, ◌≡◌, refl, sym, subst, List, inl, Option, none, some, Bool, true, false, [], ◌∷◌, Bytes, codes,
  replicate, arith,
}
use summ.Core.Digest.{Digest, hex}
use summ.Core.Keys
use summ.Core.Tests.{ones, ones-IsDigest, noon}
use summ.Meta.Batch.{new, put}
use summ.Meta.Redb.Sorted.{SortedEntries, empty_table}
use summ.Meta.Tests.{engine}
use summ.Registry.Outcome.{done}
use summ.Registry.Runs.{records}
use summ.Registry.Purge.{BlobScan}
use summ.Registry.Purge.Operations.{scan_blobs, collect_blob}
use summ.Registry.Purge.Collected.{IsCollection, collect_blob-IsCollection}
use summ.Registry.Purge.Clock.{scan_blobs-collect_blob}
use summ.Registry.Purge.Reclaimed.{scan_blobs-collects}
use summ.Registry.Purge.Marks.{IsListed}
use summ.Registry.Uploads.{parse_upload_id, format_upload_id}
use summ.Registry.Uploads.Text.{parse_upload_id-format_upload_id}
use summ.Core.Timestamp.{Timestamp}
use summ.Core.Types.{created}
use summ.Core.Tests.{release, release-IsStr, twos-IsDigest, noon-IsTimestamp}
use summ.Core.Keys.History
use summ.Prelude.{ok, ap}
use summ.Meta.Redb.{Entries}
use summ.Meta.Redb.Paging.{under}
use summ.Meta.Redb.Sorted.{sorted_table}
use summ.Meta.Scans.{redb_scans}
use summ.Registry.History.{TagEventEntry, tag_history}
use summ.Registry.History.Rows.{AreRows}
use summ.Registry.History.Pages.{cursor_behind, tag_history-page_of_events}
use summ.Core.Digest.{display}
use summ.Core.Tests.{twos}
use summ.Prelude.BigEndian.{be}
use summ.Meta.Tests.{name_cache, id_cache, no_names}
use summ.Registry.Formats.Stored
use summ.Registry.Referrers.{referrers}
use summ.Registry.Referrers.Listing.{IsListing, referrers-IsListing}
use summ.Meta.Interner.{lookup}

-- A blob of five bytes that nothing refers to.
abbrev stored_blob : SortedEntries
stored_blob = engine.apply empty_table (put new (Keys.blob ones) (5 ∷ []))

abbrev epoch : Timestamp
epoch = record { millis = 0 }

abbrev marked_blob : SortedEntries
marked_blob = (scan_blobs records engine stored_blob none 10 epoch noon false).1

abbrev scan : BlobScan
scan = record { examined = 1; marked = 1; unmarked = 0; ripe = []; next = none }

scan_done : (scan_blobs records engine stored_blob none 10 epoch noon false).0 ≡ done scan
unfolding summ.Meta.Redb.apply summ.Meta.Batch.is_empty put new Keys.blob Keys.start
    summ.Prelude.Lex.lex scan_blobs Keys.blobs summ.Meta.Redb.scan summ.Meta.Redb.walk
    summ.Meta.Redb.select summ.Core.Digest.encode summ.Prelude.get_from summ.Core.Digest.decode
    summ.Meta.Redb.find Keys.blob_mark summ.Meta.Redb.exists_prefix Keys.blob_refs
scan_done = refl

unmarked : engine.get stored_blob (Keys.blob_mark ones) ≡ none
unfolding summ.Meta.Redb.apply summ.Meta.Batch.is_empty put new Keys.blob Keys.start
    summ.Prelude.Lex.lex summ.Meta.Redb.find Keys.blob_mark
unmarked = refl

unreferenced_ones : engine.exists_prefix stored_blob (Keys.blob_refs ones) ≡ false
unfolding summ.Meta.Redb.apply summ.Meta.Batch.is_empty put new Keys.blob Keys.start
    summ.Prelude.Lex.lex summ.Meta.Redb.exists_prefix summ.Meta.Redb.select Keys.blob_refs
unreferenced_ones = refl

stored_ones : engine.get stored_blob (Keys.blob ones) ≡ some (5 ∷ [])
unfolding summ.Meta.Redb.apply summ.Meta.Batch.is_empty put new Keys.blob Keys.start
    summ.Prelude.Lex.lex summ.Meta.Redb.find summ.Core.Digest.encode
stored_ones = refl

first_entry : (engine.scan stored_blob Keys.blobs none 10).entries ≡ (Keys.blob ones, 5 ∷ []) ∷ []
unfolding summ.Meta.Redb.apply summ.Meta.Batch.is_empty put new Keys.blob Keys.start
    summ.Prelude.Lex.lex Keys.blobs summ.Meta.Redb.scan summ.Meta.Redb.walk summ.Meta.Redb.select
    summ.Core.Digest.encode
first_entry = refl

listed :
    {entries : List (Bytes × Bytes)}
    → entries ≡ (Keys.blob ones, 5 ∷ []) ∷ []
    → IsListed (Keys.blob ones, 5 ∷ []) entries
listed e = subst (IsListed (Keys.blob ones, 5 ∷ [])) (sym e) (inl refl)

collect_blob-IsCollection_example :
    IsCollection records engine marked_blob ones noon
      (collect_blob records engine marked_blob ones noon)
collect_blob-IsCollection_example = collect_blob-IsCollection records engine marked_blob ones noon

scan_blobs-collect_blob_example :
    (collect_blob records engine marked_blob ones epoch).1 ≡ marked_blob
unfolding summ.Core.Timestamp.secs
scan_blobs-collect_blob_example =
    scan_blobs-collect_blob records engine epoch noon ones stored_blob none 10 false unmarked
      (omega arith)

scan_blobs-collects_example : (collect_blob records engine marked_blob ones noon).0 ≡ done (some 5)
scan_blobs-collects_example =
    scan_blobs-collects records engine stored_blob epoch noon none 10 scan ones (5 ∷ [])
      (record { size = 5 }) noon scan_done ones-IsDigest (listed first_entry) stored_ones refl
      unmarked unreferenced_ones (omega arith)

abbrev upload_name : Bytes
upload_name = codes "01010101-0101-0101-0101-010101010101"

formatted : format_upload_id (replicate 16 1) ≡ upload_name
unfolding format_upload_id summ.Core.Digest.hex_char
formatted = refl

parse_upload_id-format_upload_id_example :
    (parse_upload_id (format_upload_id (replicate 16 1)) ≡ done (replicate 16 1))
    × (parse_upload_id (hex (replicate 16 1)) ≡ done (replicate 16 1))
parse_upload_id-format_upload_id_example =
    parse_upload_id-format_upload_id (replicate 16 1) refl (omega arith)

-- The repository of id 7 has one referrer of `ones`, a signature.
abbrev signed : SortedEntries
signed = engine.apply empty_table (
    put (put new (Keys.repo_by_name (codes "a")) (be 4 7)) (Keys.referrer 7 ones twos) (
      Stored.referrer.write
        (record {
          media_type = codes "application/vnd.oci.image.manifest.v1+json";
          artifact_type = some (codes "signature");
          size = 9;
          annotations = [];
        })
        []))

referrers-IsListing_example :
    IsListing records engine signed ones
      (some (codes "signature"))
      none
      10
      (lookup engine name_cache id_cache signed no_names (codes "a")).0
      (referrers records engine name_cache id_cache signed no_names
        (codes "a")
        ones
        (some (codes "signature"))
        none
        10).0
referrers-IsListing_example =
    referrers-IsListing records engine name_cache id_cache signed no_names (codes "a") ones
      (some (codes "signature")) none 10

-- Two events of one tag in the same instant, in the repository of id 7.
abbrev event_of : Digest → TagEventEntry
event_of d = record {
  at = noon;
  tag = release;
  digest = d;
  event = record { event = created; media_type = []; size = 2 };
}

abbrev history_row : Digest → Bytes × Bytes
history_row d = (History.tag_history 7 release noon d, Stored.event.write (event_of d).event [])

abbrev logged : SortedEntries
logged = engine.apply empty_table (
    put
      (put (put new (Keys.repo_by_name (codes "a")) (be 4 7)) (history_row ones).0
        (history_row ones).1)
      (history_row twos).0 (history_row twos).1)

known : (lookup engine name_cache id_cache logged no_names (codes "a")).0 ≡ ok (some 7)
unfolding summ.Meta.Redb.apply summ.Meta.Batch.is_empty put new Keys.start summ.Prelude.Lex.lex
    Keys.repo_by_name summ.Prelude.BigEndian.be History.tag_history Keys.start_repo lookup
    summ.Meta.Interner.fetched summ.Meta.Interner.stored summ.Meta.Redb.find History.desc_time
    summ.Core.Digest.encode Keys.parse_repo_id summ.Prelude.BigEndian.from_be
known = refl

logged_rows :
    under (History.tag_history_of 7 release) (sorted_table.entries logged)
    ≡ history_row ones ∷ history_row twos ∷ []
unfolding summ.Meta.Redb.apply summ.Meta.Batch.is_empty put new Keys.start summ.Prelude.Lex.lex
    Keys.repo_by_name summ.Prelude.BigEndian.be History.tag_history Keys.start_repo
    summ.Meta.Redb.select History.tag_history_of summ.Core.Digest.encode
    summ.Core.Keys.History.desc_time
logged_rows = refl

row_events :
    AreRows records 7 release
      (history_row ones ∷ history_row twos ∷ [])
      (event_of ones ∷ event_of twos ∷ [])
row_events = (
  (refl, records.decode-encode_event (event_of ones).event, refl, ones-IsDigest, noon-IsTimestamp),
  (
    (
      refl,
      records.decode-encode_event (event_of twos).event,
      refl,
      twos-IsDigest,
      noon-IsTimestamp,
    ),
    tt,
  ),
)

-- The second page of one event resumes inside the instant.
tag_history-page_of_events_example :
    (tag_history records engine name_cache id_cache logged no_names
      (codes "a")
      release
      (some (cursor_behind records 7 release (event_of ones)).before)
      (some (cursor_behind records 7 release (event_of ones)).last)
      1).0
    ≡ done (record { events = event_of twos ∷ []; next = none })
unfolding summ.Prelude.drop summ.Prelude.take
tag_history-page_of_events_example =
    tag_history-page_of_events records 7 release engine (redb_scans sorted_table) name_cache
      id_cache logged no_names (codes "a") 0 (event_of ones ∷ event_of twos ∷ [])
      (some (0, event_of ones)) known release-IsStr
      (subst (λ rows. AreRows records 7 release rows (event_of ones ∷ event_of twos ∷ []))
        (sym logged_rows) row_events)
      refl
