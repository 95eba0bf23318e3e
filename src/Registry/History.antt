-- ===== src/Registry/History.antt =====
-- summ-registry/src/history.rs: the pages of a tag's history and of a manifest's.
pub mod Rows
pub mod Pages
use summ.Prelude.{
  ℕ, Option, none, some, Bool, true, false, List, [], ◌∷◌, Bytes, codes, last?, map_option,
  if◌then◌else◌, Result, ok, err,
}
use summ.Core.Digest.{Digest, Parsed, ok, invalid_digest, panic, from_str, display}
use summ.Core.Timestamp.{Timestamp}
use summ.Core.Types.{TagEvent}
use summ.Core.Keys.{RepoId}
use summ.Core.Keys.History
use summ.Core.Keys.History.{tag_history_suffix, manifest_tag_history_suffix}
use summ.Meta.Engine.{MetaEngine}
use summ.Meta.Interner.{LruCache, RepoInterner, InvalidData, lookup}
use summ.Registry.Outcome.{
  Outcome, done, fail, panicked, digest_invalid, meta, corrupt, require, ◌>>=◌,
}
use summ.Registry.Records.{Records}

pub record TagEventEntry : Type 0 where
  pub at : Timestamp
  pub tag : Bytes
  pub digest : Digest
  pub event : TagEvent

pub record HistoryCursor : Type 0 where
  pub before : Timestamp
  pub last : Bytes

pub record TagHistory : Type 0 where
  pub events : List TagEventEntry
  pub next : Option HistoryCursor

abbrev pub digest_or_error : Parsed Digest → Outcome Digest
digest_or_error (ok d) = done d
digest_or_error (invalid_digest e) = fail digest_invalid
digest_or_error panic = panicked

unfoldable pub parse_digest : Bytes → Outcome Digest
parse_digest raw = digest_or_error (from_str raw)

-- `page.next.is_some()`
abbrev pub has_more : Option Bytes → Bool
has_more none = false
has_more (some key) = true

unfoldable pub next_cursor :
    List TagEventEntry → Bool → (TagEventEntry → Bytes) → Option HistoryCursor
next_cursor events more last =
    if more
    then map_option (λ (e : TagEventEntry). record { before = e.at; last = last e }) (last? events)
    else none

-- The cursors: an exact resume, a filter, or none.
unfoldable pub tag_cursor :
    RepoId → Bytes → Option Timestamp → Option Bytes → Outcome (Option Bytes)
unfolding parse_digest
tag_cursor repo tag none last = done none
tag_cursor repo tag (some at) none = done (some (History.tag_history_before repo tag at))
tag_cursor repo tag (some at) (some raw) =
    parse_digest raw >>= (λ d. done (some (History.tag_history repo tag at d)))

unfoldable pub manifest_cursor : RepoId → Digest → Option Timestamp → Option Bytes → Option Bytes
manifest_cursor repo digest none last = none
manifest_cursor repo digest (some at) none =
    some (History.manifest_tag_history_before repo digest at)
manifest_cursor repo digest (some at) (some tag) =
    some (History.manifest_tag_history repo digest at tag)

module _ (R : Records) where
  -- The loops over a page.
  unfoldable pub tag_events : Bytes → Bytes → List (Bytes × Bytes) → Outcome (List TagEventEntry)
  tag_events prefix tag [] = done []
  tag_events prefix tag ((key, value) ∷ entries) =
      require (tag_history_suffix key prefix) (corrupt (codes "tag history key"))
      >>= (λ (found : Timestamp × Digest).
          require (R.decode_event value) (corrupt (codes "TagEvent")) >>= (λ event.
            tag_events prefix tag entries >>= (λ rest.
              done (record { at = found.0; tag = tag; digest = found.1; event = event } ∷ rest))))

  unfoldable pub manifest_events :
      Bytes → Digest → List (Bytes × Bytes) → Outcome (List TagEventEntry)
  manifest_events prefix digest [] = done []
  manifest_events prefix digest ((key, value) ∷ entries) =
      require (manifest_tag_history_suffix key prefix) (corrupt (codes "manifest tag history key"))
      >>= (λ (found : Timestamp × Bytes).
          require (R.decode_event value) (corrupt (codes "TagEvent")) >>= (λ event.
            manifest_events prefix digest entries >>= (λ rest.
              done
                (record { at = found.0; tag = found.1; digest = digest; event = event } ∷ rest))))

  module _ (E : MetaEngine) (N : LruCache Bytes RepoId) (I : LruCache RepoId Bytes) where
    -- An unknown repository has an empty page.
    abbrev pub history_in :
        (RepoId → Outcome TagHistory) → Result InvalidData (Option RepoId) → Outcome TagHistory
    history_in call (err e) = fail (meta (codes "repo id"))
    history_in call (ok none) = done (record { events = []; next = none })
    history_in call (ok (some id)) = call id

    unfoldable pub tag_history :
        E.State
        → RepoInterner E N I
        → Bytes
        → Bytes
        → Option Timestamp
        → Option Bytes
        → ℕ
        → Outcome TagHistory × RepoInterner E N I
    unfolding tag_cursor tag_events next_cursor
    tag_history s i repo tag before last limit =
        let (found, i') = lookup E N I s i repo in
        let call : RepoId → Outcome TagHistory = (λ id.
          let prefix = History.tag_history_of id tag in
          tag_cursor id tag before last >>= (λ cursor.
            let page = E.scan s prefix cursor limit in
            tag_events prefix tag page.entries >>= (λ events. done (record {
              events = events;
              next = next_cursor events (has_more page.next) (λ e. display e.digest);
            })))) in
        (history_in call found, i')

    unfoldable pub manifest_tag_history :
        E.State
        → RepoInterner E N I
        → Bytes
        → Digest
        → Option Timestamp
        → Option Bytes
        → ℕ
        → Outcome TagHistory × RepoInterner E N I
    unfolding manifest_cursor manifest_events next_cursor
    manifest_tag_history s i repo digest before last limit =
        let (found, i') = lookup E N I s i repo in
        let call : RepoId → Outcome TagHistory = (λ id.
          let prefix = History.manifest_tag_history_of id digest in
          let page = E.scan s prefix (manifest_cursor id digest before last) limit in
          manifest_events prefix digest page.entries >>= (λ events. done (record {
            events = events;
            next = next_cursor events (has_more page.next) (λ e. e.tag);
          }))) in
        (history_in call found, i')
