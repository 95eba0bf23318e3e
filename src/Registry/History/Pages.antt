-- ===== src/Registry/History/Pages.antt =====
-- The pages of a tag's history, and where each cursor resumes.
use summ.Prelude.{
  ℕ, suc, ◌≡◌, refl, ap, ◌∙◌, subst, Option, none, some, true, List, Bytes, length, take, drop,
  last?, last?-take, ltb, map_option, Bool-cases, inl, inr, if◌then◌else◌, arith, ok,
}
use summ.Core.Digest.{display}
use summ.Core.Utf8.{IsStr}
use summ.Core.Timestamp.{Timestamp}
use summ.Core.Keys.{RepoId}
use summ.Core.Keys.History
use summ.Core.Keys.History.{tag_history_suffix, desc_time}
use summ.Meta.Engine.{MetaEngine, Page}
use summ.Meta.Redb.{Entries}
use summ.Meta.Redb.Paging.{requested, under, page_of, requested-last}
use summ.Meta.Scans.{Scans}
use summ.Meta.Interner.{LruCache, RepoInterner, lookup}
use summ.Registry.Outcome.{Outcome, done, ◌>>=◌}
use summ.Registry.Records.{Records}
use summ.Registry.History.{
  TagEventEntry, HistoryCursor, TagHistory, next_cursor, tag_cursor, has_more, tag_events,
  history_in, tag_history,
}
use summ.Registry.History.Rows.{
  key_of, AreRows, rows_length, AreRows-take, AreRows-drop, last_row, tag_events-rows,
  starts_with-tag_history, tag_cursor-display,
}

module _ (R : Records) (id : RepoId) (tag : Bytes) where
  -- The cursor behind an event, and the page that holds the first of some events.
  abbrev pub cursor_behind : TagEventEntry → HistoryCursor
  cursor_behind e = record { before = e.at; last = display e.digest }

  abbrev pub page_of_events : ℕ → List TagEventEntry → TagHistory
  page_of_events limit events = record {
    events = take limit events;
    next =
        if ltb limit (length events)
        then map_option cursor_behind (last? (take limit events))
        else none;
  }

  -- The start, or the place behind the first events, of which one is the last.
  abbrev pub Place : Type 0
  Place = Option (ℕ × TagEventEntry)

  abbrev pub IsPlace : List TagEventEntry → Place → Type 0
  IsPlace events none = Unit
  IsPlace events (some (n, e)) = last? (take (suc n) events) ≡ some e

  abbrev pub rest_behind : Place → List TagEventEntry → List TagEventEntry
  rest_behind none events = events
  rest_behind (some (n, e)) events = drop (suc n) events

  abbrev pub before_of : Place → Option Timestamp
  before_of none = none
  before_of (some (n, e)) = some (cursor_behind e).before

  abbrev pub last_of : Place → Option Bytes
  last_of none = none
  last_of (some (n, e)) = some (cursor_behind e).last

  more_rows :
      (m : ℕ) (rows : Entries)
      → ltb (suc m) (length rows) ≡ true
      → has_more (map_option (λ (e : Bytes × Bytes). e.0) (last? (take (suc m) rows))) ≡ true
  more_rows m rows h = let (a, e) = last?-take m rows (ground (arith, h)) in rw e refl

  next_cursor-page :
      (m : ℕ) (rows : Entries) (events : List TagEventEntry)
      → AreRows R id tag rows events
      → next_cursor
          (take (suc m) events)
          (has_more (page_of (suc m) rows).next)
          (λ (e : TagEventEntry). display e.digest)
        ≡ (page_of_events (suc m) events).next
  unfolding next_cursor
  next_cursor-page m rows events h =
      subst
        (λ n.
          next_cursor (take (suc m) events) (has_more (page_of (suc m) rows).next)
            (λ (e : TagEventEntry). display e.digest)
          ≡ (if ltb (suc m) n
              then map_option cursor_behind (last? (take (suc m) events))
              else none))
        (rows_length R id tag rows events h)
        (elim (Bool-cases (ltb (suc m) (length rows))) [
          | inl e ↦ rw (e, more_rows m rows e) refl
          | inr e ↦ rw e refl
        ])

  listed_page :
      (m : ℕ) (rows : Entries) (events : List TagEventEntry)
      → IsStr tag
      → AreRows R id tag rows events
      → (tag_events R (History.tag_history_of id tag) tag (page_of (suc m) rows).entries
          >>= (λ listed. done (record {
            events = listed;
            next =
                next_cursor listed
                  (has_more (page_of (suc m) rows).next)
                  (λ (e : TagEventEntry). display e.digest);
          })))
        ≡ done (page_of_events (suc m) events)
  listed_page m rows events t h =
      ap
        (λ (o : Outcome (List TagEventEntry)). o >>= (λ listed. done (record {
          events = listed;
          next =
              next_cursor listed (has_more (page_of (suc m) rows).next)
                (λ (e : TagEventEntry). display e.digest);
        })))
        (tag_events-rows R id tag (take (suc m) rows) (take (suc m) events) t
          (AreRows-take R id tag (suc m) rows events h))
      ∙ ap (λ n. done (record { events = take (suc m) events; next = n }))
          (next_cursor-page m rows events h)

  module _ (E : MetaEngine) (S : Scans E) (N : LruCache Bytes RepoId) (I : LruCache RepoId Bytes)
      (s : E.State) where
    abbrev prefix : Bytes
    prefix = History.tag_history_of id tag

    -- A page of the listing behind a cursor, and the listing of the call.
    abbrev listed_of : Page → Outcome TagHistory
    listed_of page = tag_events R prefix tag page.entries >>= (λ listed. done (record {
      events = listed;
      next = next_cursor listed (has_more page.next) (λ (e : TagEventEntry). display e.digest);
    }))

    -- A cursor's page is what stands behind its place.
    listed_behind :
        (m : ℕ) (events : List TagEventEntry) (place : Place)
        → IsStr tag
        → AreRows R id tag (under prefix (S.entries s)) events
        → IsPlace events place
        → (tag_cursor id tag (before_of place) (last_of place)
            >>= (λ cursor. listed_of (E.scan s prefix cursor (suc m))))
          ≡ done (page_of_events (suc m) (rest_behind place events))
    unfolding tag_cursor
    listed_behind m events none t h p =
        let all_rows : requested prefix none (S.entries s) ≡ under prefix (S.entries s) =
          unfold requested in refl in
        ap listed_of
          (S.scan-page_of s prefix none (suc m) tt (omega arith) ∙ ap (page_of (suc m)) all_rows)
        ∙ listed_page m (under prefix (S.entries s)) events t h
    listed_behind m events (some (n, e)) t h p =
        let rows = under prefix (S.entries s) in
        let (hd, (value, last)) =
          last_row R id tag (take (suc n) rows) (take (suc n) events) e
            (AreRows-take R id tag (suc n) rows events h) p in
        let all_rows : requested prefix none (S.entries s) ≡ rows = unfold requested in refl in
        let behind : requested prefix (some (key_of R id tag e)) (S.entries s) ≡ drop (suc n) rows =
          requested-last prefix none (S.entries s) n (key_of R id tag e) value (S.entries_sorted s)
            (ap (λ x. last? (take (suc n) x)) all_rows ∙ last)
          ∙ ap (drop (suc n)) all_rows in
        ap
          (λ (o : Outcome (Option Bytes)).
            o >>= (λ cursor. listed_of (E.scan s prefix cursor (suc m))))
          (tag_cursor-display R id tag e hd)
        ∙ ap listed_of (
            S.scan-page_of s prefix (some (key_of R id tag e)) (suc m)
              (starts_with-tag_history R id tag e.at e.digest) (omega arith)
            ∙ ap (page_of (suc m)) behind)
        ∙ listed_page m (drop (suc n) rows) (drop (suc n) events) t
            (AreRows-drop R id tag (suc n) rows events h)

    -- A store whose entries of a tag's history are those of a list of events, in key order, answers a call
    -- for the known repository and a limit of at least one with the first of them up to the limit, and a
    -- cursor behind the last one given exactly if there are more. A call that is given the cursor behind any
    -- of the events answers in the same way with those that stand behind that event.
    pub tag_history-page_of_events :
        (i : RepoInterner E N I) (repo : Bytes) (m : ℕ) (events : List TagEventEntry)
        (place : Place)
        → (lookup E N I s i repo).0 ≡ ok (some id)
        → IsStr tag
        → AreRows R id tag (under (History.tag_history_of id tag) (S.entries s)) events
        → IsPlace events place
        → (tag_history R E N I s i repo tag (before_of place) (last_of place) (suc m)).0
          ≡ done (page_of_events (suc m) (rest_behind place events))
    unfolding tag_history
    tag_history-page_of_events i repo m events place found t h p =
        ap
          (history_in R E N I (λ r.
            tag_cursor r tag (before_of place) (last_of place) >>= (λ cursor.
              let page = E.scan s (History.tag_history_of r tag) cursor (suc m) in
              tag_events R (History.tag_history_of r tag) tag page.entries >>= (λ listed.
                done (record {
                  events = listed;
                  next =
                      next_cursor listed (has_more page.next)
                        (λ (e : TagEventEntry). display e.digest);
                })))))
          found
        ∙ listed_behind m events place t h p
