-- ===== src/Registry/History/Rows.antt =====
-- The entries of a tag's history, and the events that a page reads of them.
use summ.Prelude.{
  ℕ, zero, suc, ◌≡◌, refl, ap, sym, ◌∙◌, subst, Option, some, true, List, [], ◌∷◌, ◌++◌,
  append_assoc, Bytes, length, take, drop, last?, starts_with,
}
use summ.Core.Digest.{Digest, IsDigest, display, encode}
use summ.Core.Digest.Text.{from_str-display}
use summ.Core.Utf8.{IsStr}
use summ.Core.Timestamp.{Timestamp, IsTimestamp}
use summ.Core.Keys.{RepoId, start_repo, tag_end}
use summ.Core.Keys.History
use summ.Core.Keys.History.{tag_history_suffix, desc_time}
use summ.Core.Keys.Scans.Exact.{starts_with-append}
use summ.Core.Keys.Suffixes.{history_suffixes}
use summ.Meta.Redb.{Entries}
use summ.Registry.Outcome.{done}
use summ.Registry.Records.{Records}
use summ.Registry.History.{TagEventEntry, tag_cursor, parse_digest, tag_events}

module _ (R : Records) (id : RepoId) (tag : Bytes) where
  abbrev pub key_of : TagEventEntry → Bytes
  key_of e = History.tag_history id tag e.at e.digest

  -- The store's entries of a tag's history are those of a list of events, in order.
  abbrev pub AreRows : Entries → List TagEventEntry → Type 0
  AreRows [] [] = Unit
  AreRows [] (e ∷ events) = ⊥
  AreRows (x ∷ rows) [] = ⊥
  AreRows ((key, value) ∷ rows) (e ∷ events) =
      ((key ≡ History.tag_history id tag e.at e.digest)
        × (R.decode_event value ≡ some e.event)
        × (e.tag ≡ tag)
        × IsDigest e.digest
        × IsTimestamp e.at)
      × AreRows rows events

  pub rows_length :
      (rows : Entries) (events : List TagEventEntry)
      → AreRows rows events
      → length rows ≡ length events
  rows_length [] [] h = refl
  rows_length [] (e ∷ events) h = absurd h
  rows_length (x ∷ rows) [] h = absurd h
  rows_length (x ∷ rows) (e ∷ events) h = ap suc (rows_length rows events h.1)

  pub AreRows-take :
      (n : ℕ) (rows : Entries) (events : List TagEventEntry)
      → AreRows rows events
      → AreRows (take n rows) (take n events)
  unfolding take
  AreRows-take zero rows events h = tt
  AreRows-take (suc n) [] [] h = tt
  AreRows-take (suc n) [] (e ∷ events) h = absurd h
  AreRows-take (suc n) (x ∷ rows) [] h = absurd h
  AreRows-take (suc n) (x ∷ rows) (e ∷ events) h = (h.0, AreRows-take n rows events h.1)

  pub AreRows-drop :
      (n : ℕ) (rows : Entries) (events : List TagEventEntry)
      → AreRows rows events
      → AreRows (drop n rows) (drop n events)
  unfolding drop
  AreRows-drop zero rows events h = h
  AreRows-drop (suc n) [] [] h = tt
  AreRows-drop (suc n) [] (e ∷ events) h = absurd h
  AreRows-drop (suc n) (x ∷ rows) [] h = absurd h
  AreRows-drop (suc n) (x ∷ rows) (e ∷ events) h = AreRows-drop n rows events h.1

  -- The last row is the last event's.
  pub last_row :
      (rows : Entries) (events : List TagEventEntry) (e : TagEventEntry)
      → AreRows rows events
      → last? events ≡ some e
      → IsDigest e.digest × ((value : Bytes) × (last? rows ≡ some (key_of e, value)))
  last_row [] [] e h q = absurd (cc q)
  last_row [] (f ∷ events) e h q = absurd h
  last_row (x ∷ rows) [] e h q = absurd h
  last_row ((key, value) ∷ []) (f ∷ []) e h q =
      subst
        (λ x.
          IsDigest x.digest
          × ((v : Bytes) × (◌≡◌ {A = Option (Bytes × Bytes)} (some (key, value))
                (some (key_of x, v)))))
        (some_same q) ((h.0).3, (value, ap (λ k. some (k, value)) (h.0).0))
    where
      some_same : ◌≡◌ {A = Option TagEventEntry} (some f) (some e) → f ≡ e
      some_same p = cc p
  last_row (x ∷ []) (f ∷ g ∷ events) e h q = absurd h.1
  last_row (x ∷ y ∷ rows) (f ∷ []) e h q = absurd h.1
  last_row (x ∷ y ∷ rows) (f ∷ g ∷ events) e h q = last_row (y ∷ rows) (g ∷ events) e h.1 q

  pub tag_events-rows :
      (rows : Entries) (events : List TagEventEntry)
      → IsStr tag
      → AreRows rows events
      → tag_events R (History.tag_history_of id tag) tag rows ≡ done events
  unfolding tag_events
  tag_events-rows [] [] t h = refl
  tag_events-rows [] (e ∷ events) t h = absurd h
  tag_events-rows (x ∷ rows) [] t h = absurd h
  tag_events-rows ((key, value) ∷ rows) (e ∷ events) t h =
      rw
        (
          ap (λ k. tag_history_suffix k (History.tag_history_of id tag)) (h.0).0
              ∙ (history_suffixes id e.digest tag e.at (h.0).3 (h.0).4 t).0,
          (h.0).1,
          tag_events-rows rows events t h.1,
        )
        (ap (λ x. done (record { at = e.at; tag = x; digest = e.digest; event = e.event } ∷ events))
          (sym (h.0).2))

  pub starts_with-tag_history :
      (at : Timestamp) (d : Digest)
      → starts_with (History.tag_history id tag at d) (History.tag_history_of id tag) ≡ true
  unfolding History.tag_history History.tag_history_of
  starts_with-tag_history at d =
      ap (λ k. starts_with k (start_repo b'H' id ++ (tag ++ tag_end ∷ [])))
        (ap (λ x. start_repo b'H' id ++ x)
            (sym (append_assoc tag (tag_end ∷ []) (desc_time at ++ encode d)))
          ∙ sym
              (append_assoc (start_repo b'H' id) (tag ++ tag_end ∷ []) (desc_time at ++ encode d)))
      ∙ starts_with-append (start_repo b'H' id ++ (tag ++ tag_end ∷ [])) (desc_time at ++ encode d)

  pub tag_cursor-display :
      (e : TagEventEntry)
      → IsDigest e.digest
      → tag_cursor id tag (some e.at) (some (display e.digest)) ≡ done (some (key_of e))
  unfolding tag_cursor parse_digest
  tag_cursor-display e h = rw (from_str-display e.digest h) refl
