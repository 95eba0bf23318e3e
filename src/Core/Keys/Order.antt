-- ===== src/Core/Keys/Order.antt =====
-- The byte order of keys is the order that the endpoints promise.
use Prim.Native.Nat.{compare}
use Prim.Native.Nat.Ordering.{lt}
use summ.Prelude.{
  ℕ, ◌^◌, ◌-◌, ◌<◌, ◌≤◌, ◌≡◌, ◌≢◌, ◌∙◌, ◌⊎◌, ◌↔◌, ap, sym, [], ◌∷◌, ◌++◌, arith, Bytes,
  append_assoc, append-nil,
}
use summ.Prelude.Lex.{lex, then_by, lex-append, lex-append_same, lex-cons, lex-nil}
use summ.Prelude.BigEndian.{be, length-be, be-ne-nil, lex-be}
use summ.Core.Digest.{Digest, IsDigest, encode}
use summ.Core.Digest.Wire.{cmp, lex-encode_last, lex-nil-encode}
use summ.Core.Timestamp.{Timestamp, IsTimestamp, from_millis}
use summ.Core.Keys.{RepoId, start, start_repo, tag, manifest, repo_by_name, tag_end}
use summ.Core.Keys.History.{
  complement, desc_time, tag_history, tag_history_of, tag_history_before, manifest_tag_history,
  manifest_tag_history_of, manifest_tag_history_before,
}
use summ.Core.Keys.Counters.{bucket, counters_from_day}

lex-start_repo :
    (p : ℕ) (q r : RepoId) (s t : Bytes)
    → q < 2 ^ 32
    → r < 2 ^ 32
    → lex (start_repo p q ++ s) (start_repo p r ++ t) ≡ then_by (compare q r) (lex s t)
unfolding start_repo
lex-start_repo p q r s t hq hr =
    lex-append_same (p ∷ []) (be 4 q ++ s) (be 4 r ++ t)
    ∙ lex-append (be 4 q) (be 4 r) s t (length-be 4 q ∙ sym (length-be 4 r))
    ∙ rw (lex-be 4 q r hq hr)

-- Tag keys are ordered by repository, then by tag name; name keys by name; and manifest keys by
-- repository, then by digest. These are the orders in which the lists page.
pub list_orders :
    (q r : RepoId) (a b : Bytes) (d e : Digest)
    → q < 2 ^ 32
    → r < 2 ^ 32
    → IsDigest d
    → IsDigest e
    → (lex (tag q a) (tag r b) ≡ then_by (compare q r) (lex a b))
      × (lex (repo_by_name a) (repo_by_name b) ≡ lex a b)
      × (lex (manifest q d) (manifest r e) ≡ then_by (compare q r) (cmp d e))
unfolding tag repo_by_name manifest start
list_orders q r a b d e hq hr hd he = (
  lex-start_repo b'T' q r a b hq hr,
  lex-append_same (b'n' ∷ []) a b,
  lex-start_repo b'M' q r (encode d) (encode e) hq hr
      ∙ ap (then_by (compare q r)) (lex-encode_last d e hd he),
)

compare-complement :
    (m n : ℕ) → m < 2 ^ 64 → n < 2 ^ 64 → compare (complement m) (complement n) ≡ compare n m
unfolding complement
compare-complement m n hm hn = ground arith

lex-desc_time :
    (at at' : Timestamp) (s t : Bytes)
    → IsTimestamp at
    → IsTimestamp at'
    → lex (desc_time at ++ s) (desc_time at' ++ t)
      ≡ then_by (compare at'.millis at.millis) (lex s t)
unfolding desc_time
lex-desc_time at at' s t h h' =
    lex-append (be 8 (complement at.millis)) (be 8 (complement at'.millis)) s t
      (length-be 8 (complement at.millis) ∙ sym (length-be 8 (complement at'.millis)))
    ∙ rw
        (lex-be 8 (complement at.millis) (complement at'.millis) (unfold complement in omega arith)
          (unfold complement in omega arith))
        (rw (compare-complement at.millis at'.millis h h'))

-- One tag's history is ordered newest first, and one instant's events by digest; a manifest's history
-- is ordered newest first, and one instant's events by tag.
pub history_newest_first :
    (r : RepoId) (t u : Bytes) (d e : Digest) (at at' : Timestamp)
    → IsTimestamp at
    → IsTimestamp at'
    → IsDigest d
    → IsDigest e
    → (lex (tag_history r t at d) (tag_history r t at' e)
        ≡ then_by (compare at'.millis at.millis) (cmp d e))
      × (lex (manifest_tag_history r d at t) (manifest_tag_history r d at' u)
          ≡ then_by (compare at'.millis at.millis) (lex t u))
unfolding tag_history manifest_tag_history
history_newest_first r t u d e at at' h h' hd he = (
  lex-append_same (start_repo b'H' r) _ _
      ∙ lex-append_same t _ _
      ∙ lex-append_same (tag_end ∷ []) _ _
      ∙ lex-desc_time at at' (encode d) (encode e) h h'
      ∙ ap (then_by (compare at'.millis at.millis)) (lex-encode_last d e hd he),
  lex-append_same (start_repo b'J' r) _ _
      ∙ lex-append_same (encode d) _ _
      ∙ lex-desc_time at at' t u h h',
)

-- Strictly before an instant. Nothing is before the first one, whose own events its cursor leaves in.
abbrev pub Before : Timestamp → Timestamp → Type 0
Before at' at = (at'.millis < at.millis) ⊎ ((at'.millis ≡ 0) × (at.millis ≡ 0))

-- A cursor at `at` compared with the rest of an event's key behind the scan prefix.
lex-cursor :
    (at at' : Timestamp) (s : Bytes)
    → IsTimestamp at
    → IsTimestamp at'
    → lex [] s ≡ lt
    → (lex (desc_time (from_millis (at.millis - 1))) (desc_time at' ++ s) ≡ lt) ↔ Before at' at
lex-cursor at at' s h h' hs = rw (lex-cursor_eq) (ground arith)
  where
    lex-cursor_eq :
        lex (desc_time (from_millis (at.millis - 1))) (desc_time at' ++ s)
        ≡ then_by (compare at'.millis (at.millis - 1)) lt
    lex-cursor_eq =
        ap (λ u. lex u (desc_time at' ++ s))
          (sym (append-nil (desc_time (from_millis (at.millis - 1)))))
        ∙ lex-desc_time (from_millis (at.millis - 1)) at' [] s (unfold from_millis in omega arith)
            h'
        ∙ (unfold from_millis in ap (then_by (compare at'.millis (at.millis - 1))) hs)

-- Resuming a tag's or a manifest's history after the cursor for an instant gives the events strictly
-- before that instant and no others (after the cursor for the first instant, the events at it).
pub history-Before :
    (r : RepoId) (t : Bytes) (d : Digest) (at at' : Timestamp)
    → t ≢ []
    → IsTimestamp at
    → IsTimestamp at'
    → ((lex (tag_history_before r t at) (tag_history r t at' d) ≡ lt) ↔ Before at' at)
      × ((lex (manifest_tag_history_before r d at) (manifest_tag_history r d at' t) ≡ lt)
          ↔ Before at' at)
unfolding tag_history_before tag_history_of tag_history manifest_tag_history_before
    manifest_tag_history_of manifest_tag_history
history-Before r t d at at' ht h h' = (
  rw (append_assoc, append_assoc, lex-append_same, lex-append_same)
      (rw lex-cons (lex-cursor at at' (encode d) h h' (lex-nil-encode d))),
  rw (append_assoc, lex-append_same, lex-append_same) (lex-cursor at at' t h h' (lex-nil t ht)),
)

-- Resuming after the cursor for a day gives that day's buckets and the later ones, and no others.
pub counters_from_day_exact :
    (p : Bytes) (day day' shard : ℕ)
    → day < 2 ^ 16
    → day' < 2 ^ 16
    → (lex (counters_from_day p day) (p ++ bucket day' shard) ≡ lt) ↔ (day ≤ day')
unfolding counters_from_day bucket
counters_from_day_exact p day day' shard h h' = rw (lex-append_same, lex-day) (ground arith)
  where
    lex-day : lex (be 2 day) (be 2 day' ++ be 2 shard) ≡ then_by (compare day day') lt
    lex-day =
        ap (λ u. lex u (be 2 day' ++ be 2 shard)) (sym (append-nil (be 2 day)))
        ∙ lex-append (be 2 day) (be 2 day') [] (be 2 shard)
            (length-be 2 day ∙ sym (length-be 2 day'))
        ∙ rw (lex-be 2 day day' h h', lex-nil (be 2 shard) (be-ne-nil 1 shard))
