-- ===== src/Core/Keys/Counters.antt =====
-- summ-core/src/keys.rs, pull counters: the `A` range and the time coordinate of its buckets.
use summ.Prelude.{
  ℕ, ◌+◌, ◌*◌, ◌/◌, ◌%◌, ◌^◌, ◌<◌, ◌≡◌, arith, Option, none, some, [], ◌∷◌, ◌++◌, Bytes,
  strip_prefix,
}
use summ.Prelude.BigEndian.{be, from_be}
use summ.Core.Digest.{Digest, encode}
use summ.Core.Keys.{RepoId, tag_end, start}

abbrev pub scope_manifest : ℕ
scope_manifest = b'm'

abbrev pub scope_tag : ℕ
scope_tag = b't'

abbrev pub scope_repo : ℕ
scope_repo = b'r'

-- The cast to `u16` wraps.
unfoldable pub day_bucket : ℕ → ℕ
day_bucket unix_seconds = (unix_seconds / 86400) % 2 ^ 16

unfoldable pub hour_of_day : ℕ → ℕ
hour_of_day unix_seconds = unix_seconds % 86400 / 3600

unfoldable pub weekday : ℕ → ℕ
weekday day = (day + 4) % 7

-- What `push_bucket` appends.
unfoldable pub bucket : ℕ → ℕ → Bytes
bucket day shard = be 2 day ++ be 2 shard

unfoldable pub start_counter : ℕ → RepoId → Bytes
unfolding start
start_counter scope repo = start b'A' ++ (scope ∷ be 4 repo)

unfoldable pub counter_manifest : RepoId → Digest → ℕ → ℕ → Bytes
counter_manifest repo digest day shard =
    start_counter scope_manifest repo ++ (encode digest ++ bucket day shard)

unfoldable pub counters_of_manifest : RepoId → Digest → Bytes
counters_of_manifest repo digest = start_counter scope_manifest repo ++ encode digest

unfoldable pub counter_tag : RepoId → Bytes → ℕ → ℕ → Bytes
counter_tag repo tag day shard =
    start_counter scope_tag repo ++ (tag ++ (tag_end ∷ bucket day shard))

unfoldable pub counters_of_tag : RepoId → Bytes → Bytes
counters_of_tag repo tag = start_counter scope_tag repo ++ (tag ++ tag_end ∷ [])

unfoldable pub counter_repo : RepoId → ℕ → ℕ → Bytes
counter_repo repo day shard = start_counter scope_repo repo ++ bucket day shard

unfoldable pub counters_of_repo : RepoId → Bytes
counters_of_repo repo = start_counter scope_repo repo

unfoldable pub counters_in_repo_scope : ℕ → RepoId → Bytes
counters_in_repo_scope scope repo = start_counter scope repo

unfoldable pub counters_from_day : Bytes → ℕ → Bytes
counters_from_day scan_prefix day = scan_prefix ++ be 2 day

-- The two halves of a suffix of exactly four bytes.
unfoldable pub bucket_of : Bytes → Option (ℕ × ℕ)
bucket_of (a ∷ b ∷ c ∷ d ∷ []) = some (from_be (a ∷ b ∷ []), from_be (c ∷ d ∷ []))
bucket_of _ = none

unfoldable pub counter_suffix : Bytes → Bytes → Option (ℕ × ℕ)
unfolding bucket_of
counter_suffix key scan_prefix = elim (strip_prefix key scan_prefix) [
  | none ↦ none
  | some rest ↦ bucket_of rest
]

-- Up to the last day before the day wraps at 65536: day and hour are the whole time coordinate (with
-- the second within the hour they give the instant back), the hour is below 24, and the weekday of
-- the day after is the next one.
pub day_hour_exact :
    (t : ℕ)
    → t / 86400 + 1 < 2 ^ 16
    → (t ≡ day_bucket t * 86400 + hour_of_day t * 3600 + t % 3600)
      × (hour_of_day t < 24)
      × (weekday (day_bucket t + 1) ≡ (weekday (day_bucket t) + 1) % 7)
unfolding day_bucket hour_of_day weekday
day_hour_exact t h = (omega arith, omega arith, omega arith)
