-- ===== src/Core/Keys/History.antt =====
-- summ-core/src/keys.rs, tag history: the `H` and `J` ranges, newest first.
use summ.Prelude.{ℕ, ◌-◌, Option, some, [], ◌∷◌, ◌++◌, Bytes, ◌>>=◌, get_from, get_to, strip_prefix}
use summ.Prelude.BigEndian.{be, from_be}
use summ.Core.Digest.{Digest, encode, decode}
use summ.Core.Utf8.{from_utf8}
use summ.Core.Timestamp.{Timestamp, from_millis, max_u64}
use summ.Core.Keys.{RepoId, tag_end, start_repo}

-- `!n` of a `u64`
unfoldable pub complement : ℕ → ℕ
complement n = max_u64 - n

-- What `push_desc_time` appends.
unfoldable pub desc_time : Timestamp → Bytes
unfolding complement
desc_time at = be 8 (complement at.millis)

unfoldable pub read_desc_time : Bytes → Option Timestamp
unfolding complement
read_desc_time bytes = do raw ← get_to bytes 8; some (from_millis (complement (from_be raw)))

unfoldable pub tag_history_of : RepoId → Bytes → Bytes
tag_history_of repo tag = start_repo b'H' repo ++ (tag ++ tag_end ∷ [])

unfoldable pub tag_history : RepoId → Bytes → Timestamp → Digest → Bytes
tag_history repo tag at digest =
    start_repo b'H' repo ++ (tag ++ (tag_end ∷ (desc_time at ++ encode digest)))

unfoldable pub tag_history_in_repo : RepoId → Bytes
tag_history_in_repo repo = start_repo b'H' repo

-- `at.millis().saturating_sub(1)`
unfoldable pub tag_history_before : RepoId → Bytes → Timestamp → Bytes
tag_history_before repo tag at = tag_history_of repo tag ++ desc_time (from_millis (at.millis - 1))

unfoldable pub tag_history_suffix : Bytes → Bytes → Option (Timestamp × Digest)
tag_history_suffix key scan_prefix = do
  rest ← strip_prefix key scan_prefix
  at ← read_desc_time rest
  tail ← get_from rest 8
  found ← decode tail
  some (at, found.0)

unfoldable pub manifest_tag_history_suffix : Bytes → Bytes → Option (Timestamp × Bytes)
manifest_tag_history_suffix key scan_prefix = do
  rest ← strip_prefix key scan_prefix
  at ← read_desc_time rest
  tail ← get_from rest 8
  tag ← from_utf8 tail
  some (at, tag)

unfoldable pub manifest_tag_history_of : RepoId → Digest → Bytes
manifest_tag_history_of repo digest = start_repo b'J' repo ++ encode digest

unfoldable pub manifest_tag_history : RepoId → Digest → Timestamp → Bytes → Bytes
manifest_tag_history repo digest at tag =
    start_repo b'J' repo ++ (encode digest ++ (desc_time at ++ tag))

unfoldable pub manifest_tag_history_in_repo : RepoId → Bytes
manifest_tag_history_in_repo repo = start_repo b'J' repo

unfoldable pub manifest_tag_history_before : RepoId → Digest → Timestamp → Bytes
manifest_tag_history_before repo digest at =
    manifest_tag_history_of repo digest ++ desc_time (from_millis (at.millis - 1))
