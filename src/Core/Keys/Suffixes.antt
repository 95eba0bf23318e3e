-- ===== src/Core/Keys/Suffixes.antt =====
-- The decoders of keys.rs give back what the encoders wrote.
use summ.Prelude.{
  ℕ, suc, ◌+◌, ◌^◌, ◌<◌, ◌≡◌, ◌∙◌, ap, some, Option, [], ◌∷◌, ◌++◌, arith, Bytes, length,
  length-append, append_assoc, get_from-append, get_to-append, strip_prefix-append,
  strip_prefix-append2, strip_prefix-append3,
}
use summ.Prelude.BigEndian.{be, from_be, length-be, from_be-be}
use summ.Core.Utf8.{IsStr, from_utf8-IsStr}
use summ.Core.Digest.{Digest, IsDigest, encode, encoded_len}
use summ.Core.Digest.Wire.{decode-encode_last, length-encode}
use summ.Core.Timestamp.{Timestamp, IsTimestamp}
use summ.Core.Keys.{
  RepoId, start, start_repo, tag, manifest_tag, parse_tag_suffix, parse_manifest_tag_suffix,
  dead_repo, parse_dead_repo_id, parse_repo_id, repo_by_name, parse_repo_name, with_prefix, tag_end,
}
use summ.Core.Keys.History.{
  desc_time, complement, read_desc_time, tag_history, tag_history_of, tag_history_suffix,
  manifest_tag_history, manifest_tag_history_of, manifest_tag_history_suffix,
}
use summ.Core.Keys.Counters.{
  bucket, bucket_of, counter_suffix, counter_manifest, counters_of_manifest, counter_tag,
  counters_of_tag, counter_repo, counters_of_repo, start_counter,
}
use summ.Core.Keys.Read.{complement_twice}

pub length-start_repo : (p : ℕ) (r : RepoId) → length (start_repo p r) ≡ 5
unfolding start_repo
length-start_repo p r = ap suc (length-be 4 r)

with_prefix-start_repo :
    (p : ℕ) (r : RepoId) (s : Bytes) (o : Option Bytes) → with_prefix p (start_repo p r ++ s) o ≡ o
unfolding start_repo
with_prefix-start_repo p r s o = ground arith

-- The tag of a `T` key and the tag of a `G` key.
pub tag_suffixes :
    (r : RepoId) (d : Digest) (t : Bytes)
    → IsStr t
    → (parse_tag_suffix (tag r t) ≡ some t)
      × (parse_manifest_tag_suffix (manifest_tag r d t) d ≡ some t)
unfolding parse_tag_suffix tag parse_manifest_tag_suffix manifest_tag
tag_suffixes r d t ht = (
  with_prefix-start_repo b'T' r t _
      ∙ rw (get_from-append (start_repo b'T' r) t 5 (length-start_repo b'T' r))
          (from_utf8-IsStr t ht),
  rw (← append_assoc (start_repo b'G' r) (encode d) t) (
      rw (get_from-append (start_repo b'G' r ++ encode d) t (5 + encoded_len d) long)
        (from_utf8-IsStr t ht)),
)
  where
    long : length (start_repo b'G' r ++ encode d) ≡ 5 + encoded_len d
    long = omega (
      arith,
      length-append (start_repo b'G' r) (encode d),
      length-start_repo b'G' r,
      length-encode d,
    )

read_desc_time-desc_time :
    (at : Timestamp) (s : Bytes) → IsTimestamp at → read_desc_time (desc_time at ++ s) ≡ some at
unfolding read_desc_time desc_time
read_desc_time-desc_time at s h =
    rw (get_to-append (be 8 (complement at.millis)) s 8 (length-be 8 (complement at.millis))) (
      rw (
        from_be-be 8 (complement at.millis) (unfold complement in omega arith),
        complement_twice at h,
      ))

length-desc_time : (at : Timestamp) → length (desc_time at) ≡ 8
unfolding desc_time
length-desc_time at = length-be 8 (complement at.millis)

-- The instant and the digest of an `H` key, the instant and the tag of a `J` key, read behind the
-- prefix of the scan that found the key.
pub history_suffixes :
    (r : RepoId) (d : Digest) (t : Bytes) (at : Timestamp)
    → IsDigest d
    → IsTimestamp at
    → IsStr t
    → (tag_history_suffix (tag_history r t at d) (tag_history_of r t) ≡ some (at, d))
      × (manifest_tag_history_suffix (manifest_tag_history r d at t) (manifest_tag_history_of r d)
          ≡ some (at, t))
unfolding tag_history_suffix tag_history tag_history_of manifest_tag_history_suffix
    manifest_tag_history manifest_tag_history_of
history_suffixes r d t at hd h ht = (
  rw (strip_prefix-append3 (start_repo b'H' r) t (tag_end ∷ []) (desc_time at ++ encode d)) (
      rw (read_desc_time-desc_time at (encode d) h) (
        rw (get_from-append (desc_time at) (encode d) 8 (length-desc_time at))
          (rw (decode-encode_last d hd)))),
  rw (strip_prefix-append2 (start_repo b'J' r) (encode d) (desc_time at ++ t)) (
      rw (read_desc_time-desc_time at t h) (
        rw (get_from-append (desc_time at) t 8 (length-desc_time at)) (rw (from_utf8-IsStr t ht)))),
)

bucket_of-bucket :
    (day shard : ℕ)
    → day < 2 ^ 16
    → shard < 2 ^ 16
    → bucket_of (bucket day shard) ≡ some (day, shard)
unfolding bucket_of bucket be from_be
bucket_of-bucket day shard h h' = ground arith

-- The day and the shard of a counter key, behind the prefix of its scan, in each of the three scopes.
pub counter_suffixes :
    (r : RepoId) (d : Digest) (t : Bytes) (day shard : ℕ)
    → day < 2 ^ 16
    → shard < 2 ^ 16
    → (counter_suffix (counter_manifest r d day shard) (counters_of_manifest r d)
        ≡ some (day, shard))
      × (counter_suffix (counter_tag r t day shard) (counters_of_tag r t) ≡ some (day, shard))
      × (counter_suffix (counter_repo r day shard) (counters_of_repo r) ≡ some (day, shard))
unfolding counter_suffix counter_manifest counters_of_manifest counter_tag counters_of_tag
    counter_repo counters_of_repo
counter_suffixes r d t day shard h h' = (
  rw (strip_prefix-append2 (start_counter b'm' r) (encode d) (bucket day shard), counter_suffix)
      (bucket_of-bucket day shard h h'),
  rw
      (
        strip_prefix-append3 (start_counter b't' r) t (tag_end ∷ []) (bucket day shard),
        counter_suffix,
      )
      (bucket_of-bucket day shard h h'),
  rw (strip_prefix-append (start_counter b'r' r) (bucket day shard), counter_suffix)
      (bucket_of-bucket day shard h h'),
)

-- The keys of the interner and of the sweeper's worklist give back the name and the id.
pub repo_suffixes :
    (r : RepoId) (name : Bytes)
    → r < 2 ^ 32
    → IsStr name
    → (parse_repo_id (be 4 r) ≡ some r)
      × (parse_dead_repo_id (dead_repo r) ≡ some r)
      × (parse_repo_name (repo_by_name name) ≡ some name)
unfolding parse_repo_id parse_dead_repo_id dead_repo parse_repo_name repo_by_name start
repo_suffixes r name h hn = (
  ground (arith, length-be 4 r, from_be-be 4 r h),
  ground (arith, length-be 4 r, from_be-be 4 r h),
  from_utf8-IsStr name hn,
)
