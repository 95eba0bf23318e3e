-- ===== src/Core/Keys/Schema.antt =====
-- The key schema of docs/architecture.md as one data type: a constructor for each row of its table,
-- with the source's function that encodes it.
pub mod Reader
pub mod RoundTrip
use summ.Prelude.{ℕ, ◌^◌, ◌<◌, Bytes}
use summ.Core.Digest.{Digest, IsDigest}
use summ.Core.Timestamp.{Timestamp, IsTimestamp}
use summ.Core.Keys
use summ.Core.Keys.{RepoId}
use summ.Core.Keys.History
use summ.Core.Keys.Counters
use summ.Core.Keys.Read.{LacksNul}

pub data Key : Type 0 where
  manifest manifest_body : RepoId → Digest → Key
  tag : RepoId → Bytes → Key
  manifest_tag : RepoId → Digest → Bytes → Key
  blob blob_mark : Digest → Key
  blob_ref : Digest → RepoId → Digest → Key
  repo_blob : RepoId → Digest → Key
  child_parent referrer : RepoId → Digest → Digest → Key
  upload : Bytes → Key
  tag_history : RepoId → Bytes → Timestamp → Digest → Key
  manifest_tag_history : RepoId → Digest → Timestamp → Bytes → Key
  counter_manifest : RepoId → Digest → ℕ → ℕ → Key
  counter_tag : RepoId → Bytes → ℕ → ℕ → Key
  counter_repo : RepoId → ℕ → ℕ → Key
  dead_repo : RepoId → Key
  repo_by_name : Bytes → Key
  repo_by_id : RepoId → Key
  db_version : Key

unfoldable pub encode_key : Key → Bytes
encode_key (manifest r d) = Keys.manifest r d
encode_key (manifest_body r d) = Keys.manifest_body r d
encode_key (tag r t) = Keys.tag r t
encode_key (manifest_tag r d t) = Keys.manifest_tag r d t
encode_key (blob d) = Keys.blob d
encode_key (blob_mark d) = Keys.blob_mark d
encode_key (blob_ref d r m) = Keys.blob_ref d r m
encode_key (repo_blob r d) = Keys.repo_blob r d
encode_key (child_parent r c p) = Keys.child_parent r c p
encode_key (referrer r s f) = Keys.referrer r s f
encode_key (upload id) = Keys.upload id
encode_key (tag_history r t at d) = History.tag_history r t at d
encode_key (manifest_tag_history r d at t) = History.manifest_tag_history r d at t
encode_key (counter_manifest r d day shard) = Counters.counter_manifest r d day shard
encode_key (counter_tag r t day shard) = Counters.counter_tag r t day shard
encode_key (counter_repo r day shard) = Counters.counter_repo r day shard
encode_key (dead_repo id) = Keys.dead_repo id
encode_key (repo_by_name name) = Keys.repo_by_name name
encode_key (repo_by_id id) = Keys.repo_by_id id
encode_key db_version = Keys.db_version

-- The ranges of the source's types, and no NUL in a tag that is not last in its key.
abbrev pub IsRepo : RepoId → Type 0
IsRepo r = r < 2 ^ 32

abbrev pub IsKey : Key → Type 0
IsKey (manifest r d) = IsRepo r × IsDigest d
IsKey (manifest_body r d) = IsRepo r × IsDigest d
IsKey (tag r t) = IsRepo r
IsKey (manifest_tag r d t) = IsRepo r × IsDigest d
IsKey (blob d) = IsDigest d
IsKey (blob_mark d) = IsDigest d
IsKey (blob_ref d r m) = IsDigest d × IsRepo r × IsDigest m
IsKey (repo_blob r d) = IsRepo r × IsDigest d
IsKey (child_parent r c p) = IsRepo r × IsDigest c × IsDigest p
IsKey (referrer r s f) = IsRepo r × IsDigest s × IsDigest f
IsKey (upload id) = Unit
IsKey (tag_history r t at d) = IsRepo r × LacksNul t × IsTimestamp at × IsDigest d
IsKey (manifest_tag_history r d at t) = IsRepo r × IsDigest d × IsTimestamp at
IsKey (counter_manifest r d day shard) = IsRepo r × IsDigest d × (day < 2 ^ 16) × (shard < 2 ^ 16)
IsKey (counter_tag r t day shard) = IsRepo r × LacksNul t × (day < 2 ^ 16) × (shard < 2 ^ 16)
IsKey (counter_repo r day shard) = IsRepo r × (day < 2 ^ 16) × (shard < 2 ^ 16)
IsKey (dead_repo id) = IsRepo id
IsKey (repo_by_name name) = Unit
IsKey (repo_by_id id) = IsRepo id
IsKey db_version = Unit
