-- ===== src/Core/Keys.antt =====
-- summ-core/src/keys.rs: the keys of the store, except for history and counters, which are children.
-- A buffer that the source extends is a concatenation; capacities have no effect and are left out.
pub mod History
pub mod Counters
pub mod Read
pub mod Schema
pub mod Scans
pub mod Order
pub mod Suffixes
use summ.Prelude.{
  ℕ, ◌≡◌, Option, none, some, [], ◌∷◌, ◌++◌, Bytes, ◌==◌, if◌then◌else◌, ◌>>=◌, get_from, length,
  ◌+◌,
}
use summ.Prelude.BigEndian.{be, from_be}
use summ.Core.Digest.{Digest, encode, encoded_len}
use summ.Core.Utf8.{from_utf8}

abbrev pub RepoId : Type 0
RepoId = ℕ

abbrev pub repo_len : ℕ
repo_len = 4

-- The separator behind a tag that is not last in its key.
abbrev pub tag_end : ℕ
tag_end = 0

-- `start`: the type prefix.
unfoldable pub start : ℕ → Bytes
start prefix = prefix ∷ []

unfoldable pub start_repo : ℕ → RepoId → Bytes
unfolding start
start_repo prefix repo = start prefix ++ be 4 repo

-- manifests

unfoldable pub manifest : RepoId → Digest → Bytes
manifest repo digest = start_repo b'M' repo ++ encode digest

unfoldable pub manifest_body : RepoId → Digest → Bytes
manifest_body repo digest = start_repo b'Z' repo ++ encode digest

unfoldable pub manifests_in_repo : RepoId → Bytes
manifests_in_repo repo = start_repo b'M' repo

unfoldable pub manifest_bodies_in_repo : RepoId → Bytes
manifest_bodies_in_repo repo = start_repo b'Z' repo

-- tags

unfoldable pub tag : RepoId → Bytes → Bytes
tag repo name = start_repo b'T' repo ++ name

unfoldable pub tags_in_repo : RepoId → Bytes
tags_in_repo repo = start_repo b'T' repo

unfoldable pub manifest_tag : RepoId → Digest → Bytes → Bytes
manifest_tag repo digest name = start_repo b'G' repo ++ (encode digest ++ name)

unfoldable pub tags_of_manifest : RepoId → Digest → Bytes
tags_of_manifest repo digest = start_repo b'G' repo ++ encode digest

unfoldable pub manifest_tags_in_repo : RepoId → Bytes
manifest_tags_in_repo repo = start_repo b'G' repo

unfoldable pub parse_manifest_tag_suffix : Bytes → Digest → Option Bytes
parse_manifest_tag_suffix key digest = do
  rest ← get_from key (1 + repo_len + encoded_len digest)
  from_utf8 rest

-- `key.first() != Some(&prefix)` gives none
abbrev pub with_prefix : ℕ → Bytes → Option Bytes → Option Bytes
with_prefix prefix [] found = none
with_prefix prefix (b ∷ key) found = if b == prefix then found else none

unfoldable pub parse_tag_suffix : Bytes → Option Bytes
parse_tag_suffix key = with_prefix b'T' key (do rest ← get_from key (1 + repo_len); from_utf8 rest)

-- blobs

unfoldable pub blob : Digest → Bytes
blob digest = start b'B' ++ encode digest

unfoldable pub blobs : Bytes
blobs = b'B' ∷ []

unfoldable pub blob_mark : Digest → Bytes
blob_mark digest = start b'C' ++ encode digest

unfoldable pub blob_marks : Bytes
blob_marks = b'C' ∷ []

unfoldable pub blob_ref : Digest → RepoId → Digest → Bytes
blob_ref digest repo m = start b'R' ++ (encode digest ++ (be 4 repo ++ encode m))

unfoldable pub blob_refs : Digest → Bytes
blob_refs digest = start b'R' ++ encode digest

unfoldable pub blob_refs_in_repo : Digest → RepoId → Bytes
blob_refs_in_repo digest repo = blob_refs digest ++ be 4 repo

unfoldable pub repo_blob : RepoId → Digest → Bytes
repo_blob repo digest = start_repo b'P' repo ++ encode digest

unfoldable pub blobs_in_repo : RepoId → Bytes
blobs_in_repo repo = start_repo b'P' repo

unfoldable pub repo_blobs : Bytes
repo_blobs = b'P' ∷ []

-- the manifest graph

unfoldable pub child_parent : RepoId → Digest → Digest → Bytes
child_parent repo child parent = start_repo b'S' repo ++ (encode child ++ encode parent)

unfoldable pub parents_of : RepoId → Digest → Bytes
parents_of repo child = start_repo b'S' repo ++ encode child

unfoldable pub children_in_repo : RepoId → Bytes
children_in_repo repo = start_repo b'S' repo

unfoldable pub referrer : RepoId → Digest → Digest → Bytes
referrer repo subject from = start_repo b'F' repo ++ (encode subject ++ encode from)

unfoldable pub referrers_of : RepoId → Digest → Bytes
referrers_of repo subject = start_repo b'F' repo ++ encode subject

unfoldable pub referrers_in_repo : RepoId → Bytes
referrers_in_repo repo = start_repo b'F' repo

-- uploads

unfoldable pub upload : Bytes → Bytes
upload id = start b'U' ++ id

unfoldable pub uploads : Bytes
uploads = b'U' ∷ []

-- dead repositories

unfoldable pub dead_repo : RepoId → Bytes
dead_repo id = start b'D' ++ be 4 id

unfoldable pub dead_repos : Bytes
dead_repos = b'D' ∷ []

-- `RepoId::from_be_bytes(value.try_into().ok()?)`: exactly four bytes
unfoldable pub parse_repo_id : Bytes → Option RepoId
parse_repo_id value = if length value == repo_len then some (from_be value) else none

unfoldable pub parse_dead_repo_id : Bytes → Option RepoId
unfolding parse_repo_id
parse_dead_repo_id [] = none
parse_dead_repo_id (b ∷ rest) = if b == b'D' then parse_repo_id rest else none

-- the repository interner

unfoldable pub repo_by_name : Bytes → Bytes
repo_by_name name = start b'n' ++ name

unfoldable pub repos_by_name : Bytes
repos_by_name = b'n' ∷ []

unfoldable pub repo_by_id : RepoId → Bytes
repo_by_id id = start b'i' ++ be 4 id

unfoldable pub parse_repo_name : Bytes → Option Bytes
parse_repo_name [] = none
parse_repo_name (b ∷ rest) = if b == b'n' then from_utf8 rest else none

-- store metadata

unfoldable pub db_version : Bytes
db_version = b'v' ∷ []
