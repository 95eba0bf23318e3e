-- ===== src/Core/Keys/Scans.antt =====
-- Every scan prefix of the schema, and the keys that it is meant to sweep.
pub mod Exact
use summ.Prelude.{ℕ, ◌≡◌, Bytes}
use summ.Core.Digest.{Digest, IsDigest}
use summ.Core.Timestamp.{Timestamp}
use summ.Core.Keys
use summ.Core.Keys.{RepoId}
use summ.Core.Keys.History
use summ.Core.Keys.Counters
use summ.Core.Keys.Read.{LacksNul}
use summ.Core.Keys.Schema.{
  Key, IsRepo, manifest, manifest_body, tag, manifest_tag, blob, blob_mark, blob_ref, repo_blob,
  child_parent, referrer, upload, tag_history, manifest_tag_history, counter_manifest, counter_tag,
  counter_repo, dead_repo, repo_by_name,
}

pub data Scan : Type 0 where
  manifests_in_repo : RepoId → Scan
  manifest_bodies_in_repo : RepoId → Scan
  tags_in_repo : RepoId → Scan
  tags_of_manifest : RepoId → Digest → Scan
  manifest_tags_in_repo : RepoId → Scan
  blobs : Scan
  blob_marks : Scan
  blob_refs : Digest → Scan
  blob_refs_in_repo : Digest → RepoId → Scan
  blobs_in_repo : RepoId → Scan
  repo_blobs : Scan
  parents_of : RepoId → Digest → Scan
  children_in_repo : RepoId → Scan
  referrers_of : RepoId → Digest → Scan
  referrers_in_repo : RepoId → Scan
  uploads : Scan
  tag_history_of : RepoId → Bytes → Scan
  tag_history_in_repo : RepoId → Scan
  manifest_tag_history_of : RepoId → Digest → Scan
  manifest_tag_history_in_repo : RepoId → Scan
  counters_of_manifest : RepoId → Digest → Scan
  counters_of_tag : RepoId → Bytes → Scan
  counters_of_repo : RepoId → Scan
  dead_repos : Scan
  repos_by_name : Scan

unfoldable pub scan_prefix : Scan → Bytes
scan_prefix (manifests_in_repo r) = Keys.manifests_in_repo r
scan_prefix (manifest_bodies_in_repo r) = Keys.manifest_bodies_in_repo r
scan_prefix (tags_in_repo r) = Keys.tags_in_repo r
scan_prefix (tags_of_manifest r d) = Keys.tags_of_manifest r d
scan_prefix (manifest_tags_in_repo r) = Keys.manifest_tags_in_repo r
scan_prefix blobs = Keys.blobs
scan_prefix blob_marks = Keys.blob_marks
scan_prefix (blob_refs d) = Keys.blob_refs d
scan_prefix (blob_refs_in_repo d r) = Keys.blob_refs_in_repo d r
scan_prefix (blobs_in_repo r) = Keys.blobs_in_repo r
scan_prefix repo_blobs = Keys.repo_blobs
scan_prefix (parents_of r c) = Keys.parents_of r c
scan_prefix (children_in_repo r) = Keys.children_in_repo r
scan_prefix (referrers_of r c) = Keys.referrers_of r c
scan_prefix (referrers_in_repo r) = Keys.referrers_in_repo r
scan_prefix uploads = Keys.uploads
scan_prefix (tag_history_of r t) = History.tag_history_of r t
scan_prefix (tag_history_in_repo r) = History.tag_history_in_repo r
scan_prefix (manifest_tag_history_of r d) = History.manifest_tag_history_of r d
scan_prefix (manifest_tag_history_in_repo r) = History.manifest_tag_history_in_repo r
scan_prefix (counters_of_manifest r d) = Counters.counters_of_manifest r d
scan_prefix (counters_of_tag r t) = Counters.counters_of_tag r t
scan_prefix (counters_of_repo r) = Counters.counters_of_repo r
scan_prefix dead_repos = Keys.dead_repos
scan_prefix repos_by_name = Keys.repos_by_name

-- The ranges of the types, as for keys.
abbrev pub IsScan : Scan → Type 0
IsScan (manifests_in_repo r) = IsRepo r
IsScan (manifest_bodies_in_repo r) = IsRepo r
IsScan (tags_in_repo r) = IsRepo r
IsScan (tags_of_manifest r d) = IsRepo r × IsDigest d
IsScan (manifest_tags_in_repo r) = IsRepo r
IsScan blobs = Unit
IsScan blob_marks = Unit
IsScan (blob_refs d) = IsDigest d
IsScan (blob_refs_in_repo d r) = IsDigest d × IsRepo r
IsScan (blobs_in_repo r) = IsRepo r
IsScan repo_blobs = Unit
IsScan (parents_of r c) = IsRepo r × IsDigest c
IsScan (children_in_repo r) = IsRepo r
IsScan (referrers_of r c) = IsRepo r × IsDigest c
IsScan (referrers_in_repo r) = IsRepo r
IsScan uploads = Unit
IsScan (tag_history_of r t) = IsRepo r × LacksNul t
IsScan (tag_history_in_repo r) = IsRepo r
IsScan (manifest_tag_history_of r d) = IsRepo r × IsDigest d
IsScan (manifest_tag_history_in_repo r) = IsRepo r
IsScan (counters_of_manifest r d) = IsRepo r × IsDigest d
IsScan (counters_of_tag r t) = IsRepo r × LacksNul t
IsScan (counters_of_repo r) = IsRepo r
IsScan dead_repos = Unit
IsScan repos_by_name = Unit

-- What the scan is for: the keys of its range with its components.
abbrev pub Selects : Scan → Key → Type 0
Selects (manifests_in_repo r) k = (d : Digest) × (k ≡ manifest r d)
Selects (manifest_bodies_in_repo r) k = (d : Digest) × (k ≡ manifest_body r d)
Selects (tags_in_repo r) k = (t : Bytes) × (k ≡ tag r t)
Selects (tags_of_manifest r d) k = (t : Bytes) × (k ≡ manifest_tag r d t)
Selects (manifest_tags_in_repo r) k = (d : Digest) × (t : Bytes) × (k ≡ manifest_tag r d t)
Selects blobs k = (d : Digest) × (k ≡ blob d)
Selects blob_marks k = (d : Digest) × (k ≡ blob_mark d)
Selects (blob_refs d) k = (r : RepoId) × (m : Digest) × (k ≡ blob_ref d r m)
Selects (blob_refs_in_repo d r) k = (m : Digest) × (k ≡ blob_ref d r m)
Selects (blobs_in_repo r) k = (d : Digest) × (k ≡ repo_blob r d)
Selects repo_blobs k = (r : RepoId) × (d : Digest) × (k ≡ repo_blob r d)
Selects (parents_of r c) k = (p : Digest) × (k ≡ child_parent r c p)
Selects (children_in_repo r) k = (c : Digest) × (p : Digest) × (k ≡ child_parent r c p)
Selects (referrers_of r c) k = (p : Digest) × (k ≡ referrer r c p)
Selects (referrers_in_repo r) k = (c : Digest) × (p : Digest) × (k ≡ referrer r c p)
Selects uploads k = (id : Bytes) × (k ≡ upload id)
Selects (tag_history_of r t) k = (at : Timestamp) × (d : Digest) × (k ≡ tag_history r t at d)
Selects (tag_history_in_repo r) k =
    (t : Bytes) × (at : Timestamp) × (d : Digest) × (k ≡ tag_history r t at d)
Selects (manifest_tag_history_of r d) k =
    (at : Timestamp) × (t : Bytes) × (k ≡ manifest_tag_history r d at t)
Selects (manifest_tag_history_in_repo r) k =
    (d : Digest) × (at : Timestamp) × (t : Bytes) × (k ≡ manifest_tag_history r d at t)
Selects (counters_of_manifest r d) k =
    (day : ℕ) × (shard : ℕ) × (k ≡ counter_manifest r d day shard)
Selects (counters_of_tag r t) k = (day : ℕ) × (shard : ℕ) × (k ≡ counter_tag r t day shard)
Selects (counters_of_repo r) k = (day : ℕ) × (shard : ℕ) × (k ≡ counter_repo r day shard)
Selects dead_repos k = (r : RepoId) × (k ≡ dead_repo r)
Selects repos_by_name k = (name : Bytes) × (k ≡ repo_by_name name)
