-- ===== src/Core/Keys/Schema/Reader.antt =====
-- A reader of keys, one component after another, that is independent of the functions that build them.
use summ.Prelude.{ℕ, ◌^◌, ◌<◌, ◌≡◌, Option, none, some, [], ◌∷◌, ◌++◌, Bytes, ◌==◌, if◌then◌else◌}
use summ.Prelude.BigEndian.{be}
use summ.Core.Digest.{Digest, IsDigest, encode}
use summ.Core.Timestamp.{Timestamp, IsTimestamp}
use summ.Core.Keys.{RepoId}
use summ.Core.Keys.History.{desc_time}
use summ.Core.Keys.Read.{
  read_be, read_digest, read_tag, read_time, at_end, at_end_inv, read_then, read_then_inv, LacksNul,
  read_be-be, read_be-be_last, read_digest-encode, read_digest-encode_last, read_tag-append,
  read_time-desc_time,
}
use summ.Core.Keys.Schema.{
  Key, IsRepo, manifest, manifest_body, tag, manifest_tag, blob, blob_mark, blob_ref, repo_blob,
  child_parent, referrer, upload, tag_history, manifest_tag_history, counter_manifest, counter_tag,
  counter_repo, dead_repo, repo_by_name, repo_by_id, db_version,
}

-- Readers of the component lists that several ranges share, and what they do with a component.
pub with_repo : (RepoId → Bytes → Option Key) → Bytes → Option Key
with_repo f s = read_then (read_be 4 s) f

pub with_digest : (Digest → Bytes → Option Key) → Bytes → Option Key
with_digest f s = read_then (read_digest s) f

pub with_tag : (Bytes → Bytes → Option Key) → Bytes → Option Key
with_tag f s = read_then (read_tag s) f

pub with_time : (Timestamp → Bytes → Option Key) → Bytes → Option Key
with_time f s = read_then (read_time s) f

-- A day and a shard, and nothing behind them.
pub with_bucket : (ℕ → ℕ → Key) → Bytes → Option Key
with_bucket f s =
    read_then (read_be 2 s)
      (λ day s'. read_then (read_be 2 s') (λ shard rest. at_end rest (f day shard)))

module _ (f : RepoId → Bytes → Option Key) (r : RepoId) (h : IsRepo r) where
  pub with_repo-be : (s : Bytes) → with_repo f (be 4 r ++ s) ≡ f r s
  unfolding with_repo
  with_repo-be s = rw (read_be-be 4 r s h, with_repo)

  pub with_repo-be_last : with_repo f (be 4 r) ≡ f r []
  unfolding with_repo
  with_repo-be_last = rw (read_be-be_last 4 r h, with_repo)

module _ (f : Digest → Bytes → Option Key) (d : Digest) (h : IsDigest d) where
  pub with_digest-encode : (s : Bytes) → with_digest f (encode d ++ s) ≡ f d s
  unfolding with_digest
  with_digest-encode s = rw (read_digest-encode d s h, with_digest)

  pub with_digest-encode_last : with_digest f (encode d) ≡ f d []
  unfolding with_digest
  with_digest-encode_last = rw (read_digest-encode_last d h, with_digest)

pub with_tag-append :
    (f : Bytes → Bytes → Option Key) (t s : Bytes) → LacksNul t → with_tag f (t ++ (0 ∷ s)) ≡ f t s
unfolding with_tag
with_tag-append f t s h = rw (read_tag-append t s h, with_tag)

pub with_time-desc_time :
    (f : Timestamp → Bytes → Option Key) (at : Timestamp) (s : Bytes)
    → IsTimestamp at
    → with_time f (desc_time at ++ s) ≡ f at s
unfolding with_time
with_time-desc_time f at s h = rw (read_time-desc_time at s h, with_time)

pub with_bucket-be :
    (f : ℕ → ℕ → Key) (day shard : ℕ)
    → day < 2 ^ 16
    → shard < 2 ^ 16
    → with_bucket f (be 2 day ++ be 2 shard) ≡ some (f day shard)
unfolding with_bucket
with_bucket-be f day shard hd hs =
    rw (read_be-be 2 day _ hd, with_bucket) (rw (read_be-be_last 2 shard hs))

unfoldable pub read_counter : Bytes → Option Key
read_counter [] = none
read_counter (scope ∷ s) =
    if scope == b'm'
    then with_repo (λ r. with_digest (λ d. with_bucket (counter_manifest r d))) s
    else if scope == b't'
    then with_repo (λ r. with_tag (λ t. with_bucket (counter_tag r t))) s
    else if scope == b'r'
    then with_repo (λ r. with_bucket (counter_repo r)) s
    else none

unfoldable pub read_key : Bytes → Option Key
read_key [] = none
read_key (b ∷ s) =
    if b == b'M'
    then with_repo (λ r. with_digest (λ d x. at_end x (manifest r d))) s
    else if b == b'Z'
    then with_repo (λ r. with_digest (λ d x. at_end x (manifest_body r d))) s
    else if b == b'T'
    then with_repo (λ r t. some (tag r t)) s
    else if b == b'G'
    then with_repo (λ r. with_digest (λ d t. some (manifest_tag r d t))) s
    else if b == b'B'
    then with_digest (λ d x. at_end x (blob d)) s
    else if b == b'C'
    then with_digest (λ d x. at_end x (blob_mark d)) s
    else if b == b'R'
    then with_digest (λ d. with_repo (λ r. with_digest (λ m x. at_end x (blob_ref d r m)))) s
    else if b == b'P'
    then with_repo (λ r. with_digest (λ d x. at_end x (repo_blob r d))) s
    else if b == b'S'
    then with_repo (λ r. with_digest (λ c. with_digest (λ p x. at_end x (child_parent r c p)))) s
    else if b == b'F'
    then with_repo (λ r. with_digest (λ c. with_digest (λ p x. at_end x (referrer r c p)))) s
    else if b == b'U'
    then some (upload s)
    else if b == b'H'
    then with_repo
        (λ r.
          with_tag (λ t. with_time (λ at. with_digest (λ d x. at_end x (tag_history r t at d)))))
        s
    else if b == b'J'
    then with_repo
        (λ r. with_digest (λ d. with_time (λ at t. some (manifest_tag_history r d at t)))) s
    else if b == b'A'
    then read_counter s
    else if b == b'D'
    then with_repo (λ r x. at_end x (dead_repo r)) s
    else if b == b'n'
    then some (repo_by_name s)
    else if b == b'i'
    then with_repo (λ r x. at_end x (repo_by_id r)) s
    else if b == b'v'
    then at_end s db_version
    else none

-- What a successful reader found.
module _ (s : Bytes) (k : Key) where
  pub with_repo_inv :
      (f : RepoId → Bytes → Option Key)
      → with_repo f s ≡ some k
      → (r : RepoId) × (rest : Bytes) × (f r rest ≡ some k)
  unfolding with_repo
  with_repo_inv f h = read_then_inv (read_be 4 s) f h

  pub with_digest_inv :
      (f : Digest → Bytes → Option Key)
      → with_digest f s ≡ some k
      → (d : Digest) × (rest : Bytes) × (f d rest ≡ some k)
  unfolding with_digest
  with_digest_inv f h = read_then_inv (read_digest s) f h

  pub with_tag_inv :
      (f : Bytes → Bytes → Option Key)
      → with_tag f s ≡ some k
      → (t : Bytes) × (rest : Bytes) × (f t rest ≡ some k)
  unfolding with_tag
  with_tag_inv f h = read_then_inv (read_tag s) f h

  pub with_time_inv :
      (f : Timestamp → Bytes → Option Key)
      → with_time f s ≡ some k
      → (at : Timestamp) × (rest : Bytes) × (f at rest ≡ some k)
  unfolding with_time
  with_time_inv f h = read_then_inv (read_time s) f h

  pub with_bucket_inv :
      (f : ℕ → ℕ → Key) → with_bucket f s ≡ some k → (day : ℕ) × (shard : ℕ) × (k ≡ f day shard)
  unfolding with_bucket
  with_bucket_inv f h =
      let (day, s', h') = read_then_inv (read_be 2 s) _ h in
      let (shard, rest, e) = read_then_inv (read_be 2 s') _ h' in
      (day, shard, at_end_inv rest (f day shard) k e)
