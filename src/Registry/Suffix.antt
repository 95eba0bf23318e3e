-- ===== src/Registry/Suffix.antt =====
-- summ-registry/src/suffix.rs: the digests behind a key's repository.
use summ.Prelude.{
  ℕ, ◌+◌, ◌<◌, ◌^◌, ◌≡◌, ◌∙◌, ap, suc, refl, Option, some, ◌>>=◌, ◌∷◌, ◌++◌, append_assoc, Bytes,
  get_from, get_to, get_from-append, get_to-append, length-append, arith,
}
use summ.Prelude.BigEndian.{be, from_be, from_be-be, length-be}
use summ.Core.Digest.{Digest, IsDigest, encode, decode, encoded_len}
use summ.Core.Digest.Wire.{decode-encode, decode-encode_last, length-encode}
use summ.Core.Keys.{
  RepoId, start, start_repo, manifest, repo_blob, manifest_tag, referrer, child_parent, blob_ref,
}

abbrev pub repo_scoped_head : ℕ
repo_scoped_head = 1 + 4

unfoldable pub digest_after_repo : Bytes → Option Digest
digest_after_repo key = do tail ← get_from key repo_scoped_head; found ← decode tail; some (found.0)

unfoldable pub second_digest_after_repo : Bytes → Option Digest
second_digest_after_repo key = do
  tail ← get_from key repo_scoped_head
  first ← decode tail
  tail2 ← get_from key (repo_scoped_head + first.1)
  found ← decode tail2
  some (found.0)

-- `key.get(at..at + 4)` is the first four bytes of `key.get(at..)`.
unfoldable pub blob_ref_target : Bytes → Option (RepoId × Digest)
blob_ref_target key = do
  tail ← get_from key 1
  first ← decode tail
  from_repo ← get_from key (1 + first.1)
  repo ← get_to from_repo 4
  rest ← get_from key (1 + first.1 + 4)
  found ← decode rest
  some (from_be repo, found.0)

get_from-start_repo :
    (p : ℕ) (r : RepoId) (s : Bytes) → get_from (start_repo p r ++ s) repo_scoped_head ≡ some s
unfolding start_repo start
get_from-start_repo p r s = get_from-append (start_repo p r) s 5 (ground (arith, length-be 4 r))

get_from-start_repo2 :
    (p : ℕ) (r : RepoId) (d : Digest) (s : Bytes)
    → IsDigest d
    → get_from (start_repo p r ++ (encode d ++ s)) (repo_scoped_head + encoded_len d) ≡ some s
unfolding start_repo start
get_from-start_repo2 p r d s h = rw (← append_assoc (start_repo p r) (encode d) s) (
    get_from-append (start_repo p r ++ encode d) s (repo_scoped_head + encoded_len d)
      (length-append (start_repo p r) (encode d) ∙ ground (arith, length-be 4 r, length-encode d)))

digest_after :
    (p : ℕ) (r : RepoId) (d : Digest) (s : Bytes)
    → IsDigest d
    → digest_after_repo (start_repo p r ++ (encode d ++ s)) ≡ some d
unfolding digest_after_repo
digest_after p r d s h =
    rw (get_from-start_repo p r (encode d ++ s), digest_after_repo) (rw (decode-encode d s h) refl)

digest_after_last :
    (p : ℕ) (r : RepoId) (d : Digest)
    → IsDigest d
    → digest_after_repo (start_repo p r ++ encode d) ≡ some d
unfolding digest_after_repo
digest_after_last p r d h =
    rw (get_from-start_repo p r (encode d), digest_after_repo) (rw (decode-encode_last d h) refl)

-- Behind the blob of a reference, and behind its repository.
get_from-blob :
    (d : Digest) (s : Bytes)
    → IsDigest d
    → get_from (start b'R' ++ (encode d ++ s)) (1 + encoded_len d) ≡ some s
unfolding start
get_from-blob d s h =
    get_from-append (b'R' ∷ encode d) s (1 + encoded_len d) (ground (arith, length-encode d))

get_from-blob_repo :
    (d : Digest) (r : RepoId) (s : Bytes)
    → IsDigest d
    → get_from (start b'R' ++ (encode d ++ (be 4 r ++ s))) (1 + encoded_len d + 4) ≡ some s
unfolding start
get_from-blob_repo d r s h = rw (← append_assoc (encode d) (be 4 r) s) (
    get_from-append (b'R' ∷ (encode d ++ be 4 r)) s (1 + encoded_len d + 4)
      (ap suc (length-append (encode d) (be 4 r)) ∙ omega (arith, length-be 4 r, length-encode d)))

get_from-start : (p : ℕ) (s : Bytes) → get_from (start p ++ s) 1 ≡ some s
unfolding start get_from
get_from-start p s = refl

blob_ref_target-blob_ref :
    (d : Digest) (r : RepoId) (m : Digest)
    → r < 2 ^ 32
    → IsDigest d
    → IsDigest m
    → blob_ref_target (blob_ref d r m) ≡ some (r, m)
unfolding blob_ref_target blob_ref
blob_ref_target-blob_ref d r m hr hd hm =
    rw (get_from-start b'R' (encode d ++ (be 4 r ++ encode m)), blob_ref_target)
      (rw (decode-encode d (be 4 r ++ encode m) hd) (
        rw (get_from-blob d (be 4 r ++ encode m) hd, get_from-blob_repo d r (encode m) hd)
          (rw
            (
              get_to-append (be 4 r) (encode m) 4 (length-be 4 r),
              decode-encode_last m hm,
              from_be-be 4 r hr,
            )
            refl)))

second_digest_after :
    (p : ℕ) (r : RepoId) (d e : Digest)
    → IsDigest d
    → IsDigest e
    → second_digest_after_repo (start_repo p r ++ (encode d ++ encode e)) ≡ some e
unfolding second_digest_after_repo
second_digest_after p r d e h he =
    rw (get_from-start_repo p r (encode d ++ encode e), second_digest_after_repo)
      (rw (decode-encode d (encode e) h)
        (rw (get_from-start_repo2 p r d (encode e) h) (rw (decode-encode_last e he) refl)))

-- What the paging reads off a key is what the key holds: the digest behind the repository in the keys
-- of manifests, memberships, reverse tags and edges, the second digest of an edge, and the repository
-- and the manifest of a blob's reference.
pub digest_suffixes :
    (r : RepoId) (d e : Digest) (t : Bytes)
    → r < 2 ^ 32
    → IsDigest d
    → IsDigest e
    → (digest_after_repo (manifest r d) ≡ some d)
      × (digest_after_repo (repo_blob r d) ≡ some d)
      × (digest_after_repo (manifest_tag r d t) ≡ some d)
      × (digest_after_repo (referrer r d e) ≡ some d)
      × (digest_after_repo (child_parent r d e) ≡ some d)
      × (second_digest_after_repo (referrer r d e) ≡ some e)
      × (second_digest_after_repo (child_parent r d e) ≡ some e)
      × (blob_ref_target (blob_ref d r e) ≡ some (r, e))
unfolding manifest repo_blob manifest_tag referrer child_parent
digest_suffixes r d e t hr hd he = (
  digest_after_last b'M' r d hd,
  digest_after_last b'P' r d hd,
  digest_after b'G' r d t hd,
  digest_after b'F' r d (encode e) hd,
  digest_after b'S' r d (encode e) hd,
  second_digest_after b'F' r d e hd he,
  second_digest_after b'S' r d e hd he,
  blob_ref_target-blob_ref d r e hr hd he,
)
