-- ===== src/Core/Keys/Scans/Exact.antt =====
-- A scan sweeps the keys that it is meant to sweep, and no others of the whole schema.
use summ.Prelude.{
  ◌≡◌, ◌∙◌, ◌↔◌, sym, ap, true, Option-cases, inl, inr, some, ◌++◌, Bytes, strip_prefix,
  starts_with, strip_prefix-append, strip_prefix_sound, append_assoc, [], ◌∷◌,
}
use summ.Core.Keys
use summ.Core.Keys.History
use summ.Core.Keys.Counters
use summ.Core.Keys.{start, start_repo}
use summ.Core.Keys.Counters.{start_counter}
use summ.Core.Digest.{encode}
use summ.Prelude.BigEndian.{be}
use summ.Core.Keys.Read.{at_end_inv}
use summ.Core.Keys.Schema.{Key, IsKey, encode_key}
use summ.Core.Keys.Schema.Reader.{
  read_key, read_counter, with_repo-be, with_digest-encode, with_tag-append, with_repo_inv,
  with_digest_inv, with_tag_inv, with_time_inv, with_bucket_inv,
}
use summ.Core.Keys.Schema.RoundTrip.{read_key-encode_key}
use summ.Core.Keys.Scans.{
  Scan, IsScan, Selects, scan_prefix, manifests_in_repo, manifest_bodies_in_repo, tags_in_repo,
  tags_of_manifest, manifest_tags_in_repo, blobs, blob_marks, blob_refs, blob_refs_in_repo,
  blobs_in_repo, repo_blobs, parents_of, children_in_repo, referrers_of, referrers_in_repo, uploads,
  tag_history_of, tag_history_in_repo, manifest_tag_history_of, manifest_tag_history_in_repo,
  counters_of_manifest, counters_of_tag, counters_of_repo, dead_repos, repos_by_name,
}

pub starts_with-append : (p s : Bytes) → starts_with (p ++ s) p ≡ true
starts_with-append p s = rw (strip_prefix-append p s, starts_with)

pub starts_with_inv : (s p : Bytes) → starts_with s p ≡ true → (rest : Bytes) × (s ≡ p ++ rest)
starts_with_inv s p h = elim (Option-cases (strip_prefix s p)) [
  | inl e ↦ absurd (cc (h, e))
  | inr (rest, e) ↦ (rest, strip_prefix_sound s p rest e)
]

covers2 : (p q rest : Bytes) → starts_with (p ++ (q ++ rest)) (p ++ q) ≡ true
covers2 p q rest = rw (← append_assoc p q rest) (starts_with-append (p ++ q) rest)

covers3 : (p q r rest : Bytes) → starts_with (p ++ (q ++ (r ++ rest))) (p ++ (q ++ r)) ≡ true
covers3 p q r rest = rw (← append_assoc q r rest) (covers2 p (q ++ r) rest)

some_eq : {a b : Key} → some a ≡ some b → b ≡ a
some_eq e = cc

-- What a key under a prefix is read as.
under :
    (s : Scan) (k : Key)
    → IsKey k
    → starts_with (encode_key k) (scan_prefix s) ≡ true
    → (rest : Bytes) × (read_key (scan_prefix s ++ rest) ≡ some k)
under s k h u =
    let (rest, e) = starts_with_inv (encode_key k) (scan_prefix s) u in
    (rest, ap read_key (sym e) ∙ read_key-encode_key k h)

-- Reading behind a prefix gives a key of the range.
read_under :
    (s : Scan) (rest : Bytes) (k : Key)
    → IsScan s
    → read_key (scan_prefix s ++ rest) ≡ some k
    → Selects s k
unfolding read_key read_counter scan_prefix Keys.manifests_in_repo Keys.manifest_bodies_in_repo
    Keys.tags_in_repo Keys.tags_of_manifest Keys.manifest_tags_in_repo Keys.blobs Keys.blob_marks
    Keys.blob_refs Keys.blob_refs_in_repo Keys.blobs_in_repo Keys.repo_blobs Keys.parents_of
    Keys.children_in_repo Keys.referrers_of Keys.referrers_in_repo Keys.uploads
    History.tag_history_of History.tag_history_in_repo History.manifest_tag_history_of
    History.manifest_tag_history_in_repo Counters.counters_of_manifest Counters.counters_of_tag
    Counters.counters_of_repo Keys.dead_repos Keys.repos_by_name Keys.start_repo
    Counters.start_counter
read_under (manifests_in_repo r) rest k h e =
    let e2 = sym (with_repo-be _ r h _) ∙ e in
    let (d, s1, x1) = with_digest_inv _ k _ e2 in (d, at_end_inv s1 _ k x1)
read_under (manifest_bodies_in_repo r) rest k h e =
    let e2 = sym (with_repo-be _ r h _) ∙ e in
    let (d, s1, x1) = with_digest_inv _ k _ e2 in (d, at_end_inv s1 _ k x1)
read_under (tags_in_repo r) rest k h e =
    let e2 = sym (with_repo-be _ r h _) ∙ e in (rest, some_eq e2)
read_under (tags_of_manifest r d) rest k h e =
    let e1 = rw append_assoc at e in
    let e2 = sym (with_repo-be _ r h.0 _ ∙ with_digest-encode _ d h.1 _) ∙ e1 in (rest, some_eq e2)
read_under (manifest_tags_in_repo r) rest k h e =
    let e2 = sym (with_repo-be _ r h _) ∙ e in
    let (d, s1, x1) = with_digest_inv _ k _ e2 in (d, s1, some_eq x1)
read_under blobs rest k h e = let (d, s1, x1) = with_digest_inv _ k _ e in (d, at_end_inv s1 _ k x1)
read_under blob_marks rest k h e =
    let (d, s1, x1) = with_digest_inv _ k _ e in (d, at_end_inv s1 _ k x1)
read_under (blob_refs d) rest k h e =
    let e2 = sym (with_digest-encode _ d h _) ∙ e in
    let (r, s1, x1) = with_repo_inv _ k _ e2 in
    let (m, s2, x2) = with_digest_inv _ k _ x1 in (r, m, at_end_inv s2 _ k x2)
read_under (blob_refs_in_repo d r) rest k h e =
    let e1 = rw append_assoc at e in
    let e2 = sym (with_digest-encode _ d h.0 _ ∙ with_repo-be _ r h.1 _) ∙ e1 in
    let (m, s1, x1) = with_digest_inv _ k _ e2 in (m, at_end_inv s1 _ k x1)
read_under (blobs_in_repo r) rest k h e =
    let e2 = sym (with_repo-be _ r h _) ∙ e in
    let (d, s1, x1) = with_digest_inv _ k _ e2 in (d, at_end_inv s1 _ k x1)
read_under repo_blobs rest k h e =
    let (r, s1, x1) = with_repo_inv _ k _ e in
    let (d, s2, x2) = with_digest_inv _ k _ x1 in (r, d, at_end_inv s2 _ k x2)
read_under (parents_of r c) rest k h e =
    let e1 = rw append_assoc at e in
    let e2 = sym (with_repo-be _ r h.0 _ ∙ with_digest-encode _ c h.1 _) ∙ e1 in
    let (p, s1, x1) = with_digest_inv _ k _ e2 in (p, at_end_inv s1 _ k x1)
read_under (children_in_repo r) rest k h e =
    let e2 = sym (with_repo-be _ r h _) ∙ e in
    let (c, s1, x1) = with_digest_inv _ k _ e2 in
    let (p, s2, x2) = with_digest_inv _ k _ x1 in (c, p, at_end_inv s2 _ k x2)
read_under (referrers_of r c) rest k h e =
    let e1 = rw append_assoc at e in
    let e2 = sym (with_repo-be _ r h.0 _ ∙ with_digest-encode _ c h.1 _) ∙ e1 in
    let (p, s1, x1) = with_digest_inv _ k _ e2 in (p, at_end_inv s1 _ k x1)
read_under (referrers_in_repo r) rest k h e =
    let e2 = sym (with_repo-be _ r h _) ∙ e in
    let (c, s1, x1) = with_digest_inv _ k _ e2 in
    let (p, s2, x2) = with_digest_inv _ k _ x1 in (c, p, at_end_inv s2 _ k x2)
read_under uploads rest k h e = (rest, some_eq e)
read_under (tag_history_of r t) rest k h e =
    let e1 = rw (append_assoc, append_assoc) at e in
    let e2 = sym (with_repo-be _ r h.0 _ ∙ with_tag-append _ t _ h.1) ∙ e1 in
    let (at, s1, x1) = with_time_inv _ k _ e2 in
    let (d, s2, x2) = with_digest_inv _ k _ x1 in (at, d, at_end_inv s2 _ k x2)
read_under (tag_history_in_repo r) rest k h e =
    let e2 = sym (with_repo-be _ r h _) ∙ e in
    let (t, s1, x1) = with_tag_inv _ k _ e2 in
    let (at, s2, x2) = with_time_inv _ k _ x1 in
    let (d, s3, x3) = with_digest_inv _ k _ x2 in (t, at, d, at_end_inv s3 _ k x3)
read_under (manifest_tag_history_of r d) rest k h e =
    let e1 = rw append_assoc at e in
    let e2 = sym (with_repo-be _ r h.0 _ ∙ with_digest-encode _ d h.1 _) ∙ e1 in
    let (at, s1, x1) = with_time_inv _ k _ e2 in (at, s1, some_eq x1)
read_under (manifest_tag_history_in_repo r) rest k h e =
    let e2 = sym (with_repo-be _ r h _) ∙ e in
    let (d, s1, x1) = with_digest_inv _ k _ e2 in
    let (at, s2, x2) = with_time_inv _ k _ x1 in (d, at, s2, some_eq x2)
read_under (counters_of_manifest r d) rest k h e =
    let e1 = rw append_assoc at e in
    let e2 = sym (with_repo-be _ r h.0 _ ∙ with_digest-encode _ d h.1 _) ∙ e1 in
    with_bucket_inv _ k _ e2
read_under (counters_of_tag r t) rest k h e =
    let e1 = rw (append_assoc, append_assoc) at e in
    let e2 = sym (with_repo-be _ r h.0 _ ∙ with_tag-append _ t _ h.1) ∙ e1 in
    with_bucket_inv _ k _ e2
read_under (counters_of_repo r) rest k h e =
    let e2 = sym (with_repo-be _ r h _) ∙ e in with_bucket_inv _ k _ e2
read_under dead_repos rest k h e =
    let (r, s1, x1) = with_repo_inv _ k _ e in (r, at_end_inv s1 _ k x1)
read_under repos_by_name rest k h e = (rest, some_eq e)

-- Every key that a scan is meant for is under its prefix.
selected : (s : Scan) (k : Key) → Selects s k → starts_with (encode_key k) (scan_prefix s) ≡ true
unfolding encode_key scan_prefix Counters.counter_manifest Counters.counter_repo
    Counters.counter_tag History.manifest_tag_history History.tag_history Keys.blob Keys.blob_mark
    Keys.blob_ref Keys.child_parent Keys.dead_repo Keys.manifest Keys.manifest_body
    Keys.manifest_tag Keys.referrer Keys.repo_blob Keys.repo_by_name Keys.tag Keys.upload
    Counters.bucket Keys.manifests_in_repo Keys.manifest_bodies_in_repo Keys.tags_in_repo
    Keys.tags_of_manifest Keys.manifest_tags_in_repo Keys.blobs Keys.blob_marks Keys.blob_refs
    Keys.blob_refs_in_repo Keys.blobs_in_repo Keys.repo_blobs Keys.parents_of Keys.children_in_repo
    Keys.referrers_of Keys.referrers_in_repo Keys.uploads History.tag_history_of
    History.tag_history_in_repo History.manifest_tag_history_of History.manifest_tag_history_in_repo
    Counters.counters_of_manifest Counters.counters_of_tag Counters.counters_of_repo Keys.dead_repos
    Keys.repos_by_name Keys.start_repo Counters.start_counter
selected (manifests_in_repo r) k (d, e) =
    rw e (starts_with-append (scan_prefix (manifests_in_repo r)) _)
selected (manifest_bodies_in_repo r) k (d, e) =
    rw e (starts_with-append (scan_prefix (manifest_bodies_in_repo r)) _)
selected (tags_in_repo r) k (t, e) = rw e (starts_with-append (scan_prefix (tags_in_repo r)) _)
selected (tags_of_manifest r d) k (t, e) = rw e (covers2 (start_repo b'G' r) (encode d) _)
selected (manifest_tags_in_repo r) k (d, t, e) =
    rw e (starts_with-append (scan_prefix (manifest_tags_in_repo r)) _)
selected blobs k (d, e) = rw e
selected blob_marks k (d, e) = rw e
selected (blob_refs d) k (r, m, e) = rw e (starts_with-append (scan_prefix (blob_refs d)) _)
selected (blob_refs_in_repo d r) k (m, e) = rw e (covers3 (start b'R') (encode d) (be 4 r) _)
selected (blobs_in_repo r) k (d, e) = rw e (starts_with-append (scan_prefix (blobs_in_repo r)) _)
selected repo_blobs k (r, d, e) = rw e
selected (parents_of r c) k (p, e) = rw e (covers2 (start_repo b'S' r) (encode c) _)
selected (children_in_repo r) k (c, p, e) =
    rw e (starts_with-append (scan_prefix (children_in_repo r)) _)
selected (referrers_of r c) k (p, e) = rw e (covers2 (start_repo b'F' r) (encode c) _)
selected (referrers_in_repo r) k (c, p, e) =
    rw e (starts_with-append (scan_prefix (referrers_in_repo r)) _)
selected uploads k (id, e) = rw e
selected (tag_history_of r t) k (at, d, e) = rw e (covers3 (start_repo b'H' r) t (0 ∷ []) _)
selected (tag_history_in_repo r) k (t, at, d, e) =
    rw e (starts_with-append (scan_prefix (tag_history_in_repo r)) _)
selected (manifest_tag_history_of r d) k (at, t, e) =
    rw e (covers2 (start_repo b'J' r) (encode d) _)
selected (manifest_tag_history_in_repo r) k (d, at, t, e) =
    rw e (starts_with-append (scan_prefix (manifest_tag_history_in_repo r)) _)
selected (counters_of_manifest r d) k (day, shard, e) =
    rw e (covers2 (start_counter b'm' r) (encode d) _)
selected (counters_of_tag r t) k (day, shard, e) =
    rw e (covers3 (start_counter b't' r) t (0 ∷ []) _)
selected (counters_of_repo r) k (day, shard, e) =
    rw e (starts_with-append (scan_prefix (counters_of_repo r)) _)
selected dead_repos k (r, e) = rw e
selected repos_by_name k (name, e) = rw e

-- A key is under a scan's prefix exactly when it is a key of that range with the scan's components:
-- a scan over one repository, tag or digest never reaches another's keys, or another range's.
pub scan_exact :
    (s : Scan) (k : Key)
    → IsScan s
    → IsKey k
    → (starts_with (encode_key k) (scan_prefix s) ≡ true) ↔ Selects s k
scan_exact s k hs hk =
    ((λ u. let (rest, e) = under s k hk u in read_under s rest k hs e), selected s k)
