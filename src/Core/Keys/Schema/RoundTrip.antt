-- ===== src/Core/Keys/Schema/RoundTrip.antt =====
-- Every key is read back, and so no two keys collide.
use summ.Prelude.{◌≡◌, ◌∙◌, refl, ap, sym, some}
use summ.Core.Keys
use summ.Core.Keys.History
use summ.Core.Keys.Counters
use summ.Core.Keys.Schema.{
  Key, IsKey, encode_key, manifest, manifest_body, tag, manifest_tag, blob, blob_mark, blob_ref,
  repo_blob, child_parent, referrer, upload, tag_history, manifest_tag_history, counter_manifest,
  counter_tag, counter_repo, dead_repo, repo_by_name, repo_by_id, db_version,
}
use summ.Core.Keys.Schema.Reader.{
  read_key, read_counter, with_repo-be, with_repo-be_last, with_digest-encode,
  with_digest-encode_last, with_tag-append, with_time-desc_time, with_bucket-be,
}

-- Every key is read back as itself, so no two keys of the schema share an encoding and no key is an
-- encoding of another range.
pub read_key-encode_key : (k : Key) → IsKey k → read_key (encode_key k) ≡ some k
unfolding read_key read_counter encode_key Keys.manifest Keys.manifest_body Keys.tag
    Keys.manifest_tag Keys.blob Keys.blob_mark Keys.blob_ref Keys.repo_blob Keys.child_parent
    Keys.referrer Keys.upload History.tag_history History.manifest_tag_history
    Counters.counter_manifest Counters.counter_tag Counters.counter_repo Counters.bucket
    Counters.start_counter Keys.dead_repo Keys.repo_by_name Keys.repo_by_id Keys.db_version
    Keys.start_repo
read_key-encode_key (manifest r d) h = with_repo-be _ r h.0 _ ∙ with_digest-encode_last _ d h.1
read_key-encode_key (manifest_body r d) h = with_repo-be _ r h.0 _ ∙ with_digest-encode_last _ d h.1
read_key-encode_key (tag r t) h = with_repo-be _ r h _
read_key-encode_key (manifest_tag r d t) h = with_repo-be _ r h.0 _ ∙ with_digest-encode _ d h.1 _
read_key-encode_key (blob d) h = with_digest-encode_last _ d h
read_key-encode_key (blob_mark d) h = with_digest-encode_last _ d h
read_key-encode_key (blob_ref d r m) h =
    with_digest-encode _ d h.0 _ ∙ with_repo-be _ r h.1 _ ∙ with_digest-encode_last _ m h.2
read_key-encode_key (repo_blob r d) h = with_repo-be _ r h.0 _ ∙ with_digest-encode_last _ d h.1
read_key-encode_key (child_parent r c p) h =
    with_repo-be _ r h.0 _ ∙ with_digest-encode _ c h.1 _ ∙ with_digest-encode_last _ p h.2
read_key-encode_key (referrer r c p) h =
    with_repo-be _ r h.0 _ ∙ with_digest-encode _ c h.1 _ ∙ with_digest-encode_last _ p h.2
read_key-encode_key (upload id) h = refl
read_key-encode_key (tag_history r t at d) h =
    with_repo-be _ r h.0 _
    ∙ with_tag-append _ t _ h.1
    ∙ with_time-desc_time _ at _ h.2
    ∙ with_digest-encode_last _ d h.3
read_key-encode_key (manifest_tag_history r d at t) h =
    with_repo-be _ r h.0 _ ∙ with_digest-encode _ d h.1 _ ∙ with_time-desc_time _ at _ h.2
read_key-encode_key (counter_manifest r d day shard) h =
    with_repo-be _ r h.0 _ ∙ with_digest-encode _ d h.1 _ ∙ with_bucket-be _ day shard h.2 h.3
read_key-encode_key (counter_tag r t day shard) h =
    with_repo-be _ r h.0 _ ∙ with_tag-append _ t _ h.1 ∙ with_bucket-be _ day shard h.2 h.3
read_key-encode_key (counter_repo r day shard) h =
    with_repo-be _ r h.0 _ ∙ with_bucket-be _ day shard h.1 h.2
read_key-encode_key (dead_repo id) h = with_repo-be_last _ id h
read_key-encode_key (repo_by_name name) h = refl
read_key-encode_key (repo_by_id id) h = with_repo-be_last _ id h
read_key-encode_key db_version h = refl

-- Two keys with one encoding are one key.
pub encode_key-injective : (k l : Key) → IsKey k → IsKey l → encode_key k ≡ encode_key l → k ≡ l
encode_key-injective k l hk hl e =
    let same : some k ≡ some l =
      sym (read_key-encode_key k hk) ∙ ap read_key e ∙ read_key-encode_key l hl in
    cc
