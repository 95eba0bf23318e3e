-- ===== src/Registry/Tags/Operations.antt =====
-- The calls of tags.rs that a handler makes: the repository's id, the plan, the write.
use summ.Prelude.{ℕ, Option, none, some, Bytes, codes, Result, ok, err, map_option}
use summ.Core.Digest.{Digest}
use summ.Core.Timestamp.{Timestamp}
use summ.Core.Types.{TagRecord}
use summ.Core.Keys
use summ.Core.Keys.{RepoId, parse_tag_suffix, parse_manifest_tag_suffix}
use summ.Meta.Engine.{WriteBatch, MetaEngine}
use summ.Meta.Batch.{new}
use summ.Meta.Interner.{LruCache, RepoInterner, InvalidData, lookup}
use summ.Registry.Outcome.{
  Outcome, done, fail, panicked, name_unknown, manifest_unknown, meta, require, ◌>>=◌,
}
use summ.Registry.Tags.{
  Codec, TagList, decode_keys, decode_cursor, next_tag, tag_record, manifest_record,
  stage_delete_tag,
}

module _ (C : Codec) (E : MetaEngine) (N : LruCache Bytes RepoId) (I : LruCache RepoId Bytes) where
  -- `require_repo`: an unknown name is an error, and so is a store that the interner cannot read.
  abbrev pub found_repo : Bytes → Result InvalidData (Option RepoId) → Outcome RepoId
  found_repo name (err e) = fail (meta (codes "repo id"))
  found_repo name (ok none) = fail (name_unknown name)
  found_repo name (ok (some id)) = done id

  -- A call with the repository's id; the interner may fill its cache.
  unfoldable pub with_repo {ℓ} :
      {A : Type ℓ}
      → E.State
      → RepoInterner E N I
      → Bytes
      → (RepoId → Outcome A)
      → Outcome A × RepoInterner E N I
  with_repo s i repo call =
      let (found, i') = lookup E N I s i repo in (found_repo repo found >>= call, i')

  unfoldable pub get_tag :
      E.State → RepoInterner E N I → Bytes → Bytes → Outcome (Option TagRecord) × RepoInterner E N I
  unfolding with_repo
  get_tag s i repo tag = with_repo s i repo (λ id. tag_record C E s id tag)

  -- `plan_delete_tag`, with the id known: the digest that the tag pointed to, and the batch.
  unfoldable pub planned_delete :
      E.State → Bytes → Bytes → Timestamp → RepoId → Outcome (Digest × WriteBatch)
  planned_delete s repo tag now id = tag_record C E s id tag >>= (λ found.
      require found (manifest_unknown repo tag) >>= (λ (r : TagRecord).
        manifest_record C E s id r.digest >>= (λ manifest.
          stage_delete_tag C new id tag r.digest manifest now
          >>= (λ batch. done (r.digest, batch)))))

  unfoldable pub plan_delete_tag :
      E.State
      → RepoInterner E N I
      → Bytes
      → Bytes
      → Timestamp
      → Outcome (Digest × WriteBatch) × RepoInterner E N I
  unfolding with_repo planned_delete
  plan_delete_tag s i repo tag now = with_repo s i repo (planned_delete s repo tag now)

  -- The plan's batch is applied only if there is a plan.
  abbrev pub applied : E.State → Outcome (Digest × WriteBatch) → Outcome Digest × E.State
  applied s (done (digest, batch)) = (done digest, E.apply s batch)
  applied s (fail e) = (fail e, s)
  applied s panicked = (panicked, s)

  unfoldable pub delete_tag :
      E.State
      → RepoInterner E N I
      → Bytes
      → Bytes
      → Timestamp
      → (Outcome Digest × E.State) × RepoInterner E N I
  unfolding plan_delete_tag
  delete_tag s i repo tag now =
      let (planned, i') = plan_delete_tag s i repo tag now in (applied s planned, i')

  unfoldable pub list_tags :
      E.State → RepoInterner E N I → Bytes → Option Bytes → ℕ → Outcome TagList × RepoInterner E N I
  unfolding with_repo decode_keys next_tag
  list_tags s i repo start_after limit = with_repo s i repo (λ id.
      let page =
        E.scan_keys s (Keys.tags_in_repo id) (map_option (Keys.tag id) start_after) limit in
      decode_keys parse_tag_suffix (codes "tag key") page.keys
      >>= (λ tags. next_tag page.next >>= (λ next. done (record { tags = tags; next = next }))))

  unfoldable pub tags_of_manifest :
      E.State
      → RepoInterner E N I
      → Bytes
      → Digest
      → Option Bytes
      → ℕ
      → Outcome TagList × RepoInterner E N I
  unfolding with_repo decode_keys
  tags_of_manifest s i repo digest start_after limit = with_repo s i repo (λ id.
      let page =
        E.scan_keys s (Keys.tags_of_manifest id digest)
          (map_option (Keys.manifest_tag id digest) start_after) limit in
      let read : Bytes → Option Bytes = λ key. parse_manifest_tag_suffix key digest in
      decode_keys read (codes "manifest-tag key") page.keys >>= (λ tags.
        decode_cursor read (codes "manifest-tag cursor") page.next
        >>= (λ next. done (record { tags = tags; next = next }))))
