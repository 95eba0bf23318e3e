-- ===== src/Registry/Uploads/Operations.antt =====
-- summ-registry/src/uploads.rs: the calls that a handler makes for an upload session.
use summ.Prelude.{
  ℕ, ◌==◌, Option, none, some, List, [], Bytes, codes, if◌then◌else◌, Result, ok, err,
}
use summ.Core.Timestamp.{Timestamp}
use summ.Core.Buckets.{UploadSession}
use summ.Core.Keys
use summ.Core.Keys.{RepoId}
use summ.Meta.Engine.{WriteBatch, MetaEngine}
use summ.Meta.Interner.{LruCache, RepoInterner, InvalidData, lookup, intern}
use summ.Registry.Outcome.{Outcome, done, fail, meta, ◌>>=◌}
use summ.Registry.Records.{Records}
use summ.Registry.Tags.{read_record}
use summ.Registry.Blobs.{interned_id}
use summ.Registry.Delete.Operations.{applied}
use summ.Registry.Uploads.{UploadKey, plan_save_upload, plan_delete_upload, opened, live_repos}

module _ (R : Records) (E : MetaEngine) where
  unfoldable pub get_upload : E.State → UploadKey → Outcome (Option UploadSession)
  get_upload s id = read_record R.decode_upload (codes "UploadSession") (E.get s (Keys.upload id))

  unfoldable pub save_upload : E.State → UploadKey → UploadSession → E.State
  unfolding plan_save_upload
  save_upload s id session = E.apply s (plan_save_upload R id session)

  unfoldable pub delete_upload : E.State → UploadKey → E.State
  unfolding plan_delete_upload
  delete_upload s id = E.apply s (plan_delete_upload id)

  unfoldable pub live_upload_repos : E.State → ℕ → Outcome (List RepoId)
  unfolding live_repos
  live_upload_repos s limit = live_repos R (E.scan s Keys.uploads none limit).entries []

  module _ (N : LruCache Bytes RepoId) (I : LruCache RepoId Bytes) where
    -- The repository is interned first, outside the batch.
    unfoldable pub plan_create_upload :
        E.State
        → RepoInterner E N I
        → Bytes
        → UploadKey
        → Bytes
        → Timestamp
        → Outcome (UploadSession × WriteBatch) × E.State × RepoInterner E N I
    unfolding opened plan_save_upload interned_id
    plan_create_upload s i repo id algorithm now =
        let (found, s', i') = intern E N I s i repo in
        let planned = interned_id found >>= (λ r.
          let session = opened R r algorithm now in
          done (session, plan_save_upload R id session)) in
        (planned, s', i')

    unfoldable pub create_upload :
        E.State
        → RepoInterner E N I
        → Bytes
        → UploadKey
        → Bytes
        → Timestamp
        → (Outcome UploadSession × E.State) × RepoInterner E N I
    unfolding plan_create_upload
    create_upload s i repo id algorithm now =
        let (planned, s', i') = plan_create_upload s i repo id algorithm now in
        (applied R E s' planned, i')

    -- A session of another repository is as none.
    abbrev pub session_in :
        Result InvalidData (Option RepoId) → UploadSession → Outcome (Option UploadSession)
    session_in (err e) session = fail (meta (codes "repo id"))
    session_in (ok none) session = done none
    session_in (ok (some repo)) session =
        if repo == session.repo then done (some session) else done none

    -- The repository is looked up only for a session.
    abbrev pub found_in :
        E.State
        → RepoInterner E N I
        → Bytes
        → Outcome (Option UploadSession)
        → Outcome (Option UploadSession) × RepoInterner E N I
    found_in s i repo (done (some session)) =
        let (found, i') = lookup E N I s i repo in (session_in found session, i')
    found_in s i repo other = (other, i)

    unfoldable pub get_upload_in :
        E.State
        → RepoInterner E N I
        → Bytes
        → UploadKey
        → Outcome (Option UploadSession) × RepoInterner E N I
    unfolding get_upload
    get_upload_in s i repo id = found_in s i repo (get_upload s id)
