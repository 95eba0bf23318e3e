-- ===== src/Registry/Uploads.antt =====
-- summ-registry/src/uploads.rs: upload sessions, and the text form of their ids.
pub mod Operations
pub mod Text
use summ.Prelude.{
  ℕ, zero, suc, ◌+◌, ◌-◌, ◌*◌, ◌/◌, ◌%◌, ◌==◌, ◌||◌, ◌&&◌, leb, Option, none, some, Bool, true,
  false, List, [], ◌∷◌, ◌++◌, Bytes, codes, if◌then◌else◌,
}
use summ.Core.Digest.{hex_char}
use summ.Core.Timestamp.{Timestamp, secs}
use summ.Core.Buckets.{UploadSession}
use summ.Core.Keys
use summ.Core.Keys.{RepoId}
use summ.Meta.Engine.{WriteBatch, MetaEngine}
use summ.Meta.Batch.{new, put, delete}
use summ.Registry.Outcome.{Outcome, done, fail, manifest_invalid, corrupt, require, ◌>>=◌}
use summ.Registry.Records.{Records}

-- Sixteen bytes.
abbrev pub UploadKey : Type 0
UploadKey = Bytes

-- The bytes that a hyphen stands in front of.
unfoldable pub hyphen_at : ℕ → Bool
hyphen_at i = i == 4 || i == 6 || i == 8 || i == 10

-- The loop of `format_upload_id` from a place on.
unfoldable pub format_bytes : ℕ → Bytes → Bytes
unfolding hyphen_at
format_bytes i [] = []
format_bytes i (b ∷ id) =
    let digits : Bytes = hex_char (b / 16) ∷ hex_char (b % 16) ∷ format_bytes (suc i) id in
    if hyphen_at i then b'-' ∷ digits else digits

unfoldable pub format_upload_id : UploadKey → Bytes
unfolding format_bytes
format_upload_id id = format_bytes 0 id

unfoldable pub hex_digit : ℕ → Option ℕ
hex_digit b =
    if leb b'0' b && leb b b'9'
    then some (b - b'0')
    else if leb b'a' b && leb b b'f'
    then some (b - b'a' + 10)
    else if leb b'A' b && leb b b'F'
    then some (b - b'A' + 10)
    else none

-- `id.bytes().filter(..)`
unfoldable pub nibbles : Bytes → Bytes
nibbles [] = []
nibbles (b ∷ s) = if b == b'-' then nibbles s else b ∷ nibbles s

abbrev pub slot : Option ℕ → Option ℕ → Option (Bytes × Bytes) → Option (Bytes × Bytes)
slot (some hi) (some lo) (some (raw, rest)) = some ((hi * 16 + lo) ∷ raw, rest)
slot _ _ _ = none

-- The loop of `parse_upload_id` over the slots left, and the text behind them.
unfoldable pub slots : ℕ → Bytes → Option (Bytes × Bytes)
unfolding hex_digit
slots zero s = some ([], s)
slots (suc n) [] = none
slots (suc n) (hi ∷ []) = none
slots (suc n) (hi ∷ lo ∷ s) = slot (hex_digit hi) (hex_digit lo) (slots n s)

abbrev pub whole_id : Option (Bytes × Bytes) → Outcome UploadKey
whole_id (some (raw, [])) = done raw
whole_id _ = fail manifest_invalid

unfoldable pub parse_upload_id : Bytes → Outcome UploadKey
unfolding nibbles slots
parse_upload_id id = whole_id (slots 16 (nibbles id))

-- `repos.contains`
unfoldable pub contains_repo : RepoId → List RepoId → Bool
contains_repo id [] = false
contains_repo id (r ∷ repos) = r == id || contains_repo id repos

module _ (R : Records) where
  unfoldable pub plan_save_upload : UploadKey → UploadSession → WriteBatch
  plan_save_upload id session = put new (Keys.upload id) (R.encode_upload session)

  unfoldable pub opened : RepoId → Bytes → Timestamp → UploadSession
  opened repo algorithm now = record {
    repo = repo;
    offset = 0;
    started_at = secs now;
    updated_at = secs now;
    algorithm = algorithm;
    hasher_state = none;
  }

  -- The loop of `live_upload_repos`.
  unfoldable pub live_repos : List (Bytes × Bytes) → List RepoId → Outcome (List RepoId)
  unfolding contains_repo
  live_repos [] repos = done repos
  live_repos ((key, raw) ∷ entries) repos =
      require (R.decode_upload raw) (corrupt (codes "UploadSession"))
      >>= (λ (session : UploadSession).
          live_repos entries
            (if contains_repo session.repo repos then repos else repos ++ session.repo ∷ []))

unfoldable pub plan_delete_upload : UploadKey → WriteBatch
plan_delete_upload id = delete new (Keys.upload id)
