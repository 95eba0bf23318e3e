-- ===== src/Registry/Outcome.antt =====
-- summ-registry/src/error.rs: the errors, and how a call ends. Messages keep what they name, not their
-- wording.
use summ.Prelude.{Option, none, some, Bool, true, false, Bytes, codes}
use summ.Core.Digest.{Digest}

pub data RegistryError : Type 0 where
  name_unknown : Bytes → RegistryError
  tag_invalid : Bytes → RegistryError
  manifest_invalid : RegistryError
  manifest_unknown : Bytes → Bytes → RegistryError
  manifest_blob_unknown : Bytes → Digest → RegistryError
  digest_invalid : RegistryError
  blob_unknown : Bytes → Digest → RegistryError
  -- `Meta(SummError)`; `corrupt` names what did not decode.
  meta : Bytes → RegistryError

abbrev pub corrupt : Bytes → RegistryError
corrupt what = meta what

-- The code of the spec, by its name.
unfoldable pub code : RegistryError → Bytes
code (name_unknown repo) = codes "NAME_UNKNOWN"
code (tag_invalid tag) = codes "NAME_INVALID"
code manifest_invalid = codes "MANIFEST_INVALID"
code (manifest_unknown repo reference) = codes "MANIFEST_UNKNOWN"
code (manifest_blob_unknown repo digest) = codes "MANIFEST_BLOB_UNKNOWN"
code digest_invalid = codes "DIGEST_INVALID"
code (blob_unknown repo digest) = codes "BLOB_UNKNOWN"
code (meta what) = codes "UNKNOWN"

unfoldable pub is_client_error : RegistryError → Bool
is_client_error (meta what) = false
is_client_error _ = true

-- A call returns, fails, or panics in the digest's parser.
pub data Outcome {ℓ} (A : Type ℓ) : Type ℓ where
  done : A → Outcome A
  fail : RegistryError → Outcome A
  panicked : Outcome A

infixl 5 ◌>>=◌
abbrev pub ◌>>=◌ {ℓ κ} : {A : Type ℓ} {B : Type κ} → Outcome A → (A → Outcome B) → Outcome B
done a >>= f = f a
fail e >>= f = fail e
panicked >>= f = panicked

-- `ok_or_else`
abbrev pub require {ℓ} : {A : Type ℓ} → Option A → RegistryError → Outcome A
require none e = fail e
require (some a) e = done a
