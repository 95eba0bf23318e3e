-- ===== src/Registry/Cosign.antt =====
-- summ-registry/src/cosign.rs: the subject that a tag of cosign's names.
pub mod Total
use summ.Prelude.{
  ℕ, ◌≡◌, Option, none, some, Bool, true, false, ◌||◌, List, [], ◌∷◌, ◌++◌, Bytes, bytes_eq, codes,
  ◌==◌, if◌then◌else◌, map_option,
}
use summ.Core.Digest.{Digest, Parsed, ok, invalid_digest, panic, split_once, from_str}
use summ.Registry.Outcome.{Outcome, done, panicked}

-- `s.rsplit_once(c)`
unfoldable pub rsplit_once : ℕ → Bytes → Option (Bytes × Bytes)
rsplit_once c [] = none
rsplit_once c (x ∷ s) = elim (rsplit_once c s) [
  | some (head, tail) ↦ some (x ∷ head, tail)
  | none ↦ if x == c then some ([], s) else none
]

unfoldable pub is_artifact_suffix : Bytes → Bool
is_artifact_suffix s =
    bytes_eq s (codes "sig") || bytes_eq s (codes "sbom") || bytes_eq s (codes "att")

-- `.parse().ok()`, with the parser's panic kept.
abbrev pub parsed_ok : Parsed Digest → Outcome (Option Digest)
parsed_ok (ok d) = done (some d)
parsed_ok (invalid_digest e) = done none
parsed_ok panic = panicked

unfoldable pub subject_of_artifact_tag : Bytes → Outcome (Option Digest)
unfolding rsplit_once is_artifact_suffix split_once
subject_of_artifact_tag tag = elim (rsplit_once b'.' tag) [
  | none ↦ done none
  | some (head, suffix) ↦
      if is_artifact_suffix suffix
      then elim (split_once b'-' head) [
        | none ↦ done none
        | some (algorithm, encoded) ↦ parsed_ok (from_str (algorithm ++ b':' ∷ encoded))
      ]
      else done none
]
