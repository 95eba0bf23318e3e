-- ===== src/Meta/Version.antt =====
-- summ-meta/src/version.rs: the schema version of a store and the migrations, which are a parameter.
pub mod Runs
pub mod Ensured
use summ.Prelude.{
  ℕ, ◌≡◌, Option, none, some, Bool, true, false, List, [], ◌∷◌, Bytes, leb, ltb, ◌==◌, length,
  if◌then◌else◌, arith, Result, ok, err,
}
use summ.Prelude.BigEndian.{be, from_be}
use summ.Core.Keys.{db_version}
use summ.Meta.Engine.{MetaEngine}
use summ.Meta.Batch.{new, put}

abbrev pub schema_version : ℕ
schema_version = 2

-- The errors, all `SummError::InvalidData`, and the error of a step.
pub data VersionError : Type 0 where
  bad_marker predates_versioning unreachable : VersionError
  newer beyond : ℕ → VersionError
  step_failed : Bytes → VersionError

unfoldable pub decode : Bytes → Result VersionError ℕ
decode raw = if length raw == 4 then ok (from_be raw) else err bad_marker

module _ (E : MetaEngine) where
  -- A step has its own writes, whether it succeeds or not.
  pub record Migration : Type 0 where
    pub to : ℕ
    pub run : E.State → Result VersionError (Unit {0}) × E.State

  abbrev pub declared : Option Bytes → Result VersionError (Option ℕ)
  declared none = ok none
  declared (some raw) = elim (decode raw) [ err e ↦ err e | ok v ↦ ok (some v) ]

  unfoldable pub read : E.State → Result VersionError (Option ℕ)
  unfolding decode
  read s = declared (E.get s db_version)

  unfoldable pub stamp : E.State → ℕ → E.State
  stamp s version = E.apply s (put new db_version (be 4 version))

  unfoldable pub is_empty : E.State → Bool
  is_empty s = elim ((E.scan_keys s [] none 1).keys) [ [] ↦ true | k ∷ ks ↦ false ]

  -- `sort_by_key(|m| m.to)`, which is stable.
  unfoldable pub insert_step : Migration → List Migration → List Migration
  insert_step m [] = m ∷ []
  insert_step m (n ∷ ms) = if leb m.to n.to then m ∷ n ∷ ms else n ∷ insert_step m ms

  unfoldable pub sort_steps : List Migration → List Migration
  unfolding insert_step
  sort_steps [] = []
  sort_steps (m ∷ ms) = insert_step m (sort_steps ms)

  -- The stamp and the later steps follow a step that succeeded.
  abbrev pub stepped :
      Result VersionError (Unit {0}) × E.State
      → (E.State → Result VersionError ℕ × E.State)
      → Result VersionError ℕ × E.State
  stepped (err e, s) later = (err e, s)
  stepped (ok u, s) later = later s

  unfoldable pub run_steps : ℕ → E.State → List Migration → Result VersionError ℕ × E.State
  unfolding stamp
  run_steps at s [] = (if at == schema_version then ok at else err unreachable, s)
  run_steps at s (m ∷ ms) =
      if leb m.to at
      then run_steps at s ms
      else if ltb schema_version m.to
      then (err (beyond m.to), s)
      else stepped (m.run s) (λ s'. run_steps m.to (stamp s' m.to) ms)

  unfoldable pub ensure : E.State → List Migration → Result VersionError ℕ × E.State
  unfolding read stamp is_empty sort_steps run_steps
  ensure s migrations = elim (read s) [
    | err e ↦ (err e, s)
    | ok none ↦
        if is_empty s
        then (ok schema_version, stamp s schema_version)
        else (err predates_versioning, s)
    | ok (some found) ↦
        if ltb schema_version found
        then (err (newer found), s)
        else run_steps found s (sort_steps migrations)
  ]
