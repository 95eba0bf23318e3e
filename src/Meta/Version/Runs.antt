-- ===== src/Meta/Version/Runs.antt =====
-- The runs of the migrations, as a relation, and what a run leaves in the store.

use summ.Prelude.{
  ℕ, ◌<◌, ◌≤◌, ◌==◌, ◌≡◌, ◌≢◌, inl, inr, refl, ap, ◌∙◌, subst, some, Bool, true, false, List, [],
  ◌∷◌, Bytes, bytes_eq, bytes_eq_self, leb, ltb, length, Bool-cases, if◌then◌else◌, arith, Result,
  ok, err,
}
use summ.Prelude.BigEndian.{be, from_be, from_be-be, length-be}
use summ.Core.Keys.{db_version}
use summ.Meta.Engine.{MetaEngine, view_ops}
use summ.Meta.Batch.{new, put, view_ops-put}
use summ.Meta.Version.{
  VersionError, unreachable, beyond, schema_version, Migration, stamp, stepped, run_steps,
}

module _ (E : MetaEngine) where
  abbrev pub Opened : Type 0
  Opened = Result VersionError ℕ × E.State

  -- The second store is the first with the marker of a version.
  abbrev pub IsStamped : E.State → ℕ → E.State → Type 0
  IsStamped s v s' =
      (k : Bytes) → E.get s' k ≡ (if bytes_eq db_version k then some (be 4 v) else E.get s k)

  -- A store carries the marker of a version.
  abbrev pub Carries : E.State → ℕ → Type 0
  Carries s v =
      (raw : Bytes) × (E.get s db_version ≡ some raw) × (length raw ≡ 4) × (from_be raw ≡ v)

  -- A run of the steps from a version on.
  pub data Runs : ℕ → E.State → List (Migration E) → Opened → Type 0 where
    arrived : {at : ℕ} {s : E.State} → at ≡ 2 → Runs at s [] (ok at, s)
    fell_short : {at : ℕ} {s : E.State} → at ≢ 2 → Runs at s [] (err unreachable, s)
    skipped :
        {at : ℕ} {s : E.State} {m : Migration E} {ms : List (Migration E)} {r : Opened}
        → m.to ≤ at
        → Runs at s ms r
        → Runs at s (m ∷ ms) r
    too_far :
        {at : ℕ} {s : E.State} {m : Migration E} {ms : List (Migration E)}
        → at < m.to
        → 2 < m.to
        → Runs at s (m ∷ ms) (err (beyond m.to), s)
    failed :
        {at : ℕ} {s : E.State} {m : Migration E} {ms : List (Migration E)} {e : VersionError}
        {s' : E.State}
        → at < m.to
        → m.to ≤ 2
        → m.run s ≡ (err e, s')
        → Runs at s (m ∷ ms) (err e, s')
    ran :
        {at : ℕ} {s : E.State} {m : Migration E} {ms : List (Migration E)} {r : Opened}
        (s' marked : E.State)
        → at < m.to
        → m.to ≤ 2
        → m.run s ≡ (ok tt, s')
        → IsStamped s' m.to marked
        → Runs m.to marked ms r
        → Runs at s (m ∷ ms) r

  pub stamp-IsStamped : (s : E.State) (v : ℕ) → IsStamped s v (stamp E s v)
  unfolding stamp view_ops new
  stamp-IsStamped s v k =
      E.get-apply s (put new db_version (be 4 v)) k
      ∙ view_ops-put new db_version (be 4 v) (E.get s) k

  IsStamped-Carries : (s : E.State) (v : ℕ) (s' : E.State) → v ≤ 2 → IsStamped s v s' → Carries s' v
  IsStamped-Carries s v s' h stamped = (
    be 4 v,
    stamped db_version
        ∙ ap (λ b. if b then some (be 4 v) else E.get s db_version) (bytes_eq_self db_version),
    length-be 4 v,
    from_be-be 4 v (omega (arith, h)),
  )

  -- Success is the version of this build, and the marker of it.
  abbrev pub IsMarked : Opened → Type 0
  IsMarked (ok v, left) = (v ≡ 2) × Carries left 2
  IsMarked (err e, left) = Unit

  pub Runs-IsMarked :
      (at : ℕ) (s : E.State) (ms : List (Migration E)) (r : Opened)
      → Carries s at
      → Runs at s ms r
      → IsMarked r
  Runs-IsMarked at s [] r c (arrived e) = (e, subst (Carries s) e c)
  Runs-IsMarked at s [] r c (fell_short e) = tt
  Runs-IsMarked at s (m ∷ ms) r c (skipped h more) = Runs-IsMarked at s ms r c more
  Runs-IsMarked at s (m ∷ ms) r c (too_far h g) = tt
  Runs-IsMarked at s (m ∷ ms) r c (failed h g e) = tt
  Runs-IsMarked at s (m ∷ ms) r c (ran s' marked h g e stamped more) =
      Runs-IsMarked m.to marked ms r (IsStamped-Carries s' m.to marked g stamped) more

  pub run_steps-Runs :
      (at : ℕ) (s : E.State) (ms : List (Migration E)) → Runs at s ms (run_steps E at s ms)
  unfolding run_steps
  run_steps-Runs at s [] = elim (Bool-cases (at == schema_version)) [
    | inl e ↦ rw e (arrived (ground arith))
    | inr e ↦ rw e (fell_short (λ q. ground arith))
  ]
  run_steps-Runs at s (m ∷ ms) =
      by_tests (leb m.to at) refl (ltb schema_version m.to) refl (run_steps-Runs at s ms) (m.run s)
        refl (λ t. run_steps-Runs m.to t ms)
    where
      by_tests :
          (a : Bool)
          → leb m.to at ≡ a
          → (b : Bool) → ltb schema_version m.to ≡ b
          → Runs at s ms (run_steps E at s ms)
          → (x : Result VersionError (Unit {0}) × E.State) → m.run s ≡ x
          → ((t : E.State) → Runs m.to t ms (run_steps E m.to t ms))
          → Runs at s (m ∷ ms) (
              if a
              then run_steps E at s ms
              else if b
              then (err (beyond m.to), s)
              else stepped E x (λ s'. run_steps E m.to (stamp E s' m.to) ms))
      by_tests true ea b eb rest x ex later = skipped (ground arith) rest
      by_tests false ea true eb rest x ex later = too_far (ground arith) (ground arith)
      by_tests false ea false eb rest (err e, s') ex later = failed (ground arith) (ground arith) ex
      by_tests false ea false eb rest (ok u, s') ex later =
          ran s' (stamp E s' m.to) (ground arith) (ground arith) ex (stamp-IsStamped s' m.to)
            (later (stamp E s' m.to))

  -- In the order of their versions.
  abbrev pub IsAscending : List (Migration E) → Type 0
  IsAscending [] = Unit
  IsAscending (m ∷ []) = Unit
  IsAscending (m ∷ n ∷ ms) = (m.to ≤ n.to) × IsAscending (n ∷ ms)
