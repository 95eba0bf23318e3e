-- ===== src/Registry/Frame.antt =====
-- Which ranges of the store a batch leaves alone, and how a chain of calls that returned was made.
use summ.Prelude.{
  ℕ, ◌==◌, ◌≡◌, ◌||◌, refl, ◌∙◌, Option, none, some, Bool, true, false, [], ◌∷◌, Bytes, bytes_eq,
  if◌then◌else◌, arith, subst,
}
use summ.Core.Digest.{Digest}
use summ.Core.Timestamp.{Timestamp}
use summ.Core.Types.{ManifestRecord}
use summ.Core.Keys
use summ.Core.Keys.{RepoId, start, start_repo}
use summ.Core.Keys.History
use summ.Meta.Engine.{WriteBatch, View, MetaEngine, view_ops}
use summ.Meta.Batch.{put, set, delete, view_ops-put, view_ops-set, view_ops-delete}
use summ.Registry.Outcome.{Outcome, RegistryError, done, fail, panicked, ◌>>=◌}
use summ.Registry.Tags.{
  Codec, TagTarget, retract, record_event, digest_eq, staged_set, staged_delete, stage_set_tag,
  stage_delete_tag, tag_record,
}
use summ.Registry.Reference.{validate_tag}
use summ.Registry.Cosign.{subject_of_artifact_tag}

-- What a call's result has, if the call returns.
pub data Returns {ℓ κ} {A : Type ℓ} (P : A → Type κ) : Outcome A → Type (ℓ ⊔ κ) where
  returns : (a : A) → P a → Returns P (done a)
  fails : (e : RegistryError) → Returns P (fail e)
  panics : Returns P panicked

pub Returns-bind {ℓ κ μ} :
    {A : Type ℓ} {B : Type κ} {P : B → Type μ} (o : Outcome A) {f : A → Outcome B}
    → ((a : A) → Returns P (f a))
    → Returns P (o >>= f)
Returns-bind (done a) h = h a
Returns-bind (fail e) h = fails e
Returns-bind panicked h = panics

-- With what the first call has.
pub Returns-then {ℓ κ μ ν} :
    {A : Type ℓ} {B : Type κ} {P : B → Type μ} (Q : A → Type ν) (o : Outcome A) {f : A → Outcome B}
    → Returns Q o
    → ((a : A) → Q a → Returns P (f a))
    → Returns P (o >>= f)
Returns-then Q (done a) (returns b q) h = h b q
Returns-then Q (fail e) q h = fails e
Returns-then Q panicked q h = panics

pub Returns-both {ℓ κ μ} :
    {A : Type ℓ} (P : A → Type κ) (Q : A → Type μ) (o : Outcome A)
    → Returns P o
    → Returns Q o
    → Returns (λ a. P a × Q a) o
Returns-both P Q (done a) (returns b p) (returns c q) = returns b (p, q)
Returns-both P Q (fail e) p q = fails e
Returns-both P Q panicked p q = panics

pub Returns-mono {ℓ κ μ} :
    {A : Type ℓ} {P : A → Type κ} (Q : A → Type μ) (o : Outcome A)
    → ((a : A) → P a → Q a)
    → Returns P o
    → Returns Q o
Returns-mono Q (done a) h (returns b p) = returns b (h b p)
Returns-mono Q (fail e) h p = fails e
Returns-mono Q panicked h p = panics

pub returned {ℓ κ} :
    {A : Type ℓ} (P : A → Type κ) (o : Outcome A) (a : A) → Returns P o → o ≡ done a → P a
returned P (done a) b (returns a' h) e = subst P (cc e) h
returned P (fail x) b h e = absurd (cc e)
returned P panicked b h e = absurd (cc e)

-- The range of a key is its first byte.
abbrev pub in_range : ℕ → Bytes → Bool
in_range p [] = false
in_range p (b ∷ key) = b == p

-- The second batch leaves the range as the first one does.
abbrev pub Keeps : ℕ → WriteBatch → WriteBatch → Type 0
Keeps p b c = (v : View) (k : Bytes) → view_ops c.ops v (p ∷ k) ≡ view_ops b.ops v (p ∷ k)

pub Keeps-refl : (p : ℕ) (b : WriteBatch) → Keeps p b b
Keeps-refl p b v k = refl

pub Keeps-trans : (p : ℕ) (b c d : WriteBatch) → Keeps p b c → Keeps p c d → Keeps p b d
Keeps-trans p b c d h g v k = g v k ∙ h v k

elsewhere : (p : ℕ) (key k : Bytes) → in_range p key ≡ false → bytes_eq key (p ∷ k) ≡ false
elsewhere p [] k h = refl
elsewhere p (b ∷ key) k h = ground (arith, h)

module _ (p : ℕ) (b c : WriteBatch) (key : Bytes) (h : in_range p key ≡ false) where
  pub Keeps-put : (value : Bytes) → Keeps p b c → Keeps p b (put c key value)
  Keeps-put value g v k = view_ops-put c key value v (p ∷ k) ∙ rw (elsewhere p key k h) (g v k)

  pub Keeps-set : Keeps p b c → Keeps p b (set c key)
  Keeps-set g v k = view_ops-set c key v (p ∷ k) ∙ rw (elsewhere p key k h) (g v k)

  pub Keeps-delete : Keeps p b c → Keeps p b (delete c key)
  Keeps-delete g v k = view_ops-delete c key v (p ∷ k) ∙ rw (elsewhere p key k h) (g v k)

-- The ranges of tags, their edges and histories, and referrers.
abbrev pub is_tag_range : ℕ → Bool
is_tag_range p = b'T' == p || b'G' == p || b'H' == p || b'J' == p || b'F' == p

module _ (C : Codec) (p : ℕ) (h : is_tag_range p ≡ false) where
  Keeps-record_event :
      (b c : WriteBatch) (r : RepoId) (t : Bytes) (now : Timestamp) (d : Digest) (event : Bytes)
      → Keeps p b c
      → Keeps p b (record_event c r t now d event)
  unfolding record_event History.tag_history History.tag_history_of History.manifest_tag_history
      History.manifest_tag_history_of start_repo start
  Keeps-record_event b c r t now d event g =
      Keeps-put p b _ _ (ground (arith, h)) event (Keeps-put p b c _ (ground (arith, h)) event g)

  Keeps-retract :
      (b c : WriteBatch) (r : RepoId) (t : Bytes) (d : Digest) (subject previous : Option Digest)
      → Keeps p b c
      → Keeps p b (retract c r t d subject previous)
  unfolding retract Keys.manifest_tag Keys.referrer start_repo start
  Keeps-retract b c r t d subject none g = g
  Keeps-retract b c r t d none (some old) g = by_test (digest_eq old d)
    where
      by_test : (x : Bool) → Keeps p b (if x then c else delete c (Keys.manifest_tag r old t))
      by_test true = g
      by_test false = Keeps-delete p b c _ (ground (arith, h)) g
  Keeps-retract b c r t d (some s) (some old) g = by_test (digest_eq old d)
    where
      by_test :
          (x : Bool)
          → Keeps p b (
              if x
              then c
              else delete (delete c (Keys.manifest_tag r old t)) (Keys.referrer r s old))
      by_test true = g
      by_test false =
          Keeps-delete p b _ _ (ground (arith, h))
            (Keeps-delete p b c (Keys.manifest_tag r old t) (ground (arith, h)) g)

  pub Keeps-staged_set :
      (b : WriteBatch) (r : RepoId) (t : Bytes) (target : TagTarget) (now : Timestamp)
      (subject previous : Option Digest)
      → Keeps p b (staged_set C b r t target now subject previous)
  unfolding staged_set Keys.tag Keys.manifest_tag Keys.referrer start_repo start
  Keeps-staged_set b r t target now subject previous = by_subject _ subject (
      Keeps-record_event b _ r t now target.digest _ (
        Keeps-set p b _ (Keys.manifest_tag r target.digest t) (ground (arith, h)) (
          Keeps-put p b _ (Keys.tag r t) (ground (arith, h)) _
            (Keeps-retract b b r t target.digest subject previous (Keeps-refl p b)))))
    where
      by_subject :
          (c : WriteBatch) (o : Option Digest)
          → Keeps p b c
          → Keeps p b (elim o [
            | none ↦ c
            | some s ↦ put c (Keys.referrer r s target.digest) (C.encode_referrer target.referrer)
          ])
      by_subject c none g = g
      by_subject c (some s) g = Keeps-put p b _ _ (ground (arith, h)) _ g

  pub Keeps-staged_delete :
      (b : WriteBatch) (r : RepoId) (t : Bytes) (d : Digest) (m : Option ManifestRecord)
      (now : Timestamp) (subject : Option Digest)
      → Keeps p b (staged_delete C b r t d m now subject)
  unfolding staged_delete Keys.tag Keys.manifest_tag Keys.referrer start_repo start
  Keeps-staged_delete b r t d m now subject = Keeps-record_event b _ r t now d _ (
      by_subject _ subject (
        Keeps-delete p b _ (Keys.manifest_tag r d t) (ground (arith, h))
          (Keeps-delete p b b (Keys.tag r t) (ground (arith, h)) (Keeps-refl p b))))
    where
      by_subject :
          (c : WriteBatch) (o : Option Digest)
          → Keeps p b c
          → Keeps p b (elim o [ none ↦ c | some s ↦ delete c (Keys.referrer r s d) ])
      by_subject c none g = g
      by_subject c (some s) g = Keeps-delete p b _ _ (ground (arith, h)) g

  module _ (E : MetaEngine) where
    pub Keeps-stage_set_tag :
        (s : E.State) (b : WriteBatch) (r : RepoId) (t : Bytes) (target : TagTarget)
        (now : Timestamp)
        → Returns
            (λ (x : WriteBatch × Option Digest). Keeps p b x.0)
            (stage_set_tag C E s b r t target now)
    unfolding stage_set_tag
    Keeps-stage_set_tag s b r t target now = Returns-bind (validate_tag t) (λ u.
        Returns-bind (subject_of_artifact_tag t) (λ subject.
          Returns-bind (tag_record C E s r t)
            (λ found. returns _ (Keeps-staged_set b r t target now subject _))))

  pub Keeps-stage_delete_tag :
      (b : WriteBatch) (r : RepoId) (t : Bytes) (d : Digest) (m : Option ManifestRecord)
      (now : Timestamp)
      → Returns (Keeps p b) (stage_delete_tag C b r t d m now)
  unfolding stage_delete_tag
  Keeps-stage_delete_tag b r t d m now =
      Returns-bind (subject_of_artifact_tag t)
        (λ subject. returns _ (Keeps-staged_delete b r t d m now subject))
