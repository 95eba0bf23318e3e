-- ===== src/Registry/Delete/Sweep.antt =====
-- What the last step of a repository's sweep removes.
use summ.Prelude.{
  ◌∙◌, ap, refl, sym, ◌≡◌, ◌==◌, ◌||◌, Bool, true, false, Option, none, some, List, [], ◌∷◌, ◌++◌,
  Bytes, bytes_eq, bytes_eq→eq, bytes_eq_self, starts_with, strip_prefix, strip_prefix_sound,
  strip_prefix-append, Option-cases, Bool-cases, inl, inr, if◌then◌else◌, arith, append-nil, ==_iff,
}
use summ.Prelude.BigEndian.{be}
use summ.Core.Keys
use summ.Core.Keys.{RepoId, start, start_repo}
use summ.Core.Keys.History
use summ.Core.Keys.Counters
use summ.Core.Keys.Counters.{start_counter}
use summ.Core.Keys.Read.{read_be, read_be-be, read_be-be_last}
use summ.Core.Keys.Schema.{
  Key, IsKey, IsRepo, encode_key, manifest, manifest_body, tag, manifest_tag, blob, blob_mark,
  blob_ref, repo_blob, child_parent, referrer, upload, tag_history, manifest_tag_history,
  counter_manifest, counter_tag, counter_repo, dead_repo, repo_by_name, repo_by_id, db_version,
}
use summ.Meta.Engine.{WriteBatch, View, MetaEngine, view_ops}
use summ.Meta.Batch.{new, delete_prefix, view_ops-delete, view_ops-delete_prefix}
use summ.Registry.Records.{Records}
use summ.Registry.Delete.{ranges_of, delete_ranges, plan_repo_sweep_finish}
use summ.Registry.Delete.Operations.{finish_repo_sweep}

-- The repository in whose ranges a key lies. The reference edges are keyed by the blob first, and the
-- records of blobs, uploads and names belong to none.
abbrev pub owner : Key → Option RepoId
owner (manifest r d) = some r
owner (manifest_body r d) = some r
owner (tag r t) = some r
owner (manifest_tag r d t) = some r
owner (blob d) = none
owner (blob_mark d) = none
owner (blob_ref d r m) = none
owner (repo_blob r d) = some r
owner (child_parent r c p) = some r
owner (referrer r s f) = some r
owner (upload id) = none
owner (tag_history r t at d) = some r
owner (manifest_tag_history r d at t) = some r
owner (counter_manifest r d day shard) = some r
owner (counter_tag r t day shard) = some r
owner (counter_repo r day shard) = some r
-- the record of the sweep itself
owner (dead_repo id) = some id
owner (repo_by_name name) = none
owner (repo_by_id id) = none
owner db_version = none

abbrev pub is_owned : RepoId → Option RepoId → Bool
is_owned repo none = false
is_owned repo (some r) = r == repo

-- Two ids of four bytes.
starts_with-be :
    (a b : RepoId) (rest : Bytes)
    → IsRepo a
    → IsRepo b
    → starts_with (be 4 a ++ rest) (be 4 b) ≡ (a == b)
starts_with-be a b rest ha hb = elim (Bool-cases (a == b)) [
  | inl e ↦
      let same : a ≡ b = (==_iff a b).0 e in
      ap (starts_with (be 4 a ++ rest)) (ap (be 4) (sym same))
      ∙ rw (strip_prefix-append (be 4 a) rest, starts_with) (sym e)
  | inr e ↦ elim (Option-cases (strip_prefix (be 4 a ++ rest) (be 4 b))) [
    | inl none_left ↦ rw (none_left, starts_with) (sym e)
    | inr (s, left) ↦
        let whole : be 4 a ++ rest ≡ be 4 b ++ s =
          strip_prefix_sound (be 4 a ++ rest) (be 4 b) s left in
        let read : ◌≡◌ {A = Option (RepoId × Bytes)} (some (a, rest)) (some (b, s)) =
          sym (read_be-be 4 a rest ha) ∙ ap (read_be 4) whole ∙ read_be-be 4 b s hb in
        let same : a ≡ b = ground (arith, read) in absurd (cc ((==_iff a b).1 same, e))
  ]
]

abbrev under_any : Bytes → List Bytes → Bool
under_any k [] = false
under_any k (p ∷ ps) = starts_with k p || under_any k ps

view_ops-delete_ranges :
    (b : WriteBatch) (ps : List Bytes) (v : View) (k : Bytes)
    → view_ops (delete_ranges b ps).ops v k ≡ (if under_any k ps then none else view_ops b.ops v k)
unfolding delete_ranges
view_ops-delete_ranges b [] v k = refl
view_ops-delete_ranges b (p ∷ ps) v k =
    view_ops-delete_ranges (delete_prefix b p) ps v k
    ∙ ap (λ x. if under_any k ps then none else x) (view_ops-delete_prefix b p v k)
    ∙ by_tests (starts_with k p) (under_any k ps) (view_ops b.ops v k)
  where
    by_tests :
        (a c : Bool) (o : Option Bytes)
        → (if c then none else (if a then none else o)) ≡ (if a || c then none else o)
    by_tests true true o = refl
    by_tests true false o = refl
    by_tests false c o = refl

starts_with-be_self :
    (a b : RepoId) → IsRepo a → IsRepo b → starts_with (be 4 a) (be 4 b) ≡ (a == b)
starts_with-be_self a b ha hb =
    ap (λ s. starts_with s (be 4 b)) (sym (append-nil (be 4 a))) ∙ starts_with-be a b [] ha hb

bytes_eq-be : (a b : RepoId) → IsRepo a → IsRepo b → bytes_eq (be 4 a) (be 4 b) ≡ (b == a)
bytes_eq-be a b ha hb = elim (Bool-cases (b == a)) [
  | inl e ↦
      let same : b ≡ a = (==_iff b a).0 e in
      ap (λ c. bytes_eq (be 4 a) (be 4 c)) same ∙ bytes_eq_self (be 4 a) ∙ sym e
  | inr e ↦ elim (Bool-cases (bytes_eq (be 4 a) (be 4 b))) [
    | inl q ↦
        let read : ◌≡◌ {A = Option (RepoId × Bytes)} (some (a, [])) (some (b, [])) =
          sym (read_be-be_last 4 a ha)
          ∙ ap (read_be 4) (bytes_eq→eq (be 4 a) (be 4 b) q)
          ∙ read_be-be_last 4 b hb in
        let same : b ≡ a = ground (arith, read) in absurd (cc ((==_iff b a).1 same, e))
    | inr q ↦ q ∙ sym e
  ]
]

or_false : (b : Bool) → ((b || false) || false) ≡ b
or_false b = ground arith

module _ (r : RepoId) (hr : IsRepo r) where
  -- A key lies in one of the dropped ranges, or is the sweep's record, exactly if the repository owns it.
  ranges_lem :
      (k : Key)
      → IsKey k
      → (under_any (encode_key k) (ranges_of r) || bytes_eq (Keys.dead_repo r) (encode_key k))
        ≡ is_owned r (owner k)
  unfolding encode_key ranges_of Keys.manifest Keys.manifest_body Keys.tag Keys.manifest_tag
      Keys.blob Keys.blob_mark Keys.blob_ref Keys.repo_blob Keys.child_parent Keys.referrer
      Keys.upload History.tag_history History.manifest_tag_history Counters.counter_manifest
      Counters.counter_tag Counters.counter_repo Keys.dead_repo Keys.repo_by_name Keys.repo_by_id
      Keys.db_version Keys.manifests_in_repo Keys.manifest_bodies_in_repo Keys.tags_in_repo
      Keys.manifest_tags_in_repo Keys.blobs_in_repo Keys.children_in_repo Keys.referrers_in_repo
      History.tag_history_in_repo History.manifest_tag_history_in_repo
      Counters.counters_in_repo_scope start_repo start start_counter History.tag_history_of
      History.manifest_tag_history_of
  ranges_lem (manifest a d) h = or_false _ ∙ starts_with-be a r _ h.0 hr
  ranges_lem (manifest_body a d) h = or_false _ ∙ starts_with-be a r _ h.0 hr
  ranges_lem (tag a t) h = or_false _ ∙ starts_with-be a r _ h hr
  ranges_lem (manifest_tag a d t) h = or_false _ ∙ starts_with-be a r _ h.0 hr
  ranges_lem (repo_blob a d) h = or_false _ ∙ starts_with-be a r _ h.0 hr
  ranges_lem (child_parent a c p) h = or_false _ ∙ starts_with-be a r _ h.0 hr
  ranges_lem (referrer a d f) h = or_false _ ∙ starts_with-be a r _ h.0 hr
  ranges_lem (tag_history a t at d) h = or_false _ ∙ starts_with-be a r _ h.0 hr
  ranges_lem (manifest_tag_history a d at t) h = or_false _ ∙ starts_with-be a r _ h.0 hr
  ranges_lem (counter_manifest a d day shard) h = or_false _ ∙ starts_with-be a r _ h.0 hr
  ranges_lem (counter_tag a t day shard) h = or_false _ ∙ starts_with-be a r _ h.0 hr
  ranges_lem (counter_repo a day shard) h = or_false _ ∙ starts_with-be a r _ h.0 hr
  ranges_lem (blob d) h = refl
  ranges_lem (blob_mark d) h = refl
  ranges_lem (blob_ref d a m) h = refl
  ranges_lem (upload id) h = refl
  ranges_lem (repo_by_name name) h = refl
  ranges_lem (repo_by_id id) h = refl
  ranges_lem db_version h = refl
  ranges_lem (dead_repo id) h = bytes_eq-be r id hr h

  -- Behind the last step of a repository's sweep, its manifests, bodies, tags, edges, blob memberships,
  -- referrers, histories and counters are gone, and so is the record of the sweep; every other key
  -- answers what it did, those of other repositories and the reference edges included.
  pub finish_repo_sweep_exact :
      (R : Records) (E : MetaEngine) (s : E.State) (k : Key)
      → IsKey k
      → E.get (finish_repo_sweep R E s r) (encode_key k)
        ≡ (if is_owned r (owner k) then none else E.get s (encode_key k))
  unfolding finish_repo_sweep plan_repo_sweep_finish view_ops new
  finish_repo_sweep_exact R E s k h =
      E.get-apply s (plan_repo_sweep_finish r) (encode_key k)
      ∙ view_ops-delete _ (Keys.dead_repo r) (E.get s) (encode_key k)
      ∙ ap (λ x. if bytes_eq (Keys.dead_repo r) (encode_key k) then none else x)
          (view_ops-delete_ranges new (ranges_of r) (E.get s) (encode_key k))
      ∙ by_tests _ _ _ (ranges_lem k h) (E.get s (encode_key k))
    where
      by_tests :
          (a b c : Bool)
          → (b || a) ≡ c
          → (o : Option Bytes)
          → (if a then none else (if b then none else o)) ≡ (if c then none else o)
      by_tests a b c e o = ground (arith, e)
