-- ===== src/Meta/Interner/Bijection.antt =====
-- Lookups answer what the store holds, and an interned name keeps names and ids one to one.
use summ.Prelude.{
  ℕ, ◌+◌, ◌^◌, ◌<◌, ◌≤◌, ◌≡◌, inl, inr, refl, sym, ap, ◌∙◌, subst, Option, none, some, Bool, true,
  false, Bytes, bytes_eq, bytes_eq→eq, bytes_eq_self, Result, ok, err, ◌==◌, if◌then◌else◌, arith,
  Bool-cases,
}
use summ.Prelude.BigEndian.{be, from_be, from_be-be, length-be}
use summ.Core.Keys.{RepoId, repo_by_name, repo_by_id, parse_repo_id, start}
use summ.Meta.Engine.{MetaEngine, view_op, view_ops}
use summ.Meta.Batch.{new, put}
use summ.Meta.Interner.{
  LruCache, RepoInterner, next_id_key_id, max_repo_id, InvalidData, remember, stored, fetched,
  lookup, next_id, mapping, IsCoherent, read_mapping, read_counter,
}

-- Equality of two ids and of their bytes.
bytes_eq-be : (a b : ℕ) → a < 2 ^ 32 → b < 2 ^ 32 → bytes_eq (be 4 a) (be 4 b) ≡ (a == b)
bytes_eq-be a b ha hb = elim (Bool-cases (bytes_eq (be 4 a) (be 4 b))) [
  | inl e ↦
      let same : a ≡ b =
        sym (from_be-be 4 a ha)
        ∙ ap from_be (bytes_eq→eq (be 4 a) (be 4 b) e)
        ∙ from_be-be 4 b hb in
      ground (arith, e)
  | inr e ↦ elim (Bool-cases (a == b)) [
    | inl q ↦
        let same : a ≡ b = ground (arith, q) in
        absurd (cc (ap (λ x. bytes_eq (be 4 a) (be 4 x)) same, e, bytes_eq_self (be 4 a)))
    | inr q ↦ e ∙ sym q
  ]
]

parse_repo_id-be : (id : RepoId) → id < 2 ^ 32 → parse_repo_id (be 4 id) ≡ some id
unfolding parse_repo_id
parse_repo_id-be id h = ground (arith, length-be 4 id, from_be-be 4 id h)

read_mapping-be : (id : RepoId) → id < 2 ^ 32 → read_mapping (some (be 4 id)) ≡ ok (some id)
read_mapping-be id h = rw (parse_repo_id-be id h, read_mapping) refl

read_counter-be : (id : RepoId) → id < 2 ^ 32 → read_counter (some (be 4 id)) ≡ ok id
read_counter-be id h = rw (parse_repo_id-be id h, read_counter) refl

module _ (E : MetaEngine) (N : LruCache Bytes RepoId) (I : LruCache RepoId Bytes) where
  -- What the mapping of a new name changes.
  get-mapping_name :
      (s : E.State) (name : Bytes) (id : RepoId) (m : Bytes)
      → E.get (E.apply s (mapping E N I name id)) (repo_by_name m)
        ≡ (if bytes_eq name m then some (be 4 id) else E.get s (repo_by_name m))
  unfolding mapping put new view_ops view_op repo_by_name repo_by_id start
  get-mapping_name s name id m = E.get-apply s (mapping E N I name id) (repo_by_name m)

  pub get-mapping_id :
      (s : E.State) (name : Bytes) (id j : RepoId)
      → id ≤ max_repo_id
      → j ≤ next_id_key_id
      → E.get (E.apply s (mapping E N I name id)) (repo_by_id j) ≡ (
          if next_id_key_id == j
          then some (be 4 (id + 1))
          else (if id == j then some name else E.get s (repo_by_id j)))
  unfolding mapping put new view_ops view_op repo_by_name repo_by_id start
  get-mapping_id s name id j h hj =
      E.get-apply s (mapping E N I name id) (repo_by_id j)
      ∙ rw
          (
            bytes_eq-be next_id_key_id j (omega arith) (omega arith),
            bytes_eq-be id j (omega arith) (omega arith),
          )
          refl

  pub stored-mapping :
      (s : E.State) (name : Bytes) (id : RepoId) (m : Bytes)
      → id ≤ max_repo_id
      → stored E N I (E.apply s (mapping E N I name id)) m
        ≡ (if bytes_eq name m then ok (some id) else stored E N I s m)
  unfolding stored
  stored-mapping s name id m h =
      ap read_mapping (get-mapping_name s name id m) ∙ read_if (bytes_eq name m)
    where
      read_if :
          (b : Bool)
          → read_mapping (if b then some (be 4 id) else E.get s (repo_by_name m))
            ≡ (if b then ok (some id) else read_mapping (E.get s (repo_by_name m)))
      read_if true = read_mapping-be id (omega arith)
      read_if false = refl

  pub next_id-mapping :
      (s : E.State) (name : Bytes) (id : RepoId)
      → id ≤ max_repo_id
      → next_id E N I (E.apply s (mapping E N I name id)) ≡ ok (id + 1)
  unfolding next_id
  next_id-mapping s name id h =
      ap read_counter (get-mapping_id s name id next_id_key_id h (omega arith))
      ∙ read_counter-be (id + 1) (omega arith)

  -- The caches stay within the store when an entry of the store is remembered.
  pub remember-IsCoherent :
      (s : E.State) (i : RepoInterner E N I) (name : Bytes) (id : RepoId)
      → stored E N I s name ≡ ok (some id)
      → IsCoherent E N I s i
      → IsCoherent E N I s (remember E N I i name id)
  unfolding remember
  remember-IsCoherent s i name id h (by_name, by_id) = (
    (λ m j q. elim (N.peek-put i.by_name name id m j q) [
      | inl (em, ej) ↦
          subst (λ x. stored E N I s x ≡ ok (some j)) (sym em)
            (subst (λ x. stored E N I s name ≡ ok (some x)) (sym ej) h)
      | inr old ↦ by_name m j old
    ]),
    (λ m j q. elim (I.peek-put i.by_id id name j m q) [
      | inl (ej, em) ↦
          subst (λ x. stored E N I s x ≡ ok (some j)) (sym em)
            (subst (λ x. stored E N I s name ≡ ok (some x)) (sym ej) h)
      | inr old ↦ by_id m j old
    ]),
  )

  fetched-stored :
      (s : E.State) (i : RepoInterner E N I) (name : Bytes) (r : Result InvalidData (Option RepoId))
      → stored E N I s name ≡ r
      → IsCoherent E N I s i
      → ((fetched E N I i name r).0 ≡ r) × IsCoherent E N I s (fetched E N I i name r).1
  unfolding fetched
  fetched-stored s i name (err e) q h = (refl, h)
  fetched-stored s i name (ok none) q h = (refl, h)
  fetched-stored s i name (ok (some id)) q h = (refl, remember-IsCoherent s i name id q h)

  -- While the caches hold only mappings of the store, a lookup answers what the store holds, and keeps
  -- them so.
  pub lookup-stored :
      (s : E.State) (i : RepoInterner E N I) (name : Bytes)
      → IsCoherent E N I s i
      → ((lookup E N I s i name).0 ≡ stored E N I s name)
        × IsCoherent E N I s (lookup E N I s i name).1
  lookup-stored s i name h = by_cache (N.peek i.by_name name) refl
    where
      by_cache :
          (o : Option RepoId)
          → N.peek i.by_name name ≡ o
          → ((lookup E N I s i name).0 ≡ stored E N I s name)
            × IsCoherent E N I s (lookup E N I s i name).1
      by_cache (some id) e =
          unfold lookup in
          rw (e, lookup)
            (sym (h.0 name id e), ((λ m j q. h.0 m j (N.peek-touch i.by_name name m j q)), h.1))
      by_cache none e =
          unfold lookup in rw (e, lookup) (fetched-stored s i name (stored E N I s name) refl h)
