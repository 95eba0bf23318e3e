-- ===== src/Meta/Interner/Allocation.antt =====
-- Interning keeps names and ids one to one: an id is given to one name, and once.
use summ.Prelude.{
  ◌+◌, ◌<◌, ◌≤◌, ◌≡◌, ◌≢◌, ◌↔◌, inl, inr, refl, sym, ap, ◌∙◌, Option, none, some, true, false,
  Bytes, bytes_eq, bytes_eq→eq, bytes_eq_self, Result, ok, err, ltb, ◌==◌, if◌then◌else◌, arith,
  Bool-cases, ==_self,
}
use summ.Core.Keys.{RepoId, repo_by_id}
use summ.Meta.Engine.{MetaEngine}
use summ.Meta.Interner.{
  LruCache, RepoInterner, next_id_key_id, max_repo_id, InvalidData, remember, stored, lookup,
  next_id, mapping, Interned, allocate, or_else, exhausted, intern, IsMapped, IsCoherent,
}
use summ.Meta.Interner.Bijection.{
  get-mapping_id, stored-mapping, next_id-mapping, remember-IsCoherent, lookup-stored,
}

-- What the store has for a name after it was interned: the id of the answer.
abbrev pub given :
    Result InvalidData RepoId
    → Result InvalidData (Option RepoId)
    → Result InvalidData (Option RepoId)
given (ok id) before = ok (some id)
given (err e) before = before

module _ (E : MetaEngine) (N : LruCache Bytes RepoId) (I : LruCache RepoId Bytes) where
  -- The state behind an interning of a name: a bijection, coherent caches, and no other name changed.
  abbrev pub IsInterned : E.State → Bytes → Interned E N I → Type 0
  IsInterned s name r =
      IsMapped E N I r.1
      × IsCoherent E N I r.1 r.2
      × ((m : Bytes)
          → stored E N I r.1 m
            ≡ (if bytes_eq name m then given r.0 (stored E N I s m) else stored E N I s m))

  -- Nothing written and no id.
  unchanged :
      (s : E.State) (i : RepoInterner E N I) (name : Bytes) (e : InvalidData)
      → IsMapped E N I s
      → IsCoherent E N I s i
      → IsInterned s name (err e, s, i)
  unchanged s i name e h c = (h, c, (λ m. ground arith))

  -- The id that the name had.
  known :
      (s : E.State) (i : RepoInterner E N I) (name : Bytes) (id : RepoId)
      → IsMapped E N I s
      → IsCoherent E N I s i
      → stored E N I s name ≡ ok (some id)
      → IsInterned s name (ok id, s, i)
  known s i name id h c e = (h, c, (λ m. known_at m))
    where
      known_at :
          (m : Bytes)
          → stored E N I s m ≡ (if bytes_eq name m then ok (some id) else stored E N I s m)
      known_at m = elim (Bool-cases (bytes_eq name m)) [
        | inl q ↦ rw q (ap (stored E N I s) (sym (bytes_eq→eq name m q)) ∙ e)
        | inr q ↦ rw q refl
      ]

  module _ (s : E.State) (name : Bytes) (id : RepoId) (h : IsMapped E N I s)
      (free : stored E N I s name ≡ ok none) (counter : next_id E N I s ≡ ok id)
      (room : id ≤ max_repo_id) where
    -- The state with the new mapping.
    abbrev mapped : E.State
    mapped = E.apply s (mapping E N I name id)

    fresh : (m : Bytes) → stored E N I s m ≢ ok (some id)
    fresh m e =
        let (n, q, lt, le) = h.1 m id e in
        let same : n ≡ id = cc (q, counter) in absurd (omega arith)

    at_name : (m : Bytes) → bytes_eq name m ≡ true → stored E N I mapped m ≡ ok (some id)
    at_name m e = stored-mapping E N I s name id m room ∙ ground (arith, e)

    at_other : (m : Bytes) → bytes_eq name m ≡ false → stored E N I mapped m ≡ stored E N I s m
    at_other m e = stored-mapping E N I s name id m room ∙ ground (arith, e)

    at_id :
        (j : RepoId) → j ≤ max_repo_id → (id == j) ≡ true → E.get mapped (repo_by_id j) ≡ some name
    at_id j hj e = get-mapping_id E N I s name id j room (omega arith) ∙ ground (arith, e)

    at_other_id :
        (j : RepoId)
        → j ≤ max_repo_id
        → (id == j) ≡ false
        → E.get mapped (repo_by_id j) ≡ E.get s (repo_by_id j)
    at_other_id j hj e = get-mapping_id E N I s name id j room (omega arith) ∙ ground (arith, e)

    both_ways :
        (m : Bytes) (j : RepoId)
        → j ≤ max_repo_id
        → (stored E N I mapped m ≡ ok (some j)) ↔ (E.get mapped (repo_by_id j) ≡ some m)
    both_ways m j hj = elim (Bool-cases (bytes_eq name m)) [
      | inl e ↦ elim (Bool-cases (id == j)) [
        | inl q ↦ (
          (λ u. at_id j hj q ∙ ap some (bytes_eq→eq name m e)),
          (λ u. let same : id ≡ j = ground arith in at_name m e ∙ ap (λ x. ok (some x)) same),
        )
        | inr q ↦ (
          (λ u. absurd (
              let same : id ≡ j = cc (at_name m e, u) in
              cc (ap (λ x. id == x) same, ==_self id, q))),
          (λ u. absurd (
              cc (
                free,
                (h.0 name j hj).1
                    (sym (at_other_id j hj q) ∙ u ∙ ap some (sym (bytes_eq→eq name m e))),
              ))),
        )
      ]
      | inr e ↦ elim (Bool-cases (id == j)) [
        | inl q ↦ (
          (λ u. absurd (
              fresh m (
                sym (at_other m e)
                ∙ u
                ∙ ap (λ x. ok (some x)) (let same : j ≡ id = ground arith in same)))),
          (λ u. absurd (
              let same : name ≡ m = cc (at_id j hj q, u) in
              cc (ap (bytes_eq name) same, bytes_eq_self name, e))),
        )
        | inr q ↦ (
          (λ u. at_other_id j hj q ∙ (h.0 m j hj).0 (sym (at_other m e) ∙ u)),
          (λ u. at_other m e ∙ (h.0 m j hj).1 (sym (at_other_id j hj q) ∙ u)),
        )
      ]
    ]

    below_counter :
        (m : Bytes) (j : RepoId)
        → stored E N I mapped m ≡ ok (some j)
        → (n : RepoId) × (next_id E N I mapped ≡ ok n) × (j < n) × (n ≤ next_id_key_id)
    below_counter m j e = elim (Bool-cases (bytes_eq name m)) [
      | inl q ↦
          let same : id ≡ j = cc (at_name m q, e) in
          (id + 1, next_id-mapping E N I s name id room, omega arith, omega arith)
      | inr q ↦
          let (n, u, lt, le) = h.1 m j (sym (at_other m q) ∙ e) in
          let same : n ≡ id = cc (u, counter) in
          (id + 1, next_id-mapping E N I s name id room, omega arith, omega arith)
    ]

    coherent :
        (i : RepoInterner E N I)
        → IsCoherent E N I s i
        → IsCoherent E N I mapped (remember E N I i name id)
    coherent i c =
        remember-IsCoherent E N I mapped i name id (at_name name (bytes_eq_self name))
          ((λ m j u. kept m j (c.0 m j u)), (λ m j u. kept m j (c.1 m j u)))
      where
        kept :
            (m : Bytes) (j : RepoId)
            → stored E N I s m ≡ ok (some j)
            → stored E N I mapped m ≡ ok (some j)
        kept m j u = elim (Bool-cases (bytes_eq name m)) [
          | inl e ↦ absurd (cc (ap (stored E N I s) (bytes_eq→eq name m e), u, free))
          | inr e ↦ at_other m e ∙ u
        ]

    allocated :
        (i : RepoInterner E N I)
        → IsCoherent E N I s i
        → IsInterned s name (ok id, mapped, remember E N I i name id)
    allocated i c =
        ((both_ways, below_counter), coherent i c, (λ m. stored-mapping E N I s name id m room))

  -- One way of `or_else`: the answer of a lookup that is the store's.
  through :
      (s : E.State) (name : Bytes) (l : Result InvalidData (Option RepoId) × RepoInterner E N I)
      (rest : RepoInterner E N I → Interned E N I)
      → IsMapped E N I s
      → (l.0 ≡ stored E N I s name) × IsCoherent E N I s l.1
      → (stored E N I s name ≡ ok none → IsInterned s name (rest l.1))
      → IsInterned s name (or_else E N I s l rest)
  through s name (err e, i) rest h (q, c) go = unchanged s i name e h c
  through s name (ok (some id), i) rest h (q, c) go = known s i name id h c (sym q)
  through s name (ok none, i) rest h (q, c) go = go (sym q)

  allocate-IsInterned :
      (s : E.State) (i : RepoInterner E N I) (name : Bytes)
      → IsMapped E N I s
      → IsCoherent E N I s i
      → stored E N I s name ≡ ok none
      → IsInterned s name (allocate E N I s i name)
  allocate-IsInterned s i name h c free = by_counter (next_id E N I s) refl
    where
      by_counter :
          (r : Result InvalidData RepoId)
          → next_id E N I s ≡ r
          → IsInterned s name (allocate E N I s i name)
      by_counter (err e) q = unfold allocate in rw (q, allocate) (unchanged s i name e h c)
      by_counter (ok id) q = elim (Bool-cases (ltb max_repo_id id)) [
        | inl u ↦ unfold allocate in rw (q, allocate) (rw u (unchanged s i name exhausted h c))
        | inr u ↦
            let room : id ≤ max_repo_id = ground arith in
            unfold allocate in rw (q, allocate) (rw u (allocated s name id h free q room i c))
      ]

  -- Whatever `intern` returns, the store's names and the ids below its counter stay one to one, the
  -- caches hold only mappings of the store, the name has the id that was returned, and no other name's
  -- id has changed; after an error nothing has.
  pub intern-IsInterned :
      (s : E.State) (i : RepoInterner E N I) (name : Bytes)
      → IsMapped E N I s
      → IsCoherent E N I s i
      → IsInterned s name (intern E N I s i name)
  unfolding intern
  intern-IsInterned s i name h c =
      through s name (lookup E N I s i name) _ h (lookup-stored E N I s i name c) (λ _.
        let first = lookup E N I s i name in
        let (q, c') = lookup-stored E N I s i name c in
        through s name (lookup E N I s first.1 name) _ h (lookup-stored E N I s first.1 name c')
          (λ free.
            allocate-IsInterned s (lookup E N I s first.1 name).1 name h
              (lookup-stored E N I s first.1 name c').1 free))
