-- ===== src/Meta/Interner.antt =====
-- summ-meta/src/interner.rs: repository names and ids. The two LRU caches are a parameter; the lock is
-- not modelled, so a call runs without another in between.
pub mod Bijection
pub mod Allocation
use summ.Prelude.{
  ℕ, ◌+◌, ◌-◌, ◌^◌, ◌<◌, ◌≤◌, ◌≡◌, ◌≢◌, ◌⊎◌, ◌↔◌, Option, none, some, Bool, true, false, List, [],
  ◌∷◌, Bytes, Result, ok, err, ltb, if◌then◌else◌,
}
use summ.Prelude.BigEndian.{be}
use summ.Core.Utf8.{from_utf8}
use summ.Core.Keys.{RepoId, repo_by_name, repo_by_id, parse_repo_id}
use summ.Meta.Engine.{WriteBatch, MetaEngine}
use summ.Meta.Batch.{new, put}

-- `lru::LruCache`: what `get` answers, the entry that it moves to the front, and the writes. A cache may
-- drop any entry, and answers nothing that was not put.
pub record LruCache (K V : Type 0) : Type 1 where
  pub Cache : Type 0
  pub peek : Cache → K → Option V
  pub touch : Cache → K → Cache
  pub put : Cache → K → V → Cache
  pub pop : Cache → K → Cache
  pub peek-touch : (c : Cache) (k j : K) (w : V) → peek (touch c k) j ≡ some w → peek c j ≡ some w
  pub peek-put :
      (c : Cache) (k : K) (v : V) (j : K) (w : V)
      → peek (put c k v) j ≡ some w
      → ((j ≡ k) × (w ≡ v)) ⊎ (peek c j ≡ some w)
  pub peek-pop :
      (c : Cache) (k j : K) (w : V) → peek (pop c k) j ≡ some w → (j ≢ k) × (peek c j ≡ some w)

abbrev pub next_id_key_id : RepoId
next_id_key_id = 2 ^ 32 - 1

abbrev pub max_repo_id : RepoId
max_repo_id = next_id_key_id - 1

-- The errors of the interner, all `SummError::InvalidData`.
pub data InvalidData : Type 0 where
  bad_repo_id bad_repo_name bad_counter exhausted : InvalidData

-- What a name's key and the counter's key hold.
abbrev pub read_mapping : Option Bytes → Result InvalidData (Option RepoId)
read_mapping none = ok none
read_mapping (some raw) = elim (parse_repo_id raw) [
  | none ↦ err bad_repo_id
  | some id ↦ ok (some id)
]

abbrev pub read_counter : Option Bytes → Result InvalidData RepoId
read_counter none = ok 0
read_counter (some raw) = elim (parse_repo_id raw) [ none ↦ err bad_counter | some id ↦ ok id ]

module _ (E : MetaEngine) (N : LruCache Bytes RepoId) (I : LruCache RepoId Bytes) where
  pub record RepoInterner : Type 0 where
    pub by_name : N.Cache
    pub by_id : I.Cache

  unfoldable pub remember : RepoInterner → Bytes → RepoId → RepoInterner
  remember i name id = record { by_name = N.put i.by_name name id; by_id = I.put i.by_id id name }

  unfoldable pub forget : RepoInterner → Bytes → RepoId → RepoInterner
  forget i name id = record { by_name = N.pop i.by_name name; by_id = I.pop i.by_id id }

  -- The store's answer, behind the cache.
  unfoldable pub stored : E.State → Bytes → Result InvalidData (Option RepoId)
  stored s name = read_mapping (E.get s (repo_by_name name))

  -- A miss that the store answers fills the cache.
  unfoldable pub fetched :
      RepoInterner
      → Bytes
      → Result InvalidData (Option RepoId)
      → Result InvalidData (Option RepoId) × RepoInterner
  fetched i name (err e) = (err e, i)
  fetched i name (ok none) = (ok none, i)
  fetched i name (ok (some id)) = (ok (some id), remember i name id)

  unfoldable pub lookup :
      E.State → RepoInterner → Bytes → Result InvalidData (Option RepoId) × RepoInterner
  lookup s i name = elim (N.peek i.by_name name) [
    | some id ↦ (ok (some id), record { by_name = N.touch i.by_name name; by_id = i.by_id })
    | none ↦ fetched i name (stored s name)
  ]

  unfoldable pub resolve :
      E.State → RepoInterner → RepoId → Result InvalidData (Option Bytes) × RepoInterner
  resolve s i id = elim (I.peek i.by_id id) [
    | some name ↦ (ok (some name), record { by_name = i.by_name; by_id = I.touch i.by_id id })
    | none ↦ elim (E.get s (repo_by_id id)) [
      | none ↦ (ok none, i)
      | some raw ↦ elim (from_utf8 raw) [
        | none ↦ (err bad_repo_name, i)
        | some name ↦ (ok (some name), remember i name id)
      ]
    ]
  ]

  unfoldable pub next_id : E.State → Result InvalidData RepoId
  next_id s = read_counter (E.get s (repo_by_id next_id_key_id))

  -- The batch of a new name: both directions and the counter.
  unfoldable pub mapping : Bytes → RepoId → WriteBatch
  unfolding put new
  mapping name id =
      put (put (put new (repo_by_name name) (be 4 id)) (repo_by_id id) name)
        (repo_by_id next_id_key_id) (be 4 (id + 1))

  abbrev pub Interned : Type 0
  Interned = Result InvalidData RepoId × E.State × RepoInterner

  -- The rest of `intern`, for a name that has no id.
  unfoldable pub allocate : E.State → RepoInterner → Bytes → Interned
  unfolding mapping
  allocate s i name = elim (next_id s) [
    | err e ↦ (err e, s, i)
    | ok id ↦
        if ltb max_repo_id id
        then (err exhausted, s, i)
        else (ok id, E.apply s (mapping name id), remember i name id)
  ]

  -- What a look in the cache and the store decides, and what to do if there is no id.
  abbrev pub or_else :
      E.State
      → Result InvalidData (Option RepoId) × RepoInterner
      → (RepoInterner → Interned)
      → Interned
  or_else s (err e, i) rest = (err e, s, i)
  or_else s (ok (some id), i) rest = (ok id, s, i)
  or_else s (ok none, i) rest = rest i

  unfoldable pub intern : E.State → RepoInterner → Bytes → Interned
  intern s i name =
      or_else s (lookup s i name) (λ j. or_else s (lookup s j name) (λ l. allocate s l name))

  -- The store's mapping is a bijection between the names and the ids below the counter.
  abbrev pub IsMapped : E.State → Type 0
  IsMapped s =
      ((name : Bytes) (id : RepoId)
        → id ≤ max_repo_id
        → (stored s name ≡ ok (some id)) ↔ (E.get s (repo_by_id id) ≡ some name))
      × ((name : Bytes) (id : RepoId)
          → stored s name ≡ ok (some id)
          → (n : RepoId) × (next_id s ≡ ok n) × (id < n) × (n ≤ next_id_key_id))

  -- The caches hold only mappings of the store.
  abbrev pub IsCoherent : E.State → RepoInterner → Type 0
  IsCoherent s i =
      ((name : Bytes) (id : RepoId)
        → N.peek i.by_name name ≡ some id
        → stored s name ≡ ok (some id))
      × ((name : Bytes) (id : RepoId)
          → I.peek i.by_id id ≡ some name
          → stored s name ≡ ok (some id))
