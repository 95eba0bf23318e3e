-- ===== src/Meta/Tests.antt =====
-- The engine's theorems at a concrete table: a sorted association list.
use summ.Prelude.{
  if◌then◌else◌, Option, bytes_eq, bytes_eq→eq, ◌==◌, inl, ◌≡◌, ◌↔◌, refl, true, some, none, [],
  ◌∷◌, arith, Bytes, codes, starts_with,
}
use summ.Prelude.Lex.{lex}
use summ.Meta.Engine.{MetaEngine, MetaOp, WriteBatch, view_ops}
use summ.Meta.Batch.{is_empty}
use summ.Meta.Redb.{select, find, apply_ops, apply_op, scan, exists_prefix, apply}
use summ.Meta.Redb.Sorted.{SortedEntries, sorted_table, empty_table}
use summ.Meta.Redb.Paging.{requested, page_of, pages, scan-page_of, pages-requested}
use summ.Core.Keys.{RepoId}
use summ.Prelude.{ok}
use summ.Meta.Version.{ensure}
use summ.Meta.Version.Ensured.{IsOpened, ensure-IsOpened}
use summ.Meta.Scans.{redb_scans}
use summ.Meta.Redb.Sorted.{SortedEntries}
use summ.Meta.Batch.{new, put}
use summ.Core.Keys.{db_version}
use summ.Prelude.BigEndian.{be}
use summ.Meta.Version
use summ.Meta.Interner.{LruCache, RepoInterner, stored, lookup, intern, IsMapped, IsCoherent}
use summ.Meta.Interner.Bijection.{lookup-stored}
use summ.Meta.Interner.Allocation.{IsInterned, intern-IsInterned}
use summ.Meta.Redb.Refines.{redb_engine, apply-view_ops, exists_prefix_lem}

abbrev pub put_tags : WriteBatch
put_tags = record {
  ops =
      MetaOp.put (codes "Tb") (codes "2")
      ∷ MetaOp.put (codes "Ta") (codes "1")
      ∷ MetaOp.put (codes "Gx") []
      ∷ MetaOp.put (codes "Tc") (codes "3")
      ∷ MetaOp.delete_prefix (codes "G")
      ∷ [];
}

abbrev pub tags : SortedEntries
tags = apply sorted_table empty_table put_tags

apply-view_ops_example :
    sorted_table.get tags (codes "Ta")
    ≡ view_ops put_tags.ops (sorted_table.get empty_table) (codes "Ta")
apply-view_ops_example = apply-view_ops sorted_table empty_table put_tags (codes "Ta")

exists_prefix_lem_example : (exists_prefix sorted_table tags (codes "T") ≡ true) ↔ (
    (k : Bytes) × (v : Bytes) × (sorted_table.get tags k ≡ some v)
    × (starts_with k (codes "T") ≡ true))
exists_prefix_lem_example = exists_prefix_lem sorted_table tags (codes "T")

scan-page_of_example :
    scan sorted_table tags (codes "T") (some (codes "Ta")) 1
    ≡ page_of 1 (requested (codes "T") (some (codes "Ta")) (sorted_table.entries tags))
scan-page_of_example =
    scan-page_of sorted_table tags (codes "T") (some (codes "Ta")) 1 refl (omega arith)

pages-requested_example :
    pages sorted_table 4 tags (codes "T") none 1
    ≡ requested (codes "T") none (sorted_table.entries tags)
unfolding apply apply_ops apply_op is_empty lex requested select
pages-requested_example =
    pages-requested sorted_table 4 tags (codes "T") none 1 tt (omega arith) (omega arith)

-- Caches of one entry.
pub of_name :
    (k : Bytes) (v : RepoId) (j : Bytes) (w : RepoId)
    → (if bytes_eq k j then some v else none) ≡ some w
    → (j ≡ k) × (w ≡ v)
of_name k v j w e = (ground (arith, bytes_eq→eq k j), ground arith)

pub of_id :
    (k : RepoId) (v : Bytes) (j : RepoId) (w : Bytes)
    → (if k == j then some v else none) ≡ some w
    → (j ≡ k) × (w ≡ v)
of_id k v j w e = (ground arith, ground arith)

pub nothing_cached {ℓ κ} : {A : Type ℓ} {B : Type κ} (w : A) → none ≡ some w → B
nothing_cached w e = absurd (cc e)

abbrev pub name_cache : LruCache Bytes RepoId
name_cache = record {
  Cache = Option (Bytes × RepoId);
  peek = λ c k. elim c [ none ↦ none | some (j, v) ↦ if bytes_eq j k then some v else none ];
  touch = λ c k. c;
  put = λ c k v. some (k, v);
  pop = λ c k. none;
  peek-touch = λ c k j w e. e;
  peek-put = λ c k v j w e. inl (of_name k v j w e);
  peek-pop = λ c k j w e. nothing_cached w e;
}

abbrev pub id_cache : LruCache RepoId Bytes
id_cache = record {
  Cache = Option (RepoId × Bytes);
  peek = λ c k. elim c [ none ↦ none | some (j, v) ↦ if j == k then some v else none ];
  touch = λ c k. c;
  put = λ c k v. some (k, v);
  pop = λ c k. none;
  peek-touch = λ c k j w e. e;
  peek-put = λ c k v j w e. inl (of_id k v j w e);
  peek-pop = λ c k j w e. nothing_cached w e;
}

abbrev pub engine : MetaEngine
engine = redb_engine sorted_table

abbrev pub no_names : RepoInterner engine name_cache id_cache
no_names = record { by_name = none; by_id = none }

empty-IsMapped : IsMapped engine name_cache id_cache empty_table
unfolding stored find
empty-IsMapped =
    ((λ name id h. ((λ e. absurd (cc e)), (λ e. absurd (cc e)))), (λ name id e. absurd (cc e)))

no_names-IsCoherent : IsCoherent engine name_cache id_cache empty_table no_names
no_names-IsCoherent = ((λ name id e. absurd (cc e)), (λ name id e. absurd (cc e)))

intern-IsInterned_example :
    IsInterned engine name_cache id_cache empty_table
      (codes "library/alpine")
      (intern engine name_cache id_cache empty_table no_names (codes "library/alpine"))
intern-IsInterned_example =
    intern-IsInterned engine name_cache id_cache empty_table no_names (codes "library/alpine")
      empty-IsMapped no_names-IsCoherent

lookup-stored_example :
    ((lookup engine name_cache id_cache empty_table no_names (codes "a")).0
      ≡ stored engine name_cache id_cache empty_table (codes "a"))
    × IsCoherent engine name_cache id_cache empty_table
        (lookup engine name_cache id_cache empty_table no_names (codes "a")).1
lookup-stored_example =
    lookup-stored engine name_cache id_cache empty_table no_names (codes "a") no_names-IsCoherent

-- A store of the version before, and the step that this build would have for it.
abbrev old_store : SortedEntries
old_store = engine.apply empty_table (put new db_version (be 4 1))

abbrev step_two : Version.Migration engine
step_two = record { to = 2; run = λ s. (ok tt, s) }

ensure-IsOpened_example :
    IsOpened engine old_store
      (step_two ∷ [])
      (engine.get old_store db_version)
      (ensure engine old_store (step_two ∷ []))
ensure-IsOpened_example = ensure-IsOpened engine (redb_scans sorted_table) old_store (step_two ∷ [])
