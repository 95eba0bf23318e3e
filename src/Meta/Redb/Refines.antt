-- ===== src/Meta/Redb/Refines.antt =====
-- The redb engine is a metadata engine: its writes and its existence check are those of the trait.
use summ.Prelude.{
  ◌≡◌, ◌∙◌, ◌↔◌, refl, sym, ap, true, false, Bool, not, none, some, List, [], ◌∷◌, Bytes,
  bytes_eq→eq, bytes_eq_self, starts_with, arith, Bool-cases, inl, inr,
}
use mathlib.Core.Path.{fun_ext}
use summ.Meta.Engine.{MetaOp, WriteBatch, view_op, view_ops, MetaEngine}
use summ.Meta.Batch.{is_empty}
use summ.Meta.Redb.{
  Entries, included, is_below, within, select, find, IsSorted, RedbTable, scan, scan_keys,
  exists_prefix, apply_op, apply_ops, apply,
}
use summ.Meta.Redb.Contiguous.{
  starts_with-not_below, select_none, IsSorted-select, AllKeys, AllKeys-select,
}

module _ (R : RedbTable) where
  get-apply_op :
      (t : R.Table) (op : MetaOp) (k : Bytes) → R.get (apply_op R t op) k ≡ view_op op (R.get t) k
  unfolding apply_op view_op
  get-apply_op t (MetaOp.put key value) k = R.get-insert t key value k
  get-apply_op t (MetaOp.delete key) k = R.get-remove t key k
  get-apply_op t (MetaOp.delete_prefix p) k =
      R.get-retain_in t p (λ j. not (starts_with j p)) k ∙ ground (arith, starts_with-not_below p k)

  get-apply_ops :
      (ops : List MetaOp) (t : R.Table) → R.get (apply_ops R t ops) ≡ view_ops ops (R.get t)
  unfolding apply_ops view_ops
  get-apply_ops [] t = refl
  get-apply_ops (op ∷ ops) t =
      get-apply_ops ops (apply_op R t op) ∙ ap (view_ops ops) (fun_ext (get-apply_op t op))

  -- A batch changes what every key answers as its operations do, one after another: a put, a delete, and
  -- a delete of every key under a prefix and of no other.
  pub apply-view_ops :
      (t : R.Table) (batch : WriteBatch) (k : Bytes)
      → R.get (apply R t batch) k ≡ view_ops batch.ops (R.get t) k
  unfolding apply is_empty
  apply-view_ops t batch k = by_ops batch.ops
    where
      by_ops :
          (ops : List MetaOp)
          → R.get (apply R t (record { ops = ops })) k ≡ view_ops ops (R.get t) k
      by_ops [] = unfold view_ops in refl
      by_ops (op ∷ ops) = λ i. get-apply_ops (op ∷ ops) t i k

find-cons_self : (k v : Bytes) (es : Entries) → find k ((k, v) ∷ es) ≡ some v
unfolding find
find-cons_self k v es = ground (arith, bytes_eq_self k)

-- A key that a list finds and a test keeps is found in the selection.
find-select :
    (keep : Bytes → Bool) (k : Bytes) (es : Entries)
    → keep k ≡ true
    → find k (select keep es) ≡ find k es
unfolding find select
find-select keep k [] h = refl
find-select keep k ((j, v) ∷ es) h = ground (arith, find-select keep k es h, bytes_eq→eq j k)

nothing_under :
    (p k v : Bytes) (es : Entries)
    → IsSorted ((k, v) ∷ es)
    → is_below k p ≡ false
    → starts_with k p ≡ false
    → select (λ i. starts_with i p) ((k, v) ∷ es) ≡ []
unfolding select
nothing_under p k v es s h e = rw (e, select_none p k es s.0 h e) refl

find-nil : (k : Bytes) → find k [] ≡ none
unfolding find
find-nil k = refl

-- The first key not below a prefix decides whether a key under it exists.
first_decides :
    (p k v : Bytes) (es : Entries) (j w : Bytes)
    → IsSorted ((k, v) ∷ es)
    → is_below k p ≡ false
    → find j ((k, v) ∷ es) ≡ some w
    → starts_with j p ≡ true
    → starts_with k p ≡ true
first_decides p k v es j w s h f u = elim (Bool-cases (starts_with k p)) [
  | inl e ↦ e
  | inr e ↦ absurd (
      cc (
        find-select (λ i. starts_with i p) j ((k, v) ∷ es) u,
        nothing_under p k v es s h e,
        find-nil j,
        f,
      ))
]

module _ (R : RedbTable) where
  -- A prefix exists exactly if some key under it has a value.
  pub exists_prefix_lem :
      (t : R.Table) (p : Bytes)
      → (exists_prefix R t p ≡ true)
        ↔ ((k : Bytes) × (v : Bytes) × (R.get t k ≡ some v) × (starts_with k p ≡ true))
  exists_prefix_lem t p = (to, from)
    where
      range : Entries
      range = select (within (included p)) (R.entries t)

      first : Entries → Bool
      first es = elim es [ [] ↦ false | (k, v) ∷ rest ↦ starts_with k p ]

      asked : exists_prefix R t p ≡ first range
      asked = unfold exists_prefix in (λ i. first (R.range-entries t (included p) i))

      get_range : (k : Bytes) → starts_with k p ≡ true → R.get t k ≡ find k range
      get_range k h =
          R.get-entries t k
          ∙ sym (
              find-select (within (included p)) k (R.entries t)
                (ground (arith, starts_with-not_below p k h)))

      witnessed :
          (es : Entries)
          → range ≡ es
          → first es ≡ true
          → (k : Bytes) × (v : Bytes) × (R.get t k ≡ some v) × (starts_with k p ≡ true)
      witnessed [] e h = absurd (cc h)
      witnessed ((k, v) ∷ es) e h = (k, v, get_range k h ∙ ap (find k) e ∙ find-cons_self k v es, h)

      to :
          exists_prefix R t p ≡ true
          → (k : Bytes) × (v : Bytes) × (R.get t k ≡ some v) × (starts_with k p ≡ true)
      to h = witnessed range refl (sym asked ∙ h)

      decided :
          (es : Entries) (k v : Bytes)
          → IsSorted es
          → AllKeys (within (included p)) es
          → find k es ≡ some v
          → starts_with k p ≡ true
          → first es ≡ true
      decided [] k v s b f u = unfold find in absurd (cc f)
      decided ((i, w) ∷ es) k v s b f u = first_decides p i w es k v s (ground (arith, b.0)) f u

      from :
          ((k : Bytes) × (v : Bytes) × (R.get t k ≡ some v) × (starts_with k p ≡ true))
          → exists_prefix R t p ≡ true
      from (k, v, g, u) =
          asked
          ∙ decided range k v
              (IsSorted-select (within (included p)) (R.entries t) (R.entries_sorted t))
              (AllKeys-select (within (included p)) (R.entries t)) (sym (get_range k u) ∙ g) u

-- The engine, as the registry takes it.
abbrev pub redb_engine : RedbTable → MetaEngine
redb_engine R = record {
  State = R.Table;
  get = R.get;
  scan = scan R;
  scan_keys = scan_keys R;
  exists_prefix = exists_prefix R;
  apply = apply R;
  get-apply = apply-view_ops R;
  exists_prefix_iff = exists_prefix_lem R;
}
