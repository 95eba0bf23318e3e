-- ===== src/Meta/Redb.antt =====
-- summ-meta/src/redb_engine.rs: the engine over redb, whose table is a parameter. Transactions that
-- fail (`storage`) are not modelled.
pub mod Contiguous
pub mod Paging
pub mod Refines
pub mod Sorted
use Prim.Native.Nat.{Ordering}
use summ.Prelude.{
  ℕ, ◌+◌, ◌≡◌, ◌↔◌, true, false, Bool, not, ◌&&◌, Option, none, some, List, [], ◌∷◌, map, Bytes,
  bytes_eq, starts_with, last?, if◌then◌else◌, ◌==◌, map_option, length,
}
use summ.Prelude.Lex.{lex}
use summ.Meta.Engine.{MetaOp, WriteBatch, Page, KeyPage}
use summ.Meta.Batch.{is_empty}

abbrev pub Entries : Type 0
Entries = List (Bytes × Bytes)

-- Lower ends of a range; the upper end is always open.
pub data Bound : Type 0 where
  included excluded : Bytes → Bound

abbrev pub is_below : Bytes → Bytes → Bool
is_below a b = elim (lex a b) [ Ordering.lt ↦ true | _ ↦ false ]

abbrev pub within : Bound → Bytes → Bool
within (included lo) k = not (is_below k lo)
within (excluded lo) k = is_below lo k

-- The entries that a test on their keys keeps.
unfoldable pub select : (Bytes → Bool) → Entries → Entries
select keep [] = []
select keep ((k, v) ∷ es) = if keep k then (k, v) ∷ select keep es else select keep es

unfoldable pub find : Bytes → Entries → Option Bytes
find k [] = none
find k ((j, v) ∷ es) = if bytes_eq j k then some v else find k es

-- Keys strictly increase.
abbrev pub Above : Bytes → Entries → Type 0
Above k [] = Unit
Above k ((j, v) ∷ es) = (is_below k j ≡ true) × Above k es

abbrev pub IsSorted : Entries → Type 0
IsSorted [] = Unit
IsSorted ((k, v) ∷ es) = Above k es × IsSorted es

-- redb's `Table<&[u8], &[u8]>` as the engine uses it: its entries in key order, and what the calls do.
pub record RedbTable : Type 1 where
  pub Table : Type 0
  pub entries : Table → Entries
  pub get : Table → Bytes → Option Bytes
  pub range : Table → Bound → Entries
  pub insert : Table → Bytes → Bytes → Table
  pub remove : Table → Bytes → Table
  pub retain_in : Table → Bytes → (Bytes → Bool) → Table
  pub entries_sorted : (t : Table) → IsSorted (entries t)
  pub get-entries : (t : Table) (k : Bytes) → get t k ≡ find k (entries t)
  pub range-entries : (t : Table) (b : Bound) → range t b ≡ select (within b) (entries t)
  pub get-insert :
      (t : Table) (k v j : Bytes)
      → get (insert t k v) j ≡ (if bytes_eq k j then some v else get t j)
  pub get-remove :
      (t : Table) (k j : Bytes) → get (remove t k) j ≡ (if bytes_eq k j then none else get t j)
  pub get-retain_in :
      (t : Table) (lo : Bytes) (keep : Bytes → Bool) (j : Bytes)
      → get (retain_in t lo keep) j
        ≡ (if within (included lo) j && not (keep j) then none else get t j)

-- The loop of `walk`: the entries that it emits, and whether it stopped at the limit.
unfoldable pub walk_loop : Bytes → ℕ → ℕ → Entries → Entries × Bool
walk_loop prefix limit taken [] = ([], false)
walk_loop prefix limit taken ((k, v) ∷ es) =
    let rest = walk_loop prefix limit (taken + 1) es in
    if starts_with k prefix
    then (if taken == limit then ([], true) else ((k, v) ∷ rest.0, rest.1))
    else ([], false)

abbrev pub lower : Bytes → Option Bytes → Bound
lower prefix none = included prefix
lower prefix (some k) = excluded k

module _ (R : RedbTable) where
  open R use {Table, range, insert, remove, retain_in}

  unfoldable pub walk : Table → Bytes → Option Bytes → ℕ → Entries × Bool
  unfolding walk_loop
  walk t prefix start_after limit = walk_loop prefix limit 0 (range t (lower prefix start_after))

  unfoldable pub scan : Table → Bytes → Option Bytes → ℕ → Page
  scan t prefix start_after limit =
      if limit == 0
      then record { entries = []; next = none }
      else (let (entries, more) = walk t prefix start_after limit in
          record {
            entries = entries;
            next = if more then map_option (λ (e : Bytes × Bytes). e.0) (last? entries) else none;
          })

  -- Keys only: `emit` is given an empty value.
  unfoldable pub scan_keys : Table → Bytes → Option Bytes → ℕ → KeyPage
  scan_keys t prefix start_after limit =
      if limit == 0
      then record { keys = []; next = none }
      else (let (entries, more) = walk t prefix start_after limit in
          let keys : List Bytes = map (λ (e : Bytes × Bytes). e.0) entries in
          record { keys = keys; next = if more then last? keys else none })

  unfoldable pub exists_prefix : Table → Bytes → Bool
  exists_prefix t prefix = elim (range t (included prefix)) [
    | [] ↦ false
    | (k, v) ∷ es ↦ starts_with k prefix
  ]

  unfoldable pub apply_op : Table → MetaOp → Table
  apply_op t (MetaOp.put key value) = insert t key value
  apply_op t (MetaOp.delete key) = remove t key
  apply_op t (MetaOp.delete_prefix prefix) = retain_in t prefix (λ k. not (starts_with k prefix))

  unfoldable pub apply_ops : Table → List MetaOp → Table
  unfolding apply_op
  apply_ops t [] = t
  apply_ops t (op ∷ ops) = apply_ops (apply_op t op) ops

  unfoldable pub apply : Table → WriteBatch → Table
  unfolding apply_ops
  apply t batch = if is_empty batch then t else apply_ops t batch.ops
