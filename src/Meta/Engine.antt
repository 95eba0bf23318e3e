-- ===== src/Meta/Engine.antt =====
-- summ-meta/src/engine.rs: operations, pages, and the meaning of an operation for the keys of a store.
use summ.Prelude.{
  ℕ, ◌≡◌, ◌↔◌, true, Bool, Option, none, some, List, [], ◌∷◌, map, Bytes, bytes_eq, starts_with,
  if◌then◌else◌,
}

pub data MetaOp : Type 0 where
  put : Bytes → Bytes → MetaOp
  delete : Bytes → MetaOp
  delete_prefix : Bytes → MetaOp

pub record WriteBatch : Type 0 where
  pub ops : List MetaOp

pub record Page : Type 0 where
  pub entries : List (Bytes × Bytes)
  pub next : Option Bytes

pub record KeyPage : Type 0 where
  pub keys : List Bytes
  pub next : Option Bytes

-- What a store answers to `get`, and what an operation changes in it.
abbrev pub View : Type 0
View = Bytes → Option Bytes

unfoldable pub view_op : MetaOp → View → View
view_op (put key value) view k = if bytes_eq key k then some value else view k
view_op (delete key) view k = if bytes_eq key k then none else view k
view_op (delete_prefix prefix) view k = if starts_with k prefix then none else view k

-- The operations of a batch, in order.
unfoldable pub view_ops : List MetaOp → View → View
view_ops [] view = view
view_ops (op ∷ ops) view = view_ops ops (view_op op view)

-- The trait `MetaEngine`, without storage errors: the reads, the write, and what its comments promise.
pub record MetaEngine : Type 1 where
  pub State : Type 0
  pub get : State → Bytes → Option Bytes
  pub scan : State → Bytes → Option Bytes → ℕ → Page
  pub scan_keys : State → Bytes → Option Bytes → ℕ → KeyPage
  pub exists_prefix : State → Bytes → Bool
  pub apply : State → WriteBatch → State
  pub get-apply :
      (s : State) (batch : WriteBatch) (k : Bytes)
      → get (apply s batch) k ≡ view_ops batch.ops (get s) k
  pub exists_prefix_iff :
      (s : State) (p : Bytes)
      → (exists_prefix s p ≡ true)
        ↔ ((k : Bytes) × (v : Bytes) × (get s k ≡ some v) × (starts_with k p ≡ true))

-- The default of `scan_keys`.
unfoldable pub keys_of : Page → KeyPage
keys_of page = record { keys = map (λ (e : Bytes × Bytes). e.0) page.entries; next = page.next }
