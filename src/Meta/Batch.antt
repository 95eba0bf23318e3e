-- ===== src/Meta/Batch.antt =====
-- summ-meta/src/engine.rs: the methods of `WriteBatch`, each of which appends an operation.
use summ.Prelude.{
  ap, none, some, bytes_eq, if◌then◌else◌, ℕ, ◌≡◌, refl, List, [], ◌∷◌, ◌++◌, Bytes, Bool, true,
  false, length, starts_with,
}
use summ.Meta.Engine.{MetaOp, WriteBatch, View, view_op, view_ops}

unfoldable pub new : WriteBatch
new = record { ops = [] }

unfoldable pub put : WriteBatch → Bytes → Bytes → WriteBatch
put batch key value = record { ops = batch.ops ++ MetaOp.put key value ∷ [] }

-- An edge: its presence is the fact.
unfoldable pub set : WriteBatch → Bytes → WriteBatch
unfolding put
set batch key = put batch key []

unfoldable pub delete : WriteBatch → Bytes → WriteBatch
delete batch key = record { ops = batch.ops ++ MetaOp.delete key ∷ [] }

unfoldable pub delete_prefix : WriteBatch → Bytes → WriteBatch
delete_prefix batch prefix = record { ops = batch.ops ++ MetaOp.delete_prefix prefix ∷ [] }

unfoldable pub is_empty : WriteBatch → Bool
is_empty batch = elim batch.ops [ [] ↦ true | op ∷ ops ↦ false ]

unfoldable pub len : WriteBatch → ℕ
len batch = length batch.ops

pub view_ops-append :
    (a b : List MetaOp) (v : View) → view_ops (a ++ b) v ≡ view_ops b (view_ops a v)
unfolding view_ops
view_ops-append [] b v = refl
view_ops-append (op ∷ a) b v = view_ops-append a b (view_op op v)

-- What a key answers behind one more operation of a batch.
pub view_ops-put :
    (b : WriteBatch) (key value : Bytes) (v : View) (k : Bytes)
    → view_ops (put b key value).ops v k
      ≡ (if bytes_eq key k then some value else view_ops b.ops v k)
unfolding put view_ops view_op
view_ops-put b key value v k = ap (λ w. w k) (view_ops-append b.ops (MetaOp.put key value ∷ []) v)

pub view_ops-delete :
    (b : WriteBatch) (key : Bytes) (v : View) (k : Bytes)
    → view_ops (delete b key).ops v k ≡ (if bytes_eq key k then none else view_ops b.ops v k)
unfolding delete view_ops view_op
view_ops-delete b key v k = ap (λ w. w k) (view_ops-append b.ops (MetaOp.delete key ∷ []) v)

pub view_ops-set :
    (b : WriteBatch) (key : Bytes) (v : View) (k : Bytes)
    → view_ops (set b key).ops v k ≡ (if bytes_eq key k then some [] else view_ops b.ops v k)
unfolding set
view_ops-set b key v k = view_ops-put b key [] v k

pub view_ops-delete_prefix :
    (b : WriteBatch) (prefix : Bytes) (v : View) (k : Bytes)
    → view_ops (delete_prefix b prefix).ops v k
      ≡ (if starts_with k prefix then none else view_ops b.ops v k)
unfolding delete_prefix view_ops view_op
view_ops-delete_prefix b prefix v k =
    ap (λ w. w k) (view_ops-append b.ops (MetaOp.delete_prefix prefix ∷ []) v)
