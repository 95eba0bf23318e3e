-- ===== src/Core/Buckets.antt =====
-- summ-core/src/types.rs: the counters of a day by the hour, and the records of blobs and uploads.
use summ.Prelude.{
  ℕ, zero, suc, ◌+◌, ◌-◌, ◌^◌, ◌<◌, ◌≡◌, ◌∙◌, ap, refl, min, Option, List, [], ◌∷◌, Bytes, Bool,
  false, ◌&&◌, ◌==◌, leb, length, replicate, All, if◌then◌else◌, arith, Bool-cases, inl, inr,
}
use summ.Core.Keys.{RepoId}

pub record BlobRecord : Type 0 where
  pub size : ℕ

pub record RepoBlobRecord : Type 0 where
  pub size : ℕ
  pub added_at : ℕ

pub record BlobMark : Type 0 where
  pub seen_at : ℕ

pub record UploadSession : Type 0 where
  pub repo : RepoId
  pub offset : ℕ
  pub started_at : ℕ
  pub updated_at : ℕ
  pub algorithm : Bytes
  pub hasher_state : Option Bytes

pub record DeadRepo : Type 0 where
  pub name : Bytes
  pub dropped_at : ℕ

abbrev pub hours_per_day : ℕ
hours_per_day = 24

-- The arrays are lists of 24.
pub record CounterBucket : Type 0 where
  pub manifest_pulls : List ℕ
  pub blob_pulls : List ℕ
  pub bytes_out : List ℕ

unfoldable pub default : CounterBucket
default = record {
  manifest_pulls = replicate hours_per_day 0;
  blob_pulls = replicate hours_per_day 0;
  bytes_out = replicate hours_per_day 0;
}

-- `xs[hour] = xs[hour].saturating_add(n)` in a width with a largest number.
unfoldable pub add_at : ℕ → List ℕ → ℕ → ℕ → List ℕ
add_at largest [] hour n = []
add_at largest (x ∷ xs) zero n = min (x + n) largest ∷ xs
add_at largest (x ∷ xs) (suc hour) n = x ∷ add_at largest xs hour n

abbrev pub max_u32 : ℕ
max_u32 = 2 ^ 32 - 1

unfoldable pub add : CounterBucket → ℕ → ℕ → ℕ → ℕ → CounterBucket
unfolding add_at
add b hour manifest_pulls blob_pulls bytes_out = if leb hours_per_day hour then b else record {
  manifest_pulls = add_at max_u32 b.manifest_pulls hour (min manifest_pulls max_u32);
  blob_pulls = add_at max_u32 b.blob_pulls hour (min blob_pulls max_u32);
  bytes_out = add_at (2 ^ 64 - 1) b.bytes_out hour bytes_out;
}

unfoldable pub total : List ℕ → ℕ
total [] = 0
total (x ∷ xs) = x + total xs

unfoldable pub manifest_pulls_total : CounterBucket → ℕ
manifest_pulls_total b = total b.manifest_pulls

unfoldable pub blob_pulls_total : CounterBucket → ℕ
blob_pulls_total b = total b.blob_pulls

unfoldable pub bytes_out_total : CounterBucket → ℕ
bytes_out_total b = total b.bytes_out

unfoldable pub is_empty : CounterBucket → Bool
is_empty b = manifest_pulls_total b == 0 && blob_pulls_total b == 0 && bytes_out_total b == 0

-- Arrays of 24 numbers of their widths.
abbrev pub IsBucket : CounterBucket → Type 0
IsBucket b =
    (length b.manifest_pulls ≡ 24)
    × All (λ x. x < 2 ^ 32) b.manifest_pulls
    × (length b.blob_pulls ≡ 24)
    × All (λ x. x < 2 ^ 32) b.blob_pulls
    × (length b.bytes_out ≡ 24)
    × All (λ x. x < 2 ^ 64) b.bytes_out

length-add_at : (m : ℕ) (xs : List ℕ) (h n : ℕ) → length (add_at m xs h n) ≡ length xs
unfolding add_at
length-add_at m [] h n = refl
length-add_at m (x ∷ xs) zero n = refl
length-add_at m (x ∷ xs) (suc h) n = ap suc (length-add_at m xs h n)

All-add_at :
    (m : ℕ) (xs : List ℕ) (h n : ℕ)
    → All (λ x. x < suc m) xs
    → All (λ x. x < suc m) (add_at m xs h n)
unfolding add_at
All-add_at m [] h n a = tt
All-add_at m (x ∷ xs) zero n a = (omega arith, a.1)
All-add_at m (x ∷ xs) (suc h) n a = (a.0, All-add_at m xs h n a.1)

add-IsBucket : (b : CounterBucket) (hour m n o : ℕ) → IsBucket b → IsBucket (add b hour m n o)
unfolding add
add-IsBucket b hour m n o h = elim (Bool-cases (leb hours_per_day hour)) [
  | inl e ↦ rw e h
  | inr e ↦ rw e (
    length-add_at max_u32 b.manifest_pulls hour (min m max_u32) ∙ h.0,
    All-add_at max_u32 b.manifest_pulls hour (min m max_u32) h.1,
    length-add_at max_u32 b.blob_pulls hour (min n max_u32) ∙ h.2,
    All-add_at max_u32 b.blob_pulls hour (min n max_u32) h.3,
    length-add_at (2 ^ 64 - 1) b.bytes_out hour o ∙ h.4,
    All-add_at (2 ^ 64 - 1) b.bytes_out hour o h.5,
  )
]

-- The number of an hour.
abbrev pub at_hour : List ℕ → ℕ → ℕ
at_hour [] h = 0
at_hour (x ∷ xs) zero = x
at_hour (x ∷ xs) (suc h) = at_hour xs h

at_hour-add_at :
    (m : ℕ) (xs : List ℕ) (hour n h : ℕ)
    → h < length xs
    → at_hour (add_at m xs hour n) h
      ≡ (if h == hour then min (at_hour xs h + n) m else at_hour xs h)
unfolding add_at
at_hour-add_at m [] hour n h lt = absurd (omega arith)
at_hour-add_at m (x ∷ xs) zero n zero lt = ground arith
at_hour-add_at m (x ∷ xs) zero n (suc h) lt = ground arith
at_hour-add_at m (x ∷ xs) (suc hour) n zero lt = ground arith
at_hour-add_at m (x ∷ xs) (suc hour) n (suc h) lt =
    ground (arith, at_hour-add_at m xs hour n h (omega arith))

-- Clamping what is added as well makes no difference.
clamp_twice : (x n m : ℕ) → min (x + min n m) m ≡ min (x + n) m
clamp_twice x n m = omega arith

-- Adding to a bucket of a day keeps it a bucket, and changes of every hour of the day only the one named: its
-- three numbers grow by what is added, and stop at the largest numbers of 32, 32 and 64 bits. An hour that
-- the day does not have changes nothing.
pub add_exact :
    (b : CounterBucket) (hour m n o h : ℕ)
    → IsBucket b
    → h < 24
    → IsBucket (add b hour m n o)
      × (at_hour (add b hour m n o).manifest_pulls h ≡ (
          if h == hour
          then min (at_hour b.manifest_pulls h + m) (2 ^ 32 - 1)
          else at_hour b.manifest_pulls h))
      × (at_hour (add b hour m n o).blob_pulls h ≡ (
          if h == hour
          then min (at_hour b.blob_pulls h + n) (2 ^ 32 - 1)
          else at_hour b.blob_pulls h))
      × (at_hour (add b hour m n o).bytes_out h ≡ (
          if h == hour
          then min (at_hour b.bytes_out h + o) (2 ^ 64 - 1)
          else at_hour b.bytes_out h))
unfolding add
add_exact b hour m n o h i lt = elim (Bool-cases (leb hours_per_day hour)) [
  | inl e ↦
      let other : (h == hour) ≡ false = ground (arith, e, lt) in
      let kept : IsBucket (add b hour m n o) = add-IsBucket b hour m n o i in
      (kept, rw (e, other) refl, rw (e, other) refl, rw (e, other) refl)
  | inr e ↦ (
    add-IsBucket b hour m n o i,
    rw e (
        at_hour-add_at max_u32 b.manifest_pulls hour (min m max_u32) h (omega (arith, i.0, lt))
        ∙ ap (λ x. if h == hour then x else at_hour b.manifest_pulls h)
            (clamp_twice (at_hour b.manifest_pulls h) m max_u32)),
    rw e (
        at_hour-add_at max_u32 b.blob_pulls hour (min n max_u32) h (omega (arith, i.2, lt))
        ∙ ap (λ x. if h == hour then x else at_hour b.blob_pulls h)
            (clamp_twice (at_hour b.blob_pulls h) n max_u32)),
    rw e (at_hour-add_at (2 ^ 64 - 1) b.bytes_out hour o h (omega (arith, i.4, lt))),
  )
]
