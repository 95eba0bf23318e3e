-- ===== src/Core/Timestamp.antt =====
-- summ-core/src/time.rs: an instant in Unix milliseconds, below 2^64.
use summ.Prelude.{ℕ, ◌*◌, ◌/◌, ◌^◌, ◌-◌, ◌≤◌, ◌<◌, ◌≡◌, arith, min}

pub record Timestamp : Type 0 where
  pub millis : ℕ

abbrev pub max_u64 : ℕ
max_u64 = 2 ^ 64 - 1

abbrev pub IsTimestamp : Timestamp → Type 0
IsTimestamp t = t.millis < 2 ^ 64

unfoldable pub from_millis : ℕ → Timestamp
from_millis n = record { millis = n }

-- `secs.saturating_mul(1_000)`
unfoldable pub from_secs : ℕ → Timestamp
from_secs n = record { millis = min (n * 1000) max_u64 }

unfoldable pub secs : Timestamp → ℕ
secs t = t.millis / 1000

-- Seconds survive the conversion exactly while their milliseconds fit in 64 bits; beyond that the
-- instant is the last one that has a representation, and in every case it has one.
pub secs-from_secs :
    (n : ℕ)
    → IsTimestamp (from_secs n)
      × (n * 1000 < 2 ^ 64 → secs (from_secs n) ≡ n)
      × (2 ^ 64 ≤ n * 1000 → (from_secs n).millis ≡ max_u64)
unfolding from_secs secs
secs-from_secs n = (omega arith, (λ h. omega arith), (λ h. omega arith))

-- Later seconds are never an earlier instant.
pub from_secs_mono : (m n : ℕ) → m ≤ n → (from_secs m).millis ≤ (from_secs n).millis
unfolding from_secs
from_secs_mono m n h = omega arith
