-- ===== src/Core/Tests.antt =====
-- Concrete digests, keys and scans at which the theorems on summ-core are applied.
use summ.Prelude.{
  All, ℕ, ◌<◌, ◌≤◌, ◌^◌, ◌≡◌, ◌↔◌, refl, true, some, [], ◌∷◌, ◌++◌, zero, suc, arith, Bytes, codes,
  take, replicate, AllBytes, starts_with, drop, length,
}
use Prim.Native.Nat.{compare}
use Prim.Native.Nat.Ordering.{lt}
use mathlib.Core.Logic.{◌≢◌}
use summ.Prelude.Lex.{lex, then_by}
use summ.Core.Utf8.{IsStr, IsStr-ascii, AllAscii}
use summ.Core.Digest.{
  Digest, sha256, sha512, IsDigest, encode, decode, encoded_len, display, from_str, ok, panic,
}
use summ.Core.Digest.Wire.{decode-encode, decode_sound, cmp}
use summ.Core.Digest.Text.{from_str-display}
use summ.Core.Digest.Panics.{from_str_ascii}
use summ.Core.Digest.Torn.{IsTornDigest, from_str-panic}
use summ.Core.Timestamp.{Timestamp, IsTimestamp}
use summ.Core.Buckets.{IsBucket, default, add, at_hour, add_exact}
use summ.Core.Keys
use summ.Core.Keys.{
  parse_tag_suffix, parse_manifest_tag_suffix, parse_repo_id, parse_dead_repo_id, parse_repo_name,
}
use summ.Core.Keys.History
use summ.Core.Keys.Read.{LacksNul}
use summ.Core.Keys.Schema.{Key, encode_key, IsKey, tag_history}
use summ.Core.Keys.Schema.RoundTrip.{encode_key-injective}
use summ.Core.Keys.Scans.{scan_prefix, Selects, tag_history_of}
use summ.Core.Keys.Scans.Exact.{scan_exact}
use summ.Core.Keys.Order.{list_orders, history_newest_first, Before, history-Before}
use summ.Core.Keys.Suffixes.{history_suffixes}

AllBytes-replicate : (n b : ℕ) → b < 256 → AllBytes (replicate n b)
AllBytes-replicate zero b h = tt
AllBytes-replicate (suc n) b h = (h, AllBytes-replicate n b h)

abbrev pub ones : Digest
ones = sha256 (replicate 32 1)

abbrev pub twos : Digest
twos = sha512 (replicate 64 2)

pub ones-IsDigest : IsDigest ones
ones-IsDigest = (refl, AllBytes-replicate 32 1 (omega arith))

pub twos-IsDigest : IsDigest twos
twos-IsDigest = (refl, AllBytes-replicate 64 2 (omega arith))

abbrev pub release : Bytes
release = codes "v1"

pub release-LacksNul : LacksNul release
release-LacksNul = ((λ h. absurd (omega (arith, h))), ((λ h. absurd (omega (arith, h))), tt))

release-AllAscii : AllAscii release
release-AllAscii = (omega arith, (omega arith, tt))

pub release-IsStr : IsStr release
release-IsStr = IsStr-ascii release release-AllAscii

abbrev pub noon : Timestamp
noon = record { millis = 1700000000123 }

abbrev pub dawn : Timestamp
dawn = record { millis = 1600000000000 }

pub noon-IsTimestamp : IsTimestamp noon
noon-IsTimestamp = omega arith

dawn-IsTimestamp : IsTimestamp dawn
dawn-IsTimestamp = omega arith

abbrev event : Key
event = tag_history 7 release noon ones

event-IsKey : IsKey event
event-IsKey = (omega arith, release-LacksNul, noon-IsTimestamp, ones-IsDigest)

scan_exact_example :
    (starts_with (encode_key event) (scan_prefix (tag_history_of 7 release)) ≡ true)
    ↔ Selects (tag_history_of 7 release) event
scan_exact_example =
    scan_exact (tag_history_of 7 release) event (omega arith, release-LacksNul) event-IsKey

encode_key-injective_example : event ≡ event
encode_key-injective_example = encode_key-injective event event event-IsKey event-IsKey refl

list_orders_example :
    (lex (Keys.tag 7 release) (Keys.tag 8 []) ≡ then_by (compare 7 8) (lex release []))
    × (lex (Keys.repo_by_name release) (Keys.repo_by_name []) ≡ lex release [])
    × (lex (Keys.manifest 7 ones) (Keys.manifest 8 twos) ≡ then_by (compare 7 8) (cmp ones twos))
list_orders_example =
    list_orders 7 8 release [] ones twos (omega arith) (omega arith) ones-IsDigest twos-IsDigest

history_newest_first_example :
    (lex (History.tag_history 7 release noon ones) (History.tag_history 7 release dawn twos)
      ≡ then_by (compare dawn.millis noon.millis) (cmp ones twos))
    × (lex
          (History.manifest_tag_history 7 ones noon release)
          (History.manifest_tag_history 7 ones dawn [])
        ≡ then_by (compare dawn.millis noon.millis) (lex release []))
history_newest_first_example =
    history_newest_first 7 release [] ones twos noon dawn noon-IsTimestamp dawn-IsTimestamp
      ones-IsDigest twos-IsDigest

history-Before_example :
    ((lex (History.tag_history_before 7 release noon) (History.tag_history 7 release dawn ones)
        ≡ lt)
      ↔ Before dawn noon)
    × ((lex
            (History.manifest_tag_history_before 7 ones noon)
            (History.manifest_tag_history 7 ones dawn release)
          ≡ lt)
        ↔ Before dawn noon)
history-Before_example =
    history-Before 7 release ones noon dawn (λ h. absurd (cc h)) noon-IsTimestamp dawn-IsTimestamp

history_suffixes_example :
    (History.tag_history_suffix
        (History.tag_history 7 release noon ones)
        (History.tag_history_of 7 release)
      ≡ some (noon, ones))
    × (History.manifest_tag_history_suffix
          (History.manifest_tag_history 7 ones noon release)
          (History.manifest_tag_history_of 7 ones)
        ≡ some (noon, release))
history_suffixes_example =
    history_suffixes 7 ones release noon ones-IsDigest noon-IsTimestamp release-IsStr

decode-encode_example : decode (encode twos ++ release) ≡ some (twos, encoded_len twos)
decode-encode_example = decode-encode twos release twos-IsDigest

decode_sound_example :
    IsDigest ones
    × (1 ∷ replicate 32 1 ≡ encode ones ++ drop 33 (1 ∷ replicate 32 1))
    × (33 ≡ encoded_len ones)
    × (33 ≤ length {A = ℕ} (1 ∷ replicate 32 1))
unfolding take
decode_sound_example =
    decode_sound (1 ∷ replicate 32 1) ones 33 (AllBytes-replicate 33 1 (omega arith))
      (unfold decode in refl)

from_str-display_example : from_str (display ones) ≡ ok ones
from_str-display_example = from_str-display ones ones-IsDigest

from_str_ascii_example : from_str release ≢ panic
from_str_ascii_example = from_str_ascii release release-AllAscii

-- The second pair of a sha512 digest is followed by the second half of a character.
abbrev torn_text : Bytes
torn_text = codes "sha512:" ++ b'+' ∷ b'a' ∷ b'0' ∷ 0xc3 ∷ 0xa9 ∷ replicate 123 b'a'

from_str-panic_example : (from_str torn_text ≡ panic) ↔ IsTornDigest torn_text
from_str-panic_example = from_str-panic torn_text

All-replicate : (m n : ℕ) → 0 < m → All (λ x. x < m) (replicate n 0)
All-replicate m zero h = tt
All-replicate m (suc n) h = (h, All-replicate m n h)

default-IsBucket : IsBucket default
unfolding default
default-IsBucket = (
  refl,
  All-replicate (2 ^ 32) 24 (omega arith),
  refl,
  All-replicate (2 ^ 32) 24 (omega arith),
  refl,
  All-replicate (2 ^ 64) 24 (omega arith),
)

add_exact_example :
    IsBucket (add default 13 1 0 4096)
    × (at_hour (add default 13 1 0 4096).manifest_pulls 13 ≡ 1)
    × (at_hour (add default 13 1 0 4096).blob_pulls 13 ≡ 0)
    × (at_hour (add default 13 1 0 4096).bytes_out 13 ≡ 4096)
unfolding default
add_exact_example = add_exact default 13 1 0 4096 13 default-IsBucket (omega arith)
