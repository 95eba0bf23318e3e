-- ===== src/Registry/Formats/Stored.antt =====
-- The records of the store, for the tests: every field behind the other.
use summ.Prelude.{ℕ, ◌≡◌, refl, ap, Option, none, some, List, [], ◌∷◌, Bytes, ◌==◌, if◌then◌else◌}
use summ.Core.Digest.{Digest, sha256, sha512}
use summ.Core.Types.{
  Platform, ChildRef, ManifestRecord, ReferrerRecord, TagEvent, TagEventKind, created, deleted,
}
use summ.Core.Buckets.{RepoBlobRecord, UploadSession, DeadRepo}
use summ.Registry.Formats.{Format, then_read, number, pair, through, list, option, text}

-- A digest by its algorithm.
unfoldable pub write_digest : Digest → Bytes → Bytes
unfolding list
write_digest (sha256 b) s = 0 ∷ (list number).write b s
write_digest (sha512 b) s = 1 ∷ (list number).write b s

abbrev pub digest_of : ℕ → Bytes → Bytes → Option (Digest × Bytes)
digest_of n b s = some ((if n == 0 then sha256 b else sha512 b), s)

unfoldable pub read_digest : Bytes → Option (Digest × Bytes)
unfolding list
read_digest [] = none
read_digest (n ∷ s) = then_read ((list number).read s) (digest_of n)

pub read_digest-write_digest :
    (d : Digest) (s : Bytes) → read_digest (write_digest d s) ≡ some (d, s)
unfolding read_digest write_digest
read_digest-write_digest (sha256 b) s =
    ap (λ o. then_read o (digest_of 0)) ((list number).read-write b s)
read_digest-write_digest (sha512 b) s =
    ap (λ o. then_read o (digest_of 1)) ((list number).read-write b s)

unfoldable pub digest : Format Digest
unfolding read_digest write_digest
digest = record { write = write_digest; read = read_digest; read-write = read_digest-write_digest }

abbrev pub PlatformFields : Type 0
PlatformFields = Bytes × (Bytes × Option Bytes)

unfoldable pub platform : Format Platform
unfolding through pair option list
platform =
    through (pair text (pair text (option text)))
      (λ (f : PlatformFields). record { os = f.0; arch = (f.1).0; variant = (f.1).1 })
      (λ p. (p.os, (p.arch, p.variant))) (λ p. refl)

unfoldable pub child : Format ChildRef
unfolding through pair option platform digest
child =
    through (pair digest (option platform))
      (λ (f : Digest × Option Platform). record { digest = f.0; platform = f.1 })
      (λ c. (c.digest, c.platform)) (λ c. refl)

abbrev pub Annotations : Type 0
Annotations = List (Bytes × Bytes)

-- The fields of a manifest's record, in two halves.
abbrev pub FirstFields : Type 0
FirstFields = ℕ × (Digest × (Bytes × (ℕ × (ℕ × Option Platform))))

abbrev pub LastFields : Type 0
LastFields = List Digest × (List ChildRef × (Option Digest × (Option Bytes × (Annotations × ℕ))))

unfoldable pub first_fields : Format FirstFields
unfolding pair option platform digest list
first_fields = pair number (pair digest (pair text (pair number (pair number (option platform)))))

unfoldable pub last_fields : Format LastFields
unfolding pair option list digest child
last_fields = pair (list digest) (
    pair (list child)
      (pair (option digest) (pair (option text) (pair (list (pair text text)) number))))

abbrev pub record_of_fields : FirstFields × LastFields → ManifestRecord
record_of_fields (a, b) = record {
  repo = a.0;
  digest = (a.1).0;
  media_type = ((a.1).1).0;
  size = (((a.1).1).1).0;
  total_layer_size = ((((a.1).1).1).1).0;
  platform = ((((a.1).1).1).1).1;
  layers = b.0;
  children = (b.1).0;
  subject = ((b.1).1).0;
  artifact_type = (((b.1).1).1).0;
  annotations = ((((b.1).1).1).1).0;
  pushed_at = ((((b.1).1).1).1).1;
}

abbrev pub fields_of : ManifestRecord → FirstFields × LastFields
fields_of r = (
  (r.repo, (r.digest, (r.media_type, (r.size, (r.total_layer_size, r.platform))))),
  (r.layers, (r.children, (r.subject, (r.artifact_type, (r.annotations, r.pushed_at))))),
)

unfoldable pub manifest : Format ManifestRecord
unfolding through pair first_fields last_fields
manifest = through (pair first_fields last_fields) record_of_fields fields_of (λ r. refl)

unfoldable pub dead : Format DeadRepo
unfolding through pair list
dead =
    through (pair text number) (λ (f : Bytes × ℕ). record { name = f.0; dropped_at = f.1 })
      (λ d. (d.name, d.dropped_at)) (λ d. refl)

abbrev pub ReferrerFields : Type 0
ReferrerFields = Bytes × (Option Bytes × (ℕ × Annotations))

abbrev pub referrer_of_fields : ReferrerFields → ReferrerRecord
referrer_of_fields f = record {
  media_type = f.0;
  artifact_type = (f.1).0;
  size = ((f.1).1).0;
  annotations = ((f.1).1).1;
}

unfoldable pub referrer : Format ReferrerRecord
unfolding through pair option list
referrer =
    through (pair text (pair (option text) (pair number (list (pair text text)))))
      referrer_of_fields (λ r. (r.media_type, (r.artifact_type, (r.size, r.annotations))))
      (λ r. refl)

abbrev pub kind_of : ℕ → TagEventKind
kind_of n = if n == 0 then created else deleted

abbrev pub number_of : TagEventKind → ℕ
number_of created = 0
number_of deleted = 1

pub kind_back : (k : TagEventKind) → kind_of (number_of k) ≡ k
kind_back created = refl
kind_back deleted = refl

unfoldable pub kind : Format TagEventKind
unfolding through
kind = through number kind_of number_of kind_back

abbrev pub event_of_fields : TagEventKind × (Bytes × ℕ) → TagEvent
event_of_fields f = record { event = f.0; media_type = (f.1).0; size = (f.1).1 }

unfoldable pub event : Format TagEvent
unfolding through pair list kind
event =
    through (pair kind (pair text number)) event_of_fields (λ e. (e.event, (e.media_type, e.size)))
      (λ e. refl)

unfoldable pub membership : Format RepoBlobRecord
unfolding through pair
membership =
    through (pair number number) (λ (f : ℕ × ℕ). record { size = f.0; added_at = f.1 })
      (λ r. (r.size, r.added_at)) (λ r. refl)

abbrev pub SessionFields : Type 0
SessionFields = ℕ × (ℕ × (ℕ × (ℕ × (Bytes × Option Bytes))))

abbrev pub session_of_fields : SessionFields → UploadSession
session_of_fields f = record {
  repo = f.0;
  offset = (f.1).0;
  started_at = ((f.1).1).0;
  updated_at = (((f.1).1).1).0;
  algorithm = ((((f.1).1).1).1).0;
  hasher_state = ((((f.1).1).1).1).1;
}

unfoldable pub session : Format UploadSession
unfolding through pair option list
session =
    through (pair number (pair number (pair number (pair number (pair text (option text))))))
      session_of_fields
      (λ u. (u.repo, (u.offset, (u.started_at, (u.updated_at, (u.algorithm, u.hasher_state))))))
      (λ u. refl)
