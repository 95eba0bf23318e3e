-- ===== src/Registry/Tests.antt =====
-- Tags over an empty repository, with a codec that writes digest and time one behind the other.
use summ.Prelude.{
  Bool-cases, inl, inr, subst, ℕ, ◌==◌, ◌≡◌, ◌↔◌, ◌&&◌, refl, Option, none, some, Bool, true, [],
  ◌∷◌, ◌++◌, Bytes, bytes_eq, codes, length, all, ltb, if◌then◌else◌, arith, get_from,
  get_from-append, AllBytes,
}
use summ.Core.Digest.{Digest, sha256, sha512, IsDigest, encode, decode, encoded_len}
use summ.Core.Digest.Wire.{decode-encode, length-encode}
use summ.Core.Types.{TagRecord}
use summ.Core.Utf8.{IsStr, chars}
use summ.Core.Keys.{RepoId}
use summ.Core.Keys
use summ.Core.Keys.Read.{LacksNul}
use summ.Core.Tests.{ones, ones-IsDigest, twos, twos-IsDigest, release, noon}
use summ.Meta.Engine.{WriteBatch}
use summ.Meta.Batch.{new}
use summ.Meta.Redb.{find}
use summ.Meta.Redb.Sorted.{empty_table}
use summ.Meta.Tests.{engine}
use summ.Registry.Formats.Stored
use summ.Registry.Formats.{value}
use summ.Registry.Outcome.{done}
use summ.Registry.Reference.{validate_tag}
use summ.Registry.Reference.Grammar.{IsTag, validate_tag-IsTag, validate_tag-LacksNul}
use summ.Registry.Suffix.{
  digest_after_repo, second_digest_after_repo, blob_ref_target, digest_suffixes,
}
use summ.Registry.Tags.{Codec, TagTarget, stage_set_tag, tag_record}
use summ.Registry.Tags.Preserved.{pointed, has_edge, IsInverse}
use summ.Registry.Tags.Staged.{stage_set_tag-IsInverse}

abbrev is_bytes : Bytes → Bool
is_bytes = all (λ b. ltb b 256)

abbrev pub is_digest : Digest → Bool
is_digest (sha256 b) = length b == 32 && is_bytes b
is_digest (sha512 b) = length b == 64 && is_bytes b

is_bytes→AllBytes : (s : Bytes) → is_bytes s ≡ true → AllBytes s
is_bytes→AllBytes [] h = tt
is_bytes→AllBytes (b ∷ s) h = (ground arith, is_bytes→AllBytes s (ground arith))

AllBytes→is_bytes : (s : Bytes) → AllBytes s → is_bytes s ≡ true
AllBytes→is_bytes [] h = refl
AllBytes→is_bytes (b ∷ s) h = ground (arith, h.0, AllBytes→is_bytes s h.1)

is_digest→IsDigest : (d : Digest) → is_digest d ≡ true → IsDigest d
is_digest→IsDigest (sha256 b) h = (ground arith, is_bytes→AllBytes b (ground arith))
is_digest→IsDigest (sha512 b) h = (ground arith, is_bytes→AllBytes b (ground arith))

IsDigest→is_digest : (d : Digest) → IsDigest d → is_digest d ≡ true
IsDigest→is_digest (sha256 b) h = ground (arith, h.0, AllBytes→is_bytes b h.1)
IsDigest→is_digest (sha512 b) h = ground (arith, h.0, AllBytes→is_bytes b h.1)

-- A digest that was read, and the time behind it.
abbrev pub tag_of : Bytes → Option (Digest × ℕ) → Option TagRecord
tag_of raw none = none
tag_of raw (some (d, n)) = elim (get_from raw n) as (λ x. Option TagRecord) [
  | some (at ∷ []) ↦ if is_digest d then some (record { digest = d; tagged_at = at }) else none
  | _ ↦ none
]

pub tag_of-encode :
    (r : TagRecord)
    → IsDigest r.digest
    → tag_of (encode r.digest ++ r.tagged_at ∷ []) (decode (encode r.digest ++ r.tagged_at ∷ []))
      ≡ some r
tag_of-encode r h =
    rw (decode-encode r.digest (r.tagged_at ∷ []) h, tag_of)
      (rw
        (get_from-append (encode r.digest) (r.tagged_at ∷ []) (encoded_len r.digest)
          (length-encode r.digest))
        (rw (IsDigest→is_digest r.digest h) refl))

pub tag_of-IsDigest :
    (raw : Bytes) (o : Option (Digest × ℕ)) (r : TagRecord)
    → tag_of raw o ≡ some r
    → IsDigest r.digest
tag_of-IsDigest raw none r e = absurd (cc e)
tag_of-IsDigest raw (some (d, n)) r e = by_tail (get_from raw n) e
  where
    by_tail :
        (o : Option Bytes)
        → (elim o as (λ x. Option TagRecord) [
          | some (at ∷ []) ↦
              if is_digest d then some (record { digest = d; tagged_at = at }) else none
          | _ ↦ none
        ])
          ≡ some r
        → IsDigest r.digest
    by_tail none q = absurd (cc q)
    by_tail (some []) q = absurd (cc q)
    by_tail (some (at ∷ b ∷ s)) q = absurd (cc q)
    by_tail (some (at ∷ [])) q = elim (Bool-cases (is_digest d)) [
      | inl u ↦
          let same : d ≡ r.digest = ground arith in subst IsDigest same (is_digest→IsDigest d u)
      | inr u ↦ absurd (ground arith)
    ]

abbrev pub codec : Codec
codec = record {
  encode_tag = λ r. encode r.digest ++ r.tagged_at ∷ [];
  decode_tag = λ raw. tag_of raw (decode raw);
  encode_event = λ e. Stored.event.write e [];
  encode_referrer = λ r. Stored.referrer.write r [];
  decode_manifest = λ raw. value (Stored.manifest.read raw);
  decode-encode_tag = λ r h. tag_of-encode r h;
  decode_tag-IsDigest = λ raw r e. tag_of-IsDigest raw (decode raw) r e;
}

empty-IsInverse : IsInverse codec (engine.get empty_table) 7
unfolding find pointed has_edge
empty-IsInverse t d h = ((λ e. absurd (cc e)), (λ e. absurd (cc e)))

abbrev pub target : TagTarget
target = record {
  digest = ones;
  media_type = codes "application/vnd.oci.image.manifest.v1+json";
  size = 527;
  referrer = record { media_type = []; artifact_type = none; size = 527; annotations = [] };
}

release-IsTag : IsTag release
release-IsTag = (validate_tag-IsTag release).0 (unfold validate_tag chars in refl)

stage_set_tag-IsInverse_example :
    (b : WriteBatch) × (stage_set_tag codec engine empty_table new 7 release target noon
      ≡ done (b, pointed codec (engine.get empty_table) 7 release))
    × IsInverse codec (engine.get (engine.apply empty_table b)) 7
    × ((u : Bytes)
        → pointed codec (engine.get (engine.apply empty_table b)) 7 u
          ≡ (if bytes_eq release u then some ones else pointed codec (engine.get empty_table) 7 u))
stage_set_tag-IsInverse_example =
    stage_set_tag-IsInverse codec engine empty_table 7 release target noon none empty-IsInverse
      ones-IsDigest release-IsTag (unfold tag_record find in refl)

validate_tag-IsTag_example : (validate_tag release ≡ done tt) ↔ IsTag release
validate_tag-IsTag_example = validate_tag-IsTag release

validate_tag-LacksNul_example : IsStr release × LacksNul release
validate_tag-LacksNul_example =
    validate_tag-LacksNul release ((validate_tag-IsTag release).1 release-IsTag)

digest_suffixes_example :
    (digest_after_repo (Keys.manifest 7 ones) ≡ some ones)
    × (digest_after_repo (Keys.repo_blob 7 ones) ≡ some ones)
    × (digest_after_repo (Keys.manifest_tag 7 ones release) ≡ some ones)
    × (digest_after_repo (Keys.referrer 7 ones twos) ≡ some ones)
    × (digest_after_repo (Keys.child_parent 7 ones twos) ≡ some ones)
    × (second_digest_after_repo (Keys.referrer 7 ones twos) ≡ some twos)
    × (second_digest_after_repo (Keys.child_parent 7 ones twos) ≡ some twos)
    × (blob_ref_target (Keys.blob_ref ones 7 twos) ≡ some (7, twos))
digest_suffixes_example =
    digest_suffixes 7 ones twos release (omega arith) ones-IsDigest twos-IsDigest
