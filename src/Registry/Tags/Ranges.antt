-- ===== src/Registry/Tags/Ranges.antt =====
-- Which keys of tags, edges and histories are equal.
use summ.Prelude.{
  ℕ, ◌==◌, ◌≡◌, ◌&&◌, refl, ap, ◌∙◌, true, false, [], ◌∷◌, ◌++◌, Bytes, bytes_eq, bytes_eq→eq,
  bytes_eq_self, length, arith,
}
use summ.Core.Digest.{Digest, sha256, sha512, IsDigest, encode}
use summ.Core.Timestamp.{Timestamp}
use summ.Core.Keys.{RepoId, start, start_repo, tag, manifest_tag, referrer}
use summ.Core.Keys.History.{tag_history, manifest_tag_history}
use summ.Registry.Tags.{digest_eq}

pub bytes_eq-append_same : (p a b : Bytes) → bytes_eq (p ++ a) (p ++ b) ≡ bytes_eq a b
bytes_eq-append_same [] a b = refl
bytes_eq-append_same (x ∷ p) a b = ground (arith, bytes_eq-append_same p a b)

bytes_eq-append :
    (a b s t : Bytes)
    → length a ≡ length b
    → bytes_eq (a ++ s) (b ++ t) ≡ (bytes_eq a b && bytes_eq s t)
bytes_eq-append [] [] s t h = refl
bytes_eq-append [] (y ∷ b) s t h = absurd (omega arith)
bytes_eq-append (x ∷ a) [] s t h = absurd (omega arith)
bytes_eq-append (x ∷ a) (y ∷ b) s t h = rw (bytes_eq-append a b s t (omega arith)) (ground arith)

pub digest_eq→eq : (d e : Digest) → digest_eq d e ≡ true → d ≡ e
unfolding digest_eq
digest_eq→eq (sha256 a) (sha256 b) h = ap sha256 (bytes_eq→eq a b h)
digest_eq→eq (sha512 a) (sha512 b) h = ap sha512 (bytes_eq→eq a b h)
digest_eq→eq (sha256 a) (sha512 b) h = absurd (cc h)
digest_eq→eq (sha512 a) (sha256 b) h = absurd (cc h)

pub digest_eq_self : (d : Digest) → digest_eq d d ≡ true
unfolding digest_eq
digest_eq_self (sha256 a) = bytes_eq_self a
digest_eq_self (sha512 a) = bytes_eq_self a

-- Two keys of the reverse index are equal when digest and tag are.
pub edge_keys :
    (r : RepoId) (d e : Digest) (t u : Bytes)
    → IsDigest d
    → IsDigest e
    → bytes_eq (manifest_tag r d t) (manifest_tag r e u) ≡ (digest_eq d e && bytes_eq t u)
unfolding manifest_tag digest_eq encode
edge_keys r (sha256 a) (sha256 b) t u hd he =
    bytes_eq-append_same (start_repo b'G' r) _ _ ∙ bytes_eq-append a b t u (omega arith)
edge_keys r (sha512 a) (sha512 b) t u hd he =
    bytes_eq-append_same (start_repo b'G' r) _ _ ∙ bytes_eq-append a b t u (omega arith)
edge_keys r (sha256 a) (sha512 b) t u hd he = bytes_eq-append_same (start_repo b'G' r) _ _
edge_keys r (sha512 a) (sha256 b) t u hd he = bytes_eq-append_same (start_repo b'G' r) _ _

pub tag_keys : (r : RepoId) (t u : Bytes) → bytes_eq (tag r t) (tag r u) ≡ bytes_eq t u
unfolding tag
tag_keys r t u = bytes_eq-append_same (start_repo b'T' r) t u

-- Keys of two ranges differ in their first byte.
other_range :
    (p q : ℕ) (r : RepoId) (s t : Bytes)
    → (p == q) ≡ false
    → bytes_eq (start_repo p r ++ s) (start_repo q r ++ t) ≡ false
unfolding start_repo start
other_range p q r s t h = ground arith

module _ (r : RepoId) (t u : Bytes) (d e : Digest) where
  pub history_tag : (now : Timestamp) → bytes_eq (tag_history r t now d) (tag r u) ≡ false
  unfolding tag_history tag
  history_tag now = other_range b'H' b'T' r _ _ refl

  pub history_edge :
      (now : Timestamp) → bytes_eq (tag_history r t now d) (manifest_tag r e u) ≡ false
  unfolding tag_history manifest_tag
  history_edge now = other_range b'H' b'G' r _ _ refl

  pub reverse_history_tag :
      (now : Timestamp) → bytes_eq (manifest_tag_history r d now t) (tag r u) ≡ false
  unfolding manifest_tag_history tag
  reverse_history_tag now = other_range b'J' b'T' r _ _ refl

  pub reverse_history_edge :
      (now : Timestamp) → bytes_eq (manifest_tag_history r d now t) (manifest_tag r e u) ≡ false
  unfolding manifest_tag_history manifest_tag
  reverse_history_edge now = other_range b'J' b'G' r _ _ refl

  pub referrer_tag : bytes_eq (referrer r d e) (tag r u) ≡ false
  unfolding referrer tag
  referrer_tag = other_range b'F' b'T' r _ _ refl

  pub referrer_edge : (s : Digest) → bytes_eq (referrer r s d) (manifest_tag r e u) ≡ false
  unfolding referrer manifest_tag
  referrer_edge s = other_range b'F' b'G' r _ _ refl

  pub edge_tag : bytes_eq (manifest_tag r d t) (tag r u) ≡ false
  unfolding manifest_tag tag
  edge_tag = other_range b'G' b'T' r _ _ refl

  pub tag_edge : bytes_eq (tag r t) (manifest_tag r e u) ≡ false
  unfolding manifest_tag tag
  tag_edge = other_range b'T' b'G' r _ _ refl
