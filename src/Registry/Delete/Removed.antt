-- ===== src/Registry/Delete/Removed.antt =====
-- The tags that the deletion of a manifest finds: those whose reverse edge the store has.
use summ.Prelude.{
  ℕ, ◌+◌, ◌≡◌, ◌||◌, refl, ap, sym, ◌∙◌, inl, inr, Option, none, some, Bool, true, false, List, [],
  ◌∷◌, ◌++◌, map, map_option, append_assoc, append-nil, Bytes, bytes_eq, bytes_eq→eq, starts_with,
  Bool-cases, arith, length, All, codes, get_from-append, length-append,
}
use summ.Core.Utf8.{from_utf8, chars}
use summ.Core.Digest.{Digest, encode, encoded_len}
use summ.Core.Digest.Wire.{length-encode}
use summ.Core.Keys
use summ.Core.Keys.{RepoId, start_repo, parse_manifest_tag_suffix}
use summ.Core.Keys.Suffixes.{length-start_repo}
use summ.Core.Keys.Scans.Exact.{starts_with_inv, starts_with-append}
use summ.Meta.Engine.{MetaEngine}
use summ.Meta.Redb.{Entries, find, select}
use summ.Meta.Redb.Contiguous.{AllKeys, AllKeys-select}
use summ.Meta.Redb.Paging.{requested, under}
use summ.Meta.Scans.{Scans}
use summ.Registry.Outcome.{done, require, corrupt, ◌>>=◌}
use summ.Registry.Drain.{each, fst_of, keys_under}
use summ.Registry.Frame.{Returns, returns, fails, Returns-mono}
use summ.Registry.Push.{contains}
use summ.Registry.Tags.Ranges.{bytes_eq-append_same}
use summ.Registry.Delete.{push_tag}

-- The keys of a list of entries, and whether one is among them.
abbrev pub has_key : Bytes → List Bytes → Bool
has_key k [] = false
has_key k (j ∷ ks) = bytes_eq j k || has_key k ks

-- What the drain reads of the keys: each is read as a tag, in order.
abbrev pub AreRead : Digest → List Bytes → List Bytes → Type 0
AreRead d [] [] = Unit
AreRead d [] (t ∷ ts) = ⊥
AreRead d (k ∷ ks) [] = ⊥
AreRead d (k ∷ ks) (t ∷ ts) = (parse_manifest_tag_suffix k d ≡ some t) × AreRead d ks ts

each-AreRead :
    (d : Digest) (keys removed : List Bytes)
    → Returns
        (λ (out : List Bytes). (ts : List Bytes) × (out ≡ removed ++ ts) × AreRead d keys ts)
        (each (push_tag d) keys removed)
unfolding each push_tag
each-AreRead d [] removed = returns removed ([], sym (append-nil removed), tt)
each-AreRead d (k ∷ keys) removed =
    by_key (parse_manifest_tag_suffix k d) refl (each-AreRead d keys)
  where
    by_key :
        (o : Option Bytes)
        → parse_manifest_tag_suffix k d ≡ o
        → ((more : List Bytes)
            → Returns
                (λ (out : List Bytes). (ts : List Bytes) × (out ≡ more ++ ts) × AreRead d keys ts)
                (each (push_tag d) keys more))
        → Returns
            (λ (out : List Bytes).
              (ts : List Bytes) × (out ≡ removed ++ ts) × AreRead d (k ∷ keys) ts)
            ((require o (corrupt (codes "manifest-tag key")) >>= (λ t. done (removed ++ t ∷ [])))
              >>= each (push_tag d) keys)
    by_key none e rest = fails _
    by_key (some t) e rest =
        Returns-mono _ _
          (λ out (ts, same, read). (t ∷ ts, same ∙ append_assoc removed (t ∷ []) ts, (e, read)))
          (rest (removed ++ t ∷ []))

-- What a key of the reverse index is read as.
pub parse-manifest_tag :
    (r : RepoId) (d : Digest) (t : Bytes)
    → parse_manifest_tag_suffix (Keys.manifest_tag r d t) d ≡ from_utf8 t
unfolding parse_manifest_tag_suffix Keys.manifest_tag
parse-manifest_tag r d t =
    rw (← append_assoc (start_repo b'G' r) (encode d) t)
      (rw (get_from-append (start_repo b'G' r ++ encode d) t (5 + encoded_len d) long) refl)
  where
    long : length (start_repo b'G' r ++ encode d) ≡ 5 + encoded_len d
    long = omega (
      arith,
      length-append (start_repo b'G' r) (encode d),
      length-start_repo b'G' r,
      length-encode d,
    )

from_utf8_inv : (s t : Bytes) → from_utf8 s ≡ some t → s ≡ t
unfolding from_utf8
from_utf8_inv s t h = by_chars (chars s) h
  where
    by_chars : (o : Option (List ℕ)) → map_option (λ cs. s) o ≡ some t → s ≡ t
    by_chars none e = absurd (cc e)
    by_chars (some cs) e = cc e

-- Every key is one of the manifest's edges.
abbrev pub AreEdges : RepoId → Digest → List Bytes → Type 0
AreEdges r d = All (λ k. starts_with k (Keys.tags_of_manifest r d) ≡ true)

edge_of :
    (r : RepoId) (d : Digest) (k : Bytes)
    → starts_with k (Keys.tags_of_manifest r d) ≡ true
    → (t : Bytes) × (k ≡ Keys.manifest_tag r d t)
unfolding Keys.tags_of_manifest Keys.manifest_tag
edge_of r d k h =
    let (t, e) = starts_with_inv k (start_repo b'G' r ++ encode d) h in
    (t, e ∙ append_assoc (start_repo b'G' r) (encode d) t)

same_keys :
    (r : RepoId) (d : Digest) (a b : Bytes)
    → bytes_eq (Keys.manifest_tag r d a) (Keys.manifest_tag r d b) ≡ bytes_eq a b
unfolding Keys.manifest_tag
same_keys r d a b =
    bytes_eq-append_same (start_repo b'G' r) (encode d ++ a) (encode d ++ b)
    ∙ bytes_eq-append_same (encode d) a b

-- A tag is among those read exactly if its edge is among the keys.
pub contains-has_key :
    (r : RepoId) (d : Digest) (keys ts : List Bytes) (t : Bytes)
    → AreEdges r d keys
    → AreRead d keys ts
    → contains t ts ≡ has_key (Keys.manifest_tag r d t) keys
unfolding contains
contains-has_key r d [] [] t h read = refl
contains-has_key r d [] (u ∷ ts) t h read = elim read [ ]
contains-has_key r d (k ∷ keys) [] t h read = elim read [ ]
contains-has_key r d (k ∷ keys) (u ∷ ts) t h read =
    let (w, e) = edge_of r d k h.0 in
    let tag : w ≡ u =
      from_utf8_inv w u (
        sym (parse-manifest_tag r d w)
        ∙ ap (λ x. parse_manifest_tag_suffix x d) (sym e)
        ∙ read.0) in
    let key : k ≡ Keys.manifest_tag r d u = e ∙ ap (Keys.manifest_tag r d) tag in
    rw (key, same_keys r d u t, contains-has_key r d keys ts t h.1 read.1) refl

abbrev pub is_some : Option Bytes → Bool
is_some none = false
is_some (some x) = true

has_key-select :
    (p k : Bytes) (es : Entries)
    → starts_with k p ≡ true
    → has_key k (map fst_of (under p es)) ≡ is_some (find k es)
unfolding select find
has_key-select p k [] h = refl
has_key-select p k ((j, v) ∷ es) h = elim (Bool-cases (bytes_eq j k)) [
  | inl e ↦
      let same : j ≡ k = bytes_eq→eq j k e in
      let covered : starts_with j p ≡ true = ap (λ x. starts_with x p) same ∙ h in
      rw (covered, e) refl
  | inr e ↦ elim (Bool-cases (starts_with j p)) [
    | inl u ↦ rw (u, e) (has_key-select p k es h)
    | inr u ↦ rw (u, e) (has_key-select p k es h)
  ]
]

keys_start :
    (p : Bytes) (es : Entries)
    → AllKeys (λ k. starts_with k p) es
    → All (λ k. starts_with k p ≡ true) (map fst_of es)
keys_start p [] h = tt
keys_start p ((k, v) ∷ es) h = (h.0, keys_start p es h.1)

module _ (E : MetaEngine) (S : Scans E) where
  pub keys_under-start :
      (s : E.State) (p : Bytes) → All (λ k. starts_with k p ≡ true) (keys_under E S s p)
  unfolding requested
  keys_under-start s p = keys_start p _ (AllKeys-select (λ k. starts_with k p) (S.entries s))

  -- The tags that the drain reads are those whose edge the store has.
  pub removed_tags :
      (s : E.State) (r : RepoId) (d : Digest)
      → Returns
          (λ (out : List Bytes).
            (t : Bytes) → contains t out ≡ is_some (E.get s (Keys.manifest_tag r d t)))
          (each (push_tag d) (keys_under E S s (Keys.tags_of_manifest r d)) [])
  unfolding requested
  removed_tags s r d =
      Returns-mono _ _
        (λ out (ts, same, read) t.
          ap (contains t) same
          ∙ contains-has_key r d (keys_under E S s (Keys.tags_of_manifest r d)) ts t
              (keys_under-start s (Keys.tags_of_manifest r d)) read
          ∙ has_key-select (Keys.tags_of_manifest r d) (Keys.manifest_tag r d t) (S.entries s)
              (edge_start r d t)
          ∙ ap is_some (sym (S.get-entries s (Keys.manifest_tag r d t))))
        (each-AreRead d (keys_under E S s (Keys.tags_of_manifest r d)) [])
    where
      edge_start :
          (r : RepoId) (d : Digest) (t : Bytes)
          → starts_with (Keys.manifest_tag r d t) (Keys.tags_of_manifest r d) ≡ true
      edge_start r d t =
          unfold Keys.manifest_tag Keys.tags_of_manifest in
          (ap (λ x. starts_with x (start_repo b'G' r ++ encode d))
              (sym (append_assoc (start_repo b'G' r) (encode d) t))
            ∙ starts_with-append (start_repo b'G' r ++ encode d) t)
