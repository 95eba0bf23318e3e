-- ===== src/Registry/Push/Servable.antt =====
-- Which blobs a repository may serve behind a push that checks its references: those it could before.
use summ.Prelude.{
  ℕ, ◌≡◌, refl, ap, sym, subst, ◌∙◌, ◌⊎◌, ◌↔◌, inl, inr, Option, some, Bool, true, false, [], ◌∷◌,
  ◌++◌, Bytes, starts_with, if◌then◌else◌, arith, append_assoc,
}
use summ.Prelude.BigEndian.{be}
use summ.Core.Digest.{Digest, IsDigest, encode}
use summ.Core.Keys
use summ.Core.Keys.{RepoId, start, start_repo}
use summ.Core.Keys.Read.{
  read_digest, read_digest-encode, read_be, read_be-be, read_digest-encode_last,
}
use summ.Core.Keys.Schema.{IsRepo}
use summ.Core.Keys.Scans.Exact.{starts_with_inv}
use summ.Meta.Engine.{WriteBatch, MetaEngine, view_ops}
use summ.Registry.Blobs.{blob_is_servable_id}
use summ.Registry.Push.Authorised.{GrantsHeld, IsHeldKey, is_grant_range}

abbrev tail : Bytes → Bytes
tail [] = []
tail (b ∷ s) = s

-- An edge of a blob's range of a repository is of that blob and that repository.
under_refs :
    (d e m : Digest) (a r : RepoId)
    → IsDigest d
    → IsDigest e
    → IsRepo a
    → IsRepo r
    → starts_with (Keys.blob_ref d a m) (Keys.blob_refs_in_repo e r) ≡ true
    → (d ≡ e) × (a ≡ r)
unfolding Keys.blob_ref Keys.blob_refs_in_repo Keys.blob_refs start
under_refs d e m a r hd he ha hr h =
    let (rest, whole) = starts_with_inv (Keys.blob_ref d a m) (Keys.blob_refs_in_repo e r) h in
    let read : ◌≡◌ {A = Option (Digest × Bytes)} (some (d, be 4 a ++ encode m))
        (some (e, be 4 r ++ rest)) =
      sym (read_digest-encode d (be 4 a ++ encode m) hd)
      ∙ ap (λ k. read_digest (tail k)) whole
      ∙ ap read_digest (append_assoc (encode e) (be 4 r) rest)
      ∙ read_digest-encode e (be 4 r ++ rest) he in
    let behind : be 4 a ++ encode m ≡ be 4 r ++ rest = ground (arith, read) in
    let repos : ◌≡◌ {A = Option (RepoId × Bytes)} (some (a, encode m)) (some (r, rest)) =
      sym (read_be-be 4 a (encode m) ha) ∙ ap (read_be 4) behind ∙ read_be-be 4 r rest hr in
    (ground (arith, read), ground (arith, repos))

-- A membership that begins with another is that one.
under_member :
    (d e : Digest) (a r : RepoId)
    → IsDigest d
    → IsDigest e
    → IsRepo a
    → IsRepo r
    → starts_with (Keys.repo_blob a d) (Keys.repo_blob r e) ≡ true
    → (d ≡ e) × (a ≡ r)
unfolding Keys.repo_blob start_repo start
under_member d e a r hd he ha hr h =
    let (rest, whole) = starts_with_inv (Keys.repo_blob a d) (Keys.repo_blob r e) h in
    let read : ◌≡◌ {A = Option (RepoId × Bytes)} (some (a, encode d)) (some (r, encode e ++ rest)) =
      sym (read_be-be 4 a (encode d) ha)
      ∙ ap (λ k. read_be 4 (tail k)) whole
      ∙ ap (read_be 4) (append_assoc (be 4 r) (encode e) rest)
      ∙ read_be-be 4 r (encode e ++ rest) hr in
    let behind : encode d ≡ encode e ++ rest = ground (arith, read) in
    let digests : ◌≡◌ {A = Option (Digest × Bytes)} (some (d, [])) (some (e, rest)) =
      sym (read_digest-encode_last d hd) ∙ ap read_digest behind ∙ read_digest-encode e rest he in
    (ground (arith, digests), ground (arith, read))

refs_shape :
    (d : Digest) (r : RepoId)
    → Keys.blob_refs_in_repo d r ≡ b'R' ∷ tail (Keys.blob_refs_in_repo d r)
unfolding Keys.blob_refs_in_repo Keys.blob_refs start
refs_shape d r = refl

member_shape : (d : Digest) (r : RepoId) → Keys.repo_blob r d ≡ b'P' ∷ tail (Keys.repo_blob r d)
unfolding Keys.repo_blob start_repo start
member_shape d r = refl

no_member_under_refs :
    (d e : Digest) (a r : RepoId)
    → starts_with (Keys.repo_blob a e) (Keys.blob_refs_in_repo d r) ≡ false
unfolding Keys.blob_refs_in_repo Keys.blob_refs Keys.repo_blob start_repo start
no_member_under_refs d e a r = refl

no_ref_under_member :
    (d e m : Digest) (a r : RepoId) → starts_with (Keys.blob_ref e a m) (Keys.repo_blob r d) ≡ false
unfolding Keys.blob_ref Keys.repo_blob start_repo start
no_ref_under_member d e m a r = refl

module _ (E : MetaEngine) where
  abbrev HasKey : E.State → Bytes → Type 0
  HasKey s p = (k : Bytes) × (v : Bytes) × (E.get s k ≡ some v) × (starts_with k p ≡ true)

  -- A blob may be served where an edge or a membership of the repository exists.
  pub servable_iff :
      (s : E.State) (r : RepoId) (d : Digest)
      → (blob_is_servable_id E s r d ≡ true)
        ↔ (HasKey s (Keys.blob_refs_in_repo d r) ⊎ HasKey s (Keys.repo_blob r d))
  unfolding blob_is_servable_id
  servable_iff s r d = (to _ refl, from)
    where
      to :
          (x : Bool)
          → E.exists_prefix s (Keys.blob_refs_in_repo d r) ≡ x
          → (if x then true else E.exists_prefix s (Keys.repo_blob r d)) ≡ true
          → HasKey s (Keys.blob_refs_in_repo d r) ⊎ HasKey s (Keys.repo_blob r d)
      to true e h = inl ((E.exists_prefix_iff s (Keys.blob_refs_in_repo d r)).0 e)
      to false e h = inr ((E.exists_prefix_iff s (Keys.repo_blob r d)).0 h)

      from :
          HasKey s (Keys.blob_refs_in_repo d r) ⊎ HasKey s (Keys.repo_blob r d)
          → (if E.exists_prefix s (Keys.blob_refs_in_repo d r)
              then true
              else E.exists_prefix s (Keys.repo_blob r d))
            ≡ true
      from (inl k) = rw ((E.exists_prefix_iff s (Keys.blob_refs_in_repo d r)).1 k) refl
      from (inr k) =
          let e : E.exists_prefix s (Keys.repo_blob r d) ≡ true =
            (E.exists_prefix_iff s (Keys.repo_blob r d)).1 k in
          ground (arith, e)

  module _ (s : E.State) (repo : RepoId) (m : Digest) (b : WriteBatch) (g : GrantsHeld E s repo m b)
      (here : IsRepo repo) (r : RepoId) (d : Digest) (hr : IsRepo r) (hd : IsDigest d) where
    -- A key of one of the two ranges that stands behind the batch stood before, or is of a blob that
    -- may be served.
    was_there :
        (p : ℕ) (prefix prefix' : Bytes)
        → is_grant_range p ≡ true
        → prefix ≡ p ∷ prefix'
        → ((e : Digest)
            → IsDigest e
            → blob_is_servable_id E s repo e ≡ true
            → (starts_with (Keys.blob_ref e repo m) prefix ≡ true)
              ⊎ (starts_with (Keys.repo_blob repo e) prefix ≡ true)
            → blob_is_servable_id E s r d ≡ true)
        → (HasKey s prefix → blob_is_servable_id E s r d ≡ true)
        → HasKey (E.apply s b) prefix
        → blob_is_servable_id E s r d ≡ true
    was_there p prefix prefix' h shape held old (k, v, e, u) =
        let (rest, whole) = starts_with_inv k prefix u in
        let split : k ≡ p ∷ (prefix' ++ rest) = whole ∙ ap (λ x. x ++ rest) shape in
        let stands : view_ops b.ops (E.get s) (p ∷ (prefix' ++ rest)) ≡ some v =
          ap (view_ops b.ops (E.get s)) (sym split) ∙ sym (E.get-apply s b k) ∙ e in
        by_origin (prefix' ++ rest) split (g.adds p (prefix' ++ rest) v h stands)
      where
        by_origin :
            (k' : Bytes)
            → k ≡ p ∷ k'
            → ((w : Bytes) × (E.get s (p ∷ k') ≡ some w)) ⊎ IsHeldKey E s repo m (p ∷ k')
            → blob_is_servable_id E s r d ≡ true
        by_origin k' split (inl (w, f)) = old (k, w, ap (E.get s) split ∙ f, u)
        by_origin k' split (inr (x, hx, served, inl f)) =
            held x hx served (inl (subst (λ y. starts_with y prefix ≡ true) (split ∙ f) u))
        by_origin k' split (inr (x, hx, served, inr f)) =
            held x hx served (inr (subst (λ y. starts_with y prefix ≡ true) (split ∙ f) u))

    stood :
        (p : ℕ) (prefix prefix' : Bytes)
        → is_grant_range p ≡ true
        → prefix ≡ p ∷ prefix'
        → HasKey s prefix
        → HasKey (E.apply s b) prefix
    stood p prefix prefix' h shape (k, v, e, u) =
        let (rest, whole) = starts_with_inv k prefix u in
        let split : k ≡ p ∷ (prefix' ++ rest) = whole ∙ ap (λ x. x ++ rest) shape in
        let (w, f) = g.stays p (prefix' ++ rest) v h (ap (E.get s) (sym split) ∙ e) in
        (k, w, E.get-apply s b k ∙ ap (view_ops b.ops (E.get s)) split ∙ f, u)

    pub grants_nothing : blob_is_servable_id E (E.apply s b) r d ≡ blob_is_servable_id E s r d
    grants_nothing = bool_ext _ _ to from
      where
        bool_ext : (x y : Bool) → (x ≡ true → y ≡ true) → (y ≡ true → x ≡ true) → x ≡ y
        bool_ext true y f h = sym (f refl)
        bool_ext false true f h = h refl
        bool_ext false false f h = refl

        moved :
            (e : Digest)
            → (e ≡ d) × (repo ≡ r)
            → blob_is_servable_id E s repo e ≡ true
            → blob_is_servable_id E s r d ≡ true
        moved e (same, there) h =
            ap (λ x. blob_is_servable_id E s r x) (sym same)
            ∙ ap (λ x. blob_is_servable_id E s x e) (sym there)
            ∙ h

        to : blob_is_servable_id E (E.apply s b) r d ≡ true → blob_is_servable_id E s r d ≡ true
        to h = elim ((servable_iff (E.apply s b) r d).0 h) [
          | inl refs ↦
              was_there b'R' (Keys.blob_refs_in_repo d r) _ refl (refs_shape d r)
                (λ e he served x. elim x [
                  | inl u ↦ moved e (under_refs e d m repo r he hd here hr u) served
                  | inr u ↦ absurd (cc (u, no_member_under_refs d e repo r))
                ])
                (λ old. (servable_iff s r d).1 (inl old)) refs
          | inr member ↦
              was_there b'P' (Keys.repo_blob r d) _ refl (member_shape d r)
                (λ e he served x. elim x [
                  | inl u ↦ absurd (cc (u, no_ref_under_member d e m repo r))
                  | inr u ↦ moved e (under_member e d repo r he hd here hr u) served
                ])
                (λ old. (servable_iff s r d).1 (inr old)) member
        ]

        from : blob_is_servable_id E s r d ≡ true → blob_is_servable_id E (E.apply s b) r d ≡ true
        from h = elim ((servable_iff s r d).0 h) [
          | inl refs ↦
              (servable_iff (E.apply s b) r d).1 (inl (stood b'R' _ _ refl (refs_shape d r) refs))
          | inr member ↦
              (servable_iff (E.apply s b) r d).1
                (inr (stood b'P' _ _ refl (member_shape d r) member))
        ]
