-- ===== src/Registry/Drain/Ends.antt =====
-- The loop of `drain` ends, and has given every key under the prefix to the callback once, in order.
use summ.Prelude.{
  ℕ, zero, suc, ◌<◌, ◌≤◌, Bool, ◌≡◌, refl, sym, ap, ◌∙◌, Option, none, some, List, [], ◌∷◌, ◌++◌,
  map, Bytes, starts_with, length, take, drop, last?-take, length-drop, take-append-drop, ltb,
  arith, tests, Bool-cases, inl, inr, true, All-last?-take,
}
use mathlib.Core.List.{map-append}
use mathlib.Core.Path.{fun_ext}
use summ.Meta.Engine.{KeyPage, MetaEngine, keys_of}
use summ.Meta.Redb.{Entries, select}
use summ.Meta.Redb.Paging.{
  requested, IsCursor, page_of, page_of_more, page_of_done, requested-last, requested-under,
}
use summ.Meta.Scans.{Scans}
use summ.Registry.Outcome.{Outcome, done, fail, panicked, ◌>>=◌}
use summ.Registry.Drain.{drain_page, each, fst_of, next_page, drain_loop, keys_under, ended, drain}

>>=_assoc {ℓ} :
    {A B D : Type ℓ} (o : Outcome A) (f : A → Outcome B) (g : B → Outcome D)
    → ((o >>= f) >>= g) ≡ (o >>= (λ a. f a >>= g))
>>=_assoc (done a) f g = refl
>>=_assoc (fail e) f g = refl
>>=_assoc panicked f g = refl

each-append {ℓ} :
    {A : Type ℓ} (f : Bytes → A → Outcome A) (xs ys : List Bytes) (a : A)
    → each f (xs ++ ys) a ≡ (each f xs a >>= each f ys)
unfolding each
each-append f [] ys a = refl
each-append f (x ∷ xs) ys a =
    ap (λ g. f x a >>= g) (fun_ext (each-append f xs ys))
    ∙ sym (>>=_assoc (f x a) (each f xs) (each f ys))

-- A page that is not the last, and the last.
next_page-some {ℓ} :
    {A : Type ℓ} (o : Outcome A) (k : Bytes) (rest : Bytes → A → Option (Outcome A))
    (last : A → Outcome A)
    → ((a : A) → rest k a ≡ some (last a))
    → next_page o (some k) rest ≡ some (o >>= last)
next_page-some (done a) k rest last h = h a
next_page-some (fail e) k rest last h = refl
next_page-some panicked k rest last h = refl

next_page-none {ℓ} :
    {A : Type ℓ} (o : Outcome A) (rest : Bytes → A → Option (Outcome A))
    → next_page o none rest ≡ some o
next_page-none (done a) rest = refl
next_page-none (fail e) rest = refl
next_page-none panicked rest = refl

length-select : (keep : Bytes → Bool) (es : Entries) → length (select keep es) ≤ length es
unfolding select
length-select keep [] = omega arith
length-select keep ((k, v) ∷ es) = ground (arith, length-select keep es)

module _ (E : MetaEngine) (S : Scans E) where
  drain_step {ℓ} :
      {A : Type ℓ} (fuel : ℕ) (s : E.State) (p : Bytes) (c : Option Bytes)
      (f : Bytes → A → Outcome A) (a : A) (page : KeyPage)
      → E.scan_keys s p c drain_page ≡ page
      → drain_loop E (suc fuel) s p c f a
        ≡ next_page (each f page.keys a) page.next (λ k b. drain_loop E fuel s p (some k) f b)
  unfolding drain_loop
  drain_step fuel s p c f a page e = rw e refl

  -- Whatever the callback does: with more pages allowed than there are keys behind the cursor, the loop
  -- ends. It has given those keys to the callback, each once and in key order, up to the first error.
  pub drain_loop-each {ℓ} :
      {A : Type ℓ} (fuel : ℕ) (s : E.State) (p : Bytes) (c : Option Bytes)
      (f : Bytes → A → Outcome A) (a : A)
      → IsCursor p c
      → length (requested p c (S.entries s)) < fuel
      → drain_loop E fuel s p c f a ≡ some (each f (map fst_of (requested p c (S.entries s))) a)
  unfolding keys_of
  drain_loop-each zero s p c f a h room = absurd (omega arith)
  drain_loop-each (suc fuel) s p c f a h room =
      elim (Bool-cases (ltb 256 (length (requested p c (S.entries s))))) [
        | inl more ↦
            let ((k, v), q) = last?-take 255 req (omega tests) in
            let behind : requested p (some k) (S.entries s) ≡ drop 256 req =
              requested-last p c (S.entries s) 255 k v (S.entries_sorted s) q in
            let cursor : IsCursor p (some k) =
              All-last?-take (λ e. starts_with e.0 p ≡ true) 256 req (k, v)
                (requested-under p c (S.entries s)) q in
            let less : length (requested p (some k) (S.entries s)) < fuel =
              omega (tests, ap length behind, length-drop 256 req) in
            drain_step fuel s p c f a _ (page ∙ ap keys_of (page_of_more 256 req k v more q))
            ∙ next_page-some (each f (map fst_of (take 256 req)) a) k _
                (each f (map fst_of (drop 256 req)))
                (λ b.
                  drain_loop-each fuel s p (some k) f b cursor less
                  ∙ ap (λ es. some (each f (map fst_of es) b)) behind)
            ∙ ap some (
                sym (each-append f (map fst_of (take 256 req)) (map fst_of (drop 256 req)) a)
                ∙ ap (λ ks. each f ks a)
                    (sym (map-append fst_of (take 256 req) (drop 256 req))
                      ∙ ap (map fst_of) (take-append-drop 256 req)))
        | inr last ↦
            drain_step fuel s p c f a _ (page ∙ ap keys_of (page_of_done 256 req last))
            ∙ next_page-none (each f (map fst_of req) a) _
      ]
    where
      req : Entries
      req = requested p c (S.entries s)

      page : E.scan_keys s p c drain_page ≡ keys_of (page_of 256 req)
      page = S.scan_keys-page_of s p c 256 h (omega arith)

  -- What `drain` is, once its loop is known to end.
  pub drain-each {ℓ} :
      {A : Type ℓ} (s : E.State) (p : Bytes) (f : Bytes → A → Outcome A) (a : A)
      → drain E S s p f a ≡ each f (keys_under E S s p) a
  unfolding drain requested
  drain-each s p f a = ap (ended E S) (
      drain_loop-each (suc (length (S.entries s))) s p none f a tt
        (omega (arith, length-select (λ k. starts_with k p) (S.entries s))))
