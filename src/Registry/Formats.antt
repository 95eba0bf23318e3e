-- ===== src/Registry/Formats.antt =====
-- Codecs for the tests: every record one field behind the other, a list behind its length.
pub mod Stored
use summ.Prelude.{
  ℕ, zero, suc, ◌≡◌, refl, ap, ◌∙◌, Option, none, some, List, [], ◌∷◌, Bytes, length, ◌==◌,
  if◌then◌else◌,
}
use summ.Core.Digest.{Digest, sha256, sha512}
use summ.Core.Types.{
  Platform, ChildRef, ManifestRecord, ReferrerRecord, TagEvent, TagEventKind, created, deleted,
}
use summ.Core.Buckets.{RepoBlobRecord, UploadSession, DeadRepo}

-- A value in front of the bytes that follow it.
pub record Format (A : Type 0) : Type 0 where
  pub write : A → Bytes → Bytes
  pub read : Bytes → Option (A × Bytes)
  pub read-write : (a : A) (s : Bytes) → read (write a s) ≡ some (a, s)

abbrev pub then_read {ℓ κ} :
    {A : Type ℓ} {B : Type κ} → Option (A × Bytes) → (A → Bytes → Option B) → Option B
then_read none f = none
then_read (some (a, s)) f = f a s

abbrev pub read_number : Bytes → Option (ℕ × Bytes)
read_number [] = none
read_number (n ∷ s) = some (n, s)

abbrev pub number : Format ℕ
number = record { write = λ n s. n ∷ s; read = read_number; read-write = λ n s. refl }

module _ {A B : Type 0} (F : Format A) (G : Format B) where
  abbrev pub second : A → B → Bytes → Option ((A × B) × Bytes)
  second a b s = some ((a, b), s)

  abbrev pub read_second : A → Bytes → Option ((A × B) × Bytes)
  read_second a s = then_read (G.read s) (second a)

  pub pair-read :
      (p : A × B) (s : Bytes)
      → then_read (F.read (F.write p.0 (G.write p.1 s))) read_second ≡ some (p, s)
  pair-read p s =
      ap (λ o. then_read o read_second) (F.read-write p.0 (G.write p.1 s))
      ∙ ap (λ o. then_read o (second p.0)) (G.read-write p.1 s)

  unfoldable pub pair : Format (A × B)
  pair = record {
    write = λ p s. F.write p.0 (G.write p.1 s);
    read = λ s. then_read (F.read s) read_second;
    read-write = pair-read;
  }

module _ {A B : Type 0} (F : Format A) (to : A → B) (from : B → A)
    (back : (b : B) → to (from b) ≡ b) where
  abbrev pub mapped : A → Bytes → Option (B × Bytes)
  mapped a s = some (to a, s)

  pub through-read :
      (b : B) (s : Bytes) → then_read (F.read (F.write (from b) s)) mapped ≡ some (b, s)
  through-read b s =
      ap (λ o. then_read o mapped) (F.read-write (from b) s) ∙ ap (λ x. some (x, s)) (back b)

  unfoldable pub through : Format B
  through = record {
    write = λ b s. F.write (from b) s;
    read = λ s. then_read (F.read s) mapped;
    read-write = through-read;
  }

module _ {A : Type 0} (F : Format A) where
  unfoldable pub write_all : List A → Bytes → Bytes
  write_all [] s = s
  write_all (a ∷ as') s = F.write a (write_all as' s)

  abbrev pub cons_read : A → List A → Bytes → Option (List A × Bytes)
  cons_read a l s = some (a ∷ l, s)

  unfoldable pub read_all : ℕ → Bytes → Option (List A × Bytes)
  read_all zero s = some ([], s)
  read_all (suc n) s = then_read (F.read s) (λ a r. then_read (read_all n r) (cons_read a))

  pub read_all-write_all :
      (l : List A) (s : Bytes) → read_all (length l) (write_all l s) ≡ some (l, s)
  unfolding read_all write_all
  read_all-write_all [] s = refl
  read_all-write_all (a ∷ l) s =
      ap (λ o. then_read o (λ b r. then_read (read_all (length l) r) (cons_read b)))
        (F.read-write a (write_all l s))
      ∙ ap (λ o. then_read o (cons_read a)) (read_all-write_all l s)

  unfoldable pub list : Format (List A)
  unfolding read_all write_all
  list = record {
    write = λ l s. length l ∷ write_all l s;
    read = λ s. then_read (read_number s) read_all;
    read-write = read_all-write_all;
  }

  unfoldable pub write_option : Option A → Bytes → Bytes
  write_option none s = 0 ∷ s
  write_option (some a) s = 1 ∷ F.write a s

  abbrev pub some_read : A → Bytes → Option (Option A × Bytes)
  some_read a s = some (some a, s)

  unfoldable pub read_option : Bytes → Option (Option A × Bytes)
  read_option [] = none
  read_option (b ∷ s) = if b == 0 then some (none, s) else then_read (F.read s) some_read

  pub read_option-write_option :
      (o : Option A) (s : Bytes) → read_option (write_option o s) ≡ some (o, s)
  unfolding read_option write_option
  read_option-write_option none s = refl
  read_option-write_option (some a) s = ap (λ o. then_read o some_read) (F.read-write a s)

  unfoldable pub option : Format (Option A)
  unfolding read_option write_option
  option = record {
    write = write_option;
    read = read_option;
    read-write = read_option-write_option;
  }

abbrev pub text : Format Bytes
unfolding list
text = list number

-- A value that fills the bytes.
abbrev pub value {ℓ} : {A : Type ℓ} → Option (A × Bytes) → Option A
value none = none
value (some (a, s)) = some a

pub value-read : {A : Type 0} (F : Format A) (a : A) → value (F.read (F.write a [])) ≡ some a
value-read F a = ap value (F.read-write a [])
