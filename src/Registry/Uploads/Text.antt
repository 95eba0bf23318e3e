-- ===== src/Registry/Uploads/Text.antt =====
-- The text form of an upload's id, and what the parser makes of it.
use summ.Prelude.{
  ℕ, zero, suc, ◌/◌, ◌%◌, ◌<◌, ◌==◌, ◌≡◌, refl, ap, ◌∙◌, Option, some, Bool, true, false, [], ◌∷◌,
  Bytes, length, if◌then◌else◌, AllBytes, arith,
}
use summ.Core.Digest.{hex_char, hex}
use summ.Registry.Outcome.{done}
use summ.Registry.Uploads.{
  UploadKey, format_bytes, format_upload_id, hyphen_at, hex_digit, nibbles, slots, parse_upload_id,
}

hex_digit-hex_char : (n : ℕ) → n < 16 → hex_digit (hex_char n) ≡ some n
unfolding hex_digit hex_char
hex_digit-hex_char n h = ground arith

hex_char_no_hyphen : (n : ℕ) → n < 16 → (hex_char n == b'-') ≡ false
unfolding hex_char
hex_char_no_hyphen n h = ground arith

-- A byte's two digits are nibbles.
nibbles-pair :
    (b : ℕ) (s : Bytes)
    → b < 256
    → nibbles (hex_char (b / 16) ∷ hex_char (b % 16) ∷ s)
      ≡ hex_char (b / 16) ∷ hex_char (b % 16) ∷ nibbles s
unfolding nibbles
nibbles-pair b s h =
    rw (hex_char_no_hyphen (b / 16) (omega arith), hex_char_no_hyphen (b % 16) (omega arith)) refl

nibbles-format_bytes : (i : ℕ) (id : Bytes) → AllBytes id → nibbles (format_bytes i id) ≡ hex id
unfolding format_bytes nibbles hex
nibbles-format_bytes i [] h = refl
nibbles-format_bytes i (b ∷ id) h =
    by_place (hyphen_at i) (format_bytes (suc i) id)
    ∙ ap (λ s. hex_char (b / 16) ∷ hex_char (b % 16) ∷ s) (nibbles-format_bytes (suc i) id h.1)
  where
    by_place :
        (x : Bool) (s : Bytes)
        → nibbles (
            if x
            then b'-' ∷ hex_char (b / 16) ∷ hex_char (b % 16) ∷ s
            else hex_char (b / 16) ∷ hex_char (b % 16) ∷ s)
          ≡ hex_char (b / 16) ∷ hex_char (b % 16) ∷ nibbles s
    by_place true s = nibbles-pair b s h.0
    by_place false s = nibbles-pair b s h.0

nibbles-hex : (id : Bytes) → AllBytes id → nibbles (hex id) ≡ hex id
unfolding nibbles hex
nibbles-hex [] h = refl
nibbles-hex (b ∷ id) h =
    nibbles-pair b (hex id) h.0
    ∙ ap (λ s. hex_char (b / 16) ∷ hex_char (b % 16) ∷ s) (nibbles-hex id h.1)

slots-hex : (n : ℕ) (id : Bytes) → length id ≡ n → AllBytes id → slots n (hex id) ≡ some (id, [])
unfolding slots hex
slots-hex zero [] e h = refl
slots-hex zero (b ∷ id) e h = absurd (omega arith)
slots-hex (suc n) [] e h = absurd (omega arith)
slots-hex (suc n) (b ∷ id) e h =
    rw
      (
        hex_digit-hex_char (b / 16) (omega (arith, h.0)),
        hex_digit-hex_char (b % 16) (omega arith),
        slots-hex n id (omega arith) h.1,
      )
      (ap (back id) (omega arith))
  where
    back : Bytes → ℕ → Option (Bytes × Bytes)
    back rest x = some (x ∷ rest, [])

-- The parser gives an id of sixteen bytes back from its hyphenated text and from its bare digits.
pub parse_upload_id-format_upload_id :
    (id : UploadKey)
    → length id ≡ 16
    → AllBytes id
    → (parse_upload_id (format_upload_id id) ≡ done id) × (parse_upload_id (hex id) ≡ done id)
unfolding parse_upload_id format_upload_id
parse_upload_id-format_upload_id id e h = (
  rw (nibbles-format_bytes 0 id h, slots-hex 16 id e h) refl,
  rw (nibbles-hex id h, slots-hex 16 id e h) refl,
)
