-- ===== src/Uuid/RoundTrip.antt =====
-- A UUID is read back from its `hex`.
use pe_ar_honours.Prelude.{
  ℕ, zero, suc, ◌+◌, ◌*◌, ◌/◌, ◌%◌, ◌^◌, ◌<◌, ◌≤◌, ◌≡◌, refl, ◌∙◌, ◌⊎◌, Bool, true, false, some, [],
  ◌∷◌, ◌++◌, arith, lt→ltb, All, All-append, ok, length, length-append,
}
use mathlib.Core.List.{append_assoc, append-nil}
use native.Mathlib.Nat.{pow-suc}
use pe_ar_honours.Text.{Text}
use pe_ar_honours.Text.Laws.{strip_none, remove_all_none}
use pe_ar_honours.Number.{
  is_space, digit_value, read_digits, skip_prefix, read_natural, read_signed, parse_int,
}
use pe_ar_honours.Number.Int.{pos}
use pe_ar_honours.Uuid.{hex_digit, hex_digits, hex, is_brace, plain_hex, in_range, parse_uuid}

-- The code of a digit of a lower-case hexadecimal text.
abbrev IsHexDigit : ℕ → Type 0
IsHexDigit c = ((48 ≤ c) × (c ≤ 57)) ⊎ ((97 ≤ c) × (c ≤ 102))

digit_value-hex_digit : (v : ℕ) → v < 16 → digit_value 16 (hex_digit v) ≡ some v
unfolding digit_value hex_digit
digit_value-hex_digit v h = ground arith

hex_digit-IsHexDigit : (v : ℕ) → v < 16 → IsHexDigit (hex_digit v)
unfolding hex_digit
hex_digit-IsHexDigit v h = ground arith

read_digit :
    (acc v n : ℕ) (after : Bool) (s : Text)
    → v < 16
    → acc * 16 + v ≡ n
    → read_digits 16 acc after (hex_digit v ∷ s) ≡ read_digits 16 n true s
unfolding read_digits
read_digit acc v n after s h e =
    rw (← e) (ground (arith, digit_value-hex_digit v h, hex_digit-IsHexDigit v h))

read_digits-hex_digits :
    (width n : ℕ) (after : Bool) (s : Text)
    → n < 16 ^ suc width
    → read_digits 16 0 after (hex_digits (suc width) n ++ s) ≡ read_digits 16 n true s
unfolding hex_digits
read_digits-hex_digits zero n after s h =
    read_digit 0 (n % 16) n after s (omega arith) (omega arith)
read_digits-hex_digits (suc width) n after s h =
    rw (append_assoc (hex_digits (suc width) (n / 16)) (hex_digit (n % 16) ∷ []) s) (
      read_digits-hex_digits width (n / 16) after (hex_digit (n % 16) ∷ s)
        (omega (arith, pow-suc 16 (suc width)))
      ∙ read_digit (n / 16) (n % 16) n true s (omega arith) (omega arith))

hex_digits-All : (width n : ℕ) → All IsHexDigit (hex_digits width n)
unfolding hex_digits
hex_digits-All zero n = tt
hex_digits-All (suc width) n =
    All-append IsHexDigit _ _ (hex_digits-All width (n / 16))
      (hex_digit-IsHexDigit (n % 16) (omega arith), tt)

length-hex_digits : (width n : ℕ) → length (hex_digits width n) ≡ width
unfolding hex_digits
length-hex_digits zero n = refl
length-hex_digits (suc width) n = omega (
  arith,
  length-append (hex_digits width (n / 16)) (hex_digit (n % 16) ∷ []),
  length-hex_digits width (n / 16),
)

module _ (P : ℕ → Type 0) (weaken : (c : ℕ) → IsHexDigit c → P c) where
  All-weaken : (s : Text) → All IsHexDigit s → All P s
  All-weaken [] a = tt
  All-weaken (c ∷ s) a = (weaken c a.0, All-weaken s a.1)

plain_hex-hex_digits : (s : Text) → All IsHexDigit s → plain_hex s ≡ s
unfolding plain_hex
plain_hex-hex_digits s a =
    rw
      (
        remove_all_none b'u' _ s (All-weaken _ (λ c h. ground arith) s a),
        remove_all_none b'u' _ s (All-weaken _ (λ c h. ground arith) s a),
        strip_none is_brace s (All-weaken _ (λ c h. unfold is_brace in ground arith) s a),
      )
      (remove_all_none b'-' [] s (All-weaken _ (λ c h. ground arith) s a))

skip_prefix-hex_digits : (s : Text) → All IsHexDigit s → skip_prefix 16 s ≡ s
unfolding skip_prefix
skip_prefix-hex_digits [] a = refl
skip_prefix-hex_digits (c ∷ []) a = refl
skip_prefix-hex_digits (c ∷ d ∷ s) a = ground arith

read_signed-hex_digits :
    (s : Text) (n : ℕ)
    → All IsHexDigit s
    → read_digits 16 0 false s ≡ some n
    → read_signed 16 s ≡ ok (pos n)
unfolding read_signed read_natural read_digits
read_signed-hex_digits [] n a h = cc
read_signed-hex_digits (c ∷ s) n a h = ground (arith, skip_prefix-hex_digits (c ∷ s) a)

parse_int-hex_digits :
    (width n : ℕ) → n < 16 ^ suc width → parse_int 16 (hex_digits (suc width) n) ≡ ok (pos n)
unfolding parse_int
parse_int-hex_digits width n h =
    let digits = hex_digits-All (suc width) n in
    let read : read_digits 16 0 false (hex_digits (suc width) n) ≡ some n =
      rw append-nil at (read_digits-hex_digits width n false [] h) ∙ (unfold read_digits in refl) in
    rw (strip_none is_space _ (All-weaken _ (λ c h. unfold is_space in ground arith) _ digits))
      (read_signed-hex_digits _ n digits read)

parse_uuid-plain :
    (s : Text) (u : ℕ)
    → plain_hex s ≡ s
    → length s ≡ 32
    → parse_int 16 s ≡ ok (pos u)
    → u < 2 ^ 128
    → parse_uuid s ≡ ok u
unfolding parse_uuid in_range
parse_uuid-plain s u e l h b = rw (e, l, h, lt→ltb u (2 ^ 128) b)

-- A 128-bit identity is read back from its 32 hexadecimal digits.
pub parse_uuid-hex : (u : ℕ) → u < 2 ^ 128 → parse_uuid (hex u) ≡ ok u
unfolding hex
parse_uuid-hex u h =
    parse_uuid-plain _ u (plain_hex-hex_digits _ (hex_digits-All 32 u)) (length-hex_digits 32 u)
      (parse_int-hex_digits 31 u (omega arith)) h
