-- ===== src/Number/RoundTrip.antt =====
-- `int(str(n))` is `n`.
use pe_ar_honours.Prelude.{
  ℕ, zero, suc, ◌+◌, ◌*◌, ◌/◌, ◌%◌, ◌<◌, ◌≤◌, ◌≡◌, refl, ◌∙◌, Bool, true, false, some, [], ◌∷◌,
  ◌++◌, arith, ltb, All, All-append, ok, Bool-cases, inl, inr,
}
use mathlib.Core.List.{append_assoc, append-nil}
use pe_ar_honours.Text.{Text}
use pe_ar_honours.Text.Laws.{strip_none}
use pe_ar_honours.Number.{
  is_space, digit_value, read_digits, skip_prefix, read_natural, read_signed, parse_int,
  decimal_digits, decimal,
}
use pe_ar_honours.Number.Int.{pos}

abbrev IsDigit : ℕ → Type 0
IsDigit c = (48 ≤ c) × (c ≤ 57)

digit_value-decimal : (v : ℕ) → v < 10 → digit_value 10 (48 + v) ≡ some v
unfolding digit_value
digit_value-decimal v h = ground arith

read_digit :
    (acc v n : ℕ) (after : Bool) (s : Text)
    → v < 10
    → acc * 10 + v ≡ n
    → read_digits 10 acc after ((48 + v) ∷ s) ≡ read_digits 10 n true s
unfolding read_digits
read_digit acc v n after s h e = rw (← e) (ground (arith, digit_value-decimal v h))

-- The digits of `n` are read as `n`, whatever follows them.
read_digits-decimal_digits :
    (fuel n : ℕ) (after : Bool) (s : Text)
    → n < fuel
    → read_digits 10 0 after (decimal_digits fuel n ++ s) ≡ read_digits 10 n true s
unfolding decimal_digits
read_digits-decimal_digits zero n after s h = elim h [ ]
read_digits-decimal_digits (suc fuel) n after s h = elim (Bool-cases (ltb n 10)) [
  | inl small ↦ rw small (read_digit 0 n n after s (ground arith) (omega arith))
  | inr large ↦ rw large (
      rw append_assoc (
        read_digits-decimal_digits fuel (n / 10) after ((48 + n % 10) ∷ s) (ground arith)
        ∙ read_digit (n / 10) (n % 10) n true s (omega arith) (omega arith)))
]

decimal_digits-All : (fuel n : ℕ) → All IsDigit (decimal_digits fuel n)
unfolding decimal_digits
decimal_digits-All zero n = tt
decimal_digits-All (suc fuel) n = elim (Bool-cases (ltb n 10)) [
  | inl small ↦ rw small (ground arith)
  | inr large ↦ rw large (All-append IsDigit _ _ (decimal_digits-All fuel (n / 10)) (omega arith))
]

digits-no_spaces : (s : Text) → All IsDigit s → All (λ c. is_space c ≡ false) s
unfolding is_space
digits-no_spaces [] a = tt
digits-no_spaces (c ∷ s) a = (ground arith, digits-no_spaces s a.1)

skip_prefix-digits : (s : Text) → All IsDigit s → skip_prefix 10 s ≡ s
unfolding skip_prefix
skip_prefix-digits [] a = refl
skip_prefix-digits (c ∷ []) a = refl
skip_prefix-digits (c ∷ d ∷ s) a = refl

read_signed-digits :
    (s : Text) (n : ℕ)
    → All IsDigit s
    → read_digits 10 0 false s ≡ some n
    → read_signed 10 s ≡ ok (pos n)
unfolding read_signed read_natural read_digits
read_signed-digits [] n a h = cc
read_signed-digits (c ∷ s) n a h = ground (arith, skip_prefix-digits (c ∷ s) a)

read_digits-all : (n : ℕ) → read_digits 10 0 false (decimal_digits (suc n) n) ≡ some n
read_digits-all n =
    rw append-nil at (read_digits-decimal_digits (suc n) n false [] (omega arith))
    ∙ (unfold read_digits in refl)

-- A natural number is read back from its decimal digits.
pub parse_int-decimal : (n : ℕ) → parse_int 10 (decimal n) ≡ ok (pos n)
unfolding parse_int decimal
parse_int-decimal n =
    let digits = decimal_digits-All (suc n) n in
    rw (strip_none is_space _ (digits-no_spaces _ digits))
      (read_signed-digits _ n digits (read_digits-all n))
