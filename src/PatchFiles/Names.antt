-- ===== src/PatchFiles/Names.antt =====
-- Which of the names that parse_assembly.py writes are found again.
use pe_ar_honours.Prelude.{
  ℕ, zero, suc, ◌+◌, ◌/◌, ◌%◌, ◌<◌, ◌≤◌, ◌≡◌, true, false, [], ◌∷◌, ◌++◌, arith, ltb, ◌==◌, ok,
  Bool-cases, inl, inr,
}
use mathlib.Core.List.{reverse, reverse-reverse, reverse-append}
use pe_ar_honours.Text.{Text, codes}
use pe_ar_honours.Number.{decimal, decimal_digits, parse_int}
use pe_ar_honours.Number.Int.{pos}
use pe_ar_honours.Number.RoundTrip.{parse_int-decimal}
use pe_ar_honours.PatchFiles.{
  is_numeric, ends_in_s, is_patch_file, before_dash, patch_number, patch_function, patch_file_name,
}

decimal_small : (n : ℕ) → n < 10 → decimal n ≡ (48 + n) ∷ []
unfolding decimal
decimal_small n h = ground arith

ends_in_s-file : (s : Text) → ends_in_s (reverse (s ++ codes ".s")) ≡ true
unfolding ends_in_s
ends_in_s-file s = rw reverse-append

is_patch_file-dash :
    (c : ℕ) (func_name : Text)
    → is_numeric c ≡ true
    → is_patch_file (c ∷ b'-' ∷ (func_name ++ codes ".s")) ≡ ok true
unfolding is_patch_file
is_patch_file-dash c func_name h = rw (h, ends_in_s-file (c ∷ b'-' ∷ func_name))

before_dash-digit : (n : ℕ) (s : Text) → n < 10 → before_dash ((48 + n) ∷ b'-' ∷ s) ≡ (48 + n) ∷ []
unfolding before_dash
before_dash-digit n s h = ground arith

parse_int-digit : (n : ℕ) → n < 10 → parse_int 10 ((48 + n) ∷ []) ≡ ok (pos n)
parse_int-digit n h = rw decimal_small at (parse_int-decimal n)

patch_function-dash :
    (c : ℕ) (func_name : Text) → patch_function (c ∷ b'-' ∷ (func_name ++ codes ".s")) ≡ func_name
unfolding patch_function
patch_function-dash c func_name = rw (reverse-append, reverse-reverse)

decimal_digits-one : (fuel n : ℕ) → n < 10 → 0 < fuel → decimal_digits fuel n ≡ (48 + n) ∷ []
unfolding decimal_digits
decimal_digits-one zero n h pos_fuel = elim pos_fuel [ ]
decimal_digits-one (suc fuel) n h pos_fuel = ground arith

decimal_digits-more :
    (fuel n : ℕ)
    → 10 ≤ n
    → decimal_digits (suc fuel) n ≡ decimal_digits fuel (n / 10) ++ (48 + n % 10) ∷ []
unfolding decimal_digits
decimal_digits-more fuel n h = ground arith

-- A number from 10 on has two digits or more.
two_digits :
    (fuel n : ℕ)
    → n < fuel
    → 10 ≤ n
    → (c d : ℕ) × (rest : Text) × (decimal_digits fuel n ≡ c ∷ d ∷ rest)
      × (is_numeric c ≡ true)
      × ((d == b'-') ≡ false)
unfolding is_numeric
two_digits zero n h le = absurd (omega arith)
two_digits (suc fuel) n h le = elim (Bool-cases (ltb (n / 10) 10)) [
  | inl small ↦ (
    48 + n / 10,
    48 + n % 10,
    [],
    rw (
      decimal_digits-more fuel n le,
      decimal_digits-one fuel (n / 10) (ground arith) (omega arith),
    ),
    ground arith,
    ground arith,
  )
  | inr large ↦
      let (c, d, rest, split, numeric, other) =
        two_digits fuel (n / 10) (omega arith) (ground arith) in
      (c, d, rest ++ (48 + n % 10) ∷ [], rw (decimal_digits-more fuel n le, split), numeric, other)
]

-- The name of patch number 0 to 9 is found, with its number and its function.
pub patch_file_name_lem :
    (n : ℕ) (func_name : Text)
    → n < 10
    → (is_patch_file (patch_file_name n func_name) ≡ ok true)
      × (patch_number (patch_file_name n func_name) ≡ n)
      × (patch_function (patch_file_name n func_name) ≡ func_name)
unfolding patch_file_name
patch_file_name_lem n func_name h = rw (decimal_small n h) (
  is_patch_file-dash (48 + n) func_name (unfold is_numeric in ground arith),
  unfold patch_number in rw (before_dash-digit n (func_name ++ codes ".s") h, parse_int-digit n h),
  patch_function-dash (48 + n) func_name,
)

-- The name of any later patch is passed over.
patch_file_name_late :
    (n : ℕ) (func_name : Text) → 10 ≤ n → is_patch_file (patch_file_name n func_name) ≡ ok false
unfolding is_patch_file patch_file_name decimal
patch_file_name_late n func_name h =
    let (c, d, rest, split, numeric, other) = two_digits (suc n) n (omega arith) h in
    rw (split, numeric, other)

-- Of the file names that parse_assembly.py makes, begin_module accepts those of patches 0 to 9, and passes
-- over all others.
pub is_patch_file-patch_file_name :
    (n : ℕ) (func_name : Text) → is_patch_file (patch_file_name n func_name) ≡ ok (ltb n 10)
is_patch_file-patch_file_name n func_name = elim (Bool-cases (ltb n 10)) [
  | inl early ↦ rw early (patch_file_name_lem n func_name (ground arith)).0
  | inr late ↦ rw late (patch_file_name_late n func_name (ground arith))
]
