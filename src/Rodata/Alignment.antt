-- ===== src/Rodata/Alignment.antt =====
-- `.rodata` keeps its alignment.
use pe_ar_honours.Prelude.{
  ℕ, ◌+◌, ◌-◌, ◌*◌, ◌/◌, ◌%◌, ◌<◌, ◌≤◌, ◌≡◌, refl, ◌∙◌, ap, Bool, true, false, arith, ok,
}
use native.Mathlib.Nat.{mul-mod_right}
use pe_ar_honours.Number.Int.{pos, ◌+ℤ◌, ◌-ℤ◌, ◌*ℤ◌, floor_div}
use pe_ar_honours.Rodata.{padding, calc_alignment, main_shift, rodata_size, global_rodata}
use pe_ar_honours.Number.{decimal}
use pe_ar_honours.Number.RoundTrip.{parse_int-decimal}

mul_pos : (a b : ℕ) → pos a *ℤ pos b ≡ pos (a * b)
unfolding ◌*ℤ◌
mul_pos a b = ground arith

add_pos : (a b : ℕ) → pos a +ℤ pos b ≡ pos (a + b)
unfolding ◌+ℤ◌
add_pos a b = ground arith

sub_pos : (a b : ℕ) → b ≤ a → pos a -ℤ pos b ≡ pos (a - b)
unfolding ◌-ℤ◌
sub_pos a b h = ground arith

rest : (a n : ℕ) → 0 < a → (n ≤ a * (n / a + 1)) × (a * (n / a + 1) - n ≡ a - n % a)
rest a n h = (grind arith, grind arith)

padded : (a n : ℕ) → 0 < a → n + (a - n % a) ≡ a * (n / a + 1)
padded a n h = grind arith

padding-pos : (a n : ℕ) → 0 < a → padding (pos a) (pos n) ≡ pos (a - n % a)
unfolding padding floor_div
padding-pos a n h =
    rw (add_pos, mul_pos) (sub_pos (a * (n / a + 1)) n (rest a n h).0 ∙ ap pos (rest a n h).1)

padded_mod : (a n : ℕ) → 0 < a → (n + (a - n % a)) % a ≡ 0
padded_mod a n h = ap (λ x. x % a) (padded a n h) ∙ mul-mod_right a (n / a + 1)

-- A number of bytes is filled up to a multiple of the alignment, by at least one byte and at most
-- as many as the alignment.
pub calc_alignment-aligned :
    (a n : ℕ)
    → 0 < a
    → (calc_alignment (pos a) (pos n) ≡ ok (pos (a - n % a)))
      × ((n + (a - n % a)) % a ≡ 0)
      × (0 < a - n % a)
      × (a - n % a ≤ a)
unfolding calc_alignment
calc_alignment-aligned a n h =
    (rw (padding-pos a n h) (ground arith), padded_mod a n h, grind arith, omega arith)

global_padded :
    (is_persistent is_deferred : Bool) (n : ℕ)
    → (rodata_size (global_rodata is_persistent is_deferred) + n + (16 - n % 16)) % 16 ≡ 0
unfolding global_rodata
global_padded true true n = omega arith
global_padded true false n = omega arith
global_padded false true n = omega arith
global_padded false false n = omega arith

-- The signatures take whole multiples of 16 bytes, so that with the data of the patches and the
-- padding that `main` computes from the file `added_bytes_rodata`, `.rodata` grows by such a multiple.
pub main_shift-aligned :
    (is_persistent is_deferred : Bool) (n : ℕ)
    → (main_shift (decimal n)
        ≡ ok (record { bytes_to_add = pos (16 - n % 16); alignment = pos 16 }))
      × ((rodata_size (global_rodata is_persistent is_deferred) + n + (16 - n % 16)) % 16 ≡ 0)
unfolding main_shift
main_shift-aligned is_persistent is_deferred n = (
  rw (parse_int-decimal n, padding-pos 16 n (omega arith)) refl,
  global_padded is_persistent is_deferred n,
)
