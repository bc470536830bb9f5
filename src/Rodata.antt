-- ===== src/Rodata.antt =====
-- The bytes that add_afl.py adds to `.rodata`: the signatures of `AddAFLGlobalDataPass`, the data of
-- the patches, and the padding of `ShiftRodataAlignmentPass`.
pub mod Alignment
use pe_ar_honours.Prelude.{
  ℕ, ◌+◌, Bool, List, [], ◌∷◌, ◌++◌, if◌then◌else◌, length, not, Outcome, ok, raise, ◌>>=◌, stop_if,
  zero_division,
}
use pe_ar_honours.Text.{Text, codes}
use pe_ar_honours.Number.{parse_int}
use pe_ar_honours.Number.Int.{ℤ, pos, ◌+ℤ◌, ◌-ℤ◌, ◌*ℤ◌, floor_div, is_nonzero}

-- `align * ((nbytes // align) + 1) - nbytes`
unfoldable pub padding : ℤ → ℤ → ℤ
padding align nbytes = align *ℤ (floor_div nbytes align +ℤ pos 1) -ℤ nbytes

-- `calc_alignment`, with the error of a division by zero.
unfoldable pub calc_alignment : ℤ → ℤ → Outcome ℤ
calc_alignment align nbytes =
    stop_if (not (is_nonzero align)) zero_division (ok (padding align nbytes))

-- What `ShiftRodataAlignmentPass` is made with.
pub record ShiftPass : Type 0 where
  pub bytes_to_add : ℤ
  pub alignment : ℤ

-- `ShiftRodataAlignment.create_pass`
unfoldable pub create_pass : Text → Text → Outcome ShiftPass
unfolding calc_alignment
create_pass rodata_bytes_added rodata_alignment_required = do
  align ← parse_int 10 rodata_alignment_required
  bytes_added ← parse_int 10 rodata_bytes_added
  bytes_to_add ← calc_alignment align bytes_added
  ok (record { bytes_to_add = bytes_to_add; alignment = align })

-- The last pass of `main`, from the text of the file `added_bytes_rodata`.
unfoldable pub main_shift : Text → Outcome ShiftPass
unfolding calc_alignment
main_shift added_bytes = do
  rodata_added_bytes ← parse_int 10 added_bytes
  bytes_to_add ← calc_alignment (pos 16) rodata_added_bytes
  ok (record { bytes_to_add = bytes_to_add; alignment = pos 16 })

-- A directive of the `.rodata` part of a patch: `.string "..."` or `.space n`.
pub data Directive : Type 0 where
  string : Text → Directive
  space : ℕ → Directive

-- The bytes that it takes; a string ends with a zero.
abbrev pub directive_size : Directive → ℕ
directive_size (string s) = length s + 1
directive_size (space n) = n

abbrev pub rodata_size : List Directive → ℕ
rodata_size [] = 0
rodata_size (d ∷ ds) = directive_size d + rodata_size ds

persistent_mode_sig : List Directive
persistent_mode_sig = string (codes "##SIG_AFL_PERSISTENT##") ∷ space 9 ∷ []

deferred_initialisation_sig : List Directive
deferred_initialisation_sig = string (codes "##SIG_AFL_DEFER_FORKSRV##") ∷ space 6 ∷ []

-- The `.rodata` part of the patch of `AddAFLGlobalDataPass`.
unfoldable pub global_rodata : Bool → Bool → List Directive
unfolding persistent_mode_sig deferred_initialisation_sig
global_rodata is_persistent is_deferred =
    space 16
    ∷ ((if is_persistent then persistent_mode_sig else [])
        ++ (if is_deferred then deferred_initialisation_sig else []))
