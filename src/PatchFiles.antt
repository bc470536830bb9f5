-- ===== src/PatchFiles.antt =====
-- The names of the patch files: parse_assembly.py writes `N-<function>.s`, and
-- `AddAFLPass.begin_module` of add_afl.py finds them in the patch directory. Names are ASCII, so that
-- `isnumeric` is a test for the ten digits.
pub mod Names
pub mod Directory
use pe_ar_honours.Prelude.{
  suc, ℕ, ◌-◌, Bool, true, false, ◌&&◌, List, [], ◌∷◌, ◌++◌, map, ◌==◌, leb, if◌then◌else◌, length,
  Outcome, ok, raise, ◌>>=◌, index_error, file_not_found, Option, none, some,
}
use mathlib.Core.List.{reverse}
use pe_ar_honours.Text.{Text, codes, text_eq}
use pe_ar_honours.Number.{decimal, parse_int}
use pe_ar_honours.Number.Int.{ℤ, pos_part}
use pe_ar_honours.Rewriting.{Patch, file_patch, Call, insert_function}
use pe_ar_honours.Sorting.{sorted}

unfoldable pub is_numeric : ℕ → Bool
is_numeric c = leb b'0' c && leb c b'9'

-- `f[-2:] == '.s'`, on the reversed text.
ends_in_s : Text → Bool
ends_in_s (c ∷ d ∷ _) = c == b's' && d == b'.'
ends_in_s _ = false

second_is_dash : Text → Outcome Bool
second_is_dash [] = raise index_error
second_is_dash (d ∷ _) = ok (d == b'-')

-- `f[0].isnumeric() and f[1] == '-' and f[-2:] == '.s'`
unfoldable pub is_patch_file : Text → Outcome Bool
unfolding is_numeric ends_in_s second_is_dash
is_patch_file [] = raise index_error
is_patch_file (c ∷ f) =
    if is_numeric c
    then (second_is_dash f >>= λ dash. ok (dash && ends_in_s (reverse (c ∷ f))))
    else ok false

-- The loop over `os.listdir(self.patch_dir)`.
unfoldable pub select : List Text → Outcome (List Text)
unfolding is_patch_file
select [] = ok []
select (f ∷ listed) = do
  wanted ← is_patch_file f
  rest ← select listed
  ok (if wanted then f ∷ rest else rest)

-- `e.split('-')[0]`
unfoldable pub before_dash : Text → Text
before_dash [] = []
before_dash (c ∷ s) = let rest = before_dash s in if c == b'-' then [] else c ∷ rest

number : Outcome ℤ → ℕ
number (ok z) = pos_part z
number (raise e) = 0

-- `int(e.split('-')[0])`, which reads the first digit of each file that is selected.
unfoldable pub patch_number : Text → ℕ
unfolding number before_dash
patch_number e = number (parse_int 10 (before_dash e))

drop_two : Text → Text
drop_two (_ ∷ _ ∷ s) = s
drop_two _ = []

-- `patch_file[2:-2]`, for a name of four or more characters.
unfoldable pub patch_function : Text → Text
unfolding drop_two
patch_function f = reverse (drop_two (reverse (drop_two f)))

-- What `os.listdir` and `open` find under a path.
pub record Disk : Type 0 where
  pub listing : Text → Option (List Text)
  pub contents : Text → Option Text

found : {A : Type 0} → Option A → Outcome A
found none = raise file_not_found
found (some a) = ok a

-- `os.listdir(path)`
unfoldable pub list_dir : Disk → Text → Outcome (List Text)
unfolding found
list_dir disk path = found (disk.listing path)

-- `FilePatch(path)`
unfoldable pub read_patch : Disk → Text → Outcome Patch
unfolding found
read_patch disk path = do asm ← found (disk.contents path); ok (file_patch asm)

-- The loop over `patch_files`. Directory and name are joined as they are.
unfoldable pub insert_files :
    {Block : Type 0} → Disk → Text → List Text → Outcome (List (Call Block))
unfolding read_patch patch_function
insert_files disk patch_dir [] = ok []
insert_files disk patch_dir (f ∷ files) = do
  patch ← read_patch disk (patch_dir ++ f)
  later ← insert_files disk patch_dir files
  ok (insert_function (patch_function f) patch ∷ later)

-- `patch_files`, sorted, as they are inserted.
unfoldable pub patch_calls : {Block : Type 0} → Disk → Text → Outcome (List (Call Block))
unfolding list_dir select sorted patch_number insert_files
patch_calls disk patch_dir = do
  listed ← list_dir disk patch_dir
  files ← select listed
  insert_files disk patch_dir (sorted patch_number files)

-- `f'{patch_no}-{func_name}.s'` of parse_assembly.py
unfoldable pub patch_file_name : ℕ → Text → Text
patch_file_name patch_no func_name = decimal patch_no ++ (b'-' ∷ (func_name ++ codes ".s"))

-- The names of the files for functions in turn, from number `patch_no` on.
unfoldable pub numbered : ℕ → List Text → List Text
numbered patch_no [] = []
numbered patch_no (func_name ∷ func_names) =
    patch_file_name patch_no func_name ∷ numbered (suc patch_no) func_names
