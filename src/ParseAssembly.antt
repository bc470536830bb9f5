-- ===== src/ParseAssembly.antt =====
-- instrumentation/parse_assembly.py: the assembly of the AFL runtime, cut into one patch file for each
-- function.
pub mod Lines
pub mod Directives
pub mod Documents
pub mod Closed
pub mod Directory
pub mod Strings
mod Tests
use pe_ar_honours.Prelude.{
  ℕ, zero, suc, ◌+◌, Bool, true, false, not, ◌&&◌, ◌||◌, Option, none, some, List, [], ◌∷◌, ◌++◌,
  map, if◌then◌else◌, length, Outcome, ok, raise, ◌>>=◌, index_error, out_of_fuel,
}
use mathlib.Core.List.{reverse}
use pe_ar_honours.Text.{Text, codes}
use pe_ar_honours.Number.{decimal}
use pe_ar_honours.PatchFiles.{patch_file_name}
use pe_ar_honours.ParseAssembly.Lines.{
  rstrip, is_function_start, is_function_end, is_cfi_directive, is_rodata_start, is_skipped,
  string_bytes,
}

-- What the search upwards for read-only data leaves: the lines that it took, in its order, the bytes
-- of the strings among the lines that it saw, and whether it found the start of the section.
pub record Scan : Type 0 where
  pub func_rodata : List Text
  pub bytes : ℕ
  pub found_rodata : Bool

-- `while i > 0: ...`, over the lines from `assembly[i]` up to the first one.
unfoldable pub scan_up : List Text → Scan
scan_up [] = record { func_rodata = []; bytes = 0; found_rodata = false }
scan_up (line ∷ []) = record { func_rodata = []; bytes = 0; found_rodata = false }
scan_up (line ∷ next ∷ above) =
    let taken = if is_skipped line then [] else line ∷ [] in
    let rest = scan_up (next ∷ above) in
    if is_rodata_start line
    then record { func_rodata = taken; bytes = string_bytes line; found_rodata = true }
    else if is_function_end line
    then record { func_rodata = taken; bytes = string_bytes line; found_rodata = false }
    else record {
      func_rodata = taken ++ rest.func_rodata;
      bytes = string_bytes line + rest.bytes;
      found_rodata = rest.found_rodata;
    }

-- `func_rodata` when it is written.
unfoldable pub rodata_lines : Scan → List Text
rodata_lines s = if s.found_rodata then reverse s.func_rodata else []

-- What the search downwards for the end leaves: the code, the lines that it passed, with the end, last
-- line first, and the lines behind the end.
pub record Body : Type 0 where
  pub func_code : List Text
  pub passed : List Text
  pub behind : List Text

-- `while not re.match(re_function_end, assembly[i]): ...`, over the lines from `assembly[i]` on.
unfoldable pub take_body : List Text → List Text → Outcome Body
take_body passed [] = raise index_error
take_body passed (line ∷ lines) =
    let further = do
      b ← take_body (line ∷ passed) lines
      ok (record b { func_code = (if is_cfi_directive line then [] else line ∷ []) ++ b.func_code })
    in if is_function_end line
      then ok (record { func_code = []; passed = line ∷ passed; behind = lines })
      else further

-- `s[:-1]`
unfoldable pub drop_last : Text → Text
drop_last [] = []
drop_last (c ∷ []) = []
drop_last (c ∷ d ∷ s) = c ∷ drop_last (d ∷ s)

-- `'\n'.join(lines)`
unfoldable pub join_lines : List Text → Text
join_lines [] = []
join_lines (line ∷ []) = line
join_lines (line ∷ next ∷ lines) = line ++ (b'\n' ∷ join_lines (next ∷ lines))

-- A file that is written: its name in the output folder, and its text.
pub record OutFile : Type 0 where
  pub name : Text
  pub contents : Text

pub record Function : Type 0 where
  pub func_name : Text
  pub func_code : List Text
  pub func_rodata : List Text

-- `patch_no` and the file of the function.
unfoldable pub function_file : ℕ → Function → OutFile
unfolding join_lines
function_file patch_no f = record {
  name = patch_file_name patch_no f.func_name;
  contents = join_lines (f.func_code ++ ((b'\n' ∷ []) ∷ f.func_rodata));
}

-- The functions that the loop over the lines finds, and `total_rodata_len`.
pub record Found : Type 0 where
  pub functions : List Function
  pub total_rodata_len : ℕ

module _ (further : List Text → List Text → Outcome Found) where
  -- A function start at the line `start`, with the lines above it, last first, and those behind it.
  unfoldable pub take_function : Text → List Text → List Text → Outcome Found
  take_function start above [] = raise index_error
  take_function start above (label ∷ lines) = do
    let up = scan_up (start ∷ above)
    body ← take_body (label ∷ start ∷ above) lines
    found ← further body.passed body.behind
    ok (record {
      functions =
          record {
            func_name = drop_last label;
            func_code = body.func_code;
            func_rodata = rodata_lines up;
          }
          ∷ found.functions;
      total_rodata_len = up.bytes + found.total_rodata_len;
    })

-- `while i < len(assembly): ...`, with the lines above `i`, last first, and those from `i` on.
unfoldable pub functions_from : ℕ → List Text → List Text → Outcome Found
unfolding take_function
functions_from zero above lines = raise out_of_fuel
functions_from (suc fuel) above [] = ok (record { functions = []; total_rodata_len = 0 })
functions_from (suc fuel) above (line ∷ lines) =
    let next = functions_from fuel (line ∷ above) lines in
    if is_function_start line then take_function (functions_from fuel) line above lines else next

-- The files of the functions, numbered from `patch_no` on.
unfoldable pub function_files : ℕ → List Function → List OutFile
function_files patch_no [] = []
function_files patch_no (f ∷ functions) =
    function_file patch_no f ∷ function_files (suc patch_no) functions

-- All functions of the assembly, from the lines of its file.
unfoldable pub find_functions : List Text → Outcome Found
find_functions file =
    let assembly = map rstrip file in functions_from (suc (length assembly)) [] assembly

-- The files that are written to the output folder.
unfoldable pub parse_assembly : List Text → Outcome (List OutFile)
unfolding find_functions function_files
parse_assembly file = do
  found ← find_functions file
  ok (
      function_files 0 found.functions
      ++ record { name = codes "added_bytes_rodata"; contents = decimal found.total_rodata_len }
        ∷ [])
