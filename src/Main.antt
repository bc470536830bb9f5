-- ===== src/Main.antt =====
-- `main` of add_afl.py: the passes that it makes of the command line and of the file
-- `added_bytes_rodata`, and their run, one after the other.
pub mod Flags
pub mod Calls
pub mod Runs
pub mod Returns
mod Tests
use pe_ar_honours.Prelude.{
  ℕ, ◌+◌, Option, none, some, if◌then◌else◌, file_not_found, Bool, true, false, List, [], ◌∷◌,
  Outcome, ok, raise, ◌>>=◌,
}
use pe_ar_honours.Text.{Text, codes, text_eq}
use pe_ar_honours.Dict.{put}
use pe_ar_honours.Number.Int.{ℤ}
use pe_ar_honours.Args.{Options, Args, get_args}
use pe_ar_honours.Gtirb.{Gtirb}
use pe_ar_honours.Rewriting.{Patch, global_data, rodata_space, Call, insert_at_entry}
use pe_ar_honours.AddressMap.{JsonObject, create_address_map}
use pe_ar_honours.PatchFiles.{Disk}
use pe_ar_honours.AddAfl.{AflPass, afl_pass}
use pe_ar_honours.AddAfl.Pass.{Input, Report, begin_module}
use pe_ar_honours.Rodata.{ShiftPass, main_shift}

-- The passes, with what they are made with.
pub data MainPass : Type 0 where
  -- CreateAddressMapPass(out_file)
  address_map : Text → MainPass
  -- AddAFLGlobalDataPass(is_persistent, is_deferred, is_sharedmem_fuzzing)
  afl_data : Bool → Bool → Bool → MainPass
  -- AddAFLPass(..., mappings_file, ...)
  add_afl : AflPass → Text → MainPass
  shift_rodata : ShiftPass → MainPass

abbrev mapping_fname : Text
mapping_fname = codes ".rewrite_mappings.json"

unfoldable pub main_passes : Options → Text → Outcome (List MainPass)
main_passes options added_bytes = do
  args ← get_args options
  shift ← main_shift added_bytes
  ok (
      address_map mapping_fname
      ∷ afl_data args.is_persistent args.is_deferred args.is_sharedmem_fuzzing
      ∷ add_afl (afl_pass args) mapping_fname
      ∷ shift_rodata shift
      ∷ [])

-- The files that the passes write and read, by name.
abbrev pub Files : Type 0
Files = List (Text × JsonObject)

unfoldable pub read_file : Text → Files → Outcome JsonObject
unfolding text_eq
read_file name [] = raise file_not_found
read_file name ((n, contents) ∷ files) =
    let other = read_file name files in if text_eq n name then ok contents else other

-- The calls that a pass makes, and what it prints at its end if it is AddAFLPass.
pub record Result (Block : Type 0) : Type 0 where
  pub calls : List (Call Block)
  pub report : Option Report

module _ (G : Gtirb) where
  open G use {Block, Function}

  -- The module as a pass finds it; between two passes gtirb_rewriting has changed it.
  pub record Module : Type 0 where
    pub entry_point : Block
    pub code_blocks : List Block
    pub functions : List Function

  -- The files of patches, and the random numbers.
  pub record Surroundings : Type 0 where
    pub disk : Disk
    pub random_bits : ℕ → ℕ

  -- `AddAFLGlobalDataPass.begin_module` and `ShiftRodataAlignmentPass.begin_module`
  abbrev pub afl_data_calls : Module → Bool → Bool → Bool → List (Call Block)
  afl_data_calls m is_persistent is_deferred is_sharedmem_fuzzing =
      insert_at_entry m.entry_point (global_data is_persistent is_deferred is_sharedmem_fuzzing)
      ∷ []

  abbrev pub shift_rodata_calls : Module → ShiftPass → List (Call Block)
  shift_rodata_calls m shift = insert_at_entry m.entry_point (rodata_space shift.bytes_to_add) ∷ []

  -- `begin_module` of each pass.
  unfoldable pub run_pass :
      Surroundings → MainPass → Module → Files → Outcome (Result Block × Files)
  unfolding put
  run_pass w (address_map out_file) m files = ok (
    record { calls = []; report = none },
    put text_eq out_file (create_address_map G m.code_blocks) files,
  )
  run_pass w (afl_data persistent deferred sharedmem) m files =
      ok (record { calls = afl_data_calls m persistent deferred sharedmem; report = none }, files)
  run_pass w (add_afl pass name) m files = do
    mappings_file ← read_file name files
    (calls, report) ← begin_module G pass (record {
      entry_point = m.entry_point;
      code_blocks = m.code_blocks;
      functions = m.functions;
      mappings_file = mappings_file;
      disk = w.disk;
      random_bits = w.random_bits;
    })
    ok (record { calls = calls; report = some report }, files)
  run_pass w (shift_rodata shift) m files =
      ok (record { calls = shift_rodata_calls m shift; report = none }, files)

  -- `for p in passes: ...`; pass number `k` finds the module `modules k`.
  unfoldable pub run_passes :
      Surroundings → (ℕ → Module) → ℕ → List MainPass → Files → Outcome (List (Result Block))
  run_passes w modules k [] files = ok []
  run_passes w modules k (p ∷ passes) files = do
    (result, written) ← run_pass w p (modules k) files
    results ← run_passes w modules (k + 1) passes written
    ok (result ∷ results)

  -- `main`, from the options, the text of `added_bytes_rodata` and no files.
  unfoldable pub main : Options → Text → Surroundings → (ℕ → Module) → Outcome (List (Result Block))
  main options added_bytes w modules = do
    passes ← main_passes options added_bytes
    run_passes w modules 0 passes []
