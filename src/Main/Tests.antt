-- ===== src/Main/Tests.antt =====
-- `main` on the example, with no options but the files.
use pe_ar_honours.Prelude.{
  ℕ, ◌+◌, ◌≡◌, refl, Bool, true, false, none, some, List, [], ◌∷◌, ◌++◌, ok, raise, system_exit,
  is_ok, arith, All, ◌<◌, ◌^◌, if◌then◌else◌,
}
use pe_ar_honours.Text.{codes, text_eq}
use pe_ar_honours.Number.{decimal, parse_int}
use pe_ar_honours.Number.Int.{pos, ◌-ℤ◌, ◌*ℤ◌, ◌+ℤ◌, floor_div}
use pe_ar_honours.Args.{Options, Args, get_args, read_hook, convert, default_count}
use pe_ar_honours.Sorting.Distinct.{Distinct}
use pe_ar_honours.Gtirb.Example.{example, start_code, main_code}
use pe_ar_honours.Rewriting.{
  insert_function, insert_at_entry, afl_trace, afl_trampoline, file_patch, global_data,
  rodata_space,
}
use pe_ar_honours.AddAfl.{
  afl_pass, is_deferred, extern_calls, forkserver_patch, setup_patch, equals, entry_function,
}
use pe_ar_honours.AddAfl.Pass.{
  is_start, begin_module, prepare, start_at_address, visit_all, loop_at_address, finish, report,
}
use pe_ar_honours.Uuid.{hex_digits}
use pe_ar_honours.Rodata.{main_shift, padding}
use pe_ar_honours.AddressMap.{create_address_map, load_mappings}
use pe_ar_honours.PatchFiles.{patch_calls}
use pe_ar_honours.Main.{
  Result, Module, Surroundings, main, main_passes, run_passes, run_pass, read_file,
}
use pe_ar_honours.Main.Flags.{afl_pass-flags}
use pe_ar_honours.Main.Returns.{main-is_ok}
use pe_ar_honours.Main.Runs.{Ran, main-Ran}

abbrev options : Options
options = record {
  infile = codes "a.gtirb";
  outfile = codes "b.gtirb";
  patch_dir = codes "p/";
  forkserver_init_address = none;
  forkserver_init_func = none;
  persistent_mode_address = none;
  persistent_mode_func = none;
  persistent_mode_count = none;
  sharedmem_hook_location = none;
  sharedmem_hook_func_name = none;
}

abbrev args : Args
args = record {
  infile = codes "a.gtirb";
  outfile = codes "b.gtirb";
  patch_dir = codes "p/";
  forkserver_init_address = none;
  forkserver_init_func = none;
  persistent_mode_address = none;
  persistent_mode_func = none;
  persistent_mode_count = none;
  sharedmem_hook_func_name = none;
  is_hook_loc_persistent = false;
  is_hook_loc_init = false;
  is_hook_loc_address = false;
  hook_loc_address = none;
  is_deferred = false;
  is_persistent = false;
  is_sharedmem_fuzzing = false;
}

abbrev surroundings : Surroundings example
surroundings = record {
  disk = record {
    listing = λ path. some (codes "0-f.s" ∷ []);
    contents = λ path. if text_eq path (codes "p/0-f.s") then some (codes "ret") else none;
  };
  random_bits = λ k. 7 + k;
}

abbrev modules : ℕ → Module example
modules k = record {
  entry_point = 90;
  code_blocks = 90 ∷ 100 ∷ 104 ∷ 110 ∷ 120 ∷ [];
  functions = start_code ∷ main_code ∷ [];
}

abbrev results : List (Result ℕ)
results =
    record { calls = []; report = none }
    ∷ record { calls = insert_at_entry 90 (global_data false false false) ∷ []; report = none }
    ∷ record {
      calls =
          extern_calls none
          ++ (insert_function (codes "__afl_trace") afl_trace
              ∷ insert_function (codes "f") (file_patch (codes "ret"))
              ∷ insert_at_entry 90 setup_patch
              ∷ insert_at_entry 100 forkserver_patch
              ∷ insert_at_entry 100 (afl_trampoline 7)
              ∷ insert_at_entry 110 (afl_trampoline 8)
              ∷ []);
      report = some (record { instrumented = 2; persistent = none; deferred = none; hook = none });
    }
    ∷ record { calls = insert_at_entry 90 (rodata_space (pos 13)) ∷ []; report = none }
    ∷ []

main_run : main example options (decimal 35) surroundings modules ≡ ok results
unfolding main main_passes get_args read_hook convert default_count main_shift parse_int decimal
    run_passes run_pass read_file begin_module load_mappings create_address_map text_eq prepare
    patch_calls start_at_address visit_all equals hex_digits afl_pass entry_function loop_at_address
    finish extern_calls report padding is_deferred ◌-ℤ◌ ◌*ℤ◌ ◌+ℤ◌ floor_div
main_run = refl

get_args_returns : get_args options ≡ ok args
unfolding get_args read_hook convert default_count
get_args_returns = refl

flags_of_args :
    ((afl_pass args).persistent_mode ≡ false)
    × (is_deferred (afl_pass args) ≡ false)
    × (◌≡◌ {A = Bool} false true → (afl_pass args).sharedmem_fuzzing ≡ true)
flags_of_args = afl_pass-flags options args get_args_returns

main-Ran_example : Ran example surroundings modules options 35 results
main-Ran_example = main-Ran example surroundings modules options 35 results main_run

blocks-Distinct : Distinct example.address (modules 0).code_blocks
blocks-Distinct = ground arith

blocks-All : All (λ b. example.uuid b < 2 ^ 128) (modules 0).code_blocks
blocks-All = ground arith

patches_selected :
    patch_calls {Block = ℕ} surroundings.disk args.patch_dir
    ≡ ok (insert_function (codes "f") (file_patch (codes "ret")) ∷ [])
unfolding patch_calls text_eq
patches_selected = refl

main-is_ok_example :
    (is_ok (main example options (decimal 35) surroundings modules) ≡ true)
    × (◌≡◌ {A = Bool} true false
        → main example options (decimal 35) surroundings modules ≡ raise (system_exit 1))
unfolding equals text_eq is_start entry_function afl_pass
main-is_ok_example =
    main-is_ok example surroundings modules options args 35
      (insert_function (codes "f") (file_patch (codes "ret")) ∷ []) get_args_returns refl refl refl
      blocks-Distinct blocks-All patches_selected ((90, [], refl), ((100, [], refl), tt))
