-- ===== src/AddAfl/Pass/Tests.antt =====
-- `begin_module` on the example, with the fork server in `main`, a hook and a patch file.
use pe_ar_honours.Prelude.{
  ℕ, ◌+◌, ◌≡◌, refl, Bool, true, false, none, some, List, [], ◌∷◌, ◌++◌, ok, raise, system_exit,
  is_ok, length, if◌then◌else◌,
}
use pe_ar_honours.Text.{codes, text_eq}
use pe_ar_honours.Number.Int.{pos}
use pe_ar_honours.Gtirb.Example.{example, start_code, main_code}
use pe_ar_honours.Rewriting.{
  Call, insert_function, insert_at_entry, insert_at, afl_trace, afl_trampoline, sharedmem_hook,
  file_patch,
}
use pe_ar_honours.AddAfl.{
  AflPass, extern_calls, equals, entry_function, is_deferred, forkserver_patch, setup_patch,
}
use pe_ar_honours.AddAfl.Pass.{
  Input, Report, is_start, at_address, report, prepare, start_at_address, visit_all,
  loop_at_address, finish, begin_module,
}
use pe_ar_honours.AddressMap.{Mappings, load_mappings, insert_patch_at_address}
use pe_ar_honours.PatchFiles.{patch_calls}
use pe_ar_honours.AddAfl.Pass.Tracing.{trampolines, with_bits, traced}
use pe_ar_honours.AddAfl.Pass.Instrumented.{begin_module-trampolines}
use pe_ar_honours.AddAfl.Pass.Returns.{begin_module-is_ok}
use pe_ar_honours.AddAfl.Pass.Forkserver.{forkserver_starts, begin_module-starts}

abbrev pass : AflPass
pass = record {
  patch_dir = codes "p/";
  init_func = none;
  init_addr = none;
  persistent_mode_func = none;
  persistent_mode_addr = none;
  persistent_mode_count = none;
  persistent_mode = false;
  sharedmem_hook_name = some (codes "hook");
  sharedmem_loc_address = some (pos 107);
  sharedmem_loc_is_persistent = false;
  sharedmem_loc_is_init = false;
  sharedmem_fuzzing = true;
}

abbrev input : Input example
input = record {
  entry_point = 90;
  code_blocks = 90 ∷ 100 ∷ 104 ∷ 110 ∷ 120 ∷ [];
  functions = start_code ∷ main_code ∷ [];
  mappings_file =
      (codes "104", codes "00000000000000000000000000000450")
      ∷ (codes "110", codes "00000000000000000000000000000456")
      ∷ [];
  disk = record {
    listing = λ path. some (codes "0-f.s" ∷ []);
    contents = λ path. if text_eq path (codes "p/0-f.s") then some (codes "ret") else none;
  };
  random_bits = λ k. 500 + k;
}

abbrev added : List (Call ℕ)
added =
    extern_calls (some (codes "hook"))
    ++ (insert_function (codes "__afl_trace") afl_trace
        ∷ insert_function (codes "f") (file_patch (codes "ret"))
        ∷ insert_at_entry 90 setup_patch
        ∷ insert_at_entry 100 forkserver_patch
        ∷ insert_at_entry 100 (afl_trampoline 500)
        ∷ insert_at_entry 110 (afl_trampoline 501)
        ∷ insert_at (some 104) (pos 3) (sharedmem_hook (some (codes "hook")))
        ∷ [])

abbrev printed : Report
printed = record {
  instrumented = 2;
  persistent = none;
  deferred = none;
  hook = some (at_address (pos 107));
}

begin_module_run : begin_module example pass input ≡ ok (added, printed)
unfolding begin_module load_mappings text_eq prepare patch_calls start_at_address visit_all equals
    entry_function loop_at_address insert_patch_at_address finish extern_calls report is_deferred
begin_module_run = refl

begin_module-trampolines_example :
    (trampolines added ≡ with_bits input.random_bits 0 (traced example 90 input.functions))
    × (printed.instrumented ≡ length (traced example 90 input.functions))
begin_module-trampolines_example =
    begin_module-trampolines example pass input added printed begin_module_run

begin_module-starts_example : forkserver_starts added ≡ 1
begin_module-starts_example = begin_module-starts example pass input added printed begin_module_run

-- Without an address for the hook.
abbrev pass_without_hook : AflPass
pass_without_hook = record pass { sharedmem_loc_address = none; sharedmem_fuzzing = false }

abbrev mappings : Mappings
mappings = (pos 104, 1104) ∷ (pos 110, 1110) ∷ []

mappings_read : load_mappings input.mappings_file ≡ ok mappings
unfolding load_mappings text_eq
mappings_read = refl

patches_selected :
    patch_calls {Block = ℕ} input.disk pass.patch_dir
    ≡ ok (insert_function (codes "f") (file_patch (codes "ret")) ∷ [])
unfolding patch_calls text_eq
patches_selected = refl

begin_module-is_ok_example :
    (is_ok (begin_module example pass_without_hook input) ≡ true)
    × (◌≡◌ {A = Bool} true false
        → begin_module example pass_without_hook input ≡ raise (system_exit 1))
unfolding equals text_eq is_start entry_function
begin_module-is_ok_example =
    begin_module-is_ok example pass_without_hook input mappings
      (insert_function (codes "f") (file_patch (codes "ret")) ∷ []) mappings_read patches_selected
      refl refl refl ((90, [], refl), ((100, [], refl), tt))
