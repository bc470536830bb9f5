-- ===== src/Globals/Tests.antt =====
-- The options of a run in persistent mode, with a count of 3.
use pe_ar_honours.Prelude.{◌≡◌, refl, arith, true, false, none, some, All, length, ok}
use pe_ar_honours.Text.{codes, text_eq}
use pe_ar_honours.Number.{parse_int}
use pe_ar_honours.Number.Int.{pos}
use pe_ar_honours.Args.{Options, Args, get_args, read_hook, convert, default_count}
use pe_ar_honours.Persistent.{persistent_mode_patch}
use pe_ar_honours.Persistent.Example.{world, machine}
use pe_ar_honours.Persistent.Loop.{Ended, run_function}
use pe_ar_honours.Persistent.Between.{IsStarted, HasReturned}
use pe_ar_honours.Globals.{data_variables, initial_value, locate, behind, size, initially}
use pe_ar_honours.Globals.Held.{IsHeld, accesses, persistent_mode_patch-IsHeld}
use pe_ar_honours.Globals.Started.{get_args-persistent_mode_patch}

abbrev options : Options
options = record {
  infile = codes "a.gtirb";
  outfile = codes "b.gtirb";
  patch_dir = codes "p/";
  forkserver_init_address = none;
  forkserver_init_func = none;
  persistent_mode_address = none;
  persistent_mode_func = some (codes "main");
  persistent_mode_count = some (codes "3");
  sharedmem_hook_location = none;
  sharedmem_hook_func_name = none;
}

abbrev args : Args
args = record {
  infile = codes "a.gtirb";
  outfile = codes "b.gtirb";
  patch_dir = codes "p/";
  forkserver_init_address = none;
  forkserver_init_func = none;
  persistent_mode_address = none;
  persistent_mode_func = some (codes "main");
  persistent_mode_count = some (pos 3);
  sharedmem_hook_func_name = none;
  is_hook_loc_persistent = false;
  is_hook_loc_init = false;
  is_hook_loc_address = false;
  hook_loc_address = none;
  is_deferred = false;
  is_persistent = true;
  is_sharedmem_fuzzing = false;
}

args_read : get_args options ≡ ok args
unfolding get_args read_hook convert default_count parse_int
args_read = refl

first_pass_value : initial_value (codes "first_pass") (data_variables false true) ≡ some 1
unfolding initial_value locate behind size initially data_variables text_eq
first_pass_value = refl

get_args-persistent_mode_patch_example :
    (e : Ended) × (run_function world (persistent_mode_patch false (codes "hook") 3) 4 none machine
      ≡ ok e)
    × (length e.started ≡ 3)
    × All (IsStarted world false (codes "hook") 3 machine) e.started
    × HasReturned world false (codes "hook") 3 machine e
get_args-persistent_mode_patch_example =
    get_args-persistent_mode_patch world options args (codes "hook") 3 machine args_read refl refl
      (omega arith) first_pass_value (λ m aligned a h. refl) (λ e m aligned a h. refl)
      (λ m. (refl, refl, refl, refl, refl, refl)) (omega arith) (omega arith)

persistent_mode_patch-IsHeld_example :
    All (IsHeld (data_variables true true)) (accesses (persistent_mode_patch true (codes "hook") 3))
persistent_mode_patch-IsHeld_example = persistent_mode_patch-IsHeld true true true (codes "hook") 3
