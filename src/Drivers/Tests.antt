-- ===== src/Drivers/Tests.antt =====
-- The driver on options with an address for the fork server and persistent mode in a function.
use pe_ar_honours.Prelude.{true, false, none, some, []}
use pe_ar_honours.Text.{codes}
use pe_ar_honours.Number.Int.{pos}
use pe_ar_honours.Args.{Args}
use pe_ar_honours.Drivers.{DriverOptions}

abbrev driver_options : DriverOptions
driver_options = record {
  patch_dir = codes "p/";
  codeblock_mappings = codes "m.json";
  forkserver_init_address = some (codes "0x10");
  forkserver_init_func = none;
  persistent_mode_init_address = none;
  persistent_mode_init_func = some (codes "main");
  persistent_mode_count = none;
}

abbrev main_args : Args
main_args = record {
  infile = [];
  outfile = [];
  patch_dir = codes "p/";
  forkserver_init_address = some (pos 16);
  forkserver_init_func = none;
  persistent_mode_address = none;
  persistent_mode_func = some (codes "main");
  persistent_mode_count = some (pos 10000);
  sharedmem_hook_func_name = none;
  is_hook_loc_persistent = false;
  is_hook_loc_init = false;
  is_hook_loc_address = false;
  hook_loc_address = none;
  is_deferred = true;
  is_persistent = true;
  is_sharedmem_fuzzing = false;
}
