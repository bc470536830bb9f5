-- ===== src/Tests/Inputs.antt =====
-- Tests of the command line, the names of patch files, the padding and the numbers.
use pe_ar_honours.Prelude.{
  ◌+◌, ◌-◌, ◌%◌, ◌<◌, ◌≤◌, ◌≡◌, refl, true, false, ◌&&◌, not, none, some, [], arith, ok, is_ok, ltb,
}
use pe_ar_honours.Text.{codes, text_eq, starts_with}
use pe_ar_honours.Number.{decimal, parse_int}
use pe_ar_honours.Number.Int.{pos}
use pe_ar_honours.Number.RoundTrip.{parse_int-decimal}
use pe_ar_honours.Uuid.{hex, parse_uuid}
use pe_ar_honours.Uuid.RoundTrip.{parse_uuid-hex}
use pe_ar_honours.Args.{Options, Args, get_args, read_hook, convert, default_count}
use pe_ar_honours.Args.Checks.{
  IsConsistent, is_place, conflicts, is_number, get_args-IsConsistent, get_args-is_ok,
}
use pe_ar_honours.PatchFiles.{is_patch_file, patch_file_name}
use pe_ar_honours.PatchFiles.Names.{is_patch_file-patch_file_name}
use pe_ar_honours.Rodata.{calc_alignment}
use pe_ar_honours.Rodata.Alignment.{calc_alignment-aligned}

abbrev options : Options
options = record {
  infile = codes "a.gtirb";
  outfile = codes "b.gtirb";
  patch_dir = codes "patches/";
  forkserver_init_address = some (codes "0x10");
  forkserver_init_func = none;
  persistent_mode_address = none;
  persistent_mode_func = some (codes "main");
  persistent_mode_count = some [];
  sharedmem_hook_location = some (codes "0x6b");
  sharedmem_hook_func_name = none;
}

abbrev args : Args
args = record {
  infile = codes "a.gtirb";
  outfile = codes "b.gtirb";
  patch_dir = codes "patches/";
  forkserver_init_address = some (pos 16);
  forkserver_init_func = none;
  persistent_mode_address = none;
  persistent_mode_func = some (codes "main");
  persistent_mode_count = some (pos 10000);
  sharedmem_hook_func_name = some (codes "__afl_rewrite_sharedmem_hook");
  is_hook_loc_persistent = false;
  is_hook_loc_init = false;
  is_hook_loc_address = true;
  hook_loc_address = some (pos 107);
  is_deferred = true;
  is_persistent = true;
  is_sharedmem_fuzzing = true;
}

get_args_run : get_args options ≡ ok args
unfolding get_args read_hook text_eq starts_with parse_int convert default_count
get_args_run = refl

get_args-IsConsistent_example : IsConsistent args
get_args-IsConsistent_example = get_args-IsConsistent options args get_args_run

get_args-is_ok_example : is_ok (get_args options) ≡ (
    is_place options.sharedmem_hook_location
    && not (conflicts options)
    && is_number 10 options.persistent_mode_count
    && is_number 16 options.persistent_mode_address
    && is_number 16 options.forkserver_init_address)
get_args-is_ok_example = get_args-is_ok options

is_patch_file-patch_file_name_example :
    is_patch_file (patch_file_name 12 (codes "f")) ≡ ok (ltb 12 10)
is_patch_file-patch_file_name_example = is_patch_file-patch_file_name 12 (codes "f")

calc_alignment-aligned_example :
    (calc_alignment (pos 16) (pos 35) ≡ ok (pos (16 - 35 % 16)))
    × ((35 + (16 - 35 % 16)) % 16 ≡ 0)
    × (0 < 16 - 35 % 16)
    × (16 - 35 % 16 ≤ 16)
calc_alignment-aligned_example = calc_alignment-aligned 16 35 (omega arith)

decimal_read : parse_int 10 (decimal 10000) ≡ ok (pos 10000)
decimal_read = parse_int-decimal 10000

hex_read : parse_uuid (hex 1100) ≡ ok 1100
hex_read = parse_uuid-hex 1100 (omega arith)
