-- ===== src/Drivers.antt =====
-- The pass drivers of add_afl.py, by which gtirb_rewriting runs its passes from its own command line.
pub mod Agreement
mod Tests
use pe_ar_honours.Prelude.{
  ℕ, Bool, true, false, not, ◌&&◌, ◌||◌, Option, none, some, [], ◌∷◌, if◌then◌else◌, Outcome, ok,
  raise, ◌>>=◌, stop_if, system_exit,
}
use pe_ar_honours.Text.{Text}
use pe_ar_honours.Number.Int.{ℤ, pos}
use pe_ar_honours.Args.{given, given_int, convert}
use pe_ar_honours.Main.{MainPass, address_map, afl_data}

-- `CreateAddressMap.create_pass`
unfoldable pub create_address_map_pass : Text → MainPass
create_address_map_pass output = address_map output

-- `AddAFLGlobalData.create_pass`
unfoldable pub create_global_data_pass : Option Text → Option Text → MainPass
create_global_data_pass is_persistent is_deferred =
    afl_data (if given is_persistent then true else false)
      (if given is_deferred then true else false) false

-- The options of AddAFLInstrumentation.
pub record DriverOptions : Type 0 where
  pub patch_dir : Text
  pub codeblock_mappings : Text
  pub forkserver_init_address : Option Text
  pub forkserver_init_func : Option Text
  pub persistent_mode_init_address : Option Text
  pub persistent_mode_init_func : Option Text
  pub persistent_mode_count : Option Text

-- What it gives to AddAFLPass. The address of the fork server is still the text of the option.
pub record DriverPass : Type 0 where
  pub patch_dir : Text
  pub mappings_file : Text
  pub init_func : Option Text
  pub init_addr : Option Text
  pub persistent_mode_func : Option Text
  pub persistent_mode_addr : Option ℤ
  pub persistent_mode_count : Option ℤ

-- The count is 10000 if none is given with persistent mode; `int` of that number is the number.
unfoldable pub driver_count : Option Text → Bool → Outcome (Option ℤ)
driver_count count persistent =
    if not (given count) && persistent then ok (some (pos 10000)) else convert 10 count

-- `AddAFLInstrumentation.create_pass`
unfoldable pub create_instrumentation_pass : DriverOptions → Outcome DriverPass
create_instrumentation_pass o =
    stop_if (given o.forkserver_init_func && given o.forkserver_init_address) (system_exit 1) (
      stop_if (given o.persistent_mode_init_address && given o.persistent_mode_init_func)
        (system_exit 1)
        (do
          address ← convert 16 o.persistent_mode_init_address
          count ←
              driver_count o.persistent_mode_count
                (given o.persistent_mode_init_address || given o.persistent_mode_init_func)
          ok (record {
            patch_dir = o.patch_dir;
            mappings_file = o.codeblock_mappings;
            init_func = o.forkserver_init_func;
            init_addr = o.forkserver_init_address;
            persistent_mode_func = o.persistent_mode_init_func;
            persistent_mode_addr = address;
            persistent_mode_count = count;
          })))
