-- ===== src/Drivers/Agreement.antt =====
-- The driver and `main` make the same pass of the same options, but for two of its fields.
use pe_ar_honours.Prelude.{◌≡◌, true, none, [], ok}
use pe_ar_honours.Text.{Text}
use pe_ar_honours.Args.{Options, Args, given, given_int, convert}
use pe_ar_honours.AddAfl.{AflPass}
use pe_ar_honours.Drivers.{DriverOptions, DriverPass}

-- The options of `main` that say the same, without a hook.
abbrev pub as_options : DriverOptions → Options
as_options o = record {
  infile = [];
  outfile = [];
  patch_dir = o.patch_dir;
  forkserver_init_address = o.forkserver_init_address;
  forkserver_init_func = o.forkserver_init_func;
  persistent_mode_address = o.persistent_mode_init_address;
  persistent_mode_func = o.persistent_mode_init_func;
  persistent_mode_count = o.persistent_mode_count;
  sharedmem_hook_location = none;
  sharedmem_hook_func_name = none;
}

-- The pass of `main`.
pub record Agrees (o : DriverOptions) (a : AflPass) (p : DriverPass) : Type 0 where
  pub same_patch_dir : p.patch_dir ≡ a.patch_dir
  pub same_func : p.init_func ≡ a.init_func
  pub same_persistent_func : p.persistent_mode_func ≡ a.persistent_mode_func
  pub same_persistent_addr : p.persistent_mode_addr ≡ a.persistent_mode_addr
  -- The address of the fork server is not read as a number.
  pub unread_addr : convert 16 p.init_addr ≡ ok a.init_addr
  -- The count is the same unless it is given as 0, which `main` takes for not given.
  pub same_count :
      given_int p.persistent_mode_count ≡ true → p.persistent_mode_count ≡ a.persistent_mode_count
  -- A count that is given is kept as the number that it is, 0 too.
  pub kept_count :
      given o.persistent_mode_count ≡ true
      → convert 10 o.persistent_mode_count ≡ ok p.persistent_mode_count
