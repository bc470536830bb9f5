-- ===== src/Args.antt =====
-- The command line of add_afl.py: what `get_args` makes of the options that `argparse` has read.
pub mod Checks
use pe_ar_honours.Prelude.{
  ℕ, Bool, true, false, not, ◌&&◌, ◌||◌, Option, none, some, [], ◌∷◌, if◌then◌else◌, Outcome, ok,
  raise, ◌>>=◌, stop_if, system_exit,
}
use pe_ar_honours.Text.{Text, codes, text_eq, starts_with}
use pe_ar_honours.Number.{parse_int}
use pe_ar_honours.Number.Int.{ℤ, pos, is_nonzero}

-- The namespace that `parser.parse_args()` returns.
pub record Options : Type 0 where
  pub infile : Text
  pub outfile : Text
  pub patch_dir : Text
  pub forkserver_init_address : Option Text
  pub forkserver_init_func : Option Text
  pub persistent_mode_address : Option Text
  pub persistent_mode_func : Option Text
  pub persistent_mode_count : Option Text
  pub sharedmem_hook_location : Option Text
  pub sharedmem_hook_func_name : Option Text

-- The same namespace when `get_args` returns it. A number that was not given, or given as an empty
-- text, is `none`: the program tests it for truth only.
pub record Args : Type 0 where
  pub infile : Text
  pub outfile : Text
  pub patch_dir : Text
  pub forkserver_init_address : Option ℤ
  pub forkserver_init_func : Option Text
  pub persistent_mode_address : Option ℤ
  pub persistent_mode_func : Option Text
  pub persistent_mode_count : Option ℤ
  pub sharedmem_hook_func_name : Option Text
  pub is_hook_loc_persistent : Bool
  pub is_hook_loc_init : Bool
  pub is_hook_loc_address : Bool
  pub hook_loc_address : Option ℤ
  pub is_deferred : Bool
  pub is_persistent : Bool
  pub is_sharedmem_fuzzing : Bool

-- Python's truth of a text or `None`, and of a number or `None`.
abbrev pub given : Option Text → Bool
given none = false
given (some []) = false
given (some (c ∷ s)) = true

abbrev pub given_int : Option ℤ → Bool
given_int none = false
given_int (some z) = is_nonzero z

-- The names that the block `if args.sharedmem_hook_location:` sets.
pub record Hook : Type 0 where
  pub is_sharedmem_fuzzing : Bool
  pub func_name : Option Text
  pub is_persistent : Bool
  pub is_init : Bool
  pub is_address : Bool
  pub address : Option ℤ

abbrev pub no_hook : Option Text → Hook
no_hook name = record {
  is_sharedmem_fuzzing = false;
  func_name = name;
  is_persistent = false;
  is_init = false;
  is_address = false;
  address = none;
}

abbrev pub default_hook_name : Text
default_hook_name = codes "__afl_rewrite_sharedmem_hook"

hook_at : Text → Hook → Outcome Hook
hook_at loc h =
    if text_eq loc (codes "PERSISTENT_LOOP")
    then ok (record h { is_persistent = true })
    else if text_eq loc (codes "FORKSERVER_INIT")
    then ok (record h { is_init = true })
    else if starts_with (codes "0x") loc
    then (parse_int 16 loc >>= λ z. ok (record h { is_address = true; address = some z }))
    else raise (system_exit 1)

-- The block `if args.sharedmem_hook_location:`.
unfoldable pub read_hook : Option Text → Option Text → Outcome Hook
unfolding hook_at
read_hook none name = ok (no_hook name)
read_hook (some []) name = ok (no_hook name)
read_hook (some (c ∷ s)) name = hook_at (c ∷ s) (record (no_hook name) {
  is_sharedmem_fuzzing = true;
  func_name = if given name then name else some default_hook_name;
})

-- `if value: value = int(value, base)`
unfoldable pub convert : ℕ → Option Text → Outcome (Option ℤ)
convert base none = ok none
convert base (some []) = ok none
convert base (some (c ∷ s)) = parse_int base (c ∷ s) >>= λ z. ok (some z)

-- `if not count and (address or func): count = 10000`
unfoldable pub default_count : Option ℤ → Bool → Option ℤ
default_count count persistent =
    if not (given_int count) && persistent then some (pos 10000) else count

unfoldable pub get_args : Options → Outcome Args
get_args o = do
  hook ← read_hook o.sharedmem_hook_location o.sharedmem_hook_func_name
  stop_if (given o.forkserver_init_func && given o.forkserver_init_address) (system_exit 1) (
      stop_if (given o.persistent_mode_address && given o.persistent_mode_func) (system_exit 1) (do
        count ← convert 10 o.persistent_mode_count
        let full =
            default_count count (given o.persistent_mode_address || given o.persistent_mode_func)
        persistent_address ← convert 16 o.persistent_mode_address
        init_address ← convert 16 o.forkserver_init_address
        ok (record {
          infile = o.infile;
          outfile = o.outfile;
          patch_dir = o.patch_dir;
          forkserver_init_address = init_address;
          forkserver_init_func = o.forkserver_init_func;
          persistent_mode_address = persistent_address;
          persistent_mode_func = o.persistent_mode_func;
          persistent_mode_count = full;
          sharedmem_hook_func_name = hook.func_name;
          is_hook_loc_persistent = hook.is_persistent;
          is_hook_loc_init = hook.is_init;
          is_hook_loc_address = hook.is_address;
          hook_loc_address = hook.address;
          is_deferred = given_int init_address || given o.forkserver_init_func;
          is_persistent = given_int persistent_address || given o.persistent_mode_func;
          is_sharedmem_fuzzing = hook.is_sharedmem_fuzzing;
        })))
