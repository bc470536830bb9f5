-- ===== src/AddAfl.antt =====
-- `AddAFLPass` of add_afl.py: its fields, and `begin_module`, which asks the rewriting context for
-- all instrumentation.
pub mod Pass
use pe_ar_honours.Prelude.{
  ℕ, ◌+◌, Bool, true, false, not, ◌&&◌, ◌||◌, Option, none, some, List, [], ◌∷◌, ◌++◌, map,
  if◌then◌else◌, any, Outcome, ok, raise, ◌>>=◌, index_error, unbound_local, system_exit,
}
use pe_ar_honours.Text.{Text, codes, text_eq}
use pe_ar_honours.Number.Int.{ℤ}
use pe_ar_honours.Args.{Args, given, given_int}
use pe_ar_honours.Gtirb.{Gtirb}
use pe_ar_honours.Rewriting.{
  Patch, call_function, afl_trampoline, afl_trace, sharedmem_hook, persistent_handler, Call,
  extern_symbol, insert_function, insert_at_entry,
}
use pe_ar_honours.Blocks.{get_basic_blocks}
use pe_ar_honours.AddressMap.{JsonObject, Mappings, load_mappings, insert_patch_at_address}
use pe_ar_honours.PatchFiles.{patch_calls}

-- The fields that `__init__` sets, less the counter.
pub record AflPass : Type 0 where
  pub patch_dir : Text
  pub init_func : Option Text
  pub init_addr : Option ℤ
  pub persistent_mode_func : Option Text
  pub persistent_mode_addr : Option ℤ
  pub persistent_mode_count : Option ℤ
  pub persistent_mode : Bool
  pub sharedmem_hook_name : Option Text
  pub sharedmem_loc_address : Option ℤ
  pub sharedmem_loc_is_persistent : Bool
  pub sharedmem_loc_is_init : Bool
  pub sharedmem_fuzzing : Bool

-- The pass that `main` makes of the arguments.
unfoldable pub afl_pass : Args → AflPass
afl_pass a = record {
  patch_dir = a.patch_dir;
  init_func = a.forkserver_init_func;
  init_addr = a.forkserver_init_address;
  persistent_mode_func = a.persistent_mode_func;
  persistent_mode_addr = a.persistent_mode_address;
  persistent_mode_count = a.persistent_mode_count;
  persistent_mode = given_int a.persistent_mode_address || given a.persistent_mode_func;
  sharedmem_hook_name = a.sharedmem_hook_func_name;
  sharedmem_loc_address = a.hook_loc_address;
  sharedmem_loc_is_persistent = a.is_hook_loc_persistent;
  sharedmem_loc_is_init = a.is_hook_loc_init;
  sharedmem_fuzzing = given a.sharedmem_hook_func_name;
}

-- The C functions that the patches call.
abbrev pub extern_names : List Text
extern_names =
    codes "getenv"
    ∷ codes "atoi"
    ∷ codes "shmat"
    ∷ codes "write"
    ∷ codes "perror"
    ∷ codes "malloc"
    ∷ codes "free"
    ∷ codes "sprintf"
    ∷ codes "fprintf"
    ∷ codes "printf"
    ∷ codes "_exit"
    ∷ codes "exit"
    ∷ codes "kill"
    ∷ codes "waitpid"
    ∷ codes "sigaction"
    ∷ codes "signal"
    ∷ codes "read"
    ∷ codes "fork"
    ∷ codes "open"
    ∷ codes "unlink"
    ∷ codes "close"
    ∷ codes "stderr"
    ∷ codes "fwrite"
    ∷ codes "raise"
    ∷ codes "memset"
    ∷ codes "puts"
    ∷ []

-- The hook counts as extern if it has a name.
hook_symbol : {Block : Type 0} → Option Text → List (Call Block)
hook_symbol none = []
hook_symbol (some []) = []
hook_symbol (some (c ∷ s)) = extern_symbol (c ∷ s) (codes "not_real_lib.a") ∷ []

unfoldable pub extern_calls : {Block : Type 0} → Option Text → List (Call Block)
unfolding hook_symbol
extern_calls hook =
    map (λ name. extern_symbol name (codes "libc.so.6")) extern_names ++ hook_symbol hook

abbrev pub forkserver_patch : Patch
forkserver_patch = call_function (codes "__afl_start_forkserver")

abbrev pub setup_patch : Patch
setup_patch = call_function (codes "__afl_setup")

-- `name == value`, where the value may be `None`.
unfoldable pub equals : Text → Option Text → Bool
equals name none = false
equals name (some s) = text_eq name s

-- The default of `init_func`.
unfoldable pub entry_function : AflPass → Option Text
entry_function p =
    if not (given_int p.init_addr) && not (given p.init_func)
    then some (codes "main")
    else p.init_func

-- `is_deferred` of `begin_module`.
unfoldable pub is_deferred : AflPass → Bool
is_deferred p = not (not (given_int p.init_addr) && not (given p.init_func))

-- The patch of `apply_persistent_mode_handler`.
unfoldable pub handler_patch : AflPass → Patch
handler_patch p =
    persistent_handler p.persistent_mode_count
      (if p.sharedmem_loc_is_persistent then some p.sharedmem_hook_name else none)

-- The variables that `begin_module` changes on its way.
pub record Progress (Block : Type 0) : Type 0 where
  pub calls : List (Call Block)
  pub instrumented_locations : ℕ
  pub added_entrypoint : Bool
  pub added_persistent_mode : Bool
