-- ===== src/AddAfl/Pass.antt =====
-- `AddAFLPass.begin_module` and the methods that it calls, but for the lookup of addresses.
pub mod Tracing
pub mod Traced
pub mod Addresses
pub mod Instrumented
pub mod Returns
pub mod Forkserver
mod Tests
use pe_ar_honours.Prelude.{
  ℕ, ◌+◌, Bool, true, false, not, ◌&&◌, Option, none, some, List, [], ◌∷◌, ◌++◌, if◌then◌else◌, any,
  Outcome, ok, raise, ◌>>=◌, index_error, unbound_local, system_exit,
}
use pe_ar_honours.Text.{Text, codes}
use pe_ar_honours.Number.Int.{ℤ, is_nonzero}
use pe_ar_honours.Args.{given_int}
use pe_ar_honours.Gtirb.{Gtirb}
use pe_ar_honours.Rewriting.{
  Patch, afl_trampoline, afl_trace, sharedmem_hook, Call, insert_function, insert_at_entry,
}
use pe_ar_honours.Blocks.{get_basic_blocks}
use pe_ar_honours.AddressMap.{JsonObject, Mappings, load_mappings, insert_patch_at_address}
use pe_ar_honours.PatchFiles.{Disk, patch_calls}
use pe_ar_honours.AddAfl.{
  AflPass, extern_calls, forkserver_patch, setup_patch, equals, entry_function, is_deferred,
  handler_patch, Progress,
}

first_entry : {Block : Type 0} → List Block → Outcome Block
first_entry [] = raise index_error
first_entry (b ∷ bs) = ok b

-- `for b in entry_blocks: entry_block = b`; the name is not bound if there is none.
last_entry : {Block : Type 0} → List Block → Outcome Block
last_entry [] = raise unbound_local
last_entry (b ∷ []) = ok b
last_entry (_ ∷ b ∷ bs) = last_entry (b ∷ bs)

-- What `begin_module` is given, besides the pass: the module's entry point and blocks, the functions,
-- the file of the first pass, the files of patches and the results of
-- `random.getrandbits(16)`, in turn.
pub record Input (G : Gtirb) : Type 0 where
  pub entry_point : G.Block
  pub code_blocks : List G.Block
  pub functions : List G.Function
  pub mappings_file : JsonObject
  pub disk : Disk
  pub random_bits : ℕ → ℕ

-- What it prints at its end.
pub data Place : Type 0 where
  at_address : ℤ → Place
  after_forkserver at_loop unknown : Place

pub data Location : Type 0 where
  function : Text → Location
  address : Option ℤ → Location

pub record Report : Type 0 where
  pub instrumented : ℕ
  pub persistent : Option Location
  pub deferred : Option Location
  pub hook : Option Place

location : Option Text → Option ℤ → Location
location none z = address z
location (some []) z = address z
location (some (c ∷ s)) z = function (c ∷ s)

-- `if value: ... else: ...` on a number or `None`.
abbrev pub when_int {ℓ} : {A : Type ℓ} → Option ℤ → (ℤ → A) → A → A
when_int none f other = other
when_int (some z) f other = if is_nonzero z then f z else other

hook_place : AflPass → Place
hook_place p = when_int p.sharedmem_loc_address at_address (
    if p.sharedmem_loc_is_init
    then after_forkserver
    else if p.sharedmem_loc_is_persistent
    then at_loop
    else unknown)

unfoldable pub report : AflPass → ℕ → Bool → Report
unfolding location hook_place
report p locations added_persistent_mode = record {
  instrumented = locations;
  persistent =
      if added_persistent_mode
      then some (location p.persistent_mode_func p.persistent_mode_addr)
      else none;
  deferred = if is_deferred p then some (location (entry_function p) p.init_addr) else none;
  hook = if p.sharedmem_fuzzing then some (hook_place p) else none;
}

module _ (G : Gtirb) where
  open G use {Block, Function, same, get_name, get_all_blocks, get_entry_blocks}

  -- `add_afl_block_tracing`, over the groups of blocks that are left.
  pub trace_groups : (ℕ → ℕ) → List (List Block) → Progress Block → Outcome (Progress Block)
  trace_groups bits [] p = ok p
  trace_groups bits ([] ∷ groups) p = raise index_error
  trace_groups bits ((b ∷ blocklist) ∷ groups) p = trace_groups bits groups (record p {
    calls = p.calls ++ insert_at_entry b (afl_trampoline (bits p.instrumented_locations)) ∷ [];
    instrumented_locations = p.instrumented_locations + 1;
  })

  -- The calls behind the forkserver's, at the place where it is started.
  pub hook_calls : AflPass → (Patch → Call Block) → List (Call Block)
  hook_calls p place =
      if p.sharedmem_loc_is_init then place (sharedmem_hook p.sharedmem_hook_name) ∷ [] else []

  pub start_in_function : AflPass → Function → Progress Block → Outcome (Progress Block)
  unfolding first_entry hook_calls
  start_in_function p f s =
      if not s.added_entrypoint && equals (get_name f) (entry_function p)
      then (do
        b ← first_entry (get_entry_blocks f)
        ok (record s {
          calls = s.calls ++ insert_at_entry b forkserver_patch ∷ hook_calls p (insert_at_entry b);
          added_entrypoint = true;
        }))
      else ok s

  pub loop_in_function : AflPass → Function → Progress Block → Outcome (Progress Block)
  unfolding last_entry
  loop_in_function p f s =
      if equals (get_name f) p.persistent_mode_func
      then (do
        b ← last_entry (get_entry_blocks f)
        ok (record s {
          calls = s.calls ++ insert_at_entry b (handler_patch p) ∷ [];
          added_persistent_mode = true;
        }))
      else ok s

  unfoldable pub is_start : Block → Function → Bool
  is_start entry_point f = any (same entry_point) (get_all_blocks f)

  -- One round of the loop over the functions.
  pub visit : AflPass → Input G → Function → Progress Block → Outcome (Progress Block)
  unfolding is_start start_in_function loop_in_function trace_groups get_basic_blocks
  visit p i f s = if is_start i.entry_point f then ok s else (do
    started ← start_in_function p f s
    looped ← loop_in_function p f started
    trace_groups i.random_bits (get_basic_blocks G f) looped)

  unfoldable pub visit_all :
      AflPass → Input G → List Function → Progress Block → Outcome (Progress Block)
  unfolding visit
  visit_all p i [] s = ok s
  visit_all p i (f ∷ functions) s = visit p i f s >>= visit_all p i functions

  -- What comes before the functions: extern symbols, `__afl_trace`, the patch files and the call of
  -- `__afl_setup`.
  unfoldable pub prepare : AflPass → Input G → Outcome (List (Call Block))
  prepare p i = do
    patches ← patch_calls i.disk p.patch_dir
    ok (
        extern_calls p.sharedmem_hook_name
        ++ (insert_function (codes "__afl_trace") afl_trace
            ∷ (patches ++ insert_at_entry i.entry_point setup_patch ∷ [])))

  -- The calls that `insert_patch_at_address` adds, for a patch at an address if it is given.
  pub insert_at_address :
      Mappings → Input G → Option ℤ → Patch → List (Call Block) → Outcome (List (Call Block))
  insert_at_address m i place patch calls =
      when_int place (λ z. insert_patch_at_address G m z patch i.code_blocks calls) (ok calls)

  -- `if self.init_addr:`
  unfoldable pub start_at_address :
      AflPass → Mappings → Input G → List (Call Block) → Outcome (Progress Block)
  unfolding insert_at_address
  start_at_address p m i calls = do
    started ← insert_at_address m i p.init_addr forkserver_patch calls
    hooked ←
        (if p.sharedmem_loc_is_init
          then insert_at_address m i p.init_addr (sharedmem_hook p.sharedmem_hook_name) started
          else ok started)
    ok (record {
      calls = hooked;
      instrumented_locations = 0;
      added_entrypoint = given_int p.init_addr;
      added_persistent_mode = false;
    })

  -- `if not added_persistent_mode and self.persistent_mode_addr:`
  unfoldable pub loop_at_address :
      AflPass → Mappings → Input G → Progress Block → Outcome (Progress Block)
  unfolding insert_at_address
  loop_at_address p m i s =
      if not s.added_persistent_mode && given_int p.persistent_mode_addr
      then (do
        calls ← insert_at_address m i p.persistent_mode_addr (handler_patch p) s.calls
        ok (record s { calls = calls; added_persistent_mode = true }))
      else ok s

  -- Without an entry point for the fork server the program ends with status 1.
  unfoldable pub finish :
      AflPass → Progress Block → List (Call Block) → Outcome (List (Call Block) × Report)
  finish p s calls =
      if s.added_entrypoint
      then ok (calls, report p s.instrumented_locations s.added_persistent_mode)
      else raise (system_exit 1)

  -- The calls on the context and what is printed, or the end of the program.
  unfoldable pub begin_module : AflPass → Input G → Outcome (List (Call Block) × Report)
  begin_module p i = do
    m ← load_mappings i.mappings_file
    prepared ← prepare p i
    started ← start_at_address p m i prepared
    visited ← visit_all p i i.functions started
    looped ← loop_at_address p m i visited
    calls ←
        insert_at_address m i p.sharedmem_loc_address (sharedmem_hook p.sharedmem_hook_name)
          looped.calls
    finish p looped calls
