-- ===== src/Rewriting.antt =====
-- What the passes ask of a `RewritingContext` of gtirb_rewriting, as the list of the calls made on
-- it. The package itself is not modelled.
use pe_ar_honours.Prelude.{ℕ, Option, Bool}
use pe_ar_honours.Text.{Text}
use pe_ar_honours.Number.Int.{ℤ}

-- The patches of add_afl.py. The first three are its subclasses of `Patch`; the others are made by
-- `Patch.from_function`, each with what its text depends on.
pub data Patch : Type 0 where
  -- CallFunctionPatch(func)
  call_function : Text → Patch
  -- FilePatch(path), with the text of the file, which it reads when it is made
  file_patch : Text → Patch
  -- AFLTrampolinePatch(block_id)
  afl_trampoline : ℕ → Patch
  -- the body of `__afl_trace`
  afl_trace : Patch
  -- setup_and_call_sharedmem_hook_asm, with the name of the hook
  sharedmem_hook : Option Text → Patch
  -- the handler of persistent mode, with its count, and the hook that it calls if any
  persistent_handler : Option ℤ → Option (Option Text) → Patch
  -- the variables of AddAFLGlobalDataPass: is_persistent, is_deferred, is_sharedmem_fuzzing
  global_data : Bool → Bool → Bool → Patch
  -- ShiftRodataAlignmentPass: the number of bytes
  rodata_space : ℤ → Patch

pub data Call (Block : Type 0) : Type 0 where
  -- get_or_insert_extern_symbol(name, library)
  extern_symbol : Text → Text → Call Block
  -- register_insert_function(name, patch)
  insert_function : Text → Patch → Call Block
  -- register_insert(SingleBlockScope(block, BlockPosition.ENTRY), patch)
  insert_at_entry : Block → Patch → Call Block
  -- insert_at(block, offset, patch); the block is `None` where none was found
  insert_at : Option Block → ℤ → Patch → Call Block
