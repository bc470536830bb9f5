-- ===== src/Lib.antt =====
-- PeAR instruments a binary, in the form of a GTIRB file, for AFL++. Its program is
-- `add_afl.py`: `main` reads the command line and runs four passes over the file, each of which asks a
-- rewriting context for patches. `instrumentation/parse_assembly.py` writes the directory of
-- patches that the third pass inserts.
--
-- Which file models what:
--
-- Blocks: `AddAFLPass.get_basic_blocks`, the groups of code blocks that get one trampoline each.
-- AddressMap: `CreateAddressMapPass.begin_module` writes addresses and identities of the blocks to a
--   file, the start of `AddAFLPass.begin_module` reads it, and `insert_patch_at_address` looks an
--   address up. Number and Uuid model the `int`, the printing of numbers, `uuid.UUID` and its `hex`
--   that this passes through, Dict the ordered dictionaries.
-- Args: `get_args`, behind argparse.
-- PatchFiles: the choice, the order and the names of the files in the patch directory.
-- AddAfl, AddAfl/Pass: `AddAFLPass`, with `begin_module`, `add_afl_block_tracing` and
--   `apply_persistent_mode_handler`.
-- ParseAssembly: `instrumentation/parse_assembly.py`, from the lines of the assembly to the files that
--   it writes; ParseAssembly/Lines has its regular expressions, ParseAssembly/Documents assembly as a
--   compiler writes it. FixAsm: `scripts/fix-vpcmpnleuq-asm.py`.
-- Main: `main`, which runs its passes one after the other, with the address map in a file between
--   them. Drivers: `create_pass` of the classes by which gtirb_rewriting runs the passes itself.
-- Rodata: `ShiftRodataAlignment`, the last pass of `main`, and the `.rodata` data of
--   `AddAFLGlobalDataPass`.
-- Machine: the assembly of `CallFunctionPatch`, and Trampoline: that of `AFLTrampolinePatch` and of
--   `__afl_trace`, as lists of instructions that run on the registers, the flags, a stack of 8-byte
--   cells, which is exact for a stack pointer that is a multiple of 8, and the map of AFL. Sums and
--   differences of addresses are modulo 2 ^ 64, and the exclusive or is that of 64 bits.
--   Trampoline/Edges runs the trampolines of one block after the other.
-- Registers: `backup_register_asm` and `restore_register_asm`.
-- Persistent: `call_sharedmem_hook_asm`, `setup_and_call_sharedmem_hook_asm` and the patch of
--   `apply_persistent_mode_handler`, with its jumps, and `__afl_persistent_loop` of
--   `instrumentation/afl-instrumentation.c` as far as its variables and its result. What a called
--   function does to the registers and the stack is a parameter, as is the function that is
--   instrumented. Persistent/Loop runs that function from its call to its return.
-- Globals: the `.data` part of `AddAFLGlobalDataPass`.
-- ForkServer: `__afl_start_forkserver` and `at_exit` of `instrumentation/afl-instrumentation.c`, which the
--   instrumented program calls at its start. ForkServer/System has the server's child and afl-fuzz beside
--   it, in any order of their steps, ForkServer/Protocol the traffic on the two pipes, and
--   ForkServer/Session the run in which afl-fuzz sends one request after the other and each child calls
--   `__afl_persistent_loop` until it ends.
-- Runtime: the other functions of `instrumentation/afl-instrumentation.c`, on the variables of the runtime
--   and a memory of bytes: `__afl_setup`, `__afl_map_shm`, `__afl_map_shm_fuzz`, `send_forkserver_error` and
--   `__afl_persistent_loop` with what it does to the map of AFL. Runtime/Loop runs it with the trampolines
--   of the blocks between its calls.
-- Campaign: the fork server and the runtime together. Each turn of afl-fuzz forks or continues a child, whose
--   runtime and blocks run on a memory, and gives what passes over the pipes and the map that afl-fuzz
--   then finds. The memory that a new child has is a parameter, since its map is shared.
-- HookTemplate: the struct and the hook of `sharedmem_hook_template/hook.h` and `hook.c`, which are those
--   of the example too.
-- Gtirb: what is read of the packages gtirb and gtirb_functions, a parameter of the models: blocks
--   with addresses, identities and edges, and functions. Its one law is that the comparison of
--   blocks is equality. Gtirb/Example is a small binary that satisfies it.
-- Rewriting: the calls on the context of gtirb_rewriting, which a pass returns as a list, in their
--   order. What the package does with them is not modelled.
-- Sorting: `sorted` with a key, which is stable. Prelude, Text: lists, results, texts.
--
-- State and errors. The variables that `begin_module` changes, and the calls made so far, are the
-- record `Progress`, which each step takes and returns. A Python exception or `exit` is `raise`
-- with the kind of error, and what comes after it is not reached. What `os.listdir` and `open` find in the
-- patch directory is a parameter, the record `Disk`. `None` is `none`; where the
-- program tests a value for truth, an empty text and zero count as absent, as in Python.
--
-- The fork server, which is an endless loop, is a function from the system call at which it waits and its
-- variables to the next one, given what the call returns; the steps of the system are a function of a
-- choice of who steps and with what, and `Reach` is the states that they lead to.
--
-- Loops are recursion on lists. Three loops are on fuel: the writing of the digits of a number, where
-- `n + 1` rounds are enough for `n`, which has no more digits than that; the loop over the lines of the
-- assembly, where one round more than there are lines is enough, since each round passes one; and the
-- function in persistent mode, which takes one round more than its count. Python's numbers are
-- unbounded; the random ids are a parameter, the results of `random.getrandbits(16)` in turn.
--
-- Assumptions. Texts are lists of character codes, and digits, letters and white space are those
-- of ASCII, which is what the files and options hold. The stack, the map of AFL and the variables
-- that the patches use are apart in memory. Addresses of blocks and the entry point of the
-- module are not `None`, which the program takes for granted too. A system call of the fork server may
-- fail, but `waitpid` is not interrupted; signals to the server arrive while it waits at a call; afl-fuzz
-- says that it has killed the child only when it has sent SIGKILL, which is taken to act at once; and
-- `fork` gives a pid of one process at most.
--
-- Not modelled: loading and saving, the reading of argv, printed messages, what gtirb_rewriting does
-- to the module between two passes, which is a parameter, the assembly that a compiler makes of the
-- runtime in C, and of that its messages for debugging and the word with which the fork server greets
-- afl-fuzz, which is made of macros of the headers of AFL++. The C library is a parameter: what `malloc`,
-- `getenv`, `atoi` and `shmat` give, and the macros of those headers that the runtime uses elsewhere.
pub mod Prelude
pub mod Text
pub mod Number
pub mod Uuid
pub mod Dict
pub mod Gtirb
pub mod Rewriting
pub mod Sorting
pub mod Blocks
pub mod AddressMap
pub mod Args
pub mod PatchFiles
pub mod ParseAssembly
pub mod FixAsm
pub mod Main
pub mod Drivers
pub mod Persistent
pub mod Globals
pub mod ForkServer
pub mod Runtime
pub mod HookTemplate
pub mod Campaign
pub mod AddAfl
pub mod Rodata
pub mod Machine
pub mod Trampoline
pub mod Registers
pub mod Tests
