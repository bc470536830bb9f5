-- ===== src/Persistent.antt =====
-- The assembly of `AddAFLPass` for persistent mode: the call of the hook, and the patch of
-- `apply_persistent_mode_handler` at the start of a function, with `__afl_persistent_loop`.
pub mod Calls
pub mod Hook
pub mod Loop
pub mod Rounds
pub mod Between
pub mod Runs
pub mod Example
mod Tests
use pe_ar_honours.Prelude.{
  ℕ, ◌+◌, ◌-◌, ◌%◌, ◌^◌, ◌==◌, Bool, true, false, Option, none, some, List, [], ◌∷◌, ◌++◌, map,
  if◌then◌else◌,
}
use pe_ar_honours.Text.{Text, codes, text_eq}
use pe_ar_honours.Registers.{Registers, Move, backup_register_asm, restore_register_asm}
use pe_ar_honours.Machine.{lower, higher, store}

-- The registers and `p_mode_reg_backup`, the stack in cells of 8 bytes, and the variables
-- `p_mode_ret_addr_backup`, `first_pass` and `cycle_cnt`.
pub record Machine : Type 0 where
  pub rsp : ℕ
  pub registers : Registers
  pub cell : ℕ → ℕ
  pub return_address : ℕ
  pub first_pass : ℕ
  pub cycle_cnt : ℕ

-- What the code is run with: the addresses of `.Lsetup_loop` and `p_mode_reg_backup`, the values of
-- `__afl_fuzz_ptr` and `__afl_fuzz_len`, and the 32-bit number at an address; the registers and the
-- stack after a called function, and `p_mode_reg_backup` after the hook; and the function that is
-- instrumented, from behind the patch up to its `ret`.
pub record World : Type 0 where
  pub setup_address : ℕ
  pub reg_backup : ℕ
  pub fuzz_ptr : ℕ
  pub fuzz_len : ℕ
  pub word : ℕ → ℕ
  pub called : Text → Machine → Text → ℕ
  pub called_cell : Text → Machine → ℕ → ℕ
  pub hooked : Text → Machine → ℕ → ℕ
  pub function_body : Machine → Machine

pub data Instruction : Type 0 where
  -- the lines of backup_register_asm or restore_register_asm
  moves : List Move → Instruction
  -- movzx eax, BYTE PTR first_pass[rip]
  load_first_pass : Instruction
  -- mov QWORD PTR [rip+p_mode_ret_addr_backup], rax and mov rax, QWORD PTR [rip+p_mode_ret_addr_backup]
  save_return load_return : Instruction
  -- lea rax, [rip+.Lsetup_loop]
  load_setup_loop : Instruction
  push pop : Text → Instruction
  -- mov r, rsp and mov rsp, r
  from_rsp to_rsp : Text → Instruction
  -- lea rsp, [rsp - n] and lea rsp, [rsp + n]
  lower_rsp raise_rsp : ℕ → Instruction
  -- and rsp, 0xfffffffffffffff0
  align_rsp : Instruction
  -- mov edi, n
  set_edi : ℕ → Instruction
  -- lea rdi, [rip+p_mode_reg_backup]; mov rsi, [rip+__afl_fuzz_ptr]; mov rax, [rip+__afl_fuzz_len];
  -- mov edx, [rax]
  load_reg_backup load_fuzz_ptr load_fuzz_len load_length : Instruction
  -- call __afl_persistent_loop, and the call of the hook
  call_persistent_loop : Instruction
  call_hook : Text → Instruction

pub data Label : Type 0 where
  setup_loop not_first_pass start_func : Label

unfoldable pub same : Label → Label → Bool
same setup_loop setup_loop = true
same not_first_pass not_first_pass = true
same start_func start_func = true
same _ _ = false

pub data Line : Type 0 where
  does : Instruction → Line
  label : Label → Line
  -- test al, al and je; test eax, eax and jne
  je_al jne_eax : Label → Line
  ret : Line

-- What `__afl_persistent_loop` leaves in its variables, and what it returns.
pub record Round : Type 0 where
  pub first_pass : ℕ
  pub cycle_cnt : ℕ
  pub result : ℕ

unfoldable pub afl_persistent_loop : ℕ → ℕ → ℕ → Round
afl_persistent_loop max_cnt first_pass cycle_cnt =
    let left = (cycle_cnt + (2 ^ 32 - 1)) % 2 ^ 32 in
    if first_pass == 0
    then record { first_pass = first_pass; cycle_cnt = left; result = if left == 0 then 0 else 1 }
    else record { first_pass = 0; cycle_cnt = max_cnt; result = 1 }

abbrev pub value : Text → Machine → ℕ
value r m = m.registers.read r

unfoldable pub set : Text → ℕ → Machine → Machine
set r v m = record m {
  registers = record m.registers { read = λ q. if text_eq q r then v else m.registers.read q };
}

unfoldable pub exec : World → Instruction → Machine → Machine
unfolding set afl_persistent_loop
exec w (moves ms) m = record m { registers = pe_ar_honours.Registers.run ms m.registers }
exec w load_first_pass m = set (codes "rax") m.first_pass m
exec w save_return m = record m { return_address = value (codes "rax") m }
exec w load_return m = set (codes "rax") m.return_address m
exec w load_setup_loop m = set (codes "rax") w.setup_address m
exec w (push r) m = record m {
  rsp = lower m.rsp 8;
  cell = store (lower m.rsp 8) (value r m) m.cell;
}
exec w (pop r) m = record (set r (m.cell m.rsp) m) { rsp = higher m.rsp 8 }
exec w (from_rsp r) m = set r m.rsp m
exec w (to_rsp r) m = record m { rsp = value r m }
exec w (lower_rsp n) m = record m { rsp = lower m.rsp n }
exec w (raise_rsp n) m = record m { rsp = higher m.rsp n }
exec w align_rsp m = record m { rsp = m.rsp - m.rsp % 16 }
exec w (set_edi n) m = set (codes "rdi") (n % 2 ^ 32) m
exec w load_reg_backup m = set (codes "rdi") w.reg_backup m
exec w load_fuzz_ptr m = set (codes "rsi") w.fuzz_ptr m
exec w load_fuzz_len m = set (codes "rax") w.fuzz_len m
exec w load_length m = set (codes "rdx") (w.word (value (codes "rax") m) % 2 ^ 32) m
exec w call_persistent_loop m =
    let name = codes "__afl_persistent_loop" in
    let round = afl_persistent_loop (value (codes "rdi") m % 2 ^ 32) m.first_pass m.cycle_cnt in
    let rax = w.called name m (codes "rax") in
    record (set (codes "rax") (rax - rax % 2 ^ 32 + round.result)
      (record m { registers = record m.registers { read = w.called name m } })) {
        cell = w.called_cell name m;
        first_pass = round.first_pass;
        cycle_cnt = round.cycle_cnt;
      }
exec w (call_hook name) m = record m {
  registers = record { read = w.called name m; backup = w.hooked name m };
  cell = w.called_cell name m;
}

unfoldable pub exec_all : World → List Instruction → Machine → Machine
unfolding exec
exec_all w [] m = m
exec_all w (i ∷ is) m = exec_all w is (exec w i m)

-- The end of a run of lines: the function's own code follows, or the function returns.
pub data Stop : Type 0 where
  starts returns : Machine → Stop

-- The lines from the first on, or from a label on. All jumps in the code go forward.
unfoldable pub run : World → Option Label → List Line → Machine → Stop
unfolding same exec
run w from [] m = starts m
run w none (does i ∷ ls) m = run w none ls (exec w i m)
run w none (label l ∷ ls) m = run w none ls m
run w none (je_al l ∷ ls) m =
    let jumped = run w (some l) ls m in
    let passed = run w none ls m in if value (codes "rax") m % 2 ^ 8 == 0 then jumped else passed
run w none (jne_eax l ∷ ls) m =
    let jumped = run w (some l) ls m in
    let passed = run w none ls m in if value (codes "rax") m % 2 ^ 32 == 0 then passed else jumped
run w none (ret ∷ ls) m = returns m
run w (some l) (label k ∷ ls) m =
    let found = run w none ls m in
    let skipped = run w (some l) ls m in if same l k then found else skipped
run w (some l) (_ ∷ ls) m = run w (some l) ls m

-- `call_sharedmem_hook_asm`
unfoldable pub call_sharedmem_hook_asm : Text → List Instruction
call_sharedmem_hook_asm sharedmem_hook_name =
    from_rsp (codes "rcx")
    ∷ lower_rsp 128
    ∷ align_rsp
    ∷ push (codes "rcx")
    ∷ push (codes "rcx")
    ∷ load_reg_backup
    ∷ load_fuzz_ptr
    ∷ load_fuzz_len
    ∷ load_length
    ∷ call_hook sharedmem_hook_name
    ∷ pop (codes "rcx")
    ∷ to_rsp (codes "rcx")
    ∷ []

-- `setup_and_call_sharedmem_hook_asm`
unfoldable pub setup_and_call_sharedmem_hook_asm : Text → List Instruction
setup_and_call_sharedmem_hook_asm sharedmem_hook_name =
    moves backup_register_asm
    ∷ (call_sharedmem_hook_asm sharedmem_hook_name ++ moves restore_register_asm ∷ [])

-- `sharedmem_hook_call` of `apply_persistent_mode_handler`
unfoldable pub sharedmem_hook_call : Bool → Text → List Instruction
sharedmem_hook_call true sharedmem_hook_name = call_sharedmem_hook_asm sharedmem_hook_name
sharedmem_hook_call false sharedmem_hook_name = []

-- The patch of `apply_persistent_mode_handler`.
unfoldable pub persistent_mode_patch : Bool → Text → ℕ → List Line
persistent_mode_patch loc_is_persistent sharedmem_hook_name persistent_mode_count =
    does (moves backup_register_asm)
    ∷ label setup_loop
    ∷ does load_first_pass
    ∷ je_al not_first_pass
    ∷ does (pop (codes "rax"))
    ∷ does save_return
    ∷ label not_first_pass
    ∷ does load_setup_loop
    ∷ does (push (codes "rax"))
    ∷ does (from_rsp (codes "rcx"))
    ∷ does (lower_rsp 128)
    ∷ does align_rsp
    ∷ does (push (codes "rcx"))
    ∷ does (push (codes "rcx"))
    ∷ does (set_edi persistent_mode_count)
    ∷ does call_persistent_loop
    ∷ does (pop (codes "rcx"))
    ∷ does (to_rsp (codes "rcx"))
    ∷ jne_eax start_func
    ∷ does load_return
    ∷ does (raise_rsp 8)
    ∷ does (push (codes "rax"))
    ∷ does (moves restore_register_asm)
    ∷ ret
    ∷ label start_func
    ∷ (map does (sharedmem_hook_call loc_is_persistent sharedmem_hook_name)
        ++ does (moves restore_register_asm) ∷ [])
