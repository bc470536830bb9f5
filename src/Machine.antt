-- ===== src/Machine.antt =====
-- The part of an x86-64 machine that the assembly of `CallFunctionPatch` in add_afl.py uses: the
-- registers it names, the flags, and a stack of 8-byte cells at addresses that are multiples of 8.
pub mod Frames
mod Tests
use pe_ar_honours.Prelude.{
  ℕ, ◌+◌, ◌-◌, ◌%◌, ◌^◌, Bool, true, false, List, [], ◌∷◌, ◌==◌, if◌then◌else◌,
}
use pe_ar_honours.Text.{Text}

pub data Register : Type 0 where
  rax rcx rdx rsi rdi r8 r9 r10 r11 flags : Register

-- A number for each register, by which they are compared.
abbrev pub code : Register → ℕ
code rax = 0
code rcx = 1
code rdx = 2
code rsi = 3
code rdi = 4
code r8 = 5
code r9 = 6
code r10 = 7
code r11 = 8
code flags = 9

pub record Machine : Type 0 where
  pub rsp : ℕ
  pub read : Register → ℕ
  pub cell : ℕ → ℕ

-- 64-bit differences and sums.
abbrev pub lower : ℕ → ℕ → ℕ
lower a n = (a + (2 ^ 64 - n)) % 2 ^ 64

abbrev pub higher : ℕ → ℕ → ℕ
higher a n = (a + n) % 2 ^ 64

abbrev pub set : Register → ℕ → (Register → ℕ) → Register → ℕ
set r v read q = if code q == code r then v else read q

abbrev pub store : ℕ → ℕ → (ℕ → ℕ) → ℕ → ℕ
store a v cell b = if b == a then v else cell b

pub data Instruction : Type 0 where
  -- lea rsp, [rsp - n]
  lea_rsp : ℕ → Instruction
  -- sub rsp, n; add rsp, n; and rsp, 0xfffffffffffffff0; these set the flags
  sub_rsp add_rsp : ℕ → Instruction
  align_rsp : Instruction
  -- push r and pop r; on the flags, pushfq and popfq
  push pop : Register → Instruction
  -- mov r, rsp and mov rsp, r
  from_rsp to_rsp : Register → Instruction
  -- call name
  call : Text → Instruction

-- The parameters are the flags that an arithmetic instruction leaves, for the value of `rsp` before
-- it, and the machine when a called function has returned.
module _ (arithmetic_flags : Instruction → ℕ → ℕ) (callee : Text → Machine → Machine) where
  unfoldable pub exec : Instruction → Machine → Machine
  exec (lea_rsp n) m = record m { rsp = lower m.rsp n }
  exec (sub_rsp n) m = record m {
    rsp = lower m.rsp n;
    read = set flags (arithmetic_flags (sub_rsp n) m.rsp) m.read;
  }
  exec (add_rsp n) m = record m {
    rsp = higher m.rsp n;
    read = set flags (arithmetic_flags (add_rsp n) m.rsp) m.read;
  }
  exec align_rsp m = record m {
    rsp = m.rsp - m.rsp % 16;
    read = set flags (arithmetic_flags align_rsp m.rsp) m.read;
  }
  exec (push r) m = record m { rsp = lower m.rsp 8; cell = store (lower m.rsp 8) (m.read r) m.cell }
  exec (pop r) m = record m { rsp = higher m.rsp 8; read = set r (m.cell m.rsp) m.read }
  exec (from_rsp r) m = record m { read = set r m.rsp m.read }
  exec (to_rsp r) m = record m { rsp = m.read r }
  exec (call name) m = callee name m

  unfoldable pub run : List Instruction → Machine → Machine
  unfolding exec
  run [] m = m
  run (i ∷ is) m = run is (exec i m)

-- `CallFunctionPatch.get_asm`
unfoldable pub call_function_asm : Text → ℕ → List Instruction
call_function_asm func save_stack =
    sub_rsp save_stack
    ∷ push flags
    ∷ push rax
    ∷ push rcx
    ∷ push rdx
    ∷ push rsi
    ∷ push rdi
    ∷ push r8
    ∷ push r9
    ∷ push r10
    ∷ push r11
    ∷ push rax
    ∷ from_rsp rax
    ∷ lea_rsp 128
    ∷ align_rsp
    ∷ push rax
    ∷ push rax
    ∷ call func
    ∷ pop rax
    ∷ to_rsp rax
    ∷ pop rax
    ∷ pop r11
    ∷ pop r10
    ∷ pop r9
    ∷ pop r8
    ∷ pop rdi
    ∷ pop rsi
    ∷ pop rdx
    ∷ pop rcx
    ∷ pop rax
    ∷ pop flags
    ∷ add_rsp save_stack
    ∷ []
