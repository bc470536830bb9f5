-- ===== src/Trampoline.antt =====
-- The assembly that add_afl.py inserts at each group of blocks, `AFLTrampolinePatch`, and
-- the function `__afl_trace` that it calls, on the registers, flags and variables that they use.
pub mod Coverage
pub mod Kept
pub mod Edges
mod Tests
use pe_ar_honours.Prelude.{
  ℕ, zero, suc, ◌+◌, ◌*◌, ◌/◌, ◌%◌, Bool, true, false, not, ◌&&◌, List, [], ◌∷◌, ◌++◌, ◌==◌, ltb,
  leb, if◌then◌else◌,
}
use pe_ar_honours.Machine.{lower, higher, store}

-- `xor` of the lowest `w` bits.
unfoldable pub xor : ℕ → ℕ → ℕ → ℕ
xor zero a b = 0
xor (suc w) a b = (if a % 2 == b % 2 then 0 else 1) + 2 * xor w (a / 2) (b / 2)

pub record Flags : Type 0 where
  pub sf : Bool
  pub zf : Bool
  pub af : Bool
  pub pf : Bool
  pub cf : Bool
  pub of : Bool

-- `rax` is in three parts: `al`, `ah` and the rest. `cell` is the stack, `bytes` other memory, at the
-- address `area_ptr` the map of AFL; the last two are the variables `__afl_area_ptr` and
-- `__afl_prev_loc`.
pub record Cpu : Type 0 where
  pub rsp : ℕ
  pub rdx : ℕ
  pub rcx : ℕ
  pub rax_high : ℕ
  pub ah : ℕ
  pub al : ℕ
  pub eflags : Flags
  pub cell : ℕ → ℕ
  pub bytes : ℕ → ℕ
  pub area_ptr : ℕ
  pub prev_loc : ℕ

abbrev pub bit : Bool → ℕ
bit true = 1
bit false = 0

abbrev pub low_flags : Flags → ℕ
low_flags f = 128 * bit f.sf + 64 * bit f.zf + 16 * bit f.af + 4 * bit f.pf + 2 + bit f.cf

abbrev pub is_set : ℕ → ℕ → Bool
is_set value weight = value / weight % 2 == 1

abbrev pub rax : Cpu → ℕ
rax c = c.rax_high * 65536 + c.ah * 256 + c.al

pub data Op : Type 0 where
  -- lea rsp, [rsp - n] and lea rsp, [rsp + n]
  lea_down lea_up : ℕ → Op
  -- mov [rsp + n], register and mov register, [rsp + n]
  save_rdx save_rcx save_rax load_rdx load_rcx load_rax : ℕ → Op
  -- mov rcx, n
  mov_rcx : ℕ → Op
  -- call __afl_trace, which is what follows, to its ret
  call_trace ret : Op
  lahf seto_al sahf : Op
  -- mov rdx, [rip + __afl_area_ptr]
  load_area_ptr : Op
  -- xor rcx, [rip + __afl_prev_loc]; xor [rip + __afl_prev_loc], rcx; shr [rip + __afl_prev_loc], 1
  xor_rcx xor_prev_loc shr_prev_loc : Op
  -- inc BYTE PTR [rdx+rcx]; adc BYTE PTR [rdx+rcx], 0
  inc_byte adc_byte : Op
  -- add al, 0x7f
  add_al : Op

-- `arithmetic_flags` gives the flags of an arithmetic instruction on a number, but for the carry and,
-- of `add al`, the overflow; `return_address` is what a call puts on the stack.
module _ (arithmetic_flags : Op → ℕ → Flags) (return_address : ℕ) where
  at_byte : Cpu → ℕ
  at_byte c = higher c.rdx c.rcx

  unfoldable pub exec : Op → Cpu → Cpu
  unfolding at_byte
  exec (lea_down n) c = record c { rsp = lower c.rsp n }
  exec (lea_up n) c = record c { rsp = higher c.rsp n }
  exec (save_rdx n) c = record c { cell = store (higher c.rsp n) c.rdx c.cell }
  exec (save_rcx n) c = record c { cell = store (higher c.rsp n) c.rcx c.cell }
  exec (save_rax n) c = record c { cell = store (higher c.rsp n) (rax c) c.cell }
  exec (load_rdx n) c = record c { rdx = c.cell (higher c.rsp n) }
  exec (load_rcx n) c = record c { rcx = c.cell (higher c.rsp n) }
  exec (load_rax n) c =
      let value = c.cell (higher c.rsp n) in
      record c { rax_high = value / 65536; ah = value / 256 % 256; al = value % 256 }
  exec (mov_rcx n) c = record c { rcx = n }
  exec call_trace c = record c {
    rsp = lower c.rsp 8;
    cell = store (lower c.rsp 8) return_address c.cell;
  }
  exec ret c = record c { rsp = higher c.rsp 8 }
  exec lahf c = record c { ah = low_flags c.eflags }
  exec seto_al c = record c { al = bit c.eflags.of }
  exec sahf c = record c {
    eflags = record {
      sf = is_set c.ah 128;
      zf = is_set c.ah 64;
      af = is_set c.ah 16;
      pf = is_set c.ah 4;
      cf = is_set c.ah 1;
      of = c.eflags.of;
    };
  }
  exec load_area_ptr c = record c { rdx = c.area_ptr }
  exec xor_rcx c =
      let value = xor 64 c.rcx c.prev_loc in
      record c { rcx = value; eflags = record (arithmetic_flags xor_rcx value) { cf = false } }
  exec xor_prev_loc c =
      let value = xor 64 c.prev_loc c.rcx in
      record c {
        prev_loc = value;
        eflags = record (arithmetic_flags xor_prev_loc value) { cf = false };
      }
  exec shr_prev_loc c = record c {
    prev_loc = c.prev_loc / 2;
    eflags = record (arithmetic_flags shr_prev_loc c.prev_loc) { cf = is_set c.prev_loc 1 };
  }
  exec inc_byte c =
      let value = (c.bytes (at_byte c) + 1) % 256 in
      record c {
        bytes = store (at_byte c) value c.bytes;
        eflags = record (arithmetic_flags inc_byte value) { cf = c.eflags.cf };
      }
  exec adc_byte c =
      let sum = c.bytes (at_byte c) + bit c.eflags.cf in
      record c {
        bytes = store (at_byte c) (sum % 256) c.bytes;
        eflags = record (arithmetic_flags adc_byte sum) { cf = leb 256 sum };
      }
  exec add_al c = record c {
    al = (c.al + 127) % 256;
    eflags = record (arithmetic_flags add_al c.al) {
      cf = leb 256 (c.al + 127);
      of = leb 1 c.al && ltb c.al 128;
    };
  }

  unfoldable pub run : List Op → Cpu → Cpu
  run [] c = c
  run (o ∷ os) c = run os (exec o c)

-- The body of `__afl_trace`.
unfoldable pub trace_asm : List Op
trace_asm =
    lahf ∷ seto_al ∷ load_area_ptr ∷ xor_rcx ∷ xor_prev_loc ∷ shr_prev_loc ∷ inc_byte ∷ adc_byte
    ∷ add_al ∷ sahf ∷ ret ∷ []

-- `AFLTrampolinePatch.get_asm`, with the function in place of its call.
unfoldable pub trampoline_asm : ℕ → List Op
unfolding trace_asm
trampoline_asm block_id =
    (lea_down 152 ∷ save_rdx 0 ∷ save_rcx 8 ∷ save_rax 16 ∷ mov_rcx block_id ∷ call_trace ∷ [])
    ++ (trace_asm ++ (load_rax 16 ∷ load_rcx 8 ∷ load_rdx 0 ∷ lea_up 152 ∷ []))
