-- ===== src/Trampoline/Kept.antt =====
-- A trampoline is not noticed by the code around it.
use pe_ar_honours.Prelude.{
  ℕ, ◌+◌, ◌-◌, ◌*◌, ◌/◌, ◌%◌, ◌^◌, ◌<◌, ◌≤◌, ◌≡◌, refl, ◌∙◌, Bool, true, false, arith, ◌&&◌, leb,
  ltb,
}
use pe_ar_honours.Machine.{higher, lower, store}
use pe_ar_honours.Trampoline.{
  Flags, Cpu, bit, is_set, low_flags, rax, Op, exec, run, trace_asm, trampoline_asm,
}

-- Each of the flags in its bit.
low_flags-is_set :
    (f : Flags)
    → (is_set (low_flags f) 128 ≡ f.sf)
      × (is_set (low_flags f) 64 ≡ f.zf)
      × (is_set (low_flags f) 16 ≡ f.af)
      × (is_set (low_flags f) 4 ≡ f.pf)
      × (is_set (low_flags f) 1 ≡ f.cf)
low_flags-is_set f = (ground arith, ground arith, ground arith, ground arith, ground arith)

parts : (value : ℕ) → value / 65536 * 65536 + value / 256 % 256 * 256 + value % 256 ≡ value
parts value = omega arith

overflow : (b : Bool) → (leb 1 (bit b) && ltb (bit b) 128) ≡ b
overflow true = refl
overflow false = refl

-- The stack when `__afl_trace` has returned.
abbrev saved : (rsp return_address x y z : ℕ) → (ℕ → ℕ) → ℕ → ℕ
saved rsp return_address x y z cell = store (lower (lower rsp 152) 8) return_address (
    store (higher (lower rsp 152) 16) x
      (store (higher (lower rsp 152) 8) y (store (higher (lower rsp 152) 0) z cell)))

module _ (rsp return_address x y z : ℕ) (cell : ℕ → ℕ) (room : 160 ≤ rsp)
    (bound : rsp < 2 ^ 64) where
  down : lower rsp 152 ≡ rsp - 152
  down = omega arith

  call_down : lower (lower rsp 152) 8 ≡ rsp - 160
  call_down = omega arith

  saved-at_0 :
      saved rsp return_address x y z cell (higher (higher (lower (lower rsp 152) 8) 8) 0) ≡ z
  saved-at_0 = ground (arith, down, call_down)

  saved-at_8 :
      saved rsp return_address x y z cell (higher (higher (lower (lower rsp 152) 8) 8) 8) ≡ y
  saved-at_8 = ground (arith, down, call_down)

  saved-at_16 :
      saved rsp return_address x y z cell (higher (higher (lower (lower rsp 152) 8) 8) 16) ≡ x
  saved-at_16 = ground (arith, down, call_down)

  saved-above : (a : ℕ) → rsp ≤ a → saved rsp return_address x y z cell a ≡ cell a
  saved-above a h = ground (arith, down, call_down)

module _ (arithmetic_flags : Op → ℕ → Flags) (return_address : ℕ) where
  -- With 160 bytes of stack a trampoline keeps the registers, the
  -- flags, and the stack at the stack pointer and above.
  pub trampoline_asm-kept :
      (block_id : ℕ) (c : Cpu)
      → 160 ≤ c.rsp
      → c.rsp < 2 ^ 64
      → let after = run arithmetic_flags return_address (trampoline_asm block_id) c in
        (after.rsp ≡ c.rsp)
        × (after.rdx ≡ c.rdx)
        × (after.rcx ≡ c.rcx)
        × (rax after ≡ rax c)
        × (after.eflags ≡ c.eflags)
        × ((a : ℕ) → c.rsp ≤ a → after.cell a ≡ c.cell a)
  unfolding run exec trampoline_asm trace_asm
  trampoline_asm-kept block_id c room bound =
      let (sf, zf, af, pf, cf) = low_flags-is_set c.eflags in
      (
        omega arith,
        saved-at_0 c.rsp return_address (rax c) c.rcx c.rdx c.cell room bound,
        saved-at_8 c.rsp return_address (rax c) c.rcx c.rdx c.cell room bound,
        parts _ ∙ saved-at_16 c.rsp return_address (rax c) c.rcx c.rdx c.cell room bound,
        rw (sf, zf, af, pf, cf, overflow c.eflags.of) refl,
        saved-above c.rsp return_address (rax c) c.rcx c.rdx c.cell room bound,
      )
