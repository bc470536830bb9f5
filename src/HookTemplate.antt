-- ===== src/HookTemplate.antt =====
-- The hook of sharedmem_hook_template/hook.c, and the struct of hook.h through which it reads the saved
-- registers.
pub mod Layout
pub mod Filled
mod Tests
use pe_ar_honours.Prelude.{
  ℕ, ◌+◌, ◌-◌, ltb, leb, ◌&&◌, Option, none, some, List, [], ◌∷◌, if◌then◌else◌,
}
use pe_ar_honours.Text.{Text, codes, text_eq}

-- A field of a packed struct with its bytes; each element of an array is one field.
pub record Field : Type 0 where
  pub name : Text
  pub size : ℕ

abbrev uint64_t : Text → Field
uint64_t name = record { name = name; size = 8 }

abbrev uint8_t_16 : Text → Field
uint8_t_16 name = record { name = name; size = 16 }

-- `struct x86_64_regs`. The rows of `xmm_regs` have the names of the registers.
unfoldable pub x86_64_regs : List Field
x86_64_regs =
    uint64_t (codes "rax")
    ∷ uint64_t (codes "rbx")
    ∷ uint64_t (codes "rcx")
    ∷ uint64_t (codes "rdx")
    ∷ uint64_t (codes "rdi")
    ∷ uint64_t (codes "rsi")
    ∷ uint64_t (codes "r8")
    ∷ uint64_t (codes "r9")
    ∷ uint64_t (codes "r10")
    ∷ uint64_t (codes "r11")
    ∷ uint64_t (codes "r12")
    ∷ uint64_t (codes "r13")
    ∷ uint64_t (codes "r14")
    ∷ uint64_t (codes "r15")
    ∷ uint8_t_16 (codes "xmm0")
    ∷ uint8_t_16 (codes "xmm1")
    ∷ uint8_t_16 (codes "xmm2")
    ∷ uint8_t_16 (codes "xmm3")
    ∷ uint8_t_16 (codes "xmm4")
    ∷ uint8_t_16 (codes "xmm5")
    ∷ uint8_t_16 (codes "xmm6")
    ∷ uint8_t_16 (codes "xmm7")
    ∷ uint8_t_16 (codes "xmm8")
    ∷ uint8_t_16 (codes "xmm9")
    ∷ uint8_t_16 (codes "xmm10")
    ∷ uint8_t_16 (codes "xmm11")
    ∷ uint8_t_16 (codes "xmm12")
    ∷ uint8_t_16 (codes "xmm13")
    ∷ uint8_t_16 (codes "xmm14")
    ∷ uint8_t_16 (codes "xmm15")
    ∷ []

unfoldable pub total_size : List Field → ℕ
total_size [] = 0
total_size (f ∷ fs) = f.size + total_size fs

unfoldable pub beyond : ℕ → Option ℕ → Option ℕ
beyond n none = none
beyond n (some offset) = some (n + offset)

-- Where a field of a packed struct is.
unfoldable pub offset : Text → List Field → Option ℕ
unfolding text_eq beyond
offset name [] = none
offset name (f ∷ fs) =
    let later = beyond f.size (offset name fs) in if text_eq name f.name then some 0 else later

-- A field of 8 bytes of `regs`, by the 8-byte words at offsets from it.
unfoldable pub field : Text → (ℕ → ℕ) → ℕ
unfolding offset x86_64_regs
field name regs = elim (offset name x86_64_regs) [ none ↦ 0 | some n ↦ regs n ]

-- memset to 0, and memcpy between areas that do not overlap.
unfoldable pub memset_zero : ℕ → ℕ → (ℕ → ℕ) → ℕ → ℕ
memset_zero to n bytes a = if leb to a && ltb a (to + n) then 0 else bytes a

unfoldable pub memcpy : ℕ → ℕ → ℕ → (ℕ → ℕ) → ℕ → ℕ
memcpy to from n bytes a = if leb to a && ltb a (to + n) then bytes (from + (a - to)) else bytes a

-- `__afl_rewrite_sharedmem_hook`: the memory behind it.
unfoldable pub afl_rewrite_sharedmem_hook : (ℕ → ℕ) → ℕ → ℕ → (ℕ → ℕ) → ℕ → ℕ
unfolding field memset_zero memcpy
afl_rewrite_sharedmem_hook regs input_buf input_buf_len bytes =
    let rdi = field (codes "rdi") regs in
    let reset = memset_zero rdi 100 bytes in
    let len = if ltb 100 input_buf_len then 100 else input_buf_len in memcpy rdi input_buf len reset
