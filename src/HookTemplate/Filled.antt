-- ===== src/HookTemplate/Filled.antt =====
-- The hook as the patch calls it: the function under test finds the test case in its buffer.
use pe_ar_honours.Prelude.{
  ℕ, ◌+◌, ◌-◌, ◌%◌, ◌^◌, ◌<◌, ◌≤◌, ◌≡◌, ◌≢◌, ◌⊎◌, refl, ◌∙◌, ap, arith, true, false, ltb, leb, ◌&&◌,
  All, All-map2, Bool-cases, inl, inr, if◌then◌else◌,
}
use pe_ar_honours.Text.{Text, codes, text_eq}
use pe_ar_honours.Registers.{backup_register_asm}
use pe_ar_honours.Registers.Saved.{register_of, offset_of}
use pe_ar_honours.Persistent.{Machine, World, value, exec_all, setup_and_call_sharedmem_hook_asm}
use pe_ar_honours.Persistent.Calls.{KeepsStack}
use pe_ar_honours.Persistent.Hook.{IsCalledAt, GetsArguments, setup_and_call_sharedmem_hook_asm-lem}
use pe_ar_honours.HookTemplate.{
  x86_64_regs, offset, beyond, field, memset_zero, memcpy, afl_rewrite_sharedmem_hook,
}

field-rdi : (regs : ℕ → ℕ) → field (codes "rdi") regs ≡ regs 32
unfolding field offset x86_64_regs beyond text_eq
field-rdi regs = refl

-- What the buffer of 100 bytes holds: the input, cut off at 100 bytes, then zeros.
abbrev pub held : ℕ → ℕ → (ℕ → ℕ) → ℕ → ℕ
held input_buf len bytes i = if ltb i len then bytes (input_buf + i) else 0

within : (to i n : ℕ) → (leb to (to + i) && ltb (to + i) (to + n)) ≡ ltb i n
within to i n = ground arith

memcpy-at :
    (to from n i : ℕ) (bytes : ℕ → ℕ)
    → memcpy to from n bytes (to + i) ≡ (if ltb i n then bytes (from + i) else bytes (to + i))
unfolding memcpy
memcpy-at to from n i bytes =
    let distance : to + i - to ≡ i = omega arith in rw (distance, within to i n) refl

memset-at :
    (to n i : ℕ) (bytes : ℕ → ℕ)
    → memset_zero to n bytes (to + i) ≡ (if ltb i n then 0 else bytes (to + i))
unfolding memset_zero
memset-at to n i bytes = rw (within to i n) refl

abbrev pub AreApart : ℕ → ℕ → Type 0
AreApart to from = (from + 100 ≤ to) ⊎ (to + 100 ≤ from)

outside_test :
    (to n a : ℕ) → n ≤ 100 → ((i : ℕ) → i < 100 → a ≢ to + i) → (leb to a && ltb a (to + n)) ≡ false
outside_test to n a bound outside = elim (Bool-cases (leb to a && ltb a (to + n))) [
  | inl there ↦ absurd (outside (a - to) (ground arith) (ground arith))
  | inr other ↦ other
]

apart_test :
    (to from i : ℕ)
    → AreApart to from
    → i < 100
    → (leb to (from + i) && ltb (from + i) (to + 100)) ≡ false
apart_test to from i apart h = ground arith

at_most : ℕ → ℕ
at_most len = if ltb 100 len then 100 else len

at_most-le : (len : ℕ) → at_most len ≤ 100
unfolding at_most
at_most-le len = ground arith

ltb-at_most : (i len : ℕ) → i < 100 → ltb i (at_most len) ≡ ltb i len
unfolding at_most
ltb-at_most i len h = ground arith

unset :
    (to from i : ℕ) (bytes : ℕ → ℕ)
    → i < 100
    → AreApart to from
    → memset_zero to 100 bytes (from + i) ≡ bytes (from + i)
unfolding memset_zero
unset to from i bytes h apart = rw (apart_test to from i apart h) refl

filled :
    (to from len i : ℕ) (bytes : ℕ → ℕ)
    → i < 100
    → AreApart to from
    → memcpy to from (at_most len) (memset_zero to 100 bytes) (to + i) ≡ held from len bytes i
filled to from len i bytes h apart =
    let inside : ltb i 100 ≡ true = ground arith in
    memcpy-at to from (at_most len) i (memset_zero to 100 bytes)
    ∙ rw (ltb-at_most i len h, memset-at to 100 i bytes, inside, unset to from i bytes h apart) refl

unfilled :
    (to from len a : ℕ) (bytes : ℕ → ℕ)
    → ((i : ℕ) → i < 100 → a ≢ to + i)
    → memcpy to from (at_most len) (memset_zero to 100 bytes) a ≡ bytes a
unfolding memcpy memset_zero
unfilled to from len a bytes outside =
    rw
      (
        outside_test to (at_most len) a (at_most-le len) outside,
        outside_test to 100 a (omega arith) outside,
      )
      refl

afl_rewrite_sharedmem_hook-eq :
    (regs : ℕ → ℕ) (input_buf len : ℕ) (bytes : ℕ → ℕ)
    → afl_rewrite_sharedmem_hook regs input_buf len bytes
      ≡ memcpy (regs 32) input_buf (at_most len) (memset_zero (regs 32) 100 bytes)
unfolding afl_rewrite_sharedmem_hook at_most
afl_rewrite_sharedmem_hook-eq regs input_buf len bytes = rw (field-rdi regs) refl

backup_rdi :
    (regs : ℕ → ℕ) (m : Machine)
    → All (λ r. regs (offset_of r) ≡ value (register_of r) m) backup_register_asm
    → regs 32 ≡ value (codes "rdi") m
unfolding backup_register_asm
backup_rdi regs m saved = saved.1.1.1.1.0

-- The hook of the template, called by the patch: with 159 bytes of stack, a hook that keeps the stack and
-- the saved registers, and the test case not within 100 bytes of the buffer: the first argument of the
-- function under test is a buffer whose first 100 bytes are the test case, cut off there, and then zeros; no
-- other byte has changed, and the function gets its registers as they were, those of xmm in their lower
-- 8 bytes. The arguments of the hook are those in the registers when the patch, run up to the call of the
-- hook, calls it.
pub afl_rewrite_sharedmem_hook-filled :
    (w : World) (name : Text) (m : Machine) (bytes : ℕ → ℕ) (i a : ℕ)
    → KeepsStack w name
    → 159 ≤ m.rsp
    → m.rsp < 2 ^ 64
    → ((at : Machine) → w.hooked name at ≡ at.registers.backup)
    → AreApart (value (codes "rdi") m) w.fuzz_ptr
    → i < 100
    → ((j : ℕ) → j < 100 → a ≢ value (codes "rdi") m + j)
    → let after = exec_all w (setup_and_call_sharedmem_hook_asm name) m in
      let buffer = value (codes "rdi") m in
      let len = w.word w.fuzz_len % 2 ^ 32 in
      (at : Machine) × IsCalledAt w name (setup_and_call_sharedmem_hook_asm name) m at
      × GetsArguments w at
      × (let memory =
            afl_rewrite_sharedmem_hook at.registers.backup
              (value (codes "rsi") at)
              (value (codes "rdx") at)
              bytes in
          (memory (buffer + i) ≡ held w.fuzz_ptr len bytes i) × (memory a ≡ bytes a))
      × All (λ r. value (register_of r) after ≡ value (register_of r) m) backup_register_asm
afl_rewrite_sharedmem_hook-filled w name m bytes i a abi room bound leaves apart inside outside =
    let (at, called, arguments, kept, _, _, registers) =
      setup_and_call_sharedmem_hook_asm-lem w name m abi room bound in
    let rdi = backup_rdi at.registers.backup m kept in
    (
      at,
      called,
      arguments,
      rw (afl_rewrite_sharedmem_hook-eq, rdi, arguments.2, arguments.3)
          (filled _ _ _ i bytes inside apart, unfilled _ _ _ a bytes outside),
      All-map2 _ _ _ backup_register_asm
          (λ r left saved. left ∙ ap (λ x. x (offset_of r)) (leaves at) ∙ saved) registers kept,
    )
