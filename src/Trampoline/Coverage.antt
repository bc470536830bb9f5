-- ===== src/Trampoline/Coverage.antt =====
-- What a trampoline records: the edge from the block before it.
use pe_ar_honours.Prelude.{ℕ, zero, suc, ◌+◌, ◌/◌, ◌%◌, ◌^◌, ◌<◌, ◌≡◌, ◌≢◌, refl, arith}
use pe_ar_honours.Machine.{higher, store}
use pe_ar_honours.Trampoline.{
  xor, Flags, Cpu, bit, is_set, Op, exec, run, trace_asm, trampoline_asm,
}

-- The exclusive or with one number twice.
xor-xor : (w a b : ℕ) → a < 2 ^ w → xor w b (xor w a b) ≡ a
unfolding xor
xor-xor zero a b h = omega arith
xor-xor (suc w) a b h = ground (arith, xor-xor w (a / 2) (b / 2))

-- The two changes of the byte at `e`, the second with the carry of the shift.
abbrev counted : ℕ → ℕ → (ℕ → ℕ) → ℕ → ℕ
counted e block_id bytes =
    let once = store e ((bytes e + 1) % 256) bytes in
    store e ((once e + bit (is_set block_id 1)) % 256) once

counted-eq :
    (e block_id : ℕ) (bytes : ℕ → ℕ)
    → counted e block_id bytes e ≡ (bytes e + 1 + block_id % 2) % 256
counted-eq e block_id bytes = ground arith

counted-ne : (e block_id a : ℕ) (bytes : ℕ → ℕ) → a ≢ e → counted e block_id bytes a ≡ bytes a
counted-ne e block_id a bytes h = ground arith

-- The place in the map of the edge to a block from the one before it.
abbrev pub edge : ℕ → Cpu → ℕ
edge block_id c = higher c.area_ptr (xor 64 block_id c.prev_loc)

module _ (arithmetic_flags : Op → ℕ → Flags) (return_address : ℕ) where
  -- A trampoline leaves half its id as the location, and adds one to the byte of the edge if its id
  -- is even and two if it is odd, modulo 256. It changes no other byte.
  pub trampoline_asm-coverage :
      (block_id : ℕ) (c : Cpu)
      → block_id < 2 ^ 64
      → let after = run arithmetic_flags return_address (trampoline_asm block_id) c in
        (after.prev_loc ≡ block_id / 2)
        × (after.bytes (edge block_id c) ≡ (c.bytes (edge block_id c) + 1 + block_id % 2) % 256)
        × ((a : ℕ) → a ≢ edge block_id c → after.bytes a ≡ c.bytes a)
  unfolding run exec trampoline_asm trace_asm
  trampoline_asm-coverage block_id c h = rw (xor-xor 64 block_id c.prev_loc h) (
    refl,
    counted-eq (edge block_id c) block_id c.bytes,
    λ a ne. counted-ne (edge block_id c) block_id a c.bytes ne,
  )
