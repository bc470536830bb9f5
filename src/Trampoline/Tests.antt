-- ===== src/Trampoline/Tests.antt =====
-- A trampoline with an odd id.
use pe_ar_honours.Prelude.{
  ℕ, ◌^◌, ◌<◌, some, [], ◌∷◌, ◌+◌, ◌/◌, ◌%◌, ◌≡◌, ◌≢◌, ◌≤◌, refl, true, false, arith,
}
use pe_ar_honours.Trampoline.{Flags, Cpu, Op, rax, run, exec, xor, trace_asm, trampoline_asm}
use pe_ar_honours.Trampoline.Coverage.{edge, trampoline_asm-coverage}
use pe_ar_honours.Text.{codes, text_eq}
use pe_ar_honours.Globals.{data_variables, initial_value, locate, behind, size, initially}
use pe_ar_honours.Trampoline.Edges.{hits, run_trampolines, run_trampolines-data_variables}
use pe_ar_honours.Trampoline.Kept.{trampoline_asm-kept}

abbrev no_flags : Flags
no_flags = record { sf = false; zf = false; af = false; pf = false; cf = false; of = false }

abbrev left : Op → ℕ → Flags
left o value = no_flags

abbrev cpu : Cpu
cpu = record {
  rsp = 4096;
  rdx = 11;
  rcx = 12;
  rax_high = 0;
  ah = 3;
  al = 7;
  eflags = record no_flags { zf = true; of = true };
  cell = λ a. a;
  bytes = λ a. 4;
  area_ptr = 8000;
  prev_loc = 6;
}

byte_run : (run left 0 (trampoline_asm 5) cpu).bytes 8003 ≡ 6
unfolding run exec trampoline_asm trace_asm xor
byte_run = refl

trampoline_asm-coverage_example :
    ((run left 0 (trampoline_asm 5) cpu).prev_loc ≡ 5 / 2)
    × ((run left 0 (trampoline_asm 5) cpu).bytes (edge 5 cpu) ≡ (4 + 1 + 5 % 2) % 256)
    × ((a : ℕ) → a ≢ edge 5 cpu → (run left 0 (trampoline_asm 5) cpu).bytes a ≡ 4)
trampoline_asm-coverage_example = trampoline_asm-coverage left 0 5 cpu (omega arith)

trampoline_asm-kept_example :
    ((run left 0 (trampoline_asm 5) cpu).rsp ≡ 4096)
    × ((run left 0 (trampoline_asm 5) cpu).rdx ≡ 11)
    × ((run left 0 (trampoline_asm 5) cpu).rcx ≡ 12)
    × (rax (run left 0 (trampoline_asm 5) cpu) ≡ rax cpu)
    × ((run left 0 (trampoline_asm 5) cpu).eflags ≡ cpu.eflags)
    × ((a : ℕ) → 4096 ≤ a → (run left 0 (trampoline_asm 5) cpu).cell a ≡ a)
trampoline_asm-kept_example = trampoline_asm-kept left 0 5 cpu (omega arith) (omega arith)

-- Before the first block.
abbrev started : Cpu
started = record cpu { prev_loc = 0 }

before_map : (j : ℕ) → j < 2 ^ 16 → 7999 ≢ 8000 + j
before_map j h e = omega arith

map_size_value : initial_value (codes "__afl_map_size") (data_variables false true) ≡ some (2 ^ 16)
unfolding initial_value locate behind size initially data_variables text_eq
map_size_value = refl

prev_loc_value : initial_value (codes "__afl_prev_loc") (data_variables false true) ≡ some 0
unfolding initial_value locate behind size initially data_variables text_eq
prev_loc_value = refl

run_trampolines-data_variables_example :
    ((run_trampolines left 0 (5 ∷ 7 ∷ []) started).bytes (8000 + 5)
      ≡ (4 + hits (5 ∷ 7 ∷ []) 0 5) % 256)
    × ((run_trampolines left 0 (5 ∷ 7 ∷ []) started).bytes 7999 ≡ 4)
run_trampolines-data_variables_example =
    run_trampolines-data_variables left 0 false true (5 ∷ 7 ∷ []) started (2 ^ 16) 5 7999
      map_size_value prev_loc_value (omega arith, (omega arith, tt)) (omega arith)
      (λ b. omega arith) (omega arith) before_map

-- Both blocks are counted twice there.
hits_twice : hits (5 ∷ 7 ∷ []) 0 5 ≡ 4
unfolding hits xor
hits_twice = refl
