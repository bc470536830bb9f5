-- ===== src/Machine/Tests.antt =====
-- The call of `__afl_setup`, with a function that overwrites all registers and the stack below.
use pe_ar_honours.Prelude.{ℕ, ◌*◌, refl, if◌then◌else◌, ltb, arith}
use pe_ar_honours.Text.{Text, codes}
use pe_ar_honours.Machine.{Machine, Instruction, code, run, call_function_asm}
use pe_ar_honours.Machine.Frames.{KeepsStack, IsKept, call_function_asm-IsKept}

abbrev flags_left : Instruction → ℕ → ℕ
flags_left i a = 2

abbrev overwriting : Text → Machine → Machine
overwriting name m = record m { read = λ q. 77; cell = λ a. if ltb a m.rsp then 77 else m.cell a }

abbrev machine : Machine
machine = record { rsp = 4104; read = code; cell = λ a. 3 * a }

overwriting-KeepsStack : KeepsStack (overwriting (codes "__afl_setup"))
overwriting-KeepsStack m h = (refl, λ a le. ground arith)

call_function_asm-IsKept_example :
    IsKept flags_left overwriting 256 machine
      (run flags_left overwriting (call_function_asm (codes "__afl_setup") 256) machine)
call_function_asm-IsKept_example =
    call_function_asm-IsKept flags_left overwriting (codes "__afl_setup") 256 machine
      overwriting-KeepsStack (omega arith) (omega arith)
