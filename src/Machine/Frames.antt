-- ===== src/Machine/Frames.antt =====
-- `CallFunctionPatch` keeps the stack and the general registers around the function that it calls.
use pe_ar_honours.Prelude.{
  ℕ, ◌+◌, ◌-◌, ◌%◌, ◌^◌, ◌<◌, ◌≤◌, ◌≢◌, ◌≡◌, refl, ◌∙◌, sym, ap, true, List, [], ◌∷◌, ◌++◌, ◌==◌,
  if◌then◌else◌, any, arith, ==_iff, Bool-cases, inl, inr,
}
use pe_ar_honours.Text.{Text}
use pe_ar_honours.Machine.{
  Register, rax, rcx, rdx, rsi, rdi, r8, r9, r10, r11, flags, code, Machine, lower, higher, set,
  store, Instruction, lea_rsp, sub_rsp, add_rsp, align_rsp, push, pop, from_rsp, to_rsp, call, exec,
  run, call_function_asm,
}

pub lower-le : (a n : ℕ) → n ≤ a → a < 2 ^ 64 → lower a n ≡ a - n
lower-le a n h b = omega arith

pub higher-lower : (a n : ℕ) → n ≤ a → a < 2 ^ 64 → higher (lower a n) n ≡ a
higher-lower a n h b = omega arith

pub store-ne : (a b v : ℕ) (cell : ℕ → ℕ) → b < a → store b v cell a ≡ cell a
store-ne a b v cell h = ground arith

pub store-eq : (a v : ℕ) (cell : ℕ → ℕ) → store a v cell a ≡ v
store-eq a v cell = ground arith

-- A function that returns with the stack pointer that it was called with, and leaves what is at it
-- and above it, if the stack pointer was a multiple of 16: what the System V ABI asks for.
abbrev pub KeepsStack : (Machine → Machine) → Type 0
KeepsStack f =
    (m : Machine)
    → m.rsp % 16 ≡ 0
    → ((f m).rsp ≡ m.rsp) × ((a : ℕ) → m.rsp ≤ a → (f m).cell a ≡ m.cell a)

decode : ℕ → Register
decode n =
    if n == 0
    then rax
    else if n == 1
    then rcx
    else if n == 2
    then rdx
    else if n == 3
    then rsi
    else if n == 4
    then rdi
    else if n == 5
    then r8
    else if n == 6
    then r9
    else if n == 7
    then r10
    else if n == 8
    then r11
    else flags

decode-code : (q : Register) → decode (code q) ≡ q
unfolding decode
decode-code rax = refl
decode-code rcx = refl
decode-code rdx = refl
decode-code rsi = refl
decode-code rdi = refl
decode-code r8 = refl
decode-code r9 = refl
decode-code r10 = refl
decode-code r11 = refl
decode-code flags = refl

code-injective : (q r : Register) → (code q == code r) ≡ true → q ≡ r
code-injective q r h =
    sym (decode-code q) ∙ ap decode ((==_iff (code q) (code r)).0 h) ∙ decode-code r

pushed : List Register
pushed = flags ∷ rax ∷ rcx ∷ rdx ∷ rsi ∷ rdi ∷ r8 ∷ r9 ∷ r10 ∷ r11 ∷ rax ∷ []

all_pushed : (q : Register) → any (λ r. code q == code r) pushed ≡ true
unfolding pushed
all_pushed rax = refl
all_pushed rcx = refl
all_pushed rdx = refl
all_pushed rsi = refl
all_pushed rdi = refl
all_pushed r8 = refl
all_pushed r9 = refl
all_pushed r10 = refl
all_pushed r11 = refl
all_pushed flags = refl

module _ (arithmetic_flags : Instruction → ℕ → ℕ) (callee : Text → Machine → Machine) where
  run-append :
      (is js : List Instruction) (m : Machine)
      → run arithmetic_flags callee (is ++ js) m
        ≡ run arithmetic_flags callee js (run arithmetic_flags callee is m)
  unfolding run
  run-append [] js m = refl
  run-append (i ∷ is) js m = run-append is js _

  -- With `n` bytes of stack the code keeps the stack pointer, the stack, and some registers.
  abbrev pub Keeps : ℕ → List Register → List Instruction → Type 0
  Keeps n rs is =
      (m : Machine)
      → n ≤ m.rsp
      → m.rsp < 2 ^ 64
      → ((run arithmetic_flags callee is m).rsp ≡ m.rsp)
        × ((a : ℕ) → m.rsp ≤ a → (run arithmetic_flags callee is m).cell a ≡ m.cell a)
        × ((q : Register)
            → any (λ r. code q == code r) rs ≡ true
            → (run arithmetic_flags callee is m).read q ≡ m.read q)

  -- Code between a push and a pop of a register also keeps the register.
  push-Keeps :
      (r : Register) (rs : List Register) (n : ℕ) (is : List Instruction)
      → Keeps n rs is
      → Keeps (8 + n) (r ∷ rs) (push r ∷ (is ++ pop r ∷ []))
  unfolding run
  push-Keeps r rs n is keeps m room bound =
      let pushed = exec arithmetic_flags callee (push r) m in
      let room8 : 8 ≤ m.rsp = omega arith in
      let at : lower m.rsp 8 ≡ m.rsp - 8 = lower-le m.rsp 8 room8 bound in
      let (stack, cells, registers) = keeps pushed (omega arith) (omega arith) in
      let done = run arithmetic_flags callee is pushed in
      rw run-append (
        ap (λ a. higher a 8) stack ∙ higher-lower m.rsp 8 room8 bound,
        λ a h. cells a (omega arith) ∙ store-ne a (lower m.rsp 8) (m.read r) m.cell (omega arith),
        λ q k. elim (Bool-cases (code q == code r)) [
          | inl same ↦ rw same (
              ap done.cell stack
              ∙ cells (lower m.rsp 8) (omega arith)
              ∙ store-eq (lower m.rsp 8) (m.read r) m.cell
              ∙ ap m.read (sym (code-injective q r same)))
          | inr other ↦ rw other (registers q (rw other at k))
        ],
      )

  aligned_call : Text → List Instruction
  aligned_call func =
      from_rsp rax
      ∷ lea_rsp 128
      ∷ align_rsp
      ∷ push rax
      ∷ push rax
      ∷ call func
      ∷ pop rax
      ∷ to_rsp rax
      ∷ []

  -- The call itself, on a stack that is aligned before it.
  call-Keeps : (func : Text) → KeepsStack (callee func) → Keeps 159 [] (aligned_call func)
  unfolding run aligned_call
  call-Keeps func abi m room bound =
      let before =
        run arithmetic_flags callee
          (from_rsp rax ∷ lea_rsp 128 ∷ align_rsp ∷ push rax ∷ push rax ∷ []) m in
      let start : lower m.rsp 128 ≡ m.rsp - 128 = lower-le m.rsp 128 (omega arith) bound in
      let aligned = m.rsp - 128 - (m.rsp - 128) % 16 in
      let first : lower aligned 8 ≡ aligned - 8 = lower-le aligned 8 (omega arith) (omega arith) in
      let second : lower (aligned - 8) 8 ≡ aligned - 16 =
        lower-le (aligned - 8) 8 (omega arith) (omega arith) ∙ omega arith in
      let top : before.rsp ≡ aligned - 16 = rw (start, first, second) refl in
      let below = store (lower (lower m.rsp 128 - lower m.rsp 128 % 16) 8) m.rsp m.cell in
      let (stack, cells) = abi before (rw top (omega arith)) in
      (
        ap (callee func before).cell stack
            ∙ cells before.rsp (omega arith)
            ∙ store-eq before.rsp m.rsp below,
        λ a h.
            cells a (rw top (omega arith))
            ∙ store-ne a before.rsp m.rsp below (rw top (omega arith))
            ∙ store-ne a (lower (lower m.rsp 128 - lower m.rsp 128 % 16) 8) m.rsp m.cell
                (rw (start, first) (omega arith)),
        λ q k. cc,
      )

  wrap : List Register → List Instruction → List Instruction
  wrap [] is = is
  wrap (r ∷ rs) is = push r ∷ (wrap rs is ++ pop r ∷ [])

  wrapped_room : List Register → ℕ → ℕ
  wrapped_room [] n = n
  wrapped_room (r ∷ rs) n = 8 + wrapped_room rs n

  wrap-Keeps :
      (rs : List Register) (is : List Instruction) (n : ℕ)
      → Keeps n [] is
      → Keeps (wrapped_room rs n) rs (wrap rs is)
  unfolding wrap wrapped_room
  wrap-Keeps [] is n keeps = keeps
  wrap-Keeps (r ∷ rs) is n keeps =
      push-Keeps r rs (wrapped_room rs n) (wrap rs is) (wrap-Keeps rs is n keeps)

  -- What is kept from one machine to the next: the stack pointer, the stack, and all registers but
  -- the flags, which are left by an addition of `k` to the stack pointer.
  abbrev pub IsKept : ℕ → Machine → Machine → Type 0
  IsKept k m after =
      (after.rsp ≡ m.rsp)
      × ((a : ℕ) → m.rsp ≤ a → after.cell a ≡ m.cell a)
      × ((q : Register) → q ≢ flags → after.read q ≡ m.read q)
      × (after.read flags ≡ arithmetic_flags (add_rsp k) (m.rsp - k))

  set_other : (r q : Register) (v : ℕ) (read : Register → ℕ) → q ≢ r → set r v read q ≡ read q
  set_other r q v read ne = elim (Bool-cases (code q == code r)) [
    | inl same ↦ absurd (ne (code-injective q r same))
    | inr other ↦ rw other
  ]

  skip-IsKept :
      (rs : List Register) (n k : ℕ) (is : List Instruction) (m : Machine)
      → Keeps n rs is
      → ((q : Register) → any (λ r. code q == code r) rs ≡ true)
      → k + n ≤ m.rsp
      → m.rsp < 2 ^ 64
      → IsKept k m (run arithmetic_flags callee (sub_rsp k ∷ (is ++ add_rsp k ∷ [])) m)
  unfolding run
  skip-IsKept rs n k is m keeps every room bound =
      let skipped = exec arithmetic_flags callee (sub_rsp k) m in
      let low : lower m.rsp k ≡ m.rsp - k = lower-le m.rsp k (omega arith) bound in
      let (stack, cells, registers) = keeps skipped (omega arith) (omega arith) in
      rw run-append (
        ap (λ a. higher a k) stack ∙ higher-lower m.rsp k (omega arith) bound,
        λ a h. cells a (omega arith),
        λ q ne.
            set_other flags q _ (run arithmetic_flags callee is skipped).read ne
            ∙ registers q (every q)
            ∙ set_other flags q _ m.read ne,
        ap (arithmetic_flags (add_rsp k)) (stack ∙ low),
      )

  -- The patch keeps the stack pointer, the stack and the general registers, if there are 247 bytes of
  -- stack below the bytes that it skips, and if the function that it calls keeps the stack when it
  -- is aligned. The flags are those of the patch's last instruction.
  pub call_function_asm-IsKept :
      (func : Text) (save_stack : ℕ) (m : Machine)
      → KeepsStack (callee func)
      → save_stack + 247 ≤ m.rsp
      → m.rsp < 2 ^ 64
      → IsKept save_stack m (run arithmetic_flags callee (call_function_asm func save_stack) m)
  unfolding call_function_asm wrap wrapped_room pushed aligned_call
  call_function_asm-IsKept func save_stack m abi room bound =
      skip-IsKept pushed 247 save_stack (wrap pushed (aligned_call func)) m
        (wrap-Keeps pushed (aligned_call func) 159 (call-Keeps func abi)) all_pushed room bound
