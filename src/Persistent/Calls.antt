-- ===== src/Persistent/Calls.antt =====
-- The two calls of the patches, on a stack that is aligned for them.
use pe_ar_honours.Prelude.{
  ℕ, ◌-◌, ◌%◌, ◌^◌, ◌<◌, ◌≤◌, ◌≡◌, refl, ◌∙◌, ap, arith, List, [], ◌∷◌, ◌++◌,
}
use pe_ar_honours.Text.{Text, codes, text_eq}
use pe_ar_honours.Machine.{lower, store}
use pe_ar_honours.Machine.Frames.{lower-le, store-ne, store-eq}
use pe_ar_honours.Persistent.{
  Machine, World, Instruction, push, pop, from_rsp, to_rsp, lower_rsp, align_rsp, value, set, exec,
  exec_all,
}

-- A function that returns, and leaves what is at the stack pointer and above it if that was a
-- multiple of 16.
abbrev pub KeepsStack : World → Text → Type 0
KeepsStack w name =
    (m : Machine) → m.rsp % 16 ≡ 0 → (a : ℕ) → m.rsp ≤ a → w.called_cell name m a ≡ m.cell a

module _ (w : World) where
  pub exec_all-append :
      (is js : List Instruction) (m : Machine)
      → exec_all w (is ++ js) m ≡ exec_all w js (exec_all w is m)
  unfolding exec_all
  exec_all-append [] js m = refl
  exec_all-append (i ∷ is) js m = exec_all-append is js _

  abbrev pub enter : List Instruction
  enter =
      from_rsp (codes "rcx")
      ∷ lower_rsp 128
      ∷ align_rsp
      ∷ push (codes "rcx")
      ∷ push (codes "rcx")
      ∷ []

  abbrev pub leave : List Instruction
  leave = pop (codes "rcx") ∷ to_rsp (codes "rcx") ∷ []

  -- The machine from which the function is called.
  abbrev pub entered : Machine → Machine
  entered m = exec_all w enter m

  pub entered-lem :
      (m : Machine)
      → 159 ≤ m.rsp
      → m.rsp < 2 ^ 64
      → ((entered m).rsp % 16 ≡ 0)
        × ((entered m).rsp < m.rsp)
        × ((entered m).cell (entered m).rsp ≡ m.rsp)
        × ((a : ℕ) → m.rsp ≤ a → (entered m).cell a ≡ m.cell a)
  unfolding exec_all exec set text_eq
  entered-lem m room bound =
      let start : lower m.rsp 128 ≡ m.rsp - 128 = lower-le m.rsp 128 (omega arith) bound in
      let aligned = m.rsp - 128 - (m.rsp - 128) % 16 in
      let first : lower aligned 8 ≡ aligned - 8 = lower-le aligned 8 (omega arith) (omega arith) in
      let second : lower (aligned - 8) 8 ≡ aligned - 16 =
        lower-le (aligned - 8) 8 (omega arith) (omega arith) ∙ omega arith in
      let top : (entered m).rsp ≡ aligned - 16 = rw (start, first, second) refl in
      let below = store (lower (lower m.rsp 128 - lower m.rsp 128 % 16) 8) m.rsp m.cell in
      (
        rw top (omega arith),
        rw top (omega arith),
        store-eq (entered m).rsp m.rsp below,
        λ a h.
            store-ne a (entered m).rsp m.rsp below (rw top (omega arith))
            ∙ store-ne a (lower (lower m.rsp 128 - lower m.rsp 128 % 16) 8) m.rsp m.cell
                (rw (start, first) (omega arith)),
      )

  -- Code between the two that leaves the stack pointer and what is at it and above.
  abbrev pub KeepsAligned : List Instruction → Type 0
  KeepsAligned is =
      (m : Machine)
      → m.rsp % 16 ≡ 0
      → ((exec_all w is m).rsp ≡ m.rsp)
        × ((a : ℕ) → m.rsp ≤ a → (exec_all w is m).cell a ≡ m.cell a)

  -- The stack is as before, and but for rcx all else is as the code in between leaves it.
  abbrev pub CallsAs : Machine → Machine → Machine → Type 0
  CallsAs m between after =
      (after.rsp ≡ m.rsp)
      × ((a : ℕ) → m.rsp ≤ a → after.cell a ≡ m.cell a)
      × (value (codes "rax") after ≡ value (codes "rax") between)
      × (after.registers.backup ≡ between.registers.backup)
      × (after.return_address ≡ between.return_address)
      × (after.first_pass ≡ between.first_pass)
      × (after.cycle_cnt ≡ between.cycle_cnt)

  pub enter-CallsAs :
      (is : List Instruction) (m : Machine)
      → KeepsAligned is
      → 159 ≤ m.rsp
      → m.rsp < 2 ^ 64
      → CallsAs m (exec_all w is (entered m)) (exec_all w leave (exec_all w is (entered m)))
  unfolding exec_all exec set text_eq
  enter-CallsAs is m keeps room bound =
      let (aligned, below, old, above) = entered-lem m room bound in
      let (stack, cells) = keeps (entered m) aligned in
      let between = exec_all w is (entered m) in
      (
        ap between.cell stack ∙ cells (entered m).rsp (omega arith) ∙ old,
        λ a h. cells a (omega arith) ∙ above a h,
        refl,
        refl,
        refl,
        refl,
        refl,
      )
