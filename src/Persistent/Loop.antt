-- ===== src/Persistent/Loop.antt =====
-- The function with its patch, from its call to its return.
use pe_ar_honours.Prelude.{
  ℕ, zero, suc, ◌==◌, Option, some, List, [], ◌∷◌, if◌then◌else◌, Outcome, ok, raise, out_of_fuel,
  ◌>>=◌,
}
use pe_ar_honours.Machine.{higher}
use pe_ar_honours.Persistent.{Machine, World, Label, setup_loop, Line, Stop, starts, returns, run}

-- The machines with which the function's own code has been started, and the address and the machine
-- with which it has returned.
pub record Ended : Type 0 where
  pub started : List Machine
  pub address : ℕ
  pub machine : Machine

-- `ret`
unfoldable pub return : Machine → Machine
return m = record m { rsp = higher m.rsp 8 }

abbrev pub started_with : Machine → Outcome Ended → Outcome Ended
started_with m rest = do e ← rest; ok (record e { started = m ∷ e.started })

-- A return to `.Lsetup_loop` runs the patch from there.
unfoldable pub after_run : World → (Machine → Outcome Ended) → Stop → Outcome Ended
unfolding return
after_run w again (returns m) =
    ok (record { started = []; address = m.cell m.rsp; machine = return m })
after_run w again (starts m) =
    let done = w.function_body m in
    let rest = started_with m (again (return done)) in
    if done.cell done.rsp == w.setup_address
    then rest
    else ok (record { started = m ∷ []; address = done.cell done.rsp; machine = return done })

unfoldable pub run_function : World → List Line → ℕ → Option Label → Machine → Outcome Ended
unfolding after_run run
run_function w lines zero from m = raise out_of_fuel
run_function w lines (suc fuel) from m =
    after_run w (run_function w lines fuel (some setup_loop)) (run w from lines m)
