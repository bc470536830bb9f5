-- ===== src/ForkServer/Turns.antt =====
-- One request to the fork server, up to the next, and its start.
use pe_ar_honours.Prelude.{
  ℕ, ◌==◌, ◌≡◌, arith, Bool, true, false, some, List, [], ◌∷◌, if◌then◌else◌, Bool-cases, inl, inr,
}
use pe_ar_honours.ForkServer.{
  Config, start_forkserver, after_options, waits, fork_child, continue_child, answer, is_stopped,
  loop_head, after_request, after_reap, after_fork,
}
use pe_ar_honours.ForkServer.System.{
  absent, stopped, System, begin, move, serve_at, respond, serve, stop_child, kill_child, waited,
  reaped, resumed, forgotten, extra, is_alive,
}
use pe_ar_honours.ForkServer.Protocol.{Traffic, request, pid, status, play, said, passes}
use pe_ar_honours.ForkServer.Session.{turn, opening, opened}

-- Where the server has read a request and no child is left, and where the last one has stopped.
abbrev pub fresh : ℕ → ℕ → ℕ → System
fresh old w st = record {
  point = waits fork_child (record {
    child_pid = old;
    child_stopped = false;
    already_read_first = false;
    was_killed = w;
    status = st;
  });
  child = absent;
  lost = 0;
}

abbrev pub held : ℕ → System
held p = record {
  point = waits continue_child (record {
    child_pid = p;
    child_stopped = true;
    already_read_first = false;
    was_killed = 0;
    status = 0x137f;
  });
  child = stopped p 0x137f;
  lost = 0;
}

abbrev pub after : ℕ → Bool → System
after p goes_on = if goes_on then held p else fresh p 0 0

abbrev pub told : ℕ → Bool → List Traffic
told p goes_on = pid p ∷ status (if goes_on then 0x137f else 0) ∷ request 0 ∷ []

module _ (c : Config) (p : ℕ) (positive : (p == 0) ≡ false) (same : (p == p) ≡ true)
    (persistent : c.is_persistent ≡ true) where
  pub turn-play :
      (old w st : ℕ) (goes_on : Bool)
      → play c (turn false p goes_on) (fresh old w st) ≡ some (after p goes_on, told p goes_on)
  unfolding play turn move serve_at serve respond answer is_stopped said passes stop_child
      kill_child waited reaped resumed forgotten extra is_alive loop_head after_request after_reap
      after_fork
  turn-play old w st goes_on = ground arith

  pub turn-held :
      (new : ℕ) (goes_on : Bool)
      → play c (turn true new goes_on) (held p) ≡ some (after p goes_on, told p goes_on)
  unfolding play turn move serve_at serve respond answer is_stopped said passes stop_child
      kill_child waited reaped resumed forgotten extra is_alive loop_head after_request after_reap
      after_fork
  turn-held new goes_on = ground arith

pub opening-play :
    (c : Config) (w : ℕ)
    → c.is_persistent ≡ true
    → (killed : ℕ) × (play c (opening c w) (begin false) ≡ some (fresh 0 killed 0, opened c w))
unfolding opening play begin start_forkserver move serve_at serve respond answer said passes
    forgotten is_alive loop_head after_options after_request after_reap
opening-play c w persistent = elim (Bool-cases c.sharedmem_fuzzing) [
  | inl shared ↦ elim (Bool-cases (c.accepts_sharedmem w)) [
    | inl accepted ↦ (w, ground arith)
    | inr refused ↦ (w, ground arith)
  ]
  | inr plain ↦ (0, ground arith)
]
