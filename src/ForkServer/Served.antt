-- ===== src/ForkServer/Served.antt =====
-- All requests to the fork server.
use pe_ar_honours.Prelude.{
  ℕ, zero, suc, ◌+◌, ◌-◌, ◌*◌, ◌/◌, ◌%◌, ◌^◌, ◌==◌, ◌<◌, ◌≡◌, refl, arith, true, false, not, some,
  ◌++◌, if◌then◌else◌, Bool-cases, inl, inr,
}
use pe_ar_honours.Persistent.{Round, afl_persistent_loop}
use pe_ar_honours.ForkServer.{Config}
use pe_ar_honours.ForkServer.Session.{
  Session, is_held, born, turn, after_turn, serve_turn, before, serve_turns, serve_all, exchanges,
  opened,
}
use pe_ar_honours.ForkServer.Turns.{fresh, held, after, told, turn-play, turn-held, opening-play}

pub div_at : (n q j : ℕ) → j < n → (q * n + j) / n ≡ q
div_at n q j h = grind arith

mod_at : (n q j : ℕ) → j < n → (q * n + j) % n ≡ j
mod_at n q j h = grind arith

-- The child has counted down.
pub left : (n j : ℕ) → j < n → n < 2 ^ 32 → (n - j + (2 ^ 32 - 1)) % 2 ^ 32 ≡ n - (j + 1)
left n j h bound = omega arith

counted :
    (n j k : ℕ)
    → j < n
    → n < 2 ^ 32
    → k ≡ n - j
    → let next = afl_persistent_loop n 0 k in
      (next.first_pass ≡ 0)
      × (next.cycle_cnt ≡ n - (j + 1))
      × (not (next.result == 0) ≡ not (j + 1 == n))
unfolding afl_persistent_loop
counted n j k h bound e = (refl, rw e (left n j h bound), rw (e, left n j h bound) (ground arith))

-- The session before the request j of the child q.
abbrev IsAt : ℕ → (ℕ → ℕ) → ℕ → ℕ → Session → Type 0
IsAt n pids q zero t =
    (old : ℕ) × (w : ℕ) × (st : ℕ) × (round : Round) × (t
      ≡ record { system = fresh old w st; round = round; forks = q })
IsAt n pids q (suc j) t =
    (round : Round) × (t ≡ record { system = held (pids q); round = round; forks = q + 1 })
    × (round.first_pass ≡ 0)
    × (round.cycle_cnt ≡ n - suc j)

born_lem : (n : ℕ) → born n ≡ record { first_pass = 0; cycle_cnt = n; result = 1 }
unfolding born afl_persistent_loop
born_lem n = refl

pub not_zero : (p : ℕ) → 0 < p → (p == 0) ≡ false
not_zero p h = ground arith

pub same : (p : ℕ) → (p == p) ≡ true
same p = ground arith

pub plus_one : (j : ℕ) → j + 1 ≡ suc j
plus_one j = omega arith

-- The place of the next request: the number of children that have ended, and the requests of the
-- last.
abbrev pub children : ℕ → ℕ → ℕ → ℕ
children n q j = if j + 1 == n then q + 1 else q

abbrev pub requests : ℕ → ℕ → ℕ
requests n j = if j + 1 == n then 0 else j + 1

pub next-index :
    (n q j : ℕ) → j < n → (children n q j * n + requests n j ≡ q * n + j + 1) × (requests n j < n)
next-index n q j h = elim (Bool-cases (j + 1 == n)) [
  | inl last ↦ rw last (grind arith, omega arith)
  | inr more ↦ rw more (omega arith, ground arith)
]

-- The last request of a child, by the number of all requests.
pub wraps : (n q j : ℕ) → j < n → ((q * n + j + 1) % n == 0) ≡ (j + 1 == n)
wraps n q j h = elim (Bool-cases (j + 1 == n)) [
  | inl last ↦
      let index : q * n + j + 1 ≡ (q + 1) * n + 0 = grind arith in
      rw (last, index, mod_at n (q + 1) 0 (omega arith)) refl
  | inr more ↦
      let index : q * n + j + 1 ≡ q * n + (j + 1) = omega arith in
      let room : j + 1 < n = ground arith in
      rw (more, index, mod_at n q (j + 1) room) (ground arith)
]

module _ (c : Config) (n : ℕ) (pids : ℕ → ℕ) (bound : n < 2 ^ 32)
    (persistent : c.is_persistent ≡ true) (positive : (i : ℕ) → 0 < pids i) where
  after-IsAt :
      (q j : ℕ) (round : Round)
      → j < n
      → round.first_pass ≡ 0
      → round.cycle_cnt ≡ n - (j + 1)
      → IsAt n pids
          (children n q j)
          (requests n j)
          (record { system = after (pids q) (not (j + 1 == n)); round = round; forks = q + 1 })
  after-IsAt q j round h pass count = elim (Bool-cases (j + 1 == n)) [
    | inl last ↦ rw last (pids q, 0, 0, round, refl)
    | inr more ↦ rw (more, plus_one j) (round, refl, pass, rw⁻¹ (plus_one j) count)
  ]

  turn_first :
      (old w st q : ℕ) (round : Round)
      → 0 < n
      → serve_turn c n pids (record { system = fresh old w st; round = round; forks = q })
        ≡ some (
          record {
            system = after (pids q) (not (0 + 1 == n));
            round = afl_persistent_loop n 0 n;
            forks = q + 1;
          },
          told (pids q) (not (0 + 1 == n)),
        )
  unfolding serve_turn after_turn is_held
  turn_first old w st q round h =
      let (pass, count, more) = counted n 0 n h bound (omega arith) in
      rw
        (
          born_lem n,
          more,
          turn-play c (pids q) (not_zero (pids q) (positive q)) (same (pids q)) persistent,
        )
        refl

  turn_later :
      (q j : ℕ) (round : Round)
      → suc j < n
      → round.first_pass ≡ 0
      → round.cycle_cnt ≡ n - suc j
      → serve_turn c n pids (record { system = held (pids q); round = round; forks = q + 1 })
        ≡ some (
          record {
            system = after (pids q) (not (suc j + 1 == n));
            round = afl_persistent_loop n 0 round.cycle_cnt;
            forks = q + 1;
          },
          told (pids q) (not (suc j + 1 == n)),
        )
  unfolding serve_turn after_turn is_held
  turn_later q j round h pass count =
      let (next_pass, next_count, more) = counted n (suc j) round.cycle_cnt h bound count in
      rw
        (
          pass,
          more,
          turn-held c (pids q) (not_zero (pids q) (positive q)) (same (pids q)) persistent,
        )
        refl

  serve_turn-IsAt :
      (q j : ℕ) (t : Session)
      → j < n
      → IsAt n pids q j t
      → (u : Session) × (serve_turn c n pids t ≡ some (u, told (pids q) (not (j + 1 == n))))
        × IsAt n pids (children n q j) (requests n j) u
  serve_turn-IsAt q zero t h (old, w, st, round, here) =
      let (pass, count, more) = counted n 0 n h bound (omega arith) in
      rw here (_, turn_first old w st q round h, after-IsAt q 0 _ h pass count)
  serve_turn-IsAt q (suc j) t h (round, here, pass, count) =
      let (next_pass, next_count, more) = counted n (suc j) round.cycle_cnt h bound count in
      rw here (_, turn_later q j round h pass count, after-IsAt q (suc j) _ h next_pass next_count)

  serve_turns-exchanges :
      (r q j : ℕ) (t : Session)
      → j < n
      → IsAt n pids q j t
      → (u : Session) × (serve_turns c n pids r t ≡ some (u, exchanges n pids (q * n + j) r))
  unfolding serve_turns exchanges before
  serve_turns-exchanges zero q j t h at = (t, refl)
  serve_turns-exchanges (suc r) q j t h at =
      let (u, turn, then_at) = serve_turn-IsAt q j t h at in
      let (index, room) = next-index n q j h in
      let (v, rest) = serve_turns-exchanges r (children n q j) (requests n j) u room then_at in
      (v, rw (serve_turns, turn, rest, exchanges, index, div_at n q j h, wraps n q j h) refl)

-- In persistent mode, with a count n from 1 to 2 ^ 32 - 1, each of r requests is answered, if all calls
-- succeed and no child is killed: a child serves n of them, and is then waited for and replaced; the answer
-- to request i is the pid of child i / n and that it has stopped, or that it has ended if i + 1 is a
-- multiple of n.
pub serve_all-exchanges :
    (c : Config) (n : ℕ) (pids : ℕ → ℕ) (w r : ℕ)
    → c.is_persistent ≡ true
    → 0 < n
    → n < 2 ^ 32
    → ((i : ℕ) → 0 < pids i)
    → (u : Session) × (serve_all c n pids w r ≡ some (u, opened c w ++ exchanges n pids 0 r))
unfolding serve_all after_turn before
serve_all-exchanges c n pids w r persistent some_turn bound positive =
    let (killed, start) = opening-play c w persistent in
    let (u, served) =
      serve_turns-exchanges c n pids bound persistent positive r 0 0
        (record { system = fresh 0 killed 0; round = born n; forks = 0 }) some_turn
        (0, killed, 0, born n, refl) in
    let index : 0 * n + 0 ≡ 0 = omega arith in (u, rw (serve_all, start, served, index) refl)
