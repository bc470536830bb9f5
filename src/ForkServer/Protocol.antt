-- ===== src/ForkServer/Protocol.antt =====
-- What passes over the pipes between the fork server and afl-fuzz.
use pe_ar_honours.Prelude.{ℕ, Option, none, some, List, [], ◌∷◌, ◌++◌}
use pe_ar_honours.ForkServer.{
  Config, Server, SystemCall, write_hello, read_options, map_fuzz, read_request, write_pid,
  write_status, Point, waits,
}
use pe_ar_honours.ForkServer.System.{System, Choice, fail, give, Move, serves, move}

-- The word of the greeting and that of an error are left open.
pub data Traffic : Type 0 where
  greeting error : Traffic
  options request pid status : ℕ → Traffic

-- What a call of the server that does not fail puts on a pipe or takes from it. When the shared memory
-- cannot be mapped, the failure is reported.
unfoldable pub passes : Choice → SystemCall → Server → List Traffic
passes fail map_fuzz s = error ∷ []
passes fail call s = []
passes (give n) write_hello s = greeting ∷ []
passes (give w) read_options s = options w ∷ []
passes (give w) read_request s = request w ∷ []
passes (give n) write_pid s = pid s.child_pid ∷ []
passes (give n) write_status s = status s.status ∷ []
passes _ _ s = []

unfoldable pub said : Move → Point → List Traffic
unfolding passes
said (serves choice) (waits call s) = passes choice call s
said _ _ = []

abbrev pub prepend : List Traffic → Option (System × List Traffic) → Option (System × List Traffic)
prepend log none = none
prepend log (some (t, later)) = some (t, log ++ later)

-- A run of the system, if its moves are possible, with what has passed.
unfoldable pub play : Config → List Move → System → Option (System × List Traffic)
unfolding move said
play c [] t = some (t, [])
play c (m ∷ ms) t = elim (move c m t) [
  | none ↦ none
  | some u ↦ prepend (said m t.point) (play c ms u)
]
