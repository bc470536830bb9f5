-- ===== src/Gtirb/Example.antt =====
-- A small binary for the tests: `_start`, and `main`, whose first block calls a function and falls
-- into a second one; a third one is reached by a branch, and a fourth has no edges.
use pe_ar_honours.Prelude.{ℕ, ◌+◌, List, [], ◌∷◌, ◌==◌, ==_iff, if◌then◌else◌}
use pe_ar_honours.Text.{Text, codes}
use pe_ar_honours.Gtirb.{Gtirb, EdgeType, branch, call, fallthrough}

-- A block is given by its address.
pub record Flow : Type 0 where
  pub source : ℕ
  pub target : ℕ
  pub kind : EdgeType

pub record Code : Type 0 where
  pub name : Text
  pub blocks : List ℕ
  pub entries : List ℕ

abbrev flows : List Flow
flows =
    record { source = 100; target = 7; kind = call }
    ∷ record { source = 100; target = 104; kind = fallthrough }
    ∷ record { source = 104; target = 110; kind = branch }
    ∷ record { source = 90; target = 100; kind = branch }
    ∷ []

abbrev edges_at : (Flow → ℕ) → ℕ → List Flow → List Flow
edges_at end b [] = []
edges_at end b (e ∷ es) = let rest = edges_at end b es in if end e == b then e ∷ rest else rest

abbrev pub example : Gtirb
example = record {
  Block = ℕ;
  Edge = Flow;
  Function = Code;
  address = λ b. b;
  uuid = λ b. b + 1000;
  incoming_edges = λ b. edges_at (λ e. e.target) b flows;
  outgoing_edges = λ b. edges_at (λ e. e.source) b flows;
  edge_type = λ e. e.kind;
  source = λ e. e.source;
  same = ◌==◌;
  same_iff = ==_iff;
  get_name = λ f. f.name;
  get_all_blocks = λ f. f.blocks;
  get_entry_blocks = λ f. f.entries;
}

abbrev pub start_code : Code
start_code = record { name = codes "_start"; blocks = 90 ∷ []; entries = 90 ∷ [] }

abbrev pub main_code : Code
main_code = record { name = codes "main"; blocks = 110 ∷ 100 ∷ 104 ∷ 120 ∷ []; entries = 100 ∷ [] }

-- The same function, listed in another order.
abbrev pub main_reordered : Code
main_reordered = record {
  name = codes "main";
  blocks = 100 ∷ 110 ∷ 104 ∷ 120 ∷ [];
  entries = 100 ∷ [];
}
