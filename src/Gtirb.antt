-- ===== src/Gtirb.antt =====
-- What add_afl.py reads of the third-party packages gtirb and gtirb_functions: code blocks with
-- their addresses, identities and control-flow edges, functions with their blocks, and a module's
-- entry point. None of this is code of the repository, so it is a parameter of the models.
pub mod Example
use pe_ar_honours.Prelude.{ℕ, ◌≡◌, Bool, true, false, List, ◌↔◌}
use pe_ar_honours.Text.{Text}

-- The kinds of edge that add_afl.py tells apart: `gtirb.Edge.Type.Branch`, `Call` and
-- `Fallthrough`; `other` is any kind that it does not name.
pub data EdgeType : Type 0 where
  branch call fallthrough other : EdgeType

abbrev pub is_branch : EdgeType → Bool
is_branch branch = true
is_branch _ = false

abbrev pub is_call : EdgeType → Bool
is_call call = true
is_call _ = false

abbrev pub is_fallthrough : EdgeType → Bool
is_fallthrough fallthrough = true
is_fallthrough _ = false

pub record Gtirb : Type 1 where
  pub Block : Type 0
  pub Edge : Type 0
  pub Function : Type 0
  pub address : Block → ℕ
  pub uuid : Block → ℕ
  pub incoming_edges : Block → List Edge
  pub outgoing_edges : Block → List Edge
  pub edge_type : Edge → EdgeType
  pub source : Edge → Block
  -- `==` of two blocks, by which Python's `in` looks a block up.
  pub same : Block → Block → Bool
  pub same_iff : (a b : Block) → (same a b ≡ true) ↔ (a ≡ b)
  pub get_name : Function → Text
  pub get_all_blocks : Function → List Block
  pub get_entry_blocks : Function → List Block
