-- ===== src/Blocks.antt =====
-- `AddAFLPass.get_basic_blocks` of add_afl.py: the blocks of a function, grouped so that a call
-- does not end a group.
pub mod Edges
pub mod Leaders
pub mod Chains
pub mod Once
pub mod Order
use pe_ar_honours.Prelude.{
  ℕ, Bool, true, false, not, ◌&&◌, ◌||◌, Option, none, some, List, [], ◌∷◌, ◌++◌, map, foldl, ◌==◌,
  if◌then◌else◌, any,
}
use pe_ar_honours.Gtirb.{Gtirb, EdgeType, is_branch, is_call, is_fallthrough}
use pe_ar_honours.Sorting.{sorted}

-- `set(types) == set([Call, Fallthrough])`
pub is_call_and_fallthrough : List EdgeType → Bool
is_call_and_fallthrough ts =
    any is_call ts
    && any is_fallthrough ts
    && not (any (λ t. not (is_call t || is_fallthrough t)) ts)

is_empty {ℓ} : {A : Type ℓ} → List A → Bool
is_empty [] = true
is_empty (x ∷ xs) = false

module _ (G : Gtirb) where
  open G use {Block, Edge, Function, address, edge_type, same, incoming_edges, outgoing_edges}

  -- No edges, and no entry of the function.
  pub is_detached : Function → Block → Bool
  unfolding is_empty
  is_detached f b =
      is_empty (incoming_edges b)
      && is_empty (outgoing_edges b)
      && not (any (same b) (G.get_entry_blocks f))

  pub incoming_types : Block → List EdgeType
  incoming_types b = map edge_type (incoming_edges b)

  pub outgoing_types : Block → List EdgeType
  outgoing_types b = map edge_type (outgoing_edges b)

  -- `Fallthrough in types and not Branch in types`
  pub only_falls_through : Block → Bool
  unfolding incoming_types
  only_falls_through b =
      any is_fallthrough (incoming_types b) && not (any is_branch (incoming_types b))

  -- A fallthrough edge whose source block ends with a call.
  pub falls_from_call : Edge → Bool
  unfolding outgoing_types is_call_and_fallthrough
  falls_from_call e =
      is_fallthrough (edge_type e) && is_call_and_fallthrough (outgoing_types (G.source e))

  -- The loop over `incoming`: the source of the first edge for which `skip` is set.
  pub call_source : List Edge → Option Block
  unfolding falls_from_call
  call_source [] = none
  call_source (e ∷ es) =
      let rest = call_source es in if falls_from_call e then some (G.source e) else rest

  -- The source behind which the block is grouped, if it starts no group.
  unfoldable pub continues : Block → Option Block
  unfolding only_falls_through call_source
  continues b = if only_falls_through b then call_source (incoming_edges b) else none

  pub has_address : ℕ → List Block → Bool
  has_address a [] = false
  has_address a (b ∷ bs) = address b == a || has_address a bs

  -- The search for the parent: the block goes to the end of each list that holds the address.
  pub append_to : ℕ → Block → List (List Block) → List (List Block)
  unfolding has_address
  append_to a block [] = []
  append_to a block (blocklist ∷ blocks) =
      (if has_address a blocklist then blocklist ++ block ∷ [] else blocklist)
      ∷ append_to a block blocks

  -- One round of the loop over the sorted blocks.
  pub place : Function → List (List Block) → Block → List (List Block)
  unfolding is_detached continues append_to
  place f blocks block = if is_detached f block then blocks else elim (continues block) [
    | some parent ↦ append_to (address parent) block blocks
    | none ↦ blocks ++ (block ∷ []) ∷ []
  ]

  unfoldable pub get_basic_blocks : Function → List (List Block)
  unfolding place sorted
  get_basic_blocks f = foldl (place f) [] (sorted address (G.get_all_blocks f))
