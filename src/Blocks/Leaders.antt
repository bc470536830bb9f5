-- ===== src/Blocks/Leaders.antt =====
-- Which blocks of `get_basic_blocks` start a group.
use pe_ar_honours.Prelude.{
  ℕ, ◌≡◌, refl, ◌∙◌, sym, inl, inr, Bool, true, false, not, ◌&&◌, Option, none, some, List, [], ◌∷◌,
  ◌++◌, map, foldl, arith, keep, Option-cases, Bool-cases,
}
use pe_ar_honours.Gtirb.{Gtirb}
use pe_ar_honours.Sorting.{sorted}
use pe_ar_honours.Blocks.{is_detached, continues, append_to, place, get_basic_blocks}
use mathlib.Core.List.{append_assoc, append-nil, map-append}

abbrev pub first {ℓ} : {A : Type ℓ} → List A → Option A
first [] = none
first (x ∷ xs) = some x

abbrev is_none {ℓ} : {A : Type ℓ} → Option A → Bool
is_none none = true
is_none (some a) = false

module _ (G : Gtirb) where
  open G use {Block, Edge, Function, address, edge_type, incoming_edges}

  -- The block is kept and is not grouped behind another one.
  pub starts_group : Function → Block → Bool
  starts_group f b = not (is_detached G f b) && is_none (continues G b)

  first-append_to :
      (a : ℕ) (b : Block) (gs : List (List Block)) → map first (append_to G a b gs) ≡ map first gs
  unfolding append_to
  first-append_to a b [] = refl
  first-append_to a b ([] ∷ gs) = ground (arith, first-append_to a b gs)
  first-append_to a b ((c ∷ g) ∷ gs) = ground (arith, first-append_to a b gs)

  first-place :
      (f : Function) (gs : List (List Block)) (b : Block)
      → map first (place G f gs b) ≡ map first gs ++ map some (keep (starts_group f) (b ∷ []))
  unfolding place starts_group
  first-place f gs b = elim (Bool-cases (is_detached G f b)) [
    | inl d ↦ rw d (sym (append-nil _))
    | inr k ↦ rw k (elim (Option-cases (continues G b)) [
      | inl e ↦ rw e (map-append first gs _)
      | inr (p, e) ↦ rw e (first-append_to (address p) b gs ∙ sym (append-nil _))
    ])
  ]

  first-foldl :
      (f : Function) (bs : List Block) (gs : List (List Block))
      → map first (foldl (place G f) gs bs) ≡ map first gs ++ map some (keep (starts_group f) bs)
  first-foldl f [] gs = sym (append-nil _)
  first-foldl f (b ∷ bs) gs =
      first-foldl f bs (place G f gs b)
      ∙ rw first-place (elim (Bool-cases (starts_group f b)) [
        | inl e ↦ rw (e, append_assoc)
        | inr e ↦ rw (e, append-nil)
      ])

  -- The groups are started by exactly the blocks that are kept and continue no call, in the order
  -- of their addresses, and no group is empty.
  pub first-get_basic_blocks :
      (f : Function)
      → map first (get_basic_blocks G f)
        ≡ map some (keep (starts_group f) (sorted address (G.get_all_blocks f)))
  unfolding get_basic_blocks
  first-get_basic_blocks f = first-foldl f _ []
