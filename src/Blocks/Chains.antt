-- ===== src/Blocks/Chains.antt =====
-- The shape of the groups of `get_basic_blocks`.
use pe_ar_honours.Prelude.{
  ℕ, ◌≡◌, refl, ◌↔◌, inl, inr, true, some, List, [], ◌∷◌, ◌++◌, foldl, arith, All, Any,
  Option-cases, Bool-cases,
}
use pe_ar_honours.Gtirb.{Gtirb}
use pe_ar_honours.Sorting.{sorted}
use pe_ar_honours.Blocks.{is_detached, continues, has_address, append_to, place, get_basic_blocks}
use pe_ar_honours.Blocks.Edges.{ContinuesCall, FallsFrom, continues_iff, continues-some}

module _ (G : Gtirb) where
  open G use {Block, Function, address}

  -- A block that continues no call, with blocks behind it that each continue a call and fall out of
  -- a block at the address of one that stands before them.
  pub data IsChain : List Block → Type 0 where
    start : (b : Block) → ¬ ContinuesCall G b → IsChain (b ∷ [])
    extend :
        {g h : List Block} (b p : Block)
        → IsChain g
        → ContinuesCall G b
        → FallsFrom G b p
        → Any (λ q. address q ≡ address p) g
        → h ≡ g ++ b ∷ []
        → IsChain h

  has_address_iff :
      (a : ℕ) (g : List Block) → (has_address G a g ≡ true) ↔ Any (λ q. address q ≡ a) g
  unfolding has_address
  has_address_iff a [] = ground arith
  has_address_iff a (b ∷ g) = ground (arith, has_address_iff a g)

  extend-IsChain :
      (b p : Block) (g : List Block)
      → continues G b ≡ some p
      → has_address G (address p) g ≡ true
      → IsChain g
      → IsChain (g ++ b ∷ [])
  extend-IsChain b p g e h c =
      IsChain.extend b p c ((continues_iff G b).0 (λ n. cc)) (continues-some G b p e)
        ((has_address_iff (address p) g).0 h) refl

  append_to-IsChain :
      (b p : Block) (gs : List (List Block))
      → continues G b ≡ some p
      → All IsChain gs
      → All IsChain (append_to G (address p) b gs)
  unfolding append_to
  append_to-IsChain b p [] e a = tt
  append_to-IsChain b p (g ∷ gs) e a = elim (Bool-cases (has_address G (address p) g)) [
    | inl h ↦ rw h (extend-IsChain b p g e h a.0, append_to-IsChain b p gs e a.1)
    | inr h ↦ rw h (a.0, append_to-IsChain b p gs e a.1)
  ]

  append-All :
      (gs : List (List Block)) (g : List Block)
      → All IsChain gs
      → IsChain g
      → All IsChain (gs ++ g ∷ [])
  append-All [] g a c = (c, tt)
  append-All (h ∷ gs) g a c = (a.0, append-All gs g a.1 c)

  place-IsChain :
      (f : Function) (gs : List (List Block)) (b : Block)
      → All IsChain gs
      → All IsChain (place G f gs b)
  unfolding place
  place-IsChain f gs b a = elim (Bool-cases (is_detached G f b)) [
    | inl d ↦ rw d a
    | inr k ↦ rw k (elim (Option-cases (continues G b)) [
      | inl e ↦ rw e (append-All gs _ a (IsChain.start b (λ c. (continues_iff G b).1 c e)))
      | inr (p, e) ↦ rw e (append_to-IsChain b p gs e a)
    ])
  ]

  foldl-IsChain :
      (f : Function) (bs : List Block) (gs : List (List Block))
      → All IsChain gs
      → All IsChain (foldl (place G f) gs bs)
  foldl-IsChain f [] gs a = a
  foldl-IsChain f (b ∷ bs) gs a = foldl-IsChain f bs _ (place-IsChain f gs b a)

  -- Every group is such a chain.
  pub get_basic_blocks-IsChain : (f : Function) → All IsChain (get_basic_blocks G f)
  unfolding get_basic_blocks
  get_basic_blocks-IsChain f = foldl-IsChain f (sorted address (G.get_all_blocks f)) [] tt
