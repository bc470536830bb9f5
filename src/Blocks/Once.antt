-- ===== src/Blocks/Once.antt =====
-- `get_basic_blocks` puts no block into two groups, and the order in which a function's blocks are
-- listed does not matter.
use pe_ar_honours.Prelude.{
  ℕ, ◌≡◌, ◌≤◌, ◌+◌, refl, inl, inr, true, List, [], ◌∷◌, ◌++◌, foldl, arith, if◌then◌else◌,
  Option-cases, Bool-cases, ◌==◌, leb,
}
use pe_ar_honours.Gtirb.{Gtirb}
use pe_ar_honours.Sorting.{sorted, insert}
use pe_ar_honours.Blocks.{is_detached, continues, has_address, append_to, place, get_basic_blocks}

module _ (G : Gtirb) where
  open G use {Block, Function, address}

  -- How often the address occurs in a list of blocks, and in a list of groups.
  abbrev pub occurrences : ℕ → List Block → ℕ
  occurrences a [] = 0
  occurrences a (b ∷ bs) = (if address b == a then 1 else 0) + occurrences a bs

  abbrev pub grouped : ℕ → List (List Block) → ℕ
  grouped a [] = 0
  grouped a (g ∷ gs) = occurrences a g + grouped a gs

  occurrences-append :
      (a : ℕ) (g h : List Block) → occurrences a (g ++ h) ≡ occurrences a g + occurrences a h
  occurrences-append a [] h = omega arith
  occurrences-append a (b ∷ g) h = omega (arith, occurrences-append a g h)

  grouped-append :
      (a : ℕ) (gs hs : List (List Block)) → grouped a (gs ++ hs) ≡ grouped a gs + grouped a hs
  grouped-append a [] hs = omega arith
  grouped-append a (g ∷ gs) hs = omega (arith, grouped-append a gs hs)

  has_address-pos : (a : ℕ) (g : List Block) → has_address G a g ≡ true → 1 ≤ occurrences a g
  unfolding has_address
  has_address-pos a [] h = cc
  has_address-pos a (b ∷ g) h = ground (arith, has_address-pos a g)

  -- The block is added at most once for each block that has the parent's address.
  grouped-append_to :
      (x a : ℕ) (b : Block) (gs : List (List Block))
      → grouped x (append_to G a b gs) ≤ grouped x gs + (if address b == x then grouped a gs else 0)
  unfolding append_to
  grouped-append_to x a b [] = ground arith
  grouped-append_to x a b (g ∷ gs) =
      ground
        (arith, grouped-append_to x a b gs, has_address-pos a g, occurrences-append x g (b ∷ []))

  grouped-place :
      (f : Function) (gs : List (List Block)) (b : Block) (x : ℕ)
      → ((a : ℕ) → grouped a gs ≤ 1)
      → grouped x (place G f gs b) ≤ grouped x gs + (if address b == x then 1 else 0)
  unfolding place
  grouped-place f gs b x h = elim (Bool-cases (is_detached G f b)) [
    | inl d ↦ rw d (omega arith)
    | inr k ↦ rw k (elim (Option-cases (continues G b)) [
      | inl e ↦ rw e (omega (arith, grouped-append x gs ((b ∷ []) ∷ [])))
      | inr (p, e) ↦ rw e (ground (arith, grouped-append_to x (address p) b gs, h (address p)))
    ])
  ]

  foldl-grouped :
      (f : Function) (bs : List Block) (gs : List (List Block))
      → ((a : ℕ) → grouped a gs + occurrences a bs ≤ 1)
      → (x : ℕ) → grouped x (foldl (place G f) gs bs) ≤ 1
  foldl-grouped f [] gs h x = omega (arith, h x)
  foldl-grouped f (b ∷ bs) gs h x =
      foldl-grouped f bs (place G f gs b)
        (λ a. omega (arith, h a, grouped-place f gs b a (λ c. omega (arith, h c)))) x

  occurrences-insert :
      (a : ℕ) (b : Block) (bs : List Block)
      → occurrences a (insert address b bs) ≡ occurrences a (b ∷ bs)
  unfolding insert
  occurrences-insert a b [] = refl
  occurrences-insert a b (c ∷ bs) = elim (Bool-cases (leb (address b) (address c))) [
    | inl le ↦ rw le refl
    | inr gt ↦ rw gt (omega (arith, occurrences-insert a b bs))
  ]

  occurrences-sorted :
      (a : ℕ) (bs : List Block) → occurrences a (sorted address bs) ≡ occurrences a bs
  unfolding sorted
  occurrences-sorted a [] = refl
  occurrences-sorted a (b ∷ bs) =
      omega (arith, occurrences-insert a b (sorted address bs), occurrences-sorted a bs)

  -- In a function whose blocks have distinct addresses, each address is grouped at most once.
  pub get_basic_blocks-le-one :
      (f : Function)
      → ((a : ℕ) → occurrences a (G.get_all_blocks f) ≤ 1)
      → (a : ℕ) → grouped a (get_basic_blocks G f) ≤ 1
  unfolding get_basic_blocks
  get_basic_blocks-le-one f h a =
      foldl-grouped f (sorted address (G.get_all_blocks f)) []
        (λ c. omega (arith, h c, occurrences-sorted c (G.get_all_blocks f))) a
