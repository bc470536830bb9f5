-- ===== src/Tests/Grouping.antt =====
-- Tests of `get_basic_blocks` on the example.
use pe_ar_honours.Prelude.{
  ℕ, ◌≤◌, ◌≡◌, refl, some, [], ◌∷◌, map, ◌↔◌, ◌⊎◌, List, length, true, false, arith, keep, All,
}
use pe_ar_honours.Gtirb.Example.{example, main_code, main_reordered}
use pe_ar_honours.Sorting.{sorted}
use pe_ar_honours.Blocks.{get_basic_blocks, place, is_detached}
use pe_ar_honours.Blocks.Leaders.{first, starts_group, first-get_basic_blocks}
use pe_ar_honours.Blocks.Edges.{ContinuesCall, place-length}
use pe_ar_honours.Blocks.Chains.{IsChain, get_basic_blocks-IsChain}
use pe_ar_honours.Blocks.Once.{occurrences, grouped, get_basic_blocks-le-one}
use pe_ar_honours.Blocks.Order.{get_basic_blocks_canonical}
use mathlib.Core.List.{Permᴰ}

get_basic_blocks_run : get_basic_blocks example main_code ≡ (100 ∷ 104 ∷ []) ∷ (110 ∷ []) ∷ []
unfolding get_basic_blocks
get_basic_blocks_run = refl

first-get_basic_blocks_example :
    map first (get_basic_blocks example main_code)
    ≡ map some (keep (starts_group example main_code) (sorted (λ b. b) main_code.blocks))
first-get_basic_blocks_example = first-get_basic_blocks example main_code

abbrev one_group : List (List ℕ)
one_group = (100 ∷ []) ∷ []

place-length_example :
    ((length (place example main_code one_group 104) ≡ 1)
      ↔ ((is_detached example main_code 104 ≡ true) ⊎ ContinuesCall example 104))
    × ((length (place example main_code one_group 104) ≡ 2)
        ↔ ((is_detached example main_code 104 ≡ false) × (¬ (ContinuesCall example 104))))
place-length_example = place-length example main_code one_group 104

get_basic_blocks-IsChain_example : All (IsChain example) (get_basic_blocks example main_code)
get_basic_blocks-IsChain_example = get_basic_blocks-IsChain example main_code

main_distinct : (a : ℕ) → occurrences example a main_code.blocks ≤ 1
main_distinct a = ground arith

get_basic_blocks-le-one_example : grouped example 104 (get_basic_blocks example main_code) ≤ 1
get_basic_blocks-le-one_example = get_basic_blocks-le-one example main_code main_distinct 104

get_basic_blocks_canonical_example :
    get_basic_blocks example main_code ≡ get_basic_blocks example main_reordered
get_basic_blocks_canonical_example =
    get_basic_blocks_canonical example main_code main_reordered (Permᴰ.swap refl refl)
      (Permᴰ.cons refl Permᴰ.nil) (ground arith)
