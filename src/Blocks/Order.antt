-- ===== src/Blocks/Order.antt =====
-- `get_basic_blocks` does not depend on the order in which the sets of a function's blocks are
-- listed.
use pe_ar_honours.Prelude.{◌≡◌, refl, ◌∙◌, ap, Bool, List, [], foldl, arith, any}
use mathlib.Core.List.{Permᴰ}
use mathlib.Core.Path.{fun_ext}
use pe_ar_honours.Gtirb.{Gtirb}
use pe_ar_honours.Sorting.{sorted}
use pe_ar_honours.Sorting.Distinct.{Distinct, sorted_canonical}
use pe_ar_honours.Blocks.{is_detached, place, get_basic_blocks}

any-perm : {A : Type 0} (p : A → Bool) {xs ys : List A} → Permᴰ xs ys → any p xs ≡ any p ys
any-perm p Permᴰ.nil = refl
any-perm p (Permᴰ.cons {a} {b} e h) = ground (arith, any-perm p h, ap p e)
any-perm p (Permᴰ.swap {a} {b} {a'} {b'} e h) = ground (arith, ap p e, ap p h)
any-perm p (Permᴰ.trans h k) = any-perm p h ∙ any-perm p k

module _ (G : Gtirb) (f g : G.Function) where
  open G use {Block, address, get_all_blocks, get_entry_blocks}

  is_detached-perm :
      Permᴰ (get_entry_blocks f) (get_entry_blocks g)
      → (b : Block) → is_detached G f b ≡ is_detached G g b
  unfolding is_detached
  is_detached-perm h b = rw (any-perm (G.same b) h)

  place-perm :
      Permᴰ (get_entry_blocks f) (get_entry_blocks g)
      → (gs : List (List Block)) (b : Block) → place G f gs b ≡ place G g gs b
  unfolding place
  place-perm h gs b = rw (is_detached-perm h b)

  -- Two functions with the same blocks, at distinct addresses, and the same entry blocks are
  -- grouped alike, in whatever order either lists them.
  pub get_basic_blocks_canonical :
      Permᴰ (get_all_blocks f) (get_all_blocks g)
      → Permᴰ (get_entry_blocks f) (get_entry_blocks g)
      → Distinct address (get_all_blocks f)
      → get_basic_blocks G f ≡ get_basic_blocks G g
  unfolding get_basic_blocks
  get_basic_blocks_canonical p q d = rw (sorted_canonical address p d) (
      ap (λ step. foldl step [] (sorted address (get_all_blocks g)))
        (fun_ext λ gs. fun_ext λ b. place-perm q gs b))
