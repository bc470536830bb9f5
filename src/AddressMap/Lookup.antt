-- ===== src/AddressMap/Lookup.antt =====
-- Where `insert_patch_at_address` puts a patch.
use pe_ar_honours.Prelude.{
  ℕ, suc, ◌+◌, ◌-◌, ◌^◌, ◌<◌, ◌≤◌, ◌≡◌, ◌≢◌, ◌⊎◌, refl, ◌∙◌, ap, false, true, Option, some, List,
  [], ◌∷◌, ◌++◌, map, arith, All, All-middle, Outcome-cases, ok, raise, index_error, ◌>>=◌, inl,
  inr, get_elem?, length,
}
use mathlib.Core.List.{map-append}
use pe_ar_honours.Number.Int.{ℤ, pos, leb_ℤ, ◌≤ℤ◌, ◌-ℤ◌}
use pe_ar_honours.Gtirb.{Gtirb}
use pe_ar_honours.Rewriting.{Patch, Call, insert_at}
use pe_ar_honours.Sorting.{sorted}
use pe_ar_honours.Sorting.Distinct.{Distinct, IsIncreasing, sorted-IsIncreasing}
use pe_ar_honours.AddressMap.{
  Mappings, first_above, last_item, item_before, find_block, create_address_map, load_mappings,
  insert_patch_at_address,
}
use pe_ar_honours.AddressMap.File.{mapping, load_mappings-create_address_map}

-- The key of the item is not above the address.
abbrev pub AtMost : ℤ → ℤ × ℕ → Type 0
AtMost a e = e.0 ≤ℤ a

pos_sub : (m n : ℕ) → n ≤ m → pos m -ℤ pos n ≡ pos (m - n)
unfolding ◌-ℤ◌
pos_sub m n h = ground arith

leb_ℤ-true : (k a : ℤ) → k ≤ℤ a → leb_ℤ k a ≡ true
leb_ℤ-true k a h = ground arith

leb_ℤ-false : (k a : ℤ) → ¬ (k ≤ℤ a) → leb_ℤ k a ≡ false
leb_ℤ-false k a h = ground arith

first_above-between :
    (a : ℤ) (pre : Mappings) (e n : ℤ × ℕ) (post : Mappings) (i : ℕ)
    → All (AtMost a) pre
    → AtMost a e
    → ¬ AtMost a n
    → first_above a (pre ++ (e ∷ n ∷ post)) i ≡ ok (suc (i + length pre))
unfolding first_above
first_above-between a [] (k, u) (k', u') post i h le gt =
    rw (leb_ℤ-true k a le) (rw (leb_ℤ-false k' a gt) (ap ok (omega arith)))
first_above-between a ((k, u) ∷ pre) e n post i h le gt =
    rw (leb_ℤ-true k a h.0)
      (first_above-between a pre e n post (i + 1) h.1 le gt ∙ ap ok (omega arith))

first_above-first :
    (a : ℤ) (e : ℤ × ℕ) (m : Mappings) → ¬ AtMost a e → first_above a (e ∷ m) 0 ≡ ok 0
unfolding first_above
first_above-first a (k, u) m gt = rw (leb_ℤ-false k a gt)

first_above-beyond :
    (a : ℤ) (m : Mappings) (i : ℕ) → All (AtMost a) m → first_above a m i ≡ raise index_error
unfolding first_above
first_above-beyond a [] i h = refl
first_above-beyond a ((k, u) ∷ m) i h = rw (leb_ℤ-true k a h.0) (first_above-beyond a m (i + 1) h.1)

get_elem?-append :
    (pre : Mappings) (e : ℤ × ℕ) (m : Mappings) → get_elem? (pre ++ (e ∷ m)) (length pre) ≡ some e
get_elem?-append [] e m = refl
get_elem?-append (_ ∷ pre) e m = get_elem?-append pre e m

last_item-concat : (pre : Mappings) (e : ℤ × ℕ) → last_item (pre ++ e ∷ []) ≡ ok e
unfolding last_item
last_item-concat [] e = refl
last_item-concat (x ∷ []) e = refl
last_item-concat (x ∷ y ∷ pre) e = last_item-concat (y ∷ pre) e

module _ (G : Gtirb) (patch : Patch) (blocks : List G.Block) (calls : List (Call G.Block))
    (a : ℤ) where
  -- The patch goes into the block of the item that is found.
  insert_patch_at_address-item :
      (m : Mappings) (i : ℕ) (e : ℤ × ℕ)
      → first_above a m 0 ≡ ok i
      → item_before m i ≡ ok e
      → insert_patch_at_address G m a patch blocks calls
        ≡ ok (calls ++ insert_at (find_block G e.1 blocks) (a -ℤ e.0) patch ∷ [])
  insert_patch_at_address-item m i e found at = unfold insert_patch_at_address in rw (found, at)

  -- With an item at or below the address and the next one above it, the patch goes into the block of
  -- the former, at the distance of the address from it.
  pub insert_patch_at_address-between :
      (pre : Mappings) (e n : ℤ × ℕ) (post : Mappings)
      → All (AtMost a) pre
      → AtMost a e
      → ¬ AtMost a n
      → insert_patch_at_address G (pre ++ (e ∷ n ∷ post)) a patch blocks calls
        ≡ ok (calls ++ insert_at (find_block G e.1 blocks) (a -ℤ e.0) patch ∷ [])
  unfolding item_before
  insert_patch_at_address-between pre e n post h le gt =
      insert_patch_at_address-item (pre ++ (e ∷ n ∷ post)) (suc (length pre)) e
        (first_above-between a pre e n post 0 h le gt ∙ ap ok (omega arith))
        (rw (get_elem?-append pre e (n ∷ post)))

  -- An address that no item lies above is an error, also where it lies within the last block.
  pub insert_patch_at_address-beyond :
      (m : Mappings)
      → All (AtMost a) m
      → insert_patch_at_address G m a patch blocks calls ≡ raise index_error
  unfolding insert_patch_at_address
  insert_patch_at_address-beyond m h = rw (first_above-beyond a m 0 h)

  -- An address below every item is taken for an offset into the block of the last item.
  pub insert_patch_at_address-below :
      (pre : Mappings) (e : ℤ × ℕ) (first : ℤ × ℕ) (rest : Mappings)
      → pre ++ e ∷ [] ≡ first ∷ rest
      → ¬ AtMost a first
      → insert_patch_at_address G (pre ++ e ∷ []) a patch blocks calls
        ≡ ok (calls ++ insert_at (find_block G e.1 blocks) (a -ℤ e.0) patch ∷ [])
  unfolding item_before
  insert_patch_at_address-below pre e first rest split gt =
      insert_patch_at_address-item (pre ++ e ∷ []) 0 e
        (rw split (first_above-first a first rest gt)) (last_item-concat pre e)

  -- Whatever is found, one call is added.
  pub insert_patch_at_address-eq-ok :
      (m : Mappings) {t : List (Call G.Block)}
      → insert_patch_at_address G m a patch blocks calls ≡ ok t
      → (b : Option G.Block) × (z : ℤ) × (t ≡ calls ++ insert_at b z patch ∷ [])
  unfolding insert_patch_at_address
  insert_patch_at_address-eq-ok m h = elim (Outcome-cases (first_above a m 0)) [
    | inr (failure, q) ↦ absurd (unfold insert_patch_at_address in ground arith)
    | inl (i, q) ↦ elim (Outcome-cases (item_before m i)) [
      | inr (failure, r) ↦ absurd (unfold insert_patch_at_address in ground arith)
      | inl (e, r) ↦ (find_block G e.1 blocks, a -ℤ e.0, ground arith)
    ]
  ]

module _ (G : Gtirb) where
  open G use {Block, address, uuid}

  -- The block is in the list, before any other block with its identity.
  abbrev pub IsFirst : Block → List Block → Type 0
  IsFirst b [] = ⊥
  IsFirst b (x ∷ xs) = (x ≡ b) ⊎ ((uuid b ≢ uuid x) × IsFirst b xs)

  find_block-IsFirst :
      (b : Block) (bs : List Block) → IsFirst b bs → find_block G (uuid b) bs ≡ some b
  unfolding find_block
  find_block-IsFirst b [] h = absurd h
  find_block-IsFirst b (x ∷ xs) (inl e) = ground arith
  find_block-IsFirst b (x ∷ xs) (inr h) = ground (arith, find_block-IsFirst b xs h.1)

  All-before :
      (pre : List Block) (b : Block) (post : List Block) (n : ℕ)
      → IsIncreasing address (pre ++ (b ∷ post))
      → address b ≤ n
      → All (AtMost (pos n)) (map (mapping G) pre)
  All-before [] b post n inc le = tt
  All-before (x ∷ pre) b post n inc le =
      let below : address x < address b =
        All-middle (λ y. address x < address y) pre b post inc.0 in
      (omega arith, All-before pre b post n inc.1 le)

  -- The whole way of an address through the file: with distinct addresses and 128-bit identities, an
  -- address from that of block `b` up to the next block's gets the patch in block `b`, at its
  -- distance from the start of `b`, if `b` is the first of the later blocks with its identity.
  pub insert_patch_at_address-create_address_map :
      (old new : List Block) (pre post : List Block) (b c : Block) (n : ℕ) (patch : Patch)
      (calls : List (Call Block))
      → Distinct address old
      → All (λ x. uuid x < 2 ^ 128) old
      → sorted address old ≡ pre ++ (b ∷ c ∷ post)
      → address b ≤ n
      → n < address c
      → IsFirst b new
      → (load_mappings (create_address_map G old) >>= λ m.
          insert_patch_at_address G m (pos n) patch new calls)
        ≡ ok (calls ++ insert_at (some b) (pos (n - address b)) patch ∷ [])
  insert_patch_at_address-create_address_map old new pre post b c n patch calls d u split le lt
        only =
      let inc : IsIncreasing address (pre ++ (b ∷ c ∷ post)) =
        rw split at (sorted-IsIncreasing address old d) in
      rw (load_mappings-create_address_map G old d u, split, map-append)
        (insert_patch_at_address-between G patch new calls (pos n) (map (mapping G) pre)
            (mapping G b) (mapping G c) (map (mapping G) post)
            (All-before pre b (c ∷ post) n inc le) (omega arith) (λ h. absurd (omega arith))
          ∙ rw (find_block-IsFirst b new only, pos_sub n (address b) le))
