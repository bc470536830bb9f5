-- ===== src/Tests/Lookup.antt =====
-- Tests of the map of addresses.
use pe_ar_honours.Prelude.{
  ℕ, All, ◌<◌, ◌^◌, ◌≡◌, refl, some, List, [], ◌∷◌, ◌++◌, map, arith, ok, raise, ◌>>=◌, index_error,
}
use pe_ar_honours.Number.Int.{◌-ℤ◌, pos, negsuc}
use pe_ar_honours.Gtirb.Example.{example}
use pe_ar_honours.Rewriting.{insert_at}
use pe_ar_honours.Sorting.{sorted, insert}
use pe_ar_honours.Sorting.Distinct.{Distinct}
use pe_ar_honours.AddressMap.{
  Mappings, load_mappings, create_address_map, insert_patch_at_address, find_block,
}
use pe_ar_honours.AddressMap.File.{mapping, load_mappings-create_address_map}
use pe_ar_honours.AddressMap.Lookup.{
  insert_patch_at_address-beyond, insert_patch_at_address-below,
  insert_patch_at_address-create_address_map,
}
use pe_ar_honours.AddAfl.{setup_patch}

abbrev blocks : List ℕ
blocks = 110 ∷ 100 ∷ 104 ∷ []

abbrev items : Mappings
items = (pos 100, 1100) ∷ (pos 110, 1110) ∷ []

blocks-Distinct : Distinct example.address blocks
blocks-Distinct = ground arith

blocks-All : All (λ b. example.uuid b < 2 ^ 128) blocks
blocks-All = (omega arith, (omega arith, (omega arith, tt)))

blocks-sorted : sorted example.address blocks ≡ (100 ∷ []) ++ (104 ∷ 110 ∷ [])
unfolding sorted insert
blocks-sorted = refl

load_mappings-create_address_map_example :
    load_mappings (create_address_map example blocks)
    ≡ ok (map (mapping example) (sorted (λ b. b) blocks))
load_mappings-create_address_map_example =
    load_mappings-create_address_map example blocks blocks-Distinct blocks-All

insert_patch_at_address-create_address_map_example :
    (load_mappings (create_address_map example blocks) >>= λ m.
    insert_patch_at_address example m (pos 107) setup_patch blocks [])
    ≡ ok (insert_at (some 104) (pos 3) setup_patch ∷ [])
insert_patch_at_address-create_address_map_example =
    insert_patch_at_address-create_address_map example blocks blocks (100 ∷ []) [] 104 110 107
      setup_patch [] blocks-Distinct blocks-All blocks-sorted (omega arith) (omega arith)
      (ground arith)

insert_patch_at_address-beyond_example :
    insert_patch_at_address example items (pos 112) setup_patch blocks [] ≡ raise index_error
insert_patch_at_address-beyond_example =
    insert_patch_at_address-beyond example setup_patch blocks [] (pos 112) items
      (omega arith, (omega arith, tt))

below_first :
    insert_patch_at_address example items (pos 90) setup_patch blocks []
    ≡ ok (insert_at (some 110) (negsuc 19) setup_patch ∷ [])
unfolding find_block ◌-ℤ◌
below_first =
    insert_patch_at_address-below example setup_patch blocks [] (pos 90) ((pos 100, 1100) ∷ [])
      (pos 110, 1110) (pos 100, 1100) ((pos 110, 1110) ∷ []) refl (λ h. absurd (omega arith))
