-- ===== src/AddressMap.antt =====
-- The map from addresses to blocks of add_afl.py: `CreateAddressMapPass.begin_module` writes it,
-- `AddAFLPass.begin_module` reads it, and `AddAFLPass.insert_patch_at_address` looks addresses up.
pub mod Lookup
pub mod File
use pe_ar_honours.Prelude.{
  ℕ, zero, suc, ◌+◌, Bool, Option, none, some, List, [], ◌∷◌, ◌++◌, map, ◌==◌, if◌then◌else◌,
  get_elem?, Outcome, ok, raise, ◌>>=◌, index_error,
}
use pe_ar_honours.Text.{Text, text_eq}
use pe_ar_honours.Number.{decimal, parse_int}
use pe_ar_honours.Number.Int.{ℤ, pos_part, neg_part, leb_ℤ, ◌-ℤ◌}
use pe_ar_honours.Uuid.{hex, parse_uuid}
use pe_ar_honours.Dict.{put, put_all}
use pe_ar_honours.Gtirb.{Gtirb}
use pe_ar_honours.Rewriting.{Patch, Call, insert_at}
use pe_ar_honours.Sorting.{sorted}

-- The JSON object in the file: names and values are texts.
abbrev pub JsonObject : Type 0
JsonObject = List (Text × Text)

-- `address_mappings`: identities of blocks by address.
abbrev pub Mappings : Type 0
Mappings = List (ℤ × ℕ)

abbrev pub int_eq : ℤ → ℤ → Bool
int_eq a b = pos_part a + neg_part b == pos_part b + neg_part a

-- `json.dump` of a dictionary with integer keys.
unfoldable pub dump : List (ℕ × Text) → JsonObject
unfolding decimal
dump d = map (λ e. (decimal e.0, e.1)) d

-- The loop over the loaded dictionary.
unfoldable pub load_items : Mappings → JsonObject → Outcome Mappings
unfolding parse_uuid parse_int put
load_items m [] = ok m
load_items m ((addr, value) ∷ d) = do
  block_uuid ← parse_uuid value
  key ← parse_int 10 addr
  load_items (put int_eq key block_uuid m) d

-- `json.load` with `object_pairs_hook=OrderedDict`, then the loop.
unfoldable pub load_mappings : JsonObject → Outcome Mappings
unfolding load_items put_all
load_mappings pairs = load_items [] (put_all text_eq [] pairs)

-- `while patch_address >= mappings[i][0]: i += 1`, over `mappings[i:]`.
unfoldable pub first_above : ℤ → Mappings → ℕ → Outcome ℕ
first_above a [] i = raise index_error
first_above a ((key, u) ∷ m) i =
    let next = first_above a m (i + 1) in if leb_ℤ key a then next else ok i

last_item : Mappings → Outcome (ℤ × ℕ)
last_item [] = raise index_error
last_item (e ∷ []) = ok e
last_item (_ ∷ e ∷ m) = last_item (e ∷ m)

item : Option (ℤ × ℕ) → Outcome (ℤ × ℕ)
item none = raise index_error
item (some e) = ok e

-- `mappings[i-1]`: index -1 is the last item.
unfoldable pub item_before : Mappings → ℕ → Outcome (ℤ × ℕ)
unfolding last_item item
item_before m zero = last_item m
item_before m (suc i) = item (get_elem? m i)

module _ (G : Gtirb) where
  open G use {Block, address, uuid}

  -- The first of the blocks with the identity.
  unfoldable pub find_block : ℕ → List Block → Option Block
  find_block u [] = none
  find_block u (b ∷ bs) = let rest = find_block u bs in if u == uuid b then some b else rest

  unfoldable pub map_blocks : List (ℕ × Text) → List Block → List (ℕ × Text)
  unfolding put hex
  map_blocks d [] = d
  map_blocks d (b ∷ bs) = map_blocks (put ◌==◌ (address b) (hex (uuid b)) d) bs

  -- `CreateAddressMapPass.begin_module`: what it writes to the file.
  unfoldable pub create_address_map : List Block → JsonObject
  unfolding map_blocks sorted dump
  create_address_map code_blocks = dump (map_blocks [] (sorted address code_blocks))

  unfoldable pub insert_patch_at_address :
      Mappings → ℤ → Patch → List Block → List (Call Block) → Outcome (List (Call Block))
  unfolding first_above item_before find_block ◌-ℤ◌
  insert_patch_at_address mappings patch_address patch blocks calls = do
    i ← first_above patch_address mappings 0
    (block_addr, block_uuid) ← item_before mappings i
    ok (calls ++ insert_at (find_block block_uuid blocks) (patch_address -ℤ block_addr) patch ∷ [])
