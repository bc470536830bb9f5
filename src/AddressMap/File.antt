-- ===== src/AddressMap/File.antt =====
-- The file that the first pass writes is read back as the blocks' addresses and identities.
use pe_ar_honours.Prelude.{
  ℕ, ◌^◌, ◌<◌, ◌≡◌, ◌≢◌, refl, sym, ◌∙◌, ap, Bool, false, List, [], ◌∷◌, map, arith, ◌==◌, All, ok,
  Bool-cases, inl, inr,
}
use pe_ar_honours.Text.{Text, text_eq}
use pe_ar_honours.Text.Laws.{text_eq_iff}
use pe_ar_honours.Number.{decimal, parse_int}
use pe_ar_honours.Number.Int.{ℤ, pos}
use pe_ar_honours.Number.RoundTrip.{parse_int-decimal}
use pe_ar_honours.Uuid.{hex}
use pe_ar_honours.Uuid.RoundTrip.{parse_uuid-hex}
use pe_ar_honours.Dict.{put, put_all, NodupKeys, put_all_distinct}
use pe_ar_honours.Gtirb.{Gtirb}
use pe_ar_honours.Sorting.{sorted}
use pe_ar_honours.Sorting.Distinct.{Distinct, sorted-Distinct, sorted-All}
use pe_ar_honours.AddressMap.{
  Mappings, int_eq, dump, load_items, load_mappings, map_blocks, create_address_map,
}

decimal_ne : (m n : ℕ) → m ≢ n → text_eq (decimal m) (decimal n) ≡ false
decimal_ne m n h = elim (Bool-cases (text_eq (decimal m) (decimal n))) [
  | inl e ↦
      let same =
        sym (parse_int-decimal m)
        ∙ ap (parse_int 10) ((text_eq_iff (decimal m) (decimal n)).0 e)
        ∙ parse_int-decimal n in
      absurd (h (ground arith))
  | inr e ↦ e
]

module _ (G : Gtirb) where
  open G use {Block, address, uuid}

  abbrev entry : Block → ℕ × Text
  entry b = (address b, hex (uuid b))

  abbrev json_entry : Block → Text × Text
  json_entry b = (decimal (address b), hex (uuid b))

  -- What the mappings hold for a block.
  abbrev pub mapping : Block → ℤ × ℕ
  mapping b = (pos (address b), uuid b)

  module _ {K V : Type 0} (beq : K → K → Bool) (e : Block → K × V)
      (apart : (b c : Block) → address b ≢ address c → beq (e b).0 (e c).0 ≡ false) where
    All-apart :
        (b : Block) (bs : List Block)
        → All (λ c. address b ≢ address c) bs
        → All (λ x. beq (e b).0 x.0 ≡ false) (map e bs)
    All-apart b [] a = tt
    All-apart b (c ∷ bs) a = (apart b c a.0, All-apart b bs a.1)

    map-NodupKeys : (bs : List Block) → Distinct address bs → NodupKeys beq (map e bs)
    map-NodupKeys [] d = tt
    map-NodupKeys (b ∷ bs) d = (All-apart b bs d.0, map-NodupKeys bs d.1)

  map_blocks-put_all :
      (d : List (ℕ × Text)) (bs : List Block) → map_blocks G d bs ≡ put_all ◌==◌ d (map entry bs)
  unfolding map_blocks put_all
  map_blocks-put_all d [] = refl
  map_blocks-put_all d (b ∷ bs) = map_blocks-put_all (put ◌==◌ (address b) (hex (uuid b)) d) bs

  map_blocks-Distinct : (bs : List Block) → Distinct address bs → map_blocks G [] bs ≡ map entry bs
  map_blocks-Distinct bs d =
      map_blocks-put_all [] bs
      ∙ put_all_distinct ◌==◌ [] (map entry bs)
          (map-NodupKeys ◌==◌ entry (λ b c h. ground arith) bs d)

  dump-map : (bs : List Block) → dump (map entry bs) ≡ map json_entry bs
  unfolding dump
  dump-map [] = refl
  dump-map (b ∷ bs) = ap (◌∷◌ (json_entry b)) (dump-map bs)

  load_items-put_all :
      (m : Mappings) (bs : List Block)
      → All (λ b. uuid b < 2 ^ 128) bs
      → load_items m (map json_entry bs) ≡ ok (put_all int_eq m (map mapping bs))
  unfolding load_items put_all
  load_items-put_all m [] h = refl
  load_items-put_all m (b ∷ bs) h =
      rw (parse_uuid-hex (uuid b) h.0, parse_int-decimal (address b))
        (load_items-put_all (put int_eq (pos (address b)) (uuid b) m) bs h.1)

  -- With distinct addresses and 128-bit identities, reading the file that was written gives one
  -- item for each block, its address and its identity, in the order of the addresses.
  pub load_mappings-create_address_map :
      (bs : List Block)
      → Distinct address bs
      → All (λ b. uuid b < 2 ^ 128) bs
      → load_mappings (create_address_map G bs) ≡ ok (map mapping (sorted address bs))
  unfolding load_mappings create_address_map
  load_mappings-create_address_map bs d h =
      let s = sorted-Distinct address bs d in
      rw (map_blocks-Distinct (sorted address bs) s, dump-map (sorted address bs))
        (rw
          (put_all_distinct text_eq [] _
            (map-NodupKeys text_eq json_entry (λ b c. decimal_ne (address b) (address c)) _ s))
          (load_items-put_all [] _ (sorted-All address _ bs h)
            ∙ ap ok (
                put_all_distinct int_eq [] _
                  (map-NodupKeys int_eq mapping (λ b c h. ground arith) _ s))))
