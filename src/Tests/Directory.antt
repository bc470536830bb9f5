-- ===== src/Tests/Directory.antt =====
-- A directory with two patches, listed in another order.
use pe_ar_honours.Prelude.{ℕ, ◌≡◌, refl, List, [], ◌∷◌, ok, arith, some, none, if◌then◌else◌}
use mathlib.Core.List.{Permᴰ}
use pe_ar_honours.Text.{Text, codes, text_eq}
use pe_ar_honours.Number.{decimal}
use pe_ar_honours.PatchFiles.{Disk, patch_calls, patch_file_name, numbered}
use pe_ar_honours.PatchFiles.Directory.{insert_functions, names, AreWritten, patch_calls-numbered}

abbrev functions : List (Text × Text)
functions = (codes "f", codes "ret") ∷ (codes "g", codes "nop") ∷ []

abbrev listed : List Text
listed =
    patch_file_name 1 (codes "g") ∷ codes "added_bytes_rodata" ∷ patch_file_name 0 (codes "f") ∷ []

abbrev disk : Disk
disk = record {
  listing = λ path. some listed;
  contents = λ path.
      if text_eq path (codes "p/0-f.s")
      then some (codes "ret")
      else if text_eq path (codes "p/1-g.s")
      then some (codes "nop")
      else none;
}

listed-perm : Permᴰ listed (codes "added_bytes_rodata" ∷ numbered 0 (names functions))
unfolding numbered
listed-perm = Permᴰ.trans (Permᴰ.swap refl refl) (Permᴰ.cons refl (Permᴰ.swap refl refl))

functions-AreWritten : AreWritten disk (codes "p/") 0 functions
unfolding text_eq patch_file_name decimal
functions-AreWritten = (refl, (refl, tt))

two_patches : patch_calls {Block = ℕ} disk (codes "p/") ≡ ok (insert_functions functions)
two_patches =
    patch_calls-numbered ℕ disk (codes "p/") listed functions (omega arith) refl listed-perm
      functions-AreWritten
