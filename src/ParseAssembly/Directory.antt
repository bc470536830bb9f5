-- ===== src/ParseAssembly/Directory.antt =====
-- From the assembly of the runtime to the functions that the instrumentation inserts: the files that
-- parse_assembly.py writes, as `begin_module` reads their directory.
use pe_ar_honours.Prelude.{
  ℕ, suc, ◌≡◌, ◌≤◌, refl, sym, List, [], ◌∷◌, ◌++◌, map, length, arith, All, ap, ◌∙◌, some, ok,
  ok-injective,
}
use mathlib.Core.List.{Permᴰ, map-append}
use mathlib.Core.List.Permᴰ
use pe_ar_honours.Text.{Text, codes}
use pe_ar_honours.Number.{decimal}
use pe_ar_honours.PatchFiles.{Disk, patch_calls, numbered}
use pe_ar_honours.Rewriting.{insert_function, file_patch}
use mathlib.Core.Path.{subst}
use pe_ar_honours.PatchFiles.Directory.{insert_functions, names, AreWritten, patch_calls-numbered}
use pe_ar_honours.ParseAssembly.{
  Function, Found, OutFile, function_file, function_files, find_functions, parse_assembly,
}

snoc-perm : (x : Text) (xs : List Text) → Permᴰ (xs ++ x ∷ []) (x ∷ xs)
snoc-perm x [] = Permᴰ.refl _
snoc-perm x (y ∷ xs) = Permᴰ.trans (Permᴰ.cons refl (snoc-perm x xs)) (Permᴰ.swap refl refl)

-- A function that was found: its name, and what its file holds.
abbrev patch_of : Function → Text × Text
patch_of f = (f.func_name, (function_file 0 f).contents)

length-patches : (fs : List Function) → length (map patch_of fs) ≡ length fs
length-patches [] = refl
length-patches (f ∷ fs) = omega (arith, length-patches fs)

map-map :
    {Block : Type 0} (fs : List Function)
    → insert_functions {Block = Block} (map patch_of fs)
      ≡ map (λ f. insert_function f.func_name (file_patch (function_file 0 f).contents)) fs
map-map [] = refl
map-map (f ∷ fs) =
    ap (λ calls. insert_function f.func_name (file_patch (function_file 0 f).contents) ∷ calls)
      (map-map fs)

name-function_files :
    (k : ℕ) (fs : List Function)
    → map (λ o. o.name) (function_files k fs) ≡ numbered k (names (map patch_of fs))
unfolding function_files function_file numbered
name-function_files k [] = refl
name-function_files k (f ∷ fs) = rw (name-function_files (suc k) fs)

-- Each file lies in the directory.
abbrev pub AreStored : Disk → Text → List OutFile → Type 0
AreStored disk dir files = All (λ o. disk.contents (dir ++ o.name) ≡ some o.contents) files

function_files-AreWritten :
    (disk : Disk) (dir : Text) (k : ℕ) (fs : List Function) (later : List OutFile)
    → AreStored disk dir (function_files k fs ++ later)
    → AreWritten disk dir k (map patch_of fs)
unfolding function_files function_file
function_files-AreWritten disk dir k [] later stored = tt
function_files-AreWritten disk dir k (f ∷ fs) later stored =
    (stored.0, function_files-AreWritten disk dir (suc k) fs later stored.1)

-- If parse_assembly.py ends with its files, for at most ten functions, and these are what the folder holds and
-- lists, in any order, and the path of the folder with a `/` behind it is the patch directory, then
-- one function is inserted for each that was found, in the order of the assembly, with its name and what its
-- file holds.
pub patch_calls-parse_assembly :
    (Block : Type 0) (file : List Text) (found : Found) (files : List OutFile) (disk : Disk)
    (out_folder : Text) (listed : List Text)
    → find_functions file ≡ ok found
    → parse_assembly file ≡ ok files
    → length found.functions ≤ 10
    → disk.listing (out_folder ++ codes "/") ≡ some listed
    → Permᴰ listed (map (λ o. o.name) files)
    → AreStored disk (out_folder ++ codes "/") files
    → patch_calls {Block = Block} disk (out_folder ++ codes "/")
      ≡ ok (
          map
            (λ f. insert_function f.func_name (file_patch (function_file 0 f).contents))
            found.functions)
unfolding parse_assembly
patch_calls-parse_assembly Block file found files disk out_folder listed e done few there p stored =
    let dir = out_folder ++ codes "/" in
    let fs = map patch_of found.functions in
    let last : OutFile = record {
      name = codes "added_bytes_rodata";
      contents = decimal found.total_rodata_len;
    } in
    let written : function_files 0 found.functions ++ last ∷ [] ≡ files =
      ok-injective (rw e at done) in
    let file_names : map (λ o. o.name) files
        ≡ numbered 0 (names fs) ++ codes "added_bytes_rodata" ∷ [] =
      rw (sym written, map-append) (rw (name-function_files 0 found.functions)) in
    patch_calls-numbered Block disk dir listed fs (omega (arith, length-patches found.functions))
      there
      (Permᴰ.trans p
        (rw file_names (snoc-perm (codes "added_bytes_rodata") (numbered 0 (names fs)))))
      (function_files-AreWritten disk dir 0 found.functions (last ∷ [])
        (subst (AreStored disk dir) (sym written) stored))
    ∙ ap ok (map-map found.functions)
