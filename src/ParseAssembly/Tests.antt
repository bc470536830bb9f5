-- ===== src/ParseAssembly/Tests.antt =====
-- A file with two functions, of which the first has a string.
use pe_ar_honours.Prelude.{
  ℕ, ◌≡◌, refl, false, List, [], ◌∷◌, ◌++◌, map, All, ok, raise, is_ok, index_error, arith, Option,
  none, some, ◌||◌, if◌then◌else◌, file_not_found,
}
use mathlib.Core.List.Permᴰ
use pe_ar_honours.Text.{Text, codes, text_eq}
use pe_ar_honours.Number.{decimal, parse_int}
use pe_ar_honours.PatchFiles.{
  Disk, patch_calls, list_dir, select, is_patch_file, patch_number, insert_files, read_patch,
  patch_file_name,
}
use pe_ar_honours.Sorting.{sorted}
use pe_ar_honours.Rewriting.{insert_function, file_patch}
use pe_ar_honours.ParseAssembly.Lines.{
  rstrip, is_cfi_directive, is_rodata_start, is_skipped, is_function_start, is_function_end,
  string_bytes, non_word,
}
use pe_ar_honours.ParseAssembly.{
  OutFile, find_functions, function_files, function_file, functions_from, take_body, scan_up,
  drop_last, rodata_lines, parse_assembly,
}
use pe_ar_honours.ParseAssembly.Documents.{Part, IsPart, lines_of, parts_found}
use pe_ar_honours.ParseAssembly.Documents.Parsed.{parse_assembly-parts}
use pe_ar_honours.ParseAssembly.Closed.{outside, is_closed, parse_assembly-closed}
use pe_ar_honours.ParseAssembly.Strings.{string_line, string_bytes-string_line}
use pe_ar_honours.ParseAssembly.Directory.{AreStored, patch_calls-parse_assembly}

abbrev header : Text
header = codes "  .file \"afl.c\""

abbrev parts : List Part
parts =
    record {
      gap =
          codes "  .section .rodata"
          ∷ codes ".LC0:"
          ∷ codes "  .string \"fork\\n\""
          ∷ codes "  .text"
          ∷ codes "  .globl f"
          ∷ [];
      start = codes "  .type f, @function";
      label = codes "f:";
      body = codes "  .cfi_startproc" ∷ codes "  ret" ∷ [];
      end_line = codes "  .cfi_endproc";
    }
    ∷ record {
      gap = codes "  .size f, .-f" ∷ [];
      start = codes "  .type g, @function";
      label = codes "g:";
      body = codes "  nop" ∷ codes "  ret" ∷ [];
      end_line = codes "  .cfi_endproc";
    }
    ∷ []

abbrev tail : List Text
tail = codes "  .size g, .-g" ∷ []

-- As it is read, with line breaks.
abbrev file : List Text
file = map (λ l. l ++ b'\n' ∷ []) (header ∷ lines_of parts tail)

abbrev added : List OutFile
added =
    record {
      name = codes "0-f.s";
      contents = codes "  ret\n\n\n  .section .rodata\n.LC0:\n  .string \"fork\\n\"\n  .globl f";
    }
    ∷ record { name = codes "1-g.s"; contents = codes "  nop\n  ret\n\n" }
    ∷ record { name = codes "added_bytes_rodata"; contents = codes "6" }
    ∷ []

parse_assembly_run : parse_assembly file ≡ ok added
unfolding parse_assembly functions_from is_function_start rstrip take_body is_function_end
    function_file decimal patch_file_name is_cfi_directive scan_up drop_last rodata_lines
    is_rodata_start is_skipped string_bytes
parse_assembly_run = refl

-- A quotation mark at the start of a string hides what is before it.
string_bytes_run : string_bytes (codes ".string \"\\\"ab\"") ≡ 3
unfolding string_bytes
string_bytes_run = refl

file_lines : map rstrip file ≡ header ∷ lines_of parts tail
unfolding rstrip
file_lines = refl

header_plain : is_function_start header ≡ false
unfolding is_function_start
header_plain = refl

parts-IsPart : All IsPart parts
unfolding is_function_start is_function_end
parts-IsPart = ground arith

tail_plain : All (λ l. is_function_start l ≡ false) tail
unfolding is_function_start
tail_plain = (refl, tt)

parse_assembly-parts_example :
    parse_assembly file
    ≡ ok (
        function_files 0 (parts_found parts).functions
        ++ record {
          name = codes "added_bytes_rodata";
          contents = decimal (parts_found parts).total_rodata_len;
        }
          ∷ [])
parse_assembly-parts_example =
    parse_assembly-parts file header parts tail file_lines header_plain parts-IsPart tail_plain

-- A function without an end.
abbrev open_file : List Text
open_file = header ∷ codes " .type f, @function" ∷ codes "f:" ∷ codes " ret" ∷ []

parse_assembly-closed_example :
    (is_ok (parse_assembly open_file) ≡ is_closed outside (map rstrip open_file))
    × ((is_closed outside (map rstrip open_file) ≡ false)
        → parse_assembly open_file ≡ raise index_error)
parse_assembly-closed_example = parse_assembly-closed open_file

find_functions_run : find_functions file ≡ ok (parts_found parts)
unfolding find_functions functions_from is_function_start rstrip take_body is_function_end
    is_cfi_directive scan_up drop_last rodata_lines is_rodata_start is_skipped string_bytes
find_functions_run = refl

-- The folder `p` with these files.
content_of : List OutFile → Text → Option Text
content_of [] path = none
content_of (o ∷ files) path =
    let other = content_of files path in
    if text_eq (codes "p/" ++ o.name) path then some o.contents else other

abbrev disk : Disk
disk = record {
  listing = λ path.
      if text_eq path (codes "p") || text_eq path (codes "p/")
      then some (map (λ o. o.name) added)
      else none;
  contents = content_of added;
}

added-AreStored : AreStored disk (codes "p/") added
unfolding content_of text_eq drop_last
added-AreStored = (refl, (refl, (refl, tt)))

patch_calls-parse_assembly_example :
    patch_calls {Block = ℕ} disk (codes "p/")
    ≡ ok (
        map
          (λ f. insert_function f.func_name (file_patch (function_file 0 f).contents))
          (parts_found parts).functions)
unfolding text_eq
patch_calls-parse_assembly_example =
    patch_calls-parse_assembly ℕ file (parts_found parts) added disk (codes "p")
      (map (λ o. o.name) added) find_functions_run parse_assembly_run (omega arith) refl
      (Permᴰ.refl _) added-AreStored

-- The same folder without the `/`.
no_separator : patch_calls {Block = ℕ} disk (codes "p") ≡ raise file_not_found
unfolding patch_calls list_dir select is_patch_file sorted patch_number insert_files read_patch
    content_of text_eq drop_last parse_int
no_separator = refl

-- A text of three characters, of which one is a line break.
abbrev broken_line : Text
broken_line = b'a' ∷ b'\n' ∷ b'b' ∷ []

string_bytes-string_line_example : string_bytes (string_line broken_line) ≡ 4
unfolding non_word
string_bytes-string_line_example = string_bytes-string_line broken_line refl (ground arith)
