-- ===== src/FixAsm/Tests.antt =====
-- Two lines, of which the first has the instruction.
use pe_ar_honours.Prelude.{◌≡◌, refl, map, All}
use pe_ar_honours.Text.{Text, codes}
use pe_ar_honours.FixAsm.{split_lines, fix_line, contains, fixup}
use pe_ar_honours.FixAsm.Lines.{IsFixed, split_lines-fixup}

abbrev text : Text
text = codes "vpcmpnleuq k1{k2}, zmm0\nmov {eax}"

fixup_run : fixup text ≡ codes "vpcmpnleuq k1,k2, zmm0\nmov {eax}"
unfolding fixup contains
fixup_run = refl

split_lines-fixup_example :
    (split_lines (fixup text) ≡ map fix_line (split_lines text))
    × All IsFixed (split_lines (fixup text))
split_lines-fixup_example = split_lines-fixup text
