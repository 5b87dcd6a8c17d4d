-- ===== src/Slice/Tests.antt =====
-- Runs of the slice functions of survival_kit/string.c, and the cases at which their theorems are
-- applied.
use c_survival_kit.Common.{get_or, ◌≡◌, refl, ◌↔◌, true, some, [], ◌∷◌, arith}
use c_survival_kit.Common.Int.{ℤ, pos, negsuc, ◌-ℤ◌}
use c_survival_kit.Ascii.{ccmp, to_lower, to_upper}
use c_survival_kit.Slice.Compare.{ascii_ccmp}
use c_survival_kit.Slice.Order.{difference, ascii_ccmp-difference, ascii_cmp_equal, ascii_ccmp-flip}
use c_survival_kit.Slice.Core.{
  Slice, chars, slice_of, is_in, is_in_signed, rtrimx, trimx, trim, rtruncate, match, find_from,
  find, partition, take_head,
}
use c_survival_kit.Slice.Bounds.{IsWithin, IsCut, slice_of-IsCut}
use c_survival_kit.Slice.Trim.{drop_while, drop_while_end, trim-IsCut, trimx-IsCut, rtruncate-IsCut}
use c_survival_kit.Slice.Search.{IsFirst, find-IsFirst}
use c_survival_kit.Slice.Partition.{IsSplit, partition-IsSplit, IsTaken, take_head-IsTaken}
use c_survival_kit.Slice.Loaf.{write, resized, loaf_resize}
use c_survival_kit.Slice.Case.{
  match_nl, newline_length, match_nl-newline_length, ascii_to_lower, ascii_to_upper,
  ascii_to_lower_lem,
}
use c_survival_kit.Slice.Escape.{
  escapify, escapes, required_size, escape_into, escaped, is_printable, escape_table, int_to_hex,
  Printable, write_escapes, escapify-escapes,
}

-- " a,b " and ","
abbrev text : Slice
text = record { block = 32 ∷ 97 ∷ 44 ∷ 98 ∷ 32 ∷ []; offset = 0; length = 5 }

abbrev comma : Slice
comma = record { block = 44 ∷ []; offset = 0; length = 1 }

-- A slice of two bytes of which the second is not ASCII.
abbrev accented : Slice
accented = record { block = 97 ∷ 233 ∷ []; offset = 0; length = 2 }

slice_of_end :
    slice_of text (pos 1) (negsuc 0) ≡ some (record { block = text.block; offset = 1; length = 3 })
unfolding slice_of
slice_of_end = refl

trimmed : trim text ≡ some (record { block = text.block; offset = 1; length = 3 })
unfolding trim slice_of
trimmed = refl

-- The byte 233 is in the class, and is trimmed on the left only.
rtrimx-accented : rtrimx accented (233 ∷ []) ≡ some accented
unfolding rtrimx slice_of
rtrimx-accented = refl

partition-comma : partition text comma ≡ (
  true,
  (
    some (record { block = text.block; offset = 0; length = 2 }),
    some (record { block = text.block; offset = 3; length = 2 }),
  ),
)
unfolding partition find find_from match slice_of
partition-comma = refl

text-IsWithin : IsWithin text
text-IsWithin = record { fits = omega arith; small = omega arith }

comma-IsWithin : IsWithin comma
comma-IsWithin = record { fits = omega arith; small = omega arith }

slice_of-IsCut_example : IsCut text (97 ∷ 44 ∷ []) (slice_of text (pos 1) (pos 3))
slice_of-IsCut_example = slice_of-IsCut text 1 3 text-IsWithin (omega arith) (omega arith)

trim-IsCut_example : IsCut text (97 ∷ 44 ∷ 98 ∷ []) (trim text)
unfolding drop_while drop_while_end
trim-IsCut_example = trim-IsCut text text-IsWithin

trimx-IsCut_example : IsCut text (97 ∷ 44 ∷ 98 ∷ []) (trimx text (32 ∷ []))
unfolding drop_while drop_while_end is_in is_in_signed
trimx-IsCut_example = trimx-IsCut text (32 ∷ []) text-IsWithin

rtruncate-IsCut_example : IsCut text (32 ∷ 97 ∷ 44 ∷ []) (rtruncate text 2)
rtruncate-IsCut_example = rtruncate-IsCut text 2 text-IsWithin

find-IsFirst_example : IsFirst (44 ∷ []) (chars text) (find text comma)
find-IsFirst_example = find-IsFirst text comma text-IsWithin comma-IsWithin

partition-IsSplit_example : IsSplit (chars text) (44 ∷ []) (partition text comma)
partition-IsSplit_example = partition-IsSplit text comma text-IsWithin comma-IsWithin

take_head-IsTaken_example : IsTaken text (take_head text comma)
take_head-IsTaken_example = take_head-IsTaken text comma text-IsWithin comma-IsWithin (omega arith)

ascii_ccmp-difference_example : ascii_ccmp (some text) (some comma) true ≡ some (negsuc 11)
unfolding difference ccmp
ascii_ccmp-difference_example = ascii_ccmp-difference text comma true text-IsWithin comma-IsWithin

ascii_cmp_equal_example :
    (ascii_ccmp (some text) (some comma) true ≡ some (pos 0)) ↔ (chars text ≡ chars comma)
ascii_cmp_equal_example = ascii_cmp_equal text comma text-IsWithin comma-IsWithin

ascii_ccmp-flip_example :
    (z : ℤ) × ((ascii_ccmp (some text) (some comma) true ≡ some z)
      × (ascii_ccmp (some comma) (some text) true ≡ some (pos 0 -ℤ z)))
ascii_ccmp-flip_example = ascii_ccmp-flip text comma true text-IsWithin comma-IsWithin

-- An empty loaf.
abbrev no_text : Slice
no_text = record { block = []; offset = 0; length = 0 }

escapify-text :
    (escapify
      (0 ∷ 0 ∷ 0 ∷ 0 ∷ 0 ∷ 0 ∷ 0 ∷ [])
      (record { block = 97 ∷ 10 ∷ 233 ∷ []; offset = 0; length = 3 })
      no_text).1
    ≡ some (record {
      block = b'a' ∷ b'\\' ∷ b'n' ∷ b'\\' ∷ b'x' ∷ b'E' ∷ b'9' ∷ [];
      offset = 0;
      length = 7;
    })
unfolding escapify required_size escape_into escaped is_printable escape_table int_to_hex write
    write_escapes resized loaf_resize slice_of
escapify-text = refl

escapify-escapes_example :
    IsCut
      (escapify (1 ∷ 2 ∷ 3 ∷ 4 ∷ 5 ∷ []) text no_text).0
      (escapes (chars text))
      (escapify (1 ∷ 2 ∷ 3 ∷ 4 ∷ 5 ∷ []) text no_text).1
    × Printable (escapes (chars text))
unfolding required_size is_printable
escapify-escapes_example =
    escapify-escapes (1 ∷ 2 ∷ 3 ∷ 4 ∷ 5 ∷ []) text no_text
      (record { at_start = refl; is_within = record { fits = omega arith; small = omega arith } })
      (omega arith) (omega arith)

-- A carriage return at the end of the slice, with a line feed behind it in the block.
abbrev cut_newline : Slice
cut_newline = record { block = 97 ∷ 13 ∷ 10 ∷ []; offset = 0; length = 2 }

abbrev whole_newline : Slice
whole_newline = record { block = 97 ∷ 13 ∷ 10 ∷ []; offset = 0; length = 3 }

match_nl-newline_length_example : match_nl cut_newline 1 ≡ some 1
unfolding newline_length
match_nl-newline_length_example =
    match_nl-newline_length cut_newline 1 (record { fits = omega arith; small = omega arith })
      (omega arith)

both_characters : match_nl whole_newline 1 ≡ some 2
unfolding match_nl
both_characters = refl

ascii_to_lower_lem_example :
    (get_or (ascii_to_lower text).block 1 0 ≡ to_lower 97)
    × (get_or (ascii_to_upper text).block 1 0 ≡ to_upper 97)
ascii_to_lower_lem_example = ascii_to_lower_lem text 1 text-IsWithin
