-- ===== src/Bag.antt =====
-- Bags (survival_kit/bag.c, survival_kit/bag.h): fields that modules register at run time, laid
-- out in one block. The typed loafs of a layout are the lists of their elements.
pub mod Fields
pub mod Tests
use c_survival_kit.Common.{
  ℕ, zero, suc, ◌+◌, ◌%◌, ◌^◌, Option, none, some, List, [], ◌∷◌, ◌++◌, length, take, drop,
  get_elem?,
}
use c_survival_kit.Common.Int.{ℤ, pos, negsuc}

-- `skit_bag_layout`.
pub record Layout : Type 0 where
  bag_size : ℕ
  field_offsets : List ℕ
  field_types : List (List ℕ)
  field_names : List (List ℕ)
  bag_name : List ℕ

-- `skit_bag_layout_new`, with the string of `skit_bag_layout_ctor`.
abbrev pub layout_new : Layout
layout_new = record {
  bag_size = 0;
  field_offsets = [];
  field_types = [];
  field_names = [];
  bag_name = 60 ∷ 117 ∷ 110 ∷ 110 ∷ 97 ∷ 109 ∷ 101 ∷ 100 ∷ 32 ∷ 98 ∷ 97 ∷ 103 ∷ 62 ∷ [];
}

-- The layout of a variable that may hold NULL.
abbrev pub layout_of : Option Layout → Layout
layout_of none = layout_new
layout_of (some l) = l

-- `skit_bag_layout_reg_field`: the layout, and the field's id. An offset is stored in 32 bits.
unfoldable pub reg_field : Option Layout → ℕ → List ℕ → List ℕ → Layout × ℕ
reg_field r field_size type_str field_name =
    let l = layout_of r in
    (
      record {
        bag_size = (l.bag_size + field_size) % 2 ^ 64;
        field_offsets = l.field_offsets ++ (l.bag_size % 2 ^ 32 ∷ []);
        field_types = l.field_types ++ (type_str ∷ []);
        field_names = l.field_names ++ (field_name ∷ []);
        bag_name = l.bag_name;
      },
      length l.field_offsets,
    )

abbrev zeros : ℕ → List ℕ
zeros zero = []
zeros (suc n) = 0 ∷ zeros n

-- `skit_bag_new`: the contents of a new bag.
abbrev pub bag_new : Layout → List ℕ
bag_new l = zeros l.bag_size

-- `skit_bag_get_field`: where the field begins, unless an assertion fails.
unfoldable pub get_field : Layout → ℤ → Option ℕ
get_field l (pos i) = get_elem? l.field_offsets i
get_field l (negsuc i) = none

-- What `SKIT_BAG_GET_FIELD` reads: as many characters as the type has, from there.
abbrev read_at : ℕ → List ℕ → Option ℕ → Option (List ℕ)
read_at size contents none = none
read_at size contents (some at) = some (take size (drop at contents))

unfoldable pub read_field : Layout → List ℕ → ℤ → ℕ → Option (List ℕ)
read_field l contents i size = read_at size contents (get_field l i)

-- `memcpy` into a block that has room for it.
abbrev pub copy_in : List ℕ → ℕ → List ℕ → List ℕ
copy_in contents at v = take at contents ++ (v ++ drop (at + length v) contents)

abbrev copy_at : List ℕ → List ℕ → Option ℕ → Option (List ℕ)
copy_at contents v none = none
copy_at contents v (some at) = some (copy_in contents at v)

-- `skit_bag_set_field`: the contents after it, unless an assertion fails.
unfoldable pub set_field : Layout → List ℕ → ℤ → List ℕ → Option (List ℕ)
set_field l contents i v = copy_at contents v (get_field l i)
