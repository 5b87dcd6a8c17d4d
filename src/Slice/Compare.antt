-- ===== src/Slice/Compare.antt =====
-- The comparison of slices in survival_kit/string.c: `skit_slice_common_cprefix` and
-- `skit_slice_ascii_ccmp` with their two readings each.
use c_survival_kit.Common.{
  ℕ, suc, ◌-◌, Bool, true, false, ◌||◌, Option, none, some, List, [], ◌∷◌, ◌==◌, if◌then◌else◌,
  get_or,
}
use c_survival_kit.Common.Int.{ℤ, pos, negsuc, sub_ℕ, is_zero}
use c_survival_kit.Ascii.{ccmp}
use c_survival_kit.Slice.Core.{Slice, chars, slice_of}

-- The loop: the number of characters at the front that compare as equal.
unfoldable pub common_length : Bool → List ℕ → List ℕ → ℕ
common_length case_sensitive [] chars2 = 0
common_length case_sensitive (c1 ∷ chars1) [] = 0
common_length case_sensitive (c1 ∷ chars1) (c2 ∷ chars2) =
    let rest = common_length case_sensitive chars1 chars2 in
    if is_zero (ccmp c1 c2 case_sensitive) then suc rest else 0

unfoldable pub common_cprefix : Slice → Slice → Bool → Option Slice
common_cprefix str1 str2 case_sensitive =
    slice_of str1 (pos 0) (pos (common_length case_sensitive (chars str1) (chars str2)))

abbrev pub common_prefix : Slice → Slice → Option Slice
common_prefix str1 str2 = common_cprefix str1 str2 true

abbrev pub common_iprefix : Slice → Slice → Option Slice
common_iprefix str1 str2 = common_cprefix str1 str2 false

-- From the length of the common prefix on.
unfoldable pub compare_behind : Slice → Slice → ℕ → Bool → ℤ
compare_behind str1 str2 at case_sensitive =
    let suffix_len_1 = str1.length - at in
    let suffix_len_2 = str2.length - at in
    let difference = ccmp (get_or (chars str1) at 0) (get_or (chars str2) at 0) case_sensitive in
    if suffix_len_1 == suffix_len_2
    then (if suffix_len_1 == 0 then pos 0 else difference)
    else if suffix_len_1 == 0 || suffix_len_2 == 0
    then sub_ℕ suffix_len_1 suffix_len_2
    else difference

-- `skit_slice_ascii_ccmp`; a slice of `none` is NULL, and a result `none` is an assertion that fails.
unfoldable pub ascii_ccmp : Option Slice → Option Slice → Bool → Option ℤ
unfolding compare_behind
ascii_ccmp none none case_sensitive = some (pos 0)
ascii_ccmp none (some str2) case_sensitive = some (negsuc 0)
ascii_ccmp (some str1) none case_sensitive = some (pos 1)
ascii_ccmp (some str1) (some str2) case_sensitive = elim (common_cprefix str1 str2 case_sensitive) [
  | none ↦ none
  | some slice ↦ some (compare_behind str1 str2 slice.length case_sensitive)
]

abbrev pub ascii_cmp : Option Slice → Option Slice → Option ℤ
ascii_cmp str1 str2 = ascii_ccmp str1 str2 true

abbrev pub ascii_icmp : Option Slice → Option Slice → Option ℤ
ascii_icmp str1 str2 = ascii_ccmp str1 str2 false
