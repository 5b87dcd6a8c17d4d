-- ===== src/Ascii.antt =====
-- The character functions of survival_kit/string.h and survival_kit/string.c. A character
-- (`skit_utf8c`, a `uint8_t`) is a number; a C string literal's character is written by its code.
use c_survival_kit.Common.{
  ℕ, ◌+◌, ◌-◌, ◌≡◌, Bool, true, ◌&&◌, ◌||◌, arith, leb, ◌==◌, if◌then◌else◌,
}
use c_survival_kit.Common.Int.{ℤ, sub_ℕ, is_zero}

abbrev pub is_alpha_lower : ℕ → Bool
is_alpha_lower c = leb b'a' c && leb c b'z'

abbrev pub is_alpha_upper : ℕ → Bool
is_alpha_upper c = leb b'A' c && leb c b'Z'

abbrev pub is_digit : ℕ → Bool
is_digit c = leb b'0' c && leb c b'9'

-- space, tab, carriage return, line feed and vertical tab
abbrev pub is_whitespace : ℕ → Bool
is_whitespace c = c == 32 || c == 9 || c == 13 || c == 10 || c == 11

unfoldable pub to_lower : ℕ → ℕ
to_lower c = if is_alpha_upper c then (c - b'A') + b'a' else c

unfoldable pub to_upper : ℕ → ℕ
to_upper c = if is_alpha_lower c then (c - b'a') + b'A' else c

-- `skit_char_ascii_ccmp`: the difference of the two characters, as a C `int`.
unfoldable pub ccmp : ℕ → ℕ → Bool → ℤ
unfolding to_lower
ccmp c1 c2 case_sensitive =
    if case_sensitive then sub_ℕ c1 c2 else sub_ℕ (to_lower c1) (to_lower c2)

-- A comparison that minds the case is zero exactly at equal characters.
pub is_zero-ccmp : (a b : ℕ) → is_zero (ccmp a b true) ≡ (a == b)
unfolding ccmp
is_zero-ccmp a b = ground arith
