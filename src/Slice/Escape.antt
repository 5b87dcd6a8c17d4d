-- ===== src/Slice/Escape.antt =====
-- `skit_slice_escapify` of survival_kit/string.c.
use mathlib.Core.Path.{subst}
use c_survival_kit.Common.{
  ℕ, ◌+◌, ◌-◌, ◌/◌, ◌%◌, ◌≤◌, ◌<◌, ◌≡◌, refl, ap, ◌∙◌, inl, inr, Bool, true, not, ◌&&◌, List, [],
  ◌∷◌, ◌++◌, leb, ltb, ◌==◌, if◌then◌else◌, arith, take, drop, Option, ◌^◌, length, length-append,
  Bool-cases, append_assoc, append-nil,
}
use c_survival_kit.Slice.Core.{Slice, chars, slice_of}
use c_survival_kit.Common.Int.{pos}
use c_survival_kit.Slice.Bounds.{IsWithin, IsCut, front-IsCut, take-take, mask_small}
use c_survival_kit.Slice.Loaf.{resized, length-loaf_resize, write, length-write, take-write}

unfoldable pub is_printable : ℕ → Bool
is_printable c = leb 0x20 c && ltb c 0x7f

-- `skit_escape_table`, where a space stands for a character with no short escape.
unfoldable pub escape_table : ℕ → ℕ
escape_table c =
    if c == 0
    then b'0'
    else if c == 7
    then b'a'
    else if c == 8
    then b'b'
    else if c == 9
    then b't'
    else if c == 10
    then b'n'
    else if c == 12
    then b'f'
    else if c == 13
    then b'r'
    else b' '

unfoldable pub int_to_hex : ℕ → ℕ
int_to_hex x = if ltb x 10 then x + b'0' else x - 10 + b'A'

-- The first loop: the characters that the result takes.
unfoldable pub required_size : List ℕ → ℕ
required_size [] = 0
required_size (c ∷ cs) =
    let rest = required_size cs in
    (if is_printable c then 1 else if not (escape_table c == b' ') then 2 else 4) + rest

-- What the second loop writes for a character.
unfoldable pub escaped : ℕ → List ℕ
escaped c =
    if is_printable c
    then c ∷ []
    else if not (escape_table c == b' ')
    then b'\\' ∷ escape_table c ∷ []
    else b'\\' ∷ b'x' ∷ int_to_hex (c / 16 % 16) ∷ int_to_hex (c % 16) ∷ []

unfoldable pub escape_into : List ℕ → ℕ → List ℕ → List ℕ
escape_into buf j [] = buf
escape_into buf j (c ∷ cs) = escape_into (write buf j (escaped c)) (j + length (escaped c)) cs

-- The loop's result in the buffer, which is a loaf.
unfoldable pub write_escapes : Slice → Slice → Slice
write_escapes str buffer = record {
  block = escape_into buffer.block buffer.offset (chars str);
  offset = buffer.offset;
  length = buffer.length;
}

-- `skit_slice_escapify` of a slice that is no part of the buffer's block: the buffer, and the slice
-- of it that is returned; `none` is the assertion that fails.
unfoldable pub escapify : (fresh : List ℕ) (str buffer : Slice) → Slice × Option Slice
escapify fresh str buffer =
    let req_size = required_size (chars str) in
    let buf = if ltb buffer.length req_size then resized fresh buffer.block req_size else buffer in
    let out = write_escapes str buf in (out, slice_of out (pos 0) (pos req_size))

-- The escapes of all characters, one after the other.
unfoldable pub escapes : List ℕ → List ℕ
escapes [] = []
escapes (c ∷ cs) = escaped c ++ escapes cs

abbrev pub Printable : List ℕ → Type 0
Printable [] = Unit {0}
Printable (c ∷ cs) = (is_printable c ≡ true) × Printable cs

length-escapes : (cs : List ℕ) → length (escapes cs) ≡ required_size cs
unfolding escapes required_size escaped
length-escapes [] = refl
length-escapes (c ∷ cs) = ground (arith, length-escapes cs, length-append (escaped c) (escapes cs))

take-escape_into :
    (buf : List ℕ) (j : ℕ) (cs : List ℕ) (end : ℕ)
    → end ≡ j + length (escapes cs)
    → end ≤ length buf
    → take end (escape_into buf j cs) ≡ take j buf ++ escapes cs
unfolding escape_into escapes
take-escape_into buf j [] end e h = let e' : end ≡ j = omega arith in rw (e', append-nil) refl
take-escape_into buf j (c ∷ cs) end e h =
    let l = length-append (escaped c) (escapes cs) in
    take-escape_into (write buf j (escaped c)) (j + length (escaped c)) cs end (omega (arith, l))
      (omega (arith, length-write buf j (escaped c)))
    ∙ ap (λ xs. xs ++ escapes cs)
        (take-write buf j (escaped c) (j + length (escaped c)) refl (omega (arith, l)))
    ∙ append_assoc (take j buf) (escaped c) (escapes cs)

is_printable-escape_table : (c : ℕ) → is_printable (escape_table c) ≡ true
unfolding is_printable escape_table
is_printable-escape_table c = ground arith

is_printable-int_to_hex : (x : ℕ) → x < 16 → is_printable (int_to_hex x) ≡ true
unfolding is_printable int_to_hex
is_printable-int_to_hex x h = ground arith

is_printable-marks : (is_printable b'\\' ≡ true) × (is_printable b'x' ≡ true)
unfolding is_printable
is_printable-marks = (refl, refl)

escaped-Printable : (c : ℕ) → Printable (escaped c)
unfolding escaped
escaped-Printable c = elim (Bool-cases (is_printable c)) [
  | inl plain ↦ rw (plain, escaped) (plain, tt)
  | inr other ↦ elim (Bool-cases (escape_table c == b' ')) [
    | inl long ↦
        rw (other, long, escaped)
          (
            is_printable-marks.0,
            (
              is_printable-marks.1,
              (
                is_printable-int_to_hex (c / 16 % 16) (omega arith),
                (is_printable-int_to_hex (c % 16) (omega arith), tt),
              ),
            ),
          )
    | inr short ↦
        rw (other, short, escaped) (is_printable-marks.0, (is_printable-escape_table c, tt))
  ]
]

Printable-append : (xs ys : List ℕ) → Printable xs → Printable ys → Printable (xs ++ ys)
Printable-append [] ys p q = q
Printable-append (x ∷ xs) ys p q = (p.0, Printable-append xs ys p.1 q)

escapes-Printable : (cs : List ℕ) → Printable (escapes cs)
unfolding escapes
escapes-Printable [] = tt
escapes-Printable (c ∷ cs) =
    Printable-append (escaped c) (escapes cs) (escaped-Printable c) (escapes-Printable cs)

-- A loaf's slice starts with its block.
pub record IsLoaf (s : Slice) : Type 0 where
  pub at_start : s.offset ≡ 0
  pub is_within : IsWithin s

length-escape_into :
    (buf : List ℕ) (j : ℕ) (cs : List ℕ) → length (escape_into buf j cs) ≡ length buf
unfolding escape_into
length-escape_into buf j [] = refl
length-escape_into buf j (c ∷ cs) =
    length-escape_into (write buf j (escaped c)) (j + length (escaped c)) cs
    ∙ length-write buf j (escaped c)

-- Writing to a loaf that has room, and cutting the escapes from it.
write_escapes-IsCut :
    (str buf : Slice)
    → IsLoaf buf
    → required_size (chars str) ≤ buf.length
    → IsCut
        (write_escapes str buf)
        (escapes (chars str))
        (slice_of (write_escapes str buf) (pos 0) (pos (required_size (chars str))))
unfolding write_escapes
write_escapes-IsCut str buf is room =
    let out = write_escapes str buf in
    let req = required_size (chars str) in
    let kept = length-escape_into buf.block buf.offset (chars str) in
    let size = length-escapes (chars str) in
    let within : IsWithin out = record {
      fits = omega (arith, is.is_within.fits, kept);
      small = omega (arith, is.is_within.small, kept);
    } in
    let written : take req (drop 0 out.block) ≡ escapes (chars str) =
      ap (λ j. take req (escape_into buf.block j (chars str))) is.at_start
      ∙ take-escape_into buf.block 0 (chars str) req (omega arith)
          (omega (arith, is.is_within.fits)) in
    let spelled : take req (chars out) ≡ escapes (chars str) =
      take-take req out.length (drop out.offset out.block) room
      ∙ ap (λ n. take req (drop n out.block)) is.at_start
      ∙ written in
    subst (λ cs. IsCut out cs (slice_of out (pos 0) (pos req))) spelled
      (front-IsCut out req within room)

resized-IsLoaf :
    (fresh block : List ℕ) (n : ℕ)
    → n ≤ length fresh
    → n < 2 ^ 28
    → IsLoaf (resized fresh block n) × (n ≤ (resized fresh block n).length)
unfolding resized
resized-IsLoaf fresh block n enough small =
    let size = length-loaf_resize fresh block n enough in
    let len = mask_small n small in
    (
      record {
        at_start = refl;
        is_within = record { fits = omega (arith, size, len); small = omega (arith, size) };
      },
      omega (arith, len),
    )

-- Where the escapes have fewer than 2^28 characters, `skit_slice_escapify` passes its assertion
-- and returns a slice of the buffer with the escapes of the characters one after the other, each
-- as it is if it is printable, else as a backslash and a letter, else as a backslash, x and two
-- hexadecimal digits; the first loop has counted as many characters as the second writes, and all
-- of them are printable. The buffer is a loaf that lies within its block, which is not the block
-- of the text, and the allocator gives as many bytes as are asked for.
pub escapify-escapes :
    (fresh : List ℕ) (str buffer : Slice)
    → IsLoaf buffer
    → required_size (chars str) ≤ length fresh
    → required_size (chars str) < 2 ^ 28
    → IsCut (escapify fresh str buffer).0 (escapes (chars str)) (escapify fresh str buffer).1
      × Printable (escapes (chars str))
unfolding escapify
escapify-escapes fresh str buffer is enough small = (
  elim (Bool-cases (ltb buffer.length (required_size (chars str)))) [
    | inl grows ↦
        let (loaf, room) =
          resized-IsLoaf fresh buffer.block (required_size (chars str)) enough small in
        rw grows (
          write_escapes-IsCut str (resized fresh buffer.block (required_size (chars str))) loaf
            room)
    | inr fits ↦ rw fits (write_escapes-IsCut str buffer is (ground (arith, fits)))
  ],
  escapes-Printable (chars str),
)
