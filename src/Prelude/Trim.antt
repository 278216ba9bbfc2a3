-- ===== src/Prelude/Trim.antt =====
-- strings.TrimSpace on the bytes of a string: the Unicode spaces in their UTF-8 encodings.
use Prim.Native.Nat.{ℕ, zero, suc, ◌+◌, ◌-◌, ◌≤◌}
use mathlib.Core.Logic.{inl, inr}
use native.Mathlib.Omega.{arith}
use mathlib.Core.Bool.{Bool, ◌&&◌, ◌||◌}
use mathlib.Core.List.{List, [], ◌∷◌, ◌++◌, reverse, reverse_aux}
use anime_portable.Prelude.Tests.{leb, ◌==◌, if◌then◌else◌, Bool-cases}
use anime_portable.Prelude.Lists.{All, All-append, length, length-append}
use anime_portable.Prelude.Text.{Str}

-- The spaces of one byte: tab, line feed, vertical tab, form feed, carriage return and space.
is_space_byte : ℕ → Bool
is_space_byte x = (leb 9 x && leb x 13) || (x == 32)

-- U+0085 and U+00A0.
is_space_pair : ℕ → ℕ → Bool
is_space_pair x y = (x == 0xc2) && ((y == 0x85) || (y == 0xa0))

-- U+1680, U+2000 to U+200A, U+2028, U+2029, U+202F, U+205F and U+3000.
is_space_triple : ℕ → ℕ → ℕ → Bool
is_space_triple x y z =
    ((x == 0xe1) && (y == 0x9a) && (z == 0x80))
    || ((x == 0xe2)
        && (y == 0x80)
        && ((leb 0x80 z && leb z 0x8a) || (z == 0xa8) || (z == 0xa9) || (z == 0xaf)))
    || ((x == 0xe2) && (y == 0x81) && (z == 0x9f))
    || ((x == 0xe3) && (y == 0x80) && (z == 0x80))

-- How many bytes the space at the front takes; 0 if there is none.
leading_space : Str → ℕ
leading_space [] = 0
leading_space (x ∷ []) = if is_space_byte x then 1 else 0
leading_space (x ∷ y ∷ []) = if is_space_byte x then 1 else if is_space_pair x y then 2 else 0
leading_space (x ∷ y ∷ z ∷ s) =
    if is_space_byte x
    then 1
    else if is_space_pair x y
    then 2
    else if is_space_triple x y z
    then 3
    else 0

-- The same at the front of a reversed string.
trailing_space : Str → ℕ
trailing_space [] = 0
trailing_space (x ∷ []) = if is_space_byte x then 1 else 0
trailing_space (x ∷ y ∷ []) = if is_space_byte x then 1 else if is_space_pair y x then 2 else 0
trailing_space (x ∷ y ∷ z ∷ s) =
    if is_space_byte x
    then 1
    else if is_space_pair y x
    then 2
    else if is_space_triple z y x
    then 3
    else 0

-- Drops spaces, of the widths that `width` finds; `skip` bytes belong to a space already found.
drop_spaces : (Str → ℕ) → ℕ → Str → Str
drop_spaces width skip [] = []
drop_spaces width (suc skip) (x ∷ s) = drop_spaces width skip s
drop_spaces width zero (x ∷ s) =
    let found = width (x ∷ s) in
    let rest = drop_spaces width (found - 1) s in if found == 0 then x ∷ s else rest

unfoldable pub trim_space : Str → Str
unfolding leading_space trailing_space drop_spaces is_space_byte is_space_pair is_space_triple
trim_space s = reverse (drop_spaces trailing_space 0 (reverse (drop_spaces leading_space 0 s)))

word_before : Str → List Str → List Str
word_before [] words = words
word_before (x ∷ word) words = (x ∷ word) ∷ words

-- The words of what is left after `word`; `skip` bytes belong to a space already found.
fields_from : ℕ → Str → Str → List Str
unfolding word_before
fields_from skip word [] = word_before word []
fields_from (suc skip) word (x ∷ s) = fields_from skip word s
fields_from zero word (x ∷ s) =
    let width = leading_space (x ∷ s) in
    let is_word = width == 0 in
    let rest = fields_from (width - 1) (if is_word then word ++ x ∷ [] else []) s in
    if is_word then rest else word_before word rest

-- strings.Fields
unfoldable pub fields : Str → List Str
unfolding fields_from leading_space is_space_byte is_space_pair is_space_triple
fields s = fields_from 0 [] s

module _ (P : ℕ → Type 0) where
  drop_spaces-All :
      (width : Str → ℕ) (skip : ℕ) (s : Str) → All P s → All P (drop_spaces width skip s)
  unfolding drop_spaces
  drop_spaces-All width skip [] h = tt
  drop_spaces-All width (suc skip) (x ∷ s) h = drop_spaces-All width skip s h.1
  drop_spaces-All width zero (x ∷ s) h = elim (Bool-cases (width (x ∷ s) == 0)) [
    | inl none_found ↦ rw none_found h
    | inr found ↦ rw found (drop_spaces-All width (width (x ∷ s) - 1) s h.1)
  ]

  reverse_aux-All : (s r : Str) → All P s → All P r → All P (reverse_aux s r)
  reverse_aux-All [] r h k = k
  reverse_aux-All (x ∷ s) r h k = reverse_aux-All s (x ∷ r) h.1 (h.0, k)

  reverse-All : (s : Str) → All P s → All P (reverse s)
  reverse-All s h = reverse_aux-All s [] h tt

  -- What holds of every byte holds after the spaces at the ends are gone.
  pub trim_space-All : (s : Str) → All P s → All P (trim_space s)
  unfolding trim_space
  trim_space-All s h =
      let front = drop_spaces leading_space 0 s in
      reverse-All (drop_spaces trailing_space 0 (reverse front)) (
        drop_spaces-All trailing_space 0 (reverse front)
          (reverse-All front (drop_spaces-All leading_space 0 s h)))

  word_before-All :
      (word : Str) (words : List Str)
      → All P word
      → All (All P) words
      → All (All P) (word_before word words)
  unfolding word_before
  word_before-All [] words h k = k
  word_before-All (x ∷ word) words h k = (h, k)

  fields_from-All :
      (skip : ℕ) (word s : Str) → All P word → All P s → All (All P) (fields_from skip word s)
  unfolding fields_from
  fields_from-All skip word [] h k = word_before-All word [] h tt
  fields_from-All (suc skip) word (x ∷ s) h k = fields_from-All skip word s h k.1
  fields_from-All zero word (x ∷ s) h k = elim (Bool-cases (leading_space (x ∷ s) == 0)) [
    | inl letter ↦ rw letter (
        fields_from-All (leading_space (x ∷ s) - 1) (word ++ x ∷ []) s
          (All-append P word (x ∷ []) h (k.0, tt)) k.1)
    | inr space ↦ rw space (
        word_before-All word (fields_from (leading_space (x ∷ s) - 1) [] s) h
          (fields_from-All (leading_space (x ∷ s) - 1) [] s tt k.1))
  ]

  pub fields-All : (s : Str) → All P s → All (All P) (fields s)
  unfolding fields
  fields-All s h = fields_from-All 0 [] s tt h

-- The bytes of words with one more for each.
abbrev pub spaced_length : List Str → ℕ
spaced_length [] = 0
spaced_length (word ∷ words) = length word + 1 + spaced_length words

spaced_length-word_before :
    (word : Str) (words : List Str)
    → spaced_length (word_before word words) ≤ length word + 1 + spaced_length words
unfolding word_before
spaced_length-word_before [] words = omega arith
spaced_length-word_before (x ∷ word) words = omega arith

spaced_length-fields_from :
    (skip : ℕ) (word s : Str) → spaced_length (fields_from skip word s) ≤ length word + 1 + length s
unfolding fields_from
spaced_length-fields_from skip word [] = omega (arith, spaced_length-word_before word [])
spaced_length-fields_from (suc skip) word (x ∷ s) =
    omega (arith, spaced_length-fields_from skip word s)
spaced_length-fields_from zero word (x ∷ s) = elim (Bool-cases (leading_space (x ∷ s) == 0)) [
  | inl letter ↦ rw letter (
      omega (
        arith,
        spaced_length-fields_from (leading_space (x ∷ s) - 1) (word ++ x ∷ []) s,
        length-append word (x ∷ []),
      ))
  | inr space ↦ rw space (
      omega (
        arith,
        spaced_length-fields_from (leading_space (x ∷ s) - 1) [] s,
        spaced_length-word_before word (fields_from (leading_space (x ∷ s) - 1) [] s),
      ))
]

-- The words of a string, with one byte between them, are no longer than the string.
pub spaced_length-fields : (s : Str) → spaced_length (fields s) ≤ 1 + length s
unfolding fields
spaced_length-fields s = spaced_length-fields_from 0 [] s
