-- ===== src/Prelude/Utf8.antt =====
-- Go's view of a string as runes: `range`, utf8.ValidString, utf8.RuneCountInString and WriteRune.
use Prim.Native.Nat.{ℕ, zero, suc, ◌+◌, ◌-◌, ◌*◌, ◌/◌, ◌%◌}
use Prim.Native.Char.{code}
use Prim.Native.String.{String}
use mathlib.Core.Path.{◌≡◌, refl}
use mathlib.Core.Bool.{Bool, true, not, ◌&&◌, ◌||◌}
use mathlib.Core.List.{List, [], ◌∷◌, ◌++◌, map}
use anime_portable.Prelude.Tests.{ltb, leb, ◌==◌, if◌then◌else◌}
use anime_portable.Prelude.Lists.{length}
use anime_portable.Prelude.Text.{Str}

-- The rune that stands for a byte that is not part of one.
abbrev pub rune_error : ℕ
rune_error = 0xfffd

between : ℕ → ℕ → ℕ → Bool
between lowest highest x = leb lowest x && leb x highest

is_continuation : ℕ → Bool
unfolding between
is_continuation x = between 0x80 0xbf x

-- The second byte of a rune of three bytes: no overlong forms and no surrogates.
is_second_of_three : ℕ → ℕ → Bool
unfolding between
is_second_of_three x y =
    between (if x == 0xe0 then 0xa0 else 0x80) (if x == 0xed then 0x9f else 0xbf) y

-- The second byte of a rune of four bytes: no overlong forms and none above U+10FFFF.
is_second_of_four : ℕ → ℕ → Bool
unfolding between
is_second_of_four x y =
    between (if x == 0xf0 then 0x90 else 0x80) (if x == 0xf4 then 0x8f else 0xbf) y

decode_two : ℕ → Str → ℕ × ℕ
unfolding is_continuation
decode_two x [] = (rune_error, 1)
decode_two x (y ∷ s) =
    if is_continuation y then ((x - 0xc0) * 64 + (y - 0x80), 2) else (rune_error, 1)

decode_three : ℕ → Str → ℕ × ℕ
unfolding is_continuation is_second_of_three
decode_three x [] = (rune_error, 1)
decode_three x (y ∷ []) = (rune_error, 1)
decode_three x (y ∷ z ∷ s) =
    if is_second_of_three x y && is_continuation z
    then (((x - 0xe0) * 64 + (y - 0x80)) * 64 + (z - 0x80), 3)
    else (rune_error, 1)

decode_four : ℕ → Str → ℕ × ℕ
unfolding is_continuation is_second_of_four
decode_four x [] = (rune_error, 1)
decode_four x (y ∷ []) = (rune_error, 1)
decode_four x (y ∷ z ∷ []) = (rune_error, 1)
decode_four x (y ∷ z ∷ u ∷ s) =
    if is_second_of_four x y && is_continuation z && is_continuation u
    then ((((x - 0xf0) * 64 + (y - 0x80)) * 64 + (z - 0x80)) * 64 + (u - 0x80), 4)
    else (rune_error, 1)

-- utf8.DecodeRuneInString of a byte and what follows it: the rune and its width.
decode_rune : ℕ → Str → ℕ × ℕ
unfolding between decode_two decode_three decode_four
decode_rune x s =
    if ltb x 0x80
    then (x, 1)
    else if between 0xc2 0xdf x
    then decode_two x s
    else if between 0xe0 0xef x
    then decode_three x s
    else if between 0xf0 0xf4 x
    then decode_four x s
    else (rune_error, 1)

-- The runes of a string with their widths; `skip` bytes belong to a rune already read.
decoded : ℕ → Str → List (ℕ × ℕ)
unfolding decode_rune
decoded skip [] = []
decoded (suc skip) (x ∷ s) = decoded skip s
decoded zero (x ∷ s) = let (rune, width) = decode_rune x s in (rune, width) ∷ decoded (width - 1) s

all_valid : List (ℕ × ℕ) → Bool
all_valid [] = true
all_valid ((rune, width) ∷ rest) = not (rune == rune_error && width == 1) && all_valid rest

unfoldable pub runes : Str → List ℕ
unfolding decoded
runes s = map (λ (r : ℕ × ℕ). r.0) (decoded 0 s)

unfoldable pub is_valid_utf8 : Str → Bool
unfolding decoded all_valid
is_valid_utf8 s = all_valid (decoded 0 s)

unfoldable pub rune_count : Str → ℕ
unfolding runes
rune_count s = length (runes s)

abbrev pub encode_rune : ℕ → Str
encode_rune r =
    if ltb r 0x80
    then r ∷ []
    else if ltb r 0x800
    then (0xc0 + r / 64) ∷ (0x80 + r % 64) ∷ []
    else if ltb r 0x10000
    then (0xe0 + r / 4096) ∷ (0x80 + r / 64 % 64) ∷ (0x80 + r % 64) ∷ []
    else (0xf0 + r / 262144) ∷ (0x80 + r / 4096 % 64) ∷ (0x80 + r / 64 % 64) ∷ (0x80 + r % 64) ∷ []

abbrev pub encode : List ℕ → Str
encode [] = []
encode (r ∷ rs) = encode_rune r ++ encode rs

-- The bytes of a literal.
abbrev pub utf8 : String → Str
utf8 String.[] = []
utf8 (String.◌∷◌ c s) = encode_rune (code c) ++ utf8 s

-- unicode.IsSpace
unfoldable pub is_space_rune : ℕ → Bool
unfolding between
is_space_rune r =
    between 9 13 r
    || r == 32
    || r == 0x85
    || r == 0xa0
    || r == 0x1680
    || between 0x2000 0x200a r
    || r == 0x2028
    || r == 0x2029
    || r == 0x202f
    || r == 0x205f
    || r == 0x3000

utf8_example : runes (utf8 "aé之𝄞") ≡ 0x61 ∷ 0xe9 ∷ 0x4e4b ∷ 0x1d11e ∷ []
unfolding runes decoded decode_rune decode_two decode_three decode_four between is_continuation
    is_second_of_three is_second_of_four
utf8_example = refl
