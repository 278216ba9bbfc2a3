-- ===== src/Views/Rows/Position.antt =====
-- The positions that formatPosition of apps/desktop/fltkhome/model.go writes.
use anime_portable.Prelude.{
  ℕ, ◌+◌, ◌-◌, ◌*◌, ◌/◌, ◌%◌, ◌<◌, ◌==◌, if◌then◌else◌, All, Str, ℤ, pos_part, minutes, ◌≡◌, refl,
  ◌∙◌, [], ◌∷◌, ◌++◌, arith, digits, decimal, digits-All, decimal-digits,
}
use anime_portable.Views.Rows.{format_position, two_digits}

-- The seconds of a text of minutes and seconds, after minutes that are read already.
abbrev pub read_position : ℕ → Str → ℕ
read_position minutes [] = minutes
read_position minutes (x ∷ s) =
    let rest = read_position (10 * minutes + (x - 0x30)) s in
    if x == 0x3A then 60 * minutes + decimal 0 s else rest

read_position-append :
    (n : ℕ) (s t : Str)
    → All (λ x. x < 0x3A) s
    → read_position n (s ++ 0x3A ∷ t) ≡ 60 * decimal n s + decimal 0 t
unfolding decimal
read_position-append n [] t h = refl
read_position-append n (x ∷ s) t h =
    ground (arith, read_position-append (10 * n + (x - 0x30)) s t h.1, h.0)

decimal-two_digits : (n : ℕ) → decimal 0 (two_digits n) ≡ n
unfolding decimal two_digits
decimal-two_digits n = omega arith

-- A position is shown in whole seconds, and a negative one as none: the minutes and the seconds of the
-- text give back its count of seconds.
pub position_shown :
    (position : ℤ) → read_position 0 (format_position position) ≡ pos_part position / 1000
unfolding format_position
position_shown position =
    let seconds = pos_part position / 1000 in
    read_position-append 0 (digits (seconds / 60)) (two_digits (seconds % 60))
      (digits-All (seconds / 60))
    ∙ omega (arith, decimal-digits (seconds / 60), decimal-two_digits (seconds % 60))
