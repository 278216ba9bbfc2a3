-- ===== src/Playback/Completion.antt =====
-- The completion threshold of core/playback_tracking.go against exact arithmetic.
use anime_portable.Prelude.{
  ℕ, zero, suc, ◌*◌, ◌≤◌, ◌<◌, pos, negsuc, Duration, true, ◌≡◌, ◌↔◌, arith, refl, leb, not, ◌&&◌,
  pos_part,
}
use anime_portable.Playback.{
  is_completion_reached, to_float64, is_quotient_ge_nine_tenths, is_negative, is_positive,
}

-- A number below 2 ^ 53 is its own float64.
pub to_float64-small : (n : ℕ) → n < 9007199254740992 → to_float64 n ≡ n
unfolding to_float64
to_float64-small n h = ground arith

quotient-exact :
    (a b : ℕ)
    → 0 < b
    → b < 2251799813685248
    → (is_quotient_ge_nine_tenths a b ≡ true) ↔ (9 * b ≤ 10 * a)
unfolding is_quotient_ge_nine_tenths
quotient-exact a b h k = ground arith

-- An episode shorter than 2 ^ 51 nanoseconds (26 days), at a position below 2 ^ 53, counts as
-- completed, in float64 arithmetic with its rounding, exactly when its length is positive, the
-- position is not negative, and ten times the position is at least nine times the length.
pub is_completion_reached-exact :
    (position duration : Duration)
    → pos_part duration < 2251799813685248
    → pos_part position < 9007199254740992
    → is_completion_reached position duration ≡ (
        not (is_negative position)
        && is_positive duration
        && leb (9 * pos_part duration) (10 * pos_part position))
unfolding is_completion_reached
is_completion_reached-exact (negsuc p) d short within = refl
is_completion_reached-exact (pos p) (negsuc d) short within = refl
is_completion_reached-exact (pos p) (pos zero) short within = refl
is_completion_reached-exact (pos p) (pos (suc d)) short within =
    rw (to_float64-small p within, to_float64-small (suc d) (omega arith))
      (ground (arith, quotient-exact p (suc d)))
