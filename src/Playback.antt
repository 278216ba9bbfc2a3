-- ===== src/Playback.antt =====
-- core/playback_tracking.go and core/app.go: the tests on events, positions and snapshots.
pub mod Completion
use anime_portable.Prelude.{
  ℕ, zero, suc, ◌+◌, ◌*◌, ◌/◌, ◌%◌, ◌^◌, ltb, ◌==◌, if◌then◌else◌, pos, negsuc, Duration, pos_part,
  Bool, true, false, not, ◌&&◌, ◌||◌,
}
use anime_portable.Models.{PlaybackEventKind, PlaybackSnapshot}

abbrev pub is_progress : PlaybackEventKind → Bool
is_progress PlaybackEventKind.progress = true
is_progress _ = false

abbrev pub is_ended : PlaybackEventKind → Bool
is_ended PlaybackEventKind.ended = true
is_ended _ = false

abbrev pub is_paused : PlaybackEventKind → Bool
is_paused PlaybackEventKind.paused = true
is_paused _ = false

-- isTerminalPlaybackEvent
abbrev pub is_terminal : PlaybackEventKind → Bool
is_terminal PlaybackEventKind.ended = true
is_terminal PlaybackEventKind.stopped = true
is_terminal PlaybackEventKind.failed = true
is_terminal _ = false

-- isCheckpointBoundary
abbrev pub is_checkpoint_boundary : PlaybackEventKind → Bool
is_checkpoint_boundary PlaybackEventKind.paused = true
is_checkpoint_boundary PlaybackEventKind.ended = true
is_checkpoint_boundary PlaybackEventKind.stopped = true
is_checkpoint_boundary PlaybackEventKind.failed = true
is_checkpoint_boundary _ = false

-- `d < 0`
abbrev pub is_negative : Duration → Bool
is_negative (pos n) = false
is_negative (negsuc n) = true

-- `d > 0`
abbrev pub is_positive : Duration → Bool
is_positive (pos zero) = false
is_positive (pos (suc n)) = true
is_positive (negsuc n) = false

-- validTrackedSnapshot
abbrev pub is_valid_snapshot : PlaybackSnapshot → Bool
is_valid_snapshot snapshot =
    not (is_negative snapshot.position) && not (is_negative snapshot.duration)

-- How many low bits a number below 2 ^ 64 loses in a float64, which keeps 53.
excess_bits : ℕ → ℕ → ℕ
excess_bits zero n = 0
excess_bits (suc fuel) n = if ltb n 9007199254740992 then 0 else suc (excess_bits fuel (n / 2))

-- Drops `bits` low bits, rounding to nearest, ties to even.
round_even : ℕ → ℕ → ℕ
round_even n bits =
    let step = 2 ^ bits in
    let kept = n / step in
    let lost = n % step in
    if ltb step (2 * lost) || ((step == 2 * lost) && (kept % 2 == 1))
    then (kept + 1) * step
    else kept * step

-- float64(n) of an int64 that is not negative; the value is an integer.
unfoldable pub to_float64 : ℕ → ℕ
unfolding excess_bits round_even
to_float64 n = if ltb n 9007199254740992 then n else round_even n (excess_bits 11 n)

-- `a / b >= 0.9` on float64s with positive `b`. The constant is 8106479329266893 / 2 ^ 53, and the
-- quotient rounds to the nearest float64, ties to even. That constant is odd in its last place, so
-- the rounded quotient reaches it exactly when the quotient itself lies above the midpoint to the
-- float64 below, 16212958658533785 / 2 ^ 54.
unfoldable pub is_quotient_ge_nine_tenths : ℕ → ℕ → Bool
is_quotient_ge_nine_tenths a b = ltb (16212958658533785 * b) (18014398509481984 * a)

-- completionThresholdReached
unfoldable pub is_completion_reached : Duration → Duration → Bool
is_completion_reached position duration =
    not (is_negative position)
    && is_positive duration
    && is_quotient_ge_nine_tenths (to_float64 (pos_part position)) (to_float64 (pos_part duration))
