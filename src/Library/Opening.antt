-- ===== src/Library/Opening.antt =====
-- core/opening.go: the opening of an episode, chosen among submissions.
pub mod Chosen
pub mod Find
pub mod Found
use anime_portable.Prelude.{
  ◌-◌, if◌then◌else◌, length, pos, ◌-ℤ◌, ltb_ℤ, leb_ℤ, Duration, seconds, minutes, max_int64, Bool,
  not, ◌&&◌, ◌||◌, List, [], ◌∷◌,
}

-- MaxOpeningLength and openingLengthTolerance
abbrev pub max_opening_length : Duration
max_opening_length = minutes 4

abbrev pub opening_length_tolerance : Duration
opening_length_tolerance = seconds 5

pub record Opening : Type 0 where
  pub start : Duration
  pub end : Duration

pub record OpeningCandidate : Type 0 where
  pub opening : Opening
  pub episode_length : Duration

-- `Opening{}`
abbrev pub no_opening : Opening
no_opening = record { start = pos 0; end = pos 0 }

-- `(a - b).Abs()` on lengths that are positive, so that the difference is an int64 above its minimum.
unfoldable pub gap : Duration → Duration → Duration
gap a b = if leb_ℤ b a then a -ℤ b else b -ℤ a

-- validOpening; its difference is taken where both ends are in [0, length].
unfoldable pub is_valid_opening : Opening → Duration → Bool
is_valid_opening opening length =
    leb_ℤ (pos 0) opening.start
    && ltb_ℤ opening.start opening.end
    && leb_ℤ opening.end length
    && leb_ℤ (opening.end -ℤ opening.start) max_opening_length

-- The variables of the loop of ChooseOpening: `best` and `bestGap`.
pub record Choice : Type 0 where
  pub best : Opening
  pub best_gap : Duration

-- The candidates that the loop does not pass over.
unfoldable pub fits : Duration → OpeningCandidate → Bool
fits length candidate =
    is_valid_opening candidate.opening length
    && ltb_ℤ (pos 0) candidate.episode_length
    && leb_ℤ (gap candidate.episode_length length) opening_length_tolerance

-- One turn of the loop.
unfoldable pub consider_opening : Duration → OpeningCandidate → Choice → Choice
consider_opening length candidate choice =
    let closeness = gap candidate.episode_length length in
    if not (is_valid_opening candidate.opening length) || leb_ℤ candidate.episode_length (pos 0)
    then choice
    else if leb_ℤ closeness opening_length_tolerance && ltb_ℤ closeness choice.best_gap
    then record { best = candidate.opening; best_gap = closeness }
    else choice

unfoldable pub consider_openings : Duration → List OpeningCandidate → Choice → Choice
consider_openings length [] choice = choice
consider_openings length (candidate ∷ candidates) choice =
    consider_openings length candidates (consider_opening length candidate choice)

-- ChooseOpening
unfoldable pub choose_opening : List OpeningCandidate → Duration → Opening × Bool
choose_opening candidates length =
    let choice =
      consider_openings length candidates
        (record { best = no_opening; best_gap = pos max_int64 }) in
    (choice.best, leb_ℤ choice.best_gap opening_length_tolerance)
