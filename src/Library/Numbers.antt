-- ===== src/Library/Numbers.antt =====
-- core/following.go: episode numbers and the episodes that have them.
-- A float64 is not modelled bit by bit: a finite one is an integer multiple of 2 ^ -1074, and
-- `finite k` is the one that is k times that, so that comparisons are comparisons of integers.
-- strconv.ParseFloat is a parameter: its value, and whether its error is nil.
-- A map is the list of its entries in the order of an iteration, which Go does not fix.
pub mod Picked
pub mod Highest
pub mod Watched
use anime_portable.Prelude.{
  ℤ, pos, ltb_ℤ, eq_ℤ, Str, str_eq, str_lt, is_empty, trim_space, Bool, true, false, not, ◌&&◌,
  ◌||◌, Option, none, some, List, [], ◌∷◌, if◌then◌else◌,
}
use anime_portable.Models.{EpisodeId, EpisodeMapping}

pub data Float : Type 0 where
  nan : Float
  infinite : Bool → Float
  finite : ℤ → Float

-- math.IsNaN and math.IsInf(value, 0)
abbrev pub is_nan : Float → Bool
is_nan nan = true
is_nan (infinite negative) = false
is_nan (finite k) = false

abbrev pub is_inf : Float → Bool
is_inf (infinite negative) = true
is_inf nan = false
is_inf (finite k) = false

-- `a < b`, `a == b` and `a >= b` on float64s; the argument of `infinite` is its sign.
abbrev pub float_lt : Float → Float → Bool
float_lt (finite a) (finite b) = ltb_ℤ a b
float_lt (finite a) (infinite negative) = not negative
float_lt (infinite negative) (finite b) = negative
float_lt (infinite a) (infinite b) = a && not b
float_lt nan b = false
float_lt a nan = false

abbrev pub float_eq : Float → Float → Bool
float_eq (finite a) (finite b) = eq_ℤ a b
float_eq (infinite a) (infinite b) = (a && b) || (not a && not b)
float_eq a b = false

abbrev pub float_ge : Float → Float → Bool
float_ge a b = float_lt b a || float_eq a b

abbrev pub FloatParser : Type 0
FloatParser = Str → Float × Bool

-- map[EpisodeID]string
abbrev pub NumberMap : Type 0
NumberMap = List (EpisodeId × Str)

-- `numbers[id]`, "" for a missing key.
unfoldable pub number_of : NumberMap → EpisodeId → Str
number_of [] id = []
number_of ((key, number) ∷ rest) id = if str_eq key id then number else number_of rest id

-- `numbers[id] = number`
unfoldable pub set_number : NumberMap → EpisodeId → Str → NumberMap
set_number [] id number = (id, number) ∷ []
set_number ((key, old) ∷ rest) id number =
    if str_eq key id then (key, number) ∷ rest else (key, old) ∷ set_number rest id number

add_mapping : NumberMap → EpisodeMapping → NumberMap
add_mapping numbers mapping =
    let number = trim_space mapping.number in
    if is_empty mapping.episode_id
    then numbers
    else if not (is_empty number) || is_empty (number_of numbers mapping.episode_id)
    then set_number numbers mapping.episode_id number
    else numbers

add_mappings : NumberMap → List EpisodeMapping → NumberMap
add_mappings numbers [] = numbers
add_mappings numbers (mapping ∷ mappings) = add_mappings (add_mapping numbers mapping) mappings

-- episodeNumbers
unfoldable pub episode_numbers : List EpisodeMapping → NumberMap
unfolding add_mappings add_mapping
episode_numbers mappings = add_mappings [] mappings

-- Whether a set of episodes has the id.
unfoldable pub has_id : List EpisodeId → EpisodeId → Bool
has_id [] id = false
has_id (x ∷ xs) id = str_eq x id || has_id xs id

-- A nil map sets no limit.
abbrev is_within : Option (List EpisodeId) → EpisodeId → Bool
is_within none id = true
is_within (some ids) id = has_id ids id

-- The variables `best`, `bestValue` and `found` of highestNumbered.
pub record Best : Type 0 where
  pub best : EpisodeId
  pub best_value : Float
  pub found : Bool

pub is_better : EpisodeId → Float → Best → Bool
is_better id value b =
    not b.found || float_lt b.best_value value || (float_eq value b.best_value && str_lt b.best id)

module _ (parse_float : FloatParser) where
  -- EpisodeNumberValue
  unfoldable pub episode_number_value : Str → Float × Bool
  episode_number_value number =
      let (value, parsed) = parse_float (trim_space number) in
      (value, parsed && not (is_nan value) && not (is_inf value))

  -- EpisodeNumberLess
  unfoldable pub episode_number_less : Str → Str → Bool
  episode_number_less left right =
      let (left_value, left_ok) = episode_number_value left in
      let (right_value, right_ok) = episode_number_value right in
      if (left_ok && not right_ok) || (not left_ok && right_ok)
      then left_ok
      else left_ok && float_lt left_value right_value

  unfoldable pub consider : Option (List EpisodeId) → EpisodeId → Str → Best → Best
  unfolding is_better
  consider within id number b =
      let (value, ok) = episode_number_value number in
      if not (is_within within id)
      then b
      else if not ok
      then b
      else if is_better id value b
      then record { best = id; best_value = value; found = true }
      else b

  pub consider_all : Option (List EpisodeId) → NumberMap → Best → Best
  consider_all within [] b = b
  consider_all within ((id, number) ∷ rest) b =
      consider_all within rest (consider within id number b)

  -- highestNumbered
  unfoldable pub highest_numbered : NumberMap → Option (List EpisodeId) → EpisodeId × Bool
  unfolding consider_all
  highest_numbered numbers within =
      let b =
        consider_all within numbers
          (record { best = []; best_value = finite (pos 0); found = false }) in
      (b.best, b.found)

  -- watchedUpTo, over the ids of the watched episodes.
  watched_at_least : NumberMap → List EpisodeId → Float → Bool
  watched_at_least numbers [] latest_value = false
  watched_at_least numbers (id ∷ rest) latest_value =
      let (value, ok) = episode_number_value (number_of numbers id) in
      (ok && float_ge value latest_value) || watched_at_least numbers rest latest_value

  unfoldable pub watched_up_to : NumberMap → List EpisodeId → Str → Bool
  unfolding watched_at_least
  watched_up_to numbers watched latest =
      watched_at_least numbers watched (episode_number_value latest).0
