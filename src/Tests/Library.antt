-- ===== src/Tests/Library.antt =====
-- Followed anime of core/following.go in which the properties' hypotheses hold.
use anime_portable.Prelude.{
  ℕ, ◌+◌, ◌-◌, ◌≤◌, ◌<◌, leb, if◌then◌else◌, In, Str, bytes, str_eq, str_lt, trim_space, pos, ◌≡◌,
  refl, true, false, ◌&&◌, none, some, List, [], ◌∷◌, here, there,
}
use anime_portable.Models.{EpisodeId, EpisodeMapping, FollowingEntry}
use anime_portable.Library.Numbers.{
  nan, finite, FloatParser, NumberMap, number_of, has_id, episode_number_value, highest_numbered,
  consider, watched_up_to,
}
use anime_portable.Library.Numbers.Picked.{IsEligible}
use anime_portable.Library.Following.{following_entry, mark_recent_update}
use anime_portable.Library.Following.Noted.{IsLatest}
use anime_portable.Library.Following.Recent.{
  latest_value, recent_update_sound, recent_update_earliest,
}

-- A parser of one digit.
parse_digit : FloatParser
parse_digit [] = (nan, false)
parse_digit (d ∷ []) = if leb 48 d && leb d 57 then (finite (pos (d - 48)), true) else (nan, false)
parse_digit (d ∷ e ∷ rest) = (nan, false)

abbrev first : EpisodeId × Str
first = (bytes "e1", bytes "1")

abbrev second : EpisodeId × Str
second = (bytes "e2", bytes "2")

abbrev numbers : NumberMap
numbers = first ∷ second ∷ []

first-IsEligible : IsEligible parse_digit none (bytes "e1") (bytes "1") (pos 1)
unfolding episode_number_value parse_digit trim_space
first-IsEligible = record { inside = refl; plain = refl }

swap_In :
    {x y : EpisodeId × Str} (entry : EpisodeId × Str)
    → In entry (x ∷ y ∷ [])
    → In entry (y ∷ x ∷ [])
swap_In entry here = there here
swap_In entry (there here) = here
swap_In entry (there (there i)) = elim i [ ]

-- Episode 1 is watched, and episode 2 is new.
new_episode-eq :
    (following_entry parse_digit
      (bytes "frieren")
      numbers
      (some (bytes "e1" ∷ []))
      (bytes "e1")).new_episode
    ≡ true
unfolding following_entry highest_numbered consider watched_up_to number_of episode_number_value
    parse_digit trim_space has_id str_eq str_lt
new_episode-eq = refl

e1-has : has_id (bytes "e1" ∷ []) (bytes "e1") ≡ true
unfolding has_id str_eq
e1-has = refl

e1-plain :
    episode_number_value parse_digit (number_of numbers (bytes "e1")) ≡ (finite (pos 1), true)
unfolding number_of episode_number_value parse_digit trim_space str_eq
e1-plain = refl

abbrev mapping_of : EpisodeId × Str → ℕ → EpisodeMapping
mapping_of (id, number) at = record {
  anime_id = bytes "frieren";
  episode_id = id;
  ref = record { anime = record { provider = bytes "anime1"; id = bytes "7" }; id = id };
  number = number;
  first_seen_at = at;
}

abbrev mappings : List EpisodeMapping
mappings = mapping_of first 10 ∷ mapping_of second 30 ∷ []

abbrev entry : FollowingEntry
entry = record {
  anime_id = bytes "frieren";
  latest_available = bytes "e2";
  latest_available_number = bytes "2";
  latest_watched = bytes "e1";
  latest_watched_number = bytes "1";
  has_available = true;
  has_watched = true;
  new_episode = true;
  latest_seen_at = 0;
  recently_updated = false;
}

-- Followed at 20, and the list with episode 2 came at 30.
updated-eq :
    (mark_recent_update parse_digit entry mappings numbers (bytes "e1" ∷ []) 20 40).recently_updated
    ≡ true
unfolding mark_recent_update watched_up_to number_of episode_number_value parse_digit trim_space
    str_eq
updated-eq = refl

recent_update_sound_example :
    let marked = mark_recent_update parse_digit entry mappings numbers (bytes "e1" ∷ []) 20 40 in
    (20 < marked.latest_seen_at)
    × (40 ≤ marked.latest_seen_at + 604800000000000)
    × ((m : EpisodeMapping) × In m mappings
        × IsLatest parse_digit numbers (latest_value parse_digit entry) m
        × (marked.latest_seen_at ≡ m.first_seen_at))
    × ((m : EpisodeMapping) × In m mappings × (m.first_seen_at < marked.latest_seen_at))
    × (watched_up_to parse_digit numbers (bytes "e1" ∷ []) (bytes "2") ≡ false)
recent_update_sound_example =
    recent_update_sound parse_digit entry mappings numbers (bytes "e1" ∷ []) 20 40 refl refl
      updated-eq

second-IsLatest :
    IsLatest parse_digit numbers (latest_value parse_digit entry) (mapping_of second 30)
unfolding number_of episode_number_value parse_digit trim_space str_eq
second-IsLatest = record { value = finite (pos 2); plain = refl; same = refl }

recent_update_earliest_example :
    let marked = mark_recent_update parse_digit entry mappings numbers (bytes "e1" ∷ []) 20 40 in
    (0 < 30) × (marked.latest_seen_at ≤ 30)
recent_update_earliest_example =
    recent_update_earliest parse_digit entry mappings numbers (bytes "e1" ∷ []) 20 40
      (mapping_of second 30) refl updated-eq (there here) second-IsLatest
