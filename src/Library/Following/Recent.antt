-- ===== src/Library/Following/Recent.antt =====
-- markRecentUpdate of core/following.go: which episode lists count as a recent update.
use anime_portable.Prelude.{
  ◌+◌, ◌≤◌, ◌<◌, In, ◌≡◌, ◌∙◌, ◌≢◌, ◌⊎◌, inl, inr, true, false, List, arith,
}
use anime_portable.Models.{EpisodeId, Time, EpisodeMapping, FollowingEntry}
use anime_portable.Library.Numbers.{
  Float, FloatParser, NumberMap, episode_number_value, watched_up_to,
}
use anime_portable.Library.Following.Noted.{
  noted, IsLatest, notes_all, IsLatest-of_all, list_of_all, unknown_of_all, first_of_all,
}
use anime_portable.Library.Following.{Seen, mark_seen, mark_recent_update}

abbrev start : FollowingEntry → Seen
start entry = record {
  first_list = 0;
  unknown_times = false;
  latest_known_before = false;
  latest_seen_at = entry.latest_seen_at;
}

module _ (parse_float : FloatParser) where
  abbrev pub latest_value : FollowingEntry → Float
  latest_value entry = (episode_number_value parse_float entry.latest_available_number).0

  -- What the last condition of markRecentUpdate says of the loop's variables.
  record Updated (entry : FollowingEntry) (seen : Seen) (numbers : NumberMap)
      (watched : List EpisodeId) (followed_at now at : Time) : Type 0 where
    at_latest : at ≡ seen.latest_seen_at
    known : at ≢ 0
    after_follow : followed_at < at
    after_list : (seen.unknown_times ≡ true) ⊎ (seen.first_list < at)
    recent : now ≤ at + 604800000000000
    unwatched : watched_up_to parse_float numbers watched entry.latest_available_number ≡ false

  mark-Updated :
      (entry : FollowingEntry) (mappings : List EpisodeMapping) (numbers : NumberMap)
      (watched : List EpisodeId) (followed_at now : Time)
      → let marked =
          mark_recent_update parse_float entry mappings numbers watched followed_at now in
        entry.recently_updated ≡ false
        → marked.recently_updated ≡ true
        → Updated entry
            (noted parse_float numbers (latest_value entry) mappings (start entry))
            numbers
            watched
            followed_at
            now
            marked.latest_seen_at
  unfolding mark_recent_update mark_seen
  mark-Updated entry mappings numbers watched followed_at now unmarked updated = record {
    at_latest = ground arith;
    known = ground arith;
    after_follow = ground arith;
    after_list = ground arith;
    recent = ground arith;
    unwatched = ground arith;
  }

  -- A recent update was first seen after the follow and within the window, as a stored row of the
  -- latest number; some row of the anime is older, so that it is not of the first stored list.
  pub recent_update_sound :
      (entry : FollowingEntry) (mappings : List EpisodeMapping) (numbers : NumberMap)
      (watched : List EpisodeId) (followed_at now : Time)
      → entry.latest_seen_at ≡ 0
      → entry.recently_updated ≡ false
      → (mark_recent_update parse_float entry mappings numbers watched followed_at
          now).recently_updated
        ≡ true
      → let marked =
          mark_recent_update parse_float entry mappings numbers watched followed_at now in
        (followed_at < marked.latest_seen_at)
        × (now ≤ marked.latest_seen_at + 604800000000000)
        × ((m : EpisodeMapping) × In m mappings
            × IsLatest parse_float numbers (latest_value entry) m
            × (marked.latest_seen_at ≡ m.first_seen_at))
        × ((m : EpisodeMapping) × In m mappings × (m.first_seen_at < marked.latest_seen_at))
        × (watched_up_to parse_float numbers watched entry.latest_available_number ≡ false)
  recent_update_sound entry mappings numbers watched followed_at now fresh unmarked updated =
      let u = mark-Updated entry mappings numbers watched followed_at now unmarked updated in
      let latest = latest_value entry in
      let at =
        (mark_recent_update parse_float entry mappings numbers watched followed_at
          now).latest_seen_at in
      elim (IsLatest-of_all parse_float numbers latest mappings (start entry)) [
        | inl unchanged ↦ absurd (u.known (u.at_latest ∙ unchanged ∙ fresh))
        | inr (m, i, l, e) ↦ (
          u.after_follow,
          u.recent,
          (m, i, l, u.at_latest ∙ e),
          older at u.known (u.at_latest ∙ e) i u.after_list,
          u.unwatched,
        )
      ]
    where
      older :
          (at : Time) {m : EpisodeMapping}
          → at ≢ 0
          → at ≡ m.first_seen_at
          → In m mappings
          → let seen = noted parse_float numbers (latest_value entry) mappings (start entry) in
            (seen.unknown_times ≡ true) ⊎ (seen.first_list < at)
            → (x : EpisodeMapping) × In x mappings × (x.first_seen_at < at)
      older at {m} known e i (inl unknown) =
          elim (unknown_of_all parse_float numbers (latest_value entry) mappings (start entry)
            unknown) [ inl bad ↦ cc | inr (x, j, z) ↦ (x, j, omega arith) ]
      older at {m} known e i (inr before) =
          elim (list_of_all parse_float numbers (latest_value entry) mappings (start entry)) [
            | inr (x, j, z) ↦ (x, j, omega arith)
            | inl z ↦ absurd (
                first_of_all parse_float numbers (latest_value entry) mappings (start entry) m i
                  (λ q. known (e ∙ q)) z)
          ]

  -- A recent update's time is the earliest at which a row of the latest number was seen, and no such
  -- row is of unknown time.
  pub recent_update_earliest :
      (entry : FollowingEntry) (mappings : List EpisodeMapping) (numbers : NumberMap)
      (watched : List EpisodeId) (followed_at now : Time) (m : EpisodeMapping)
      → entry.recently_updated ≡ false
      → (mark_recent_update parse_float entry mappings numbers watched followed_at
          now).recently_updated
        ≡ true
      → In m mappings
      → IsLatest parse_float numbers (latest_value entry) m
      → let marked =
          mark_recent_update parse_float entry mappings numbers watched followed_at now in
        (0 < m.first_seen_at) × (marked.latest_seen_at ≤ m.first_seen_at)
  unfolding mark_recent_update mark_seen
  recent_update_earliest entry mappings numbers watched followed_at now m unmarked updated i l =
      elim (notes_all parse_float numbers (latest_value entry) mappings (start entry) m i l) [
        | inl (unknown, known_before) ↦ absurd (ground arith)
        | inr (known, le) ↦ (ground arith, ground arith)
      ]
