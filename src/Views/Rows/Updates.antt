-- ===== src/Views/Rows/Updates.antt =====
-- apps/desktop/fltkhome/model.go: the recent updates of Home.
use anime_portable.Prelude.{
  ℕ, ltb, if◌then◌else◌, take, Str, ℤ, Bool, not, Option, none, some, List, [], ◌∷◌, ◌++◌, map,
  sort_by, get_key, set_key,
}
use anime_portable.Models.{Time}
use anime_portable.Views.Data.{Anime, FollowingItem}
use anime_portable.Views.Home.{TimeParser}
use anime_portable.Views.Rows.{Texts, FollowingRow, episode_label, dot, days_ago, following_rows}

-- The items that recentUpdateRows keeps, with `seen` and `numbers`.
pub record UpdatedItems : Type 0 where
  pub items : List FollowingItem
  pub seen : List (Str × Time)
  pub numbers : List (Str × Str)

-- `seen[id]`; the zero time for a missing key.
abbrev pub seen_of : List (Str × Time) → Str → Time
seen_of seen id = elim (get_key seen id) [ none ↦ 0 | some at ↦ at ]

abbrev pub shown_number : List (Str × Str) → Str → Str
shown_number numbers id = elim (get_key numbers id) [ none ↦ [] | some number ↦ number ]

-- The body of the first loop of recentUpdateRows.
unfoldable pub note_update : FollowingItem → Option Time → UpdatedItems → UpdatedItems
note_update item none u = u
note_update item (some at) u = if not item.recently_updated then u else record {
  items = u.items ++ (item ∷ []);
  seen = set_key u.seen item.anime_id at;
  numbers = set_key u.numbers item.anime_id item.latest_available_number;
}

unfoldable pub note_updates : TimeParser → List FollowingItem → UpdatedItems → UpdatedItems
note_updates parse_time [] u = u
note_updates parse_time (item ∷ following) u =
    note_updates parse_time following (note_update item (parse_time item.latest_seen_at) u)

-- The second order of recentUpdateRows: the newest sighting first.
abbrev pub seen_later : List (Str × Time) → FollowingRow → FollowingRow → Bool
seen_later seen a b = ltb (seen_of seen b.anime.id) (seen_of seen a.anime.id)

module _ (texts : Texts) (parse_time : TimeParser) (local_day : Time → ℤ) where
  -- `rows[index].Status = ...`
  unfoldable pub recent_row : UpdatedItems → Time → FollowingRow → FollowingRow
  recent_row u now row = record row {
    status =
        episode_label texts (shown_number u.numbers row.anime.id)
        ++ dot
        ++ days_ago texts parse_time local_day now (seen_of u.seen row.anime.id);
  }

  -- recentUpdateRows, for a limit that is not negative.
  unfoldable pub recent_update_rows : List FollowingItem → List Anime → ℕ → Time → List FollowingRow
  recent_update_rows following library limit now =
      let u = note_updates parse_time following (record { items = []; seen = []; numbers = [] }) in
      let rows = map (recent_row u now) (following_rows texts u.items library []) in
      take limit (sort_by (seen_later u.seen) rows)
