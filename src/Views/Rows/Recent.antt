-- ===== src/Views/Rows/Recent.antt =====
-- What recentUpdateRows of apps/desktop/fltkhome/model.go lists.
use mathlib.Core.Path.{subst}
use anime_portable.Prelude.{
  ℕ, ◌≤◌, if◌then◌else◌, Bool-cases, length, All, In, All-append, Str, str_eq, str_eq_iff, ℤ, ◌≡◌,
  refl, sym, ap, ◌∙◌, inl, inr, Bool, true, not, ◌&&◌, Option, none, some, List, [], ◌∷◌, ◌++◌, map,
  arith, set_key, Descends, get_key-set_key_same, get_key-set_key_other, there, length-take,
  sort_by-All, sort_by, here, sort_by-Descends, get_key, take-All, All-of_map, take-Descends,
}
use anime_portable.Models.{Time}
use anime_portable.Views.Data.{Anime, FollowingItem, History}
use anime_portable.Views.Home.{TimeParser}
use anime_portable.Views.Rows.{
  FollowingRow, Texts, known_anime, by_title, following_row, following_rows, known_or,
}
use anime_portable.Views.Rows.Updates.{
  UpdatedItems, seen_of, note_update, note_updates, recent_row, seen_later, recent_update_rows,
}

-- The row of an anime has its ID.
abbrev HasId : Str → Option Anime → Type 0
HasId id none = Unit
HasId id (some anime) = anime.id ≡ id

known_anime-HasId :
    (library : List Anime) (found : Option Anime) (id : Str)
    → HasId id found
    → HasId id (known_anime library found id)
unfolding known_anime
known_anime-HasId [] found id h = h
known_anime-HasId (item ∷ library) found id h = elim (Bool-cases (str_eq item.id id)) [
  | inl same ↦ rw same (known_anime-HasId library (some item) id ((str_eq_iff item.id id).0 same))
  | inr other ↦ rw other (known_anime-HasId library found id h)
]

following_row_id :
    (texts : Texts) (library : List Anime) (history : List History) (item : FollowingItem)
    → (following_row texts library history item).anime.id ≡ item.anime_id
unfolding following_row
following_row_id texts library history item =
    chosen (known_anime library none item.anime_id)
      (known_anime-HasId library none item.anime_id tt)
  where
    chosen :
        (known : Option Anime)
        → HasId item.anime_id known
        → (known_or item.anime_id known).id ≡ item.anime_id
    chosen none h = refl
    chosen (some anime) h = h

-- What an item says of the time at which the newest episode of an anime was seen, after `found`.
abbrev sighting : FollowingItem → Option Time → Str → Time → Time
sighting item none id found = found
sighting item (some at) id found =
    if item.recently_updated && str_eq item.anime_id id then at else found

module _ (parse_time : TimeParser) where
  -- The time at which the newest episode of an anime was seen, by the last item of it that is marked
  -- as updated and has a time.
  abbrev pub last_sighting : List FollowingItem → Str → Time → Time
  last_sighting [] id found = found
  last_sighting (item ∷ following) id found =
      last_sighting following id (sighting item (parse_time item.latest_seen_at) id found)

  -- The order of the rows, from the newest sighting to the oldest.
  abbrev pub IsNoLater : List FollowingItem → FollowingRow → FollowingRow → Type 0
  IsNoLater following a b =
      last_sighting following b.anime.id 0 ≤ last_sighting following a.anime.id 0

  -- An item that recentUpdateRows takes into account.
  pub record IsRecent (following : List FollowingItem) (item : FollowingItem) : Type 0 where
    pub listed : In item following
    pub marked : item.recently_updated ≡ true
    pub at : Time
    pub parsed : parse_time item.latest_seen_at ≡ some at

  -- A row that such an item has.
  pub record IsRecentRow (following : List FollowingItem) (row : FollowingRow) : Type 0 where
    pub item : FollowingItem
    pub recent : IsRecent following item
    pub anime : row.anime.id ≡ item.anime_id

  seen_of-set_key :
      (seen : List (Str × Time)) (key id : Str) (at : Time)
      → seen_of (set_key seen key at) id ≡ (if str_eq key id then at else seen_of seen id)
  seen_of-set_key seen key id at = elim (Bool-cases (str_eq key id)) [
    | inl same ↦ rw same (
        subst (λ k. seen_of (set_key seen key at) k ≡ at) ((str_eq_iff key id).0 same)
          (ap (λ found. elim found as (λ _. ℕ) [ none ↦ 0 | some t ↦ t ])
            (get_key-set_key_same seen key at)))
    | inr other ↦ rw other (
        ap (λ found. elim found as (λ _. ℕ) [ none ↦ 0 | some t ↦ t ])
          (get_key-set_key_other seen key id at other))
  ]

  note_update_seen :
      (item : FollowingItem) (at : Option Time) (u : UpdatedItems) (id : Str)
      → seen_of (note_update item at u).seen id ≡ sighting item at id (seen_of u.seen id)
  unfolding note_update
  note_update_seen item none u id = refl
  note_update_seen item (some at) u id = ground (arith, seen_of-set_key u.seen item.anime_id id at)

  note_updates_seen :
      (following : List FollowingItem) (u : UpdatedItems) (id : Str)
      → seen_of (note_updates parse_time following u).seen id
        ≡ last_sighting following id (seen_of u.seen id)
  unfolding note_updates
  note_updates_seen [] u id = refl
  note_updates_seen (item ∷ following) u id =
      let at = parse_time item.latest_seen_at in
      note_updates_seen following (note_update item at u) id
      ∙ ap (last_sighting following id) (note_update_seen item at u id)

  note_update-All :
      (P : FollowingItem → Type 0) (item : FollowingItem) (at : Option Time) (u : UpdatedItems)
      → (item.recently_updated ≡ true → (t : Time) → at ≡ some t → P item)
      → All P u.items
      → All P (note_update item at u).items
  unfolding note_update
  note_update-All P item none u new h = h
  note_update-All P item (some t) u new h = elim (Bool-cases item.recently_updated) [
    | inl marked ↦
        subst (λ b. All P (noted b).items) (sym marked)
          (All-append P u.items (item ∷ []) h (new marked t refl, tt))
    | inr plain ↦ subst (λ b. All P (noted b).items) (sym plain) h
  ]
    where
      noted : Bool → UpdatedItems
      noted marked = if not marked then u else record {
        items = u.items ++ (item ∷ []);
        seen = set_key u.seen item.anime_id t;
        numbers = set_key u.numbers item.anime_id item.latest_available_number;
      }

  note_updates-All :
      (P : FollowingItem → Type 0) (following : List FollowingItem) (u : UpdatedItems)
      → ((item : FollowingItem) → IsRecent following item → P item)
      → All P u.items
      → All P (note_updates parse_time following u).items
  unfolding note_updates
  note_updates-All P [] u new h = h
  note_updates-All P (item ∷ following) u new h =
      let at = parse_time item.latest_seen_at in
      note_updates-All P following (note_update item at u)
        (λ other recent. new other (record {
          listed = there recent.listed;
          marked = recent.marked;
          at = recent.at;
          parsed = recent.parsed;
        }))
        (note_update-All P item at u
          (λ marked t parsed.
            new item (record { listed = here; marked = marked; at = t; parsed = parsed }))
          h)

  module _ (texts : Texts) (local_day : Time → ℤ) where
    following_rows-All :
        (following items : List FollowingItem) (library : List Anime) (history : List History)
        → All (IsRecent following) items
        → All (IsRecentRow following) (following_rows texts items library history)
    unfolding following_rows
    following_rows-All following items library history h =
        sort_by-All by_title (IsRecentRow following)
          (map (following_row texts library history) items)
          (All-of_map (IsRecent following) (IsRecentRow following)
            (following_row texts library history) items
            (λ item recent. record {
              item = item;
              recent = recent;
              anime = following_row_id texts library history item;
            })
            h)

    -- Home's recent updates are at most `limit` rows. Each is the row of a followed anime that is
    -- marked as recently updated and has a time, and they go from the newest sighting to the oldest.
    pub recent_updates_listed :
        (following : List FollowingItem) (library : List Anime) (limit : ℕ) (now : Time)
        → (length (recent_update_rows texts parse_time local_day following library limit now)
            ≤ limit)
          × All
              (IsRecentRow following)
              (recent_update_rows texts parse_time local_day following library limit now)
          × Descends
              (IsNoLater following)
              (recent_update_rows texts parse_time local_day following library limit now)
    unfolding recent_update_rows recent_row get_key
    recent_updates_listed following library limit now =
        let u =
          note_updates parse_time following (record { items = []; seen = []; numbers = [] }) in
        let rows = following_rows texts u.items library [] in
        let shown = map (recent_row texts parse_time local_day u now) rows in
        let seen : (id : Str) → seen_of u.seen id ≡ last_sighting following id 0 =
          note_updates_seen following (record { items = []; seen = []; numbers = [] }) in
        (
          length-take limit (sort_by (seen_later u.seen) shown),
          take-All (IsRecentRow following) limit (sort_by (seen_later u.seen) shown) (
              sort_by-All (seen_later u.seen) (IsRecentRow following) shown (
                All-of_map (IsRecentRow following) (IsRecentRow following)
                  (recent_row texts parse_time local_day u now) rows
                  (λ row r. record { item = r.item; recent = r.recent; anime = r.anime })
                  (following_rows-All following u.items library [] (
                    note_updates-All (IsRecent following) following
                      (record { items = []; seen = []; numbers = [] }) (λ item r. r) tt)))),
          take-Descends (IsNoLater following) limit (sort_by (seen_later u.seen) shown) (
              sort_by-Descends (seen_later u.seen) (IsNoLater following)
                (λ a b c h k. omega (arith, h, k))
                (λ a b h. ground (arith, h, seen a.anime.id, seen b.anime.id))
                (λ a b h. ground (arith, h, seen a.anime.id, seen b.anime.id)) shown),
        )
