-- ===== src/Views/Home/Newest.antt =====
-- What newestPerAnime of apps/desktop/fltkhome/model.go lists.
use anime_portable.Prelude.{
  ℕ, ◌+◌, ◌≤◌, max, if◌then◌else◌, In, Str, str_eq, str_eq_iff, ◌≡◌, refl, Bool, true, false, List,
  [], ◌∷◌, arith,
}
use anime_portable.Views.Data.{History}
use anime_portable.Views.Home.{
  TimeParser, newer_history, put_newest, newest_of, insert_history, sort_history, newest_per_anime,
}
use anime_portable.Views.Home.Covers.{newest_of_all, In-sort_history}

-- How many entries of an anime a list has.
unfoldable pub count : Str → List History → ℕ
count id [] = 0
count id (x ∷ xs) = (if str_eq x.anime_id id then 1 else 0) + count id xs

module _ (parse_time : TimeParser) where
  nothing : (id : Str) → count id [] ≤ 1
  unfolding count
  nothing id = omega arith

  count-put_newest :
      (id : Str) (rows : List History) (x : History)
      → count id (put_newest parse_time rows x)
        ≡ (if str_eq x.anime_id id then max (count id rows) 1 else count id rows)
  unfolding count put_newest
  count-put_newest id [] x = ground arith
  count-put_newest id (old ∷ olds) x = ground (
    arith,
    count-put_newest id olds x,
    str_eq_iff old.anime_id x.anime_id,
    str_eq_iff old.anime_id id,
    str_eq_iff x.anime_id id,
  )

  newest_of_once :
      (id : Str) (include : History → Bool) (rows history : List History)
      → count id rows ≤ 1
      → count id (newest_of parse_time include rows history) ≤ 1
  unfolding newest_of
  newest_of_once id include rows [] h = h
  newest_of_once id include rows (x ∷ history) h =
      newest_of_once id include (if include x then put_newest parse_time rows x else rows) history
        (ground (arith, count-put_newest id rows x, h))

  count-insert_history :
      (id : Str) (x : History) (xs : List History)
      → count id (insert_history parse_time x xs)
        ≡ (if str_eq x.anime_id id then 1 else 0) + count id xs
  unfolding count insert_history
  count-insert_history id x [] = refl
  count-insert_history id x (y ∷ ys) = ground (arith, count-insert_history id x ys)

  count-sort_history :
      (id : Str) (xs : List History) → count id (sort_history parse_time xs) ≡ count id xs
  unfolding count sort_history
  count-sort_history id [] = refl
  count-sort_history id (x ∷ xs) =
      ground
        (arith, count-insert_history id x (sort_history parse_time xs), count-sort_history id xs)

  -- Each anime is listed at most once, and every entry of the history that is to be listed has a listed
  -- entry of the same anime that it is not newer than.
  pub newest_listed :
      (history : List History) (include : History → Bool) (item : History)
      → In item history
      → include item ≡ true
      → let rows = newest_per_anime parse_time history include in
        ((id : Str) → count id rows ≤ 1)
        × (row : History) × In row rows
        × (row.anime_id ≡ item.anime_id)
        × (newer_history parse_time item row ≡ false)
  unfolding newest_per_anime
  newest_listed history include item i e =
      let rows = newest_of parse_time include [] history in
      let c = newest_of_all parse_time include [] history item i e in
      let once : (id : Str) → count id rows ≤ 1 =
        λ id. newest_of_once id include [] history (nothing id) in
      (
        λ id. omega (arith, count-sort_history id rows, once id),
        c.row,
        In-sort_history parse_time rows c.row c.listed,
        c.anime,
        c.newest,
      )
