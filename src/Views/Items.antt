-- ===== src/Views/Items.antt =====
-- apps/desktop/fltkhome/search_model.go: merge and filter, on the lists they work on.
pub mod Matching
pub mod Merge
pub mod Sorted
use anime_portable.Prelude.{
  if◌then◌else◌, Str, str_eq, is_empty, str_lt, trim_space, Bool, not, ◌||◌, List, [], ◌∷◌,
  contains,
}
use anime_portable.Views.Data.{Anime}

-- `byID[item.ID] = item`, with the map kept as a list of its values.
unfoldable pub put : List Anime → Anime → List Anime
put [] item = item ∷ []
put (old ∷ olds) item =
    let rest = put olds item in if str_eq old.id item.id then item ∷ olds else old ∷ rest

-- One of merge's first two loops: items without an ID are left out.
unfoldable pub put_all : List Anime → List Anime → List Anime
put_all by_id [] = by_id
put_all by_id (item ∷ items) = put_all (if is_empty item.id then by_id else put by_id item) items

-- `lower` is strings.ToLower.
module _ (lower : Str → Str) where
  -- The order that merge sorts by.
  unfoldable pub before : Anime → Anime → Bool
  before a b =
      let left = lower a.title in
      let right = lower b.title in
      if not (str_eq left right) then str_lt left right else str_lt a.id b.id

  unfoldable pub insert : Anime → List Anime → List Anime
  insert item [] = item ∷ []
  insert item (x ∷ xs) =
      let rest = insert item xs in if before x item then x ∷ rest else item ∷ x ∷ xs

  -- sort.Slice: no two values have the same ID, so that the order leaves it no choice.
  unfoldable pub sort : List Anime → List Anime
  sort [] = []
  sort (x ∷ xs) = insert x (sort xs)

  -- merge's new value of the items.
  unfoldable pub merged : List Anime → List Anime → List Anime
  merged items new = sort (put_all (put_all [] items) new)

  -- Whether filter keeps an item.
  unfoldable pub matches : Str → Anime → Bool
  matches query item =
      let query = lower (trim_space query) in
      is_empty query
      || contains (lower item.title) query
      || contains (lower item.native_title) query

  -- The loop of filter.
  unfoldable pub filtered : Str → List Anime → List Anime
  filtered query [] = []
  filtered query (item ∷ items) =
      let rest = filtered query items in if matches query item then item ∷ rest else rest
