-- ===== src/Views/Items/Merge.antt =====
-- What merge of apps/desktop/fltkhome/search_model.go makes of the items and the new ones.
use anime_portable.Prelude.{
  if◌then◌else◌, Str, str_eq, is_empty, str_eq_iff, ◌≡◌, refl, ◌∙◌, false, Option, none, some, List,
  [], ◌∷◌, arith,
}
use anime_portable.Views.Data.{Anime}
use anime_portable.Views.Items.{put, put_all, insert, sort, merged}

-- The item with an ID, as the map has it.
unfoldable pub find : Str → List Anime → Option Anime
find id [] = none
find id (x ∷ xs) = let rest = find id xs in if str_eq x.id id then some x else rest

-- The last item of a list with an ID.
unfoldable pub last : Str → List Anime → Option Anime
last id [] = none
last id (x ∷ xs) = elim (last id xs) [
  | none ↦ if str_eq x.id id then some x else none
  | some y ↦ some y
]

abbrev pub or_else : Option Anime → Option Anime → Option Anime
or_else none y = y
or_else (some x) y = some x

-- No two items have the same ID.
abbrev IsDistinct : List Anime → Type 0
IsDistinct [] = Unit
IsDistinct (x ∷ xs) = (find x.id xs ≡ none) × IsDistinct xs

find-put :
    (id : Str) (xs : List Anime) (x : Anime)
    → find id (put xs x) ≡ (if str_eq x.id id then some x else find id xs)
unfolding find put
find-put id [] x = refl
find-put id (y ∷ ys) x =
    ground (arith, find-put id ys x, str_eq_iff y.id x.id, str_eq_iff x.id id, str_eq_iff y.id id)

put-IsDistinct : (xs : List Anime) (x : Anime) → IsDistinct xs → IsDistinct (put xs x)
unfolding find put
put-IsDistinct [] x d = (refl, tt)
put-IsDistinct (y ∷ ys) x d = ground (
  arith,
  d,
  put-IsDistinct ys x d.1,
  find-put y.id ys x,
  str_eq_iff y.id x.id,
  str_eq_iff x.id y.id,
)

-- The items of a map have IDs.
abbrev HasId : Anime → Type 0
HasId x = is_empty x.id ≡ false

put_all-IsDistinct : (xs new : List Anime) → IsDistinct xs → IsDistinct (put_all xs new)
unfolding put_all
put_all-IsDistinct xs [] d = d
put_all-IsDistinct xs (x ∷ new) d =
    put_all-IsDistinct (if is_empty x.id then xs else put xs x) new
      (ground (arith, put-IsDistinct xs x d))

find-put_all :
    (id : Str) (xs new : List Anime)
    → is_empty id ≡ false
    → find id (put_all xs new) ≡ or_else (last id new) (find id xs)
unfolding put_all last
find-put_all id xs [] h = refl
find-put_all id xs (x ∷ new) h = ground (
  arith,
  find-put_all id (if is_empty x.id then xs else put xs x) new h,
  find-put id xs x,
  str_eq_iff x.id id,
)

find-put_all_blank : (xs new : List Anime) → find [] xs ≡ none → find [] (put_all xs new) ≡ none
unfolding put_all
find-put_all_blank xs [] h = h
find-put_all_blank xs (x ∷ new) h =
    find-put_all_blank (if is_empty x.id then xs else put xs x) new
      (ground (arith, find-put [] xs x, str_eq_iff x.id []))

find_all :
    (id : Str) (items new : List Anime)
    → find id (put_all (put_all [] items) new)
      ≡ (if is_empty id then none else or_else (last id new) (last id items))
unfolding find
find_all [] items new = find-put_all_blank (put_all [] items) new (find-put_all_blank [] items refl)
find_all (c ∷ id) items new =
    let named : is_empty (c ∷ id) ≡ false = refl in
    ground (
      arith,
      find-put_all (c ∷ id) (put_all [] items) new named,
      find-put_all (c ∷ id) [] items named,
    )

module _ (lower : Str → Str) where
  find-insert :
      (id : Str) (x : Anime) (xs : List Anime)
      → find x.id xs ≡ none
      → find id (insert lower x xs) ≡ (if str_eq x.id id then some x else find id xs)
  unfolding find insert
  find-insert id x [] h = refl
  find-insert id x (y ∷ ys) h =
      ground
        (arith, find-insert id x ys, str_eq_iff y.id x.id, str_eq_iff x.id id, str_eq_iff y.id id)

  find-sort : (id : Str) (xs : List Anime) → IsDistinct xs → find id (sort lower xs) ≡ find id xs
  unfolding find sort
  find-sort id [] d = refl
  find-sort id (x ∷ xs) d =
      ground (arith, find-insert id x (sort lower xs), find-sort x.id xs d.1, find-sort id xs d.1)

  -- After a merge, each ID is the last of the new items with it, or else the last of the old ones;
  -- an item without an ID is gone.
  pub find-merged :
      (id : Str) (items new : List Anime)
      → find id (merged lower items new)
        ≡ (if is_empty id then none else or_else (last id new) (last id items))
  unfolding merged
  find-merged id items new =
      let old = put_all [] items in
      let all = put_all old new in
      let distinct = put_all-IsDistinct old new (put_all-IsDistinct [] items tt) in
      find-sort id all distinct ∙ find_all id items new
