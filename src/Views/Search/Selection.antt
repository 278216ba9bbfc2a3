-- ===== src/Views/Search/Selection.antt =====
-- The page of results that is in sight.
use anime_portable.Prelude.{
  ℕ, ◌+◌, ◌%◌, ◌≤◌, ◌==◌, length, get_elem?, drop, ◌≡◌, ap, ◌∙◌, false, some, List, [], ◌∷◌, arith,
  get_elem?-take, get_elem?-drop, length-take,
}
use native.Mathlib.Nat.{div-add-mod'}
use anime_portable.Views.Data.{Anime}
use anime_portable.Views.Search.{Search, visible_results, page_size, page_start}

get_elem?-some {ℓ} :
    {A : Type ℓ} (xs : List A) (i : ℕ) (a : A) → get_elem? xs i ≡ some a → (length xs == 0) ≡ false
get_elem?-some [] i a h = cc
get_elem?-some (x ∷ xs) i a h = ground arith

page_start-some :
    (s : Search) (item : Anime)
    → get_elem? s.results s.selected ≡ some item
    → page_start s + s.selected % page_size ≡ s.selected
unfolding page_start
page_start-some s item found =
    ground (arith, get_elem?-some s.results s.selected item found, div-add-mod' s.selected 8)

-- At most one page of results is in sight, and the selected result is among them, at its place.
pub selection_visible :
    (s : Search) (item : Anime)
    → get_elem? s.results s.selected ≡ some item
    → (get_elem? (visible_results s) (s.selected % page_size) ≡ some item)
      × (length (visible_results s) ≤ page_size)
unfolding visible_results
selection_visible s item found =
    let seen = drop (page_start s) s.results in
    let place = s.selected % page_size in
    (
      get_elem?-take page_size seen place (omega arith)
          ∙ get_elem?-drop (page_start s) s.results place
          ∙ ap (get_elem? s.results) (page_start-some s item found)
          ∙ found,
      length-take page_size seen,
    )
