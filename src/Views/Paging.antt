-- ===== src/Views/Paging.antt =====
-- apps/desktop/fltkhome/model.go: the pages of a list. Go's int is a mathematical integer here; the
-- sums below stay far inside 64 bits for the lengths of lists in memory.
use native.Mathlib.Nat.{add-div_right, div-mul-le_self}
use anime_portable.Prelude.{
  ℕ, zero, suc, ◌+◌, ◌-◌, ◌*◌, ◌/◌, ◌≤◌, ◌<◌, min, ℤ, pos, negsuc, ◌+ℤ◌, ◌≡◌, ap, ◌∙◌, arith,
}

-- max(0, min(n, i)) for `n` that may be -1, given as the length n + 1.
unfoldable pub clamp_index : ℕ → ℤ → ℕ
clamp_index len (negsuc i) = 0
clamp_index len (pos i) = min (len - 1) i

-- pageCount
unfoldable pub page_count : ℕ → ℕ → ℕ
page_count items size = (items + size - 1) / size

-- movedPage, for items > 0 and size > 0.
unfoldable pub moved_page : ℕ → ℤ → ℕ → ℕ → ℕ
moved_page page delta items size = clamp_index ((items - 1) / size + 1) (pos page +ℤ delta)

pub clamp_index-lt : (len : ℕ) (i : ℤ) → 0 < len → clamp_index len i < len
unfolding clamp_index
clamp_index-lt len (negsuc i) h = omega arith
clamp_index-lt len (pos i) h = omega arith

pub clamp_index-le : (len : ℕ) (i : ℤ) → clamp_index len i ≤ len - 1
unfolding clamp_index
clamp_index-le len (negsuc i) = omega arith
clamp_index-le len (pos i) = omega arith

moved_page-le :
    (page : ℕ) (delta : ℤ) (items size : ℕ) → moved_page page delta items size ≤ (items - 1) / size
unfolding moved_page
moved_page-le page delta items size =
    let le = clamp_index-le ((items - 1) / size + 1) (pos page +ℤ delta) in omega arith

page_count-suc :
    (items size : ℕ) → 0 < items → page_count items (suc size) ≡ (items - 1) / suc size + 1
unfolding page_count
page_count-suc items size some_items =
    let sum : items + suc size - 1 ≡ items - 1 + suc size = omega arith in
    ap (λ n. n / suc size) sum ∙ add-div_right (items - 1) (omega arith)

-- A page that movedPage gives holds an item, and is one of the pages that pageCount counts.
pub moved_page_bounds :
    (page : ℕ) (delta : ℤ) (items size : ℕ)
    → 0 < items
    → 0 < size
    → (moved_page page delta items size * size < items)
      × (moved_page page delta items size < page_count items size)
moved_page_bounds page delta items zero some_items some_size = absurd (omega arith)
moved_page_bounds page delta items (suc size) some_items some_size =
    let p = moved_page page delta items (suc size) in
    let le : p ≤ (items - 1) / suc size = moved_page-le page delta items (suc size) in
    let mul : p * suc size ≤ (items - 1) / suc size * suc size = grind (arith, le) in
    let low : (items - 1) / suc size * suc size ≤ items - 1 =
      div-mul-le_self (items - 1) (suc size) in
    (omega arith, rw (page_count-suc items size some_items) (omega arith))
