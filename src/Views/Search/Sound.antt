-- ===== src/Views/Search/Sound.antt =====
-- What holds of the search page after any sequence of its operations.
use mathlib.Core.Path.{subst}
use anime_portable.Prelude.{
  ℕ, suc, ◌+◌, ◌-◌, ◌≤◌, ◌<◌, length, Str, ℤ, pos, ◌+ℤ◌, ◌≡◌, true, false, none, some, List, [],
  ◌∷◌, arith,
}
use anime_portable.Effects.{Result}
use anime_portable.Views.Data.{Anime, Detail}
use anime_portable.Views.Paging.{clamp_index-le}
use anime_portable.Views.Search.{
  Search, SearchRequest, begin, begin_library, begin_search, begin_detail, queue_search,
  queue_detail, take_pending, finish_by, finish_library, finish_search, finish_detail, cancel,
  close, move_selection, move_page, set_items, set_query,
}

-- Of a page that has counted at most `n` generations.
pub record IsSound (n : ℕ) (s : Search) : Type 0 where
  pub counted : s.generation ≤ n
  pub tracked : (a : SearchRequest) → s.active ≡ some a → a.generation ≤ s.generation
  pub current :
      (a : SearchRequest) → s.active ≡ some a → a.generation ≡ s.generation → s.holds_cancel ≡ true
  pub held : s.holds_cancel ≡ true → s.closed ≡ false
  pub ended : s.closed ≡ true → s.pending ≡ none
  pub in_range : s.selected ≤ length s.results - 1

pub data SearchAction : Type 0 where
  sets_items : List Anime → SearchAction
  sets_query : Str → SearchAction
  begins_library begins_search : SearchAction
  begins_detail : Anime → SearchAction
  queues_search : SearchAction
  queues_detail : Anime → SearchAction
  takes_pending : SearchAction
  ends_library ends_search : SearchRequest → Result (List Anime) → SearchAction
  ends_detail : SearchRequest → Result Detail → SearchAction
  cancels closes : SearchAction
  moves pages : ℤ → SearchAction

-- `lower` is strings.ToLower.
module _ (lower : Str → Str) where
  unfoldable pub step : Search → SearchAction → Search
  step s (sets_items new) = set_items lower s new
  step s (sets_query query) = set_query lower s query
  step s begins_library = (begin_library s).0
  step s begins_search = (begin_search s).0
  step s (begins_detail item) = (begin_detail s item).0
  step s queues_search = queue_search s
  step s (queues_detail item) = queue_detail s item
  step s takes_pending = (take_pending s).0
  step s (ends_library request answer) = (finish_library lower s request answer).0
  step s (ends_search request answer) = (finish_search lower s request answer).0
  step s (ends_detail request answer) = (finish_detail s request answer).0
  step s cancels = cancel s
  step s closes = close s
  step s (moves delta) = move_selection s delta
  step s (pages delta) = move_page s delta

  -- The page after a sequence of operations, the latest last.
  unfoldable pub run : Search → List SearchAction → Search
  run s [] = s
  run s (action ∷ actions) = run (step s action) actions

module _ (lower : Str → Str) (n : ℕ) (s : Search) (small : n < 9223372036854775808)
    (h : IsSound n s) where
  step-IsSound : (action : SearchAction) → IsSound (suc n) (step lower s action)
  unfolding step set_items set_query begin begin_library begin_search begin_detail queue_search
      queue_detail take_pending finish_by finish_library finish_search finish_detail cancel close
      move_selection move_page
  step-IsSound (sets_items new) =
      ground (arith, h.counted, h.tracked, h.current, h.held, h.ended, h.in_range)
  step-IsSound (sets_query query) =
      ground (arith, h.counted, h.tracked, h.current, h.held, h.ended, h.in_range)
  step-IsSound begins_library =
      ground (arith, h.counted, h.tracked, h.current, h.held, h.ended, h.in_range)
  step-IsSound begins_search =
      ground (arith, h.counted, h.tracked, h.current, h.held, h.ended, h.in_range)
  step-IsSound (begins_detail item) =
      ground (arith, h.counted, h.tracked, h.current, h.held, h.ended, h.in_range)
  step-IsSound queues_search =
      ground (arith, h.counted, h.tracked, h.current, h.held, h.ended, h.in_range)
  step-IsSound (queues_detail item) =
      ground (arith, h.counted, h.tracked, h.current, h.held, h.ended, h.in_range)
  step-IsSound takes_pending =
      ground (arith, h.counted, h.tracked, h.current, h.held, h.ended, h.in_range)
  step-IsSound (ends_library request answer) =
      ground (arith, h.counted, h.tracked, h.current, h.held, h.ended, h.in_range)
  step-IsSound (ends_search request answer) =
      ground (arith, h.counted, h.tracked, h.current, h.held, h.ended, h.in_range)
  step-IsSound (ends_detail request answer) =
      ground (arith, h.counted, h.tracked, h.current, h.held, h.ended, h.in_range)
  step-IsSound cancels =
      ground (arith, h.counted, h.tracked, h.current, h.held, h.ended, h.in_range)
  step-IsSound closes = ground (arith, h.counted, h.tracked, h.current, h.held, h.ended, h.in_range)
  step-IsSound (moves delta) = ground (
    arith,
    h.counted,
    h.tracked,
    h.current,
    h.held,
    h.ended,
    h.in_range,
    clamp_index-le (length s.results) (pos s.selected +ℤ delta),
  )
  step-IsSound (pages delta) =
      ground (arith, h.counted, h.tracked, h.current, h.held, h.ended, h.in_range)

-- No operation leaves the page unsound, whatever requests end in between.
pub run-IsSound :
    (lower : Str → Str) (n : ℕ) (s : Search) (actions : List SearchAction)
    → n + length actions < 9223372036854775808
    → IsSound n s
    → IsSound (n + length actions) (run lower s actions)
unfolding run
run-IsSound lower n s [] small h = subst (λ k. IsSound k s) (omega arith) h
run-IsSound lower n s (action ∷ actions) small h =
    subst (λ k. IsSound k (run lower (step lower s action) actions)) (omega arith)
      (run-IsSound lower (suc n) (step lower s action) actions (omega arith)
        (step-IsSound lower n s (omega arith) h action))
