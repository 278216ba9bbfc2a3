-- ===== src/Views/Search/Requests.antt =====
-- The requests of the search page and the answers it shows.
use anime_portable.Prelude.{
  ℕ, ◌<◌, is_some, All, Str, str_eq, is_empty, trim_space, ◌≡◌, refl, ◌∙◌, ◌≢◌, ◌⊎◌, Bool, true,
  false, Option, some, List, [], ◌∷◌, arith, none, ap,
}
use anime_portable.Effects.{Result}
use anime_portable.Views.Data.{Anime, Detail, no_anime}
use anime_portable.Views.Search.{
  Search, SearchRequest, SearchPhase, request_eq, begin_search, finish_by, finish_library,
  finish_search, finish_detail, set_query, begin, remote, queue_search, take_pending, begin_library,
  begin_detail, queue_detail, cancel, close, move_selection, move_page,
}
use anime_portable.Views.Search.Sound.{
  IsSound, SearchAction, step, run, sets_items, sets_query, begins_library, begins_search,
  begins_detail, queues_search, queues_detail, takes_pending, ends_library, ends_search,
  ends_detail, cancels, closes, moves, pages,
}

-- What a request brings back.
pub data Answer : Type 0 where
  brings_library brings_remote : Result (List Anime) → Answer
  brings_detail : Result Detail → Answer

-- The finish function for an answer.
unfoldable pub finish : (Str → Str) → Search → SearchRequest → Answer → Search × Bool
finish lower s request (brings_library items) = finish_library lower s request items
finish lower s request (brings_remote items) = finish_search lower s request items
finish lower s request (brings_detail found) = finish_detail s request found

-- What the page shows of a state.
abbrev pub shown :
    Search
    → List Anime × List Anime × Str × ℕ × SearchPhase × Option Detail × Anime × Str × Bool × Bool
shown s = (
  s.items, s.results, s.query, s.selected, s.phase, s.preview, s.preview_item, s.remote_query,
  s.loaded, s.library_failed,
)

-- The answer of a request that is no longer current, or that is not the active one, is dropped: the
-- page shows what it showed, and still has what it has queued.
pub stale_answer :
    (lower : Str → Str) (s : Search) (request : SearchRequest) (answer : Answer)
    → (s.active ≢ some request) ⊎ (request.generation ≢ s.generation)
    → let (s', taken) = finish lower s request answer in
      (taken ≡ false) × (shown s' ≡ shown s) × (s'.pending ≡ s.pending)
unfolding finish finish_library finish_search finish_detail finish_by request_eq
stale_answer lower s request (brings_library items) stale = ground arith
stale_answer lower s request (brings_remote items) stale = ground arith
stale_answer lower s request (brings_detail found) stale = ground arith

-- What is left when the active request ends though it is no longer current.
record Frees (s s' : Search) : Type 0 where
  shows : shown s' ≡ shown s
  free : s'.active ≡ none
  closed : s'.closed ≡ s.closed
  query : s'.query ≡ s.query
  pending : s'.pending ≡ s.pending
  pending_item : s'.pending_item ≡ s.pending_item

finish-Frees :
    (lower : Str → Str) (s : Search) (request : SearchRequest) (answer : Answer)
    → s.active ≡ some request
    → request.generation ≢ s.generation
    → Frees s (finish lower s request answer).0
unfolding finish finish_library finish_search finish_detail finish_by request_eq
finish-Frees lower s request (brings_library items) active stale = ground arith
finish-Frees lower s request (brings_remote items) active stale = ground arith
finish-Frees lower s request (brings_detail found) active stale = ground arith

-- A page whose active request is out of date, with a search queued behind it.
record Queued (asked queued : Search) (old : SearchRequest) (query : Str) : Type 0 where
  shows : shown queued ≡ shown asked
  active : queued.active ≡ some old
  stale : old.generation ≢ queued.generation
  closed : queued.closed ≡ false
  query_eq : queued.query ≡ query
  pending : queued.pending ≡ some remote
  pending_item : queued.pending_item ≡ no_anime

set_query-Queued :
    (lower : Str → Str) (n : ℕ) (s : Search) (old : SearchRequest) (query : Str)
    → n < 9223372036854775808
    → IsSound n s
    → s.active ≡ some old
    → s.closed ≡ false
    → str_eq s.query query ≡ false
    → is_empty (trim_space query) ≡ false
    → let asked = set_query lower s query in Queued asked (queue_search asked) old query
unfolding set_query queue_search
set_query-Queued lower n s old query small h active alive other some_query =
    ground (arith, h.counted, h.tracked old active)

search_begins :
    (s : Search)
    → s.active ≡ none
    → s.closed ≡ false
    → s.pending ≡ some remote
    → s.pending_item ≡ no_anime
    → is_empty (trim_space s.query) ≡ false
    → ((take_pending s).1 ≡ some (remote, no_anime))
      × (is_some (begin_search (take_pending s).0).1 ≡ true)
unfolding take_pending begin_search begin
search_begins s free alive pending item some_query = (ground arith, ground arith)

-- A new query replaces the request under way: its answer, whatever it is, shows nothing, and once it
-- has come the search for the new query is taken from the queue and begins.
pub search_replaced :
    (lower : Str → Str) (n : ℕ) (s : Search) (old : SearchRequest) (query : Str) (answer : Answer)
    → n < 9223372036854775808
    → IsSound n s
    → s.active ≡ some old
    → s.closed ≡ false
    → str_eq s.query query ≡ false
    → is_empty (trim_space query) ≡ false
    → let asked = set_query lower s query in
      let ended = (finish lower (queue_search asked) old answer).0 in
      (shown ended ≡ shown asked)
      × ((take_pending ended).1 ≡ some (remote, no_anime))
      × (is_some (begin_search (take_pending ended).0).1 ≡ true)
search_replaced lower n s old query answer small h active alive other some_query =
    let q = set_query-Queued lower n s old query small h active alive other some_query in
    let queued = queue_search (set_query lower s query) in
    let f = finish-Frees lower queued old answer q.active q.stale in
    let named = ap (λ t. is_empty (trim_space t)) (f.query ∙ q.query_eq) ∙ some_query in
    let (taken, begun) =
      search_begins (finish lower queued old answer).0 f.free (f.closed ∙ q.closed)
        (f.pending ∙ q.pending) (f.pending_item ∙ q.pending_item) named in
    (f.shows ∙ q.shows, taken, begun)

-- The user's and the requests' actions: everything but handing over a new list.
abbrev pub IsNoList : SearchAction → Type 0
IsNoList action = (new : List Anime) → action ≢ sets_items new

-- What a closed page keeps, from a state to a later one.
record Keeps (s s' : Search) : Type 0 where
  closed : s'.closed ≡ true
  items : s'.items ≡ s.items
  results : s'.results ≡ s.results
  query : s'.query ≡ s.query
  active : (a : SearchRequest) → s'.active ≡ some a → s.active ≡ some a

step-Keeps :
    (lower : Str → Str) (s : Search) (action : SearchAction)
    → s.closed ≡ true
    → IsNoList action
    → Keeps s (step lower s action)
unfolding step set_query begin begin_library begin_search begin_detail queue_search queue_detail
    take_pending finish_by finish_library finish_search finish_detail cancel close move_selection
    move_page
step-Keeps lower s (sets_items new) closed other = absurd (other new refl)
step-Keeps lower s (sets_query query) closed other = ground arith
step-Keeps lower s begins_library closed other = ground arith
step-Keeps lower s begins_search closed other = ground arith
step-Keeps lower s (begins_detail item) closed other = ground arith
step-Keeps lower s queues_search closed other = ground arith
step-Keeps lower s (queues_detail item) closed other = ground arith
step-Keeps lower s takes_pending closed other = ground arith
step-Keeps lower s (ends_library request answer) closed other = ground arith
step-Keeps lower s (ends_search request answer) closed other = ground arith
step-Keeps lower s (ends_detail request answer) closed other = ground arith
step-Keeps lower s cancels closed other = ground arith
step-Keeps lower s closes closed other = ground arith
step-Keeps lower s (moves delta) closed other = ground arith
step-Keeps lower s (pages delta) closed other = ground arith

-- A closed page stays closed, whatever is typed and whatever requests end: it shows the same results
-- and begins no request.
pub closed_stays :
    (lower : Str → Str) (s : Search) (actions : List SearchAction)
    → s.closed ≡ true
    → All IsNoList actions
    → let s' = run lower s actions in
      (s'.closed ≡ true)
      × (s'.items ≡ s.items)
      × (s'.results ≡ s.results)
      × (s'.query ≡ s.query)
      × ((a : SearchRequest) → s'.active ≡ some a → s.active ≡ some a)
unfolding run
closed_stays lower s [] closed none_lists = (closed, refl, refl, refl, λ a e. e)
closed_stays lower s (action ∷ actions) closed none_lists =
    let k = step-Keeps lower s action closed none_lists.0 in
    let (after, items, results, query, active) =
      closed_stays lower (step lower s action) actions k.closed none_lists.1 in
    (after, items ∙ k.items, results ∙ k.results, query ∙ k.query, λ a e. k.active a (active a e))
