-- ===== src/Views/Search.antt =====
-- apps/desktop/fltkhome/search_model.go: searchModel, the state behind the search page.
pub mod Requests
pub mod Sound
pub mod Selection
use anime_portable.Prelude.{
  ℕ, ◌+◌, ◌-◌, ◌*◌, ◌/◌, min, ◌==◌, if◌then◌else◌, is_some, length, take, drop, Str, str_eq,
  is_empty, trim_space, ℤ, pos, ◌+ℤ◌, eq_ℤ, u64, Bool, true, false, not, ◌&&◌, ◌||◌, Option, none,
  some, List, [],
}
use anime_portable.Effects.{Result, ok, failed}
use anime_portable.Views.Data.{Anime, Detail, no_anime}
use anime_portable.Views.Items.{merged, filtered}
use anime_portable.Views.Paging.{clamp_index, moved_page}

-- searchResultPageSize
abbrev pub page_size : ℕ
page_size = 8

-- searchRequestKind
pub data RequestKind : Type 0 where
  library remote detail : RequestKind

pub record SearchRequest : Type 0 where
  pub generation : ℕ
  pub kind : RequestKind

pub data SearchPhase : Type 0 where
  idle loading failing : SearchPhase

-- searchModel. `active` is none without requestActive; `holds_cancel` is whether cancelRequest is
-- set; `pending` is none for the kind 0.
pub record Search : Type 0 where
  pub items : List Anime
  pub results : List Anime
  pub query : Str
  pub selected : ℕ
  pub phase : SearchPhase
  pub loaded : Bool
  pub library_failed : Bool
  pub preview : Option Detail
  pub preview_item : Anime
  pub remote_query : Str
  pub closed : Bool
  pub generation : ℕ
  pub active : Option SearchRequest
  pub holds_cancel : Bool
  pub pending : Option RequestKind
  pub pending_item : Anime

kind_eq : RequestKind → RequestKind → Bool
kind_eq library library = true
kind_eq remote remote = true
kind_eq detail detail = true
kind_eq k l = false

unfoldable pub request_eq : SearchRequest → SearchRequest → Bool
unfolding kind_eq
request_eq a b = (a.generation == b.generation) && kind_eq a.kind b.kind

abbrev pub is_active : Search → SearchRequest → Bool
is_active s request = elim s.active [ none ↦ false | some active ↦ request_eq active request ]

-- invalidateRequest
unfoldable pub invalidate_request : Search → Search
invalidate_request s = record s {
  generation = u64 (s.generation + 1);
  holds_cancel = false;
  preview = none;
  preview_item = no_anime;
  phase = idle;
}

-- begin
unfoldable pub begin : Search → RequestKind → Search × Option SearchRequest
begin s kind =
    let request : SearchRequest = record { generation = u64 (s.generation + 1); kind = kind } in
    if s.closed || is_some s.active then (s, none) else (
      record s {
        generation = request.generation;
        active = some request;
        holds_cancel = true;
        phase = loading;
      },
      some request,
    )

-- beginLibrary
unfoldable pub begin_library : Search → Search × Option SearchRequest
begin_library s = if s.loaded then (s, none) else begin s library

-- beginSearch
unfoldable pub begin_search : Search → Search × Option SearchRequest
begin_search s = if is_empty (trim_space s.query) then (s, none) else begin s remote

-- beginDetail
unfoldable pub begin_detail : Search → Anime → Search × Option SearchRequest
begin_detail s item =
    let (started, request) = begin s detail in
    if is_empty item.id
    then (s, none)
    else if is_some request
    then (record started { preview_item = item; preview = none }, request)
    else (s, none)

-- The condition of queueSearch on the active request.
queues_search : Search → SearchRequest → Bool
unfolding kind_eq
queues_search s active = kind_eq active.kind library || not (active.generation == s.generation)

-- queueSearch
unfoldable pub queue_search : Search → Search
unfolding queues_search
queue_search s =
    let behind : Bool = elim s.active [ none ↦ false | some active ↦ queues_search s active ] in
    if not s.closed && behind && not (is_empty (trim_space s.query))
    then record s { pending = some remote; pending_item = no_anime }
    else s

-- The rest of queueDetail, with its request active; invalidateRequest leaves it so.
queue_behind : Search → SearchRequest → Anime → Search
queue_behind s active item =
    record (if active.generation == s.generation then invalidate_request s else s) {
      pending = some detail;
      pending_item = item;
      preview_item = item;
      preview = none;
    }

-- queueDetail
unfoldable pub queue_detail : Search → Anime → Search
unfolding queue_behind invalidate_request
queue_detail s item =
    if s.closed || is_empty item.id
    then s
    else elim s.active [ none ↦ s | some active ↦ queue_behind s active item ]

-- takePending
unfoldable pub take_pending : Search → Search × Option (RequestKind × Anime)
take_pending s = if s.closed || is_some s.active then (s, none) else elim s.pending [
  | none ↦ (s, none)
  | some remote ↦ (
    record s { pending = none; pending_item = no_anime },
    if is_empty (trim_space s.query) then none else some (remote, s.pending_item),
  )
  | some kind ↦ (record s { pending = none; pending_item = no_anime }, some (kind, s.pending_item))
]

-- finishRequest
unfoldable pub finish_request : Search → SearchRequest → Search × Bool
finish_request s request =
    if is_active s request
    then (record s { active = none; holds_cancel = false }, true)
    else (s, false)

-- current
abbrev pub is_current : Search → SearchRequest → Bool
is_current s request = not s.closed && (s.generation == request.generation)

-- The start of the finish functions: `take` is what one does with a current answer.
unfoldable pub finish_by : Search → SearchRequest → (Search → Search) → Search × Bool
unfolding finish_request
finish_by s request take =
    let (finished, was_active) = finish_request s request in
    if not was_active
    then (finished, false)
    else if not (is_current finished request)
    then (finished, false)
    else (take finished, true)

-- finishDetail
unfoldable pub finish_detail : Search → SearchRequest → Result Detail → Search × Bool
finish_detail s request answer = finish_by s request λ s. take answer s
  where
    take : Result Detail → Search → Search
    take (failed e) s = record s { phase = failing }
    take (ok found) s = record s { preview = some found; phase = idle }

-- cancel
unfoldable pub cancel : Search → Search
unfolding invalidate_request
cancel s = record (invalidate_request s) { pending = none; pending_item = no_anime; phase = idle }

-- close
unfoldable pub close : Search → Search
unfolding invalidate_request
close s = record (invalidate_request s) {
  closed = true;
  pending = none;
  pending_item = no_anime;
  phase = idle;
}

-- moveSelection
unfoldable pub move_selection : Search → ℤ → Search
move_selection s delta =
    if length s.results == 0
    then record s { selected = 0 }
    else record s { selected = clamp_index (length s.results) (pos s.selected +ℤ delta) }

-- movePage
unfoldable pub move_page : Search → ℤ → Search
move_page s delta =
    let page = moved_page (s.selected / page_size) delta (length s.results) page_size in
    if (length s.results == 0) || eq_ℤ delta (pos 0)
    then s
    else record s { selected = min (page * page_size) (length s.results - 1) }

-- pageStart
unfoldable pub page_start : Search → ℕ
page_start s = if length s.results == 0 then 0 else s.selected / page_size * page_size

-- visibleResults
unfoldable pub visible_results : Search → List Anime
unfolding page_start
visible_results s = take page_size (drop (page_start s) s.results)

-- `lower` is strings.ToLower.
module _ (lower : Str → Str) where
  -- filter
  unfoldable pub filter : Search → Search
  filter s =
      let results = filtered lower s.query s.items in
      record s { results = results; selected = min s.selected (length results - 1) }

  -- setItems
  unfoldable pub set_items : Search → List Anime → Search
  unfolding filter
  set_items s new = filter (record s { items = merged lower s.items new; loaded = true })

  -- setQuery
  unfoldable pub set_query : Search → Str → Search
  unfolding filter invalidate_request
  set_query s query =
      if str_eq s.query query || s.closed
      then s
      else filter (record (invalidate_request s) {
        pending = none;
        pending_item = no_anime;
        query = query;
        remote_query = [];
        selected = 0;
        preview = none;
        preview_item = no_anime;
        phase = idle;
      })

  take_library : Result (List Anime) → Search → Search
  take_library (failed e) s = record s { phase = failing; library_failed = true }
  take_library (ok new) s = record (set_items s new) { library_failed = false; phase = idle }

  -- finishLibrary
  unfoldable pub finish_library : Search → SearchRequest → Result (List Anime) → Search × Bool
  unfolding take_library set_items
  finish_library s request answer = finish_by s request (take_library answer)

  take_remote : Result (List Anime) → Search → Search
  take_remote (failed e) s = record s { phase = failing; remote_query = [] }
  take_remote (ok new) s = record (filter (record s { items = merged lower s.items new })) {
    remote_query = s.query;
    phase = idle;
  }

  -- finishSearch
  unfoldable pub finish_search : Search → SearchRequest → Result (List Anime) → Search × Bool
  unfolding take_remote filter
  finish_search s request answer = finish_by s request (take_remote answer)
