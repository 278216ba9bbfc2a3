-- ===== src/Tests/Views.antt =====
-- Pages of apps/desktop/fltkhome in which the properties' hypotheses hold.
use anime_portable.Prelude.{
  ℕ, ◌+◌, leb, if◌then◌else◌, is_some, Str, bytes, str_eq, is_empty, str_lt, trim_space, String,
  ◌≡◌, refl, inr, true, false, ◌&&◌, none, some, List, [], ◌∷◌, map, arith, contains, has_prefix,
}
use anime_portable.Effects.{ok}
use anime_portable.Views.Data.{Anime, no_anime}
use anime_portable.Views.Items.{put, put_all, before, sort, insert, merged, matches, filtered}
use anime_portable.Views.Items.Merge.{find, last, or_else, find-merged}
use anime_portable.Views.Search.{
  Search, SearchRequest, remote, loading, begin_search, queue_search, take_pending, set_query,
}
use anime_portable.Views.Search.Sound.{
  IsSound, SearchAction, run, run-IsSound, sets_query, begins_search, ends_search, closes,
}
use anime_portable.Views.Search.Requests.{
  brings_remote, finish, shown, stale_answer, search_replaced,
}

-- strings.ToLower on ASCII.
abbrev lower_byte : ℕ → ℕ
lower_byte c = if leb 65 c && leb c 90 then c + 32 else c

abbrev lower : Str → Str
lower = map lower_byte

abbrev anime_of : String → String → Anime
anime_of id title = record {
  id = bytes id;
  title = bytes title;
  native_title = [];
  description = [];
}

abbrev items : List Anime
items = anime_of "2" "Frieren" ∷ anime_of "" "Lost" ∷ anime_of "1" "Bocchi" ∷ []

abbrev new_items : List Anime
new_items = anime_of "2" "Aria" ∷ []

-- A page on which the search for a query is under way.
abbrev remote_request : SearchRequest
remote_request = record { generation = 1; kind = remote }

abbrev page : Search
page = record {
  items = items;
  results = items;
  query = bytes "fri";
  selected = 2;
  phase = loading;
  loaded = true;
  library_failed = false;
  preview = none;
  preview_item = no_anime;
  remote_query = [];
  closed = false;
  generation = 1;
  active = some remote_request;
  holds_cancel = true;
  pending = none;
  pending_item = no_anime;
}

abbrev closed_page : Search
closed_page = record page { closed = true; generation = 2; holds_cancel = false }

page-IsSound : IsSound 1 page
page-IsSound = record {
  counted = omega arith;
  tracked = λ a e. ground arith;
  current = λ a e g. refl;
  held = λ e. refl;
  ended = λ e. cc;
  in_range = omega arith;
}

abbrev typing : List SearchAction
typing =
    sets_query (bytes "a") ∷ ends_search remote_request (ok new_items) ∷ begins_search ∷ closes ∷ []

run-IsSound_example : IsSound 5 (run lower page typing)
run-IsSound_example = run-IsSound lower 1 page typing (omega arith) page-IsSound

stale_answer_example :
    let (s', taken) = finish lower closed_page remote_request (brings_remote (ok new_items)) in
    (taken ≡ false) × (shown s' ≡ shown closed_page) × (s'.pending ≡ closed_page.pending)
stale_answer_example =
    stale_answer lower closed_page remote_request (brings_remote (ok new_items))
      (inr (λ e. omega (arith, e)))

search_replaced_example :
    let asked = set_query lower page (bytes "aria") in
    let ended =
      (finish lower (queue_search asked) remote_request (brings_remote (ok new_items))).0 in
    (shown ended ≡ shown asked)
    × ((take_pending ended).1 ≡ some (remote, no_anime))
    × (is_some (begin_search (take_pending ended).0).1 ≡ true)
unfolding str_eq trim_space
search_replaced_example =
    search_replaced lower 1 page remote_request (bytes "aria") (brings_remote (ok new_items))
      (omega arith) page-IsSound refl refl refl refl

find-merged_example : find (bytes "2") (merged lower items new_items) ≡ (
    if is_empty (bytes "2")
    then none
    else or_else (last (bytes "2") new_items) (last (bytes "2") items))
find-merged_example = find-merged lower (bytes "2") items new_items

-- The merged items: the new "Aria" takes the place of "Frieren", and the one without an ID is gone.
merged_test : merged lower items new_items ≡ anime_of "2" "Aria" ∷ anime_of "1" "Bocchi" ∷ []
unfolding merged put_all put sort insert before str_eq str_lt
merged_test = refl

filtered_test : filtered lower (bytes " RIE ") items ≡ anime_of "2" "Frieren" ∷ []
unfolding filtered matches contains has_prefix trim_space
filtered_test = refl
