-- ===== src/Views/Detail/Requests.antt =====
-- What the detail page shows and plays when lists arrive.
use anime_portable.Prelude.{
  ℕ, suc, ◌+◌, ◌-◌, ◌≤◌, ◌==◌, Bool-cases, Option-cases, length, get_elem?, In, Str, str_eq,
  is_empty, str_lt, str_eq_iff, str_lt_irrefl, str_lt_trans, ◌≡◌, refl, ap, ◌∙◌, ◌⊎◌, inl, inr,
  Bool, true, false, ◌||◌, Option, none, some, List, [], ◌∷◌, arith, not_before, there, here,
}
use anime_portable.Models.{Err}
use anime_portable.Effects.{ok, failed}
use anime_portable.Views.Data.{Episode, History, PlayRequest}
use anime_portable.Views.Detail.{
  DetailModel, selected_episode_id, id_of, index_of, set_episodes, apply_stored, apply_refresh,
  is_playable, resumable, history_order, history_of, candidate, newer, newest, continue_request,
}

-- Whether a list has an episode with an ID.
unfoldable pub has_episode : Str → List Episode → Bool
has_episode id [] = false
has_episode id (episode ∷ episodes) = str_eq episode.id id || has_episode id episodes

index_of_least :
    (id : Str) (es : List Episode) (k : ℕ) → has_episode id es ≡ true → k ≤ index_of id es k
unfolding has_episode index_of
index_of_least id [] k has = cc
index_of_least id (e ∷ es) k has = ground (arith, index_of_least id es (k + 1))

get_elem?-index_of :
    (id : Str) (es : List Episode) (k : ℕ)
    → has_episode id es ≡ true
    → id_of (get_elem? es (index_of id es k - k)) ≡ id
unfolding has_episode index_of id_of
get_elem?-index_of id [] k has = cc
get_elem?-index_of id (e ∷ es) k has = elim (Bool-cases (str_eq e.id id)) [
  | inl same ↦ ap (λ i. id_of (get_elem? (e ∷ es) i)) (first same) ∙ (str_eq_iff e.id id).0 same
  | inr other ↦
      ap (λ i. id_of (get_elem? (e ∷ es) i)) (next other)
      ∙ get_elem?-index_of id es (k + 1) (ground arith)
]
  where
    first : str_eq e.id id ≡ true → index_of id (e ∷ es) k - k ≡ 0
    first same = ground arith

    next :
        str_eq e.id id ≡ false → index_of id (e ∷ es) k - k ≡ suc (index_of id es (k + 1) - (k + 1))
    next other = ground (arith, index_of_least id es (k + 1))

minus_zero : (n : ℕ) → n ≡ n - 0
minus_zero n = omega arith

-- A new list keeps the selected episode selected, if the list still has it.
pub selection_kept :
    (m : DetailModel) (episodes : List Episode)
    → is_empty (selected_episode_id m) ≡ false
    → has_episode (selected_episode_id m) episodes ≡ true
    → selected_episode_id (set_episodes m episodes) ≡ selected_episode_id m
unfolding selected_episode_id set_episodes
selection_kept m episodes some_id has =
    let found = get_elem?-index_of (selected_episode_id m) episodes 0 has in
    rw some_id (
      ap (λ i. id_of (get_elem? episodes i))
        (minus_zero (index_of (selected_episode_id m) episodes 0))
      ∙ found)

stored_shown :
    (m : DetailModel) (stored : List Episode)
    → m.refreshed ≡ false
    → m.episodes ≡ []
    → (apply_stored m stored).0.episodes ≡ stored
unfolding apply_stored set_episodes
stored_shown m [] first alone = ground arith
stored_shown m (x ∷ stored) first alone = ground arith

-- The source's list wins over the stored one, in whichever order the two arrive; a source that fails
-- leaves the stored list, and the page has no list to offer only if there is none stored.
pub refresh_wins :
    (m : DetailModel) (stored fetched : List Episode) (e : Err)
    → m.refreshed ≡ false
    → m.episodes ≡ []
    → ((apply_refresh (apply_stored m stored).0 (ok fetched)).0.episodes ≡ fetched)
      × ((apply_stored (apply_refresh m (ok fetched)).0 stored).0.episodes ≡ fetched)
      × ((apply_refresh (apply_stored m stored).0 (failed e)).0.episodes ≡ stored)
      × ((apply_refresh (apply_stored m stored).0 (failed e)).1 ≡ (length stored == 0))
unfolding apply_refresh apply_stored set_episodes
refresh_wins m stored fetched e first alone = (
  refl,
  refl,
  stored_shown m stored first alone,
  ap (λ (es : List Episode). length es == 0) (stored_shown m stored first alone),
)

-- An entry that continueRequest may choose: it is the history of a listed episode of the anime.
pub record IsCandidate (m : DetailModel) (item : History) : Type 0 where
  pub episode : Episode
  pub listed : In episode m.episodes
  pub entry : history_of m.history episode.id ≡ some item
  pub playable : is_playable m episode ≡ true
  pub resumes : resumable item ≡ true

-- The entry is no older than another.
abbrev pub NotOlder : History → History → Type 0
NotOlder item other = str_lt (history_order item) (history_order other) ≡ false

newer-NotOlder :
    (a b : Option History) (item : History)
    → ((s : History) → newer a b ≡ some s → NotOlder item s)
    → ((s : History) → a ≡ some s → NotOlder item s)
      × ((s : History) → b ≡ some s → NotOlder item s)
unfolding newer
newer-NotOlder a none item h = (h, λ s e. cc)
newer-NotOlder none (some x) item h = (λ s e. cc, h)
newer-NotOlder (some a) (some b) item h =
    let i = history_order item in
    let x = history_order a in
    let y = history_order b in
    (
      λ s e. ground (arith, h a, h b, str_lt_trans i x y),
      λ s e. ground (arith, h a, h b, not_before y x i, str_lt_irrefl y),
    )

newest-NotOlder :
    (m : DetailModel) (es : List Episode) (selected : Option History) (item : History)
    → newest m es selected ≡ some item
    → ((s : History) → selected ≡ some s → NotOlder item s)
      × ((e : Episode) (other : History)
          → In e es
          → candidate m e ≡ some other
          → NotOlder item other)
unfolding newest
newest-NotOlder m [] selected item h =
    (λ s e. ground (arith, str_lt_irrefl (history_order s)), λ e other i c. elim i [ ])
newest-NotOlder m (x ∷ es) selected item h =
    let (upper, rest) = newest-NotOlder m es (newer selected (candidate m x)) item h in
    let (old, new) = newer-NotOlder selected (candidate m x) item upper in
    (old, λ e other i c. at e other i c new rest)
  where
    at :
        (e : Episode) (other : History)
        → In e (x ∷ es)
        → candidate m e ≡ some other
        → ((s : History) → candidate m x ≡ some s → NotOlder item s)
        → ((e : Episode) (other : History)
            → In e es
            → candidate m e ≡ some other
            → NotOlder item other)
        → NotOlder item other
    at _ other here c new rest = new other c
    at e other (there i) c new rest = rest e other i c

newer-from :
    (a b : Option History) (item : History)
    → newer a b ≡ some item
    → (a ≡ some item) ⊎ (b ≡ some item)
unfolding newer
newer-from a none item h = inl h
newer-from none (some x) item h = inr h
newer-from (some a) (some b) item h = ground arith

newest-from :
    (m : DetailModel) (es : List Episode) (selected : Option History) (item : History)
    → newest m es selected ≡ some item
    → (selected ≡ some item) ⊎ ((e : Episode) × In e es × (candidate m e ≡ some item))
unfolding newest
newest-from m [] selected item h = inl h
newest-from m (x ∷ es) selected item h =
    elim (newest-from m es (newer selected (candidate m x)) item h) [
      | inr (e, i, c) ↦ inr (e, there i, c)
      | inl from ↦ elim (newer-from selected (candidate m x) item from) [
        | inl old ↦ inl old
        | inr new ↦ inr (x, here, new)
      ]
    ]

candidate-IsCandidate :
    (m : DetailModel) (e : Episode) (item : History)
    → In e m.episodes
    → candidate m e ≡ some item
    → IsCandidate m item
unfolding candidate
candidate-IsCandidate m e item i c = record {
  episode = e;
  listed = i;
  entry = ground arith;
  playable = ground arith;
  resumes = ground arith;
}

-- Continuing an anime plays it from the saved position of a listed episode that can be resumed, and no
-- other such episode has a history entry whose time, as a text, is greater.
pub continue_sound :
    (m : DetailModel) (request : PlayRequest)
    → continue_request m ≡ some request
    → (item : History) × IsCandidate m item
      × (request.anime_id ≡ m.anime_id)
      × (request.episode_id ≡ item.episode_id)
      × (request.start_at ≡ item.position)
      × ((e : Episode) (other : History)
          → In e m.episodes
          → candidate m e ≡ some other
          → NotOlder item other)
unfolding continue_request
continue_sound m request h = elim (Option-cases (newest m m.episodes none)) [
  | inl nothing ↦ absurd (ground arith)
  | inr (item, found) ↦ elim (newest-from m m.episodes none item found) [
    | inl old ↦ cc
    | inr (e, i, c) ↦ (
      item,
      candidate-IsCandidate m e item i c,
      ground arith,
      ground arith,
      ground arith,
      (newest-NotOlder m m.episodes none item found).1,
    )
  ]
]
