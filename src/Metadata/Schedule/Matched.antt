-- ===== src/Metadata/Schedule/Matched.antt =====
-- Which anime MatchSchedule of core/schedule.go finds for an entry.
use anime_portable.Metadata.Schedule.Tally.{
  Pair, add_pairs, IsId, tally, tally_complete, get-add_key_other, tally_sound, Names,
  get-add_pairs,
}
use anime_portable.Metadata.Schedule.{
  schedule_title_key, ScheduleEntry, add_key, add_titles, find_title, match_entry,
}
use anime_portable.Metadata.Text.{Unicode, Patterns}
use anime_portable.Prelude.{
  Bool-cases, Option-cases, All, Str, str_eq, is_empty, ◌≡◌, refl, sym, ap, ◌∙◌, ◌⊎◌, inl, inr,
  true, false, Option, none, some, List, [], ◌∷◌, arith, get_key, In-All,
}
use anime_portable.Models.{AnimeId, Anime}

module _ (unicode : Unicode) (patterns : Patterns) where
  -- The keys of the titles of a library with the IDs of their anime.
  pub pairs_of : List Anime → List (Str × AnimeId)
  pairs_of [] = []
  pairs_of (anime ∷ library) =
      (schedule_title_key unicode patterns anime.title, anime.id)
      ∷ (schedule_title_key unicode patterns anime.native_title, anime.id)
      ∷ pairs_of library

  add_titles-pairs :
      (by_title : List Pair) (library : List Anime)
      → add_titles unicode patterns by_title library ≡ add_pairs by_title (pairs_of library)
  unfolding add_titles add_pairs pairs_of
  add_titles-pairs by_title [] = refl
  add_titles-pairs by_title (anime ∷ library) =
      add_titles-pairs
        (add_key (add_key by_title (schedule_title_key unicode patterns anime.title) anime.id)
          (schedule_title_key unicode patterns anime.native_title) anime.id)
        library

  get-of_library :
      (library : List Anime) (key : Str)
      → is_empty key ≡ false
      → get_key (add_titles unicode patterns [] library) key ≡ tally key none (pairs_of library)
  unfolding get_key
  get-of_library library key full =
      ap (λ m. get_key m key) (add_titles-pairs [] library)
      ∙ get-add_pairs [] (pairs_of library) key full

  add_key-empty :
      (by_title : List Pair) (k : Str) (id : AnimeId)
      → get_key (add_key by_title k id) [] ≡ get_key by_title []
  unfolding add_key str_eq
  add_key-empty by_title [] id = refl
  add_key-empty by_title (x ∷ k) id = get-add_key_other by_title (x ∷ k) id [] refl

  add_pairs-empty :
      (by_title pairs : List Pair) → get_key (add_pairs by_title pairs) [] ≡ get_key by_title []
  unfolding add_pairs
  add_pairs-empty by_title [] = refl
  add_pairs-empty by_title ((k, id) ∷ pairs) =
      add_pairs-empty (add_key by_title k id) pairs ∙ add_key-empty by_title k id

  -- No key is the empty one.
  get-empty : (library : List Anime) → get_key (add_titles unicode patterns [] library) [] ≡ none
  unfolding get_key
  get-empty library =
      ap (λ m. get_key m []) (add_titles-pairs [] library) ∙ add_pairs-empty [] (pairs_of library)

  -- A title of an entry names an anime of the library, and no other.
  pub record NamedBy (library : List Anime) (title : Str) (id : AnimeId) : Type 0 where
    pub keyed : is_empty (schedule_title_key unicode patterns title) ≡ false
    pub names : Names (pairs_of library) (schedule_title_key unicode patterns title) id

  pairs-IsId :
      (library : List Anime)
      → All (λ (a : Anime). IsId a.id) library
      → All (λ (p : Pair). IsId p.1) (pairs_of library)
  unfolding pairs_of
  pairs-IsId [] h = tt
  pairs-IsId (anime ∷ library) h = (h.0, (h.0, pairs-IsId library h.1))

  -- The value of a title's key that is no mark.
  get-NamedBy :
      (library : List Anime) (title : Str) (id : AnimeId)
      → All (λ (a : Anime). IsId a.id) library
      → get_key (add_titles unicode patterns [] library) (schedule_title_key unicode patterns title)
        ≡ some id
      → IsId id
      → NamedBy library title id
  get-NamedBy library title id ids e is =
      let key = schedule_title_key unicode patterns title in
      elim (Bool-cases (is_empty key)) [
        | inl empty ↦ absurd (
            clash (
              sym (get-empty library)
              ∙ ap (get_key (add_titles unicode patterns [] library)) (sym (nil_of key empty))
              ∙ e))
        | inr full ↦ record {
          keyed = full;
          names =
              tally_sound key (pairs_of library) id (pairs-IsId library ids)
                (sym (get-of_library library key full) ∙ e) is;
        }
      ]
    where
      nil_of : (s : Str) → is_empty s ≡ true → s ≡ []
      nil_of [] h = refl
      nil_of (x ∷ s) h = cc

      clash : none ≡ some id → ⊥
      clash h = cc

  NamedBy-get :
      (library : List Anime) (title : Str) (id : AnimeId)
      → NamedBy library title id
      → get_key (add_titles unicode patterns [] library) (schedule_title_key unicode patterns title)
        ≡ some id
  NamedBy-get library title id named =
      let key = schedule_title_key unicode patterns title in
      get-of_library library key named.keyed ∙ tally_complete key (pairs_of library) id named.names

  find-cons :
      (by_title : List Pair) (title : Str) (titles : List Str) (id : AnimeId)
      → find_title unicode patterns by_title (title ∷ titles) ≡ some id
      → ((get_key by_title (schedule_title_key unicode patterns title) ≡ some id) × IsId id)
        ⊎ (find_title unicode patterns by_title titles ≡ some id)
  unfolding find_title
  find-cons by_title title titles id e = ground arith

  find-first :
      (by_title : List Pair) (title : Str) (titles : List Str) (id : AnimeId)
      → get_key by_title (schedule_title_key unicode patterns title) ≡ some id
      → IsId id
      → find_title unicode patterns by_title (title ∷ titles) ≡ some id
  unfolding find_title
  find-first by_title title titles id e is = ground arith

  Named-IsId :
      (library : List Anime) (title : Str) (id : AnimeId)
      → All (λ (a : Anime). IsId a.id) library
      → NamedBy library title id
      → IsId id
  Named-IsId library title id ids named =
      In-All (λ (p : Pair). IsId p.1) named.names.0 (pairs-IsId library ids)

  -- The ID that the titles of an entry find.
  abbrev found_by : List Pair → ScheduleEntry → Option AnimeId
  found_by by_title entry =
      find_title unicode patterns by_title (entry.title ∷ entry.native_title ∷ [])

  entry-none :
      (by_title : List Pair) (entry : ScheduleEntry)
      → found_by by_title entry ≡ none
      → match_entry unicode patterns by_title entry ≡ entry
  unfolding match_entry
  entry-none by_title entry e = ground arith

  entry-some :
      (by_title : List Pair) (entry : ScheduleEntry) (id : AnimeId)
      → entry.anime_id ≡ []
      → found_by by_title entry ≡ some id
      → match_entry unicode patterns by_title entry ≡ record entry { anime_id = id }
  unfolding match_entry
  entry-some by_title entry id unknown e = ground arith

  found-NamedBy :
      (library : List Anime) (entry : ScheduleEntry) (id : AnimeId)
      → All (λ (a : Anime). IsId a.id) library
      → found_by (add_titles unicode patterns [] library) entry ≡ some id
      → NamedBy library entry.title id ⊎ NamedBy library entry.native_title id
  unfolding find_title
  found-NamedBy library entry id ids e =
      let by_title = add_titles unicode patterns [] library in
      elim (find-cons by_title entry.title (entry.native_title ∷ []) id e) [
        | inl (first, is) ↦ inl (get-NamedBy library entry.title id ids first is)
        | inr later ↦ elim (find-cons by_title entry.native_title [] id later) [
          | inl (second, is) ↦ inr (get-NamedBy library entry.native_title id ids second is)
          | inr nothing ↦ absurd (cc)
        ]
      ]

  -- An entry whose anime the store does not know gets an ID only if its title or its native title names
  -- that anime of the library and no other, and nothing else of it changes. Where its title names one, it
  -- gets its ID. No ID of the library is the mark of the ambiguous titles.
  pub entry_matched :
      (library : List Anime) (entry : ScheduleEntry)
      → All (λ (a : Anime). IsId a.id) library
      → entry.anime_id ≡ []
      → let matched = match_entry unicode patterns (add_titles unicode patterns [] library) entry in
        ((matched ≡ entry)
          ⊎ ((id : AnimeId) × (matched ≡ record entry { anime_id = id })
              × (NamedBy library entry.title id ⊎ NamedBy library entry.native_title id)))
        × ((id : AnimeId) → NamedBy library entry.title id → matched.anime_id ≡ id)
  entry_matched library entry ids unknown =
      let by_title = add_titles unicode patterns [] library in
      (
        elim (Option-cases (found_by by_title entry)) [
          | inl e ↦ inl (entry-none by_title entry e)
          | inr (id, e) ↦
              inr (id, entry-some by_title entry id unknown e, found-NamedBy library entry id ids e)
        ],
        λ id named.
            ap (λ (m : ScheduleEntry). m.anime_id)
              (entry-some by_title entry id unknown (
                find-first by_title entry.title (entry.native_title ∷ []) id
                  (NamedBy-get library entry.title id named)
                  (Named-IsId library entry.title id ids named))),
      )
