-- ===== src/Views/Home/Covers.antt =====
-- The loop and the sort of newestPerAnime in apps/desktop/fltkhome/model.go.
use anime_portable.Prelude.{
  if◌then◌else◌, Bool-cases, In, str_eq, str_eq_iff, str_eq_refl, str_lt_irrefl, str_lt_trans,
  str_lt_asymm, ◌≡◌, refl, sym, ◌∙◌, inl, inr, Bool, true, false, Option, none, some, List, [], ◌∷◌,
  arith, here, there,
}
use anime_portable.Models.{Time}
use anime_portable.Views.Data.{History}
use anime_portable.Views.Home.{
  TimeParser, newer_by_id, newer_at, newer_history, put_newest, newest_of, insert_history,
  sort_history,
}

newer_by_id_trans :
    (a b c : History) → newer_by_id a b ≡ true → newer_by_id b c ≡ true → newer_by_id a c ≡ true
newer_by_id_trans a b c h k = ground (
  arith,
  str_lt_trans c.episode_id b.episode_id a.episode_id,
  str_lt_trans c.anime_id b.anime_id a.anime_id,
  str_eq_iff a.episode_id b.episode_id,
  str_eq_iff b.episode_id c.episode_id,
  str_eq_iff a.episode_id c.episode_id,
  str_lt_asymm c.episode_id b.episode_id,
  str_lt_irrefl a.episode_id,
)

newer_at_trans :
    (p q r : Option Time) (a b c : History)
    → newer_at p q a b ≡ true
    → newer_at q r b c ≡ true
    → newer_at p r a c ≡ true
unfolding newer_at
newer_at_trans (some x) (some y) (some z) a b c h k = ground (arith, newer_by_id_trans a b c)
newer_at_trans (some x) q none a b c h k = refl
newer_at_trans none (some y) r a b c h k = cc
newer_at_trans p none (some z) a b c h k = cc
newer_at_trans none none none a b c h k = ground (
  arith,
  newer_by_id_trans a b c,
  str_lt_trans c.last_played b.last_played a.last_played,
  str_eq_iff a.last_played b.last_played,
  str_eq_iff b.last_played c.last_played,
  str_eq_iff a.last_played c.last_played,
  str_lt_asymm c.last_played b.last_played,
  str_lt_irrefl a.last_played,
)

module _ (parse_time : TimeParser) where
  abbrev pub newer : History → History → Bool
  newer = newer_history parse_time

  newer_trans : (a b c : History) → newer a b ≡ true → newer b c ≡ true → newer a c ≡ true
  unfolding newer_history
  newer_trans a b c h k =
      newer_at_trans (parse_time a.last_played) (parse_time b.last_played)
        (parse_time c.last_played) a b c h k

  newer_irrefl : (a : History) → newer a a ≡ false
  unfolding newer_history newer_at
  newer_irrefl a =
      ground (arith, str_eq_refl a.last_played, str_eq_refl a.episode_id, str_lt_irrefl a.anime_id)

  -- A list has an entry of the same anime that is no older.
  pub record Covers (rows : List History) (item : History) : Type 0 where
    pub row : History
    pub listed : In row rows
    pub anime : row.anime_id ≡ item.anime_id
    pub newest : newer item row ≡ false

  not_newer :
      (item x old : History) → newer x old ≡ true → newer item old ≡ false → newer item x ≡ false
  not_newer item x old h k = elim (Bool-cases (newer item x)) [
    | inl e ↦ ground (arith, newer_trans item x old e h)
    | inr e ↦ e
  ]

  head-Covers :
      (old x item : History) (olds : List History)
      → str_eq old.anime_id x.anime_id ≡ true
      → old.anime_id ≡ item.anime_id
      → newer item old ≡ false
      → Covers ((if newer x old then x else old) ∷ olds) item
  head-Covers old x item olds same anime none_newer = elim (Bool-cases (newer x old)) [
    | inl e ↦ rw e (record {
      row = x;
      listed = here;
      anime = sym ((str_eq_iff old.anime_id x.anime_id).0 same) ∙ anime;
      newest = not_newer item x old e none_newer;
    })
    | inr e ↦ rw e (record { row = old; listed = here; anime = anime; newest = none_newer })
  ]

  tail-Covers : (x item : History) (xs : List History) → Covers xs item → Covers (x ∷ xs) item
  tail-Covers x item xs c = record {
    row = c.row;
    listed = there c.listed;
    anime = c.anime;
    newest = c.newest;
  }

  put_newest-Covers :
      (rows : List History) (x item : History)
      → Covers rows item
      → Covers (put_newest parse_time rows x) item
  unfolding put_newest
  put_newest-Covers [] x item c = elim c.listed [ ]
  put_newest-Covers (old ∷ olds) x item c = elim (Bool-cases (str_eq old.anime_id x.anime_id)) [
    | inl same ↦ rw same (kept c.row c.listed c.anime c.newest same)
    | inr other ↦ rw other (passed c.row c.listed c.anime c.newest (put_newest-Covers olds x item))
  ]
    where
      kept :
          (row : History)
          → In row (old ∷ olds)
          → row.anime_id ≡ item.anime_id
          → newer item row ≡ false
          → str_eq old.anime_id x.anime_id ≡ true
          → Covers ((if newer x old then x else old) ∷ olds) item
      kept _ here anime none_newer same = head-Covers old x item olds same anime none_newer
      kept row (there i) anime none_newer same =
          tail-Covers (if newer x old then x else old) item olds
            (record { row = row; listed = i; anime = anime; newest = none_newer })

      passed :
          (row : History)
          → In row (old ∷ olds)
          → row.anime_id ≡ item.anime_id
          → newer item row ≡ false
          → (Covers olds item → Covers (put_newest parse_time olds x) item)
          → Covers (old ∷ put_newest parse_time olds x) item
      passed _ here anime none_newer put = record {
        row = old;
        listed = here;
        anime = anime;
        newest = none_newer;
      }
      passed row (there i) anime none_newer put =
          tail-Covers old item (put_newest parse_time olds x)
            (put (record { row = row; listed = i; anime = anime; newest = none_newer }))

  put_newest_self : (rows : List History) (x : History) → Covers (put_newest parse_time rows x) x
  unfolding put_newest
  put_newest_self [] x = record { row = x; listed = here; anime = refl; newest = newer_irrefl x }
  put_newest_self (old ∷ olds) x = elim (Bool-cases (str_eq old.anime_id x.anime_id)) [
    | inr other ↦
        rw other (tail-Covers old x (put_newest parse_time olds x) (put_newest_self olds x))
    | inl same ↦ elim (Bool-cases (newer x old)) [
      | inl e ↦
          rw (same, e) (record { row = x; listed = here; anime = refl; newest = newer_irrefl x })
      | inr e ↦
          rw (same, e)
            (record {
              row = old;
              listed = here;
              anime = (str_eq_iff old.anime_id x.anime_id).0 same;
              newest = e;
            })
    ]
  ]

  newest_of-Covers :
      (include : History → Bool) (rows history : List History) (item : History)
      → Covers rows item
      → Covers (newest_of parse_time include rows history) item
  unfolding newest_of
  newest_of-Covers include rows [] item c = c
  newest_of-Covers include rows (x ∷ history) item c = elim (Bool-cases (include x)) [
    | inl e ↦ rw e (
        newest_of-Covers include (put_newest parse_time rows x) history item
          (put_newest-Covers rows x item c))
    | inr e ↦ rw e (newest_of-Covers include rows history item c)
  ]

  pub newest_of_all :
      (include : History → Bool) (rows history : List History) (item : History)
      → In item history
      → include item ≡ true
      → Covers (newest_of parse_time include rows history) item
  unfolding newest_of
  newest_of_all include rows [] item i e = elim i [ ]
  newest_of_all include rows (x ∷ history) _ here e =
      rw e
        (newest_of-Covers include (put_newest parse_time rows x) history x (put_newest_self rows x))
  newest_of_all include rows (x ∷ history) item (there i) e =
      newest_of_all include (if include x then put_newest parse_time rows x else rows) history item
        i e

  In-insert_history :
      (x : History) (xs : List History) (row : History)
      → In row (x ∷ xs)
      → In row (insert_history parse_time x xs)
  unfolding insert_history
  In-insert_history x [] row i = i
  In-insert_history x (y ∷ ys) row i = elim (Bool-cases (newer y x)) [
    | inr e ↦ rw e i
    | inl e ↦ rw e (behind row i (In-insert_history x ys))
  ]
    where
      behind :
          (row : History)
          → In row (x ∷ y ∷ ys)
          → ((row : History) → In row (x ∷ ys) → In row (insert_history parse_time x ys))
          → In row (y ∷ insert_history parse_time x ys)
      behind _ here later = there (later x here)
      behind _ (there here) later = here
      behind row (there (there i)) later = there (later row (there i))

  pub In-sort_history :
      (xs : List History) (row : History) → In row xs → In row (sort_history parse_time xs)
  unfolding sort_history
  In-sort_history [] row i = i
  In-sort_history (x ∷ xs) _ here = In-insert_history x (sort_history parse_time xs) x here
  In-sort_history (x ∷ xs) row (there i) =
      In-insert_history x (sort_history parse_time xs) row (there (In-sort_history xs row i))
