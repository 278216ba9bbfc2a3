-- ===== src/Library/Screens/Listed.antt =====
-- What ListHistory and ListFollowing list.
use anime_portable.Prelude.{◌≡◌, sym, ap, ◌∙◌, List, [], ◌∷◌, map}
use anime_portable.Models.{AnimeId, invalid_playback, FollowedAnime, HistoryEntry, FollowingEntry}
use anime_portable.Effects.{ok, guard, check, >>=-eq-ok, pure-eq-ok}
use anime_portable.Host.{Host}
use anime_portable.App.{ready}
use anime_portable.Library.Screens.{
  WatchedEpisode, Loaded, numbers_for, load_numbers, list_entries, list_history,
}

-- The first list has elements of the second, in their order.
pub data IsSublist {ℓ} {A : Type ℓ} : List A → List A → Type ℓ where
  done : IsSublist [] []
  keeps : {x : A} {xs ys : List A} → IsSublist xs ys → IsSublist (x ∷ xs) (x ∷ ys)
  skips : {y : A} {xs ys : List A} → IsSublist xs ys → IsSublist xs (y ∷ ys)

abbrev entries_of : List WatchedEpisode → List HistoryEntry
entries_of = map (λ e. e.entry)

abbrev ids_of : List FollowingEntry → List AnimeId
ids_of = map (λ e. e.anime_id)

abbrev followed_ids : List FollowedAnime → List AnimeId
followed_ids = map (λ e. e.anime_id)

module _ (host : Host) where
  open host use {W}

  list_entries-entries :
      (loaded : Loaded) (history : List HistoryEntry) (w w' : W) (listed : List WatchedEpisode)
      → list_entries host loaded history w ≡ (ok listed, w')
      → entries_of listed ≡ history
  unfolding list_entries
  list_entries-entries loaded [] w w' listed h = ap entries_of (sym (pure-eq-ok h))
  list_entries-entries loaded (entry ∷ history) w w' listed h =
      let id = entry.progress.anime_id in
      let ((numbers, loaded'), w1, h1, k1) =
        >>=-eq-ok (load_numbers host (numbers_for loaded id) loaded id) _ w h in
      let (rest, w2, h2, k2) = >>=-eq-ok (list_entries host loaded' history) _ w1 k1 in
      ap entries_of (sym (pure-eq-ok k2))
      ∙ ap (λ l. entry ∷ l) (list_entries-entries loaded' history w1 w2 rest h2)

  -- When ListHistory succeeds it lists exactly the entries that the store has given, in their order.
  pub history_listed :
      (w w' : W) (listed : List WatchedEpisode)
      → list_history host w ≡ (ok listed, w')
      → (w1 : W) × (w2 : W) × (host.history w1 ≡ (ok (entries_of listed), w2))
  unfolding list_history
  history_listed w w' listed h =
      let (_, w1, h1, k1) = >>=-eq-ok (guard (ready host) invalid_playback) _ w h in
      let (_, w2, h2, k2) = >>=-eq-ok (check host.ctx_err) _ w1 k1 in
      let (history, w3, h3, k3) = >>=-eq-ok host.history _ w2 k2 in
      let same = list_entries-entries [] history w3 w' listed k3 in
      (w2, w3, h3 ∙ ap (λ l. (ok l, w3)) (sym same))
