-- ===== src/Library/Opening/Found.antt =====
-- What FindOpening and MyAnimeListID of core/opening.go find.
use anime_portable.App.{ready}
use anime_portable.Library.Opening.Chosen.{choose_sound}
use anime_portable.Library.Opening.{Opening, choose_opening, OpeningCandidate, fits, gap}
use anime_portable.Library.Numbers.{FloatParser}
use anime_portable.Library.Opening.Find.{find_opening, OpeningSource, find_numbered, opening_number}
use anime_portable.Host.{Host}
use anime_portable.Prelude.{
  ℕ, zero, suc, ◌≤◌, length, In, ℤ, pos, pos_part, ◌≤ℤ◌, ltb_ℤ, Duration, ◌≡◌, ap, ◌∙◌, Bool, true,
  ◌&&◌, List, arith,
}
use anime_portable.Models.{AnimeId, EpisodeId, EpisodeMapping, invalid_playback}
use anime_portable.Effects.{Eff, ok, pure, ◌>>=◌, guard, >>=-eq-ok, pure-eq-ok, Result}

module _ (host : Host) where
  open host use {W}

  -- An opening that is found: the source gave it for the episode's number, and none of its submissions
  -- fits the cut better.
  pub record IsFound (my_anime_list_id number : ℕ) (length : Duration) (source : OpeningSource W)
      (opening : Opening) (w' : W) : Type 0 where
    pub before : W
    pub candidates : List OpeningCandidate
    pub asked : source.openings my_anime_list_id number length before ≡ (ok candidates, w')
    pub chosen : OpeningCandidate
    pub offered : In chosen candidates
    pub fit : fits length chosen ≡ true
    pub same : opening ≡ chosen.opening
    pub closest :
        (d : OpeningCandidate)
        → In d candidates
        → fits length d ≡ true
        → gap chosen.episode_length length ≤ℤ gap d.episode_length length

  find_numbered_sound :
      (my_anime_list_id number : ℕ) (length : Duration) (source : OpeningSource W)
      (opening : Opening) (w w' : W)
      → find_numbered host my_anime_list_id number length source w ≡ (ok (opening, true), w')
      → (1 ≤ number) × IsFound my_anime_list_id number length source opening w'
  unfolding find_numbered
  find_numbered_sound id zero length source opening w w' h = cc
  find_numbered_sound id (suc n) length source opening w w' h =
      let (candidates, w1, asked, k) =
        >>=-eq-ok (source.openings id (suc n) length)
          (λ candidates. pure (choose_opening candidates length)) w h in
      let (c, i, fit, same, closest) = choose_sound length candidates opening (pure-eq-ok k) in
      (
        omega arith,
        record {
          before = w;
          candidates = candidates;
          asked =
              asked
              ∙ ap (λ v. (ok candidates, v)) (ap (λ (r : Result (Opening × Bool) × W). r.1) k);
          chosen = c;
          offered = i;
          fit = fit;
          same = same;
          closest = closest;
        },
      )

  -- When FindOpening finds an opening, the episode's first mapping in the store has a whole number from 1
  -- up, the source has been asked last for that number and length, and the opening is that of a submission that
  -- fits, of whose cut no other's length is closer.
  pub opening-IsFound :
      (parse_float : FloatParser) (anime_id : AnimeId) (episode_id : EpisodeId)
      (my_anime_list_id : ℤ) (length : Duration) (source : OpeningSource W) (opening : Opening)
      (w w' : W)
      → find_opening host parse_float anime_id episode_id my_anime_list_id length source w
        ≡ (ok (opening, true), w')
      → (mappings : List EpisodeMapping) × (w1 : W) × (w2 : W) × (host.episode_mappings anime_id w1
          ≡ (ok mappings, w2))
        × (1 ≤ opening_number parse_float mappings episode_id)
        × IsFound
            (pos_part my_anime_list_id)
            (opening_number parse_float mappings episode_id)
            length
            source
            opening
            w'
  unfolding find_opening
  opening-IsFound parse_float anime_id episode_id id length source opening w w' h =
      let finding : List EpisodeMapping → Eff W (Opening × Bool) = λ mappings.
        find_numbered host (pos_part id) (opening_number parse_float mappings episode_id) length
          source in
      let (_, w1, _, k) =
        >>=-eq-ok (guard (ready host && ltb_ℤ (pos 0) id && ltb_ℤ (pos 0) length) invalid_playback)
          (λ _. host.episode_mappings anime_id >>= finding) w h in
      let (mappings, w2, stored, l) = >>=-eq-ok (host.episode_mappings anime_id) finding w1 k in
      let (whole, is) =
        find_numbered_sound (pos_part id) (opening_number parse_float mappings episode_id) length
          source opening w2 w' l in
      (mappings, w1, w2, stored, whole, is)
