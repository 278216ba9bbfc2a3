-- ===== src/Metadata/Score/Bounds.antt =====
-- The values that the scores of core/metadata_match.go take.
use anime_portable.Metadata.Names.{text_score, high_score, weak_exact_score}
use anime_portable.Metadata.Score.{
  season_hint, count_hint, candidate_title_score, hint_score, best_of_titles, best_of_aliases,
  year_hint, best_title_score,
}
use anime_portable.Prelude.{
  ℕ, ◌+◌, ◌*◌, ◌≤◌, max, ◌==◌, if◌then◌else◌, Str, str_eq, is_empty, ℤ, pos, ◌+ℤ◌, ◌≤ℤ◌, ltb_ℤ,
  eq_ℤ, +ℤ_parts, -ℤ_parts, ◌≡◌, refl, ◌⊎◌, inl, Bool, true, false, not, ◌&&◌, List, [], ◌∷◌, arith,
}
use anime_portable.Models.{MetadataQuery, MetadataCandidate}

-- A score of names is none, that of a containment, a weak match or a full one.
abbrev pub IsLevel : ℕ → Type 0
IsLevel n = (n ≡ 0) ⊎ (n ≡ 52) ⊎ (n ≡ 60) ⊎ (n ≡ 70)

text_score-IsLevel : (a b : Str) → IsLevel (text_score a b)
unfolding text_score
text_score-IsLevel a b = ground arith

max-IsLevel : (m n : ℕ) → IsLevel m → IsLevel n → IsLevel (max m n)
max-IsLevel m n hm hn = ground arith

titles-IsLevel :
    (query : Str) (titles : List Str) (best : ℕ)
    → IsLevel best
    → IsLevel (best_of_titles query titles best)
unfolding best_of_titles
titles-IsLevel query [] best h = h
titles-IsLevel query (t ∷ ts) best h =
    titles-IsLevel query ts (max best (text_score query t))
      (max-IsLevel best (text_score query t) h (text_score-IsLevel query t))

aliases-IsLevel :
    (query : Str) (aliases : List Str) (best : ℕ)
    → IsLevel best
    → IsLevel (best_of_aliases query aliases best)
unfolding best_of_aliases
aliases-IsLevel query [] best h = h
aliases-IsLevel query (alias ∷ rest) best h =
    aliases-IsLevel query rest
      (if text_score query alias == high_score then max best weak_exact_score else best)
      (ground (arith, max-IsLevel best 60 h))

pub title_score-IsLevel :
    (query_title query_native title native : Str) (aliases series : List Str)
    → IsLevel (candidate_title_score query_title query_native title native aliases series)
unfolding candidate_title_score best_title_score
title_score-IsLevel qt qn title native aliases series =
    let titles = title ∷ native ∷ [] in
    let first = best_of_titles qt titles 0 in
    let titled = best_of_aliases qt aliases first in
    let second = best_of_titles qn titles titled in
    ground (
      arith,
      aliases-IsLevel qn aliases second (
          titles-IsLevel qn titles titled
            (aliases-IsLevel qt aliases first (titles-IsLevel qt titles 0 (inl refl)))),
    )

count : Bool → ℕ
count true = 1
count false = 0

-- How many of the season, the year and the number of episodes are known on both sides and agree.
pub agreements : MetadataQuery → MetadataCandidate → Str → Str → ℕ
agreements query candidate query_season candidate_season =
    count (not (is_empty query_season) && str_eq query_season candidate_season)
    + count (ltb_ℤ (pos 0) query.year && eq_ℤ query.year candidate.year)
    + count (ltb_ℤ (pos 0) query.episode_count && eq_ℤ query.episode_count candidate.episode_count)

season_hint_bound :
    (q c : Str) → season_hint q c ≤ℤ pos (12 * count (not (is_empty q) && str_eq q c))
unfolding season_hint count str_eq
season_hint_bound [] [] = ground arith
season_hint_bound [] (y ∷ ys) = ground arith
season_hint_bound (x ∷ xs) [] = ground arith
season_hint_bound (x ∷ xs) (y ∷ ys) = ground arith

year_hint_bound : (q c : ℤ) → year_hint q c ≤ℤ pos (12 * count (ltb_ℤ (pos 0) q && eq_ℤ q c))
unfolding year_hint count
year_hint_bound q c = ground (arith, -ℤ_parts q c)

count_hint_bound : (q c : ℤ) → count_hint q c ≤ℤ pos (12 * count (ltb_ℤ (pos 0) q && eq_ℤ q c))
unfolding count_hint count
count_hint_bound q c = ground arith

+ℤ_bound : (a b : ℤ) (m n : ℕ) → a ≤ℤ pos m → b ≤ℤ pos n → a +ℤ b ≤ℤ pos (m + n)
+ℤ_bound a b m n h k = omega (arith, +ℤ_parts a b)

-- Only one hint that agrees is worth less than 18.
pub hint_score_high :
    (query : MetadataQuery) (candidate : MetadataCandidate) (q c : Str)
    → pos 18 ≤ℤ hint_score query candidate q c
    → 2 ≤ agreements query candidate q c
unfolding hint_score agreements
hint_score_high query candidate q c h =
    let seasons = season_hint q c in
    let years = year_hint query.year candidate.year in
    let counts = count_hint query.episode_count candidate.episode_count in
    omega (
      arith,
      season_hint_bound q c,
      year_hint_bound query.year candidate.year,
      count_hint_bound query.episode_count candidate.episode_count,
      +ℤ_parts seasons years,
      +ℤ_parts (seasons +ℤ years) counts,
      h,
    )
