-- ===== src/Library/Numbers/Watched.antt =====
-- watchedUpTo of core/following.go.
use anime_portable.Prelude.{
  Bool-cases, Str, str_eq, str_eq_iff, ◌≡◌, ap, inl, inr, true, false, List, [], ◌∷◌, arith,
}
use anime_portable.Models.{EpisodeId}
use anime_portable.Library.Numbers.{
  Float, float_ge, FloatParser, NumberMap, number_of, has_id, episode_number_value, watched_up_to,
  watched_at_least, List, Str, false, true, ◌∷◌, str_eq,
}

module _ (parse_float : FloatParser) where
  watched_at_least-ids :
      (numbers : NumberMap) (ids : List EpisodeId) (latest : Float) (id : EpisodeId) (v : Float)
      → watched_at_least parse_float numbers ids latest ≡ false
      → has_id ids id ≡ true
      → episode_number_value parse_float (number_of numbers id) ≡ (v, true)
      → float_ge v latest ≡ false
  unfolding watched_at_least has_id
  watched_at_least-ids numbers [] latest id v none_at has e = cc
  watched_at_least-ids numbers (x ∷ xs) latest id v none_at has e =
      elim (Bool-cases (str_eq x id)) [
        | inl same ↦
            let x_id = (str_eq_iff x id).0 same in ground (arith, ap (number_of numbers) x_id)
        | inr other ↦ watched_at_least-ids numbers xs latest id v (ground arith) (ground arith) e
      ]

  pub watched_up_to-ids :
      (numbers : NumberMap) (ids : List EpisodeId) (latest : Str) (id : EpisodeId) (v : Float)
      → watched_up_to parse_float numbers ids latest ≡ false
      → has_id ids id ≡ true
      → episode_number_value parse_float (number_of numbers id) ≡ (v, true)
      → float_ge v (episode_number_value parse_float latest).0 ≡ false
  unfolding watched_up_to
  watched_up_to-ids numbers ids latest id v none_at has e =
      watched_at_least-ids numbers ids _ id v none_at has e
