-- ===== src/Metadata/Text/Stripped.antt =====
-- The loop of metadataTitleParts in core/metadata_normalize.go ends.
use mathlib.Core.Path.{subst}
use anime_portable.Metadata.Text.{
  replace_all, Unicode, Patterns, SeasonPattern, strip_suffixes, strip_once, season_after,
}
use anime_portable.Prelude.{
  ℕ, zero, suc, ◌<◌, if◌then◌else◌, Bool-cases, length, All, Str, str_eq, str_eq_iff, ◌≡◌, refl,
  sym, ◌∙◌, ◌⊎◌, inl, inr, Bool, false, List, [], ◌∷◌, ◌++◌, map, arith,
}

-- A replacement of a pattern leaves the text as it is or makes it shorter.
abbrev pub Shortens : (Str → Str) → Type 0
Shortens replace = (s : Str) → (replace s ≡ s) ⊎ (length (replace s) < length s)

compose-Shortens : (f g : Str → Str) → Shortens f → Shortens g → Shortens (λ s. g (f s))
compose-Shortens f g hf hg s = elim (hf s) [
  | inl same ↦ elim (hg (f s)) [
    | inl kept ↦ inl (kept ∙ same)
    | inr shorter ↦ inr (subst (λ t. length (g (f s)) < length t) same shorter)
  ]
  | inr shorter ↦ elim (hg (f s)) [
    | inl kept ↦ inr (subst (λ t. length t < length s) (sym kept) shorter)
    | inr more ↦ inr (omega (arith, shorter, more))
  ]
]

replace_all-Shortens :
    (replacements : List (Str → Str))
    → All Shortens replacements
    → Shortens (replace_all replacements)
unfolding replace_all
replace_all-Shortens [] h s = inl refl
replace_all-Shortens (f ∷ fs) h s =
    compose-Shortens f (replace_all fs) h.0 (replace_all-Shortens fs h.1) s

module _ (unicode : Unicode) (patterns : Patterns) where
  -- Every suffix that the loop takes off is not empty: what it leaves of a match is shorter.
  pub record IsShortening : Type 0 where
    pub episodes : All Shortens patterns.episode_suffixes
    pub seasons : All Shortens (
        map
          (λ (p : SeasonPattern). p.replaced)
          (patterns.season_before_part_suffixes ++ patterns.season_suffixes))

  strip_once-Shortens : IsShortening → Shortens (strip_once unicode patterns)
  unfolding strip_once
  strip_once-Shortens h =
      let seasons =
        map (λ (p : SeasonPattern). p.replaced)
          (patterns.season_before_part_suffixes ++ patterns.season_suffixes) in
      compose-Shortens (replace_all patterns.episode_suffixes) (replace_all seasons)
        (replace_all-Shortens patterns.episode_suffixes h.episodes)
        (replace_all-Shortens seasons h.seasons)

  -- A turn that changes the value leaves one for which less fuel is enough.
  turn_shorter :
      (fuel : ℕ) (value : Str)
      → IsShortening
      → length value < suc fuel
      → str_eq (strip_once unicode patterns value) value ≡ false
      → length (strip_once unicode patterns value) < fuel
  turn_shorter fuel value h enough changed = elim (strip_once-Shortens h value) [
    | inl same ↦
        absurd (ground (arith, (str_eq_iff (strip_once unicode patterns value) value).1 same))
    | inr shorter ↦ omega (arith, shorter, enough)
  ]

  abbrev turn : ℕ → Str → Str → Bool → Str × Str
  turn fuel value season settled =
      let found = season_after unicode patterns value season in
      if settled
      then (value, found)
      else strip_suffixes unicode patterns fuel (strip_once unicode patterns value) found

  strip_settled :
      (fuel : ℕ) (value season : Str)
      → IsShortening
      → length value < fuel
      → strip_once unicode patterns (strip_suffixes unicode patterns fuel value season).0
        ≡ (strip_suffixes unicode patterns fuel value season).0
  unfolding strip_suffixes
  strip_settled zero value season h enough = absurd (omega arith)
  strip_settled (suc fuel) value season h enough =
      let stripped = strip_once unicode patterns value in
      let motive = λ (b : Bool).
        strip_once unicode patterns (turn fuel value season b).0 ≡ (turn fuel value season b).0 in
      elim (Bool-cases (str_eq stripped value)) [
        | inl same ↦ subst motive (sym same) ((str_eq_iff stripped value).0 same)
        | inr changed ↦ subst motive (sym changed) (
            strip_settled fuel stripped (season_after unicode patterns value season) h
              (turn_shorter fuel value h enough changed))
      ]

  strip_agrees :
      (fuel more : ℕ) (value season : Str)
      → IsShortening
      → length value < fuel
      → length value < more
      → strip_suffixes unicode patterns more value season
        ≡ strip_suffixes unicode patterns fuel value season
  unfolding strip_suffixes
  strip_agrees zero more value season h enough enough' = absurd (omega arith)
  strip_agrees (suc fuel) zero value season h enough enough' = absurd (omega arith)
  strip_agrees (suc fuel) (suc more) value season h enough enough' =
      let stripped = strip_once unicode patterns value in
      let motive = λ (b : Bool). turn more value season b ≡ turn fuel value season b in
      elim (Bool-cases (str_eq stripped value)) [
        | inl same ↦ subst motive (sym same) refl
        | inr changed ↦ subst motive (sym changed) (
            strip_agrees fuel more stripped (season_after unicode patterns value season) h
              (turn_shorter fuel value h enough changed)
              (turn_shorter more value h enough' changed))
      ]

  -- The loop of metadataTitleParts ends. Where no pattern makes a text longer, and one that changes it
  -- makes it shorter, fuel for one turn more than the value has bytes brings the loop to its break: a
  -- further turn leaves the value as it is, and any other fuel that is as much gives the same result.
  pub strip_settles :
      (value season : Str) (fuel : ℕ)
      → IsShortening
      → length value < fuel
      → let result = strip_suffixes unicode patterns (suc (length value)) value season in
        (strip_once unicode patterns result.0 ≡ result.0)
        × (strip_suffixes unicode patterns fuel value season ≡ result)
  strip_settles value season fuel h enough = (
    strip_settled (suc (length value)) value season h (omega arith),
    strip_agrees (suc (length value)) fuel value season h (omega arith) enough,
  )
