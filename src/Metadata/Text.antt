-- ===== src/Metadata/Text.antt =====
-- core/metadata_normalize.go: the form in which titles are compared. The tables of Unicode and the
-- regular expressions of core/metadata_variants.go are parameters.
pub mod Stripped
use mathlib.Core.List.{reverse}
use anime_portable.Prelude.{
  ℕ, zero, suc, ltb, ◌==◌, if◌then◌else◌, length, Str, bytes, str_eq, is_empty, trim_space, Bool,
  false, not, ◌&&◌, ◌||◌, Option, none, some, List, [], ◌∷◌, ◌++◌, map, runes, encode,
  is_space_rune, utf8, is_valid_utf8, rune_count, encode_rune,
}

-- What the code takes from Unicode: norm.NFKC, strings.ToLower, strings.EqualFold, unicode.IsPunct,
-- unicode.IsSymbol and the tables Han, Hiragana and Katakana (`is_kana` for the last two), and the
-- characters that FoldToSimplified reads.
pub record Unicode : Type 0 where
  pub nfkc : Str → Str
  pub lower : Str → Str
  pub equal_fold : Str → Str → Bool
  pub is_punct : ℕ → Bool
  pub is_symbol : ℕ → Bool
  pub is_han : ℕ → Bool
  pub is_kana : ℕ → Bool
  pub simplified : ℕ → ℕ

-- A pattern of a season: the groups of its match, if there is one, and the text after ReplaceAllString.
pub record SeasonPattern : Type 0 where
  pub groups : Str → Option (List Str)
  pub replaced : Str → Str

-- The patterns as the code uses them. `find_subtitle` and `find_mid_season` give what stands before the
-- match, the group that took part in it, and what stands after it; `find_bracketed` gives the two groups of
-- bracketedName in core/metadata_refresh.go.
pub record Patterns : Type 0 where
  pub episode_suffixes : List (Str → Str)
  pub find_subtitle : Str → Option (Str × Str × Str)
  pub space_roman : Str → Str
  pub find_mid_season : Str → Option (Str × Str × Str)
  pub is_part_marker : Str → Bool
  pub find_bracketed : Str → Option (Str × Str)
  pub season_before_part_suffixes : List SeasonPattern
  pub season_suffixes : List SeasonPattern

-- The three values of metadataFields: the normalized titles and the season.
pub record Fields : Type 0 where
  pub title : Str
  pub native : Str
  pub season : Str

-- metadataSubtitleSeparator
abbrev pub subtitle_separator : ℕ
subtitle_separator = 0x1f

-- metadataMaxTitleBytes and metadataMaxTitleRunes
abbrev pub max_title_bytes : ℕ
max_title_bytes = 4096

abbrev pub max_title_runes : ℕ
max_title_runes = 1024

-- seasonNumerals
abbrev pub season_numerals : List (Str × Str)
season_numerals =
    (utf8 "一", bytes "1")
    ∷ (utf8 "二", bytes "2")
    ∷ (utf8 "三", bytes "3")
    ∷ (utf8 "四", bytes "4")
    ∷ (utf8 "五", bytes "5")
    ∷ (utf8 "六", bytes "6")
    ∷ (utf8 "七", bytes "7")
    ∷ (utf8 "八", bytes "8")
    ∷ (utf8 "九", bytes "9")
    ∷ (utf8 "十", bytes "10")
    ∷ (utf8 "十一", bytes "11")
    ∷ (utf8 "十二", bytes "12")
    ∷ (utf8 "貳", bytes "2")
    ∷ (utf8 "參", bytes "3")
    ∷ (utf8 "叄", bytes "3")
    ∷ (utf8 "肆", bytes "4")
    ∷ (bytes "II", bytes "2")
    ∷ (bytes "III", bytes "3")
    ∷ (bytes "IV", bytes "4")
    ∷ (bytes "V", bytes "5")
    ∷ (bytes "VI", bytes "6")
    ∷ []

lookup : List (Str × Str) → Str → Option Str
lookup [] key = none
lookup ((k, value) ∷ rest) key =
    let later = lookup rest key in if str_eq k key then some value else later

-- seasonNumeral
unfoldable pub season_numeral : Str → Option Str
unfolding lookup
season_numeral value = lookup season_numerals value

-- `strings.TrimLeft(s, "0")`
abbrev trim_zeros : Str → Str
trim_zeros [] = []
trim_zeros (x ∷ s) = let rest = trim_zeros s in if x == 0x30 then rest else x ∷ s

-- A season's number as metadataSeasonFromTitle writes it.
unfoldable pub season_number : Str → Str
season_number group = elim (season_numeral group) [
  | none ↦ trim_zeros group
  | some numeric ↦ numeric
]

-- The same where a season stands before an arc: the numeral is trimmed too.
abbrev arc_season_number : Str → Str
arc_season_number number =
    trim_zeros (elim (season_numeral number) [ none ↦ number | some numeric ↦ numeric ])

-- metadataSeasonFromTitle's first loop: the first group of the first pattern that matches.
unfoldable pub season_before_part : List SeasonPattern → Str → Option Str
season_before_part [] value = none
season_before_part (pattern ∷ patterns) value =
    let later = season_before_part patterns value in
    elim (pattern.groups value) [
      | none ↦ later
      | some [] ↦ later
      | some (group ∷ groups) ↦ some (season_number group)
    ]

-- The last group of a match that is not empty, given its groups from the last to the first.
abbrev last_group : List Str → Option Str
last_group [] = none
last_group (group ∷ groups) =
    let rest = last_group groups in if is_empty group then rest else some group

-- Its second loop.
unfoldable pub season_at_end : List SeasonPattern → Str → Str
season_at_end [] value = []
season_at_end (pattern ∷ patterns) value =
    let later = season_at_end patterns value in
    elim (pattern.groups value) [
      | none ↦ later
      | some groups ↦ elim (last_group (reverse groups)) [
        | none ↦ later
        | some group ↦ season_number group
      ]
    ]

-- `for _, pattern := range patterns { value = pattern.ReplaceAllString(value, ...) }`
unfoldable pub replace_all : List (Str → Str) → Str → Str
replace_all [] value = value
replace_all (replace ∷ rest) value = replace_all rest (replace value)

-- `strings.ReplaceAll(value, metadataSubtitleSeparator, " ")`
abbrev replace_separator : Str → Str
replace_separator [] = []
replace_separator (x ∷ s) = (if x == subtitle_separator then 0x20 else x) ∷ replace_separator s

module _ (unicode : Unicode) where
  -- FoldToSimplified on the runes of a string.
  unfoldable pub fold_to_simplified : Str → Str
  fold_to_simplified value = encode (map unicode.simplified (runes value))

  -- The loop of normalizeMetadataText: `space` is whether a space waits for the next rune.
  unfoldable pub normalize_runes : Str → Bool → List ℕ → Str
  normalize_runes normalized space [] = normalized
  normalize_runes normalized space (r ∷ rs) =
      let is_break = is_space_rune r || unicode.is_punct r || unicode.is_symbol r in
      let spaced = if space then normalized ++ 0x20 ∷ [] else normalized in
      normalize_runes (if is_break then normalized else spaced ++ encode_rune r)
        (is_break && not (is_empty normalized)) rs

  -- normalizeMetadataText
  unfoldable pub normalize_text : Str → Str
  normalize_text value =
      trim_space (normalize_runes [] false (runes (fold_to_simplified (unicode.lower value))))

  module _ (patterns : Patterns) where
    -- metadataSeasonFromTitle
    unfoldable pub season_from_title : Str → Str
    season_from_title value = elim (season_before_part patterns.season_before_part_suffixes value) [
      | none ↦ season_at_end patterns.season_suffixes value
      | some season ↦ season
    ]

    -- The value after one turn of the loop that takes season and episode suffixes off.
    unfoldable pub strip_once : Str → Str
    strip_once value =
        replace_all
          (map (λ (p : SeasonPattern). p.replaced)
            (patterns.season_before_part_suffixes ++ patterns.season_suffixes))
          (replace_all patterns.episode_suffixes value)

    -- The season after one turn.
    unfoldable pub season_after : Str → Str → Str
    season_after value season =
        if is_empty season
        then season_from_title (replace_all patterns.episode_suffixes value)
        else season

    -- The loop, which ends when a turn leaves the value as it is, with fuel for its turns.
    unfoldable pub strip_suffixes : ℕ → Str → Str → Str × Str
    strip_suffixes zero value season = (value, season)
    strip_suffixes (suc fuel) value season =
        let stripped = strip_once value in
        let found = season_after value season in
        let rest = strip_suffixes fuel stripped found in
        if str_eq stripped value then (value, found) else rest

    -- A subtitle is taken out of the value and kept aside.
    unfoldable pub take_subtitle : Str → Str × Str
    take_subtitle value = elim (patterns.find_subtitle value) [
      | none ↦ (value, [])
      | some (before, subtitle, after) ↦ (before ++ 0x20 ∷ after, subtitle)
    ]

    -- A season before an arc: the value, the season and the subtitle.
    unfoldable pub take_arc : Str → Str → Str × Str × Str
    take_arc value subtitle = elim (patterns.find_mid_season value) [
      | none ↦ (value, [], subtitle)
      | some (before, number, after) ↦
          let arc = trim_space after in
          if not (is_empty arc) && not (patterns.is_part_marker arc)
          then (before, arc_season_number number, if is_empty subtitle then arc else subtitle)
          else (value, [], subtitle)
    ]

    -- metadataTitleParts once the value is known to be neither empty nor too long.
    unfoldable pub split_title : Str → Str × Str
    split_title value =
        let (rest, subtitle) =
          take_subtitle
            (replace_all patterns.episode_suffixes (replace_separator (unicode.nfkc value))) in
        let (main, season, subtitle') = take_arc (patterns.space_roman rest) subtitle in
        let (stripped, season') = strip_suffixes (suc (length main)) main season in
        let base = normalize_text stripped in
        let aside = normalize_text subtitle' in
        (if is_empty aside then base else base ++ subtitle_separator ∷ aside, season')

    -- metadataTitleParts: the base and the season, or none where the value is refused.
    unfoldable pub title_parts : Str → Option (Str × Str)
    title_parts value =
        if is_empty value
        then some ([], [])
        else if ltb max_title_bytes (length value)
            || not (is_valid_utf8 value)
            || ltb max_title_runes (rune_count value)
        then none
        else some (split_title value)

    -- metadataFields
    unfoldable pub metadata_fields : Str → Str → Fields
    metadata_fields title native_title = elim (title_parts title) [
      | none ↦ record { title = []; native = []; season = [] }
      | some (base, season) ↦ elim (title_parts native_title) [
        | none ↦ record { title = []; native = []; season = [] }
        | some (native_base, native_season) ↦ record {
          title = base;
          native = native_base;
          season = if is_empty season then native_season else season;
        }
      ]
    ]
