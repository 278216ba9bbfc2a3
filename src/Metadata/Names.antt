-- ===== src/Metadata/Names.antt =====
-- core/metadata_match.go: how well one name matches another, both in the form of the titles' parts.
pub mod Symmetric
use anime_portable.Metadata.Text.{subtitle_separator}
use anime_portable.Prelude.{
  ℕ, zero, suc, ◌+◌, ◌-◌, leb, ◌==◌, if◌then◌else◌, Str, bytes, str_eq, is_empty, Bool, true, false,
  not, ◌&&◌, ◌||◌, List, [], ◌∷◌, ◌++◌, fields, utf8, rune_count, contains, has_prefix,
}

-- `strings.Cut(value, metadataSubtitleSeparator)`: the main part and the subtitle.
unfoldable pub cut_subtitle : Str → Str × Str
cut_subtitle [] = ([], [])
cut_subtitle (x ∷ s) =
    let (main, subtitle) = cut_subtitle s in
    if x == subtitle_separator then ([], s) else (x ∷ main, subtitle)

-- The words that metadataCompareKey keeps; `first` is whether they are at the front.
unfoldable pub kept_words : Bool → List Str → List Str
kept_words first [] = []
kept_words first (word ∷ []) = word ∷ []
kept_words first (word ∷ next ∷ words) =
    let rest = kept_words false (next ∷ words) in
    if str_eq word (bytes "x") && not first then rest else word ∷ rest

abbrev join : List Str → Str
join [] = []
join (word ∷ words) = word ++ join words

-- metadataCompareKey
unfoldable pub compare_key : Str → Str
compare_key value = join (kept_words true (fields value))

-- Whether one of metadataParticles stands at the front; each takes three bytes.
abbrev starts_with_particle : Str → Bool
starts_with_particle value =
    has_prefix value (utf8 "的") || has_prefix value (utf8 "之") || has_prefix value (utf8 "の")

-- `metadataParticles.Replace(value)`; `skip` bytes belong to a particle already found.
unfoldable pub without_particles : ℕ → Str → Str
without_particles skip [] = []
without_particles (suc skip) (x ∷ s) = without_particles skip s
without_particles zero (x ∷ s) =
    let found = starts_with_particle (x ∷ s) in
    let rest = without_particles (if found then 2 else 0) s in if found then rest else x ∷ rest

-- metadataNameMatch: whether the names are equal, and whether fully.
unfoldable pub name_match : Str → Str → Bool × Bool
name_match left right =
    let (left_main, left_subtitle) = cut_subtitle left in
    let (right_main, right_subtitle) = cut_subtitle right in
    if str_eq (compare_key (left_main ++ 0x20 ∷ left_subtitle))
      (compare_key (right_main ++ 0x20 ∷ right_subtitle))
    then (true, true)
    else if not (str_eq (compare_key left_main) (compare_key right_main))
    then (false, false)
    else if str_eq (compare_key left_subtitle) (compare_key right_subtitle)
    then (true, true)
    else (is_empty left_subtitle || is_empty right_subtitle, false)

-- metadataParticleMatch
unfoldable pub particle_match : Str → Str → Bool
particle_match left right =
    let (left_main, left_subtitle) = cut_subtitle left in
    let (right_main, right_subtitle) = cut_subtitle right in
    not (is_empty left_subtitle)
    && str_eq (compare_key left_subtitle) (compare_key right_subtitle)
    && str_eq (without_particles 0 (compare_key left_main))
        (without_particles 0 (compare_key right_main))

-- metadataSubtitlesDiffer
unfoldable pub subtitles_differ : Str → Str → Bool
subtitles_differ left right =
    let left_subtitle = (cut_subtitle left).1 in
    let right_subtitle = (cut_subtitle right).1 in
    not (is_empty left_subtitle)
    && not (is_empty right_subtitle)
    && not (str_eq (compare_key left_subtitle) (compare_key right_subtitle))

-- The last test of metadataTextScore: one main title contains the other.
unfoldable pub mains_contain : Str → Str → Bool
mains_contain query candidate =
    let query' = compare_key (cut_subtitle query).0 in
    let candidate' = compare_key (cut_subtitle candidate).0 in
    leb 3 (rune_count query')
    && leb 3 (rune_count candidate')
    && (contains query' candidate' || contains candidate' query')

-- metadataMediumScore, metadataHighScore and metadataWeakExactScore
abbrev pub medium_score : ℕ
medium_score = 50

abbrev pub high_score : ℕ
high_score = 70

abbrev pub weak_exact_score : ℕ
weak_exact_score = high_score - 10

-- metadataTextScore
unfoldable pub text_score : Str → Str → ℕ
text_score query candidate =
    let (equal, full) = name_match query candidate in
    if is_empty query || is_empty candidate
    then 0
    else if full
    then high_score
    else if equal || particle_match query candidate
    then weak_exact_score
    else if subtitles_differ query candidate
    then 0
    else if mains_contain query candidate
    then medium_score + 2
    else 0
