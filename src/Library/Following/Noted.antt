-- ===== src/Library/Following/Noted.antt =====
-- What the loop of markRecentUpdate in core/following.go has noted of the rows.
use native.Mathlib.Decide.{ℕ_discrete}
use anime_portable.Prelude.{
  ◌≤◌, ltb, ◌==◌, Bool-cases, In, ◌≡◌, refl, ◌∙◌, ◌≢◌, ◌⊎◌, inl, inr, Bool, true, ◌&&◌, ◌||◌, List,
  [], ◌∷◌, arith,
}
use anime_portable.Models.{Time, EpisodeMapping}
use anime_portable.Library.Numbers.{
  Float, float_eq, FloatParser, NumberMap, number_of, episode_number_value,
}
use anime_portable.Library.Following.{Seen, note_list, note_latest, note_mappings}

module _ (parse_float : FloatParser) (numbers : NumberMap) (latest : Float) where
  -- The row is of an episode with the latest number.
  pub record IsLatest (mapping : EpisodeMapping) : Type 0 where
    pub value : Float
    pub plain :
        episode_number_value parse_float (number_of numbers mapping.episode_id) ≡ (value, true)
    pub same : float_eq value latest ≡ true

  abbrev pub note : EpisodeMapping → Seen → Seen
  note mapping seen = note_latest parse_float numbers latest mapping (note_list mapping seen)

  -- A row with the latest number is noted, and what was noted is not forgotten.
  abbrev pub Noted : Time → Seen → Type 0
  Noted at seen =
      ((at ≡ 0) × (seen.latest_known_before ≡ true))
      ⊎ ((seen.latest_seen_at ≢ 0) × (seen.latest_seen_at ≤ at))

  pub notes_latest :
      (mapping : EpisodeMapping) (seen : Seen)
      → IsLatest mapping
      → Noted mapping.first_seen_at (note mapping seen)
  unfolding note_list note_latest
  notes_latest mapping seen l = elim (ℕ_discrete mapping.first_seen_at 0) [
    | yes unknown ↦ inl (unknown, ground (arith, l.plain, l.same))
    | no known ↦ inr (ground (arith, l.plain, l.same), ground (arith, l.plain, l.same))
  ]

  pub keeps_Noted :
      (at : Time) (mapping : EpisodeMapping) (seen : Seen)
      → Noted at seen
      → Noted at (note mapping seen)
  unfolding note_list note_latest
  keeps_Noted at mapping seen (inl (unknown, known_before)) = inl (unknown, ground arith)
  keeps_Noted at mapping seen (inr (known, le)) = inr (ground arith, ground arith)

  -- Where the variables of the loop come from.
  pub data LatestFrom (mapping : EpisodeMapping) (old new : Time) : Type 0 where
    same : new ≡ old → LatestFrom mapping old new
    from : IsLatest mapping → new ≡ mapping.first_seen_at → LatestFrom mapping old new

  abbrev pub counts : EpisodeMapping → Bool
  counts mapping =
      let (value, ok) = episode_number_value parse_float (number_of numbers mapping.episode_id) in
      ok && float_eq value latest

  pub counts-IsLatest : (mapping : EpisodeMapping) → counts mapping ≡ true → IsLatest mapping
  counts-IsLatest mapping h = record {
    value = (episode_number_value parse_float (number_of numbers mapping.episode_id)).0;
    plain = ground arith;
    same = ground arith;
  }

  pub latest_from :
      (mapping : EpisodeMapping) (seen : Seen)
      → LatestFrom mapping seen.latest_seen_at (note mapping seen).latest_seen_at
  unfolding note_list note_latest
  latest_from mapping seen = elim (Bool-cases (counts mapping)) [
    | inr other ↦ same (ground arith)
    | inl counted ↦ elim (Bool-cases (mapping.first_seen_at == 0)) [
      | inl unknown ↦ same (ground arith)
      | inr known ↦
          elim (Bool-cases
            ((seen.latest_seen_at == 0) || ltb mapping.first_seen_at seen.latest_seen_at)) [
              | inl earlier ↦ from (counts-IsLatest mapping counted) (ground arith)
              | inr later ↦ same (ground arith)
            ]
    ]
  ]

  pub list_from :
      (mapping : EpisodeMapping) (seen : Seen)
      → ((note mapping seen).first_list ≡ seen.first_list)
        ⊎ ((note mapping seen).first_list ≡ mapping.first_seen_at)
  unfolding note_list note_latest
  list_from mapping seen = ground arith

  pub unknown_from :
      (mapping : EpisodeMapping) (seen : Seen)
      → (note mapping seen).unknown_times ≡ true
      → (seen.unknown_times ≡ true) ⊎ (mapping.first_seen_at ≡ 0)
  unfolding note_list note_latest
  unknown_from mapping seen h = ground arith

  abbrev pub noted : List EpisodeMapping → Seen → Seen
  noted = note_mappings parse_float numbers latest

  pub keeps_all :
      (at : Time) (mappings : List EpisodeMapping) (seen : Seen)
      → Noted at seen
      → Noted at (noted mappings seen)
  unfolding note_mappings
  keeps_all at [] seen h = h
  keeps_all at (m ∷ ms) seen h = keeps_all at ms (note m seen) (keeps_Noted at m seen h)

  pub notes_all :
      (mappings : List EpisodeMapping) (seen : Seen) (m : EpisodeMapping)
      → In m mappings
      → IsLatest m
      → Noted m.first_seen_at (noted mappings seen)
  unfolding note_mappings
  notes_all [] seen m i l = elim i [ ]
  notes_all (_ ∷ ms) seen m In.here l =
      keeps_all m.first_seen_at ms (note m seen) (notes_latest m seen l)
  notes_all (x ∷ ms) seen m (In.there i) l = notes_all ms (note x seen) m i l

  pub IsLatest-of_all :
      (mappings : List EpisodeMapping) (seen : Seen)
      → ((noted mappings seen).latest_seen_at ≡ seen.latest_seen_at)
        ⊎ ((m : EpisodeMapping) × In m mappings
            × IsLatest m
            × ((noted mappings seen).latest_seen_at ≡ m.first_seen_at))
  unfolding note_mappings
  IsLatest-of_all [] seen = inl refl
  IsLatest-of_all (m ∷ ms) seen = elim (IsLatest-of_all ms (note m seen)) [
    | inr (x, i, l, e) ↦ inr (x, In.there i, l, e)
    | inl e ↦ elim (latest_from m seen) [
      | same k ↦ inl (e ∙ k)
      | from l k ↦ inr (m, In.here, l, e ∙ k)
    ]
  ]

  pub list_of_all :
      (mappings : List EpisodeMapping) (seen : Seen)
      → ((noted mappings seen).first_list ≡ seen.first_list)
        ⊎ ((m : EpisodeMapping) × In m mappings
            × ((noted mappings seen).first_list ≡ m.first_seen_at))
  unfolding note_mappings
  list_of_all [] seen = inl refl
  list_of_all (m ∷ ms) seen = elim (list_of_all ms (note m seen)) [
    | inr (x, i, e) ↦ inr (x, In.there i, e)
    | inl e ↦ elim (list_from m seen) [ inl k ↦ inl (e ∙ k) | inr k ↦ inr (m, In.here, e ∙ k) ]
  ]

  pub unknown_of_all :
      (mappings : List EpisodeMapping) (seen : Seen)
      → (noted mappings seen).unknown_times ≡ true
      → (seen.unknown_times ≡ true) ⊎ ((m : EpisodeMapping) × In m mappings × (m.first_seen_at ≡ 0))
  unfolding note_mappings
  unknown_of_all [] seen h = inl h
  unknown_of_all (m ∷ ms) seen h = elim (unknown_of_all ms (note m seen) h) [
    | inr (x, i, e) ↦ inr (x, In.there i, e)
    | inl e ↦ elim (unknown_from m seen e) [ inl k ↦ inl k | inr k ↦ inr (m, In.here, k) ]
  ]

  pub keeps_list :
      (mappings : List EpisodeMapping) (seen : Seen)
      → seen.first_list ≢ 0
      → (noted mappings seen).first_list ≢ 0
  unfolding note_mappings
  keeps_list [] seen h = h
  keeps_list (m ∷ ms) seen h = keeps_list ms (note m seen) (still m seen h)
    where
      still :
          (m : EpisodeMapping) (seen : Seen) → seen.first_list ≢ 0 → (note m seen).first_list ≢ 0
      still m seen h = unfold note_list note_latest in ground arith

  -- Where some row has a known time, the first list has one.
  pub first_of_all :
      (mappings : List EpisodeMapping) (seen : Seen) (m : EpisodeMapping)
      → In m mappings
      → m.first_seen_at ≢ 0
      → (noted mappings seen).first_list ≢ 0
  unfolding note_mappings note_list note_latest
  first_of_all [] seen m i known = elim i [ ]
  first_of_all (m ∷ ms) seen _ In.here known = keeps_list ms (note m seen) (ground arith)
  first_of_all (x ∷ ms) seen m (In.there i) known = first_of_all ms (note x seen) m i known
