-- ===== src/Library/Opening/Chosen.antt =====
-- Which opening ChooseOpening of core/opening.go chooses.
use mathlib.Core.Path.{subst}
use anime_portable.Prelude.{
  Bool-cases, In, pos, ◌≤ℤ◌, ltb_ℤ, leb_ℤ, Duration, max_int64, ◌≡◌, refl, sym, ◌∙◌, ◌⊎◌, inl, inr,
  true, false, ◌&&◌, List, [], ◌∷◌, arith, there, here,
}
use anime_portable.Library.Opening.{
  opening_length_tolerance, Opening, OpeningCandidate, no_opening, gap, Choice, fits,
  consider_opening, consider_openings, choose_opening,
}

module _ (length : Duration) where
  consider-no_worse :
      (c : OpeningCandidate) (choice : Choice)
      → (consider_opening length c choice).best_gap ≤ℤ choice.best_gap
  unfolding consider_opening
  consider-no_worse c choice = ground arith

  all-no_worse :
      (cs : List OpeningCandidate) (choice : Choice)
      → (consider_openings length cs choice).best_gap ≤ℤ choice.best_gap
  unfolding consider_openings
  all-no_worse [] choice = ground arith
  all-no_worse (c ∷ cs) choice =
      ground (arith, all-no_worse cs (consider_opening length c choice), consider-no_worse c choice)

  consider-closest :
      (c : OpeningCandidate) (choice : Choice)
      → fits length c ≡ true
      → (consider_opening length c choice).best_gap ≤ℤ gap c.episode_length length
  unfolding consider_opening fits
  consider-closest c choice fit = ground arith

  -- The gap of the choice is no greater than that of any candidate that fits.
  all-closest :
      (cs : List OpeningCandidate) (choice : Choice) (c : OpeningCandidate)
      → In c cs
      → fits length c ≡ true
      → (consider_openings length cs choice).best_gap ≤ℤ gap c.episode_length length
  unfolding consider_openings
  all-closest [] choice c i fit = elim i [ ]
  all-closest (_ ∷ cs) choice c here fit =
      ground
        (arith, all-no_worse cs (consider_opening length c choice), consider-closest c choice fit)
  all-closest (x ∷ cs) choice c (there i) fit =
      all-closest cs (consider_opening length x choice) c i fit

  -- A choice is of a candidate that fits.
  record IsOf (choice : Choice) (c : OpeningCandidate) : Type 0 where
    fit : fits length c ≡ true
    best : choice.best ≡ c.opening
    best_gap : choice.best_gap ≡ gap c.episode_length length

  consider-from :
      (c : OpeningCandidate) (choice : Choice)
      → (consider_opening length c choice ≡ choice) ⊎ IsOf (consider_opening length c choice) c
  unfolding consider_opening fits
  consider-from c choice =
      elim (Bool-cases (fits length c && ltb_ℤ (gap c.episode_length length) choice.best_gap)) [
        | inl better ↦
            inr (record { fit = ground arith; best = ground arith; best_gap = ground arith })
        | inr worse ↦ inl (ground arith)
      ]

  all-from :
      (cs : List OpeningCandidate) (choice : Choice)
      → (consider_openings length cs choice ≡ choice)
        ⊎ ((c : OpeningCandidate) × In c cs × IsOf (consider_openings length cs choice) c)
  unfolding consider_openings
  all-from [] choice = inl refl
  all-from (x ∷ cs) choice = elim (all-from cs (consider_opening length x choice)) [
    | inr (c, i, of) ↦ inr (c, there i, of)
    | inl kept ↦ elim (consider-from x choice) [
      | inl same ↦ inl (kept ∙ same)
      | inr of ↦ inr (x, here, subst (λ k. IsOf k x) (sym kept) of)
    ]
  ]

  fits-gap :
      (c : OpeningCandidate)
      → fits length c ≡ true
      → leb_ℤ (gap c.episode_length length) opening_length_tolerance ≡ true
  unfolding fits
  fits-gap c fit = ground arith

  abbrev nothing : Choice
  nothing = record { best = no_opening; best_gap = pos max_int64 }

  -- A chosen opening is that of a submission that fits: it is valid, and timed on a cut whose length is
  -- within the tolerance. No submission that fits is timed on a cut of a closer length.
  pub choose_sound :
      (candidates : List OpeningCandidate) (opening : Opening)
      → choose_opening candidates length ≡ (opening, true)
      → (c : OpeningCandidate) × In c candidates
        × (fits length c ≡ true)
        × (opening ≡ c.opening)
        × ((d : OpeningCandidate)
            → In d candidates
            → fits length d ≡ true
            → gap c.episode_length length ≤ℤ gap d.episode_length length)
  unfolding choose_opening
  choose_sound candidates opening h = elim (all-from candidates nothing) [
    | inl none_found ↦ absurd (ground arith)
    | inr (c, i, of) ↦ (
      c,
      i,
      of.fit,
      ground (arith, of.best),
      λ d j fit. ground (arith, of.best_gap, all-closest candidates nothing d j fit),
    )
  ]

  -- Where no opening is chosen, no submission fits.
  pub choose_complete :
      (candidates : List OpeningCandidate) (c : OpeningCandidate)
      → (choose_opening candidates length).1 ≡ false
      → In c candidates
      → fits length c ≡ false
  unfolding choose_opening
  choose_complete candidates c h i = elim (Bool-cases (fits length c)) [
    | inr unfit ↦ unfit
    | inl fit ↦ absurd (ground (arith, all-closest candidates nothing c i fit, fits-gap c fit))
  ]
