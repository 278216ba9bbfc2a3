-- ===== src/Metadata/Match/Accepted.antt =====
-- Which candidate MatchMetadata of core/metadata_match.go accepts.
use anime_portable.Metadata.Score.{Scored}
use anime_portable.Metadata.Match.{
  candidate_before, has_cross_check, has_conflict, is_cross_check, medium_score, is_conflict,
  sort_by, high_score, weak_exact_score, match_sorted, match_metadata, Patterns, accepted,
  score_candidates, query_fields_of, is_valid_request,
}
use anime_portable.Metadata.Text.{Unicode}
use anime_portable.Prelude.{
  Bool-cases, In, pos, ◌≤ℤ◌, ◌≡◌, refl, ◌⊎◌, inl, inr, true, false, some, List, [], ◌∷◌, arith,
  Descends, here, there, sort_by-Descends, In-All, In-sort_by, sort_by-In,
}
use anime_portable.Models.{MetadataQuery, MetadataCandidate}

module _ (unicode : Unicode) where
  -- Why a candidate is the accepted one among those that have a score.
  pub record IsAccepted (all : List Scored) (top : Scored) : Type 0 where
    pub member : In top all
    pub greatest : (d : Scored) → In d all → d.score ≤ℤ top.score
    pub medium : pos medium_score ≤ℤ top.score
    pub unrivalled : (d : Scored) → In d all → (d ≡ top) ⊎ (is_conflict unicode top d ≡ false)
    pub reason :
        (pos high_score ≤ℤ top.score)
        ⊎ ((d : Scored) × In d all × (is_cross_check unicode top d ≡ true))
        ⊎ ((top.title_score ≡ weak_exact_score) × (pos weak_exact_score ≤ℤ top.score))

  no_conflict :
      (top : Scored) (others : List Scored)
      → has_conflict unicode top others ≡ false
      → (d : Scored) → In d others
      → is_conflict unicode top d ≡ false
  unfolding has_conflict
  no_conflict top [] h d i = elim i [ ]
  no_conflict top (d ∷ ds) h _ here = ground arith
  no_conflict top (x ∷ ds) h d (there i) = no_conflict top ds (ground arith) d i

  cross_check :
      (top : Scored) (others : List Scored)
      → has_cross_check unicode top others ≡ true
      → (d : Scored) × In d others × (is_cross_check unicode top d ≡ true)
  unfolding has_cross_check
  cross_check top [] h = cc
  cross_check top (d ∷ ds) h = elim (Bool-cases (is_cross_check unicode top d)) [
    | inl c ↦ (d, here, c)
    | inr c ↦ let (e, i, k) = cross_check top ds (ground arith) in (e, there i, k)
  ]

  abbrev NotAbove : Scored → Scored → Type 0
  NotAbove a b = b.score ≤ℤ a.score

  ordered : (xs : List Scored) → Descends NotAbove (sort_by (candidate_before unicode) xs)
  unfolding candidate_before
  ordered =
      sort_by-Descends (candidate_before unicode) NotAbove (λ a b c h k. omega (arith, h, k))
        (λ a b h. ground arith) (λ a b h. ground arith)

  accepted_top :
      (top : Scored) (others : List Scored)
      → (match_sorted unicode (top ∷ others)).decision ≡ accepted
      → (pos medium_score ≤ℤ top.score)
        × (has_conflict unicode top others ≡ false)
        × (((pos high_score ≤ℤ top.score) ⊎ (has_cross_check unicode top others ≡ true))
            ⊎ ((top.title_score ≡ weak_exact_score) × (pos weak_exact_score ≤ℤ top.score)))
        × ((match_sorted unicode (top ∷ others)).candidate ≡ some top.candidate)
  unfolding match_sorted
  accepted_top top others h = ground arith

  sorted_sound :
      (all sorted : List Scored)
      → ((d : Scored) → In d all → In d sorted)
      → ((d : Scored) → In d sorted → In d all)
      → Descends NotAbove sorted
      → (match_sorted unicode sorted).decision ≡ accepted
      → (top : Scored) × IsAccepted all top
        × ((match_sorted unicode sorted).candidate ≡ some top.candidate)
  unfolding match_sorted
  sorted_sound all [] into from d h = cc
  sorted_sound all (top ∷ others) into from d h =
      let (medium, free, why, same) = accepted_top top others h in
      (
        top,
        record {
          member = from top here;
          greatest = λ x i. least x (into x i);
          medium = medium;
          unrivalled = λ x i. alone free x (into x i);
          reason = elim why [
            | inl (inl high) ↦ inl high
            | inl (inr checked) ↦
                let (x, i, k) = cross_check top others checked in inr (inl (x, from x (there i), k))
            | inr weak ↦ inr (inr weak)
          ];
        },
        same,
      )
    where
      least : (x : Scored) → In x (top ∷ others) → x.score ≤ℤ top.score
      least _ here = omega arith
      least x (there i) = In-All (NotAbove top) i d.0

      alone :
          has_conflict unicode top others ≡ false
          → (x : Scored) → In x (top ∷ others)
          → (x ≡ top) ⊎ (is_conflict unicode top x ≡ false)
      alone free _ here = inl refl
      alone free x (there i) = inr (no_conflict top others free x i)

  -- An accepted candidate is one of those with a score. Its score is at least the medium score, none is
  -- greater, and no other candidate is in conflict with it. It is accepted since its score is high, or an
  -- equivalent candidate of another provider is a cross-check, or its names match weakly and its hints
  -- do not count against it.
  pub match_sound :
      (patterns : Patterns) (query : MetadataQuery) (candidates : List MetadataCandidate)
      → (match_metadata unicode patterns query candidates).decision ≡ accepted
      → (top : Scored) × IsAccepted
          (score_candidates unicode patterns query
            (query_fields_of unicode patterns query)
            candidates)
          top
        × ((match_metadata unicode patterns query candidates).candidate ≡ some top.candidate)
  unfolding match_metadata
  match_sound patterns query candidates h =
      let fields = query_fields_of unicode patterns query in
      let all = score_candidates unicode patterns query fields candidates in
      let before = candidate_before unicode in
      elim (Bool-cases (is_valid_request unicode patterns candidates fields)) [
        | inr bad ↦ absurd (ground arith)
        | inl good ↦
            let (top, is, same) =
              sorted_sound all (sort_by before all) (In-sort_by before all) (sort_by-In before all)
                (ordered all) (ground arith) in
            (top, is, ground arith)
      ]
