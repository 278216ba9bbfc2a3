-- ===== src/Metadata/Names/Symmetric.antt =====
-- The scores of names of core/metadata_match.go do not depend on which name is the query's.
use anime_portable.Metadata.Names.{
  particle_match, compare_key, mains_contain, text_score, subtitles_differ, name_match,
  cut_subtitle, without_particles,
}
use anime_portable.Prelude.{
  Str, str_eq, is_empty, str_eq_iff, ◌≡◌, refl, ap, Bool, true, ◌||◌, [], ◌∷◌, ◌++◌, arith,
}

str_eq_comm : (a b : Str) → str_eq a b ≡ str_eq b a
unfolding str_eq
str_eq_comm [] [] = refl
str_eq_comm [] (y ∷ ys) = refl
str_eq_comm (x ∷ xs) [] = refl
str_eq_comm (x ∷ xs) (y ∷ ys) = ground (arith, str_eq_comm xs ys)

compare_key_comm :
    (a b : Str) → str_eq (compare_key a) (compare_key b) ≡ str_eq (compare_key b) (compare_key a)
compare_key_comm a b = str_eq_comm (compare_key a) (compare_key b)

||-comm : (a b : Bool) → (a || b) ≡ (b || a)
||-comm a b = ground arith

name_match_comm : (a b : Str) → name_match a b ≡ name_match b a
unfolding name_match
name_match_comm a b =
    let (m, s) = cut_subtitle a in
    let (n, t) = cut_subtitle b in
    ground (
      arith,
      compare_key_comm (m ++ 0x20 ∷ s) (n ++ 0x20 ∷ t),
      compare_key_comm m n,
      compare_key_comm s t,
    )

-- A subtitle that is there is not made of spaces only, as in the parts of a title.
pub record HasSubtitle (name : Str) : Type 0 where
  pub keyed : is_empty (compare_key (cut_subtitle name).1) ≡ is_empty (cut_subtitle name).1

is_empty_of_eq : (a b : Str) → str_eq a b ≡ true → is_empty a ≡ is_empty b
is_empty_of_eq a b h = ap is_empty ((str_eq_iff a b).0 h)

particle_match_comm :
    (a b : Str) → HasSubtitle a → HasSubtitle b → particle_match a b ≡ particle_match b a
unfolding particle_match
particle_match_comm a b ha hb =
    let (m, s) = cut_subtitle a in
    let (n, t) = cut_subtitle b in
    ground (
      arith,
      ha.keyed,
      hb.keyed,
      is_empty_of_eq (compare_key s) (compare_key t),
      compare_key_comm s t,
      str_eq_comm (without_particles 0 (compare_key m)) (without_particles 0 (compare_key n)),
    )

subtitles_differ_comm : (a b : Str) → subtitles_differ a b ≡ subtitles_differ b a
unfolding subtitles_differ
subtitles_differ_comm a b = ground (arith, compare_key_comm (cut_subtitle a).1 (cut_subtitle b).1)

mains_contain_comm : (a b : Str) → mains_contain a b ≡ mains_contain b a
unfolding mains_contain
mains_contain_comm a b = ground arith

-- A name scores against another as the other does against it, where the subtitles that they have are
-- not made of spaces only.
pub text_score_comm :
    (query candidate : Str)
    → HasSubtitle query
    → HasSubtitle candidate
    → text_score query candidate ≡ text_score candidate query
unfolding text_score
text_score_comm a b ha hb = ground (
  arith,
  name_match_comm a b,
  particle_match_comm a b ha hb,
  subtitles_differ_comm a b,
  mains_contain_comm a b,
)
