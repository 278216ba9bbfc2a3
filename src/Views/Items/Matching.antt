-- ===== src/Views/Items/Matching.antt =====
-- What filter of apps/desktop/fltkhome/search_model.go keeps.
use mathlib.Core.Path.{subst}
use anime_portable.Prelude.{
  if◌then◌else◌, In, Str, ◌≡◌, refl, sym, ap, ◌∙◌, ◌↔◌, ◌⊎◌, inl, inr, Bool, true, false, List, [],
  ◌∷◌, ◌++◌, arith, there, here, has_prefix, contains,
}
use anime_portable.Views.Data.{Anime}
use anime_portable.Views.Items.{matches, filtered}

In-if :
    {x item : Anime} {xs : List Anime} (b : Bool)
    → In item (if b then x ∷ xs else xs)
    → ((item ≡ x) × (b ≡ true)) ⊎ In item xs
In-if true here = inl (refl, refl)
In-if true (there i) = inr i
In-if false i = inr i

In-kept :
    (x : Anime) {item : Anime} {xs : List Anime} (b : Bool)
    → In item xs
    → In item (if b then x ∷ xs else xs)
In-kept x true i = there i
In-kept x false i = i

module _ (lower : Str → Str) (query : Str) where
  filtered_sound :
      (items : List Anime) (item : Anime)
      → In item (filtered lower query items)
      → In item items × (matches lower query item ≡ true)
  unfolding filtered
  filtered_sound [] item m = absurd (elim m [ ])
  filtered_sound (x ∷ items) item m = elim (In-if (matches lower query x) m) [
    | inl (e, kept) ↦
        (subst (λ y. In y (x ∷ items)) (sym e) here, ap (matches lower query) e ∙ kept)
    | inr i ↦ let (i, kept) = filtered_sound items item i in (there i, kept)
  ]

  filtered_complete :
      (items : List Anime) (item : Anime)
      → In item items
      → matches lower query item ≡ true
      → In item (filtered lower query items)
  unfolding filtered
  filtered_complete [] item i kept = elim i [ ]
  filtered_complete (x ∷ items) _ here kept =
      subst (λ b. In x (if b then x ∷ filtered lower query items else filtered lower query items))
        (sym kept) here
  filtered_complete (x ∷ items) item (there i) kept =
      In-kept x (matches lower query x) (filtered_complete items item i kept)

-- The results are the items that match the query, no more and no fewer.
pub filtered_iff :
    (lower : Str → Str) (query : Str) (items : List Anime) (item : Anime)
    → In item (filtered lower query items) ↔ (In item items × (matches lower query item ≡ true))
filtered_iff lower query items item =
    (filtered_sound lower query items item, λ h. filtered_complete lower query items item h.0 h.1)

-- A search for a text finds it wherever it stands in a title.
has_prefix-append : (query t : Str) → has_prefix (query ++ t) query ≡ true
unfolding has_prefix
has_prefix-append [] t = refl
has_prefix-append (x ∷ query) t = ground (arith, has_prefix-append query t)

contains-prefix : (query t : Str) → contains (query ++ t) query ≡ true
unfolding contains has_prefix
contains-prefix [] [] = refl
contains-prefix [] (y ∷ t) = refl
contains-prefix (x ∷ query) t = ground (arith, has_prefix-append (x ∷ query) t)

pub contains-append : (s query t : Str) → contains (s ++ query ++ t) query ≡ true
unfolding contains
contains-append [] query t = contains-prefix query t
contains-append (x ∷ s) query t = ground (arith, contains-append s query t)
