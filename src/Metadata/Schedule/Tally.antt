-- ===== src/Metadata/Schedule/Tally.antt =====
-- The map of MatchSchedule in core/schedule.go, by what its loop says of one key.
use anime_portable.Metadata.Schedule.{ambiguous, add_key}
use mathlib.Core.Path.{subst}
use anime_portable.Prelude.{
  if◌then◌else◌, Bool-cases, All, In, Str, str_eq, is_empty, str_eq_iff, str_eq_refl, ◌≡◌, refl,
  sym, ap, ◌∙◌, ◌⊎◌, inl, inr, Bool, true, false, Option, none, some, List, [], ◌∷◌, arith, there,
  get_key, get_key-set_key_same, here, get_key-set_key_other,
}
use anime_portable.Models.{AnimeId}

abbrev pub Pair : Type 0
Pair = Str × AnimeId

-- An ID that is no mark of the loop's.
abbrev pub IsId : AnimeId → Type 0
IsId id = str_eq id ambiguous ≡ false

-- Of the titles' keys, one names one anime only.
abbrev pub Names : List (Str × AnimeId) → Str → AnimeId → Type 0
Names pairs key id = In (key, id) pairs × ((other : AnimeId) → In (key, other) pairs → other ≡ id)

unfoldable pub add_pairs : List Pair → List Pair → List Pair
add_pairs by_title [] = by_title
add_pairs by_title ((key, id) ∷ pairs) = add_pairs (add_key by_title key id) pairs

-- What the map says of a key, one pair after the other.
abbrev merge : Option AnimeId → AnimeId → Option AnimeId
merge none id = some id
merge (some old) id = some (if str_eq old id then id else ambiguous)

unfoldable pub tally : Str → Option AnimeId → List Pair → Option AnimeId
tally key seen [] = seen
tally key seen ((k, id) ∷ pairs) = tally key (if str_eq k key then merge seen id else seen) pairs

get-add_key_same :
    (by_title : List Pair) (k : Str) (id : AnimeId)
    → is_empty k ≡ false
    → get_key (add_key by_title k id) k ≡ merge (get_key by_title k) id
unfolding add_key
get-add_key_same by_title k id full =
    ground (arith, get_key-set_key_same by_title k id, get_key-set_key_same by_title k ambiguous)

pub get-add_key_other :
    (by_title : List Pair) (k : Str) (id : AnimeId) (key : Str)
    → str_eq k key ≡ false
    → get_key (add_key by_title k id) key ≡ get_key by_title key
unfolding add_key
get-add_key_other by_title k id key other = ground (
  arith,
  get_key-set_key_other by_title k key id other,
  get_key-set_key_other by_title k key ambiguous other,
)

get-add_key :
    (by_title : List Pair) (k : Str) (id : AnimeId) (key : Str)
    → is_empty key ≡ false
    → get_key (add_key by_title k id) key
      ≡ (if str_eq k key then merge (get_key by_title key) id else get_key by_title key)
get-add_key by_title k id key full =
    let motive = λ (b : Bool).
      get_key (add_key by_title k id) key
      ≡ (if b then merge (get_key by_title key) id else get_key by_title key) in
    elim (Bool-cases (str_eq k key)) [
      | inl same ↦ subst motive (sym same) (
          subst (λ x. get_key (add_key by_title k id) x ≡ merge (get_key by_title x) id)
            ((str_eq_iff k key).0 same)
            (get-add_key_same by_title k id (ap is_empty ((str_eq_iff k key).0 same) ∙ full)))
      | inr other ↦ subst motive (sym other) (get-add_key_other by_title k id key other)
    ]

pub get-add_pairs :
    (by_title pairs : List Pair) (key : Str)
    → is_empty key ≡ false
    → get_key (add_pairs by_title pairs) key ≡ tally key (get_key by_title key) pairs
unfolding add_pairs tally
get-add_pairs by_title [] key full = refl
get-add_pairs by_title ((k, id) ∷ pairs) key full =
    get-add_pairs (add_key by_title k id) pairs key full
    ∙ ap (λ o. tally key o pairs) (get-add_key by_title k id key full)

tally-ambiguous :
    (key : Str) (pairs : List Pair)
    → All (λ p. IsId p.1) pairs
    → tally key (some ambiguous) pairs ≡ some ambiguous
unfolding tally
tally-ambiguous key [] h = refl
tally-ambiguous key ((k, id) ∷ pairs) h =
    subst (λ o. tally key o pairs ≡ some ambiguous) (ground (arith, str_eq_iff ambiguous id))
      (tally-ambiguous key pairs h.1)

In-pair :
    (key other k id : Str) (pairs : List Pair)
    → In (key, other) ((k, id) ∷ pairs)
    → ((str_eq k key ≡ true) × (other ≡ id)) ⊎ In (key, other) pairs
In-pair key other _ _ pairs here = inl (str_eq_refl key, refl)
In-pair key other k id pairs (there i) = inr i

-- One pair more: its key is another, or it is this one.
tally-cons :
    (key : Str) (seen : Option AnimeId) (k : Str) (id : AnimeId) (pairs : List Pair)
    (found : AnimeId)
    → tally key seen ((k, id) ∷ pairs) ≡ some found
    → ((str_eq k key ≡ false) × (tally key seen pairs ≡ some found))
      ⊎ ((str_eq k key ≡ true) × (tally key (merge seen id) pairs ≡ some found))
unfolding tally
tally-cons key seen k id pairs found e =
    let motive = λ (b : Bool). tally key (if b then merge seen id else seen) pairs ≡ some found in
    elim (Bool-cases (str_eq k key)) [
      | inl same ↦ inr (same, subst motive same e)
      | inr other ↦ inl (other, subst motive other e)
    ]

some-inj : {a b : AnimeId} → some a ≡ some b → a ≡ b
some-inj e = cc

-- The value of a key that has been seen with one ID.
tally-seen :
    (key : Str) (seen : AnimeId) (pairs : List Pair) (found : AnimeId)
    → All (λ p. IsId p.1) pairs
    → tally key (some seen) pairs ≡ some found
    → IsId found
    → (seen ≡ found) × ((other : AnimeId) → In (key, other) pairs → other ≡ found)
unfolding tally
tally-seen key seen [] found h e is = (some-inj e, λ other i. elim i [ ])
tally-seen key seen ((k, id) ∷ pairs) found h e is =
    elim (tally-cons key (some seen) k id pairs found e) [
      | inl (different, later) ↦
          let (first, all) = tally-seen key seen pairs found h.1 later is in
          (
            first,
            λ other i. elim (In-pair key other k id pairs i) [
              | inl (same, _) ↦ absurd (cc)
              | inr j ↦ all other j
            ],
          )
      | inr (same, later) ↦ elim (Bool-cases (str_eq seen id)) [
        | inl equal ↦
            let (first, all) =
              tally-seen key id pairs found h.1
                (subst (λ b. tally key (some (if b then id else ambiguous)) pairs ≡ some found)
                  equal later)
                is in
            (
              (str_eq_iff seen id).0 equal ∙ first,
              λ other i. elim (In-pair key other k id pairs i) [
                | inl (_, e') ↦ e' ∙ first
                | inr j ↦ all other j
              ],
            )
        | inr differ ↦
            let clash =
              sym (tally-ambiguous key pairs h.1)
              ∙ subst (λ b. tally key (some (if b then id else ambiguous)) pairs ≡ some found)
                  differ later in
            absurd (
              ground
                (arith, is, str_eq_refl ambiguous, subst (λ x. IsId x) (sym (some-inj clash)) is))
      ]
    ]

-- A key that stands for one ID names one anime only.
pub tally_sound :
    (key : Str) (pairs : List Pair) (found : AnimeId)
    → All (λ p. IsId p.1) pairs
    → tally key none pairs ≡ some found
    → IsId found
    → Names pairs key found
unfolding tally
tally_sound key [] found h e is = cc
tally_sound key ((k, id) ∷ pairs) found h e is = elim (tally-cons key none k id pairs found e) [
  | inl (different, later) ↦
      let (i, all) = tally_sound key pairs found h.1 later is in
      (
        there i,
        λ other j. elim (In-pair key other k id pairs j) [
          | inl (same, _) ↦ absurd (cc)
          | inr l ↦ all other l
        ],
      )
  | inr (same, later) ↦
      let (first, all) = tally-seen key id pairs found h.1 later is in
      (
        subst (λ x. In (x, found) ((k, id) ∷ pairs)) ((str_eq_iff k key).0 same)
            (subst (λ x. In (k, x) ((k, id) ∷ pairs)) first here),
        λ other j. elim (In-pair key other k id pairs j) [
          | inl (_, e') ↦ e' ∙ first
          | inr l ↦ all other l
        ],
      )
]

first_is :
    (key : Str) (k : Str) (id found : AnimeId) (pairs : List Pair)
    → ((other : AnimeId) → In (key, other) ((k, id) ∷ pairs) → other ≡ found)
    → str_eq k key ≡ true
    → id ≡ found
first_is key k id found pairs all same =
    all id (subst (λ x. In (x, id) ((k, id) ∷ pairs)) ((str_eq_iff k key).0 same) here)

tally-kept :
    (key : Str) (pairs : List Pair) (found : AnimeId)
    → ((other : AnimeId) → In (key, other) pairs → other ≡ found)
    → tally key (some found) pairs ≡ some found
unfolding tally
tally-kept key [] found all = refl
tally-kept key ((k, id) ∷ pairs) found all =
    subst (λ o. tally key o pairs ≡ some found) (kept (Bool-cases (str_eq k key)))
      (tally-kept key pairs found (λ other i. all other (there i)))
  where
    kept :
        (str_eq k key ≡ true) ⊎ (str_eq k key ≡ false)
        → some found ≡ (if str_eq k key then merge (some found) id else some found)
    kept (inl same) =
        ground (arith, same, first_is key k id found pairs all same, str_eq_iff found id)
    kept (inr other) = ground (arith, other)

-- A key that names one anime only stands for its ID.
pub tally_complete :
    (key : Str) (pairs : List Pair) (found : AnimeId)
    → Names pairs key found
    → tally key none pairs ≡ some found
unfolding tally
tally_complete key [] found (i, all) = elim i [ ]
tally_complete key ((k, id) ∷ pairs) found (i, all) = elim (Bool-cases (str_eq k key)) [
  | inl same ↦
      subst (λ b. tally key (if b then some id else none) pairs ≡ some found) (sym same)
        (subst (λ x. tally key (some x) pairs ≡ some found)
          (sym (first_is key k id found pairs all same))
          (tally-kept key pairs found (λ other j. all other (there j))))
  | inr other ↦
      subst (λ b. tally key (if b then some id else none) pairs ≡ some found) (sym other)
        (elim (In-pair key found k id pairs i) [
          | inl (same, _) ↦ absurd (cc)
          | inr j ↦ tally_complete key pairs found (j, λ x l. all x (there l))
        ])
]
