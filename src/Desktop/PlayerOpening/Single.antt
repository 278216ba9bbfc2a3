-- ===== src/Desktop/PlayerOpening/Single.antt =====
-- The invariant of playerOpening in apps/desktop/player_opening.go: a load has one lookup at most.
use mathlib.Core.Path.{subst}
use anime_portable.Desktop.PlayerOpening.{
  OpeningLookup, stop_lookup, OpeningUpdate, ShownOpening, ask_opening, PlayerOpening,
  opening_playing, PlayRequest, with_cancelled,
}
use anime_portable.Prelude.{
  ℕ, ◌+◌, ◌/◌, ◌≤◌, ◌<◌, ◌==◌, if◌then◌else◌, Bool-cases, length, All, In, All-map, is_empty, ℤ,
  pos, pos_part, leb_ℤ, Duration, ◌≡◌, refl, ◌⊎◌, inl, inr, Bool, true, false, ◌||◌, Option, none,
  some, List, ◌∷◌, arith, total, some-eq, here, there,
}

abbrev pub one_if : Bool → ℕ
one_if b = if b then 1 else 0

abbrev pub of_lookup : ℕ → OpeningLookup → ℕ
of_lookup g lookup = one_if (lookup.generation == g)

abbrev pub of_update : ℕ → OpeningUpdate → ℕ
of_update g update = one_if (update.generation == g)

-- A load's share in what was shown.
abbrev pub of_shown : ℕ → ShownOpening → ℕ
of_shown g shown = one_if (shown.generation == g)

-- The lookups of a load, in each of their stages.
abbrev pub lookups_of : ℕ → PlayerOpening → ℕ
lookups_of g s =
    total (of_lookup g) s.lookups + total (of_update g) s.updates + total (of_shown g) s.shown

-- A lookup that is cancelled, or the one that stop would cancel.
abbrev pub IsHeld : Option ℕ → List ℕ → OpeningLookup → Type 0
IsHeld cancel cancelled lookup = (cancel ≡ some lookup.number) ⊎ In lookup.number cancelled

-- What was shown while its load was on screen.
abbrev pub IsOnScreen : ShownOpening → Type 0
IsOnScreen shown = shown.on_screen ≡ shown.generation

-- A load has one lookup at most, and none before it is asked for.
pub record IsSingle (s : PlayerOpening) : Type 0 where
  pub asked : s.asked ≤ s.view
  pub once : (g : ℕ) → lookups_of g s ≤ 1
  pub fresh : (g : ℕ) → s.asked < g → lookups_of g s ≡ 0
  pub on_screen : All IsOnScreen s.shown
  pub held : All (IsHeld s.cancel s.cancelled) s.lookups

with_cancelled-In :
    (cancel : Option ℕ) (cancelled : List ℕ) (lookup : OpeningLookup)
    → IsHeld cancel cancelled lookup
    → In lookup.number (with_cancelled cancel cancelled)
with_cancelled-In none cancelled lookup (inl e) = cc
with_cancelled-In none cancelled lookup (inr i) = i
with_cancelled-In (some n) cancelled lookup (inl e) =
    subst (λ m. In m (n ∷ cancelled)) (some-eq e) here
with_cancelled-In (some n) cancelled lookup (inr i) = there i

-- stop cancels every lookup that still runs.
pub stopped-All :
    (s : PlayerOpening)
    → IsSingle s
    → All (λ (lookup : OpeningLookup). In lookup.number (stop_lookup s).cancelled) s.lookups
unfolding stop_lookup
stopped-All s single =
    All-map (λ lookup held. with_cancelled-In s.cancel s.cancelled lookup held) s.lookups
      single.held

pub stop-IsSingle : (s : PlayerOpening) → IsSingle s → IsSingle (stop_lookup s)
unfolding stop_lookup
stop-IsSingle s single = record {
  asked = single.asked;
  once = single.once;
  fresh = single.fresh;
  on_screen = single.on_screen;
  held = All-map (λ lookup i. inr i) s.lookups (stopped-All s single);
}

ask-IsSingle :
    (request : PlayRequest) (millis : ℤ) (s : PlayerOpening)
    → (s.view == s.asked) ≡ false
    → IsSingle s
    → IsSingle (ask_opening s.view request millis s)
unfolding ask_opening stop_lookup
ask-IsSingle request millis s other single = record {
  asked = omega arith;
  once = λ g. elim (Bool-cases (s.view == g)) [
    | inl same ↦ ground (arith, same, fresh g same)
    | inr distinct ↦ ground (arith, distinct, single.once g)
  ];
  fresh = λ g after. ground (arith, after, ahead, single.fresh g (omega (arith, after, ahead)));
  on_screen = single.on_screen;
  held = (inl refl, All-map (λ lookup i. inr i) s.lookups (stopped-All s single));
}
  where
    ahead : s.asked < s.view
    ahead = ground (arith, other, single.asked)

    fresh : (g : ℕ) → (s.view == g) ≡ true → lookups_of g s ≡ 0
    fresh g same = single.fresh g (ground (arith, same, ahead))

pub playing-IsSingle :
    (request : PlayRequest) (length : Duration) (s : PlayerOpening)
    → IsSingle s
    → IsSingle (opening_playing s.view request length s)
unfolding opening_playing
playing-IsSingle request length s single = elim (Bool-cases (s.view == s.asked)) [
  | inl same ↦ rw same single
  | inr other ↦ rw other (
      pass (leb_ℤ length (pos 0) || is_empty request.anime_id || is_empty request.episode_id) other)
]
  where
    asks : PlayerOpening
    asks = ask_opening s.view request (pos (pos_part length / 1000000)) s

    pass : (b : Bool) → (s.view == s.asked) ≡ false → IsSingle (if b then s else asks)
    pass true other = single
    pass false other = ask-IsSingle request (pos (pos_part length / 1000000)) s other single
